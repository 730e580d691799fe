-- ===== src/Base/Arrays.antt =====
-- Byte arrays: a `Uint8Array` is the list of its elements.
-- `set` and the `DataView` setters overwrite a stretch of an array that was allocated to hold it.
use mathlib.Core.List.{append-nil}
use k_quickshare.Base.Lists.{take-append, drop-all}
use Prim.Native.Nat.{ℕ, zero, suc, ◌+◌, ◌/◌, ◌%◌, ◌≤◌, ◌<◌}
use native.Mathlib.Nat.{zero-add, suc-add}
use mathlib.Core.Path.{refl, ◌≡◌}
use mathlib.Core.List.{List, [], ◌∷◌, ◌++◌}
use native.Mathlib.Omega.{arith}
use k_quickshare.Base.Lists.{
  length, take, drop, replicate, All, length-append, length-take, length-drop, All-append, All-take,
  All-drop,
}

abbrev pub Bytes : Type 0
Bytes = List ℕ

abbrev pub IsByte : ℕ → Type 0
IsByte b = b < 256

abbrev pub AreBytes : Bytes → Type 0
AreBytes = All IsByte

-- `new Uint8Array(n)`
abbrev pub zeros : ℕ → Bytes
zeros n = replicate n 0

-- `dst.set(src, off)`
abbrev pub write : ℕ → Bytes → Bytes → Bytes
write off src dst = take off dst ++ (src ++ drop (off + length src) dst)

-- The four bytes of `setUint32(at, n)` and the two of `setUint16(at, n)`, big end first.
abbrev pub be32 : ℕ → Bytes
be32 n = (n / 16777216 % 256) ∷ (n / 65536 % 256) ∷ (n / 256 % 256) ∷ (n % 256) ∷ []

-- The same with the argument `true`, little end first.
abbrev pub le32 : ℕ → Bytes
le32 n = (n % 256) ∷ (n / 256 % 256) ∷ (n / 65536 % 256) ∷ (n / 16777216 % 256) ∷ []

abbrev pub le16 : ℕ → Bytes
le16 n = (n % 256) ∷ (n / 256 % 256) ∷ []

pub AreBytes-zeros : (n : ℕ) → AreBytes (zeros n)
AreBytes-zeros = elim [ zero ↦ tt | suc (n → ih) ↦ (omega arith, ih) ]

pub AreBytes-write :
    (off : ℕ) (src dst : Bytes) → AreBytes src → AreBytes dst → AreBytes (write off src dst)
AreBytes-write off src dst s d =
    All-append IsByte _ _ (All-take IsByte off dst d)
      (All-append IsByte src _ s (All-drop IsByte (off + length src) dst d))

pub length-write :
    (off : ℕ) (src dst : Bytes)
    → off + length src ≤ length dst
    → length (write off src dst) ≡ length dst
length-write off src dst h = omega (
  arith,
  length-append (take off dst) (src ++ drop (off + length src) dst),
  length-append src (drop (off + length src) dst),
  length-take off dst,
  length-drop (off + length src) dst,
)

pub drop-zeros : (m n : ℕ) → drop m (zeros (m + n)) ≡ zeros n
drop-zeros zero n = rw (zero-add n)
drop-zeros (suc m) n = rw (suc-add m n) (drop-zeros m n)

-- The last stretch of an array is overwritten.
pub write_end :
    (off : ℕ) (src front back : Bytes)
    → length front ≡ off
    → length back ≡ length src
    → write off src (front ++ back) ≡ front ++ src
write_end off src front back h k =
    let none_left : drop (off + length src) (front ++ back) ≡ [] =
      drop-all (off + length src) (front ++ back) (omega (arith, length-append front back)) in
    rw (take-append off front back h, none_left, append-nil src) refl
