-- ===== src/E2e/Slice.antt =====
-- `bytesEqual` and `readSlice` of web/static/e2e.js.
pub mod Retry
use k_quickshare.Base.{
  arith, ◌∷◌, [], false, true, Bool, ◌↔◌, ap₂, refl, ◌≡◌, bit_xor, bit_or, ◌-◌, ◌+◌, suc, zero, ℕ,
  err, ok, file_unreadable, aborted, Result, length, Bytes, bit_or-zero, bit_xor_self, bit_xor-zero,
  if◌then◌else◌, ◌==◌,
}

-- `diff |= a[i] ^ b[i]` over two arrays of one length.
unfoldable pub difference : ℕ → Bytes → Bytes → ℕ
difference diff [] b = diff
difference diff (x ∷ a) [] = diff
difference diff (x ∷ a) (y ∷ b) = difference (bit_or diff (bit_xor x y)) a b

unfoldable pub bytes_equal : Bytes → Bytes → Bool
bytes_equal a b = if length a == length b then difference 0 a b == 0 else false

difference-zero :
    (diff : ℕ) (a b : Bytes) → length a ≡ length b → difference diff a b ≡ 0 → (diff ≡ 0) × (a ≡ b)
unfolding difference
difference-zero diff [] [] h e = (e, refl)
difference-zero diff [] (y ∷ b) h e = absurd (omega arith)
difference-zero diff (x ∷ a) [] h e = absurd (omega arith)
difference-zero diff (x ∷ a) (y ∷ b) h e =
    let (z, same) = difference-zero (bit_or diff (bit_xor x y)) a b (omega arith) e in
    let (d, xy) = bit_or-zero diff (bit_xor x y) z in
    (d, ap₂ (λ u v. u ∷ v) (bit_xor-zero x y xy) same)

difference_self : (a : Bytes) → difference 0 a a ≡ 0
unfolding difference
difference_self [] = refl
difference_self (x ∷ a) = rw (bit_xor_self x) (difference_self a)

-- The comparison without early exit holds exactly when the arrays are the same.
pub bytes_equal_iff : (a b : Bytes) → (bytes_equal a b ≡ true) ↔ (a ≡ b)
unfolding bytes_equal
bytes_equal_iff a b = (to, λ e. rw (← e) (ground (arith, difference_self a)))
  where
    to : bytes_equal a b ≡ true → a ≡ b
    to e = (difference-zero 0 a b (ground arith) (ground arith)).1

-- What one way of reading a slice yields: bytes, a failure, or an `AbortError`.
pub data Read : Type 0 where
  got : Bytes → Read
  failed : Read
  abort : Read

-- A pass of the loop: the cancellation token as it starts, and the two ways of reading.
pub record Attempt : Type 0 where
  pub cancelled : Bool
  pub direct : Read
  pub via_reader : Read

-- `sized`: a short or long read is a failed read.
unfoldable pub sized : ℕ → Read → Read
sized want (got buf) = if length buf == want then got buf else failed
sized want r = r

-- The pauses between the passes change nothing but the time. `left` passes of four remain.
unfoldable pub read_loop : ℕ → ℕ → ℕ → (ℕ → Attempt) → Result Bytes
read_loop zero n want attempts = err file_unreadable
read_loop (suc left) n want attempts =
    let again = read_loop left (n + 1) want attempts in
    if (attempts n).cancelled then err aborted else elim (sized want (attempts n).direct) [
      | got buf ↦ ok buf
      | abort ↦ err aborted
      | failed ↦ elim (sized want (attempts n).via_reader) [
        | got buf ↦ ok buf
        | abort ↦ err aborted
        | failed ↦ again
      ]
    ]

unfoldable pub read_slice : ℕ → ℕ → (ℕ → Attempt) → Result Bytes
read_slice start end attempts = read_loop 4 0 (end - start) attempts
