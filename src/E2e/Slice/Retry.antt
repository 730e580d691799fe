-- ===== src/E2e/Slice/Retry.antt =====
-- What `readSlice` returns, and when it succeeds.
use native.Mathlib.Decide.{ℕ_discrete}
use native.Mathlib.Nat.{zero-add, add-zero, suc-add}
use k_quickshare.Base.{
  inr, inl, refl, ◌↔◌, ◌∙◌, err, file_unreadable, arith, ◌<◌, ◌≤◌, ◌+◌, false, ◌⊎◌, ◌≡◌, ◌-◌, suc,
  zero, ℕ, ok, length, Bytes,
}
use k_quickshare.E2e.Slice.{abort, failed, got, sized, read_loop, Attempt, Read, read_slice}

-- A read that would be accepted.
abbrev pub IsGood : ℕ → Read → Type 0
IsGood want (got buf) = length buf ≡ want
IsGood want failed = ⊥
IsGood want abort = ⊥

-- A pass that succeeds unless it is cancelled, and one that leads to the next.
abbrev pub Succeeds : ℕ → Attempt → Type 0
Succeeds want a = IsGood want a.direct ⊎ ((sized want a.direct ≡ failed) × IsGood want a.via_reader)

abbrev pub FailsOver : ℕ → Attempt → Type 0
FailsOver want a =
    (a.cancelled ≡ false) × (sized want a.direct ≡ failed) × (sized want a.via_reader ≡ failed)

loop-length :
    (left n want : ℕ) (attempts : ℕ → Attempt) (buf : Bytes)
    → read_loop left n want attempts ≡ ok buf
    → length buf ≡ want
unfolding read_loop sized
loop-length zero n want attempts buf e = cc
loop-length (suc left) n want attempts buf e =
    ground (arith, loop-length left (n + 1) want attempts buf)

-- A slice that is returned has the length that was asked for.
pub length-read_slice :
    (start end : ℕ) (attempts : ℕ → Attempt) (buf : Bytes)
    → read_slice start end attempts ≡ ok buf
    → length buf ≡ end - start
unfolding read_slice
length-read_slice start end attempts buf e = loop-length 4 0 (end - start) attempts buf e

-- Every read of the right length yields the bytes `true_bytes`; a read of another length may not.
abbrev pub IsHonest : ℕ → Bytes → Read → Type 0
IsHonest want true_bytes r = (buf : Bytes) → sized want r ≡ got buf → buf ≡ true_bytes

abbrev pub AreHonest : ℕ → Bytes → (ℕ → Attempt) → Type 0
AreHonest want true_bytes attempts =
    (n : ℕ)
    → IsHonest want true_bytes (attempts n).direct
      × IsHonest want true_bytes (attempts n).via_reader

loop-honest :
    (left n want : ℕ) (attempts : ℕ → Attempt) (bytes buf : Bytes)
    → AreHonest want bytes attempts
    → read_loop left n want attempts ≡ ok buf
    → buf ≡ bytes
unfolding read_loop
loop-honest zero n want attempts bytes buf h e = cc
loop-honest (suc left) n want attempts bytes buf h e =
    ground (arith, (h n).0 buf, (h n).1 buf, loop-honest left (n + 1) want attempts bytes buf h)

pub read_slice-honest :
    (start end : ℕ) (attempts : ℕ → Attempt) (bytes buf : Bytes)
    → AreHonest (end - start) bytes attempts
    → read_slice start end attempts ≡ ok buf
    → buf ≡ bytes
unfolding read_slice
read_slice-honest start end attempts bytes buf h e =
    loop-honest 4 0 (end - start) attempts bytes buf h e

loop-step :
    (left n want : ℕ) (attempts : ℕ → Attempt)
    → FailsOver want (attempts n)
    → read_loop (suc left) n want attempts ≡ read_loop left (n + 1) want attempts
unfolding read_loop
loop-step left n want attempts (live, d, v) = ground arith

loop-skips :
    (k left n want : ℕ) (attempts : ℕ → Attempt)
    → ((i : ℕ) → n ≤ i → i < n + k → FailsOver want (attempts i))
    → read_loop (k + left) n want attempts ≡ read_loop left (n + k) want attempts
loop-skips zero left n want attempts fails = rw (zero-add left, add-zero n)
loop-skips (suc k) left n want attempts fails =
    let next : n + 1 + k ≡ n + suc k = omega arith in
    rw (suc-add k left) (
      loop-step (k + left) n want attempts (fails n (omega arith) (omega arith))
      ∙ loop-skips k left (n + 1) want attempts (λ i lo hi. fails i (omega arith) (omega arith))
      ∙ rw next)

sized-good : (want : ℕ) (r : Read) → IsGood want r → (buf : Bytes) × (sized want r ≡ got buf)
unfolding sized
sized-good want (got buf) g = (buf, ground arith)
sized-good want failed g = absurd g
sized-good want abort g = absurd g

loop-Succeeds :
    (left n want : ℕ) (attempts : ℕ → Attempt)
    → (attempts n).cancelled ≡ false
    → Succeeds want (attempts n)
    → (buf : Bytes) × (read_loop (suc left) n want attempts ≡ ok buf)
loop-Succeeds left n want attempts live (inl g) =
    let (buf, e) = sized-good want (attempts n).direct g in (buf, unfold read_loop in ground arith)
loop-Succeeds left n want attempts live (inr (d, g)) =
    let (buf, e) = sized-good want (attempts n).via_reader g in
    (buf, unfold read_loop in ground arith)

-- A slice is returned if, after fewer than four passes that fail both ways without a cancellation,
-- a pass that is not cancelled reads the right length.
pub read_slice-retries :
    (k start end : ℕ) (attempts : ℕ → Attempt)
    → k < 4
    → ((i : ℕ) → i < k → FailsOver (end - start) (attempts i))
    → (attempts k).cancelled ≡ false
    → Succeeds (end - start) (attempts k)
    → (buf : Bytes) × (read_slice start end attempts ≡ ok buf)
unfolding read_slice
read_slice-retries k start end attempts h fails live good =
    after_skip (loop-Succeeds (4 - k - 1) k (end - start) attempts live good)
  where
    after_skip :
        ((buf : Bytes) × (read_loop (suc (4 - k - 1)) k (end - start) attempts ≡ ok buf))
        → (buf : Bytes) × (read_loop 4 0 (end - start) attempts ≡ ok buf)
    after_skip (buf, e) =
        let four : k + (4 - k) ≡ 4 = omega arith in
        let left : 4 - k ≡ suc (4 - k - 1) = omega arith in
        let at : 0 + k ≡ k = omega arith in
        let skip =
          loop-skips k (4 - k) 0 (end - start) attempts (λ i lo hi. fails i (omega arith)) in
        (buf, rw (four, at, left) at skip ∙ e)

loop-unreadable_step :
    (left n want : ℕ) (attempts : ℕ → Attempt)
    → read_loop (suc left) n want attempts ≡ err file_unreadable
    → FailsOver want (attempts n) × (read_loop left (n + 1) want attempts ≡ err file_unreadable)
unfolding read_loop
loop-unreadable_step left n want attempts e = ground arith

loop-unreadable :
    (left n want : ℕ) (attempts : ℕ → Attempt)
    → read_loop left n want attempts ≡ err file_unreadable
    → (i : ℕ) → n ≤ i
    → i < n + left
    → FailsOver want (attempts i)
loop-unreadable zero n want attempts e i lo hi = absurd (omega arith)
loop-unreadable (suc left) n want attempts e i lo hi =
    let (here, rest) = loop-unreadable_step left n want attempts e in
    elim (ℕ_discrete n i) [
      | yes same ↦ rw (← same) here
      | no other ↦ loop-unreadable left (n + 1) want attempts rest i (omega arith) (omega arith)
    ]

-- The file is declared unreadable exactly when all four passes fail both ways and none is
-- cancelled.
pub read_slice-gives_up :
    (start end : ℕ) (attempts : ℕ → Attempt)
    → (read_slice start end attempts ≡ err file_unreadable)
      ↔ ((i : ℕ) → i < 4 → FailsOver (end - start) (attempts i))
unfolding read_slice
read_slice-gives_up start end attempts = (
  λ e i hi. loop-unreadable 4 0 (end - start) attempts e i (omega arith) (omega arith),
  λ fails.
      loop-skips 4 0 0 (end - start) attempts (λ i lo hi. fails i (omega arith))
      ∙ unfold read_loop in refl,
)
