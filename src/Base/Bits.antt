-- ===== src/Base/Bits.antt =====
-- `&`, `|` and `^` on numbers: the step to the digits above the lowest, and the shapes that the
-- program uses (a low mask, a shifted field joined to a smaller one, a bound).
use Prim.Native.Nat.{
  ℕ, zero, suc, ◌+◌, ◌-◌, ◌*◌, ◌/◌, ◌%◌, ◌^◌, ◌≤◌, ◌<◌, min, max, bit_and, bit_or, bit_xor, digits,
  bit_and-bitwise, bit_or-bitwise, bit_xor-bitwise, differ,
}
use mathlib.Core.Path.{◌≡◌, refl, sym, ap, ◌∙◌}
use native.Mathlib.Nat.{two-pow-succ, one-le-pow}
use native.Mathlib.Omega.{arith}

-- The count of digits does not matter once it is large enough.
module _ (z : ℕ → ℕ) (f : ℕ → ℕ → ℕ) where
  count_free : (m n a b : ℕ) → a ≤ m → a ≤ n → digits z f m a b ≡ digits z f n a b
  count_free zero zero zero b hm hn = refl
  count_free zero (suc n) zero b hm hn = refl
  count_free (suc m) zero zero b hm hn = refl
  count_free (suc m) (suc n) zero b hm hn = refl
  count_free zero n (suc a) b hm hn = absurd (omega arith)
  count_free (suc m) zero (suc a) b hm hn = absurd (omega arith)
  count_free (suc m) (suc n) (suc a) b hm hn =
      ap (λ d. d * 2 + f (suc a % 2) (b % 2))
        (count_free m n (suc a / 2) (b / 2) (omega arith) (omega arith))

  higher_digits :
      (a b : ℕ)
      → digits z f (suc a) (suc a) b
        ≡ digits z f (suc a / 2) (suc a / 2) (b / 2) * 2 + f (suc a % 2) (b % 2)
  higher_digits a b =
      ap (λ d. d * 2 + f (suc a % 2) (b % 2))
        (count_free a (suc a / 2) (suc a / 2) (b / 2) (omega arith) (omega arith))

and_step : (a b : ℕ) → bit_and a b ≡ bit_and (a / 2) (b / 2) * 2 + min (a % 2) (b % 2)
and_step zero b = rw (bit_and-bitwise 0 b, bit_and-bitwise 0 (b / 2)) (omega arith)
and_step (suc a) b =
    rw (bit_and-bitwise (suc a) b, bit_and-bitwise (suc a / 2) (b / 2))
      (higher_digits (λ d. zero) min a b)

or_step : (a b : ℕ) → bit_or a b ≡ bit_or (a / 2) (b / 2) * 2 + max (a % 2) (b % 2)
or_step zero b = rw (bit_or-bitwise 0 b, bit_or-bitwise 0 (b / 2)) (omega arith)
or_step (suc a) b =
    rw (bit_or-bitwise (suc a) b, bit_or-bitwise (suc a / 2) (b / 2))
      (higher_digits (λ d. d) max a b)

halves : (b : ℕ) → b ≡ b / 2 * 2 + b % 2
halves b = omega arith

pub xor_step : (a b : ℕ) → bit_xor a b ≡ bit_xor (a / 2) (b / 2) * 2 + differ (a % 2) (b % 2)
xor_step zero b = rw (bit_xor-bitwise 0 b, bit_xor-bitwise 0 (b / 2)) (halves b)
xor_step (suc a) b =
    rw (bit_xor-bitwise (suc a) b, bit_xor-bitwise (suc a / 2) (b / 2))
      (higher_digits (λ d. d) differ a b)

or-zero_upto : (n a : ℕ) → a ≤ n → bit_or a 0 ≡ a
or-zero_upto n zero h = refl
or-zero_upto zero (suc a) h = absurd (omega arith)
or-zero_upto (suc n) (suc a) h =
    omega (arith, or_step (suc a) 0, or-zero_upto n (suc a / 2) (omega arith))

and-zero_upto : (n a : ℕ) → a ≤ n → bit_and a 0 ≡ 0
and-zero_upto n zero h = refl
and-zero_upto zero (suc a) h = absurd (omega arith)
and-zero_upto (suc n) (suc a) h =
    omega (arith, and_step (suc a) 0, and-zero_upto n (suc a / 2) (omega arith))

double_shift : (a k : ℕ) → a * 2 ^ suc k ≡ a * 2 ^ k + a * 2 ^ k
double_shift a k = omega (arith, ap (λ (t : ℕ). a * t) (two-pow-succ k))

pub differ_bit : (x y : ℕ) → x < 2 → y < 2 → differ x y < 2
differ_bit zero y hx hy = hy
differ_bit (suc zero) zero hx hy = omega arith
differ_bit (suc zero) (suc y) hx hy = omega arith
differ_bit (suc (suc x)) y hx hy = absurd (omega arith)

-- `a << k | b`, where `b` has at most `k` digits.
pub bit_or-shift : (k a b : ℕ) → b < 2 ^ k → bit_or (a * 2 ^ k) b ≡ a * 2 ^ k + b
bit_or-shift zero a b h =
    let b0 : b ≡ 0 = omega arith in
    let a1 : a * 2 ^ 0 ≡ a = omega arith in
    rw (b0, a1, or-zero_upto a a (omega arith)) (omega arith)
bit_or-shift (suc k) a b h =
    let e : a * 2 ^ suc k ≡ a * 2 ^ k + a * 2 ^ k = double_shift a k in
    let half : a * 2 ^ suc k / 2 ≡ a * 2 ^ k = omega arith in
    let low : a * 2 ^ suc k % 2 ≡ 0 = omega arith in
    or_step (a * 2 ^ suc k) b
    ∙ rw (half, low, bit_or-shift k a (b / 2) (omega (arith, two-pow-succ k))) (omega arith)

mod_double : (a p : ℕ) → 1 ≤ p → a % (p + p) ≡ a / 2 % p * 2 + a % 2
mod_double a p h = grind arith

-- `a & (2 ^ k - 1)`.
pub bit_and-low : (k a : ℕ) → bit_and a (2 ^ k - 1) ≡ a % 2 ^ k
bit_and-low zero a = and-zero_upto a a (omega arith) ∙ (omega arith)
bit_and-low (suc k) a =
    let p : 1 ≤ 2 ^ k = one-le-pow k 2 (omega arith) in
    let half : (2 ^ suc k - 1) / 2 ≡ 2 ^ k - 1 = omega (arith, two-pow-succ k) in
    let low : (2 ^ suc k - 1) % 2 ≡ 1 = omega (arith, two-pow-succ k) in
    and_step a (2 ^ suc k - 1)
    ∙ rw (half, low, bit_and-low k (a / 2), two-pow-succ k) (omega (arith, mod_double a (2 ^ k) p))

pub bit_xor-lt : (k a b : ℕ) → a < 2 ^ k → b < 2 ^ k → bit_xor a b < 2 ^ k
bit_xor-lt zero a b ha hb =
    let a0 : a ≡ 0 = omega arith in let b0 : b ≡ 0 = omega arith in rw (a0, b0) (omega arith)
bit_xor-lt (suc k) a b ha hb = omega (
  arith,
  two-pow-succ k,
  xor_step a b,
  bit_xor-lt k (a / 2) (b / 2) (omega (arith, two-pow-succ k)) (omega (arith, two-pow-succ k)),
  differ_bit (a % 2) (b % 2) (omega arith) (omega arith),
)

differ_zero : (x y : ℕ) → differ x y ≡ 0 → x ≡ y
differ_zero zero y h = sym h
differ_zero (suc x) zero h = absurd (omega arith)
differ_zero (suc x) (suc y) h = ap suc (differ_zero x y h)

differ_self : (x : ℕ) → differ x x ≡ 0
differ_self zero = refl
differ_self (suc x) = differ_self x

xor-zero_upto : (n a b : ℕ) → a ≤ n → b ≤ n → bit_xor a b ≡ 0 → a ≡ b
xor-zero_upto zero a b ha hb h = omega arith
xor-zero_upto (suc n) a b ha hb h =
    let high : bit_xor (a / 2) (b / 2) ≡ 0 = omega (arith, xor_step a b) in
    let low : differ (a % 2) (b % 2) ≡ 0 = omega (arith, xor_step a b) in
    omega (
      arith,
      xor-zero_upto n (a / 2) (b / 2) (omega arith) (omega arith) high,
      differ_zero (a % 2) (b % 2) low,
    )

-- Two numbers whose exclusive or is 0 are the same.
pub bit_xor-zero : (a b : ℕ) → bit_xor a b ≡ 0 → a ≡ b
bit_xor-zero a b = xor-zero_upto (a + b) a b (omega arith) (omega arith)

xor-self_upto : (n a : ℕ) → a ≤ n → bit_xor a a ≡ 0
xor-self_upto zero a h = let a0 : a ≡ 0 = omega arith in rw a0
xor-self_upto (suc n) a h =
    omega (arith, xor_step a a, xor-self_upto n (a / 2) (omega arith), differ_self (a % 2))

pub bit_xor_self : (a : ℕ) → bit_xor a a ≡ 0
bit_xor_self a = xor-self_upto a a (omega arith)

or-zero_parts : (n a b : ℕ) → a ≤ n → b ≤ n → bit_or a b ≡ 0 → (a ≡ 0) × (b ≡ 0)
or-zero_parts zero a b ha hb h = (omega arith, omega arith)
or-zero_parts (suc n) a b ha hb h =
    let (x, y) =
      or-zero_parts n (a / 2) (b / 2) (omega arith) (omega arith) (omega (arith, or_step a b)) in
    (omega (arith, or_step a b), omega (arith, or_step a b))

-- An or is 0 only of zeros.
pub bit_or-zero : (a b : ℕ) → bit_or a b ≡ 0 → (a ≡ 0) × (b ≡ 0)
bit_or-zero a b = or-zero_parts (a + b) a b (omega arith) (omega arith)

pub bit_or_right_zero : (a : ℕ) → bit_or a 0 ≡ a
bit_or_right_zero a = or-zero_upto a a (omega arith)
