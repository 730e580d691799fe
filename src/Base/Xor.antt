-- ===== src/Base/Xor.antt =====
-- Laws of `^`: the digits above the lowest `k`, order, and a field shifted past a smaller one.
use Prim.Native.Nat.{ℕ, zero, suc, ◌+◌, ◌*◌, ◌/◌, ◌%◌, ◌^◌, ◌≤◌, ◌<◌, bit_xor, differ}
use mathlib.Core.Path.{◌≡◌, refl, sym, ap, ◌∙◌}
use native.Mathlib.Nat.{two-pow-succ}
use native.Mathlib.Omega.{arith}
use k_quickshare.Base.Bits.{bit_xor-lt, xor_step, differ_bit}

pub xor_half : (a b : ℕ) → bit_xor a b / 2 ≡ bit_xor (a / 2) (b / 2)
xor_half a b = omega (arith, xor_step a b, differ_bit (a % 2) (b % 2) (omega arith) (omega arith))

pub xor_low : (a b : ℕ) → bit_xor a b % 2 ≡ differ (a % 2) (b % 2)
xor_low a b = omega (arith, xor_step a b, differ_bit (a % 2) (b % 2) (omega arith) (omega arith))

xor-nothing_upto : (n a : ℕ) → a ≤ n → bit_xor a 0 ≡ a
xor-nothing_upto zero a h = let a0 : a ≡ 0 = omega arith in rw a0
xor-nothing_upto (suc n) a h =
    omega (arith, xor_step a 0, xor-nothing_upto n (a / 2) (omega arith), differ_nothing (a % 2))
  where
    differ_nothing : (x : ℕ) → differ x 0 ≡ x
    differ_nothing zero = refl
    differ_nothing (suc x) = refl

pub bit_xor_nothing : (a : ℕ) → bit_xor a 0 ≡ a
bit_xor_nothing a = xor-nothing_upto a a (omega arith)

differ_swap : (x y z : ℕ) → x < 2 → y < 2 → z < 2 → differ x (differ y z) ≡ differ y (differ x z)
differ_swap zero y z hx hy hz = refl
differ_swap (suc zero) zero z hx hy hz = refl
differ_swap (suc zero) (suc zero) z hx hy hz = refl
differ_swap (suc zero) (suc (suc y)) z hx hy hz = absurd (omega arith)
differ_swap (suc (suc x)) y z hx hy hz = absurd (omega arith)

xor-swap_upto : (n x y z : ℕ) → x + y + z ≤ n → bit_xor x (bit_xor y z) ≡ bit_xor y (bit_xor x z)
xor-swap_upto zero x y z h =
    let x0 : x ≡ 0 = omega arith in let y0 : y ≡ 0 = omega arith in rw (x0, y0) refl
xor-swap_upto (suc n) x y z h =
    let low : differ (x % 2) (differ (y % 2) (z % 2)) ≡ differ (y % 2) (differ (x % 2) (z % 2)) =
      differ_swap (x % 2) (y % 2) (z % 2) (omega arith) (omega arith) (omega arith) in
    let left : bit_xor (x / 2) (bit_xor y z / 2) ≡ bit_xor (x / 2) (bit_xor (y / 2) (z / 2)) =
      ap (bit_xor (x / 2)) (xor_half y z) in
    let right : bit_xor (y / 2) (bit_xor x z / 2) ≡ bit_xor (y / 2) (bit_xor (x / 2) (z / 2)) =
      ap (bit_xor (y / 2)) (xor_half x z) in
    let left_low : differ (x % 2) (bit_xor y z % 2) ≡ differ (x % 2) (differ (y % 2) (z % 2)) =
      ap (differ (x % 2)) (xor_low y z) in
    let right_low : differ (y % 2) (bit_xor x z % 2) ≡ differ (y % 2) (differ (x % 2) (z % 2)) =
      ap (differ (y % 2)) (xor_low x z) in
    omega (
      arith,
      xor_step x (bit_xor y z),
      xor_step y (bit_xor x z),
      left,
      right,
      left_low,
      right_low,
      low,
      xor-swap_upto n (x / 2) (y / 2) (z / 2) (omega arith),
    )

pub bit_xor_swap : (x y z : ℕ) → bit_xor x (bit_xor y z) ≡ bit_xor y (bit_xor x z)
bit_xor_swap x y z = xor-swap_upto (x + y + z) x y z (omega arith)

pub bit_xor_comm : (x y : ℕ) → bit_xor x y ≡ bit_xor y x
bit_xor_comm x y =
    ap (bit_xor x) (sym (bit_xor_nothing y))
    ∙ bit_xor_swap x y 0
    ∙ ap (bit_xor y) (bit_xor_nothing x)

-- `a << k ^ b`, where `b` has at most `k` digits.
pub bit_xor-shift : (k a b : ℕ) → b < 2 ^ k → bit_xor (a * 2 ^ k) b ≡ a * 2 ^ k + b
bit_xor-shift zero a b h =
    let b0 : b ≡ 0 = omega arith in
    let a1 : a * 2 ^ 0 ≡ a = omega arith in rw (b0, a1, bit_xor_nothing a) (omega arith)
bit_xor-shift (suc k) a b h =
    let e : a * 2 ^ suc k ≡ a * 2 ^ k + a * 2 ^ k =
      omega (arith, ap (λ (t : ℕ). a * t) (two-pow-succ k)) in
    let half : a * 2 ^ suc k / 2 ≡ a * 2 ^ k = omega arith in
    let low : a * 2 ^ suc k % 2 ≡ 0 = omega arith in
    xor_step (a * 2 ^ suc k) b
    ∙ rw (half, low, bit_xor-shift k a (b / 2) (omega (arith, two-pow-succ k))) (omega arith)

-- A byte reaches the lowest eight digits only.
pub xor_byte :
    (c b : ℕ)
    → b < 256
    → (bit_xor c b ≡ bit_xor (c / 256 * 256) (bit_xor (c % 256) b))
      × (bit_xor (c % 256) b < 256)
      × (bit_xor (c / 256 * 256) (bit_xor (c % 256) b) ≡ c / 256 * 256 + bit_xor (c % 256) b)
xor_byte c b h =
    let small : bit_xor (c % 256) b < 256 = bit_xor-lt 8 (c % 256) b (omega arith) h in
    let parts : bit_xor (c / 256 * 256) (c % 256) ≡ c =
      bit_xor-shift 8 (c / 256) (c % 256) (omega arith) ∙ (omega arith) in
    (
      ap (λ n. bit_xor n b) (sym parts)
          ∙ bit_xor_comm (bit_xor (c / 256 * 256) (c % 256)) b
          ∙ bit_xor_swap b (c / 256 * 256) (c % 256)
          ∙ ap (bit_xor (c / 256 * 256)) (bit_xor_comm b (c % 256)),
      small,
      bit_xor-shift 8 (c / 256) (bit_xor (c % 256) b) small,
    )
