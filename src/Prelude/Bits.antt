-- ===== src/Prelude/Bits.antt =====
-- `bit_and` and `bit_or` with a mask of ones at the low or the high end, as arithmetic.
use Prim.Native.Nat.{
  ℕ, zero, suc, ◌+◌, ◌*◌, ◌/◌, ◌%◌, ◌≤◌, min, max, bit_and, bit_or, digits, bit_and-bitwise,
  bit_or-bitwise,
}
use mathlib.Core.Path.{◌≡◌, refl, ap}
use native.Mathlib.Omega.{arith}

-- More digits to go than there are change nothing.
digits_enough :
    (z : ℕ → ℕ) (f : ℕ → ℕ → ℕ) (n m a b : ℕ) → a ≤ n → a ≤ m → digits z f n a b ≡ digits z f m a b
digits_enough z f zero zero a b p q = refl
digits_enough z f zero (suc m) zero b p q = refl
digits_enough z f zero (suc m) (suc a) b p q = absurd (omega arith)
digits_enough z f (suc n) zero zero b p q = refl
digits_enough z f (suc n) zero (suc a) b p q = absurd (omega arith)
digits_enough z f (suc n) (suc m) zero b p q = refl
digits_enough z f (suc n) (suc m) (suc a) b p q =
    ap (λ x. x * 2 + f (suc a % 2) (b % 2))
      (digits_enough z f n m (suc a / 2) (b / 2) (omega arith) (omega arith))

pub bit_and_step : (a b : ℕ) → bit_and a b ≡ bit_and (a / 2) (b / 2) * 2 + min (a % 2) (b % 2)
bit_and_step zero b = omega (arith, bit_and-bitwise 0 b, bit_and-bitwise 0 (b / 2))
bit_and_step (suc a) b =
    let same =
      digits_enough (λ b. zero) min a (suc a / 2) (suc a / 2) (b / 2) (omega arith) (omega arith) in
    omega (arith, bit_and-bitwise (suc a) b, bit_and-bitwise (suc a / 2) (b / 2), same)

pub bit_or_step : (a b : ℕ) → bit_or a b ≡ bit_or (a / 2) (b / 2) * 2 + max (a % 2) (b % 2)
bit_or_step zero b = omega (arith, bit_or-bitwise 0 b, bit_or-bitwise 0 (b / 2))
bit_or_step (suc a) b =
    let same =
      digits_enough (λ b. b) max a (suc a / 2) (suc a / 2) (b / 2) (omega arith) (omega arith) in
    omega (arith, bit_or-bitwise (suc a) b, bit_or-bitwise (suc a / 2) (b / 2), same)

-- The lowest `k` digits, the rest of the digits, and a number with `k` zeros behind it.
abbrev pub low : ℕ → ℕ → ℕ
low zero a = 0
low (suc k) a = low k (a / 2) * 2 + a % 2

abbrev pub down : ℕ → ℕ → ℕ
down zero a = a
down (suc k) a = down k (a / 2)

abbrev pub up : ℕ → ℕ → ℕ
up zero a = a
up (suc k) a = up k a * 2

-- `k` ones.
abbrev pub ones : ℕ → ℕ
ones zero = 0
ones (suc k) = ones k * 2 + 1

bit_and-zero_enough : (n a : ℕ) → a ≤ n → bit_and a 0 ≡ 0
bit_and-zero_enough n zero h = refl
bit_and-zero_enough zero (suc a) h = absurd (omega arith)
bit_and-zero_enough (suc n) (suc a) h =
    omega (arith, bit_and_step (suc a) 0, bit_and-zero_enough n (suc a / 2) (omega arith))

bit_or-zero_enough : (n a : ℕ) → a ≤ n → bit_or a 0 ≡ a
bit_or-zero_enough n zero h = refl
bit_or-zero_enough zero (suc a) h = absurd (omega arith)
bit_or-zero_enough (suc n) (suc a) h =
    omega (arith, bit_or_step (suc a) 0, bit_or-zero_enough n (suc a / 2) (omega arith))

pub bit_and-ones : (k a : ℕ) → bit_and a (ones k) ≡ low k a
bit_and-ones zero a = bit_and-zero_enough a a (omega arith)
bit_and-ones (suc k) a =
    let half : (ones k * 2 + 1) / 2 ≡ ones k = omega arith in
    omega
      (arith, bit_and_step a (ones k * 2 + 1), ap (bit_and (a / 2)) half, bit_and-ones k (a / 2))

pub bit_and-up : (k a m : ℕ) → bit_and a (up k m) ≡ up k (bit_and (down k a) m)
bit_and-up zero a m = refl
bit_and-up (suc k) a m =
    let half : up k m * 2 / 2 ≡ up k m = omega arith in
    omega (arith, bit_and_step a (up k m * 2), ap (bit_and (a / 2)) half, bit_and-up k (a / 2) m)

pub bit_or_congr : {a a' b b' : ℕ} → a ≡ a' → b ≡ b' → bit_or a b ≡ bit_or a' b'
bit_or_congr p q = λ i. bit_or (p i) (q i)

pub bit_or-up-low : (k a b : ℕ) → bit_or (up k a) (low k b) ≡ up k a + low k b
bit_or-up-low zero a b = omega (arith, bit_or-zero_enough a a (omega arith))
bit_or-up-low (suc k) a b =
    let half : up k a * 2 / 2 ≡ up k a = omega arith in
    let rest : (low k (b / 2) * 2 + b % 2) / 2 ≡ low k (b / 2) = omega arith in
    omega (
      arith,
      bit_or_step (up k a * 2) (low k (b / 2) * 2 + b % 2),
      bit_or_congr half rest,
      bit_or-up-low k a (b / 2),
    )

pub bit_or-low-up : (k a b : ℕ) → bit_or (low k b) (up k a) ≡ low k b + up k a
bit_or-low-up zero a b = omega (arith, bit_or-bitwise 0 a)
bit_or-low-up (suc k) a b =
    let half : up k a * 2 / 2 ≡ up k a = omega arith in
    let rest : (low k (b / 2) * 2 + b % 2) / 2 ≡ low k (b / 2) = omega arith in
    omega (
      arith,
      bit_or_step (low k (b / 2) * 2 + b % 2) (up k a * 2),
      bit_or_congr rest half,
      bit_or-low-up k a (b / 2),
    )
