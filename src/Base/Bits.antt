-- ===== src/Base/Bits.antt =====
-- Bit operations at masks and at page-aligned numbers. `up k q` is `q << k` and `down k a` is `a >> k`,
-- one place at a time; `ones k` is the mask of the lowest `k` places.
use Prim.Native.Nat.{
  ℕ, zero, suc, ◌+◌, ◌*◌, ◌/◌, ◌%◌, ◌^◌, ◌≤◌, ◌<◌, min, max, bit_and, bit_or, digits,
  bit_and-bitwise, bit_or-bitwise,
}
use mathlib.Core.Path.{◌≡◌, refl, ◌∙◌, ap}
use native.Mathlib.Omega.{arith}
use native.Mathlib.Nat.{pow-suc}

abbrev pub up : ℕ → ℕ → ℕ
up zero q = q
up (suc k) q = up k q * 2

abbrev pub down : ℕ → ℕ → ℕ
down zero a = a
down (suc k) a = down k (a / 2)

abbrev pub ones : ℕ → ℕ
ones zero = 0
ones (suc k) = ones k * 2 + 1

-- More digits to go than the first number has change nothing.
module _ (z : ℕ → ℕ) (f : ℕ → ℕ → ℕ) where
  digits_zero : (n b : ℕ) → digits z f n 0 b ≡ z b
  digits_zero zero b = refl
  digits_zero (suc n) b = refl

  digits_more : (n m a b : ℕ) → a ≤ n → a ≤ m → digits z f n a b ≡ digits z f m a b
  digits_more n m zero b p q = digits_zero n b ∙ omega (arith, digits_zero m b)
  digits_more zero m (suc a) b p q = absurd (omega arith)
  digits_more (suc n) zero (suc a) b p q = absurd (omega arith)
  digits_more (suc n) (suc m) (suc a) b p q =
      ap (λ r. r * 2 + f (suc a % 2) (b % 2))
        (digits_more n m (suc a / 2) (b / 2) (omega arith) (omega arith))

or_step : (a b : ℕ) → bit_or a b ≡ bit_or (a / 2) (b / 2) * 2 + max (a % 2) (b % 2)
or_step zero b = omega (arith, bit_or-bitwise 0 b, bit_or-bitwise 0 (b / 2))
or_step (suc a) b = omega (
  arith,
  bit_or-bitwise (suc a) b,
  bit_or-bitwise (suc a / 2) (b / 2),
  digits_more (λ b. b) max a (suc a / 2) (suc a / 2) (b / 2) (omega arith) (omega arith),
)

and_step : (a b : ℕ) → bit_and a b ≡ bit_and (a / 2) (b / 2) * 2 + min (a % 2) (b % 2)
and_step zero b = omega (arith, bit_and-bitwise 0 b, bit_and-bitwise 0 (b / 2))
and_step (suc a) b = omega (
  arith,
  bit_and-bitwise (suc a) b,
  bit_and-bitwise (suc a / 2) (b / 2),
  digits_more (λ b. 0) min a (suc a / 2) (suc a / 2) (b / 2) (omega arith) (omega arith),
)

or_none_fuel : (n a : ℕ) → a ≤ n → bit_or a 0 ≡ a
or_none_fuel n zero h = bit_or-bitwise 0 0
or_none_fuel zero (suc a) h = absurd (omega arith)
or_none_fuel (suc n) (suc a) h =
    omega (arith, or_step (suc a) 0, or_none_fuel n (suc a / 2) (omega arith))

-- Bits below the shifted ones are added.
pub bit_or-up : (k q b : ℕ) → b < 2 ^ k → bit_or (up k q) b ≡ up k q + b
bit_or-up zero q b h =
    let none : b ≡ 0 = omega arith in rw none (or_none_fuel q q (omega arith) ∙ omega arith)
bit_or-up (suc k) q b h =
    let half : up k q * 2 / 2 ≡ up k q = omega arith in
    let double : 2 ^ suc k ≡ 2 ^ k * 2 = pow-suc 2 k in
    let low = bit_or-up k q (b / 2) (omega (arith, h, double)) in
    or_step (up k q * 2) b ∙ rw (half, low) (omega arith)

-- A shifted mask selects the bits above.
pub bit_and-up : (k a w : ℕ) → bit_and a (up k w) ≡ up k (bit_and (down k a) w)
bit_and-up zero a w = refl
bit_and-up (suc k) a w =
    let half : up k w * 2 / 2 ≡ up k w = omega arith in
    and_step a (up k w * 2) ∙ rw (half, bit_and-up k (a / 2) w) (omega arith)

pub and_none_fuel : (n a : ℕ) → a ≤ n → bit_and a 0 ≡ 0
and_none_fuel n zero h = bit_and-bitwise 0 0
and_none_fuel zero (suc a) h = absurd (omega arith)
and_none_fuel (suc n) (suc a) h =
    omega (arith, and_step (suc a) 0, and_none_fuel n (suc a / 2) (omega arith))

-- A mask of ones keeps a number that fits.
pub bit_and-ones : (k a : ℕ) → a < 2 ^ k → bit_and a (ones k) ≡ a
bit_and-ones zero a h = let none : a ≡ 0 = omega arith in rw none (and_none_fuel 0 0 (omega arith))
bit_and-ones (suc k) a h =
    let double : 2 ^ suc k ≡ 2 ^ k * 2 = pow-suc 2 k in
    let half : (ones k * 2 + 1) / 2 ≡ ones k = omega arith in
    let odd : (ones k * 2 + 1) % 2 ≡ 1 = omega arith in
    and_step a (ones k * 2 + 1)
    ∙ rw (half, odd, bit_and-ones k (a / 2) (omega (arith, h, double))) (omega arith)

bit_and_le_fuel : (n a b : ℕ) → a ≤ n → bit_and a b ≤ a
bit_and_le_fuel n zero b h = omega (arith, bit_and-bitwise 0 b)
bit_and_le_fuel zero (suc a) b h = absurd (omega arith)
bit_and_le_fuel (suc n) (suc a) b h =
    omega (arith, and_step (suc a) b, bit_and_le_fuel n (suc a / 2) (b / 2) (omega arith))

pub bit_and-le : (a b : ℕ) → bit_and a b ≤ a
bit_and-le a b = bit_and_le_fuel a a b (omega arith)

-- Bits set above leave the lower ones.
pub bit_or-high : (k h w l : ℕ) → l < 2 ^ k → bit_or (up k h + l) (up k w) ≡ up k (bit_or h w) + l
bit_or-high zero h w l small =
    let none : l ≡ 0 = omega arith in
    let whole : h + l ≡ h = omega arith in rw whole (omega (arith, none))
bit_or-high (suc k) h w l small =
    let double : 2 ^ suc k ≡ 2 ^ k * 2 = pow-suc 2 k in
    let half : (up k h * 2 + l) / 2 ≡ up k h + l / 2 = omega arith in
    let half' : up k w * 2 / 2 ≡ up k w = omega arith in
    let low = bit_or-high k h w (l / 2) (omega (arith, small, double)) in
    or_step (up k h * 2 + l) (up k w * 2) ∙ rw (half, half', low) (omega arith)

-- The lowest `k` places.
abbrev low : ℕ → ℕ → ℕ
low zero a = 0
low (suc k) a = low k (a / 2) * 2 + a % 2

and_ones : (k a : ℕ) → bit_and (ones k) a ≡ low k a
and_ones zero a = bit_and-bitwise 0 a
and_ones (suc k) a =
    let half : (ones k * 2 + 1) / 2 ≡ ones k = omega arith in
    let odd : (ones k * 2 + 1) % 2 ≡ 1 = omega arith in
    and_step (ones k * 2 + 1) a ∙ rw (half, odd, and_ones k (a / 2)) (omega arith)

pub bit_and_nine : (a : ℕ) → bit_and 511 a ≡ a % 512
bit_and_nine a = and_ones 9 a ∙ omega arith

pub bit_and-high :
    (k h w l : ℕ) → l < 2 ^ k → bit_and (up k h + l) (up k w + ones k) ≡ up k (bit_and h w) + l
bit_and-high zero h w l small =
    let none : l ≡ 0 = omega arith in
    let whole : h + l ≡ h = omega arith in
    let whole' : w + 0 ≡ w = omega arith in rw (whole, whole') (omega (arith, none))
bit_and-high (suc k) h w l small =
    let double : 2 ^ suc k ≡ 2 ^ k * 2 = pow-suc 2 k in
    let half : (up k h * 2 + l) / 2 ≡ up k h + l / 2 = omega arith in
    let half' : (up k w * 2 + (ones k * 2 + 1)) / 2 ≡ up k w + ones k = omega arith in
    let odd : (up k w * 2 + (ones k * 2 + 1)) % 2 ≡ 1 = omega arith in
    let low = bit_and-high k h w (l / 2) (omega (arith, small, double)) in
    and_step (up k h * 2 + l) (up k w * 2 + (ones k * 2 + 1))
    ∙ rw (half, half', odd, low) (omega arith)

-- A mask of ones absorbs what fits.
pub bit_or-ones : (k a : ℕ) → a < 2 ^ k → bit_or a (ones k) ≡ ones k
bit_or-ones zero a h = let none : a ≡ 0 = omega arith in rw none (bit_or-bitwise 0 0)
bit_or-ones (suc k) a h =
    let double : 2 ^ suc k ≡ 2 ^ k * 2 = pow-suc 2 k in
    let half : (ones k * 2 + 1) / 2 ≡ ones k = omega arith in
    let odd : (ones k * 2 + 1) % 2 ≡ 1 = omega arith in
    or_step a (ones k * 2 + 1)
    ∙ rw (half, odd, bit_or-ones k (a / 2) (omega (arith, h, double))) (omega arith)
