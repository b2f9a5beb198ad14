-- ===== src/Base/Bits.antt =====
-- `|` and `&` where the operands do not overlap, or one is a mask of low bits.
use Prim.Native.Nat.{
  ℕ, zero, suc, ◌+◌, ◌-◌, ◌*◌, ◌/◌, ◌%◌, ◌^◌, ◌≤◌, ◌<◌, min, max, bit_and, bit_or, digits,
  bit_and-bitwise, bit_or-bitwise,
}
use mathlib.Core.Path.{◌≡◌, refl, ap, ◌∙◌}
use mathlib.Core.Bool.{Bool, true, ◌&&◌}
use mathlib.Core.Logic.{inl, inr}
use video_server.Base.Tests.{◌==◌, Bool-cases}
use native.Mathlib.Nat.{pow-suc}
use native.Mathlib.Omega.{arith}

-- The lowest digit apart, for any operation on digits: enough rounds are as good as more.
module _ (z : ℕ → ℕ) (f : ℕ → ℕ → ℕ) where
  digits_rounds : (n m a b : ℕ) → a ≤ n → a ≤ m → digits z f n a b ≡ digits z f m a b
  digits_rounds zero zero a b p q = refl
  digits_rounds zero (suc m) zero b p q = refl
  digits_rounds (suc n) zero zero b p q = refl
  digits_rounds (suc n) (suc m) zero b p q = refl
  digits_rounds zero (suc m) (suc a) b p q = absurd (omega arith)
  digits_rounds (suc n) zero (suc a) b p q = absurd (omega arith)
  digits_rounds (suc n) (suc m) (suc a) b p q =
      ap (λ r. r * 2 + f (suc a % 2) (b % 2))
        (digits_rounds n m (suc a / 2) (b / 2) (omega arith) (omega arith))

pub bit_or_low : (a b : ℕ) → bit_or a b ≡ bit_or (a / 2) (b / 2) * 2 + max (a % 2) (b % 2)
bit_or_low zero b = omega (arith, bit_or-bitwise 0 b, bit_or-bitwise 0 (b / 2))
bit_or_low (suc a) b = omega (
  arith,
  bit_or-bitwise (suc a) b,
  bit_or-bitwise (suc a / 2) (b / 2),
  digits_rounds (λ d. d) max a (suc a / 2) (suc a / 2) (b / 2) (omega arith) (omega arith),
)

pub bit_and_low : (a b : ℕ) → bit_and a b ≡ bit_and (a / 2) (b / 2) * 2 + min (a % 2) (b % 2)
bit_and_low zero b = omega (arith, bit_and-bitwise 0 b, bit_and-bitwise 0 (b / 2))
bit_and_low (suc a) b = omega (
  arith,
  bit_and-bitwise (suc a) b,
  bit_and-bitwise (suc a / 2) (b / 2),
  digits_rounds (λ d. zero) min a (suc a / 2) (suc a / 2) (b / 2) (omega arith) (omega arith),
)

bit_or-zero_below : (n a : ℕ) → a ≤ n → bit_or a 0 ≡ a
bit_or-zero_below n zero h = refl
bit_or-zero_below zero (suc a) h = absurd (omega arith)
bit_or-zero_below (suc n) (suc a) h =
    omega (arith, bit_or_low (suc a) 0, bit_or-zero_below n (suc a / 2) (omega arith))

bit_and-zero_below : (n a : ℕ) → a ≤ n → bit_and a 0 ≡ 0
bit_and-zero_below n zero h = refl
bit_and-zero_below zero (suc a) h = absurd (omega arith)
bit_and-zero_below (suc n) (suc a) h =
    omega (arith, bit_and_low (suc a) 0, bit_and-zero_below n (suc a / 2) (omega arith))

-- `x << k | y` with `y` below the shifted bits is a sum.
pub bit_or-shifted : (k x y : ℕ) → y < 2 ^ k → bit_or (x * 2 ^ k) y ≡ x * 2 ^ k + y
bit_or-shifted zero x y h =
    let none_left : y ≡ 0 = omega arith in
    omega (
      arith,
      ap (bit_or (x * 2 ^ 0)) none_left,
      bit_or-zero_below (x * 2 ^ 0) (x * 2 ^ 0) (omega arith),
    )
bit_or-shifted (suc k) x y h =
    let double : x * 2 ^ suc k ≡ x * 2 ^ k * 2 =
      omega (arith, ap (λ (p : ℕ). x * p) (pow-suc 2 k)) in
    let half : x * 2 ^ suc k / 2 ≡ x * 2 ^ k = omega arith in
    omega (
      arith,
      pow-suc 2 k,
      bit_or_low (x * 2 ^ suc k) y,
      ap (λ (p : ℕ). bit_or p (y / 2)) half,
      bit_or-shifted k x (y / 2) (omega (arith, pow-suc 2 k)),
    )

pub pow-pos : (k : ℕ) → 1 ≤ 2 ^ k
pow-pos zero = omega arith
pow-pos (suc k) = omega (arith, pow-suc 2 k, pow-pos k)

bit_and-split : (k q r : ℕ) → r < 2 ^ k → bit_and (q * 2 ^ k + r) (2 ^ k - 1) ≡ r
bit_and-split zero q r h =
    let none_left : r ≡ 0 = omega arith in
    omega (arith, bit_and-zero_below (q * 2 ^ 0 + r) (q * 2 ^ 0 + r) (omega arith))
bit_and-split (suc k) q r h =
    let a = q * 2 ^ suc k + r in
    let m = 2 ^ suc k - 1 in
    let double : q * 2 ^ suc k ≡ q * 2 ^ k * 2 =
      omega (arith, ap (λ (p : ℕ). q * p) (pow-suc 2 k)) in
    let half_a : a / 2 ≡ q * 2 ^ k + r / 2 = omega arith in
    let half_m : m / 2 ≡ 2 ^ k - 1 = omega (arith, pow-suc 2 k, pow-pos k) in
    omega (
      arith,
      pow-suc 2 k,
      pow-pos k,
      bit_and_low a m,
      ap (λ (p : ℕ). bit_and p (m / 2)) half_a,
      ap (bit_and (q * 2 ^ k + r / 2)) half_m,
      bit_and-split k q (r / 2) (omega (arith, pow-suc 2 k)),
    )

-- The mask of the `k` low bits takes the remainder.
pub bit_and-mask : (k x : ℕ) → bit_and x (2 ^ k - 1) ≡ x % 2 ^ k
bit_and-mask k x =
    ap (λ (p : ℕ). bit_and p (2 ^ k - 1)) (grind (arith, pow-pos k))
    ∙ bit_and-split k (x / 2 ^ k) (x % 2 ^ k) (omega (arith, pow-pos k))

-- A test on every number below a bound.
abbrev pub all_below : ℕ → (ℕ → Bool) → Bool
all_below zero test = true
all_below (suc n) test = test n && all_below n test

pub all_below-at :
    (n : ℕ) (test : ℕ → Bool) → all_below n test ≡ true → (i : ℕ) → i < n → test i ≡ true
all_below-at zero test e i h = absurd (omega arith)
all_below-at (suc n) test e i h = elim (Bool-cases (i == n)) [
  | inl here ↦ ground (arith)
  | inr before ↦ all_below-at n test (ground arith) i (ground arith)
]
