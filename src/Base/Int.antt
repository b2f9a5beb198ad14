-- ===== src/Base/Int.antt =====
-- The signed integers that the program computes, and its conversions between integer types.
use Prim.Native.Nat.{ℕ, zero, suc, ◌+◌, ◌-◌, ◌*◌, ◌/◌, ◌%◌, ◌^◌}
use mathlib.Core.Bool.{Bool, true, false}
use video_server.Base.Tests.{ltb, leb, if◌then◌else◌}

-- `negsuc n` is -(n + 1).
pub data ℤ : Type 0 where
  pos : ℕ → ℤ
  negsuc : ℕ → ℤ

-- -n
abbrev pub neg_of : ℕ → ℤ
neg_of zero = pos 0
neg_of (suc n) = negsuc n

abbrev pub is_positive : ℤ → Bool
is_positive (pos n) = ltb 0 n
is_positive (negsuc n) = false

abbrev pub is_negative : ℤ → Bool
is_negative (pos n) = false
is_negative (negsuc n) = true

-- The conversion of a 64-bit integer to `size_t`.
abbrev pub to_size_t : ℤ → ℕ
to_size_t (pos n) = n % 2 ^ 64
to_size_t (negsuc n) = (2 ^ 64 - 1 - n % 2 ^ 64) % 2 ^ 64

-- The conversion of a `size_t` to a 32-bit `int`.
abbrev pub to_int : ℕ → ℤ
to_int n = if ltb (n % 2 ^ 32) (2 ^ 31) then pos (n % 2 ^ 32) else negsuc (2 ^ 32 - 1 - n % 2 ^ 32)

infixl 60 ◌+ℤ◌
abbrev pub ◌+ℤ◌ : ℤ → ℤ → ℤ
pos a +ℤ pos b = pos (a + b)
pos a +ℤ negsuc b = if leb (suc b) a then pos (a - suc b) else neg_of (suc b - a)
negsuc a +ℤ pos b = if leb (suc a) b then pos (b - suc a) else neg_of (suc a - b)
negsuc a +ℤ negsuc b = negsuc (suc (a + b))

abbrev pub times : ℤ → ℕ → ℤ
times (pos n) k = pos (n * k)
times (negsuc n) k = neg_of (suc n * k)

-- `/` and `%` by a positive number: rounded towards zero.
abbrev pub quotient : ℤ → ℕ → ℤ
quotient (pos n) k = pos (n / k)
quotient (negsuc n) k = neg_of (suc n / k)

abbrev pub remainder : ℤ → ℕ → ℤ
remainder (pos n) k = pos (n % k)
remainder (negsuc n) k = neg_of (suc n % k)

-- A byte as a `char`, which is signed, and back.
abbrev pub of_char : ℕ → ℤ
of_char c = if ltb c 128 then pos c else neg_of (256 - c)

abbrev pub to_char : ℤ → ℕ
to_char (pos n) = n % 256
to_char (negsuc n) = 255 - n % 256
