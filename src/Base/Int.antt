-- ===== src/Base/Int.antt =====
-- Go's `int`, `int64` and `time.Duration`, as integers over the native numbers.
use Prim.Native.Nat.{ℕ, suc, ◌+◌, ◌-◌, ◌*◌, ◌%◌, ◌^◌, ◌/◌}
use mathlib.Core.Bool.{Bool}
use prompt_pack.Base.Tests.{ltb, leb, if◌then◌else◌}

-- `negsuc n` is -(n + 1).
pub data ℤ : Type 0 where
  pos : ℕ → ℤ
  negsuc : ℕ → ℤ

abbrev pub pos_part : ℤ → ℕ
pos_part (pos n) = n
pos_part (negsuc n) = 0

abbrev pub neg_part : ℤ → ℕ
neg_part (pos n) = 0
neg_part (negsuc n) = suc n

-- a - b, as an integer.
abbrev pub sub_ℕ : ℕ → ℕ → ℤ
sub_ℕ a b = if leb b a then pos (a - b) else negsuc (b - a - 1)

abbrev pub ltb_ℤ : ℤ → ℤ → Bool
ltb_ℤ a b = ltb (pos_part a + neg_part b) (pos_part b + neg_part a)

abbrev pub leb_ℤ : ℤ → ℤ → Bool
leb_ℤ a b = leb (pos_part a + neg_part b) (pos_part b + neg_part a)

-- The remainder of an integer by 2^w, and the `int64` and `uintw` with that remainder.
abbrev pub wrap_uint : ℕ → ℤ → ℕ
wrap_uint w (pos n) = n % 2 ^ w
wrap_uint w (negsuc n) = 2 ^ w - 1 - n % 2 ^ w

abbrev pub wrap_int64 : ℤ → ℤ
wrap_int64 a = let r = wrap_uint 64 a in if ltb r (2 ^ 63) then pos r else negsuc (2 ^ 64 - 1 - r)

-- a * suc k, without a bound.
abbrev pub mul_suc : ℤ → ℕ → ℤ
mul_suc (pos n) k = pos (n * suc k)
mul_suc (negsuc n) k = negsuc (suc n * suc k - 1)

-- `t.Add(d)`, for a sum that is not before the clock's start.
abbrev pub add_duration : ℕ → ℤ → ℕ
add_duration t d = t + pos_part d - neg_part d

-- The sum of two integers, without a bound.
abbrev pub add_ℤ : ℤ → ℤ → ℤ
add_ℤ a b = sub_ℕ (pos_part a + pos_part b) (neg_part a + neg_part b)

abbrev pub neg_of : ℕ → ℤ
neg_of n = sub_ℕ 0 n

-- The quotient, rounded towards 0, of a divisor that is not 0.
abbrev pub quot_ℤ : ℤ → ℤ → ℤ
quot_ℤ (pos a) (pos b) = pos (a / b)
quot_ℤ (pos a) (negsuc b) = neg_of (a / suc b)
quot_ℤ (negsuc a) (pos b) = neg_of (suc a / b)
quot_ℤ (negsuc a) (negsuc b) = pos (suc a / suc b)
