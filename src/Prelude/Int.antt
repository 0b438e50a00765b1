-- ===== src/Prelude/Int.antt =====
-- Signed integers over the native numbers, and C's `int` on top of them: a 32-bit word in two's
-- complement, whose sums, differences and products wrap.
use cat_syn.Prelude.Tests.{ltb, leb, ◌==◌, if◌then◌else◌}
use Prim.Native.Nat.{ℕ, suc, ◌+◌, ◌-◌, ◌*◌, ◌/◌, ◌%◌, ◌≤◌, ◌<◌}
use mathlib.Core.Path.{◌≡◌}
use mathlib.Core.Bool.{Bool, true}
use native.Mathlib.Omega.{arith}
use native.Mathlib.Nat.{mod-le}

-- `negsuc n` is -(n + 1).
pub data ℤ : Type 0 where
  pos : ℕ → ℤ
  negsuc : ℕ → ℤ

abbrev pub pos_part : ℤ → ℕ
pos_part (pos n) = n
pos_part (negsuc n) = 0

abbrev pub neg_part : ℤ → ℕ
neg_part (pos n) = 0
neg_part (negsuc n) = suc n

-- a - b, as an integer.
abbrev pub sub_ℕ : ℕ → ℕ → ℤ
sub_ℕ a b = if leb b a then pos (a - b) else negsuc (b - a - 1)

infixl 65 ◌+ℤ◌ ◌-ℤ◌
infixl 70 ◌*ℤ◌
infix 50 ◌≤ℤ◌ ◌<ℤ◌
unfoldable pub ◌+ℤ◌ : ℤ → ℤ → ℤ
a +ℤ b = sub_ℕ (pos_part a + pos_part b) (neg_part a + neg_part b)

unfoldable pub ◌-ℤ◌ : ℤ → ℤ → ℤ
a -ℤ b = sub_ℕ (pos_part a + neg_part b) (neg_part a + pos_part b)

unfoldable pub ◌*ℤ◌ : ℤ → ℤ → ℤ
a *ℤ b =
    sub_ℕ (pos_part a * pos_part b + neg_part a * neg_part b)
      (pos_part a * neg_part b + neg_part a * pos_part b)

abbrev pub ◌≤ℤ◌ : ℤ → ℤ → Type 0
a ≤ℤ b = pos_part a + neg_part b ≤ pos_part b + neg_part a

abbrev pub ◌<ℤ◌ : ℤ → ℤ → Type 0
a <ℤ b = pos_part a + neg_part b < pos_part b + neg_part a

abbrev pub ltb_ℤ : ℤ → ℤ → Bool
ltb_ℤ a b = ltb (pos_part a + neg_part b) (pos_part b + neg_part a)

abbrev pub leb_ℤ : ℤ → ℤ → Bool
leb_ℤ a b = leb (pos_part a + neg_part b) (pos_part b + neg_part a)

abbrev pub eqb_ℤ : ℤ → ℤ → Bool
eqb_ℤ a b = (pos_part a + neg_part b) == (pos_part b + neg_part a)

abbrev pub int_max : ℤ
int_max = pos 2147483647

abbrev pub int_min : ℤ
int_min = negsuc 2147483647

-- What a 32-bit pattern stands for.
abbrev pub signed32 : ℕ → ℤ
signed32 w = if ltb w 2147483648 then pos w else negsuc (4294967295 - w)

unfoldable pub wrap32 : ℤ → ℤ
wrap32 (pos n) = signed32 (n % 4294967296)
wrap32 (negsuc n) = signed32 (4294967295 - n % 4294967296)

abbrev pub IsInt : ℤ → Type 0
IsInt a = (int_min ≤ℤ a) × (a ≤ℤ int_max)

-- C's `+`, `-` and `*` on `int`.
unfoldable pub int_add : ℤ → ℤ → ℤ
unfolding wrap32 ◌+ℤ◌
int_add a b = wrap32 (a +ℤ b)

unfoldable pub int_sub : ℤ → ℤ → ℤ
unfolding wrap32 ◌-ℤ◌
int_sub a b = wrap32 (a -ℤ b)

unfoldable pub int_mul : ℤ → ℤ → ℤ
unfolding wrap32 ◌*ℤ◌
int_mul a b = wrap32 (a *ℤ b)

-- C's `/` and `%`: the quotient is cut towards zero, and the remainder has the sign of the dividend.
-- Division by zero, which C leaves undefined, gives what the native operations give.
unfoldable pub int_div : ℤ → ℤ → ℤ
int_div (pos a) (pos b) = pos (a / b)
int_div (pos a) (negsuc b) = sub_ℕ 0 (a / suc b)
int_div (negsuc a) (pos b) = sub_ℕ 0 (suc a / b)
int_div (negsuc a) (negsuc b) = pos (suc a / suc b)

unfoldable pub int_mod : ℤ → ℤ → ℤ
int_mod (pos a) (pos b) = pos (a % b)
int_mod (pos a) (negsuc b) = pos (a % suc b)
int_mod (negsuc a) (pos b) = sub_ℕ 0 (suc a % b)
int_mod (negsuc a) (negsuc b) = sub_ℕ 0 (suc a % suc b)

pub wrap32-IsInt : (a : ℤ) → IsInt (wrap32 a)
unfolding wrap32
wrap32-IsInt (pos n) = ground arith
wrap32-IsInt (negsuc n) = ground arith

pub wrap32_id : (a : ℤ) → IsInt a → wrap32 a ≡ a
unfolding wrap32
wrap32_id (pos n) h = ground arith
wrap32_id (negsuc n) h = ground arith

pub int_add-pos : (a b : ℕ) → a + b < 2147483648 → int_add (pos a) (pos b) ≡ pos (a + b)
unfolding int_add
int_add-pos a b h = ground arith

pub int_sub-pos : (a b : ℕ) → b ≤ a → a < 2147483648 → int_sub (pos a) (pos b) ≡ pos (a - b)
unfolding int_sub
int_sub-pos a b h k = ground arith

pub int_mul-pos : (a b : ℕ) → a * b < 2147483648 → int_mul (pos a) (pos b) ≡ pos (a * b)
unfolding int_mul
int_mul-pos a b h = ground arith

pub pos_of_nonneg : (a : ℤ) → pos 0 ≤ℤ a → a ≡ pos (pos_part a)
pos_of_nonneg a h = ground arith

abbrev pub magnitude : ℤ → ℕ
magnitude a = pos_part a + neg_part a

-- What a 64-bit pattern stands for, and C's wrapping product on `int64_t`.
abbrev pub signed64 : ℕ → ℤ
signed64 w = if ltb w 9223372036854775808 then pos w else negsuc (18446744073709551615 - w)

unfoldable pub wrap64 : ℤ → ℤ
wrap64 (pos n) = signed64 (n % 18446744073709551616)
wrap64 (negsuc n) = signed64 (18446744073709551615 - n % 18446744073709551616)

unfoldable pub int64_mul : ℤ → ℤ → ℤ
unfolding wrap64 ◌*ℤ◌
int64_mul a b = wrap64 (a *ℤ b)

pub int64_mul-pos :
    (a b : ℕ) → a * b < 9223372036854775808 → int64_mul (pos a) (pos b) ≡ pos (a * b)
unfolding int64_mul
int64_mul-pos a b h = ground arith

abbrev pub IsInt64 : ℤ → Type 0
IsInt64 a = (negsuc 9223372036854775807 ≤ℤ a) × (a ≤ℤ pos 9223372036854775807)

pub int64_mul-one : (a : ℤ) → IsInt64 a → int64_mul a (pos 1) ≡ a
unfolding int64_mul
int64_mul-one (pos a) h = ground arith
int64_mul-one (negsuc a) h = ground arith

pub wrap64-IsInt64 : (a : ℤ) → IsInt64 (wrap64 a)
unfolding wrap64
wrap64-IsInt64 (pos n) = ground arith
wrap64-IsInt64 (negsuc n) = ground arith

pub int_mod-magnitude : (a b : ℤ) → 0 < magnitude b → magnitude (int_mod a b) < magnitude b
unfolding int_mod
int_mod-magnitude (pos a) (pos b) h = ground arith
int_mod-magnitude (pos a) (negsuc b) h = ground arith
int_mod-magnitude (negsuc a) (pos b) h = ground arith
int_mod-magnitude (negsuc a) (negsuc b) h = ground arith

pub int_mod-IsInt64 : (a b : ℤ) → IsInt64 a → IsInt64 b → IsInt64 (int_mod a b)
unfolding int_mod
int_mod-IsInt64 (pos a) (pos b) h k = (omega arith, ground (arith, mod-le a b))
int_mod-IsInt64 (pos a) (negsuc b) h k = (omega arith, ground (arith, mod-le a (suc b)))
int_mod-IsInt64 (negsuc a) (pos b) h k = ground (arith, mod-le (suc a) b)
int_mod-IsInt64 (negsuc a) (negsuc b) h k = ground (arith, mod-le (suc a) (suc b))

pub int64_mul-IsInt64 : (a b : ℤ) → IsInt64 (int64_mul a b)
unfolding int64_mul
int64_mul-IsInt64 a b = wrap64-IsInt64 (a *ℤ b)

-- A sum of two ints that does not fit is negative.
pub int_add-wraps :
    (a b : ℕ)
    → a < 2147483648
    → b < 2147483648
    → 2147483648 ≤ a + b
    → ltb_ℤ (int_add (pos a) (pos b)) (pos 0) ≡ true
unfolding int_add
int_add-wraps a b ha hb h = ground arith
