-- ===== src/Base/Int.antt =====
-- Go's signed 64-bit integers: a value is an integer in range, and arithmetic wraps.
use Prim.Native.Nat.{ℕ, suc, ◌+◌, ◌-◌, ◌*◌, ◌%◌, ◌^◌, ◌≤◌, ◌<◌}
use mathlib.Core.Path.{◌≡◌}
use mathlib.Core.Logic.{◌↔◌}
use mathlib.Core.Bool.{Bool, true}
use native.Mathlib.Omega.{arith}
use aether_code.Base.Tests.{if◌then◌else◌, Eq, nat_beq, leb, ltb}

-- `negsuc n` is -(n + 1).
pub data ℤ : Type 0 where
  pos : ℕ → ℤ
  negsuc : ℕ → ℤ

abbrev pub pos_part : ℤ → ℕ
pos_part (pos n) = n
pos_part (negsuc n) = 0

abbrev pub neg_part : ℤ → ℕ
neg_part (pos n) = 0
neg_part (negsuc n) = suc n

abbrev pub sub_ℕ : ℕ → ℕ → ℤ
sub_ℕ a b = if leb b a then pos (a - b) else negsuc (b - a - 1)

infixl 70 ◌*ℤ◌
unfoldable pub ◌*ℤ◌ : ℤ → ℤ → ℤ
a *ℤ b =
    sub_ℕ (pos_part a * pos_part b + neg_part a * neg_part b)
      (pos_part a * neg_part b + neg_part a * pos_part b)

infix 50 ◌≤ℤ◌
abbrev pub ◌≤ℤ◌ : ℤ → ℤ → Type 0
a ≤ℤ b = pos_part a + neg_part b ≤ pos_part b + neg_part a

abbrev pub ltb_ℤ : ℤ → ℤ → Bool
ltb_ℤ a b = ltb (pos_part a + neg_part b) (pos_part b + neg_part a)

abbrev pub int_beq : ℤ → ℤ → Bool
int_beq a b = nat_beq (pos_part a + neg_part b) (pos_part b + neg_part a)

pub int_beq_iff : (a b : ℤ) → (int_beq a b ≡ true) ↔ (a ≡ b)
int_beq_iff a b = ground arith

instance abbrev pub int_eq : Eq ℤ
int_eq = record { same = int_beq; same_iff = int_beq_iff }

abbrev pub two_64 : ℕ
two_64 = 2 ^ 64

abbrev pub two_63 : ℕ
two_63 = 2 ^ 63

-- The bit pattern of the low 64 bits, and the integer that a pattern stands for.
abbrev pub to_bits : ℤ → ℕ
to_bits (pos n) = n % two_64
to_bits (negsuc n) = two_64 - 1 - n % two_64

abbrev pub of_bits : ℕ → ℤ
of_bits p = if ltb p two_63 then pos p else negsuc (two_64 - 1 - p)

-- What an `int64` holds after an operation whose exact result is the argument.
unfoldable pub wrap_int64 : ℤ → ℤ
wrap_int64 a = of_bits (to_bits a)

abbrev pub IsInt64 : ℤ → Type 0
IsInt64 (pos n) = n < two_63
IsInt64 (negsuc n) = n < two_63

pub wrap_int64_exact : (a : ℤ) → IsInt64 a → wrap_int64 a ≡ a
unfolding wrap_int64
wrap_int64_exact (pos n) h = ground arith
wrap_int64_exact (negsuc n) h = ground arith

pub wrap_int64-IsInt64 : (a : ℤ) → IsInt64 (wrap_int64 a)
unfolding wrap_int64
wrap_int64-IsInt64 (pos n) = ground arith
wrap_int64-IsInt64 (negsuc n) = ground arith
