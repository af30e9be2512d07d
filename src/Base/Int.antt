-- ===== src/Base/Int.antt =====
-- Signed results. `negsuc n` is -(n + 1).
use Prim.Native.Nat.{ℕ, zero, suc, ◌+◌, ◌-◌}
use libiocp.Base.Tests.{leb, if◌then◌else◌}
use mathlib.Core.Path.{◌≡◌, refl}

pub data ℤ : Type 0 where
  pos : ℕ → ℤ
  negsuc : ℕ → ℤ

-- The results -1, 0 and 1 of the calls that report by an `int`.
abbrev pub minus_one : ℤ
minus_one = negsuc 0

abbrev pub zero_int : ℤ
zero_int = pos 0

abbrev pub one : ℤ
one = pos 1

-- `x + 1` and `x - 1`.
abbrev pub inc : ℤ → ℤ
inc (pos n) = pos (suc n)
inc (negsuc zero) = pos 0
inc (negsuc (suc n)) = negsuc n

abbrev pub dec : ℤ → ℤ
dec (pos zero) = negsuc 0
dec (pos (suc n)) = pos n
dec (negsuc n) = negsuc (suc n)

pub inc-dec : (x : ℤ) → inc (dec x) ≡ x
inc-dec (pos zero) = refl
inc-dec (pos (suc n)) = refl
inc-dec (negsuc n) = refl

pub dec-inc : (x : ℤ) → dec (inc x) ≡ x
dec-inc (pos n) = refl
dec-inc (negsuc zero) = refl
dec-inc (negsuc (suc n)) = refl

abbrev pub pos_part : ℤ → ℕ
pos_part (pos n) = n
pos_part (negsuc n) = 0

abbrev pub neg_part : ℤ → ℕ
neg_part (pos n) = 0
neg_part (negsuc n) = suc n

-- a - b, as an integer.
abbrev pub sub_ℕ : ℕ → ℕ → ℤ
sub_ℕ a b = if leb b a then pos (a - b) else negsuc (b - a - 1)

infixl 65 ◌+ℤ◌
unfoldable pub ◌+ℤ◌ : ℤ → ℤ → ℤ
a +ℤ b = sub_ℕ (pos_part a + pos_part b) (neg_part a + neg_part b)
