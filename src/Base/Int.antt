-- ===== src/Base/Int.antt =====
-- Python's unbounded integers. Sums go through the two parts of an integer.
use Prim.Native.Nat.{ℕ, suc, ◌+◌, ◌-◌, ◌*◌, ◌≤◌}
use mathlib.Core.Bool.{Bool}
use mathlib.Core.Path.{◌≡◌, ap}
use native.Mathlib.Omega.{arith}
use flow_first.Base.Tests.{ltb, leb, if◌then◌else◌}

-- `negsuc n` is -(n + 1).
pub data ℤ : Type 0 where
  pos : ℕ → ℤ
  negsuc : ℕ → ℤ

abbrev pub pos_part : ℤ → ℕ
pos_part (pos n) = n
pos_part (negsuc n) = 0

abbrev pub neg_part : ℤ → ℕ
neg_part (pos n) = 0
neg_part (negsuc n) = suc n

-- a - b, as an integer.
abbrev pub sub_ℕ : ℕ → ℕ → ℤ
sub_ℕ a b = if leb b a then pos (a - b) else negsuc (b - a - 1)

infixl 65 ◌+ℤ◌
infix 50 ◌≤ℤ◌
unfoldable pub ◌+ℤ◌ : ℤ → ℤ → ℤ
a +ℤ b = sub_ℕ (pos_part a + pos_part b) (neg_part a + neg_part b)

infixl 70 ◌*ℤ◌
unfoldable pub ◌*ℤ◌ : ℤ → ℤ → ℤ
a *ℤ b =
    sub_ℕ (pos_part a * pos_part b + neg_part a * neg_part b)
      (pos_part a * neg_part b + neg_part a * pos_part b)

abbrev pub ◌≤ℤ◌ : ℤ → ℤ → Type 0
a ≤ℤ b = pos_part a + neg_part b ≤ pos_part b + neg_part a

abbrev pub ltb_ℤ : ℤ → ℤ → Bool
ltb_ℤ a b = ltb (pos_part a + neg_part b) (pos_part b + neg_part a)

pub +ℤ_assoc : (a b c : ℤ) → a +ℤ b +ℤ c ≡ a +ℤ (b +ℤ c)
unfolding ◌+ℤ◌
+ℤ_assoc a b c = ground arith

-- With these the tactics work with a sum shut.
pub +ℤ_parts :
    (a b : ℤ)
    → pos_part (a +ℤ b) + neg_part a + neg_part b ≡ neg_part (a +ℤ b) + pos_part a + pos_part b
unfolding ◌+ℤ◌
+ℤ_parts a b = ground arith

pub eq_of_parts : (a b : ℤ) → pos_part a + neg_part b ≡ pos_part b + neg_part a → a ≡ b
eq_of_parts a b h = ground arith

pub sub_ℕ_parts : (a b : ℕ) → pos_part (sub_ℕ a b) + b ≡ neg_part (sub_ℕ a b) + a
sub_ℕ_parts a b = ground arith

pub zero-add_ℤ : (a : ℤ) → pos 0 +ℤ a ≡ a
zero-add_ℤ a = eq_of_parts _ _ (omega (arith, +ℤ_parts (pos 0) a))

-- (a - b) + d + b is d + a.
pub sub_ℕ-add_ℤ : (a b : ℕ) (d : ℤ) → sub_ℕ a b +ℤ d +ℤ pos b ≡ d +ℤ pos a
sub_ℕ-add_ℤ a b d = eq_of_parts _ _ (
    omega (
      arith,
      sub_ℕ_parts a b,
      +ℤ_parts (sub_ℕ a b) d,
      +ℤ_parts (sub_ℕ a b +ℤ d) (pos b),
      +ℤ_parts d (pos a),
    ))

pub add_ℤ_chain : (x y p q r : ℤ) → x +ℤ p ≡ q → y +ℤ q ≡ r → x +ℤ y +ℤ p ≡ r
add_ℤ_chain x y p q r e f = eq_of_parts _ _ (
    omega (
      arith,
      +ℤ_parts x p,
      +ℤ_parts y q,
      +ℤ_parts x y,
      +ℤ_parts (x +ℤ y) p,
      ap pos_part e,
      ap neg_part e,
      ap pos_part f,
      ap neg_part f,
    ))

pub add-zero_ℤ : (a : ℤ) → a ≡ a +ℤ pos 0
add-zero_ℤ a = eq_of_parts _ _ (omega (arith, +ℤ_parts a (pos 0)))
