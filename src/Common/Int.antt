-- ===== src/Common/Int.antt =====
-- Signed integers over the native numbers, for times that the code marks by -1.
use Prim.Native.Nat.{ℕ, zero, suc, ◌-◌}
use mathlib.Core.Path.{◌≡◌, refl, ap, ◌∙◌, sym}
use mathlib.Core.Bool.{Bool, true, false}
use open_vm_x_ai.Common.Tests.{ltb, leb, if◌then◌else◌}

-- `negsuc n` is -(n + 1).
pub data ℤ : Type 0 where
  pos : ℕ → ℤ
  negsuc : ℕ → ℤ

abbrev pub pos_part : ℤ → ℕ
pos_part (pos n) = n
pos_part (negsuc n) = 0

-- a - b, as an integer.
abbrev pub sub_ℕ : ℕ → ℕ → ℤ
sub_ℕ a b = if leb b a then pos (a - b) else negsuc (b - a - 1)

-- `z > 0`.
abbrev pub is_positive : ℤ → Bool
is_positive z = ltb 0 (pos_part z)

abbrev pub add_one : ℤ → ℤ
add_one (pos n) = pos (suc n)
add_one (negsuc zero) = pos 0
add_one (negsuc (suc n)) = negsuc n

abbrev pub pred : ℤ → ℤ
pred (pos zero) = negsuc 0
pred (pos (suc n)) = pos n
pred (negsuc n) = negsuc (suc n)

-- `z === 0`.
abbrev pub is_zero : ℤ → Bool
is_zero (pos zero) = true
is_zero _ = false

-- `y < z`.
abbrev pub less : ℤ → ℤ → Bool
less (pos a) (pos b) = ltb a b
less (pos a) (negsuc b) = false
less (negsuc a) (pos b) = true
less (negsuc a) (negsuc b) = ltb b a

infixl 60 ◌+ℤ◌
abbrev pub ◌+ℤ◌ : ℤ → ℤ → ℤ
pos zero +ℤ z = z
pos (suc n) +ℤ z = add_one (pos n +ℤ z)
negsuc zero +ℤ z = pred z
negsuc (suc n) +ℤ z = pred (negsuc n +ℤ z)

pub add_one-pred : (z : ℤ) → add_one (pred z) ≡ z
add_one-pred (pos zero) = refl
add_one-pred (pos (suc n)) = refl
add_one-pred (negsuc n) = refl

pub pred-add_one : (z : ℤ) → pred (add_one z) ≡ z
pred-add_one (pos n) = refl
pred-add_one (negsuc zero) = refl
pred-add_one (negsuc (suc n)) = refl

pub add_one-+ℤ : (y z : ℤ) → (add_one y +ℤ z) ≡ add_one (y +ℤ z)
add_one-+ℤ (pos n) z = refl
add_one-+ℤ (negsuc zero) z = sym (add_one-pred z)
add_one-+ℤ (negsuc (suc n)) z = sym (add_one-pred (negsuc n +ℤ z))

pub pred-+ℤ : (y z : ℤ) → (pred y +ℤ z) ≡ pred (y +ℤ z)
pred-+ℤ (pos zero) z = refl
pred-+ℤ (pos (suc n)) z = sym (pred-add_one (pos n +ℤ z))
pred-+ℤ (negsuc n) z = refl

pub +ℤ-add_one : (y z : ℤ) → (y +ℤ add_one z) ≡ add_one (y +ℤ z)
+ℤ-add_one (pos zero) z = refl
+ℤ-add_one (pos (suc n)) z = ap add_one (+ℤ-add_one (pos n) z)
+ℤ-add_one (negsuc zero) z = pred-add_one z ∙ sym (add_one-pred z)
+ℤ-add_one (negsuc (suc n)) z =
    ap pred (+ℤ-add_one (negsuc n) z)
    ∙ pred-add_one (negsuc n +ℤ z)
    ∙ sym (add_one-pred (negsuc n +ℤ z))

pub +ℤ-pred : (y z : ℤ) → (y +ℤ pred z) ≡ pred (y +ℤ z)
+ℤ-pred (pos zero) z = refl
+ℤ-pred (pos (suc n)) z =
    ap add_one (+ℤ-pred (pos n) z) ∙ add_one-pred (pos n +ℤ z) ∙ sym (pred-add_one (pos n +ℤ z))
+ℤ-pred (negsuc zero) z = refl
+ℤ-pred (negsuc (suc n)) z = ap pred (+ℤ-pred (negsuc n) z)
