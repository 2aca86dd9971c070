-- ===== src/Base/Text/Trim.antt =====
-- What `trim_right` and `trim_left` leave.
use Prim.Native.Nat.{ℕ}
use mathlib.Core.Path.{◌≡◌, refl, ap, ◌∙◌}
use mathlib.Core.Logic.{◌⊎◌, inl, inr}
use mathlib.Core.Bool.{false}
use mathlib.Core.List.{[], ◌∷◌}
use native.Mathlib.Omega.{arith}
use server_status.Base.Tests.{Bool-cases}
use server_status.Base.Text.Defs.{Text, is_space, trim_left, trim_right, trim_space}

pub trim_right_idem : (s : Text) → trim_right (trim_right s) ≡ trim_right s
unfolding trim_right
trim_right_idem [] = refl
trim_right_idem (c ∷ s) = ground (arith, trim_right_idem s)

-- What is trimmed on the right stays so without its first character.
pub trim_right_tail : (c : ℕ) (s : Text) → trim_right (c ∷ s) ≡ c ∷ s → trim_right s ≡ s
unfolding trim_right
trim_right_tail c s h = ground arith

pub trim_left_of_not_space : (c : ℕ) (s : Text) → is_space c ≡ false → trim_left (c ∷ s) ≡ c ∷ s
unfolding trim_left
trim_left_of_not_space c s h = ground arith

pub trim_right-trim_space : (s : Text) → trim_right (trim_space s) ≡ trim_space s
unfolding trim_space
trim_right-trim_space s = trim_right_idem (trim_left s)

trim_left-head :
    (s : Text)
    → (trim_left s ≡ [])
      ⊎ ((c : ℕ) × (rest : Text) × (trim_left s ≡ c ∷ rest) × (is_space c ≡ false))
unfolding trim_left
trim_left-head [] = inl refl
trim_left-head (c ∷ s) = elim (Bool-cases (is_space c)) [
  | inl h ↦ rw h (trim_left-head s)
  | inr h ↦ inr (c, s, rw h refl, h)
]

trim_right_of_not_space :
    (c : ℕ) (s : Text) → is_space c ≡ false → trim_right (c ∷ s) ≡ c ∷ trim_right s
unfolding trim_right
trim_right_of_not_space c s h = rw h refl

-- Trimming again changes nothing.
pub trim_space_again : (s : Text) → trim_space (trim_space s) ≡ trim_space s
unfolding trim_space
trim_space_again s = elim (trim_left-head s) [
  | inl e ↦ rw e (unfold trim_left in (unfold trim_right in refl))
  | inr (c, rest, e, h) ↦
      rw (e, trim_right_of_not_space c rest h, trim_left_of_not_space c (trim_right rest) h)
        (trim_right_of_not_space c (trim_right rest) h ∙ ap (λ r. c ∷ r) (trim_right_idem rest))
]
