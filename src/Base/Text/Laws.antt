-- ===== src/Base/Text/Laws.antt =====
-- Equality, order, trimming and membership of strings.
use mathlib.Core.Path.{◌≡◌, refl}
use mathlib.Core.Logic.{◌↔◌, inl, inr, ◌≢◌}
use mathlib.Core.Logic.Or
use mathlib.Core.Bool.{true, false, Bool-set}
use mathlib.Core.List.{
  List, [], ◌∷◌, Mem, not-mem-nil, mem-cons_self, mem-cons_of_mem, eq-or-mem_of_mem-cons,
}
use native.Mathlib.Omega.{arith}
use native.Mathlib.Decide.{ℕ_discrete}
use server_status.Base.Tests.{Bool-cases}
use server_status.Base.Text.Defs.{Text, text_eq, text_lt, is_empty, contains}

pub Text-discrete : Discrete Text
Text-discrete = hlevel ℕ_discrete

pub text_eq_iff : (s t : Text) → (text_eq s t ≡ true) ↔ (s ≡ t)
unfolding text_eq
text_eq_iff [] [] = (λ h. refl, λ h. refl)
text_eq_iff [] (b ∷ t) = (λ h. cc, λ h. cc)
text_eq_iff (a ∷ s) [] = (λ h. cc, λ h. cc)
text_eq_iff (a ∷ s) (b ∷ t) = ground (arith, text_eq_iff s t)

pub text_eq_refl : (s : Text) → text_eq s s ≡ true
text_eq_refl s = (text_eq_iff s s).1 refl

pub text_lt_irrefl : (s : Text) → text_lt s s ≡ false
unfolding text_lt
text_lt_irrefl [] = refl
text_lt_irrefl (a ∷ s) = ground (arith, text_lt_irrefl s)

pub text_lt_trans : (s t u : Text) → text_lt s t ≡ true → text_lt t u ≡ true → text_lt s u ≡ true
unfolding text_lt
text_lt_trans [] [] u h k = cc
text_lt_trans [] (b ∷ t) [] h k = cc
text_lt_trans [] (b ∷ t) (c ∷ u) h k = refl
text_lt_trans (a ∷ s) [] u h k = cc
text_lt_trans (a ∷ s) (b ∷ t) [] h k = cc
text_lt_trans (a ∷ s) (b ∷ t) (c ∷ u) h k = ground (arith, text_lt_trans s t u)

-- Of two strings that are not in order, the other order holds or they are equal.
pub text_lt_total : (s t : Text) → text_lt s t ≡ false → text_lt t s ≡ false → s ≡ t
unfolding text_lt
text_lt_total [] [] h k = refl
text_lt_total [] (b ∷ t) h k = cc
text_lt_total (a ∷ s) [] h k = cc
text_lt_total (a ∷ s) (b ∷ t) h k = ground (arith, text_lt_total s t)

pub is_empty_iff : (s : Text) → (is_empty s ≡ true) ↔ (s ≡ [])
is_empty_iff [] = (λ h. refl, λ h. refl)
is_empty_iff (c ∷ s) = (λ h. cc, λ h. cc)

pub is_empty-false_iff : (s : Text) → (is_empty s ≡ false) ↔ (s ≢ [])
is_empty-false_iff [] = (λ h. cc, λ h. absurd (h refl))
is_empty-false_iff (c ∷ s) = (λ h e. cc, λ h. refl)

pub contains_iff : (ts : List Text) (s : Text) → (contains ts s ≡ true) ↔ Mem s ts
unfolding contains
contains_iff [] s = (λ h. cc, λ m. absurd (not-mem-nil m))
contains_iff (t ∷ ts) s =
    let ih = contains_iff ts s in
    (
      λ h. elim (Bool-cases (text_eq t s)) [
        | inl e ↦ rw ((text_eq_iff t s).0 e) mem-cons_self
        | inr e ↦ mem-cons_of_mem t (ih.0 (ground arith))
      ],
      λ m.
          Or.elim (Bool-set _ _) (eq-or-mem_of_mem-cons m) (λ e. ground (arith, text_eq_iff t s))
            (λ r. ground (arith, ih.1 r)),
    )

pub contains-false_iff : (ts : List Text) (s : Text) → (contains ts s ≡ false) ↔ (¬ Mem s ts)
contains-false_iff ts s = (
  λ h m. cc ((contains_iff ts s).1 m),
  λ n. elim (Bool-cases (contains ts s)) [
    | inl h ↦ absurd (n ((contains_iff ts s).0 h))
    | inr h ↦ h
  ],
)

pub text_lt_asymm : (s t : Text) → text_lt s t ≡ true → text_lt t s ≡ false
text_lt_asymm s t h = ground (arith, text_lt_trans s t s, text_lt_irrefl s)

-- What is not below `t` is not below what is below `t`.
pub text_lt_of_not-lt :
    (s t u : Text) → text_lt s t ≡ true → text_lt u t ≡ false → text_lt s u ≡ true
text_lt_of_not-lt s t u h k = elim (Bool-cases (text_lt s u)) [
  | inl e ↦ e
  | inr e ↦ ground (arith, text_lt_trans u s t, text_lt_total s u)
]
