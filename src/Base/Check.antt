-- ===== src/Base/Check.antt =====
-- A Go function that returns only an `error`: `none` is nil, and `>>` is
-- `if err := …; err != nil { return err }`. A range loop over checks stops at the first error.
use mathlib.Core.Path.{◌≡◌, refl}
use mathlib.Core.Logic.{◌↔◌}
use mathlib.Core.Bool.{Bool, true, false}
use mathlib.Core.Option.{Option, none, some}
use mathlib.Core.List.{List, [], ◌∷◌}
use server_status.Base.Lists.{All}

infixl 5 ◌>>◌
abbrev pub ◌>>◌ {ℓ} : {E : Type ℓ} → Option E → Option E → Option E
none >> k = k
some e >> k = some e

-- `if test { return err }`
abbrev pub reject {ℓ} : {E : Type ℓ} → Bool → E → Option E
reject true e = some e
reject false e = none

-- `if err := …; err != nil { return fmt.Errorf("…: %w", err) }`
abbrev pub wrap {ℓ κ} : {E : Type ℓ} {F : Type κ} → (E → F) → Option E → Option F
wrap f none = none
wrap f (some e) = some (f e)

module _ {ℓ κ} {A : Type ℓ} {E : Type κ} where
  unfoldable pub for_each : (A → Option E) → List A → Option E
  for_each check [] = none
  for_each check (x ∷ xs) = check x >> for_each check xs

module _ {ℓ} {E : Type ℓ} where
  pub >>-eq-none_iff : (m k : Option E) → ((m >> k) ≡ none) ↔ ((m ≡ none) × (k ≡ none))
  >>-eq-none_iff none k = (λ h. (refl, h), λ h. h.1)
  >>-eq-none_iff (some e) k = (λ h. cc, λ h. h.0)

  pub reject-eq-none_iff : (b : Bool) (e : E) → (reject b e ≡ none) ↔ (b ≡ false)
  reject-eq-none_iff true e = (λ h. cc, λ h. cc)
  reject-eq-none_iff false e = (λ h. refl, λ h. refl)

module _ {ℓ κ} {E : Type ℓ} {F : Type κ} where
  pub wrap-eq-none_iff : (f : E → F) (m : Option E) → (wrap f m ≡ none) ↔ (m ≡ none)
  wrap-eq-none_iff f none = (λ h. refl, λ h. refl)
  wrap-eq-none_iff f (some e) = (λ h. cc, λ h. cc)

module _ {ℓ κ μ} {A : Type ℓ} {E : Type κ} where
  -- A loop of checks passes exactly when every item meets what its check decides.
  pub for_each-eq-none_iff :
      (P : A → Type μ) (check : A → Option E)
      → ((x : A) → (check x ≡ none) ↔ P x)
      → (xs : List A) → (for_each check xs ≡ none) ↔ All P xs
  unfolding for_each
  for_each-eq-none_iff P check one [] = (λ h. tt, λ h. refl)
  for_each-eq-none_iff P check one (x ∷ xs) =
      let split = >>-eq-none_iff (check x) (for_each check xs) in
      let rest = for_each-eq-none_iff P check one xs in
      (
        λ h. ((one x).0 (split.0 h).0, rest.0 (split.0 h).1),
        λ h. split.1 ((one x).1 h.0, rest.1 h.1),
      )
