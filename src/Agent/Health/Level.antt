-- ===== src/Agent/Health/Level.antt =====
-- The level of the risk that health.go finds, against its reasons.
use mathlib.Core.List
use mathlib.Core.List.{Perm}
use mathlib.Core.Path.{subst}
use mathlib.Core.List.Perm
use server_status.Base.{
  List, [], ◌∷◌, ◌++◌, Bool, true, false, ◌≡◌, ◌↔◌, refl, sym, inl, inr, arith, Bool-cases, String,
}
use server_status.Base.Sort.{sort_by, sort_by-perm}
use server_status.Base.Text.{Text, codes, text_eq, text_eq_iff}
use server_status.Agent.Health.Types.{SmartctlDocument}
use server_status.Agent.Health.Risk.{Rule, Risk, add_reason, add_reasons}
use server_status.Agent.Health.Storage.{
  measured, risk_rules, level, no_risk, assess, storage_health_from_smart,
}

-- There are no reasons exactly while neither flag is set.
abbrev IsConsistent : Risk → Type 0
IsConsistent risk = (risk.risk_reasons ≡ []) ↔ ((risk.critical ≡ false) × (risk.warning ≡ false))

append-not_nil : (xs : List Text) (x : Text) → ¬ (xs ++ (x ∷ []) ≡ [])
append-not_nil [] x h = List.cons≢nil h
append-not_nil (y ∷ xs) x h = List.cons≢nil h

add_reason-IsConsistent :
    (risk : Risk) (rule : Rule) → IsConsistent risk → IsConsistent (add_reason risk rule)
unfolding add_reason
add_reason-IsConsistent risk rule h = elim (Bool-cases rule.condition) [
  | inl c ↦ rw c (
    λ q. absurd (append-not_nil risk.risk_reasons rule.reason q),
    λ f. absurd (ground (arith, f)),
  )
  | inr c ↦ rw c h
]

add_reasons-IsConsistent :
    (rules : List Rule) (risk : Risk) → IsConsistent risk → IsConsistent (add_reasons risk rules)
unfolding add_reasons
add_reasons-IsConsistent [] risk h = h
add_reasons-IsConsistent (rule ∷ rules) risk h =
    add_reasons-IsConsistent rules (add_reason risk rule) (add_reason-IsConsistent risk rule h)

differ : (a b : String) → text_eq (codes a) (codes b) ≡ false → ¬ (codes a ≡ codes b)
differ a b e h = ground (arith, e, text_eq_iff (codes a) (codes b), h)

level-healthy_iff :
    (critical warning : Bool) (status : Text)
    → (level critical warning status ≡ codes "healthy")
      ↔ ((status ≡ codes "passed") × (critical ≡ false) × (warning ≡ false))
unfolding text_eq
level-healthy_iff true warning status =
    (λ h. absurd (differ "critical" "healthy" refl h), λ (p, c, w). absurd (ground (arith, c)))
level-healthy_iff false true status =
    (λ h. absurd (differ "warning" "healthy" refl h), λ (p, c, w). absurd (ground (arith, w)))
level-healthy_iff false false status = elim (Bool-cases (text_eq status (codes "passed"))) [
  | inl e ↦ rw e (λ h. ((text_eq_iff status (codes "passed")).0 e, refl, refl), λ h. refl)
  | inr e ↦ rw e (
    λ h. absurd (differ "unknown" "healthy" refl h),
    λ h. absurd (ground (arith, h, e, text_eq_iff status (codes "passed"))),
  )
]

sort_by-nil_iff : (xs : List Text) → (sort_by (λ r. r) xs ≡ []) ↔ (xs ≡ [])
sort_by-nil_iff xs =
    let p = sort_by-perm (λ r. r) xs in
    (λ h. sym (Perm.nil-eq (rw h at p)), λ h. Perm.eq-nil (subst (Perm (sort_by (λ r. r) xs)) h p))

-- A drive is healthy exactly when its SMART status is passed and there is no reason for a risk.
pub storage_health_from_smart-healthy_iff :
    (key : Text) (doc : SmartctlDocument)
    → ((storage_health_from_smart key doc).risk_level ≡ codes "healthy") ↔ (
        ((storage_health_from_smart key doc).smart_status ≡ codes "passed")
        × ((storage_health_from_smart key doc).risk_reasons ≡ []))
unfolding storage_health_from_smart assess measured
storage_health_from_smart-healthy_iff key doc =
    let metric = measured key doc in
    let risk = add_reasons no_risk (risk_rules doc metric) in
    ground (
      arith,
      level-healthy_iff risk.critical risk.warning metric.smart_status,
      add_reasons-IsConsistent (risk_rules doc metric) no_risk (λ q. (refl, refl), λ q. refl),
      sort_by-nil_iff risk.risk_reasons,
    )
