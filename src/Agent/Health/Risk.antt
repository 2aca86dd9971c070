-- ===== src/Agent/Health/Risk.antt =====
-- addReason of storageHealthFromSMART: the reasons for a risk, and how grave they are.
use mathlib.Core.List.{
  Mem, Nodup, Nodup-nil, Nodup-cons, mem-cons_self, mem-cons_of_mem, eq-or-mem_of_mem-cons,
  not-mem-nil, Mem-prop,
}
use mathlib.Core.List
use mathlib.Core.Logic.Or
use server_status.Base.{
  ◌≤◌, List, [], ◌∷◌, ◌++◌, map, Bool, true, if◌then◌else◌, ◌||◌, ◌≡◌, sym, ◌∙◌, inl, inr, arith,
  length, Bool-cases, All,
}
use server_status.Base.Text.{Text}

-- The arguments of one call of addReason.
pub record Rule : Type 0 where
  pub condition : Bool
  pub critical_reason : Bool
  pub reason : Text

pub record Risk : Type 0 where
  pub risk_reasons : List Text
  pub critical : Bool
  pub warning : Bool

unfoldable pub add_reason : Risk → Rule → Risk
add_reason risk rule =
    if rule.condition
    then record {
      risk_reasons = risk.risk_reasons ++ (rule.reason ∷ []);
      critical = risk.critical || rule.critical_reason;
      warning = if rule.critical_reason then risk.warning else true;
    }
    else risk

-- The calls in order.
unfoldable pub add_reasons : Risk → List Rule → Risk
unfolding add_reason
add_reasons risk [] = risk
add_reasons risk (rule ∷ rules) = add_reasons (add_reason risk rule) rules

-- The reasons of the rules whose condition holds.
unfoldable pub chosen : List Rule → List Text
chosen [] = []
chosen (rule ∷ rules) = if rule.condition then rule.reason ∷ chosen rules else chosen rules

pub add_reasons-chosen :
    (rules : List Rule) (risk : Risk)
    → (add_reasons risk rules).risk_reasons ≡ risk.risk_reasons ++ chosen rules
unfolding add_reasons chosen
add_reasons-chosen [] risk = sym (List.append-nil risk.risk_reasons)
add_reasons-chosen (rule ∷ rules) risk = elim (Bool-cases rule.condition) [
  | inl h ↦ rw h (
      add_reasons-chosen rules _
      ∙ List.append_assoc risk.risk_reasons (rule.reason ∷ []) (chosen rules))
  | inr h ↦ rw h (add_reasons-chosen rules risk)
]

abbrev pub reason_of : Rule → Text
reason_of rule = rule.reason

Mem-chosen : (x : Text) (rules : List Rule) → Mem x (chosen rules) → Mem x (map reason_of rules)
unfolding chosen
Mem-chosen x [] m = m
Mem-chosen x (rule ∷ rules) m = elim (Bool-cases rule.condition) [
  | inl h ↦
      Or.elim Mem-prop (eq-or-mem_of_mem-cons (rw h at m)) (λ q. rw q mem-cons_self)
        (λ i. mem-cons_of_mem rule.reason (Mem-chosen x rules i))
  | inr h ↦ mem-cons_of_mem rule.reason (Mem-chosen x rules (rw h at m))
]

pub Nodup-chosen : (rules : List Rule) → Nodup (map reason_of rules) → Nodup (chosen rules)
unfolding chosen
Nodup-chosen [] n = n
Nodup-chosen (rule ∷ rules) n =
    let (new, rest) = Nodup-cons.0 n in
    let ih = Nodup-chosen rules rest in
    elim (Bool-cases rule.condition) [
      | inl h ↦ rw h (Nodup-cons.1 (λ m. new (Mem-chosen rule.reason rules m), ih))
      | inr h ↦ rw h ih
    ]

-- Reasons that all keep a property are chosen with it.
pub All-chosen {κ} :
    (P : Text → Type κ) (rules : List Rule) → All P (map reason_of rules) → All P (chosen rules)
unfolding chosen
All-chosen P [] h = h
All-chosen P (rule ∷ rules) (p, h) = elim (Bool-cases rule.condition) [
  | inl c ↦ rw c (p, All-chosen P rules h)
  | inr c ↦ rw c (All-chosen P rules h)
]

pub length-chosen : (rules : List Rule) → length (chosen rules) ≤ length rules
unfolding chosen
length-chosen [] = omega arith
length-chosen (rule ∷ rules) =
    let ih = length-chosen rules in
    elim (Bool-cases rule.condition) [
      | inl h ↦ rw h (omega (arith, ih))
      | inr h ↦ rw h (omega (arith, ih))
    ]
