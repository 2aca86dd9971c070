-- ===== src/Base/Distinct.antt =====
-- A Go range loop with a set `seen` of the keys met so far: each item passes a check before the test
-- for a repeated key, and another one after it.
use mathlib.Core.List.{
  List, [], ◌∷◌, map, Mem, Nodup, Nodup-nil, Nodup-cons, not-mem-nil, mem-cons_self,
  mem-cons_of_mem, eq-or-mem_of_mem-cons,
}
use mathlib.Core.HLevel.{⊥_prop}
use mathlib.Core.Logic.{◌↔◌}
use mathlib.Core.Logic.Or
use mathlib.Core.Option.{Option, none}
use mathlib.Core.Path.{◌≡◌, refl}
use server_status.Base.Lists.{All}
use server_status.Base.Check.{◌>>◌, reject, >>-eq-none_iff, reject-eq-none_iff}
use server_status.Base.Text.{Text, contains, contains-false_iff}

module _ {ℓ} {A E : Type ℓ} (key : A → Text) (duplicate : A → E) (before after : A → Option E) where
  unfoldable pub for_distinct : List Text → List A → Option E
  for_distinct seen [] = none
  for_distinct seen (x ∷ xs) =
      before x
      >> reject (contains seen (key x)) (duplicate x)
      >> after x
      >> for_distinct (key x ∷ seen) xs

-- The keys left are new to `seen`.
abbrev pub AreNew {ℓ} : {A : Type ℓ} → (A → Text) → List Text → List A → Type 0
AreNew key seen = All (λ x. ¬ Mem (key x) seen)

module _ {ℓ} {A : Type ℓ} (key : A → Text) (v : Text) (seen : List Text) where
  pub AreNew-cons :
      (xs : List A) → AreNew key (v ∷ seen) xs → AreNew key seen xs × (¬ Mem v (map key xs))
  AreNew-cons [] h = (tt, λ m. not-mem-nil m)
  AreNew-cons (x ∷ xs) (n, h) =
      let rest = AreNew-cons xs h in
      (
        (λ m. n (mem-cons_of_mem v m), rest.0),
        λ m. Or.elim ⊥_prop (eq-or-mem_of_mem-cons m) (λ e. n (rw (← e) mem-cons_self)) rest.1,
      )

  AreNew-of_cons :
      (xs : List A) → AreNew key seen xs → ¬ Mem v (map key xs) → AreNew key (v ∷ seen) xs
  AreNew-of_cons [] h n = tt
  AreNew-of_cons (x ∷ xs) (m, h) n = (
    λ i. Or.elim ⊥_prop (eq-or-mem_of_mem-cons i) (λ e. n (rw e mem-cons_self)) m,
    AreNew-of_cons xs h (λ i. n (mem-cons_of_mem (key x) i)),
  )

AreNew-nil {ℓ} : {A : Type ℓ} (key : A → Text) (xs : List A) → AreNew key [] xs
AreNew-nil key [] = tt
AreNew-nil key (x ∷ xs) = (λ m. not-mem-nil m, AreNew-nil key xs)

module _ {ℓ κ} {A E : Type ℓ} (key : A → Text) (duplicate : A → E) (before after : A → Option E)
    (P : A → Type κ) (decides : (x : A) → ((before x >> after x) ≡ none) ↔ P x) where
  -- The loop passes from `seen` exactly when every item is good and its key is new.
  for_distinct_from :
      (seen : List Text) (xs : List A)
      → (for_distinct key duplicate before after seen xs ≡ none)
        ↔ (All P xs × Nodup (map key xs) × AreNew key seen xs)
  unfolding for_distinct
  for_distinct_from seen [] = (λ h. (tt, Nodup-nil, tt), λ h. refl)
  for_distinct_from seen (x ∷ xs) =
      let rest = for_distinct key duplicate before after (key x ∷ seen) xs in
      let d = reject (contains seen (key x)) (duplicate x) in
      let ih = for_distinct_from (key x ∷ seen) xs in
      (
        λ h.
            let (h3, hr) = (>>-eq-none_iff (before x >> d >> after x) rest).0 h in
            let (h2, ha) = (>>-eq-none_iff (before x >> d) (after x)).0 h3 in
            let (hb, hd) = (>>-eq-none_iff (before x) d).0 h2 in
            let (good, distinct, new) = ih.0 hr in
            let (old, fresh) = AreNew-cons key (key x) seen xs new in
            (
              ((decides x).0 ((>>-eq-none_iff _ _).1 (hb, ha)), good),
              Nodup-cons.1 (fresh, distinct),
              ((contains-false_iff seen (key x)).0 ((reject-eq-none_iff _ _).0 hd), old),
            ),
        λ f.
            let (fresh, distinct) = Nodup-cons.0 f.1 in
            let (hb, ha) = (>>-eq-none_iff (before x) (after x)).0 ((decides x).1 f.0.0) in
            let hd =
              (reject-eq-none_iff _ (duplicate x)).1 ((contains-false_iff seen (key x)).1 f.2.0) in
            let hr = ih.1 (f.0.1, distinct, AreNew-of_cons key (key x) seen xs f.2.1 fresh) in
            (>>-eq-none_iff (before x >> d >> after x) rest).1 (
              (>>-eq-none_iff (before x >> d) (after x)).1
                  ((>>-eq-none_iff (before x) d).1 (hb, hd), ha),
              hr,
            ),
      )

  -- From an empty set the loop passes exactly the lists of good items with different keys.
  pub for_distinct_iff :
      (xs : List A)
      → (for_distinct key duplicate before after [] xs ≡ none) ↔ (All P xs × Nodup (map key xs))
  for_distinct_iff xs =
      let loop = for_distinct_from [] xs in
      (
        λ h. let (good, distinct, _) = loop.0 h in (good, distinct),
        λ f. loop.1 (f.0, f.1, AreNew-nil key xs),
      )
