-- ===== src/Base/Dict.antt =====
-- A Go map from strings, as an association list: the order of the list is an order in which a range
-- loop may meet the entries.
use mathlib.Core.List.{
  List, [], ◌∷◌, map, Mem, Mem-prop, Nodup, Nodup-cons, not-mem-nil, mem-cons_self, mem-cons_of_mem,
  eq-or-mem_of_mem-cons,
}
use mathlib.Core.HLevel.{⊥_prop}
use mathlib.Core.Logic.{◌≢◌, inl, inr}
use mathlib.Core.Logic.Or
use mathlib.Core.Bool.{Bool, false, not}
use mathlib.Core.Option.{Option, none, some}
use mathlib.Core.Path.{◌≡◌, refl, sym, ◌∙◌}
use Prim.Native.Nat.{◌≤◌, ◌<◌}
use native.Mathlib.Omega.{arith}
use server_status.Base.Tests.{if◌then◌else◌, Bool-cases}
use server_status.Base.Lists.{length}
use server_status.Base.Text.{Text, text_eq, text_eq_iff, text_eq_refl}

text_eq-false_of_ne : (s t : Text) → s ≢ t → text_eq s t ≡ false
text_eq-false_of_ne s t d = ground (arith, text_eq_iff s t)

abbrev pub key_of {ℓ} : {A : Type ℓ} → Text × A → Text
key_of e = e.0

-- What `p` keeps of the value under a key.
abbrev pub keep_if {ℓ} : {A : Type ℓ} → (Text × A → Bool) → Text → Option A → Option A
keep_if p k none = none
keep_if p k (some a) = if p (k, a) then some a else none

module _ {ℓ} {A : Type ℓ} where
  -- `entries[key]`
  unfoldable pub get : Text → List (Text × A) → Option A
  get k [] = none
  get k (e ∷ es) = if text_eq e.0 k then some e.1 else get k es

  -- What is left when a range loop deletes the entries that fail the test.
  unfoldable pub retain : (Text × A → Bool) → List (Text × A) → List (Text × A)
  retain p [] = []
  retain p (e ∷ es) = if p e then e ∷ retain p es else retain p es

  -- `delete(entries, key)`
  unfoldable pub delete : Text → List (Text × A) → List (Text × A)
  delete k = retain (λ e. not (text_eq e.0 k))

  -- `entries[key] = a`
  unfoldable pub put : Text → A → List (Text × A) → List (Text × A)
  put k a es = (k, a) ∷ delete k es

  pub length-retain :
      (p : Text × A → Bool) (es : List (Text × A)) → length (retain p es) ≤ length es
  unfolding retain
  length-retain p [] = omega arith
  length-retain p (e ∷ es) =
      let ih = length-retain p es in
      elim (Bool-cases (p e)) [
        | inl h ↦ rw h (omega (arith, ih))
        | inr h ↦ rw h (omega (arith, ih))
      ]

  -- A key that is there is deleted.
  pub length-delete :
      (k : Text) (es : List (Text × A)) → Mem k (map key_of es) → length (delete k es) < length es
  unfolding delete retain
  length-delete k [] m = absurd (not-mem-nil m)
  length-delete k (e ∷ es) m = elim (Bool-cases (text_eq e.0 k)) [
    | inl h ↦ let le = length-retain (λ e. not (text_eq e.0 k)) es in rw h (omega (arith, le))
    | inr h ↦
        let rest : Mem k (map key_of es) =
          Or.elim Mem-prop (eq-or-mem_of_mem-cons m)
            (λ q. absurd (ground (arith, text_eq_iff e.0 k, h, q))) (λ i. i) in
        let lt = length-delete k es rest in rw h (omega (arith, lt))
  ]

  pub Mem-retain :
      (p : Text × A → Bool) (k : Text) (es : List (Text × A))
      → Mem k (map key_of (retain p es))
      → Mem k (map key_of es)
  unfolding retain
  Mem-retain p k [] m = m
  Mem-retain p k (e ∷ es) m = elim (Bool-cases (p e)) [
    | inl h ↦
        Or.elim Mem-prop (eq-or-mem_of_mem-cons (rw h at m)) (λ q. rw q mem-cons_self)
          (λ i. mem-cons_of_mem e.0 (Mem-retain p k es i))
    | inr h ↦ mem-cons_of_mem e.0 (Mem-retain p k es (rw h at m))
  ]

  pub Nodup-retain :
      (p : Text × A → Bool) (es : List (Text × A))
      → Nodup (map key_of es)
      → Nodup (map key_of (retain p es))
  unfolding retain
  Nodup-retain p [] n = n
  Nodup-retain p (e ∷ es) n =
      let (new, rest) = Nodup-cons.0 n in
      let ih = Nodup-retain p es rest in
      elim (Bool-cases (p e)) [
        | inl h ↦ rw h (Nodup-cons.1 (λ m. new (Mem-retain p e.0 es m), ih))
        | inr h ↦ rw h ih
      ]

  pub get-none : (k : Text) (es : List (Text × A)) → ¬ Mem k (map key_of es) → get k es ≡ none
  unfolding get
  get-none k [] m = refl
  get-none k (e ∷ es) m = elim (Bool-cases (text_eq e.0 k)) [
    | inl h ↦
        let same : k ≡ e.0 = sym ((text_eq_iff e.0 k).0 h) in absurd (m (rw same mem-cons_self))
    | inr h ↦ rw h (get-none k es (λ i. m (mem-cons_of_mem e.0 i)))
  ]

  -- In a map, whose keys differ, the entries kept are found and the others are not.
  pub get-retain :
      (p : Text × A → Bool) (k : Text) (es : List (Text × A))
      → Nodup (map key_of es)
      → get k (retain p es) ≡ keep_if p k (get k es)
  unfolding retain get
  get-retain p k [] n = refl
  get-retain p k ((j, a) ∷ es) n =
      let (new, rest) = Nodup-cons.0 n in
      let ih = get-retain p k es rest in
      elim (Bool-cases (text_eq j k)) [
        | inl h ↦ here ((text_eq_iff j k).0 h) new
        | inr h ↦ elim (Bool-cases (p (j, a))) [ inl t ↦ rw (t, h) ih | inr t ↦ rw (t, h) ih ]
      ]
    where
      here :
          j ≡ k
          → ¬ Mem j (map key_of es)
          → get k (if p (j, a) then (j, a) ∷ retain p es else retain p es)
            ≡ keep_if p k (if text_eq j k then some a else get k es)
      here same new =
          rw (sym same, text_eq_refl j)
            (elim (Bool-cases (p (j, a))) [
              | inl t ↦ rw (t, text_eq_refl j) refl
              | inr t ↦ rw t (get-none j (retain p es) (λ m. new (Mem-retain p j es m)))
            ])

  pub get-put : (k : Text) (a : A) (es : List (Text × A)) → get k (put k a es) ≡ some a
  unfolding get put
  get-put k a es = rw (text_eq_refl k) refl

  pub get-put_other :
      (j k : Text) (a : A) (es : List (Text × A))
      → Nodup (map key_of es)
      → j ≢ k
      → get j (put k a es) ≡ get j es
  unfolding get put delete
  get-put_other j k a es n d =
      let other : text_eq k j ≡ false = text_eq-false_of_ne k j (λ e. d (sym e)) in
      rw other (get-retain (λ e. not (text_eq e.0 k)) j es n ∙ kept (get j es))
    where
      kept : (o : Option A) → keep_if (λ e. not (text_eq e.0 k)) j o ≡ o
      kept none = refl
      kept (some b) = rw (text_eq-false_of_ne j k d) refl

  Mem-key-delete : (k : Text) (es : List (Text × A)) → ¬ Mem k (map key_of (delete k es))
  unfolding delete retain
  Mem-key-delete k [] m = not-mem-nil m
  Mem-key-delete k (e ∷ es) m = elim (Bool-cases (text_eq e.0 k)) [
    | inl h ↦ Mem-key-delete k es (rw h at m)
    | inr h ↦
        Or.elim ⊥_prop (eq-or-mem_of_mem-cons (rw h at m))
          (λ q. absurd (ground (arith, text_eq_refl k, q, h))) (Mem-key-delete k es)
  ]

  pub Nodup-put :
      (k : Text) (a : A) (es : List (Text × A))
      → Nodup (map key_of es)
      → Nodup (map key_of (put k a es))
  unfolding put delete
  Nodup-put k a es n =
      Nodup-cons.1 (Mem-key-delete k es, Nodup-retain (λ e. not (text_eq e.0 k)) es n)
