-- ===== src/Base/Sort.antt =====
-- `sort.Slice` and `sort.Strings` by a string key. Where the keys differ, the result does not depend
-- on the algorithm: it is the only arrangement in order.
use mathlib.Core.List.{
  Perm, Permᴰ, Mem, Nodup, Nodup-cons, mem-cons_self, mem-cons_of_mem, eq-or-mem_of_mem-cons,
  not-mem-nil, mem-map_of_mem,
}
use mathlib.Core.Logic.Or
use mathlib.Core.List.Perm
use mathlib.Core.Logic.{∥∥₁_elim}
use server_status.Base.Tests.{if◌then◌else◌, Bool-cases}
use server_status.Base.Text.{
  Text, Text-discrete, text_lt, text_lt_asymm, text_lt_trans, text_lt_total,
}
use mathlib.Core.List.{List, [], ◌∷◌, map}
use mathlib.Core.Path.{◌≡◌, refl, ap, ◌∙◌, sym}
use mathlib.Core.Bool.{false}
use mathlib.Core.Logic.{◌≢◌, inl, inr}
use native.Mathlib.Omega.{arith}

module _ {ℓ} {A : Type ℓ} (key : A → Text) where
  unfoldable pub insert_by : A → List A → List A
  insert_by x [] = x ∷ []
  insert_by x (y ∷ ys) = if text_lt (key y) (key x) then y ∷ insert_by x ys else x ∷ y ∷ ys

  unfoldable pub sort_by : List A → List A
  unfolding insert_by
  sort_by [] = []
  sort_by (x ∷ xs) = insert_by x (sort_by xs)

  insert_by-perm : (x : A) (xs : List A) → Perm (insert_by x xs) (x ∷ xs)
  unfolding insert_by
  insert_by-perm x [] = Perm.refl (x ∷ [])
  insert_by-perm x (y ∷ ys) = elim (Bool-cases (text_lt (key y) (key x))) [
    | inl h ↦ rw h (Perm.trans (Perm.cons y (insert_by-perm x ys)) (Perm.swap x y ys))
    | inr h ↦ rw h (Perm.refl (x ∷ y ∷ ys))
  ]

  -- Sorting keeps the items.
  pub sort_by-perm : (xs : List A) → Perm (sort_by xs) xs
  unfolding sort_by
  sort_by-perm [] = Perm.refl []
  sort_by-perm (x ∷ xs) = Perm.trans (insert_by-perm x (sort_by xs)) (Perm.cons x (sort_by-perm xs))

  -- Two items of the list with one key are one item.
  abbrev pub Identifies : List A → Type ℓ
  Identifies xs = (x y : A) → Mem x xs → Mem y xs → key x ≡ key y → x ≡ y

  insert_by_comm_ne :
      (x y : A) (l : List A)
      → key x ≢ key y
      → insert_by x (insert_by y l) ≡ insert_by y (insert_by x l)
  unfolding insert_by
  insert_by_comm_ne x y [] n =
      ground (arith, text_lt_asymm (key x) (key y), text_lt_total (key x) (key y))
  insert_by_comm_ne x y (z ∷ l) n = ground (
    arith,
    insert_by_comm_ne x y l n,
    text_lt_asymm (key x) (key y),
    text_lt_total (key x) (key y),
    text_lt_trans (key z) (key x) (key y),
    text_lt_trans (key z) (key y) (key x),
  )

  -- Items that their keys tell apart may be inserted in either order.
  insert_by_comm :
      (x y : A) (l : List A)
      → (key x ≡ key y → x ≡ y)
      → insert_by x (insert_by y l) ≡ insert_by y (insert_by x l)
  insert_by_comm x y l same = elim (Text-discrete (key x) (key y)) [
    | yes e ↦ rw (same e)
    | no n ↦ insert_by_comm_ne x y l n
  ]

  sort_byᴰ : {xs ys : List A} → Permᴰ xs ys → Identifies xs → sort_by xs ≡ sort_by ys
  unfolding sort_by
  sort_byᴰ Permᴰ.nil same = refl
  sort_byᴰ (Permᴰ.cons {a = a} e p) same = rw (← e) (
      ap (insert_by a)
        (sort_byᴰ p (λ x y m n. same x y (mem-cons_of_mem a m) (mem-cons_of_mem a n))))
  sort_byᴰ (Permᴰ.swap {a = a} {b = b} {l = l} e f) same =
      rw (← e, ← f)
        (insert_by_comm a b (sort_by l) (same a b mem-cons_self (mem-cons_of_mem a mem-cons_self)))
  sort_byᴰ (Permᴰ.trans p q) same =
      sort_byᴰ p same
      ∙ sort_byᴰ q (λ x y m n. same x y ((Perm.mem_iff ∣ p ∣₁).1 m) ((Perm.mem_iff ∣ p ∣₁).1 n))

module _ {ℓ} {A : Type ℓ} (set : IsSet A) (key : A → Text) where
  -- Where the key tells the items apart, every arrangement of them sorts to the same list.
  pub sort_by_unique :
      (xs ys : List A) → Perm xs ys → Identifies key xs → sort_by key xs ≡ sort_by key ys
  sort_by_unique xs ys p same =
      let lists : IsSet (List A) = hlevel set in ∥∥₁_elim p (lists _ _) (λ d. sort_byᴰ key d same)

  -- Different keys tell the items apart.
  pub Identifies-of_Nodup : (xs : List A) → Nodup (map key xs) → Identifies key xs
  Identifies-of_Nodup [] n x y hx hy e = absurd (not-mem-nil hx)
  Identifies-of_Nodup (a ∷ xs) n x y hx hy e =
      let (fresh, rest) = Nodup-cons.0 n in
      Or.elim (set x y) (eq-or-mem_of_mem-cons hx)
        (λ ex.
          Or.elim (set x y) (eq-or-mem_of_mem-cons hy) (λ ey. ex ∙ sym ey)
            (λ my. absurd (fresh (rw (← ex, e) (mem-map_of_mem key my)))))
        (λ mx.
          Or.elim (set x y) (eq-or-mem_of_mem-cons hy)
            (λ ey. absurd (fresh (rw (← ey, ← e) (mem-map_of_mem key mx))))
            (λ my. Identifies-of_Nodup xs rest x y mx my e))

module _ {ℓ} {A : Type ℓ} (key : A → Text) where
  -- No item stands before one of a smaller key.
  IsSorted : List A → Type 0
  IsSorted [] = Unit
  IsSorted (x ∷ []) = Unit
  IsSorted (x ∷ y ∷ ys) = (text_lt (key y) (key x) ≡ false) × IsSorted (y ∷ ys)

  IsSorted-insert_by : (x : A) (xs : List A) → IsSorted xs → IsSorted (insert_by key x xs)
  unfolding insert_by IsSorted
  IsSorted-insert_by x [] s = tt
  IsSorted-insert_by x (y ∷ []) s = elim (Bool-cases (text_lt (key y) (key x))) [
    | inl h ↦ rw h (text_lt_asymm (key y) (key x) h, tt)
    | inr h ↦ rw h (h, tt)
  ]
  IsSorted-insert_by x (y ∷ z ∷ zs) s =
      let ih = IsSorted-insert_by x (z ∷ zs) s.1 in
      elim (Bool-cases (text_lt (key y) (key x))) [
        | inl h ↦ elim (Bool-cases (text_lt (key z) (key x))) [
          | inl k ↦ rw (h, k) (s.0, rw k at ih)
          | inr k ↦ rw (h, k) (text_lt_asymm (key y) (key x) h, rw k at ih)
        ]
        | inr h ↦ rw h (h, s)
      ]

  IsSorted-sort_by : (xs : List A) → IsSorted (sort_by key xs)
  unfolding sort_by IsSorted
  IsSorted-sort_by [] = tt
  IsSorted-sort_by (x ∷ xs) = IsSorted-insert_by x (sort_by key xs) (IsSorted-sort_by xs)

  sort_by-IsSorted : (xs : List A) → IsSorted xs → sort_by key xs ≡ xs
  unfolding sort_by insert_by IsSorted
  sort_by-IsSorted [] s = refl
  sort_by-IsSorted (x ∷ []) s = refl
  sort_by-IsSorted (x ∷ y ∷ ys) s =
      ap (insert_by key x) (sort_by-IsSorted (y ∷ ys) s.1) ∙ (rw s.0 refl)

  -- Sorting again changes nothing.
  pub sort_by_again : (xs : List A) → sort_by key (sort_by key xs) ≡ sort_by key xs
  sort_by_again xs = sort_by-IsSorted (sort_by key xs) (IsSorted-sort_by xs)

module _ {ℓ κ} {A : Type ℓ} {B : Type κ} (key : A → Text) (key' : B → Text) (f : A → B)
    (keeps : (x : A) → key' (f x) ≡ key x) where
  insert_by-map :
      (x : A) (xs : List A) → insert_by key' (f x) (map f xs) ≡ map f (insert_by key x xs)
  unfolding insert_by
  insert_by-map x [] = refl
  insert_by-map x (y ∷ ys) = elim (Bool-cases (text_lt (key y) (key x))) [
    | inl h ↦ rw (keeps y, keeps x, h) (ap (λ l. f y ∷ l) (insert_by-map x ys))
    | inr h ↦ rw (keeps y, keeps x, h) refl
  ]

  -- A change that keeps the keys may be made before sorting or afterwards.
  pub sort_by-map : (xs : List A) → sort_by key' (map f xs) ≡ map f (sort_by key xs)
  unfolding sort_by
  sort_by-map [] = refl
  sort_by-map (x ∷ xs) =
      ap (insert_by key' (f x)) (sort_by-map xs) ∙ insert_by-map x (sort_by key xs)
