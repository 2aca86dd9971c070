-- ===== src/Base/Lists.antt =====
-- Lists measured by native numbers, with predicates and membership by recursion.
use Prim.Native.Nat.{ℕ, suc, ◌+◌, ◌≤◌}
use mathlib.Core.Path.{◌≡◌, refl, ap}
use mathlib.Core.Logic.Or
use mathlib.Core.List
use mathlib.Core.List.Nodup
use mathlib.Core.List.Subperm
use native.Mathlib.Bridge.{from_ℕ, from_le}
use mathlib.Core.List.{
  List, [], ◌∷◌, ◌++◌, map, Nodup, Subset, Mem, not-mem-nil, eq-or-mem_of_mem-cons,
}
use native.Mathlib.Omega.{arith}

module _ {ℓ} {A : Type ℓ} where
  abbrev pub length : List A → ℕ
  length [] = 0
  length (x ∷ xs) = suc (length xs)

  pub length-append : (xs ys : List A) → length (xs ++ ys) ≡ length xs + length ys
  length-append [] ys = omega arith
  length-append (x ∷ xs) ys = omega (arith, length-append xs ys)

module _ {ℓ κ} {A : Type ℓ} where
  abbrev pub All : (A → Type κ) → List A → Type κ
  All P [] = Unit
  All P (x ∷ xs) = P x × All P xs

  pub All-append : (P : A → Type κ) (xs ys : List A) → All P xs → All P ys → All P (xs ++ ys)
  All-append P [] ys h k = k
  All-append P (x ∷ xs) ys (p, h) k = (p, All-append P xs ys h k)

module _ {ℓ κ μ} {A : Type ℓ} where
  pub All-map :
      (P : A → Type κ) (Q : A → Type μ) (f : (x : A) → P x → Q x) (xs : List A)
      → All P xs
      → All Q xs
  All-map P Q f [] h = tt
  All-map P Q f (x ∷ xs) (p, h) = (f x p, All-map P Q f xs h)

module _ {ℓ κ} {A : Type ℓ} where
  -- What holds of every entry holds of a member.
  pub All-Mem :
      (P : A → Type κ)
      → ((a : A) → IsProp (P a))
      → {a : A} (xs : List A) → All P xs
      → Mem a xs
      → P a
  All-Mem P prop [] h m = absurd (not-mem-nil m)
  All-Mem P prop {a} (x ∷ xs) h m =
      Or.elim (prop a) (eq-or-mem_of_mem-cons m) (λ e. rw e h.0) (All-Mem P prop xs h.1)

-- The native length is the library's.
length-from_ℕ {ℓ} : {A : Type ℓ} (xs : List A) → length xs ≡ from_ℕ (List.length xs)
length-from_ℕ [] = refl
length-from_ℕ (x ∷ xs) = ap suc (length-from_ℕ xs)

-- A list without repetition is no longer than a list that has all its entries.
pub length-le_of_subset {ℓ} :
    {A : Type ℓ} {xs ys : List A} → Nodup xs → Subset xs ys → length xs ≤ length ys
length-le_of_subset {xs = xs} {ys = ys} n s =
    rw (length-from_ℕ xs, length-from_ℕ ys) (from_le (Subperm.length-le (Nodup.subperm n s)))

pub length-map {ℓ κ} :
    {A : Type ℓ} {B : Type κ} (f : A → B) (xs : List A) → length (map f xs) ≡ length xs
length-map f [] = refl
length-map f (x ∷ xs) = ap suc (length-map f xs)
