-- ===== src/Version/Laws.antt =====
-- The comparison of versions is a total order on what the versions parse to.
use server_status.Base.{List, [], ◌∷◌, Option, none, some, ◌≡◌, ◌↔◌, refl, ap, arith}
use server_status.Base.Text.{
  Text, text_lt_asymm, text_lt_trans, text_lt_total, text_lt_irrefl, trim_space,
}
use mathlib.Core.Option
use server_status.Version.Parse.{Parsed, parse, ◌>>=◌}
use server_status.Version.Order.{
  Comparison, less, equal, greater, compare_text, compare_kinds, compare_identifiers, compare_lists,
  compare_prerelease, compare_number, compare_parsed, compare,
}

abbrev pub flip : Comparison → Comparison
flip less = greater
flip equal = equal
flip greater = less

-- A total order, as a three-way comparison.
pub record IsTotalOrder {A : Type 0} (cmp : A → A → Comparison) : Type 0 where
  pub reflexive : (x : A) → cmp x x ≡ equal
  pub exact : (x y : A) → cmp x y ≡ equal → x ≡ y
  pub flips : (x y : A) → cmp y x ≡ flip (cmp x y)
  pub transitive : (x y z : A) → cmp x y ≡ less → cmp y z ≡ less → cmp x z ≡ less

compare_number-IsTotalOrder : IsTotalOrder compare_number
unfolding compare_number
compare_number-IsTotalOrder = record {
  reflexive = λ x. ground arith;
  exact = λ x y h. ground arith;
  flips = λ x y. ground arith;
  transitive = λ x y z h k. ground arith;
}

compare_text-IsTotalOrder : IsTotalOrder compare_text
unfolding compare_text
compare_text-IsTotalOrder = record {
  reflexive = λ x. ground (arith, text_lt_irrefl x);
  exact = λ x y h. ground (arith, text_lt_total x y);
  flips = λ x y. ground (arith, text_lt_asymm x y);
  transitive = λ x y z h k. ground (arith, text_lt_trans x y z);
}

compare_identifiers-IsTotalOrder : IsTotalOrder compare_identifiers
unfolding compare_identifiers compare_kinds
compare_identifiers-IsTotalOrder = record {
  reflexive = λ x. ground (arith, text_lt_irrefl x);
  exact = λ x y h. ground (arith, text_lt_total x y);
  flips = λ x y. ground (arith, text_lt_asymm x y);
  transitive = λ x y z h k. ground (arith, text_lt_trans x y z);
}

compare_lists-reflexive : (xs : List Text) → compare_lists xs xs ≡ equal
unfolding compare_lists
compare_lists-reflexive [] = refl
compare_lists-reflexive (x ∷ xs) =
    ground (arith, compare_identifiers-IsTotalOrder.reflexive x, compare_lists-reflexive xs)

compare_lists-exact : (xs ys : List Text) → compare_lists xs ys ≡ equal → xs ≡ ys
unfolding compare_lists
compare_lists-exact [] [] h = refl
compare_lists-exact [] (y ∷ ys) h = cc
compare_lists-exact (x ∷ xs) [] h = cc
compare_lists-exact (x ∷ xs) (y ∷ ys) h =
    ground (arith, compare_identifiers-IsTotalOrder.exact x y, compare_lists-exact xs ys)

compare_lists-flips : (xs ys : List Text) → compare_lists ys xs ≡ flip (compare_lists xs ys)
unfolding compare_lists
compare_lists-flips [] [] = refl
compare_lists-flips [] (y ∷ ys) = refl
compare_lists-flips (x ∷ xs) [] = refl
compare_lists-flips (x ∷ xs) (y ∷ ys) =
    ground (arith, compare_identifiers-IsTotalOrder.flips x y, compare_lists-flips xs ys)

compare_lists-transitive :
    (xs ys zs : List Text)
    → compare_lists xs ys ≡ less
    → compare_lists ys zs ≡ less
    → compare_lists xs zs ≡ less
unfolding compare_lists
compare_lists-transitive [] [] zs h k = cc
compare_lists-transitive [] (y ∷ ys) [] h k = cc
compare_lists-transitive [] (y ∷ ys) (z ∷ zs) h k = refl
compare_lists-transitive (x ∷ xs) [] zs h k = cc
compare_lists-transitive (x ∷ xs) (y ∷ ys) [] h k = cc
compare_lists-transitive (x ∷ xs) (y ∷ ys) (z ∷ zs) h k = ground (
  arith,
  compare_identifiers-IsTotalOrder.transitive x y z,
  compare_identifiers-IsTotalOrder.exact x y,
  compare_identifiers-IsTotalOrder.exact y z,
  compare_identifiers-IsTotalOrder.reflexive x,
  compare_lists-transitive xs ys zs,
)

compare_prerelease-IsTotalOrder : IsTotalOrder compare_prerelease
unfolding compare_prerelease
compare_prerelease-IsTotalOrder = record {
  reflexive = same;
  exact = exact;
  flips = flips;
  transitive = transitive;
}
  where
    same : (xs : List Text) → compare_prerelease xs xs ≡ equal
    same [] = refl
    same (x ∷ xs) = compare_lists-reflexive (x ∷ xs)

    exact : (xs ys : List Text) → compare_prerelease xs ys ≡ equal → xs ≡ ys
    exact [] [] h = refl
    exact [] (y ∷ ys) h = cc
    exact (x ∷ xs) [] h = cc
    exact (x ∷ xs) (y ∷ ys) h = compare_lists-exact (x ∷ xs) (y ∷ ys) h

    flips : (xs ys : List Text) → compare_prerelease ys xs ≡ flip (compare_prerelease xs ys)
    flips [] [] = refl
    flips [] (y ∷ ys) = refl
    flips (x ∷ xs) [] = refl
    flips (x ∷ xs) (y ∷ ys) = compare_lists-flips (x ∷ xs) (y ∷ ys)

    transitive :
        (xs ys zs : List Text)
        → compare_prerelease xs ys ≡ less
        → compare_prerelease ys zs ≡ less
        → compare_prerelease xs zs ≡ less
    transitive [] [] zs h k = cc
    transitive [] (y ∷ ys) zs h k = cc
    transitive (x ∷ xs) [] [] h k = refl
    transitive (x ∷ xs) [] (z ∷ zs) h k = cc
    transitive (x ∷ xs) (y ∷ ys) [] h k = refl
    transitive (x ∷ xs) (y ∷ ys) (z ∷ zs) h k =
        compare_lists-transitive (x ∷ xs) (y ∷ ys) (z ∷ zs) h k

-- The comparison of parsed versions is a total order.
pub compare_parsed-IsTotalOrder : IsTotalOrder compare_parsed
unfolding compare_parsed
compare_parsed-IsTotalOrder = record {
  reflexive = λ x. ground (
    arith,
    compare_number-IsTotalOrder.reflexive x.major,
    compare_number-IsTotalOrder.reflexive x.minor,
    compare_number-IsTotalOrder.reflexive x.patch,
    compare_prerelease-IsTotalOrder.reflexive x.prerelease,
  );
  exact = λ x y h. ground (arith, compare_prerelease-IsTotalOrder.exact x.prerelease y.prerelease);
  flips = λ x y. ground (arith, compare_prerelease-IsTotalOrder.flips x.prerelease y.prerelease);
  transitive = λ x y z h k.
      ground
        (arith, compare_prerelease-IsTotalOrder.transitive x.prerelease y.prerelease z.prerelease);
}

-- Both texts parse, after trimming, to one version.
pub record SameVersion (left right : Text) : Type 0 where
  pub version : Parsed
  pub left_parses : parse (trim_space left) ≡ some version
  pub right_parses : parse (trim_space right) ≡ some version

-- Comparing the other way round flips the result, and fails for the same texts.
pub compare_flips : (left right : Text) → compare right left ≡ Option.map flip (compare left right)
unfolding compare
compare_flips left right = flipped (parse (trim_space left)) (parse (trim_space right))
  where
    flipped :
        (l r : Option Parsed)
        → (do a ← r; b ← l; some (compare_parsed a b))
          ≡ Option.map flip (do a ← l; b ← r; some (compare_parsed a b))
    flipped none none = refl
    flipped none (some b) = refl
    flipped (some a) none = refl
    flipped (some a) (some b) = ap some (compare_parsed-IsTotalOrder.flips a b)

-- A version below one that is below a third is below the third.
pub compare_transitive :
    (a b c : Text) → compare a b ≡ some less → compare b c ≡ some less → compare a c ≡ some less
unfolding compare
compare_transitive a b c =
    chain (parse (trim_space a)) (parse (trim_space b)) (parse (trim_space c))
  where
    chain :
        (x y z : Option Parsed)
        → (do l ← x; r ← y; some (compare_parsed l r)) ≡ some less
        → (do l ← y; r ← z; some (compare_parsed l r)) ≡ some less
        → (do l ← x; r ← z; some (compare_parsed l r)) ≡ some less
    chain none y z h k = cc
    chain (some l) none z h k = cc
    chain (some l) (some m) none h k = cc
    chain (some l) (some m) (some r) h k =
        ground (arith, compare_parsed-IsTotalOrder.transitive l m r)

-- Two texts compare equal exactly when they parse to one version.
pub compare_equal_iff :
    (left right : Text) → (compare left right ≡ some equal) ↔ SameVersion left right
unfolding compare
compare_equal_iff left right = (
  λ h. agree (parse (trim_space left)) (parse (trim_space right)) refl refl h,
  λ s. simp (s.left_parses, s.right_parses, compare_parsed-IsTotalOrder.reflexive s.version),
)
  where
    agree :
        (x y : Option Parsed)
        → parse (trim_space left) ≡ x
        → parse (trim_space right) ≡ y
        → (do l ← x; r ← y; some (compare_parsed l r)) ≡ some equal
        → SameVersion left right
    agree none y p q h = absurd (ground arith)
    agree (some l) none p q h = absurd (ground arith)
    agree (some l) (some r) p q h =
        let same : l ≡ r = compare_parsed-IsTotalOrder.exact l r (ground arith) in
        record { version = l; left_parses = p; right_parses = rw same q }
