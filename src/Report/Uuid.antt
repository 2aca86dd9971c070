-- ===== src/Report/Uuid.antt =====
-- ValidUUID of internal/report/validate.go: the regular expression of an RFC 4122 UUID, as the list
-- of the character classes that it wants, one after another to the end of the text.
use server_status.Base.{
  ℕ, zero, suc, Bool, true, false, List, [], ◌∷◌, ◌&&◌, ◌||◌, ◌++◌, ◌≡◌, refl, arith, leb, ◌==◌,
}
use server_status.Base.Text.{Text, codes}

abbrev pub is_digit : ℕ → Bool
is_digit c = leb b'0' c && leb c b'9'

-- [0-9a-fA-F]
unfoldable pub is_hex : ℕ → Bool
is_hex c = is_digit c || (leb b'a' c && leb c b'f') || (leb b'A' c && leb c b'F')

pub data CharClass : Type 0 where
  hex dash version variant : CharClass

in_class : CharClass → ℕ → Bool
unfolding is_hex
in_class hex c = is_hex c
in_class dash c = c == b'-'
in_class version c = leb b'1' c && leb c b'5'
in_class variant c = c == b'8' || c == b'9' || c == b'a' || c == b'b' || c == b'A' || c == b'B'

matches_classes : List CharClass → Text → Bool
unfolding in_class
matches_classes [] [] = true
matches_classes (k ∷ ks) (c ∷ s) = in_class k c && matches_classes ks s
matches_classes _ _ = false

-- `[0-9a-fA-F]{n}` before the rest of the expression
hexes : ℕ → List CharClass → List CharClass
hexes zero rest = rest
hexes (suc n) rest = hex ∷ hexes n rest

abbrev uuid_pattern : List CharClass
unfolding hexes
uuid_pattern =
    hexes 8
      (dash ∷ hexes 4 (dash ∷ version ∷ hexes 3 (dash ∷ variant ∷ hexes 3 (dash ∷ hexes 12 []))))

unfoldable pub valid_uuid : Text → Bool
unfolding matches_classes hexes
valid_uuid = matches_classes uuid_pattern

matches_classes-prefix :
    (ks : List CharClass) (s t x y : Text)
    → matches_classes ks s ≡ true
    → matches_classes ks t ≡ true
    → s ++ x ≡ t ++ y
    → (s ≡ t) × (x ≡ y)
unfolding matches_classes
matches_classes-prefix [] [] [] x y h k e = (refl, e)
matches_classes-prefix [] [] (d ∷ t) x y h k e = absurd (ground (arith, k))
matches_classes-prefix [] (c ∷ s) t x y h k e = absurd (ground (arith, h))
matches_classes-prefix (l ∷ ks) [] t x y h k e = absurd (ground (arith, h))
matches_classes-prefix (l ∷ ks) (c ∷ s) [] x y h k e = absurd (ground (arith, k))
matches_classes-prefix (l ∷ ks) (c ∷ s) (d ∷ t) x y h k e =
    let head : c ≡ d = cc in
    let tail : s ++ x ≡ t ++ y = cc in
    let (same, rest) =
      matches_classes-prefix ks s t x y (ground (arith, h)) (ground (arith, k)) tail in
    (ap-cons head same, rest)
  where
    ap-cons : {a b : ℕ} {u v : Text} → a ≡ b → u ≡ v → a ∷ u ≡ b ∷ v
    ap-cons p q = cc

-- UUIDs are of one length: what follows one tells it apart.
pub valid_uuid-prefix :
    (s t x y : Text)
    → valid_uuid s ≡ true
    → valid_uuid t ≡ true
    → s ++ x ≡ t ++ y
    → (s ≡ t) × (x ≡ y)
unfolding valid_uuid
valid_uuid-prefix = matches_classes-prefix uuid_pattern

accepts_uuid : valid_uuid (codes "6f9619ff-8b86-4d01-b42d-00cf4fc964ff") ≡ true
unfolding valid_uuid
accepts_uuid = refl

rejects_version : valid_uuid (codes "6f9619ff-8b86-0d01-b42d-00cf4fc964ff") ≡ false
unfolding valid_uuid
rejects_version = refl
