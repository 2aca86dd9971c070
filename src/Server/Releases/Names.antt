-- ===== src/Server/Releases/Names.antt =====
-- The names of releases and assets that internal/server/release_cache.go takes are names of files.
use server_status.Base.{
  ℕ, Bool, true, false, not, ◌&&◌, List, [], ◌∷◌, Option, none, some, inl, inr, ◌≡◌, refl, sym,
  arith, Bool-cases, Option-cases, ◌==◌, All,
}
use server_status.Base.Text.{Text, text_eq, text_eq_iff, contains}
use server_status.Version.Parse.{
  is_identifier_char, all_identifier_chars, take_digits, match_dot, match_suffix, ◌>>=◌,
}
use server_status.Server.Releases.{
  match_digits, match_v, release_numbers, release_version_pattern, latest, valid_release_version,
  release_assets, valid_release_asset,
}

-- No separator of a path.
abbrev is_plain : ℕ → Bool
is_plain c = not (c == b'/') && not (c == b'\\')

all_plain : Text → Bool
all_plain [] = true
all_plain (c ∷ s) = is_plain c && all_plain s

-- One name of a file below a directory: not empty, and neither "." nor "..".
unfoldable pub is_file_name : Text → Bool
unfolding all_plain
is_file_name [] = false
is_file_name (c ∷ s) = not (c == b'.') && all_plain (c ∷ s)

all_plain-identifier : (s : Text) → all_identifier_chars s ≡ true → all_plain s ≡ true
unfolding all_plain all_identifier_chars is_identifier_char
all_plain-identifier [] h = refl
all_plain-identifier (c ∷ s) h = ground (arith, all_plain-identifier s)

all_plain-take_digits : (s : Text) → all_plain (take_digits s).1 ≡ true → all_plain s ≡ true
unfolding all_plain take_digits
all_plain-take_digits [] h = refl
all_plain-take_digits (c ∷ s) h = ground (arith, all_plain-take_digits s)

all_plain-match_digits :
    (s rest : Text) → match_digits s ≡ some rest → all_plain rest ≡ true → all_plain s ≡ true
unfolding match_digits
all_plain-match_digits s rest h p = ground (arith, all_plain-take_digits s)

all_plain-match_dot :
    (s rest : Text) → match_dot s ≡ some rest → all_plain rest ≡ true → all_plain s ≡ true
unfolding match_dot all_plain
all_plain-match_dot [] rest h p = refl
all_plain-match_dot (c ∷ s) rest h p = ground arith

all_plain-match_suffix : (s rest : Text) → match_suffix s ≡ some rest → all_plain s ≡ true
unfolding match_suffix all_plain
all_plain-match_suffix [] rest h = refl
all_plain-match_suffix (c ∷ s) rest h = ground (arith, all_plain-identifier s)

>>=-some :
    {A B : Type 0} (o : Option A) (f : A → Option B) (b : B)
    → (o >>= f) ≡ some b
    → (a : A) × (o ≡ some a) × (f a ≡ some b)
>>=-some none f b h = absurd (ground (arith, h))
>>=-some (some a) f b h = (a, refl, h)

after_v :
    (version major : Text)
    → match_v version ≡ some major
    → all_plain major ≡ true
    → is_file_name version ≡ true
unfolding match_v is_file_name
after_v [] major h p = absurd (ground (arith, h))
after_v (c ∷ s) major h p = ground arith

release_numbers-plain :
    (major rest : Text) → release_numbers major ≡ some rest → all_plain major ≡ true
unfolding release_numbers
release_numbers-plain major rest h =
    let (dot, d1, h2) = >>=-some (match_digits major) _ rest h in
    let (minor, m1, h3) = >>=-some (match_dot dot) _ rest h2 in
    let (dot', d2, h4) = >>=-some (match_digits minor) _ rest h3 in
    let (patch, m2, h5) = >>=-some (match_dot dot') _ rest h4 in
    let (suffix, d3, h6) = >>=-some (match_digits patch) _ rest h5 in
    all_plain-match_digits major dot d1 (
      all_plain-match_dot dot minor m1 (
        all_plain-match_digits minor dot' d2 (
          all_plain-match_dot dot' patch m2
            (all_plain-match_digits patch suffix d3 (all_plain-match_suffix suffix rest h6)))))

release_version_pattern-IsFileName :
    (version rest : Text)
    → release_version_pattern version ≡ some rest
    → is_file_name version ≡ true
unfolding release_version_pattern
release_version_pattern-IsFileName version rest h =
    let (major, v, h1) = >>=-some (match_v version) _ rest h in
    after_v version major v (release_numbers-plain major rest h1)

contains-All :
    (P : Text → Bool) (ts : List Text) (s : Text)
    → All (λ t. P t ≡ true) ts
    → contains ts s ≡ true
    → P s ≡ true
unfolding contains
contains-All P [] s all h = absurd (ground (arith, h))
contains-All P (t ∷ ts) s all h = elim (Bool-cases (text_eq t s)) [
  | inl e ↦ rw (sym ((text_eq_iff t s).0 e)) all.0
  | inr e ↦ contains-All P ts s all.1 (rw e at h)
]

assets-IsFileName : All (λ t. is_file_name t ≡ true) release_assets
unfolding is_file_name all_plain
assets-IsFileName = (refl, (refl, (refl, (refl, (refl, (refl, (refl, (refl, tt))))))))

latest-IsFileName : is_file_name latest ≡ true
unfolding is_file_name all_plain
latest-IsFileName = refl

-- A version and an asset that a request may name are each the name of one file or directory below
-- another: neither is empty, begins with a dot, or has a slash or a backslash.
pub valid_release-IsFileName :
    (version asset : Text)
    → valid_release_version version ≡ true
    → valid_release_asset asset ≡ true
    → (is_file_name version ≡ true) × (is_file_name asset ≡ true)
unfolding valid_release_version valid_release_asset
valid_release-IsFileName version asset v a = (
  elim (Bool-cases (text_eq version latest)) [
    | inl t ↦ rw ((text_eq_iff version latest).0 t) latest-IsFileName
    | inr t ↦ elim (Option-cases (release_version_pattern version)) [
      | inl p ↦ absurd (ground (arith, rw (t, p) at v))
      | inr (rest, p) ↦ release_version_pattern-IsFileName version rest p
    ]
  ],
  contains-All is_file_name release_assets asset assets-IsFileName a,
)
