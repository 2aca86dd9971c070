-- ===== src/Server/Api/Tags.antt =====
-- normalizeNodeTags of internal/server/http.go.
use mathlib.Core.List.{Nodup}
use server_status.Base.{
  ◌≤◌, List, [], map, Option, none, some, ◌⊎◌, inl, inr, ◌≡◌, ◌≢◌, ◌↔◌, refl, arith, ltb, length,
  All, if◌then◌else◌, Bool-cases,
}
use server_status.Base.Check.{◌>>◌, reject}
use server_status.Base.Distinct.{for_distinct, for_distinct_iff}
use server_status.Base.Text.{Text, trim_space, is_blank, is_empty-false_iff}

pub data TagsError : Type 0 where
  too_many_tags empty_tag long_tag repeated_tag : TagsError

-- `strings.ToLower`
module _ (lower : Text → Text) where
  -- The loop, with its set `seen` of the tags in lower case.
  unfoldable pub check_tags : List Text → Option TagsError
  check_tags =
      for_distinct (λ tag. lower (trim_space tag)) (λ tag. repeated_tag)
        (λ tag.
          reject (is_blank tag) empty_tag >> reject (ltb 32 (length (trim_space tag))) long_tag)
        (λ tag. none) []

  or_tags : Option TagsError → List Text → TagsError ⊎ List Text
  or_tags (some e) tags = inl e
  or_tags none tags = inr (map trim_space tags)

  unfoldable pub normalize_node_tags : List Text → TagsError ⊎ List Text
  unfolding check_tags or_tags
  normalize_node_tags tags =
      if ltb 5 (length tags) then inl too_many_tags else or_tags (check_tags tags) tags

  -- At most five tags of 1 to 32 characters, different in lower case.
  pub record AreTags (tags : List Text) : Type 0 where
    pub few : length tags ≤ 5
    pub filled : All (λ tag. (trim_space tag ≢ []) × (length (trim_space tag) ≤ 32)) tags
    pub distinct : Nodup (map (λ tag. lower (trim_space tag)) tags)

  check_tag_iff :
      (tag : Text)
      → ((reject (is_blank tag) empty_tag
            >> reject (ltb 32 (length (trim_space tag))) long_tag
            >> none)
          ≡ none)
        ↔ ((trim_space tag ≢ []) × (length (trim_space tag) ≤ 32))
  check_tag_iff tag = ground (arith, is_empty-false_iff (trim_space tag))

  check_tags_iff :
      (tags : List Text)
      → (check_tags tags ≡ none) ↔ (
          All (λ tag. (trim_space tag ≢ []) × (length (trim_space tag) ≤ 32)) tags
          × Nodup (map (λ tag. lower (trim_space tag)) tags))
  unfolding check_tags
  check_tags_iff tags =
      for_distinct_iff (λ tag. lower (trim_space tag)) (λ tag. repeated_tag)
        (λ tag.
          reject (is_blank tag) empty_tag >> reject (ltb 32 (length (trim_space tag))) long_tag)
        (λ tag. none) (λ tag. (trim_space tag ≢ []) × (length (trim_space tag) ≤ 32)) check_tag_iff
        tags

  or_tags_iff :
      (o : Option TagsError) (tags out : List Text)
      → (or_tags o tags ≡ inr out) ↔ ((o ≡ none) × (out ≡ map trim_space tags))
  unfolding or_tags
  or_tags_iff none tags out = (λ h. (refl, ground (arith, h)), λ (e, q). rw q refl)
  or_tags_iff (some e) tags out =
      (λ h. absurd (ground (arith, h)), λ (h, q). absurd (ground (arith, h)))

  -- The tags are accepted, trimmed, exactly when they are at most five of 1 to 32 characters when
  -- trimmed, and different in lower case.
  pub normalize_node_tags_iff :
      (tags out : List Text)
      → (normalize_node_tags tags ≡ inr out) ↔ (AreTags tags × (out ≡ map trim_space tags))
  unfolding normalize_node_tags
  normalize_node_tags_iff tags out =
      let loop = check_tags_iff tags in
      let rest = or_tags_iff (check_tags tags) tags out in
      elim (Bool-cases (ltb 5 (length tags))) [
        | inl l ↦
            rw l (λ h. absurd (ground (arith, h)), λ (t, q). absurd (ground (arith, l, t.few)))
        | inr l ↦ rw l (
          λ h.
              let (passed, trimmed) = rest.0 h in
              let (filled, distinct) = loop.0 passed in
              (record { few = ground (arith, l); filled = filled; distinct = distinct }, trimmed),
          λ (t, q). rest.1 (loop.1 (t.filled, t.distinct), q),
        )
      ]
