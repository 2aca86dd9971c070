-- ===== src/Windows/Config.antt =====
-- windows-agent/config.go: the configuration of the agent for Windows, its defaults, its checks and its
-- file. The pattern of a UUID is that of internal/report/validate.go.
use server_status.Base.{
  ℕ, Bool, true, false, not, ◌&&◌, ◌||◌, List, [], ◌∷◌, ◌++◌, Option, none, some, ◌⊎◌, inl, inr,
  if◌then◌else◌, ◌≡◌, refl, sym, ap, ◌∙◌, arith, Bool-cases, Option-cases,
}
use server_status.Base.Check.{◌>>◌, reject}
use server_status.Base.Int.{ℤ, pos, ltb_ℤ, eqb_ℤ}
use server_status.Base.Text.{
  trim_slashes, Text, codes, text_eq, is_empty, trim_space, trim_space_again,
}
use server_status.Report.Uuid.{valid_uuid}

pub record Config : Type 0 where
  pub server_url : Text
  pub agent_id : Text
  pub token : Text
  pub interval_seconds : ℤ
  pub labels : Option (List (Text × Text))

pub data ConfigError : Type 0 where
  invalid_url invalid_agent_id no_token invalid_interval : ConfigError
  unreadable not_decoded not_encoded not_written : ConfigError

-- A nil map becomes an empty one.
abbrev made : Option (List (Text × Text)) → Option (List (Text × Text))
made none = some []
made (some labels) = some labels

unfoldable pub apply_defaults : Config → Config
apply_defaults config = record {
  server_url = trim_slashes (trim_space config.server_url);
  agent_id = trim_space config.agent_id;
  token = trim_space config.token;
  interval_seconds =
      if eqb_ℤ config.interval_seconds (pos 0) then pos 60 else config.interval_seconds;
  labels = made config.labels;
}

-- What the program takes from net/url, encoding/json and the file system: url.Parse as the scheme and
-- the host, a file's content where it is read, and whether it is written.
pub record Platform : Type 0 where
  pub parse_url : Text → Option (Text × Text)
  pub marshal_indent : Config → Option (List ℕ)
  pub unmarshal : List ℕ → Option Config
  pub reads : Bool
  pub writes : Bool

abbrev is_absolute : Option (Text × Text) → Bool
is_absolute none = false
is_absolute (some (scheme, host)) =
    (text_eq scheme (codes "http") || text_eq scheme (codes "https")) && not (is_empty host)

unfoldable pub check_config : Platform → Config → Option ConfigError
check_config p config =
    reject (not (is_absolute (p.parse_url config.server_url))) invalid_url
    >> reject (not (valid_uuid config.agent_id)) invalid_agent_id
    >> reject (is_empty config.token) no_token
    >> reject (ltb_ℤ config.interval_seconds (pos 10) || ltb_ℤ (pos 3600) config.interval_seconds)
        invalid_interval

-- The error, and the configuration as the caller sees it afterwards.
unfoldable pub validate_config : Platform → Config → Option ConfigError × Config
validate_config p config = (check_config p (apply_defaults config), apply_defaults config)

abbrev pub checked : Option ConfigError × Config → ConfigError ⊎ Config
checked (none, config) = inr config
checked (some e, config) = inl e

-- The content of the file.
unfoldable pub load_config : Platform → List ℕ → ConfigError ⊎ Config
load_config p content =
    if p.reads
    then elim (p.unmarshal content) [
      | none ↦ inl not_decoded
      | some config ↦ checked (validate_config p config)
    ]
    else inl unreadable

abbrev written : Platform → ConfigError ⊎ Config → ConfigError ⊎ List ℕ
written p (inl e) = inl e
written p (inr config) = elim (p.marshal_indent config) [
  | none ↦ inl not_encoded
  | some content ↦ if p.writes then inr (content ++ 13 ∷ 10 ∷ []) else inl not_written
]

-- The content that the file gets.
unfoldable pub write_config : Platform → Config → ConfigError ⊎ List ℕ
write_config p config = written p (checked (validate_config p config))

trim_slashes_again : (s : Text) → trim_slashes (trim_slashes s) ≡ trim_slashes s
unfolding trim_slashes
trim_slashes_again [] = refl
trim_slashes_again (c ∷ s) = ground (arith, trim_slashes_again s)

-- What json.Unmarshal reads of a map written with `omitempty`: an empty one is left out.
abbrev pub omitted_if_empty : Option (List (Text × Text)) → Option (List (Text × Text))
omitted_if_empty none = none
omitted_if_empty (some []) = none
omitted_if_empty (some (label ∷ labels)) = some (label ∷ labels)

made_again :
    (labels : Option (List (Text × Text))) → made (omitted_if_empty (made labels)) ≡ made labels
made_again none = refl
made_again (some []) = refl
made_again (some (label ∷ labels)) = refl

interval_again :
    (n : ℤ)
    → (if eqb_ℤ (if eqb_ℤ n (pos 0) then pos 60 else n) (pos 0)
        then pos 60
        else (if eqb_ℤ n (pos 0) then pos 60 else n))
      ≡ (if eqb_ℤ n (pos 0) then pos 60 else n)
interval_again n = elim (Bool-cases (eqb_ℤ n (pos 0))) [
  | inl h ↦ rw h refl
  | inr h ↦ rw h (rw h refl)
]

module _ (p : Platform) (config : Config) where
  -- The configuration as it is decoded from what was encoded.
  abbrev pub decoded : Config
  decoded = record (apply_defaults config) {
    labels = omitted_if_empty (apply_defaults config).labels;
  }

  apply_defaults_again :
      trim_space (apply_defaults config).server_url ≡ (apply_defaults config).server_url
      → apply_defaults decoded ≡ apply_defaults config
  unfolding apply_defaults
  apply_defaults_again trimmed = λ i. record {
    server_url = (ap trim_slashes trimmed ∙ trim_slashes_again (trim_space config.server_url)) i;
    agent_id = trim_space_again config.agent_id i;
    token = trim_space_again config.token i;
    interval_seconds = interval_again config.interval_seconds i;
    labels = made_again config.labels i;
  }

  written-inr :
      (o : Option ConfigError) (c : Config) (content : List ℕ)
      → written p (checked (o, c)) ≡ inr content
      → (o ≡ none)
        × ((bytes : List ℕ) × (p.marshal_indent c ≡ some bytes) × (bytes ++ 13 ∷ 10 ∷ [] ≡ content))
  written-inr (some e) c content h = absurd (ground (arith, h))
  written-inr none c content h = elim (Option-cases (p.marshal_indent c)) [
    | inl m ↦ absurd (ground (arith, rw m at h))
    | inr (bytes, m) ↦ elim (Bool-cases p.writes) [
      | inl w ↦ (refl, (bytes, m, ground (arith, rw (m, w) at h)))
      | inr w ↦ absurd (ground (arith, rw (m, w) at h))
    ]
  ]

  -- A configuration that is written is loaded again with its defaults filled in, where the file is read,
  -- encoding/json decodes what it has encoded, but for empty labels, which it leaves out, and the
  -- address has no space left before its last slashes.
  pub load_config-write_config :
      ((bytes : List ℕ)
        → p.marshal_indent (apply_defaults config) ≡ some bytes
        → p.unmarshal (bytes ++ 13 ∷ 10 ∷ []) ≡ some decoded)
      → p.reads ≡ true
      → trim_space (apply_defaults config).server_url ≡ (apply_defaults config).server_url
      → (content : List ℕ) → write_config p config ≡ inr content
      → load_config p content ≡ inr (apply_defaults config)
  unfolding write_config load_config validate_config
  load_config-write_config json reads trimmed content h =
      let (valid, (bytes, m, content_is)) =
        written-inr (check_config p (apply_defaults config)) (apply_defaults config) content h in
      let read : p.unmarshal content ≡ some decoded =
        ap p.unmarshal (sym content_is) ∙ json bytes m in
      let again = apply_defaults_again trimmed in rw (reads, read) (rw again (rw valid refl))
