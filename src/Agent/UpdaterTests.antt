-- ===== src/Agent/UpdaterTests.antt =====
-- Runs of updater.go and client.go of internal/agent, and their theorems at concrete values.
use server_status.Base.Int.{pos}
use server_status.Base.{
  Option, inl, arith, zero, suc, ◌≤◌, ◌<◌, ◌==◌, false, ℕ, List, [], ◌∷◌, ◌++◌, none, some, ◌⊎◌,
  inr, ◌≡◌, ◌≢◌, refl, true, if◌then◌else◌,
}
use server_status.Base.Checksums.{fields, is_digest, all_hex}
use server_status.Base.Decimal.{split, parse_uint}
use server_status.Base.Text.{
  Text, codes, text_eq, text_lt, trim_space, trim_left, trim_right, is_space, to_lower, byte_len,
}
use server_status.Report.Types.{AgentUpdate, ReportReceipt}
use server_status.Version.Parse.{
  parse, parse_numbers, match_number, match_dot, match_suffix, drop_v, take_digits, identifiers,
  all_identifier_chars, is_identifier_char,
}
use server_status.Version.Normal.{normalize}
use server_status.Version.Order.{
  less, compare, compare_parsed, compare_number, compare_prerelease, compare_lists,
  compare_identifiers, compare_kinds, compare_text, numeric_identifier,
}
use server_status.Server.Api.{agent_update, new_api}
use server_status.Agent.Client.{
  Attempts, send, send_once, read_receipt, is_retryable, is_due, received, server_returned,
  send-delivers,
}
use server_status.Agent.Run
use server_status.Agent.Updater.{
  World, Updater, update_checksum_for_asset, scan_lines, line_digest, update_asset_name,
  download_bytes, verify_update_version, check_target, fetch_update, apply,
}
use server_status.Agent.Updater.Applied.{IsVerified, apply-safe, agent_update-checked}

unfoldable program : Unit {0}
unfolding split parse_uint text_eq text_lt trim_space trim_left trim_right is_space to_lower
    byte_len parse parse_numbers match_number match_dot match_suffix drop_v take_digits identifiers
    all_identifier_chars is_identifier_char normalize compare compare_parsed compare_number
    compare_prerelease compare_lists compare_identifiers compare_kinds compare_text
    numeric_identifier agent_update new_api fields update_checksum_for_asset scan_lines line_digest
    is_digest all_hex update_asset_name download_bytes verify_update_version check_target
    fetch_update apply
program = tt

splits_words : fields (codes " ab  c ") ≡ codes "ab" ∷ codes "c" ∷ []
unfolding program
splits_words = refl

abbrev digest : Text
digest = codes "00112233445566778899aabbccddeeff00112233445566778899aabbccddeeff"

abbrev asset : Text
asset = codes "server-status-agent-linux-amd64"

abbrev binary : List ℕ
binary = 127 ∷ 69 ∷ []

-- A server with version 1.3.0, whose digests are all one.
abbrev world : World
world = record {
  download = λ version name.
      if text_eq name asset
      then some binary
      else some (digest ++ codes "  " ++ asset ++ codes "\n");
  text_of = λ bytes. bytes;
  sha256_hex = λ bytes. digest;
  finds_executable = true;
  creates_temporary = true;
  writes = true;
  changes_mode = true;
  version_of = λ bytes. some (codes "v1.3.0\n");
  renames = true;
}

abbrev old : Updater
old = record {
  current_version = codes "1.2.0";
  operating_system = codes "linux";
  architecture = codes "amd64";
}

installs : apply world old (codes "v1.3.0") [] ≡ (none, binary)
unfolding program
installs = refl

apply-safe_example :
    (((apply world old (codes "v1.3.0") []).0 ≢ none)
      × ((apply world old (codes "v1.3.0") []).1 ≡ []))
    ⊎ (((apply world old (codes "v1.3.0") []).0 ≡ none)
        × ((target : Text) × (normalize (codes "v1.3.0") ≡ some target)
            × (compare old.current_version target ≡ some less)
            × IsVerified world old target (apply world old (codes "v1.3.0") []).1))
apply-safe_example = apply-safe world old (codes "v1.3.0") []

abbrev asked : AgentUpdate
asked = record { version = codes "1.3.0" }

is_asked :
    agent_update
      (codes "1.2.0")
      (new_api (λ s. s) (codes "v1.3.0") (codes "root")).latest_agent_version
    ≡ some asked
unfolding program
is_asked = refl

is_updated : normalize (codes "v1.3.0") ≡ some asked.version
unfolding program
is_updated = refl

agent_update-checked_example :
    (check_target (codes "1.2.0") asked.version ≡ inr asked.version)
    × (agent_update
          (codes "v1.3.0")
          (new_api (λ s. s) (codes "v1.3.0") (codes "root")).latest_agent_version
        ≡ none)
agent_update-checked_example =
    agent_update-checked (λ s. s) (codes "v1.3.0") (codes "root") (codes "1.2.0") (codes "v1.3.0")
      asked is_asked is_updated

abbrev accepted_receipt : ReportReceipt
accepted_receipt = record { status = codes "accepted"; bucket_at = pos 0; agent_update = none }

abbrev decode : List ℕ → Option ReportReceipt
decode body = some accepted_receipt

-- The server is not ready at first.
abbrev second_try : Attempts decode
second_try = record {
  fires = λ attempt. true;
  exchange = λ attempt. record {
    creates = true;
    response = if attempt == 0 then some (503, []) else some (202, []);
    cancelled = false;
  };
}

taken : send_once decode (second_try.exchange 1) ≡ inr accepted_receipt
unfolding program send_once read_receipt
taken = refl

due : (j : ℕ) → j ≤ 1 → is_due decode second_try j ≡ true
due zero h = refl
due (suc j) h = refl

unavailable :
    (j : ℕ) → j < 1 → send_once decode (second_try.exchange j) ≡ inl (server_returned 503, true)
unfolding send_once is_retryable
unavailable zero h = refl
unavailable (suc j) h = absurd (omega (arith, h))

send-delivers_example : send decode second_try ≡ received accepted_receipt
send-delivers_example =
    send-delivers decode second_try accepted_receipt (λ j. server_returned 503) 1 taken
      (omega arith) due unavailable

abbrev round : Run.Round decode old 60
round = record { collects = true; attempts = second_try; world = world; elapsed = 3 }

run-IsInstalled_example :
    Run.EndsSafely decode old 60
      (Run.fires round ∷ [])
      binary
      (Run.run decode old 60 (Run.fires round ∷ []) binary)
run-IsInstalled_example = Run.run-IsInstalled decode old 60 (Run.fires round ∷ []) binary
