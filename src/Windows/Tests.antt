-- ===== src/Windows/Tests.antt =====
-- Runs of windows-agent, and its theorems at concrete values.
use server_status.Base.{
  ℕ, ◌≤◌, true, false, List, [], ◌∷◌, ◌++◌, Option, none, some, ◌⊎◌, inr, ◌≡◌, ◌≢◌, refl, arith,
}
use server_status.Base.Checksums.{is_digest, all_hex}
use server_status.Base.Float.{of_nat}
use server_status.Base.Int.{pos}
use server_status.Base.Sort.{sort_by, insert_by}
use server_status.Base.Text.{
  trim_slashes, Text, codes, text_eq, text_lt, trim_space, trim_left, trim_right, is_space,
  to_lower, byte_len,
}
use server_status.Report.Validate.{check_fingerprint}
use server_status.Report.Normalize.{
  sort_options, sort_addresses, normalize_inventory, inventory_fingerprint,
}
use server_status.Report.Types.{Report}
use server_status.Report.Sample
use server_status.Report.Sample.{toy, sample, filesystem}
use server_status.Report.Uuid.{valid_uuid}
use server_status.Version.Parse.{
  take_digits, match_dot, match_suffix, all_identifier_chars, is_identifier_char,
}
use server_status.Server.Releases.{
  match_digits, match_v, release_numbers, release_version_pattern, valid_release_version,
}
use server_status.Windows.Config
use server_status.Windows.Config.{
  Config, apply_defaults, check_config, validate_config, load_config, write_config,
  load_config-write_config,
}
use server_status.Windows.Inventory.{
  WindowsInventory, normalize_windows_inventory, windows_fingerprint, to_report,
  windows_fingerprint-accepted,
}
use server_status.Windows.Release.Downloaded.{
  IsSafe, smartctl_release_version-valid, download_release_asset-IsSafe,
}
use server_status.Windows.Release.{
  after_prefix, released_windows_agent, smartctl_release_version, smartctl_release_asset, Response,
  Download, wrong_digest, limited, kept, save_response, fetch_dependency, download_release_asset,
}

unfoldable program : Unit {0}
unfolding is_digest all_hex sort_by insert_by text_eq text_lt trim_space trim_left trim_right
    is_space to_lower byte_len check_fingerprint sort_options sort_addresses normalize_inventory
    inventory_fingerprint valid_uuid take_digits match_dot match_suffix all_identifier_chars
    is_identifier_char match_digits match_v release_numbers release_version_pattern
    valid_release_version apply_defaults check_config validate_config load_config write_config
    normalize_windows_inventory windows_fingerprint after_prefix released_windows_agent
    smartctl_release_version trim_slashes limited save_response fetch_dependency kept
    download_release_asset
program = tt

released : smartctl_release_version (codes "windows-legacy-1.4.0 ") ≡ codes "v1.4.0"
unfolding program
released = refl

developed : smartctl_release_version (codes "windows-legacy-dev") ≡ codes "latest"
unfolding program
developed = refl

is_short : byte_len (smartctl_release_version (codes "windows-legacy-1.4.0")) ≤ 64
unfolding program
is_short = omega arith

smartctl_release_version-valid_example :
    valid_release_version (smartctl_release_version (codes "windows-legacy-1.4.0")) ≡ true
smartctl_release_version-valid_example =
    smartctl_release_version-valid (codes "windows-legacy-1.4.0") is_short

abbrev digest : Text
digest = codes "896337fcc253220614cf8cdbd5cf2321c5aa326a37a04160a672a281e6104c70"

abbrev setup : List ℕ
setup = 77 ∷ 90 ∷ []

abbrev answer : Response
answer = record { status = 200; content_length = some 2; body = setup; copies = true }

abbrev world : Download
world = record {
  has_client = true;
  makes_directory = true;
  creates_temporary = true;
  creates_request = true;
  response = λ url. some answer;
  sha256_hex = λ bytes. digest;
  syncs = true;
  closes = true;
  removes = true;
}

-- The digest is another one, and the removal fails.
abbrev bad_world : Download
bad_world = record world { sha256_hex = λ bytes. codes "0"; removes = false }

abbrev server : Text
server = codes "https://status.example/"

downloads :
    download_release_asset world server (codes "v1.4.0") smartctl_release_asset digest
    ≡ (none, some setup)
unfolding program
downloads = refl

leaves_file :
    download_release_asset bad_world server (codes "v1.4.0") smartctl_release_asset digest
    ≡ (some wrong_digest, some setup)
unfolding program
leaves_file = refl

download_release_asset-IsSafe_example :
    (((download_release_asset world server (codes "v1.4.0") smartctl_release_asset digest).0 ≢ none)
      × (((download_release_asset world server (codes "v1.4.0") smartctl_release_asset digest).1
            ≡ none)
          ⊎ (true ≡ false)))
    ⊎ ((bytes : List ℕ) × (download_release_asset world server
            (codes "v1.4.0")
            smartctl_release_asset
            digest
          ≡ (none, some bytes))
        × IsSafe world digest bytes)
download_release_asset-IsSafe_example =
    download_release_asset-IsSafe world server (codes "v1.4.0") smartctl_release_asset digest

abbrev config : Config
config = record {
  server_url = codes " https://status.example/ ";
  agent_id = codes "6f9619ff-8b86-4d01-b42d-00cf4fc964ff";
  token = codes "secret";
  interval_seconds = pos 0;
  labels = none;
}

abbrev full : Config
full = record {
  server_url = codes "https://status.example";
  agent_id = codes "6f9619ff-8b86-4d01-b42d-00cf4fc964ff";
  token = codes "secret";
  interval_seconds = pos 60;
  labels = some [];
}

-- One configuration is encoded and decoded.
abbrev windows : Config.Platform
windows = record {
  parse_url = λ url. some (codes "https", codes "status.example");
  marshal_indent = λ c. some (123 ∷ 125 ∷ []);
  unmarshal = λ bytes. some (record full { labels = none });
  reads = true;
  writes = true;
}

fills : apply_defaults config ≡ full
unfolding program
fills = refl

is_trimmed : trim_space (apply_defaults config).server_url ≡ (apply_defaults config).server_url
unfolding program
is_trimmed = refl

is_decoded :
    (bytes : List ℕ)
    → windows.marshal_indent (apply_defaults config) ≡ some bytes
    → windows.unmarshal (bytes ++ 13 ∷ 10 ∷ []) ≡ some (Config.decoded windows config)
unfolding program
is_decoded bytes h = refl

is_written : write_config windows config ≡ inr (123 ∷ 125 ∷ 13 ∷ 10 ∷ [])
unfolding program
is_written = refl

load_config-write_config_example :
    load_config windows (123 ∷ 125 ∷ 13 ∷ 10 ∷ []) ≡ inr (apply_defaults config)
load_config-write_config_example =
    load_config-write_config windows config is_decoded refl is_trimmed (123 ∷ 125 ∷ 13 ∷ 10 ∷ [])
      is_written

-- Two volumes, found in another order than that of their keys.
abbrev found : WindowsInventory
found = record {
  cpu_packages =
      record {
        key = codes "cpu0";
        package_index = pos 0;
        vendor = [];
        model_name = codes "unknown";
        physical_cores = pos 4;
        logical_threads = pos 8;
        max_frequency_mhz = of_nat 3200;
      }
      ∷ [];
  memory_modules = [];
  block_devices = [];
  filesystems = filesystem (codes "b") ∷ filesystem (codes "a") ∷ [];
  network_interfaces = [];
  gpus = [];
}

abbrev sent : Report
sent = record sample { inventory = to_report (normalize_windows_inventory found) }

abbrev marshal : WindowsInventory → Option (List ℕ)
marshal b = toy.marshal (to_report b)

is_fingerprint : windows_fingerprint marshal toy.sha256_hex found ≡ some sent.inventory_fingerprint
unfolding program Sample.program
is_fingerprint = refl

windows_fingerprint-accepted_example :
    check_fingerprint sent (inventory_fingerprint toy sent.inventory) ≡ none
windows_fingerprint-accepted_example =
    windows_fingerprint-accepted toy marshal (λ b. refl) found sent is_fingerprint refl
