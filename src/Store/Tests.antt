-- ===== src/Store/Tests.antt =====
-- Runs of internal/store, and the theorems at concrete rows.
use mathlib.Core.List.{Mem, Nodup, Nodup-nil, not-mem-nil}
use mathlib.Core.List.Pairwise
use server_status.Base.{
  ℕ, ◌⊎◌, false, inr, Option, All, length, none, some, refl, List, [], ◌∷◌, map, ◌≡◌, ◌≢◌,
  if◌then◌else◌, arith,
}
use server_status.Base.Int.{pos}
use server_status.Base.Text.{Text, codes, text_eq, to_lower}
use server_status.Report.Inventory.{Filesystem}
use server_status.Report.Sample.{noon, filesystem}
use server_status.Store.Table.{Row, find_active}
use server_status.Store.Sync.{sync, find_item, find_active-sync}
use server_status.Store.Inventory.{filesystem_columns}
use server_status.Store.Network.{InterfaceColumns}
use server_status.Store.Preferences.{
  QueryError, not_found, Preference, has_interface, set_primary_network_interface, is_primary,
  IsActiveInterface, set_primary_network_interface-is_primary,
}
use server_status.Base.Float.{of_nat}
use server_status.Store.Nodes.{NodeSummary}
use server_status.Store.Nodes.Read.{
  Cursor, read_nodes, read_query, read_rows, read_row, at_end, scan_node_summary,
  normalize_node_summary,
}
use server_status.Store.Nodes.Normal.{IsNormal, read_nodes-IsNormal}
use server_status.Store.Tokens.{
  Database, Drawn, NodeAuth, RegisterNodeInput, authenticate_token, select_tokens, is_live,
  find_node, register_node, with_defaults, new_node, updated_node, upsert_node, revoke, new_token,
  register_node-only_token,
}

abbrev new_id : {C : Type 0} → List (Row C) → Text
new_id rows = codes "id"

abbrev node : Text
node = codes "n"

abbrev items : List Filesystem
items = filesystem (codes "a") ∷ []

one_key : Nodup (map (λ (i : Filesystem). i.key) items)
one_key = Pairwise.cons (λ x m. absurd (not-mem-nil m)) Nodup-nil

find_active-sync_example :
    find_active node
      (codes "a")
      (sync new_id (λ (i : Filesystem). i.key) filesystem_columns node items noon [])
    ≡ find_item new_id (λ (i : Filesystem). i.key) filesystem_columns (codes "a") items
find_active-sync_example =
    find_active-sync new_id (λ (i : Filesystem). i.key) filesystem_columns node noon (codes "a")
      items [] one_key

differ : codes "m" ≢ node
differ = λ h. absurd (ground (arith, h))

-- A digest that a test can compute.
abbrev digest : Text → Text
digest s = s

abbrev registered : Database
registered = record {
  nodes = [];
  tokens =
      (record {
        id = codes "t0";
        node_id = codes "n1";
        token_prefix = [];
        token_digest = codes "old";
        label = [];
        expires_at = none;
        revoked_at = none;
      })
      ∷ [];
}

abbrev drawn : Drawn
drawn = record {
  agent_id = codes "a1";
  raw_token = codes "new";
  node_id = codes "n1";
  token_id = codes "t1";
}

abbrev blank : RegisterNodeInput
blank = record {
  agent_id = [];
  hostname = [];
  display_name = [];
  os_name = [];
  os_version = [];
  architecture = [];
  agent_version = [];
  labels = [];
}

abbrev owner : NodeAuth
owner = record { token_id = codes "t1"; node_id = codes "n1"; agent_id = codes "a1" }

authenticates :
    authenticate_token digest
      (pos 9)
      (register_node digest (pos 5) to_lower drawn blank registered).1
      (codes "new")
    ≡ some owner
unfolding text_eq authenticate_token select_tokens is_live find_node register_node with_defaults
    new_node updated_node upsert_node revoke new_token to_lower
authenticates = refl

old_token_revoked :
    authenticate_token digest
      (pos 9)
      (register_node digest (pos 5) to_lower drawn blank registered).1
      (codes "old")
    ≡ none
unfolding text_eq authenticate_token select_tokens is_live find_node register_node with_defaults
    new_node updated_node upsert_node revoke new_token to_lower
old_token_revoked = refl

owned : owner.node_id ≡ (register_node digest (pos 5) to_lower drawn blank registered).0.node_id
unfolding text_eq register_node with_defaults new_node updated_node upsert_node to_lower
owned = refl

register_node-only_token_example :
    (codes "t1" ≡ codes "t1")
    × (codes "new" ≡ digest (register_node digest (pos 5) to_lower drawn blank registered).0.token)
register_node-only_token_example =
    register_node-only_token digest (pos 5) (pos 9) to_lower drawn blank registered (codes "new")
      owner authenticates owned

abbrev network_interface : Row InterfaceColumns
network_interface = record {
  id = codes "eth0-id";
  node_id = node;
  key = codes "eth0";
  columns = record {
    interface_name = codes "eth0";
    mac_address = none;
    mtu = none;
    link_speed_mbps = none;
  };
  first_seen_at = noon;
  last_seen_at = noon;
  removed_at = none;
}

abbrev chosen : Option QueryError × List Preference
chosen =
    set_primary_network_interface to_lower (codes "N") (codes "ETH0-id") noon
      (network_interface ∷ []) []

set_primary_network_interface-is_primary_example :
    (((row : Row InterfaceColumns) × Mem row (network_interface ∷ [])
        × IsActiveInterface to_lower (codes "N") (codes "ETH0-id") row)
      × (chosen.0 ≡ none)
      × (is_primary to_lower chosen.1 node (codes "eth0-id") ≡ (
          if text_eq (to_lower (codes "N")) (to_lower node)
          then text_eq (to_lower (codes "ETH0-id")) (codes "eth0-id")
          else is_primary to_lower [] node (codes "eth0-id"))))
    ⊎ ((¬ (
          (row : Row InterfaceColumns) × Mem row (network_interface ∷ [])
          × IsActiveInterface to_lower (codes "N") (codes "ETH0-id") row))
        × (chosen ≡ (some not_found, [])))
set_primary_network_interface-is_primary_example =
    set_primary_network_interface-is_primary to_lower (codes "N") (codes "ETH0-id") noon
      (network_interface ∷ []) [] node (codes "eth0-id")

chosen_in_upper_case : chosen.0 ≡ none
unfolding set_primary_network_interface has_interface text_eq to_lower
chosen_in_upper_case = refl

-- The row of a node that has sent no report yet.
abbrev new_summary : NodeSummary
new_summary = record {
  node_id = [];
  agent_id = [];
  hostname = [];
  display_name = [];
  os_name = [];
  os_version = [];
  architecture = [];
  agent_version = [];
  labels = [];
  tags = none;
  machine_type = [];
  system_model = [];
  has_nvidia_gpu = false;
  last_seen_at = noon;
  status = codes "online";
  primary_ip = [];
  seconds_since_last_seen = pos 0;
  latest_bucket_at = none;
  cpu_usage_percent = of_nat 0;
  load_1 = of_nat 0;
  load_5 = of_nat 0;
  load_15 = of_nat 0;
  memory_total_bytes = pos 0;
  memory_used_bytes = pos 0;
  memory_usage_percent = of_nat 0;
  uptime_seconds = pos 0;
  cpu_package_count = pos 0;
  cpu_physical_core_count = pos 0;
  cpu_logical_thread_count = pos 0;
  cpu_threads_per_package = [];
  cpu_models = [];
  memory_module_count = pos 0;
  inventory_memory_bytes = pos 0;
  memory_models = [];
  disk_count = pos 0;
  disk_total_bytes = pos 0;
  disk_models = [];
  disk_usage_percent = of_nat 0;
  disk_read_bytes_per_second = of_nat 0;
  disk_write_bytes_per_second = of_nat 0;
  network_rx_bytes_per_second = of_nat 0;
  network_tx_bytes_per_second = of_nat 0;
}

abbrev no_labels : List ℕ → Option (List (Text × Text))
no_labels json = some []

abbrev one_row : Cursor (NodeSummary × List ℕ)
one_row = record { rows = some (new_summary, []) ∷ []; is_broken = false }

abbrev pending_summary : NodeSummary
pending_summary = record new_summary { tags = some []; status = codes "pending" }

is_read : read_nodes no_labels (some one_row) ≡ inr (pending_summary ∷ [])
unfolding read_nodes read_query read_rows read_row at_end scan_node_summary normalize_node_summary
    text_eq
is_read = refl

read_nodes-IsNormal_example :
    All IsNormal (pending_summary ∷ []) × (length (pending_summary ∷ []) ≡ length one_row.rows)
read_nodes-IsNormal_example = read_nodes-IsNormal no_labels one_row (pending_summary ∷ []) is_read
