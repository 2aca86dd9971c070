-- ===== src/Server/Api/History.antt =====
-- getNodeHistory of internal/server/http.go, in front of the history cache.
use server_status.Base.{ℕ, Bool, true, ◌++◌, ◌≡◌, if◌then◌else◌}
use server_status.Base.Text.{Text, codes, is_empty}
use server_status.Report.Uuid.{valid_uuid, valid_uuid-prefix}
use server_status.Store.Table.{Time}
use server_status.Store.History.{valid_history_range}
use server_status.Server.Api.{StoreError, not_found}
use server_status.Server.History.Cache.{HistoryResponseCache}
use server_status.Server.History.Get.{Encoder, Load, Answer, served, failed, GetError, load_failed}
use server_status.Server.History.Get
use server_status.Server.History.Response
use server_status.Server.History.Response.{Formats, write_history_response}

-- An error with its text, or the answer made of a cached response.
pub data HistoryReply : Type 0 where
  refused : ℕ → Text → HistoryReply
  answered : Response.Reply → HistoryReply

-- `nodeID+":"+window`
unfoldable pub history_key : Text → Text → Text
history_key node_id window = node_id ++ (codes ":" ++ window)

abbrev pub or_day : Text → Text
or_day window = if is_empty window then codes "24h" else window

on_answer : Formats → Text → Text → Answer StoreError → HistoryReply
on_answer f if_none_match accept_encoding (failed (load_failed not_found)) =
    refused 404 (codes "node not found")
on_answer f if_none_match accept_encoding (failed e) = refused 500 (codes "cannot get node history")
on_answer f if_none_match accept_encoding (served cached cache_hit) =
    answered (write_history_response f if_none_match accept_encoding cached cache_hit)

module _ {History : Type 0} (encoder : Encoder History) (f : Formats)
    (if_none_match accept_encoding : Text) where
  -- `load` is what the store meets for a node and a range.
  unfoldable pub get_node_history :
      Text
      → Text
      → Time
      → Bool
      → (Text → Text → Load History StoreError)
      → HistoryResponseCache
      → HistoryReply × HistoryResponseCache
  unfolding on_answer history_key
  get_node_history node_id range now cancelled load cache =
      if valid_uuid node_id
      then (if valid_history_range (or_day range)
          then (let (answer, after) =
                Get.get encoder cache (history_key node_id (or_day range)) now cancelled
                  (load node_id (or_day range)) in
              (on_answer f if_none_match accept_encoding answer, after))
          else (refused 400 (codes "range must be one of 1h, 6h, 24h, 7d, 30d, or 90d"), cache))
      else (refused 400 (codes "invalid node id"), cache)

-- Two requests for histories of nodes with valid UUIDs share a cache key only if they are for one node
-- and one range.
pub history_key-injective :
    (node other window range : Text)
    → valid_uuid node ≡ true
    → valid_uuid other ≡ true
    → history_key node window ≡ history_key other range
    → (node ≡ other) × (window ≡ range)
unfolding history_key
history_key-injective node other window range n o e =
    let (same, rest) =
      valid_uuid-prefix node other (codes ":" ++ window) (codes ":" ++ range) n o e in
    (same, cc)
