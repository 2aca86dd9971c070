-- ===== src/Server/Api.antt =====
-- internal/server/http.go: the handlers of the HTTP server, over the interface dataStore. A handler
-- takes what it reads of the request and the state of the store, and gives the reply and the state
-- afterwards. `decoded` is what decodeJSON makes of the body: the text of its error, or the value.
pub mod Tags
pub mod Accepted
pub mod Admin
pub mod History
use server_status.Base.{
  ℕ, Bool, true, false, not, ◌&&◌, List, [], ◌∷◌, ◌++◌, Option, none, some, ◌⊎◌, inl, inr,
  if◌then◌else◌, String,
}
use server_status.Base.Text.{Text, codes, text_eq, is_empty}
use server_status.Report.Types.{Report, ReportReceipt, AgentUpdate}
use server_status.Report.Error.{ValidationError}
use server_status.Report.Platform.{Platform}
use server_status.Report.Uuid.{valid_uuid}
use server_status.Report.Validate.{validate}
use server_status.Store.Table.{Time}
use server_status.Store.Tokens.{NodeAuth, RegisterNodeInput, NodeCredentials}
use server_status.Store.Ingest.{truncate_minute}
use server_status.Version.Normal.{normalize}
use server_status.Version.Order.{Comparison, less, equal, greater, compare}
use server_status.Server.Bearer.{bearer_token}

-- The errors of the store that handlers tell apart, with the text of ErrInvalidResource.
pub data StoreError : Type 0 where
  unauthorized not_found : StoreError
  invalid_resource : Text → StoreError
  other_error : StoreError

-- The interface dataStore; `S` is its state.
pub record DataStore (S Summary Detail : Type 0) : Type 0 where
  pub ready : S → Option StoreError
  pub authenticate_token : Text → S → StoreError ⊎ NodeAuth
  pub ingest : NodeAuth → Report → S → Option StoreError × S
  pub register_node : RegisterNodeInput → S → (StoreError ⊎ NodeCredentials) × S
  pub list_nodes : S → StoreError ⊎ List Summary
  pub get_node : Text → S → StoreError ⊎ Detail
  pub set_primary_network_interface : Text → Text → S → Option StoreError × S
  pub update_node_tags : Text → List Text → S → Option StoreError × S

-- The JSON value of a reply. `rejected` is the text of a validation error.
pub data Body (Summary Detail : Type 0) : Type 0 where
  error : Text → Body Summary Detail
  rejected : ValidationError → Body Summary Detail
  status_text : Text → Body Summary Detail
  receipt : ReportReceipt → Body Summary Detail
  credentials : NodeCredentials → Body Summary Detail
  nodes : List Summary → Body Summary Detail
  detail : Detail → Body Summary Detail
  tags : List Text → Body Summary Detail
  interface_id : Text → Body Summary Detail

pub record Reply (Summary Detail : Type 0) : Type 0 where
  pub status : ℕ
  pub body : Body Summary Detail

-- The fields of API that handlers read.
pub record Api : Type 0 where
  pub admin_digest : Text
  pub latest_agent_version : Text

-- NewAPI; Normalize gives the empty text with its false.
unfoldable pub new_api : (Text → Text) → Text → Text → Api
new_api sha256 version admin_token = record {
  admin_digest = sha256 admin_token;
  latest_agent_version = or_empty (normalize version);
}
  where
    or_empty : Option Text → Text
    or_empty none = []
    or_empty (some v) = v

-- The agent is told to update where its version is below the server's.
unfoldable pub agent_update : Text → Text → Option AgentUpdate
agent_update current latest = elim (compare current latest) [
  | some less ↦ some (record { version = latest })
  | some equal ↦ none
  | some greater ↦ none
  | none ↦ none
]

module _ {S Summary Detail : Type 0} where
  -- `writeError(…); return`
  abbrev pub fail : ℕ → String → S → Reply Summary Detail × S
  fail status message s = (record { status = status; body = error (codes message) }, s)

  abbrev pub reply : ℕ → Body Summary Detail → S → Reply Summary Detail × S
  reply status body s = (record { status = status; body = body }, s)

  -- Behind Ingest.
  unfoldable pub on_stored : Api → Report → Option StoreError × S → Reply Summary Detail × S
  unfolding agent_update truncate_minute
  on_stored api payload (some (invalid_resource message), s) = reply 422 (error message) s
  on_stored api payload (some unauthorized, s) = fail 500 "report ingestion failed" s
  on_stored api payload (some not_found, s) = fail 500 "report ingestion failed" s
  on_stored api payload (some other_error, s) = fail 500 "report ingestion failed" s
  on_stored api payload (none, s) =
      reply 202
        (receipt (record {
          status = codes "accepted";
          bucket_at = truncate_minute payload.collected_at;
          agent_update = agent_update payload.agent.agent_version api.latest_agent_version;
        }))
        s

  module _ (p : Platform) (api : Api) (store : DataStore S Summary Detail) (now : Time) where
    -- Behind Validate, which sorts slices of the report.
    unfoldable pub on_validated :
        NodeAuth → Option ValidationError × Report → S → Reply Summary Detail × S
    unfolding on_stored
    on_validated auth (some e, payload) s = reply 422 (rejected e) s
    on_validated auth (none, payload) s = on_stored api payload (store.ingest auth payload s)

    -- Behind decodeJSON.
    unfoldable pub on_decoded : NodeAuth → Text ⊎ Report → S → Reply Summary Detail × S
    unfolding on_validated
    on_decoded auth (inl message) s = reply 400 (error message) s
    on_decoded auth (inr payload) s =
        if text_eq payload.agent.id auth.agent_id
        then on_validated auth (validate p now payload) s
        else fail 403 "agent id does not match token" s

    -- Behind AuthenticateToken.
    unfoldable pub on_authenticated :
        Text ⊎ Report → StoreError ⊎ NodeAuth → S → Reply Summary Detail × S
    unfolding on_decoded
    on_authenticated decoded (inl unauthorized) s = fail 401 "invalid node token" s
    on_authenticated decoded (inl not_found) s = fail 500 "authentication failed" s
    on_authenticated decoded (inl (invalid_resource m)) s = fail 500 "authentication failed" s
    on_authenticated decoded (inl other_error) s = fail 500 "authentication failed" s
    on_authenticated decoded (inr auth) s = on_decoded auth decoded s

    unfoldable pub on_token : Text ⊎ Report → Option Text → S → Reply Summary Detail × S
    unfolding on_authenticated
    on_token decoded none s = fail 401 "missing bearer token" s
    on_token decoded (some raw_token) s =
        on_authenticated decoded (store.authenticate_token raw_token s) s

    -- POST /api/v1/reports
    unfoldable pub report : Text → Text ⊎ Report → S → Reply Summary Detail × S
    unfolding on_token
    report authorization decoded s = on_token decoded (bearer_token authorization) s

  -- The handlers that ask for no rights.
  unfoldable pub health : S → Reply Summary Detail × S
  health s = reply 200 (status_text (codes "ok")) s

  module _ (store : DataStore S Summary Detail) where
    unfoldable pub ready : S → Reply Summary Detail × S
    ready s = elim (store.ready s) [
      | some e ↦ fail 503 "database is not ready" s
      | none ↦ reply 200 (status_text (codes "ready")) s
    ]

    unfoldable pub list_nodes : S → Reply Summary Detail × S
    list_nodes s = elim (store.list_nodes s) [
      | inl e ↦ fail 500 "cannot list nodes" s
      | inr found ↦ reply 200 (nodes found) s
    ]

    unfoldable pub on_found : StoreError ⊎ Detail → S → Reply Summary Detail × S
    on_found (inl not_found) s = fail 404 "node not found" s
    on_found (inl unauthorized) s = fail 500 "cannot get node" s
    on_found (inl (invalid_resource m)) s = fail 500 "cannot get node" s
    on_found (inl other_error) s = fail 500 "cannot get node" s
    on_found (inr found) s = reply 200 (detail found) s

    unfoldable pub get_node : Text → S → Reply Summary Detail × S
    unfolding on_found
    get_node node_id s =
        if valid_uuid node_id
        then on_found (store.get_node node_id s) s
        else fail 400 "invalid node id" s
