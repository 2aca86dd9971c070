-- ===== src/Server/ApiTests.antt =====
-- Runs of the handlers of internal/server/http.go, and their theorems at concrete requests.
use server_status.Base.{
  true, List, [], ◌∷◌, map, none, some, ◌⊎◌, inl, inr, ◌≡◌, ◌≢◌, ◌↔◌, refl, arith,
}
use server_status.Base.Text.{Text, codes, trim_space, cut, equal_fold}
use server_status.Report.Types.{Report}
use server_status.Report.Sample.{toy, noon, sample, program}
use server_status.Store.Tokens.{NodeAuth}
use server_status.Server.Bearer.{bearer_token}
use server_status.Server.Api.{StoreError, unauthorized, not_found, DataStore, Api, new_api, report}
use server_status.Server.Api.Accepted.{IsAcceptable, report-accepted_iff}
use server_status.Server.Api.Admin.{
  tagging, require_admin, next, update_node_tags, require_admin-only_admin,
}
use server_status.Server.Api.History.{history_key, history_key-injective}
use server_status.Report.Uuid.{valid_uuid}
use server_status.Server.Api.Tags.{
  normalize_node_tags, check_tags, AreTags, normalize_node_tags_iff,
}

abbrev agent : NodeAuth
agent = record { token_id = codes "t"; node_id = codes "n"; agent_id = sample.agent.id }

-- A store that counts the reports and keeps the tags: its state.
abbrev store : DataStore (List Text) Text Text
store = record {
  ready = λ s. none;
  authenticate_token = λ t s. if_token t;
  ingest = λ auth payload s. (none, codes "report" ∷ s);
  register_node = λ input s. (inl unauthorized, s);
  list_nodes = λ s. inr s;
  get_node = λ id s. inl not_found;
  set_primary_network_interface = λ node id s. (some not_found, s);
  update_node_tags = λ node tags s. (none, tags);
}
  where
    if_token : Text → StoreError ⊎ NodeAuth
    if_token [] = inl unauthorized
    if_token (c ∷ t) = inr agent

abbrev api : Api
api = record { admin_digest = codes "root"; latest_agent_version = codes "1.3.0" }

never_fails :
    (auth : NodeAuth) (payload : Report) (s : List Text)
    → (store.ingest auth payload s).0 ≢ none
    → (store.ingest auth payload s).1 ≡ s
never_fails auth payload s d = absurd (d refl)

report-accepted_iff_example :
    (((report toy api store noon (codes "Bearer t") (inr sample) []).0.status ≡ 202)
      ↔ IsAcceptable toy api store noon (codes "Bearer t") (inr sample) [])
    × (((report toy api store noon (codes "Bearer t") (inr sample) []).0.status ≢ 202)
        → (report toy api store noon (codes "Bearer t") (inr sample) []).1 ≡ [])
report-accepted_iff_example =
    report-accepted_iff toy api store noon never_fails (codes "Bearer t") (inr sample) []

normalize_node_tags_iff_example :
    (normalize_node_tags (λ s. s) (codes " db " ∷ []) ≡ inr (codes "db" ∷ [])) ↔ (
      AreTags (λ s. s) (codes " db " ∷ [])
      × ((codes "db" ∷ []) ≡ map trim_space (codes " db " ∷ [])))
normalize_node_tags_iff_example =
    normalize_node_tags_iff (λ s. s) (codes " db " ∷ []) (codes "db" ∷ [])

abbrev node_id : Text
node_id = codes "6f9619ff-8b86-4d01-b42d-00cf4fc964ff"

tagged :
    (require_admin
      (λ s. s)
      store
      (λ s. s)
      (new_api (λ s. s) (codes "1.0.0") (codes "root"))
      (codes "Bearer root")
      (next (λ s. s) store (tagging node_id (inr (codes "db" ∷ []))))
      []).1
    ≢ []
unfolding program require_admin new_api next update_node_tags normalize_node_tags check_tags
    bearer_token cut equal_fold
tagged h = absurd (ground (arith, h))

require_admin-only_admin_example : bearer_token (codes "Bearer root") ≡ some (codes "root")
require_admin-only_admin_example =
    require_admin-only_admin (λ s. s) store (λ s. s) (codes "1.0.0") (codes "root")
      (codes "Bearer root") (tagging node_id (inr (codes "db" ∷ []))) [] (λ a b e. e) tagged

valid_node : valid_uuid node_id ≡ true
unfolding program
valid_node = refl

same_key : history_key node_id (codes "1h") ≡ history_key node_id (codes "1h")
same_key = refl

history_key-injective_example : (node_id ≡ node_id) × (codes "1h" ≡ codes "1h")
history_key-injective_example =
    history_key-injective node_id node_id (codes "1h") (codes "1h") valid_node valid_node same_key
