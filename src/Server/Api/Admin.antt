-- ===== src/Server/Api/Admin.antt =====
-- The handlers of internal/server/http.go behind requireAdmin.
use server_status.Base.{
  not, ◌&&◌, Option, none, some, List, ◌⊎◌, inl, inr, ◌≡◌, ◌≢◌, refl, ap, ◌∙◌, if◌then◌else◌,
  Bool-cases, Option-cases,
}
use server_status.Base.Text.{Text, text_eq, text_eq_iff, is_empty}
use server_status.Report.Uuid.{valid_uuid}
use server_status.Store.Tokens.{RegisterNodeInput, NodeCredentials}
use server_status.Server.Bearer.{bearer_token}
use server_status.Server.Api.{
  StoreError, unauthorized, not_found, invalid_resource, other_error, DataStore, Reply, Api,
  new_api, error, credentials, tags, interface_id, fail, reply, list_nodes, get_node,
}
use server_status.Server.Api.Tags.{
  TagsError, too_many_tags, empty_tag, long_tag, repeated_tag, normalize_node_tags,
}

-- What a request to change something carries, and the route it takes.
pub data AdminRequest : Type 0 where
  registration : Text ⊎ RegisterNodeInput → AdminRequest
  listing : AdminRequest
  showing : Text → AdminRequest
  choosing_interface : Text → Text ⊎ Text → AdminRequest
  tagging : Text → Text ⊎ List Text → AdminRequest

module _ {S Summary Detail : Type 0} (lower : Text → Text)
    (store : DataStore S Summary Detail) where
  on_registered : (StoreError ⊎ NodeCredentials) × S → Reply Summary Detail × S
  on_registered (inl e, s) = fail 500 "node registration failed" s
  on_registered (inr found, s) = reply 201 (credentials found) s

  unfoldable pub register_node : Text ⊎ RegisterNodeInput → S → Reply Summary Detail × S
  unfolding on_registered
  register_node (inl message) s = reply 400 (error message) s
  register_node (inr input) s =
      if not (is_empty input.agent_id) && not (valid_uuid input.agent_id)
      then fail 400 "agent_id must be an RFC 4122 UUID" s
      else on_registered (store.register_node input s)

  on_tagged : List Text → Option StoreError × S → Reply Summary Detail × S
  on_tagged kept (some not_found, s) = fail 404 "node not found" s
  on_tagged kept (some unauthorized, s) = fail 500 "cannot update node tags" s
  on_tagged kept (some (invalid_resource m), s) = fail 500 "cannot update node tags" s
  on_tagged kept (some other_error, s) = fail 500 "cannot update node tags" s
  on_tagged kept (none, s) = reply 200 (tags kept) s

  on_tags : Text → TagsError ⊎ List Text → S → Reply Summary Detail × S
  unfolding on_tagged
  on_tags node_id (inl too_many_tags) s = fail 400 "a node can have at most 5 tags" s
  on_tags node_id (inl empty_tag) s = fail 400 "tags cannot be empty" s
  on_tags node_id (inl long_tag) s = fail 400 "each tag must be at most 32 characters" s
  on_tags node_id (inl repeated_tag) s = fail 400 "tags must be unique" s
  on_tags node_id (inr kept) s = on_tagged kept (store.update_node_tags node_id kept s)

  tag_node : Text → Text ⊎ List Text → S → Reply Summary Detail × S
  unfolding on_tags
  tag_node node_id (inl message) s = reply 400 (error message) s
  tag_node node_id (inr input) s = on_tags node_id (normalize_node_tags lower input) s

  unfoldable pub update_node_tags : Text → Text ⊎ List Text → S → Reply Summary Detail × S
  unfolding tag_node
  update_node_tags node_id decoded s =
      if valid_uuid node_id then tag_node node_id decoded s else fail 400 "invalid node id" s

  on_chosen : Text → Option StoreError × S → Reply Summary Detail × S
  on_chosen id (some not_found, s) = fail 404 "active network interface not found for node" s
  on_chosen id (some unauthorized, s) = fail 500 "cannot set primary network interface" s
  on_chosen id (some (invalid_resource m), s) = fail 500 "cannot set primary network interface" s
  on_chosen id (some other_error, s) = fail 500 "cannot set primary network interface" s
  on_chosen id (none, s) = reply 200 (interface_id id) s

  choose_interface : Text → Text ⊎ Text → S → Reply Summary Detail × S
  unfolding on_chosen
  choose_interface node_id (inl message) s = reply 400 (error message) s
  choose_interface node_id (inr id) s =
      if valid_uuid id
      then on_chosen id (store.set_primary_network_interface node_id id s)
      else fail 400 "interface_id must be an RFC 4122 UUID" s

  unfoldable pub set_primary_network_interface : Text → Text ⊎ Text → S → Reply Summary Detail × S
  unfolding choose_interface
  set_primary_network_interface node_id decoded s =
      if valid_uuid node_id
      then choose_interface node_id decoded s
      else fail 400 "invalid node id" s

  -- The handler of each route.
  unfoldable pub next : AdminRequest → S → Reply Summary Detail × S
  unfolding register_node update_node_tags set_primary_network_interface
  next (registration decoded) = register_node decoded
  next listing = list_nodes store
  next (showing node_id) = get_node store node_id
  next (choosing_interface node_id decoded) = set_primary_network_interface node_id decoded
  next (tagging node_id decoded) = update_node_tags node_id decoded

  on_admin_token :
      (Text → Text)
      → Api
      → Option Text
      → (S → Reply Summary Detail × S)
      → S
      → Reply Summary Detail × S
  on_admin_token sha256 api none handler s = fail 401 "missing admin bearer token" s
  on_admin_token sha256 api (some token) handler s =
      if text_eq (sha256 token) api.admin_digest
      then handler s
      else fail 401 "invalid admin bearer token" s

  unfoldable pub require_admin :
      (Text → Text) → Api → Text → (S → Reply Summary Detail × S) → S → Reply Summary Detail × S
  unfolding on_admin_token
  require_admin sha256 api authorization handler =
      on_admin_token sha256 api (bearer_token authorization) handler

  -- The request has a token with the digest of the administrator's.
  abbrev pub IsAdmin : (Text → Text) → Api → Text → Type 0
  IsAdmin sha256 api authorization =
      (token : Text) × (bearer_token authorization ≡ some token) × (sha256 token ≡ api.admin_digest)

  -- The handler runs for an administrator; others get 401 and change nothing.
  require_admin-refused :
      (sha256 : Text → Text) (api : Api) (authorization : Text)
      (handler : S → Reply Summary Detail × S) (s : S)
      → (IsAdmin sha256 api authorization
          × (require_admin sha256 api authorization handler s ≡ handler s))
        ⊎ (((require_admin sha256 api authorization handler s).0.status ≡ 401)
            × ((require_admin sha256 api authorization handler s).1 ≡ s))
  unfolding require_admin on_admin_token
  require_admin-refused sha256 api authorization handler s =
      elim (Option-cases (bearer_token authorization)) [
        | inl h ↦ rw (h, on_admin_token) (inr (refl, refl))
        | inr (token, h) ↦
            rw (h, on_admin_token)
              (elim (Bool-cases (text_eq (sha256 token) api.admin_digest)) [
                | inl e ↦ rw e (inl ((token, refl, (text_eq_iff _ _).0 e), refl))
                | inr e ↦ rw e (inr (refl, refl))
              ])
      ]

  -- Where no two tokens share a digest, a request behind requireAdmin that changes the store has the
  -- administrator's token.
  pub require_admin-only_admin :
      (sha256 : Text → Text) (version admin_token authorization : Text) (request : AdminRequest)
      (s : S)
      → ((a b : Text) → sha256 a ≡ sha256 b → a ≡ b)
      → (require_admin sha256 (new_api sha256 version admin_token) authorization (next request) s).1
        ≢ s
      → bearer_token authorization ≡ some admin_token
  unfolding new_api
  require_admin-only_admin sha256 version admin_token authorization request s collision_free
        changed =
      elim (require_admin-refused sha256 (new_api sha256 version admin_token) authorization
        (next request) s) [
          | inl ((token, h, same), _) ↦ h ∙ ap some (collision_free token admin_token same)
          | inr (_, unchanged) ↦ absurd (changed unchanged)
        ]
