-- ===== src/Store/Tokens.antt =====
-- RegisterNode and AuthenticateToken of internal/store/store.go: nodes and their API tokens.
use server_status.Base.{
  ℕ, zero, suc, ◌++◌, List, [], ◌∷◌, map, Bool, true, false, ◌&&◌, Option, none, some,
  if◌then◌else◌, ◌≡◌, ◌≢◌, refl, sym, ap, inl, inr, ◌∙◌, arith, Bool-cases, Option-cases,
}
use server_status.Base.Int.{ℤ, ltb_ℤ}
use server_status.Base.Text.{Text, codes, text_eq, text_eq_iff, is_empty}

abbrev pub Time : Type 0
Time = ℤ

-- A row of monitoring.nodes, without the columns that reports fill.
pub record Node : Type 0 where
  pub id : Text
  pub agent_id : Text
  pub hostname : Text
  pub display_name : Option Text
  pub os_name : Text
  pub os_version : Option Text
  pub architecture : Text
  pub agent_version : Text
  pub labels : List (Text × Text)
  pub disabled_at : Option Time

-- A row of monitoring.node_api_tokens.
pub record ApiToken : Type 0 where
  pub id : Text
  pub node_id : Text
  pub token_prefix : Text
  pub token_digest : Text
  pub label : Text
  pub expires_at : Option Time
  pub revoked_at : Option Time

pub record Database : Type 0 where
  pub nodes : List Node
  pub tokens : List ApiToken

pub record NodeAuth : Type 0 where
  pub token_id : Text
  pub node_id : Text
  pub agent_id : Text

pub record RegisterNodeInput : Type 0 where
  pub agent_id : Text
  pub hostname : Text
  pub display_name : Text
  pub os_name : Text
  pub os_version : Text
  pub architecture : Text
  pub agent_version : Text
  pub labels : List (Text × Text)

pub record NodeCredentials : Type 0 where
  pub node_id : Text
  pub agent_id : Text
  pub token : Text

-- What a registration draws: a UUID for the agent, the text of the random token, and the identifiers
-- that the database chooses.
pub record Drawn : Type 0 where
  pub agent_id : Text
  pub raw_token : Text
  pub node_id : Text
  pub token_id : Text

-- Neither revoked nor expired.
unfoldable pub is_live : Time → ApiToken → Bool
is_live now token = not_set token.revoked_at && later token.expires_at
  where
    not_set : Option Time → Bool
    not_set none = true
    not_set (some t) = false

    later : Option Time → Bool
    later none = true
    later (some t) = ltb_ℤ now t

abbrev enabled : Option Time → Bool
enabled none = true
enabled (some t) = false

-- The join with the enabled node of a token.
unfoldable pub find_node : Text → List Node → Option Node
find_node id [] = none
find_node id (node ∷ nodes) =
    if text_eq node.id id && enabled node.disabled_at then some node else find_node id nodes

abbrev auth_of : ApiToken → Option Node → Option NodeAuth
auth_of token none = none
auth_of token (some node) =
    some (record { token_id = token.id; node_id = node.id; agent_id = node.agent_id })

-- The first answer, or the next.
abbrev or_else {ℓ} : {A : Type ℓ} → Option A → Option A → Option A
or_else none b = b
or_else (some a) b = some a

-- `value`, or the default where it is empty.
abbrev or_default : Text → Text → Text
or_default value default = if is_empty value then default else value

abbrev null_if_empty : Text → Option Text
null_if_empty s = if is_empty s then none else some s

module _ (sha256 : Text → Text) (now : Time) where
  unfoldable pub select_tokens : Text → List Node → List ApiToken → Option NodeAuth
  unfolding is_live find_node
  select_tokens digest nodes [] = none
  select_tokens digest nodes (token ∷ tokens) =
      let rest = select_tokens digest nodes tokens in
      if text_eq token.token_digest digest && is_live now token
      then or_else (auth_of token (find_node token.node_id nodes)) rest
      else rest

  -- `none` is ErrUnauthorized.
  unfoldable pub authenticate_token : Database → Text → Option NodeAuth
  authenticate_token db raw_token = select_tokens (sha256 raw_token) db.nodes db.tokens

  -- The values of an input with its defaults.
  unfoldable pub with_defaults : Drawn → RegisterNodeInput → RegisterNodeInput
  with_defaults drawn input = record input {
    agent_id = or_default input.agent_id drawn.agent_id;
    hostname = or_default input.hostname (codes "pending-registration");
    os_name = or_default input.os_name (codes "unknown");
    architecture = or_default input.architecture (codes "unknown");
    agent_version = or_default input.agent_version (codes "pending");
  }

  -- The row that an INSERT makes. `uuid` is the cast of a text to the type uuid of PostgreSQL, as the
  -- text of the value.
  unfoldable pub new_node : (Text → Text) → Text → RegisterNodeInput → Node
  new_node uuid id input = record {
    id = id;
    agent_id = uuid input.agent_id;
    hostname = input.hostname;
    display_name = null_if_empty input.display_name;
    os_name = input.os_name;
    os_version = null_if_empty input.os_version;
    architecture = input.architecture;
    agent_version = input.agent_version;
    labels = input.labels;
    disabled_at = none;
  }

  -- ON CONFLICT (agent_id) DO UPDATE
  unfoldable pub updated_node : (Text → Text) → Node → RegisterNodeInput → Node
  unfolding new_node
  updated_node uuid node input = record (new_node uuid node.id input) {
    display_name = or_else (null_if_empty input.display_name) node.display_name;
    os_version = or_else (null_if_empty input.os_version) node.os_version;
  }

  -- The identifier returned, and the rows afterwards.
  unfoldable pub upsert_node :
      (Text → Text) → Text → RegisterNodeInput → List Node → Text × List Node
  unfolding new_node updated_node
  upsert_node uuid id input [] = (id, new_node uuid id input ∷ [])
  upsert_node uuid id input (node ∷ nodes) =
      let (found, rest) = upsert_node uuid id input nodes in
      if text_eq node.agent_id (uuid input.agent_id)
      then (node.id, updated_node uuid node input ∷ nodes)
      else (found, node ∷ rest)

  unfoldable pub revoke : Text → ApiToken → ApiToken
  revoke node_id token =
      if text_eq token.node_id node_id
      then record token { revoked_at = or_else token.revoked_at (some now) }
      else token

  unfoldable pub new_token : Drawn → Text → ApiToken
  new_token drawn node_id = record {
    id = drawn.token_id;
    node_id = node_id;
    token_prefix = prefix 12 drawn.raw_token;
    token_digest = sha256 drawn.raw_token;
    label = codes "admin registration";
    expires_at = none;
    revoked_at = none;
  }
    where
      prefix : ℕ → Text → Text
      prefix zero s = []
      prefix (suc n) [] = []
      prefix (suc n) (c ∷ s) = c ∷ prefix n s

  -- RegisterNode where the database accepts the statements and the new digest.
  unfoldable pub register_node :
      (Text → Text) → Drawn → RegisterNodeInput → Database → NodeCredentials × Database
  unfolding with_defaults upsert_node revoke new_token
  register_node uuid drawn input db =
      let filled = with_defaults drawn input in
      let (node_id, nodes) = upsert_node uuid drawn.node_id filled db.nodes in
      (
        record { node_id = node_id; agent_id = filled.agent_id; token = drawn.raw_token },
        record {
          nodes = nodes;
          tokens = map (revoke node_id) db.tokens ++ (new_token drawn node_id ∷ []);
        },
      )

-- What holds at a later time than that of a registration, or any other.
module _ (sha256 : Text → Text) (now later : Time) where
  find_node-eq :
      (id : Text) (nodes : List Node) (node : Node) → find_node id nodes ≡ some node → node.id ≡ id
  unfolding find_node
  find_node-eq id [] node h = absurd (ground (arith, h))
  find_node-eq id (n ∷ nodes) node h =
      elim (Bool-cases (text_eq n.id id && enabled n.disabled_at)) [
        | inl t ↦
            let same : n ≡ node = ground (arith, t, h) in
            sym (ap (λ (m : Node). m.id) same) ∙ (ground (arith, text_eq_iff n.id id, t))
        | inr t ↦ find_node-eq id nodes node (rw t at h)
      ]

  false_of : false ≡ true → ⊥
  false_of h = ground (arith, h)

  -- A revoked token of the node is not live.
  revoke-dead :
      (node_id : Text) (token : ApiToken)
      → is_live later (revoke sha256 now node_id token) ≡ true
      → token.node_id ≢ node_id
  unfolding is_live revoke
  revoke-dead node_id token h q =
      let this : text_eq token.node_id node_id ≡ true = (text_eq_iff token.node_id node_id).1 q in
      dead token.revoked_at refl (rw this at h)
    where
      dead :
          (o : Option Time)
          → token.revoked_at ≡ o
          → is_live later (record token { revoked_at = or_else token.revoked_at (some now) }) ≡ true
          → ⊥
      dead none e l = false_of (rw e at l)
      dead (some t) e l = false_of (rw e at l)

  revoke-node_id :
      (node_id : Text) (token : ApiToken)
      → (revoke sha256 now node_id token).node_id ≡ token.node_id
  unfolding revoke
  revoke-node_id node_id token = elim (Bool-cases (text_eq token.node_id node_id)) [
    | inl h ↦ rw h refl
    | inr h ↦ rw h refl
  ]

  no_auth : (auth : NodeAuth) → none ≡ some auth → ⊥
  no_auth auth h = ground (arith, h)

  auth_eq : (a b : NodeAuth) → some a ≡ some b → a ≡ b
  auth_eq a b h = ground (arith, h)

  live_of : (a b : Bool) → (a && b) ≡ true → b ≡ true
  live_of a b h = ground (arith, h)

  only_new :
      (drawn : Drawn) (node_id digest : Text) (nodes : List Node) (auth : NodeAuth)
      (tokens : List ApiToken)
      → select_tokens sha256 later digest nodes
          (map (revoke sha256 now node_id) tokens ++ (new_token sha256 now drawn node_id ∷ []))
        ≡ some auth
      → auth.node_id ≡ node_id
      → (auth.token_id ≡ drawn.token_id) × (digest ≡ sha256 drawn.raw_token)
  unfolding select_tokens new_token
  only_new drawn node_id digest nodes auth [] h q =
      elim (Bool-cases (text_eq (sha256 drawn.raw_token) digest)) [
        | inl t ↦ elim (Option-cases (find_node node_id nodes)) [
          | inl f ↦ absurd (no_auth auth (rw (t, f) at h))
          | inr (node, f) ↦ (
            sym (ap (λ (a : NodeAuth). a.token_id) (auth_eq _ auth (rw (t, f) at h))),
            sym ((text_eq_iff (sha256 drawn.raw_token) digest).0 t),
          )
        ]
        | inr t ↦ absurd (no_auth auth (rw t at h))
      ]
  only_new drawn node_id digest nodes auth (token ∷ tokens) h q =
      let rest = only_new drawn node_id digest nodes auth tokens in
      let revoked = revoke sha256 now node_id token in
      elim (Bool-cases (text_eq revoked.token_digest digest && is_live later revoked)) [
        | inl t ↦ elim (Option-cases (find_node revoked.node_id nodes)) [
          | inl f ↦ rest (rw f at (rw t at h)) q
          | inr (node, f) ↦
              let found = ap (λ (a : NodeAuth). a.node_id) (auth_eq _ auth (rw (t, f) at h)) in
              let owner =
                sym (revoke-node_id node_id token)
                ∙ sym (find_node-eq revoked.node_id nodes node f)
                ∙ found
                ∙ q in
              absurd (revoke-dead node_id token (live_of _ _ t) owner)
        ]
        | inr t ↦ rest (rw t at h) q
      ]

  -- After a registration, only the token that it returned authenticates as the node, at any time.
  pub register_node-only_token :
      (uuid : Text → Text) (drawn : Drawn) (input : RegisterNodeInput) (db : Database)
      (raw_token : Text) (auth : NodeAuth)
      → authenticate_token sha256 later (register_node sha256 now uuid drawn input db).1 raw_token
        ≡ some auth
      → auth.node_id ≡ (register_node sha256 now uuid drawn input db).0.node_id
      → (auth.token_id ≡ drawn.token_id)
        × (sha256 raw_token ≡ sha256 (register_node sha256 now uuid drawn input db).0.token)
  unfolding authenticate_token register_node
  register_node-only_token uuid drawn input db raw_token auth =
      only_new drawn _ (sha256 raw_token) _ auth db.tokens
