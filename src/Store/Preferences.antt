-- ===== src/Store/Preferences.antt =====
-- SetPrimaryNetworkInterface, UpdateNodeTags and normalizeNodeSummary of internal/store/query.go, and
-- the flag of the primary interface that listNetwork joins to each interface. A statement that fails
-- changes nothing; the model is of statements that succeed.
use mathlib.Core.List.{Mem, mem-cons_self, mem-cons_of_mem, eq-or-mem_of_mem-cons, not-mem-nil}
use mathlib.Core.Logic.Or
use server_status.Base.{
  Bool, true, false, ◌&&◌, ◌||◌, List, [], ◌∷◌, Option, none, some, if◌then◌else◌, ◌≡◌, ◌↔◌, refl,
  arith, Bool-cases, inl, inr, ◌⊎◌,
}
use server_status.Base.Text.{Text, text_eq, text_eq_iff}
use server_status.Store.Table.{Row, Time, is_none}
use server_status.Store.Network.{InterfaceColumns}

-- ErrNotFound
pub data QueryError : Type 0 where
  not_found : QueryError

-- A row of monitoring.node_network_preferences, whose key is the node.
pub record Preference : Type 0 where
  pub node_id : Text
  pub interface_id : Text
  pub updated_at : Time

-- `INSERT … ON CONFLICT (node_id) DO UPDATE`
unfoldable pub upsert : Text → Text → Time → List Preference → List Preference
upsert node id at [] = record { node_id = node; interface_id = id; updated_at = at } ∷ []
upsert node id at (row ∷ rows) =
    let rest = upsert node id at rows in
    if text_eq row.node_id node
    then (record row { interface_id = id; updated_at = at }) ∷ rows
    else row ∷ rest

-- The tags of a node in monitoring.nodes.
pub record TaggedNode : Type 0 where
  pub id : Text
  pub tags : List Text
  pub updated_at : Time

-- `uuid` is the cast `$1::uuid` of PostgreSQL, for the texts that ValidUUID takes: the value, as the text
-- in which the columns of that type are read. Texts in upper and lower case may have the same value.
module _ (uuid : Text → Text) where
  -- `WHERE node_id = $1::uuid AND id = $2::uuid AND removed_at IS NULL`
  unfoldable pub has_interface : Text → Text → List (Row InterfaceColumns) → Bool
  has_interface node id [] = false
  has_interface node id (row ∷ rows) =
      (text_eq row.node_id (uuid node) && text_eq row.id (uuid id) && is_none row.removed_at)
      || has_interface node id rows

  unfoldable pub set_primary_network_interface :
      Text
      → Text
      → Time
      → List (Row InterfaceColumns)
      → List Preference
      → Option QueryError × List Preference
  set_primary_network_interface node id at interfaces preferences =
      if has_interface node id interfaces
      then (none, upsert (uuid node) (uuid id) at preferences)
      else (some not_found, preferences)

  -- `LEFT JOIN … ON preference.node_id = network.node_id` with
  -- `COALESCE(preference.interface_id = network.interface_id, false)`, where `network.node_id = $1::uuid`
  unfoldable pub is_primary : List Preference → Text → Text → Bool
  is_primary [] node id = false
  is_primary (row ∷ rows) node id =
      let rest = is_primary rows node id in
      if text_eq row.node_id (uuid node) then text_eq row.interface_id id else rest

  unfoldable pub has_node : Text → List TaggedNode → Bool
  has_node node [] = false
  has_node node (row ∷ rows) = text_eq row.id (uuid node) || has_node node rows

  unfoldable pub set_tags : Text → List Text → Time → List TaggedNode → List TaggedNode
  set_tags node tags at [] = []
  set_tags node tags at (row ∷ rows) =
      let rest = set_tags node tags at rows in
      if text_eq row.id (uuid node)
      then (record row { tags = tags; updated_at = at }) ∷ rest
      else row ∷ rest

  unfoldable pub store_node_tags :
      Text → List Text → Time → List TaggedNode → Option QueryError × List TaggedNode
  store_node_tags node tags at nodes =
      (if has_node node nodes then none else some not_found, set_tags node tags at nodes)

  is_primary-upsert :
      (node id : Text) (at : Time) (preferences : List Preference) (other candidate : Text)
      → is_primary (upsert node id at preferences) other candidate ≡ (
          if text_eq node (uuid other)
          then text_eq id candidate
          else is_primary preferences other candidate)
  unfolding is_primary upsert
  is_primary-upsert node id at [] other candidate = refl
  is_primary-upsert node id at (row ∷ rows) other candidate = ground (
    arith,
    text_eq_iff row.node_id node,
    text_eq_iff row.node_id (uuid other),
    text_eq_iff node (uuid other),
    is_primary-upsert node id at rows other candidate,
  )

  -- An active interface of the node has the identifier.
  abbrev pub IsActiveInterface : Text → Text → Row InterfaceColumns → Type 0
  IsActiveInterface node id row =
      (row.node_id ≡ uuid node) × (row.id ≡ uuid id) × (row.removed_at ≡ none)

  selected_iff :
      (node id : Text) (row : Row InterfaceColumns)
      → ((text_eq row.node_id (uuid node) && text_eq row.id (uuid id) && is_none row.removed_at)
          ≡ true)
        ↔ IsActiveInterface node id row
  selected_iff node id row = go row.removed_at
    where
      go :
          (removed : Option Time)
          → ((text_eq row.node_id (uuid node) && text_eq row.id (uuid id) && is_none removed)
              ≡ true)
            ↔ ((row.node_id ≡ uuid node) × (row.id ≡ uuid id) × (removed ≡ none))
      go none = ground (arith, text_eq_iff row.node_id (uuid node), text_eq_iff row.id (uuid id))
      go (some at) =
          ground (arith, text_eq_iff row.node_id (uuid node), text_eq_iff row.id (uuid id))

  has_interface-active :
      (node id : Text) (rows : List (Row InterfaceColumns))
      → has_interface node id rows ≡ true
      → (row : Row InterfaceColumns) × Mem row rows × IsActiveInterface node id row
  unfolding has_interface
  has_interface-active node id [] h = cc
  has_interface-active node id (row ∷ rows) h =
      elim (Bool-cases
        (text_eq row.node_id (uuid node) && text_eq row.id (uuid id) && is_none row.removed_at)) [
          | inl t ↦ (row, mem-cons_self, (selected_iff node id row).0 t)
          | inr f ↦
              let (r, m, a) = has_interface-active node id rows (rw f at h) in
              (r, mem-cons_of_mem row m, a)
        ]

  has_interface-of_active :
      (node id : Text) (rows : List (Row InterfaceColumns)) (r : Row InterfaceColumns)
      → Mem r rows
      → IsActiveInterface node id r
      → has_interface node id rows ≡ true
  unfolding has_interface
  has_interface-of_active node id [] r m a = absurd (not-mem-nil m)
  has_interface-of_active node id (row ∷ rows) r m a =
      let set : IsSet Bool = hlevel in
      Or.elim (set _ _) (eq-or-mem_of_mem-cons m)
        (λ e.
          let here : IsActiveInterface node id row = rw e at a in
          ground (arith, (selected_iff node id row).1 here))
        (λ i. ground (arith, has_interface-of_active node id rows r i a))

  -- Where an active interface of the node has the identifier, both compared as values of the type uuid,
  -- the choice of a primary interface succeeds; then that interface is the primary one of the node, and
  -- no other, and the primary interfaces of other nodes stay as they were. Where there is none, the
  -- choice is an error, and all the choices stay as they were.
  pub set_primary_network_interface-is_primary :
      (node id : Text) (at : Time) (interfaces : List (Row InterfaceColumns))
      (preferences : List Preference) (other candidate : Text)
      → (((row : Row InterfaceColumns) × Mem row interfaces × IsActiveInterface node id row)
          × ((set_primary_network_interface node id at interfaces preferences).0 ≡ none)
          × (is_primary
                (set_primary_network_interface node id at interfaces preferences).1
                other
                candidate
              ≡ (if text_eq (uuid node) (uuid other)
                  then text_eq (uuid id) candidate
                  else is_primary preferences other candidate)))
        ⊎ ((¬ ((row : Row InterfaceColumns) × Mem row interfaces × IsActiveInterface node id row))
            × (set_primary_network_interface node id at interfaces preferences
                ≡ (some not_found, preferences)))
  unfolding set_primary_network_interface
  set_primary_network_interface-is_primary node id at interfaces preferences other candidate =
      elim (Bool-cases (has_interface node id interfaces)) [
        | inl h ↦ inl (
          has_interface-active node id interfaces h,
          rw h refl,
          rw h (is_primary-upsert (uuid node) (uuid id) at preferences other candidate),
        )
        | inr h ↦ inr (
          λ (row, m, a).
              absurd (ground (arith, has_interface-of_active node id interfaces row m a, h)),
          rw h refl,
        )
      ]

  unfoldable pub tags_of : Text → List TaggedNode → Option (List Text)
  tags_of node [] = none
  tags_of node (row ∷ rows) =
      let rest = tags_of node rows in if text_eq row.id (uuid node) then some row.tags else rest

  tags_of-set_tags :
      (node : Text) (tags : List Text) (at : Time) (nodes : List TaggedNode) (other : Text)
      → tags_of other (set_tags node tags at nodes) ≡ (
          if text_eq (uuid node) (uuid other) && has_node node nodes
          then some tags
          else tags_of other nodes)
  unfolding tags_of set_tags has_node
  tags_of-set_tags node tags at [] other = ground arith
  tags_of-set_tags node tags at (row ∷ rows) other = ground (
    arith,
    text_eq_iff row.id (uuid node),
    text_eq_iff row.id (uuid other),
    text_eq_iff (uuid node) (uuid other),
    tags_of-set_tags node tags at rows other,
  )

  -- Tags are stored for a node that is there, which has them afterwards; the tags of other nodes stay as
  -- they were. For a node that is not there the update is an error.
  pub store_node_tags-tags_of :
      (node : Text) (tags : List Text) (at : Time) (nodes : List TaggedNode) (other : Text)
      → ((store_node_tags node tags at nodes).0
          ≡ (if has_node node nodes then none else some not_found))
        × (tags_of other (store_node_tags node tags at nodes).1 ≡ (
            if text_eq (uuid node) (uuid other) && has_node node nodes
            then some tags
            else tags_of other nodes))
  unfolding store_node_tags
  store_node_tags-tags_of node tags at nodes other =
      (refl, tags_of-set_tags node tags at nodes other)
