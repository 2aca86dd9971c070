-- ===== src/Store/Network.antt =====
-- syncNetworkInterfaces of internal/store/ingest.go: the interfaces of a node and their addresses.
use server_status.Base.{
  ℕ, ◌==◌, ◌++◌, List, [], ◌∷◌, map, Bool, false, not, ◌&&◌, ◌||◌, Option, none, some,
  if◌then◌else◌, ◌≡◌, refl, ap,
}
use server_status.Base.Int.{ℤ}
use server_status.Base.Text.{Text, text_eq, contains}
use server_status.Report.Inventory.{NetworkInterface, NetworkAddress}
use server_status.Store.Table.{Row, Time, is_none, selects, remove_missing}
use server_status.Store.Sync.{sync, sync_items, sync_item}
use server_status.Store.Inventory.{null_if_empty, null_if_zero}

-- net.ParseMAC: the number of bytes of a hardware address and its text (`none` is its error); and
-- whether two texts are one address to PostgreSQL's inet.
pub record Addresses : Type 0 where
  pub parse_mac : Text → Option (ℕ × Text)
  pub same_inet : Text → Text → Bool

-- The columns of monitoring.network_interfaces.
pub record InterfaceColumns : Type 0 where
  pub interface_name : Text
  pub mac_address : Option Text
  pub mtu : Option ℤ
  pub link_speed_mbps : Option ℤ

-- A row of monitoring.network_addresses.
pub record AddressRow : Type 0 where
  pub id : Text
  pub node_id : Text
  pub interface_id : Text
  pub address : Text
  pub address_scope : Text
  pub first_seen_at : Time
  pub last_seen_at : Time
  pub removed_at : Option Time

-- Marks the rows that the test selects, if they are active.
unfoldable pub remove_addresses : (AddressRow → Bool) → Time → List AddressRow → List AddressRow
remove_addresses gone at [] = []
remove_addresses gone at (row ∷ rows) =
    let rest = remove_addresses gone at rows in
    if is_none row.removed_at && gone row
    then (record row { removed_at = some at }) ∷ rest
    else row ∷ rest

-- The identifiers of the active rows of an interface.
unfoldable pub active_ids : Text → Text → List (Row InterfaceColumns) → List Text
active_ids node key [] = []
active_ids node key (row ∷ rows) =
    let rest = active_ids node key rows in if selects node key row then row.id ∷ rest else rest

-- RETURNING: the first identifier.
abbrev pub returned : List Text → Text
returned [] = []
returned (id ∷ ids) = id

abbrev pub interface_key : NetworkInterface → Text
interface_key item = item.key

-- An active interface has the identifier.
unfoldable pub is_active_id : Text → List (Row InterfaceColumns) → Bool
is_active_id id [] = false
is_active_id id (row ∷ rows) = (text_eq row.id id && is_none row.removed_at) || is_active_id id rows

module _ (net : Addresses) where
  -- A MAC address of 6 bytes in its canonical form, or the empty text.
  unfoldable pub postgres_mac_address : Text → Text
  postgres_mac_address value = elim (net.parse_mac value) [
    | none ↦ []
    | some (length, text) ↦ if length == 6 then text else []
  ]

  unfoldable pub interface_columns : NetworkInterface → InterfaceColumns
  interface_columns item = record {
    interface_name = item.name;
    mac_address = null_if_empty (postgres_mac_address item.mac_address);
    mtu = null_if_zero item.mtu;
    link_speed_mbps = null_if_zero item.link_speed_mbps;
  }

  -- The active rows of one address of one interface.
  unfoldable pub selects_address : Text → Text → Text → AddressRow → Bool
  selects_address node interface address row =
      text_eq row.node_id node
      && text_eq row.interface_id interface
      && net.same_inet row.address address
      && is_none row.removed_at

  -- The UPDATE of one address, and the identifiers that it returns.
  unfoldable pub update_address :
      Text → Text → NetworkAddress → Time → List AddressRow → List Text × List AddressRow
  update_address node interface address at [] = ([], [])
  update_address node interface address at (row ∷ rows) =
      let (ids, rest) = update_address node interface address at rows in
      if selects_address node interface address.address row
      then (row.id ∷ ids, (record row { address_scope = address.scope; last_seen_at = at }) ∷ rest)
      else (ids, row ∷ rest)

  -- The identifier of the address, updated or, where no row is returned, inserted.
  unfoldable pub upsert_address :
      (List AddressRow → Text)
      → Text
      → Text
      → NetworkAddress
      → Time
      → List AddressRow
      → Text × List AddressRow
  upsert_address new_id node interface address at rows =
      let (ids, updated) = update_address node interface address at rows in
      elim ids [
        | id ∷ others ↦ (id, updated)
        | [] ↦
            let new = new_id updated in
            (
              new,
              updated
                  ++ ((record {
                    id = new;
                    node_id = node;
                    interface_id = interface;
                    address = address.address;
                    address_scope = address.scope;
                    first_seen_at = at;
                    last_seen_at = at;
                    removed_at = none;
                  })
                      ∷ []),
            )
      ]

  -- The loop over the addresses of an interface, from the identifiers collected so far.
  unfoldable pub upsert_addresses :
      (List AddressRow → Text)
      → Text
      → Text
      → List NetworkAddress
      → Time
      → List Text
      → List AddressRow
      → List Text × List AddressRow
  upsert_addresses new_id node interface [] at ids rows = (ids, rows)
  upsert_addresses new_id node interface (address ∷ addresses) at ids rows =
      let (id, after) = upsert_address new_id node interface address at rows in
      upsert_addresses new_id node interface addresses at (ids ++ (id ∷ [])) after

  -- The addresses of one interface of a report.
  unfoldable pub sync_addresses :
      (List AddressRow → Text)
      → Text
      → Text
      → List NetworkAddress
      → Time
      → List AddressRow
      → List AddressRow
  sync_addresses new_id node interface addresses at rows =
      let (ids, after) = upsert_addresses new_id node interface addresses at [] rows in
      remove_addresses
        (λ row.
          text_eq row.node_id node
          && text_eq row.interface_id interface
          && not (contains ids row.id))
        at after

  module _ (new_interface : List (Row InterfaceColumns) → Text)
      (new_address : List AddressRow → Text) where
    -- The loop: each interface is updated or inserted, then its addresses are synced.
    unfoldable pub sync_interfaces :
        Text
        → List NetworkInterface
        → Time
        → List (Row InterfaceColumns)
        → List AddressRow
        → List (Row InterfaceColumns) × List AddressRow
    sync_interfaces node [] at interfaces addresses = (interfaces, addresses)
    sync_interfaces node (item ∷ items) at interfaces addresses =
        let after =
          sync_item new_interface interface_key interface_columns node item at interfaces in
        let id = returned (active_ids node item.key after) in
        sync_interfaces node items at after
          (sync_addresses new_address node id item.addresses at addresses)

    unfoldable pub sync_network_interfaces :
        Text
        → List NetworkInterface
        → Time
        → List (Row InterfaceColumns)
        → List AddressRow
        → List (Row InterfaceColumns) × List AddressRow
    sync_network_interfaces node items at interfaces addresses =
        let (updated, synced) = sync_interfaces node items at interfaces addresses in
        let kept = remove_missing node (map interface_key items) at updated in
        (
          kept,
          remove_addresses
              (λ row. text_eq row.node_id node && not (is_active_id row.interface_id kept)) at
              synced,
        )

    sync_interfaces-sync_items :
        (node : Text) (items : List NetworkInterface) (at : Time)
        (interfaces : List (Row InterfaceColumns)) (addresses : List AddressRow)
        → (sync_interfaces node items at interfaces addresses).0
          ≡ sync_items new_interface interface_key interface_columns node items at interfaces
    unfolding sync_interfaces sync_items
    sync_interfaces-sync_items node [] at interfaces addresses = refl
    sync_interfaces-sync_items node (item ∷ items) at interfaces addresses =
        sync_interfaces-sync_items node items at _ _

    -- The interfaces are synced as every other table is; the addresses do not matter.
    pub sync_network_interfaces-sync :
        (node : Text) (items : List NetworkInterface) (at : Time)
        (interfaces : List (Row InterfaceColumns)) (addresses : List AddressRow)
        → (sync_network_interfaces node items at interfaces addresses).0
          ≡ sync new_interface interface_key interface_columns node items at interfaces
    unfolding sync_network_interfaces sync
    sync_network_interfaces-sync node items at interfaces addresses =
        ap (remove_missing node (map interface_key items) at)
          (sync_interfaces-sync_items node items at interfaces addresses)
