-- ===== src/Store/Sync.antt =====
-- The sync functions of ingest.go, for any table: each resource of a report is updated or inserted,
-- and the node's resources that the report lacks are removed.
use mathlib.Core.List.{
  Mem, Mem-prop, not-mem-nil, Nodup, Nodup-cons, mem-cons_self, mem-cons_of_mem,
  eq-or-mem_of_mem-cons,
}
use mathlib.Core.Logic.Or
use server_status.Base.{
  ◌==◌, ==_iff, List, [], ◌∷◌, map, true, false, Option, none, some, if◌then◌else◌, ◌≡◌, ◌≢◌, refl,
  sym, ap, ◌∙◌, inl, inr, arith, Bool-cases,
}
use server_status.Base.Text.{Text, text_eq, text_eq_iff, contains}
use server_status.Store.Table.{
  Row, Time, update, rows_affected, insert, remove_missing, find_active, Differs,
  find_active-update, find_active-update_other, update-none_affected, find_active-none_affected,
  find_active-insert, find_active-insert_other, find_active-remove_missing,
  find_active-remove_missing_other,
}

module _ {C Item : Type 0} (new_id : List (Row C) → Text) (key : Item → Text)
    (columns : Item → C) where
  -- The body of the loop. `new_id` is the identifier that the database chooses for a new row.
  unfoldable pub sync_item : Text → Item → Time → List (Row C) → List (Row C)
  sync_item node item at rows =
      let updated = update node (key item) (columns item) at rows in
      if rows_affected node (key item) rows == 0
      then insert (new_id updated) node (key item) (columns item) at updated
      else updated

  unfoldable pub sync_items : Text → List Item → Time → List (Row C) → List (Row C)
  sync_items node [] at rows = rows
  sync_items node (item ∷ items) at rows = sync_items node items at (sync_item node item at rows)

  unfoldable pub sync : Text → List Item → Time → List (Row C) → List (Row C)
  sync node items at rows = remove_missing node (map key items) at (sync_items node items at rows)

  -- The columns of the item under a key.
  unfoldable pub find_item : Text → List Item → Option C
  find_item k [] = none
  find_item k (item ∷ items) =
      if text_eq (key item) k then some (columns item) else find_item k items

  find_active-sync_item :
      (node : Text) (item : Item) (at : Time) (rows : List (Row C))
      → find_active node (key item) (sync_item node item at rows) ≡ some (columns item)
  unfolding sync_item
  find_active-sync_item node item at rows =
      elim (Bool-cases (rows_affected node (key item) rows == 0)) [
        | inl h ↦
            let nothing = (==_iff (rows_affected node (key item) rows) 0).0 h in
            let same = update-none_affected node (key item) (columns item) at rows nothing in
            rw (h, same)
              (find_active-insert _ node (key item) (columns item) at rows
                (find_active-none_affected node (key item) rows nothing))
        | inr h ↦ rw h (elim (find_active-update node (key item) (columns item) at rows) [
          | inl z ↦ absurd (ground (arith, ==_iff (rows_affected node (key item) rows) 0, z, h))
          | inr f ↦ f
        ])
      ]

  find_active-sync_item_other :
      (node : Text) (item : Item) (at : Time) (other_node other_key : Text) (rows : List (Row C))
      → Differs node (key item) other_node other_key
      → find_active other_node other_key (sync_item node item at rows)
        ≡ find_active other_node other_key rows
  unfolding sync_item
  find_active-sync_item_other node item at other_node other_key rows d =
      let updated =
        find_active-update_other node (key item) other_node other_key (columns item) at rows d in
      elim (Bool-cases (rows_affected node (key item) rows == 0)) [
        | inl h ↦ rw h (
            find_active-insert_other _ node (key item) other_node other_key (columns item) at _ d
            ∙ updated)
        | inr h ↦ rw h updated
      ]

  find_active-sync_items_other :
      (node : Text) (at : Time) (other key : Text) (items : List Item) (rows : List (Row C))
      → other ≢ node
      → find_active other key (sync_items node items at rows) ≡ find_active other key rows
  unfolding sync_items
  find_active-sync_items_other node at other key [] rows d = refl
  find_active-sync_items_other node at other key (item ∷ items) rows d =
      find_active-sync_items_other node at other key items (sync_item node item at rows) d
      ∙ find_active-sync_item_other node item at other key rows (λ q. absurd (d q))

  find_active-sync_items_absent :
      (node : Text) (at : Time) (k : Text) (items : List Item) (rows : List (Row C))
      → ¬ Mem k (map key items)
      → find_active node k (sync_items node items at rows) ≡ find_active node k rows
  unfolding sync_items
  find_active-sync_items_absent node at k [] rows m = refl
  find_active-sync_items_absent node at k (item ∷ items) rows m =
      find_active-sync_items_absent node at k items (sync_item node item at rows)
        (λ i. m (mem-cons_of_mem (key item) i))
      ∙ find_active-sync_item_other node item at node k rows (λ q r. m (rw r mem-cons_self))

  -- `before`, where the report has no item under the key.
  abbrev or_before : Option C → Option C → Option C
  or_before none before = before
  or_before (some c) before = some c

  find_active-sync_items :
      (node : Text) (at : Time) (k : Text) (items : List Item) (rows : List (Row C))
      → Nodup (map key items)
      → find_active node k (sync_items node items at rows)
        ≡ or_before (find_item k items) (find_active node k rows)
  unfolding sync_items find_item
  find_active-sync_items node at k [] rows n = refl
  find_active-sync_items node at k (item ∷ items) rows n =
      let (new, rest) = Nodup-cons.0 n in
      elim (Bool-cases (text_eq (key item) k)) [
        | inl h ↦
            let same = (text_eq_iff (key item) k).0 h in
            rw h (
              find_active-sync_items_absent node at k items (sync_item node item at rows)
                (rw (sym same) new)
              ∙ (rw (sym same) (find_active-sync_item node item at rows)))
        | inr h ↦ rw h (
            find_active-sync_items node at k items (sync_item node item at rows) rest
            ∙ ap (or_before (find_item k items)) (
                find_active-sync_item_other node item at node k rows
                  (λ q r. ground (arith, text_eq_iff (key item) k, h, sym r))))
      ]

  find_item-absent :
      (k : Text) (items : List Item) → contains (map key items) k ≡ false → find_item k items ≡ none
  unfolding find_item contains
  find_item-absent k [] h = refl
  find_item-absent k (item ∷ items) h = elim (Bool-cases (text_eq (key item) k)) [
    | inl t ↦ absurd (ground (arith, t, h))
    | inr t ↦ rw t (find_item-absent k items (ground (arith, t, h)))
  ]

  find_item-present :
      (k : Text) (items : List Item) (before : Option C)
      → contains (map key items) k ≡ true
      → or_before (find_item k items) before ≡ find_item k items
  unfolding find_item contains
  find_item-present k [] before h = absurd (ground (arith, h))
  find_item-present k (item ∷ items) before h = elim (Bool-cases (text_eq (key item) k)) [
    | inl t ↦ rw t refl
    | inr t ↦ rw t (find_item-present k items before (ground (arith, t, h)))
  ]

  -- Where the keys of the items differ, the active resources of the node after a sync are those of the
  -- report, with its values.
  pub find_active-sync :
      (node : Text) (at : Time) (k : Text) (items : List Item) (rows : List (Row C))
      → Nodup (map key items)
      → find_active node k (sync node items at rows) ≡ find_item k items
  unfolding sync
  find_active-sync node at k items rows n =
      find_active-remove_missing node (map key items) at k _
      ∙ (elim (Bool-cases (contains (map key items) k)) [
        | inl h ↦
            rw h (find_active-sync_items node at k items rows n ∙ find_item-present k items _ h)
        | inr h ↦ rw h (sym (find_item-absent k items h))
      ])

  -- A sync of one node leaves the active resources of the others as they were.
  pub find_active-sync_other :
      (node : Text) (at : Time) (other k : Text) (items : List Item) (rows : List (Row C))
      → other ≢ node
      → find_active other k (sync node items at rows) ≡ find_active other k rows
  unfolding sync
  find_active-sync_other node at other k items rows d =
      find_active-remove_missing_other node (map key items) at other k _ d
      ∙ find_active-sync_items_other node at other k items rows d

  -- A key of the report has an item.
  pub find_item-Mem :
      (k : Text) (items : List Item)
      → Mem k (map key items)
      → (c : C) × (find_item k items ≡ some c)
  unfolding find_item
  find_item-Mem k [] m = absurd (not-mem-nil m)
  find_item-Mem k (item ∷ items) m = elim (Bool-cases (text_eq (key item) k)) [
    | inl h ↦ (columns item, rw h refl)
    | inr h ↦
        let rest : Mem k (map key items) =
          Or.elim Mem-prop (eq-or-mem_of_mem-cons m)
            (λ q. absurd (ground (arith, text_eq_iff (key item) k, h, q))) (λ i. i) in
        let (c, e) = find_item-Mem k items rest in (c, rw h e)
  ]
