-- ===== src/Store/Table.antt =====
-- A table of the inventory of nodes, as ingest.go uses it: rows that live until they are removed, and
-- the effect of the three statements that every sync function of ingest.go executes.
use server_status.Base.{
  ℕ, suc, ◌++◌, List, [], ◌∷◌, Bool, true, false, not, ◌&&◌, Option, none, some, if◌then◌else◌, ◌≡◌,
  refl, inl, inr, arith, Bool-cases, ◌⊎◌, ◌≢◌, sym, ap, ◌∙◌,
}
use server_status.Base.Int.{ℤ}
use server_status.Base.Text.{Text, text_eq, text_eq_iff, text_eq_refl, contains}

abbrev pub Time : Type 0
Time = ℤ

-- `C` holds the columns that are particular to the table.
pub record Row (C : Type 0) : Type 0 where
  pub id : Text
  pub node_id : Text
  pub key : Text
  pub columns : C
  pub first_seen_at : Time
  pub last_seen_at : Time
  pub removed_at : Option Time

abbrev pub is_none {ℓ} : {A : Type ℓ} → Option A → Bool
is_none none = true
is_none (some a) = false

-- One resource is not another.
abbrev pub Differs : Text → Text → Text → Text → Type 0
Differs node key other_node other_key = other_node ≡ node → other_key ≡ key → ⊥

module _ {C : Type 0} where
  -- `WHERE node_id = $1 AND hardware_key = $2 AND removed_at IS NULL`
  abbrev pub selects : Text → Text → Row C → Bool
  selects node key row = text_eq row.node_id node && text_eq row.key key && is_none row.removed_at

  -- The UPDATE of one resource.
  unfoldable pub update : Text → Text → C → Time → List (Row C) → List (Row C)
  update node key columns at [] = []
  update node key columns at (row ∷ rows) =
      let rest = update node key columns at rows in
      if selects node key row
      then (record row { columns = columns; last_seen_at = at }) ∷ rest
      else row ∷ rest

  -- `result.RowsAffected()`
  unfoldable pub rows_affected : Text → Text → List (Row C) → ℕ
  rows_affected node key [] = 0
  rows_affected node key (row ∷ rows) =
      let rest = rows_affected node key rows in if selects node key row then suc rest else rest

  -- The INSERT of one resource, under an identifier that the database chooses.
  unfoldable pub insert : Text → Text → Text → C → Time → List (Row C) → List (Row C)
  insert id node key columns at rows =
      rows
      ++ ((record {
        id = id;
        node_id = node;
        key = key;
        columns = columns;
        first_seen_at = at;
        last_seen_at = at;
        removed_at = none;
      })
          ∷ [])

  -- `UPDATE … SET removed_at = $3 WHERE … removed_at IS NULL AND NOT (hardware_key = ANY($2))`
  unfoldable pub remove_missing : Text → List Text → Time → List (Row C) → List (Row C)
  remove_missing node keys at [] = []
  remove_missing node keys at (row ∷ rows) =
      let rest = remove_missing node keys at rows in
      if text_eq row.node_id node && is_none row.removed_at && not (contains keys row.key)
      then (record row { removed_at = some at }) ∷ rest
      else row ∷ rest

  -- The columns of the active row of a resource.
  unfoldable pub find_active : Text → Text → List (Row C) → Option C
  find_active node key [] = none
  find_active node key (row ∷ rows) =
      if selects node key row then some row.columns else find_active node key rows

  selects-eq :
      (node key : Text) (row : Row C)
      → selects node key row ≡ true
      → (row.node_id ≡ node) × (row.key ≡ key)
  selects-eq node key row h =
      ground (arith, text_eq_iff row.node_id node, text_eq_iff row.key key, h)

  selects-Differs :
      (node key other_node other_key : Text) (row : Row C)
      → Differs node key other_node other_key
      → selects node key row ≡ true
      → selects other_node other_key row ≡ false
  selects-Differs node key other_node other_key row d h =
      let (n, k) = selects-eq node key row h in
      elim (Bool-cases (selects other_node other_key row)) [
        | inl t ↦
            let (m, j) = selects-eq other_node other_key row t in absurd (d (sym m ∙ n) (sym j ∙ k))
        | inr t ↦ t
      ]

  pub find_active-update_other :
      (node key other_node other_key : Text) (columns : C) (at : Time) (rows : List (Row C))
      → Differs node key other_node other_key
      → find_active other_node other_key (update node key columns at rows)
        ≡ find_active other_node other_key rows
  unfolding find_active update
  find_active-update_other node key other_node other_key columns at [] d = refl
  find_active-update_other node key other_node other_key columns at (row ∷ rows) d =
      let ih = find_active-update_other node key other_node other_key columns at rows d in
      elim (Bool-cases (selects node key row)) [
        | inl h ↦ rw (h, selects-Differs node key other_node other_key row d h) ih
        | inr h ↦ rw h (rw ih refl)
      ]

  pub find_active-update :
      (node key : Text) (columns : C) (at : Time) (rows : List (Row C))
      → (rows_affected node key rows ≡ 0)
        ⊎ (find_active node key (update node key columns at rows) ≡ some columns)
  unfolding find_active update rows_affected
  find_active-update node key columns at [] = inl refl
  find_active-update node key columns at (row ∷ rows) = elim (Bool-cases (selects node key row)) [
    | inl h ↦
        let still : selects node key (record row { columns = columns; last_seen_at = at }) ≡ true =
          h in
        inr (rw (h, still) refl)
    | inr h ↦ rw (h, h) (find_active-update node key columns at rows)
  ]

  pub update-none_affected :
      (node key : Text) (columns : C) (at : Time) (rows : List (Row C))
      → rows_affected node key rows ≡ 0
      → update node key columns at rows ≡ rows
  unfolding update rows_affected
  update-none_affected node key columns at [] h = refl
  update-none_affected node key columns at (row ∷ rows) h =
      elim (Bool-cases (selects node key row)) [
        | inl t ↦ absurd (ground (arith, t, h))
        | inr t ↦
            rw t
              (ap (λ rest. row ∷ rest) (update-none_affected node key columns at rows (rw t at h)))
      ]

  pub find_active-none_affected :
      (node key : Text) (rows : List (Row C))
      → rows_affected node key rows ≡ 0
      → find_active node key rows ≡ none
  unfolding find_active rows_affected
  find_active-none_affected node key [] h = refl
  find_active-none_affected node key (row ∷ rows) h = elim (Bool-cases (selects node key row)) [
    | inl t ↦ absurd (ground (arith, t, h))
    | inr t ↦ rw t (find_active-none_affected node key rows (rw t at h))
  ]

  -- The columns found, or those of one more row where it is selected.
  abbrev found_or : Bool → C → Option C → Option C
  found_or selected columns none = if selected then some columns else none
  found_or selected columns (some c) = some c

  found_or-false : (columns : C) (o : Option C) → found_or false columns o ≡ o
  found_or-false columns none = refl
  found_or-false columns (some c) = refl

  -- A row joins at the end: it is found where no row before it is.
  find_active-append :
      (node key : Text) (rows : List (Row C)) (row : Row C)
      → find_active node key (rows ++ (row ∷ []))
        ≡ found_or (selects node key row) row.columns (find_active node key rows)
  unfolding find_active
  find_active-append node key [] row = refl
  find_active-append node key (r ∷ rows) row = elim (Bool-cases (selects node key r)) [
    | inl h ↦ rw h refl
    | inr h ↦ rw h (find_active-append node key rows row)
  ]

  pub find_active-insert :
      (id node key : Text) (columns : C) (at : Time) (rows : List (Row C))
      → find_active node key rows ≡ none
      → find_active node key (insert id node key columns at rows) ≡ some columns
  unfolding insert
  find_active-insert id node key columns at rows h =
      find_active-append node key rows _ ∙ (rw (h, text_eq_refl node, text_eq_refl key) refl)

  pub find_active-insert_other :
      (id node key other_node other_key : Text) (columns : C) (at : Time) (rows : List (Row C))
      → Differs node key other_node other_key
      → find_active other_node other_key (insert id node key columns at rows)
        ≡ find_active other_node other_key rows
  unfolding insert
  find_active-insert_other id node key other_node other_key columns at rows d =
      let row : Row C = record {
        id = id;
        node_id = node;
        key = key;
        columns = columns;
        first_seen_at = at;
        last_seen_at = at;
        removed_at = none;
      } in
      let this : selects node key row ≡ true = rw (text_eq_refl node, text_eq_refl key) refl in
      find_active-append other_node other_key rows row
      ∙ (rw (selects-Differs node key other_node other_key row d this) (found_or-false columns _))

  -- The rows of a node stay active exactly where their key is listed.
  pub find_active-remove_missing :
      (node : Text) (keys : List Text) (at : Time) (key : Text) (rows : List (Row C))
      → find_active node key (remove_missing node keys at rows)
        ≡ (if contains keys key then find_active node key rows else none)
  unfolding find_active remove_missing
  find_active-remove_missing node keys at key [] = elim (Bool-cases (contains keys key)) [
    | inl h ↦ rw h refl
    | inr h ↦ rw h refl
  ]
  find_active-remove_missing node keys at key (row ∷ rows) =
      let ih = find_active-remove_missing node keys at key rows in
      elim (Bool-cases (text_eq row.key key)) [
        | inl k ↦
            let same : row.key ≡ key = (text_eq_iff row.key key).0 k in
            let listed : contains keys row.key ≡ contains keys key = ap (contains keys) same in
            ground (arith, ih, k, listed)
        | inr k ↦ ground (arith, ih, k)
      ]

  pub find_active-remove_missing_other :
      (node : Text) (keys : List Text) (at : Time) (other key : Text) (rows : List (Row C))
      → other ≢ node
      → find_active other key (remove_missing node keys at rows) ≡ find_active other key rows
  unfolding find_active remove_missing
  find_active-remove_missing_other node keys at other key [] d = refl
  find_active-remove_missing_other node keys at other key (row ∷ rows) d =
      let ih = find_active-remove_missing_other node keys at other key rows d in
      ground (arith, ih, text_eq_iff row.node_id node, text_eq_iff row.node_id other, d)
