-- ===== src/Store/Snapshots/Latest.antt =====
-- Which rows the replacement of a snapshot leaves: replaceTemperatureMetrics of
-- internal/store/ingest.go.
use mathlib.Core.List.{Mem, mem-cons_self, mem-cons_of_mem}
use server_status.Base.{
  List, [], ◌∷◌, ◌++◌, map, true, false, ◌&&◌, ◌≡◌, ◌≢◌, ◌⊎◌, refl, ap, ◌∙◌, inl, inr, arith,
  Bool-cases, if◌then◌else◌, All,
}
use server_status.Base.Int.{◌<ℤ◌, ◌≤ℤ◌, ltb_ℤ, ltb_ℤ-false_iff, ltb_ℤ-true_iff}
use server_status.Store.Table.{Time}
use server_status.Base.Text.{Text, text_eq, text_eq_iff, text_eq_refl}
use server_status.Report.Types.{TemperatureMetrics}
use server_status.Store.Samples.{Stamp}
use server_status.Store.Snapshots.{
  Current, TemperatureColumns, temperature_row, has_newer, current_snapshot_can_be_replaced,
  delete_current, replace_temperature_metrics,
}

module _ {C : Type 0} where
  -- The rows of one node.
  unfoldable pub rows_of : Text → List (Current C) → List (Current C)
  rows_of node [] = []
  rows_of node (row ∷ rows) =
      let rest = rows_of node rows in if text_eq row.stamp.node_id node then row ∷ rest else rest

  rows_of-append :
      (node : Text) (xs ys : List (Current C))
      → rows_of node (xs ++ ys) ≡ rows_of node xs ++ rows_of node ys
  unfolding rows_of
  rows_of-append node [] ys = refl
  rows_of-append node (x ∷ xs) ys =
      let ih = rows_of-append node xs ys in
      elim (Bool-cases (text_eq x.stamp.node_id node)) [
        | inl h ↦ rw h (ap (λ rest. x ∷ rest) ih)
        | inr h ↦ rw h ih
      ]

  rows_of-delete_current :
      (node : Text) (xs : List (Current C)) → rows_of node (delete_current node xs) ≡ []
  unfolding rows_of delete_current
  rows_of-delete_current node [] = refl
  rows_of-delete_current node (x ∷ xs) = elim (Bool-cases (text_eq x.stamp.node_id node)) [
    | inl h ↦ rw h (rows_of-delete_current node xs)
    | inr h ↦ rw (h, h) (rows_of-delete_current node xs)
  ]

  rows_of-delete_current_other :
      (node other : Text) (xs : List (Current C))
      → other ≢ node
      → rows_of other (delete_current node xs) ≡ rows_of other xs
  unfolding rows_of delete_current
  rows_of-delete_current_other node other [] d = refl
  rows_of-delete_current_other node other (x ∷ xs) d =
      let ih = rows_of-delete_current_other node other xs d in
      elim (Bool-cases (text_eq x.stamp.node_id node)) [
        | inl h ↦
            let apart : text_eq x.stamp.node_id other ≡ false =
              ground (
                arith,
                text_eq_iff x.stamp.node_id other,
                text_eq_iff x.stamp.node_id node,
                h,
                d,
              ) in
            rw (h, apart) ih
        | inr h ↦ rw h (rw ih refl)
      ]

rows_of-temperatures :
    (stamp : Stamp) (metrics : List TemperatureMetrics)
    → rows_of stamp.node_id (map (temperature_row stamp) metrics)
      ≡ map (temperature_row stamp) metrics
unfolding rows_of
rows_of-temperatures stamp [] = refl
rows_of-temperatures stamp (m ∷ ms) =
    rw (text_eq_refl stamp.node_id)
      (ap (λ rest. temperature_row stamp m ∷ rest) (rows_of-temperatures stamp ms))

rows_of-temperatures_other :
    (stamp : Stamp) (other : Text) (metrics : List TemperatureMetrics)
    → other ≢ stamp.node_id
    → rows_of other (map (temperature_row stamp) metrics) ≡ []
unfolding rows_of
rows_of-temperatures_other stamp other [] d = refl
rows_of-temperatures_other stamp other (m ∷ ms) d =
    let apart : text_eq stamp.node_id other ≡ false =
      ground (arith, text_eq_iff stamp.node_id other, d) in
    rw apart (rows_of-temperatures_other stamp other ms d)

append-nil : {A : Type 0} (xs : List A) → xs ++ [] ≡ xs
append-nil [] = refl
append-nil (x ∷ xs) = ap (λ rest. x ∷ rest) (append-nil xs)

-- A row of the node whose bucket is after `bucket_at`.
pub record IsLater {C : Type 0} (node : Text) (bucket_at : Time) (row : Current C) : Type 0 where
  pub same_node : row.stamp.node_id ≡ node
  pub later : bucket_at <ℤ row.stamp.bucket_at

-- A row of another node, or one whose bucket is not after `bucket_at`.
abbrev pub IsNotLater : {C : Type 0} → Text → Time → Current C → Type 0
IsNotLater node bucket_at row = (row.stamp.node_id ≢ node) ⊎ (row.stamp.bucket_at ≤ℤ bucket_at)

module _ {C : Type 0} (node : Text) (bucket_at : Time) where
  has_newer-IsLater :
      (rows : List (Current C))
      → has_newer node bucket_at rows ≡ true
      → (row : Current C) × Mem row rows × IsLater node bucket_at row
  unfolding has_newer
  has_newer-IsLater [] h = cc
  has_newer-IsLater (row ∷ rows) h =
      elim (Bool-cases (text_eq row.stamp.node_id node && ltb_ℤ bucket_at row.stamp.bucket_at)) [
        | inl t ↦ (
          row,
          mem-cons_self,
          record {
            same_node = (text_eq_iff row.stamp.node_id node).0 (ground (arith, t));
            later = (ltb_ℤ-true_iff bucket_at row.stamp.bucket_at).0 (ground (arith, t));
          },
        )
        | inr t ↦
            let (found, m, l) = has_newer-IsLater rows (rw t at h) in
            (found, mem-cons_of_mem row m, l)
      ]

  has_newer-IsNotLater :
      (rows : List (Current C))
      → has_newer node bucket_at rows ≡ false
      → All (IsNotLater node bucket_at) rows
  unfolding has_newer
  has_newer-IsNotLater [] h = tt
  has_newer-IsNotLater (row ∷ rows) h = elim (Bool-cases (text_eq row.stamp.node_id node)) [
    | inl t ↦ (
      inr ((ltb_ℤ-false_iff bucket_at row.stamp.bucket_at).0 (ground (arith, t, h))),
      has_newer-IsNotLater rows (ground (arith, h)),
    )
    | inr t ↦ (
      inl (λ q. ground (arith, t, text_eq_iff row.stamp.node_id node, q)),
      has_newer-IsNotLater rows (ground (arith, h)),
    )
  ]

-- Either the node has a row of a bucket after the report's, and keeps its rows, or each of its rows is
-- of the report's bucket or of one before, and its rows become the report's temperatures, all of them.
-- Other nodes keep their rows.
pub replace_temperature_metrics-rows_of :
    (stamp : Stamp) (metrics : List TemperatureMetrics) (rows : List (Current TemperatureColumns))
    (other : Text)
    → other ≢ stamp.node_id
    → ((((row : Current TemperatureColumns) × Mem row rows
            × IsLater stamp.node_id stamp.bucket_at row)
          × (rows_of stamp.node_id (replace_temperature_metrics stamp metrics rows)
              ≡ rows_of stamp.node_id rows))
        ⊎ (All (IsNotLater stamp.node_id stamp.bucket_at) rows
            × (rows_of stamp.node_id (replace_temperature_metrics stamp metrics rows)
                ≡ map (temperature_row stamp) metrics)))
      × (rows_of other (replace_temperature_metrics stamp metrics rows) ≡ rows_of other rows)
unfolding replace_temperature_metrics current_snapshot_can_be_replaced
replace_temperature_metrics-rows_of stamp metrics rows other d =
    let kept = delete_current stamp.node_id rows in
    let new = map (temperature_row stamp) metrics in
    elim (Bool-cases (has_newer stamp.node_id stamp.bucket_at rows)) [
      | inl h ↦
          let later = has_newer-IsLater stamp.node_id stamp.bucket_at rows h in
          rw h (inl (later, refl), refl)
      | inr h ↦
          let none_later = has_newer-IsNotLater stamp.node_id stamp.bucket_at rows h in
          rw h (
            inr (
              none_later,
              rows_of-append stamp.node_id kept new
                  ∙ rw (rows_of-delete_current stamp.node_id rows)
                      (rows_of-temperatures stamp metrics),
            ),
            rows_of-append other kept new
                ∙ rw (rows_of-temperatures_other stamp other metrics d) (
                    append-nil (rows_of other kept)
                    ∙ rows_of-delete_current_other stamp.node_id other rows d),
          )
    ]
