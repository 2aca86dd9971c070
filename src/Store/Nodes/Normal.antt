-- ===== src/Store/Nodes/Normal.antt =====
-- The summaries that ListNodes and GetNode of internal/store/query.go return.
use mathlib.Core.Path.{subst}
use server_status.Base.{
  ℕ, suc, Bool, true, false, not, ◌&&◌, List, [], ◌∷◌, Option, none, some, ◌⊎◌, inl, inr,
  if◌then◌else◌, ◌≡◌, ◌≢◌, refl, ap, arith, Bool-cases, Option-cases, All, length,
}
use server_status.Base.Text.{Text, codes, text_eq, text_eq_iff}
use server_status.Store.Table.{Time}
use server_status.Store.Nodes.{NodeSummary}
use server_status.Store.Nodes.Read.{
  ReadError, Cursor, ◌>>=◌, read_row, read_rows, at_end, read_query, or_empty, is_missing,
  normalize_node_summary, scan_node_summary, read_nodes,
}

-- A summary whose tags are a list, and which is pending where the node has no report and is not
-- disabled.
pub record IsNormal (item : NodeSummary) : Type 0 where
  pub tags : item.tags ≢ none
  pub status :
      (item.latest_bucket_at ≢ none)
      ⊎ (item.status ≡ codes "disabled")
      ⊎ (item.status ≡ codes "pending")

normalize_node_summary-IsNormal : (item : NodeSummary) → IsNormal (normalize_node_summary item)
unfolding normalize_node_summary
normalize_node_summary-IsNormal item = record {
  tags = tags item.tags;
  status = status item.latest_bucket_at refl;
}
  where
    tags : (t : Option (List Text)) → or_empty t ≢ none
    tags none = λ h. cc
    tags (some t) = λ h. cc

    status :
        (bucket : Option Time)
        → item.latest_bucket_at ≡ bucket
        → (item.latest_bucket_at ≢ none)
          ⊎ ((if is_missing item.latest_bucket_at && not (text_eq item.status (codes "disabled"))
                then codes "pending"
                else item.status)
              ≡ codes "disabled")
          ⊎ ((if is_missing item.latest_bucket_at && not (text_eq item.status (codes "disabled"))
                then codes "pending"
                else item.status)
              ≡ codes "pending")
    status (some at) e = inl (λ h. cc)
    status none e = elim (Bool-cases (text_eq item.status (codes "disabled"))) [
      | inl t ↦ inr (inl (rw (e, t) ((text_eq_iff item.status (codes "disabled")).0 t)))
      | inr t ↦ inr (inr (rw (e, t) refl))
    ]

>>=-inr :
    {A B : Type 0} (m : ReadError ⊎ A) (next : A → ReadError ⊎ B) (b : B)
    → (m >>= next) ≡ inr b
    → (a : A) × (m ≡ inr a) × (next a ≡ inr b)
>>=-inr (inl e) next b h = absurd (ground (arith, h))
>>=-inr (inr a) next b h = (a, refl, h)

scan_node_summary-IsNormal :
    (unmarshal : List ℕ → Option (List (Text × Text))) (scanned : NodeSummary × List ℕ)
    (item : NodeSummary)
    → scan_node_summary unmarshal scanned ≡ inr item
    → IsNormal item
unfolding scan_node_summary
scan_node_summary-IsNormal unmarshal (raw, labels_json) item h =
    elim (Option-cases (unmarshal labels_json)) [
      | inl u ↦ absurd (ground (arith, rw (u, scan_node_summary) at h))
      | inr (labels, u) ↦
          let same : normalize_node_summary (record raw { labels = labels }) ≡ item =
            Sum-inr (rw (u, scan_node_summary) at h) in
          rw same at (normalize_node_summary-IsNormal (record raw { labels = labels }))
    ]
  where
    Sum-inr : {x y : NodeSummary} → ◌≡◌ {A = ReadError ⊎ NodeSummary} (inr x) (inr y) → x ≡ y
    Sum-inr e = cc

module _ {A B : Type 0} (scan : A → ReadError ⊎ B) (P : B → Type 0)
    (keeps : (a : A) (b : B) → scan a ≡ inr b → P b) where
  read_rows-All :
      (rows : List (Option A)) (items : List B)
      → read_rows scan rows ≡ inr items
      → All P items × (length items ≡ length rows)
  unfolding read_rows read_row
  read_rows-All [] [] h = (tt, refl)
  read_rows-All [] (x ∷ xs) h = absurd (ground (arith, h))
  read_rows-All (none ∷ rows) items h = absurd (ground (arith, h))
  read_rows-All (some a ∷ rows) items h =
      let (b, scanned, h1) = >>=-inr (scan a) _ items h in
      let (bs, rest, h2) = >>=-inr (read_rows scan rows) _ items h1 in
      let (all, count) = read_rows-All rows bs rest in
      let same : b ∷ bs ≡ items = List-inr h2 in
      subst (λ xs. All P xs × (length xs ≡ length (some a ∷ rows))) same
        ((keeps a b scanned, all), ap suc count)
    where
      List-inr : {x y : List B} → ◌≡◌ {A = ReadError ⊎ List B} (inr x) (inr y) → x ≡ y
      List-inr e = cc

-- Every summary that ListNodes returns has a list of tags, and is pending where its node has no report
-- and is not disabled; there is one for each row of the query.
pub read_nodes-IsNormal :
    (unmarshal : List ℕ → Option (List (Text × Text))) (cursor : Cursor (NodeSummary × List ℕ))
    (items : List NodeSummary)
    → read_nodes unmarshal (some cursor) ≡ inr items
    → All IsNormal items × (length items ≡ length cursor.rows)
unfolding read_nodes read_query
read_nodes-IsNormal unmarshal cursor items h =
    let (found, r, h1) = >>=-inr (read_rows (scan_node_summary unmarshal) cursor.rows) _ items h in
    let same : found ≡ items = at_end-inr cursor.is_broken found items h1 in
    rw same at (
      read_rows-All (scan_node_summary unmarshal) IsNormal (scan_node_summary-IsNormal unmarshal)
        cursor.rows found r)
  where
    at_end-inr :
        (is_broken : Bool) (found items : List NodeSummary)
        → at_end (scan_node_summary unmarshal) is_broken found ≡ inr items
        → found ≡ items
    at_end-inr true found items h = unfold at_end in (ground (arith, h))
    at_end-inr false found items h = unfold at_end in (ground (arith, h))
