-- ===== src/Store/Ingest/Lookup.antt =====
-- The lookups of Ingest (internal/store/ingest.go): a key with an active row has an identifier, and
-- where every key has one the insertions do not fail.
use mathlib.Core.List.{Nodup}
use server_status.Base.{
  Bool, List, [], ◌∷◌, ◌++◌, map, true, ◌&&◌, some, ◌≡◌, refl, sym, inl, inr, ◌∙◌, arith,
  Bool-cases, All,
}
use server_status.Base.Dict.{get, put, key_of, get-put, get-put_other, Nodup-put}
use server_status.Base.Text.{Text, text_eq, text_eq_iff}
use server_status.Store.Table.{Row, find_active, selects, is_none}
use server_status.Store.Accepted.{IsActive}
use server_status.Store.Active.{collect}
use server_status.Store.Transaction.{Statement, IngestError, insert_each, Outcome, execute-Outcome}

-- The map has an entry under the key.
abbrev pub Has : {V : Type 0} → List (Text × V) → Text → Type 0
Has {V} entries k = (v : V) × (get k entries ≡ some v)

get-put_at :
    {V : Type 0} {j k : Text} → j ≡ k → (a : V) (es : List (Text × V)) → get k (put j a es) ≡ some a
get-put_at {j = j} e a es = rw (sym e) (get-put j a es)

put-Has :
    {V : Type 0} (j k : Text) (a : V) (es : List (Text × V))
    → Nodup (map key_of es)
    → Has es j
    → Has (put k a es) j
put-Has j k a es n (v, e) = elim (Bool-cases (text_eq j k)) [
  | inl h ↦ (a, rw ((text_eq_iff j k).0 h) (get-put k a es))
  | inr h ↦ (v, get-put_other j k a es n (λ q. ground (arith, text_eq_iff j k, h, q)) ∙ e)
]

module _ {C V : Type 0} (value : Row C → V) (node : Text) where
  collect-Has_found :
      (k : Text) (found : List (Text × V)) (rows : List (Row C))
      → Nodup (map key_of found)
      → Has found k
      → Has (collect value node found rows) k
  unfolding collect
  collect-Has_found k found [] n h = h
  collect-Has_found k found (row ∷ rows) n h =
      elim (Bool-cases (text_eq row.node_id node && is_none row.removed_at)) [
        | inl t ↦ rw t (
            collect-Has_found k (put row.key (value row) found) rows
              (Nodup-put row.key (value row) found n) (put-Has k row.key (value row) found n h))
        | inr t ↦ rw t (collect-Has_found k found rows n h)
      ]

  -- A key with an active row of the node is among the identifiers read back.
  pub collect-Has :
      (k : Text) (rows : List (Row C)) (found : List (Text × V))
      → Nodup (map key_of found)
      → IsActive node rows k
      → Has (collect value node found rows) k
  unfolding collect find_active
  collect-Has k [] found n (c, e) = absurd (ground (arith, e))
  collect-Has k (row ∷ rows) found n (c, e) =
      let here = text_eq row.node_id node && is_none row.removed_at in
      let added = Nodup-put row.key (value row) found n in
      elim (Bool-cases (selects node k row)) [
        | inl t ↦
            let same : row.key ≡ k = ground (arith, text_eq_iff row.key k, t) in
            let active : here ≡ true = ground (arith, t) in
            rw active (
              collect-Has_found k (put row.key (value row) found) rows added
                (value row, get-put_at same (value row) found))
        | inr t ↦ elim (Bool-cases here) [
          | inl a ↦ rw a (collect-Has k rows _ added (c, rw t at e))
          | inr a ↦ rw a (collect-Has k rows found n (c, rw t at e))
        ]
      ]

module _ (accepts : Statement → Bool) {M V R : Type 0} (key : M → Text)
    (unknown : Text → IngestError) (insertion : Text → Statement) (row : V → M → R) where
  -- Where every key has an identifier, the loop fails only by an insertion.
  pub insert_each-Outcome :
      (ids : List (Text × V)) (metrics : List M) (rows : List R)
      → All (λ m. Has ids (key m)) metrics
      → Outcome accepts
          (λ out. Unit {0})
          (insert_each accepts key unknown insertion row ids metrics rows)
  unfolding insert_each
  insert_each-Outcome ids [] rows h = inr (rows, refl, tt)
  insert_each-Outcome ids (metric ∷ metrics) rows ((v, e), h) =
      rw (e, insert_each)
        (execute-Outcome accepts (λ out. Unit {0}) (insertion (key metric))
          (insert_each accepts key unknown insertion row ids metrics (rows ++ (row v metric ∷ [])))
          (insert_each-Outcome ids metrics (rows ++ (row v metric ∷ [])) h))
