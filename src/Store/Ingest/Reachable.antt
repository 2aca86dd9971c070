-- ===== src/Store/Ingest/Reachable.antt =====
-- The states that reports lead to, and the invariant that keeps Ingest (internal/store/ingest.go) from
-- failing: the resources behind a stored fingerprint are there.
use server_status.Base.{
  Bool, List, [], ◌∷◌, ◌⊎◌, false, none, some, ◌≡◌, ◌≢◌, refl, sym, ap, ◌∙◌, inl, inr, arith,
  Bool-cases, Option-cases,
}
use server_status.Base.Text.{Text, text_eq, text_eq_iff}
use server_status.Report.Inventory.{Inventory}
use server_status.Report.Types.{Report}
use server_status.Report.Platform.{Platform}
use server_status.Report.Normalize.{inventory_fingerprint}
use server_status.Report.Validate.{validate, validate_iff, IsValidReport}
use server_status.Store.Table.{Time}
use server_status.Store.Tokens.{NodeAuth}
use server_status.Store.Network.{Addresses}
use server_status.Store.Tables.{ReportingNode, Tables, NewIds}
use server_status.Store.Samples.{node_sample}
use server_status.Store.Transaction.{
  Statement, encode_labels, begin_transaction, lock_reporting_node, node_not_found, commit,
  statement_failed, failed, stored, Outcome, execute-Outcome, execute_each-Outcome,
  and_then-Outcome, execute_each-stored,
}
use server_status.Store.Ingest.{
  lock_node, update_node, mark_and_sync, statements, report_stamp, ingest,
}
use server_status.Store.Ingest.Covers.{Covers, sync_inventory-Covers, sync_inventory-Covers_other}
use server_status.Store.Ingest.Fingerprint.{IsFaithful, fingerprint-filled, Covers-of_fingerprint}
use server_status.Store.Ingest.Total.{IsStored, store_samples-Outcome}
use server_status.Store.Ingest.Exact.{
  exact_sample, node_sample-exact, find_sample, find_sample-upsert_node_sample,
}

-- The node's stored fingerprint after its report.
lock_node-update_node :
    (id : Text) (payload : Report) (at : Time) (nodes : List ReportingNode) (print : Text)
    → lock_node id nodes ≡ some print
    → lock_node id (update_node id payload at nodes) ≡ some payload.inventory_fingerprint
unfolding lock_node update_node
lock_node-update_node id payload at [] print e = absurd (ground (arith, e))
lock_node-update_node id payload at (node ∷ nodes) print e =
    elim (Bool-cases (text_eq node.id id)) [
      | inl h ↦ rw (h, h) refl
      | inr h ↦ rw (h, h) (lock_node-update_node id payload at nodes print (rw h at e))
    ]

lock_node-update_node_other :
    (id other : Text) (payload : Report) (at : Time) (nodes : List ReportingNode)
    → other ≢ id
    → lock_node other (update_node id payload at nodes) ≡ lock_node other nodes
unfolding lock_node update_node
lock_node-update_node_other id other payload at [] d = refl
lock_node-update_node_other id other payload at (node ∷ nodes) d =
    let ih = lock_node-update_node_other id other payload at nodes d in
    elim (Bool-cases (text_eq node.id id)) [
      | inl h ↦
          let apart : text_eq node.id other ≡ false =
            ground (arith, text_eq_iff node.id other, text_eq_iff node.id id, h, d) in
          rw (h, apart) ih
      | inr h ↦ rw h (rw ih refl)
    ]

module _ (p : Platform) (net : Addresses) (new : NewIds) where
  -- The tables of registered nodes without a report, and those that accepted reports lead to.
  pub data Reachable : Tables → Type 0 where
    start :
        {db : Tables}
        → ((id print : Text) → lock_node id db.nodes ≡ some print → print ≡ [])
        → Reachable db
    report :
        {db out : Tables}
        → Reachable db
        → (accepts : Statement → Bool) (auth : NodeAuth) (payload : Report) (now received_at : Time)
        → (validate p now payload).0 ≡ none
        → ingest net new accepts auth payload received_at db ≡ stored out
        → Reachable out

  -- The active resources of each node cover every inventory with its stored fingerprint.
  abbrev pub IsSynced : Tables → Type 0
  IsSynced db =
      (id print : Text) (inventory : Inventory)
      → lock_node id db.nodes ≡ some print
      → inventory_fingerprint p inventory ≡ some print
      → Covers id inventory db.resources

  module _ (f : IsFaithful p) where
    mark_and_sync-Covers :
        (auth : NodeAuth) (payload : Report) (now received_at : Time) (print : Text) (db : Tables)
        → IsValidReport p now payload
        → IsSynced db
        → lock_node auth.node_id db.nodes ≡ some print
        → Covers auth.node_id payload.inventory
            (mark_and_sync net new auth payload received_at print db).resources
    unfolding mark_and_sync
    mark_and_sync-Covers auth payload now received_at print db v s e =
        elim (Bool-cases (text_eq print payload.inventory_fingerprint)) [
          | inl h ↦ rw h (
              s auth.node_id print payload.inventory e
                (v.fingerprint ∙ ap some (sym ((text_eq_iff _ _).0 h))))
          | inr h ↦ rw h (
              sync_inventory-Covers net new p.is_cidr auth.node_id payload.inventory received_at
                db.resources v.inventory)
        ]

    mark_and_sync-Covers_other :
        (auth : NodeAuth) (payload : Report) (received_at : Time) (print other : Text)
        (inventory : Inventory) (db : Tables)
        → other ≢ auth.node_id
        → Covers other inventory db.resources
        → Covers other inventory (mark_and_sync net new auth payload received_at print db).resources
    unfolding mark_and_sync
    mark_and_sync-Covers_other auth payload received_at print other inventory db d c =
        elim (Bool-cases (text_eq print payload.inventory_fingerprint)) [
          | inl h ↦ rw h c
          | inr h ↦ rw h (
              sync_inventory-Covers_other net new auth.node_id other payload.inventory inventory
                received_at db.resources d c)
        ]

    mark_and_sync-IsSynced :
        (auth : NodeAuth) (payload : Report) (now received_at : Time) (print : Text) (db : Tables)
        → IsValidReport p now payload
        → IsSynced db
        → lock_node auth.node_id db.nodes ≡ some print
        → IsSynced (mark_and_sync net new auth payload received_at print db)
    unfolding mark_and_sync
    mark_and_sync-IsSynced auth payload now received_at print db v s e id found inventory l k =
        elim (Bool-cases (text_eq id auth.node_id)) [
          | inl h ↦
              let q = (text_eq_iff id auth.node_id).0 h in
              let new_print =
                lock_node-update_node auth.node_id payload received_at db.nodes print e in
              let same = sym (rw q at l) ∙ new_print in
              rw q (
                Covers-of_fingerprint p f inventory payload.inventory found auth.node_id _ k
                  (v.fingerprint ∙ sym same)
                  (mark_and_sync-Covers auth payload now received_at print db v s e))
          | inr h ↦
              let d : id ≢ auth.node_id = λ q. ground (arith, text_eq_iff id auth.node_id, h, q) in
              let before =
                lock_node-update_node_other auth.node_id id payload received_at db.nodes d in
              mark_and_sync-Covers_other auth payload received_at print id inventory db d
                (s id found inventory (sym before ∙ l) k)
        ]

    -- The tables of a report that is stored.
    record IsIngested (auth : NodeAuth) (payload : Report) (received_at : Time) (out : Tables)
        : Type 0 where
      synced : IsSynced out
      marked : lock_node auth.node_id out.nodes ≡ some payload.inventory_fingerprint
      exact :
          find_sample (report_stamp auth payload received_at) out.node_samples
          ≡ some (exact_sample (report_stamp auth payload received_at) payload)

    -- From synced tables an accepted report is stored where all calls succeed, and leaves synced tables.
    ingest-Outcome :
        (accepts : Statement → Bool) (auth : NodeAuth) (payload : Report) (now received_at : Time)
        (print : Text) (db : Tables)
        → IsValidReport p now payload
        → IsSynced db
        → lock_node auth.node_id db.nodes ≡ some print
        → Outcome accepts
            (IsIngested auth payload received_at)
            (ingest net new accepts auth payload received_at db)
    unfolding ingest mark_and_sync report_stamp node_sample
    ingest-Outcome accepts auth payload now received_at print db v s e =
        let stamp = report_stamp auth payload received_at in
        let marked = mark_and_sync net new auth payload received_at print db in
        let samples =
          store_samples-Outcome accepts stamp payload marked v.metrics
            (mark_and_sync-Covers auth payload now received_at print db v s e) in
        let synced = mark_and_sync-IsSynced auth payload now received_at print db v s e in
        rw (e, ingest)
          (execute_each-Outcome accepts (IsIngested auth payload received_at)
            (encode_labels ∷ begin_transaction ∷ lock_reporting_node ∷ []) _
            (execute_each-Outcome accepts (IsIngested auth payload received_at)
              (statements net new payload print) _
              (and_then-Outcome accepts (IsStored stamp payload marked)
                (IsIngested auth payload received_at) _ _ samples
                (λ out o.
                  execute-Outcome accepts (IsIngested auth payload received_at) commit (stored out)
                    (inr (
                      out,
                      refl,
                      record {
                        synced = λ id found inventory l k.
                            rw o.resources (synced id found inventory (rw o.nodes at l) k);
                        marked = rw o.nodes (
                            lock_node-update_node auth.node_id payload received_at db.nodes print
                              e);
                        exact =
                            rw (o.samples, sym (node_sample-exact stamp payload v.metrics))
                              (find_sample-upsert_node_sample (node_sample stamp payload)
                                marked.node_samples);
                      },
                    ))))))

    -- The node of a stored report is there.
    ingest-known :
        (accepts : Statement → Bool) (auth : NodeAuth) (payload : Report) (received_at : Time)
        (db out : Tables)
        → ingest net new accepts auth payload received_at db ≡ stored out
        → (print : Text) × (lock_node auth.node_id db.nodes ≡ some print)
    unfolding ingest
    ingest-known accepts auth payload received_at db out h =
        elim (Option-cases (lock_node auth.node_id db.nodes)) [
          | inl e ↦
              let refused =
                execute_each-stored accepts
                  (encode_labels ∷ begin_transaction ∷ lock_reporting_node ∷ [])
                  (failed node_not_found) out (rw (e, ingest) at h) in
              absurd (ground (arith, refused))
          | inr found ↦ found
        ]

    -- Where fingerprints tell the keys of inventories, accepted reports lead to tables where the active
    -- resources of each node cover every inventory with its stored fingerprint.
    pub Reachable-Covers :
        (db : Tables)
        → Reachable db
        → (id print : Text) (inventory : Inventory) → lock_node id db.nodes ≡ some print
        → inventory_fingerprint p inventory ≡ some print
        → Covers id inventory db.resources
    Reachable-Covers db (start empty) = λ id print inventory l k.
        absurd (fingerprint-filled p f inventory print k (empty id print l))
    Reachable-Covers out (report {db = db} r accepts auth payload now received_at h e) =
        let v = (validate_iff p now payload).0 h in
        let (print, l) = ingest-known accepts auth payload received_at db out e in
        elim (ingest-Outcome accepts auth payload now received_at print db v (Reachable-Covers db r)
          l) [
            | inl (s, _, q) ↦ absurd (ground (arith, e, q))
            | inr (reached, done, i) ↦ let same : reached ≡ out = cc in rw same at i.synced
          ]

    pub ingest_total :
        (db : Tables) (accepts : Statement → Bool) (auth : NodeAuth) (payload : Report)
        (now received_at : Time) (print : Text)
        → Reachable db
        → (validate p now payload).0 ≡ none
        → lock_node auth.node_id db.nodes ≡ some print
        → ((s : Statement) × (accepts s ≡ false)
            × (ingest net new accepts auth payload received_at db ≡ failed (statement_failed s)))
          ⊎ ((out : Tables) × (ingest net new accepts auth payload received_at db ≡ stored out)
              × (lock_node auth.node_id out.nodes ≡ some payload.inventory_fingerprint)
              × (find_sample (report_stamp auth payload received_at) out.node_samples
                  ≡ some (exact_sample (report_stamp auth payload received_at) payload)))
    ingest_total db accepts auth payload now received_at print r h l =
        let v = (validate_iff p now payload).0 h in
        elim (ingest-Outcome accepts auth payload now received_at print db v (Reachable-Covers db r)
          l) [ inl refused ↦ inl refused | inr (out, done, i) ↦ inr (out, done, i.marked, i.exact) ]
