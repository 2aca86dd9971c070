-- ===== src/Store/Transaction.antt =====
-- The transaction of Ingest of internal/store/ingest.go: the calls that may fail, the errors, and the
-- loop of the insertions.
use server_status.Base.{
  Bool, false, List, [], ◌∷◌, ◌++◌, none, some, if◌then◌else◌, ◌≡◌, ◌⊎◌, inl, inr, refl, arith,
  Bool-cases,
}
use server_status.Base.Dict.{get}
use server_status.Base.Text.{Text}

-- The calls of Ingest that return an error, in their order. A sync function is one of them: it fails
-- where one of its statements does. An insertion has the key of its metric.
pub data Statement : Type 0 where
  encode_labels begin_transaction lock_reporting_node : Statement
  update_reporting_node update_token_usage : Statement
  sync_cpu sync_memory sync_disks sync_mounts sync_network sync_graphics : Statement
  read_filesystems read_interfaces read_gpus read_block_devices : Statement
  upsert_sample : Statement
  delete_filesystem_samples delete_network_samples delete_gpu_samples : Statement
  insert_filesystem insert_interface insert_gpu : Text → Statement
  check_temperatures delete_temperatures : Statement
  insert_temperature : Text → Statement
  check_storage_health delete_storage_health : Statement
  insert_storage_health : Text → Statement
  commit : Statement

-- A node that is not there, ErrInvalidResource with the key, or a call that fails.
pub data IngestError : Type 0 where
  node_not_found : IngestError
  invalid_filesystem : Text → IngestError
  invalid_interface : Text → IngestError
  invalid_gpu : Text → IngestError
  invalid_block_device : Text → IngestError
  statement_failed : Statement → IngestError

-- A step of a transaction: an error, or what it leaves.
pub data Result {ℓ} (A : Type ℓ) : Type ℓ where
  failed : IngestError → Result A
  stored : A → Result A

abbrev pub and_then {ℓ} : {A B : Type ℓ} → Result A → (A → Result B) → Result B
and_then (failed e) next = failed e
and_then (stored a) next = next a

-- `accepts` says which calls succeed.
module _ (accepts : Statement → Bool) where
  unfoldable pub execute : {A : Type 0} → Statement → Result A → Result A
  execute s next = if accepts s then next else failed (statement_failed s)

  unfoldable pub execute_each : {A : Type 0} → List Statement → Result A → Result A
  unfolding execute
  execute_each [] next = next
  execute_each (s ∷ rest) next = execute s (execute_each rest next)

  -- The loop that inserts a row for each metric, under the identifier of its resource.
  module _ {M V R : Type 0} (key : M → Text) (unknown : Text → IngestError)
      (insertion : Text → Statement) (row : V → M → R) where
    unfoldable pub insert_each : List (Text × V) → List M → List R → Result (List R)
    unfolding execute
    insert_each ids [] rows = stored rows
    insert_each ids (metric ∷ metrics) rows = elim (get (key metric) ids) [
      | none ↦ failed (unknown (key metric))
      | some v ↦
          execute (insertion (key metric)) (insert_each ids metrics (rows ++ (row v metric ∷ [])))
    ]

  -- A step fails by a call that is not accepted, or leaves what `P` says.
  abbrev pub Outcome : {A : Type 0} → (A → Type 0) → Result A → Type 0
  Outcome {A} P m =
      ((s : Statement) × (accepts s ≡ false) × (m ≡ failed (statement_failed s)))
      ⊎ ((out : A) × (m ≡ stored out) × P out)

  module _ {A : Type 0} (P : A → Type 0) where
    pub execute-Outcome : (s : Statement) (m : Result A) → Outcome P m → Outcome P (execute s m)
    unfolding execute
    execute-Outcome s m h = elim (Bool-cases (accepts s)) [
      | inl t ↦ rw t h
      | inr t ↦ inl (s, t, rw t refl)
    ]

    pub execute_each-Outcome :
        (rest : List Statement) (m : Result A) → Outcome P m → Outcome P (execute_each rest m)
    unfolding execute_each
    execute_each-Outcome [] m h = h
    execute_each-Outcome (s ∷ rest) m h =
        execute-Outcome s (execute_each rest m) (execute_each-Outcome rest m h)

  pub and_then-Outcome :
      {A B : Type 0} (P : A → Type 0) (Q : B → Type 0) (m : Result A) (next : A → Result B)
      → Outcome P m
      → ((a : A) → P a → Outcome Q (next a))
      → Outcome Q (and_then m next)
  and_then-Outcome P Q m next (inl (s, h, e)) k = inl (s, h, rw e refl)
  and_then-Outcome P Q m next (inr (a, e, p)) k = rw e (k a p)

  execute-stored :
      {A : Type 0} (s : Statement) (m : Result A) (out : A)
      → execute s m ≡ stored out
      → m ≡ stored out
  unfolding execute
  execute-stored s m out h = elim (Bool-cases (accepts s)) [
    | inl t ↦ rw t at h
    | inr t ↦ absurd (ground (arith, rw t at h))
  ]

  -- Where a transaction succeeds, what it does behind the first calls does.
  pub execute_each-stored :
      {A : Type 0} (rest : List Statement) (m : Result A) (out : A)
      → execute_each rest m ≡ stored out
      → m ≡ stored out
  unfolding execute_each
  execute_each-stored [] m out h = h
  execute_each-stored (s ∷ rest) m out h =
      execute_each-stored rest m out (execute-stored s (execute_each rest m) out h)
