-- ===== src/Tasks/Realm.antt =====
-- The realm database as far as the task lifecycle of runtime_protocol/store.py reads and writes it,
-- and what that code takes from outside: hashes, the clock's readings, free disk space, and the
-- outcome of checks on tables that are not modelled.
use banodoco_workspace_runti.Base.{
  ℕ, Bool, Option, none, some, List, ◌∷◌, first, update, ◌==◌, ◌&&◌, Result,
}
use banodoco_workspace_runti.Tasks.Rows.{
  Task, Run, Attempt, Reservation, Capability, Executor, Binding, Dependency, Admission, Checkpoint,
  Lifecycle, ResolvedChild, Spec, Policy, Status, TaskResult, Waiting, is_queued,
}

-- The kind of an event with the part of its payload that the model keeps.
pub data EventKind : Type 0 where
  task_claimed : (executor attempt fence : ℕ) → (resource_keys : List ℕ) → EventKind
  task_completed : TaskResult → EventKind
  task_failed : (failure : ℕ) → EventKind
  task_cancelled : EventKind
  task_cancel_requested : Option ℕ → Option Binding → EventKind
  task_lease_expired : Option ℕ → EventKind
  task_provider_state_unknown : Option ℕ → Option Binding → EventKind
  task_parent_contained : (parent : ℕ) → Option ℕ → Option Status → EventKind
  task_continuation_admitted : List ResolvedChild → List ℕ → EventKind
  task_runtime_recovered : (epoch : ℕ) → (stale_fence : ℕ) → Option ℕ → EventKind
  task_placement_recovered : (target : ℕ) → EventKind
  task_retried : (attempt : ℕ) → EventKind
  task_progress : (progress : ℕ) → EventKind
  task_execution_bound : (attempt lease_id fence epoch : ℕ) → EventKind
  run_cancelled : List ℕ → List ℕ → EventKind
  run_retried : List ℕ → EventKind

pub record Event : Type 0 where
  pub run_id : ℕ
  pub task_id : Option ℕ
  pub kind : EventKind
  pub previous_hash : Option ℕ
  pub event_hash : ℕ
  pub created_at : ℕ

-- Tables list their rows in the order in which the queries return them; events stand newest first.
pub record Realm : Type 0 where
  pub tasks : List Task
  pub runs : List Run
  pub attempts : List Attempt
  pub reservations : List Reservation
  pub capabilities : List Capability
  pub executors : List Executor
  pub bindings : List Binding
  pub dependencies : List Dependency
  pub admissions : List Admission
  pub checkpoints : List Checkpoint
  pub events : List Event
  pub lifecycle : Option Lifecycle

-- What the code takes from outside the modelled tables; a first argument ℕ is the time of the call.
pub record World : Type 0 where
  -- hashlib.sha256 over the canonical JSON of an event: run, task, kind, previous hash, time
  pub event_hash : ℕ → Option ℕ → EventKind → Option ℕ → ℕ → ℕ
  -- hashlib.sha256 over a delegation policy, and over an executor's source identity
  pub policy_digest : Option Policy → ℕ
  pub toolchain_digest : ℕ → ℕ → Option ℕ → ℕ
  -- hashlib.sha256 over a capability id
  pub capability_id_digest : ℕ → ℕ
  -- shutil.disk_usage(root).free, and the floor read from the environment
  pub free_disk : ℕ → ℕ
  pub disk_floor : Result ℕ
  -- _validate_task_inputs and _validate_spec_snapshot_refs, on the object tables
  pub validate_task_inputs : ℕ → Option ℕ → List ℕ → Result (Unit {0})
  pub validate_snapshot_refs : ℕ → Option ℕ → Spec → Result (Unit {0})
  -- whether the managed outputs of a settled child are verified and durable
  pub outputs_verified : ℕ → Task → Bool
  -- Settling with an effect checks it and writes the generation, object and managed output tables:
  -- the result that is then stored, with what was applied, or the exception.
  pub apply_effect : ℕ → Task → Option ℕ → TaskResult → Result TaskResult
  -- whether an effect's type is "generation.publish_v1"
  pub is_publish_v1 : ℕ → Bool
  -- the identity of the capability "rendering.render"
  pub render_capability : ℕ

unfoldable pub task_at : Realm → ℕ → Option Task
task_at db id = first (λ t. t.id == id) db.tasks

unfoldable pub run_at : Realm → ℕ → Option Run
run_at db id = first (λ r. r.id == id) db.runs

unfoldable pub binding_at : Realm → ℕ → Option Binding
binding_at db id = first (λ b. b.task_id == id) db.bindings

-- UPDATE tasks SET f WHERE id=?
unfoldable pub update_task : ℕ → (Task → Task) → Realm → Realm
update_task id f db = record db { tasks = update (λ t. t.id == id) f db.tasks }

-- UPDATE runs SET f WHERE id=?
unfoldable pub update_run : ℕ → (Run → Run) → Realm → Realm
update_run id f db = record db { runs = update (λ r. r.id == id) f db.runs }

unfoldable pub last_hash : ℕ → List Event → Option ℕ
last_hash run_id events = elim (first (λ e. e.run_id == run_id) events) [
  | none ↦ none
  | some e ↦ some e.event_hash
]

module _ (w : World) (now : ℕ) where
  -- _append_event
  unfoldable pub append_event : ℕ → Option ℕ → EventKind → Realm → Realm
  append_event run_id task_id kind db =
      let previous = last_hash run_id db.events in
      record db {
        events =
            record {
              run_id = run_id;
              task_id = task_id;
              kind = kind;
              previous_hash = previous;
              event_hash = w.event_hash run_id task_id kind previous now;
              created_at = now;
            }
            ∷ db.events;
      }

-- _set_waiting_reason
unfoldable pub set_waiting_reason : ℕ → ℕ → Option Waiting → Realm → Realm
set_waiting_reason now id reason db = record db {
  tasks =
      update (λ t. t.id == id && is_queued t.status)
        (λ t. record t { waiting_reason = reason; updated_at = now }) db.tasks;
}

-- _current_runtime_epoch
unfoldable pub current_runtime_epoch : Realm → ℕ
current_runtime_epoch db = elim db.lifecycle [ none ↦ 1 | some l ↦ l.runtime_epoch ]
