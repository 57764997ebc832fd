-- ===== src/Tasks/Session.antt =====
-- runtime_protocol/store.py: begin_runtime_session. A boot advances the epoch and recovers the tasks
-- that an older boot left running.
use banodoco_workspace_runti.Base.{
  ℕ, ◌+◌, max, Bool, true, false, not, ◌&&◌, Option, none, some, List, [], ◌∷◌, select, update,
  count, ◌==◌, if◌then◌else◌, Result, ok, validation, ◌>>=◌, or_raise,
}
use banodoco_workspace_runti.Tasks.Rows.{
  Task, Lifecycle, CheckpointState, recovered, Status, queued, cancel_requested, stale,
  provider_state_unknown, runtime_recovery, is_active, is_running, is_cancel_requested,
}
use banodoco_workspace_runti.Tasks.Realm.{
  Realm, World, task_runtime_recovered, task_at, binding_at, update_task, append_event,
}
use banodoco_workspace_runti.Tasks.Bindings.{
  is_prepared, release_reservations, unresolved_external, reset_execution_attempt,
  release_execution_attempt,
}
use banodoco_workspace_runti.Tasks.Cancel.{contain_with, reconcile_with, reconciled_id, cancel_task}
use banodoco_workspace_runti.Tasks.Reap.{requeue_run}

abbrev pub or_zero : Option ℕ → ℕ
or_zero none = 0
or_zero (some n) = n

abbrev pub epoch_of : Option Lifecycle → ℕ
epoch_of none = 0
epoch_of (some l) = l.runtime_epoch

abbrev boot_of : Option Lifecycle → Option ℕ
boot_of none = none
boot_of (some l) = some l.boot_id

-- max(previous_epoch, int(epoch_floor or 0)) + 1
abbrev pub next_epoch : Realm → Option ℕ → ℕ
next_epoch db floor = max (epoch_of db.lifecycle) (or_zero floor) + 1

-- The row of runtime_lifecycle, and the prepared bindings brought to the new boot.
unfoldable pub open_session : (boot epoch : ℕ) → Realm → Realm
open_session boot epoch db = record db {
  lifecycle = some (record {
    runtime_epoch = epoch;
    boot_id = boot;
    previous_boot_id = boot_of db.lifecycle;
    recovered_task_count = 0;
  });
  bindings =
      update (λ b. is_prepared b.status)
        (λ b. record b { session_id = some boot; runtime_epoch = epoch }) db.bindings;
}

abbrev next_status : Status → Status
next_status s = if is_cancel_requested s then cancel_requested else queued

abbrev pub is_resumable : CheckpointState → Bool
is_resumable CheckpointState.durable = true
is_resumable CheckpointState.reboot_requested = true
is_resumable _ = false

-- The checkpoints of the boot that ended become eligible for a resume.
unfoldable pub recover_checkpoints : (previous : ℕ) → Realm → Realm
recover_checkpoints previous db = record db {
  checkpoints =
      if previous == 0
      then db.checkpoints
      else update (λ c. c.runtime_epoch == previous && is_resumable c.state)
          (λ c. record c { state = recovered }) db.checkpoints;
}

abbrev pub recounted : ℕ → Option Lifecycle → Option Lifecycle
recounted n none = none
recounted n (some l) = some (record l { recovered_task_count = n })

unfoldable pub set_recovered_count : ℕ → Realm → Realm
set_recovered_count n db = record db { lifecycle = recounted n db.lifecycle }

module _ (w : World) (now fuel epoch : ℕ) where
  -- An external attempt keeps its placement, its fence and its reservations.
  unfoldable pub park_external : Task → Status → Realm → Realm
  park_external task latest db =
      append_event w now task.run_id (some task.id)
        (task_runtime_recovered epoch task.lease_fence task.attempt_id)
        (release_execution_attempt stale task.id (
          requeue_run now task.run_id (
            update_task task.id
              (λ t. record t {
                status = next_status latest;
                lease_expires_at = none;
                waiting_reason = some provider_state_unknown;
                updated_at = now;
              })
              db)))

  abbrev pub set_recovered : Task → Task
  set_recovered t = record t {
    status = queued;
    executor_id = none;
    lease_token = none;
    lease_expires_at = none;
    attempt_id = none;
    waiting_reason = some runtime_recovery;
    updated_at = now;
  }

  -- Any other attempt is reconciled, and its task returns to the queue.
  unfoldable pub recover_owned : Task → Realm → Result Realm
  recover_owned task db = do
    reconciled ← reconcile_with w now (cancel_task w now fuel) task.id task.attempt_id db
    let requeued = record reconciled {
      tasks = update (λ t. t.id == task.id && is_running t.status) set_recovered reconciled.tasks;
    }
    ok (
        append_event w now task.run_id (some task.id)
          (task_runtime_recovered epoch task.lease_fence
            (reconciled_id reconciled task.id task.attempt_id))
          (reset_execution_attempt epoch task.id (
            release_reservations now task.id task.lease_token
              (requeue_run now task.run_id requeued))))

  -- One round of the loop over the interrupted tasks.
  unfoldable pub recover_task : Task → Realm → Result Realm
  unfolding park_external recover_owned
  recover_task task db = elim (task_at db task.id) [
    | none ↦ ok db
    | some latest ↦ if not (is_active latest.status) then ok db else (do
      contained ← contain_with w now (cancel_task w now fuel) task.id task.attempt_id db
      if unresolved_external (binding_at contained task.id)
          then ok (park_external task latest.status contained)
          else recover_owned task contained)
  ]

  unfoldable pub recover_tasks : List Task → Realm → Result Realm
  unfolding recover_task
  recover_tasks [] db = ok db
  recover_tasks (t ∷ ts) db = do db' ← recover_task t db; recover_tasks ts db'

module _ (w : World) (now fuel : ℕ) where
  -- begin_runtime_session; an epoch floor that is no natural number is refused before it gets here
  unfoldable pub begin_runtime_session : (boot_id floor : Option ℕ) → Realm → Result Realm
  unfolding recover_tasks open_session recover_checkpoints set_recovered_count
  begin_runtime_session boot_id floor db = do
    boot ← or_raise boot_id validation
    let epoch = next_epoch db floor
    let opened = open_session boot epoch db
    let interrupted = select (λ t. is_active t.status) opened.tasks
    done ← recover_tasks w now fuel epoch interrupted opened
    ok (
        set_recovered_count (count (λ t. true) interrupted)
          (recover_checkpoints (epoch_of db.lifecycle) done))
