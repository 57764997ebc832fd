-- ===== src/Tasks/Retry.antt =====
-- runtime_protocol/service.py: retry_task, which puts a task that has ended back into the queue. Its
-- replay by idempotency key is the command ledger's (Service.Ledger).
use banodoco_workspace_runti.Base.{
  ℕ, ◌+◌, Bool, true, not, Option, none, some, ◌==◌, Result, conflict, not_found, ◌>>=◌, ◌>>◌,
  require, or_raise,
}
use banodoco_workspace_runti.Tasks.Rows.{queued, is_terminal, is_provider_unknown}
use banodoco_workspace_runti.Tasks.Realm.{
  Realm, World, task_retried, task_at, update_task, update_run, append_event, current_runtime_epoch,
}
use banodoco_workspace_runti.Tasks.Bindings.{release_reservations, reset_execution_attempt}
use banodoco_workspace_runti.Tasks.Continuations.{refresh_continuations_for_predecessor}
use banodoco_workspace_runti.Tasks.Runs.{assert_delegated_retry_capacity, set_retried}

-- expected_version, where the request gives one
abbrev pub is_version : Option ℕ → ℕ → Bool
is_version none version = true
is_version (some expected) version = expected == version

module _ (w : World) (now : ℕ) where
  -- retry_task, for a request that is no replay. `drained` tells whether a remote drain of the task's
  -- owner is recorded (_task_drain).
  unfoldable pub retry_task :
      (drained : Bool) → (id : ℕ) → (expected : Option ℕ) → Realm → Result Realm
  unfolding assert_delegated_retry_capacity
  retry_task drained id expected db = do
    t ← or_raise (task_at db id) not_found
    require (not drained) conflict
    require (not (is_provider_unknown t.waiting_reason)) conflict
    require (is_terminal t.status) conflict
    require (is_version expected (t.attempt + 1)) conflict
    assert_delegated_retry_capacity now db id
    let freed = release_reservations now id t.lease_token db
    let retried =
        reset_execution_attempt (current_runtime_epoch db) id
          (update_task id (set_retried now) freed)
    let requeued = update_run t.run_id (λ r. record r { status = queued; updated_at = now }) retried
    refresh_continuations_for_predecessor w now id
        (append_event w now t.run_id (some id) (task_retried (t.attempt + 1)) requeued)
