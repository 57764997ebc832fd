-- ===== src/Tasks/Settle.antt =====
-- runtime_protocol/store.py: the commands of a worker that holds a lease: heartbeat_task,
-- _settle_attempt and fail_task.
use banodoco_workspace_runti.Base.{
  ℕ, ◌+◌, ◌*◌, Bool, true, false, not, ◌&&◌, ◌||◌, Option, none, some, List, [], ◌∷◌, first, update,
  ltb, ◌==◌, Result, ok, err, conflict, lease, not_found, validation, ◌>>=◌, ◌>>◌, require,
  or_raise,
}
use banodoco_workspace_runti.Tasks.Rows.{
  Task, TaskResult, Attempt, Deadline, at, overdue, completed, failed, released, is_running,
  is_completed,
}
use banodoco_workspace_runti.Tasks.Realm.{
  Realm, World, task_completed, task_failed, task_at, update_task, update_run, append_event,
}
use banodoco_workspace_runti.Tasks.Bindings.{
  is_live, release_reservations, release_execution_attempt,
}
use banodoco_workspace_runti.Tasks.Continuations.{project_of, refresh_continuations_for_predecessor}
use banodoco_workspace_runti.Tasks.Cancel.{delegated_children, contain_with, cancel_task}

abbrev pub has_lease : Option ℕ → ℕ → Bool
has_lease none token = false
has_lease (some t) token = t == token

abbrev pub has_fence : Option ℕ → ℕ → Bool
has_fence none fence = true
has_fence (some f) fence = f == fence

abbrev pub in_time : ℕ → Option Deadline → Bool
in_time now none = true
in_time now (some d) = not (overdue now d)

-- The guards that all three commands open with.
unfoldable pub assert_lease : ℕ → Task → (token : ℕ) → (fence : Option ℕ) → Result (Unit {0})
assert_lease now t token fence = do
  require (is_running t.status && has_lease t.lease_token token) lease
  require (has_fence fence t.lease_fence) lease
  require (in_time now t.lease_expires_at) lease

abbrev pub set_completed : ℕ → TaskResult → Task → Task
set_completed now result t = record t {
  status = completed;
  result = some result;
  lease_expires_at = none;
  waiting_reason = none;
  updated_at = now;
}

-- result_json of a failure is {"error": …}, which has no outputs.
abbrev pub set_failed : ℕ → Task → Task
set_failed now t = record t {
  status = failed;
  result = some (record { outputs = none });
  lease_expires_at = none;
  waiting_reason = none;
  updated_at = now;
}

-- UPDATE attempts SET settled=1 WHERE id=? AND settled=0
unfoldable pub settle_attempt_row : Option ℕ → Realm → Realm
settle_attempt_row none db = db
settle_attempt_row (some attempt) db = record db {
  attempts =
      update (λ a. a.id == attempt && not a.settled) (λ a. record a { settled = true }) db.attempts;
}

abbrev is_id : Option ℕ → ℕ → Bool
is_id none b = false
is_id (some a) b = b == a

abbrev is_settled : Option Attempt → Bool
is_settled none = false
is_settled (some a) = a.settled

abbrev pub is_scoped : Option ℕ → Bool
is_scoped none = false
is_scoped (some p) = true

module _ (w : World) (now : ℕ) where
  -- The writes of heartbeat_task.
  unfoldable pub extend_lease : Task → (token : ℕ) → Deadline → Realm → Realm
  extend_lease task token deadline db =
      let extended =
        update_task task.id (λ t. record t { lease_expires_at = some deadline; updated_at = now })
          db in
      record extended {
        reservations =
            update (λ r. r.task_id == task.id && (r.lease_token == token && is_live r))
              (λ r. record r { lease_expires_at = deadline }) extended.reservations;
        executors =
            update (λ e. is_id task.executor_id e.id) (λ e. record e { last_seen_at = some now })
              extended.executors;
      }

  -- heartbeat_task
  unfoldable pub heartbeat_task :
      (id token : ℕ) (fence : Option ℕ) (lease_seconds : ℕ) → Realm → Result Realm
  unfolding extend_lease assert_lease
  heartbeat_task id token fence lease_seconds db = do
    require (ltb 0 lease_seconds) validation
    task ← or_raise (task_at db id) not_found
    assert_lease now task token fence
    ok (extend_lease task token (at (now + lease_seconds * 1000)) db)

  -- The loop of assert_delegated_children_completed.
  unfoldable pub children_completed : Realm → List Task → Result (Unit {0})
  children_completed db [] = ok tt
  children_completed db (c ∷ cs) = do
    require (is_completed c.status) conflict
    require (is_settled (first (λ a. is_id c.attempt_id a.id && a.task_id == c.id) db.attempts))
        conflict
    require (w.outputs_verified now c) conflict
    children_completed db cs

  -- The declared effect and the given one must be the same.
  unfoldable pub assert_effect : Option ℕ → Option ℕ → Bool → Result (Unit {0})
  assert_effect none none in_project = ok tt
  assert_effect none (some effect) in_project = err validation
  assert_effect (some declared) none in_project = err validation
  assert_effect (some declared) (some effect) in_project = do
    require (declared == effect) validation
    require (not (w.is_publish_v1 effect) || in_project) conflict

  -- The writes of a settlement once its checks have passed.
  unfoldable pub completed_realm : Task → (token attempt : ℕ) → TaskResult → Realm → Realm
  unfolding settle_attempt_row
  completed_realm task token attempt result db =
      append_event w now task.run_id (some task.id) (task_completed result) (
        release_execution_attempt released task.id (
          release_reservations now task.id (some token) (
            settle_attempt_row (some attempt) (
              update_run task.run_id (λ r. record r { status = completed; updated_at = now })
                (update_task task.id (set_completed now result) db)))))

  unfoldable pub complete : Task → (token attempt : ℕ) → TaskResult → Realm → Result Realm
  unfolding completed_realm
  complete task token attempt result db =
      refresh_continuations_for_predecessor w now task.id
        (completed_realm task token attempt result db)

  -- _settle_attempt
  unfoldable pub settle_attempt :
      (id token : ℕ) (fence : Option ℕ) (attempt : ℕ) (effect : Option ℕ)
      → TaskResult
      → Realm
      → Result Realm
  unfolding complete children_completed assert_effect assert_lease
  settle_attempt id token fence attempt effect result db = do
    task ← or_raise (task_at db id) not_found
    assert_lease now task token fence
    assert_effect task.expected_effect effect (is_scoped (project_of db task.run_id))
    children_completed db (delegated_children id (some attempt) db)
    stored ← w.apply_effect now task effect result
    complete task token attempt stored db

  -- The writes of fail_task after its children are contained.
  unfoldable pub fail_writes : Task → (token : ℕ) → Option ℕ → (failure : ℕ) → Realm → Result Realm
  unfolding settle_attempt_row
  fail_writes task token attempt failure db = refresh_continuations_for_predecessor w now task.id (
      append_event w now task.run_id (some task.id) (task_failed failure) (
        release_execution_attempt released task.id (
          release_reservations now task.id (some token) (
            settle_attempt_row attempt (
              update_run task.run_id (λ r. record r { status = failed; updated_at = now })
                (update_task task.id (set_failed now) db))))))

  -- fail_task
  unfoldable pub fail_task :
      (fuel id token : ℕ) (fence attempt : Option ℕ) (failure : ℕ) → Realm → Result Realm
  unfolding fail_writes assert_lease
  fail_task fuel id token fence attempt failure db = do
    task ← or_raise (task_at db id) not_found
    assert_lease now task token fence
    contained ← contain_with w now (cancel_task w now fuel) id attempt db
    fail_writes task token attempt failure contained
