-- ===== src/Tasks/Follows/Settling.antt =====
-- The commands of a lease holder keep `Follows`: they run only on a running task.
use banodoco_workspace_runti.Base.{
  ℕ, ◌*◌, ◌+◌, ◌≡◌, refl, true, false, Option, none, some, arith, ltb, ok, Each, Each-bind,
  Each-step, Each-require, Each-or_raise, validation,
}
use banodoco_workspace_runti.Tasks.Rows.{
  Task, TaskResult, Status, is_running, released, Deadline, at,
}
use banodoco_workspace_runti.Tasks.Realm.{
  Realm, World, update_task, task_at, update_task, task_completed, task_failed,
}
use banodoco_workspace_runti.Tasks.Continuations.{project_of, refresh_continuations_for_predecessor}
use banodoco_workspace_runti.Tasks.Cancel.{delegated_children}
use banodoco_workspace_runti.Tasks.Settle.{
  assert_lease, settle_attempt_row, set_completed, set_failed, extend_lease, heartbeat_task,
  assert_effect, is_scoped, children_completed, complete, settle_attempt, fail_writes, fail_task,
}
use banodoco_workspace_runti.Tasks.Exclusive.{Tames, Exclusive-update}
use banodoco_workspace_runti.Tasks.Follows.{Follows, Follows-refl, is_final}
use banodoco_workspace_runti.Tasks.Follows.Writes.{
  Follows-append_event, Follows-update_run, Follows-release_reservations,
  Follows-release_execution_attempt,
}
use banodoco_workspace_runti.Tasks.Follows.Waiting.{
  self_found, Each-trans, refresh_continuations-Follows,
}
use banodoco_workspace_runti.Tasks.Follows.Cancelling.{Follows-rewrite}
use banodoco_workspace_runti.Tasks.Follows.Reaping.{contains, found_not_final}

running_not_final : (s : Status) → is_running s ≡ true → is_final s ≡ false
running_not_final s e = ground arith

-- The guards pass only for a running task.
pub assert_lease-running :
    (now : ℕ) (t : Task) (token : ℕ) (fence : Option ℕ)
    → assert_lease now t token fence ≡ ok tt
    → is_running t.status ≡ true
unfolding assert_lease
assert_lease-running now t token fence e = ground arith

extend-Tames : (deadline : Deadline) → Tames (λ r. record r { lease_expires_at = deadline })
extend-Tames deadline = record {
  live = λ x e. e;
  executor = λ x. refl;
  key = λ x. refl;
  task = λ x. refl;
}

module _ {w : World} {a b : Realm} (h : Follows w a b) where
  Follows-settle_attempt_row : (attempt : Option ℕ) → Follows w a (settle_attempt_row attempt b)
  unfolding settle_attempt_row task_at
  Follows-settle_attempt_row none = h
  Follows-settle_attempt_row (some x) = record {
    tasks = h.tasks;
    ids = h.ids;
    events = h.events;
    exclusive = h.exclusive;
    epoch = h.epoch;
    checkpoints = h.checkpoints;
  }

module _ (w : World) (now : ℕ) where
  -- `task` is the row that the command found in `a`.
  module _ {a : Realm} (task : Task)
      (unfinished : (t : Task) → task_at a task.id ≡ some t → is_final t.status ≡ false) where
    complete-Follows :
        {b : Realm} (token attempt : ℕ) (result : TaskResult)
        → Follows w a b
        → Each (Follows w a) (complete w now task token attempt result b)
    unfolding complete
    complete-Follows token attempt result f =
        Each-trans
          (Follows-append_event
            (Follows-release_execution_attempt
              (Follows-release_reservations
                (Follows-settle_attempt_row
                  (Follows-update_run
                    (Follows-rewrite w f task.id (set_completed now result) (λ u. refl) (λ u. refl)
                      (λ u. refl) unfinished)
                    task.run_id _)
                  (some attempt))
                now task.id (some token))
              released task.id)
            now task.run_id (some task.id) (task_completed result))
          (refresh_continuations_for_predecessor w now task.id _)
          (refresh_continuations-Follows w now task.id _)

    fail_writes-Follows :
        {b : Realm} (token : ℕ) (attempt : Option ℕ) (failure : ℕ)
        → Follows w a b
        → Each (Follows w a) (fail_writes w now task token attempt failure b)
    unfolding fail_writes
    fail_writes-Follows token attempt failure f =
        Each-trans
          (Follows-append_event
            (Follows-release_execution_attempt
              (Follows-release_reservations
                (Follows-settle_attempt_row
                  (Follows-update_run
                    (Follows-rewrite w f task.id (set_failed now) (λ u. refl) (λ u. refl)
                      (λ u. refl) unfinished)
                    task.run_id _)
                  attempt)
                now task.id (some token))
              released task.id)
            now task.run_id (some task.id) (task_failed failure))
          (refresh_continuations_for_predecessor w now task.id _)
          (refresh_continuations-Follows w now task.id _)

    extend_lease-Follows :
        {b : Realm} (token : ℕ) (deadline : Deadline)
        → Follows w a b
        → Follows w a (extend_lease w now task token deadline b)
    unfolding extend_lease task_at update_task
    extend_lease-Follows {b} token deadline f =
        let g =
          Follows-rewrite w f task.id
            (λ t. record t { lease_expires_at = some deadline; updated_at = now }) (λ u. refl)
            (λ u. refl) (λ u. refl) unfinished in
        record {
          tasks = g.tasks;
          ids = g.ids;
          events = g.events;
          exclusive =
              λ x. Exclusive-update _ (extend-Tames deadline) _ b.reservations (g.exclusive x);
          epoch = g.epoch;
          checkpoints = g.checkpoints;
        }

  unfinished_lease :
      (db : Realm) (id : ℕ) (task : Task) (token : ℕ) (fence : Option ℕ)
      → task_at db id ≡ some task
      → assert_lease now task token fence ≡ ok tt
      → (t : Task) → task_at db task.id ≡ some t
      → is_final t.status ≡ false
  unfinished_lease db id task token fence e g =
      found_not_final db task.id task (self_found db id task e)
        (running_not_final task.status (assert_lease-running now task token fence g))

  pub settle_attempt-Follows :
      (id token : ℕ) (fence : Option ℕ) (attempt : ℕ) (effect : Option ℕ) (result : TaskResult)
      (db : Realm)
      → Each (Follows w db) (settle_attempt w now id token fence attempt effect result db)
  unfolding settle_attempt
  settle_attempt-Follows id token fence attempt effect result db =
      Each-or_raise (Follows w db) (task_at db id) _ _ λ task e.
        Each-step (Follows w db) (assert_lease now task token fence) _ λ _ g.
          Each-step (Follows w db)
            (assert_effect w now task.expected_effect effect
              (is_scoped (project_of db task.run_id)))
            _
            λ _ _.
              Each-step (Follows w db)
                (children_completed w now db (delegated_children id (some attempt) db)) _
                λ _ _.
                  Each-step (Follows w db) (w.apply_effect now task effect result) _ λ stored _.
                    complete-Follows task (unfinished_lease db id task token fence e g) token
                      attempt stored (Follows-refl db)

  pub fail_task-Follows :
      (fuel id token : ℕ) (fence attempt : Option ℕ) (failure : ℕ) (db : Realm)
      → Each (Follows w db) (fail_task w now fuel id token fence attempt failure db)
  unfolding fail_task
  fail_task-Follows fuel id token fence attempt failure db =
      Each-or_raise (Follows w db) (task_at db id) _ _ λ task e.
        Each-step (Follows w db) (assert_lease now task token fence) _ λ _ g.
          Each-bind (Follows w db) (Follows w db) _ _ (contains w now fuel id attempt db) λ b _ f.
            fail_writes-Follows task (unfinished_lease db id task token fence e g) token attempt
              failure f

  pub heartbeat_task-Follows :
      (id token : ℕ) (fence : Option ℕ) (lease_seconds : ℕ) (db : Realm)
      → Each (Follows w db) (heartbeat_task w now id token fence lease_seconds db)
  unfolding heartbeat_task
  heartbeat_task-Follows id token fence lease_seconds db =
      Each-require (Follows w db) (ltb 0 lease_seconds) validation _ λ _.
        Each-or_raise (Follows w db) (task_at db id) _ _ λ task e.
          Each-step (Follows w db) (assert_lease now task token fence) _ λ _ g.
            extend_lease-Follows task (unfinished_lease db id task token fence e g) token
              (at (now + lease_seconds * 1000)) (Follows-refl db)
