-- ===== src/Tasks/Fencing/Requeued.antt =====
-- What retry_task of runtime_protocol/service.py does to the task that it retries.
use banodoco_workspace_runti.Base.{
  ℕ, ◌+◌, ◌≡◌, refl, Bool, true, false, not, Option, none, some, ok, conflict, not_found, arith,
  or_raise-eq-ok, >>=-eq-ok, require, Each-ok,
}
use banodoco_workspace_runti.Tasks.Rows.{Task, queued, is_terminal, is_provider_unknown}
use banodoco_workspace_runti.Tasks.Realm.{
  Realm, World, task_retried, task_at, update_task, update_run, append_event, current_runtime_epoch,
}
use banodoco_workspace_runti.Tasks.Bindings.{release_reservations, reset_execution_attempt}
use banodoco_workspace_runti.Tasks.Continuations.{refresh_continuations_for_predecessor}
use banodoco_workspace_runti.Tasks.Runs.{assert_delegated_retry_capacity, set_retried}
use banodoco_workspace_runti.Tasks.Retry.{is_version, retry_task}
use banodoco_workspace_runti.Tasks.Follows.Steady.{refresh_continuations-Holds}
use banodoco_workspace_runti.Tasks.Follows.Waiting.{own_id}
use banodoco_workspace_runti.Tasks.Fencing.Settled.{updated_row}

-- The row waits in the queue for a new attempt, with the counters of `t`.
pub record Requeued (t u : Task) : Type 0 where
  pub status : u.status ≡ queued
  pub result : u.result ≡ none
  pub lease_token : u.lease_token ≡ none
  pub executor_id : u.executor_id ≡ none
  pub lease_expires_at : u.lease_expires_at ≡ none
  pub attempt_id : u.attempt_id ≡ none
  pub lease_fence : u.lease_fence ≡ t.lease_fence
  pub attempt : u.attempt ≡ t.attempt

guarded : (b : Bool) → require b conflict ≡ ok tt → b ≡ true
guarded true h = refl
guarded false h = cc

module _ (w : World) (now : ℕ) where
  requeued_row :
      (t : Task) (id : ℕ) (db : Realm)
      → task_at db id ≡ some t
      → task_at
          (append_event w now t.run_id (some id) (task_retried (t.attempt + 1)) (
            update_run t.run_id
              (λ r. record r { status = queued; updated_at = now })
              (reset_execution_attempt
                (current_runtime_epoch db)
                id
                (update_task id (set_retried now) (release_reservations now id t.lease_token db)))))
          id
        ≡ some (set_retried now t)
  unfolding append_event update_run reset_execution_attempt release_reservations update_task task_at
  requeued_row t id db e = updated_row db id (set_retried now) t (λ u. refl) e (own_id db id t e)

  -- A retry_task that is accepted found the task completed, failed or cancelled, no provider's state
  -- unknown, no remote drain, and the expected version one more than its attempt number, if one was
  -- given. It leaves the task queued, without a result, a lease, an executor or an attempt, under the
  -- fence and the attempt number that it had.
  pub retry_task-Requeued :
      (drained : Bool) (id : ℕ) (expected : Option ℕ) (a b : Realm)
      → retry_task w now drained id expected a ≡ ok b
      → (t : Task) × (u : Task) × (task_at a id ≡ some t)
        × (is_terminal t.status ≡ true)
        × (is_provider_unknown t.waiting_reason ≡ false)
        × (drained ≡ false)
        × ((version : ℕ) → expected ≡ some version → version ≡ t.attempt + 1)
        × (task_at b id ≡ some u)
        × Requeued t u
  unfolding retry_task
  retry_task-Requeued drained id expected a b h =
      let (t, found, h) = or_raise-eq-ok (task_at a id) not_found _ h in
      let (_, g1, h) = >>=-eq-ok (require (not drained) conflict) _ h in
      let (_, g2, h) =
        >>=-eq-ok (require (not (is_provider_unknown t.waiting_reason)) conflict) _ h in
      let (_, g3, h) = >>=-eq-ok (require (is_terminal t.status) conflict) _ h in
      let (_, g4, h) = >>=-eq-ok (require (is_version expected (t.attempt + 1)) conflict) _ h in
      let (_, _, h) = >>=-eq-ok (assert_delegated_retry_capacity now a id) _ h in
      let start = set_retried now t in
      let (u, row, requeued) =
        Each-ok _ (refresh_continuations_for_predecessor w now id _)
          (refresh_continuations-Holds id (Requeued t)
            (λ u s r n k. record {
              status = k.status;
              result = k.result;
              lease_token = k.lease_token;
              executor_id = k.executor_id;
              lease_expires_at = k.lease_expires_at;
              attempt_id = k.attempt_id;
              lease_fence = k.lease_fence;
              attempt = k.attempt;
            })
            w now id _
            (
              start,
              requeued_row t id a found,
              record {
                status = refl;
                result = refl;
                lease_token = refl;
                executor_id = refl;
                lease_expires_at = refl;
                attempt_id = refl;
                lease_fence = refl;
                attempt = refl;
              },
            ))
          h in
      (
        t,
        u,
        found,
        guarded (is_terminal t.status) g3,
        (let k = guarded (not (is_provider_unknown t.waiting_reason)) g2 in ground (arith, k)),
        (let k = guarded (not drained) g1 in ground (arith, k)),
        version_of expected (guarded (is_version expected (t.attempt + 1)) g4),
        row,
        requeued,
      )
    where
      version_of :
          {n : ℕ} (o : Option ℕ)
          → is_version o n ≡ true
          → (version : ℕ) → o ≡ some version
          → version ≡ n
      version_of none k version e = cc
      version_of (some x) k version e = let same : x ≡ version = cc in ground arith
