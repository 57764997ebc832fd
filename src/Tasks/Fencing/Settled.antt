-- ===== src/Tasks/Fencing/Settled.antt =====
-- _settle_attempt of runtime_protocol/store.py takes effect once.
use banodoco_workspace_runti.Base.{
  ℕ, ◌≡◌, refl, ap, true, none, subst, Option, some, ◌==◌, first-update, arith, ok, not_found,
  or_raise-eq-ok, >>=-eq-ok, Each-ok,
}
use banodoco_workspace_runti.Tasks.Rows.{Task, TaskResult, completed, is_running}
use banodoco_workspace_runti.Tasks.Realm.{
  Realm, World, task_at, update_task, update_run, append_event,
}
use banodoco_workspace_runti.Tasks.Bindings.{release_reservations, release_execution_attempt}
use banodoco_workspace_runti.Tasks.Continuations.{project_of, refresh_continuations_for_predecessor}
use banodoco_workspace_runti.Tasks.Cancel.{delegated_children}
use banodoco_workspace_runti.Tasks.Settle.{
  assert_lease, has_lease, has_fence, in_time, set_completed, completed_realm, settle_attempt_row,
  complete, settle_attempt, assert_effect, is_scoped, children_completed,
}
use banodoco_workspace_runti.Tasks.Follows.{Step, Follows}
use banodoco_workspace_runti.Tasks.Follows.Waiting.{
  own_id, self_found, refresh_continuations-Follows,
}
use banodoco_workspace_runti.Tasks.Fencing.{Step-some}

-- The row that an update by identity leaves behind.
pub updated_row :
    (db : Realm) (id : ℕ) (f : Task → Task) (t : Task)
    → ((u : Task) → (f u).id ≡ u.id)
    → task_at db id ≡ some t
    → t.id ≡ id
    → task_at (update_task id f db) id ≡ some (f t)
unfolding task_at update_task
updated_row db id f t keep e own =
    rw (first-update (λ t. t.id == id) (λ t. t.id == id) f db.tasks (λ u. rw (keep u)))
      (rw e (ground arith))

module _ (w : World) (now : ℕ) where
  completed_realm-row :
      (task : Task) (token attempt : ℕ) (result : TaskResult) (db : Realm)
      → task_at db task.id ≡ some task
      → task_at (completed_realm w now task token attempt result db) task.id
        ≡ some (set_completed now result task)
  unfolding completed_realm task_at append_event release_execution_attempt release_reservations
      settle_attempt_row update_run update_task
  completed_realm-row task token attempt result db e =
      updated_row db task.id (set_completed now result) task (λ u. refl) e refl

  complete-row :
      (task : Task) (token attempt : ℕ) (result : TaskResult) (db b : Realm)
      → task_at db task.id ≡ some task
      → complete w now task token attempt result db ≡ ok b
      → (u : Task) × (task_at b task.id ≡ some u)
        × (u.status ≡ completed)
        × (u.result ≡ some result)
  unfolding complete
  complete-row task token attempt result db b e h =
      let done = completed_realm w now task token attempt result db in
      let f =
        Each-ok (Follows w done) (refresh_continuations_for_predecessor w now task.id done)
          (refresh_continuations-Follows w now task.id done) h in
      let (u, found, s) = Step-some (task_at b task.id) (
        subst (λ o. Step o (task_at b task.id)) (completed_realm-row task token attempt result db e)
          (f.tasks task.id)) in
      let (same, kept) = s.final refl in (u, found, same, kept)

  assert_lease-held :
      (t : Task) (token : ℕ) (fence : Option ℕ)
      → assert_lease now t token fence ≡ ok tt
      → (is_running t.status ≡ true)
        × (t.lease_token ≡ some token)
        × ((given : ℕ) → fence ≡ some given → t.lease_fence ≡ given)
        × (in_time now t.lease_expires_at ≡ true)
  unfolding assert_lease
  assert_lease-held t token fence h = (
    ground arith,
    held t.lease_token (ground arith),
    λ given e. fenced fence given e (ground arith),
    ground arith,
  )
    where
      held : (o : Option ℕ) → has_lease o token ≡ true → o ≡ some token
      held none e = cc
      held (some x) e = ap (λ n. some n) (ground arith)

      fenced :
          (o : Option ℕ) (given : ℕ)
          → o ≡ some given
          → has_fence o t.lease_fence ≡ true
          → t.lease_fence ≡ given
      fenced none given e k = cc
      fenced (some x) given e k = let same : x ≡ given = cc in ground arith

  -- A settlement that is accepted found the task running, under a lease with the token that was given
  -- and that has not run out, and under the fence that was given, if one was. It leaves the task
  -- completed with the result that the effect gave.
  pub settle_attempt_completes :
      (id token : ℕ) (fence : Option ℕ) (attempt : ℕ) (effect : Option ℕ) (result : TaskResult)
      (a b : Realm)
      → settle_attempt w now id token fence attempt effect result a ≡ ok b
      → (t : Task) × (stored : TaskResult) × (u : Task) × (task_at a id ≡ some t)
        × (is_running t.status ≡ true)
        × (t.lease_token ≡ some token)
        × ((given : ℕ) → fence ≡ some given → t.lease_fence ≡ given)
        × (in_time now t.lease_expires_at ≡ true)
        × (w.apply_effect now t effect result ≡ ok stored)
        × (task_at b id ≡ some u)
        × (u.status ≡ completed)
        × (u.result ≡ some stored)
  unfolding settle_attempt
  settle_attempt_completes id token fence attempt effect result a b h =
      let (t, found, h1) = or_raise-eq-ok (task_at a id) not_found _ h in
      let (_, guarded, h2) = >>=-eq-ok (assert_lease now t token fence) _ h1 in
      let (running, holder, fenced, timely) = assert_lease-held t token fence guarded in
      let (_, _, h3) =
        >>=-eq-ok (assert_effect w now t.expected_effect effect (is_scoped (project_of a t.run_id)))
          _ h2 in
      let (_, _, h4) =
        >>=-eq-ok (children_completed w now a (delegated_children id (some attempt) a)) _ h3 in
      let (stored, applied, h5) = >>=-eq-ok (w.apply_effect now t effect result) _ h4 in
      let (u, row, done, kept) =
        complete-row t token attempt stored a b (self_found a id t found) h5 in
      (
        t,
        stored,
        u,
        found,
        running,
        holder,
        fenced,
        timely,
        applied,
        subst (λ j. task_at b j ≡ some u) (own_id a id t found) row,
        done,
        kept,
      )
