-- ===== src/Tasks/Follows/Booting.antt =====
-- A new boot session keeps `Follows`.
use banodoco_workspace_runti.Base.{
  ℕ, ◌+◌, ◌≤◌, ◌<◌, max, Each-ok, or_raise-eq-ok, >>=-eq-ok, validation, ◌==◌, ◌≡◌, refl, ap, subst,
  Bool, Bool-cases, inl, inr, any, any-update, if◌then◌else◌, true, false, not, Option, none, some,
  List, [], ◌∷◌, ◌&&◌, select, update, count, arith, Result, ok, err, Each, Each-bind, Each-if,
  Each-option, Each-or_raise,
}
use banodoco_workspace_runti.Tasks.Rows.{
  Task, Lifecycle, Status, is_active, is_running, stale, Checkpoint, recovered,
}
use banodoco_workspace_runti.Tasks.Realm.{Realm, World, task_at, binding_at}
use banodoco_workspace_runti.Tasks.Bindings.{unresolved_external}
use banodoco_workspace_runti.Tasks.Cancel.{reconcile_with}
use banodoco_workspace_runti.Tasks.Session.{
  is_resumable, next_epoch, epoch_of, or_zero, recounted, open_session, recover_checkpoints,
  set_recovered_count, park_external, set_recovered, recover_owned, recover_task, recover_tasks,
  begin_runtime_session,
}
use banodoco_workspace_runti.Tasks.Follows.{Follows, Follows-refl, is_final}
use banodoco_workspace_runti.Tasks.Follows.Writes.{
  Follows-update, Follows-append_event, Follows-release_reservations,
  Follows-release_execution_attempt, Follows-reset_execution_attempt,
}
use banodoco_workspace_runti.Tasks.Follows.Waiting.{Each-trans}
use banodoco_workspace_runti.Tasks.Follows.Cancelling.{Follows-rewrite}
use banodoco_workspace_runti.Tasks.Follows.Reaping.{
  cancel, contains, reconciles, active_not_final, found_not_final, Follows-requeue_run,
}

recounted_epoch : (n : ℕ) (l : Option Lifecycle) → epoch_of (recounted n l) ≡ epoch_of l
recounted_epoch n none = refl
recounted_epoch n (some l) = refl

max_above : (m n : ℕ) → m ≤ max m n + 1
max_above m n = omega arith

-- The recovery of a boot, under a test that leaves it alone.
recovered_answer :
    (previous : ℕ) (p : Checkpoint → Bool) (answer : Bool)
    → ((c : Checkpoint)
        → is_resumable c.state ≡ true
        → p c ≡ answer
        → p (record c { state = recovered }) ≡ answer)
    → (cs : List Checkpoint) → any p cs ≡ answer
    → any p (
        if previous == 0
        then cs
        else update
            (λ c. c.runtime_epoch == previous && is_resumable c.state)
            (λ c. record c { state = recovered })
            cs)
      ≡ answer
recovered_answer previous p answer keep cs h = elim (Bool-cases (previous == 0)) [
  | inl e ↦ rw e h
  | inr e ↦ rw e (
      any-update p (λ (c : Checkpoint). c.runtime_epoch == previous && is_resumable c.state)
        (λ (c : Checkpoint). record c { state = recovered }) answer cs
        (λ c resumable. keep c (ground (arith, resumable))) h)
]

module _ {w : World} {a b : Realm} (h : Follows w a b) where
  Follows-open_session :
      (boot epoch : ℕ) → epoch_of b.lifecycle ≤ epoch → Follows w a (open_session boot epoch b)
  unfolding open_session task_at
  Follows-open_session boot epoch le = record {
    tasks = h.tasks;
    ids = h.ids;
    events = h.events;
    exclusive = h.exclusive;
    epoch = omega (arith, h.epoch, le);
    checkpoints = h.checkpoints;
  }

  Follows-recover_checkpoints : (previous : ℕ) → Follows w a (recover_checkpoints previous b)
  unfolding recover_checkpoints task_at
  Follows-recover_checkpoints previous = record {
    tasks = h.tasks;
    ids = h.ids;
    events = h.events;
    exclusive = h.exclusive;
    epoch = h.epoch;
    checkpoints = λ p answer keep found.
        recovered_answer previous p answer keep b.checkpoints (h.checkpoints p answer keep found);
  }

  Follows-set_recovered_count : (n : ℕ) → Follows w a (set_recovered_count n b)
  unfolding set_recovered_count task_at
  Follows-set_recovered_count n = record {
    tasks = h.tasks;
    ids = h.ids;
    events = h.events;
    exclusive = h.exclusive;
    epoch = omega (arith, h.epoch, recounted_epoch n b.lifecycle);
    checkpoints = h.checkpoints;
  }

module _ (w : World) (now fuel epoch : ℕ) where
  -- `task` is a row that was active in `a`.
  module _ {a : Realm} (task : Task)
      (unfinished : (t : Task) → task_at a task.id ≡ some t → is_final t.status ≡ false) where
    park_external-Follows :
        {b : Realm} (latest : Status)
        → Follows w a b
        → Follows w a (park_external w now fuel epoch task latest b)
    unfolding park_external
    park_external-Follows latest f =
        Follows-append_event
          (Follows-release_execution_attempt
            (Follows-requeue_run
              (Follows-rewrite w f task.id _ (λ u. refl) (λ u. refl) (λ u. refl) unfinished) now
              task.run_id)
            stale task.id)
          now task.run_id (some task.id) _

    -- Only a running row of the task returns to the queue.
    requeued-Follows :
        {b : Realm}
        → Follows w a b
        → Follows w a (record b {
          tasks =
              update
                (λ t. t.id == task.id && is_running t.status)
                (set_recovered w now fuel epoch)
                b.tasks;
        })
    requeued-Follows f =
        Follows-update f (λ t. t.id == task.id && is_running t.status)
          (set_recovered w now fuel epoch) (λ u. refl)
          λ t u k s q.
            let same : t.id ≡ task.id = ground (arith, s.identity) in
            record {
              identity = s.identity;
              lineage = s.lineage;
              fence = s.fence;
              final = λ p. cc (unfinished t (subst (λ j. task_at a j ≡ some t) same k));
            }

    recover_owned-Follows :
        {b : Realm} → Follows w a b → Each (Follows w a) (recover_owned w now fuel epoch task b)
    unfolding recover_owned
    recover_owned-Follows {b} f =
        Each-bind (Follows w a) (Follows w a)
          (reconcile_with w now (cancel w now fuel) task.id task.attempt_id b) _
          (Each-trans f (reconcile_with w now (cancel w now fuel) task.id task.attempt_id b)
            (reconciles w now fuel task.id task.attempt_id b))
          λ c _ g.
            Follows-append_event
              (Follows-reset_execution_attempt
                (Follows-release_reservations
                  (Follows-requeue_run (requeued-Follows g) now task.run_id) now task.id
                  task.lease_token)
                epoch task.id)
              now task.run_id (some task.id) _

  recover_task-Follows :
      (task : Task) (db : Realm) → Each (Follows w db) (recover_task w now fuel epoch task db)
  unfolding recover_task
  recover_task-Follows task db =
      Each-option (Follows w db) (task_at db task.id) _ _ (λ _. Follows-refl db)
        λ latest e.
          Each-if (Follows w db) (not (is_active latest.status)) _ _ (λ _. Follows-refl db)
            λ q.
              let unfinished =
                found_not_final db task.id latest e
                  (active_not_final latest.status (ground arith)) in
              Each-bind (Follows w db) (Follows w db) _ _
                (contains w now fuel task.id task.attempt_id db)
                λ b _ f.
                  Each-if (Follows w db) (unresolved_external (binding_at b task.id)) _ _
                    (λ _. park_external-Follows task unfinished latest.status f)
                    (λ _. recover_owned-Follows task unfinished f)

  recover_tasks-Follows :
      (ts : List Task) (db : Realm) → Each (Follows w db) (recover_tasks w now fuel epoch ts db)
  unfolding recover_tasks
  recover_tasks-Follows [] db = Follows-refl db
  recover_tasks-Follows (t ∷ ts) db =
      Each-bind (Follows w db) (Follows w db) _ _ (recover_task-Follows t db)
        λ b _ f. Each-trans f (recover_tasks w now fuel epoch ts b) (recover_tasks-Follows ts b)

module _ (w : World) (now fuel : ℕ) where
  pub begin_runtime_session-Follows :
      (boot_id floor : Option ℕ) (db : Realm)
      → Each (Follows w db) (begin_runtime_session w now fuel boot_id floor db)
  unfolding begin_runtime_session
  begin_runtime_session-Follows boot_id floor db =
      Each-or_raise (Follows w db) boot_id _ _ λ boot _.
        let epoch = next_epoch db floor in
        let opened = open_session boot epoch db in
        let interrupted = select (λ (t : Task). is_active t.status) opened.tasks in
        Each-bind (Follows w db) (Follows w db) (recover_tasks w now fuel epoch interrupted opened)
          _
          (Each-trans
            (Follows-open_session (Follows-refl {w = w} db) boot epoch
              (max_above (epoch_of db.lifecycle) (or_zero floor)))
            (recover_tasks w now fuel epoch interrupted opened)
            (recover_tasks-Follows w now fuel epoch interrupted opened))
          λ c _ g.
            Follows-set_recovered_count (Follows-recover_checkpoints g (epoch_of db.lifecycle))
              (count (λ (t : Task). true) interrupted)

  -- The epoch of a new session is above the one of the session before.
  pub boot_raises :
      (boot_id floor : Option ℕ) (a b : Realm)
      → begin_runtime_session w now fuel boot_id floor a ≡ ok b
      → epoch_of a.lifecycle < epoch_of b.lifecycle
  unfolding begin_runtime_session open_session recover_checkpoints set_recovered_count
  boot_raises boot_id floor a b h =
      let epoch = next_epoch a floor in
      let (boot, _, h) = or_raise-eq-ok boot_id validation _ h in
      let opened = open_session boot epoch a in
      let interrupted = select (λ (t : Task). is_active t.status) opened.tasks in
      let (c, answered, h) = >>=-eq-ok (recover_tasks w now fuel epoch interrupted opened) _ h in
      let f =
        Each-ok (Follows w opened) (recover_tasks w now fuel epoch interrupted opened)
          (recover_tasks-Follows w now fuel epoch interrupted opened) answered in
      let kept = recounted_epoch (count (λ (t : Task). true) interrupted) c.lifecycle in
      let same = ap (λ (r : Result Realm). epoch_or r) h in
      omega (arith, f.epoch, kept, same, max_above (epoch_of a.lifecycle) (or_zero floor))
    where
      epoch_or : Result Realm → ℕ
      epoch_or (ok r) = epoch_of r.lifecycle
      epoch_or (err x) = 0
