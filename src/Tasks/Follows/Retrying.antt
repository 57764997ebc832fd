-- ===== src/Tasks/Follows/Retrying.antt =====
-- Retrying a task that has ended is the one command that gives up its status and result. What holds of
-- the realms before and after any command is told apart by the tasks that are not retried.
use mathlib.Core.Option
use banodoco_workspace_runti.Base.{
  ℕ, ◌+◌, ◌≤◌, ◌==◌, ◌≡◌, refl, ◌∙◌, subst, Bool, true, false, not, Option, none, some, map, inl,
  inr, Bool-cases, first-update, if◌then◌else◌, arith, conflict, not_found, Each, Each-map,
  Each-step, Each-require, Each-or_raise,
}
use banodoco_workspace_runti.Tasks.Rows.{Task, is_terminal, is_provider_unknown}
use banodoco_workspace_runti.Tasks.Realm.{Realm, World, task_at, update_task}
use banodoco_workspace_runti.Tasks.Continuations.{refresh_continuations_for_predecessor}
use banodoco_workspace_runti.Tasks.Runs.{assert_delegated_retry_capacity, set_retried}
use banodoco_workspace_runti.Tasks.Retry.{is_version, retry_task}
use banodoco_workspace_runti.Tasks.Session.{epoch_of}
use banodoco_workspace_runti.Tasks.Exclusive.{Exclusive}
use banodoco_workspace_runti.Tasks.Follows.{
  Step, Step-refl, Step-trans, Grown, Grown-trans, unchanged, CheckpointsStep, Follows,
  Follows-refl,
}
use banodoco_workspace_runti.Tasks.Follows.Writes.{
  ids-update, Follows-append_event, Follows-update_run, Follows-release_reservations,
  Follows-reset_execution_attempt,
}
use banodoco_workspace_runti.Tasks.Follows.Waiting.{own_id, refresh_continuations-Follows}

abbrev pub Fenced : Option Task → Option Task → Type 0
Fenced none none = Unit
Fenced (some t) (some u) = t.lease_fence ≤ u.lease_fence
Fenced _ _ = ⊥

-- The realm before and after commands that retry no task of `keep`.
pub record Leads (w : World) (keep : ℕ → Bool) (a b : Realm) : Type 0 where
  pub tasks : (j : ℕ) → keep j ≡ true → Step (task_at a j) (task_at b j)
  pub fences : (j : ℕ) → Fenced (task_at a j) (task_at b j)
  pub ids : map (λ (t : Task). t.id) b.tasks ≡ map (λ (t : Task). t.id) a.tasks
  pub events : Grown w a.events b.events
  pub exclusive : Exclusive a.reservations → Exclusive b.reservations
  pub epoch : epoch_of a.lifecycle ≤ epoch_of b.lifecycle
  pub checkpoints : CheckpointsStep a.checkpoints b.checkpoints

Step-Fenced : (o p : Option Task) → Step o p → Fenced o p
Step-Fenced none none h = tt
Step-Fenced (some t) (some u) h = h.fence
Step-Fenced none (some u) h = h
Step-Fenced (some t) none h = h

Fenced-trans : (o p q : Option Task) → Fenced o p → Fenced p q → Fenced o q
Fenced-trans none none none h k = tt
Fenced-trans (some t) (some u) (some v) h k = omega (arith, h, k)
Fenced-trans none (some u) q h k = absurd h
Fenced-trans (some t) none q h k = absurd h
Fenced-trans none none (some u) h k = absurd k
Fenced-trans (some t) (some u) none h k = absurd k

pub Fenced-some :
    (t : Task) (o : Option Task)
    → Fenced (some t) o
    → (u : Task) × (o ≡ some u) × (t.lease_fence ≤ u.lease_fence)
Fenced-some t none h = absurd h
Fenced-some t (some u) h = (u, refl, h)

module _ {w : World} (keep : ℕ → Bool) where
  pub Follows-Leads : {a b : Realm} → Follows w a b → Leads w keep a b
  Follows-Leads {a} {b} f = record {
    tasks = λ j kept. f.tasks j;
    fences = λ j. Step-Fenced (task_at a j) (task_at b j) (f.tasks j);
    ids = f.ids;
    events = f.events;
    exclusive = f.exclusive;
    epoch = f.epoch;
    checkpoints = f.checkpoints;
  }

  pub Leads-trans : {a b c : Realm} → Leads w keep a b → Leads w keep b c → Leads w keep a c
  Leads-trans {a} {b} {c} f g = record {
    tasks = λ j k. Step-trans (task_at a j) (task_at b j) (task_at c j) (f.tasks j k) (g.tasks j k);
    fences = λ j. Fenced-trans (task_at a j) (task_at b j) (task_at c j) (f.fences j) (g.fences j);
    ids = g.ids ∙ f.ids;
    events = Grown-trans f.events g.events;
    exclusive = λ x. g.exclusive (f.exclusive x);
    epoch = omega (arith, f.epoch, g.epoch);
    checkpoints = λ p b kept found. g.checkpoints p b kept (f.checkpoints p b kept found);
  }

module _ (keep : ℕ → Bool) where
  retried_row :
      (now id j : ℕ) (o : Option Task)
      → ((t : Task) → o ≡ some t → t.id ≡ j)
      → keep id ≡ false
      → let p = Option.map (λ (t : Task). if t.id == id then set_retried now t else t) o in
        (keep j ≡ true → Step o p) × Fenced o p
  retried_row now id j none own free = (λ kept. tt, tt)
  retried_row now id j (some t) own free = elim (Bool-cases (t.id == id)) [
    | inl e ↦
        let same : j ≡ id = (ground (arith, own t refl, e)) in
        (
          λ kept.
              absurd (let clash : keep id ≡ true = (subst (λ k. keep k ≡ true) same kept) in cc),
          rw e (omega arith),
        )
    | inr e ↦ (λ kept. rw e (Step-refl (some t)), rw e (omega arith))
  ]

module _ (w : World) (keep : ℕ → Bool) where
  update_retried-Leads :
      (now id : ℕ) (a : Realm)
      → keep id ≡ false
      → Leads w keep a (update_task id (set_retried now) a)
  unfolding update_task task_at
  update_retried-Leads now id a free =
      let moved = λ (j : ℕ).
        first-update (λ (t : Task). t.id == j) (λ t. t.id == id) (set_retried now) a.tasks
          (λ u. refl) in
      let row = λ (j : ℕ). retried_row keep now id j (task_at a j) (λ t e. own_id a j t e) free in
      record {
        tasks = λ j kept. rw (moved j) ((row j).0 kept);
        fences = λ j. rw (moved j) (row j).1;
        ids = ids-update (λ t. t.id == id) (set_retried now) (λ u. refl) a.tasks;
        events = unchanged;
        exclusive = λ x. x;
        epoch = omega arith;
        checkpoints = λ p b kept found. found;
      }

  pub retry_task-Leads :
      (now : ℕ) (drained : Bool) (id : ℕ) (expected : Option ℕ) (db : Realm)
      → keep id ≡ false
      → Each (Leads w keep db) (retry_task w now drained id expected db)
  unfolding retry_task
  retry_task-Leads now drained id expected db free =
      let P = Leads w keep db in
      Each-or_raise P (task_at db id) not_found _ λ t _.
        Each-require P (not drained) conflict _ λ _.
          Each-require P (not (is_provider_unknown t.waiting_reason)) conflict _ λ _.
            Each-require P (is_terminal t.status) conflict _ λ _.
              Each-require P (is_version expected (t.attempt + 1)) conflict _ λ _.
                Each-step P (assert_delegated_retry_capacity now db id) _ λ _ _.
                  let freed = Follows-release_reservations (Follows-refl db) now id t.lease_token in
                  let retried =
                    Leads-trans keep (Follows-Leads keep freed)
                      (update_retried-Leads now id _ free) in
                  let after =
                    Follows-append_event
                      (Follows-update_run (Follows-reset_execution_attempt (Follows-refl _) _ id)
                        t.run_id _)
                      now t.run_id (some id) _ in
                  Each-map (Follows w _) P (refresh_continuations_for_predecessor w now id _)
                    (refresh_continuations-Follows w now id _)
                    λ b f.
                      Leads-trans keep (Leads-trans keep retried (Follows-Leads keep after))
                        (Follows-Leads keep f)
