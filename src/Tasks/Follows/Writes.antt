-- ===== src/Tasks/Follows/Writes.antt =====
-- The single writes of the store, as steps that keep `Follows`. A write of task rows has to respect the
-- row with which the command began.
use banodoco_workspace_runti.Base.{
  ℕ, ◌==◌, ◌≡◌, refl, sym, ◌∙◌, ap, subst, Bool, true, Option, none, some, List, [], ◌∷◌, map,
  Bool-cases, update, first-update, first-holds, if◌then◌else◌, inl, inr, ◌&&◌, arith,
}
use mathlib.Core.Option
use banodoco_workspace_runti.Tasks.Rows.{Task, Run, BindingStatus, Waiting, is_queued}
use banodoco_workspace_runti.Tasks.Realm.{
  Realm, World, EventKind, task_at, append_event, set_waiting_reason, update_task, update_run,
}
use banodoco_workspace_runti.Tasks.Bindings.{
  release_reservations, release_execution_attempt, reset_execution_attempt,
}
use banodoco_workspace_runti.Tasks.Exclusive.{Tames, Exclusive-update}
use banodoco_workspace_runti.Tasks.Cancel.{settle_attempt_of}
use banodoco_workspace_runti.Tasks.Follows.{TaskStep, Step, appended, Follows}

-- One row of the origin against the rewritten row.
Step-map :
    (q : Task → Bool) (f : Task → Task) (o p : Option Task)
    → ((t u : Task) → o ≡ some t → p ≡ some u → TaskStep t u → q u ≡ true → TaskStep t (f u))
    → Step o p
    → Step o (Option.map (λ u. if q u then f u else u) p)
Step-map q f none none k h = tt
Step-map q f (some t) (some u) k h = elim (Bool-cases (q u)) [
  | inl e ↦ rw e (k t u refl refl h e)
  | inr e ↦ rw e h
]
Step-map q f none (some u) k h = absurd h
Step-map q f (some t) none k h = absurd h

id_kept :
    (q : Task → Bool) (f : Task → Task) (j : ℕ)
    → ((u : Task) → (f u).id ≡ u.id)
    → (u : Task) → ((f u).id == j) ≡ (u.id == j)
id_kept q f j keep u = ap (λ n. n == j) (keep u)

pub ids-update :
    (q : Task → Bool) (f : Task → Task)
    → ((u : Task) → (f u).id ≡ u.id)
    → (ts : List Task) → map (λ (t : Task). t.id) (update q f ts) ≡ map (λ (t : Task). t.id) ts
unfolding update
ids-update q f keep [] = refl
ids-update q f keep (t ∷ ts) = ground (arith, keep t, ids-update q f keep ts)

release-Tames : (now : ℕ) → Tames (λ r. record r { released_at = some now })
release-Tames now = record {
  live = λ x e. absurd (ground (arith, e));
  executor = λ x. refl;
  key = λ x. refl;
  task = λ x. refl;
}

module _ {w : World} {a b : Realm} (h : Follows w a b) where
  -- UPDATE tasks SET f WHERE q
  pub Follows-update :
      (q : Task → Bool) (f : Task → Task)
      → ((u : Task) → (f u).id ≡ u.id)
      → ((t u : Task) → task_at a t.id ≡ some t → TaskStep t u → q u ≡ true → TaskStep t (f u))
      → Follows w a (record b { tasks = update q f b.tasks })
  unfolding task_at
  Follows-update q f keep step = record {
    events = h.events;
    exclusive = h.exclusive;
    epoch = h.epoch;
    checkpoints = h.checkpoints;
    ids = ids-update q f keep b.tasks ∙ h.ids;
    tasks = λ j. rw (first-update (λ t. t.id == j) q f b.tasks (id_kept q f j keep)) (
        Step-map q f (task_at a j) (task_at b j) (λ t u e _ s qu. step t u (at_own_id j t e) s qu)
          (h.tasks j));
  }
    where
      at_own_id : (j : ℕ) (t : Task) → task_at a j ≡ some t → task_at a t.id ≡ some t
      at_own_id j t e =
          let same : t.id ≡ j = (ground (arith, first-holds (λ x. x.id == j) a.tasks t e)) in
          subst (λ k. task_at a k ≡ some t) (sym same) e

  pub Follows-update_task :
      (id : ℕ) (f : Task → Task)
      → ((u : Task) → (f u).id ≡ u.id)
      → ((t u : Task) → task_at a id ≡ some t → TaskStep t u → TaskStep t (f u))
      → Follows w a (update_task id f b)
  unfolding update_task
  Follows-update_task id f keep step =
      Follows-update (λ t. t.id == id) f keep
        (λ t u e s q. step t u (subst (λ k. task_at a k ≡ some t) (ground (arith, s.identity)) e) s)

  pub Follows-append_event :
      (now run : ℕ) (task : Option ℕ) (kind : EventKind)
      → Follows w a (append_event w now run task kind b)
  unfolding append_event task_at
  Follows-append_event now run task kind = record {
    tasks = h.tasks;
    ids = h.ids;
    events = appended _ refl refl h.events;
    exclusive = h.exclusive;
    epoch = h.epoch;
    checkpoints = h.checkpoints;
  }

  pub Follows-set_waiting_reason :
      (now id : ℕ) (reason : Option Waiting) → Follows w a (set_waiting_reason now id reason b)
  unfolding set_waiting_reason
  Follows-set_waiting_reason now id reason =
      Follows-update (λ t. t.id == id && is_queued t.status)
        (λ t. record t { waiting_reason = reason; updated_at = now }) (λ u. refl)
        (λ t u e s q. record {
          identity = s.identity;
          lineage = s.lineage;
          fence = s.fence;
          final = s.final;
        })

  pub Follows-update_run : (id : ℕ) (f : Run → Run) → Follows w a (update_run id f b)
  unfolding update_run task_at
  Follows-update_run id f = record {
    tasks = h.tasks;
    ids = h.ids;
    events = h.events;
    exclusive = h.exclusive;
    epoch = h.epoch;
    checkpoints = h.checkpoints;
  }

  pub Follows-release_reservations :
      (now id : ℕ) (token : Option ℕ) → Follows w a (release_reservations now id token b)
  unfolding release_reservations task_at
  Follows-release_reservations now id token = record {
    tasks = h.tasks;
    ids = h.ids;
    events = h.events;
    exclusive = λ x. Exclusive-update _ (release-Tames now) _ b.reservations (h.exclusive x);
    epoch = h.epoch;
    checkpoints = h.checkpoints;
  }

  pub Follows-release_execution_attempt :
      (s : BindingStatus) (id : ℕ) → Follows w a (release_execution_attempt s id b)
  unfolding release_execution_attempt task_at
  Follows-release_execution_attempt s id = record {
    tasks = h.tasks;
    ids = h.ids;
    events = h.events;
    exclusive = h.exclusive;
    epoch = h.epoch;
    checkpoints = h.checkpoints;
  }

  pub Follows-reset_execution_attempt :
      (epoch id : ℕ) → Follows w a (reset_execution_attempt epoch id b)
  unfolding reset_execution_attempt task_at
  Follows-reset_execution_attempt epoch id = record {
    tasks = h.tasks;
    ids = h.ids;
    events = h.events;
    exclusive = h.exclusive;
    epoch = h.epoch;
    checkpoints = h.checkpoints;
  }

  pub Follows-settle_attempt_of : (attempt id : ℕ) → Follows w a (settle_attempt_of attempt id b)
  unfolding settle_attempt_of task_at
  Follows-settle_attempt_of attempt id = record {
    tasks = h.tasks;
    ids = h.ids;
    events = h.events;
    exclusive = h.exclusive;
    epoch = h.epoch;
    checkpoints = h.checkpoints;
  }
