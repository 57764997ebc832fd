-- ===== src/Tasks/Follows/Waiting.antt =====
-- Continuations keep `Follows`.
use banodoco_workspace_runti.Base.{
  ℕ, ◌==◌, ◌≡◌, refl, sym, ap, subst, none, some, List, [], ◌∷◌, Bool-cases, first-holds, inl, inr,
  ◌&&◌, arith, Result, ok, err, Each, Each-bind, Each-step, Each-if, Each-option, Each-list, not,
}
use banodoco_workspace_runti.Tasks.Rows.{Task, is_queued, ResolvedChild, Dependency}
use banodoco_workspace_runti.Tasks.Realm.{
  Realm, World, task_continuation_admitted, task_at, append_event,
}
use banodoco_workspace_runti.Tasks.Continuations.{
  spec_of, resolve_children, record_admission, materialize, admit_or_wait, admit_continuation,
  note_waiting, refresh_continuation, refresh_each, refresh_continuations_for_predecessor,
  project_of, continuation_rows, continuation_waiting_reason, is_admitted,
}
use banodoco_workspace_runti.Tasks.Follows.{Follows, Follows-refl, Follows-trans}
use banodoco_workspace_runti.Tasks.Follows.Writes.{
  Follows-update, Follows-append_event, Follows-set_waiting_reason,
}

-- Two rows found under the same identity are one.
pub same_row :
    (db : Realm) (id : ℕ) (t u : Task)
    → task_at db id ≡ some u
    → task_at db t.id ≡ some t
    → (t.id ≡ id)
    → t ≡ u
same_row db id t u e k s = cc (subst (λ j. task_at db j ≡ some t) s k)

pub own_id : (db : Realm) (id : ℕ) (t : Task) → task_at db id ≡ some t → t.id ≡ id
unfolding task_at
own_id db id t e = ground (arith, first-holds (λ x. x.id == id) db.tasks t e)

pub self_found :
    (db : Realm) (id : ℕ) (t : Task) → task_at db id ≡ some t → task_at db t.id ≡ some t
self_found db id t e = subst (λ j. task_at db j ≡ some t) (sym (own_id db id t e)) e

-- What follows a later realm follows an earlier one.
pub Each-trans :
    {w : World} {a b : Realm}
    → Follows w a b
    → (m : Result Realm) → Each (Follows w b) m
    → Each (Follows w a) m
Each-trans f (ok c) g = Follows-trans f g
Each-trans f (err e) g = tt

module _ (w : World) (now : ℕ) where
  record_admission-Follows :
      (task : Task) (children : List ResolvedChild) (inputs : List ℕ) (db : Realm)
      → task_at db task.id ≡ some task
      → Follows w db (record_admission w now task children inputs db)
  unfolding record_admission task_at append_event
  record_admission-Follows task children inputs db e =
      let f =
        Follows-update (Follows-refl {w = w} db) (λ t. t.id == task.id && is_queued t.status)
          (λ t. record t {
            spec =
                some (record (spec_of task) {
                  input_object_ids = inputs;
                  resolved_children = children;
                });
            waiting_reason = none;
            updated_at = now;
          })
          (λ u. refl)
          (λ t u k s q. record {
            identity = s.identity;
            lineage =
                ap (λ (x : Task). (spec_of x).delegated_parent)
                  (sym (same_row db task.id t task e k (ground (arith, s.identity))));
            fence = s.fence;
            final = s.final;
          }) in
      let g =
        Follows-append_event f now task.run_id (some task.id)
          (task_continuation_admitted children inputs) in
      record {
        tasks = g.tasks;
        ids = g.ids;
        events = g.events;
        exclusive = g.exclusive;
        epoch = g.epoch;
        checkpoints = g.checkpoints;
      }

  materialize-Follows :
      (task : Task) (rows : List (ℕ × Task)) (db : Realm)
      → task_at db task.id ≡ some task
      → Each (Follows w db) (materialize w now task rows db)
  unfolding materialize
  materialize-Follows task rows db e = Each-step (Follows w db) (resolve_children rows []) _ λ r _.
      Each-step (Follows w db) (w.validate_task_inputs now (project_of db task.run_id) r.1) _
        λ _ _. record_admission-Follows task r.0 r.1 db e

  admit_or_wait-Follows :
      (task : Task) (rows : List (ℕ × Task)) (db : Realm)
      → task_at db task.id ≡ some task
      → Each (Follows w db) (admit_or_wait w now task rows db)
  unfolding admit_or_wait
  admit_or_wait-Follows task rows db e =
      Each-option (Follows w db) (continuation_waiting_reason rows) _ _
        (λ _. materialize-Follows task rows db e)
        (λ r _. Follows-set_waiting_reason (Follows-refl {w = w} db) now task.id (some r))

  pub admit_continuation-Follows :
      (id : ℕ) (db : Realm) → Each (Follows w db) (admit_continuation w now id db)
  unfolding admit_continuation
  admit_continuation-Follows id db =
      let same : Follows w db db = Follows-refl db in
      Each-list (Follows w db) (continuation_rows db id) _ _ (λ _. same)
        λ r rs _.
          Each-option (Follows w db) (task_at db id) _ _ (λ _. same)
            λ task e.
              let self = subst (λ j. task_at db j ≡ some task) (sym (own_id db id task e)) e in
              Each-if (Follows w db) (not (is_queued task.status)) _ _ (λ _. same)
                λ _.
                  Each-if (Follows w db) (is_admitted db id) _ _ (λ _. same)
                    λ _. admit_or_wait-Follows task (r ∷ rs) db self

  refresh_continuation-Follows :
      (id : ℕ) (db : Realm) → Each (Follows w db) (refresh_continuation w now id db)
  unfolding refresh_continuation note_waiting
  refresh_continuation-Follows id db =
      Each-bind (Follows w db) (Follows w db) (admit_continuation w now id db) _
        (admit_continuation-Follows id db)
        λ b _ f. elim (Bool-cases (is_admitted b id)) [
          | inl e ↦ rw e f
          | inr e ↦ rw e (Follows-set_waiting_reason f now id _)
        ]

  refresh_each-Follows :
      (id : ℕ) (ds : List Dependency) (db : Realm)
      → Each (Follows w db) (refresh_each w now id ds db)
  unfolding refresh_each
  refresh_each-Follows id [] db = Follows-refl db
  refresh_each-Follows id (d ∷ ds) db =
      Each-if (Follows w db) (d.predecessor_task_id == id) _ _
        (λ _.
          Each-bind (Follows w db) (Follows w db)
            (refresh_continuation w now d.continuation_task_id db) _
            (refresh_continuation-Follows d.continuation_task_id db)
            λ b _ f. Each-trans f (refresh_each w now id ds b) (refresh_each-Follows id ds b))
        (λ _. refresh_each-Follows id ds db)

  pub refresh_continuations-Follows :
      (id : ℕ) (db : Realm)
      → Each (Follows w db) (refresh_continuations_for_predecessor w now id db)
  unfolding refresh_continuations_for_predecessor
  refresh_continuations-Follows id db = refresh_each-Follows id db.dependencies db
