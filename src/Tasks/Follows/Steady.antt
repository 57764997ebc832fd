-- ===== src/Tasks/Follows/Steady.antt =====
-- _admit_continuation and _refresh_continuations_for_predecessor of runtime_protocol/store.py write the
-- spec and the waiting reason of tasks, and keep what depends on neither.
use banodoco_workspace_runti.Base.{
  ℕ, ◌==◌, ◌≡◌, refl, Bool, not, Option, some, List, [], ◌∷◌, Bool-cases, inl, inr, update,
  first-update, if◌then◌else◌, Each, Each-bind, Each-step, Each-if, Each-option, Each-list,
}
use banodoco_workspace_runti.Tasks.Rows.{Task, Spec, Waiting, Dependency, is_queued}
use banodoco_workspace_runti.Tasks.Realm.{Realm, World, task_at, append_event, set_waiting_reason}
use banodoco_workspace_runti.Tasks.Continuations.{
  project_of, continuation_rows, is_admitted, continuation_waiting_reason, record_admission,
  resolve_children, materialize, admit_or_wait, admit_continuation, note_waiting,
  refresh_continuation, refresh_each, refresh_continuations_for_predecessor,
}

-- The task is there, and its row satisfies `P`.
abbrev pub Holds : ℕ → (Task → Type 0) → Realm → Type 0
Holds id P db = (t : Task) × (task_at db id ≡ some t) × P t

-- What is kept by writes to the spec, the waiting reason and the time of the last change.
abbrev pub Steady : (Task → Type 0) → Type 0
Steady P =
    (t : Task) (s : Option Spec) (r : Option Waiting) (n : ℕ)
    → P t
    → P (record t { spec = s; waiting_reason = r; updated_at = n })

module _ (id : ℕ) (P : Task → Type 0) where
  pub Holds-update :
      (db : Realm) (q : Task → Bool) (f : Task → Task)
      → ((u : Task) → (f u).id ≡ u.id)
      → ((u : Task) → P u → P (f u))
      → Holds id P db
      → Holds id P (record db { tasks = update q f db.tasks })
  unfolding task_at
  Holds-update db q f keep step (t, e, i) = (
    if q t then f t else t,
    rw (first-update (λ t. t.id == id) q f db.tasks (λ u. rw (keep u))) (rw e refl),
    elim (Bool-cases (q t)) [ inl h ↦ rw h (step t i) | inr h ↦ rw h i ],
  )

  module _ (steady : Steady P) where
    pub Holds-set_waiting_reason :
        (now j : ℕ) (r : Option Waiting) (db : Realm)
        → Holds id P db
        → Holds id P (set_waiting_reason now j r db)
    unfolding set_waiting_reason
    Holds-set_waiting_reason now j r db =
        Holds-update db _ _ (λ u. refl) (λ u i. steady u u.spec r now i)

    module _ (w : World) (now : ℕ) where
      materialize-Holds :
          (task : Task) (db : Realm)
          → Holds id P db
          → (rows : List (ℕ × Task)) → Each (Holds id P) (materialize w now task rows db)
      unfolding materialize record_admission append_event task_at
      materialize-Holds task db i rows = Each-step (Holds id P) (resolve_children rows []) _ λ r _.
          Each-step (Holds id P) (w.validate_task_inputs now (project_of db task.run_id) r.1) _
            λ _ _. Holds-update db _ _ (λ u. refl) (λ u i. steady u _ _ now i) i

      pub admit_continuation-Holds :
          (j : ℕ) (db : Realm) → Holds id P db → Each (Holds id P) (admit_continuation w now j db)
      unfolding admit_continuation admit_or_wait
      admit_continuation-Holds j db i =
          Each-list (Holds id P) (continuation_rows db j) _ _ (λ _. i)
            λ r rs _.
              Each-option (Holds id P) (task_at db j) _ _ (λ _. i)
                λ task _.
                  Each-if (Holds id P) (not (is_queued task.status)) _ _ (λ _. i)
                    λ _.
                      Each-if (Holds id P) (is_admitted db j) _ _ (λ _. i)
                        λ _.
                          Each-option (Holds id P) (continuation_waiting_reason (r ∷ rs)) _ _
                            (λ _. materialize-Holds task db i (r ∷ rs))
                            (λ x _. Holds-set_waiting_reason now task.id (some x) db i)

      note_waiting-Holds :
          (j : ℕ) (db : Realm) → Holds id P db → Holds id P (note_waiting w now j db)
      unfolding note_waiting
      note_waiting-Holds j db i = elim (Bool-cases (is_admitted db j)) [
        | inl e ↦ rw e i
        | inr e ↦ rw e (
            Holds-set_waiting_reason now j (continuation_waiting_reason (continuation_rows db j)) db
              i)
      ]

      refresh_each-Holds :
          (j : ℕ) (ds : List Dependency) (db : Realm)
          → Holds id P db
          → Each (Holds id P) (refresh_each w now j ds db)
      unfolding refresh_each refresh_continuation
      refresh_each-Holds j [] db i = i
      refresh_each-Holds j (d ∷ ds) db i =
          Each-if (Holds id P) (d.predecessor_task_id == j) _ _
            (λ _.
              Each-bind (Holds id P) (Holds id P)
                (refresh_continuation w now d.continuation_task_id db) _
                (Each-bind (Holds id P) (Holds id P)
                  (admit_continuation w now d.continuation_task_id db) _
                  (admit_continuation-Holds d.continuation_task_id db i)
                  λ b _ k. note_waiting-Holds d.continuation_task_id b k)
                λ b _ k. refresh_each-Holds j ds b k)
            (λ _. refresh_each-Holds j ds db i)

      pub refresh_continuations-Holds :
          (j : ℕ) (db : Realm)
          → Holds id P db
          → Each (Holds id P) (refresh_continuations_for_predecessor w now j db)
      unfolding refresh_continuations_for_predecessor
      refresh_continuations-Holds j db i = refresh_each-Holds j db.dependencies db i
