-- ===== src/Tasks/Termination.antt =====
-- The recursion of cancel_task in runtime_protocol/store.py, which descends along delegation.
use banodoco_workspace_runti.Base.{
  ℕ, zero, suc, ◌<◌, ◌≡◌, refl, sym, ◌∙◌, subst, true, Option, none, some, List, [], ◌∷◌, arith,
  All, Each-ok,
}
use banodoco_workspace_runti.Tasks.Rows.{Task, Lineage}
use banodoco_workspace_runti.Tasks.Realm.{Realm, World, task_at, binding_at}
use banodoco_workspace_runti.Tasks.Bindings.{unresolved_external}
use banodoco_workspace_runti.Tasks.Continuations.{spec_of}
use banodoco_workspace_runti.Tasks.Cancel.{
  is_child, delegated_children, close_delegation, is_ended, is_closed, contain_each, contain_with,
  reconcile_with, cancel_open, cancel_task,
}
use banodoco_workspace_runti.Tasks.Follows.{TaskStep, Step, Follows}
use banodoco_workspace_runti.Tasks.Follows.Writes.{Follows-append_event}
use banodoco_workspace_runti.Tasks.Follows.Cancelling.{
  cancel_task-Follows, close_delegation-Follows,
}
use banodoco_workspace_runti.Tasks.Follows.Reaping.{contains}
use banodoco_workspace_runti.Tasks.Follows.Running.{Keyed, select-Rows}
use banodoco_workspace_runti.Tasks.Follows.Reached.{Follows-Keyed}
use banodoco_workspace_runti.Tasks.Follows.Waiting.{own_id}
use banodoco_workspace_runti.Tasks.Answers.{
  Answers, Answers-bind, Answers-if, Answers-option, All-below, finish_cancel-Answers,
}

-- Delegation leads down: a child ranks below its parent.
abbrev pub Descends : (ℕ → ℕ) → Realm → Type 0
Descends rank db =
    (j : ℕ) (t : Task) (l : Lineage)
    → task_at db j ≡ some t
    → (spec_of t).delegated_parent ≡ some l
    → rank j < rank l.parent_task_id

Step-back :
    (o : Option Task) (u : Task) → Step o (some u) → (t : Task) × (o ≡ some t) × TaskStep t u
Step-back none u h = absurd h
Step-back (some t) u h = (t, refl, h)

Follows-Descends :
    {w : World} {a b : Realm} (rank : ℕ → ℕ) → Follows w a b → Descends rank a → Descends rank b
Follows-Descends {a = a} {b} rank f d j u l e k =
    let (t, found, s) =
      Step-back (task_at a j) u (subst (λ o. Step (task_at a j) o) e (f.tasks j)) in
    d j t l found (sym s.lineage ∙ k)

child_of :
    (parent : ℕ) (attempt : Option ℕ) (o : Option Lineage)
    → is_child parent attempt o ≡ true
    → (l : Lineage) × (o ≡ some l) × (l.parent_task_id ≡ parent)
child_of parent attempt none h = cc
child_of parent attempt (some l) h = (l, refl, ground (arith, h))

module _ (w : World) (now : ℕ) (rank : ℕ → ℕ)
    (checks : (now : ℕ) (project : Option ℕ) (inputs : List ℕ)
      → Answers (w.validate_task_inputs now project inputs)) where
  children_below :
      (parent : ℕ) (attempt : Option ℕ) (db : Realm)
      → Keyed db
      → Descends rank db
      → All (λ (c : Task). rank c.id < rank parent) (delegated_children parent attempt db)
  unfolding delegated_children
  children_below parent attempt db key down =
      All-below
        (λ c h.
          let (l, lineage, own) = child_of parent attempt (spec_of c).delegated_parent h.1 in
          subst (λ p. rank c.id < rank p) own (down c.id c l h.0 lineage))
        (delegated_children parent attempt db)
        (select-Rows db (λ c. is_child parent attempt (spec_of c).delegated_parent) key)

  module _ (fuel : ℕ)
      (answers : (id : ℕ) (db : Realm)
        → Keyed db
        → Descends rank db
        → rank id < fuel
        → Answers (cancel_task w now fuel id db)) where
    contain_each-Answers :
        (parent : ℕ) (attempt : Option ℕ) (cs : List Task) (db : Realm)
        → All (λ (c : Task). rank c.id < fuel) cs
        → Keyed db
        → Descends rank db
        → Answers (contain_each w now (cancel_task w now fuel) parent attempt cs db)
    unfolding contain_each
    contain_each-Answers parent attempt [] db below key down = tt
    contain_each-Answers parent attempt (c ∷ cs) db below key down =
        Answers-if (is_ended c.status) _ _
          (contain_each-Answers parent attempt cs db below.1 key down)
          λ _.
            Answers-bind (cancel_task w now fuel c.id db) _ (answers c.id db key down below.0)
              λ b e.
                let f =
                  Follows-append_event
                    (Each-ok (Follows w db) (cancel_task w now fuel c.id db)
                      (cancel_task-Follows w now fuel c.id db) e)
                    now c.run_id (some c.id) _ in
                contain_each-Answers parent attempt cs _ below.1 (Follows-Keyed w f key)
                  (Follows-Descends rank f down)

    contain_with-Answers :
        (parent : ℕ) (attempt : Option ℕ) (db : Realm)
        → Keyed db
        → Descends rank db
        → rank parent < suc fuel
        → Answers (contain_with w now (cancel_task w now fuel) parent attempt db)
    unfolding contain_with
    contain_with-Answers parent attempt db key down below =
        let closed = close_delegation parent attempt db in
        let f = close_delegation-Follows w parent attempt db in
        let k = Follows-Keyed w f key in
        let d = Follows-Descends rank f down in
        contain_each-Answers parent attempt (delegated_children parent attempt closed) closed
          (All-below (λ c h. omega (arith, h, below)) (delegated_children parent attempt closed)
            (children_below parent attempt closed k d))
          k d

    reconcile_with-Answers :
        (id : ℕ) (attempt : Option ℕ) (db : Realm)
        → Keyed db
        → Descends rank db
        → rank id < suc fuel
        → Answers (reconcile_with w now (cancel_task w now fuel) id attempt db)
    unfolding reconcile_with
    reconcile_with-Answers id none db key down below = tt
    reconcile_with-Answers id (some attempt) db key down below =
        Answers-bind (contain_with w now (cancel_task w now fuel) id (some attempt) db) _
          (contain_with-Answers id (some attempt) db key down below) λ b _. tt

    cancel_open-Answers :
        (task : Task) (db : Realm)
        → Keyed db
        → Descends rank db
        → rank task.id < suc fuel
        → Answers (cancel_open w now (cancel_task w now fuel) task db)
    unfolding cancel_open
    cancel_open-Answers task db key down below =
        Answers-bind (contain_with w now (cancel_task w now fuel) task.id none db) _
          (contain_with-Answers task.id none db key down below)
          λ b e. Answers-if (unresolved_external (binding_at b task.id)) _ _ tt λ _.
            let f =
              Each-ok (Follows w db) (contain_with w now (cancel_task w now fuel) task.id none db)
                (contains w now fuel task.id none db) e in
            Answers-bind (reconcile_with w now (cancel_task w now fuel) task.id task.attempt_id b) _
              (reconcile_with-Answers task.id task.attempt_id b (Follows-Keyed w f key)
                (Follows-Descends rank f down) below)
              λ c _. finish_cancel-Answers w now checks task c

  -- If task identifiers are distinct, each delegated child ranks below its parent, and the check of
  -- a continuation's inputs always answers, then cancelling a task of rank below the fuel returns or
  -- raises one of the program's exceptions: it never runs out of fuel.
  pub cancel_task-Answers :
      (fuel id : ℕ) (db : Realm)
      → Keyed db
      → Descends rank db
      → rank id < fuel
      → Answers (cancel_task w now fuel id db)
  unfolding cancel_task
  cancel_task-Answers zero id db key down below = absurd (omega (arith, below))
  cancel_task-Answers (suc fuel) id db key down below =
      Answers-option (task_at db id) _ _ tt λ task e. Answers-if (is_closed task.status) _ _ tt λ _.
        cancel_open-Answers fuel (cancel_task-Answers fuel) task db key down
          (subst (λ j. rank j < suc fuel) (sym (own_id db id task e)) below)
