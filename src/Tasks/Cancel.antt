-- ===== src/Tasks/Cancel.antt =====
-- runtime_protocol/store.py: cancellation of a task, and the containment of the children to which a
-- parent attempt delegated work. Cancelling a child contains its own children in turn; the recursion
-- is on fuel, and Tasks/Cancel/Total says how much is enough.
use banodoco_workspace_runti.Base.{
  ℕ, zero, suc, Bool, true, false, not, ◌&&◌, ◌||◌, Option, none, some, List, [], ◌∷◌, first,
  select, update, ◌==◌, if◌then◌else◌, Result, ok, err, not_found, out_of_fuel, ◌>>=◌,
}
use banodoco_workspace_runti.Tasks.Rows.{
  Task, Lineage, Status, cancel_requested, cancelled, provider_state_unknown, Binding, released,
  stale, Spec, is_completed, is_cancel_requested, is_cancelled, is_terminal,
}
use banodoco_workspace_runti.Tasks.Realm.{
  Realm, World, task_cancelled, task_cancel_requested, task_parent_contained, task_at, binding_at,
  update_task, update_run, append_event,
}
use banodoco_workspace_runti.Tasks.Bindings.{
  release_reservations, unresolved_external, release_execution_attempt,
}
use banodoco_workspace_runti.Tasks.Continuations.{spec_of, refresh_continuations_for_predecessor}

abbrev pub same_id : Option ℕ → Option ℕ → Bool
same_id none none = true
same_id (some a) (some b) = a == b
same_id _ _ = false

-- the attempt filter, which is dropped where no attempt is given
abbrev pub of_attempt : Option ℕ → ℕ → Bool
of_attempt none a = true
of_attempt (some b) a = a == b

abbrev pub is_child : ℕ → Option ℕ → Option Lineage → Bool
is_child parent attempt none = false
is_child parent attempt (some l) =
    l.parent_task_id == parent && of_attempt attempt l.parent_attempt_id

-- delegated_children
unfoldable pub delegated_children : ℕ → Option ℕ → Realm → List Task
delegated_children parent attempt db =
    select (λ t. is_child parent attempt (spec_of t).delegated_parent) db.tasks

abbrev pub or_else : Option ℕ → Option ℕ → Option ℕ
or_else none b = b
or_else (some a) b = some a

abbrev pub closes : Spec → Option ℕ → Option ℕ → Bool
closes spec attempt parent_attempt = elim spec.child_delegation [
  | none ↦ false
  | some _ ↦ elim attempt [ none ↦ true | some a ↦ same_id parent_attempt (some a) ]
]

-- The first half of contain_delegated_children: no further child may be delegated.
unfoldable pub close_delegation : ℕ → Option ℕ → Realm → Realm
close_delegation parent attempt db = elim (task_at db parent) [
  | none ↦ db
  | some p ↦
      if closes (spec_of p) attempt p.attempt_id
      then (let closed = record (spec_of p) {
        delegation_closed_attempt_id = or_else attempt p.attempt_id;
      } in
          update_task parent (λ t. record t { spec = some closed }) db)
      else db
]

abbrev pub status_at : Realm → ℕ → Option Status
status_at db id = elim (task_at db id) [ none ↦ none | some t ↦ some t.status ]

-- status in {"completed", "failed", "cancelled", "cancel_requested"}
abbrev pub is_ended : Status → Bool
is_ended s = is_terminal s || is_cancel_requested s

-- status in ("completed", "cancel_requested", "cancelled")
abbrev pub is_closed : Status → Bool
is_closed s = is_completed s || (is_cancel_requested s || is_cancelled s)

-- The columns that a cancellation clears.
abbrev pub set_cancelled : ℕ → Task → Task
set_cancelled now t = record t {
  status = cancelled;
  lease_token = none;
  executor_id = none;
  attempt_id = none;
  lease_expires_at = none;
  waiting_reason = none;
  updated_at = now;
}

abbrev pub set_cancel_requested : ℕ → Task → Task
set_cancel_requested now t = record t {
  status = cancel_requested;
  waiting_reason = some provider_state_unknown;
  updated_at = now;
}

-- UPDATE attempts SET settled=1 WHERE id=? AND task_id=? AND settled=0
unfoldable pub settle_attempt_of : ℕ → ℕ → Realm → Realm
settle_attempt_of attempt task_id db = record db {
  attempts =
      update (λ a. a.id == attempt && (a.task_id == task_id && not a.settled))
        (λ a. record a { settled = true }) db.attempts;
}

-- What _reconcile_runtime_attempt returns: the attempt, if the task has it.
unfoldable pub reconciled_id : Realm → ℕ → Option ℕ → Option ℕ
reconciled_id db task_id none = none
reconciled_id db task_id (some attempt) =
    elim (first (λ a. a.id == attempt && a.task_id == task_id) db.attempts) [
      | none ↦ none
      | some a ↦ some a.id
    ]

module _ (w : World) (now : ℕ) where
  -- The loop of contain_delegated_children over the children that its query returned. `cancel` is
  -- cancel_task.
  unfoldable pub contain_each :
      (ℕ → Realm → Result Realm) → ℕ → Option ℕ → List Task → Realm → Result Realm
  contain_each cancel parent attempt [] db = ok db
  contain_each cancel parent attempt (c ∷ cs) db =
      let rest = (λ (db' : Realm). contain_each cancel parent attempt cs db') in
      if is_ended c.status then rest db else (do
        db' ← cancel c.id db
        rest (
            append_event w now c.run_id (some c.id)
              (task_parent_contained parent attempt (status_at db' c.id)) db'))

  -- contain_delegated_children
  unfoldable pub contain_with : (ℕ → Realm → Result Realm) → ℕ → Option ℕ → Realm → Result Realm
  unfolding contain_each
  contain_with cancel parent attempt db =
      let closed = close_delegation parent attempt db in
      contain_each cancel parent attempt (delegated_children parent attempt closed) closed

  -- _reconcile_runtime_attempt
  unfoldable pub reconcile_with : (ℕ → Realm → Result Realm) → ℕ → Option ℕ → Realm → Result Realm
  reconcile_with cancel task_id none db = ok db
  reconcile_with cancel task_id (some attempt) db = do
    db' ← contain_with cancel task_id (some attempt) db
    ok (settle_attempt_of attempt task_id db')

  -- The branch of cancel_task that leaves a verified external attempt to be confirmed.
  unfoldable pub request_cancel : Task → Option Binding → Realm → Realm
  request_cancel task binding db =
      append_event w now task.run_id (some task.id) (task_cancel_requested task.attempt_id binding)
        (release_execution_attempt stale task.id
          (update_task task.id (set_cancel_requested now) db))

  -- The writes of the other branch of cancel_task, after the attempt is reconciled.
  unfoldable pub finish_cancel : Task → Realm → Result Realm
  finish_cancel task db = refresh_continuations_for_predecessor w now task.id (
      append_event w now task.run_id (some task.id) task_cancelled (
        release_execution_attempt released task.id (
          release_reservations now task.id task.lease_token (
            update_run task.run_id (λ r. record r { status = cancelled; updated_at = now })
              (update_task task.id (set_cancelled now) db)))))

  unfoldable pub cancel_open : (ℕ → Realm → Result Realm) → Task → Realm → Result Realm
  unfolding contain_with reconcile_with request_cancel finish_cancel
  cancel_open cancel task db = do
    contained ← contain_with cancel task.id none db
    let binding = binding_at contained task.id
    if unresolved_external binding then ok (request_cancel task binding contained) else do
      reconciled ← reconcile_with cancel task.id task.attempt_id contained
      finish_cancel task reconciled

  -- cancel_task
  unfoldable pub cancel_task : ℕ → ℕ → Realm → Result Realm
  unfolding cancel_open
  cancel_task zero id db = err out_of_fuel
  cancel_task (suc fuel) id db =
      let cancel = cancel_task fuel in
      elim (task_at db id) [
        | none ↦ err not_found
        | some task ↦ if is_closed task.status then ok db else cancel_open cancel task db
      ]
