-- ===== src/Tasks/Reap.antt =====
-- runtime_protocol/store.py: delegated children whose parent has lost its authority, and leases whose
-- deadline has passed.
use banodoco_workspace_runti.Base.{
  ℕ, Bool, true, false, not, ◌&&◌, Option, none, some, List, [], ◌∷◌, first, select, ltb, ◌==◌,
  if◌then◌else◌, Result, ok, ◌>>=◌,
}
use banodoco_workspace_runti.Tasks.Rows.{
  Task, Attempt, Lineage, Deadline, at, unreadable, overdue, queued, provider_state_unknown,
  waiting_for_worker, is_active, is_running, is_terminal, Binding,
}
use banodoco_workspace_runti.Tasks.Realm.{
  Realm, World, task_lease_expired, task_provider_state_unknown, task_at, binding_at, update_task,
  append_event, current_runtime_epoch,
}
use banodoco_workspace_runti.Tasks.Bindings.{
  release_reservations, unresolved_external, reset_execution_attempt,
}
use banodoco_workspace_runti.Tasks.Continuations.{spec_of, project_of}
use banodoco_workspace_runti.Tasks.Cancel.{
  same_id, contain_with, reconcile_with, reconciled_id, cancel_task,
}
use banodoco_workspace_runti.Base.{update}

abbrev is_id : Option ℕ → ℕ → Bool
is_id none b = false
is_id (some a) b = a == b

-- A lease deadline that lies in the future.
abbrev pub unexpired : ℕ → Option Deadline → Bool
unexpired now none = false
unexpired now (some (at t)) = ltb now t
unexpired now (some unreadable) = false

abbrev pub is_overdue : ℕ → Option Deadline → Bool
is_overdue now none = false
is_overdue now (some d) = overdue now d

abbrev is_policy : (Option ℕ) → ℕ → Bool
is_policy none d = true
is_policy (some p) d = d == p

unfoldable pub attempt_authorises : Lineage → Option Attempt → Bool
attempt_authorises l none = false
attempt_authorises l (some a) =
    not a.settled
    && (a.lease_id == l.parent_lease_id
        && (a.fence == l.parent_fence
            && (a.runtime_epoch == l.runtime_epoch && a.executor_id == l.executor_id)))

-- UPDATE runs SET status='queued' WHERE id=? AND status='running'
unfoldable pub requeue_run : ℕ → ℕ → Realm → Realm
requeue_run now run_id db = record db {
  runs =
      update (λ r. r.id == run_id && is_running r.status)
        (λ r. record r { status = queued; updated_at = now }) db.runs;
}

module _ (w : World) (now : ℕ) where
  -- `live` of _contain_orphaned_delegations
  unfoldable pub has_authority : Realm → Lineage → Bool
  unfolding attempt_authorises
  has_authority db l = elim (task_at db l.parent_task_id) [
    | none ↦ false
    | some p ↦
        is_running p.status
        && (is_id p.attempt_id l.parent_attempt_id
            && (is_id p.lease_token l.parent_lease_id
                && (p.lease_fence == l.parent_fence
                    && (is_id p.runtime_epoch (current_runtime_epoch db)
                        && (current_runtime_epoch db == l.runtime_epoch
                            && (not (
                                  is_id (spec_of p).delegation_closed_attempt_id
                                    l.parent_attempt_id)
                                && (same_id (project_of db p.run_id) l.project_id
                                    && (is_id p.executor_id l.executor_id
                                        && (attempt_authorises l
                                              (first (λ a. a.id == l.parent_attempt_id) db.attempts)
                                            && (is_policy l.policy_digest
                                                  (w.policy_digest (spec_of p).child_delegation)
                                                && unexpired now p.lease_expires_at))))))))))
  ]

  abbrev has_lineage : Option Lineage → Bool
  has_lineage none = false
  has_lineage (some l) = true

  module _ (fuel : ℕ) where
    abbrev contain : ℕ → Option ℕ → Realm → Result Realm
    contain = contain_with w now (cancel_task w now fuel)

    unfoldable pub contain_orphan : Option Lineage → Realm → Result Realm
    unfolding has_authority
    contain_orphan none db = ok db
    contain_orphan (some l) db =
        if has_authority db l then ok db else contain l.parent_task_id (some l.parent_attempt_id) db

    unfoldable pub contain_orphans : List Task → Realm → Result Realm
    unfolding contain_orphan
    contain_orphans [] db = ok db
    contain_orphans (c ∷ cs) db = do
      db' ← contain_orphan (spec_of c).delegated_parent db
      contain_orphans cs db'

    -- The query of _contain_orphaned_delegations.
    unfoldable pub delegated_rows : Realm → List Task
    delegated_rows db =
        select (λ t. not (is_terminal t.status) && has_lineage (spec_of t).delegated_parent)
          db.tasks

    -- _contain_orphaned_delegations
    unfoldable pub contain_orphaned_delegations : Realm → Result Realm
    unfolding contain_orphans
    contain_orphaned_delegations db = contain_orphans (delegated_rows db) db

    -- _overdue_lease_rows
    unfoldable pub overdue_lease_rows : Realm → List Task
    overdue_lease_rows db =
        select (λ t. is_active t.status && is_overdue now t.lease_expires_at) db.tasks

    -- A verified external attempt is not requeued: it waits for its provider's state.
    unfoldable pub mark_provider_unknown : Task → Option Binding → Realm → Realm
    mark_provider_unknown row binding db =
        append_event w now row.run_id (some row.id)
          (task_provider_state_unknown row.attempt_id binding)
          (update_task row.id
            (λ t. record t { waiting_reason = some provider_state_unknown; updated_at = now }) db)

    abbrev pub set_requeued : Task → Task
    set_requeued t = record t {
      status = queued;
      executor_id = none;
      lease_token = none;
      lease_expires_at = none;
      waiting_reason = some waiting_for_worker;
      updated_at = now;
    }

    unfoldable pub requeue : Task → Realm → Result Realm
    requeue row db = do
      reconciled ←
          reconcile_with w now (cancel_task w now fuel) row.id row.attempt_id
            (update_task row.id set_requeued db)
      let released =
          release_reservations now row.id row.lease_token (requeue_run now row.run_id reconciled)
      ok (
          append_event w now row.run_id (some row.id)
            (task_lease_expired (reconciled_id reconciled row.id row.attempt_id))
            (reset_execution_attempt (current_runtime_epoch released) row.id released))

    -- One round of the loop of _reap_expired_leases.
    unfoldable pub reap_row : Task → Realm → Result Realm
    unfolding mark_provider_unknown requeue
    reap_row row db = elim (task_at db row.id) [
      | none ↦ ok db
      | some latest ↦ if not (is_active latest.status) then ok db else (do
        contained ← contain row.id row.attempt_id db
        let binding = binding_at contained row.id
        if unresolved_external binding
            then ok (mark_provider_unknown row binding contained)
            else requeue row contained)
    ]

    unfoldable pub reap_rows : List Task → Realm → Result Realm
    unfolding reap_row
    reap_rows [] db = ok db
    reap_rows (t ∷ ts) db = do db' ← reap_row t db; reap_rows ts db'

    -- _reap_expired_leases
    unfoldable pub reap_expired_leases : Realm → Result Realm
    unfolding contain_orphaned_delegations delegated_rows overdue_lease_rows reap_rows
    reap_expired_leases db = do
      contained ← contain_orphaned_delegations db
      reap_rows (overdue_lease_rows contained) contained

    -- reap_overdue_leases: nothing is done inside a transaction, or with no overdue lease.
    unfoldable pub reap_overdue_leases : (in_transaction : Bool) → Realm → Result Realm
    reap_overdue_leases true db = ok db
    reap_overdue_leases false db = elim (overdue_lease_rows db) [
      | [] ↦ ok db
      | row ∷ rows ↦ reap_expired_leases db
    ]
