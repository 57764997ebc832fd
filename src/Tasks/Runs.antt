-- ===== src/Tasks/Runs.antt =====
-- runtime_protocol/store.py: cancel_run, and retry_run with assert_delegated_retry_capacity. Their
-- replay by idempotency key is the command ledger's (Ledger).
use banodoco_workspace_runti.Base.{
  ℕ, ◌+◌, Bool, true, false, not, ◌&&◌, ◌||◌, Option, none, some, List, [], ◌∷◌, map, select, count,
  any, all, ltb, leb, ◌==◌, if◌then◌else◌, Result, ok, err, conflict, lease, not_found, validation,
  invalid_request, ◌>>=◌, ◌>>◌, require, or_raise,
}
use banodoco_workspace_runti.Tasks.Rows.{
  Task, Lineage, Policy, queued, cancelled, released, stale, is_queued, is_running, is_failed,
  is_terminal, is_provider_unknown,
}
use banodoco_workspace_runti.Tasks.Realm.{
  Realm, World, task_cancelled, task_cancel_requested, task_retried, run_cancelled, run_retried,
  task_at, run_at, binding_at, update_task, update_run, append_event, current_runtime_epoch,
}
use banodoco_workspace_runti.Tasks.Bindings.{
  release_reservations, unresolved_external, release_execution_attempt, reset_execution_attempt,
}
use banodoco_workspace_runti.Tasks.Continuations.{
  spec_of, mem, refresh_continuations_for_predecessor,
}
use banodoco_workspace_runti.Tasks.Cancel.{
  contain_with, reconcile_with, cancel_task, set_cancelled, set_cancel_requested,
  delegated_children,
}
use banodoco_workspace_runti.Tasks.Reap.{unexpired}

-- delegated_child_accounting(…)["active"]
unfoldable pub active_children : Realm → ℕ → Option ℕ → ℕ
active_children db parent attempt =
    count (λ t. not (is_terminal t.status) || is_provider_unknown t.waiting_reason)
      (delegated_children parent attempt db)

abbrev is_id : Option ℕ → ℕ → Bool
is_id none b = false
is_id (some a) b = a == b

abbrev or_zero : Option ℕ → ℕ
or_zero none = 0
or_zero (some n) = n

abbrev limit_of : Policy → ℕ
limit_of p = elim p.max_active_children [ none ↦ 64 | some n ↦ n ]

-- The parent still holds the lease under which it delegated.
unfoldable pub still_delegates : ℕ → Realm → Lineage → Task → Bool
still_delegates now db l p =
    is_running p.status
    && (is_id p.attempt_id l.parent_attempt_id
        && (is_id p.lease_token l.parent_lease_id
            && (p.lease_fence == l.parent_fence
                && (or_zero p.runtime_epoch == current_runtime_epoch db
                    && (not (is_id (spec_of p).delegation_closed_attempt_id l.parent_attempt_id)
                        && unexpired now p.lease_expires_at)))))

-- spec["child_delegation"] of a parent that lacks it is a KeyError, which is not modelled apart.
unfoldable pub assert_capacity : ℕ → Realm → Lineage → Result (Unit {0})
unfolding still_delegates active_children
assert_capacity now db l = elim (task_at db l.parent_task_id) [
  | none ↦ err lease
  | some p ↦
      if not (still_delegates now db l p) then err lease else elim (spec_of p).child_delegation [
        | none ↦ err validation
        | some policy ↦
            require (ltb (active_children db p.id p.attempt_id) (limit_of policy)) validation
      ]
]

-- assert_delegated_retry_capacity
unfoldable pub assert_delegated_retry_capacity : ℕ → Realm → ℕ → Result (Unit {0})
unfolding assert_capacity
assert_delegated_retry_capacity now db id = elim (task_at db id) [
  | none ↦ ok tt
  | some t ↦ elim (spec_of t).delegated_parent [ none ↦ ok tt | some l ↦ assert_capacity now db l ]
]

abbrev pub set_retried : ℕ → Task → Task
set_retried now t = record t {
  status = queued;
  lease_token = none;
  executor_id = none;
  lease_expires_at = none;
  waiting_reason = none;
  result = none;
  attempt_id = none;
  updated_at = now;
}

unfoldable pub distinct : List ℕ → Bool
distinct [] = true
distinct (x ∷ xs) = not (mem x xs) && distinct xs

abbrev pub selects : Option (List ℕ) → ℕ → Bool
selects none id = true
selects (some ids) id = mem id ids

abbrev pub names_distinct : Option (List ℕ) → Bool
names_distinct none = true
names_distinct (some ids) = distinct ids

abbrev pub names_known : Option (List ℕ) → List ℕ → Bool
names_known none known = true
names_known (some ids) known = all (λ id. mem id known) ids

abbrev pub is_retired : Task → Bool
is_retired t = elim t.spec [ none ↦ true | some s ↦ false ]

abbrev pub is_empty : List Task → Bool
is_empty [] = true
is_empty (t ∷ ts) = false

module _ (w : World) (now fuel : ℕ) where
  -- A child whose verified external attempt has to be confirmed, in cancel_run.
  unfoldable pub request_run_cancel : (run_id : ℕ) → Task → Realm → Realm
  request_run_cancel run_id t db =
      append_event w now run_id (some t.id)
        (task_cancel_requested t.attempt_id (binding_at db t.id))
        (release_execution_attempt stale t.id (update_task t.id (set_cancel_requested now) db))

  unfoldable pub finish_run_cancel : (run_id : ℕ) → Task → Realm → Result Realm
  finish_run_cancel run_id t db = refresh_continuations_for_predecessor w now t.id (
      append_event w now run_id (some t.id) task_cancelled (
        release_execution_attempt released t.id
          (release_reservations now t.id t.lease_token (update_task t.id (set_cancelled now) db))))

  -- One round of cancel_run over a child that was not terminal when the children were read: the
  -- realm, and whether the child was cancelled at once.
  unfoldable pub cancel_child : (run_id : ℕ) → Task → Realm → Result (Realm × Bool)
  unfolding request_run_cancel finish_run_cancel
  cancel_child run_id t db = do
    contained ← contain_with w now (cancel_task w now fuel) t.id none db
    if unresolved_external (binding_at contained t.id)
        then ok (request_run_cancel run_id t contained, false)
        else (do
          reconciled ← reconcile_with w now (cancel_task w now fuel) t.id t.attempt_id contained
          finished ← finish_run_cancel run_id t reconciled
          ok (finished, true))

  -- The loop of cancel_run: the realm, the children cancelled and those only asked to stop.
  unfoldable pub cancel_children :
      (run_id : ℕ) → List Task → Realm → Result (Realm × List ℕ × List ℕ)
  unfolding cancel_child
  cancel_children run_id [] db = ok (db, [], [])
  cancel_children run_id (t ∷ ts) db =
      let rest = (λ (db' : Realm). cancel_children run_id ts db') in
      if is_terminal t.status then rest db else (do
        (db', done) ← cancel_child run_id t db
        (db'', cancelled_ids, requested_ids) ← rest db'
        ok (
            if done
            then (db'', t.id ∷ cancelled_ids, requested_ids)
            else (db'', cancelled_ids, t.id ∷ requested_ids)))

  -- cancel_run, for a request that is no replay
  unfoldable pub cancel_run : ℕ → Realm → Result Realm
  unfolding cancel_children
  cancel_run run_id db = do
    run ← or_raise (run_at db run_id) not_found
    require (is_queued run.status || is_running run.status) conflict
    (db', cancelled_ids, requested_ids) ←
        cancel_children run_id (select (λ t. t.run_id == run_id) db.tasks) db
    ok (
        append_event w now run_id none (run_cancelled cancelled_ids requested_ids)
          (update_run run_id (λ r. record r { status = cancelled; updated_at = now }) db'))

  -- One round of retry_run.
  unfoldable pub retry_child : (run_id : ℕ) → Task → Realm → Result Realm
  unfolding assert_delegated_retry_capacity
  retry_child run_id t db = do
    assert_delegated_retry_capacity now db t.id
    let freed = release_reservations now t.id t.lease_token db
    refresh_continuations_for_predecessor w now t.id (
        append_event w now run_id (some t.id) (task_retried (t.attempt + 1)) (
          update_task t.id (set_retried now)
            (reset_execution_attempt (current_runtime_epoch freed) t.id freed)))

  unfoldable pub retry_children : (run_id : ℕ) → List Task → Realm → Result Realm
  unfolding retry_child
  retry_children run_id [] db = ok db
  retry_children run_id (t ∷ ts) db = do db' ← retry_child run_id t db; retry_children run_id ts db'

  -- retry_run, for a request that is no replay. `retention` is the spec retention window.
  unfoldable pub retry_run : (retention run_id : ℕ) → Option (List ℕ) → Realm → Result Realm
  unfolding retry_children
  retry_run retention run_id selected db = do
    run ← or_raise (run_at db run_id) not_found
    require (names_distinct selected) invalid_request
    require (is_failed run.status) conflict
    require (leb now (run.updated_at + retention)) conflict
    let children = select (λ t. t.run_id == run_id) db.tasks
    let eligible = select (λ t. is_failed t.status && selects selected t.id) children
    require (not (any is_retired eligible)) conflict
    require (names_known selected (map (λ t. t.id) children)) not_found
    require (not (is_empty eligible)) conflict
    retried ← retry_children run_id eligible db
    ok (
        append_event w now run_id none (run_retried (map (λ t. t.id) eligible))
          (update_run run_id (λ r. record r { status = queued; updated_at = now }) retried))
