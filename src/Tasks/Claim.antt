-- ===== src/Tasks/Claim.antt =====
-- runtime_protocol/store.py: _claim_task. A task that cannot be granted now stays queued with the
-- reason for which it waits.
use banodoco_workspace_runti.Base.{
  ℕ, ◌+◌, Bool, true, false, not, ◌&&◌, ◌||◌, Option, none, some, List, [], ◌∷◌, count, any, upsert,
  leb, ◌==◌, if◌then◌else◌, Result, ok, err, conflict, not_found, validation, ◌>>=◌, ◌>>◌, require,
  or_raise,
}
use banodoco_workspace_runti.Facts.{execution_facts_match}
use banodoco_workspace_runti.Tasks.Rows.{
  Task, Reservation, Executor, Capability, at, Status, running, Waiting, waiting_for_worker,
  capability_unavailable, insufficient_storage, waiting_for_executor_facts, waiting_for_resource,
  is_queued, is_running, is_cancel_requested, is_provider_unknown,
}
use banodoco_workspace_runti.Tasks.Realm.{
  Realm, World, task_claimed, task_at, update_task, update_run, append_event, set_waiting_reason,
}
use banodoco_workspace_runti.Tasks.Bindings.{is_live}
use banodoco_workspace_runti.Tasks.Continuations.{
  spec_of, project_of, mem, continuation_rows, is_admitted, admit_continuation,
}
use banodoco_workspace_runti.Tasks.Reap.{reap_expired_leases}
use banodoco_workspace_runti.Tasks.Executors.{
  executor_at, capability_at, update_executor, validate_runtime_epoch, advertises,
  executor_capability, executor_live, is_ready_status, descriptor_ready, facts_of, or_no_facts,
  required_resource_keys, storage_preflight,
}

-- LEASE_SECONDS, in milliseconds
abbrev pub lease_time : ℕ
lease_time = 30000

-- A live reservation of the executor for the key.
unfoldable pub occupied : ℕ → ℕ → List Reservation → Bool
occupied executor key = any (λ r. r.executor_id == executor && (r.resource_key == key && is_live r))

-- COUNT(*) of the executor's running tasks
unfoldable pub active_count : ℕ → List Task → ℕ
active_count executor =
    count (λ t. elim t.executor_id [ none ↦ false | some e ↦ e == executor && is_running t.status ])

-- The loop over the required keys.
unfoldable pub blocked_key : Realm → Executor → List ℕ → Option Waiting
blocked_key db e [] = none
blocked_key db e (k ∷ ks) =
    if not (mem k e.resource_keys)
    then some (waiting_for_resource k)
    else if occupied e.id k db.reservations
    then some (waiting_for_resource k)
    else blocked_key db e ks

abbrev pub unknown_or_unready : Option Capability → Option ℕ → Bool
unknown_or_unready none none = false
unknown_or_unready none (some digest) = true
unknown_or_unready (some c) digest = not (is_ready_status c.status)

abbrev pub digest_differs : Option Capability → Option ℕ → Bool
digest_differs c none = false
digest_differs none (some digest) = true
digest_differs (some c) (some digest) = not (c.definition_digest == digest)

-- The tests of the long `elif` chain after the storage preflight.
unfoldable pub block_after_storage :
    ℕ → Realm → Task → Executor → Option Capability → Result (Option Waiting)
unfolding advertises executor_live executor_capability blocked_key
block_after_storage now db task e c =
    if not (advertises e task.capability && executor_live now e)
    then ok (some waiting_for_worker)
    else if digest_differs c task.capability_digest
    then ok (some capability_unavailable)
    else if not (descriptor_ready (executor_capability e task.capability))
    then ok (some waiting_for_worker)
    else (do
      facts ←
          execution_facts_match (or_no_facts (spec_of task).required_facts)
            (facts_of (executor_capability e task.capability))
      ok (
          if not facts
          then some waiting_for_executor_facts
          else if leb e.max_concurrency (active_count e.id db.tasks)
          then some waiting_for_worker
          else blocked_key db e (required_resource_keys db task.capability)))

-- The whole chain: why the task cannot be granted to the executor, or `none`.
unfoldable pub claim_block :
    World → ℕ → Realm → Task → Option Executor → Option Capability → Result (Option Waiting)
unfolding block_after_storage
claim_block w now db task none c = ok (some waiting_for_worker)
claim_block w now db task (some e) c =
    if not e.is_ready
    then ok (some waiting_for_worker)
    else if unknown_or_unready c task.capability_digest
    then ok (some capability_unavailable)
    else (do
      fits ← storage_preflight w now db task.capability (spec_of task).storage_estimate
      if fits then block_after_storage now db task e c else ok (some insufficient_storage))

abbrev pub set_running : (now epoch executor token fence : ℕ) → Task → Task
set_running now epoch executor token fence t = record t {
  status = running;
  executor_id = some executor;
  lease_token = some token;
  lease_fence = fence;
  lease_expires_at = some (at (now + lease_time));
  waiting_reason = none;
  attempt = t.attempt + 1;
  runtime_epoch = some epoch;
  updated_at = now;
}

-- INSERT INTO reservations … ON CONFLICT(task_id, resource_key) DO UPDATE, for each required key
unfoldable pub reserve :
    (now epoch task executor token fence : ℕ) → List ℕ → List Reservation → List Reservation
reserve now epoch task executor token fence [] rs = rs
reserve now epoch task executor token fence (k ∷ ks) rs =
    let row : Reservation = record {
      task_id = task;
      resource_key = k;
      lease_token = token;
      created_at = now;
      released_at = none;
      executor_id = executor;
      fence = fence;
      lease_expires_at = at (now + lease_time);
      runtime_epoch = epoch;
    } in
    reserve now epoch task executor token fence ks
      (upsert (λ r. r.task_id == task && r.resource_key == k) (λ r. row) row rs)

-- _executor_toolchain_digest
unfoldable pub executor_toolchain_digest : World → Executor → Option ℕ
executor_toolchain_digest w e = elim e.source_epoch [
  | none ↦ none
  | some epoch ↦ elim e.source_digest [
    | none ↦ none
    | some source ↦ some (w.toolchain_digest epoch source e.dependency_digest)
  ]
]

-- A render task's spec is stamped with the toolchain of the executor that runs it.
unfoldable pub stamp_toolchain : World → Task → Executor → Realm → Realm
unfolding executor_toolchain_digest
stamp_toolchain w task e db =
    if task.capability == w.render_capability
    then update_task task.id
        (λ t. record t {
          spec =
              some
                (record (spec_of task) { runtime_reuse_toolchain = executor_toolchain_digest w e });
        })
        db
    else db

unfoldable pub same_status : Status → Status → Bool
same_status a b =
    (is_queued a && is_queued b)
    || ((is_running a && is_running b) || (is_cancel_requested a && is_cancel_requested b))

-- queued, or with allow_provider_recovery a task whose provider's state is unknown
unfoldable pub is_claimable : Bool → Task → Bool
is_claimable recovery task =
    is_queued task.status
    || (recovery
        && (is_provider_unknown task.waiting_reason
            && (is_queued task.status || is_cancel_requested task.status)))

module _ (w : World) (now : ℕ) where
  -- The writes of a granted claim.
  unfoldable pub grant : Task → Executor → (token epoch : ℕ) → Realm → Result Realm
  unfolding stamp_toolchain same_status reserve
  grant task e token epoch db =
      let fence = task.lease_fence + 1 in
      let keys = required_resource_keys db task.capability in
      do
        require (count (λ t. t.id == task.id && same_status t.status task.status) db.tasks == 1)
            conflict
        let claimed =
            stamp_toolchain w task e
              (update_task task.id (set_running now epoch e.id token fence) db)
        let started =
            update_executor e.id (λ x. record x { runtime_epoch = epoch; last_seen_at = some now })
              (update_run task.run_id (λ r. record r { status = running; updated_at = now })
                claimed)
        ok (
            append_event w now task.run_id (some task.id)
              (task_claimed e.id (task.attempt + 1) fence keys)
              (record started {
                reservations = reserve now epoch task.id e.id token fence keys started.reservations;
              }))

  -- From the choice of the executor on: the task waits, or is granted.
  unfoldable pub grant_or_wait : Task → (executor token epoch : ℕ) → Realm → Result Realm
  unfolding grant claim_block
  grant_or_wait task executor token epoch db = do
    w.validate_snapshot_refs now (project_of db task.run_id) (spec_of task)
    block ← claim_block w now db task (executor_at db executor) (capability_at db task.capability)
    elim block [
      | some reason ↦ ok (set_waiting_reason now task.id (some reason) db)
      | none ↦ elim (executor_at db executor) [
        | none ↦ err not_found
        | some e ↦ grant task e token epoch db
      ]
    ]

  -- A continuation is admitted before it can be granted.
  unfoldable pub claim_found : Task → (executor token epoch : ℕ) → Realm → Result Realm
  unfolding grant_or_wait
  claim_found task executor token epoch db = elim (continuation_rows db task.id) [
    | [] ↦ grant_or_wait task executor token epoch db
    | r ∷ rs ↦ if is_admitted db task.id then grant_or_wait task executor token epoch db else (do
      admitted ← admit_continuation w now task.id db
      if not (is_admitted admitted task.id) then ok admitted else do
        task' ← or_raise (task_at admitted task.id) not_found
        grant_or_wait task' executor token epoch admitted)
  ]

  -- _claim_task. `recovery` is allow_provider_recovery.
  unfoldable pub claim_task :
      (fuel : ℕ) → Bool → ℕ → Option ℕ → Option ℕ → Option ℕ → Realm → Result Realm
  unfolding claim_found is_claimable
  claim_task fuel recovery id executor_id lease_token runtime_epoch db = do
    executor ← or_raise executor_id validation
    token ← or_raise lease_token validation
    epoch ← validate_runtime_epoch db runtime_epoch (some executor) true
    reaped ← reap_expired_leases w now fuel db
    task ← or_raise (task_at reaped id) not_found
    require (is_claimable recovery task) conflict
    if is_provider_unknown task.waiting_reason && not recovery
        then ok reaped
        else claim_found task executor token epoch reaped
