-- ===== src/Tasks/Samples.antt =====
-- A small realm, and the theorems of the task lifecycle applied to it.
pub mod Retry
use banodoco_workspace_runti.Base.{
  ℕ, ◌+◌, ◌≡◌, refl, Bool, true, false, Option, none, some, [], ◌∷◌, Result, ok, err, lease, arith,
  first, update, select, any, count, not, All, ◌==◌, if◌then◌else◌,
}
use banodoco_workspace_runti.Tasks.Rows.{
  Task, Executor, Reservation, Attempt, Binding, is_running, Lifecycle, TaskResult, Status, running,
  queued, completed, ready, at,
}
use banodoco_workspace_runti.Tasks.Realm.{
  Realm, World, task_at, update_task, update_run, append_event, current_runtime_epoch,
}
use banodoco_workspace_runti.Tasks.Bindings.{
  is_live, is_placed, release_reservations, release_execution_attempt,
}
use banodoco_workspace_runti.Tasks.Continuations
use banodoco_workspace_runti.Tasks.Executors.{set_executor_readiness, heartbeat_executor}
use banodoco_workspace_runti.Tasks.Cancel.{delegated_children, cancel_task}
use banodoco_workspace_runti.Tasks.Claim.{claim_task}
use banodoco_workspace_runti.Tasks.Settle.{
  assert_lease, in_time, heartbeat_task, extend_lease, settle_attempt,
}
use banodoco_workspace_runti.Tasks.Commands.{run, heartbeat, Reaches, here, next, Spared}
use banodoco_workspace_runti.Tasks.Follows.Running.{Keyed}
use banodoco_workspace_runti.Tasks.Exclusive.{Exclusive}
use banodoco_workspace_runti.Tasks.Fencing.{Refused, stale_fence-Refused, final_is_kept}
use banodoco_workspace_runti.Tasks.Grants.{Outcome, claim_task-Outcome}
use banodoco_workspace_runti.Tasks.Claim.{
  claim_found, grant_or_wait, claim_block, block_after_storage, is_claimable, blocked_key, occupied,
  active_count, grant, stamp_toolchain, same_status,
}
use banodoco_workspace_runti.Facts
use banodoco_workspace_runti.Json
use banodoco_workspace_runti.Tasks.Reap
use banodoco_workspace_runti.Tasks.Executors.{
  validate_runtime_epoch, executor_at, capability_at, storage_preflight, advertises, executor_live,
  executor_capability, required_resource_keys,
}
use banodoco_workspace_runti.Tasks.Answers.{Answers}
use banodoco_workspace_runti.Tasks.Termination.{Descends, cancel_task-Answers}
use banodoco_workspace_runti.Facts.Printed.{
  or_empty, exact_fields, minimum_fields, json_of, normalize-json_of,
}
use banodoco_workspace_runti.Lifecycle.{
  Report, interruption_report, is_safe, assert_interruption_safe,
}
use banodoco_workspace_runti.Lifecycle.Safety.{interruption-idle}
use banodoco_workspace_runti.Placement.{
  Target, Placed, missing, given, machine, default, same_identity, same_pins, target_matches,
  execution_placement_matches,
}
use banodoco_workspace_runti.Tasks.Registration.{
  Advertisement, Registration, normalized_facts, upsert_executor,
}
use banodoco_workspace_runti.Tasks.Registration.Catalog.{Catalogued, upsert_executor-Catalogued}
use banodoco_workspace_runti.Tasks.Invariants.{
  Chained, Extends, keys_stay_Exclusive, log_stays_Chained, old_epoch_refused,
}
use banodoco_workspace_runti.Tasks.Fencing.Settled.{settle_attempt_completes}
use banodoco_workspace_runti.Tasks.Session.{begin_runtime_session}

abbrev pub world : World
world = record {
  event_hash = λ run task kind previous now. run + now;
  policy_digest = λ p. 1;
  toolchain_digest = λ e s d. e + s;
  capability_id_digest = λ c. c + 100;
  free_disk = λ now. 1000;
  disk_floor = ok 100;
  validate_task_inputs = λ now p xs. ok tt;
  validate_snapshot_refs = λ now p s. ok tt;
  outputs_verified = λ now t. true;
  apply_effect = λ now t e r. ok r;
  is_publish_v1 = λ e. false;
  render_capability = 77;
}

abbrev pub task_of : ℕ → Status → Task
task_of id s = record {
  id = id;
  run_id = 1;
  capability = 20;
  spec = none;
  request_target = none;
  status = s;
  lease_token = some 5;
  executor_id = some 3;
  attempt = 2;
  expected_effect = none;
  result = none;
  updated_at = 0;
  capability_digest = none;
  waiting_reason = none;
  lease_expires_at = some (at 9000);
  lease_fence = 2;
  attempt_id = none;
  runtime_epoch = some 4;
}

abbrev held : Reservation
held = record {
  task_id = 10;
  resource_key = 30;
  lease_token = 5;
  created_at = 0;
  released_at = none;
  executor_id = 3;
  fence = 2;
  lease_expires_at = at 9000;
  runtime_epoch = 4;
}

abbrev worker : Executor
worker = record {
  id = 3;
  max_concurrency = 2;
  resource_keys = 30 ∷ 31 ∷ [];
  capabilities =
      record { capability_id = 20; definition_digest = none; status = none; verified_facts = none }
      ∷ [];
  is_ready = true;
  readiness_reason = none;
  last_seen_at = some 100;
  runtime_epoch = 4;
  source_epoch = none;
  source_digest = none;
  dependency_digest = none;
}

abbrev session : Lifecycle
session = record {
  runtime_epoch = 4;
  boot_id = 8;
  previous_boot_id = none;
  recovered_task_count = 0;
}

-- Task 10 runs under fence 2, task 11 is completed, task 12 is queued.
abbrev pub realm : Realm
realm = record {
  tasks = task_of 10 running ∷ task_of 11 completed ∷ task_of 12 queued ∷ [];
  runs = record { id = 1; project_id = none; status = running; updated_at = 0 } ∷ [];
  attempts = [];
  reservations = held ∷ [];
  capabilities =
      record {
        id = 20;
        definition_digest = 9;
        status = ready;
        required_resource_keys = 31 ∷ [];
        estimated_scratch_bytes = 10;
        estimated_output_bytes = 10;
        unavailable_reason = none;
      }
      ∷ [];
  executors = worker ∷ [];
  bindings = [];
  dependencies = [];
  admissions = [];
  checkpoints = [];
  events = [];
  lifecycle = some session;
}

realm-Keyed : Keyed realm
unfolding Continuations.mem
realm-Keyed = (refl, (refl, (refl, tt)))

abbrev pub realm_or : Result Realm → Realm
realm_or (ok db) = db
realm_or (err x) = realm

abbrev extended : Realm
extended = realm_or (run world 500 3 (heartbeat 10 5 (some 2) 30) realm)

extends : run world 500 3 (heartbeat 10 5 (some 2) 30) realm ≡ ok extended
unfolding run heartbeat_task extend_lease assert_lease task_at first update_task update
extends = refl

reached : Reaches world realm extended
reached = next 500 3 (heartbeat 10 5 (some 2) 30) extends here

stale_fence-Refused_example : Refused world 600 10 5 (some 1) extended
unfolding task_at first
stale_fence-Refused_example =
    stale_fence-Refused world realm-Keyed reached 600 10 5 1 (task_of 10 running) refl (omega arith)

keys_stay_Exclusive_example : Exclusive extended.reservations
keys_stay_Exclusive_example = keys_stay_Exclusive world realm-Keyed reached (tt, tt)

log_stays_Chained_example : Chained world extended.events × Extends realm.events extended.events
log_stays_Chained_example = log_stays_Chained world realm-Keyed reached tt

abbrev outputs : TaskResult
outputs = record { outputs = none }

abbrev settled : Realm
settled = realm_or (settle_attempt world 500 10 5 (some 2) 6 none outputs realm)

settles : settle_attempt world 500 10 5 (some 2) 6 none outputs realm ≡ ok settled
unfolding settle_attempt assert_lease task_at first delegated_children select
    Continuations.refresh_continuations_for_predecessor append_event release_execution_attempt
    release_reservations update_run update_task
settles = refl

settle_attempt_completes_example :
    (t : Task) × (stored : TaskResult) × (u : Task) × (task_at realm 10 ≡ some t)
    × (is_running t.status ≡ true)
    × (t.lease_token ≡ some 5)
    × ((given : ℕ) → some 2 ≡ some given → t.lease_fence ≡ given)
    × (in_time 500 t.lease_expires_at ≡ true)
    × (world.apply_effect 500 t none outputs ≡ ok stored)
    × (task_at settled 10 ≡ some u)
    × (u.status ≡ completed)
    × (u.result ≡ some stored)
settle_attempt_completes_example =
    settle_attempt_completes world 500 10 5 (some 2) 6 none outputs realm settled settles

abbrev idle : Realm
idle = record realm { tasks = task_of 11 completed ∷ [] }

abbrev booted : Realm
booted = realm_or (begin_runtime_session world 700 3 (some 9) none idle)

boots : begin_runtime_session world 700 3 (some 9) none idle ≡ ok booted
unfolding begin_runtime_session select
boots = refl

old_epoch_refused_example :
    ((now fuel id : ℕ) (recovery : Bool)
      → claim_task world now fuel recovery id (some 3) (some 5) (some 4) booted ≡ err lease)
    × ((now default : ℕ) (ready : Bool) (reason : Option ℕ)
        → set_executor_readiness now default (some 3) ready reason (some 4) booted ≡ err lease)
    × ((now default : ℕ) (ready : Option Bool) (reason : Option ℕ)
        → heartbeat_executor now default (some 3) ready reason (some 4) booted ≡ err lease)
unfolding Continuations.mem
old_epoch_refused_example =
    old_epoch_refused world idle booted booted (refl, tt) 700 3 (some 9) none session refl boots
      here 4 3 5 (omega arith)

abbrev claimed : Realm
claimed = realm_or (claim_task world 500 3 false 12 (some 3) (some 6) (some 4) realm)

claims : claim_task world 500 3 false 12 (some 3) (some 6) (some 4) realm ≡ ok claimed
unfolding claim_task validate_runtime_epoch current_runtime_epoch Reap.reap_expired_leases
    Reap.contain_orphaned_delegations Reap.contain_orphans Reap.delegated_rows
    Reap.overdue_lease_rows Reap.reap_rows select task_at first is_claimable claim_found
    Continuations.continuation_rows Continuations.dependency_rows grant_or_wait claim_block
    executor_at capability_at storage_preflight Facts.validate_storage_estimate block_after_storage
    advertises any executor_live executor_capability Facts.execution_facts_match
    Facts.normalize_execution_facts Facts.sub_object Facts.exact_facts Facts.minimum_facts
    Facts.exact_match Facts.minimum_match Json.keys_within Json.get blocked_key Continuations.mem
    required_resource_keys occupied active_count count grant stamp_toolchain same_status update_task
claims = refl

claim_task-Outcome_example : Outcome world 500 3 12 3 6 4 realm claimed
claim_task-Outcome_example = claim_task-Outcome world 500 3 false 12 3 6 4 realm claimed claims

-- Task 13 is delegated by task 10.
abbrev child : Task
child = record (task_of 13 queued) {
  spec = some (record Continuations.empty_spec {
    delegated_parent = some (record {
      parent_task_id = 10;
      parent_attempt_id = 6;
      parent_lease_id = 5;
      parent_fence = 2;
      runtime_epoch = 4;
      project_id = none;
      executor_id = 3;
      policy_digest = none;
    });
  });
}

abbrev family : Realm
family = record realm { tasks = task_of 10 running ∷ child ∷ [] }

abbrev rank : ℕ → ℕ
rank j = if j == 10 then 1 else 0

family-Keyed : Keyed family
unfolding Continuations.mem
family-Keyed = (refl, (refl, tt))

family-Descends : Descends rank family
unfolding task_at first
family-Descends j t l e k = ground (arith, e, k)

cancel_task-Answers_example : Answers (cancel_task world 500 2 10 family)
cancel_task-Answers_example =
    cancel_task-Answers world 500 rank (λ now project inputs. tt) 2 10 family family-Keyed
      family-Descends (omega arith)
