-- ===== src/Service/Recovery/Samples.antt =====
-- A small machine, and the theorems of the recovery handshake applied to it.
use banodoco_workspace_runti.Base.{
  ◌+◌, ◌≡◌, ◌≢◌, refl, true, false, none, some, [], ◌∷◌, Result, ok, err, arith, first, any, update,
  count, select,
}
use banodoco_workspace_runti.Tasks.Rows.{
  Task, Attempt, Checkpoint, CheckpointState, Executor, Status, running, queued, ready, at,
}
use banodoco_workspace_runti.Tasks.Realm.{
  World, current_runtime_epoch, task_at, update_task, update_run, append_event, binding_at,
}
use banodoco_workspace_runti.Facts
use banodoco_workspace_runti.Json
use banodoco_workspace_runti.Tasks.Reap
use banodoco_workspace_runti.Tasks.Executors.{
  validate_runtime_epoch, executor_at, capability_at, storage_preflight, advertises, executor_live,
  executor_capability, required_resource_keys, update_executor,
}
use banodoco_workspace_runti.Tasks.Claim.{
  claim_task, claim_found, grant_or_wait, claim_block, block_after_storage, is_claimable,
  blocked_key, occupied, active_count, grant, stamp_toolchain, same_status,
}
use banodoco_workspace_runti.Tasks.Continuations
use banodoco_workspace_runti.Tasks.Follows.Running.{Keyed}
use banodoco_workspace_runti.Service.Recovery.{Machine, Host}
use banodoco_workspace_runti.Service.Recovery.Handshake.{
  Begun, claimed, begin_reboot, finish_reboot,
}
use banodoco_workspace_runti.Service.Recovery.Resume.{Resumer, resume_attempt, resume_receipt}
use banodoco_workspace_runti.Service.Recovery.Once.{
  Later, finished, at_once, then_next, begin_reboot-once,
}
use banodoco_workspace_runti.Service.Recovery.Resumed.{resume_attempt-once}

abbrev pub world : World
world = record {
  event_hash = λ run task kind previous now. run + now;
  policy_digest = λ p. 1;
  toolchain_digest = λ e s d. e + s;
  capability_id_digest = λ c. c + 100;
  free_disk = λ now. 1000;
  disk_floor = ok 100;
  validate_task_inputs = λ now p xs. ok tt;
  validate_snapshot_refs = λ now p s. ok tt;
  outputs_verified = λ now t. true;
  apply_effect = λ now t e r. ok r;
  is_publish_v1 = λ e. false;
  render_capability = 77;
}

abbrev pub host : Host
host = record {
  bytes_of = λ payload. payload + 1;
  payload_of = λ bytes. bytes;
  length_of = λ bytes. 8;
  sha256 = λ bytes. bytes + 40;
  is_allowed = λ command. true;
  attempt_identity = λ executor task. ok tt;
}

abbrev resumer : Resumer
resumer = record {
  local_admission = λ executor. ok tt;
  is_drained = λ c. false;
  placement = none;
  matches = λ target p. true;
  is_qualified = λ task p. true;
}

abbrev worker : Executor
worker = record {
  id = 3;
  max_concurrency = 2;
  resource_keys = 30 ∷ [];
  capabilities =
      record { capability_id = 20; definition_digest = none; status = none; verified_facts = none }
      ∷ [];
  is_ready = true;
  readiness_reason = none;
  last_seen_at = some 100;
  runtime_epoch = 4;
  source_epoch = none;
  source_digest = none;
  dependency_digest = none;
}

abbrev task_of : Status → Task
task_of s = record {
  id = 10;
  run_id = 1;
  capability = 20;
  spec = none;
  request_target = none;
  status = s;
  lease_token = some 5;
  executor_id = some 3;
  attempt = 2;
  expected_effect = none;
  result = none;
  updated_at = 0;
  capability_digest = none;
  waiting_reason = none;
  lease_expires_at = some (at 9000);
  lease_fence = 2;
  attempt_id = some 50;
  runtime_epoch = some 4;
}

abbrev attempt_row : Attempt
attempt_row = record {
  id = 50;
  task_id = 10;
  lease_id = 5;
  fence = 2;
  executor_id = 3;
  lease_expires_at = at 9000;
  settled = false;
  runtime_epoch = 4;
  recovery_nonce = some 90;
  recovery_nonce_expires_at = some 300000;
  recovery_nonce_used = false;
}

abbrev checkpoint_of : CheckpointState → Checkpoint
checkpoint_of s = record {
  id = 60;
  attempt_id = 50;
  task_id = 10;
  executor_id = 3;
  runtime_epoch = 4;
  lease_id = 5;
  fence = 2;
  nonce = 90;
  digest = 48;
  size = 8;
  state = s;
  receipt = none;
  created_at = 100;
}

abbrev machine_of : Status → CheckpointState → Machine
machine_of s c = record {
  db = record {
    tasks = task_of s ∷ [];
    runs = record { id = 1; project_id = none; status = running; updated_at = 0 } ∷ [];
    attempts = attempt_row ∷ [];
    reservations = [];
    capabilities =
        record {
          id = 20;
          definition_digest = 9;
          status = ready;
          required_resource_keys = 30 ∷ [];
          estimated_scratch_bytes = 10;
          estimated_output_bytes = 10;
          unavailable_reason = none;
        }
        ∷ [];
    executors = worker ∷ [];
    bindings = [];
    dependencies = [];
    admissions = [];
    checkpoints = checkpoint_of c ∷ [];
    events = [];
    lifecycle = some (record {
      runtime_epoch = 4;
      boot_id = 8;
      previous_boot_id = none;
      recovered_task_count = 0;
    });
  };
  files = (60, 8) ∷ [];
}

abbrev pub machine : Machine
machine = machine_of running CheckpointState.durable

machine-Keyed : Keyed machine.db
unfolding Continuations.mem
machine-Keyed = (refl, tt)

abbrev machine_or : Result (Machine × Begun) → Machine
machine_or (ok s) = s.0
machine_or (err e) = machine

abbrev begun_machine : Machine
begun_machine = machine_or (begin_reboot host 500 90 90 4 (some 60) none 1 true machine)

begins :
    begin_reboot host 500 90 90 4 (some 60) none 1 true machine
    ≡ ok (begun_machine, claimed (checkpoint_of CheckpointState.durable) 8)
unfolding begin_reboot validate_runtime_epoch current_runtime_epoch first count
begins = refl

abbrev finished_machine : Machine
finished_machine =
    finish_reboot host 4 1 (some 7) (checkpoint_of CheckpointState.durable) begun_machine

afterwards : Later host world begun_machine finished_machine
afterwards = then_next at_once (finished 4 1 (some 7) (checkpoint_of CheckpointState.durable))

begin_reboot-once_example :
    begin_reboot host 600 90 90 4 (some 60) (some 50) 1 true finished_machine
    ≢ ok (begun_machine, claimed (checkpoint_of CheckpointState.durable) 8)
unfolding count
begin_reboot-once_example =
    begin_reboot-once host world 500 90 90 4 (some 60) none 1 true
      (checkpoint_of CheckpointState.durable) 8 machine begun_machine finished_machine machine-Keyed
      (omega arith) begins afterwards 600 90 4 (some 60) (some 50) 1 true
      (checkpoint_of CheckpointState.durable) 8 begun_machine

-- The task is queued again, and its checkpoint was executed.
abbrev stopped : Machine
stopped = machine_of queued CheckpointState.executed

abbrev resumed_machine : Machine
resumed_machine = (resume_attempt host resumer world 500 5 90 90 4 (some 60) none 6 51 2 stopped).0

resumes : resume_attempt host resumer world 500 5 90 90 4 (some 60) none 6 51 2 stopped ≡ (
  resumed_machine,
  ok (resume_receipt host resumer world 500 5 4 51 2 (checkpoint_of CheckpointState.executed)),
)
unfolding resume_attempt binding_at claim_task validate_runtime_epoch current_runtime_epoch
    Reap.reap_expired_leases Reap.contain_orphaned_delegations Reap.contain_orphans
    Reap.delegated_rows Reap.overdue_lease_rows Reap.reap_rows select task_at first is_claimable
    claim_found Continuations.continuation_rows Continuations.dependency_rows grant_or_wait
    claim_block executor_at capability_at storage_preflight Facts.validate_storage_estimate
    block_after_storage advertises any executor_live executor_capability Facts.execution_facts_match
    Facts.normalize_execution_facts Facts.sub_object Facts.exact_facts Facts.minimum_facts
    Facts.exact_match Facts.minimum_match Json.keys_within Json.get blocked_key Continuations.mem
    required_resource_keys occupied active_count count grant stamp_toolchain same_status update_task
    append_event update_executor update_run update
resumes = refl

resume_attempt-once_example :
    (resume_attempt host resumer world 700 5 90 90 4 none (some 50) 7 52 2 resumed_machine).0
    ≡ resumed_machine
unfolding count Continuations.mem
resume_attempt-once_example =
    resume_attempt-once host world resumer resumer 500 5 90 90 4 (some 60) none 6 51 2
      (resume_receipt host resumer world 500 5 4 51 2 (checkpoint_of CheckpointState.executed))
      stopped resumed_machine resumed_machine (refl, tt) refl resumes at_once 700 5 90 4 none
      (some 50) 7 52 2
