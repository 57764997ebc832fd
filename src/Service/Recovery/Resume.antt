-- ===== src/Service/Recovery/Resume.antt =====
-- runtime_protocol/service.py: resume_attempt. It runs in several transactions, so what an earlier one
-- wrote stays when a later one raises: the result carries the machine beside the answer.
use banodoco_workspace_runti.Base.{
  ℕ, Bool, true, false, not, ◌&&◌, Option, none, some, [], ◌∷◌, ◌++◌, any, ◌==◌, update,
  if◌then◌else◌, Result, ok, err, conflict, integrity, not_found, authorization, ◌>>=◌, ◌>>◌,
  require, or_raise,
}
use banodoco_workspace_runti.Tasks.Rows.{
  Task, Attempt, Checkpoint, CheckpointState, Receipt, ReceiptStatus, Placement, Deadline,
  is_running,
}
use banodoco_workspace_runti.Tasks.Realm.{
  Realm, World, task_at, binding_at, append_event, task_execution_bound,
}
use banodoco_workspace_runti.Tasks.Bindings.{bind_execution_attempt, reset_execution_attempt}
use banodoco_workspace_runti.Tasks.Executors.{validate_runtime_epoch}
use banodoco_workspace_runti.Tasks.Claim.{claim_task}
use banodoco_workspace_runti.Service.Recovery.{
  Machine, Host, attempt_at, checkpoint_row, reboot_authorized, update_checkpoint, read_file,
}

-- The caller of a resume: whether its executor and its owner may resume here, and its placement with
-- execution_placement_matches and _placement_recovery_qualification_matches.
pub record Resumer : Type 0 where
  pub local_admission : (executor : ℕ) → Result (Unit {0})
  pub is_drained : Checkpoint → Bool
  pub placement : Option Placement
  pub matches : ℕ → Placement → Bool
  pub is_qualified : (task : ℕ) → Placement → Bool

-- state in {"recovered", "reboot_requested", "executed"}
abbrev pub is_ready : CheckpointState → Bool
is_ready CheckpointState.recovered = true
is_ready CheckpointState.reboot_requested = true
is_ready CheckpointState.executed = true
is_ready _ = false

abbrev pub is_resumed : CheckpointState → Bool
is_resumed CheckpointState.resumed = true
is_resumed _ = false

-- The receipt of a checkpoint that was resumed, if the attempt that it names is there.
abbrev pub resumed_receipt : Realm → Checkpoint → Option Receipt
resumed_receipt db c = elim c.receipt [
  | none ↦ none
  | some receipt ↦
      if is_resumed c.state
      then elim (attempt_at db receipt.attempt_id) [ none ↦ none | some a ↦ some receipt ]
      else none
]

pub data Admitted : Type 0 where
  again : Receipt → Admitted
  admitted : Checkpoint → Admitted

module _ (host : Host) (r : Resumer) where
  -- The tests on the caller's placement, if the task is bound to one.
  abbrev pub placed : Realm → (task : ℕ) → Result (Unit {0})
  placed db task = elim (binding_at db task) [
    | none ↦ ok tt
    | some b ↦ do
      p ← or_raise r.placement authorization
      require (r.matches b.selected p) authorization
      require (r.is_qualified task p) authorization
      ok tt
  ]

  -- resume_attempt until its first write
  unfoldable pub admit_resume :
      (now supplied authority epoch : ℕ) → (id attempt : Option ℕ) → Machine → Result Admitted
  unfolding checkpoint_row reboot_authorized attempt_at
  admit_resume now supplied authority epoch id attempt m = do
    current ← validate_runtime_epoch m.db (some epoch) none true
    row ← checkpoint_row id attempt m.db
    host.attempt_identity row.executor_id row.task_id
    r.local_admission row.executor_id
    nonce ← reboot_authorized now supplied authority row.attempt_id (some row.nonce) true m.db
    elim (resumed_receipt m.db row) [
      | some receipt ↦ ok (again receipt)
      | none ↦ do
        require (not (r.is_drained row)) conflict
        require (is_ready row.state) conflict
        bytes ← read_file row.id m
        require (host.sha256 bytes == row.digest) conflict
        placed m.db row.task_id
        ok (admitted row)
    ]

  abbrev pub new_attempt : (id lease_id epoch : ℕ) → Checkpoint → Task → Attempt
  new_attempt id lease_id epoch c t = record {
    id = id;
    task_id = c.task_id;
    lease_id = lease_id;
    fence = t.lease_fence;
    executor_id = c.executor_id;
    lease_expires_at = elim t.lease_expires_at [ none ↦ Deadline.unreadable | some d ↦ d ];
    settled = false;
    runtime_epoch = epoch;
    recovery_nonce = none;
    recovery_nonce_expires_at = none;
    recovery_nonce_used = false;
  }

  abbrev pub with_attempt : Checkpoint → Attempt → Realm → Realm
  with_attempt c a db = record db {
    attempts = db.attempts ++ a ∷ [];
    tasks =
        update (λ x. x.id == c.task_id && is_running x.status)
          (λ x. record x { attempt_id = some a.id }) db.tasks;
  }

  module _ (w : World) (now fuel : ℕ) where
    -- The binding of the new attempt with its event, if the task is bound to a placement.
    abbrev pub bound : Realm → Checkpoint → Task → Attempt → Result Realm
    bound db c t a = elim (binding_at db c.task_id) [
      | none ↦ ok db
      | some b ↦ do
        p ← or_raise r.placement authorization
        bound ←
            bind_execution_attempt r.matches c.task_id a.id a.lease_id a.fence c.executor_id
              a.runtime_epoch p db
        ok (
            append_event w now t.run_id (some c.task_id)
              (task_execution_bound a.id a.lease_id a.fence a.runtime_epoch) bound)
    ]

    -- The transaction that inserts the new attempt and binds it.
    unfoldable pub insert_attempt : Checkpoint → Task → Attempt → Realm → Result Realm
    insert_attempt c t a db = do
      require (not (any (λ x. x.id == a.id) db.attempts)) integrity
      bound (with_attempt c a db) c t a

    abbrev pub resume_receipt : (epoch attempt command : ℕ) → Checkpoint → Receipt
    resume_receipt epoch attempt command c = record {
      checkpoint_id = c.id;
      attempt_id = attempt;
      task_id = c.task_id;
      runtime_epoch = epoch;
      command = command;
      status = ReceiptStatus.resumed;
      outcome = none;
    }

    -- The last transaction: the checkpoint is resumed.
    unfoldable pub settle_resume : Checkpoint → Receipt → Realm → Realm
    unfolding update_checkpoint
    settle_resume c receipt db =
        update_checkpoint c.id is_ready
          (λ x. record x { state = CheckpointState.resumed; receipt = some receipt }) db

    unfoldable pub prepared_binding : (epoch : ℕ) → Checkpoint → Realm → Realm
    prepared_binding epoch c db = elim (binding_at db c.task_id) [
      | none ↦ db
      | some b ↦ reset_execution_attempt epoch c.task_id db
    ]

    abbrev pub after_insert :
        Checkpoint → Receipt → (db : Realm) → Result Realm → Realm × Result Receipt
    after_insert c receipt db (err e) = (db, err e)
    after_insert c receipt db (ok new) = (settle_resume c receipt new, ok receipt)

    -- The task that the claim left, which runs now or still waits.
    abbrev pub after_task :
        (epoch lease_id attempt command : ℕ)
        → Checkpoint
        → (db : Realm) → Option Task
        → Realm × Result Receipt
    after_task epoch lease_id attempt command c db none = (db, err not_found)
    after_task epoch lease_id attempt command c db (some t) =
        if not (is_running t.status)
        then (db, err conflict)
        else after_insert c (resume_receipt epoch attempt command c) db
            (insert_attempt c t (new_attempt attempt lease_id epoch c t) db)

    -- After the claim of the task.
    unfoldable pub resume_claimed :
        (epoch lease_id attempt command : ℕ) → Checkpoint → Realm → Realm × Result Receipt
    unfolding insert_attempt settle_resume
    resume_claimed epoch lease_id attempt command c db =
        after_task epoch lease_id attempt command c db (task_at db c.task_id)

    -- What the claim of the task answered; `db` is the database in which it was made.
    abbrev pub after_claim :
        (epoch lease_id new_id command : ℕ)
        → Checkpoint
        → Machine
        → (db : Realm) → Result Realm
        → Machine × Result Receipt
    after_claim epoch lease_id new_id command c m db (err e) = (record m { db = db }, err e)
    after_claim epoch lease_id new_id command c m db (ok claimed) =
        let end = resume_claimed epoch lease_id new_id command c claimed in
        (record m { db = end.0 }, end.1)

    abbrev pub after_admission :
        (epoch lease_id new_id command : ℕ) → Machine → Result Admitted → Machine × Result Receipt
    after_admission epoch lease_id new_id command m (err e) = (m, err e)
    after_admission epoch lease_id new_id command m (ok (again receipt)) = (m, ok receipt)
    after_admission epoch lease_id new_id command m (ok (admitted c)) =
        let db = prepared_binding epoch c m.db in
        after_claim epoch lease_id new_id command c m db (
          claim_task w now fuel true c.task_id (some c.executor_id) (some lease_id) (some epoch) db)

    -- resume_attempt; `command` stands for "resume", and new_id gives the lease and the attempt
    unfoldable pub resume_attempt :
        (supplied authority epoch : ℕ)
        → (id attempt : Option ℕ) → (lease_id new_id command : ℕ) → Machine
        → Machine × Result Receipt
    unfolding admit_resume prepared_binding resume_claimed
    resume_attempt supplied authority epoch id attempt lease_id new_id command m =
        after_admission epoch lease_id new_id command m
          (admit_resume now supplied authority epoch id attempt m)
