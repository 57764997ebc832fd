-- ===== src/Service/Recovery/Handshake.antt =====
-- runtime_protocol/service.py: prepare_reboot, checkpoint_attempt and request_reboot. The host's
-- reboot runs between two transactions of request_reboot, which are `begin_reboot` and `finish_reboot`.
use banodoco_workspace_runti.Base.{
  ℕ, ◌+◌, Bool, true, false, not, ◌&&◌, ◌||◌, Option, none, some, [], ◌∷◌, ◌++◌, any, count, leb,
  ◌==◌, if◌then◌else◌, Result, ok, validation, conflict, lease, integrity, ◌>>=◌, ◌>>◌, require,
}
use banodoco_workspace_runti.Tasks.Rows.{
  Attempt, Checkpoint, CheckpointState, Receipt, ReceiptStatus,
}
use banodoco_workspace_runti.Tasks.Realm.{current_runtime_epoch}
use banodoco_workspace_runti.Tasks.Executors.{validate_runtime_epoch}
use banodoco_workspace_runti.Service.Recovery.{
  Machine, Host, attempt_at, is_durable, is_requested, latest, checkpoint_row, not_expired,
  reboot_authorized, validate_attempt_lease, update_attempt, update_checkpoint, read_file,
  identity_checked,
}

-- The nonce of an attempt that is not used and has not expired.
abbrev pub live_nonce : ℕ → Attempt → Option ℕ
live_nonce now a =
    if not a.recovery_nonce_used && not_expired now a.recovery_nonce_expires_at
    then a.recovery_nonce
    else none

-- The columns that a new nonce sets; it is valid for 300 seconds.
abbrev pub issue : (now fresh : ℕ) → Attempt → Attempt
issue now fresh a = record a {
  recovery_nonce = some fresh;
  recovery_nonce_expires_at = some (now + 300000);
  recovery_nonce_used = false;
}

-- Whether a reboot or a resume was completed: state and receipt.
abbrev pub completed_receipt : Checkpoint → Option Receipt
completed_receipt c = elim c.state [
  | CheckpointState.executed ↦ c.receipt
  | CheckpointState.resumed ↦ c.receipt
  | _ ↦ none
]

-- What the first part of request_reboot gives: the receipt of a request that was completed, or the
-- checkpoint with which the host is called.
pub data Begun : Type 0 where
  answered : Receipt → Begun
  claimed : (row : Checkpoint) (payload : ℕ) → Begun

module _ (host : Host) where
  -- prepare_reboot; `fresh` is the nonce that new_id gives if one is needed
  unfoldable pub prepare_reboot :
      (now fresh attempt lease_id fence epoch : ℕ) → Machine → Result (Machine × ℕ)
  unfolding attempt_at validate_attempt_lease update_attempt
  prepare_reboot now fresh attempt lease_id fence epoch m = do
    let row = attempt_at m.db attempt
    identity_checked host row
    a ← validate_attempt_lease now row lease_id fence epoch (current_runtime_epoch m.db) m.db
    elim (live_nonce now a) [
      | some nonce ↦ ok (m, nonce)
      | none ↦ ok (
        record m { db = update_attempt attempt (λ x. not x.settled) (issue now fresh) m.db },
        fresh,
      )
    ]

  abbrev pub new_checkpoint : (now id nonce payload epoch : ℕ) → Attempt → Checkpoint
  new_checkpoint now id nonce payload epoch a = record {
    id = id;
    attempt_id = a.id;
    task_id = a.task_id;
    executor_id = a.executor_id;
    runtime_epoch = epoch;
    lease_id = a.lease_id;
    fence = a.fence;
    nonce = nonce;
    digest = host.sha256 (host.bytes_of payload);
    size = host.length_of (host.bytes_of payload);
    state = CheckpointState.durable;
    receipt = none;
    created_at = now;
  }

  -- The write of a checkpoint: its file, and its row under a nonce and an id that are not taken.
  unfoldable pub store_checkpoint : Checkpoint → (bytes : ℕ) → Machine → Result Machine
  store_checkpoint c bytes m = do
    require (not (any (λ d. d.nonce == c.nonce || d.id == c.id) m.db.checkpoints)) integrity
    ok (record m {
      db = record m.db { checkpoints = m.db.checkpoints ++ c ∷ [] };
      files = (c.id, bytes) ∷ m.files;
    })

  -- checkpoint_attempt; `id` is what new_id gives
  unfoldable pub checkpoint_attempt :
      (now id attempt lease_id fence supplied authority epoch payload : ℕ)
      → Machine
      → Result (Machine × Checkpoint)
  unfolding attempt_at validate_attempt_lease reboot_authorized store_checkpoint latest
  checkpoint_attempt now id attempt lease_id fence supplied authority epoch payload m = do
    let row = attempt_at m.db attempt
    let current = current_runtime_epoch m.db
    identity_checked host row
    a ← validate_attempt_lease now row lease_id fence epoch current m.db
    nonce ← reboot_authorized now supplied authority attempt none false m.db
    require (leb (host.length_of (host.bytes_of payload)) 1048576) validation
    elim (latest (λ c. c.attempt_id == attempt && c.nonce == nonce) m.db.checkpoints) [
      | some existing ↦ do
        bytes ← read_file existing.id m
        require (host.sha256 bytes == existing.digest && host.payload_of bytes == payload) conflict
        ok (m, existing)
      | none ↦ do
        let c = new_checkpoint now id nonce payload current a
        stored ← store_checkpoint c (host.bytes_of payload) m
        ok (stored, c)
    ]

  -- The transaction that consumes the nonce and the checkpoint.
  unfoldable pub consume : Checkpoint → Machine → Result Machine
  unfolding update_attempt update_checkpoint
  consume row m = do
    require (count (λ a. a.id == row.attempt_id && not a.recovery_nonce_used) m.db.attempts == 1)
        conflict
    require (count (λ c. c.id == row.id && is_durable c.state) m.db.checkpoints == 1) conflict
    ok (record m {
      db =
          update_checkpoint row.id is_durable
            (λ c. record c { state = CheckpointState.reboot_requested })
            (update_attempt row.attempt_id (λ a. not a.recovery_nonce_used)
              (λ a. record a { recovery_nonce_used = true }) m.db);
    })

  -- request_reboot until it calls the host
  unfoldable pub begin_reboot :
      (now supplied authority epoch : ℕ)
      → (id attempt : Option ℕ) → (command : ℕ) → (has_executor : Bool) → Machine
      → Result (Machine × Begun)
  unfolding checkpoint_row reboot_authorized attempt_at validate_attempt_lease consume
  begin_reboot now supplied authority epoch id attempt command has_executor m = do
    current ← validate_runtime_epoch m.db (some epoch) none true
    row ← checkpoint_row id attempt m.db
    host.attempt_identity row.executor_id row.task_id
    elim (completed_receipt row) [
      | some receipt ↦ do
        nonce ← reboot_authorized now supplied authority row.attempt_id (some row.nonce) true m.db
        ok (m, answered receipt)
      | none ↦ do
        nonce ← reboot_authorized now supplied authority row.attempt_id (some row.nonce) false m.db
        require (host.is_allowed command) validation
        require (row.runtime_epoch == current_runtime_epoch m.db) lease
        a ←
            validate_attempt_lease now (attempt_at m.db row.attempt_id) row.lease_id row.fence epoch
              current m.db
        bytes ← read_file row.id m
        require (host.sha256 bytes == row.digest) conflict
        require (is_durable row.state) conflict
        require has_executor conflict
        consumed ← consume row m
        ok (consumed, claimed row (host.payload_of bytes))
    ]

  abbrev pub outcome_state : Option ℕ → CheckpointState
  outcome_state none = CheckpointState.executor_failed
  outcome_state (some result) = CheckpointState.executed

  abbrev pub outcome_receipt : (epoch command : ℕ) → Option ℕ → Checkpoint → Receipt
  outcome_receipt epoch command outcome c = record {
    checkpoint_id = c.id;
    attempt_id = c.attempt_id;
    task_id = c.task_id;
    runtime_epoch = epoch;
    command = command;
    status = elim outcome [ none ↦ ReceiptStatus.failed | some result ↦ ReceiptStatus.executed ];
    outcome = outcome;
  }

  -- request_reboot after the call of the host: `none` is an exception
  unfoldable pub finish_reboot :
      (epoch command : ℕ) → (outcome : Option ℕ) → Checkpoint → Machine → Machine
  unfolding update_checkpoint
  finish_reboot epoch command outcome row m = record m {
    db =
        update_checkpoint row.id is_requested
          (λ c. record c {
            state = outcome_state outcome;
            receipt = some (outcome_receipt epoch command outcome row);
          })
          m.db;
  }
