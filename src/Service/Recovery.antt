-- ===== src/Service/Recovery.antt =====
-- The recovery handshake of runtime_protocol/service.py: prepare_reboot issues a nonce for an attempt,
-- checkpoint_attempt stores a checkpoint under it, request_reboot consumes the nonce and calls the
-- host, and resume_attempt claims the checkpoint's task again. Payloads, bytes, nonces and commands are
-- numbers, as the code only compares them.
pub mod Checkpoints
pub mod Found
pub mod Handshake
pub mod Resume
pub mod Steps
pub mod Claims
pub mod Once
pub mod Resumed
pub mod Samples
use banodoco_workspace_runti.Base.{
  ℕ, ◌+◌, Bool, true, false, not, ◌&&◌, ◌||◌, Option, none, some, List, [], ◌∷◌, ◌++◌, first, any,
  update, ltb, leb, ◌==◌, if◌then◌else◌, Result, ok, err, validation, conflict, lease, not_found,
  integrity, os_error, ◌>>=◌, ◌>>◌, require, or_raise,
}
use banodoco_workspace_runti.Tasks.Rows.{
  Task, Attempt, Checkpoint, CheckpointState, Receipt, overdue,
}
use banodoco_workspace_runti.Tasks.Realm.{Realm, current_runtime_epoch}
use banodoco_workspace_runti.Tasks.Executors.{validate_runtime_epoch}

-- The database, and the files of root/checkpoints by checkpoint.
pub record Machine : Type 0 where
  pub db : Realm
  pub files : List (ℕ × ℕ)

-- durable_json_bytes, json.loads, len and sha256 on payloads and bytes, the configured allowlist, and
-- _assert_attempt_identity of the caller for an executor and a task.
pub record Host : Type 0 where
  pub bytes_of : ℕ → ℕ
  pub payload_of : ℕ → ℕ
  pub length_of : ℕ → ℕ
  pub sha256 : ℕ → ℕ
  pub is_allowed : ℕ → Bool
  pub attempt_identity : (executor task : ℕ) → Result (Unit {0})

unfoldable pub attempt_at : Realm → ℕ → Option Attempt
attempt_at db id = first (λ a. a.id == id) db.attempts

abbrev pub is_durable : CheckpointState → Bool
is_durable CheckpointState.durable = true
is_durable _ = false

abbrev pub is_requested : CheckpointState → Bool
is_requested CheckpointState.reboot_requested = true
is_requested _ = false

-- Of two rows the one that was created later, the earlier one of the table if they are equally old.
abbrev pub newer : Checkpoint → Option Checkpoint → Checkpoint
newer c none = c
newer c (some d) = if ltb c.created_at d.created_at then d else c

-- WHERE p ORDER BY created_at DESC LIMIT 1
unfoldable pub latest : (Checkpoint → Bool) → List Checkpoint → Option Checkpoint
latest p [] = none
latest p (c ∷ cs) = if p c then some (newer c (latest p cs)) else latest p cs

abbrev pub bound_to : Option ℕ → ℕ → Bool
bound_to none attempt = true
bound_to (some a) attempt = attempt == a

-- The two queries of _checkpoint_row.
unfoldable pub find_checkpoint : Option ℕ → Option ℕ → Realm → Result Checkpoint
unfolding latest
find_checkpoint (some id) attempt db = do
  row ← or_raise (first (λ c. c.id == id) db.checkpoints) not_found
  require (bound_to attempt row.attempt_id) lease
  ok row
find_checkpoint none (some attempt) db =
    or_raise (latest (λ c. c.attempt_id == attempt) db.checkpoints) not_found
find_checkpoint none none db = err not_found

-- The columns that a checkpoint shares with its attempt.
abbrev pub agrees : Checkpoint → Option Attempt → Bool
agrees c none = false
agrees c (some a) =
    a.task_id == c.task_id
    && (a.executor_id == c.executor_id && (a.lease_id == c.lease_id && a.fence == c.fence))

-- _checkpoint_row
unfoldable pub checkpoint_row : Option ℕ → Option ℕ → Realm → Result Checkpoint
unfolding find_checkpoint attempt_at
checkpoint_row id attempt db = do
  row ← find_checkpoint id attempt db
  require (agrees row (attempt_at db row.attempt_id)) conflict
  ok row

abbrev pub not_expired : ℕ → Option ℕ → Bool
not_expired now none = true
not_expired now (some t) = ltb now t

abbrev pub nonce_of : Option Attempt → Option ℕ
nonce_of none = none
nonce_of (some a) = a.recovery_nonce

abbrev pub is_nonce : Option ℕ → ℕ → Bool
is_nonce none nonce = true
is_nonce (some expected) nonce = expected == nonce

-- The tests of _reboot_authorized on an attempt that has a nonce.
abbrev pub authorized : (now supplied authority : ℕ) → Option ℕ → Bool → Attempt → ℕ → Result ℕ
authorized now supplied authority expected allow_consumed a nonce = do
  require (allow_consumed || not a.recovery_nonce_used) conflict
  require (not_expired now a.recovery_nonce_expires_at) validation
  require (supplied == nonce && (authority == nonce && is_nonce expected nonce)) validation
  ok nonce

-- _reboot_authorized
unfoldable pub reboot_authorized :
    (now supplied authority attempt : ℕ) → Option ℕ → (allow_consumed : Bool) → Realm → Result ℕ
unfolding attempt_at
reboot_authorized now supplied authority attempt expected allow_consumed db =
    elim (attempt_at db attempt) [
      | none ↦ err validation
      | some a ↦ elim a.recovery_nonce [
        | none ↦ err validation
        | some nonce ↦ authorized now supplied authority expected allow_consumed a nonce
      ]
    ]

-- _validate_attempt_lease, where the body's fence is a number
unfoldable pub validate_attempt_lease :
    (now : ℕ) → Option Attempt → (lease_id fence epoch current : ℕ) → Realm → Result Attempt
validate_attempt_lease now row lease_id fence epoch current db = do
  checked ← validate_runtime_epoch db (some epoch) none true
  a ← or_raise row lease
  require (not a.settled && a.runtime_epoch == current) lease
  require (a.lease_id == lease_id && a.fence == fence) lease
  require (not (overdue now a.lease_expires_at)) lease
  ok a

-- UPDATE attempts SET f WHERE id=?
unfoldable pub update_attempt : ℕ → (Attempt → Bool) → (Attempt → Attempt) → Realm → Realm
update_attempt id p f db = record db { attempts = update (λ a. a.id == id && p a) f db.attempts }

-- UPDATE recovery_checkpoints SET f WHERE id=? AND state …
unfoldable pub update_checkpoint :
    ℕ → (CheckpointState → Bool) → (Checkpoint → Checkpoint) → Realm → Realm
update_checkpoint id p f db = record db {
  checkpoints = update (λ c. c.id == id && p c.state) f db.checkpoints;
}

-- read_bytes
abbrev pub read_file : ℕ → Machine → Result ℕ
read_file path m = elim (first (λ f. f.0 == path) m.files) [ none ↦ err os_error | some f ↦ ok f.1 ]

abbrev pub identity_checked : Host → Option Attempt → Result (Unit {0})
identity_checked host none = ok tt
identity_checked host (some a) = host.attempt_identity a.executor_id a.task_id
