-- ===== src/Service/Attempts.antt =====
-- runtime_protocol/service.py: heartbeat_attempt, the store's heartbeat_task under an attempt's lease
-- and the command ledger. One transaction holds the heartbeat, the attempt's new deadline, the
-- progress event and the ledger's row.
pub mod Retry
mod Samples
use banodoco_workspace_runti.Base.{
  ℕ, ◌+◌, zero, suc, Bool, true, false, not, ◌&&◌, ◌||◌, Option, none, some, ltb, leb, ◌==◌,
  if◌then◌else◌, Result, ok, err, validation, lease, integrity, ◌>>=◌, ◌>>◌, require, or_raise,
}
use banodoco_workspace_runti.Json.{Json, ℤ, pos, negsuc, int, null, object, field, end}
use banodoco_workspace_runti.Tasks.Rows.{Task, Attempt, Deadline, at}
use banodoco_workspace_runti.Tasks.Realm.{
  Realm, World, task_at, append_event, current_runtime_epoch, task_progress,
}
use banodoco_workspace_runti.Tasks.Continuations.{project_of}
use banodoco_workspace_runti.Tasks.Executors.{validate_runtime_epoch}
use banodoco_workspace_runti.Tasks.Settle.{heartbeat_task}
use banodoco_workspace_runti.Service.Compact.{Kind, attempt_heartbeat, Value, response}
use banodoco_workspace_runti.Service.Ledger.{Book, Outside, command_replay_state, command_record}
use banodoco_workspace_runti.Service.Recovery.{
  Host, attempt_at, validate_attempt_lease, update_attempt, identity_checked,
}

-- The database with its command ledger.
pub record Office : Type 0 where
  pub db : Realm
  pub book : Book

-- A number of a progress report, by what the code asks of it; `none` in a report where it is no
-- number.
pub record Number : Type 0 where
  pub is_finite : Bool
  pub is_negative : Bool
  pub is_below_one : Bool
  pub is_above_hundred : Bool

-- The phase: whether only blanks are left of it, and its length.
pub record Phase : Type 0 where
  pub is_blank : Bool
  pub length : ℕ

-- A progress object; a field is `none` where it is missing, and `some none` where its value has
-- another type. `content` stands for the object as it was sent, which is what the event has.
pub record Progress : Type 0 where
  pub content : ℕ
  pub has_other_fields : Bool
  pub phase : Option (Option Phase)
  pub percent : Option (Option Number)
  pub current : Option (Option Number)
  pub total : Option (Option Number)

pub record Body : Type 0 where
  pub lease_id : ℕ
  pub fence : ℕ
  pub runtime_epoch : ℕ
  pub lease_seconds : Option ℤ
  pub progress : Option Progress

-- sha256 of the canonical request, and the project "unscoped"
pub record Requests : Type 0 where
  pub heartbeat_hash : (attempt : ℕ) → Body → ℕ
  pub unscoped : ℕ

abbrev pub phase_ok : Option (Option Phase) → Bool
phase_ok none = true
phase_ok (some none) = false
phase_ok (some (some p)) = not p.is_blank && leb p.length 128

abbrev pub number_ok : (Number → Bool) → Option (Option Number) → Bool
number_ok fits none = true
number_ok fits (some none) = false
number_ok fits (some (some n)) = n.is_finite && fits n

abbrev pub is_given {ℓ} : {A : Type ℓ} → Option A → Bool
is_given none = false
is_given (some a) = true

-- The checks on progress.
unfoldable pub progress_ok : Option Progress → Bool
progress_ok none = true
progress_ok (some p) =
    not p.has_other_fields
    && (phase_ok p.phase
        && (number_ok (λ n. not n.is_negative && not n.is_above_hundred) p.percent
            && (number_ok (λ n. not n.is_negative) p.current
                && (number_ok (λ n. not n.is_below_one) p.total
                    && (is_given p.phase
                        || (is_given p.percent || (is_given p.current || is_given p.total)))))))

-- lease_seconds, 30 where it is missing
abbrev pub seconds_of : Option ℤ → Result ℕ
seconds_of none = ok 30
seconds_of (some (negsuc n)) = err validation
seconds_of (some (pos n)) = do require (ltb 0 n) validation; ok n

abbrev pub project_or : ℕ → Option ℕ → ℕ
project_or unscoped none = unscoped
project_or unscoped (some p) = p

-- str(run's project), of the attempt's task
abbrev pub attempt_project : ℕ → Realm → Option Task → ℕ
attempt_project unscoped db none = unscoped
attempt_project unscoped db (some t) = project_or unscoped (project_of db t.run_id)

abbrev pub deadline_of : Option Task → Option Deadline
deadline_of none = none
deadline_of (some t) = t.lease_expires_at

abbrev pub deadline_json : Deadline → Json
deadline_json (at t) = int (pos t)
deadline_json Deadline.unreadable = null

-- The result of a heartbeat.
abbrev pub heartbeat_result : Attempt → Deadline → (epoch : ℕ) → Value
heartbeat_result a expires epoch = response (record {
  task_id = some a.task_id;
  spec = none;
  task = none;
  run = none;
  capabilities = none;
  rest = object (
      field "attempt_id" (int (pos a.id)) (
        field "lease_id" (int (pos a.lease_id)) (
          field "fence" (int (pos a.fence)) (
            field "lease_expires_at" (deadline_json expires)
              (field "runtime_epoch" (int (pos epoch)) end)))));
})

module _ (w : World) (o : Outside) (host : Host) (q : Requests) where
  abbrev pub with_progress : (now : ℕ) → Option Task → Option Progress → Realm → Realm
  with_progress now none progress db = db
  with_progress now (some t) none db = db
  with_progress now (some t) (some p) db =
      append_event w now t.run_id (some t.id) (task_progress p.content) db

  -- The transaction of a heartbeat that was not recorded yet.
  unfoldable pub beat :
      (now attempt key : ℕ) → Body → (seconds : ℕ) → Attempt → Office → Result (Office × Value)
  unfolding heartbeat_task update_attempt
  beat now attempt key body seconds a s = do
    let task = task_at s.db a.task_id
    let project = attempt_project q.unscoped s.db task
    db ← heartbeat_task w now a.task_id a.lease_id (some a.fence) seconds s.db
    expires ← or_raise (deadline_of (task_at db a.task_id)) integrity
    let held =
        with_progress now task body.progress
          (update_attempt attempt (λ x. true) (λ x. record x { lease_expires_at = expires }) db)
    let result = heartbeat_result a expires (current_runtime_epoch held)
    book ←
        command_record o now attempt_heartbeat attempt (some key) (q.heartbeat_hash attempt body)
          result (some project) s.book
    ok (record { db = held; book = book }, result)

  -- heartbeat_attempt
  unfoldable pub heartbeat_attempt : (now attempt key : ℕ) → Body → Office → Result (Office × Value)
  unfolding progress_ok attempt_at validate_attempt_lease beat
  heartbeat_attempt now attempt key body s = do
    seconds ← seconds_of body.lease_seconds
    require (progress_ok body.progress) validation
    let row = attempt_at s.db attempt
    identity_checked host row
    let current = current_runtime_epoch s.db
    checked ← validate_runtime_epoch s.db (some body.runtime_epoch) none true
    replay ←
        command_replay_state o now attempt_heartbeat attempt (some key)
          (q.heartbeat_hash attempt body) s.book
    elim replay [
      | some value ↦ ok (s, value)
      | none ↦ do
        a ← validate_attempt_lease now row body.lease_id body.fence body.runtime_epoch current s.db
        beat now attempt key body seconds a s
    ]
