-- ===== src/Service/Ledger.antt =====
-- The command ledger: _command_replay_state and _command_record of runtime_protocol/service.py,
-- _record_command_receipt and _allocate_project_seq of runtime_protocol/store.py, and command_result of
-- runtime_protocol/idempotency.py. A receipt's facts other than the sequence number are not kept.
pub mod Rows
pub mod Replay
pub mod History
pub mod Progress
use banodoco_workspace_runti.Base.{
  ℕ, zero, suc, ◌+◌, ◌*◌, Bool, true, false, not, ◌&&◌, ◌||◌, Option, none, some, List, [], ◌∷◌,
  ◌++◌, first, any, count, upsert, update, select, ltb, leb, ◌==◌, if◌then◌else◌, Result, ok, err,
  conflict, integrity, window_expired, ◌>>=◌, ◌>>◌, require,
}
use banodoco_workspace_runti.Json.{Json}
use banodoco_workspace_runti.Service.Compact.{
  Kind, task_claim, task_create, attempt_settle, task_cancel, task_retry, attempt_fail,
  attempt_heartbeat, executor_register, object_ingest, media_import, parent_publish, other, Value,
  Packed, whole, expired, compact_result, unpack,
}

pub record Entry : Type 0 where
  pub kind : Kind
  pub aggregate_id : ℕ
  pub key : ℕ
  pub request_hash : ℕ
  pub stored : Packed
  pub created_at : ℕ
  pub project_seq : Option ℕ

-- command_idempotency, session_command_replay, project_sequences and the time of the last sweep.
-- Rows stand in the order in which they were inserted.
pub record Book : Type 0 where
  pub commands : List Entry
  pub session : List Entry
  pub next_seqs : List (ℕ × ℕ)
  pub last_prune : ℕ

-- What the ledger takes from outside: compression and hashing, the specs in the rows of tasks and
-- runs, and what it asks of tables that are not modelled.
pub record Outside : Type 0 where
  pub zip : Json → ℕ
  pub unzip : ℕ → Json
  pub task_body : ℕ → Option Json
  pub run_body : ℕ → Option Json
  pub digest : Packed → ℕ
  -- _publication_replay_result
  pub publication : Entry → Result Value
  -- whether the run of a task.create has a task that is not ended
  pub is_live_admission : Entry → Bool
  -- whether the stored publication has its dependency manifest
  pub has_manifest : Entry → Bool

abbrev pub code : Kind → ℕ
code task_claim = 0
code executor_register = 1
code task_create = 2
code attempt_settle = 3
code task_cancel = 4
code task_retry = 5
code attempt_fail = 6
code attempt_heartbeat = 7
code object_ingest = 8
code media_import = 9
code parent_publish = 10
code (other n) = 11 + n

-- kind in {"task.claim", "executor.register"}
abbrev pub of_session : Kind → Bool
of_session task_claim = true
of_session executor_register = true
of_session _ = false

-- The kinds whose results do not expire.
abbrev pub is_transfer : Kind → Bool
is_transfer object_ingest = true
is_transfer media_import = true
is_transfer _ = false

-- SESSION_IDEMPOTENCY_WINDOW_SECONDS or IDEMPOTENCY_RESULT_WINDOW_SECONDS, in milliseconds
abbrev pub window : Kind → ℕ
window kind = if of_session kind then 3600000 else 86400000

abbrev pub table : Kind → Book → List Entry
table kind b = if of_session kind then b.session else b.commands

abbrev pub has_key : Kind → ℕ → ℕ → Entry → Bool
has_key kind aggregate key e =
    code e.kind == code kind && (e.aggregate_id == aggregate && e.key == key)

abbrev pub is_expired : Packed → Bool
is_expired (expired hash) = true
is_expired _ = false

-- UPDATE of at most `n` rows that satisfy `p`
unfoldable pub update_some {ℓ} : {A : Type ℓ} → ℕ → (A → Bool) → (A → A) → List A → List A
update_some n p f [] = []
update_some zero p f (x ∷ xs) = x ∷ xs
update_some (suc n) p f (x ∷ xs) =
    let hit = f x ∷ update_some n p f xs in
    let miss = x ∷ update_some (suc n) p f xs in if p x then hit else miss

abbrev pub is_publish : Kind → Bool
is_publish parent_publish = true
is_publish _ = false

abbrev pub next_seq : ℕ → List (ℕ × ℕ) → ℕ
next_seq project seqs = elim (first (λ s. s.0 == project) seqs) [ none ↦ 1 | some s ↦ s.1 ]

-- _allocate_project_seq: the table keeps the number after the one that is given out
unfoldable pub allocate_project_seq : ℕ → List (ℕ × ℕ) → List (ℕ × ℕ)
allocate_project_seq project seqs =
    upsert (λ s. s.0 == project) (λ s. (s.0, s.1 + 1)) (project, 2) seqs

-- INSERT: the three columns of the key are the primary key
unfoldable pub insert : Entry → List Entry → Result (List Entry)
insert e es = do
  require (not (any (has_key e.kind e.aggregate_id e.key) es)) integrity
  ok (es ++ e ∷ [])

abbrev pub is_creation : ℕ → ℕ → Entry → Bool
is_creation aggregate key e =
    code e.kind == code task_create && (e.aggregate_id == aggregate && e.key == key)

-- create_task, for the receipt of a request that was hashed in an older form: UPDATE
-- command_idempotency SET request_hash=?, result_json=?
unfoldable pub refresh_receipt : (aggregate key hash : ℕ) → Packed → Book → Book
refresh_receipt aggregate key hash stored b = record b {
  commands =
      update (is_creation aggregate key)
        (λ (e : Entry). record e { request_hash = hash; stored = stored }) b.commands;
}

-- create_task, before it records a receipt that was partial again: DELETE FROM command_idempotency
unfoldable pub forget_receipt : (aggregate key : ℕ) → Book → Book
forget_receipt aggregate key b = record b {
  commands = select (λ e. not (is_creation aggregate key e)) b.commands;
}

abbrev pub entry : ℕ → Kind → ℕ → ℕ → ℕ → Packed → Entry
entry now kind aggregate key hash stored = record {
  kind = kind;
  aggregate_id = aggregate;
  key = key;
  request_hash = hash;
  stored = stored;
  created_at = now;
  project_seq = none;
}

module _ (o : Outside) where
  -- command_result
  unfoldable pub command_result : (now : ℕ) → Entry → Result Value
  command_result now e = do
    require (is_transfer e.kind || leb now (e.created_at + window e.kind)) window_expired
    unpack o.unzip o.task_body o.run_body e.stored

  abbrev pub replayed : ℕ → Entry → Result Value
  replayed now e = if is_publish e.kind then o.publication e else command_result now e

  -- _command_replay_state: `none` where nothing was recorded
  unfoldable pub command_replay_state :
      (now : ℕ) → Kind → (aggregate : ℕ) → Option ℕ → (hash : ℕ) → Book → Result (Option Value)
  unfolding command_result
  command_replay_state now kind aggregate none hash b = ok none
  command_replay_state now kind aggregate (some key) hash b =
      elim (first (has_key kind aggregate key) (table kind b)) [
        | none ↦ ok none
        | some e ↦ do
          require (e.request_hash == hash) conflict
          value ← replayed now e
          ok (some value)
      ]

  abbrev pub expire : Entry → Entry
  expire e = record e { stored = expired (o.digest e.stored) }

  -- The sweep of session results.
  unfoldable pub prune_session : (now : ℕ) → List Entry → List Entry
  unfolding update_some
  prune_session now es =
      update_some 100 (λ e. not (is_expired e.stored) && ltb (e.created_at + 3600000) now) expire es

  -- EXPIRABLE_RESULT_SQL
  abbrev pub is_expirable : Entry → Bool
  is_expirable e =
      not (is_transfer e.kind)
      && (not (code e.kind == code task_create && o.is_live_admission e)
          && (not (is_publish e.kind) || o.has_manifest e))

  abbrev pub is_due : ℕ → Entry → Bool
  is_due now e = ltb (e.created_at + 86400000) now && (not (is_expired e.stored) && is_expirable e)

  -- The sweep of _record_command_receipt, at most once in a quarter of an hour.
  unfoldable pub prune : (now : ℕ) → Book → Book
  unfolding update_some
  prune now b =
      if leb (b.last_prune + 900000) now
      then record b {
        commands = update_some 100 (is_due now) expire b.commands;
        last_prune = if ltb (count (is_due now) b.commands) 100 then now else b.last_prune;
      }
      else b

  -- _record_command_receipt; the entry has the time that the caller gave, or else that of recording
  unfoldable pub record_command_receipt : (now : ℕ) → (project : ℕ) → Entry → Book → Result Book
  unfolding prune allocate_project_seq insert
  record_command_receipt now project e b = do
    let swept = prune now b
    commands ←
        insert (record e { project_seq = some (next_seq project swept.next_seqs) }) swept.commands
    ok (record swept {
      commands = commands;
      next_seqs = allocate_project_seq project swept.next_seqs;
    })

  -- _command_record, for a caller that gives no time of its own
  unfoldable pub command_record :
      (now : ℕ)
      → Kind
      → (aggregate : ℕ) → Option ℕ
      → (hash : ℕ) → Value
      → (project : Option ℕ) → Book
      → Result Book
  unfolding prune_session record_command_receipt
  command_record now kind aggregate none hash v project b = ok b
  command_record now kind aggregate (some key) hash v project b =
      if of_session kind
      then (do
        session ← insert (entry now kind aggregate key hash (whole v)) b.session
        ok (record b { session = prune_session now session }))
      else elim project [
        | some p ↦
            record_command_receipt now p
              (entry now kind aggregate key hash (compact_result o.zip kind v)) b
        | none ↦ do
          commands ←
              insert (entry now kind aggregate key hash (compact_result o.zip kind v)) b.commands
          ok (record b { commands = commands })
      ]
