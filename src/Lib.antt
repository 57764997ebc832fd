-- ===== src/Lib.antt =====
-- A verification library for banodoco-workspace-runtime: the task lifecycle of its realm store,
-- runtime_protocol/store.py, over the tables of runtime_protocol/canonical_schema.py, and of its
-- service, runtime_protocol/service.py, the command ledger, the recovery handshake and pages.
--
-- The program keeps a realm in one SQLite database. A task is queued, claimed by an executor under
-- a lease with a fence, and then settled, failed, cancelled or put back into the queue when its
-- lease runs out or a new boot of the runtime supersedes its epoch. Tasks may delegate children,
-- which are contained when their parent ends, and may wait for predecessors as continuations. Every
-- change is recorded in an event log that is hash-chained run by run.
--
-- Base holds the shared types and lemmas: Boolean tests, tables, results and their reasoning rules
-- (runtime_protocol/errors.py). Json is decoded JSON. Facts models normalize_execution_facts,
-- execution_facts_match and _validate_storage_estimate, and Facts.Printed the facts as they are
-- stored. Lifecycle models the interruption report of runtime_protocol/lifecycle.py, and
-- Lifecycle.Safety what it leaves no room for. Placement models execution_placement_matches. Under
-- Tasks, each file models a part of the class RealmStore, and Retry a handler of the service:
--   Rows and Realm: the rows, the database, _append_event, _set_waiting_reason and what is outside;
--   Bindings: _release_reservations and the execution bindings;
--   Continuations: _admit_continuation and _refresh_continuations_for_predecessor;
--   Cancel: cancel_task, contain_delegated_children and _reconcile_runtime_attempt;
--   Reap: _contain_orphaned_delegations and _reap_expired_leases;
--   Executors: epochs, readiness, capabilities and storage_preflight; Registration:
--   upsert_executor;
--   Claim: _claim_task; Settle: _settle_attempt, heartbeat_task and fail_task;
--   Session: begin_runtime_session; Runs: cancel_run and retry_run;
--   Retry: retry_task of runtime_protocol/service.py;
--   Commands: any sequence of these commands, each a transaction at a time of its own.
-- Follows relates the realm before and after a command, and its children carry it through every
-- command but retry_task, for which Follows.Retrying tells the retried task from the others;
-- Follows.Steady is about what admissions do not write. Clear, Exclusive, Grants, Fencing,
-- Invariants, Answers and Termination hold what is concluded, and Samples a small realm to which
-- the theorems are applied. Each other Samples does so for the part in whose folder it stands.
--
-- Under Service, the files model the command ledger of runtime_protocol/service.py: Compact the
-- stored form of a response (runtime_protocol/idempotency.py), Compact.Roundtrip its unpacking,
-- Ledger _command_replay_state, _command_record and _record_command_receipt, Ledger.Rows the lemmas
-- on a key's row, Ledger.Replay what a repeated command gets, Ledger.History what any later
-- commands leave of it, Ledger.Progress what a key meets that is not known. Recovery models
-- _checkpoint_row, _reboot_authorized and _validate_attempt_lease, Recovery.Handshake
-- prepare_reboot, checkpoint_attempt and request_reboot, Recovery.Resume resume_attempt;
-- Checkpoints, Found, Steps and Claims are the lemmas, and Once and Resumed conclude.
-- resume_attempt runs in several transactions, so that it returns the machine beside its answer or
-- its error. Attempts models heartbeat_attempt, and Attempts.Retry its repetition. Pages models
-- _page_args, _page_cursor and _page_rows, Pages.Walk a client that follows the cursors,
-- Pages.Bounds the size of a page. Shots models reorder_shot_items and add_shot_item, Shots.Writes
-- their loops, Shots.Order relates the keys of the items to the order asked for, and Shots.Added
-- concludes for an item that is added.
--
-- How the model corresponds to the code. A table is the list of its rows in the order in which the
-- queries return them, save that a shot's items are sorted where they are read, and events stand
-- newest first. Identifiers, tokens and digests are numbers, as the code only compares them. Times
-- are milliseconds, and a command reads the clock once. A spec is its decoded body rather than the
-- digest that names it. A command that raises rolls its transaction back, so an error is a value
-- without a state. Cancelling descends along delegation, for which the code has no bound: it runs
-- on fuel here, and `out_of_fuel` marks where that ends. The fuel is enough where it exceeds the
-- height of the delegation tree below the task (Termination).
--
-- The record World holds what the store takes from outside: hashes, free disk space, the checks on
-- object tables, and the application of a settlement's effect, which writes tables that are not
-- modelled. Host and Resumer hold what the recovery handshake takes from outside: files' digests
-- and serialization, the configured allowlist, the caller's identity and its placement. Not
-- modelled: the commands that create tasks or cancel them otherwise
-- (_finalize_owned_local_cancellations and the recovery of a placement), spec_digest and created_at
-- of runs and tasks, event payloads that nothing reads back, the other handlers of the service,
-- projects, objects, generations and timelines, the revision and the command record of changed
-- shots, and the processes, sockets and files around the store.
pub mod Base
pub mod Facts
pub mod Json
pub mod Lifecycle
pub mod Placement
pub mod Service
pub mod Tasks
