-- ===== src/Tasks.antt =====
-- The task lifecycle.
pub mod Rows
pub mod Realm
pub mod Bindings
pub mod Continuations
pub mod Cancel
pub mod Reap
pub mod Executors
pub mod Registration
pub mod Claim
pub mod Settle
pub mod Session
pub mod Runs
pub mod Retry
pub mod Follows
pub mod Commands
pub mod Fencing
pub mod Clear
pub mod Exclusive
pub mod Grants
pub mod Invariants
pub mod Answers
pub mod Termination
pub mod Samples
