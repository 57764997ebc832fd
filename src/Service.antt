-- ===== src/Service.antt =====
-- The application service, runtime_protocol/service.py: the command ledger and the commands of the
-- workers.
pub mod Compact
pub mod Ledger
pub mod Pages
pub mod Recovery
pub mod Attempts
pub mod Shots
pub mod Samples
