-- ===== src/Transfer.antt =====
-- server/src/services/transferExecution.ts and transferCandidates.ts: transfers between two bank
-- accounts.
pub mod Execution
pub mod Candidates
