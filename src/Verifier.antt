-- ===== src/Verifier.antt =====
-- server/src/services/agent/core/verifier.ts: the deterministic test of a decision of the model against
-- the snapshot of the transaction. A check gives the first code of its refusals, and `none` where it
-- finds nothing. A pair of a category and a tax code is a pair, for which the source has its JSON
-- text. A decision and a snapshot have the fields that are read here.
pub mod Decision
pub mod Verify
pub mod Checks
pub mod Citations
pub mod Sound
pub mod Review
mod Tests
