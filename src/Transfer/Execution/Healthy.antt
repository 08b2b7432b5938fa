-- ===== src/Transfer/Execution/Healthy.antt =====
-- services/transferExecution.ts: a reconciliation that can read the entity settles the leg.
use recat_qbo.Prelude.Shared.{ℕ, true, some}
use recat_qbo.Transfer.Execution.{LineWriteSnapshot}
use recat_qbo.Transfer.Execution.Reconcile.{ReconcileAnswers, read}

-- Nothing outside the database fails, the guards hold at these times, and the entity reads so.
abbrev pub answered : ℕ → ℕ → LineWriteSnapshot → ReconcileAnswers → ReconcileAnswers
answered before_at after_at s a = record a {
  renewed = true;
  guard_before = some before_at;
  actual = read s;
  guard_after = some after_at;
  finalize_fenced = true;
}
