-- ===== src/Writeback/Reconciled.antt =====
-- services/writeback.ts: a reconciliation keeps the table, and every other request's row.
use recat_qbo.Prelude.Shared.{Bool, true, not, Option, none, some, String}
use recat_qbo.Prelude.Splits.{by_if, by_option}
use recat_qbo.Writeback.{
  AttemptStatus, prepared, committing, verified, uncertain, retryable, failed, unchanged, dry_run,
  DurableAttempt, Entity, PreparedSnapshot, find_attempt, ends_as, stays_as, throws,
}
use recat_qbo.Writeback.Settle.{recorded}
use recat_qbo.Writeback.Commit.{ReconcileAnswers, reconcile_actual, reconcile, same_snapshot}
use recat_qbo.Writeback.Table.{IsTable}
use recat_qbo.Writeback.Rows.{Kept, same_rows}
use recat_qbo.Writeback.Finished.{
  finalize_verified-Kept, finalize_unchanged-Kept, mark_uncertain-Kept,
}

module _ (verify : String → PreparedSnapshot → Bool) where
  reconcile_actual-Kept :
      (id : String) (r : DurableAttempt) (a : ReconcileAnswers) (s : Option PreparedSnapshot)
      (e : Entity)
      → IsTable e.attempts
      → Kept id e (reconcile_actual verify id r a s e)
  reconcile_actual-Kept id r a none e t = mark_uncertain-Kept id true a.stored e t
  reconcile_actual-Kept id r a (some s) e t =
      by_if (Kept id e) (verify r.body s)
        (λ b.
          by_if (Kept id e) a.stored (λ c. finalize_verified-Kept id (ends_as r.operation) s e t)
            (λ c. same_rows t))
        (λ b.
          by_if (Kept id e) (same_snapshot s r.before)
            (λ c.
              by_if (Kept id e) a.stored
                (λ d. finalize_unchanged-Kept id (stays_as r.operation) e t) (λ d. same_rows t))
            (λ c. mark_uncertain-Kept id true a.stored e t))

  reconcile_status-Kept :
      (id : String) (r : DurableAttempt) (a : ReconcileAnswers) (e : Entity) (s : AttemptStatus)
      → IsTable e.attempts
      → Kept id e (elim s [
        | dry_run ↦ (e, recorded id e)
        | verified ↦ (e, recorded id e)
        | unchanged ↦ (e, recorded id e)
        | prepared ↦ (e, throws "RECONCILE_NOT_ALLOWED")
        | retryable ↦ (e, throws "RECONCILE_NOT_ALLOWED")
        | failed ↦ (e, throws "RECONCILE_NOT_ALLOWED")
        | committing ↦ elim a.actual [
          | none ↦ (e, throws a.fetch_error)
          | some actual ↦ reconcile_actual verify id r a actual e
        ]
        | uncertain ↦ elim a.actual [
          | none ↦ (e, throws a.fetch_error)
          | some actual ↦ reconcile_actual verify id r a actual e
        ]
      ])
  reconcile_status-Kept id r a e committing t =
      by_option (Kept id e) a.actual (λ n. same_rows t) (λ s n. reconcile_actual-Kept id r a s e t)
  reconcile_status-Kept id r a e uncertain t =
      by_option (Kept id e) a.actual (λ n. same_rows t) (λ s n. reconcile_actual-Kept id r a s e t)
  reconcile_status-Kept id r a e dry_run t = same_rows t
  reconcile_status-Kept id r a e verified t = same_rows t
  reconcile_status-Kept id r a e unchanged t = same_rows t
  reconcile_status-Kept id r a e prepared t = same_rows t
  reconcile_status-Kept id r a e retryable t = same_rows t
  reconcile_status-Kept id r a e failed t = same_rows t

  pub reconcile-Kept :
      (id : String) (a : ReconcileAnswers) (e : Entity)
      → IsTable e.attempts
      → Kept id e (reconcile verify id a e)
  unfolding reconcile
  reconcile-Kept id a e t =
      by_if (Kept id e) (not a.held) (λ b. same_rows t)
        (λ b.
          by_option (Kept id e) (find_attempt id e.attempts) (λ n. same_rows t)
            (λ r n.
              by_option (Kept id e) a.authorize_error
                (λ m. reconcile_status-Kept id r a e r.status t) (λ code m. same_rows t)))
