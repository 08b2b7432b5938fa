-- ===== src/Transfer/Execution/Guards.antt =====
-- services/transferExecution.ts: the guard of a send keeps the claim, and a claimed leg was never sent.
use recat_qbo.Prelude.Shared.{ℕ, ◌≡◌, true, not, Option, String, arith, leb}
use recat_qbo.Prelude.Splits.{by_if, by_option}
use recat_qbo.Transfer.Execution.{
  LineWriteSnapshot, same_json, Operation, LegIndex, first_leg, second_leg, leg_of, is_prepared,
  is_committing, prepared, TransferAttemptStatus, load_local_state,
}
use recat_qbo.Transfer.Execution.Transitions.{Entered, refused, not_won, won}
use recat_qbo.Transfer.Execution.Reconcile.{Reading, unread, absent, read}
use recat_qbo.Transfer.Execution.Legs.{
  ExecuteAnswers, SendGuard, guard_passed, guard_dry_run, guard_error, guard_lost, guard_failed,
  refresh_strict, on_reading,
}
use recat_qbo.Transfer.Execution.Steps.{Leads, Leads-refl}
use recat_qbo.Transfer.Execution.Invariant.{IsOperation, SendFacts}
use recat_qbo.Transfer.Execution.Refines.{touch-Leads}
use recat_qbo.Transfer.Execution.Unsent.{Claimed, touch-Claimed}

abbrev pub guard_operation : SendGuard → Operation
guard_operation (guard_passed o) = o
guard_operation (guard_dry_run o) = o
guard_operation (guard_error code o) = o
guard_operation (guard_lost o) = o
guard_operation (guard_failed o) = o

-- The guard of a send keeps the claim.
pub record Guarded (i : LegIndex) (o : Operation) (g : SendGuard) : Type 0 where
  pub leads : Leads i o (guard_operation g)
  pub claimed : Claimed i (guard_operation g)

abbrev pub WonFacts : LegIndex → Operation → Entered → Type 0
WonFacts i o (refused code) = Unit
WonFacts i o not_won = Unit
WonFacts i o (won p) = Leads i o p × Claimed i p

pub record Won (i : LegIndex) (o : Operation) (e : Entered) : Type 0 where
  pub won_leads : WonFacts i o e

prepared_facts :
    (s : TransferAttemptStatus) (n : ℕ) (t : Option String) (l : String)
    → is_prepared s ≡ true
    → SendFacts s n t l
    → n ≡ 0
prepared_facts prepared n t l e f = f
prepared_facts _ n t l e f = absurd (ground arith)

pub prepared_unsent :
    (i : LegIndex) (o : Operation)
    → IsOperation o
    → is_prepared (leg_of i o).status ≡ true
    → (leg_of i o).sends ≡ 0
prepared_unsent first_leg o h e = prepared_facts o.first.status _ _ _ e h.0.1
prepared_unsent second_leg o h e = prepared_facts o.second.status _ _ _ e h.1.1

pub on_reading-Guarded :
    (i : LegIndex) (r : Reading) (s : LineWriteSnapshot) (o : Operation) (g : SendGuard)
    → Claimed i o
    → Guarded i o g
    → Guarded i o (on_reading r s o g)
on_reading-Guarded i unread s o g c h = record { leads = Leads-refl; claimed = c }
on_reading-Guarded i absent s o g c h = record { leads = Leads-refl; claimed = c }
on_reading-Guarded i (read r) s o g c h =
    by_if (Guarded i o) (same_json r s) (λ e. h) (λ e. record { leads = Leads-refl; claimed = c })

pub refresh_strict-Guarded :
    (i : LegIndex) (a : ExecuteAnswers) (o : Operation)
    → Claimed i o
    → Guarded i o (refresh_strict i a o)
unfolding refresh_strict
refresh_strict-Guarded i a o c =
    by_if (Guarded i o) (not a.strict_fenced) (λ e. record { leads = Leads-refl; claimed = c })
      (λ e.
        by_option (Guarded i o) (load_local_state o)
          (λ e.
            by_if (Guarded i o) (not (is_committing (leg_of i o).status))
              (λ e. record { leads = Leads-refl; claimed = c })
              (λ e.
                by_if (Guarded i o) (leb o.expires_at a.strict_at)
                  (λ e. record { leads = Leads-refl; claimed = c })
                  (λ e.
                    by_if (Guarded i o) a.strict_dry
                      (λ e. record { leads = Leads-refl; claimed = c })
                      (λ e. record {
                        leads = touch-Leads i a.strict_at o;
                        claimed = touch-Claimed i a.strict_at o c;
                      }))))
          (λ code e. record { leads = Leads-refl; claimed = c }))
