-- ===== src/Transfer/Execution/Refines.antt =====
-- services/transferExecution.ts: every run of the code moves the legs by the state machine's steps.
use recat_qbo.Prelude.Shared.{ℕ, ◌≡◌, refl, Bool, true, false, not, Option, none, String, arith}
use recat_qbo.Prelude.Splits.{by_if, by_option}
use recat_qbo.Transfer.Execution.{
  LineWriteSnapshot, PreparedWrite, Leg, Operation, LegIndex, first_leg, second_leg, leg_of,
  is_prepared, is_committing, is_sending, prepared, committing, TransferAttemptStatus,
  load_recovery_state, same_json,
}
use recat_qbo.Transfer.Execution.Transitions.{
  give_up_if, touch, finalize_verified, finalize_unchanged, mark_uncertain,
}
use recat_qbo.Transfer.Execution.Reconcile.{
  in_doubt, ReconcileAnswers, recover, reconcile_mismatch, reconcile_actual, reconcile_read,
  reconcile_leg, Reading, unread, absent, read,
}
use recat_qbo.Transfer.Execution.Steps.{
  gives_up, touches, verifies, is_unchanged, doubts, LegSteps, stays, one, Leads, Leads-refl,
  Leads-trans, Leads-put_leg, by_legs,
}

-- A property of every answer of a reading.
pub by_reading {ℓ κ} :
    {B : Type ℓ} (P : B → Type κ) {x y : B} {f : LineWriteSnapshot → B} (r : Reading)
    → P x
    → P y
    → ((s : LineWriteSnapshot) → P (f s))
    → P (elim r [ unread ↦ x | absent ↦ y | read s ↦ f s ])
by_reading P unread u a f = u
by_reading P absent u a f = a
by_reading P (read s) u a f = f s

pub prepared_of : (s : TransferAttemptStatus) → is_prepared s ≡ true → s ≡ prepared
prepared_of prepared h = refl
prepared_of _ h = absurd (ground arith)

pub committing_of : (s : TransferAttemptStatus) → is_committing s ≡ true → s ≡ committing
committing_of committing h = refl
committing_of _ h = absurd (ground arith)

pub touch-Leads : (i : LegIndex) (now : ℕ) (o : Operation) → Leads i o (touch i now o)
touch-Leads i now o = Leads-put_leg i _ o (one (touches now (leg_of i o)))

pub doubt-Leads :
    (i : LegIndex) (s : Option LineWriteSnapshot) (fenced : Bool) (now : ℕ) (o : Operation)
    → Leads i o (mark_uncertain i s fenced now o)
doubt-Leads i s true now o = Leads-put_leg i _ o (one (doubts s now (leg_of i o)))
doubt-Leads i s false now o = Leads-refl

pub verify-Leads :
    (i : LegIndex) (s : LineWriteSnapshot) (o : Operation) → Leads i o (finalize_verified i s o)
verify-Leads i s o = Leads-put_leg i _ o (one (verifies s (leg_of i o)))

pub retry_if : (code : String) (l : Leg) → LegSteps l (give_up_if (is_prepared l.status) code l)
retry_if code l =
    by_if (LegSteps l) (is_prepared l.status) (λ e. one (gives_up code l (prepared_of _ e)))
      (λ e. stays)

pub retry_if_sends : (code : String) (b : Bool) (l : Leg) → l.sends ≡ (give_up_if b code l).sends
retry_if_sends code true l = refl
retry_if_sends code false l = refl

unchanged-Leads :
    (i : LegIndex) (s : LineWriteSnapshot) (o : Operation) → Leads i o (finalize_unchanged i s o)
unfolding finalize_unchanged
unchanged-Leads first_leg s o =
    by_if (Leads first_leg o) (is_sending o.first.status)
      (λ e.
        by_legs first_leg o _ _ (one (is_unchanged s o.first e))
          (retry_if "TRANSFER_RETRYABLE" o.second) (retry_if_sends "TRANSFER_RETRYABLE" _ o.second))
      (λ e. Leads-refl)
unchanged-Leads second_leg s o =
    by_if (Leads second_leg o) (is_sending o.second.status)
      (λ e.
        by_legs second_leg o _ _ (retry_if "TRANSFER_RETRYABLE" o.first)
          (one (is_unchanged s o.second e)) (retry_if_sends "TRANSFER_RETRYABLE" _ o.first))
      (λ e. Leads-refl)

-- What a run reaches, from an operation.
pub record Reaches {R : Type 0} (i : LegIndex) (o : Operation) (r : Operation × R) : Type 0 where
  pub leads : Leads i o r.0

pub reach : {R : Type 0} {i : LegIndex} {o p : Operation} {r : R} → Leads i o p → Reaches i o (p, r)
reach l = record { leads = l }

pub halt : {R : Type 0} {i : LegIndex} {o : Operation} {r : R} → Reaches i o (o, r)
halt = reach Leads-refl

pub after :
    {R : Type 0} {i : LegIndex} {o p : Operation} {r : Operation × R}
    → Leads i o p
    → Reaches i p r
    → Reaches i o r
after l r = record { leads = Leads-trans l r.leads }

pub doubt-Reaches :
    (i : LegIndex) (s : Option LineWriteSnapshot) (fenced : Bool) (now : ℕ) (o : Operation)
    → Reaches i o (in_doubt i s fenced now o)
doubt-Reaches i s fenced now o = reach (doubt-Leads i s fenced now o)

recover-Reaches :
    (i : LegIndex) (a : ReconcileAnswers) (retained : Bool) (o : Operation)
    → Reaches i o (recover i a retained o)
recover-Reaches i a retained o =
    by_if (Reaches i o) (not retained) (λ e. halt)
      (λ e.
        by_option (Reaches i o) (load_recovery_state o)
          (λ e.
            by_if (Reaches i o) (not (is_sending (leg_of i o).status)) (λ e. halt)
              (λ e. doubt-Reaches i none a.uncertain_fenced a.uncertain_at o))
          (λ c e. halt))

mismatch-Reaches :
    (i : LegIndex) (a : ReconcileAnswers) (q : Bool) (s : LineWriteSnapshot) (o : Operation)
    → Reaches i o (reconcile_mismatch i a q s o)
mismatch-Reaches i a q s o =
    let doubt = doubt-Reaches i none a.uncertain_fenced a.uncertain_at o in
    by_if (Reaches i o) (same_json s (leg_of i o).prepared_write.before)
      (λ e.
        by_option (Reaches i o) (leg_of i o).response_snapshot
          (λ e.
            by_if (Reaches i o) (not q) (λ e. halt)
              (λ e.
                by_if (Reaches i o) a.finalize_fenced (λ e. reach (unchanged-Leads i s o))
                  (λ e. recover-Reaches i a a.retained o)))
          (λ r e. doubt))
      (λ e. doubt)

module _ (verify : PreparedWrite → LineWriteSnapshot → Option LineWriteSnapshot) where
  actual-Reaches :
      (i : LegIndex) (a : ReconcileAnswers) (q : Bool) (s : LineWriteSnapshot) (o : Operation)
      → Reaches i o (reconcile_actual verify i a q s o)
  actual-Reaches i a q s o =
      by_option (Reaches i o) (verify (leg_of i o).prepared_write s)
        (λ e. mismatch-Reaches i a q s o)
        (λ p e.
          by_if (Reaches i o) a.finalize_fenced (λ e. reach (verify-Leads i p o))
            (λ e. mismatch-Reaches i a q s o))

  read-Reaches :
      (i : LegIndex) (a : ReconcileAnswers) (q : Bool) (o : Operation)
      → Reaches i o (reconcile_read verify i a q o)
  read-Reaches i a q o =
      by_reading (Reaches i o) a.actual (recover-Reaches i a a.retained o)
        (by_option (Reaches i o) a.guard_after (λ e. recover-Reaches i a false o)
          (λ now e.
            after (touch-Leads i now o)
              (doubt-Reaches i none a.uncertain_fenced a.uncertain_at (touch i now o))))
        (λ s.
          by_option (Reaches i o) a.guard_after (λ e. recover-Reaches i a false o)
            (λ now e. after (touch-Leads i now o) (actual-Reaches i a q s (touch i now o))))

  pub reconcile-Reaches :
      (quiescence : Option ℕ) (i : LegIndex) (a : ReconcileAnswers) (o : Operation)
      → Reaches i o (reconcile_leg verify quiescence i a o)
  unfolding reconcile_leg
  reconcile-Reaches quiescence i a o =
      by_if (Reaches i o) (not a.renewed) (λ e. halt)
        (λ e.
          by_option (Reaches i o) (load_recovery_state o)
            (λ e.
              by_if (Reaches i o) (not (is_sending (leg_of i o).status)) (λ e. halt)
                (λ e.
                  by_option (Reaches i o) a.guard_before (λ e. recover-Reaches i a false o)
                    (λ now e. after (touch-Leads i now o) (read-Reaches i a _ (touch i now o)))))
            (λ c e. halt))
