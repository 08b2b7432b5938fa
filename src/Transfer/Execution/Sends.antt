-- ===== src/Transfer/Execution/Sends.antt =====
-- services/transferExecution.ts: the run of a prepared leg moves it by the state machine's steps: what
-- it claims it sends at most once, and what it gives up it has not sent.
use recat_qbo.Prelude.Shared.{ℕ, ◌≡◌, refl, not, ◌&&◌, Option, none, some, arith, leb}
use recat_qbo.Prelude.Splits.{by_if, by_option}
use recat_qbo.Transfer.Execution.{
  TransferExecutionErrorCode, operation_conflict, operation_expired, qbo_state_drift,
  stale_revision, stale_qbo_binding, LineWriteSnapshot, PreparedWrite, same_json, Operation,
  LegIndex, leg_of, other_leg, is_prepared, is_verified, load_local_state, invalid_input,
  operation_not_found, forbidden,
}
use recat_qbo.Transfer.Execution.Transitions.{
  Entered, refused, not_won, won, enter_committing, finalize_dry_run, DryRunResult, finalized,
  not_enabled, expired, dry_run_refused, touch, persist_accepted_response,
}
use recat_qbo.Transfer.Execution.Reconcile.{LegReply}
use recat_qbo.Transfer.Execution.Legs.{
  ExecuteAnswers, SendGuard, guard_passed, guard_dry_run, guard_error, guard_lost, guard_failed,
  refresh_strict, reprove_inherited, send_guard, send, dry_run_indices, release_claim,
  after_dry_run, is_giving_up, read_back, after_send, after_guard, give_up_unsent, after_refused,
  after_enter, execute_prepared_leg,
}
use recat_qbo.Transfer.Execution.Steps.{
  claims, leaves, accepts, one, Leads, Leads-refl, Leads-trans, Leads-put_leg,
}
use recat_qbo.Transfer.Execution.Invariant.{IsOperation}
use recat_qbo.Transfer.Execution.Refines.{
  by_reading, prepared_of, Reaches, reach, halt, after, touch-Leads, doubt-Reaches, verify-Leads,
}
use recat_qbo.Transfer.Execution.Unsent.{
  Claimed, put_leg-Claimed, touch-Claimed, mark_prepared-Leads, release-Leads, dry_run_indices-Legs,
  finalize_dry_run-Reaches, finalize_dry_run-kept,
}
use recat_qbo.Transfer.Execution.Guards.{
  Guarded, Won, guard_operation, on_reading-Guarded, prepared_unsent, refresh_strict-Guarded,
}

module _ (verify : PreparedWrite → LineWriteSnapshot → Option LineWriteSnapshot) where
  read_back-Reaches :
      (i : LegIndex) (a : ExecuteAnswers) (s : LineWriteSnapshot) (o : Operation)
      → Reaches i o (read_back verify i a s o)
  read_back-Reaches i a s o =
      let doubt = doubt-Reaches i (some s) a.uncertain_fenced a.uncertain_at in
      by_option (Reaches i o) a.guard_response (λ e. doubt o)
        (λ now e.
          by_reading (Reaches i o) a.readback (after (touch-Leads i now o) (doubt (touch i now o)))
            (after (touch-Leads i now o) (doubt (touch i now o)))
            (λ found.
              by_option (Reaches i o) a.guard_readback
                (λ e. after (touch-Leads i now o) (doubt (touch i now o)))
                (λ later e. after (touch-Leads i now o) (
                  after (touch-Leads i later (touch i now o)) (
                    by_option (Reaches i (touch i later (touch i now o)))
                      (verify (leg_of i o).prepared_write found)
                      (λ e. doubt (touch i later (touch i now o)))
                      (λ p e.
                        by_if (Reaches i (touch i later (touch i now o))) a.finalize_fenced
                          (λ e. reach (verify-Leads i p (touch i later (touch i now o))))
                          (λ e. doubt (touch i later (touch i now o)))))))))

  after_send-Reaches :
      (i : LegIndex) (a : ExecuteAnswers) (o : Operation) → Reaches i o (after_send verify i a o)
  after_send-Reaches i a o =
      by_option (Reaches i o) a.response
        (λ e. doubt-Reaches i none a.uncertain_fenced a.uncertain_at o)
        (λ r e.
          by_option (Reaches i o) (verify (leg_of i o).prepared_write r)
            (λ e. doubt-Reaches i none a.uncertain_fenced a.uncertain_at o)
            (λ s e.
              by_if (Reaches i o) a.persist_fenced
                (λ e.
                  after (Leads-put_leg i _ o (one (accepts s a.persisted_at (leg_of i o))))
                    (read_back-Reaches i a s (persist_accepted_response i s a.persisted_at o)))
                (λ e. doubt-Reaches i (some s) a.uncertain_fenced a.uncertain_at o)))

  reprove_inherited-Guarded :
      (i : LegIndex) (a : ExecuteAnswers) (o : Operation)
      → Claimed i o
      → Guarded i o (reprove_inherited verify i a o)
  reprove_inherited-Guarded i a o c =
      let other = leg_of (other_leg i) o in
      by_if (Guarded i o) (not (o.is_retry && is_verified other.status))
        (λ e. refresh_strict-Guarded i a o c)
        (λ e.
          by_option (Guarded i o) other.response_snapshot
            (λ e. record { leads = Leads-refl; claimed = c })
            (λ stored e.
              by_option (Guarded i o) (verify other.prepared_write stored)
                (λ e. record { leads = Leads-refl; claimed = c })
                (λ expected e.
                  on_reading-Guarded i a.inherited expected o (refresh_strict i a o) c
                    (refresh_strict-Guarded i a o c))))

  send_guard-Guarded :
      (i : LegIndex) (a : ExecuteAnswers) (o : Operation)
      → Claimed i o
      → Guarded i o (send_guard verify i a o)
  unfolding send_guard
  send_guard-Guarded i a o c =
      by_option (Guarded i o) a.guard_before (λ e. record { leads = Leads-refl; claimed = c })
        (λ now e.
          let held = touch i now o in
          let d = touch-Claimed i now o c in
          let g =
            on_reading-Guarded i a.current (leg_of i o).prepared_write.before held
              (reprove_inherited verify i a held) d (reprove_inherited-Guarded i a held d) in
          record { leads = Leads-trans (touch-Leads i now o) g.leads; claimed = g.claimed })

  release_claim-Reaches :
      (i : LegIndex) (a : ExecuteAnswers) (code : TransferExecutionErrorCode) (o : Operation)
      → Claimed i o
      → Reaches i o (release_claim i a code o)
  release_claim-Reaches i a code o c =
      by_if (Reaches i o) (not a.release_fenced) (λ e. halt) (λ e. reach (release-Leads i code o c))

  after_dry_run-Reaches :
      (i : LegIndex) (a : ExecuteAnswers) (o : Operation) (r : Operation × DryRunResult)
      → Claimed i o
      → Leads i o r.0
      → (r.1 ≡ not_enabled → r.0 ≡ o)
      → Reaches i o (after_dry_run i a r)
  after_dry_run-Reaches i a o (p, dry_run_refused code) c l k = reach l
  after_dry_run-Reaches i a o (p, not_enabled) c l k =
      after l (release_claim-Reaches i a qbo_state_drift p (rw (k refl) c))
  after_dry_run-Reaches i a o (p, finalized) c l k = reach l
  after_dry_run-Reaches i a o (p, expired) c l k = reach l

  after_guard-Reaches :
      (i : LegIndex) (a : ExecuteAnswers) (g : SendGuard)
      → Claimed i (guard_operation g)
      → Reaches i (guard_operation g) (after_guard verify i a g)
  after_guard-Reaches i a (guard_passed o) c =
      after (Leads-put_leg i _ o (one (leaves (leg_of i o) c.0 c.1)))
        (after_send-Reaches i a (send i o))
  after_guard-Reaches i a (guard_dry_run o) c =
      let is = dry_run_indices i o in
      by_if (Reaches i o) (not a.dry_fenced) (λ e. halt)
        (λ e.
          after_dry_run-Reaches i a o (finalize_dry_run is (some i) a.dry_at a.dry_enabled o) c
            (finalize_dry_run-Reaches i is (some i) a.dry_at a.dry_enabled o
              (dry_run_indices-Legs i o) c).leads
            (finalize_dry_run-kept is (some i) a.dry_at a.dry_enabled o))
  after_guard-Reaches i a (guard_error code o) c =
      by_if (Reaches i o) (is_giving_up code) (λ e. release_claim-Reaches i a code o c) (λ e. halt)
  after_guard-Reaches i a (guard_lost o) c = halt
  after_guard-Reaches i a (guard_failed o) c =
      by_if (Reaches i o) (not a.retained) (λ e. halt)
        (λ e. release_claim-Reaches i a qbo_state_drift o c)

  give_up_unsent-Reaches :
      (i : LegIndex) (a : ExecuteAnswers) (code : TransferExecutionErrorCode) (next : LegReply)
      (o : Operation)
      → Reaches i o (give_up_unsent verify i a code next o)
  give_up_unsent-Reaches i a code next o =
      by_if (Reaches i o) (not a.mark_fenced) (λ e. halt)
        (λ e. reach (mark_prepared-Leads i i code o))

  after_refused-Reaches :
      (i : LegIndex) (a : ExecuteAnswers) (code : TransferExecutionErrorCode) (o : Operation)
      → Reaches i o (after_refused verify i a code o)
  after_refused-Reaches i a qbo_state_drift o = give_up_unsent-Reaches i a qbo_state_drift _ o
  after_refused-Reaches i a operation_expired o = give_up_unsent-Reaches i a operation_expired _ o
  after_refused-Reaches i a stale_revision o = give_up_unsent-Reaches i a stale_revision _ o
  after_refused-Reaches i a stale_qbo_binding o = give_up_unsent-Reaches i a stale_qbo_binding _ o
  after_refused-Reaches i a invalid_input o = halt
  after_refused-Reaches i a operation_not_found o = halt
  after_refused-Reaches i a forbidden o = halt
  after_refused-Reaches i a operation_conflict o = halt

  -- Who wins the claim has a leg that was never sent.
  enter-Won :
      (i : LegIndex) (s : LineWriteSnapshot) (now : ℕ) (o : Operation)
      → IsOperation o
      → Won i o (enter_committing i s now o)
  unfolding enter_committing
  enter-Won i s now o h =
      by_option (Won i o) (load_local_state o)
        (λ e.
          by_if (Won i o) (not (is_prepared (leg_of i o).status)) (λ e. record { won_leads = tt })
            (λ p.
              by_if (Won i o) (leb o.expires_at now) (λ e. record { won_leads = tt })
                (λ e.
                  by_if (Won i o) (not (same_json s (leg_of i o).prepared_write.before))
                    (λ e. record { won_leads = tt })
                    (λ e. record {
                      won_leads = (
                        Leads-put_leg i _ o
                            (one (claims now (leg_of i o) (prepared_of _ (ground arith)))),
                        put_leg-Claimed i _ o (refl, prepared_unsent i o h (ground arith)),
                      );
                    }))))
        (λ code e. record { won_leads = tt })

  after_enter-Reaches :
      (i : LegIndex) (a : ExecuteAnswers) (o : Operation) (e : Entered)
      → Won i o e
      → Reaches i o (after_enter verify i a o e)
  after_enter-Reaches i a o (refused code) w = after_refused-Reaches i a code o
  after_enter-Reaches i a o not_won w =
      by_option (Reaches i o) (load_local_state o) (λ e. halt)
        (λ code e. after_refused-Reaches i a code o)
  after_enter-Reaches i a o (won p) w = after w.won_leads.0 (
      by_option (Reaches i p) a.refreshed (λ e. halt)
        (λ now e.
          let g = send_guard-Guarded i a (touch i now p) (touch-Claimed i now p w.won_leads.1) in
          after (touch-Leads i now p) (
            after g.leads
              (after_guard-Reaches i a (send_guard verify i a (touch i now p)) g.claimed))))

  pub execute-Reaches :
      (i : LegIndex) (a : ExecuteAnswers) (o : Operation)
      → IsOperation o
      → Reaches i o (execute_prepared_leg verify i a o)
  unfolding execute_prepared_leg
  execute-Reaches i a o h =
      let given_up = give_up_unsent-Reaches i a qbo_state_drift _ o in
      by_if (Reaches i o) (not a.client) (λ e. given_up)
        (λ e.
          by_if (Reaches i o) (not a.renewed) (λ e. halt)
            (λ e. by_reading (Reaches i o) a.exact_before given_up given_up (λ s.
              by_if (Reaches i o) (not (same_json s (leg_of i o).prepared_write.before))
                (λ e. given_up)
                (λ e.
                  by_if (Reaches i o) (not a.enter_fenced) (λ e. halt)
                    (λ e.
                      after_enter-Reaches i a o (enter_committing i s a.entered_at o)
                        (enter-Won i s a.entered_at o h))))))
