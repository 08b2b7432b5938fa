-- ===== src/Transfer/Execution/Committed.antt =====
-- services/transferExecution.ts: what a call of `commitTransfer`, and any number of them, does to an
-- operation.
use recat_qbo.Prelude.Shared.{ℕ, ◌≡◌, true, not, ◌&&◌, ◌||◌, [], ◌∷◌, Option, none}
use recat_qbo.Prelude.Splits.{by_if}
use recat_qbo.Transfer.Execution.{
  LineWriteSnapshot, PreparedWrite, Operation, LegIndex, first_leg, second_leg, is_prepared,
  is_sending, is_success,
}
use recat_qbo.Transfer.Execution.Transitions.{
  DryRunResult, finalized, not_enabled, expired, dry_run_refused,
}
use recat_qbo.Transfer.Execution.Reconcile.{LegReply, go_on, reply, throws, reply_with}
use recat_qbo.Transfer.Execution.Commit.{
  LegAnswers, CommitAnswers, load_prepared_state, expires_now, expire, is_open, after_leg,
  after_leg_dry_run, run_prepared, commit_leg, commit_legs, after_both_dry_run, commit_both,
  commit_transfer,
}
use recat_qbo.Transfer.Execution.Steps.{Leads, Leads-refl}
use recat_qbo.Transfer.Execution.Invariant.{IsOperation, Moves-IsOperation}
use recat_qbo.Transfer.Execution.Refines.{Reaches, reach, halt, after, reconcile-Reaches}
use recat_qbo.Transfer.Execution.Unsent.{
  retry_prepared-Leads, only, both_legs, finalize_dry_run-Reaches,
}
use recat_qbo.Transfer.Execution.Sends.{execute-Reaches}
use recat_qbo.Transfer.Execution.Stopped.{
  Runs, Runs-first, Runs-second, by_prepared, load_prepared-Stops, then_Runs,
}

module _ (verify : PreparedWrite → LineWriteSnapshot → Option LineWriteSnapshot)
    (quiescence : Option ℕ) where
  after_leg_dry_run-Reaches :
      (i : LegIndex) (a : LegAnswers) (o : Operation) (r : Operation × DryRunResult)
      → IsOperation o
      → Reaches i o r
      → Reaches i o (after_leg_dry_run verify quiescence i a r)
  after_leg_dry_run-Reaches i a o (p, dry_run_refused code) h l = reach l.leads
  after_leg_dry_run-Reaches i a o (p, not_enabled) h l =
      after l.leads (execute-Reaches verify i a.execute p (Moves-IsOperation l.leads.moved h))
  after_leg_dry_run-Reaches i a o (p, finalized) h l = reach l.leads
  after_leg_dry_run-Reaches i a o (p, expired) h l = reach l.leads

  run_prepared-Reaches :
      (i : LegIndex) (a : LegAnswers) (o : Operation)
      → IsOperation o
      → Reaches i o (run_prepared verify quiescence i a o)
  run_prepared-Reaches i a o h =
      by_if (Reaches i o) (not a.dry) (λ e. execute-Reaches verify i a.execute o h)
        (λ e.
          by_if (Reaches i o) (not a.dry_fenced) (λ e. halt)
            (λ e.
              after_leg_dry_run-Reaches i a o _ h
                (finalize_dry_run-Reaches i (i ∷ []) none a.dry_at a.dry_enabled o (only i) tt)))

  after_first-Runs :
      (rest : Operation → Operation × LegReply) (o : Operation) (r : Operation × LegReply)
      → ((p : Operation) → IsOperation p → is_success p.first.status ≡ true → Runs p (rest p))
      → IsOperation o
      → Reaches first_leg o r
      → Runs o (after_leg first_leg rest r)
  after_first-Runs rest o (p, go_on) f h l =
      by_if (Runs o) (is_success p.first.status)
        (λ e. then_Runs l.leads (f p (Moves-IsOperation l.leads.moved h) e))
        (λ e. Runs-first (reach l.leads))
  after_first-Runs rest o (p, reply d) f h l = Runs-first (reach l.leads)
  after_first-Runs rest o (p, throws e) f h l = Runs-first (reach l.leads)

  commit_first-Runs :
      (a : LegAnswers) (rest : Operation → Operation × LegReply) (o : Operation)
      → ((p : Operation) → IsOperation p → is_success p.first.status ≡ true → Runs p (rest p))
      → IsOperation o
      → Runs o (commit_leg verify quiescence first_leg a rest o)
  unfolding commit_leg
  commit_first-Runs a rest o f h =
      by_if (Runs o) (is_success o.first.status) (λ e. f o h e)
        (λ e.
          by_if (Runs o) (is_sending o.first.status)
            (λ e.
              after_first-Runs rest o _ f h
                (reconcile-Reaches verify quiescence first_leg a.reconcile o))
            (λ e.
              by_if (Runs o) (not (is_prepared o.first.status)) (λ e. Runs-first halt)
                (λ e.
                  by_prepared (Runs o) first_leg o (load_prepared_state a o)
                    (load_prepared-Stops first_leg a o) (λ r l. Runs-first l)
                    (after_first-Runs rest o _ f h (run_prepared-Reaches first_leg a o h)))))

  after_second-Reaches :
      (o : Operation) (r : Operation × LegReply)
      → Reaches second_leg o r
      → Reaches second_leg o (after_leg second_leg reply_with r)
  after_second-Reaches o (p, go_on) l =
      by_if (Reaches second_leg o) (is_success p.second.status) (λ e. reach l.leads)
        (λ e. reach l.leads)
  after_second-Reaches o (p, reply d) l = reach l.leads
  after_second-Reaches o (p, throws e) l = reach l.leads

  commit_second-Reaches :
      (a : LegAnswers) (o : Operation)
      → IsOperation o
      → Reaches second_leg o (commit_leg verify quiescence second_leg a reply_with o)
  unfolding commit_leg
  commit_second-Reaches a o h =
      by_if (Reaches second_leg o) (is_success o.second.status) (λ e. halt)
        (λ e.
          by_if (Reaches second_leg o) (is_sending o.second.status)
            (λ e.
              after_second-Reaches o _
                (reconcile-Reaches verify quiescence second_leg a.reconcile o))
            (λ e.
              by_if (Reaches second_leg o) (not (is_prepared o.second.status)) (λ e. halt)
                (λ e.
                  by_prepared (Reaches second_leg o) second_leg o (load_prepared_state a o)
                    (load_prepared-Stops second_leg a o) (λ r l. l)
                    (after_second-Reaches o _ (run_prepared-Reaches second_leg a o h)))))

  commit_legs-Runs :
      (a : CommitAnswers) (o : Operation)
      → IsOperation o
      → Runs o (commit_legs verify quiescence a o)
  unfolding commit_legs
  commit_legs-Runs a o h =
      commit_first-Runs a.first _ o (λ p k s. Runs-second s (commit_second-Reaches a.second p k)) h

  both_dry_run-Runs :
      (a : CommitAnswers) (o : Operation) (r : Operation × DryRunResult)
      → IsOperation o
      → Reaches first_leg o r
      → Runs o (after_both_dry_run verify quiescence a r)
  both_dry_run-Runs a o (p, dry_run_refused code) h l = Runs-first (reach l.leads)
  both_dry_run-Runs a o (p, not_enabled) h l =
      then_Runs l.leads (commit_legs-Runs a p (Moves-IsOperation l.leads.moved h))
  both_dry_run-Runs a o (p, finalized) h l = Runs-first (reach l.leads)
  both_dry_run-Runs a o (p, expired) h l = Runs-first (reach l.leads)

  commit_both-Runs :
      (a : CommitAnswers) (o : Operation)
      → IsOperation o
      → Runs o (commit_both verify quiescence a o)
  commit_both-Runs a o h =
      by_prepared (Runs o) first_leg o (load_prepared_state a.both o)
        (load_prepared-Stops first_leg a.both o) (λ r l. Runs-first l)
        (by_if (Runs o) (not a.both.dry) (λ e. commit_legs-Runs a o h)
          (λ e.
            by_if (Runs o) (not a.both.dry_fenced) (λ e. Runs-first halt)
              (λ e. both_dry_run-Runs a o _ h (
                finalize_dry_run-Reaches first_leg (first_leg ∷ second_leg ∷ []) none a.both.dry_at
                  a.both.dry_enabled o both_legs tt))))

  expire-Leads : (a : CommitAnswers) (o : Operation) → Leads first_leg o (expire a o)
  expire-Leads a o =
      by_if (Leads first_leg o) (expires_now a.now o)
        (λ e. retry_prepared-Leads first_leg "OPERATION_EXPIRED" o) (λ e. Leads-refl)

  pub commit-Runs :
      (a : CommitAnswers) (o : Operation)
      → IsOperation o
      → Runs o (commit_transfer verify quiescence a o)
  unfolding commit_transfer
  commit-Runs a o h =
      let l = expire-Leads a o in
      let k = Moves-IsOperation l.moved h in
      let p = expire a o in
      by_if (Runs o) (not a.leased || (expires_now a.now o && not a.expire_fenced))
        (λ e. Runs-first halt)
        (λ e. then_Runs l (
          by_if (Runs p) (not (is_open p.first || is_open p.second)) (λ e. Runs-first halt)
            (λ e.
              by_if (Runs p) (is_prepared p.first.status && is_prepared p.second.status)
                (λ e. commit_both-Runs a p k) (λ e. commit_legs-Runs a p k))))
