-- ===== src/Transfer/Execution/Stopped.antt =====
-- services/transferExecution.ts: what the runs of both legs come to, and the preparation that stops.
use recat_qbo.Prelude.Shared.{
  ◌≡◌, refl, sym, ◌∙◌, Bool, true, false, not, ◌&&◌, arith, ◌⊎◌, inl, inr,
}
use recat_qbo.Prelude.Splits.{by_if, by_option}
use recat_qbo.Transfer.Execution.{
  TransferExecutionErrorCode, Operation, LegIndex, first_leg, second_leg, is_prepared, is_success,
  load_local_state, TransferAttemptStatus, verified, dry_run,
}
use recat_qbo.Transfer.Execution.Transitions.{mark_prepared_retryable}
use recat_qbo.Transfer.Execution.Reconcile.{LegReply}
use recat_qbo.Transfer.Execution.Commit.{
  LegAnswers, PreparedState, local_state, stopped, is_stale, give_up_stale, load_prepared_state,
}
use recat_qbo.Transfer.Execution.Steps.{Moves, Moves-trans, Leads, Leads-refl}
use recat_qbo.Transfer.Execution.Invariant.{is_done, Steps-done}
use recat_qbo.Transfer.Execution.Refines.{Reaches, reach, halt, after}
use recat_qbo.Transfer.Execution.Unsent.{mark_prepared-Leads}

-- What a call may do: it moves the legs, and sends the second one only over a first one with success.
pub record Runs (o : Operation) (r : Operation × LegReply) : Type 0 where
  pub moved : Moves o r.0
  pub ordered : (r.0.second.sends ≡ o.second.sends) ⊎ (is_success r.0.first.status ≡ true)

pub Runs-first : {o : Operation} {r : Operation × LegReply} → Reaches first_leg o r → Runs o r
Runs-first h = record { moved = h.leads.moved; ordered = inl (sym h.leads.other_sends) }

success_done : (s : TransferAttemptStatus) → is_success s ≡ true → is_done s ≡ true
success_done verified h = refl
success_done dry_run h = refl
success_done _ h = absurd (ground arith)

pub Runs-second :
    {o : Operation} {r : Operation × LegReply}
    → is_success o.first.status ≡ true
    → Reaches second_leg o r
    → Runs o r
Runs-second s h = record {
  moved = h.leads.moved;
  ordered = inr (rw (Steps-done h.leads.moved.first_moves (success_done _ s)) s);
}

-- A run for the first leg, and then another run.
pub then_Runs :
    {o p : Operation} {r : Operation × LegReply} → Leads first_leg o p → Runs p r → Runs o r
then_Runs {o} {p} {r} l h = record {
  moved = Moves-trans l.moved h.moved;
  ordered = order h.ordered;
}
  where
    order :
        (r.0.second.sends ≡ p.second.sends) ⊎ (is_success r.0.first.status ≡ true)
        → (r.0.second.sends ≡ o.second.sends) ⊎ (is_success r.0.first.status ≡ true)
    order (inl e) = inl (e ∙ sym l.other_sends)
    order (inr s) = inr s

abbrev pub Stopped : LegIndex → Operation → PreparedState → Type 0
Stopped i o local_state = Unit
Stopped i o (stopped r) = Reaches i o r

pub record Stops (i : LegIndex) (o : Operation) (s : PreparedState) : Type 0 where
  pub stops : Stopped i o s

pub by_prepared :
    (P : Operation × LegReply → Type 0) (i : LegIndex) (o : Operation) {x : Operation × LegReply}
    (s : PreparedState)
    → Stops i o s
    → ((r : Operation × LegReply) → Reaches i o r → P r)
    → P x
    → P (elim s [ stopped r ↦ r | local_state ↦ x ])
by_prepared P i o local_state h f x = x
by_prepared P i o (stopped r) h f x = f r h.stops

give_up_stale-Reaches :
    (i : LegIndex) (a : LegAnswers) (code : TransferExecutionErrorCode) (j : LegIndex)
    (again : Bool) (o : Operation)
    → Reaches i o (give_up_stale a code j again o)
give_up_stale-Reaches i a code j again o =
    by_if (Reaches i o) (not a.marked) (λ e. halt)
      (λ e. after (mark_prepared-Leads i j code o) (
        by_if (Reaches i (mark_prepared_retryable j code o)) (again && not a.marked_again)
          (λ e. halt)
          (λ e. reach (
            by_if (Leads i (mark_prepared_retryable j code o)) again
              (λ e. mark_prepared-Leads i second_leg code (mark_prepared_retryable j code o))
              (λ e. Leads-refl)))))

pub load_prepared-Stops :
    (i : LegIndex) (a : LegAnswers) (o : Operation) → Stops i o (load_prepared_state a o)
unfolding load_prepared_state
load_prepared-Stops i a o =
    by_option (Stops i o) (load_local_state o) (λ e. record { stops = tt })
      (λ code e. record {
        stops =
            by_if (Reaches i o) (not (is_stale code)) (λ e. halt)
              (λ e.
                by_if (Reaches i o) (is_prepared o.first.status)
                  (λ e. give_up_stale-Reaches i a code first_leg (is_prepared o.second.status) o)
                  (λ e.
                    by_if (Reaches i o) (is_prepared o.second.status)
                      (λ e. give_up_stale-Reaches i a code second_leg false o) (λ e. halt)));
      })
