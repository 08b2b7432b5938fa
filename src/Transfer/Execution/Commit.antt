-- ===== src/Transfer/Execution/Commit.antt =====
-- services/transferExecution.ts: `commitTransfer`, from the lease of both entities on. An operation that
-- does not load, for its reader or for its evidence, ends the call before any write and has no place here.
use recat_qbo.Prelude.Shared.{
  ℕ, Bool, true, false, not, ◌&&◌, ◌||◌, [], ◌∷◌, Option, none, some, if◌then◌else◌, leb,
}
use recat_qbo.Transfer.Execution.{
  TransferExecutionErrorCode, stale_revision, stale_qbo_binding, LineWriteSnapshot, PreparedWrite,
  Leg, Operation, LegIndex, first_leg, second_leg, leg_of, is_prepared, is_sending, is_success,
  load_local_state,
}
use recat_qbo.Transfer.Execution.Transitions.{
  expire_prepared_attempts, mark_prepared_retryable, finalize_dry_run, DryRunResult, finalized,
  not_enabled, expired, dry_run_refused,
}
use recat_qbo.Transfer.Execution.Reconcile.{
  lease_error, execution_error, LegReply, go_on, reply, throws, reply_with, ReconcileAnswers,
  reconcile_leg,
}
use recat_qbo.Transfer.Execution.Legs.{ExecuteAnswers, execute_prepared_leg}

-- The answers in the course of one leg. `marked` and `marked_again` are the fences of the two
-- transactions that may give up a stale operation.
pub record LegAnswers : Type 0 where
  pub marked : Bool
  pub marked_again : Bool
  pub dry : Bool
  pub dry_fenced : Bool
  pub dry_at : ℕ
  pub dry_enabled : Bool
  pub reconcile : ReconcileAnswers
  pub execute : ExecuteAnswers

pub record CommitAnswers : Type 0 where
  pub leased : Bool
  pub now : ℕ
  pub expire_fenced : Bool
  pub both : LegAnswers
  pub first : LegAnswers
  pub second : LegAnswers

pub data PreparedState : Type 0 where
  local_state : PreparedState
  stopped : Operation × LegReply → PreparedState

abbrev pub is_stale : TransferExecutionErrorCode → Bool
is_stale stale_revision = true
is_stale stale_qbo_binding = true
is_stale _ = false

-- `for (const index of preparedIndices)`: the first transaction gives up every prepared attempt, a
-- second one finds nothing left to give up.
abbrev pub give_up_stale :
    LegAnswers → TransferExecutionErrorCode → LegIndex → Bool → Operation → Operation × LegReply
give_up_stale a code i again o =
    if not a.marked
    then (o, throws lease_error)
    else (let marked = mark_prepared_retryable i code o in
        if again && not a.marked_again
        then (marked, throws lease_error)
        else reply_with (if again then mark_prepared_retryable second_leg code marked else marked))

-- The `catch` of `loadPreparedState`.
abbrev pub stale_state : LegAnswers → TransferExecutionErrorCode → Operation → Operation × LegReply
stale_state a code o =
    if not (is_stale code)
    then (o, throws (execution_error code))
    else (if is_prepared o.first.status
        then give_up_stale a code first_leg (is_prepared o.second.status) o
        else (if is_prepared o.second.status
            then give_up_stale a code second_leg false o
            else (o, throws (execution_error code))))

unfoldable pub load_prepared_state : LegAnswers → Operation → PreparedState
load_prepared_state a o = elim (load_local_state o) [
  | none ↦ local_state
  | some code ↦ stopped (stale_state a code o)
]

-- `now` is past the expiry, and an attempt is still `PREPARED`.
abbrev pub expires_now : ℕ → Operation → Bool
expires_now now o =
    leb o.expires_at now && (is_prepared o.first.status || is_prepared o.second.status)

abbrev pub expire : CommitAnswers → Operation → Operation
expire a o = if expires_now a.now o then expire_prepared_attempts o else o

-- A status that leaves something to do.
abbrev pub is_open : Leg → Bool
is_open l = is_prepared l.status || is_sending l.status

-- After a leg: `immediate` ends the call, and so does a leg without success.
abbrev pub after_leg :
    LegIndex → (Operation → Operation × LegReply) → Operation × LegReply → Operation × LegReply
after_leg i rest (o, go_on) = if is_success (leg_of i o).status then rest o else reply_with o
after_leg i rest (o, reply p) = (o, reply p)
after_leg i rest (o, throws f) = (o, throws f)

module _ (verify : PreparedWrite → LineWriteSnapshot → Option LineWriteSnapshot)
    (quiescence : Option ℕ) where
  -- A prepared leg whose company runs dry is finished dry, unless that was switched off meanwhile.
  abbrev pub after_leg_dry_run :
      LegIndex → LegAnswers → Operation × DryRunResult → Operation × LegReply
  after_leg_dry_run i a (o, dry_run_refused code) = (o, throws (execution_error code))
  after_leg_dry_run i a (o, not_enabled) = execute_prepared_leg verify i a.execute o
  after_leg_dry_run i a (o, finalized) = (o, go_on)
  after_leg_dry_run i a (o, expired) = (o, go_on)

  abbrev pub run_prepared : LegIndex → LegAnswers → Operation → Operation × LegReply
  run_prepared i a o =
      if not a.dry
      then execute_prepared_leg verify i a.execute o
      else (if not a.dry_fenced
          then (o, throws lease_error)
          else after_leg_dry_run i a (finalize_dry_run (i ∷ []) none a.dry_at a.dry_enabled o))

  -- One turn of the loop over the legs; `rest` is what follows it.
  unfoldable pub commit_leg :
      LegIndex → LegAnswers → (Operation → Operation × LegReply) → Operation → Operation × LegReply
  commit_leg i a rest o =
      let status = (leg_of i o).status in
      if is_success status
      then rest o
      else (if is_sending status
          then after_leg i rest (reconcile_leg verify quiescence i a.reconcile o)
          else (if not (is_prepared status) then reply_with o else elim (load_prepared_state a o) [
            | stopped r ↦ r
            | local_state ↦ after_leg i rest (run_prepared i a o)
          ]))

  unfoldable pub commit_legs : CommitAnswers → Operation → Operation × LegReply
  commit_legs a o = commit_leg first_leg a.first (commit_leg second_leg a.second reply_with) o

  abbrev pub after_both_dry_run : CommitAnswers → Operation × DryRunResult → Operation × LegReply
  after_both_dry_run a (o, dry_run_refused code) = (o, throws (execution_error code))
  after_both_dry_run a (o, not_enabled) = commit_legs a o
  after_both_dry_run a (o, finalized) = reply_with o
  after_both_dry_run a (o, expired) = reply_with o

  -- Both attempts are `PREPARED`: a dry run ends here.
  abbrev pub commit_both : CommitAnswers → Operation → Operation × LegReply
  commit_both a o = elim (load_prepared_state a.both o) [
    | stopped r ↦ r
    | local_state ↦
        if not a.both.dry
        then commit_legs a o
        else (if not a.both.dry_fenced
            then (o, throws lease_error)
            else after_both_dry_run a (
                finalize_dry_run (first_leg ∷ second_leg ∷ []) none a.both.dry_at a.both.dry_enabled
                  o))
  ]

  abbrev pub commit_open : CommitAnswers → Operation → Operation × LegReply
  commit_open a o =
      if not (is_open o.first || is_open o.second)
      then reply_with o
      else (if is_prepared o.first.status && is_prepared o.second.status
          then commit_both a o
          else commit_legs a o)

  unfoldable pub commit_transfer : CommitAnswers → Operation → Operation × LegReply
  commit_transfer a o =
      if not a.leased || (expires_now a.now o && not a.expire_fenced)
      then (o, throws lease_error)
      else commit_open a (expire a o)
