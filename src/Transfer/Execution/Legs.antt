-- ===== src/Transfer/Execution/Legs.antt =====
-- services/transferExecution.ts: `executePreparedLeg`. What each call outside the
-- database answered is an argument: a client, a read, a guard of the heartbeat with the time it wrote.
use recat_qbo.Prelude.Shared.{
  ℕ, suc, Bool, true, false, not, ◌&&◌, List, [], ◌∷◌, ◌++◌, Option, none, some, if◌then◌else◌, leb,
}
use recat_qbo.Transfer.Execution.{
  TransferExecutionErrorCode, operation_conflict, operation_expired, qbo_state_drift,
  stale_revision, stale_qbo_binding, LineWriteSnapshot, PreparedWrite, same_json, Leg, Operation,
  LegIndex, first_leg, second_leg, leg_of, put_leg, other_leg, is_prepared, is_committing,
  is_verified, load_local_state,
}
use recat_qbo.Transfer.Execution.Transitions.{
  mark_prepared_retryable, mark_claimed_and_prepared_retryable, Entered, refused, not_won, won,
  enter_committing, finalize_verified, persist_accepted_response, touch, finalize_dry_run,
  DryRunResult, finalized, not_enabled, expired, dry_run_refused, is_claimed,
}
use recat_qbo.Transfer.Execution.Reconcile.{
  LegReply, Reading, absent, execution_error, go_on, in_doubt, lease_error, read, reply_with,
  throws, unread,
}

-- The answers in the course of `executePreparedLeg`.
pub record ExecuteAnswers : Type 0 where
  pub client : Bool
  pub renewed : Bool
  pub exact_before : Reading
  pub mark_fenced : Bool
  pub enter_fenced : Bool
  pub entered_at : ℕ
  pub refreshed : Option ℕ
  pub guard_before : Option ℕ
  pub current : Reading
  pub inherited : Reading
  pub strict_fenced : Bool
  pub strict_at : ℕ
  pub strict_dry : Bool
  pub response : Option LineWriteSnapshot
  pub persist_fenced : Bool
  pub persisted_at : ℕ
  pub guard_response : Option ℕ
  pub readback : Reading
  pub guard_readback : Option ℕ
  pub finalize_fenced : Bool
  pub retained : Bool
  pub dry_fenced : Bool
  pub dry_at : ℕ
  pub dry_enabled : Bool
  pub release_fenced : Bool
  pub uncertain_fenced : Bool
  pub uncertain_at : ℕ

-- What the guard of the send ended with: it let the write through, or it threw. Every error of a
-- refresh loses the heartbeat.
pub data SendGuard : Type 0 where
  guard_passed : Operation → SendGuard
  guard_dry_run : Operation → SendGuard
  guard_error : TransferExecutionErrorCode → Operation → SendGuard
  guard_lost : Operation → SendGuard
  guard_failed : Operation → SendGuard

-- `refreshCommittingAuthority` with the strict local state.
unfoldable pub refresh_strict : LegIndex → ExecuteAnswers → Operation → SendGuard
refresh_strict i a o = if not a.strict_fenced then guard_lost o else elim (load_local_state o) [
  | some code ↦ guard_error code o
  | none ↦
      if not (is_committing (leg_of i o).status)
      then guard_error operation_conflict o
      else (if leb o.expires_at a.strict_at
          then guard_error operation_expired o
          else (if a.strict_dry then guard_dry_run o else guard_passed (touch i a.strict_at o)))
]

abbrev pub is_drifted : Reading → LineWriteSnapshot → Bool
is_drifted unread expected = true
is_drifted absent expected = true
is_drifted (read current) expected = not (same_json current expected)

-- A reading that threw is an error of the client, one that differs is a drift.
abbrev pub on_reading : Reading → LineWriteSnapshot → Operation → SendGuard → SendGuard
on_reading unread expected o rest = guard_failed o
on_reading absent expected o rest = guard_error qbo_state_drift o
on_reading (read current) expected o rest =
    if same_json current expected then rest else guard_error qbo_state_drift o

module _ (verify : PreparedWrite → LineWriteSnapshot → Option LineWriteSnapshot) where
  -- `reproveInheritedVerifiedLegs`, then the strict refresh.
  abbrev pub reprove_inherited : LegIndex → ExecuteAnswers → Operation → SendGuard
  reprove_inherited i a o =
      let other = leg_of (other_leg i) o in
      if not (o.is_retry && is_verified other.status)
      then refresh_strict i a o
      else elim other.response_snapshot [
        | none ↦ guard_failed o
        | some stored ↦ elim (verify other.prepared_write stored) [
          | none ↦ guard_failed o
          | some expected ↦ on_reading a.inherited expected o (refresh_strict i a o)
        ]
      ]

  -- The callback that `sendPreparedLineWrite` runs before it sends.
  unfoldable pub send_guard : LegIndex → ExecuteAnswers → Operation → SendGuard
  send_guard i a o = elim a.guard_before [
    | none ↦ guard_lost o
    | some now ↦
        let held = touch i now o in
        on_reading a.current (leg_of i o).prepared_write.before held (reprove_inherited i a held)
  ]

-- The write has left: `sends` goes up.
abbrev pub sent_leg : Leg → Leg
sent_leg l = record l { sends = suc l.sends }

abbrev pub send : LegIndex → Operation → Operation
send i o = put_leg i (sent_leg (leg_of i o)) o

-- `dryRunIndices`
abbrev pub dry_run_indices : LegIndex → Operation → List LegIndex
dry_run_indices i o =
    (if is_prepared o.first.status
      then first_leg ∷ []
      else (if is_claimed first_leg i then first_leg ∷ [] else []))
    ++ (if is_prepared o.second.status
        then second_leg ∷ []
        else (if is_claimed second_leg i then second_leg ∷ [] else []))

-- `markClaimedAndPreparedRetryable`, then the projection.
abbrev pub release_claim :
    LegIndex → ExecuteAnswers → TransferExecutionErrorCode → Operation → Operation × LegReply
release_claim i a code o =
    if not a.release_fenced
    then (o, throws lease_error)
    else reply_with (mark_claimed_and_prepared_retryable i code o)

-- What follows `finalizeDryRun` when the guard asked for it.
abbrev pub after_dry_run :
    LegIndex → ExecuteAnswers → Operation × DryRunResult → Operation × LegReply
after_dry_run i a (o, dry_run_refused code) = (o, throws (execution_error code))
after_dry_run i a (o, not_enabled) = release_claim i a qbo_state_drift o
after_dry_run i a (o, finalized) = reply_with o
after_dry_run i a (o, expired) = reply_with o

abbrev pub is_giving_up : TransferExecutionErrorCode → Bool
is_giving_up operation_expired = true
is_giving_up stale_revision = true
is_giving_up stale_qbo_binding = true
is_giving_up qbo_state_drift = true
is_giving_up _ = false

module _ (verify : PreparedWrite → LineWriteSnapshot → Option LineWriteSnapshot) where
  -- After the answer of QuickBooks: the response is kept, then a readback has to prove the write.
  abbrev pub read_back :
      LegIndex → ExecuteAnswers → LineWriteSnapshot → Operation → Operation × LegReply
  read_back i a accepted o =
      let doubt = in_doubt i (some accepted) a.uncertain_fenced a.uncertain_at in
      elim a.guard_response [
        | none ↦ doubt o
        | some now ↦ elim a.readback [
          | unread ↦ doubt (touch i now o)
          | absent ↦ doubt (touch i now o)
          | read found ↦ elim a.guard_readback [
            | none ↦ doubt (touch i now o)
            | some later ↦
                let held = touch i later (touch i now o) in
                elim (verify (leg_of i o).prepared_write found) [
                  | none ↦ doubt held
                  | some proved ↦
                      if a.finalize_fenced
                      then (finalize_verified i proved held, go_on)
                      else doubt held
                ]
          ]
        ]
      ]

  abbrev pub after_send : LegIndex → ExecuteAnswers → Operation → Operation × LegReply
  after_send i a o = elim a.response [
    | none ↦ in_doubt i none a.uncertain_fenced a.uncertain_at o
    | some answer ↦ elim (verify (leg_of i o).prepared_write answer) [
      | none ↦ in_doubt i none a.uncertain_fenced a.uncertain_at o
      | some accepted ↦
          if a.persist_fenced
          then read_back i a accepted (persist_accepted_response i accepted a.persisted_at o)
          else in_doubt i (some accepted) a.uncertain_fenced a.uncertain_at o
    ]
  ]

  abbrev pub after_guard : LegIndex → ExecuteAnswers → SendGuard → Operation × LegReply
  after_guard i a (guard_passed o) = after_send i a (send i o)
  after_guard i a (guard_dry_run o) =
      if not a.dry_fenced
      then (o, throws lease_error)
      else after_dry_run i a
          (finalize_dry_run (dry_run_indices i o) (some i) a.dry_at a.dry_enabled o)
  after_guard i a (guard_error code o) =
      if is_giving_up code then release_claim i a code o else reply_with o
  after_guard i a (guard_lost o) = reply_with o
  after_guard i a (guard_failed o) =
      if not a.retained then reply_with o else release_claim i a qbo_state_drift o

  -- `markPreparedRetryable`, and what the leg's function does after it.
  abbrev pub give_up_unsent :
      LegIndex
      → ExecuteAnswers
      → TransferExecutionErrorCode
      → LegReply
      → Operation
      → Operation × LegReply
  give_up_unsent i a code next o =
      if not a.mark_fenced
      then (o, throws lease_error)
      else (mark_prepared_retryable i code o, next)

  abbrev pub after_refused :
      LegIndex → ExecuteAnswers → TransferExecutionErrorCode → Operation → Operation × LegReply
  after_refused i a qbo_state_drift o = give_up_unsent i a qbo_state_drift go_on o
  after_refused i a operation_expired o = give_up_unsent i a operation_expired go_on o
  after_refused i a stale_revision o =
      give_up_unsent i a stale_revision (throws (execution_error stale_revision)) o
  after_refused i a stale_qbo_binding o =
      give_up_unsent i a stale_qbo_binding (throws (execution_error stale_qbo_binding)) o
  after_refused i a code o = (o, throws (execution_error code))

  abbrev pub after_enter : LegIndex → ExecuteAnswers → Operation → Entered → Operation × LegReply
  after_enter i a o (refused code) = after_refused i a code o
  after_enter i a o not_won = elim (load_local_state o) [
    | some code ↦ after_refused i a code o
    | none ↦ reply_with o
  ]
  after_enter i a o (won claimed) = elim a.refreshed [
    | none ↦ reply_with claimed
    | some now ↦ after_guard i a (send_guard verify i a (touch i now claimed))
  ]

  unfoldable pub execute_prepared_leg : LegIndex → ExecuteAnswers → Operation → Operation × LegReply
  execute_prepared_leg i a o =
      if not a.client
      then give_up_unsent i a qbo_state_drift go_on o
      else (if not a.renewed then (o, throws lease_error) else elim a.exact_before [
        | unread ↦ give_up_unsent i a qbo_state_drift go_on o
        | absent ↦ give_up_unsent i a qbo_state_drift go_on o
        | read exact ↦
            if not (same_json exact (leg_of i o).prepared_write.before)
            then give_up_unsent i a qbo_state_drift go_on o
            else (if not a.enter_fenced
                then (o, throws lease_error)
                else after_enter i a o (enter_committing i exact a.entered_at o))
      ])
