-- ===== src/Transfer/Execution/Reconcile.antt =====
-- services/transferExecution.ts: `reconcileLeg`, and what the end of a write that is in doubt answers.
-- What each call outside the database answered is an argument.
use recat_qbo.Prelude.Shared.{ℕ, Bool, false, not, Option, none, some, if◌then◌else◌}
use recat_qbo.Transfer.Execution.{
  TransferExecutionErrorCode, LineWriteSnapshot, PreparedWrite, same_json, Operation, LegIndex,
  leg_of, is_sending, TransferStateProjection, operation_dto, load_recovery_state, is_quiescent,
}
use recat_qbo.Transfer.Execution.Transitions.{
  finalize_verified, finalize_unchanged, mark_uncertain, touch,
}

pub data Failure : Type 0 where
  execution_error : TransferExecutionErrorCode → Failure
  lease_error : Failure

-- What a leg's function returns: `undefined`, or the projection that ends the call; or it throws.
pub data LegReply : Type 0 where
  go_on : LegReply
  reply : TransferStateProjection → LegReply
  throws : Failure → LegReply

-- The answer of `fetchLineWriteSnapshot`: it throws, it is null, or it is a snapshot.
pub data Reading : Type 0 where
  unread absent : Reading
  read : LineWriteSnapshot → Reading

abbrev pub reply_with : Operation → Operation × LegReply
reply_with o = (o, reply (operation_dto o))

-- `markUncertain`, with the projection of the operation that it reloads.
abbrev pub in_doubt :
    LegIndex → Option LineWriteSnapshot → Bool → ℕ → Operation → Operation × LegReply
in_doubt i accepted fenced now o = reply_with (mark_uncertain i accepted fenced now o)

-- The answers in the course of `reconcileLeg`. A guard that is `none` lost the lease; a fence is the
-- one of the transaction it is named for.
pub record ReconcileAnswers : Type 0 where
  pub renewed : Bool
  pub started_at : ℕ
  pub guard_before : Option ℕ
  pub actual : Reading
  pub guard_after : Option ℕ
  pub finalize_fenced : Bool
  pub retained : Bool
  pub uncertain_fenced : Bool
  pub uncertain_at : ℕ

-- The outer `catch`: an ownership that was lost reports what is stored, and so does a leg that is done.
abbrev pub recover : LegIndex → ReconcileAnswers → Bool → Operation → Operation × LegReply
recover i a retained o = if not retained then reply_with o else (elim (load_recovery_state o) [
  | some code ↦ (o, throws (execution_error code))
  | none ↦
      if not (is_sending (leg_of i o).status)
      then reply_with o
      else in_doubt i none a.uncertain_fenced a.uncertain_at o
])

-- The inner `catch`: the entity is not what was prepared.
abbrev pub reconcile_mismatch :
    LegIndex → ReconcileAnswers → Bool → LineWriteSnapshot → Operation → Operation × LegReply
reconcile_mismatch i a started_quiescent actual o =
    if same_json actual (leg_of i o).prepared_write.before
    then elim (leg_of i o).response_snapshot [
      | some _ ↦ in_doubt i none a.uncertain_fenced a.uncertain_at o
      | none ↦
          if not started_quiescent
          then reply_with o
          else (if a.finalize_fenced
              then (finalize_unchanged i actual o, go_on)
              else recover i a a.retained o)
    ]
    else in_doubt i none a.uncertain_fenced a.uncertain_at o

-- `verify` is `verifyLineWriteResult` for a prepared write, with `none` where it throws.
module _ (verify : PreparedWrite → LineWriteSnapshot → Option LineWriteSnapshot) where
  abbrev pub reconcile_actual :
      LegIndex → ReconcileAnswers → Bool → LineWriteSnapshot → Operation → Operation × LegReply
  reconcile_actual i a started_quiescent actual o =
      elim (verify (leg_of i o).prepared_write actual) [
        | none ↦ reconcile_mismatch i a started_quiescent actual o
        | some proved ↦
            if a.finalize_fenced
            then (finalize_verified i proved o, go_on)
            else reconcile_mismatch i a started_quiescent actual o
      ]

  abbrev pub reconcile_read : LegIndex → ReconcileAnswers → Bool → Operation → Operation × LegReply
  reconcile_read i a started_quiescent o = elim a.actual [
    | unread ↦ recover i a a.retained o
    | absent ↦ elim a.guard_after [
      | none ↦ recover i a false o
      | some now ↦ in_doubt i none a.uncertain_fenced a.uncertain_at (touch i now o)
    ]
    | read actual ↦ elim a.guard_after [
      | none ↦ recover i a false o
      | some now ↦ reconcile_actual i a started_quiescent actual (touch i now o)
    ]
  ]

  unfoldable pub reconcile_leg :
      Option ℕ → LegIndex → ReconcileAnswers → Operation → Operation × LegReply
  reconcile_leg quiescence i a o =
      if not a.renewed then (o, throws lease_error) else (elim (load_recovery_state o) [
        | some code ↦ (o, throws (execution_error code))
        | none ↦ if not (is_sending (leg_of i o).status) then (o, go_on) else elim a.guard_before [
          | none ↦ recover i a false o
          | some now ↦
              reconcile_read i a (is_quiescent quiescence a.started_at (leg_of i o)) (touch i now o)
        ]
      ])
