-- ===== src/Transfer/Execution.antt =====
-- services/transferExecution.ts: the durable state of a transfer operation, its projection, and the
-- checks of the local transactions. A leg holds the columns of its attempt and of its transaction.
use recat_qbo.Prelude.Shared.{
  ℕ, ◌-◌, Bool, true, false, not, ◌&&◌, ◌||◌, List, [], ◌∷◌, Option, none, some, String, leb, ◌==◌,
  str_eq, if◌then◌else◌, any, all, keep, length,
}
use recat_qbo.Prelude.Texts.{is_blank}
pub mod Transitions
pub mod Projected
pub mod Steps
pub mod Invariant
pub mod Refines
pub mod Unsent
pub mod Guards
pub mod Sends
pub mod Stopped
pub mod Committed
pub mod Calls
pub mod Healthy
mod Tests
pub mod Reconcile
pub mod Legs
pub mod Commit

pub data TransferAttemptStatus : Type 0 where
  prepared committing verified uncertain retryable unchanged dry_run : TransferAttemptStatus

pub data TransferOperationState : Type 0 where
  state_prepared state_in_progress state_partial state_verified state_dry_run state_retryable
        state_uncertain :
      TransferOperationState

pub data DurableMutationOutcome : Type 0 where
  outcome_verified outcome_uncertain outcome_in_progress outcome_unchanged outcome_dry_run
        outcome_retryable :
      DurableMutationOutcome

pub data TransferExecutionErrorCode : Type 0 where
  invalid_input operation_not_found forbidden operation_conflict operation_expired stale_revision
        stale_qbo_binding qbo_state_drift :
      TransferExecutionErrorCode

-- A snapshot of a QuickBooks entity: its sync token, and the canonical JSON of the rest of it.
pub record LineWriteSnapshot : Type 0 where
  pub sync_token : String
  pub content : String

-- `sameJson` of two snapshots.
abbrev pub same_json : LineWriteSnapshot → LineWriteSnapshot → Bool
same_json a b = str_eq a.sync_token b.sync_token && str_eq a.content b.content

-- `QboPreparedLineWrite`: the entity as it stood, and the canonical JSON of what is to be written.
pub record PreparedWrite : Type 0 where
  pub before : LineWriteSnapshot
  pub body : String

pub data LocalStatus : Type 0 where
  local_pending local_posted local_error local_dry_run : LocalStatus

pub record LocalTransaction : Type 0 where
  pub id : String
  pub company_id : String
  pub revision : ℕ
  pub qbo_type : String
  pub qbo_id : String
  pub qbo_sync_token : String
  pub status : LocalStatus
  pub error_code : Option String
  pub disconnected : Bool

-- A leg: the columns of the operation that name its transaction, its attempt, and the transaction.
-- `sends` counts the writes that left for QuickBooks.
pub record Leg : Type 0 where
  pub expected_transaction_id : String
  pub expected_revision : ℕ
  pub expected_qbo_type : String
  pub expected_qbo_id : String
  pub expected_sync_token : String
  pub prepared_write : PreparedWrite
  pub status : TransferAttemptStatus
  pub response_snapshot : Option LineWriteSnapshot
  pub new_sync_token : Option String
  pub error_code : Option String
  pub updated_at : ℕ
  pub transaction : LocalTransaction
  pub sends : ℕ

pub record Operation : Type 0 where
  pub company_id : String
  pub expires_at : ℕ
  pub is_retry : Bool
  pub first : Leg
  pub second : Leg

pub data LegIndex : Type 0 where
  first_leg second_leg : LegIndex

abbrev pub leg_of : LegIndex → Operation → Leg
leg_of first_leg o = o.first
leg_of second_leg o = o.second

abbrev pub put_leg : LegIndex → Leg → Operation → Operation
put_leg first_leg l o = record o { first = l }
put_leg second_leg l o = record o { second = l }

abbrev pub other_leg : LegIndex → LegIndex
other_leg first_leg = second_leg
other_leg second_leg = first_leg

-- The tests `status === …`.
abbrev pub is_prepared : TransferAttemptStatus → Bool
is_prepared prepared = true
is_prepared _ = false

abbrev pub is_committing : TransferAttemptStatus → Bool
is_committing committing = true
is_committing _ = false

abbrev pub is_verified : TransferAttemptStatus → Bool
is_verified verified = true
is_verified _ = false

abbrev pub is_uncertain : TransferAttemptStatus → Bool
is_uncertain uncertain = true
is_uncertain _ = false

abbrev pub is_dry_run : TransferAttemptStatus → Bool
is_dry_run dry_run = true
is_dry_run _ = false

-- `status === 'COMMITTING' || status === 'UNCERTAIN'`
abbrev pub is_sending : TransferAttemptStatus → Bool
is_sending s = is_committing s || is_uncertain s

-- `status === 'VERIFIED' || status === 'DRY_RUN'`
abbrev pub is_success : TransferAttemptStatus → Bool
is_success s = is_verified s || is_dry_run s

-- `status === 'RETRYABLE' || status === 'UNCHANGED'`
abbrev pub retryable_parent_status : TransferAttemptStatus → Bool
retryable_parent_status retryable = true
retryable_parent_status unchanged = true
retryable_parent_status _ = false

abbrev pub outcome_for_status : TransferAttemptStatus → DurableMutationOutcome
outcome_for_status prepared = outcome_in_progress
outcome_for_status committing = outcome_in_progress
outcome_for_status verified = outcome_verified
outcome_for_status uncertain = outcome_uncertain
outcome_for_status retryable = outcome_retryable
outcome_for_status unchanged = outcome_unchanged
outcome_for_status dry_run = outcome_dry_run

unfoldable pub projected_state : List TransferAttemptStatus → TransferOperationState
projected_state statuses =
    let successes = length (keep is_success statuses) in
    if any is_uncertain statuses
    then state_uncertain
    else (if all is_verified statuses
        then state_verified
        else (if all is_dry_run statuses
            then state_dry_run
            else (if leb 1 successes
                then state_partial
                else (if any is_committing statuses
                    then state_in_progress
                    else (if any retryable_parent_status statuses
                        then state_retryable
                        else state_prepared)))))

pub record TransferStateProjection : Type 0 where
  pub state : TransferOperationState
  pub complete : Bool
  pub first_outcome : DurableMutationOutcome
  pub second_outcome : DurableMutationOutcome
  pub error : Option String

abbrev pub projected_complete : TransferOperationState → Bool
projected_complete state_verified = true
projected_complete state_dry_run = true
projected_complete _ = false

-- The code of the error; its guidance is a constant of the code.
abbrev pub projected_error : TransferOperationState → Option String
projected_error state_uncertain = some "QBO_WRITE_UNCERTAIN"
projected_error state_partial = some "TRANSFER_PARTIAL"
projected_error state_retryable = some "TRANSFER_RETRYABLE"
projected_error state_in_progress = some "MUTATION_IN_PROGRESS"
projected_error _ = none

abbrev pub project_transfer_state :
    TransferAttemptStatus → TransferAttemptStatus → TransferStateProjection
project_transfer_state s t =
    let state = projected_state (s ∷ t ∷ []) in
    record {
      state = state;
      complete = projected_complete state;
      first_outcome = outcome_for_status s;
      second_outcome = outcome_for_status t;
      error = projected_error state;
    }

-- `operationDto`, less the id of the operation.
abbrev pub operation_dto : Operation → TransferStateProjection
operation_dto o = project_transfer_state o.first.status o.second.status

-- `null` where the code throws `OPERATION_CONFLICT`.
abbrev pub expected_local_sync_token : Leg → Option String
expected_local_sync_token l =
    if not (is_verified l.status)
    then some l.expected_sync_token
    else elim l.new_sync_token [ none ↦ none | some t ↦ if is_blank t then none else some t ]

abbrev pub allows_local : TransferAttemptStatus → LocalStatus → Bool
allows_local verified local_posted = true
allows_local verified _ = false
allows_local dry_run local_dry_run = true
allows_local dry_run _ = false
allows_local uncertain local_pending = true
allows_local uncertain local_error = true
allows_local uncertain _ = false
allows_local _ local_pending = true
allows_local _ _ = false

unfoldable pub validate_local_transaction : String → Leg → Option TransferExecutionErrorCode
validate_local_transaction company l =
    let t = l.transaction in
    if not (str_eq t.id l.expected_transaction_id)
      || (not (str_eq t.company_id company) || not (t.revision == l.expected_revision))
    then some stale_revision
    else (if not (str_eq t.qbo_type l.expected_qbo_type) || not (str_eq t.qbo_id l.expected_qbo_id)
        then some stale_qbo_binding
        else elim (expected_local_sync_token l) [
          | none ↦ some operation_conflict
          | some token ↦
              if not (str_eq t.qbo_sync_token token)
              then some stale_qbo_binding
              else (if t.disconnected || not (allows_local l.status t.status)
                  then some stale_qbo_binding
                  else none)
        ])

-- The error of `loadLocalState`, if any.
abbrev pub load_local_state : Operation → Option TransferExecutionErrorCode
load_local_state o = elim (validate_local_transaction o.company_id o.first) [
  | some code ↦ some code
  | none ↦ validate_local_transaction o.company_id o.second
]

abbrev pub validate_recovery_transaction : String → Leg → Option TransferExecutionErrorCode
validate_recovery_transaction company l =
    let t = l.transaction in
    if not (str_eq t.id l.expected_transaction_id)
      || (not (str_eq t.company_id company)
          || (not (str_eq t.qbo_type l.expected_qbo_type)
              || not (str_eq t.qbo_id l.expected_qbo_id)))
    then some operation_conflict
    else none

-- The error of `loadRecoveryState`, if any.
abbrev pub load_recovery_state : Operation → Option TransferExecutionErrorCode
load_recovery_state o = elim (validate_recovery_transaction o.company_id o.first) [
  | some code ↦ some code
  | none ↦ validate_recovery_transaction o.company_id o.second
]

-- The age, under `DEFAULT_COMMITTING_QUIESCENCE_MS`, that an unchanged readback must have.
abbrev pub default_committing_quiescence_ms : ℕ
default_committing_quiescence_ms = 60000

-- `committingQuiescence`: the configured time, an integer, within zero and ten minutes.
abbrev pub committing_quiescence : Option ℕ → ℕ
committing_quiescence none = default_committing_quiescence_ms
committing_quiescence (some configured) = if leb configured 600000 then configured else 600000

-- `isQuiescent`, with the difference of the two times moved over.
abbrev pub is_quiescent : Option ℕ → ℕ → Leg → Bool
is_quiescent configured now l = leb (committing_quiescence configured) (now - l.updated_at)
