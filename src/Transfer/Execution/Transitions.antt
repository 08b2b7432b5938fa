-- ===== src/Transfer/Execution/Transitions.antt =====
-- services/transferExecution.ts: the transactions on the database that move the attempts of an
-- operation, each after its fence. A write that names the status it starts from changes no other row.
use recat_qbo.Prelude.Shared.{
  ℕ, Bool, true, false, not, ◌&&◌, ◌||◌, List, [], ◌∷◌, Option, none, some, String, leb,
  if◌then◌else◌, any,
}
use recat_qbo.Transfer.Execution.{
  TransferExecutionErrorCode, operation_conflict, operation_expired, qbo_state_drift,
  LineWriteSnapshot, same_json, Leg, Operation, LegIndex, first_leg, second_leg, leg_of, put_leg,
  other_leg, committing, verified, uncertain, retryable, unchanged, dry_run, is_prepared,
  is_committing, is_sending, local_pending, local_posted, local_error, local_dry_run,
  load_local_state, invalid_input, operation_not_found, forbidden, stale_revision,
  stale_qbo_binding,
}

-- The code as the column holds it.
abbrev pub code_text : TransferExecutionErrorCode → String
code_text invalid_input = "INVALID_INPUT"
code_text operation_not_found = "OPERATION_NOT_FOUND"
code_text forbidden = "FORBIDDEN"
code_text operation_conflict = "OPERATION_CONFLICT"
code_text operation_expired = "OPERATION_EXPIRED"
code_text stale_revision = "STALE_REVISION"
code_text stale_qbo_binding = "STALE_QBO_BINDING"
code_text qbo_state_drift = "QBO_STATE_DRIFT"

-- A leg that was not sent, given up with a code.
abbrev pub give_up : String → Leg → Leg
give_up code l = record l { status = retryable; error_code = some code }

abbrev pub give_up_if : Bool → String → Leg → Leg
give_up_if b code l = if b then give_up code l else l

-- Every `PREPARED` attempt of the operation.
abbrev pub retry_prepared_attempts : String → Operation → Operation
retry_prepared_attempts code o = record o {
  first = give_up_if (is_prepared o.first.status) code o.first;
  second = give_up_if (is_prepared o.second.status) code o.second;
}

abbrev pub expire_prepared_attempts : Operation → Operation
expire_prepared_attempts o = retry_prepared_attempts "OPERATION_EXPIRED" o

abbrev pub mark_prepared_retryable : LegIndex → TransferExecutionErrorCode → Operation → Operation
mark_prepared_retryable i code o =
    if is_prepared (leg_of i o).status then retry_prepared_attempts (code_text code) o else o

abbrev pub is_claimed : LegIndex → LegIndex → Bool
is_claimed first_leg first_leg = true
is_claimed second_leg second_leg = true
is_claimed _ _ = false

-- `safelyUnsent`
abbrev pub safely_unsent : LegIndex → LegIndex → Leg → Bool
safely_unsent claimed i l = is_prepared l.status || (is_claimed i claimed && is_committing l.status)

abbrev pub mark_claimed_and_prepared_retryable :
    LegIndex → TransferExecutionErrorCode → Operation → Operation
mark_claimed_and_prepared_retryable claimed code o = record o {
  first = give_up_if (safely_unsent claimed first_leg o.first) (code_text code) o.first;
  second = give_up_if (safely_unsent claimed second_leg o.second) (code_text code) o.second;
}

abbrev pub claim : ℕ → Leg → Leg
claim now l = record l { status = committing; error_code = none; updated_at = now }

pub data Entered : Type 0 where
  refused : TransferExecutionErrorCode → Entered
  not_won : Entered
  won : Operation → Entered

unfoldable pub enter_committing : LegIndex → LineWriteSnapshot → ℕ → Operation → Entered
enter_committing i exact_before now o = elim (load_local_state o) [
  | some code ↦ refused code
  | none ↦
      let l = leg_of i o in
      if not (is_prepared l.status)
      then not_won
      else (if leb o.expires_at now
          then refused operation_expired
          else (if not (same_json exact_before l.prepared_write.before)
              then refused qbo_state_drift
              else won (put_leg i (claim now l) o)))
]

-- The bodies of the transactions for one leg: each starts from the statuses its `where` names.
abbrev pub verify_leg : LineWriteSnapshot → Leg → Leg
verify_leg response l =
    if is_sending l.status
    then record l {
      status = verified;
      response_snapshot = some response;
      new_sync_token = some response.sync_token;
      error_code = none;
      transaction = record l.transaction {
        status = local_posted;
        qbo_sync_token = response.sync_token;
        error_code = none;
      };
    }
    else l

abbrev pub finalize_verified : LegIndex → LineWriteSnapshot → Operation → Operation
finalize_verified i response o = put_leg i (verify_leg response (leg_of i o)) o

abbrev pub accept_leg : LineWriteSnapshot → ℕ → Leg → Leg
accept_leg response now l =
    if is_committing l.status
    then record l { response_snapshot = some response; updated_at = now }
    else l

abbrev pub persist_accepted_response : LegIndex → LineWriteSnapshot → ℕ → Operation → Operation
persist_accepted_response i response now o = put_leg i (accept_leg response now (leg_of i o)) o

abbrev pub keep_leg_unchanged : LineWriteSnapshot → Leg → Leg
keep_leg_unchanged response l = record l {
  status = unchanged;
  response_snapshot = some response;
  new_sync_token = none;
  error_code = none;
  transaction = record l.transaction { status = local_pending; error_code = none };
}

abbrev pub retry_other : Leg → Leg
retry_other l = give_up_if (is_prepared l.status) "TRANSFER_RETRYABLE" l

unfoldable pub finalize_unchanged : LegIndex → LineWriteSnapshot → Operation → Operation
finalize_unchanged i response o =
    let l = leg_of i o in
    if is_sending l.status
    then put_leg i (keep_leg_unchanged response l)
        (put_leg (other_leg i) (retry_other (leg_of (other_leg i) o)) o)
    else o

-- `...(acceptedResponse === undefined ? {} : { responseSnapshot: acceptedResponse })`
abbrev pub response_or :
    Option LineWriteSnapshot → Option LineWriteSnapshot → Option LineWriteSnapshot
response_or none kept = kept
response_or (some accepted) kept = some accepted

abbrev pub doubt_leg : Option LineWriteSnapshot → ℕ → Leg → Leg
doubt_leg accepted now l =
    if is_committing l.status
    then record l {
      status = uncertain;
      response_snapshot = response_or accepted l.response_snapshot;
      error_code = some "QBO_WRITE_UNCERTAIN";
      updated_at = now;
      transaction = record l.transaction {
        status = local_error;
        error_code = some "QBO_WRITE_UNCERTAIN";
      };
    }
    else l

-- The transaction of `markUncertain`; `fenced` is whether its fence held, since its failure is dropped.
abbrev pub mark_uncertain : LegIndex → Option LineWriteSnapshot → Bool → ℕ → Operation → Operation
mark_uncertain i accepted fenced now o =
    if fenced then put_leg i (doubt_leg accepted now (leg_of i o)) o else o

-- The write of `refreshCommittingAuthority` and `refreshRecoveryAuthority`.
abbrev pub touch_leg : ℕ → Leg → Leg
touch_leg now l = if is_sending l.status then record l { updated_at = now } else l

abbrev pub touch : LegIndex → ℕ → Operation → Operation
touch i now o = put_leg i (touch_leg now (leg_of i o)) o

abbrev pub finish_dry_run : Leg → Leg
finish_dry_run l = record l {
  status = dry_run;
  response_snapshot = none;
  new_sync_token = none;
  error_code = none;
  transaction = record l.transaction { status = local_dry_run; error_code = none };
}

abbrev pub each_leg : (Leg → Leg) → List LegIndex → Operation → Operation
each_leg f [] o = o
each_leg f (i ∷ is) o = each_leg f is (put_leg i (f (leg_of i o)) o)

-- `status !== 'PREPARED' && !(index === claimedIndex && status === 'COMMITTING')`
abbrev pub blocks_dry_run : Option LegIndex → Operation → LegIndex → Bool
blocks_dry_run none o i = not (is_prepared (leg_of i o).status)
blocks_dry_run (some claimed) o i = not (safely_unsent claimed i (leg_of i o))

pub data DryRunResult : Type 0 where
  finalized not_enabled expired : DryRunResult
  dry_run_refused : TransferExecutionErrorCode → DryRunResult

abbrev pub is_empty : List LegIndex → Bool
is_empty [] = true
is_empty _ = false

-- `dry` is `envDryRun`, or that a transaction's company runs dry.
unfoldable pub finalize_dry_run :
    List LegIndex → Option LegIndex → ℕ → Bool → Operation → Operation × DryRunResult
finalize_dry_run indices claimed now dry o = elim (load_local_state o) [
  | some code ↦ (o, dry_run_refused code)
  | none ↦
      if is_empty indices || any (blocks_dry_run claimed o) indices
      then (o, dry_run_refused operation_conflict)
      else (if leb o.expires_at now
          then (each_leg (give_up "OPERATION_EXPIRED") indices o, expired)
          else (if not dry
              then (o, not_enabled)
              else (each_leg finish_dry_run indices o, finalized)))
]
