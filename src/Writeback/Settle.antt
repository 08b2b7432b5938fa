-- ===== src/Writeback/Settle.antt =====
-- services/writeback.ts: the transactions that settle an attempt, and what they answer.
use recat_qbo.Prelude.Shared.{Bool, true, false, ◌&&◌, Option, none, some, String, if◌then◌else◌}
use recat_qbo.Writeback.{
  AttemptStatus, verified, uncertain, retryable, failed, unchanged, TxnStatus, txn_error,
  PreparedSnapshot, DurableAttempt, Entity, is_prepared, is_committing, is_sending, find_attempt,
  change, Reply, result, throws, uncertain_code, refusal, recorded_attempt_result,
}

abbrev pub recorded : String → Entity → Reply
recorded id e = elim (find_attempt id e.attempts) [
  | none ↦ throws "ATTEMPT_CORRUPT"
  | some a ↦ recorded_attempt_result a e.status
]

-- `markRetryable`: the row that is not sent is given up, for good when the retries have run out.
-- `stored` is whether its transaction went through.
abbrev pub give_up : Bool → String → DurableAttempt → DurableAttempt
give_up exhausted code a =
    if is_prepared a.status
    then record a {
      status = if exhausted then failed else retryable;
      error_code = some (if exhausted then "LIVE_MUTATION_RETRY_EXHAUSTED" else code);
    }
    else a

abbrev pub mark_retryable : String → Bool → Bool → String → Entity → Entity
mark_retryable id stored exhausted code e =
    if stored then change id (give_up exhausted code) e else e

abbrev pub is_failed : Option DurableAttempt → Bool
is_failed none = false
is_failed (some a) = elim a.status [ failed ↦ true | _ ↦ false ]

-- What follows `markRetryable`: an error, in place of which a row that failed for good reports so.
abbrev pub after_retryable : String → Bool → Bool → String → Entity → Entity × Reply
after_retryable id stored exhausted code e =
    let marked = mark_retryable id stored exhausted code e in
    (
      marked,
      throws (
          if is_failed (find_attempt id marked.attempts)
          then "LIVE_MUTATION_RETRY_EXHAUSTED"
          else code),
    )

-- Each finalisation starts from the statuses that its `where` names.
abbrev pub verify_attempt : DurableAttempt → DurableAttempt
verify_attempt a =
    if is_sending a.status then record a { status = verified; error_code = none } else a

abbrev pub keep_attempt : DurableAttempt → DurableAttempt
keep_attempt a =
    if is_sending a.status then record a { status = unchanged; error_code = none } else a

abbrev pub doubts : Bool → AttemptStatus → Bool
doubts mismatch s = if mismatch then is_sending s else is_committing s

abbrev pub doubt_attempt : Bool → DurableAttempt → DurableAttempt
doubt_attempt mismatch a =
    if doubts mismatch a.status
    then record a { status = uncertain; error_code = some (uncertain_code mismatch) }
    else a

abbrev pub status_passes : (AttemptStatus → Bool) → Option DurableAttempt → Bool
status_passes p none = false
status_passes p (some a) = p a.status

unfoldable pub finalize_verified : String → TxnStatus → PreparedSnapshot → Entity → Entity × Reply
finalize_verified id status response e =
    if status_passes is_sending (find_attempt id e.attempts)
    then (
      record (change id verify_attempt e) { status = status; qbo_sync_token = response.sync_token },
      result (record { ok = true; status = status; outcome = verified; error = none }),
    )
    else (e, recorded id e)

unfoldable pub finalize_unchanged : String → TxnStatus → Entity → Entity × Reply
finalize_unchanged id status e =
    if status_passes is_sending (find_attempt id e.attempts)
    then (
      record (change id keep_attempt e) { status = status },
      result (record { ok = true; status = status; outcome = unchanged; error = none }),
    )
    else (e, recorded id e)

-- What is answered when the row was not moved: what it holds, if that is final or in doubt.
abbrev pub doubt_reply : Bool → Option DurableAttempt → TxnStatus → Reply
doubt_reply mismatch none s = refusal txn_error uncertain (uncertain_code mismatch)
doubt_reply mismatch (some a) s = elim a.status [
  | verified ↦ recorded_attempt_result a s
  | unchanged ↦ recorded_attempt_result a s
  | uncertain ↦ recorded_attempt_result a s
  | _ ↦ refusal txn_error uncertain (uncertain_code mismatch)
]

-- `markUncertain`; `stored` is whether one of its two tries at the transaction went through.
unfoldable pub mark_uncertain : String → Bool → Bool → Entity → Entity × Reply
mark_uncertain id mismatch stored e =
    if stored && status_passes (doubts mismatch) (find_attempt id e.attempts)
    then (
      record (change id (doubt_attempt mismatch) e) { status = txn_error },
      refusal txn_error uncertain (uncertain_code mismatch),
    )
    else (e, doubt_reply mismatch (find_attempt id e.attempts) e.status)

-- How the transaction of `enterCommitting` ends.
