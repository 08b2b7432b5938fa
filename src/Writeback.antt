-- ===== src/Writeback.antt =====
-- server/src/services/writeback.ts: the durable write-back of one transaction: the table of its attempts,
-- with the two unique indexes of the schema, and what a recorded attempt answers.
use recat_qbo.Prelude.Shared.{
  ℕ, suc, Bool, true, false, not, ◌&&◌, ◌||◌, List, [], ◌∷◌, ◌++◌, Option, none, some, String, ◌==◌,
  str_eq, if◌then◌else◌, any,
}
pub mod Settle
pub mod Commit
pub mod Table
pub mod Rows
pub mod Finished
pub mod Kept
pub mod Reconciled
pub mod Blocked
mod Tests

pub data AttemptStatus : Type 0 where
  prepared committing verified uncertain retryable failed unchanged dry_run : AttemptStatus

pub data TxnStatus : Type 0 where
  txn_pending txn_posted txn_reverted txn_error txn_dry_run txn_superseded : TxnStatus

pub data MutationOperation : Type 0 where
  recategorize restore : MutationOperation

-- A snapshot of the QuickBooks entity: its sync token, and the canonical JSON of it.
pub record PreparedSnapshot : Type 0 where
  pub sync_token : String
  pub content : String

-- `DurableAttempt`. `sends` counts the writes that left for QuickBooks.
pub record DurableAttempt : Type 0 where
  pub request_id : String
  pub operation : MutationOperation
  pub expected_revision : ℕ
  pub request_hash : String
  pub body : String
  pub before : PreparedSnapshot
  pub status : AttemptStatus
  pub error_code : Option String
  pub sends : ℕ

-- A transaction with its attempts, the oldest first.
pub record Entity : Type 0 where
  pub attempts : List DurableAttempt
  pub status : TxnStatus
  pub qbo_sync_token : String
  pub revision : ℕ

-- `ACTIVE_ATTEMPT_STATUSES`
abbrev pub is_active : AttemptStatus → Bool
is_active prepared = true
is_active committing = true
is_active uncertain = true
is_active _ = false

-- The tests `status === …`.
abbrev pub is_prepared : AttemptStatus → Bool
is_prepared prepared = true
is_prepared _ = false

abbrev pub is_retryable : AttemptStatus → Bool
is_retryable retryable = true
is_retryable _ = false

abbrev pub is_committing : AttemptStatus → Bool
is_committing committing = true
is_committing _ = false

abbrev pub is_sending : AttemptStatus → Bool
is_sending committing = true
is_sending uncertain = true
is_sending _ = false

abbrev pub same_operation : MutationOperation → MutationOperation → Bool
same_operation recategorize recategorize = true
same_operation restore restore = true
same_operation _ _ = false

-- The row of a request: request ids are unique in the table.
abbrev pub find_attempt : String → List DurableAttempt → Option DurableAttempt
find_attempt id [] = none
find_attempt id (a ∷ rest) = if str_eq a.request_id id then some a else find_attempt id rest

abbrev pub update_attempt :
    String → (DurableAttempt → DurableAttempt) → List DurableAttempt → List DurableAttempt
update_attempt id f [] = []
update_attempt id f (a ∷ rest) =
    if str_eq a.request_id id then f a ∷ rest else a ∷ update_attempt id f rest

-- An active row of another request, which the index on active rows refuses a second one beside.
abbrev pub other_active : String → List DurableAttempt → Bool
other_active id [] = false
other_active id (a ∷ rest) =
    (not (str_eq a.request_id id) && is_active a.status) || other_active id rest

abbrev pub any_active : List DurableAttempt → Bool
any_active [] = false
any_active (a ∷ rest) = is_active a.status || any_active rest

abbrev pub change : String → (DurableAttempt → DurableAttempt) → Entity → Entity
change id f e = record e { attempts = update_attempt id f e.attempts }

-- `RequestIntent`
pub record RequestIntent : Type 0 where
  pub operation : MutationOperation
  pub expected_revision : ℕ
  pub request_hash : Option String

pub record DurableMutationResult : Type 0 where
  pub ok : Bool
  pub status : TxnStatus
  pub outcome : AttemptStatus
  pub error : Option String

pub data Reply : Type 0 where
  result : DurableMutationResult → Reply
  throws : String → Reply

abbrev pub is_mismatch : Option String → Bool
is_mismatch none = false
is_mismatch (some code) = str_eq code "QBO_READBACK_MISMATCH"

abbrev pub uncertain_code : Bool → String
uncertain_code mismatch = if mismatch then "QBO_READBACK_MISMATCH" else "QBO_WRITE_UNCERTAIN"

abbrev pub ends_as : MutationOperation → TxnStatus
ends_as restore = txn_reverted
ends_as recategorize = txn_posted

abbrev pub stays_as : MutationOperation → TxnStatus
stays_as restore = txn_posted
stays_as recategorize = txn_pending

abbrev pub refusal : TxnStatus → AttemptStatus → String → Reply
refusal s o code = result (record { ok = false; status = s; outcome = o; error = some code })

-- `recordedAttemptResult`; an outcome IN_PROGRESS is the status `committing` here.
abbrev pub recorded_attempt_result : DurableAttempt → TxnStatus → Reply
recorded_attempt_result a s = elim a.status [
  | verified ↦
      result (record { ok = true; status = ends_as a.operation; outcome = verified; error = none })
  | dry_run ↦ result (record { ok = true; status = txn_dry_run; outcome = dry_run; error = none })
  | unchanged ↦
      result
        (record { ok = true; status = stays_as a.operation; outcome = unchanged; error = none })
  | retryable ↦ refusal s retryable "RETRYABLE"
  | failed ↦ throws "LIVE_MUTATION_RETRY_EXHAUSTED"
  | uncertain ↦ refusal txn_error uncertain (uncertain_code (is_mismatch a.error_code))
  | prepared ↦ refusal s committing "MUTATION_IN_PROGRESS"
  | committing ↦ refusal s committing "MUTATION_IN_PROGRESS"
]

-- `assertRequestIdentity`, less the check of the row's own consistency.
abbrev pub same_request : RequestIntent → DurableAttempt → Bool
same_request i a =
    same_operation a.operation i.operation
    && (a.expected_revision == i.expected_revision
        && elim i.request_hash [ none ↦ true | some h ↦ str_eq a.request_hash h ])

pub data Found : Type 0 where
  found : DurableAttempt → Found
  no_attempt : Found
  refused : String → Found

unfoldable pub find_request_or_conflict : String → RequestIntent → Entity → Found
find_request_or_conflict id i e = elim (find_attempt id e.attempts) [
  | some a ↦ if same_request i a then found a else refused "REQUEST_ID_CONFLICT"
  | none ↦ if any_active e.attempts then refused "MUTATION_BLOCKED" else no_attempt
]
