-- ===== src/Writeback/Commit.antt =====
-- services/writeback.ts: `commitStagedCategorization`, its guarded live form, and
-- `reconcileMutationAttempt`, from their leases on. What is answered outside the table is an argument.
use recat_qbo.Prelude.Shared.{
  ℕ, suc, Bool, true, false, not, ◌&&◌, [], ◌∷◌, ◌++◌, Option, none, some, String, leb, str_eq,
  if◌then◌else◌, is_none,
}
use recat_qbo.Writeback.{
  AttemptStatus, prepared, committing, verified, uncertain, retryable, failed, unchanged, dry_run,
  txn_dry_run, MutationOperation, recategorize, PreparedSnapshot, DurableAttempt, Entity,
  is_prepared, is_retryable, find_attempt, other_active, change, RequestIntent, Reply, result,
  throws, ends_as, stays_as, found, no_attempt, refused, find_request_or_conflict,
}
use recat_qbo.Writeback.Settle.{
  after_retryable, finalize_unchanged, finalize_verified, mark_uncertain, recorded, status_passes,
}

pub data Transition : Type 0 where
  went_through limit_reached authority_denied not_stored : Transition

-- The answers in the course of a commit. An error is a code; `live` is the count of attempts of the
-- autopilot's job, if it is the caller.
pub record CommitAnswers : Type 0 where
  pub leased : Bool
  pub live : Option ℕ
  pub retry_authorized : Bool
  pub load_error : Option String
  pub dry_run_mode : Bool
  pub client_error : Option String
  pub prepared_write : Option (PreparedSnapshot × (String × String))
  pub prepare_error : String
  pub proof_error : Option String
  pub transition : Transition
  pub marked : Bool
  pub response : Option PreparedSnapshot
  pub finalized : Bool
  pub doubt_stored : Bool

abbrev pub is_exhausted : Option ℕ → Bool
is_exhausted none = false
is_exhausted (some n) = leb 3 n

abbrev pub commit_attempt : DurableAttempt → DurableAttempt
commit_attempt a = if is_prepared a.status then record a { status = committing } else a

abbrev pub send_attempt : DurableAttempt → DurableAttempt
send_attempt a = record a { sends = suc a.sends }

-- `FAILED`, for the daily limit.
abbrev pub fail_attempt : DurableAttempt → DurableAttempt
fail_attempt a =
    if is_prepared a.status
    then record a { status = failed; error_code = some "LIVE_DAILY_LIMIT_REACHED" }
    else a

-- The autopilot's retry of a `RETRYABLE` request: it fails for good, or is armed again, which the
-- index on active rows refuses beside another active one.
abbrev pub exhaust_attempt : DurableAttempt → DurableAttempt
exhaust_attempt a =
    if is_retryable a.status
    then record a { status = failed; error_code = some "LIVE_MUTATION_RETRY_EXHAUSTED" }
    else a

abbrev pub rearm_attempt : DurableAttempt → DurableAttempt
rearm_attempt a =
    if is_retryable a.status then record a { status = prepared; error_code = none } else a

abbrev pub new_attempt :
    String → RequestIntent → AttemptStatus → PreparedSnapshot × (String × String) → DurableAttempt
new_attempt id i s (before, (body, hash)) = record {
  request_id = id;
  operation = recategorize;
  expected_revision = i.expected_revision;
  request_hash = hash;
  body = body;
  before = before;
  status = s;
  error_code = none;
  sends = 0;
}

-- `recordDryRun`
abbrev pub record_dry_run : String → RequestIntent → Entity → Entity × Reply
record_dry_run id i e = (
  record e {
    attempts =
        e.attempts
        ++ new_attempt id i dry_run
            (record { sync_token = e.qbo_sync_token; content = "" }, ("", "dry-run"))
          ∷ [];
    status = txn_dry_run;
  },
  result (record { ok = true; status = txn_dry_run; outcome = dry_run; error = none }),
)

-- The answers in the course of a reconciliation.
pub record ReconcileAnswers : Type 0 where
  pub held : Bool
  pub authorize_error : Option String
  pub actual : Option (Option PreparedSnapshot)
  pub fetch_error : String
  pub stored : Bool
  pub store_error : String

abbrev pub same_snapshot : PreparedSnapshot → PreparedSnapshot → Bool
same_snapshot s t = str_eq s.sync_token t.sync_token && str_eq s.content t.content

module _ (verify : String → PreparedSnapshot → Bool) where
  -- `sendAndVerifyPrepared`: the write leaves, and a readback has to prove it.
  abbrev pub send_and_verify :
      String → String → MutationOperation → CommitAnswers → Entity → Entity × Reply
  send_and_verify id body operation a e =
      let sent = change id send_attempt e in
      elim a.response [
        | none ↦ mark_uncertain id false a.doubt_stored sent
        | some response ↦
            if verify body response && a.finalized
            then finalize_verified id (ends_as operation) response sent
            else mark_uncertain id false a.doubt_stored sent
      ]

  -- `enterCommitting`, then the send if it won.
  abbrev pub enter_and_send : String → String → CommitAnswers → Entity → Entity × Reply
  enter_and_send id body a e =
      let exhausted = is_exhausted a.live in
      elim a.proof_error [
        | some code ↦ after_retryable id a.marked exhausted code e
        | none ↦ elim a.transition [
          | limit_reached ↦
              (if is_none a.live
                then after_retryable id a.marked exhausted "PREWRITE_PERSISTENCE_FAILED" e
                else (change id fail_attempt e, throws "LIVE_DAILY_LIMIT_REACHED"))
          | authority_denied ↦
              (if is_none a.live
                then after_retryable id a.marked exhausted "PREWRITE_PERSISTENCE_FAILED" e
                else after_retryable id a.marked exhausted "LIVE_AUTHORITY_DENIED" e)
          | not_stored ↦ after_retryable id a.marked exhausted "PREWRITE_PERSISTENCE_FAILED" e
          | went_through ↦
              if status_passes is_prepared (find_attempt id e.attempts)
              then send_and_verify id body recategorize a (change id commit_attempt e)
              else (e, recorded id e)
        ]
      ]

  -- A recorded `PREPARED` request: it is held while dry-run mode is on, and resumed otherwise.
  abbrev pub resume : String → DurableAttempt → CommitAnswers → Entity → Entity × Reply
  resume id found_one a e =
      let exhausted = is_exhausted a.live in
      elim a.load_error [
        | some code ↦ after_retryable id a.marked exhausted code e
        | none ↦
            if a.dry_run_mode
            then (if is_none a.live
                then (e, throws "DRY_RUN_PREPARED_WRITE")
                else after_retryable id a.marked exhausted "DRY_RUN_PREPARED_WRITE" e)
            else elim a.client_error [
              | some code ↦ after_retryable id a.marked exhausted code e
              | none ↦ enter_and_send id found_one.body a e
            ]
      ]

  abbrev pub retry : String → DurableAttempt → CommitAnswers → Entity → Entity × Reply
  retry id found_one a e =
      if is_exhausted a.live
      then (change id exhaust_attempt e, throws "LIVE_MUTATION_RETRY_EXHAUSTED")
      else (if not a.retry_authorized
          then (e, throws "LIVE_AUTHORITY_DENIED")
          else (if other_active id e.attempts
              then (e, throws "P2002")
              else resume id found_one a (change id rearm_attempt e)))

  abbrev pub commit_recorded : String → DurableAttempt → CommitAnswers → Entity → Entity × Reply
  commit_recorded id found_one a e =
      if is_retryable found_one.status && not (is_none a.live)
      then retry id found_one a e
      else (if not (is_prepared found_one.status)
          then elim a.load_error [ some code ↦ (e, throws code) | none ↦ (e, recorded id e) ]
          else resume id found_one a e)

  -- A request that is new: it is recorded as prepared before anything is sent.
  abbrev pub commit_new : String → RequestIntent → CommitAnswers → Entity → Entity × Reply
  commit_new id i a e = elim a.load_error [
    | some code ↦ (e, throws code)
    | none ↦ if a.dry_run_mode then record_dry_run id i e else elim a.prepared_write [
      | none ↦ (e, throws a.prepare_error)
      | some p ↦
          enter_and_send id p.1.0 a
            (record e { attempts = e.attempts ++ new_attempt id i prepared p ∷ [] })
    ]
  ]

  unfoldable pub commit : String → RequestIntent → CommitAnswers → Entity → Entity × Reply
  commit id i a e =
      if not a.leased then (e, throws "ENTITY_BUSY") else elim (find_request_or_conflict id i e) [
        | refused code ↦ (e, throws code)
        | found found_one ↦ commit_recorded id found_one a e
        | no_attempt ↦ commit_new id i a e
      ]

  abbrev pub reconcile_actual :
      String → DurableAttempt → ReconcileAnswers → Option PreparedSnapshot → Entity → Entity × Reply
  reconcile_actual id found_one a none e = mark_uncertain id true a.stored e
  reconcile_actual id found_one a (some actual) e =
      if verify found_one.body actual
      then (if a.stored
          then finalize_verified id (ends_as found_one.operation) actual e
          else (e, throws a.store_error))
      else (if same_snapshot actual found_one.before
          then (if a.stored
              then finalize_unchanged id (stays_as found_one.operation) e
              else (e, throws a.store_error))
          else mark_uncertain id true a.stored e)

  abbrev pub reconcile_found : String → DurableAttempt → ReconcileAnswers → Entity → Entity × Reply
  reconcile_found id found_one a e = elim a.authorize_error [
    | some code ↦ (e, throws code)
    | none ↦ elim found_one.status [
      | dry_run ↦ (e, recorded id e)
      | verified ↦ (e, recorded id e)
      | unchanged ↦ (e, recorded id e)
      | prepared ↦ (e, throws "RECONCILE_NOT_ALLOWED")
      | retryable ↦ (e, throws "RECONCILE_NOT_ALLOWED")
      | failed ↦ (e, throws "RECONCILE_NOT_ALLOWED")
      | committing ↦ elim a.actual [
        | none ↦ (e, throws a.fetch_error)
        | some actual ↦ reconcile_actual id found_one a actual e
      ]
      | uncertain ↦ elim a.actual [
        | none ↦ (e, throws a.fetch_error)
        | some actual ↦ reconcile_actual id found_one a actual e
      ]
    ]
  ]

  unfoldable pub reconcile : String → ReconcileAnswers → Entity → Entity × Reply
  reconcile id a e =
      if not a.held then (e, throws "ENTITY_BUSY") else elim (find_attempt id e.attempts) [
        | none ↦ (e, throws "ATTEMPT_NOT_FOUND")
        | some found_one ↦ reconcile_found id found_one a e
      ]
