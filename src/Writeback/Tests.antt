-- ===== src/Writeback/Tests.antt =====
-- services/writeback.ts: commits and reconciliations of concrete transactions.
use recat_qbo.Prelude.Shared.{
  ℕ, ◌≤◌, ◌≡◌, refl, Bool, true, false, List, [], ◌∷◌, Option, none, some, String, arith, str_eq,
  str_eq_iff,
}
use recat_qbo.Writeback.{
  AttemptStatus, verified, uncertain, txn_pending, txn_posted, recategorize, PreparedSnapshot,
  DurableAttempt, Entity, find_attempt, RequestIntent, find_request_or_conflict,
}
use recat_qbo.Writeback.Settle.{finalize_verified, finalize_unchanged, mark_uncertain}
use recat_qbo.Writeback.Commit.{CommitAnswers, went_through, commit, ReconcileAnswers, reconcile}
use recat_qbo.Writeback.Table.{IsTable}
use recat_qbo.Writeback.Blocked.{
  Call, commits, reconciles, total_sends, run, run-IsTable, others_kept, commit_blocked,
}

-- A write is proved by an entity whose content is the prepared one.
abbrev proves : String → PreparedSnapshot → Bool
proves body s = str_eq s.content body

abbrev old_entity : PreparedSnapshot
old_entity = record { sync_token = "3"; content = "holding" }

abbrev new_entity : PreparedSnapshot
new_entity = record { sync_token = "4"; content = "office" }

abbrev intent : RequestIntent
intent = record { operation = recategorize; expected_revision = 7; request_hash = none }

abbrev answers : Option PreparedSnapshot → CommitAnswers
answers response = record {
  leased = true;
  live = none;
  retry_authorized = false;
  load_error = none;
  dry_run_mode = false;
  client_error = none;
  prepared_write = some (old_entity, ("office", "hash"));
  prepare_error = "QBO_STATE_DRIFT";
  proof_error = none;
  transition = went_through;
  marked = true;
  response = response;
  finalized = true;
  doubt_stored = true;
}

abbrev reconcile_answers : ReconcileAnswers
reconcile_answers = record {
  held = true;
  authorize_error = none;
  actual = some (some old_entity);
  fetch_error = "QBO_UNAVAILABLE";
  stored = true;
  store_error = "DATABASE";
}

abbrev fresh : Entity
fresh = record { attempts = []; status = txn_pending; qbo_sync_token = "3"; revision = 7 }

abbrev row : String → AttemptStatus → ℕ → DurableAttempt
row id s n = record {
  request_id = id;
  operation = recategorize;
  expected_revision = 7;
  request_hash = "hash";
  body = "office";
  before = old_entity;
  status = s;
  error_code = none;
  sends = n;
}

abbrev with_row : DurableAttempt → Entity
with_row a = record { attempts = a ∷ []; status = txn_posted; qbo_sync_token = "3"; revision = 7 }

-- A readback that fails leaves the attempt in doubt, and a later reconciliation finds it unchanged.
reconciled_later :
    (run proves
      (commits "r" intent (answers none) ∷ reconciles "r" reconcile_answers ∷ [])
      fresh).status
    ≡ txn_pending
unfolding run commit reconcile find_request_or_conflict finalize_unchanged mark_uncertain
reconciled_later = refl

posted : (commit proves "r" intent (answers (some new_entity)) fresh).0.status ≡ txn_posted
unfolding commit find_request_or_conflict finalize_verified
posted = refl

abbrev two_calls : List Call
two_calls = commits "r" intent (answers none) ∷ commits "s" intent (answers (some new_entity)) ∷ []

run-IsTable_example :
    IsTable (run proves two_calls fresh).attempts
    × ((id : String) (a : DurableAttempt)
        → find_attempt id (run proves two_calls fresh).attempts ≡ some a
        → a.sends ≤ 1)
run-IsTable_example = run-IsTable proves two_calls fresh tt

others_kept_example :
    find_attempt "q"
      (run proves (commits "r" intent (answers none) ∷ []) (with_row (row "q" verified 1))).attempts
    ≡ some (row "q" verified 1)
others_kept_example =
    others_kept proves (commits "r" intent (answers none)) "q" (with_row (row "q" verified 1))
      ((tt, (omega arith, λ b. refl)), tt) (λ e. ground (arith, str_eq_iff "q" "r", e))

commit_blocked_example :
    total_sends
      (commit proves "r" intent
        (answers (some new_entity))
        (with_row (row "q" uncertain 1))).0.attempts
    ≡ 1
commit_blocked_example =
    commit_blocked proves "r" intent (answers (some new_entity)) (with_row (row "q" uncertain 1))
      ((tt, (omega arith, λ b. refl)), tt) refl
