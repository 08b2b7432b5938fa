-- ===== src/Transfer/Execution/Tests.antt =====
-- services/transferExecution.ts: runs of a transfer on concrete operations.
use recat_qbo.Prelude.Shared.{
  ℕ, ◌≤◌, ◌≡◌, refl, true, false, [], ◌∷◌, Option, none, some, String, str_eq, arith, if◌then◌else◌,
}
use recat_qbo.Prelude.Texts.{is_blank}
use recat_qbo.Transfer.Execution.{
  LineWriteSnapshot, PreparedWrite, LocalTransaction, LocalStatus, local_pending, local_error, Leg,
  Operation, first_leg, leg_of, TransferAttemptStatus, prepared, uncertain, verified, is_success,
  operation_dto, validate_local_transaction, projected_state, state_verified, local_posted,
}
use recat_qbo.Transfer.Execution.Transitions.{enter_committing}
use recat_qbo.Transfer.Execution.Reconcile.{ReconcileAnswers, read, absent}
use recat_qbo.Transfer.Execution.Legs.{
  ExecuteAnswers, execute_prepared_leg, refresh_strict, send_guard,
}
use recat_qbo.Transfer.Execution.Commit.{
  LegAnswers, CommitAnswers, load_prepared_state, commit_leg, commit_legs, commit_transfer,
}
use recat_qbo.Transfer.Execution.Steps.{Moves}
use recat_qbo.Transfer.Execution.Invariant.{IsOperation}
use recat_qbo.Transfer.Execution.Calls.{
  commits, commit_refines, commits-IsOperation, done_kept, second_after_first,
}

-- A write is proved by an entity whose content is the prepared one.
abbrev proves : PreparedWrite → LineWriteSnapshot → Option LineWriteSnapshot
proves p s = if str_eq s.content p.body then some s else none

abbrev old_entity : LineWriteSnapshot
old_entity = record { sync_token = "3"; content = "holding" }

abbrev new_entity : LineWriteSnapshot
new_entity = record { sync_token = "4"; content = "transfer" }

abbrev transaction_at : String → LocalStatus → LocalTransaction
transaction_at id s = record {
  id = id;
  company_id = "c";
  revision = 7;
  qbo_type = "Purchase";
  qbo_id = id;
  qbo_sync_token = "3";
  status = s;
  error_code = none;
  disconnected = false;
}

abbrev leg_at : String → TransferAttemptStatus → LocalStatus → ℕ → Leg
leg_at id s t n = record {
  expected_transaction_id = id;
  expected_revision = 7;
  expected_qbo_type = "Purchase";
  expected_qbo_id = id;
  expected_sync_token = "3";
  prepared_write = record { before = old_entity; body = "transfer" };
  status = s;
  response_snapshot = none;
  new_sync_token = if str_eq id "v" then some "3" else none;
  error_code = none;
  updated_at = 100;
  transaction = transaction_at id t;
  sends = n;
}

abbrev operation_at : Leg → Leg → Operation
operation_at l m = record {
  company_id = "c";
  expires_at = 1000;
  is_retry = false;
  first = l;
  second = m;
}

abbrev fresh : Operation
fresh = operation_at (leg_at "a" prepared local_pending 0) (leg_at "b" prepared local_pending 0)

abbrev doubtful : Operation
doubtful = operation_at (leg_at "a" uncertain local_error 1) (leg_at "b" prepared local_pending 0)

abbrev half_done : Operation
half_done = operation_at (leg_at "v" verified local_posted 1) (leg_at "b" prepared local_pending 0)

abbrev reconcile_answers : ReconcileAnswers
reconcile_answers = record {
  renewed = true;
  started_at = 100100;
  guard_before = some 200;
  actual = read old_entity;
  guard_after = some 300;
  finalize_fenced = true;
  retained = true;
  uncertain_fenced = true;
  uncertain_at = 400;
}

abbrev execute_answers : Option LineWriteSnapshot → ExecuteAnswers
execute_answers response = record {
  client = true;
  renewed = true;
  exact_before = read old_entity;
  mark_fenced = true;
  enter_fenced = true;
  entered_at = 200;
  refreshed = some 210;
  guard_before = some 220;
  current = read old_entity;
  inherited = absent;
  strict_fenced = true;
  strict_at = 230;
  strict_dry = false;
  response = response;
  persist_fenced = true;
  persisted_at = 240;
  guard_response = some 250;
  readback = read new_entity;
  guard_readback = some 260;
  finalize_fenced = true;
  retained = true;
  dry_fenced = true;
  dry_at = 270;
  dry_enabled = true;
  release_fenced = true;
  uncertain_fenced = true;
  uncertain_at = 280;
}

abbrev leg_answers : Option LineWriteSnapshot → LegAnswers
leg_answers response = record {
  marked = true;
  marked_again = true;
  dry = false;
  dry_fenced = true;
  dry_at = 190;
  dry_enabled = false;
  reconcile = reconcile_answers;
  execute = execute_answers response;
}

abbrev answers : Option LineWriteSnapshot → CommitAnswers
answers response = record {
  leased = true;
  now = 150;
  expire_fenced = true;
  both = leg_answers response;
  first = leg_answers response;
  second = leg_answers response;
}

-- Both legs are sent and verified.
both_verified :
    (operation_dto (commit_transfer proves none (answers (some new_entity)) fresh).0).state
    ≡ state_verified
unfolding commit_transfer commit_legs commit_leg load_prepared_state validate_local_transaction
    execute_prepared_leg enter_committing send_guard refresh_strict is_blank projected_state
both_verified = refl

-- A send without an answer leaves the first leg in doubt, and the second one unsent.
first_in_doubt : (commit_transfer proves none (answers none) fresh).0.first.status ≡ uncertain
unfolding commit_transfer commit_legs commit_leg load_prepared_state validate_local_transaction
    execute_prepared_leg enter_committing send_guard refresh_strict is_blank
first_in_doubt = refl

fresh-IsOperation : IsOperation fresh
fresh-IsOperation = ((refl, refl), (refl, refl))

half_done-IsOperation : IsOperation half_done
half_done-IsOperation = ((refl, (omega arith, refl)), (refl, refl))

commit_refines_example :
    Moves fresh (commit_transfer proves none (answers (some new_entity)) fresh).0
commit_refines_example =
    commit_refines proves none (answers (some new_entity)) fresh fresh-IsOperation

commits-IsOperation_example :
    IsOperation (commits proves none (answers none ∷ answers none ∷ []) fresh)
    × (((commits proves none (answers none ∷ answers none ∷ []) fresh).first.sends ≤ 1)
        × ((commits proves none (answers none ∷ answers none ∷ []) fresh).second.sends ≤ 1))
commits-IsOperation_example =
    commits-IsOperation proves none (answers none ∷ answers none ∷ []) fresh fresh-IsOperation

done_kept_example :
    leg_of first_leg (commits proves none (answers none ∷ []) half_done)
    ≡ leg_of first_leg half_done
done_kept_example =
    done_kept proves none (answers none ∷ []) half_done first_leg half_done-IsOperation refl

second_sent : (commit_transfer proves none (answers (some new_entity)) fresh).0.second.sends ≡ 1
unfolding commit_transfer commit_legs commit_leg load_prepared_state validate_local_transaction
    execute_prepared_leg enter_committing send_guard refresh_strict is_blank
second_sent = refl

second_after_first_example :
    is_success (commit_transfer proves none (answers (some new_entity)) fresh).0.first.status ≡ true
second_after_first_example =
    second_after_first proves none (answers (some new_entity)) fresh fresh-IsOperation
      (λ e. absurd (ground (arith, second_sent, e)))
