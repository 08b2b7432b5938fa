-- ===== src/Transfer/Execution/Calls.antt =====
-- services/transferExecution.ts: what any number of calls of `commitTransfer` leaves of an operation.
use recat_qbo.Prelude.Shared.{◌≤◌, ◌≡◌, ◌≢◌, true, List, [], ◌∷◌, Option, ℕ, inl, inr}
use recat_qbo.Transfer.Execution.{
  LineWriteSnapshot, PreparedWrite, Operation, LegIndex, first_leg, second_leg, leg_of, is_success,
}
use recat_qbo.Transfer.Execution.Commit.{CommitAnswers, commit_transfer}
use recat_qbo.Transfer.Execution.Steps.{Moves, Moves-refl, Moves-trans}
use recat_qbo.Transfer.Execution.Invariant.{
  IsOperation, Moves-IsOperation, is_done, Steps-done, at_most_once,
}
use recat_qbo.Transfer.Execution.Committed.{commit-Runs}

module _ (verify : PreparedWrite → LineWriteSnapshot → Option LineWriteSnapshot)
    (quiescence : Option ℕ) where
  -- Any number of calls, one after another.
  unfoldable pub commits : List CommitAnswers → Operation → Operation
  commits [] o = o
  commits (a ∷ calls) o = commits calls (commit_transfer verify quiescence a o).0

  commits-Moves :
      (calls : List CommitAnswers) (o : Operation) → IsOperation o → Moves o (commits calls o)
  unfolding commits
  commits-Moves [] o h = Moves-refl
  commits-Moves (a ∷ calls) o h =
      let m = (commit-Runs verify quiescence a o h).moved in
      Moves-trans m (commits-Moves calls _ (Moves-IsOperation m h))

  -- A call of commitTransfer, whatever is answered to it in its course, moves the two legs of a
  -- consistent operation by steps of the leg's state machine alone.
  pub commit_refines :
      (a : CommitAnswers) (o : Operation)
      → IsOperation o
      → Moves o (commit_transfer verify quiescence a o).0
  commit_refines a o h = (commit-Runs verify quiescence a o h).moved

  -- After any number of calls on a consistent operation, whatever is answered to them, it is consistent
  -- still: the local transactions agree with their attempts, and a leg that is prepared, given up as
  -- retryable or finished dry was never sent; and neither leg was sent more than once.
  pub commits-IsOperation :
      (calls : List CommitAnswers) (o : Operation)
      → IsOperation o
      → IsOperation (commits calls o)
        × (((commits calls o).first.sends ≤ 1) × ((commits calls o).second.sends ≤ 1))
  commits-IsOperation calls o h =
      let k = Moves-IsOperation (commits-Moves calls o h) h in
      (k, (at_most_once (commits calls o).first k.0, at_most_once (commits calls o).second k.1))

  -- A leg that is verified, finished dry, retryable or unchanged is left as it is by any number of
  -- calls on its consistent operation.
  pub done_kept :
      (calls : List CommitAnswers) (o : Operation) (i : LegIndex)
      → IsOperation o
      → is_done (leg_of i o).status ≡ true
      → leg_of i (commits calls o) ≡ leg_of i o
  done_kept calls o first_leg h d = Steps-done (commits-Moves calls o h).first_moves d
  done_kept calls o second_leg h d = Steps-done (commits-Moves calls o h).second_moves d

  -- When a call on a consistent operation sends the second leg, the first leg is verified or finished
  -- dry once the call is over.
  pub second_after_first :
      (a : CommitAnswers) (o : Operation)
      → IsOperation o
      → (commit_transfer verify quiescence a o).0.second.sends ≢ o.second.sends
      → is_success (commit_transfer verify quiescence a o).0.first.status ≡ true
  second_after_first a o h n = elim (commit-Runs verify quiescence a o h).ordered [
    | inl e ↦ absurd (n e)
    | inr s ↦ s
  ]
