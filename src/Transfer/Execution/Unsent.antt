-- ===== src/Transfer/Execution/Unsent.antt =====
-- services/transferExecution.ts: the transactions that give legs up or finish them dry touch no leg that
-- was sent.
use recat_qbo.Prelude.Shared.{
  ℕ, ◌≡◌, refl, Bool, true, false, not, ◌&&◌, ◌||◌, List, [], ◌∷◌, ◌++◌, Option, none, some, String,
  arith, ◌⊎◌, inl, inr, if◌then◌else◌, any, leb,
}
use recat_qbo.Prelude.Splits.{by_if, by_option}
use recat_qbo.Transfer.Execution.{
  TransferExecutionErrorCode, Leg, Operation, LegIndex, first_leg, second_leg, leg_of, put_leg,
  other_leg, is_prepared, is_committing, is_sending, prepared, committing, load_local_state,
}
use recat_qbo.Transfer.Execution.Transitions.{
  give_up, give_up_if, retry_prepared_attempts, mark_prepared_retryable, touch,
  mark_claimed_and_prepared_retryable, finalize_dry_run, blocks_dry_run, each_leg, finish_dry_run,
  DryRunResult, not_enabled, expired, finalized, code_text, is_empty,
}
use recat_qbo.Transfer.Execution.Legs.{dry_run_indices}
use recat_qbo.Transfer.Execution.Steps.{
  gives_up, releases, finishes_prepared, finishes_claimed, LegSteps, stays, one, Leads, Leads-refl,
  by_legs,
}
use recat_qbo.Transfer.Execution.Refines.{
  prepared_of, retry_if, retry_if_sends, Reaches, reach, halt,
}

-- A leg that a run has claimed and not sent.
abbrev pub IsClaimed : Leg → Type 0
IsClaimed l = (l.status ≡ committing) × (l.sends ≡ 0)

abbrev pub Claimed : LegIndex → Operation → Type 0
Claimed i o = IsClaimed (leg_of i o)

pub put_leg-Claimed :
    (i : LegIndex) (l : Leg) (o : Operation) → IsClaimed l → Claimed i (put_leg i l o)
put_leg-Claimed first_leg l o h = h
put_leg-Claimed second_leg l o h = h

pub touch-Claimed :
    (i : LegIndex) (now : ℕ) (o : Operation) → Claimed i o → Claimed i (touch i now o)
touch-Claimed i now o h =
    put_leg-Claimed i _ o (by_if IsClaimed (is_sending (leg_of i o).status) (λ e. h) (λ e. h))

pub retry_prepared-Leads :
    (i : LegIndex) (code : String) (o : Operation) → Leads i o (retry_prepared_attempts code o)
retry_prepared-Leads i code o =
    by_legs i o _ _ (retry_if code o.first) (retry_if code o.second) (kept i)
  where
    kept :
        (i : LegIndex)
        → (leg_of (other_leg i) o).sends
          ≡ (leg_of (other_leg i) (retry_prepared_attempts code o)).sends
    kept first_leg = retry_if_sends code _ o.second
    kept second_leg = retry_if_sends code _ o.first

pub mark_prepared-Leads :
    (i j : LegIndex) (code : TransferExecutionErrorCode) (o : Operation)
    → Leads i o (mark_prepared_retryable j code o)
mark_prepared-Leads i j code o =
    by_if (Leads i o) (is_prepared (leg_of j o).status)
      (λ e. retry_prepared-Leads i (code_text code) o) (λ e. Leads-refl)

release_claimed :
    (code : String) (l : Leg)
    → IsClaimed l
    → LegSteps l (give_up_if (is_prepared l.status || (true && is_committing l.status)) code l)
release_claimed code l h = by_if (LegSteps l) _ (λ e. one (releases code l h.0 h.1)) (λ e. stays)

release_other :
    (code : String) (l : Leg)
    → LegSteps l (give_up_if (is_prepared l.status || (false && is_committing l.status)) code l)
release_other code l =
    by_if (LegSteps l) _ (λ e. one (gives_up code l (prepared_of _ (ground arith)))) (λ e. stays)

pub release-Leads :
    (i : LegIndex) (code : TransferExecutionErrorCode) (o : Operation)
    → Claimed i o
    → Leads i o (mark_claimed_and_prepared_retryable i code o)
release-Leads first_leg code o h =
    by_legs first_leg o _ _ (release_claimed (code_text code) o.first h)
      (release_other (code_text code) o.second) (retry_if_sends (code_text code) _ o.second)
release-Leads second_leg code o h =
    by_legs second_leg o _ _ (release_other (code_text code) o.first)
      (release_claimed (code_text code) o.second h) (retry_if_sends (code_text code) _ o.first)

-- The leg, if any, that the caller of `finalizeDryRun` has claimed.
abbrev pub Caller : Option LegIndex → Operation → Type 0
Caller none o = Unit
Caller (some i) o = Claimed i o

-- A leg that a dry run may finish or give up.
abbrev pub IsUnsent : Leg → Type 0
IsUnsent l = (l.status ≡ prepared) ⊎ IsClaimed l

unblocked :
    (claimed : Option LegIndex) (i : LegIndex) (o : Operation)
    → Caller claimed o
    → blocks_dry_run claimed o i ≡ false
    → IsUnsent (leg_of i o)
unblocked none i o c b = inl (prepared_of _ (ground arith))
unblocked (some first_leg) first_leg o c b = inr c
unblocked (some second_leg) second_leg o c b = inr c
unblocked (some first_leg) second_leg o c b = inl (prepared_of _ (ground arith))
unblocked (some second_leg) first_leg o c b = inl (prepared_of _ (ground arith))

finish_unsent : (l : Leg) → IsUnsent l → LegSteps l (finish_dry_run l)
finish_unsent l (inl p) = one (finishes_prepared l p)
finish_unsent l (inr c) = one (finishes_claimed l c.0 c.1)

give_up_unsent : (code : String) (l : Leg) → IsUnsent l → LegSteps l (give_up code l)
give_up_unsent code l (inl p) = one (gives_up code l p)
give_up_unsent code l (inr c) = one (releases code l c.0 c.1)

-- The lists of legs that the code hands to `finalizeDryRun`.
pub data Legs : List LegIndex → Type 0 where
  no_leg : Legs []
  only : (i : LegIndex) → Legs (i ∷ [])
  both_legs : Legs (first_leg ∷ second_leg ∷ [])

pub dry_run_indices-Legs : (i : LegIndex) (o : Operation) → Legs (dry_run_indices i o)
dry_run_indices-Legs first_leg o = go (is_prepared o.first.status) (is_prepared o.second.status)
  where
    go :
        (p q : Bool)
        → Legs
            ((if p then first_leg ∷ [] else first_leg ∷ []) ++ (if q then second_leg ∷ [] else []))
    go true true = both_legs
    go true false = only first_leg
    go false true = both_legs
    go false false = only first_leg
dry_run_indices-Legs second_leg o = go (is_prepared o.first.status) (is_prepared o.second.status)
  where
    go :
        (p q : Bool)
        → Legs
            ((if p then first_leg ∷ [] else []) ++ (if q then second_leg ∷ [] else second_leg ∷ []))
    go true true = both_legs
    go true false = both_legs
    go false true = only second_leg
    go false false = only second_leg

each-Leads :
    (i : LegIndex) (f : Leg → Leg) (f_moves : (l : Leg) → IsUnsent l → LegSteps l (f l))
    (f_sends : (l : Leg) → l.sends ≡ (f l).sends) (is : List LegIndex) (claimed : Option LegIndex)
    (o : Operation)
    → Legs is
    → Caller claimed o
    → any (blocks_dry_run claimed o) is ≡ false
    → Leads i o (each_leg f is o)
each-Leads i f f_moves f_sends [] claimed o n c b = Leads-refl
each-Leads i f f_moves f_sends (first_leg ∷ []) claimed o n c b =
    by_legs i o _ _ (f_moves o.first (unblocked claimed first_leg o c (ground arith))) stays
      (kept i)
  where
    kept :
        (i : LegIndex)
        → (leg_of (other_leg i) o).sends
          ≡ (leg_of (other_leg i) (record o { first = f o.first })).sends
    kept first_leg = refl
    kept second_leg = f_sends o.first
each-Leads i f f_moves f_sends (second_leg ∷ []) claimed o n c b =
    by_legs i o _ _ stays (f_moves o.second (unblocked claimed second_leg o c (ground arith)))
      (kept i)
  where
    kept :
        (i : LegIndex)
        → (leg_of (other_leg i) o).sends
          ≡ (leg_of (other_leg i) (record o { second = f o.second })).sends
    kept first_leg = f_sends o.second
    kept second_leg = refl
each-Leads i f f_moves f_sends (j ∷ k ∷ []) claimed o both_legs c b =
    by_legs i o _ _ (f_moves o.first (unblocked claimed first_leg o c (ground arith)))
      (f_moves o.second (unblocked claimed second_leg o c (ground arith))) (kept i)
  where
    kept :
        (i : LegIndex)
        → (leg_of (other_leg i) o).sends
          ≡ (leg_of (other_leg i) (record o { first = f o.first; second = f o.second })).sends
    kept first_leg = f_sends o.second
    kept second_leg = f_sends o.first
each-Leads i f f_moves f_sends (j ∷ k ∷ l ∷ is) claimed o n c b = elim n [ ]

pub finalize_dry_run-Reaches :
    (i : LegIndex) (is : List LegIndex) (claimed : Option LegIndex) (now : ℕ) (dry : Bool)
    (o : Operation)
    → Legs is
    → Caller claimed o
    → Reaches i o (finalize_dry_run is claimed now dry o)
unfolding finalize_dry_run
finalize_dry_run-Reaches i is claimed now dry o n c =
    by_option (Reaches i o) (load_local_state o)
      (λ e.
        by_if (Reaches i o) (is_empty is || any (blocks_dry_run claimed o) is) (λ e. halt)
          (λ b.
            by_if (Reaches i o) (leb o.expires_at now)
              (λ e. reach (
                each-Leads i (give_up "OPERATION_EXPIRED") (give_up_unsent "OPERATION_EXPIRED")
                  (λ l. refl) is claimed o n c (ground arith)))
              (λ e.
                by_if (Reaches i o) (not dry) (λ e. halt)
                  (λ e. reach (
                    each-Leads i finish_dry_run finish_unsent (λ l. refl) is claimed o n c
                      (ground arith))))))
      (λ code e. halt)

-- A dry run that turns out not to be enabled has changed nothing.
record Kept (o : Operation) (r : Operation × DryRunResult) : Type 0 where
  kept : r.1 ≡ not_enabled → r.0 ≡ o

expired-Kept : (o p : Operation) → Kept o (p, expired)
expired-Kept o p = record { kept = λ n. absurd (ground arith) }

finalized-Kept : (o p : Operation) → Kept o (p, finalized)
finalized-Kept o p = record { kept = λ n. absurd (ground arith) }

pub finalize_dry_run-kept :
    (is : List LegIndex) (claimed : Option LegIndex) (now : ℕ) (dry : Bool) (o : Operation)
    → (finalize_dry_run is claimed now dry o).1 ≡ not_enabled
    → (finalize_dry_run is claimed now dry o).0 ≡ o
unfolding finalize_dry_run
finalize_dry_run-kept is claimed now dry o =
    (by_option (Kept o) (load_local_state o)
      (λ e.
        by_if (Kept o) (is_empty is || any (blocks_dry_run claimed o) is)
          (λ e. record { kept = λ n. refl })
          (λ b.
            by_if (Kept o) (leb o.expires_at now) (λ e. expired-Kept o _)
              (λ e.
                by_if (Kept o) (not dry) (λ e. record { kept = λ n. refl })
                  (λ e. finalized-Kept o _))))
      (λ code e. record { kept = λ n. refl })).kept
