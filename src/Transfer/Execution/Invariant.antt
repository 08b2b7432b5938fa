-- ===== src/Transfer/Execution/Invariant.antt =====
-- services/transferExecution.ts: what holds of every leg: how often it was sent, and that its local
-- transaction agrees with its attempt.
use recat_qbo.Prelude.Shared.{
  ℕ, ◌≤◌, ◌≡◌, refl, Bool, true, false, Option, String, some, arith, ◌∙◌, inl, inr, Bool-cases,
}
use recat_qbo.Transfer.Execution.{
  LineWriteSnapshot, is_committing, TransferAttemptStatus, prepared, committing, verified,
  uncertain, retryable, unchanged, dry_run, Leg, Operation, allows_local, is_sending,
}
use recat_qbo.Transfer.Execution.Transitions.{touch_leg, verify_leg, accept_leg, doubt_leg}
use recat_qbo.Transfer.Execution.Steps.{
  LegStep, gives_up, claims, releases, touches, leaves, accepts, verifies, is_unchanged, doubts,
  finishes_prepared, finishes_claimed, LegSteps, stays, moves, Moves,
}

-- A leg that is given up, or finished dry, was never sent; no leg was sent twice. A verified one has
-- the token of its readback as its own.
abbrev pub SendFacts : TransferAttemptStatus → ℕ → Option String → String → Type 0
SendFacts prepared n token local = n ≡ 0
SendFacts retryable n token local = n ≡ 0
SendFacts dry_run n token local = n ≡ 0
SendFacts verified n token local = (n ≤ 1) × (token ≡ some local)
SendFacts _ n token local = n ≤ 1

abbrev pub IsLeg : Leg → Type 0
IsLeg l =
    (allows_local l.status l.transaction.status ≡ true)
    × SendFacts l.status l.sends l.new_sync_token l.transaction.qbo_sync_token

abbrev pub IsOperation : Operation → Type 0
IsOperation o = IsLeg o.first × IsLeg o.second

touch_leg-IsLeg : (now : ℕ) (l : Leg) → IsLeg l → IsLeg (touch_leg now l)
touch_leg-IsLeg now l h = elim (Bool-cases (is_sending l.status)) [
  | inl e ↦ rw e h
  | inr e ↦ rw e h
]

accept_leg-IsLeg :
    (s : LineWriteSnapshot) (now : ℕ) (l : Leg) → IsLeg l → IsLeg (accept_leg s now l)
accept_leg-IsLeg s now l h = elim (Bool-cases (is_committing l.status)) [
  | inl e ↦ rw e h
  | inr e ↦ rw e h
]

sends_le :
    (s : TransferAttemptStatus) (n : ℕ) (token : Option String) (local : String)
    → SendFacts s n token local
    → n ≤ 1
sends_le prepared n token local f = omega (arith, f)
sends_le committing n token local f = f
sends_le verified n token local f = f.0
sends_le uncertain n token local f = f
sends_le retryable n token local f = omega (arith, f)
sends_le unchanged n token local f = f
sends_le dry_run n token local f = omega (arith, f)

pub at_most_once : (l : Leg) → IsLeg l → l.sends ≤ 1
at_most_once l h = sends_le l.status l.sends l.new_sync_token l.transaction.qbo_sync_token h.1

verify_leg-IsLeg : (s : LineWriteSnapshot) (l : Leg) → IsLeg l → IsLeg (verify_leg s l)
verify_leg-IsLeg s l h = elim (Bool-cases (is_sending l.status)) [
  | inl e ↦ rw e (refl, (at_most_once l h, refl))
  | inr e ↦ rw e h
]

doubt_leg-IsLeg :
    (s : Option LineWriteSnapshot) (now : ℕ) (l : Leg) → IsLeg l → IsLeg (doubt_leg s now l)
doubt_leg-IsLeg s now l h = elim (Bool-cases (is_committing l.status)) [
  | inl e ↦ rw e (refl, at_most_once l h)
  | inr e ↦ rw e h
]

pub Step-IsLeg : {l m : Leg} → LegStep l m → IsLeg l → IsLeg m
Step-IsLeg (gives_up code l e) h = rw e at h
Step-IsLeg (claims now l e) h = ((rw e at h).0, at_most_once l h)
Step-IsLeg (releases code l e z) h = ((rw e at h).0, z)
Step-IsLeg (touches now l) h = touch_leg-IsLeg now l h
Step-IsLeg (leaves l e z) h = (h.0, rw (e, z) (omega arith))
Step-IsLeg (accepts s now l) h = accept_leg-IsLeg s now l h
Step-IsLeg (verifies s l) h = verify_leg-IsLeg s l h
Step-IsLeg (is_unchanged s l e) h = (refl, at_most_once l h)
Step-IsLeg (doubts s now l) h = doubt_leg-IsLeg s now l h
Step-IsLeg (finishes_prepared l e) h = (refl, (rw e at h).1)
Step-IsLeg (finishes_claimed l e z) h = (refl, z)

pub Steps-IsLeg : {l m : Leg} → LegSteps l m → IsLeg l → IsLeg m
Steps-IsLeg stays h = h
Steps-IsLeg (moves s r) h = Steps-IsLeg r (Step-IsLeg s h)

pub Moves-IsOperation : {o p : Operation} → Moves o p → IsOperation o → IsOperation p
Moves-IsOperation r h = (Steps-IsLeg r.first_moves h.0, Steps-IsLeg r.second_moves h.1)

-- A status that nothing follows.
abbrev pub is_done : TransferAttemptStatus → Bool
is_done verified = true
is_done dry_run = true
is_done retryable = true
is_done unchanged = true
is_done _ = false

done-not_sending : (s : TransferAttemptStatus) → is_done s ≡ true → is_sending s ≡ false
done-not_sending prepared d = absurd (ground arith)
done-not_sending committing d = absurd (ground arith)
done-not_sending uncertain d = absurd (ground arith)
done-not_sending verified d = refl
done-not_sending dry_run d = refl
done-not_sending retryable d = refl
done-not_sending unchanged d = refl

done-not_committing : (s : TransferAttemptStatus) → is_done s ≡ true → is_committing s ≡ false
done-not_committing prepared d = refl
done-not_committing committing d = absurd (ground arith)
done-not_committing uncertain d = refl
done-not_committing verified d = refl
done-not_committing dry_run d = refl
done-not_committing retryable d = refl
done-not_committing unchanged d = refl

Step-done : {l m : Leg} → LegStep l m → is_done l.status ≡ true → m ≡ l
Step-done (gives_up code l e) d = absurd (ground (arith, rw e at d))
Step-done (claims now l e) d = absurd (ground (arith, rw e at d))
Step-done (releases code l e z) d = absurd (ground (arith, rw e at d))
Step-done (touches now l) d = rw (done-not_sending l.status d) refl
Step-done (leaves l e z) d = absurd (ground (arith, rw e at d))
Step-done (accepts s now l) d = rw (done-not_committing l.status d) refl
Step-done (verifies s l) d = rw (done-not_sending l.status d) refl
Step-done (is_unchanged s l e) d = absurd (ground (arith, done-not_sending l.status d))
Step-done (doubts s now l) d = rw (done-not_committing l.status d) refl
Step-done (finishes_prepared l e) d = absurd (ground (arith, rw e at d))
Step-done (finishes_claimed l e z) d = absurd (ground (arith, rw e at d))

-- A leg that is done is never touched again.
pub Steps-done : {l m : Leg} → LegSteps l m → is_done l.status ≡ true → m ≡ l
Steps-done stays d = refl
Steps-done (moves s r) d = let e = Step-done s d in Steps-done r (rw e d) ∙ e
