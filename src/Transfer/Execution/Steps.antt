-- ===== src/Transfer/Execution/Steps.antt =====
-- services/transferExecution.ts: the life of a leg as a state machine, whoever moves it and in whatever
-- order: the moves of one leg, and the operations that two legs moved this way lead to.
use recat_qbo.Prelude.Shared.{ℕ, ◌≡◌, refl, true, Option, String, ◌∙◌}
use recat_qbo.Transfer.Execution.{
  LineWriteSnapshot, Leg, Operation, LegIndex, first_leg, second_leg, leg_of, put_leg, other_leg,
  prepared, committing, is_sending,
}
use recat_qbo.Transfer.Execution.Transitions.{
  give_up, claim, touch_leg, verify_leg, accept_leg, keep_leg_unchanged, doubt_leg, finish_dry_run,
}
use recat_qbo.Transfer.Execution.Legs.{sent_leg}

-- The moves. One that gives a leg up, or finishes it dry, needs a leg that was never sent; only a
-- claimed leg is sent, and only once.
pub data LegStep : Leg → Leg → Type 0 where
  gives_up : (code : String) (l : Leg) → l.status ≡ prepared → LegStep l (give_up code l)
  claims : (now : ℕ) (l : Leg) → l.status ≡ prepared → LegStep l (claim now l)
  releases :
      (code : String) (l : Leg) → l.status ≡ committing → l.sends ≡ 0 → LegStep l (give_up code l)
  touches : (now : ℕ) (l : Leg) → LegStep l (touch_leg now l)
  leaves : (l : Leg) → l.status ≡ committing → l.sends ≡ 0 → LegStep l (sent_leg l)
  accepts : (s : LineWriteSnapshot) (now : ℕ) (l : Leg) → LegStep l (accept_leg s now l)
  verifies : (s : LineWriteSnapshot) (l : Leg) → LegStep l (verify_leg s l)
  is_unchanged :
      (s : LineWriteSnapshot) (l : Leg)
      → is_sending l.status ≡ true
      → LegStep l (keep_leg_unchanged s l)
  doubts : (s : Option LineWriteSnapshot) (now : ℕ) (l : Leg) → LegStep l (doubt_leg s now l)
  finishes_prepared : (l : Leg) → l.status ≡ prepared → LegStep l (finish_dry_run l)
  finishes_claimed : (l : Leg) → l.status ≡ committing → l.sends ≡ 0 → LegStep l (finish_dry_run l)

pub data LegSteps : Leg → Leg → Type 0 where
  stays : {l : Leg} → LegSteps l l
  moves : {l m n : Leg} → LegStep l m → LegSteps m n → LegSteps l n

pub one : {l m : Leg} → LegStep l m → LegSteps l m
one s = moves s stays

pub LegSteps_trans : {l m n : Leg} → LegSteps l m → LegSteps m n → LegSteps l n
LegSteps_trans stays t = t
LegSteps_trans (moves s r) t = moves s (LegSteps_trans r t)

-- The second operation is the first with its legs moved on.
pub record Moves (o p : Operation) : Type 0 where
  pub same_company : o.company_id ≡ p.company_id
  pub same_expiry : o.expires_at ≡ p.expires_at
  pub first_moves : LegSteps o.first p.first
  pub second_moves : LegSteps o.second p.second

pub Moves-refl : {o : Operation} → Moves o o
Moves-refl = record {
  same_company = refl;
  same_expiry = refl;
  first_moves = stays;
  second_moves = stays;
}

pub Moves-trans : {o p q : Operation} → Moves o p → Moves p q → Moves o q
Moves-trans a b = record {
  same_company = a.same_company ∙ b.same_company;
  same_expiry = a.same_expiry ∙ b.same_expiry;
  first_moves = LegSteps_trans a.first_moves b.first_moves;
  second_moves = LegSteps_trans a.second_moves b.second_moves;
}

-- The same by a run for one leg, which never sends the other.
pub record Leads (i : LegIndex) (o p : Operation) : Type 0 where
  pub moved : Moves o p
  pub other_sends : (leg_of (other_leg i) o).sends ≡ (leg_of (other_leg i) p).sends

pub Leads-refl : {i : LegIndex} {o : Operation} → Leads i o o
Leads-refl = record { moved = Moves-refl; other_sends = refl }

pub Leads-trans : {i : LegIndex} {o p q : Operation} → Leads i o p → Leads i p q → Leads i o q
Leads-trans a b = record {
  moved = Moves-trans a.moved b.moved;
  other_sends = a.other_sends ∙ b.other_sends;
}

-- Each leg goes its own way, and keeps its count.
pub by_legs :
    (i : LegIndex) (o : Operation) (l m : Leg)
    → LegSteps o.first l
    → LegSteps o.second m
    → (leg_of (other_leg i) o).sends
      ≡ (leg_of (other_leg i) (record o { first = l; second = m })).sends
    → Leads i o (record o { first = l; second = m })
by_legs i o l m f s e = record {
  moved = record { same_company = refl; same_expiry = refl; first_moves = f; second_moves = s };
  other_sends = e;
}

pub Leads-put_leg :
    (i : LegIndex) (l : Leg) (o : Operation) → LegSteps (leg_of i o) l → Leads i o (put_leg i l o)
Leads-put_leg first_leg l o s = by_legs first_leg o l o.second s stays refl
Leads-put_leg second_leg l o s = by_legs second_leg o o.first l stays s refl
