-- ===== src/Verifier/Sound.antt =====
-- services/agent/core/verifier.ts: which proposals are verified.
use recat_qbo.Prelude.Shared.{
  ◌≤◌, ◌≡◌, refl, sym, ap, ◌∙◌, Bool-cases, ◌↔◌, true, false, List, [], ◌∷◌, map, Option, none,
  some, any, all, All, arith, Option-cases, inl, inr,
}
use recat_qbo.Prelude.Int.{ℤ, pos, ◌+ℤ◌, abs_ℤ}
use recat_qbo.Verifier.Decision.{
  proposal, ProposalLine, Proposal, Snapshot, FailureCode, decision_verified,
}
use recat_qbo.Verifier.Verify.{
  has, has_duplicate, check_amounts, check_categories, check_tags, check_tax, Pair, same_pair,
  has_pair, line_pair, selected_pairs, tag_lists, evidence_key, failure_of, verify_agent_decision,
  ◌orelse◌, walk_evidence, max_safe_integer,
}
use recat_qbo.Verifier.Checks.{
  sum_lines, IsDirected, check_amounts_sound, check_amounts_complete, check_categories_iff,
  IsTagList, check_tags_iff, IsTaxSound, check_tax_sound, check_tax_complete,
}
use recat_qbo.Verifier.Citations.{
  same_pair_iff, supports, fits, walk_evidence_sound, walk_evidence_fits, walk_evidence_complete,
}

orelse_none : (a b : Option FailureCode) → (a orelse b) ≡ none → (a ≡ none) × (b ≡ none)
orelse_none none b h = (refl, h)
orelse_none (some code) b h = absurd (ground arith)

-- Every line's pair of a category and a tax code has a cited rule, or a line of a cited transaction,
-- that speaks for it.
abbrev pub IsEvidenced : Snapshot → Proposal → ProposalLine → Type 0
IsEvidenced s p line = any (supports s p (line_pair line)) p.evidence ≡ true

All-IsEvidenced :
    (s : Snapshot) (p : Proposal) (lines : List ProposalLine)
    → ((q : Pair)
        → has_pair (map line_pair lines) q ≡ true
        → any (supports s p q) p.evidence ≡ true)
    → All (IsEvidenced s p) lines
All-IsEvidenced s p [] h = tt
All-IsEvidenced s p (line ∷ lines) h = (
  h (line_pair line) (ground (arith, same_pair_iff (line_pair line) (line_pair line))),
  All-IsEvidenced s p lines (λ q has_q. h q (ground (arith, has_q))),
)

any_equal :
    (s : Snapshot) (p : Proposal) (a b : Pair)
    → a.0 ≡ b.0
    → a.1 ≡ b.1
    → any (supports s p a) p.evidence ≡ any (supports s p b) p.evidence
any_equal s p a b e f = ap (λ q. any (supports s p q) p.evidence) (λ i. (e i, f i))

evidenced_pair :
    (s : Snapshot) (p : Proposal) (lines : List ProposalLine) (q : Pair)
    → All (IsEvidenced s p) lines
    → has_pair (map line_pair lines) q ≡ true
    → any (supports s p q) p.evidence ≡ true
evidenced_pair s p [] q h has_q = absurd (ground arith)
evidenced_pair s p (line ∷ lines) q h has_q = elim (Bool-cases (same_pair q (line_pair line))) [
  | inl same ↦
      let equal = (same_pair_iff q (line_pair line)).0 same in
      any_equal s p q (line_pair line) equal.0 equal.1 ∙ h.0
  | inr other ↦ evidenced_pair s p lines q h.1 (ground (arith, other))
]

-- A proposal that balances: its lines are not zero, have the direction of the transaction and add up
-- to its amount. It names only available categories, tags and tax codes, no tag twice in a list, tax
-- codes exactly where tax applies. It cites nothing twice, all that it cites is there and has to do
-- with it, and for every line it cites a rule or a verified transaction that has the line's pair.
abbrev pub IsSound : Snapshot → Proposal → Type 0
IsSound s p =
    (All (IsDirected s.signed_amount_cents) p.lines × (sum_lines p.lines ≡ s.signed_amount_cents))
    × ((all (λ line. has s.candidate_categories line.category_qbo_id) p.lines ≡ true)
        × (All (IsTagList s.tags) (tag_lists p)
            × (IsTaxSound s p
                × ((has_duplicate (map evidence_key p.evidence) ≡ false)
                    × ((all (fits s p) p.evidence ≡ true) × All (IsEvidenced s p) p.lines)))))

zero_left : (a : ℤ) → pos 0 +ℤ a ≡ a
unfolding ◌+ℤ◌
zero_left a = ground arith

failure_of-IsSound : (s : Snapshot) (p : Proposal) → failure_of s p ≡ none → IsSound s p
unfolding failure_of
failure_of-IsSound s p h =
    let c1 = orelse_none (check_amounts s.signed_amount_cents (pos 0) p.lines) _ h in
    let c2 = orelse_none (check_categories s p) _ c1.1 in
    let c3 = orelse_none (check_tags s.tags (tag_lists p)) _ c2.1 in
    let c4 = orelse_none (check_tax s p) _ c3.1 in
    let amounts = check_amounts_sound s.signed_amount_cents (pos 0) p.lines c1.0 in
    let unique : has_duplicate (map evidence_key p.evidence) ≡ false = ground (arith, c4.1) in
    let walked : walk_evidence s p p.evidence [] ≡ none = ground (arith, c4.1) in
    let pairs = λ (q : Pair) (has_q : has_pair (selected_pairs p) q ≡ true).
      walk_evidence_sound s p p.evidence [] q walked has_q in
    (
      (amounts.0, sym (zero_left (sum_lines p.lines)) ∙ amounts.1),
      (
        (check_categories_iff s p).0 c2.0,
        (
          (check_tags_iff s.tags (tag_lists p)).0 c3.0,
          (
            check_tax_sound s p c4.0,
            (
              unique,
              (walk_evidence_fits s p p.evidence [] walked, All-IsEvidenced s p p.lines pairs),
            ),
          ),
        ),
      ),
    )

failure_of_complete :
    (s : Snapshot) (p : Proposal)
    → abs_ℤ s.signed_amount_cents ≤ max_safe_integer
    → IsSound s p
    → failure_of s p ≡ none
unfolding failure_of
failure_of_complete s p bound
      ((directed, total), (cats, (tags, (tax, (unique, (fit, evidenced)))))) =
    let balanced = zero_left (sum_lines p.lines) ∙ total in
    let a =
      check_amounts_complete s.signed_amount_cents (pos 0) p.lines bound directed (inl refl)
        balanced in
    let b = (check_categories_iff s p).1 cats in
    let c = (check_tags_iff s.tags (tag_lists p)).1 tags in
    let d = check_tax_complete s p tax in
    let e =
      walk_evidence_complete s p p.evidence [] fit
        (λ q has_q. evidenced_pair s p p.lines q evidenced has_q) in
    rw (a, b, c, d, unique) e

-- If the amount of the transaction is a safe integer, a proposal is verified exactly if it is
-- sound in the sense of `IsSound`.
pub verified_iff :
    (s : Snapshot) (p : Proposal)
    → abs_ℤ s.signed_amount_cents ≤ max_safe_integer
    → (verify_agent_decision s (proposal p) ≡ decision_verified (proposal p)) ↔ IsSound s p
unfolding verify_agent_decision
verified_iff s p bound = elim (Option-cases (failure_of s p)) [
  | inl passed ↦ (λ h. failure_of-IsSound s p passed, λ h. ground (arith, passed))
  | inr (code, refused) ↦ (
    λ h. absurd (ground (arith, refused)),
    λ h. absurd (ground (arith, refused, failure_of_complete s p bound h)),
  )
]
