-- ===== src/Verifier/Tests.antt =====
-- services/agent/core/verifier.ts: a proposal of two lines, and reviews.
use recat_qbo.Prelude.Shared.{◌≡◌, refl, ◌↔◌, false, [], ◌∷◌, some, arith}
use recat_qbo.Prelude.Int.{negsuc, ◌+ℤ◌}
use recat_qbo.Verifier.Decision.{
  tax_inclusive, ready, rule, similar_transaction, category, tax_code, Proposal, ProposalLine,
  Snapshot, proposal, decision_verified, evidence_pair_inconsistent,
}
use recat_qbo.Verifier.Verify.{
  verify_agent_decision, failure_of, check_amounts, check_categories, check_tags, check_tax,
  check_tax_codes, evidence_key, walk_evidence, check_evidence,
}
use recat_qbo.Verifier.Sound.{IsSound, verified_iff}
use recat_qbo.Verifier.Review.{AgentLiveReview}

abbrev meals : ProposalLine
meals = record {
  gross_cents = negsuc 2999;
  category_qbo_id = "61";
  tax_code_qbo_id = some "5";
  tag_ids = "t1" ∷ [];
}

abbrev travel : ProposalLine
travel = record {
  gross_cents = negsuc 1999;
  category_qbo_id = "62";
  tax_code_qbo_id = some "5";
  tag_ids = [];
}

abbrev split : Proposal
split = record {
  tax_calculation = tax_inclusive;
  lines = meals ∷ travel ∷ [];
  tag_ids = "t2" ∷ "t1" ∷ [];
  evidence = rule "r1" ∷ similar_transaction "x9" ∷ category "61" ∷ tax_code "5" ∷ [];
  rationale = "as before";
}

abbrev snapshot : Snapshot
snapshot = record {
  signed_amount_cents = negsuc 4999;
  candidate_categories = "60" ∷ "61" ∷ "62" ∷ [];
  tax_status = ready;
  tax_modes = tax_inclusive ∷ [];
  tax_references = "5" ∷ [];
  tags = "t1" ∷ "t2" ∷ [];
  rules =
      record {
        id = "r1";
        category_qbo_id = "61";
        tax_calculation = tax_inclusive;
        tax_code_qbo_id = some "5";
      }
      ∷ [];
  similar_transactions =
      record {
        transaction_id = "x9";
        tax_calculation = tax_inclusive;
        lines = record { category_qbo_id = "62"; tax_code_qbo_id = some "5" } ∷ [];
      }
      ∷ [];
}

verified_iff_example :
    (verify_agent_decision snapshot (proposal split) ≡ decision_verified (proposal split))
    ↔ IsSound snapshot split
verified_iff_example = verified_iff snapshot split (omega arith)

is_verified : verify_agent_decision snapshot (proposal split) ≡ decision_verified (proposal split)
unfolding verify_agent_decision failure_of check_amounts check_categories check_tags check_tax
    check_tax_codes evidence_key walk_evidence check_evidence ◌+ℤ◌
is_verified = refl

missing_history :
    failure_of snapshot (record split { evidence = rule "r1" ∷ [] })
    ≡ some evidence_pair_inconsistent
unfolding failure_of check_amounts check_categories check_tags check_tax check_tax_codes
    evidence_key walk_evidence check_evidence ◌+ℤ◌
missing_history = refl

abbrev refusal : AgentLiveReview
refusal = record { approved = false; issues = "TAX_INVALID" ∷ "SNAPSHOT_MISMATCH" ∷ [] }
