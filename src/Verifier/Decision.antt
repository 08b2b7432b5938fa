-- ===== src/Verifier/Decision.antt =====
-- services/agent/core/verifier.ts, decision.ts and snapshot.ts: decisions, snapshots, and what the
-- verifier gives. They have the fields that are read.
use recat_qbo.Prelude.Shared.{Bool, true, false, List, Option, String}
use recat_qbo.Prelude.Int.{ℤ}

pub data FailureCode : Type 0 where
  line_total_unsafe line_amount_zero line_sign_mismatch line_total_unbalanced
        category_reference_invalid tax_not_ready tax_mode_unsupported tax_reference_missing
        tax_reference_invalid tax_reference_not_applicable tag_reference_invalid
        tag_reference_duplicate evidence_reference_duplicate evidence_pair_inconsistent
        evidence_rule_invalid evidence_rule_inconsistent evidence_history_invalid
        evidence_history_inconsistent evidence_category_invalid evidence_category_inconsistent
        evidence_tax_invalid evidence_tax_inconsistent distinct_review_rejected :
      FailureCode

abbrev pub failure_message : FailureCode → String
failure_message line_total_unsafe = "Proposal line total exceeds the safe integer range."
failure_message line_amount_zero = "Proposal lines must be nonzero."
failure_message line_sign_mismatch = "Proposal line direction does not match the transaction."
failure_message line_total_unbalanced = "Proposal lines do not balance to the transaction."
failure_message category_reference_invalid = "Proposal references an unavailable category."
failure_message tax_not_ready = "Proposal requires tax references that are not ready."
failure_message tax_mode_unsupported = "Proposal uses an unsupported tax calculation mode."
failure_message tax_reference_missing = "A taxable proposal line is missing a tax reference."
failure_message tax_reference_invalid = "Proposal references an unavailable tax code."
failure_message tax_reference_not_applicable =
    "A non-taxable proposal line includes a tax reference."
failure_message tag_reference_invalid = "Proposal references an unavailable tag."
failure_message tag_reference_duplicate = "Proposal contains a duplicate tag reference."
failure_message evidence_reference_duplicate = "Proposal contains a duplicate evidence reference."
failure_message evidence_pair_inconsistent =
    "Evidence does not cover every selected category and tax pairing."
failure_message evidence_rule_invalid = "Proposal references an unavailable rule."
failure_message evidence_rule_inconsistent = "Rule evidence is inconsistent with the proposal."
failure_message evidence_history_invalid = "Proposal references unavailable verified history."
failure_message evidence_history_inconsistent =
    "Verified-history evidence is inconsistent with the proposal."
failure_message evidence_category_invalid = "Proposal evidence references an unavailable category."
failure_message evidence_category_inconsistent =
    "Category evidence is inconsistent with the proposal."
failure_message evidence_tax_invalid = "Proposal evidence references an unavailable tax code."
failure_message evidence_tax_inconsistent = "Tax evidence is inconsistent with the proposal."
failure_message distinct_review_rejected = "Distinct live review did not approve the proposal."

pub data TaxCalculation : Type 0 where
  tax_inclusive tax_excluded not_applicable : TaxCalculation

pub data TaxStatus : Type 0 where
  unsupported needs_setup ready : TaxStatus

abbrev pub same_calculation : TaxCalculation → TaxCalculation → Bool
same_calculation tax_inclusive tax_inclusive = true
same_calculation tax_excluded tax_excluded = true
same_calculation not_applicable not_applicable = true
same_calculation _ _ = false

abbrev pub is_applicable : TaxCalculation → Bool
is_applicable not_applicable = false
is_applicable _ = true

abbrev pub is_tax_ready : TaxStatus → Bool
is_tax_ready ready = true
is_tax_ready _ = false

pub data Evidence : Type 0 where
  rule similar_transaction category tax_code : String → Evidence

pub record ProposalLine : Type 0 where
  pub gross_cents : ℤ
  pub category_qbo_id : String
  pub tax_code_qbo_id : Option String
  pub tag_ids : List String

pub record Proposal : Type 0 where
  pub tax_calculation : TaxCalculation
  pub lines : List ProposalLine
  pub tag_ids : List String
  pub evidence : List Evidence
  pub rationale : String

pub data AgentDecision : Type 0 where
  abstain : String → String → AgentDecision
  proposal : Proposal → AgentDecision

pub record ApplicableRule : Type 0 where
  pub id : String
  pub category_qbo_id : String
  pub tax_calculation : TaxCalculation
  pub tax_code_qbo_id : Option String

pub record SimilarLine : Type 0 where
  pub category_qbo_id : String
  pub tax_code_qbo_id : Option String

pub record SimilarTransaction : Type 0 where
  pub transaction_id : String
  pub tax_calculation : TaxCalculation
  pub lines : List SimilarLine

-- The lists of references are those of their ids.
pub record Snapshot : Type 0 where
  pub signed_amount_cents : ℤ
  pub candidate_categories : List String
  pub tax_status : TaxStatus
  pub tax_modes : List TaxCalculation
  pub tax_references : List String
  pub tags : List String
  pub rules : List ApplicableRule
  pub similar_transactions : List SimilarTransaction

pub data AgentVerification : Type 0 where
  decision_verified decision_abstain : AgentDecision → AgentVerification
  rejected : FailureCode → String → AgentVerification
