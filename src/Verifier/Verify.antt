-- ===== src/Verifier/Verify.antt =====
-- services/agent/core/verifier.ts: the checks, in the order of the source. A check gives the first code of
-- its refusals, and `none` where it finds nothing. A pair of a category and a tax code is a pair, for
-- which the source has its JSON text.
use recat_qbo.Prelude.Shared.{
  ℕ, Bool, false, ◌&&◌, ◌||◌, not, List, [], ◌∷◌, ◌++◌, map, Option, none, some, String, leb, ◌==◌,
  if◌then◌else◌, str_eq, opt_str_eq, is_none, any, keep,
}
use recat_qbo.Prelude.Int.{ℤ, pos, negsuc, ◌+ℤ◌, eq_ℤ, abs_ℤ}
use Prim.Native.String.{◌++◌ as joined}
use recat_qbo.Verifier.Decision.{
  AgentDecision, AgentVerification, ApplicableRule, Evidence, FailureCode, Proposal, ProposalLine,
  SimilarLine, SimilarTransaction, Snapshot, abstain, category, category_reference_invalid,
  decision_abstain, decision_verified, evidence_category_inconsistent, evidence_category_invalid,
  evidence_history_inconsistent, evidence_history_invalid, evidence_pair_inconsistent,
  evidence_reference_duplicate, evidence_rule_inconsistent, evidence_rule_invalid,
  evidence_tax_inconsistent, evidence_tax_invalid, failure_message, is_applicable, is_tax_ready,
  line_amount_zero, line_sign_mismatch, line_total_unbalanced, line_total_unsafe, proposal,
  rejected, rule, same_calculation, similar_transaction, tag_reference_duplicate,
  tag_reference_invalid, tax_code, tax_mode_unsupported, tax_not_ready, tax_reference_invalid,
  tax_reference_missing, tax_reference_not_applicable,
}

abbrev pub max_safe_integer : ℕ
max_safe_integer = 9_007_199_254_740_991

-- `Math.sign`.
abbrev pub sign : ℤ → ℤ
sign (pos n) = if n == 0 then pos 0 else pos 1
sign (negsuc n) = negsuc 0

-- `set.has(id)`, and `new Set(ids).size !== ids.length`.
abbrev pub has : List String → String → Bool
has ids id = any (str_eq id) ids

abbrev pub has_duplicate : List String → Bool
has_duplicate [] = false
has_duplicate (id ∷ ids) = has ids id || has_duplicate ids

infixr 20 ◌orelse◌
abbrev pub ◌orelse◌ : Option FailureCode → Option FailureCode → Option FailureCode
none orelse later = later
some code orelse later = some code

abbrev pub refuse_if : Bool → FailureCode → Option FailureCode
refuse_if test code = if test then some code else none

-- The loop over the amounts, and the balance after it.
unfoldable pub check_amounts : ℤ → ℤ → List ProposalLine → Option FailureCode
check_amounts amount total [] = refuse_if (not (eq_ℤ total amount)) line_total_unbalanced
check_amounts amount total (line ∷ lines) =
    refuse_if (eq_ℤ line.gross_cents (pos 0)) line_amount_zero
    orelse refuse_if (not (eq_ℤ (sign line.gross_cents) (sign amount))) line_sign_mismatch
    orelse refuse_if (not (leb (abs_ℤ (total +ℤ line.gross_cents)) max_safe_integer))
        line_total_unsafe
    orelse check_amounts amount (total +ℤ line.gross_cents) lines

unfoldable pub check_categories : Snapshot → Proposal → Option FailureCode
check_categories s p =
    refuse_if (any (λ line. not (has s.candidate_categories line.category_qbo_id)) p.lines)
      category_reference_invalid

unfoldable pub check_tags : List String → List (List String) → Option FailureCode
check_tags available [] = none
check_tags available (ids ∷ lists) =
    refuse_if (has_duplicate ids) tag_reference_duplicate
    orelse refuse_if (any (λ id. not (has available id)) ids) tag_reference_invalid
    orelse check_tags available lists

abbrev line_tags : ProposalLine → List String
line_tags line = line.tag_ids

abbrev pub tag_lists : Proposal → List (List String)
tag_lists p = p.tag_ids ∷ map line_tags p.lines

abbrev check_tax_code : List String → Option String → Option FailureCode
check_tax_code available none = some tax_reference_missing
check_tax_code available (some id) = refuse_if (not (has available id)) tax_reference_invalid

unfoldable pub check_tax_codes : List String → List ProposalLine → Option FailureCode
check_tax_codes available [] = none
check_tax_codes available (line ∷ lines) =
    check_tax_code available line.tax_code_qbo_id orelse check_tax_codes available lines

unfoldable pub check_tax : Snapshot → Proposal → Option FailureCode
unfolding check_tax_codes
check_tax s p =
    if is_applicable p.tax_calculation
    then (refuse_if (not (is_tax_ready s.tax_status)) tax_not_ready
        orelse refuse_if (not (any (same_calculation p.tax_calculation) s.tax_modes))
            tax_mode_unsupported
        orelse check_tax_codes s.tax_references p.lines)
    else refuse_if (any (λ line. not (is_none line.tax_code_qbo_id)) p.lines)
        tax_reference_not_applicable

-- `categoryTaxPair` and `evidenceKey`.
abbrev pub Pair : Type 0
Pair = String × Option String

abbrev pub same_pair : Pair → Pair → Bool
same_pair a b = str_eq (a.0) (b.0) && opt_str_eq (a.1) (b.1)

abbrev pub has_pair : List Pair → Pair → Bool
has_pair pairs p = any (same_pair p) pairs

abbrev pub line_pair : ProposalLine → Pair
line_pair line = (line.category_qbo_id, line.tax_code_qbo_id)

abbrev pub rule_pair : ApplicableRule → Pair
rule_pair r = (r.category_qbo_id, r.tax_code_qbo_id)

abbrev pub similar_pair : SimilarLine → Pair
similar_pair l = (l.category_qbo_id, l.tax_code_qbo_id)

abbrev pub selected_pairs : Proposal → List Pair
selected_pairs p = map line_pair p.lines

unfoldable pub evidence_key : Evidence → String
evidence_key (rule id) = joined "rule:" id
evidence_key (similar_transaction id) = joined "similar_transaction:" id
evidence_key (category id) = joined "category:" id
evidence_key (tax_code id) = joined "tax_code:" id

-- `new Map(...)` of a list keeps the last entry of a key.
module _ {ℓ} {A : Type ℓ} where
  abbrev later : Option A → Option A → Option A
  later none a = a
  later (some b) a = some b

  abbrev pub find_last : (A → String) → String → List A → Option A
  find_last key id [] = none
  find_last key id (a ∷ as') =
      later (find_last key id as') (if str_eq (key a) id then some a else none)

abbrev rule_id : ApplicableRule → String
rule_id r = r.id

abbrev history_id : SimilarTransaction → String
history_id t = t.transaction_id

abbrev pub rule_of : Snapshot → String → Option ApplicableRule
rule_of s id = find_last rule_id id s.rules

abbrev pub history_of : Snapshot → String → Option SimilarTransaction
history_of s id = find_last history_id id s.similar_transactions

-- What one piece of evidence gives: a refusal, or the pairs that it is evidence of.
pub data EvidenceResult : Type 0 where
  refuses : FailureCode → EvidenceResult
  covers : List Pair → EvidenceResult

abbrev check_rule : Proposal → Option ApplicableRule → EvidenceResult
check_rule p none = refuses evidence_rule_invalid
check_rule p (some r) =
    if same_calculation r.tax_calculation p.tax_calculation
      && has_pair (selected_pairs p) (rule_pair r)
    then covers (rule_pair r ∷ [])
    else refuses evidence_rule_inconsistent

abbrev pub matching_pairs : Proposal → SimilarTransaction → List Pair
matching_pairs p t =
    if same_calculation t.tax_calculation p.tax_calculation
    then keep (has_pair (selected_pairs p)) (map similar_pair t.lines)
    else []

abbrev covers_some : List Pair → EvidenceResult
covers_some [] = refuses evidence_history_inconsistent
covers_some (pair ∷ pairs) = covers (pair ∷ pairs)

abbrev check_history : Proposal → Option SimilarTransaction → EvidenceResult
check_history p none = refuses evidence_history_invalid
check_history p (some t) = covers_some (matching_pairs p t)

abbrev pub is_selected_category : Proposal → String → Bool
is_selected_category p id = any (λ line. str_eq line.category_qbo_id id) p.lines

abbrev pub is_selected_tax : Proposal → String → Bool
is_selected_tax p id = any (λ line. opt_str_eq line.tax_code_qbo_id (some id)) p.lines

abbrev check_reference : Bool → FailureCode → Bool → FailureCode → EvidenceResult
check_reference available invalid selected inconsistent =
    if available then (if selected then covers [] else refuses inconsistent) else refuses invalid

unfoldable pub check_evidence : Snapshot → Proposal → Evidence → EvidenceResult
check_evidence s p (rule id) = check_rule p (rule_of s id)
check_evidence s p (similar_transaction id) = check_history p (history_of s id)
check_evidence s p (category id) =
    check_reference (has s.candidate_categories id) evidence_category_invalid
      (is_selected_category p id) evidence_category_inconsistent
check_evidence s p (tax_code id) =
    check_reference (has s.tax_references id) evidence_tax_invalid (is_selected_tax p id)
      evidence_tax_inconsistent

-- The loop over the evidence, which collects the pairs, and the test of them after it.
unfoldable pub walk_evidence : Snapshot → Proposal → List Evidence → List Pair → Option FailureCode
unfolding check_evidence
walk_evidence s p [] evidenced =
    refuse_if (any (λ line. not (has_pair evidenced (line_pair line))) p.lines)
      evidence_pair_inconsistent
walk_evidence s p (e ∷ es) evidenced = elim (check_evidence s p e) [
  | refuses code ↦ some code
  | covers pairs ↦ walk_evidence s p es (pairs ++ evidenced)
]

unfoldable pub failure_of : Snapshot → Proposal → Option FailureCode
unfolding check_amounts check_categories check_tags check_tax evidence_key walk_evidence
failure_of s p =
    check_amounts s.signed_amount_cents (pos 0) p.lines
    orelse check_categories s p
    orelse check_tags s.tags (tag_lists p)
    orelse check_tax s p
    orelse refuse_if (has_duplicate (map evidence_key p.evidence)) evidence_reference_duplicate
    orelse walk_evidence s p p.evidence []

unfoldable pub verify_agent_decision : Snapshot → AgentDecision → AgentVerification
unfolding failure_of
verify_agent_decision s (abstain reason rationale) = decision_abstain (abstain reason rationale)
verify_agent_decision s (proposal p) = elim (failure_of s p) [
  | some code ↦ rejected code (failure_message code)
  | none ↦ decision_verified (proposal p)
]
