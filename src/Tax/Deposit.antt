-- ===== src/Tax/Deposit.antt =====
-- services/tax/verify.ts: whether the deposit that is read back from QuickBooks is what was meant to be
-- written.
pub mod Accounted
use recat_qbo.Prelude.Shared.{
  ℕ, Bool, true, false, ◌&&◌, ◌||◌, not, List, [], ◌∷◌, map, Option, none, some, String, ltb, leb,
  ◌==◌, if◌then◌else◌, str_eq, opt_str_eq, is_none, length,
}
use recat_qbo.Prelude.Int.{ℤ, pos, ◌+ℤ◌, ◌-ℤ◌, eq_ℤ, abs_ℤ}
use recat_qbo.Tax.Hashes.{
  JsonValue, null, text, number, same_value, Hash, same_hash, text_or_null, number_or_null,
  opt_eq_ℤ, VerificationResult, verified, drift, is_mode, same_text, first_drift, sort_hashes,
  same_hashes,
}
use recat_qbo.Tax.Matching.{match_all}

pub record DepositLine : Type 0 where
  pub id : Option String
  pub amount_cents : ℤ
  pub description : Option String
  pub account_qbo_id : Option String
  pub entity_qbo_id : Option String
  pub payment_method_qbo_id : Option String
  pub class_qbo_id : Option String
  pub tax_code_qbo_id : Option String
  pub tax_applicable_on : Option String
  pub raw_hash : String
  pub target_hash : String

pub record DepositSnapshot : Type 0 where
  pub qbo_id : String
  pub total_cents : ℤ
  pub deposit_to_account_qbo_id : Option String
  pub date : String
  pub global_tax_calculation : Option String
  pub total_tax_cents : Option ℤ
  pub preserved_hash : String
  pub lines : List DepositLine

pub record DepositExpected : Type 0 where
  pub qbo_id : String
  pub total_cents : ℤ
  pub deposit_to_account_qbo_id : Option String
  pub date : String
  pub global_tax_calculation : Option String
  pub total_tax_cents : Option ℤ
  pub preserved_hash : String
  pub target_lines : List DepositLine
  pub untouched_line_hashes : List Hash

unfoldable pub canonical_deposit_line_hash : DepositLine → Hash
canonical_deposit_line_hash line =
    text line.raw_hash
    ∷ text_or_null line.id
    ∷ number line.amount_cents
    ∷ text_or_null line.description
    ∷ text_or_null line.account_qbo_id
    ∷ text_or_null line.entity_qbo_id
    ∷ text_or_null line.payment_method_qbo_id
    ∷ text_or_null line.class_qbo_id
    ∷ text_or_null line.tax_code_qbo_id
    ∷ text_or_null line.tax_applicable_on
    ∷ []

unfoldable pub target_deposit_line_hash : DepositLine → Hash
target_deposit_line_hash line =
    text line.target_hash
    ∷ number line.amount_cents
    ∷ text_or_null line.description
    ∷ text_or_null line.account_qbo_id
    ∷ text_or_null line.entity_qbo_id
    ∷ text_or_null line.payment_method_qbo_id
    ∷ text_or_null line.class_qbo_id
    ∷ text_or_null line.tax_code_qbo_id
    ∷ text_or_null line.tax_applicable_on
    ∷ []

unfoldable pub deposit_tests : DepositExpected → DepositSnapshot → List (Bool × String)
deposit_tests e a =
    (str_eq a.qbo_id e.qbo_id, "Deposit ID changed.")
    ∷ (eq_ℤ a.total_cents e.total_cents, "Deposit total changed.")
    ∷ (
      opt_str_eq a.deposit_to_account_qbo_id e.deposit_to_account_qbo_id,
      "Deposit account changed.",
    )
    ∷ (str_eq a.date e.date, "Deposit date changed.")
    ∷ (
      opt_str_eq a.global_tax_calculation e.global_tax_calculation,
      "Deposit global tax mode changed.",
    )
    ∷ (opt_eq_ℤ a.total_tax_cents e.total_tax_cents, "Deposit total tax changed.")
    ∷ (str_eq a.preserved_hash e.preserved_hash, "Deposit preserved fields changed.")
    ∷ []

unfoldable pub is_untouched : Hash → DepositLine → Bool
is_untouched hash line = same_hash (canonical_deposit_line_hash line) hash

unfoldable pub is_deposit_target : DepositLine → DepositLine → Bool
is_deposit_target target line =
    (is_none target.id || opt_str_eq line.id target.id)
    && same_hash (target_deposit_line_hash line) (target_deposit_line_hash target)

abbrev pub check_rest : Option (List DepositLine) → VerificationResult
check_rest none = drift "Expected target Deposit line is missing or changed."
check_rest (some []) = verified
check_rest (some (line ∷ lines)) = drift "Untouched Deposit lines changed."

abbrev pub check_targets : DepositExpected → Option (List DepositLine) → VerificationResult
check_targets e none = drift "Untouched Deposit lines changed."
check_targets e (some remaining) = check_rest (match_all is_deposit_target e.target_lines remaining)

unfoldable pub verify_deposit_result : DepositExpected → DepositSnapshot → VerificationResult
unfolding deposit_tests is_untouched is_deposit_target match_all
verify_deposit_result e a = elim (first_drift (deposit_tests e a)) [
  | some message ↦ drift message
  | none ↦ check_targets e (match_all is_untouched e.untouched_line_hashes a.lines)
]
