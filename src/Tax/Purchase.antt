-- ===== src/Tax/Purchase.antt =====
-- services/tax/verify.ts, with the line tests of lib/qbo/purchaseTax.ts: whether the purchase that is
-- read back from QuickBooks is what was meant to be written. Cents are integers.
pub mod Lines
pub mod Accounted
use recat_qbo.Prelude.Shared.{
  ℕ, Bool, true, false, ◌&&◌, ◌||◌, not, List, [], ◌∷◌, map, Option, none, some, String, ltb, leb,
  ◌==◌, if◌then◌else◌, str_eq, opt_str_eq, is_none, length,
}
use recat_qbo.Prelude.Int.{ℤ, pos, ◌+ℤ◌, ◌-ℤ◌, eq_ℤ, abs_ℤ}
use recat_qbo.Prelude.Texts.{is_blank}
use recat_qbo.Tax.Hashes.{
  JsonValue, null, text, number, same_value, Hash, same_hash, text_or_null, number_or_null,
  opt_eq_ℤ, VerificationResult, verified, drift, is_mode, same_text, first_drift, sort_hashes,
  same_hashes,
}
use recat_qbo.Tax.Matching.{match_all}

pub record PurchaseLine : Type 0 where
  pub id : Option String
  pub amount_cents : ℤ
  pub description : Option String
  pub account_qbo_id : Option String
  pub customer_qbo_id : Option String
  pub class_qbo_id : Option String
  pub tax_code_qbo_id : Option String
  pub tax_amount_cents : Option ℤ
  pub tax_inclusive_cents : Option ℤ
  pub raw_hash : Option String
  pub category_only_hash : Option String

pub data Direction : Type 0 where
  purchase refund : Direction

abbrev pub same_direction : Direction → Direction → Bool
same_direction purchase purchase = true
same_direction refund refund = true
same_direction _ _ = false

pub data TaxDisposition : Type 0 where
  set preserve_current : TaxDisposition

pub record PurchaseSnapshot : Type 0 where
  pub qbo_id : String
  pub total_cents : ℤ
  pub account_qbo_id : Option String
  pub date : String
  pub direction : Direction
  pub global_tax_calculation : Option String
  pub total_tax_cents : Option ℤ
  pub preserved_hash : Option String
  pub lines : List PurchaseLine

pub record PurchaseExpected : Type 0 where
  pub qbo_id : String
  pub tax_disposition : Option TaxDisposition
  pub total_cents : ℤ
  pub account_qbo_id : Option String
  pub date : String
  pub direction : Direction
  pub global_tax_calculation : Option String
  pub total_tax_cents : Option ℤ
  pub preserved_hash : Option String
  pub target_lines : List PurchaseLine
  pub untouched_line_hashes : List Hash

abbrev pub effective_line_tax_cents : PurchaseLine → Option ℤ
effective_line_tax_cents line = elim line.tax_amount_cents [
  | some tax ↦ some tax
  | none ↦ elim line.tax_inclusive_cents [
    | none ↦ none
    | some gross ↦ some (gross -ℤ line.amount_cents)
  ]
]

unfoldable pub canonical_purchase_line_hash : PurchaseLine → Hash
canonical_purchase_line_hash line =
    text_or_null line.raw_hash
    ∷ text_or_null line.id
    ∷ number line.amount_cents
    ∷ text_or_null line.description
    ∷ text_or_null line.account_qbo_id
    ∷ text_or_null line.customer_qbo_id
    ∷ text_or_null line.class_qbo_id
    ∷ text_or_null line.tax_code_qbo_id
    ∷ number_or_null line.tax_amount_cents
    ∷ number_or_null line.tax_inclusive_cents
    ∷ []

unfoldable pub target_line_hash : PurchaseLine → Hash
target_line_hash line =
    number line.amount_cents
    ∷ text_or_null line.description
    ∷ text_or_null line.account_qbo_id
    ∷ text_or_null line.customer_qbo_id
    ∷ text_or_null line.class_qbo_id
    ∷ text_or_null line.tax_code_qbo_id
    ∷ number_or_null (effective_line_tax_cents line)
    ∷ number_or_null line.tax_inclusive_cents
    ∷ []

abbrev pub is_preserve : Option TaxDisposition → Bool
is_preserve (some preserve_current) = true
is_preserve _ = false

-- The loop of `omittedInclusiveTotalTaxMatches`; `none` is its return from the middle.
unfoldable pub derived_tax : ℤ → List PurchaseLine → Option ℤ
derived_tax total [] = some total
derived_tax total (line ∷ lines) = elim (effective_line_tax_cents line) [
  | some tax ↦ derived_tax (total +ℤ tax) lines
  | none ↦ elim line.tax_code_qbo_id [ none ↦ derived_tax total lines | some code ↦ none ]
]

unfoldable pub omitted_inclusive_total_tax_matches : Option ℤ → PurchaseSnapshot → Bool
unfolding derived_tax
omitted_inclusive_total_tax_matches expected actual =
    opt_eq_ℤ actual.total_tax_cents expected
    || (is_none actual.total_tax_cents
        && (not (is_none expected)
            && (is_mode "TaxInclusive" actual.global_tax_calculation
                && elim (derived_tax (pos 0) actual.lines) [
                  | none ↦ false
                  | some total ↦ opt_eq_ℤ (some total) expected
                ])))

abbrev pub differs_by_one : Option ℤ → Option ℤ → Bool
differs_by_one (some a) (some b) = abs_ℤ (a -ℤ b) == 1
differs_by_one _ _ = false

abbrev pub only_line_within_one : ℤ → List PurchaseLine → Bool
only_line_within_one total (line ∷ []) = elim line.tax_inclusive_cents [
  | none ↦ false
  | some gross ↦ leb (abs_ℤ (total -ℤ gross)) 1
]
only_line_within_one total _ = false

abbrev pub no_hashes : List Hash → Bool
no_hashes [] = true
no_hashes _ = false

unfoldable pub provider_inclusive_tax_rounding_residual_matches :
    PurchaseExpected → PurchaseSnapshot → Bool
provider_inclusive_tax_rounding_residual_matches e a =
    is_mode "TaxInclusive" e.global_tax_calculation
    && (is_mode "TaxInclusive" a.global_tax_calculation
        && (leb (abs_ℤ (e.total_cents -ℤ a.total_cents)) 1
            && (differs_by_one e.total_tax_cents a.total_tax_cents
                && (no_hashes e.untouched_line_hashes
                    && only_line_within_one e.total_cents e.target_lines))))

abbrev zero_or_unspecified_tax : Option ℤ → Bool
zero_or_unspecified_tax none = true
zero_or_unspecified_tax (some n) = eq_ℤ n (pos 0)

unfoldable pub purchase_total_tax_matches : Option String → Option ℤ → Option ℤ → Bool
purchase_total_tax_matches mode expected actual =
    opt_eq_ℤ expected actual
    || (is_mode "NotApplicable" mode
        && (zero_or_unspecified_tax expected && zero_or_unspecified_tax actual))

abbrev is_code_text : Option String → Bool
is_code_text none = false
is_code_text (some t) = not (is_blank t)

unfoldable pub purchase_target_line_matches :
    Option String → Option ℤ → Option ℤ → PurchaseLine → PurchaseLine → Option TaxDisposition → Bool
purchase_target_line_matches mode expected_tax actual_tax expected actual disposition =
    let default_code =
      not (is_preserve disposition)
      && (is_mode "NotApplicable" mode
          && (zero_or_unspecified_tax expected_tax
              && (zero_or_unspecified_tax actual_tax
                  && (is_none expected.tax_code_qbo_id
                      && (is_code_text actual.tax_code_qbo_id
                          && (is_none expected.tax_amount_cents
                              && (is_none actual.tax_amount_cents
                                  && (is_none expected.tax_inclusive_cents
                                      && is_none actual.tax_inclusive_cents)))))))) in
    let category_only =
      not (is_preserve disposition)
      || (same_text expected.id actual.id
          && same_text expected.category_only_hash actual.category_only_hash) in
    category_only
    && (eq_ℤ expected.amount_cents actual.amount_cents
        && (opt_str_eq expected.description actual.description
            && (opt_str_eq expected.account_qbo_id actual.account_qbo_id
                && (opt_str_eq expected.customer_qbo_id actual.customer_qbo_id
                    && (opt_str_eq expected.class_qbo_id actual.class_qbo_id
                        && ((opt_str_eq expected.tax_code_qbo_id actual.tax_code_qbo_id
                              || default_code)
                            && (opt_eq_ℤ expected.tax_amount_cents actual.tax_amount_cents
                                && opt_eq_ℤ expected.tax_inclusive_cents
                                    actual.tax_inclusive_cents)))))))

unfoldable pub purchase_tests : PurchaseExpected → PurchaseSnapshot → List (Bool × String)
purchase_tests e a =
    let residual = provider_inclusive_tax_rounding_residual_matches e a in
    (str_eq a.qbo_id e.qbo_id, "Purchase ID changed.")
    ∷ (eq_ℤ a.total_cents e.total_cents || residual, "Purchase total changed.")
    ∷ (opt_str_eq a.account_qbo_id e.account_qbo_id, "Purchase account changed.")
    ∷ (str_eq a.date e.date, "Purchase date changed.")
    ∷ (same_direction a.direction e.direction, "Purchase direction changed.")
    ∷ (
      opt_str_eq a.global_tax_calculation e.global_tax_calculation,
      "Purchase global tax mode changed.",
    )
    ∷ (
      not (is_preserve e.tax_disposition) || same_text e.preserved_hash a.preserved_hash,
      "Purchase preserved fields changed.",
    )
    ∷ (
      purchase_total_tax_matches e.global_tax_calculation e.total_tax_cents a.total_tax_cents
          || (omitted_inclusive_total_tax_matches e.total_tax_cents a || residual),
      "Purchase total tax changed.",
    )
    ∷ []

unfoldable pub is_target : PurchaseExpected → PurchaseSnapshot → PurchaseLine → PurchaseLine → Bool
is_target e a target line =
    purchase_target_line_matches e.global_tax_calculation e.total_tax_cents a.total_tax_cents target
      line e.tax_disposition
    || (not (is_preserve e.tax_disposition)
        && same_hash (target_line_hash line) (target_line_hash target))

abbrev pub check_remaining :
    (Hash → Hash → Bool) → PurchaseExpected → Option (List PurchaseLine) → VerificationResult
check_remaining before e none = drift "Expected target Purchase line is missing or changed."
check_remaining before e (some remaining) =
    if same_hashes (sort_hashes before (map canonical_purchase_line_hash remaining))
      (sort_hashes before e.untouched_line_hashes)
    then verified
    else drift "Untouched Purchase lines changed."

unfoldable pub verify_purchase_result :
    (Hash → Hash → Bool) → PurchaseExpected → PurchaseSnapshot → VerificationResult
unfolding purchase_tests is_target match_all sort_hashes
verify_purchase_result before e a = elim (first_drift (purchase_tests e a)) [
  | some message ↦ drift message
  | none ↦ check_remaining before e (match_all (is_target e a) e.target_lines a.lines)
]
