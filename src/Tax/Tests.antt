-- ===== src/Tax/Tests.antt =====
-- services/tax/verify.ts: a purchase of two lines and a deposit of two lines, read back.
use recat_qbo.Prelude.Shared.{◌≡◌, refl, Bool, false, [], ◌∷◌, none, some}
use recat_qbo.Prelude.Int.{pos, negsuc}
use recat_qbo.Tax.Hashes.{Hash, drift}
use recat_qbo.Tax.Matching.{match_all, take_first}
use recat_qbo.Tax.Purchase.{
  PurchaseLine, PurchaseSnapshot, PurchaseExpected, purchase, canonical_purchase_line_hash,
}
use recat_qbo.Tax.Purchase.Accounted as PurchaseAccounted
use recat_qbo.Tax.Deposit.{
  DepositLine, DepositSnapshot, DepositExpected, verify_deposit_result, deposit_tests, is_untouched,
  is_deposit_target, canonical_deposit_line_hash, target_deposit_line_hash,
}
use recat_qbo.Tax.Deposit.Accounted as DepositAccounted

abbrev unordered : Hash → Hash → Bool
unordered a b = false

abbrev meals : PurchaseLine
meals = record {
  id = some "1";
  amount_cents = pos 2857;
  description = none;
  account_qbo_id = some "61";
  customer_qbo_id = none;
  class_qbo_id = none;
  tax_code_qbo_id = some "5";
  tax_amount_cents = none;
  tax_inclusive_cents = some (pos 3000);
  raw_hash = some "aa";
  category_only_hash = none;
}

abbrev fuel : PurchaseLine
fuel = record meals {
  id = some "2";
  amount_cents = pos 1000;
  account_qbo_id = some "70";
  tax_inclusive_cents = some (pos 1050);
  raw_hash = some "bb";
}

-- The lines come back in another order, and the total tax is left out.
abbrev actual : PurchaseSnapshot
actual = record {
  qbo_id = "31";
  total_cents = pos 4050;
  account_qbo_id = some "9";
  date = "2024-05-01";
  direction = purchase;
  global_tax_calculation = some "TaxInclusive";
  total_tax_cents = none;
  preserved_hash = none;
  lines = fuel ∷ meals ∷ [];
}

abbrev expected : PurchaseExpected
expected = record {
  qbo_id = "31";
  tax_disposition = none;
  total_cents = pos 4050;
  account_qbo_id = some "9";
  date = "2024-05-01";
  direction = purchase;
  global_tax_calculation = some "TaxInclusive";
  total_tax_cents = some (pos 193);
  preserved_hash = none;
  target_lines = meals ∷ [];
  untouched_line_hashes = canonical_purchase_line_hash fuel ∷ [];
}

abbrev sales : DepositLine
sales = record {
  id = some "1";
  amount_cents = pos 500;
  description = some "sales";
  account_qbo_id = some "80";
  entity_qbo_id = none;
  payment_method_qbo_id = none;
  class_qbo_id = none;
  tax_code_qbo_id = none;
  tax_applicable_on = none;
  raw_hash = "cc";
  target_hash = "t1";
}

abbrev fees : DepositLine
fees = record sales {
  id = some "2";
  amount_cents = negsuc 24;
  account_qbo_id = some "81";
  target_hash = "t2";
}

abbrev deposit : DepositSnapshot
deposit = record {
  qbo_id = "32";
  total_cents = pos 475;
  deposit_to_account_qbo_id = some "9";
  date = "2024-05-02";
  global_tax_calculation = none;
  total_tax_cents = none;
  preserved_hash = "pp";
  lines = fees ∷ sales ∷ [];
}

abbrev deposit_expected : DepositExpected
deposit_expected = DepositAccounted.expect_deposit deposit (sales ∷ []) (fees ∷ [])

-- A line more than expected is a drift.
extra_line :
    verify_deposit_result (record deposit_expected { target_lines = [] }) deposit
    ≡ drift "Untouched Deposit lines changed."
unfolding verify_deposit_result deposit_tests is_untouched is_deposit_target match_all take_first
    canonical_deposit_line_hash target_deposit_line_hash
extra_line = refl
