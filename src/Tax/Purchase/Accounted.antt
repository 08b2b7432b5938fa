-- ===== src/Tax/Purchase/Accounted.antt =====
-- services/tax/verify.ts: every line of a purchase that is verified is accounted for.
use recat_qbo.Prelude.Shared.{
  ◌≤◌, ◌≡◌, ◌⊎◌, Bool, true, List, [], ◌∷◌, ◌++◌, map, none, some, arith, str_eq_iff,
  opt_str_eq_iff, Option-cases, inl, inr,
}
use mathlib.Core.List.{Perm}
use recat_qbo.Prelude.Int.{eq_ℤ_iff, abs_ℤ, ◌-ℤ◌}
use recat_qbo.Tax.Hashes.{
  Hash, same_hash_refl, same_hashes_iff, sort_hashes, sorted_equal-Perm, verified, first_drift,
  opt_eq_ℤ_iff,
}
use recat_qbo.Tax.Matching.{match_all, Matched, nothing, next, match_all_sound, match_all_first}
use recat_qbo.Tax.Purchase.{
  PurchaseLine, PurchaseSnapshot, PurchaseExpected, canonical_purchase_line_hash, target_line_hash,
  purchase_tests, is_target, verify_purchase_result,
  provider_inclusive_tax_rounding_residual_matches, purchase_total_tax_matches,
}
use recat_qbo.Tax.Purchase.Lines.{Matched-Written, Written, same_direction_iff}

-- The header is as expected, and the total too, but for a cent where QuickBooks rounds tax that is
-- included.
abbrev pub SameHeader : PurchaseExpected → PurchaseSnapshot → Type 0
SameHeader e a =
    (a.qbo_id ≡ e.qbo_id)
    × ((a.account_qbo_id ≡ e.account_qbo_id)
        × ((a.date ≡ e.date)
            × ((a.direction ≡ e.direction)
                × ((a.global_tax_calculation ≡ e.global_tax_calculation)
                    × ((a.total_cents ≡ e.total_cents)
                        ⊎ ((e.global_tax_calculation ≡ some "TaxInclusive")
                            × (abs_ℤ (e.total_cents -ℤ a.total_cents) ≤ 1)))))))

-- The lines are, in some order, one for each that was to be written, and others that have, in some
-- order, the hashes of those that were to stay.
abbrev pub AllAccounted : PurchaseExpected → PurchaseSnapshot → Type 0
AllAccounted e a =
    (written : List PurchaseLine) × (kept : List PurchaseLine) × (Written e.target_lines written
      × (Perm a.lines (written ++ kept)
          × Perm (map canonical_purchase_line_hash kept) e.untouched_line_hashes))

residual_within :
    (e : PurchaseExpected) (a : PurchaseSnapshot)
    → provider_inclusive_tax_rounding_residual_matches e a ≡ true
    → (e.global_tax_calculation ≡ some "TaxInclusive")
      × (abs_ℤ (e.total_cents -ℤ a.total_cents) ≤ 1)
unfolding provider_inclusive_tax_rounding_residual_matches
residual_within e a h =
    ground (arith, opt_str_eq_iff e.global_tax_calculation (some "TaxInclusive"))

purchase_tests_sound :
    (e : PurchaseExpected) (a : PurchaseSnapshot)
    → first_drift (purchase_tests e a) ≡ none
    → SameHeader e a
unfolding purchase_tests
purchase_tests_sound e a h = ground (
  arith,
  str_eq_iff a.qbo_id e.qbo_id,
  eq_ℤ_iff a.total_cents e.total_cents,
  opt_str_eq_iff a.account_qbo_id e.account_qbo_id,
  str_eq_iff a.date e.date,
  same_direction_iff a.direction e.direction,
  opt_str_eq_iff a.global_tax_calculation e.global_tax_calculation,
  residual_within e a,
)

pub purchase_accounted :
    (before : Hash → Hash → Bool) (e : PurchaseExpected) (a : PurchaseSnapshot)
    → verify_purchase_result before e a ≡ verified
    → SameHeader e a × AllAccounted e a
unfolding verify_purchase_result
purchase_accounted before e a h = elim (Option-cases (first_drift (purchase_tests e a))) [
  | inr (message, failed) ↦ absurd (ground (arith, failed))
  | inl passed ↦ elim (Option-cases (match_all (is_target e a) e.target_lines a.lines)) [
    | inl missing ↦ absurd (ground (arith, passed, missing))
    | inr (kept, found) ↦
        let written = match_all_sound (is_target e a) e.target_lines a.lines kept found in
        let equal : sort_hashes before (map canonical_purchase_line_hash kept)
            ≡ sort_hashes before e.untouched_line_hashes =
          ground (
            arith,
            passed,
            found,
            same_hashes_iff (sort_hashes before (map canonical_purchase_line_hash kept))
                (sort_hashes before e.untouched_line_hashes),
          ) in
        (
          purchase_tests_sound e a passed,
          (
            written.0,
            kept,
            (
              Matched-Written e a e.target_lines written.0 written.1.0,
              (
                written.1.1,
                sorted_equal-Perm before (map canonical_purchase_line_hash kept)
                    e.untouched_line_hashes equal,
              ),
            ),
          ),
        )
  ]
]

-- What is expected if nothing else changes: the first lines are the written ones, the others stay.
abbrev pub expect_purchase :
    PurchaseSnapshot → List PurchaseLine → List PurchaseLine → PurchaseExpected
expect_purchase a written kept = record {
  qbo_id = a.qbo_id;
  tax_disposition = none;
  total_cents = a.total_cents;
  account_qbo_id = a.account_qbo_id;
  date = a.date;
  direction = a.direction;
  global_tax_calculation = a.global_tax_calculation;
  total_tax_cents = a.total_tax_cents;
  preserved_hash = a.preserved_hash;
  target_lines = written;
  untouched_line_hashes = map canonical_purchase_line_hash kept;
}

targets_match :
    (a : PurchaseSnapshot) (written kept lines : List PurchaseLine)
    → Matched (is_target (expect_purchase a written kept) a) lines lines
unfolding is_target
targets_match a written kept [] = nothing
targets_match a written kept (l ∷ lines) =
    next (ground (arith, same_hash_refl (target_line_hash l))) (targets_match a written kept lines)

header_accepted :
    (a : PurchaseSnapshot) (written kept : List PurchaseLine)
    → first_drift (purchase_tests (expect_purchase a written kept) a) ≡ none
unfolding purchase_tests purchase_total_tax_matches
header_accepted a written kept = ground (
  arith,
  str_eq_iff a.qbo_id a.qbo_id,
  eq_ℤ_iff a.total_cents a.total_cents,
  opt_str_eq_iff a.account_qbo_id a.account_qbo_id,
  str_eq_iff a.date a.date,
  same_direction_iff a.direction a.direction,
  opt_str_eq_iff a.global_tax_calculation a.global_tax_calculation,
  opt_eq_ℤ_iff a.total_tax_cents a.total_tax_cents,
)

-- A purchase that is read back as it was meant, with no tax to be preserved and the written lines
-- first, is verified.
pub purchase_accepted :
    (before : Hash → Hash → Bool) (a : PurchaseSnapshot) (written kept : List PurchaseLine)
    → a.lines ≡ written ++ kept
    → verify_purchase_result before (expect_purchase a written kept) a ≡ verified
unfolding verify_purchase_result
purchase_accepted before a written kept h =
    let e = expect_purchase a written kept in
    let found : match_all (is_target e a) written a.lines ≡ some kept = rw h (
      match_all_first (is_target e a) written written kept
        (targets_match a written kept written)) in
    let hashes = sort_hashes before (map canonical_purchase_line_hash kept) in
    ground (arith, header_accepted a written kept, found, same_hashes_iff hashes hashes)
