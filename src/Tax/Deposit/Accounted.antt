-- ===== src/Tax/Deposit/Accounted.antt =====
-- services/tax/verify.ts: every line of a deposit that is verified is accounted for.
use recat_qbo.Prelude.Shared.{
  ◌≡◌, refl, ap, ◌↔◌, true, List, [], ◌∷◌, ◌++◌, map, Option, none, some, String, arith, subst,
  opt_str_eq, str_eq_iff, opt_str_eq_iff, Option-cases, inl, inr,
}
use mathlib.Core.List.{Perm}
use mathlib.Core.List.Perm
use recat_qbo.Prelude.Int.{eq_ℤ_iff}
use recat_qbo.Tax.Hashes.{Hash, same_hash_refl, same_hash_iff, verified, first_drift, opt_eq_ℤ_iff}
use recat_qbo.Tax.Matching.{match_all, Matched, nothing, next, match_all_sound, match_all_first}
use recat_qbo.Tax.Deposit.{
  DepositLine, DepositSnapshot, DepositExpected, canonical_deposit_line_hash,
  target_deposit_line_hash, deposit_tests, is_untouched, is_deposit_target, verify_deposit_result,
  check_rest,
}

-- The header of the entity is as expected.
abbrev pub SameHeader : DepositExpected → DepositSnapshot → Type 0
SameHeader e a =
    (a.qbo_id ≡ e.qbo_id)
    × ((a.total_cents ≡ e.total_cents)
        × ((a.deposit_to_account_qbo_id ≡ e.deposit_to_account_qbo_id)
            × ((a.date ≡ e.date)
                × ((a.global_tax_calculation ≡ e.global_tax_calculation)
                    × ((a.total_tax_cents ≡ e.total_tax_cents)
                        × (a.preserved_hash ≡ e.preserved_hash))))))

-- The lines are, in some order, those that were to stay, with the hashes that they had, and one for
-- each that was to be written, with its fingerprint and, if it had one, its id.
abbrev pub AllAccounted : DepositExpected → DepositSnapshot → Type 0
AllAccounted e a =
    (kept : List DepositLine) × (written : List DepositLine) × ((map canonical_deposit_line_hash
          kept
        ≡ e.untouched_line_hashes)
      × (Matched is_deposit_target e.target_lines written × Perm a.lines (kept ++ written)))

deposit_tests_iff :
    (e : DepositExpected) (a : DepositSnapshot)
    → (first_drift (deposit_tests e a) ≡ none) ↔ SameHeader e a
unfolding deposit_tests
deposit_tests_iff e a = ground (
  arith,
  str_eq_iff a.qbo_id e.qbo_id,
  eq_ℤ_iff a.total_cents e.total_cents,
  opt_str_eq_iff a.deposit_to_account_qbo_id e.deposit_to_account_qbo_id,
  str_eq_iff a.date e.date,
  opt_str_eq_iff a.global_tax_calculation e.global_tax_calculation,
  opt_eq_ℤ_iff a.total_tax_cents e.total_tax_cents,
  str_eq_iff a.preserved_hash e.preserved_hash,
)

Matched-is_untouched :
    (hashes : List Hash) (kept : List DepositLine)
    → Matched is_untouched hashes kept
    → map canonical_deposit_line_hash kept ≡ hashes
unfolding is_untouched
Matched-is_untouched [] [] nothing = refl
Matched-is_untouched [] (l ∷ kept) m = elim m [ ]
Matched-is_untouched (h ∷ hashes) [] m = elim m [ ]
Matched-is_untouched (h ∷ hashes) (l ∷ kept) (next found m) = ground (
  arith,
  same_hash_iff (canonical_deposit_line_hash l) h,
  found,
  Matched-is_untouched hashes kept m,
)

check_rest_cases : (rest : Option (List DepositLine)) → check_rest rest ≡ verified → rest ≡ some []
check_rest_cases none h = absurd (ground arith)
check_rest_cases (some []) h = refl
check_rest_cases (some (l ∷ lines)) h = absurd (ground arith)

append_nil : (lines : List DepositLine) → lines ++ [] ≡ lines
append_nil [] = refl
append_nil (l ∷ lines) = ap (λ rest. l ∷ rest) (append_nil lines)

pub deposit_accounted :
    (e : DepositExpected) (a : DepositSnapshot)
    → verify_deposit_result e a ≡ verified
    → SameHeader e a × AllAccounted e a
unfolding verify_deposit_result
deposit_accounted e a h = elim (Option-cases (first_drift (deposit_tests e a))) [
  | inr (message, failed) ↦ absurd (ground (arith, failed))
  | inl passed ↦ elim (Option-cases (match_all is_untouched e.untouched_line_hashes a.lines)) [
    | inl missing ↦ absurd (ground (arith, passed, missing))
    | inr (remaining, found) ↦
        let whole : match_all is_deposit_target e.target_lines remaining ≡ some [] =
          check_rest_cases (match_all is_deposit_target e.target_lines remaining)
            (ground (arith, passed, found)) in
        let kept = match_all_sound is_untouched e.untouched_line_hashes a.lines remaining found in
        let written = match_all_sound is_deposit_target e.target_lines remaining [] whole in
        (
          (deposit_tests_iff e a).0 passed,
          (
            kept.0,
            written.0,
            (
              Matched-is_untouched e.untouched_line_hashes kept.0 kept.1.0,
              (
                written.1.0,
                Perm.trans kept.1.1
                    (Perm.append_left kept.0 (rw (← append_nil written.0) (written.1.1))),
              ),
            ),
          ),
        )
  ]
]

-- What is expected if nothing else changes: the first lines stay, the others are the written ones.
abbrev pub expect_deposit : DepositSnapshot → List DepositLine → List DepositLine → DepositExpected
expect_deposit a kept written = record {
  qbo_id = a.qbo_id;
  total_cents = a.total_cents;
  deposit_to_account_qbo_id = a.deposit_to_account_qbo_id;
  date = a.date;
  global_tax_calculation = a.global_tax_calculation;
  total_tax_cents = a.total_tax_cents;
  preserved_hash = a.preserved_hash;
  target_lines = written;
  untouched_line_hashes = map canonical_deposit_line_hash kept;
}

untouched_first :
    (kept : List DepositLine) → Matched is_untouched (map canonical_deposit_line_hash kept) kept
unfolding is_untouched
untouched_first [] = nothing
untouched_first (l ∷ kept) =
    next (same_hash_refl (canonical_deposit_line_hash l)) (untouched_first kept)

opt_refl : (a : Option String) → opt_str_eq a a ≡ true
opt_refl a = (opt_str_eq_iff a a).1 refl

targets_first : (written : List DepositLine) → Matched is_deposit_target written written
unfolding is_deposit_target
targets_first [] = nothing
targets_first (l ∷ written) =
    next (ground (arith, opt_refl l.id, same_hash_refl (target_deposit_line_hash l)))
      (targets_first written)

-- A deposit that is read back as it was meant, the lines that stay first, is verified.
pub deposit_accepted :
    (a : DepositSnapshot) (kept written : List DepositLine)
    → a.lines ≡ kept ++ written
    → verify_deposit_result (expect_deposit a kept written) a ≡ verified
unfolding verify_deposit_result
deposit_accepted a kept written h =
    let e = expect_deposit a kept written in
    let header : first_drift (deposit_tests e a) ≡ none =
      (deposit_tests_iff e a).1 (refl, (refl, (refl, (refl, (refl, (refl, refl)))))) in
    let first : match_all is_untouched (map canonical_deposit_line_hash kept) a.lines
        ≡ some written =
      rw h (
        match_all_first is_untouched (map canonical_deposit_line_hash kept) kept written
          (untouched_first kept)) in
    let second : match_all is_deposit_target written written ≡ some [] =
      subst (λ lines. match_all is_deposit_target written lines ≡ some []) (append_nil written)
        (match_all_first is_deposit_target written written [] (targets_first written)) in
    ground (arith, header, first, second)
