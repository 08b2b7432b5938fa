-- ===== src/RowStage/Desired.antt =====
-- client/src/pages/queue/rowStageCoordinator.ts: `sameDesired` decides equality of what is desired.
use recat_qbo.Prelude.Shared.{
  ◌≡◌, ◌↔◌, Bool, true, false, ◌&&◌, List, [], ◌∷◌, Option, String, str_eq, str_eq_iff, opt_str_eq,
  opt_str_eq_iff, arith,
}
use recat_qbo.Prelude.Int.{ℤ, eq_ℤ, eq_ℤ_iff}

pub data TaxCalculation : Type 0 where
  tax_inclusive tax_excluded not_applicable : TaxCalculation

abbrev pub same_calculation : TaxCalculation → TaxCalculation → Bool
same_calculation tax_inclusive tax_inclusive = true
same_calculation tax_excluded tax_excluded = true
same_calculation not_applicable not_applicable = true
same_calculation _ _ = false

pub record DesiredLine : Type 0 where
  pub gross_cents : ℤ
  pub category_qbo_id : String
  pub tax_code_qbo_id : Option String
  pub memo : Option String
  pub tag_ids : List String

pub record DesiredStage : Type 0 where
  pub tax_calculation : TaxCalculation
  pub lines : List DesiredLine
  pub tag_ids : List String

-- `sameStrings`: the lengths and the values agree.
unfoldable pub same_strings : List String → List String → Bool
same_strings [] [] = true
same_strings (a ∷ as') (b ∷ bs) = str_eq a b && same_strings as' bs
same_strings _ _ = false

unfoldable pub same_line : DesiredLine → DesiredLine → Bool
same_line a b =
    eq_ℤ a.gross_cents b.gross_cents
    && (str_eq a.category_qbo_id b.category_qbo_id
        && (opt_str_eq a.tax_code_qbo_id b.tax_code_qbo_id
            && (opt_str_eq a.memo b.memo && same_strings a.tag_ids b.tag_ids)))

unfoldable pub same_lines : List DesiredLine → List DesiredLine → Bool
same_lines [] [] = true
same_lines (a ∷ as') (b ∷ bs) = same_line a b && same_lines as' bs
same_lines _ _ = false

unfoldable pub same_desired : DesiredStage → DesiredStage → Bool
unfolding same_strings same_line same_lines
same_desired a b =
    same_calculation a.tax_calculation b.tax_calculation
    && (same_strings a.tag_ids b.tag_ids && same_lines a.lines b.lines)

same_strings_iff : (as' bs : List String) → (same_strings as' bs ≡ true) ↔ (as' ≡ bs)
unfolding same_strings
same_strings_iff [] [] = ground arith
same_strings_iff [] (b ∷ bs) = ground arith
same_strings_iff (a ∷ as') [] = ground arith
same_strings_iff (a ∷ as') (b ∷ bs) = ground (arith, str_eq_iff a b, same_strings_iff as' bs)

same_line_iff : (a b : DesiredLine) → (same_line a b ≡ true) ↔ (a ≡ b)
unfolding same_line
same_line_iff a b = ground (
  arith,
  eq_ℤ_iff a.gross_cents b.gross_cents,
  str_eq_iff a.category_qbo_id b.category_qbo_id,
  opt_str_eq_iff a.tax_code_qbo_id b.tax_code_qbo_id,
  opt_str_eq_iff a.memo b.memo,
  same_strings_iff a.tag_ids b.tag_ids,
)

same_lines_iff : (as' bs : List DesiredLine) → (same_lines as' bs ≡ true) ↔ (as' ≡ bs)
unfolding same_lines
same_lines_iff [] [] = ground arith
same_lines_iff [] (b ∷ bs) = ground arith
same_lines_iff (a ∷ as') [] = ground arith
same_lines_iff (a ∷ as') (b ∷ bs) = ground (arith, same_line_iff a b, same_lines_iff as' bs)

same_calculation_iff : (a b : TaxCalculation) → (same_calculation a b ≡ true) ↔ (a ≡ b)
same_calculation_iff a b = ground arith

-- `sameDesired` says yes exactly when all that is desired is equal, lines and tags in order.
pub same_desired_iff : (a b : DesiredStage) → (same_desired a b ≡ true) ↔ (a ≡ b)
unfolding same_desired
same_desired_iff a b = ground (
  arith,
  same_calculation_iff a.tax_calculation b.tax_calculation,
  same_strings_iff a.tag_ids b.tag_ids,
  same_lines_iff a.lines b.lines,
)
