-- ===== src/Tax/Allocation/Tests.antt =====
-- server/src/lib/qbo/purchaseTax.ts: three lines at a rate of five percent.
use recat_qbo.Prelude.Shared.{◌≡◌, ◌⊎◌, refl, false, List, [], ◌∷◌, arith}
use recat_qbo.Prelude.Int.{ℤ, pos, ◌+ℤ◌, ◌-ℤ◌}
use recat_qbo.Prelude.Shared.{some, none}
use recat_qbo.Tax.Inverse.{round_ratio}
use recat_qbo.Tax.Allocation.{
  Ratio, Member, Part, tax_amount_invalid, allocated, target_tax, allocate_excluded_tax, sum_from,
  total_cents, insert, by_priority, give_cents, parts_of,
}
use recat_qbo.Tax.Allocation.Exact.{sum_parts, allocation_exact}

abbrev five_percent : Ratio
five_percent = record { numerator = 5; denominator = 1 }

abbrev bought : List Member
bought =
    record { index = 0; gross_cents = pos 10 }
    ∷ record { index = 2; gross_cents = pos 15 }
    ∷ record { index = 3; gross_cents = pos 29 }
    ∷ []

bought_allocated :
    allocate_excluded_tax bought five_percent
    ≡ allocated (
        record { index = 2; tax_cents = pos 1 }
        ∷ record { index = 0; tax_cents = pos 1 }
        ∷ record { index = 3; tax_cents = pos 1 }
        ∷ [])
unfolding allocate_excluded_tax sum_from total_cents insert by_priority give_cents parts_of
    round_ratio ◌+ℤ◌ ◌-ℤ◌
bought_allocated = refl

allocation_exact_example :
    ((target_tax bought five_percent ≡ none)
      × (allocate_excluded_tax bought five_percent ≡ tax_amount_invalid))
    ⊎ ((tax : ℤ) × ((parts : List Part) × ((target_tax bought five_percent ≡ some tax)
            × ((allocate_excluded_tax bought five_percent ≡ allocated parts)
                × (sum_parts parts ≡ tax)))))
allocation_exact_example =
    allocation_exact false bought five_percent (refl, (refl, (refl, tt))) (omega arith)
