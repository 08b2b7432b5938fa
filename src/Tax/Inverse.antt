-- ===== src/Tax/Inverse.antt =====
-- server/src/lib/qbo/purchaseTax.ts: the search for the net amount whose total with tax is a given one.
-- Amounts and rates are the magnitudes that `inverseGroup` hands on, which are not negative.
use recat_qbo.Prelude.Shared.{
  ℕ, zero, suc, ◌+◌, ◌-◌, ◌*◌, ◌/◌, ◌%◌, Option, none, some, ltb, leb, ◌==◌, if◌then◌else◌,
}
pub mod Found
pub mod Nets
mod Tests

-- `roundRatio` of a numerator that is not negative: the nearest number, half a unit upwards.
unfoldable pub round_ratio : ℕ → ℕ → ℕ
round_ratio n d = if leb d (n % d * 2) then n / d + 1 else n / d

-- A turn of the loop: it ends, it returns, or it goes on between other bounds.
pub data Turn : Type 0 where
  ended : Turn
  returned : ℕ → Turn
  narrowed : ℕ → ℕ → Turn

-- `above` is the source's `high + 1`: its `high` may be -1.
unfoldable pub turn : (ℕ → ℕ) → ℕ → ℕ → ℕ → Turn
turn value_at target low above =
    let middle = (low + (above - 1)) / 2 in
    let value = value_at middle in
    if ltb low above
    then (if value == target
        then returned middle
        else (if ltb value target then narrowed (middle + 1) above else narrowed low middle))
    else ended

-- The loop, on fuel: the outer `none` is a loop that has not come to its end.
unfoldable pub search : (ℕ → ℕ) → ℕ → ℕ → ℕ → ℕ → Option (Option ℕ)
search value_at target zero low above = none
search value_at target (suc fuel) low above = elim (turn value_at target low above) [
  | ended ↦ some none
  | returned middle ↦ some (some middle)
  | narrowed l a ↦ search value_at target fuel l a
]

-- `exactMonotoneInverse`: each turn takes a number out of the range, so that the fuel is enough.
abbrev pub exact_monotone_inverse : ℕ → (ℕ → ℕ) → Option (Option ℕ)
exact_monotone_inverse target value_at = search value_at target (target + 2) 0 (target + 1)

-- The total of a group, whose tax is rounded once.
abbrev pub group_total : ℕ → ℕ → ℕ → ℕ
group_total numerator tax_denominator net = net + round_ratio (net * numerator) tax_denominator

-- The total of a line, whose tax is rounded down, with the cent that it may have been given.
abbrev pub line_total : ℕ → ℕ → ℕ → ℕ → ℕ
line_total numerator tax_denominator bonus net = net + net * numerator / tax_denominator + bonus
