-- ===== src/Tax/Allocation.antt =====
-- server/src/lib/qbo/purchaseTax.ts: the tax of a group of lines, and its cents on the lines.
use recat_qbo.Prelude.Shared.{
  ℕ, suc, ◌+◌, ◌*◌, ◌/◌, ◌%◌, Bool, true, false, ◌||◌, ◌&&◌, List, [], ◌∷◌, map, Option, none, some,
  ltb, leb, ◌==◌, if◌then◌else◌,
}
use recat_qbo.Prelude.Int.{ℤ, pos, negsuc, ◌+ℤ◌, ◌-ℤ◌, neg_ℤ, abs_ℤ, eq_ℤ, sub_ℕ}
use recat_qbo.Tax.Inverse.{round_ratio}
pub mod Magnitudes
pub mod Exact
mod Tests

-- A rate in percent, as an exact fraction.
pub record Ratio : Type 0 where
  pub numerator : ℕ
  pub denominator : ℕ

-- A line at one of the group's indexes.
pub record Member : Type 0 where
  pub index : ℕ
  pub gross_cents : ℤ

-- `Number.MAX_SAFE_INTEGER`
abbrev pub max_safe_integer : ℕ
max_safe_integer = 9_007_199_254_740_991

abbrev pub is_safe : ℤ → Bool
is_safe n = leb (abs_ℤ n) max_safe_integer

-- `toSafeCents`, `none` where it throws.
abbrev pub to_safe_cents : ℤ → Option ℤ
to_safe_cents value = if is_safe value then some value else none

-- The loop of `sumSafe`, from a total.
unfoldable pub sum_from : ℤ → List ℤ → Option ℤ
sum_from total [] = some total
sum_from total (value ∷ values) =
    let next = total +ℤ value in
    let rest = sum_from next values in if is_safe next then rest else none

-- `sumSafe`
abbrev pub sum_safe : List ℤ → Option ℤ
sum_safe values = sum_from (pos 0) values

-- A product with a number that is not negative.
abbrev pub scaled : ℤ → ℕ → ℤ
scaled (pos n) k = pos (n * k)
scaled (negsuc n) k = neg_ℤ (pos (suc n * k))

-- `roundRatio`
abbrev pub round_ratio_ℤ : ℤ → ℕ → ℤ
round_ratio_ℤ (pos n) d = pos (round_ratio n d)
round_ratio_ℤ (negsuc n) d = neg_ℤ (pos (round_ratio (suc n) d))

abbrev pub tax_denominator : Ratio → ℕ
tax_denominator rate = rate.denominator * 100

-- `targetTax`
abbrev pub target_tax : List Member → Ratio → Option ℤ
target_tax members rate = elim (sum_safe (map (λ m. m.gross_cents) members)) [
  | none ↦ none
  | some base ↦ to_safe_cents (round_ratio_ℤ (scaled base rate.numerator) (tax_denominator rate))
]

pub record Share : Type 0 where
  pub index : ℕ
  pub tax_cents : ℕ
  pub remainder : ℕ

abbrev pub share_of : Ratio → Member → Share
share_of rate m =
    let numerator = abs_ℤ m.gross_cents * rate.numerator in
    record {
      index = m.index;
      tax_cents = numerator / tax_denominator rate;
      remainder = numerator % tax_denominator rate;
    }

-- `floorTotal`, and the same sum later on.
unfoldable pub total_cents : List Share → ℕ
total_cents [] = 0
total_cents (s ∷ shares) = s.tax_cents + total_cents shares

-- The larger remainder first, then the smaller index.
abbrev pub has_priority : Share → Share → Bool
has_priority left right =
    ltb right.remainder left.remainder
    || (left.remainder == right.remainder && leb left.index right.index)

unfoldable pub insert : Share → List Share → List Share
insert s [] = s ∷ []
insert s (t ∷ shares) =
    let rest = insert s shares in if has_priority s t then s ∷ t ∷ shares else t ∷ rest

-- `priority`
unfoldable pub by_priority : List Share → List Share
by_priority [] = []
by_priority (s ∷ shares) = insert s (by_priority shares)

abbrev pub with_cent : Share → Share
with_cent s = record s { tax_cents = s.tax_cents + 1 }

-- The loop that gives the cents that are left: it stops at 0 alone.
unfoldable pub give_cents : ℤ → List Share → List Share
give_cents cents [] = []
give_cents cents (s ∷ shares) =
    let rest = give_cents (cents -ℤ pos 1) shares in
    if eq_ℤ cents (pos 0) then s ∷ shares else with_cent s ∷ rest

pub record Part : Type 0 where
  pub index : ℕ
  pub tax_cents : ℤ

-- What ends the function: a reason, an error of `toSafeCents`, or the cents that each line takes.
pub data Allocated : Type 0 where
  tax_amount_invalid : Allocated
  thrown : Allocated
  allocated : List Part → Allocated

-- `sign`, times a number.
abbrev pub signed : ℤ → ℕ → ℤ
signed (pos t) n = pos n
signed (negsuc t) n = neg_ℤ (pos n)

-- The last loop, which adds to the lines.
unfoldable pub parts_of : ℤ → List Share → Allocated
parts_of target [] = allocated []
parts_of target (s ∷ shares) = elim (to_safe_cents (signed target s.tax_cents)) [
  | none ↦ thrown
  | some cents ↦ elim (parts_of target shares) [
    | allocated parts ↦ allocated (record { index = s.index; tax_cents = cents } ∷ parts)
    | other ↦ other
  ]
]

-- `allocateExcludedTax`. The objects of `priority` are those of `shares`, whose cents the last loop adds
-- to lines of their own; they are listed in the order of `priority`.
unfoldable pub allocate_excluded_tax : List Member → Ratio → Allocated
allocate_excluded_tax members rate = elim (target_tax members rate) [
  | none ↦ tax_amount_invalid
  | some target ↦
      let shares = map (share_of rate) members in
      parts_of target (give_cents (sub_ℕ (abs_ℤ target) (total_cents shares)) (by_priority shares))
]
