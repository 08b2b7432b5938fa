-- ===== src/Tax/Inverse/Tests.antt =====
-- server/src/lib/qbo/purchaseTax.ts: net amounts at a rate of five percent.
use recat_qbo.Prelude.Shared.{ℕ, ◌≡◌, ◌↔◌, refl, Option, none, some, arith}
use recat_qbo.Tax.Inverse.{
  round_ratio, turn, search, exact_monotone_inverse, group_total, line_total,
}
use recat_qbo.Tax.Inverse.Nets.{group_net-total, line_net-total}

group_search : exact_monotone_inverse 1_050 (group_total 5 100) ≡ some (some 1_000)
unfolding search turn round_ratio
group_search = refl

group_search_fails : exact_monotone_inverse 10 (group_total 5 100) ≡ some none
unfolding search turn round_ratio
group_search_fails = refl

group_net-total_example :
    (r : Option ℕ) × ((exact_monotone_inverse 1_050 (group_total 5 100) ≡ some r)
      × ((net : ℕ) → (r ≡ some net) ↔ (group_total 5 100 net ≡ 1_050)))
group_net-total_example = group_net-total 5 100 1_050 (omega arith)

line_net-total_example :
    (r : Option ℕ) × ((exact_monotone_inverse 32 (line_total 5 100 1) ≡ some r)
      × ((net : ℕ) → (r ≡ some net) ↔ (line_total 5 100 1 net ≡ 32)))
line_net-total_example = line_net-total 5 100 1 32 (omega arith)
