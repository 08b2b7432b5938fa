-- ===== src/Tax/Inverse/Nets.antt =====
-- server/src/lib/qbo/purchaseTax.ts: the totals that `inverseGroup` inverts, and what `roundRatio` is.
use recat_qbo.Prelude.Shared.{
  ℕ, suc, ◌+◌, ◌*◌, ◌/◌, ◌%◌, ◌≤◌, ◌<◌, ◌≡◌, ◌↔◌, Option, some, leb, arith, Bool-cases, inl, inr,
}
use recat_qbo.Prelude.Splits.{by_if}
use recat_qbo.Tax.Inverse.{round_ratio, exact_monotone_inverse, group_total, line_total}
use recat_qbo.Tax.Inverse.Found.{Increasing, exact_monotone_inverse-total}
use native.Mathlib.Nat.{mul-le-mul_left, mul-le-mul_right}

-- The rounded ratio is the number nearest to it, and the upper one of two that are as near.
pub round_ratio_nearest :
    (n d : ℕ)
    → 0 < d
    → (2 * (d * round_ratio n d) ≤ 2 * n + d) × (2 * n + d < 2 * (d * round_ratio n d) + 2 * d)
unfolding round_ratio
round_ratio_nearest n d p =
    by_if (λ q. (2 * (d * q) ≤ 2 * n + d) × (2 * n + d < 2 * (d * q) + 2 * d)) (leb d (n % d * 2))
      (λ up. ground (arith, up, p)) (λ down. ground (arith, down, p))

-- Quotients by the same number, each within it of what is divided, are in the order of those.
pub quotients_le : (a b q r d k : ℕ) → a ≤ b → k * (d * q) ≤ a → b < k * (d * r) + k * d → q ≤ r
quotients_le a b q r d k h u v = elim (Bool-cases (leb q r)) [
  | inl e ↦ ground (arith, e)
  | inr e ↦
      let over : suc r ≤ q = ground (arith, e) in
      let w = mul-le-mul_left k (mul-le-mul_left d over) in absurd (omega (arith, h, u, v, w))
]

round_ratio_le : (a b d : ℕ) → 0 < d → a ≤ b → round_ratio a d ≤ round_ratio b d
round_ratio_le a b d p h =
    let (la, ua) = round_ratio_nearest a d p in
    let (lb, ub) = round_ratio_nearest b d p in
    quotients_le (2 * a + d) (2 * b + d) (round_ratio a d) (round_ratio b d) d 2 (omega (arith, h))
      la ub

quotient_le : (a b d : ℕ) → 0 < d → a ≤ b → a / d ≤ b / d
quotient_le a b d p h = quotients_le a b (a / d) (b / d) d 1 h (omega (arith, p)) (omega (arith, p))

group_total-Increasing : (num d : ℕ) → 0 < d → Increasing (group_total num d)
group_total-Increasing num d p a b h =
    let m : a * num ≤ b * num = mul-le-mul_right num (omega (arith, h)) in
    let le = round_ratio_le (a * num) (b * num) d p m in omega (arith, le, h)

line_total-Increasing : (num d bonus : ℕ) → 0 < d → Increasing (line_total num d bonus)
line_total-Increasing num d bonus p a b h =
    let m : a * num ≤ b * num = mul-le-mul_right num (omega (arith, h)) in
    let le = quotient_le (a * num) (b * num) d p m in omega (arith, le, h)

-- For a positive denominator, the search for the net amount of a group comes to its end for every
-- total, and gives the only amount that makes this total with its rounded tax, where there is one.
pub group_net-total :
    (num d total : ℕ)
    → 0 < d
    → (r : Option ℕ) × ((exact_monotone_inverse total (group_total num d) ≡ some r)
        × ((net : ℕ) → (r ≡ some net) ↔ (group_total num d net ≡ total)))
group_net-total num d total p =
    exact_monotone_inverse-total (group_total num d) total (group_total-Increasing num d p)
      (λ n. omega arith)

-- For a positive denominator, the search for the net amount of a line comes to its end for every
-- total, and gives the only amount that makes this total with its tax rounded down and the cent it may
-- have been given, where there is one.
pub line_net-total :
    (num d bonus total : ℕ)
    → 0 < d
    → (r : Option ℕ) × ((exact_monotone_inverse total (line_total num d bonus) ≡ some r)
        × ((net : ℕ) → (r ≡ some net) ↔ (line_total num d bonus net ≡ total)))
line_net-total num d bonus total p =
    exact_monotone_inverse-total (line_total num d bonus) total
      (line_total-Increasing num d bonus p) (λ n. omega arith)
