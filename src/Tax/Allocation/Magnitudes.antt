-- ===== src/Tax/Allocation/Magnitudes.antt =====
-- server/src/lib/qbo/purchaseTax.ts: the cents that are left after rounding every line's tax down are at
-- most as many as the lines, where these have one sign.
use recat_qbo.Prelude.Shared.{
  ℕ, ◌+◌, ◌*◌, ◌≤◌, ◌<◌, ◌≡◌, Bool, true, false, List, [], ◌∷◌, map, some, length, All, arith,
  Bool-cases, inl, inr,
}
use recat_qbo.Prelude.Int.{ℤ, pos, negsuc, pos_part, neg_part, ◌+ℤ◌, abs_ℤ}
use recat_qbo.Tax.Inverse.{round_ratio}
use recat_qbo.Tax.Inverse.Nets.{round_ratio_nearest, quotients_le}
use recat_qbo.Tax.Allocation.{
  Ratio, Member, Share, sum_from, tax_denominator, share_of, total_cents, is_safe,
}

-- A number that is not of the other sign.
abbrev pub IsOf : Bool → ℤ → Type 0
IsOf false n = neg_part n ≡ 0
IsOf true n = pos_part n ≡ 0

abbrev pub magnitude : List ℤ → ℕ
magnitude [] = 0
magnitude (n ∷ ns) = abs_ℤ n + magnitude ns

plus-IsOf :
    (negative : Bool) (a b : ℤ)
    → IsOf negative a
    → IsOf negative b
    → IsOf negative (a +ℤ b) × (abs_ℤ (a +ℤ b) ≡ abs_ℤ a + abs_ℤ b)
unfolding ◌+ℤ◌
plus-IsOf false (pos a) (pos b) h k = ground arith
plus-IsOf false (negsuc a) b h k = absurd (ground (arith, h))
plus-IsOf false (pos a) (negsuc b) h k = absurd (ground (arith, k))
plus-IsOf true (negsuc a) (negsuc b) h k = ground arith
plus-IsOf true (pos a) (pos b) h k = ground (arith, h, k)
plus-IsOf true (pos a) (negsuc b) h k = ground (arith, h)
plus-IsOf true (negsuc a) (pos b) h k = ground (arith, k)

pub sum_from-IsOf :
    (negative : Bool) (total b : ℤ) (ns : List ℤ)
    → IsOf negative total
    → All (IsOf negative) ns
    → sum_from total ns ≡ some b
    → IsOf negative b × (abs_ℤ b ≡ abs_ℤ total + magnitude ns)
unfolding sum_from
sum_from-IsOf negative total b [] h k e =
    let same : total ≡ b = ground (arith, e) in rw (← same) (h, omega arith)
sum_from-IsOf negative total b (n ∷ ns) h k e =
    let (s, p) = plus-IsOf negative total n h k.0 in
    elim (Bool-cases (is_safe (total +ℤ n))) [
      | inl safe ↦
          let rest : sum_from (total +ℤ n) ns ≡ some b = ground (arith, safe, e) in
          let (q, r) = sum_from-IsOf negative (total +ℤ n) b ns s k.1 rest in
          (q, omega (arith, p, r))
      | inr unsafe ↦ absurd (ground (arith, unsafe, e))
    ]

abbrev pub gross_of : Member → ℤ
gross_of m = m.gross_cents

abbrev total_remainder : List Share → ℕ
total_remainder [] = 0
total_remainder (s ∷ shares) = s.remainder + total_remainder shares

-- What is rounded down, with the remainders, is the tax of all.
floors_exact :
    (rate : Ratio) (ms : List Member)
    → tax_denominator rate * total_cents (map (share_of rate) ms)
        + total_remainder (map (share_of rate) ms)
      ≡ magnitude (map gross_of ms) * rate.numerator
unfolding total_cents
floors_exact rate [] = omega arith
floors_exact rate (m ∷ ms) = ground (arith, floors_exact rate ms)

remainders_small :
    (rate : Ratio) (ms : List Member)
    → 0 < tax_denominator rate
    → total_remainder (map (share_of rate) ms) ≤ length ms * tax_denominator rate
remainders_small rate [] p = omega arith
remainders_small rate (m ∷ ms) p = ground (arith, remainders_small rate ms p)

-- The rounded tax lies between the cents that are given at once, and one more for each line.
pub floors_near :
    (rate : Ratio) (ms : List Member)
    → 0 < tax_denominator rate
    → (total_cents (map (share_of rate) ms)
        ≤ round_ratio (magnitude (map gross_of ms) * rate.numerator) (tax_denominator rate))
      × (round_ratio (magnitude (map gross_of ms) * rate.numerator) (tax_denominator rate)
          ≤ total_cents (map (share_of rate) ms) + length ms)
floors_near rate ms p =
    let d = tax_denominator rate in
    let n = magnitude (map gross_of ms) * rate.numerator in
    let floors = total_cents (map (share_of rate) ms) in
    let e = floors_exact rate ms in
    let r = remainders_small rate ms p in
    let (low, high) = round_ratio_nearest n d p in
    (
      quotients_le (2 * (d * floors)) (2 * n + d) floors (round_ratio n d) d 2 (omega (arith, e))
          (omega arith) high,
      quotients_le (2 * n + d) (2 * n + d) (round_ratio n d) (floors + length ms) d 2 (omega arith)
          low (omega (arith, e, r, p)),
    )
