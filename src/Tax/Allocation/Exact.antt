-- ===== src/Tax/Allocation/Exact.antt =====
-- server/src/lib/qbo/purchaseTax.ts: `allocateExcludedTax` allocates the tax of the group exactly.
use recat_qbo.Prelude.Shared.{
  ℕ, zero, suc, ◌+◌, ◌-◌, ◌*◌, ◌≤◌, ◌<◌, ◌≡◌, refl, sym, ◌∙◌, ap, Bool, true, false, List, [], ◌∷◌,
  map, none, some, length, length-map, All, arith, ◌==◌, Option-cases, ◌⊎◌, inl, inr,
}
use recat_qbo.Prelude.Splits.{by_if}
use recat_qbo.Prelude.Int.{ℤ, pos, negsuc, ◌+ℤ◌, ◌-ℤ◌, abs_ℤ, neg_ℤ, sub_ℕ}
use recat_qbo.Tax.Inverse.{round_ratio}
use recat_qbo.Tax.Allocation.{
  Ratio, Member, Share, Part, tax_amount_invalid, allocated, sum_safe, scaled, round_ratio_ℤ,
  tax_denominator, target_tax, to_safe_cents, max_safe_integer, share_of, total_cents, is_safe,
  insert, by_priority, has_priority, give_cents, signed, parts_of, allocate_excluded_tax,
}
use recat_qbo.Tax.Allocation.Magnitudes.{IsOf, magnitude, gross_of, sum_from-IsOf, floors_near}

abs-neg_ℤ : (n : ℕ) → abs_ℤ (neg_ℤ (pos n)) ≡ n
abs-neg_ℤ n = ground arith

abs-round_ratio_ℤ :
    (b : ℤ) (k d : ℕ) → abs_ℤ (round_ratio_ℤ (scaled b k) d) ≡ round_ratio (abs_ℤ b * k) d
abs-round_ratio_ℤ (pos n) k d = refl
abs-round_ratio_ℤ (negsuc n) k d =
    by_if (λ x. abs_ℤ (round_ratio_ℤ x d) ≡ round_ratio (suc n * k) d) (suc n * k == 0)
      (λ e. let z : suc n * k ≡ 0 = ground (arith, e) in ap (λ m. round_ratio m d) (sym z))
      (λ e.
        let z : suc (suc n * k - 1) ≡ suc n * k = ground (arith, e) in
        abs-neg_ℤ (round_ratio (suc (suc n * k - 1)) d) ∙ ap (λ m. round_ratio m d) z)

total-insert :
    (s : Share) (ss : List Share) → total_cents (insert s ss) ≡ s.tax_cents + total_cents ss
unfolding total_cents insert
total-insert s [] = refl
total-insert s (t ∷ ss) =
    by_if (λ x. total_cents x ≡ s.tax_cents + (t.tax_cents + total_cents ss)) (has_priority s t)
      (λ e. refl) (λ e. let i = total-insert s ss in omega (arith, i))

total-by_priority : (ss : List Share) → total_cents (by_priority ss) ≡ total_cents ss
unfolding total_cents by_priority
total-by_priority [] = refl
total-by_priority (s ∷ ss) =
    let i = total-insert s (by_priority ss) in let p = total-by_priority ss in omega (arith, i, p)

length-insert : (s : Share) (ss : List Share) → length (insert s ss) ≡ suc (length ss)
unfolding insert
length-insert s [] = refl
length-insert s (t ∷ ss) =
    by_if (λ (x : List Share). length x ≡ suc (suc (length ss))) (has_priority s t) (λ e. refl)
      (λ e. ap suc (length-insert s ss))

length-by_priority : (ss : List Share) → length (by_priority ss) ≡ length ss
unfolding by_priority
length-by_priority [] = refl
length-by_priority (s ∷ ss) = length-insert s (by_priority ss) ∙ ap suc (length-by_priority ss)

-- With as many shares as cents, all of them are given.
total-give_cents :
    (k : ℕ) (ss : List Share)
    → k ≤ length ss
    → total_cents (give_cents (pos k) ss) ≡ total_cents ss + k
unfolding total_cents give_cents ◌-ℤ◌
total-give_cents zero [] h = refl
total-give_cents zero (s ∷ ss) h = omega arith
total-give_cents (suc k) [] h = absurd (omega (arith, h))
total-give_cents (suc k) (s ∷ ss) h =
    let i = total-give_cents k ss (omega (arith, h)) in ground (arith, i)

abbrev pub sum_parts : List Part → ℤ
sum_parts [] = pos 0
sum_parts (p ∷ parts) = p.tax_cents +ℤ sum_parts parts

signed_plus : (t : ℤ) (m n : ℕ) → signed t m +ℤ signed t n ≡ signed t (m + n)
unfolding ◌+ℤ◌
signed_plus (pos t) m n = ground arith
signed_plus (negsuc t) m n = ground arith

signed-is_safe : (t : ℤ) (n : ℕ) → n ≤ max_safe_integer → is_safe (signed t n) ≡ true
signed-is_safe (pos t) n h = ground (arith, h)
signed-is_safe (negsuc t) n h = ground (arith, h)

signed-abs_ℤ : (t : ℤ) → signed t (abs_ℤ t) ≡ t
signed-abs_ℤ (pos t) = refl
signed-abs_ℤ (negsuc t) = ground arith

-- Cents whose sum is safe are all added, and add up with their sign.
parts_of-allocated :
    (t : ℤ) (ss : List Share)
    → total_cents ss ≤ max_safe_integer
    → (parts : List Part) × ((parts_of t ss ≡ allocated parts)
        × (sum_parts parts ≡ signed t (total_cents ss)))
unfolding total_cents parts_of
parts_of-allocated (pos t) [] h = ([], (refl, refl))
parts_of-allocated (negsuc t) [] h = ([], (refl, refl))
parts_of-allocated t (s ∷ ss) h =
    let safe = signed-is_safe t s.tax_cents (omega (arith, h)) in
    let (parts, (e, sum)) = parts_of-allocated t ss (omega (arith, h)) in
    (
      record { index = s.index; tax_cents = signed t s.tax_cents } ∷ parts,
      (rw (parts_of, safe, e) refl, rw sum (signed_plus t s.tax_cents (total_cents ss))),
    )

-- The cents that are left go to the lines with priority, one each.
target_allocated :
    (t : ℤ) (shares : List Share)
    → abs_ℤ t ≤ max_safe_integer
    → total_cents shares ≤ abs_ℤ t
    → abs_ℤ t ≤ total_cents shares + length shares
    → (parts : List Part) × ((parts_of t
            (give_cents (sub_ℕ (abs_ℤ t) (total_cents shares)) (by_priority shares))
          ≡ allocated parts)
        × (sum_parts parts ≡ t))
target_allocated t shares safe low high =
    let left = abs_ℤ t - total_cents shares in
    let is : sub_ℕ (abs_ℤ t) (total_cents shares) ≡ pos left = ground (arith, low) in
    let same = length-by_priority shares in
    let given = total-give_cents left (by_priority shares) (omega (arith, same, high)) in
    let floors = total-by_priority shares in
    let all : total_cents (give_cents (pos left) (by_priority shares)) ≡ abs_ℤ t =
      omega (arith, given, floors, low) in
    let (parts, (e, sum)) =
      parts_of-allocated t (give_cents (pos left) (by_priority shares))
        (omega (arith, all, safe)) in
    (
      parts,
      (
        ap (λ c. parts_of t (give_cents c (by_priority shares))) is ∙ e,
        sum ∙ ap (signed t) all ∙ signed-abs_ℤ t,
      ),
    )

zero-IsOf : (negative : Bool) → IsOf negative (pos 0)
zero-IsOf false = refl
zero-IsOf true = refl

-- The tax of lines of one sign is that of their magnitudes.
target_tax-abs_ℤ :
    (negative : Bool) (members : List Member) (rate : Ratio) (tax : ℤ)
    → All (IsOf negative) (map gross_of members)
    → target_tax members rate ≡ some tax
    → (abs_ℤ tax
        ≡ round_ratio (magnitude (map gross_of members) * rate.numerator) (tax_denominator rate))
      × (abs_ℤ tax ≤ max_safe_integer)
target_tax-abs_ℤ negative members rate tax one_sign t =
    elim (Option-cases (sum_safe (map gross_of members))) [
      | inl e ↦ absurd (ground (arith, e, t))
      | inr (base, e) ↦
          let rounded = round_ratio_ℤ (scaled base rate.numerator) (tax_denominator rate) in
          let (s, m) =
            sum_from-IsOf negative (pos 0) base (map gross_of members) (zero-IsOf negative) one_sign
              e in
          let sized : abs_ℤ base ≡ magnitude (map gross_of members) = omega (arith, m) in
          let shown = abs-round_ratio_ℤ base rate.numerator (tax_denominator rate) in
          let u : to_safe_cents rounded ≡ some tax = ground (arith, e, t) in
          let same : rounded ≡ tax = ground (arith, u) in
          (
            ap abs_ℤ (sym same)
                ∙ shown
                ∙ ap (λ n. round_ratio (n * rate.numerator) (tax_denominator rate)) sized,
            ground (arith, u),
          )
    ]

-- A group of lines of one sign, at a positive denominator, is either refused, since its sum or its tax
-- is not a safe integer, or its lines take cents that add up exactly to the tax of their sum, rounded
-- once; no cent throws.
pub allocation_exact :
    (negative : Bool) (members : List Member) (rate : Ratio)
    → All (IsOf negative) (map gross_of members)
    → 0 < rate.denominator
    → ((target_tax members rate ≡ none) × (allocate_excluded_tax members rate ≡ tax_amount_invalid))
      ⊎ ((tax : ℤ) × ((parts : List Part) × ((target_tax members rate ≡ some tax)
              × ((allocate_excluded_tax members rate ≡ allocated parts)
                  × (sum_parts parts ≡ tax)))))
unfolding allocate_excluded_tax
allocation_exact negative members rate one_sign p = elim (Option-cases (target_tax members rate)) [
  | inl t ↦ inl (t, rw (allocate_excluded_tax, t) refl)
  | inr (tax, t) ↦
      let (e, safe) = target_tax-abs_ℤ negative members rate tax one_sign t in
      let (low, high) = floors_near rate members (omega (arith, p)) in
      let shares = map (share_of rate) members in
      let length_same : length shares ≡ length members = length-map (share_of rate) members in
      let (parts, (f, sum)) =
        target_allocated tax shares safe (omega (arith, e, low))
          (omega (arith, e, high, length_same)) in
      inr (tax, (parts, (t, (rw (allocate_excluded_tax, t) f, sum))))
]
