-- ===== src/Tax/Inverse/Found.antt =====
-- server/src/lib/qbo/purchaseTax.ts: `exactMonotoneInverse` comes to an end, with the number it looks for.
use recat_qbo.Prelude.Shared.{
  ℕ, zero, suc, ◌+◌, ◌-◌, ◌/◌, ◌≤◌, ◌<◌, ◌≡◌, ◌≢◌, ◌↔◌, refl, ap, Option, none, some, ltb, ◌==◌,
  arith, Bool-cases, inl, inr,
}
use recat_qbo.Prelude.Splits.{by_if}
use recat_qbo.Tax.Inverse.{Turn, ended, returned, narrowed, turn, search, exact_monotone_inverse}

abbrev pub Increasing : (ℕ → ℕ) → Type 0
Increasing f = (a b : ℕ) → a < b → f a < f b

abbrev pub AtLeast : (ℕ → ℕ) → Type 0
AtLeast f = (n : ℕ) → n ≤ f n

-- The numbers below the range give too little, those beyond it too much.
record Range (f : ℕ → ℕ) (target low above : ℕ) : Type 0 where
  below : (n : ℕ) → n < low → f n < target
  beyond : (n : ℕ) → above ≤ n → target < f n

-- What a turn finds: an end of a range that is empty, the number, or a smaller range.
abbrev TurnFacts : (ℕ → ℕ) → ℕ → ℕ → ℕ → Turn → Type 0
TurnFacts f target low above ended = above ≤ low
TurnFacts f target low above (returned m) = f m ≡ target
TurnFacts f target low above (narrowed l a) = Range f target l a × ((a + low < above + l) × (l ≤ a))

pub grows_weakly : (f : ℕ → ℕ) (a b : ℕ) → Increasing f → a ≤ b → f a ≤ f b
grows_weakly f a b up h = elim (Bool-cases (a == b)) [
  | inl e ↦ let same : a ≡ b = ground (arith, e) in rw same (omega arith)
  | inr e ↦ let less = up a b (ground (arith, e, h)) in omega (arith, less)
]

turn-TurnFacts :
    (f : ℕ → ℕ) (target low above : ℕ)
    → Increasing f
    → Range f target low above
    → TurnFacts f target low above (turn f target low above)
unfolding turn
turn-TurnFacts f target low above up r =
    let middle = (low + (above - 1)) / 2 in
    by_if (TurnFacts f target low above) (ltb low above)
      (λ open_range.
        by_if (TurnFacts f target low above) (f middle == target)
          (λ e. let is : f middle ≡ target = ground (arith, e) in is)
          (λ differs.
            by_if (TurnFacts f target low above) (ltb (f middle) target)
              (λ less. (
                record {
                  below = λ n h.
                      let le = grows_weakly f n middle up (omega (arith, h)) in
                      ground (arith, le, less);
                  beyond = r.beyond;
                },
                (ground (arith, open_range), ground (arith, open_range)),
              ))
              (λ more. (
                record {
                  below = r.below;
                  beyond = λ n h.
                      let le = grows_weakly f middle n up h in ground (arith, le, more, differs);
                },
                (ground (arith, open_range), ground (arith, open_range)),
              ))))
      (λ empty. ground (arith, empty))

-- The answer is the number, where there is one.
abbrev pub Answer : (ℕ → ℕ) → ℕ → Option ℕ → Type 0
Answer f target none = (n : ℕ) → f n ≢ target
Answer f target (some m) = f m ≡ target

abbrev Searched : (ℕ → ℕ) → ℕ → Option (Option ℕ) → Type 0
Searched f target s = (r : Option ℕ) × ((s ≡ some r) × Answer f target r)

after_turn-Searched :
    (f : ℕ → ℕ) (target fuel low above : ℕ) (t : Turn)
    → Range f target low above
    → above < low + suc fuel
    → ((l a : ℕ)
        → l ≤ a
        → a < l + fuel
        → Range f target l a
        → Searched f target (search f target fuel l a))
    → TurnFacts f target low above t
    → Searched f target (elim t [
      | ended ↦ some none
      | returned middle ↦ some (some middle)
      | narrowed l a ↦ search f target fuel l a
    ])
after_turn-Searched f target fuel low above ended r enough rest e = (
  none,
  (
    refl,
    λ n g. elim (Bool-cases (ltb n low)) [
      | inl k ↦ let less = r.below n (ground (arith, k)) in ground (arith, less, g)
      | inr k ↦ let more = r.beyond n (ground (arith, k, e)) in ground (arith, more, g)
    ],
  ),
)
after_turn-Searched f target fuel low above (returned m) r enough rest e = (some m, (refl, e))
after_turn-Searched f target fuel low above (narrowed l a) r enough rest (k, (d, o)) =
    rest l a o (omega (arith, d, enough)) k

search-Searched :
    (f : ℕ → ℕ) (target fuel low above : ℕ)
    → Increasing f
    → low ≤ above
    → above < low + fuel
    → Range f target low above
    → Searched f target (search f target fuel low above)
unfolding search
search-Searched f target zero low above up h enough r = absurd (omega (arith, h, enough))
search-Searched f target (suc fuel) low above up h enough r =
    after_turn-Searched f target fuel low above (turn f target low above) r enough
      (λ l a o m k. search-Searched f target fuel l a up o m k)
      (turn-TurnFacts f target low above up r)

only_answer :
    (f : ℕ → ℕ) (target : ℕ)
    → Increasing f
    → (r : Option ℕ) → Answer f target r
    → (m : ℕ) → (r ≡ some m) ↔ (f m ≡ target)
only_answer f target up none a m = (λ e. absurd (ground (arith, e)), λ e. absurd (a m e))
only_answer f target up (some n) a m = (
  λ e. let same : n ≡ m = ground (arith, e) in rw (← same) a,
  λ e. elim (Bool-cases (n == m)) [
    | inl k ↦ let same : n ≡ m = ground (arith, k) in ap some same
    | inr k ↦ elim (Bool-cases (ltb n m)) [
      | inl l ↦ let less = up n m (ground (arith, l)) in absurd (omega (arith, less, a, e))
      | inr l ↦ let less = up m n (ground (arith, l, k)) in absurd (omega (arith, less, a, e))
    ]
  ],
)

-- For an increasing function whose values are at least their arguments, exactMonotoneInverse comes to
-- its end for every target, and what it returns is the only number with that value: it returns null
-- when and only when there is none.
pub exact_monotone_inverse-total :
    (f : ℕ → ℕ) (target : ℕ)
    → Increasing f
    → AtLeast f
    → (r : Option ℕ) × ((exact_monotone_inverse target f ≡ some r)
        × ((m : ℕ) → (r ≡ some m) ↔ (f m ≡ target)))
exact_monotone_inverse-total f target up least =
    let (r, (e, a)) =
      search-Searched f target (target + 2) 0 (target + 1) up (omega arith) (omega arith) (record {
        below = λ n h. absurd (omega (arith, h));
        beyond = λ n h. let l = least n in omega (arith, l, h);
      }) in
    (r, (e, only_answer f target up r a))
