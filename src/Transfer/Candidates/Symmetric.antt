-- ===== src/Transfer/Candidates/Symmetric.antt =====
-- services/transferCandidates.ts: maps that hold every pair both ways round.
use recat_qbo.Prelude.Shared.{
  ◌≡◌, ◌≢◌, ◌⊎◌, inl, inr, List, [], ◌∷◌, none, some, String, arith, str_eq, str_eq_iff, Bool-cases,
  Option-cases,
}
use recat_qbo.Prelude.Splits.{by_option}
use recat_qbo.Prelude.Assoc.{lookup, insert, lookup-insert}
use recat_qbo.Transfer.Candidates.{PairableTxn}
use recat_qbo.Transfer.Candidates.Pairing.{collect}

abbrev pub Symmetric : List (String × String) → Type 0
Symmetric m = (a b : String) → lookup a m ≡ some b → lookup b m ≡ some a

-- A lookup after the two writes of a pair: one of the two, or what was there.
pub lookup_pair :
    (t c a b : String) (m : List (String × String))
    → lookup a (insert t c (insert c t m)) ≡ some b
    → ((t ≡ a) × (c ≡ b)) ⊎ (((c ≡ a) × (t ≡ b)) ⊎ ((t ≢ a) × ((c ≢ a) × (lookup a m ≡ some b))))
lookup_pair t c a b m e = elim (Bool-cases (str_eq t a)) [
  | inl h ↦
      inl (
        ground (arith, str_eq_iff t a, h),
        ground (arith, lookup-insert t a c (insert c t m), h, e),
      )
  | inr h ↦ elim (Bool-cases (str_eq c a)) [
    | inl k ↦ inr (
        inl (
          ground (arith, str_eq_iff c a, k),
          ground (arith, lookup-insert t a c (insert c t m), lookup-insert c a t m, h, k, e),
        ))
    | inr k ↦ inr (
        inr (
          (λ p. ground (arith, str_eq_iff t a, h, p)),
          (
            (λ p. ground (arith, str_eq_iff c a, k, p)),
            ground (arith, lookup-insert t a c (insert c t m), lookup-insert c a t m, h, k, e),
          ),
        ))
  ]
]

pub pair-Symmetric :
    (t c : String) (m : List (String × String))
    → lookup t m ≡ none
    → lookup c m ≡ none
    → Symmetric m
    → Symmetric (insert t c (insert c t m))
pair-Symmetric t c m n₁ n₂ s a b e = elim (lookup_pair t c a b m e) [
  | inl (p, q) ↦ ground (
    arith,
    p,
    q,
    lookup-insert t b c (insert c t m),
    lookup-insert c b t m,
    str_eq_iff t b,
    str_eq_iff c b,
  )
  | inr (inl (p, q)) ↦ ground (
    arith,
    p,
    q,
    lookup-insert t b c (insert c t m),
    lookup-insert c b t m,
    str_eq_iff t b,
    str_eq_iff c b,
  )
  | inr (inr (p, (q, k))) ↦
      let back : lookup b m ≡ some a = s a b k in
      ground (
        arith,
        lookup-insert t b c (insert c t m),
        lookup-insert c b t m,
        str_eq_iff t b,
        str_eq_iff c b,
        back,
        n₁,
        n₂,
      )
]

-- What is collected is part of what was matched, and holds its pairs both ways.
record Collected (matched pairs : List (String × String)) : Type 0 where
  part : (a b : String) → lookup a pairs ≡ some b → lookup a matched ≡ some b
  both : Symmetric pairs

collect-Collected :
    (matched : List (String × String)) (ts : List PairableTxn) (pairs : List (String × String))
    → Symmetric matched
    → Collected matched pairs
    → Collected matched (collect matched ts pairs)
unfolding collect
collect-Collected matched [] pairs s h = h
collect-Collected matched (t ∷ ts) pairs s h =
    by_option (Collected matched) (lookup t.id pairs)
      (λ n.
        by_option (Collected matched) (lookup t.id matched)
          (λ e. collect-Collected matched ts pairs s h)
          (λ c e. collect-Collected matched ts _ s (added c n e)))
      (λ c e. collect-Collected matched ts pairs s h)
  where
    free :
        (c : String)
        → lookup t.id pairs ≡ none
        → lookup t.id matched ≡ some c
        → lookup c pairs ≡ none
    free c n e = elim (Option-cases (lookup c pairs)) [
      | inl f ↦ f
      | inr (z, f) ↦
          let there : lookup c matched ≡ some z = h.part c z f in
          let back : lookup c matched ≡ some t.id = s t.id c e in
          let same : z ≡ t.id = ground (arith, there, back) in
          let again : lookup z pairs ≡ some c = h.both c z f in
          absurd (ground (arith, same, again, n))
    ]

    added :
        (c : String)
        → lookup t.id pairs ≡ none
        → lookup t.id matched ≡ some c
        → Collected matched (insert c t.id (insert t.id c pairs))
    added c n e = record {
      part = λ a b k. elim (lookup_pair c t.id a b pairs k) [
        | inl (p, q) ↦ ground (arith, p, q, s t.id c e)
        | inr (inl (p, q)) ↦ ground (arith, p, q, e)
        | inr (inr (p, (q, l))) ↦ h.part a b l
      ];
      both = pair-Symmetric c t.id pairs (free c n e) n h.both;
    }

pub collect_part :
    (matched : List (String × String)) (ts : List PairableTxn) (a b : String)
    → Symmetric matched
    → lookup a (collect matched ts []) ≡ some b
    → (lookup a matched ≡ some b) × (lookup b (collect matched ts []) ≡ some a)
collect_part matched ts a b s e =
    let h =
      collect-Collected matched ts [] s
        (record { part = λ a b k. absurd (ground arith); both = λ a b k. absurd (ground arith) }) in
    (h.part a b e, h.both a b e)
