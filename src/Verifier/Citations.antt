-- ===== src/Verifier/Citations.antt =====
-- services/agent/core/verifier.ts: which evidence is accepted, and what it speaks for.
use recat_qbo.Prelude.Shared.{
  ◌≡◌, refl, ◌↔◌, Bool, true, false, ◌&&◌, ◌||◌, not, List, [], ◌∷◌, ◌++◌, map, Option, none, some,
  any, all, keep, str_eq_iff, opt_str_eq_iff, arith, Bool-cases, Option-cases, ◌⊎◌, inl, inr,
}
use recat_qbo.Verifier.Decision.{
  same_calculation, Evidence, rule, similar_transaction, category, tax_code, ProposalLine, Proposal,
  ApplicableRule, SimilarTransaction, Snapshot, evidence_rule_invalid, evidence_rule_inconsistent,
  evidence_history_invalid, evidence_history_inconsistent, evidence_category_invalid,
  evidence_category_inconsistent, evidence_tax_invalid, evidence_tax_inconsistent, FailureCode,
}
use recat_qbo.Verifier.Verify.{
  has, Pair, same_pair, has_pair, line_pair, rule_pair, similar_pair, selected_pairs, rule_of,
  history_of, refuses, covers, matching_pairs, is_selected_category, is_selected_tax,
  check_evidence, walk_evidence, EvidenceResult,
}

-- Whether one piece of evidence speaks for a pair, under the proposal's way of calculating tax: the
-- rule it names has the pair, or a line of the transaction it names has.
abbrev rule_supports : Proposal → Pair → Option ApplicableRule → Bool
rule_supports p q none = false
rule_supports p q (some r) =
    same_calculation r.tax_calculation p.tax_calculation && same_pair q (rule_pair r)

abbrev history_supports : Proposal → Pair → Option SimilarTransaction → Bool
history_supports p q none = false
history_supports p q (some t) =
    same_calculation t.tax_calculation p.tax_calculation && has_pair (map similar_pair t.lines) q

abbrev pub supports : Snapshot → Proposal → Pair → Evidence → Bool
supports s p q (rule id) = rule_supports p q (rule_of s id)
supports s p q (similar_transaction id) = history_supports p q (history_of s id)
supports s p q (category id) = false
supports s p q (tax_code id) = false

pub same_pair_iff : (a b : Pair) → (same_pair a b ≡ true) ↔ ((a.0 ≡ b.0) × (a.1 ≡ b.1))
same_pair_iff a b = ground (arith, str_eq_iff (a.0) (b.0), opt_str_eq_iff (a.1) (b.1))

-- A pair is taken for an equal one in every test.
has_pair_equal :
    (pairs : List Pair) (a b : Pair) → same_pair a b ≡ true → has_pair pairs a ≡ has_pair pairs b
has_pair_equal [] a b h = refl
has_pair_equal (c ∷ pairs) a b h =
    ground
      (arith, same_pair_iff a b, same_pair_iff a c, same_pair_iff b c, has_pair_equal pairs a b h)

has_pair_append :
    (as' bs : List Pair) (q : Pair) → has_pair (as' ++ bs) q ≡ (has_pair as' q || has_pair bs q)
has_pair_append [] bs q = refl
has_pair_append (a ∷ as') bs q = ground (arith, has_pair_append as' bs q)

has_pair-keep :
    (selected pairs : List Pair) (q : Pair)
    → has_pair selected q ≡ true
    → has_pair (keep (has_pair selected) pairs) q ≡ has_pair pairs q
has_pair-keep selected [] q h = refl
has_pair-keep selected (a ∷ pairs) q h =
    ground (arith, has_pair_equal selected q a, has_pair-keep selected pairs q h)

check_evidence_covers :
    (s : Snapshot) (p : Proposal) (e : Evidence) (pairs : List Pair) (q : Pair)
    → check_evidence s p e ≡ covers pairs
    → has_pair (selected_pairs p) q ≡ true
    → has_pair pairs q ≡ supports s p q e
unfolding check_evidence
check_evidence_covers s p (rule id) pairs q h selected = ground arith
check_evidence_covers s p (similar_transaction id) pairs q h selected =
    elim (Option-cases (history_of s id)) [
      | inl missing ↦ absurd (ground (arith, missing))
      | inr (t, known) ↦
          ground
            (arith, known, has_pair-keep (selected_pairs p) (map similar_pair t.lines) q selected)
    ]
check_evidence_covers s p (category id) pairs q h selected = ground arith
check_evidence_covers s p (tax_code id) pairs q h selected = ground arith

lines_covered :
    (lines : List ProposalLine) (evidenced : List Pair) (q : Pair)
    → any (λ line. not (has_pair evidenced (line_pair line))) lines ≡ false
    → has_pair (map line_pair lines) q ≡ true
    → has_pair evidenced q ≡ true
lines_covered [] evidenced q h selected = ground arith
lines_covered (line ∷ lines) evidenced q h selected =
    ground (arith, has_pair_equal evidenced q (line_pair line), lines_covered lines evidenced q)

evidence_cases :
    (r : EvidenceResult)
    → ((code : FailureCode) × (r ≡ refuses code)) ⊎ ((pairs : List Pair) × (r ≡ covers pairs))
evidence_cases (refuses code) = inl (code, refl)
evidence_cases (covers pairs) = inr (pairs, refl)

pub walk_evidence_sound :
    (s : Snapshot) (p : Proposal) (es : List Evidence) (evidenced : List Pair) (q : Pair)
    → walk_evidence s p es evidenced ≡ none
    → has_pair (selected_pairs p) q ≡ true
    → (has_pair evidenced q || any (supports s p q) es) ≡ true
unfolding walk_evidence
walk_evidence_sound s p [] evidenced q h selected =
    ground (arith, lines_covered p.lines evidenced q)
walk_evidence_sound s p (e ∷ es) evidenced q h selected =
    elim (evidence_cases (check_evidence s p e)) [
      | inl (code, refused) ↦ absurd (ground (arith, refused))
      | inr (pairs, covered) ↦ ground (
        arith,
        covered,
        check_evidence_covers s p e pairs q covered selected,
        has_pair_append pairs evidenced q,
        walk_evidence_sound s p es (pairs ++ evidenced) q (ground (arith, covered)) selected,
      )
    ]

-- Whether a piece of evidence is there and has to do with what is proposed.
abbrev rule_fits : Proposal → Option ApplicableRule → Bool
rule_fits p none = false
rule_fits p (some r) =
    same_calculation r.tax_calculation p.tax_calculation
    && has_pair (selected_pairs p) (rule_pair r)

abbrev history_fits : Proposal → Option SimilarTransaction → Bool
history_fits p none = false
history_fits p (some t) =
    same_calculation t.tax_calculation p.tax_calculation
    && any (has_pair (selected_pairs p)) (map similar_pair t.lines)

abbrev pub fits : Snapshot → Proposal → Evidence → Bool
fits s p (rule id) = rule_fits p (rule_of s id)
fits s p (similar_transaction id) = history_fits p (history_of s id)
fits s p (category id) = has s.candidate_categories id && is_selected_category p id
fits s p (tax_code id) = has s.tax_references id && is_selected_tax p id

keep_nil : (f : Pair → Bool) (pairs : List Pair) → (keep f pairs ≡ []) ↔ (any f pairs ≡ false)
keep_nil f [] = ground arith
keep_nil f (a ∷ pairs) = ground (arith, keep_nil f pairs)

list_cases :
    (pairs : List Pair) → (pairs ≡ []) ⊎ ((a : Pair) × (as' : List Pair) × (pairs ≡ a ∷ as'))
list_cases [] = inl refl
list_cases (a ∷ as') = inr (a, as', refl)

-- Evidence is accepted exactly if it fits.
check_evidence-fits :
    (s : Snapshot) (p : Proposal) (e : Evidence)
    → ((fits s p e ≡ true) × ((pairs : List Pair) × (check_evidence s p e ≡ covers pairs)))
      ⊎ ((fits s p e ≡ false) × ((code : FailureCode) × (check_evidence s p e ≡ refuses code)))
unfolding check_evidence
check_evidence-fits s p (rule id) = elim (Option-cases (rule_of s id)) [
  | inl missing ↦ inr (ground (arith, missing), (evidence_rule_invalid, ground (arith, missing)))
  | inr (r, known) ↦ elim (Bool-cases (rule_fits p (some r))) [
    | inl ok ↦ inl (ground (arith, known, ok), (rule_pair r ∷ [], ground (arith, known, ok)))
    | inr bad ↦
        inr (ground (arith, known, bad), (evidence_rule_inconsistent, ground (arith, known, bad)))
  ]
]
check_evidence-fits s p (similar_transaction id) = elim (Option-cases (history_of s id)) [
  | inl missing ↦ inr (ground (arith, missing), (evidence_history_invalid, ground (arith, missing)))
  | inr (t, known) ↦
      let emptiness = keep_nil (has_pair (selected_pairs p)) (map similar_pair t.lines) in
      elim (list_cases (matching_pairs p t)) [
        | inl empty ↦ inr (
          ground (arith, known, empty, emptiness),
          (evidence_history_inconsistent, ground (arith, known, empty)),
        )
        | inr (a, as', full) ↦
            inl (ground (arith, known, full, emptiness), (a ∷ as', ground (arith, known, full)))
      ]
]
check_evidence-fits s p (category id) = elim (Bool-cases (has s.candidate_categories id)) [
  | inr missing ↦
      inr (ground (arith, missing), (evidence_category_invalid, ground (arith, missing)))
  | inl known ↦ elim (Bool-cases (is_selected_category p id)) [
    | inl ok ↦ inl (ground (arith, known, ok), ([], ground (arith, known, ok)))
    | inr bad ↦
        inr
          (ground (arith, known, bad), (evidence_category_inconsistent, ground (arith, known, bad)))
  ]
]
check_evidence-fits s p (tax_code id) = elim (Bool-cases (has s.tax_references id)) [
  | inr missing ↦ inr (ground (arith, missing), (evidence_tax_invalid, ground (arith, missing)))
  | inl known ↦ elim (Bool-cases (is_selected_tax p id)) [
    | inl ok ↦ inl (ground (arith, known, ok), ([], ground (arith, known, ok)))
    | inr bad ↦
        inr (ground (arith, known, bad), (evidence_tax_inconsistent, ground (arith, known, bad)))
  ]
]

pub walk_evidence_fits :
    (s : Snapshot) (p : Proposal) (es : List Evidence) (evidenced : List Pair)
    → walk_evidence s p es evidenced ≡ none
    → all (fits s p) es ≡ true
unfolding walk_evidence
walk_evidence_fits s p [] evidenced h = refl
walk_evidence_fits s p (e ∷ es) evidenced h = elim (check_evidence-fits s p e) [
  | inl (ok, (pairs, covered)) ↦
      ground (arith, ok, covered, walk_evidence_fits s p es (pairs ++ evidenced))
  | inr (bad, (code, refused)) ↦ absurd (ground (arith, refused))
]

all_covered :
    (lines : List ProposalLine) (evidenced : List Pair)
    → ((q : Pair) → has_pair (map line_pair lines) q ≡ true → has_pair evidenced q ≡ true)
    → any (λ line. not (has_pair evidenced (line_pair line))) lines ≡ false
all_covered [] evidenced h = refl
all_covered (line ∷ lines) evidenced h =
    let first =
      h (line_pair line) (ground (arith, same_pair_iff (line_pair line) (line_pair line))) in
    let rest = all_covered lines evidenced (λ q has_q. h q (ground (arith, has_q))) in
    ground (arith, first, rest)

pub walk_evidence_complete :
    (s : Snapshot) (p : Proposal) (es : List Evidence) (evidenced : List Pair)
    → all (fits s p) es ≡ true
    → ((q : Pair)
        → has_pair (selected_pairs p) q ≡ true
        → (has_pair evidenced q || any (supports s p q) es) ≡ true)
    → walk_evidence s p es evidenced ≡ none
unfolding walk_evidence
walk_evidence_complete s p [] evidenced h k =
    let covered = all_covered p.lines evidenced (λ q has_q. ground (arith, k q has_q)) in
    ground (arith, covered)
walk_evidence_complete s p (e ∷ es) evidenced h k = elim (check_evidence-fits s p e) [
  | inr (bad, (code, refused)) ↦ absurd (ground (arith, bad))
  | inl (ok, (pairs, covered)) ↦
      let rest =
        walk_evidence_complete s p es (pairs ++ evidenced) (ground (arith, ok)) (λ q selected.
          ground (
            arith,
            k q selected,
            check_evidence_covers s p e pairs q covered selected,
            has_pair_append pairs evidenced q,
          )) in
      ground (arith, covered, rest)
]
