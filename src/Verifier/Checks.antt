-- ===== src/Verifier/Checks.antt =====
-- services/agent/core/verifier.ts: what each check asks, apart from the order of its refusals.
use recat_qbo.Prelude.Shared.{
  ◌≤◌, ◌≡◌, ◌≢◌, refl, sym, ◌∙◌, ◌↔◌, true, false, not, List, [], ◌∷◌, none, some, String, any, all,
  All, if◌then◌else◌, is_none, arith, Bool-cases, Option-cases, ◌⊎◌, inl, inr,
}
use recat_qbo.Prelude.Int.{ℤ, pos, ◌+ℤ◌, eq_ℤ_iff, +ℤ_assoc, abs_ℤ}
use recat_qbo.Verifier.Decision.{
  not_applicable, ready, same_calculation, ProposalLine, Proposal, Snapshot,
  category_reference_invalid,
}
use recat_qbo.Verifier.Verify.{
  sign, has, has_duplicate, check_amounts, check_categories, check_tags, check_tax_codes, check_tax,
  max_safe_integer,
}

unfoldable pub sum_lines : List ProposalLine → ℤ
sum_lines [] = pos 0
sum_lines (line ∷ lines) = line.gross_cents +ℤ sum_lines lines

abbrev pub IsDirected : ℤ → ProposalLine → Type 0
IsDirected amount line = (line.gross_cents ≢ pos 0) × (sign line.gross_cents ≡ sign amount)

zero_right : (a : ℤ) → a +ℤ pos 0 ≡ a
unfolding ◌+ℤ◌
zero_right a = ground arith

pub check_amounts_sound :
    (amount total : ℤ) (lines : List ProposalLine)
    → check_amounts amount total lines ≡ none
    → All (IsDirected amount) lines × (total +ℤ sum_lines lines ≡ amount)
unfolding check_amounts sum_lines
check_amounts_sound amount total [] h =
    (tt, ground (arith, zero_right total, eq_ℤ_iff total amount))
check_amounts_sound amount total (line ∷ lines) h =
    let rest : check_amounts amount (total +ℤ line.gross_cents) lines ≡ none = ground arith in
    let ih = check_amounts_sound amount (total +ℤ line.gross_cents) lines rest in
    (
      (
        (
          ground (arith, eq_ℤ_iff line.gross_cents (pos 0)),
          ground (arith, eq_ℤ_iff (sign line.gross_cents) (sign amount)),
        ),
        ih.0,
      ),
      sym (+ℤ_assoc total line.gross_cents (sum_lines lines)) ∙ ih.1,
    )

pub check_categories_iff :
    (s : Snapshot) (p : Proposal)
    → (check_categories s p ≡ none)
      ↔ (all (λ line. has s.candidate_categories line.category_qbo_id) p.lines ≡ true)
unfolding check_categories
check_categories_iff s p = step p.lines
  where
    step :
        (lines : List ProposalLine)
        → ((if◌then◌else◌
              (any (λ line. not (has s.candidate_categories line.category_qbo_id)) lines)
              (some category_reference_invalid)
              none)
            ≡ none)
          ↔ (all (λ line. has s.candidate_categories line.category_qbo_id) lines ≡ true)
    step [] = ground arith
    step (line ∷ lines) = ground (arith, step lines)

-- No tag twice, and every tag available.
abbrev pub IsTagList : List String → List String → Type 0
IsTagList available ids = (has_duplicate ids ≡ false) × (all (has available) ids ≡ true)

any-not :
    (available ids : List String)
    → any (λ id. not (has available id)) ids ≡ not (all (has available) ids)
any-not available [] = refl
any-not available (id ∷ ids) = ground (arith, any-not available ids)

pub check_tags_iff :
    (available : List String) (lists : List (List String))
    → (check_tags available lists ≡ none) ↔ All (IsTagList available) lists
unfolding check_tags
check_tags_iff available [] = ground arith
check_tags_iff available (ids ∷ lists) =
    ground (arith, any-not available ids, check_tags_iff available lists)

abbrev pub HasTax : List String → ProposalLine → Type 0
HasTax available line =
    (id : String) × ((line.tax_code_qbo_id ≡ some id) × (has available id ≡ true))

abbrev pub HasNoTax : ProposalLine → Type 0
HasNoTax line = line.tax_code_qbo_id ≡ none

pub check_tax_codes_sound :
    (available : List String) (lines : List ProposalLine)
    → check_tax_codes available lines ≡ none
    → All (HasTax available) lines
unfolding check_tax_codes
check_tax_codes_sound available [] h = tt
check_tax_codes_sound available (line ∷ lines) h = elim (Option-cases line.tax_code_qbo_id) [
  | inl missing ↦ absurd (ground (arith, missing))
  | inr (id, known) ↦ (
    (id, (known, ground (arith, known))),
    check_tax_codes_sound available lines (ground (arith, known)),
  )
]

no_tax_sound :
    (lines : List ProposalLine)
    → any (λ line. not (is_none line.tax_code_qbo_id)) lines ≡ false
    → All HasNoTax lines
no_tax_sound [] h = tt
no_tax_sound (line ∷ lines) h = (ground arith, no_tax_sound lines (ground arith))

-- The lines of a taxable proposal name available tax codes, under a mode that is supported and with
-- references that are ready; those of another one name none.
abbrev pub IsTaxSound : Snapshot → Proposal → Type 0
IsTaxSound s p =
    ((p.tax_calculation ≡ not_applicable) × All HasNoTax p.lines)
    ⊎ (((p.tax_calculation ≢ not_applicable) × (s.tax_status ≡ ready))
        × ((any (same_calculation p.tax_calculation) s.tax_modes ≡ true)
            × All (HasTax s.tax_references) p.lines))

pub check_tax_sound : (s : Snapshot) (p : Proposal) → check_tax s p ≡ none → IsTaxSound s p
unfolding check_tax
check_tax_sound s p h = elim (Bool-cases (same_calculation p.tax_calculation not_applicable)) [
  | inl off ↦ inl (ground (arith, off), no_tax_sound p.lines (ground (arith, off)))
  | inr on ↦ inr (
    (ground (arith, on), ground (arith, on)),
    (ground (arith, on), check_tax_codes_sound s.tax_references p.lines (ground (arith, on))),
  )
]

-- The converses.
sum_directed :
    (amount : ℤ) (lines : List ProposalLine)
    → All (IsDirected amount) lines
    → (sum_lines lines ≡ pos 0) ⊎ (sign (sum_lines lines) ≡ sign amount)
unfolding sum_lines ◌+ℤ◌
sum_directed amount [] h = inl refl
sum_directed amount (line ∷ lines) h = ground (arith, sum_directed amount lines h.1, h.0)

below_whole :
    (a b amount : ℤ)
    → sign a ≡ sign amount
    → (b ≡ pos 0) ⊎ (sign b ≡ sign amount)
    → a +ℤ b ≡ amount
    → abs_ℤ a ≤ abs_ℤ amount
unfolding ◌+ℤ◌
below_whole a b amount h k e = ground arith

sign_add :
    (a b amount : ℤ)
    → (a ≡ pos 0) ⊎ (sign a ≡ sign amount)
    → sign b ≡ sign amount
    → sign (a +ℤ b) ≡ sign amount
unfolding ◌+ℤ◌
sign_add a b amount h k = ground arith

pub check_amounts_complete :
    (amount total : ℤ) (lines : List ProposalLine)
    → abs_ℤ amount ≤ max_safe_integer
    → All (IsDirected amount) lines
    → (total ≡ pos 0) ⊎ (sign total ≡ sign amount)
    → total +ℤ sum_lines lines ≡ amount
    → check_amounts amount total lines ≡ none
unfolding check_amounts sum_lines
check_amounts_complete amount total [] bound h k e =
    ground (arith, zero_right total, eq_ℤ_iff total amount, e)
check_amounts_complete amount total (line ∷ lines) bound h k e =
    let next = total +ℤ line.gross_cents in
    let e' : next +ℤ sum_lines lines ≡ amount =
      +ℤ_assoc total line.gross_cents (sum_lines lines) ∙ e in
    let signed : sign next ≡ sign amount = sign_add total line.gross_cents amount k h.0.1 in
    let below =
      below_whole next (sum_lines lines) amount signed (sum_directed amount lines h.1) e' in
    ground (
      arith,
      h.0,
      bound,
      below,
      eq_ℤ_iff line.gross_cents (pos 0),
      eq_ℤ_iff (sign line.gross_cents) (sign amount),
      check_amounts_complete amount next lines bound h.1 (inr signed) e',
    )

no_tax_complete :
    (lines : List ProposalLine)
    → All HasNoTax lines
    → any (λ line. not (is_none line.tax_code_qbo_id)) lines ≡ false
no_tax_complete [] h = refl
no_tax_complete (line ∷ lines) h = ground (arith, h.0, no_tax_complete lines h.1)

check_tax_codes_complete :
    (available : List String) (lines : List ProposalLine)
    → All (HasTax available) lines
    → check_tax_codes available lines ≡ none
unfolding check_tax_codes
check_tax_codes_complete available [] h = refl
check_tax_codes_complete available (line ∷ lines) ((id, (known, has_id)), rest) =
    ground (arith, known, has_id, check_tax_codes_complete available lines rest)

pub check_tax_complete : (s : Snapshot) (p : Proposal) → IsTaxSound s p → check_tax s p ≡ none
unfolding check_tax
check_tax_complete s p (inl (off, none_taxed)) =
    ground (arith, off, no_tax_complete p.lines none_taxed)
check_tax_complete s p (inr ((on, is_ready), (mode, taxed))) =
    ground (arith, on, is_ready, mode, check_tax_codes_complete s.tax_references p.lines taxed)
