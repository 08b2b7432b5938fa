-- ===== src/Tax/Matching.antt =====
-- services/tax/verify.ts: expected lines are looked for one after the other, and each is taken out.
use recat_qbo.Prelude.Shared.{
  ◌≡◌, refl, ◌++◌, arith, Bool-cases, Option-cases, inl, inr, Bool, true, List, [], ◌∷◌, Option,
  none, some, if◌then◌else◌,
}
use mathlib.Core.List.{Perm}
use mathlib.Core.List.Perm

-- `findIndex` and `splice`, for one expected line after the other; the lines that remain.
module _ {ℓ} {A : Type ℓ} where
  abbrev pub keep_first : A → Option (A × List A) → Option (A × List A)
  keep_first x none = none
  keep_first x (some (a, rest)) = some (a, x ∷ rest)

  unfoldable pub take_first : (A → Bool) → List A → Option (A × List A)
  take_first p [] = none
  take_first p (x ∷ xs) = if p x then some (x, xs) else keep_first x (take_first p xs)

module _ {ℓ κ} {A : Type ℓ} {B : Type κ} where
  unfoldable pub match_all : (B → A → Bool) → List B → List A → Option (List A)
  unfolding take_first
  match_all p [] xs = some xs
  match_all p (b ∷ bs) xs = elim (take_first (p b) xs) [
    | none ↦ none
    | some (a, rest) ↦ match_all p bs rest
  ]

-- The lines that were taken, each with the expected one that it was taken for.
pub data Matched {ℓ κ} {A : Type ℓ} {B : Type κ} (p : B → A → Bool)
    : List B → List A → Type (ℓ ⊔ κ) where
  nothing : Matched p [] []
  next :
      {b : B} {a : A} {bs : List B} {as' : List A}
      → p b a ≡ true
      → Matched p bs as'
      → Matched p (b ∷ bs) (a ∷ as')

module _ {ℓ} {A : Type ℓ} where
  take_first_sound :
      (p : A → Bool) (xs : List A) (a : A) (rest : List A)
      → take_first p xs ≡ some (a, rest)
      → (p a ≡ true) × Perm xs (a ∷ rest)
  unfolding take_first
  take_first_sound p [] a rest h = absurd (ground arith)
  take_first_sound p (x ∷ xs) a rest h = elim (Bool-cases (p x)) [
    | inl found ↦
        let same : x ≡ a = ground (arith, found) in
        let others : xs ≡ rest = ground (arith, found) in
        (rw (← same) found, rw (← same, ← others) (Perm.refl (x ∷ xs)))
    | inr other ↦ elim (Option-cases (take_first p xs)) [
      | inl missing ↦ absurd (ground (arith, other, missing))
      | inr ((b, kept), found) ↦
          let same : b ≡ a = ground (arith, other, found) in
          let others : x ∷ kept ≡ rest = ground (arith, other, found) in
          let ih = take_first_sound p xs b kept found in
          (
            rw (← same) (ih.0),
            rw (← same, ← others) (Perm.trans (Perm.cons x ih.1) (Perm.swap b x kept)),
          )
    ]
  ]

module _ {ℓ κ} {A : Type ℓ} {B : Type κ} where
  -- What is taken and what remains are the lines there were, each line once.
  pub match_all_sound :
      (p : B → A → Bool) (bs : List B) (xs rest : List A)
      → match_all p bs xs ≡ some rest
      → (taken : List A) × (Matched p bs taken × Perm xs (taken ++ rest))
  unfolding match_all
  match_all_sound p [] xs rest h =
      let same : xs ≡ rest = ground (arith, h) in ([], (nothing, rw (← same) (Perm.refl xs)))
  match_all_sound p (b ∷ bs) xs rest h = elim (Option-cases (take_first (p b) xs)) [
    | inl missing ↦ absurd (ground (arith, missing))
    | inr ((a, kept), found) ↦
        let first = take_first_sound (p b) xs a kept found in
        let ih = match_all_sound p bs kept rest (ground (arith, found)) in
        (a ∷ ih.0, (next (first.0) (ih.1.0), Perm.trans first.1 (Perm.cons a ih.1.1)))
  ]

  -- Lines that stand first, in the expected order, are the ones that are taken.
  pub match_all_first :
      (p : B → A → Bool) (bs : List B) (as' rest : List A)
      → Matched p bs as'
      → match_all p bs (as' ++ rest) ≡ some rest
  unfolding match_all take_first
  match_all_first p [] [] rest nothing = refl
  match_all_first p (b ∷ bs) (a ∷ as') rest (next h m) =
      ground (arith, h, match_all_first p bs as' rest m)
  match_all_first p [] (a ∷ as') rest m = elim m [ ]
  match_all_first p (b ∷ bs) [] rest m = elim m [ ]
