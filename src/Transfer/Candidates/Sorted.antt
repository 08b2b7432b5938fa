-- ===== src/Transfer/Candidates/Sorted.antt =====
-- services/transferCandidates.ts: the order of the rows, and their places in it.
use recat_qbo.Prelude.Shared.{
  ℕ, zero, suc, ◌+◌, ◌≤◌, ◌<◌, ◌≡◌, ◌≢◌, refl, sym, ◌∙◌, ap, Bool, inl, inr, List, [], ◌∷◌, some,
  String, arith, str_eq, str_eq_iff, All, get_elem?, Bool-cases, All-map,
}
use recat_qbo.Prelude.Splits.{by_if}
use recat_qbo.Prelude.Assoc.{lookup, insert, lookup-insert}
use recat_qbo.Transfer.Candidates.{PairableTxn}
use recat_qbo.Transfer.Candidates.Pairing.{comes_before, insert_sorted, sort, index_from}

-- The ids differ from each other.
abbrev pub Distinct : List PairableTxn → Type 0
Distinct [] = Unit
Distinct (x ∷ xs) = All (λ y. y.id ≢ x.id) xs × Distinct xs

-- A row stands at a place.
abbrev pub At : ℕ → PairableTxn → List PairableTxn → Type 0
At i x xs = get_elem? xs i ≡ some x

abbrev pub Ascending : List PairableTxn → Type 0
Ascending [] = Unit
Ascending (x ∷ xs) = All (λ y. x.date ≤ y.date) xs × Ascending xs

pub All-At :
    (P : PairableTxn → Type 0) (xs : List PairableTxn) (i : ℕ) (x : PairableTxn)
    → All P xs
    → At i x xs
    → P x
All-At P [] i x a h = absurd (ground arith)
All-At P (y ∷ ys) zero x a h = let e : y ≡ x = ground (arith, h) in rw (← e) a.0
All-At P (y ∷ ys) (suc i) x a h = All-At P ys i x a.1 h

pub At-order :
    (xs : List PairableTxn) (i j : ℕ) (x y : PairableTxn)
    → Ascending xs
    → At i x xs
    → At j y xs
    → i < j
    → x.date ≤ y.date
At-order [] i j x y a h k l = absurd (ground arith)
At-order (z ∷ zs) i zero x y a h k l = absurd (omega arith)
At-order (z ∷ zs) zero (suc j) x y a h k l =
    let e : z ≡ x = ground (arith, h) in rw (← e) (All-At (λ w. z.date ≤ w.date) zs j y a.0 k)
At-order (z ∷ zs) (suc i) (suc j) x y a h k l = At-order zs i j x y a.1 h k (omega (arith, l))

pub At-unique :
    (xs : List PairableTxn) (i j : ℕ) (x y : PairableTxn)
    → Distinct xs
    → At i x xs
    → At j y xs
    → x.id ≡ y.id
    → i ≡ j
At-unique [] i j x y d h k e = absurd (ground arith)
At-unique (z ∷ zs) zero zero x y d h k e = refl
At-unique (z ∷ zs) zero (suc j) x y d h k e =
    let s : z ≡ x = ground (arith, h) in
    absurd (All-At (λ w. w.id ≢ z.id) zs j y d.0 k (sym (ap (λ (w : PairableTxn). w.id) s ∙ e)))
At-unique (z ∷ zs) (suc i) zero x y d h k e =
    let s : z ≡ y = ground (arith, k) in
    absurd (All-At (λ w. w.id ≢ z.id) zs i x d.0 h (e ∙ sym (ap (λ (w : PairableTxn). w.id) s)))
At-unique (z ∷ zs) (suc i) (suc j) x y d h k e = ap suc (At-unique zs i j x y d.1 h k e)

module _ (locale_lt : String → String → Bool) where
  All-insert_sorted :
      (P : PairableTxn → Type 0) (x : PairableTxn) (ys : List PairableTxn)
      → P x
      → All P ys
      → All P (insert_sorted locale_lt x ys)
  All-insert_sorted P x [] p a = (p, tt)
  All-insert_sorted P x (y ∷ ys) p a =
      by_if (All P) (comes_before locale_lt y x) (λ e. (a.0, All-insert_sorted P x ys p a.1))
        (λ e. (p, a))

  pub All-sort :
      (P : PairableTxn → Type 0) (xs : List PairableTxn) → All P xs → All P (sort locale_lt xs)
  All-sort P [] a = tt
  All-sort P (x ∷ xs) a = All-insert_sorted P x _ a.0 (All-sort P xs a.1)

  insert_sorted-Distinct :
      (x : PairableTxn) (ys : List PairableTxn)
      → All (λ y. y.id ≢ x.id) ys
      → Distinct ys
      → Distinct (insert_sorted locale_lt x ys)
  insert_sorted-Distinct x [] a d = (tt, tt)
  insert_sorted-Distinct x (y ∷ ys) a d =
      by_if Distinct (comes_before locale_lt y x)
        (λ e. (
          All-insert_sorted (λ z. z.id ≢ y.id) x ys (λ q. a.0 (sym q)) d.0,
          insert_sorted-Distinct x ys a.1 d.1,
        ))
        (λ e. (a, d))

  pub sort-Distinct : (xs : List PairableTxn) → Distinct xs → Distinct (sort locale_lt xs)
  sort-Distinct [] d = tt
  sort-Distinct (x ∷ xs) d =
      insert_sorted-Distinct x _ (All-sort (λ y. y.id ≢ x.id) xs d.0) (sort-Distinct xs d.1)

  insert_sorted-Ascending :
      (x : PairableTxn) (ys : List PairableTxn)
      → Ascending ys
      → Ascending (insert_sorted locale_lt x ys)
  insert_sorted-Ascending x [] a = (tt, tt)
  insert_sorted-Ascending x (y ∷ ys) a =
      by_if Ascending (comes_before locale_lt y x)
        (λ e. (
          All-insert_sorted (λ z. y.date ≤ z.date) x ys (ground (arith, e)) a.0,
          insert_sorted-Ascending x ys a.1,
        ))
        (λ e.
          let le : x.date ≤ y.date = ground (arith, e) in
          (
            (
              le,
              All-map (λ z. y.date ≤ z.date) (λ z. x.date ≤ z.date) (λ z k. omega (arith, le, k)) ys
                  a.0,
            ),
            a,
          ))

  pub sort-Ascending : (xs : List PairableTxn) → Ascending (sort locale_lt xs)
  sort-Ascending [] = tt
  sort-Ascending (x ∷ xs) = insert_sorted-Ascending x _ (sort-Ascending xs)

-- Every id of the index has a row of that id at its place.
abbrev pub Indexes : List PairableTxn → List (String × ℕ) → Type 0
Indexes xs m =
    (k : String) (j : ℕ) → lookup k m ≡ some j → (x : PairableTxn) × (At j x xs × (x.id ≡ k))

-- The rows from a place on.
abbrev pub From : ℕ → List PairableTxn → List PairableTxn → Type 0
From i ys xs = (k : ℕ) → get_elem? xs (i + k) ≡ get_elem? ys k

pub From-next :
    (i : ℕ) (y : PairableTxn) (ys xs : List PairableTxn) → From i (y ∷ ys) xs → From (suc i) ys xs
From-next i y ys xs f k =
    let e : suc i + k ≡ i + suc k = omega arith in ap (get_elem? xs) e ∙ f (suc k)

pub From-here :
    (i : ℕ) (y : PairableTxn) (ys xs : List PairableTxn) → From i (y ∷ ys) xs → At i y xs
From-here i y ys xs f = let e : i ≡ i + 0 = omega arith in ap (get_elem? xs) e ∙ f 0

pub index_from-Indexes :
    (i : ℕ) (ys xs : List PairableTxn) (m : List (String × ℕ))
    → From i ys xs
    → Indexes xs m
    → Indexes xs (index_from i ys m)
index_from-Indexes i [] xs m f h = h
index_from-Indexes i (y ∷ ys) xs m f h =
    index_from-Indexes (suc i) ys xs (insert y.id i m) (From-next i y ys xs f) (λ k j e.
      elim (Bool-cases (str_eq y.id k)) [
        | inl b ↦
            let same : i ≡ j = ground (arith, lookup-insert y.id k i m, b, e) in
            (y, (rw (← same) (From-here i y ys xs f), ground (arith, str_eq_iff y.id k, b)))
        | inr b ↦ h k j (ground (arith, lookup-insert y.id k i m, b, e))
      ])

pub From-all : (xs : List PairableTxn) → From 0 xs xs
From-all xs k = let e : 0 + k ≡ k = omega arith in ap (get_elem? xs) e
