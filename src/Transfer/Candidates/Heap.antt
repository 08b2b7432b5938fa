-- ===== src/Transfer/Candidates/Heap.antt =====
-- services/transferCandidates.ts: the heap of a queue index keeps what is put into it.
use recat_qbo.Prelude.Shared.{
  ℕ, zero, suc, ◌-◌, ◌/◌, ◌≡◌, refl, ◌∙◌, ap, not, ◌||◌, List, [], ◌∷◌, ◌++◌, Option, none, some,
  arith, ◌==◌, length, get_elem?, All, All-append, length-append,
}
use recat_qbo.Prelude.Splits.{by_if, by_option}
use recat_qbo.Transfer.Candidates.{
  HeapEntry, earlier, set, sift_up, push, child_of, sift_down, pop_last, after_pop, pop,
}

abbrev HasLength : ℕ → List HeapEntry → Type 0
HasLength n h = length h ≡ n

pub length-set : (i : ℕ) (x : HeapEntry) (xs : List HeapEntry) → length (set i x xs) ≡ length xs
length-set i x [] = refl
length-set zero x (y ∷ ys) = refl
length-set (suc i) x (y ∷ ys) = ap suc (length-set i x ys)

length-sift_up :
    (n i : ℕ) (x : HeapEntry) (h : List HeapEntry) → HasLength (length h) (sift_up n i x h)
unfolding sift_up
length-sift_up zero i x h = length-set i x h
length-sift_up (suc n) i x h =
    by_option (HasLength (length h)) (get_elem? h ((i - 1) / 2)) (λ e. length-set i x h)
      (λ q e.
        by_if (HasLength (length h)) (i == 0 || not (earlier x q)) (λ b. length-set i x h)
          (λ b. length-sift_up n ((i - 1) / 2) x (set i q h) ∙ length-set i q h))

pub length-push : (x : HeapEntry) (h : List HeapEntry) → length (push x h) ≡ suc (length h)
length-push x h =
    omega (arith, length-sift_up (length h) (length h) x (h ++ x ∷ []), length-append h (x ∷ []))

length-sift_down :
    (n i : ℕ) (x : HeapEntry) (h : List HeapEntry) → HasLength (length h) (sift_down n i x h)
unfolding sift_down
length-sift_down zero i x h = length-set i x h
length-sift_down (suc n) i x h =
    by_option (HasLength (length h)) (get_elem? h (child_of i h)) (λ e. length-set i x h)
      (λ q e.
        by_if (HasLength (length h)) (not (earlier q x)) (λ b. length-set i x h)
          (λ b. length-sift_down n (child_of i h) x (set i q h) ∙ length-set i q h))

length-pop_last : (x : HeapEntry) (xs : List HeapEntry) → length (pop_last x xs).0 ≡ length xs
length-pop_last x [] = refl
length-pop_last x (y ∷ ys) = ap suc (length-pop_last y ys)

length-after_pop :
    (f : HeapEntry) (r : List HeapEntry × HeapEntry) → length (after_pop f r).1 ≡ length r.0
length-after_pop f ([], l) = refl
length-after_pop f (y ∷ ys, l) = length-sift_down (length (y ∷ ys)) 0 l (y ∷ ys)

-- How many elements a pop leaves.
abbrev pub left : Option (HeapEntry × List HeapEntry) → ℕ
left none = 0
left (some (x, r)) = length r

pub length-pop :
    (h : List HeapEntry) (x : HeapEntry) (r : List HeapEntry)
    → pop h ≡ some (x, r)
    → suc (length r) ≡ length h
length-pop [] x r e = absurd (ground arith)
length-pop (y ∷ ys) x r e =
    omega (arith, length-after_pop y (pop_last y ys), length-pop_last y ys, ap left e)

module _ {ℓ} (P : HeapEntry → Type ℓ) where
  All-set : (i : ℕ) (x : HeapEntry) (xs : List HeapEntry) → P x → All P xs → All P (set i x xs)
  All-set i x [] p a = a
  All-set zero x (y ∷ ys) p a = (p, a.1)
  All-set (suc i) x (y ∷ ys) p a = (a.0, All-set i x ys p a.1)

  All-get_elem :
      (xs : List HeapEntry) (i : ℕ) (x : HeapEntry) → All P xs → get_elem? xs i ≡ some x → P x
  All-get_elem [] i x a e = absurd (ground arith)
  All-get_elem (y ∷ ys) zero x a e = ground (arith, a.0)
  All-get_elem (y ∷ ys) (suc i) x a e = All-get_elem ys i x a.1 e

  All-sift_up :
      (n i : ℕ) (x : HeapEntry) (h : List HeapEntry) → P x → All P h → All P (sift_up n i x h)
  unfolding sift_up
  All-sift_up zero i x h p a = All-set i x h p a
  All-sift_up (suc n) i x h p a =
      by_option (All P) (get_elem? h ((i - 1) / 2)) (λ e. All-set i x h p a)
        (λ q e.
          by_if (All P) (i == 0 || not (earlier x q)) (λ b. All-set i x h p a)
            (λ b.
              All-sift_up n ((i - 1) / 2) x (set i q h) p
                (All-set i q h (All-get_elem h ((i - 1) / 2) q a e) a)))

  pub All-push : (x : HeapEntry) (h : List HeapEntry) → P x → All P h → All P (push x h)
  All-push x h p a = All-sift_up (length h) (length h) x _ p (All-append P h (x ∷ []) a (p, tt))

  All-sift_down :
      (n i : ℕ) (x : HeapEntry) (h : List HeapEntry) → P x → All P h → All P (sift_down n i x h)
  unfolding sift_down
  All-sift_down zero i x h p a = All-set i x h p a
  All-sift_down (suc n) i x h p a =
      by_option (All P) (get_elem? h (child_of i h)) (λ e. All-set i x h p a)
        (λ q e.
          by_if (All P) (not (earlier q x)) (λ b. All-set i x h p a)
            (λ b.
              All-sift_down n (child_of i h) x (set i q h) p
                (All-set i q h (All-get_elem h (child_of i h) q a e) a)))

  All-pop_last :
      (x : HeapEntry) (xs : List HeapEntry)
      → P x
      → All P xs
      → All P (pop_last x xs).0 × P (pop_last x xs).1
  All-pop_last x [] p a = (tt, p)
  All-pop_last x (y ∷ ys) p a = let r = All-pop_last y ys a.0 a.1 in ((p, r.0), r.1)

  All-after_pop :
      (f : HeapEntry) (r : List HeapEntry × HeapEntry)
      → P f
      → All P r.0
      → P r.1
      → P (after_pop f r).0 × All P (after_pop f r).1
  All-after_pop f ([], l) h a p = (h, tt)
  All-after_pop f (y ∷ ys, l) h a p = (h, All-sift_down (length (y ∷ ys)) 0 l (y ∷ ys) p a)

  abbrev pub Popped : Option (HeapEntry × List HeapEntry) → Type ℓ
  Popped none = Unit
  Popped (some r) = P r.0 × All P r.1

  All-pop : (h : List HeapEntry) → All P h → Popped (pop h)
  All-pop [] a = tt
  All-pop (x ∷ xs) a =
      let l = All-pop_last x xs a.0 a.1 in All-after_pop x (pop_last x xs) a.0 l.0 l.1

  pub pop-All :
      (h : List HeapEntry) (x : HeapEntry) (r : List HeapEntry)
      → All P h
      → pop h ≡ some (x, r)
      → P x × All P r
  pop-All h x r a e = rw e at (All-pop h a)
