-- ===== src/Transfer/Candidates/Sound.antt =====
-- services/transferCandidates.ts: what `pairTransfers` pairs.
use recat_qbo.Prelude.Shared.{
  ℕ, suc, ◌≡◌, refl, true, false, inl, inr, List, [], ◌∷◌, some, String, arith, Bool-cases,
  Option-cases, ◌==◌,
}
use recat_qbo.Prelude.Int.{abs_ℤ}
use recat_qbo.Prelude.Splits.{by_if}
use recat_qbo.Transfer.Candidates.{
  PairableTxn, Sign, nil, positive, negative, sign, same_sign, is_transfer_pair, BankQueueIndex,
  add,
}
use recat_qbo.Transfer.Candidates.Pairing.{
  Bucket, lookup_bucket, put_bucket, bucket_or_new, rows_of, put_rows, fill_one, fill,
}
use recat_qbo.Transfer.Candidates.Taken.{Banked, add-Banked}
use recat_qbo.Transfer.Candidates.Sorted.{At, From, From-next, From-here}

-- A row of the sorted list, with the cents and the sign of its bucket.
abbrev pub Good : List PairableTxn → ℕ → Sign → PairableTxn → Type 0
Good xs c s x = (i : ℕ) × (At i x xs × ((abs_ℤ x.amount ≡ c) × (sign x.amount ≡ s)))

abbrev pub Filled : List PairableTxn → List (ℕ × Bucket) → Type 0
Filled xs [] = Unit
Filled xs ((c, b) ∷ m) =
    (Banked (Good xs c positive) b.positive_rows.queues
      × Banked (Good xs c negative) b.negative_rows.queues)
    × Filled xs m

abbrev pub IsBucket : List PairableTxn → ℕ → Bucket → Type 0
IsBucket xs c b =
    Banked (Good xs c positive) b.positive_rows.queues
    × Banked (Good xs c negative) b.negative_rows.queues

module _ (xs : List PairableTxn) where
  pub put_bucket-Filled :
      (c : ℕ) (b : Bucket) (m : List (ℕ × Bucket))
      → IsBucket xs c b
      → Filled xs m
      → Filled xs (put_bucket c b m)
  put_bucket-Filled c b [] h f = (h, tt)
  put_bucket-Filled c b ((d, old) ∷ m) h f =
      by_if (Filled xs) (d == c) (λ e. let same : d ≡ c = ground (arith, e) in (rw same h, f.1))
        (λ e. (f.0, put_bucket-Filled c b m h f.1))

  pub lookup_bucket-IsBucket :
      (c : ℕ) (b : Bucket) (m : List (ℕ × Bucket))
      → Filled xs m
      → lookup_bucket c m ≡ some b
      → IsBucket xs c b
  lookup_bucket-IsBucket c b [] f e = absurd (ground arith)
  lookup_bucket-IsBucket c b ((d, old) ∷ m) f e = elim (Bool-cases (d == c)) [
    | inl h ↦
        let same : d ≡ c = ground (arith, h) in
        let found : some old ≡ some b = rw h at e in
        let old_is : old ≡ b = ground (arith, found) in rw (← old_is, ← same) f.0
    | inr h ↦ lookup_bucket-IsBucket c b m f.1 (rw h at e)
  ]

  bucket_or_new-IsBucket :
      (c : ℕ) (m : List (ℕ × Bucket))
      → Filled xs m
      → IsBucket xs c (bucket_or_new (lookup_bucket c m))
  bucket_or_new-IsBucket c m f = elim (Option-cases (lookup_bucket c m)) [
    | inl e ↦ rw e (tt, tt)
    | inr (b, e) ↦ rw e (lookup_bucket-IsBucket c b m f e)
  ]

  pub put_rows-IsBucket :
      (c : ℕ) (s : Sign) (q : BankQueueIndex) (b : Bucket)
      → same_sign s nil ≡ false
      → Banked (Good xs c s) q.queues
      → IsBucket xs c b
      → IsBucket xs c (put_rows s q b)
  put_rows-IsBucket c nil q b n h k = absurd (ground arith)
  put_rows-IsBucket c positive q b n h k = (h, k.1)
  put_rows-IsBucket c negative q b n h k = (k.0, h)

  pub rows_of-Banked :
      (c : ℕ) (s : Sign) (b : Bucket)
      → same_sign s nil ≡ false
      → IsBucket xs c b
      → Banked (Good xs c s) (rows_of s b).queues
  rows_of-Banked c nil b n k = absurd (ground arith)
  rows_of-Banked c positive b n k = k.0
  rows_of-Banked c negative b n k = k.1

  fill_one-Filled :
      (i : ℕ) (t : PairableTxn) (m : List (ℕ × Bucket))
      → At i t xs
      → Filled xs m
      → Filled xs (fill_one t m)
  fill_one-Filled i t m h f =
      let c = abs_ℤ t.amount in
      let s = sign t.amount in
      let b = bucket_or_new (lookup_bucket c m) in
      let k = bucket_or_new-IsBucket c m f in
      by_if (Filled xs) (same_sign s nil) (λ e. f)
        (λ e.
          put_bucket-Filled c (put_rows s (add t (rows_of s b)) b) m
            (put_rows-IsBucket c s (add t (rows_of s b)) b e
              (add-Banked (Good xs c s) t (rows_of s b) (i, (h, (refl, refl)))
                (rows_of-Banked c s b e k))
              k)
            f)

  pub fill-Filled :
      (i : ℕ) (ts : List PairableTxn) (m : List (ℕ × Bucket))
      → From i ts xs
      → Filled xs m
      → Filled xs (fill ts m)
  fill-Filled i [] m f h = h
  fill-Filled i (t ∷ ts) m f h =
      fill-Filled (suc i) ts (fill_one t m) (From-next i t ts xs f)
        (fill_one-Filled i t m (From-here i t ts xs f) h)

  -- Two ids of rows that are a transfer pair.
  abbrev pub PairOf : String → String → Type 0
  PairOf a b =
      (x : PairableTxn) × (y : PairableTxn) × (((i : ℕ) × At i x xs)
        × (((i : ℕ) × At i y xs) × ((x.id ≡ a) × ((y.id ≡ b) × (is_transfer_pair x y ≡ true)))))
