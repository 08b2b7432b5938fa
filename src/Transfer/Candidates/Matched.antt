-- ===== src/Transfer/Candidates/Matched.antt =====
-- services/transferCandidates.ts: every pair that `pairTransfers` reports is a transfer pair of two of
-- its rows, and is reported both ways round.
use recat_qbo.Prelude.Shared.{
  ℕ, suc, ◌≤◌, ◌<◌, ◌≡◌, refl, Bool, true, false, ◌||◌, inl, inr, List, [], ◌∷◌, Option, none, some,
  String, arith, str_eq, str_eq_iff, All, any, Option-cases,
}
use recat_qbo.Prelude.Int.{abs_ℤ}
use recat_qbo.Prelude.Splits.{by_if, by_option}
use recat_qbo.Prelude.Assoc.{lookup, insert}
use recat_qbo.Transfer.Candidates.{PairableTxn, nil, sign, same_sign, BankQueueIndex, is_past}
use recat_qbo.Transfer.Candidates.Pairing.{
  Bucket, lookup_bucket, rows_of, opposite, fill, index_from, Matching, wanted, keep_match,
  match_one, match_all, collect, sort, pair_transfers,
}
use recat_qbo.Transfer.Candidates.Queues.{take_future-total}
use recat_qbo.Transfer.Candidates.Taken.{Banked, Found, FoundAny, take_future-TakeOk}
use recat_qbo.Transfer.Candidates.Sorted.{
  Distinct, At, Ascending, At-order, At-unique, Indexes, From, From-all, From-next, From-here,
  index_from-Indexes, sort-Distinct, sort-Ascending, All-sort, All-At,
}
use recat_qbo.Transfer.Candidates.Sound.{
  Good, Filled, IsBucket, put_bucket-Filled, lookup_bucket-IsBucket, put_rows-IsBucket,
  rows_of-Banked, fill-Filled, PairOf,
}
use recat_qbo.Transfer.Candidates.Symmetric.{Symmetric, lookup_pair, pair-Symmetric, collect_part}
use recat_qbo.Transfer.Candidates.Opposite.{is_pair, opposite_not_nil}

module _ (xs : List PairableTxn) (distinct : Distinct xs) (ascending : Ascending xs) where
  -- What holds between two turns: the buckets hold rows, the matches are pairs, and are used.
  record IsMatching (s : Matching) : Type 0 where
    filled : Filled xs s.buckets
    pairs : (a b : String) → lookup a s.matched ≡ some b → PairOf xs a b
    both : Symmetric s.matched
    keys : (a b : String) → lookup a s.matched ≡ some b → any (str_eq a) s.used ≡ true

  -- A row that was found comes later in the order, and was not used.
  later :
      (order : List (String × ℕ)) (index : ℕ) (t c : PairableTxn) (s : Matching)
      → is_past (wanted order index t s) c ≡ false
      → any (str_eq c.id) s.used ≡ false
  later order index t c s h = ground (arith, h)

  placed :
      (order : List (String × ℕ)) (index : ℕ) (t c : PairableTxn) (s : Matching)
      → is_past (wanted order index t s) c ≡ false
      → (j : ℕ) × ((lookup c.id order ≡ some j) × (index < j))
  placed order index t c s h = elim (Option-cases (lookup c.id order)) [
    | inl e ↦ absurd (ground (arith, e, h))
    | inr (j, e) ↦ (j, (e, ground (arith, e, h)))
  ]

  unused_free :
      (s : Matching) (a : String)
      → IsMatching s
      → any (str_eq a) s.used ≡ false
      → lookup a s.matched ≡ none
  unused_free s a h n = elim (Option-cases (lookup a s.matched)) [
    | inl e ↦ e
    | inr (b, e) ↦ absurd (ground (arith, h.keys a b e, n))
  ]

  later_pairs :
      (order : List (String × ℕ)) (index : ℕ) (t c : PairableTxn) (s : Matching)
      → Indexes xs order
      → At index t xs
      → same_sign (sign t.amount) nil ≡ false
      → Found (Good xs (abs_ℤ t.amount) (opposite (sign t.amount))) (wanted order index t s) c
      → PairOf xs t.id c.id × PairOf xs c.id t.id
  later_pairs order index t c s o h n f =
      let (k, (at_k, (cents, side))) = f.is_good in
      let (j, (e, l)) = placed order index t c s f.not_past in
      let (z, (at_j, same)) = o c.id j e in
      let jk : j ≡ k = At-unique xs j k z c distinct at_j at_k same in
      let d : t.date ≤ c.date = At-order xs index k t c ascending h at_k (omega (arith, l, jk)) in
      let p = is_pair t c (sign t.amount) refl side n cents f.other_bank d f.in_time in
      (
        (t, c, ((index, h), ((k, at_k), (refl, (refl, p.0))))),
        (c, t, ((k, at_k), ((index, h), (refl, (refl, p.1))))),
      )

  keep_match-IsMatching :
      (order : List (String × ℕ)) (index : ℕ) (t : PairableTxn) (b : Bucket)
      (r : Option PairableTxn × BankQueueIndex) (s : Matching)
      → Indexes xs order
      → At index t xs
      → same_sign (sign t.amount) nil ≡ false
      → any (str_eq t.id) s.used ≡ false
      → IsBucket xs (abs_ℤ t.amount) b
      → Banked (Good xs (abs_ℤ t.amount) (opposite (sign t.amount))) r.1.queues
      → FoundAny (Good xs (abs_ℤ t.amount) (opposite (sign t.amount))) (wanted order index t s) r.0
      → IsMatching s
      → IsMatching (keep_match t b r s)
  keep_match-IsMatching order index t b (none, q) s o h n u k w f i = record {
    filled =
        put_bucket-Filled xs (abs_ℤ t.amount) _ s.buckets
          (put_rows-IsBucket xs (abs_ℤ t.amount) (opposite (sign t.amount)) q b
            (opposite_not_nil (sign t.amount)) w k)
          i.filled;
    pairs = i.pairs;
    both = i.both;
    keys = i.keys;
  }
  keep_match-IsMatching order index t b (some c, q) s o h n u k w f i =
      let p = later_pairs order index t c s o h n f in
      let m = insert t.id c.id (insert c.id t.id s.matched) in
      record {
        filled =
            put_bucket-Filled xs (abs_ℤ t.amount) _ s.buckets
              (put_rows-IsBucket xs (abs_ℤ t.amount) (opposite (sign t.amount)) q b
                (opposite_not_nil (sign t.amount)) w k)
              i.filled;
        pairs = λ x y e. elim (lookup_pair t.id c.id x y s.matched e) [
          | inl (a, z) ↦ rw (← a, ← z) p.0
          | inr (inl (a, z)) ↦ rw (← a, ← z) p.1
          | inr (inr (a, (z, l))) ↦ i.pairs x y l
        ];
        both =
            pair-Symmetric t.id c.id s.matched (unused_free s t.id i u)
              (unused_free s c.id i (later order index t c s f.not_past)) i.both;
        keys = λ x y e. elim (lookup_pair t.id c.id x y s.matched e) [
          | inl (a, z) ↦ ground (arith, str_eq_iff x t.id, a)
          | inr (inl (a, z)) ↦ ground (arith, str_eq_iff x c.id, a)
          | inr (inr (a, (z, l))) ↦ ground (arith, i.keys x y l)
        ];
      }

  -- A turn comes to its end, and keeps what holds.
  abbrev Goes : Option Matching → Type 0
  Goes r = (s : Matching) × ((r ≡ some s) × IsMatching s)

  match_one-Goes :
      (order : List (String × ℕ)) (index : ℕ) (t : PairableTxn) (s : Matching)
      → Indexes xs order
      → At index t xs
      → IsMatching s
      → Goes (match_one order index t s)
  unfolding match_one
  match_one-Goes order index t s o h i =
      by_if Goes (same_sign (sign t.amount) nil || any (str_eq t.id) s.used) (λ e. (s, (refl, i)))
        (λ e.
          by_option Goes (lookup_bucket (abs_ℤ t.amount) s.buckets) (λ f. (s, (refl, i)))
            (λ b f.
              let k = lookup_bucket-IsBucket xs (abs_ℤ t.amount) b s.buckets i.filled f in
              let q = rows_of (opposite (sign t.amount)) b in
              let w = wanted order index t s in
              let G = Good xs (abs_ℤ t.amount) (opposite (sign t.amount)) in
              let (m, p, r) = take_future-total w q in
              let ok = rw r at (
                take_future-TakeOk G w q (
                  rows_of-Banked xs (abs_ℤ t.amount) (opposite (sign t.amount)) b
                    (opposite_not_nil (sign t.amount)) k)) in
              rw r (
                keep_match t b (m, p) s,
                (
                  refl,
                  keep_match-IsMatching order index t b (m, p) s o h (ground (arith, e))
                      (ground (arith, e)) k ok.0 ok.1 i,
                ),
              )))

  match_all-Goes :
      (order : List (String × ℕ)) (index : ℕ) (ts : List PairableTxn) (s : Matching)
      → Indexes xs order
      → From index ts xs
      → IsMatching s
      → Goes (match_all order index ts s)
  unfolding match_all
  match_all-Goes order index [] s o f i = (s, (refl, i))
  match_all-Goes order index (t ∷ ts) s o f i =
      let (p, (e, k)) = match_one-Goes order index t s o (From-here index t ts xs f) i in
      let r = match_all-Goes order (suc index) ts p o (From-next index t ts xs f) k in
      rw (match_all, e) r

module _ (locale_lt : String → String → Bool) where
  abbrev Among : List PairableTxn → PairableTxn → Type 0
  Among xs x = (i : ℕ) × At i x xs

  every_row : (xs ys : List PairableTxn) (n : ℕ) → From n ys xs → All (Among xs) ys
  every_row xs [] n f = tt
  every_row xs (y ∷ ys) n f =
      ((n, From-here n y ys xs f), every_row xs ys (suc n) (From-next n y ys xs f))

  -- The searches of pairTransfers come to their end for every list of rows whose ids differ; and each
  -- pair that it reports is two of the rows, a transfer pair, and is reported both ways round, so that
  -- no row is in two pairs.
  pub pair_transfers_sound :
      (txns : List PairableTxn)
      → Distinct txns
      → (pairs : List (String × String)) × ((pair_transfers locale_lt txns ≡ some pairs)
          × ((a b : String)
              → lookup a pairs ≡ some b
              → PairOf txns a b × (lookup b pairs ≡ some a)))
  unfolding pair_transfers
  pair_transfers_sound txns d =
      let xs = sort locale_lt txns in
      let (s, (e, i)) =
        match_all-Goes xs (sort-Distinct locale_lt txns d) (sort-Ascending locale_lt txns)
          (index_from 0 xs []) 0 xs (record { matched = []; used = []; buckets = fill xs [] })
          (index_from-Indexes 0 xs xs [] (From-all xs) (λ k j e. absurd (ground arith)))
          (From-all xs)
          (record {
            filled = fill-Filled xs 0 xs [] (From-all xs) tt;
            pairs = λ a b e. absurd (ground arith);
            both = λ a b e. absurd (ground arith);
            keys = λ a b e. absurd (ground arith);
          }) in
      (
        collect s.matched xs [],
        (
          rw (pair_transfers, e) refl,
          λ a b k.
              let (m, back) = collect_part s.matched xs a b i.both k in
              let (x, y, (p, (q, (u, (v, w))))) = i.pairs a b m in
              let all =
                All-sort locale_lt (Among txns) txns (every_row txns txns 0 (From-all txns)) in
              (
                (
                  x,
                  y,
                  (
                    All-At (Among txns) xs p.0 x all p.1,
                    (All-At (Among txns) xs q.0 y all q.1, (u, (v, w))),
                  ),
                ),
                back,
              ),
        ),
      )
