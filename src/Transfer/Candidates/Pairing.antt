-- ===== src/Transfer/Candidates/Pairing.antt =====
-- services/transferCandidates.ts: `pairTransfers`, and the guard on the number of rows.
use recat_qbo.Prelude.Shared.{
  ℕ, suc, ◌+◌, Bool, ◌&&◌, ◌||◌, List, [], ◌∷◌, Option, none, some, String, ltb, ◌==◌, str_eq,
  if◌then◌else◌, any, length,
}
use recat_qbo.Prelude.Int.{abs_ℤ}
use recat_qbo.Prelude.Assoc.{lookup, insert}
use recat_qbo.Transfer.Candidates.{
  PairableTxn, Sign, nil, positive, negative, sign, same_sign, three_days_ms, BankQueueIndex,
  new_index, add, Wanted, take_future,
}

pub record Bucket : Type 0 where
  pub positive_rows : BankQueueIndex
  pub negative_rows : BankQueueIndex

abbrev pub lookup_bucket : ℕ → List (ℕ × Bucket) → Option Bucket
lookup_bucket c [] = none
lookup_bucket c ((d, b) ∷ m) = if d == c then some b else lookup_bucket c m

abbrev pub put_bucket : ℕ → Bucket → List (ℕ × Bucket) → List (ℕ × Bucket)
put_bucket c b [] = (c, b) ∷ []
put_bucket c b ((d, old) ∷ m) = if d == c then (d, b) ∷ m else (d, old) ∷ put_bucket c b m

abbrev pub bucket_or_new : Option Bucket → Bucket
bucket_or_new none = record { positive_rows = new_index; negative_rows = new_index }
bucket_or_new (some b) = b

abbrev pub rows_of : Sign → Bucket → BankQueueIndex
rows_of positive b = b.positive_rows
rows_of _ b = b.negative_rows

abbrev pub put_rows : Sign → BankQueueIndex → Bucket → Bucket
put_rows positive q b = record b { positive_rows = q }
put_rows _ q b = record b { negative_rows = q }

abbrev pub opposite : Sign → Sign
opposite positive = negative
opposite negative = positive
opposite nil = positive

-- The first loop: every row that is not zero goes into its bucket.
abbrev pub fill_one : PairableTxn → List (ℕ × Bucket) → List (ℕ × Bucket)
fill_one t m =
    let cents = abs_ℤ t.amount in
    let s = sign t.amount in
    let bucket = bucket_or_new (lookup_bucket cents m) in
    if same_sign s nil then m else put_bucket cents (put_rows s (add t (rows_of s bucket)) bucket) m

abbrev pub fill : List PairableTxn → List (ℕ × Bucket) → List (ℕ × Bucket)
fill [] m = m
fill (t ∷ ts) m = fill ts (fill_one t m)

abbrev pub index_from : ℕ → List PairableTxn → List (String × ℕ) → List (String × ℕ)
index_from i [] m = m
index_from i (t ∷ ts) m = index_from (suc i) ts (insert t.id i m)

pub record Matching : Type 0 where
  pub matched : List (String × String)
  pub used : List String
  pub buckets : List (ℕ × Bucket)

-- What is asked of the opposite rows for a row at an index.
abbrev pub wanted : List (String × ℕ) → ℕ → PairableTxn → Matching → Wanted
wanted order index t s = record {
  excluded_bank = t.bank_account;
  current_index = index;
  maximum_date = t.date + three_days_ms;
  used = s.used;
  order_of = order;
}

abbrev pub keep_match :
    PairableTxn → Bucket → Option PairableTxn × BankQueueIndex → Matching → Matching
keep_match t b (none, q) s = record s {
  buckets = put_bucket (abs_ℤ t.amount) (put_rows (opposite (sign t.amount)) q b) s.buckets;
}
keep_match t b (some c, q) s = record {
  matched = insert t.id c.id (insert c.id t.id s.matched);
  used = c.id ∷ t.id ∷ s.used;
  buckets = put_bucket (abs_ℤ t.amount) (put_rows (opposite (sign t.amount)) q b) s.buckets;
}

-- A turn of the second loop; `none` is a search that has not come to its end.
unfoldable pub match_one : List (String × ℕ) → ℕ → PairableTxn → Matching → Option Matching
match_one order index t s =
    if same_sign (sign t.amount) nil || any (str_eq t.id) s.used
    then some s
    else elim (lookup_bucket (abs_ℤ t.amount) s.buckets) [
      | none ↦ some s
      | some b ↦
          elim (take_future (wanted order index t s) (rows_of (opposite (sign t.amount)) b)) [
            | none ↦ none
            | some r ↦ some (keep_match t b r s)
          ]
    ]

unfoldable pub match_all : List (String × ℕ) → ℕ → List PairableTxn → Matching → Option Matching
match_all order index [] s = some s
match_all order index (t ∷ ts) s = elim (match_one order index t s) [
  | none ↦ none
  | some s₁ ↦ match_all order (suc index) ts s₁
]

-- The last loop: the pairs in the order of the rows.
unfoldable pub collect :
    List (String × String) → List PairableTxn → List (String × String) → List (String × String)
collect matched [] pairs = pairs
collect matched (t ∷ ts) pairs = elim (lookup t.id pairs) [
  | some _ ↦ collect matched ts pairs
  | none ↦ elim (lookup t.id matched) [
    | none ↦ collect matched ts pairs
    | some c ↦ collect matched ts (insert c t.id (insert t.id c pairs))
  ]
]

abbrev pub max_transfer_discovery_transactions : ℕ
max_transfer_discovery_transactions = 10000

pub data Discovery : Type 0 where
  overflow : Discovery
  pairs_found : Option (List (String × String)) → Discovery

-- `locale_lt` is `localeCompare(…) < 0`, the collation of the platform.
module _ (locale_lt : String → String → Bool) where
  abbrev pub comes_before : PairableTxn → PairableTxn → Bool
  comes_before a b = ltb a.date b.date || (a.date == b.date && locale_lt a.id b.id)

  abbrev pub insert_sorted : PairableTxn → List PairableTxn → List PairableTxn
  insert_sorted x [] = x ∷ []
  insert_sorted x (y ∷ ys) = if comes_before y x then y ∷ insert_sorted x ys else x ∷ y ∷ ys

  -- `[...txns].sort(…)`: stable.
  abbrev pub sort : List PairableTxn → List PairableTxn
  sort [] = []
  sort (x ∷ xs) = insert_sorted x (sort xs)

  unfoldable pub pair_transfers : List PairableTxn → Option (List (String × String))
  pair_transfers txns =
      let sorted = sort txns in
      elim (match_all (index_from 0 sorted []) 0 sorted
        (record { matched = []; used = []; buckets = fill sorted [] })) [
          | none ↦ none
          | some s ↦ some (collect s.matched sorted [])
        ]

  -- `transferCandidates`, from the rows of its query on, which asks for one more than the limit.
  abbrev pub transfer_candidates : List PairableTxn → Discovery
  transfer_candidates rows =
      if ltb max_transfer_discovery_transactions (length rows)
      then overflow
      else pairs_found (pair_transfers rows)
