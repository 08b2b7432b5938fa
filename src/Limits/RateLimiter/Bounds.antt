-- ===== src/Limits/RateLimiter/Bounds.antt =====
-- mcp/rateLimit.ts: the size of the map and the counts, over any sequence of calls.
use recat_qbo.Prelude.Shared.{
  ℕ, suc, ◌≤◌, ◌<◌, ◌≡◌, inl, inr, List, [], ◌∷◌, some, String, arith, length, length, str_eq_iff,
  Option-cases, Bool-cases, leb,
}
use recat_qbo.Prelude.Assoc.{
  lookup, insert, erase, IsMap, AllValues, insert-IsMap, erase-IsMap, length-insert, length-erase,
  AllValues-insert, AllValues-erase, AllValues-lookup,
}
use recat_qbo.Limits.RateLimiter.{
  RateEntry, RateLimiterOptions, BoundedRateLimiter, create, size, evict_oldest, is_over,
  open_window, charge, acquire_entry, acquire,
}

abbrev pub IsEntry : ℕ → RateEntry → Type 0
IsEntry limit e = (1 ≤ e.count) × (e.count ≤ limit)

-- The keys are distinct and at most `max_keys` many, and no count passes the limit.
pub record IsValid (l : BoundedRateLimiter) : Type 0 where
  pub positive : (1 ≤ l.limit) × (1 ≤ l.max_keys) × (1 ≤ l.window_ms)
  pub distinct : IsMap l.entries
  pub bounded : size l ≤ l.max_keys
  pub counted : AllValues (IsEntry l.limit) l.entries

pub create-IsValid :
    (o : RateLimiterOptions) {l : BoundedRateLimiter} → create o ≡ some l → IsValid l
unfolding create
create-IsValid o h = ground arith

evict_oldest-lt :
    (most : ℕ) (m : List (String × RateEntry))
    → 1 ≤ most
    → length m ≤ most
    → length (evict_oldest most m) < most
unfolding evict_oldest
evict_oldest-lt most [] p h = omega arith
evict_oldest-lt most ((k, e) ∷ m) p h = ground (arith, str_eq_iff k k)

evict_oldest-IsMap :
    (most : ℕ) (m : List (String × RateEntry)) → IsMap m → IsMap (evict_oldest most m)
unfolding evict_oldest
evict_oldest-IsMap most [] h = tt
evict_oldest-IsMap most ((k, e) ∷ m) h = ground (arith, str_eq_iff k k)

evict_oldest-counted :
    (n most : ℕ) (m : List (String × RateEntry))
    → AllValues (IsEntry n) m
    → AllValues (IsEntry n) (evict_oldest most m)
unfolding evict_oldest
evict_oldest-counted n most [] h = tt
evict_oldest-counted n most ((k, e) ∷ m) h = ground (arith, str_eq_iff k k)

length-insert-le :
    (k : String) (e : RateEntry) (m : List (String × RateEntry))
    → length (insert k e m) ≤ suc (length m)
length-insert-le k e m = ground (arith, length-insert k e m)

-- An entry that was there is taken out and put back at the end.
length-reinsert :
    (k : String) (e d : RateEntry) (m : List (String × RateEntry))
    → lookup k m ≡ some e
    → length (insert k d (erase k m)) ≤ length m
length-reinsert k e d m h = omega (arith, length-insert-le k d (erase k m), length-erase k e m h)

open_window-IsValid :
    (l : BoundedRateLimiter) (key : String) (now : ℕ) (room : List (String × RateEntry))
    → IsValid l
    → IsMap room
    → length room < l.max_keys
    → AllValues (IsEntry l.limit) room
    → IsValid (open_window l key now room)
unfolding open_window
open_window-IsValid l key now room v m h c = record {
  positive = v.positive;
  distinct = insert-IsMap key _ room m;
  bounded =
      omega (arith, length-insert-le key (record { count = 1; window_started_at = now }) room);
  counted =
      AllValues-insert (IsEntry l.limit) key (record { count = 1; window_started_at = now }) room
        (omega (arith, v.positive.0)) c;
}

moved-IsValid :
    (l : BoundedRateLimiter) (key : String) (e d : RateEntry)
    → IsValid l
    → lookup key l.entries ≡ some e
    → IsEntry l.limit d
    → IsValid (record l { entries = insert key d (erase key l.entries) })
moved-IsValid l key e d v h c = record {
  positive = v.positive;
  distinct = insert-IsMap key d _ (erase-IsMap key l.entries v.distinct);
  bounded = omega (arith, length-reinsert key e d l.entries h, v.bounded);
  counted =
      AllValues-insert (IsEntry l.limit) key d _ c
        (AllValues-erase (IsEntry l.limit) key l.entries v.counted);
}

charge-IsValid :
    (l : BoundedRateLimiter) (key : String) (e : RateEntry) (now : ℕ)
    → IsValid l
    → lookup key l.entries ≡ some e
    → IsEntry l.limit e
    → IsValid (charge l key e now).0
unfolding charge
charge-IsValid l key e now v h c = elim (Bool-cases (leb l.limit e.count)) [
  | inl full ↦ rw full (moved-IsValid l key e e v h c)
  | inr room ↦ rw room (moved-IsValid l key e _ v h (ground arith))
]

-- Every call keeps the keys distinct and at most `max_keys` many, and every count between one and
-- the limit.
pub acquire-IsValid :
    (l : BoundedRateLimiter) (key : String) (now : ℕ) → IsValid l → IsValid (acquire l key now).0
unfolding acquire open_window
acquire-IsValid l key now v = elim (Option-cases (lookup key l.entries)) [
  | inl e ↦ rw e (
      unfold acquire_entry in
      open_window-IsValid l key now _ v (evict_oldest-IsMap l.max_keys l.entries v.distinct)
        (evict_oldest-lt l.max_keys l.entries v.positive.1 v.bounded)
        (evict_oldest-counted l.limit l.max_keys l.entries v.counted))
  | inr (e, h) ↦ rw h (known e h)
]
  where
    known :
        (e : RateEntry)
        → lookup key l.entries ≡ some e
        → IsValid (acquire_entry (some e) l key now).0
    known e h = elim (Bool-cases (is_over l.window_ms e now)) [
      | inl over ↦
          rw (over, acquire_entry) (moved-IsValid l key e _ v h (omega (arith, v.positive.0)))
      | inr live ↦
          rw (live, acquire_entry)
            (charge-IsValid l key e now v h
              (AllValues-lookup (IsEntry l.limit) key e l.entries v.counted h))
    ]

unfoldable pub run : BoundedRateLimiter → List (String × ℕ) → BoundedRateLimiter
run l [] = l
run l ((key, now) ∷ calls) = run (acquire l key now).0 calls

-- A limiter that the constructor makes keeps, after any calls at any times, its keys distinct and at
-- most `max_keys` many, and every count between one and the limit.
pub run-IsValid :
    (o : RateLimiterOptions) (l : BoundedRateLimiter) (calls : List (String × ℕ))
    → create o ≡ some l
    → IsValid (run l calls)
unfolding run
run-IsValid o l calls h = go l calls (create-IsValid o h)
  where
    go : (l : BoundedRateLimiter) (calls : List (String × ℕ)) → IsValid l → IsValid (run l calls)
    go l [] v = v
    go l ((key, now) ∷ calls) v = go (acquire l key now).0 calls (acquire-IsValid l key now v)
