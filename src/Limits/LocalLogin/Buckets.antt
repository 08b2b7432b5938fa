-- ===== src/Limits/LocalLogin/Buckets.antt =====
-- services/localLoginLimiter.ts: the buckets of the sources, and that every call keeps them in shape.
use recat_qbo.Prelude.Shared.{
  ℕ, ◌+◌, refl, inl, inr, List, [], ◌∷◌, String, arith, length, keep, Bool-cases, Option-cases, leb,
}
use recat_qbo.Prelude.Assoc.{
  lookup, IsMap, insert-IsMap, erase-IsMap, AllValues, AllValues-insert, AllValues-erase,
  AllValues-lookup,
}
use recat_qbo.Limits.LocalLogin.{
  LocalLoginReservation, LocalLoginAttempt, LocalLoginLimiter, prune, bucket_of, acquire_active,
  acquire, set_bucket, is_other, release, clear, reset, create,
}
use recat_qbo.Limits.LocalLogin.Pruning.{
  IsValid, Buckets, IsBucket, IsBucket-add, bucket_of-IsBucket, buckets_mono, keep-IsBucket,
  prune-IsMap, prune-buckets,
}

-- The state after `prune`.
abbrev pub pruned : LocalLoginLimiter → ℕ → LocalLoginLimiter
pruned l now = record l { attempts = prune l.window_ms now l.attempts }

pub pruned-IsValid : (l : LocalLoginLimiter) (now : ℕ) → IsValid l → IsValid (pruned l now)
pruned-IsValid l now v = record {
  distinct = prune-IsMap l.window_ms now l.attempts v.distinct;
  buckets = prune-buckets l.max_failures l.next_reservation_id l.window_ms now l.attempts v.buckets;
}

-- The attempt that `acquire` records.
abbrev pub added : LocalLoginLimiter → String → ℕ → LocalLoginAttempt
added l source now = record {
  timestamp = now;
  reservation = record { source = source; id = l.next_reservation_id };
}

acquire_active-IsValid :
    (active : List LocalLoginAttempt) (l : LocalLoginLimiter) (source : String) (now : ℕ)
    → IsValid l
    → IsBucket l.max_failures l.next_reservation_id active
    → IsValid (acquire_active active l source now).0
unfolding acquire_active
acquire_active-IsValid active l source now v b =
    elim (Bool-cases (leb l.max_failures (length active))) [
      | inl full ↦ rw full v
      | inr room ↦ rw room (record {
        distinct = insert-IsMap source _ l.attempts v.distinct;
        buckets =
            AllValues-insert (IsBucket l.max_failures (l.next_reservation_id + 1)) source _
              l.attempts
              (IsBucket-add l.max_failures l.next_reservation_id active (added l source now) b
                (ground arith) refl)
              (buckets_mono l.max_failures l.next_reservation_id l.attempts v.buckets);
      })
    ]

acquire-IsValid :
    (l : LocalLoginLimiter) (source : String) (now : ℕ)
    → IsValid l
    → IsValid (acquire l source now).0
unfolding acquire
acquire-IsValid l source now v =
    acquire_active-IsValid (bucket_of source (pruned l now).attempts) (pruned l now) source now
      (pruned-IsValid l now v)
      (bucket_of-IsBucket l.max_failures l.next_reservation_id source (pruned l now).attempts
        (pruned-IsValid l now v).buckets)

set_bucket-IsMap :
    (k : String) (b : List LocalLoginAttempt) (m : Buckets) → IsMap m → IsMap (set_bucket k b m)
set_bucket-IsMap k [] m h = erase-IsMap k m h
set_bucket-IsMap k (a ∷ b) m h = insert-IsMap k (a ∷ b) m h

set_bucket-buckets :
    (most next : ℕ) (k : String) (b : List LocalLoginAttempt) (m : Buckets)
    → IsBucket most next b
    → AllValues (IsBucket most next) m
    → AllValues (IsBucket most next) (set_bucket k b m)
set_bucket-buckets most next k [] m h a = AllValues-erase (IsBucket most next) k m a
set_bucket-buckets most next k (x ∷ b) m h a = AllValues-insert (IsBucket most next) k (x ∷ b) m h a

release-IsValid :
    (l : LocalLoginLimiter) (r : LocalLoginReservation) → IsValid l → IsValid (release l r)
unfolding release
release-IsValid l r v = elim (Option-cases (lookup r.source l.attempts)) [
  | inl e ↦ rw (e, release) v
  | inr (b, e) ↦
      rw (e, release)
        (record {
          distinct = set_bucket-IsMap r.source (keep (is_other r) b) l.attempts v.distinct;
          buckets =
              set_bucket-buckets l.max_failures l.next_reservation_id r.source (keep (is_other r) b)
                l.attempts
                (keep-IsBucket l.max_failures l.next_reservation_id (is_other r) b (
                  AllValues-lookup (IsBucket l.max_failures l.next_reservation_id) r.source b
                    l.attempts v.buckets e))
                v.buckets;
        })
]

clear-IsValid : (l : LocalLoginLimiter) (source : String) → IsValid l → IsValid (clear l source)
unfolding clear
clear-IsValid l source v = record {
  distinct = erase-IsMap source l.attempts v.distinct;
  buckets =
      AllValues-erase (IsBucket l.max_failures l.next_reservation_id) source l.attempts v.buckets;
}

pub data Call : Type 0 where
  acquires : String → ℕ → Call
  releases : LocalLoginReservation → Call
  clears : String → Call
  resets : Call

unfoldable pub step : LocalLoginLimiter → Call → LocalLoginLimiter
step l (acquires source now) = (acquire l source now).0
step l (releases r) = release l r
step l (clears source) = clear l source
step l resets = reset l

unfoldable pub run : LocalLoginLimiter → List Call → LocalLoginLimiter
run l [] = l
run l (c ∷ cs) = run (step l c) cs

step-IsValid : (l : LocalLoginLimiter) (c : Call) → IsValid l → IsValid (step l c)
unfolding step reset
step-IsValid l (acquires source now) v = acquire-IsValid l source now v
step-IsValid l (releases r) v = release-IsValid l r v
step-IsValid l (clears source) v = clear-IsValid l source v
step-IsValid l resets v = record { distinct = tt; buckets = tt }

run_from-IsValid : (l : LocalLoginLimiter) (cs : List Call) → IsValid l → IsValid (run l cs)
unfolding run
run_from-IsValid l [] v = v
run_from-IsValid l (c ∷ cs) v = run_from-IsValid (step l c) cs (step-IsValid l c v)

-- After any calls of a new limiter, at any times and with any reservations, every source has one
-- bucket, no bucket holds more attempts than the number of failures, and the next reservation's id
-- is above that of every attempt.
pub attempts_bounded :
    (max_failures window_ms : ℕ) (cs : List Call) → IsValid (run (create max_failures window_ms) cs)
unfolding create
attempts_bounded max_failures window_ms cs =
    run_from-IsValid (create max_failures window_ms) cs (record { distinct = tt; buckets = tt })
