-- ===== src/Limits/LocalLogin/Lockout.antt =====
-- services/localLoginLimiter.ts: whom the limiter lets through, and what a refusal and a release do.
use recat_qbo.Prelude.Shared.{
  ◌↔◌, ◌&&◌, ltb, ℕ, ◌+◌, ◌*◌, ◌≤◌, ◌<◌, ◌≡◌, List, [], ◌∷◌, ◌++◌, some, String, arith, length,
  length-keep-le, keep, All, str_eq, str_eq_iff, if◌then◌else◌,
}
use recat_qbo.Prelude.Assoc.{lookup, insert, IsMap, lookup-insert, insert-IsMap, lookup-erase_self}
use recat_qbo.Limits.LocalLogin.{
  LocalLoginReservation, LocalLoginAttempt, allowed, refused, LocalLoginLimiter, is_active,
  bucket_of, acquire_active, acquire, oldest_of, set_bucket, is_other, release,
}
use recat_qbo.Limits.LocalLogin.Pruning.{
  Buckets, keep-IsBucket, bucket_of-prune, bucket_of-IsBucket,
}
use recat_qbo.Limits.LocalLogin.Buckets.{pruned, pruned-IsValid, added}
use recat_qbo.Limits.LocalLogin.Pruning.{IsValid}

-- The attempts of a source that still count at `now`.
abbrev pub active_of : LocalLoginLimiter → String → ℕ → List LocalLoginAttempt
active_of l source now = keep (is_active l.window_ms now) (bucket_of source l.attempts)

acquire_on :
    (l : LocalLoginLimiter) (source : String) (now : ℕ)
    → IsValid l
    → acquire l source now ≡ acquire_active (active_of l source now) (pruned l now) source now
unfolding acquire
acquire_on l source now v = rw (bucket_of-prune source l.window_ms now l.attempts v.distinct)

pub acquire_iff :
    (l : LocalLoginLimiter) (source : String) (now : ℕ)
    → IsValid l
    → ((r : LocalLoginReservation) × ((acquire l source now).1 ≡ allowed r))
      ↔ (length (active_of l source now) < l.max_failures)
acquire_iff l source now v = rw (acquire_on l source now v) (
    unfold acquire_active in
    ((λ h. ground (arith, h.1)), λ h. ((added l source now).reservation, ground arith)))

bucket_of-insert :
    (j k : String) (b : List LocalLoginAttempt) (m : Buckets)
    → bucket_of j (insert k b m) ≡ (if str_eq k j then b else bucket_of j m)
bucket_of-insert j k b m = ground (arith, lookup-insert k j b m)

pub bucket_of-acquire :
    (l : LocalLoginLimiter) (source other : String) (now : ℕ)
    → IsValid l
    → bucket_of other (acquire l source now).0.attempts ≡ (
        if str_eq source other && ltb (length (active_of l source now)) l.max_failures
        then active_of l source now ++ added l source now ∷ []
        else active_of l other now)
unfolding acquire_active
bucket_of-acquire l source other now v = ground (
  arith,
  acquire_on l source now v,
  bucket_of-prune other l.window_ms now l.attempts v.distinct,
  bucket_of-insert other source (active_of l source now ++ added l source now ∷ [])
      (pruned l now).attempts,
)

bucket_of-set_bucket :
    (k : String) (b : List LocalLoginAttempt) (m : Buckets)
    → IsMap m
    → bucket_of k (set_bucket k b m) ≡ b
bucket_of-set_bucket k [] m h = ground (arith, lookup-erase_self k m h)
bucket_of-set_bucket k (a ∷ b) m h = ground (arith, bucket_of-insert k k (a ∷ b) m, str_eq_iff k k)

keep_others :
    (b : List LocalLoginAttempt) (a : LocalLoginAttempt)
    → All (λ x. x.reservation.id < a.reservation.id) b
    → keep (is_other a.reservation) (b ++ a ∷ []) ≡ b
keep_others [] a h = ground arith
keep_others (x ∷ b) a h = ground (arith, keep_others b a h.1)

abbrev after_added : LocalLoginLimiter → String → ℕ → LocalLoginLimiter
after_added l source now = record (pruned l now) {
  next_reservation_id = l.next_reservation_id + 1;
  attempts =
      insert source (active_of l source now ++ added l source now ∷ []) (pruned l now).attempts;
}

acquired_state :
    (l : LocalLoginLimiter) (source : String) (now : ℕ) (r : LocalLoginReservation)
    → IsValid l
    → (acquire l source now).1 ≡ allowed r
    → ((acquire l source now).0 ≡ after_added l source now) × (r ≡ (added l source now).reservation)
unfolding acquire_active
acquired_state l source now r v h = ground (arith, acquire_on l source now v)

release_found :
    (l : LocalLoginLimiter) (r : LocalLoginReservation) (b : List LocalLoginAttempt)
    → lookup r.source l.attempts ≡ some b
    → (release l r).attempts ≡ set_bucket r.source (keep (is_other r) b) l.attempts
unfolding release
release_found l r b h = rw (h, release)

lookup-insert_self :
    (k : String) (b : List LocalLoginAttempt) (m : Buckets) → lookup k (insert k b m) ≡ some b
lookup-insert_self k b m = ground (arith, lookup-insert k k b m, str_eq_iff k k)

-- In a valid limiter, giving a reservation back leaves the bucket of its source as if the attempt
-- had not been made.
pub release-acquire :
    (l : LocalLoginLimiter) (source : String) (now : ℕ) (r : LocalLoginReservation)
    → IsValid l
    → (acquire l source now).1 ≡ allowed r
    → bucket_of source (release (acquire l source now).0 r).attempts ≡ active_of l source now
release-acquire l source now r v h =
    let (state, same) = acquired_state l source now r v h in
    let a = added l source now in
    let active = active_of l source now in
    let held = (pruned-IsValid l now v).distinct in
    rw
      (
        state,
        same,
        release_found (after_added l source now) a.reservation (active ++ a ∷ [])
            (lookup-insert_self source (active ++ a ∷ []) (pruned l now).attempts),
        keep_others active a
            (keep-IsBucket l.max_failures l.next_reservation_id (is_active l.window_ms now)
              (bucket_of source l.attempts)
              (bucket_of-IsBucket l.max_failures l.next_reservation_id source l.attempts
                v.buckets)).1,
      )
      (bucket_of-set_bucket source active _
        (insert-IsMap source (active ++ a ∷ []) (pruned l now).attempts held))

refused_state :
    (l : LocalLoginLimiter) (source : String) (now seconds : ℕ)
    → IsValid l
    → (acquire l source now).1 ≡ refused seconds
    → ((acquire l source now).0 ≡ pruned l now)
      × (l.max_failures ≤ length (active_of l source now))
      × (oldest_of (active_of l source now) now + l.window_ms ≤ now + 1000 * seconds)
unfolding acquire_active
refused_state l source now seconds v h = ground (arith, acquire_on l source now v)

-- Once the oldest attempt has run out, fewer are active.
oldest_expired :
    (w now later : ℕ) (b : List LocalLoginAttempt)
    → 1 ≤ length b
    → oldest_of b now + w ≤ later
    → length (keep (is_active w later) b) < length b
oldest_expired w now later [] p h = omega arith
oldest_expired w now later (a ∷ b) p h = ground (arith, length-keep-le (is_active w later) b)

-- In a valid limiter that allows some failures, a refused source may try again after the seconds
-- that it was told, if it made no other attempt.
pub lockout_ends :
    (l : LocalLoginLimiter) (source : String) (now seconds : ℕ)
    → IsValid l
    → 1 ≤ l.max_failures
    → (acquire l source now).1 ≡ refused seconds
    → (r : LocalLoginReservation) × ((acquire
          (acquire l source now).0
          source
          (now + 1000 * seconds)).1
        ≡ allowed r)
lockout_ends l source now seconds v p h =
    let (same, full, late) = refused_state l source now seconds v h in
    rw same (
      (acquire_iff (pruned l now) source (now + 1000 * seconds) (pruned-IsValid l now v)).1 (
        rw (bucket_of-prune source l.window_ms now l.attempts v.distinct) (
          omega (
            arith,
            oldest_expired l.window_ms now (now + 1000 * seconds) (active_of l source now)
                (omega arith) late,
            length-keep-le (is_active l.window_ms now) (bucket_of source l.attempts),
            (bucket_of-IsBucket l.max_failures l.next_reservation_id source l.attempts v.buckets).0,
          ))))
