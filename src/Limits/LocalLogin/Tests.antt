-- ===== src/Limits/LocalLogin/Tests.antt =====
-- services/localLoginLimiter.ts: runs of a limiter of two failures a minute.
use recat_qbo.Prelude.Shared.{◌≡◌, refl, List, [], ◌∷◌, arith, ◌+◌}
use recat_qbo.Limits.LocalLogin.{
  LocalLoginReservation, LocalLoginLimiter, allowed, refused, bucket_of, create, acquire, release,
}
use recat_qbo.Limits.LocalLogin.Buckets.{run, step, Call, acquires, attempts_bounded}
use recat_qbo.Limits.LocalLogin.Pruning.{IsValid}
use recat_qbo.Limits.LocalLogin.Lockout.{active_of, release-acquire, lockout_ends}

abbrev calls : List Call
calls = acquires "a" 1_000 ∷ acquires "a" 2_000 ∷ acquires "b" 3_000 ∷ []

abbrev busy : LocalLoginLimiter
busy = run (create 2 60_000) calls

busy-IsValid : IsValid busy
busy-IsValid = attempts_bounded 2 60_000 calls

busy_refused : (acquire busy "a" 4_500).1 ≡ refused 57
unfolding run step acquire create
busy_refused = refl

busy_later : (acquire busy "a" 61_500).1 ≡ allowed (record { source = "a"; id = 3 })
unfolding run step acquire create
busy_later = refl

release-acquire_example :
    bucket_of "a" (release (acquire busy "a" 61_500).0 (record { source = "a"; id = 3 })).attempts
    ≡ active_of busy "a" 61_500
release-acquire_example =
    release-acquire busy "a" 61_500 (record { source = "a"; id = 3 }) busy-IsValid busy_later

lockout_ends_example :
    (r : LocalLoginReservation) × ((acquire (acquire busy "a" 4_500).0 "a" (4_500 + 57_000)).1
      ≡ allowed r)
unfolding run step acquire create
lockout_ends_example = lockout_ends busy "a" 4_500 57 busy-IsValid (omega arith) busy_refused
