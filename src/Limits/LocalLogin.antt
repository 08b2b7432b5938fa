-- ===== src/Limits/LocalLogin.antt =====
-- services/localLoginLimiter.ts: the `LocalLoginLimiter`. The map of attempts is an association list
-- in insertion order; the clock is an argument. A reservation is an object that `release` compares by
-- identity: every one is made by `acquire` with an id of its own, so the id stands for the object.
pub mod Pruning
pub mod Buckets
pub mod Lockout
mod Tests
use recat_qbo.Prelude.Shared.{
  ℕ, suc, ◌+◌, ◌-◌, ◌/◌, Bool, not, List, [], ◌∷◌, ◌++◌, Option, none, some, String, ltb, leb, ◌==◌,
  if◌then◌else◌, length, keep,
}
use recat_qbo.Prelude.Assoc.{lookup, insert, erase}
use Prim.Native.Nat.{max}

abbrev pub local_login_max_failures : ℕ
local_login_max_failures = 5

abbrev pub local_login_window_ms : ℕ
local_login_window_ms = 900_000

abbrev pub local_login_shared_window_ms : ℕ
local_login_shared_window_ms = 60_000

pub login_lockout_window_ms : Bool → ℕ
login_lockout_window_ms per_client_keys =
    if per_client_keys then local_login_window_ms else local_login_shared_window_ms

pub record LocalLoginReservation : Type 0 where
  pub source : String
  pub id : ℕ

pub record LocalLoginAttempt : Type 0 where
  pub timestamp : ℕ
  pub reservation : LocalLoginReservation

pub data LocalLoginAcquireResult : Type 0 where
  allowed : LocalLoginReservation → LocalLoginAcquireResult
  refused : ℕ → LocalLoginAcquireResult

pub record LocalLoginLimiter : Type 0 where
  pub attempts : List (String × List LocalLoginAttempt)
  pub next_reservation_id : ℕ
  pub max_failures : ℕ
  pub window_ms : ℕ

unfoldable pub create : ℕ → ℕ → LocalLoginLimiter
create max_failures window_ms = record {
  attempts = [];
  next_reservation_id = 0;
  max_failures = max_failures;
  window_ms = window_ms;
}

-- `timestamp > now - windowMs`; the cutoff may be negative, so the window is added on the other side.
abbrev pub is_active : ℕ → ℕ → LocalLoginAttempt → Bool
is_active window now a = ltb now (a.timestamp + window)

-- A bucket that the filter empties leaves the map; any other keeps its place.
abbrev pub put_bucket :
    String
    → List LocalLoginAttempt
    → List (String × List LocalLoginAttempt)
    → List (String × List LocalLoginAttempt)
put_bucket key [] m = m
put_bucket key (a ∷ as') m = (key, a ∷ as') ∷ m

-- `prune`: the loop over the map deletes or overwrites the entry that it stands at.
unfoldable pub prune :
    ℕ → ℕ → List (String × List LocalLoginAttempt) → List (String × List LocalLoginAttempt)
prune window now [] = []
prune window now ((key, bucket) ∷ m) =
    put_bucket key (keep (is_active window now) bucket) (prune window now m)

-- `this.attempts.get(source) ?? []`
abbrev pub bucket_of : String → List (String × List LocalLoginAttempt) → List LocalLoginAttempt
bucket_of source m = elim (lookup source m) [ none ↦ [] | some b ↦ b ]

-- `active[0]?.timestamp ?? now`
abbrev pub oldest_of : List LocalLoginAttempt → ℕ → ℕ
oldest_of [] now = now
oldest_of (a ∷ _) now = a.timestamp

-- `oldest + windowMs - now` is positive for an active attempt, and 0 gives the same seconds as a
-- negative number would: at least one.
unfoldable pub acquire_active :
    List LocalLoginAttempt
    → LocalLoginLimiter
    → String
    → ℕ
    → LocalLoginLimiter × LocalLoginAcquireResult
acquire_active active l source now =
    if leb l.max_failures (length active)
    then (l, refused (max 1 ((oldest_of active now + l.window_ms - now + 999) / 1000)))
    else let r : LocalLoginReservation = record { source = source; id = l.next_reservation_id } in
      (
        record l {
          next_reservation_id = l.next_reservation_id + 1;
          attempts =
              insert source (active ++ record { timestamp = now; reservation = r } ∷ []) l.attempts;
        },
        allowed r,
      )

unfoldable pub acquire :
    LocalLoginLimiter → String → ℕ → LocalLoginLimiter × LocalLoginAcquireResult
unfolding acquire_active prune
acquire l source now =
    let pruned = record l { attempts = prune l.window_ms now l.attempts } in
    acquire_active (bucket_of source pruned.attempts) pruned source now

-- Deletes an emptied bucket, and overwrites any other.
abbrev pub set_bucket :
    String
    → List LocalLoginAttempt
    → List (String × List LocalLoginAttempt)
    → List (String × List LocalLoginAttempt)
set_bucket key [] m = erase key m
set_bucket key (a ∷ as') m = insert key (a ∷ as') m

abbrev pub is_other : LocalLoginReservation → LocalLoginAttempt → Bool
is_other r a = not (a.reservation.id == r.id)

unfoldable pub release : LocalLoginLimiter → LocalLoginReservation → LocalLoginLimiter
release l r = elim (lookup r.source l.attempts) [
  | none ↦ l
  | some active ↦ record l { attempts = set_bucket r.source (keep (is_other r) active) l.attempts }
]

unfoldable pub clear : LocalLoginLimiter → String → LocalLoginLimiter
clear l source = record l { attempts = erase source l.attempts }

unfoldable pub reset : LocalLoginLimiter → LocalLoginLimiter
reset l = record l { attempts = [] }
