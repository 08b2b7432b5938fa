-- ===== src/Limits/RateLimiter.antt =====
-- mcp/rateLimit.ts: the `BoundedRateLimiter`. Its map is an association list in insertion order;
-- the clock is an argument of each call.
pub mod Bounds
pub mod Window
mod Tests
use recat_qbo.Prelude.Shared.{
  ℕ, ◌+◌, ◌-◌, ◌/◌, Bool, true, false, ◌||◌, List, [], ◌∷◌, Option, none, some, String, ltb, leb,
  if◌then◌else◌, length,
}
use recat_qbo.Prelude.Assoc.{lookup, insert, erase}
use Prim.Native.Nat.{max}

-- `RateEntry`.
pub record RateEntry : Type 0 where
  pub count : ℕ
  pub window_started_at : ℕ

pub record RateLimiterOptions : Type 0 where
  pub limit : ℕ
  pub window_ms : ℕ
  pub max_keys : ℕ

pub record BoundedRateLimiter : Type 0 where
  pub entries : List (String × RateEntry)
  pub limit : ℕ
  pub window_ms : ℕ
  pub max_keys : ℕ

pub data RateLimitResult : Type 0 where
  allowed : RateLimitResult
  refused : ℕ → RateLimitResult

abbrev pub max_keys_bound : ℕ
max_keys_bound = 100_000

abbrev pub max_limit : ℕ
max_limit = 1_000_000

abbrev pub max_window_ms : ℕ
max_window_ms = 86_400_000

-- The constructor; `none` is its exception. The bounds lie below the largest safe integer, so that
-- on natural numbers the test for safe integers adds nothing.
unfoldable pub create : RateLimiterOptions → Option BoundedRateLimiter
create o =
    if ltb o.limit 1
      || ltb max_limit o.limit
      || ltb o.window_ms 1
      || ltb max_window_ms o.window_ms
      || ltb o.max_keys 1
      || ltb max_keys_bound o.max_keys
    then none
    else some
        (record { entries = []; limit = o.limit; window_ms = o.window_ms; max_keys = o.max_keys })

abbrev pub size : BoundedRateLimiter → ℕ
size l = length l.entries

-- `Math.ceil(ms / 1_000)`.
abbrev pub ceil_seconds : ℕ → ℕ
ceil_seconds ms = (ms + 999) / 1000

-- The oldest key makes room when the map is full.
unfoldable pub evict_oldest : ℕ → List (String × RateEntry) → List (String × RateEntry)
evict_oldest most [] = []
evict_oldest most ((k, e) ∷ m) =
    if leb most (length ((k, e) ∷ m)) then erase k ((k, e) ∷ m) else (k, e) ∷ m

-- The window of an entry has run out, or the clock went back.
unfoldable pub is_over : ℕ → RateEntry → ℕ → Bool
is_over window e now = ltb now e.window_started_at || leb window (now - e.window_started_at)

unfoldable pub open_window :
    BoundedRateLimiter → String → ℕ → List (String × RateEntry) → BoundedRateLimiter
open_window l key now room = record l {
  entries = insert key (record { count = 1; window_started_at = now }) room;
}

-- The branch of a key whose window is still open: the entry moves to the end of the map.
unfoldable pub charge :
    BoundedRateLimiter → String → RateEntry → ℕ → BoundedRateLimiter × RateLimitResult
charge l key e now =
    if leb l.limit e.count
    then (
      record l { entries = insert key e (erase key l.entries) },
      refused (max 1 (ceil_seconds (max 1 (l.window_ms - (now - e.window_started_at))))),
    )
    else (
      record l { entries = insert key (record e { count = e.count + 1 }) (erase key l.entries) },
      allowed,
    )

unfoldable pub acquire_entry :
    Option RateEntry → BoundedRateLimiter → String → ℕ → BoundedRateLimiter × RateLimitResult
unfolding is_over open_window charge evict_oldest
acquire_entry none l key now = (open_window l key now (evict_oldest l.max_keys l.entries), allowed)
acquire_entry (some e) l key now =
    if is_over l.window_ms e now
    then (open_window l key now (erase key l.entries), allowed)
    else charge l key e now

unfoldable pub acquire : BoundedRateLimiter → String → ℕ → BoundedRateLimiter × RateLimitResult
unfolding acquire_entry
acquire l key now = acquire_entry (lookup key l.entries) l key now
