-- ===== src/Limits/RateLimiter/Window.antt =====
-- mcp/rateLimit.ts: what one key is granted in a window, and what a refusal promises.
use recat_qbo.Prelude.Shared.{
  ◌∙◌, ℕ, ◌+◌, ◌*◌, ◌≤◌, ◌<◌, ◌≡◌, refl, ◌≢◌, ◌⊎◌, inl, inr, List, [], ◌∷◌, Option, none, some,
  String, arith, length, str_eq_iff, leb, if◌then◌else◌, Bool-cases,
}
use recat_qbo.Prelude.Assoc.{lookup, insert, erase, lookup-insert, lookup-erase_ne}
use recat_qbo.Limits.RateLimiter.{
  RateEntry, BoundedRateLimiter, RateLimitResult, allowed, refused, evict_oldest, is_over, charge,
  acquire_entry, acquire, size,
}

-- The times at which `e` still counts.
abbrev pub Within : ℕ → ℕ → ℕ → Type 0
Within start window t = (start ≤ t) × (t < start + window)

lookup-insert_self :
    (k : String) (e : RateEntry) (m : List (String × RateEntry)) → lookup k (insert k e m) ≡ some e
lookup-insert_self k e m = ground (arith, lookup-insert k k e m, str_eq_iff k k)

-- One call inside an open window, seen from the key: the count goes up while it is under the limit.
acquire-Within :
    (l : BoundedRateLimiter) (key : String) (now : ℕ) (e : RateEntry)
    → lookup key l.entries ≡ some e
    → Within e.window_started_at l.window_ms now
    → acquire l key now ≡ charge l key e now
unfolding acquire
acquire-Within l key now e h w = rw h (unfold acquire_entry is_over in ground arith)

lookup-charge :
    (l : BoundedRateLimiter) (key : String) (e : RateEntry) (now : ℕ)
    → lookup key (charge l key e now).0.entries
      ≡ some (if leb l.limit e.count then e else record e { count = e.count + 1 })
unfolding charge
lookup-charge l key e now = elim (Bool-cases (leb l.limit e.count)) [
  | inl full ↦ rw full (lookup-insert_self key e (erase key l.entries))
  | inr room ↦
      rw room (lookup-insert_self key (record e { count = e.count + 1 }) (erase key l.entries))
]

-- What a refusal says of the entry: its window is open, its count is used up, and the seconds are
-- the rest of the window, rounded up.
abbrev Refusal : BoundedRateLimiter → ℕ → ℕ → RateEntry → Type 0
Refusal l now seconds e =
    Within e.window_started_at l.window_ms now
    × (l.limit ≤ e.count)
    × (e.window_started_at + l.window_ms ≤ now + 1000 * seconds)
    × (now + 1000 * seconds < e.window_started_at + l.window_ms + 1000)

refused_entry :
    (o : Option RateEntry) (l : BoundedRateLimiter) (key : String) (now seconds : ℕ)
    → (acquire_entry o l key now).1 ≡ refused seconds
    → (e : RateEntry) × (o ≡ some e) × Refusal l now seconds e
unfolding acquire_entry
refused_entry none l key now seconds h = cc
refused_entry (some e) l key now seconds h = (e, refl, ground arith)

lookup_refused :
    (l : BoundedRateLimiter) (key : String) (now seconds : ℕ) (e : RateEntry)
    → lookup key l.entries ≡ some e
    → Refusal l now seconds e
    → lookup key (acquire l key now).0.entries ≡ some e
lookup_refused l key now seconds e h r =
    rw (acquire-Within l key now e h r.0) (rw (lookup-charge l key e now) (ground arith))

window_ms-acquire :
    (l : BoundedRateLimiter) (key : String) (now : ℕ)
    → (acquire l key now).0.window_ms ≡ l.window_ms
unfolding acquire
window_ms-acquire l key now = ground arith

acquire_over :
    (l : BoundedRateLimiter) (key : String) (now : ℕ) (e : RateEntry)
    → lookup key l.entries ≡ some e
    → e.window_started_at + l.window_ms ≤ now
    → (acquire l key now).1 ≡ allowed
unfolding acquire
acquire_over l key now e h o = rw h (unfold acquire_entry in ground arith)

-- A refused key may try again after the seconds that it was told: if nothing else came between, the
-- call that is then made is allowed.
pub retry_after_suffices :
    (l : BoundedRateLimiter) (key : String) (now seconds : ℕ)
    → (acquire l key now).1 ≡ refused seconds
    → (acquire (acquire l key now).0 key (now + 1000 * seconds)).1 ≡ allowed
unfolding acquire
retry_after_suffices l key now seconds h =
    let (e, found, r) = refused_entry (lookup key l.entries) l key now seconds h in
    acquire_over (acquire l key now).0 key (now + 1000 * seconds) e
      (lookup_refused l key now seconds e found r) (omega (arith, window_ms-acquire l key now, r.2))

abbrev pub grant : RateLimitResult → ℕ
grant allowed = 1
grant (refused _) = 0

-- How many of the calls of one key are allowed.
pub granted : BoundedRateLimiter → String → List ℕ → ℕ
granted l key [] = 0
granted l key (t ∷ ts) = let r = acquire l key t in grant r.1 + granted r.0 key ts

evict_oldest_room :
    (most : ℕ) (m : List (String × RateEntry)) → length m < most → evict_oldest most m ≡ m
unfolding evict_oldest
evict_oldest_room most [] h = refl
evict_oldest_room most ((k, e) ∷ m) h = ground arith

lookup-insert_ne :
    (key other : String) (e : RateEntry) (m : List (String × RateEntry))
    → key ≢ other
    → lookup other (insert key e m) ≡ lookup other m
lookup-insert_ne key other e m h = ground (arith, lookup-insert key other e m, str_eq_iff key other)

lookup-moved :
    (key other : String) (e : RateEntry) (m : List (String × RateEntry))
    → key ≢ other
    → lookup other (insert key e (erase key m)) ≡ lookup other m
lookup-moved key other e m h =
    lookup-insert_ne key other e (erase key m) h ∙ lookup-erase_ne key other m h

acquire_entry_isolated :
    (o : Option RateEntry) (l : BoundedRateLimiter) (key other : String) (now : ℕ)
    → key ≢ other
    → (size l < l.max_keys) ⊎ (o ≢ none)
    → lookup other (acquire_entry o l key now).0.entries ≡ lookup other l.entries
unfolding acquire_entry
acquire_entry_isolated none l key other now h (inl room) =
    rw (evict_oldest_room l.max_keys l.entries room) (lookup-insert_ne key other _ l.entries h)
acquire_entry_isolated none l key other now h (inr held) = absurd (held refl)
acquire_entry_isolated (some e) l key other now h room = ground (
  arith,
  lookup-moved key other e l.entries h,
  lookup-moved key other (record { count = 1; window_started_at = now }) l.entries h,
  lookup-moved key other (record e { count = e.count + 1 }) l.entries h,
)

-- A call for one key leaves the entry of any other key as it was, unless the map is full and the
-- call brings a key that it does not hold.
pub acquire_isolated :
    (l : BoundedRateLimiter) (key other : String) (now : ℕ)
    → key ≢ other
    → (size l < l.max_keys) ⊎ (lookup key l.entries ≢ none)
    → lookup other (acquire l key now).0.entries ≡ lookup other l.entries
unfolding acquire
acquire_isolated l key other now h room =
    acquire_entry_isolated (lookup key l.entries) l key other now h room
