-- ===== src/Limits/RateLimiter/Tests.antt =====
-- mcp/rateLimit.ts: runs of a small limiter, two requests a minute for two keys.
use recat_qbo.Prelude.Shared.{◌≡◌, refl, [], ◌∷◌, some, ◌+◌}
use recat_qbo.Limits.RateLimiter.{
  RateLimiterOptions, BoundedRateLimiter, allowed, refused, create, acquire,
}
use recat_qbo.Limits.RateLimiter.Bounds.{IsValid, run, run-IsValid}
use recat_qbo.Limits.RateLimiter.Window.{retry_after_suffices}

abbrev options : RateLimiterOptions
options = record { limit = 2; window_ms = 60_000; max_keys = 2 }

abbrev empty : BoundedRateLimiter
empty = record { entries = []; limit = 2; window_ms = 60_000; max_keys = 2 }

abbrev spent : BoundedRateLimiter
spent = record empty { entries = ("a", record { count = 2; window_started_at = 1_000 }) ∷ [] }

created : create options ≡ some empty
unfolding create
created = refl

-- A third key takes the place of the oldest.
third_key :
    (run empty (("a", 0) ∷ ("b", 1) ∷ ("c", 2) ∷ [])).entries
    ≡ ("b", record { count = 1; window_started_at = 1 })
      ∷ ("c", record { count = 1; window_started_at = 2 })
      ∷ []
unfolding run acquire
third_key = refl

run-IsValid_example : IsValid (run empty (("a", 0) ∷ ("b", 1) ∷ ("c", 2) ∷ []))
run-IsValid_example = run-IsValid options empty (("a", 0) ∷ ("b", 1) ∷ ("c", 2) ∷ []) created

spent_refused : (acquire spent "a" 2_500).1 ≡ refused 59
unfolding acquire
spent_refused = refl

retry_after_suffices_example :
    (acquire (acquire spent "a" 2_500).0 "a" (2_500 + 59_000)).1 ≡ allowed
retry_after_suffices_example = retry_after_suffices spent "a" 2_500 59 spent_refused
