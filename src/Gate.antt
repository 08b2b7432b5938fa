-- ===== src/Gate.antt =====
-- server/src/lib/qbo/getGate.ts: the gate that QuickBooks GETs of one key pass one after the other. Its
-- clock is an argument; a turn holds the gate from its start to its end, and the promise chain of the
-- source lets the next one in after that. A `Retry-After` header is given as what it is read as.
pub mod Delay
mod Tests
use recat_qbo.Prelude.Shared.{
  ℕ, ◌+◌, ◌-◌, ◌*◌, ◌/◌, ◌≡◌, Bool, true, false, List, [], ◌∷◌, leb, if◌then◌else◌,
}
use Prim.Native.Nat.{max, min}

abbrev pub min_start_spacing_ms : ℕ
min_start_spacing_ms = 500

abbrev pub min_retry_seconds : ℕ
min_retry_seconds = 1

abbrev pub max_retry_seconds : ℕ
max_retry_seconds = 60

abbrev pub fallback_seconds : ℕ
fallback_seconds = 5

pub record GetGateState : Type 0 where
  pub next_start_at : ℕ
  pub not_before : ℕ
  pub is_held : Bool

-- `stateFor` a new key.
abbrev pub state_for : GetGateState
state_for = record { next_start_at = 0; not_before = 0; is_held = false }

-- The earliest start, and the test of the loop that waits for it.
abbrev pub deadline : GetGateState → ℕ
deadline s = max s.next_start_at s.not_before

unfoldable pub is_open : GetGateState → ℕ → Bool
is_open s now = leb (deadline s) now

unfoldable pub start_get : ℕ → GetGateState → GetGateState
start_get now s = record s { next_start_at = now + min_start_spacing_ms; is_held = true }

abbrev pub release : GetGateState → GetGateState
release s = record s { is_held = false }

unfoldable pub note_qbo_rate_limit : ℕ → ℕ → GetGateState → GetGateState
note_qbo_rate_limit retry_after_seconds now s = record s {
  not_before = max s.not_before (now + retry_after_seconds * 1000);
}

pub data RetryAfter : Type 0 where
  missing unreadable : RetryAfter
  delay : ℕ → RetryAfter
  date : ℕ → RetryAfter

abbrev pub max_safe_integer : ℕ
max_safe_integer = 9_007_199_254_740_991

abbrev pub clamp_retry_after : ℕ → ℕ
clamp_retry_after seconds = min max_retry_seconds (max min_retry_seconds seconds)

-- A date that is past gives no seconds, which the clamp raises to one.
unfoldable pub retry_after_seconds_from_header : RetryAfter → ℕ → ℕ
retry_after_seconds_from_header missing now = fallback_seconds
retry_after_seconds_from_header unreadable now = fallback_seconds
retry_after_seconds_from_header (delay seconds) now =
    if leb seconds max_safe_integer then clamp_retry_after seconds else fallback_seconds
retry_after_seconds_from_header (date ms) now = clamp_retry_after ((ms - now + 999) / 1000)

pub data Event : Type 0 where
  started returned aborted : ℕ → Event
  limited noted : ℕ → ℕ → Event

-- What can happen at a gate: a waiting turn starts when the gate is free and open, or gives up; the
-- turn that holds it ends, perhaps with a rate limit; another request notes a rate limit.
pub data Step : GetGateState → Event → GetGateState → Type 0 where
  starts :
      {s : GetGateState} {now : ℕ}
      → s.is_held ≡ false
      → is_open s now ≡ true
      → Step s (started now) (start_get now s)
  returns : {s : GetGateState} {now : ℕ} → s.is_held ≡ true → Step s (returned now) (release s)
  limits :
      {s : GetGateState} {retry now : ℕ}
      → s.is_held ≡ true
      → Step s (limited retry now) (note_qbo_rate_limit retry now (release s))
  notes :
      {s : GetGateState} {retry now : ℕ}
      → Step s (noted retry now) (note_qbo_rate_limit retry now s)
  aborts : {s : GetGateState} {now : ℕ} → Step s (aborted now) s

pub data Run : GetGateState → List Event → GetGateState → Type 0 where
  end : {s : GetGateState} → Run s [] s
  step :
      {s t u : GetGateState} {e : Event} {es : List Event}
      → Step s e t
      → Run t es u
      → Run s (e ∷ es) u
