-- ===== src/Gate/Delay.antt =====
-- lib/qbo/getGate.ts: how long a request is held back.
use recat_qbo.Prelude.Shared.{ℕ, ◌+◌, ◌*◌, ◌≤◌, List, [], ◌∷◌, ◌++◌, arith}
use recat_qbo.Gate.{
  GetGateState, deadline, is_open, start_get, note_qbo_rate_limit, RetryAfter, missing, unreadable,
  delay, date, retry_after_seconds_from_header, Event, started, returned, aborted, limited, noted,
  Step, starts, returns, limits, notes, aborts, Run, step,
}

-- The time before which an event lets no later request start.
abbrev pub holds_back_to : Event → ℕ
holds_back_to (started now) = now + 500
holds_back_to (limited retry now) = now + retry * 1000
holds_back_to (noted retry now) = now + retry * 1000
holds_back_to (returned now) = 0
holds_back_to (aborted now) = 0

deadline_mono :
    {s t : GetGateState} {e : Event}
    → Step s e t
    → (deadline s ≤ deadline t) × (holds_back_to e ≤ deadline t)
unfolding is_open start_get note_qbo_rate_limit
deadline_mono (starts free opened) = ground (arith, opened)
deadline_mono (returns held) = ground arith
deadline_mono (limits held) = ground arith
deadline_mono notes = ground arith
deadline_mono aborts = ground arith

start_late :
    {s u : GetGateState} {now : ℕ} (mid : List Event)
    → Run s (mid ++ started now ∷ []) u
    → deadline s ≤ now
unfolding is_open
start_late [] (step (starts free opened) rest) = ground (arith, opened)
start_late (e ∷ mid) (step first rest) = omega (arith, (deadline_mono first).0, start_late mid rest)

-- Whatever happens at a gate in between, a request starts at least half a second after any that
-- started before it, and not before the end of any rate limit that was met or noted before it.
pub gate_delay :
    (s u : GetGateState) (e : Event) (mid : List Event) (now : ℕ)
    → Run s (e ∷ mid ++ started now ∷ []) u
    → holds_back_to e ≤ now
gate_delay s u e mid now (step first rest) =
    omega (arith, (deadline_mono first).1, start_late mid rest)

-- Whatever the header says, the wait is between one second and a minute.
pub retry_after_bounded :
    (header : RetryAfter) (now : ℕ)
    → (1 ≤ retry_after_seconds_from_header header now)
      × (retry_after_seconds_from_header header now ≤ 60)
unfolding retry_after_seconds_from_header
retry_after_bounded missing now = ground arith
retry_after_bounded unreadable now = ground arith
retry_after_bounded (delay seconds) now = ground arith
retry_after_bounded (date ms) now = ground arith
