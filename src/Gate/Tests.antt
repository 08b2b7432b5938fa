-- ===== src/Gate/Tests.antt =====
-- lib/qbo/getGate.ts: a request that meets a rate limit, and the next one.
use recat_qbo.Prelude.Shared.{◌≤◌, refl, [], ◌∷◌, ◌++◌}
use recat_qbo.Gate.{
  GetGateState, state_for, start_get, release, note_qbo_rate_limit, is_open, started, limited,
  aborted, Run, starts, limits, aborts, end, step,
}
use recat_qbo.Gate.Delay.{holds_back_to, gate_delay}

abbrev after_limit : GetGateState
after_limit = note_qbo_rate_limit 3 1100 (release (start_get 1000 state_for))

abbrev limited_run :
    Run
      (start_get 1000 state_for)
      (limited 3 1100 ∷ (aborted 2000 ∷ []) ++ started 4100 ∷ [])
      (start_get 4100 after_limit)
unfolding start_get note_qbo_rate_limit is_open
limited_run = step (limits refl) (step aborts (step (starts refl refl) end))

gate_delay_example : holds_back_to (limited 3 1100) ≤ 4100
gate_delay_example =
    gate_delay (start_get 1000 state_for) (start_get 4100 after_limit) (limited 3 1100)
      (aborted 2000 ∷ []) 4100 limited_run
