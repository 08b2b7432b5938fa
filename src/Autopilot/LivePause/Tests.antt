-- ===== src/Autopilot/LivePause/Tests.antt =====
-- services/agent/livePause.ts: runs on one company.
use recat_qbo.Prelude.Shared.{ℕ, ◌≤◌, ◌≡◌, refl, true, List, [], ◌∷◌, none, some, All}
use recat_qbo.Autopilot.LivePause.{
  LivePauseCode, LivePauseConfig, code_text, safe_live_pause_state, pause_priority,
  as_live_pause_code, is_paused, qbo_error_burst, worker_unhealthy, evidence_insufficient,
  pause_config,
}
use recat_qbo.Autopilot.LivePause.Strongest.{pause_all, Covers, strongest_kept}

abbrev live : LivePauseConfig
live = record {
  live_requested = true;
  live_enabled_at = some 5;
  live_paused_at = none;
  live_pause_code = none;
  live_pause_message = none;
}

abbrev unknown : LivePauseConfig
unknown = record live { live_paused_at = some 7; live_pause_code = some "FROM_A_LATER_VERSION" }

abbrev calls : List (LivePauseCode × ℕ)
calls = (worker_unhealthy, 10) ∷ (qbo_error_burst, 11) ∷ (evidence_insufficient, 12) ∷ []

strongest_kept_example :
    All (Covers (pause_all calls live)) calls
    × (is_paused live ≡ true
        → (is_paused (pause_all calls live) ≡ true)
          × (pause_priority (pause_all calls live).live_pause_code
              ≤ pause_priority live.live_pause_code))
strongest_kept_example = strongest_kept calls live refl

burst_wins : (pause_all calls live).live_pause_code ≡ some "QBO_ERROR_BURST"
unfolding pause_all pause_config pause_priority code_text
burst_wins = refl

unknown_is_shown : (safe_live_pause_state (some unknown)).pause_code ≡ some "UNAVAILABLE"
unfolding safe_live_pause_state as_live_pause_code
unknown_is_shown = refl
