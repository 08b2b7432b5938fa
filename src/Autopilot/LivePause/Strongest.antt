-- ===== src/Autopilot/LivePause/Strongest.antt =====
-- services/agent/livePause.ts: the strongest reason for a pause stays, and a paused autopilot is off.
use recat_qbo.Prelude.Shared.{
  ℕ, ◌≤◌, ◌<◌, ◌≡◌, refl, inl, inr, true, List, [], ◌∷◌, some, All, arith, Bool-cases,
}
use recat_qbo.Autopilot.LivePause.{
  LivePauseCode, code_text, LivePauseConfig, pause_config, pause_priority, readback_mismatch,
  uncertain_mutation, manual_pause, qbo_error_burst, provider_error_burst, tax_reference_stale,
  lease_health_failed, verifier_not_distinct, policy_config_changed, shadow_disagreement_degraded,
  shadow_abstention_degraded, breaker_evidence_invalid, shadow_mode_unhealthy,
  evidence_insufficient, shadow_agreement_insufficient, shadow_abstention_excessive,
  shadow_error_rate_excessive, provider_unhealthy, qbo_disconnected, writeback_disabled,
  unresolved_mutation, worker_unhealthy, live_policy_not_accepted, is_paused, keeps_pause,
}

-- Requests to pause one company, each at its time.
unfoldable pub pause_all : List (LivePauseCode × ℕ) → LivePauseConfig → LivePauseConfig
pause_all [] c = c
pause_all ((code, now) ∷ calls) c = pause_all calls (pause_config code now c)

abbrev pub Covers : LivePauseConfig → LivePauseCode × ℕ → Type 0
Covers c call =
    (is_paused c ≡ true)
    × (pause_priority c.live_pause_code ≤ pause_priority (some (code_text (call.0))))

pub pause_config_lem :
    (code : LivePauseCode) (now : ℕ) (c : LivePauseConfig)
    → c.live_requested ≡ true
    → ((pause_config code now c).live_requested ≡ true)
      × (Covers (pause_config code now c) (code, now)
          × (is_paused c ≡ true
              → pause_priority (pause_config code now c).live_pause_code
                ≤ pause_priority c.live_pause_code))
unfolding pause_config
pause_config_lem code now c requested = elim (Bool-cases (keeps_pause c code)) [
  | inl keeps ↦ ground (arith, requested, keeps)
  | inr takes ↦ ground (arith, requested, takes)
]

pause_all_stronger :
    (calls : List (LivePauseCode × ℕ)) (c : LivePauseConfig)
    → is_paused c ≡ true
    → (is_paused (pause_all calls c) ≡ true)
      × (pause_priority (pause_all calls c).live_pause_code ≤ pause_priority c.live_pause_code)
unfolding pause_all
pause_all_stronger [] c paused = (paused, omega arith)
pause_all_stronger ((code, now) ∷ calls) c paused =
    let requested : c.live_requested ≡ true = ground arith in
    let first = pause_config_lem code now c requested in
    let rest = pause_all_stronger calls (pause_config code now c) first.1.0.0 in
    (rest.0, omega (arith, rest.1, first.1.1 paused))

pause_all-Covers :
    (calls : List (LivePauseCode × ℕ)) (c : LivePauseConfig)
    → c.live_requested ≡ true
    → All (Covers (pause_all calls c)) calls
unfolding pause_all
pause_all-Covers [] c requested = tt
pause_all-Covers ((code, now) ∷ calls) c requested =
    let first = pause_config_lem code now c requested in
    let rest = pause_all_stronger calls (pause_config code now c) first.1.0.0 in
    (
      (rest.0, omega (arith, rest.1, first.1.0.1)),
      pause_all-Covers calls (pause_config code now c) first.0,
    )

-- After any requests to pause a company that asked for live mode, it is paused if there was a
-- request or it was before, for a reason at least as strong as every request's and as the one that
-- it was paused for at first.
pub strongest_kept :
    (calls : List (LivePauseCode × ℕ)) (c : LivePauseConfig)
    → c.live_requested ≡ true
    → All (Covers (pause_all calls c)) calls
      × (is_paused c ≡ true
          → (is_paused (pause_all calls c) ≡ true)
            × (pause_priority (pause_all calls c).live_pause_code
                ≤ pause_priority c.live_pause_code))
strongest_kept calls c requested = (pause_all-Covers calls c requested, pause_all_stronger calls c)

-- Every code has a place in the order, so that only texts that are no code have none.
pub code_ranked : (code : LivePauseCode) → 0 < pause_priority (some (code_text code))
unfolding pause_priority code_text
code_ranked readback_mismatch = omega arith
code_ranked uncertain_mutation = omega arith
code_ranked manual_pause = omega arith
code_ranked qbo_error_burst = omega arith
code_ranked provider_error_burst = omega arith
code_ranked tax_reference_stale = omega arith
code_ranked lease_health_failed = omega arith
code_ranked verifier_not_distinct = omega arith
code_ranked policy_config_changed = omega arith
code_ranked shadow_disagreement_degraded = omega arith
code_ranked shadow_abstention_degraded = omega arith
code_ranked breaker_evidence_invalid = omega arith
code_ranked shadow_mode_unhealthy = omega arith
code_ranked evidence_insufficient = omega arith
code_ranked shadow_agreement_insufficient = omega arith
code_ranked shadow_abstention_excessive = omega arith
code_ranked shadow_error_rate_excessive = omega arith
code_ranked provider_unhealthy = omega arith
code_ranked qbo_disconnected = omega arith
code_ranked writeback_disabled = omega arith
code_ranked unresolved_mutation = omega arith
code_ranked worker_unhealthy = omega arith
code_ranked live_policy_not_accepted = omega arith

-- A pause for a reason that is no known code stays as it is whatever is asked for later.
pub unknown_pause_kept :
    (calls : List (LivePauseCode × ℕ)) (c : LivePauseConfig)
    → is_paused c ≡ true
    → pause_priority c.live_pause_code ≡ 0
    → pause_all calls c ≡ c
unfolding pause_all pause_config
unknown_pause_kept [] c paused unknown = refl
unknown_pause_kept ((code, now) ∷ calls) c paused unknown =
    let same : pause_config code now c ≡ c = ground arith in
    rw same (unknown_pause_kept calls c paused unknown)
