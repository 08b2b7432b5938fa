-- ===== src/Autopilot/Breaker.antt =====
-- server/src/services/agent/circuitBreaker.ts: the breaker that pauses the autopilot when its evidence
-- turns bad. A count is a natural number, and a date is `none` where it is an invalid `Date`. A rate
-- is kept as a fraction and compared exactly, which is what the doubles give for counts below 2 ^ 45.
pub mod Selection
pub mod Healthy
mod Tests
use recat_qbo.Prelude.Shared.{
  ℕ, ◌+◌, ◌-◌, ◌*◌, Bool, true, false, ◌&&◌, ◌||◌, not, List, [], ◌∷◌, Option, none, some, String,
  ltb, leb, ◌==◌, str_eq, opt_str_eq, if◌then◌else◌, any, all, find, is_none,
}
use recat_qbo.Prelude.Texts.{is_blank, utf16_length}
use recat_qbo.Autopilot.LivePause.{
  LivePauseCode, code_text, live_pause_priority, LivePauseConfig, LivePauseStateDto,
  persist_strongest_live_pause, breaker_evidence_invalid, uncertain_mutation, readback_mismatch,
  qbo_error_burst, provider_error_burst, tax_reference_stale, lease_health_failed,
  verifier_not_distinct, policy_config_changed, shadow_disagreement_degraded,
  shadow_abstention_degraded, manual_pause,
}

pub record IdentityProof : Type 0 where
  pub version : ℕ
  pub provider_binding : String
  pub decision_identity : String
  pub verifier_identity : String

pub record LiveBreakerEvidence : Type 0 where
  pub version : ℕ
  pub company_id : String
  pub config_version : String
  pub accepted_config_version : Option String
  pub accepted_provider_binding : Option String
  pub current_provider_binding : String
  pub policy_accepted : Bool
  pub completed_since : Option ℕ
  pub completed_through : Option ℕ
  pub eligible_runs : ℕ
  pub agreements : ℕ
  pub disagreements : ℕ
  pub abstentions : ℕ
  pub provider_errors : ℕ
  pub qbo_errors : ℕ
  pub unclassified_errors : ℕ
  pub uncertain_mutations : ℕ
  pub readback_mismatches : ℕ
  pub tax_reference_status : String
  pub tax_reference_refreshed_at : Option (Option ℕ)
  pub lease_healthy : Bool
  pub identity_proof : Option IdentityProof

abbrev pub max_safe_integer : ℕ
max_safe_integer = 9_007_199_254_740_991

abbrev pub tax_reference_ttl_ms : ℕ
tax_reference_ttl_ms = 24 * 60 * 60 * 1000

abbrev pub safe_count : ℕ → Bool
safe_count n = leb n max_safe_integer

-- What `rate` gives: a fraction, or infinity.
pub data Rate : Type 0 where
  infinite : Rate
  ratio : ℕ → ℕ → Rate

abbrev pub rate : ℕ → ℕ → Rate
rate numerator denominator =
    if not (safe_count numerator) || (not (safe_count denominator) || denominator == 0)
    then infinite
    else ratio numerator denominator

-- A rate against a number of hundredths.
abbrev pub is_above : Rate → ℕ → Bool
is_above infinite hundredths = true
is_above (ratio n d) hundredths = ltb (hundredths * d) (100 * n)

abbrev pub is_below : Rate → ℕ → Bool
is_below infinite hundredths = false
is_below (ratio n d) hundredths = ltb (100 * n) (hundredths * d)

abbrev pub min_shadow_agreement : ℕ
min_shadow_agreement = 98

abbrev pub max_shadow_abstention : ℕ
max_shadow_abstention = 25

abbrev pub max_error : ℕ
max_error = 5

abbrev pub valid_identity_proof : Option IdentityProof → String → Bool
valid_identity_proof none binding = false
valid_identity_proof (some p) binding =
    p.version == 1
    && (str_eq p.provider_binding binding
        && (not (is_blank p.decision_identity) && not (is_blank p.verifier_identity)))

-- The three tests of the window.
abbrev pub valid_window : Option ℕ → Option ℕ → ℕ → Bool
valid_window (some since) (some through) now = leb since through && through == now
valid_window _ _ now = false

abbrev pub counts : LiveBreakerEvidence → List ℕ
counts e =
    e.eligible_runs ∷ e.agreements ∷ e.disagreements ∷ e.abstentions ∷ e.provider_errors
    ∷ e.qbo_errors ∷ e.unclassified_errors ∷ e.uncertain_mutations ∷ e.readback_mismatches ∷ []

unfoldable pub valid_evidence : LiveBreakerEvidence → String → ℕ → Bool
valid_evidence e company_id now =
    e.version == 1
    && (str_eq e.company_id company_id
        && (not (is_blank e.config_version)
            && (not (is_blank e.current_provider_binding)
                && (valid_identity_proof e.identity_proof e.current_provider_binding
                    && (valid_window e.completed_since e.completed_through now
                        && (all safe_count (counts e)
                            && e.agreements + e.disagreements == e.eligible_runs))))))

abbrev pub is_fresh : Option (Option ℕ) → ℕ → Bool
is_fresh (some (some refreshed)) now =
    leb refreshed now && ltb (now - refreshed) tax_reference_ttl_ms
is_fresh _ now = false

unfoldable pub tax_ready_and_fresh : LiveBreakerEvidence → ℕ → Bool
tax_ready_and_fresh e now =
    str_eq e.tax_reference_status "ready" && is_fresh e.tax_reference_refreshed_at now

abbrev pub total_errors : LiveBreakerEvidence → ℕ
total_errors e = e.provider_errors + e.qbo_errors + e.unclassified_errors

abbrev pub total_runs : LiveBreakerEvidence → ℕ
total_runs e = e.eligible_runs + e.abstentions + total_errors e

abbrev pub same_identity : Option IdentityProof → Bool
same_identity none = false
same_identity (some p) = str_eq p.decision_identity p.verifier_identity

-- `failed.add(code)` under a test.
abbrev pub add_if : Bool → LivePauseCode → List LivePauseCode → List LivePauseCode
add_if test code codes = if test then code ∷ codes else codes

unfoldable pub is_error_burst : LiveBreakerEvidence → Bool
is_error_burst e =
    e.unclassified_errors == 0 && is_above (rate (total_errors e) (total_runs e)) max_error

abbrev pub burst_code : LiveBreakerEvidence → LivePauseCode
burst_code e = if leb e.provider_errors e.qbo_errors then qbo_error_burst else provider_error_burst

unfoldable pub is_policy_changed : LiveBreakerEvidence → Bool
is_policy_changed e =
    not e.policy_accepted
    || (not (opt_str_eq e.accepted_config_version (some e.config_version))
        || not (opt_str_eq e.accepted_provider_binding (some e.current_provider_binding)))

-- The set `failed`.
unfoldable pub failed_codes : LiveBreakerEvidence → ℕ → List LivePauseCode
failed_codes e now = add_if (ltb 0 e.uncertain_mutations) uncertain_mutation (
    add_if (ltb 0 e.readback_mismatches) readback_mismatch (
      add_if (ltb 0 e.unclassified_errors) breaker_evidence_invalid (
        add_if (is_error_burst e) (burst_code e) (
          add_if (not (tax_ready_and_fresh e now)) tax_reference_stale (
            add_if (not e.lease_healthy) lease_health_failed (
              add_if (same_identity e.identity_proof) verifier_not_distinct (
                add_if (is_policy_changed e) policy_config_changed (
                  add_if (is_below (rate e.agreements e.eligible_runs) min_shadow_agreement)
                    shadow_disagreement_degraded
                    (add_if (is_above (rate e.abstentions (total_runs e)) max_shadow_abstention)
                      shadow_abstention_degraded [])))))))))

-- `failed.has(code)`.
unfoldable pub has_code : List LivePauseCode → LivePauseCode → Bool
unfolding code_text
has_code codes code = any (λ other. str_eq (code_text other) (code_text code)) codes

unfoldable pub strongest : List LivePauseCode → Option LivePauseCode
strongest codes = find (has_code codes) live_pause_priority

unfoldable pub select_breaker : Option LiveBreakerEvidence → String → ℕ → Option LivePauseCode
unfolding valid_evidence failed_codes strongest
select_breaker none company_id now = some breaker_evidence_invalid
select_breaker (some e) company_id now =
    if valid_evidence e company_id now
    then strongest (failed_codes e now)
    else some breaker_evidence_invalid

-- `checkedCompanyId`: whether it lets the id through.
unfoldable pub is_company_id : String → Bool
is_company_id id = not (is_blank id) && leb (utf16_length id) 200

-- What a call gives besides the new settings; an exception leaves them as they were.
pub data BreakerOutcome : Type 0 where
  result : Option LivePauseCode → BreakerOutcome
  manual : LivePauseStateDto → BreakerOutcome
  forbidden : BreakerOutcome
  invalid : String → BreakerOutcome

abbrev pub pause_for :
    Option LivePauseCode → ℕ → Option LivePauseConfig → Option LivePauseConfig × BreakerOutcome
pause_for none now config = (config, result none)
pause_for (some code) now config =
    ((persist_strongest_live_pause code now config).0, result (some code))

-- `evaluateCircuitBreakers` in the scope of the company; the clock is read once here, and the pause
-- that the default dependencies make reads it again.
unfoldable pub evaluate_circuit_breakers :
    String
    → Option ℕ
    → ℕ
    → Option LiveBreakerEvidence
    → Option LivePauseConfig
    → Option LivePauseConfig × BreakerOutcome
evaluate_circuit_breakers company_id none pause_now evidence config =
    (config, invalid "Invalid live breaker clock.")
evaluate_circuit_breakers company_id (some now) pause_now evidence config =
    if is_company_id company_id
    then pause_for (select_breaker evidence company_id now) pause_now config
    else (config, invalid "Invalid live breaker company.")

-- `pauseLiveModeManually`; `authorized` is the answer of `authorizeAdmin`.
unfoldable pub pause_live_mode_manually :
    String → Bool → ℕ → Option LivePauseConfig → Option LivePauseConfig × BreakerOutcome
pause_live_mode_manually company_id authorized now config =
    if is_company_id company_id
    then (if authorized
        then (let paused = persist_strongest_live_pause manual_pause now config in
            (paused.0, manual (paused.1)))
        else (config, forbidden))
    else (config, invalid "Invalid live breaker company.")
