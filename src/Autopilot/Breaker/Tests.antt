-- ===== src/Autopilot/Breaker/Tests.antt =====
-- services/agent/circuitBreaker.ts: runs on the evidence of one company.
use recat_qbo.Prelude.Shared.{◌≡◌, refl, ◌⊎◌, true, List, [], ◌∷◌, none, some}
use recat_qbo.Prelude.Texts.{is_blank, utf16_length}
use recat_qbo.Autopilot.LivePause.{
  LivePauseCode, LivePauseConfig, code_text, uncertain_mutation, readback_mismatch, pause_config,
  lease_health_failed,
}
use recat_qbo.Autopilot.LivePause.Strongest.{Covers}
use recat_qbo.Autopilot.Breaker.{
  LiveBreakerEvidence, IdentityProof, valid_evidence, select_breaker, strongest, has_code,
  failed_codes, evaluate_circuit_breakers, is_company_id, result, tax_ready_and_fresh,
  is_error_burst, is_policy_changed,
}
use recat_qbo.Autopilot.Breaker.Healthy.{IsHealthy, evaluation_pauses}

abbrev proof : IdentityProof
proof = record {
  version = 1;
  provider_binding = "p1";
  decision_identity = "m1";
  verifier_identity = "m2";
}

abbrev good : LiveBreakerEvidence
good = record {
  version = 1;
  company_id = "acme";
  config_version = "v3";
  accepted_config_version = some "v3";
  accepted_provider_binding = some "p1";
  current_provider_binding = "p1";
  policy_accepted = true;
  completed_since = some 100;
  completed_through = some 900;
  eligible_runs = 100;
  agreements = 98;
  disagreements = 2;
  abstentions = 3;
  provider_errors = 1;
  qbo_errors = 2;
  unclassified_errors = 0;
  uncertain_mutations = 0;
  readback_mismatches = 0;
  tax_reference_status = "ready";
  tax_reference_refreshed_at = some (some 800);
  lease_healthy = true;
  identity_proof = some proof;
}

abbrev live : LivePauseConfig
live = record {
  live_requested = true;
  live_enabled_at = some 5;
  live_paused_at = none;
  live_pause_code = none;
  live_pause_message = none;
}

abbrev bad_codes : List LivePauseCode
bad_codes = uncertain_mutation ∷ readback_mismatch ∷ lease_health_failed ∷ []

evaluation_pauses_example :
    ((e : LiveBreakerEvidence) × ((some good ≡ some e)
        × (IsHealthy e "acme" 900
            × (evaluate_circuit_breakers "acme" (some 900) 901 (some good) (some live)
                ≡ (some live, result none)))))
    ⊎ ((code : LivePauseCode) × ((evaluate_circuit_breakers "acme"
              (some 900)
              901
              (some good)
              (some live)
            ≡ (some (pause_config code 901 live), result (some code)))
          × Covers (pause_config code 901 live) (code, 901)))
unfolding is_company_id is_blank utf16_length
evaluation_pauses_example = evaluation_pauses "acme" 900 901 (some good) live refl refl

good_passes : select_breaker (some good) "acme" 900 ≡ none
unfolding select_breaker valid_evidence is_blank failed_codes strongest has_code code_text
    tax_ready_and_fresh is_error_burst is_policy_changed
good_passes = refl

stale_tax_trips :
    select_breaker (some (record good { tax_reference_refreshed_at = some (some 901) })) "acme" 900
    ≡ some LivePauseCode.tax_reference_stale
unfolding select_breaker valid_evidence is_blank failed_codes strongest has_code code_text
    tax_ready_and_fresh is_error_burst is_policy_changed
stale_tax_trips = refl
