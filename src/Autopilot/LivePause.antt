-- ===== src/Autopilot/LivePause.antt =====
-- server/src/services/agent/livePause.ts: the pause of the autopilot. The row of a company's settings
-- is a value or is missing, and the clock is an argument; a date is a number of milliseconds.
pub mod Strongest
mod Tests
use recat_qbo.Prelude.Shared.{
  ℕ, suc, ◌+◌, ◌≡◌, refl, Bool, true, false, ◌&&◌, not, List, [], ◌∷◌, Option, none, some, String,
  leb, ◌<◌, if◌then◌else◌, str_eq, is_none, find, arith,
}
use Prim.Native.String.{◌++◌}

pub data LivePauseCode : Type 0 where
  readback_mismatch uncertain_mutation manual_pause qbo_error_burst provider_error_burst
        tax_reference_stale lease_health_failed verifier_not_distinct policy_config_changed
        shadow_disagreement_degraded shadow_abstention_degraded breaker_evidence_invalid
        shadow_mode_unhealthy evidence_insufficient shadow_agreement_insufficient
        shadow_abstention_excessive shadow_error_rate_excessive provider_unhealthy qbo_disconnected
        writeback_disabled unresolved_mutation worker_unhealthy live_policy_not_accepted :
      LivePauseCode

-- The text that a code is written as.
unfoldable pub code_text : LivePauseCode → String
code_text readback_mismatch = "READBACK_MISMATCH"
code_text uncertain_mutation = "UNCERTAIN_MUTATION"
code_text manual_pause = "MANUAL_PAUSE"
code_text qbo_error_burst = "QBO_ERROR_BURST"
code_text provider_error_burst = "PROVIDER_ERROR_BURST"
code_text tax_reference_stale = "TAX_REFERENCE_STALE"
code_text lease_health_failed = "LEASE_HEALTH_FAILED"
code_text verifier_not_distinct = "VERIFIER_NOT_DISTINCT"
code_text policy_config_changed = "POLICY_CONFIG_CHANGED"
code_text shadow_disagreement_degraded = "SHADOW_DISAGREEMENT_DEGRADED"
code_text shadow_abstention_degraded = "SHADOW_ABSTENTION_DEGRADED"
code_text breaker_evidence_invalid = "BREAKER_EVIDENCE_INVALID"
code_text shadow_mode_unhealthy = "SHADOW_MODE_UNHEALTHY"
code_text evidence_insufficient = "EVIDENCE_INSUFFICIENT"
code_text shadow_agreement_insufficient = "SHADOW_AGREEMENT_INSUFFICIENT"
code_text shadow_abstention_excessive = "SHADOW_ABSTENTION_EXCESSIVE"
code_text shadow_error_rate_excessive = "SHADOW_ERROR_RATE_EXCESSIVE"
code_text provider_unhealthy = "PROVIDER_UNHEALTHY"
code_text qbo_disconnected = "QBO_DISCONNECTED"
code_text writeback_disabled = "WRITEBACK_DISABLED"
code_text unresolved_mutation = "UNRESOLVED_MUTATION"
code_text worker_unhealthy = "WORKER_UNHEALTHY"
code_text live_policy_not_accepted = "LIVE_POLICY_NOT_ACCEPTED"

-- `LIVE_PAUSE_PRIORITY`, the strongest first.
abbrev pub live_pause_priority : List LivePauseCode
live_pause_priority =
    readback_mismatch ∷ uncertain_mutation ∷ manual_pause ∷ qbo_error_burst ∷ provider_error_burst
    ∷ tax_reference_stale ∷ lease_health_failed ∷ verifier_not_distinct ∷ policy_config_changed
    ∷ shadow_disagreement_degraded ∷ shadow_abstention_degraded ∷ breaker_evidence_invalid
    ∷ qbo_disconnected ∷ writeback_disabled ∷ unresolved_mutation ∷ worker_unhealthy
    ∷ provider_unhealthy ∷ live_policy_not_accepted ∷ shadow_mode_unhealthy ∷ evidence_insufficient
    ∷ shadow_agreement_insufficient ∷ shadow_abstention_excessive ∷ shadow_error_rate_excessive ∷ []

-- The keys of `SAFE_PAUSE_MESSAGES`, and its values.
abbrev pub live_pause_codes : List LivePauseCode
live_pause_codes =
    readback_mismatch ∷ uncertain_mutation ∷ manual_pause ∷ qbo_error_burst ∷ provider_error_burst
    ∷ tax_reference_stale ∷ lease_health_failed ∷ verifier_not_distinct ∷ policy_config_changed
    ∷ shadow_disagreement_degraded ∷ shadow_abstention_degraded ∷ breaker_evidence_invalid
    ∷ shadow_mode_unhealthy ∷ evidence_insufficient ∷ shadow_agreement_insufficient
    ∷ shadow_abstention_excessive ∷ shadow_error_rate_excessive ∷ provider_unhealthy
    ∷ qbo_disconnected ∷ writeback_disabled ∷ unresolved_mutation ∷ worker_unhealthy
    ∷ live_policy_not_accepted ∷ []

abbrev pub safe_pause_message : LivePauseCode → String
safe_pause_message readback_mismatch = "A live mutation readback did not match durable intent."
safe_pause_message uncertain_mutation = "A live mutation requires reconciliation."
safe_pause_message manual_pause = "Live mode is paused by a company administrator."
safe_pause_message qbo_error_burst = "QuickBooks live operation health degraded."
safe_pause_message provider_error_burst = "Agent provider health degraded."
safe_pause_message tax_reference_stale = "Tax references are not ready or are stale."
safe_pause_message lease_health_failed = "Live worker lease health degraded."
safe_pause_message verifier_not_distinct = "Decision and verification identities are not distinct."
safe_pause_message policy_config_changed = "The accepted live policy or configuration changed."
safe_pause_message shadow_disagreement_degraded =
    "Shadow agreement fell below the live policy minimum."
safe_pause_message shadow_abstention_degraded =
    "Shadow abstention exceeded the live policy maximum."
safe_pause_message breaker_evidence_invalid = "Live safety evidence is unavailable or invalid."
safe_pause_message shadow_mode_unhealthy =
    "Shadow mode must be healthy before live mode can be enabled."
safe_pause_message evidence_insufficient =
    "Eligible shadow evidence is below the configured threshold."
safe_pause_message shadow_agreement_insufficient =
    "Shadow agreement is below the live policy minimum."
safe_pause_message shadow_abstention_excessive =
    "Shadow abstention is above the live policy maximum."
safe_pause_message shadow_error_rate_excessive =
    "Shadow error rate is above the live policy maximum."
safe_pause_message provider_unhealthy = "Configured model health checks have not passed."
safe_pause_message qbo_disconnected = "QuickBooks is disconnected."
safe_pause_message writeback_disabled = "QuickBooks writeback is disabled."
safe_pause_message unresolved_mutation = "Unresolved QuickBooks mutations must be reconciled."
safe_pause_message worker_unhealthy = "Autopilot worker health is not ready."
safe_pause_message live_policy_not_accepted = "The current live policy must be accepted."

pub record LivePauseConfig : Type 0 where
  pub live_requested : Bool
  pub live_enabled_at : Option ℕ
  pub live_paused_at : Option ℕ
  pub live_pause_code : Option String
  pub live_pause_message : Option String

pub record LivePauseStateDto : Type 0 where
  pub live_requested : Bool
  pub enabled : Bool
  pub paused : Bool
  pub pause_code : Option String
  pub pause_message : Option String

abbrev is_manual : LivePauseCode → Bool
is_manual manual_pause = true
is_manual _ = false

abbrev pub canonical_live_pause_message : LivePauseCode → String
canonical_live_pause_message code =
    if is_manual code
    then safe_pause_message code
    else "Live mode is paused: " ++ safe_pause_message code

-- `isLivePauseCode` gives the code that the text is; a missing text is none.
unfoldable pub as_live_pause_code : Option String → Option LivePauseCode
unfolding code_text
as_live_pause_code none = none
as_live_pause_code (some text) = find (λ code. str_eq text (code_text code)) live_pause_codes

abbrev pub is_paused : LivePauseConfig → Bool
is_paused c = c.live_requested && not (is_none c.live_paused_at)

abbrev running : Bool → Bool → LivePauseStateDto
running requested enabled = record {
  live_requested = requested;
  enabled = enabled;
  paused = false;
  pause_code = none;
  pause_message = none;
}

abbrev stopped : String → String → LivePauseStateDto
stopped code message = record {
  live_requested = true;
  enabled = false;
  paused = true;
  pause_code = some code;
  pause_message = some message;
}

abbrev paused_state : Option LivePauseCode → LivePauseStateDto
paused_state none =
    stopped "UNAVAILABLE" "Live mode is paused because safety status is unavailable."
paused_state (some code) = stopped (code_text code) (canonical_live_pause_message code)

unfoldable pub safe_live_pause_state : Option LivePauseConfig → LivePauseStateDto
safe_live_pause_state none = running false false
safe_live_pause_state (some c) =
    if is_paused c
    then paused_state (as_live_pause_code c.live_pause_code)
    else running c.live_requested
        (c.live_requested && (not (is_none c.live_enabled_at) && is_none c.live_paused_at))

abbrev pub rank_in : String → ℕ → List LivePauseCode → ℕ
rank_in text i [] = 0
rank_in text i (code ∷ codes) =
    if str_eq text (code_text code) then i else rank_in text (suc i) codes

-- `pausePriority` plus one, so that the unknown reasons, which the source gives -1, have 0.
unfoldable pub pause_priority : Option String → ℕ
unfolding code_text
pause_priority none = 0
pause_priority (some text) = rank_in text 1 live_pause_priority

-- `persistStrongestLivePause` on the settings of the company.
abbrev pub keeps_pause : LivePauseConfig → LivePauseCode → Bool
keeps_pause c code =
    not (is_none c.live_paused_at)
    && leb (pause_priority c.live_pause_code) (pause_priority (some (code_text code)))

abbrev pub with_pause : LivePauseCode → ℕ → LivePauseConfig → LivePauseConfig
with_pause code now c = record c {
  live_paused_at = some now;
  live_pause_code = some (code_text code);
  live_pause_message = some (canonical_live_pause_message code);
}

unfoldable pub pause_config : LivePauseCode → ℕ → LivePauseConfig → LivePauseConfig
pause_config code now c =
    if c.live_requested then (if keeps_pause c code then c else with_pause code now c) else c

unfoldable pub persist_strongest_live_pause :
    LivePauseCode → ℕ → Option LivePauseConfig → Option LivePauseConfig × LivePauseStateDto
unfolding pause_config
persist_strongest_live_pause code now none = (none, safe_live_pause_state none)
persist_strongest_live_pause code now (some c) =
    (some (pause_config code now c), safe_live_pause_state (some (pause_config code now c)))
