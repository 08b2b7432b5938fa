-- ===== src/Autopilot/Breaker/Healthy.antt =====
-- services/agent/circuitBreaker.ts: when the breaker stays closed, and what it leaves behind.
use recat_qbo.Prelude.Shared.{
  ℕ, ◌+◌, ◌*◌, ◌≤◌, ◌<◌, ◌≡◌, ◌≢◌, refl, Bool, true, false, not, [], Option, none, some, String,
  str_eq_iff, opt_str_eq_iff, arith, Bool-cases, Option-cases, ◌↔◌, ◌⊎◌, inl, inr,
}
use recat_qbo.Autopilot.LivePause.{
  LivePauseCode, LivePauseConfig, pause_config, persist_strongest_live_pause, manual_pause,
}
use recat_qbo.Autopilot.LivePause.Strongest.{Covers, pause_config_lem}
use recat_qbo.Autopilot.Breaker.{
  LiveBreakerEvidence, IdentityProof, valid_evidence, valid_identity_proof, tax_ready_and_fresh,
  total_errors, total_runs, same_identity, is_error_burst, is_policy_changed, failed_codes,
  select_breaker, is_company_id, result, evaluate_circuit_breakers, pause_live_mode_manually, rate,
  is_above, is_below, max_safe_integer, tax_reference_ttl_ms, breaker_evidence_invalid,
}
use recat_qbo.Autopilot.Breaker.Selection.{strongest-nil_iff}

abbrev pub IsFresh : Option (Option ℕ) → ℕ → Type 0
IsFresh refreshed now =
    (t : ℕ) × ((refreshed ≡ some (some t)) × ((t ≤ now) × (now < t + tax_reference_ttl_ms)))

abbrev pub IsDistinct : Option IdentityProof → Type 0
IsDistinct proof =
    (p : IdentityProof) × ((proof ≡ some p) × (p.decision_identity ≢ p.verifier_identity))

-- What is asked of the evidence, one fact for each breaker. Errors are at most a twentieth of the
-- runs, of which there are some, agreements at least 98 hundredths of the eligible runs, and
-- abstentions at most a quarter.
abbrev pub IsHealthy : LiveBreakerEvidence → String → ℕ → Type 0
IsHealthy e company_id now =
    (valid_evidence e company_id now ≡ true)
    × (((e.uncertain_mutations ≡ 0) × ((e.readback_mismatches ≡ 0) × (e.unclassified_errors ≡ 0)))
        × (((0 < total_runs e)
              × ((total_runs e ≤ max_safe_integer)
                  × ((20 * total_errors e ≤ total_runs e) × (4 * e.abstentions ≤ total_runs e))))
            × ((98 * e.eligible_runs ≤ 100 * e.agreements)
                × (((e.tax_reference_status ≡ "ready") × IsFresh e.tax_reference_refreshed_at now)
                    × ((e.lease_healthy ≡ true)
                        × (IsDistinct e.identity_proof
                            × ((e.policy_accepted ≡ true)
                                × ((e.accepted_config_version ≡ some e.config_version)
                                    × (e.accepted_provider_binding
                                        ≡ some e.current_provider_binding)))))))))

tax_ready_and_fresh_iff :
    (e : LiveBreakerEvidence) (now : ℕ)
    → (not (tax_ready_and_fresh e now) ≡ false)
      ↔ ((e.tax_reference_status ≡ "ready") × IsFresh e.tax_reference_refreshed_at now)
unfolding tax_ready_and_fresh
tax_ready_and_fresh_iff e now = elim (Option-cases e.tax_reference_refreshed_at) [
  | inl missing ↦ (λ h. absurd (ground (arith, missing)), λ h. ground (arith, h.1.1.0, missing))
  | inr (some t, known) ↦ (
    λ h. (
      ground (arith, known, str_eq_iff e.tax_reference_status "ready"),
      (t, (known, (ground (arith, known), ground (arith, known)))),
    ),
    λ h. ground (arith, known, str_eq_iff e.tax_reference_status "ready"),
  )
  | inr (none, known) ↦ (λ h. absurd (ground (arith, known)), λ h. ground (arith, h.1.1.0, known))
]

policy_iff :
    (e : LiveBreakerEvidence)
    → (is_policy_changed e ≡ false) ↔ (
        (e.policy_accepted ≡ true)
        × ((e.accepted_config_version ≡ some e.config_version)
            × (e.accepted_provider_binding ≡ some e.current_provider_binding)))
unfolding is_policy_changed
policy_iff e = ground (
  arith,
  opt_str_eq_iff e.accepted_config_version (some e.config_version),
  opt_str_eq_iff e.accepted_provider_binding (some e.current_provider_binding),
)

IsDistinct-iff :
    (proof : Option IdentityProof) (binding : String)
    → valid_identity_proof proof binding ≡ true
    → (same_identity proof ≡ false) ↔ IsDistinct proof
IsDistinct-iff none binding valid = absurd (ground arith)
IsDistinct-iff (some p) binding valid = (
  λ h. (p, (refl, ground (arith, str_eq_iff p.decision_identity p.verifier_identity))),
  λ h. ground (arith, h.1.0, h.1.1, str_eq_iff p.decision_identity p.verifier_identity),
)

above_iff :
    (n d hundredths : ℕ)
    → (is_above (rate n d) hundredths ≡ false)
      ↔ (((n ≤ max_safe_integer) × ((d ≤ max_safe_integer) × (0 < d))) × (100 * n ≤ hundredths * d))
above_iff n d hundredths = ground arith

below_iff :
    (n d : ℕ)
    → n ≤ max_safe_integer
    → d ≤ max_safe_integer
    → n ≤ d
    → (is_below (rate n d) 98 ≡ false) ↔ (98 * d ≤ 100 * n)
below_iff n d hn hd hle = ground arith

valid_evidence_counts :
    (e : LiveBreakerEvidence) (company_id : String) (now : ℕ)
    → valid_evidence e company_id now ≡ true
    → ((e.agreements ≤ max_safe_integer) × (e.abstentions ≤ max_safe_integer))
      × (((e.eligible_runs ≤ max_safe_integer) × (e.agreements ≤ e.eligible_runs))
          × (valid_identity_proof e.identity_proof e.current_provider_binding ≡ true))
unfolding valid_evidence
valid_evidence_counts e company_id now h = ground arith

-- The tests of the numbers, together.
numbers_iff :
    (e : LiveBreakerEvidence) (company_id : String) (now : ℕ)
    → valid_evidence e company_id now ≡ true
    → e.unclassified_errors ≡ 0
    → ((is_error_burst e ≡ false) × (is_above (rate e.abstentions (total_runs e)) 25 ≡ false)) ↔ (
        (0 < total_runs e)
        × ((total_runs e ≤ max_safe_integer)
            × ((20 * total_errors e ≤ total_runs e) × (4 * e.abstentions ≤ total_runs e))))
unfolding is_error_burst
numbers_iff e company_id now valid classified = ground (
  arith,
  valid_evidence_counts e company_id now valid,
  above_iff (total_errors e) (total_runs e) 5,
  above_iff e.abstentions (total_runs e) 25,
)

-- Nothing failed exactly when each test found nothing.
failed_codes-nil_iff :
    (e : LiveBreakerEvidence) (now : ℕ)
    → (failed_codes e now ≡ []) ↔ (
        ((e.uncertain_mutations ≡ 0) × ((e.readback_mismatches ≡ 0) × (e.unclassified_errors ≡ 0)))
        × (((is_error_burst e ≡ false) × (is_above (rate e.abstentions (total_runs e)) 25 ≡ false))
            × ((is_below (rate e.agreements e.eligible_runs) 98 ≡ false)
                × ((not (tax_ready_and_fresh e now) ≡ false)
                    × ((e.lease_healthy ≡ true)
                        × ((same_identity e.identity_proof ≡ false)
                            × (is_policy_changed e ≡ false)))))))
unfolding failed_codes
failed_codes-nil_iff e now = ground arith

pub select_breaker-none_iff :
    (e : LiveBreakerEvidence) (company_id : String) (now : ℕ)
    → (select_breaker (some e) company_id now ≡ none) ↔ IsHealthy e company_id now
unfolding select_breaker
select_breaker-none_iff e company_id now = elim (Bool-cases (valid_evidence e company_id now)) [
  | inr invalid ↦ ground (arith, invalid)
  | inl valid ↦
      let counted = valid_evidence_counts e company_id now valid in
      ground (
        arith,
        valid,
        strongest-nil_iff (failed_codes e now),
        failed_codes-nil_iff e now,
        numbers_iff e company_id now valid,
        below_iff e.agreements e.eligible_runs counted.0.0 counted.1.0.0 counted.1.0.1,
        tax_ready_and_fresh_iff e now,
        policy_iff e,
        IsDistinct-iff e.identity_proof e.current_provider_binding counted.1.1,
      )
]

-- For a company that asked for live mode, an evaluation either finds healthy evidence and changes
-- nothing, or leaves the company paused for a reason at least as strong as the one that it names.
pub evaluation_pauses :
    (company_id : String) (now pause_now : ℕ) (evidence : Option LiveBreakerEvidence)
    (c : LivePauseConfig)
    → is_company_id company_id ≡ true
    → c.live_requested ≡ true
    → ((e : LiveBreakerEvidence) × ((evidence ≡ some e)
          × (IsHealthy e company_id now
              × (evaluate_circuit_breakers company_id (some now) pause_now evidence (some c)
                  ≡ (some c, result none)))))
      ⊎ ((code : LivePauseCode) × ((evaluate_circuit_breakers company_id
                (some now)
                pause_now
                evidence
                (some c)
              ≡ (some (pause_config code pause_now c), result (some code)))
            × Covers (pause_config code pause_now c) (code, pause_now)))
unfolding evaluate_circuit_breakers persist_strongest_live_pause select_breaker
evaluation_pauses company_id now pause_now none c valid requested = inr (
  breaker_evidence_invalid,
  (ground arith, (pause_config_lem breaker_evidence_invalid pause_now c requested).1.0),
)
evaluation_pauses company_id now pause_now (some e) c valid requested =
    elim (Option-cases (select_breaker (some e) company_id now)) [
      | inl closed ↦
          inl (
            e,
            (refl, ((select_breaker-none_iff e company_id now).0 closed, ground (arith, closed))),
          )
      | inr (code, tripped) ↦
          inr (code, (ground (arith, tripped), (pause_config_lem code pause_now c requested).1.0))
    ]

-- A manual pause needs an administrator and a company: with both, a company that asked for live mode
-- ends paused at least as strongly as by hand; otherwise nothing is changed.
pub manual_pause_authorized :
    (company_id : String) (authorized : Bool) (now : ℕ) (c : LivePauseConfig)
    → c.live_requested ≡ true
    → (((is_company_id company_id ≡ true) × (authorized ≡ true))
        × (((pause_live_mode_manually company_id authorized now (some c)).0
              ≡ some (pause_config manual_pause now c))
            × Covers (pause_config manual_pause now c) (manual_pause, now)))
      ⊎ (((is_company_id company_id ≡ false) ⊎ (authorized ≡ false))
          × ((pause_live_mode_manually company_id authorized now (some c)).0 ≡ some c))
unfolding pause_live_mode_manually persist_strongest_live_pause
manual_pause_authorized company_id authorized now c requested =
    ground (arith, pause_config_lem manual_pause now c requested)
