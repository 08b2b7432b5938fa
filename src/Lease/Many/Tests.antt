-- ===== src/Lease/Many/Tests.antt =====
-- services/entityLease.ts: two entities at once.
use recat_qbo.Prelude.Shared.{
  str_eq_iff, ap, arith, ◌≢◌, ℕ, ◌+◌, ◌≡◌, refl, ◌⊎◌, List, [], ◌∷◌, none, true,
}
use recat_qbo.Lease.{
  EntityLeaseKey, EntityLeaseErrorCode, LeaseRow, bounded_ttl, acquire_key, acquire_canonical,
  update_many, find_row, create, release_entity_lease, release_entity_leases,
}
use recat_qbo.Lease.Keys.{canonical_entity_lease_keys, in_keys, key_lt}
use recat_qbo.Lease.Holding.{Holds, Acquired}
use recat_qbo.Lease.Scope.{Outcome, returned, lease_error, acquire_entity_leases}
use recat_qbo.Lease.Many.{with_entity_leases, run_holding, with_entity_leases_outcome}

abbrev deposit : EntityLeaseKey
deposit = record { company_id = "acme"; qbo_type = "Deposit"; qbo_id = "7" }

abbrev purchase : EntityLeaseKey
purchase = record { company_id = "acme"; qbo_type = "Purchase"; qbo_id = "7" }

abbrev both : List EntityLeaseKey
both = purchase ∷ deposit ∷ []

abbrev table : List LeaseRow
table =
    record { key = deposit; owner = "w1"; lease_expires_at = 500 }
    ∷ record { key = purchase; owner = "w1"; lease_expires_at = 400 }
    ∷ []

purchase-ne-deposit : purchase ≢ deposit
purchase-ne-deposit e =
    ground (arith, str_eq_iff "Purchase" "Deposit", ap EntityLeaseKey.qbo_type e)

abbrev clock : ℕ → ℕ
clock i = 390 + i

abbrev counting : List LeaseRow → List LeaseRow × Outcome ℕ
counting rows = (rows, returned 3)

with_entity_leases_outcome_example :
    let (after, outcome) = with_entity_leases 450 none true both "w1" counting table in
    ((after ≡ table) × ((e : EntityLeaseErrorCode) × (outcome ≡ lease_error e)))
    ⊎ ((held : List LeaseRow) × (Acquired table both "w1" (450 + bounded_ttl none) held
          × ((outcome ≡ (counting held).1)
              × (true ≡ true
                  → (j : EntityLeaseKey) (later : ℕ) → in_keys j both ≡ true
                  → ¬ Holds after j "w1" later))))
with_entity_leases_outcome_example =
    with_entity_leases_outcome 450 none true both "w1" counting table
      ((purchase-ne-deposit, tt), (tt, tt)) (λ held h. h)

all_released : with_entity_leases 450 none true both "w1" counting table ≡ ([], returned 3)
unfolding with_entity_leases run_holding acquire_entity_leases canonical_entity_lease_keys
    acquire_canonical acquire_key create bounded_ttl find_row update_many key_lt
    release_entity_lease release_entity_leases
all_released = refl
