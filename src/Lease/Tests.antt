-- ===== src/Lease/Tests.antt =====
-- services/entityLease.ts: runs on a table of one lease.
use recat_qbo.Prelude.Shared.{
  ◌≡◌, refl, ◌≢◌, ◌⊎◌, List, [], ◌∷◌, none, String, arith, ℕ, ◌+◌, str_eq_iff, true, false,
}
use recat_qbo.Lease.{
  EntityLeaseKey, LeaseRow, acquire_key, committed, failed, entity_busy, bounded_ttl,
  acquire_canonical, release_entity_lease, fence_entity_lease_ownership, find_row, update_many,
}
use recat_qbo.Lease.Keys.{canonical_entity_lease_keys, key_lt}
use recat_qbo.Lease.Holding.{Wrote, Acquired, AnyHeldByOther, acquire_canonical_cases}
use recat_qbo.Lease.Exclusion.{Call, acquires, renews_all, releases, run, lease_excludes}
use recat_qbo.Lease.Scope.{
  Outcome, threw, lease_error, ActiveLease, Callback, acquire_entity_leases, with_entity_lease,
  with_entity_lease_outcome,
}

abbrev deposit : EntityLeaseKey
deposit = record { company_id = "acme"; qbo_type = "Deposit"; qbo_id = "7" }

abbrev purchase : EntityLeaseKey
purchase = record { company_id = "acme"; qbo_type = "Purchase"; qbo_id = "7" }

abbrev held : LeaseRow
held = record { key = deposit; owner = "w1"; lease_expires_at = 500 }

abbrev table : List LeaseRow
table = held ∷ []

abbrev both : List EntityLeaseKey
both = purchase ∷ deposit ∷ []

acquire_canonical_cases_example :
    ((acquire_canonical 400 30_400 "w2" both table ≡ failed entity_busy)
      × AnyHeldByOther table both "w2" 400)
    ⊎ ((rows' : List LeaseRow) × (acquire_canonical 400 30_400 "w2" both table ≡ committed rows')
        × Acquired table both "w2" 30_400 rows')
acquire_canonical_cases_example = acquire_canonical_cases 400 30_400 "w2" both table (tt, tt)

abbrev attempts : List (String × Call)
attempts =
    ("w2", acquires 100 none both)
    ∷ ("w3", renews_all 200 none (deposit ∷ []))
    ∷ ("w2", releases deposit)
    ∷ []

w2-ne-w1 : ◌≢◌ {A = String} "w1" "w2"
w2-ne-w1 e = ground (arith, str_eq_iff "w1" "w2")

w3-ne-w1 : ◌≢◌ {A = String} "w1" "w3"
w3-ne-w1 e = ground (arith, str_eq_iff "w1" "w3")

lease_excludes_example :
    (fence_entity_lease_ownership 499 deposit "w1" (run attempts table)
      ≡ committed (run attempts table))
    × (fence_entity_lease_ownership 499 deposit "w2" (run attempts table)
        ≢ committed (run attempts table))
unfolding find_row
lease_excludes_example =
    lease_excludes attempts table deposit held "w2" 499 (tt, tt) refl
      ((w2-ne-w1, omega arith), ((w3-ne-w1, omega arith), ((w2-ne-w1, omega arith), tt)))
      (w2-ne-w1, omega arith)

abbrev expired_taken : List LeaseRow
expired_taken =
    record { key = deposit; owner = "w2"; lease_expires_at = 30_500 }
    ∷ record { key = purchase; owner = "w2"; lease_expires_at = 30_500 }
    ∷ []

taken_at_the_end : acquire_entity_leases 500 none both "w2" table ≡ committed expired_taken
unfolding acquire_entity_leases canonical_entity_lease_keys acquire_canonical acquire_key
    bounded_ttl find_row update_many key_lt
taken_at_the_end = refl

abbrev failing : Callback ℕ
failing scopes rows = (rows, threw "boom")

with_entity_lease_outcome_example :
    let (after, outcome) = with_entity_lease 600 none false [] deposit "w2" failing table in
    ((after ≡ table) × (outcome ≡ lease_error entity_busy))
    ⊎ ((scopes : List ActiveLease) × (held : List LeaseRow) × Wrote table deposit "w2"
          (600 + bounded_ttl none)
          held
        × (outcome ≡ (failing scopes held).1)
        × ((after ≡ (failing scopes held).0)
            ⊎ (after ≡ release_entity_lease deposit "w2" (failing scopes held).0)))
with_entity_lease_outcome_example =
    with_entity_lease_outcome 600 none false [] deposit "w2" failing table (tt, tt)

ran : (o : Outcome ℕ) → o ≡ threw "boom" → o ≢ lease_error entity_busy
ran o e f = cc

failing_runs : (with_entity_lease 600 none true [] deposit "w2" failing table).1 ≡ threw "boom"
unfolding with_entity_lease acquire_entity_leases canonical_entity_lease_keys acquire_canonical
    acquire_key bounded_ttl find_row update_many key_lt
failing_runs = refl
