-- ===== src/Lease/Many.antt =====
-- services/entityLease.ts: the operations on several entities, `renewEntityLeases`,
-- `fenceEntityLeaseOwnerships` and `withEntityLeases`. The fence reads the clock at each of its
-- queries, so that its clock is a function of the number of the query.
mod Tests
use recat_qbo.Prelude.Shared.{
  ℕ, suc, ◌+◌, ◌≡◌, refl, ap, subst, ◌∙◌, sym, ◌⊎◌, inl, inr, List, [], ◌∷◌, Option, none, some,
  String, Bool, true, false, arith, str_eq_iff, Bool-cases, Option-cases, if◌then◌else◌,
}
use recat_qbo.Lease.{
  EntityLeaseKey, same_key, LeaseRow, EntityLeaseErrorCode, duplicate_entity, LeaseResult,
  committed, failed, ◌>>=◌, bounded_ttl, renew_canonical, release_entity_lease,
  release_entity_leases, fence_entity_lease_ownership, find_row, is_not_of,
}
use recat_qbo.Lease.Keys.{canonical_entity_lease_keys, in_keys, in_keys-canonical}
use recat_qbo.Lease.Table.{
  same_key_iff, IsTable, release-IsTable, find_row-release, only_if, key-find_row,
}
use recat_qbo.Lease.Holding.{Holds, Acquired, lease_of}
use recat_qbo.Lease.Scope.{
  Outcome, returned, threw, lease_error, acquire_entity_leases, acquire_entity_leases_all,
}

unfoldable pub renew_entity_leases :
    ℕ → Option ℕ → List EntityLeaseKey → String → List LeaseRow → LeaseResult
renew_entity_leases now ttl keys owner rows = elim (canonical_entity_lease_keys keys) [
  | none ↦ failed duplicate_entity
  | some canonical ↦ renew_canonical now (now + bounded_ttl ttl) owner canonical rows
]

unfoldable pub fence_canonical :
    (ℕ → ℕ) → ℕ → List EntityLeaseKey → String → List LeaseRow → LeaseResult
fence_canonical clock i [] owner rows = committed rows
fence_canonical clock i (key ∷ keys) owner rows =
    fence_entity_lease_ownership (clock i) key owner rows
    >>= fence_canonical clock (suc i) keys owner

unfoldable pub fence_entity_lease_ownerships :
    (ℕ → ℕ) → List EntityLeaseKey → String → List LeaseRow → LeaseResult
unfolding fence_canonical
fence_entity_lease_ownerships clock keys owner rows = elim (canonical_entity_lease_keys keys) [
  | none ↦ failed duplicate_entity
  | some canonical ↦ fence_canonical clock 0 canonical owner rows
]

module _ {ℓ} {A : Type ℓ} where
  -- The callback, and the release after it whether it returned or threw; a failure of the release is
  -- reported and no more.
  unfoldable pub run_holding :
      LeaseResult
      → Bool
      → List EntityLeaseKey
      → String
      → (List LeaseRow → List LeaseRow × Outcome A)
      → List LeaseRow
      → List LeaseRow × Outcome A
  run_holding (failed e) works keys owner callback rows = (rows, lease_error e)
  run_holding (committed held) works keys owner callback rows =
      let (after, outcome) = callback held in
      ((if works then release_entity_leases keys owner after else after), outcome)

  -- `withEntityLeases`; `works` is whether the database carries the release out.
  unfoldable pub with_entity_leases :
      ℕ
      → Option ℕ
      → Bool
      → List EntityLeaseKey
      → String
      → (List LeaseRow → List LeaseRow × Outcome A)
      → List LeaseRow
      → List LeaseRow × Outcome A
  unfolding run_holding
  with_entity_leases now ttl works keys owner callback rows =
      elim (canonical_entity_lease_keys keys) [
        | none ↦ (rows, lease_error duplicate_entity)
        | some canonical ↦
            run_holding (acquire_entity_leases now ttl canonical owner rows) works canonical owner
              callback rows
      ]

-- Each entity is held when its query is made.
abbrev pub HoldsEach : (ℕ → ℕ) → ℕ → List EntityLeaseKey → String → List LeaseRow → Type 0
HoldsEach clock i [] owner rows = Unit
HoldsEach clock i (key ∷ keys) owner rows =
    Holds rows key owner (clock i) × HoldsEach clock (suc i) keys owner rows

Holds-release :
    (key j : EntityLeaseKey) (owner : String) (now : ℕ) (rows : List LeaseRow)
    → IsTable rows
    → Holds (release_entity_lease key owner rows) j owner now
    → Holds rows j owner now × (same_key key j ≡ false)
Holds-release key j owner now rows h m = elim (Option-cases (find_row j rows)) [
  | inl absent ↦ absurd (ground (arith, m.1, find_row-release j key owner rows h, absent))
  | inr (r, found) ↦
      let same : m.0 ≡ r = ground (arith, m.1, find_row-release j key owner rows h, found) in
      (
        (r, found, ground (arith, same, m.2), ground (arith, same, m.3)),
        ground (
          arith,
          m.1,
          m.2,
          same,
          found,
          find_row-release j key owner rows h,
          key-find_row j rows r found,
          same_key_iff key j,
          same_key_iff r.key key,
          str_eq_iff r.owner owner,
        ),
      )
]

released_all :
    (keys : List EntityLeaseKey) (j : EntityLeaseKey) (owner : String) (now : ℕ)
    (rows : List LeaseRow)
    → IsTable rows
    → Holds (release_entity_leases keys owner rows) j owner now
    → Holds rows j owner now × (in_keys j keys ≡ false)
unfolding release_entity_leases
released_all [] j owner now rows h m = (m, refl)
released_all (key ∷ keys) j owner now rows h m =
    let rest =
      released_all keys j owner now (release_entity_lease key owner rows)
        (release-IsTable key owner rows h) m in
    let first = Holds-release key j owner now rows h rest.0 in
    (first.0, ground (arith, first.1, rest.1))

lease_cases :
    (r : LeaseResult)
    → ((e : EntityLeaseErrorCode) × (r ≡ failed e))
      ⊎ ((held : List LeaseRow) × (r ≡ committed held))
lease_cases (failed e) = inl (e, refl)
lease_cases (committed held) = inr (held, refl)

module _ {ℓ} {A : Type ℓ} where
  -- In a table with one row for an entity, and around a callback that keeps it so,
  -- `withEntityLeases` changes nothing and reports an error of the leases, or it runs the
  -- callback on a table in which the owner has taken every entity, gives the callback's own
  -- outcome and, if the release works, leaves the owner with none of them, whether the callback
  -- returned or threw.
  pub with_entity_leases_outcome :
      (now : ℕ) (ttl : Option ℕ) (works : Bool) (keys : List EntityLeaseKey) (owner : String)
      (callback : List LeaseRow → List LeaseRow × Outcome A) (rows : List LeaseRow)
      → IsTable rows
      → ((held : List LeaseRow) → IsTable held → IsTable (callback held).0)
      → let (after, outcome) = with_entity_leases now ttl works keys owner callback rows in
        ((after ≡ rows) × ((e : EntityLeaseErrorCode) × (outcome ≡ lease_error e)))
        ⊎ ((held : List LeaseRow) × (Acquired rows keys owner (now + bounded_ttl ttl) held
              × ((outcome ≡ (callback held).1)
                  × (works ≡ true
                      → (j : EntityLeaseKey) (later : ℕ) → in_keys j keys ≡ true
                      → ¬ Holds after j owner later))))
  unfolding with_entity_leases run_holding
  with_entity_leases_outcome now ttl works keys owner callback rows h keeps =
      elim (Option-cases (canonical_entity_lease_keys keys)) [
        | inl twice ↦ rw (twice, with_entity_leases) (inl (refl, (duplicate_entity, refl)))
        | inr (canonical, sorted) ↦
            rw (sorted, with_entity_leases)
              (elim (lease_cases (acquire_entity_leases now ttl canonical owner rows)) [
                | inl (e, refused) ↦ rw (refused, run_holding) (inl (refl, (e, refl)))
                | inr (held, taken) ↦
                    let a = acquire_entity_leases_all now ttl canonical owner rows held h taken in
                    rw (taken, run_holding)
                      (inr (
                        held,
                        (
                          (
                            a.0,
                            λ j. ground (arith, a.1 j, in_keys-canonical j keys canonical sorted),
                          ),
                          (
                            refl,
                            λ w j later among m.
                                let gone =
                                  released_all canonical j owner later (callback held).0
                                    (keeps held a.0)
                                    (subst
                                      (λ b.
                                        Holds
                                          (if b
                                            then release_entity_leases canonical owner
                                                (callback held).0
                                            else (callback held).0)
                                          j owner later)
                                      w m) in
                                ground
                                  (arith, gone.1, among, in_keys-canonical j keys canonical sorted),
                          ),
                        ),
                      ))
              ])
      ]
