-- ===== src/Lease/Scope.antt =====
-- services/entityLease.ts: `acquireEntityLeases`, and `withEntityLease`, which holds a lease around a
-- callback. The callback is a function on the table; what it may throw is a text. The scopes that
-- the asynchronous storage carries down the call chain are a list, for one database.
use recat_qbo.Prelude.Shared.{
  ℕ, ◌+◌, ◌≡◌, refl, ◌≢◌, ◌⊎◌, inl, inr, List, [], ◌∷◌, ◌++◌, Option, none, some, String, Bool,
  true, false, ◌&&◌, arith, any, str_eq, str_eq_iff, if◌then◌else◌, Bool-cases, Option-cases,
}
use recat_qbo.Lease.{
  EntityLeaseKey, same_key, LeaseRow, EntityLeaseErrorCode, entity_busy, duplicate_entity,
  LeaseResult, committed, failed, bounded_ttl, acquire_canonical, renew_entity_lease,
  release_entity_lease, find_row,
}
use recat_qbo.Lease.Keys.{canonical_entity_lease_keys, in_keys-canonical}
use recat_qbo.Lease.Table.{same_key_iff, IsTable, find_row-release, key-find_row}
use recat_qbo.Lease.Holding.{
  Holds, Wrote, Acquired, acquire_canonical_cases, renew_entity_lease_cases,
}

pub data Outcome {ℓ} (A : Type ℓ) : Type ℓ where
  returned : A → Outcome A
  threw : String → Outcome A
  lease_error : EntityLeaseErrorCode → Outcome A

pub record ActiveLease : Type 0 where
  pub key : EntityLeaseKey
  pub owner : String

-- `acquireEntityLeases`: the keys are put in order outside the transaction.
unfoldable pub acquire_entity_leases :
    ℕ → Option ℕ → List EntityLeaseKey → String → List LeaseRow → LeaseResult
acquire_entity_leases now ttl keys owner rows = elim (canonical_entity_lease_keys keys) [
  | none ↦ failed duplicate_entity
  | some canonical ↦ acquire_canonical now (now + bounded_ttl ttl) owner canonical rows
]

-- What a callback sees is the scopes around it and the table.
abbrev pub Callback {ℓ} : Type ℓ → Type ℓ
Callback A = List ActiveLease → List LeaseRow → List LeaseRow × Outcome A

-- The release after the callback; a failure of the database is reported and no more.
abbrev pub cleanup : Bool → EntityLeaseKey → String → List LeaseRow → List LeaseRow
cleanup works key owner rows = if works then release_entity_lease key owner rows else rows

abbrev pub is_reentrant : List ActiveLease → EntityLeaseKey → String → Bool
is_reentrant inherited key owner = any (λ a. str_eq a.owner owner && same_key a.key key) inherited

single_Wrote :
    (rows rows' : List LeaseRow) (key : EntityLeaseKey) (owner : String) (expires : ℕ)
    → Acquired rows (key ∷ []) owner expires rows'
    → Wrote rows key owner expires rows'
single_Wrote rows rows' key owner expires a = (a.0, λ j. ground (arith, a.1 j, same_key_iff key j))

acquire_one :
    (now : ℕ) (ttl : Option ℕ) (key : EntityLeaseKey) (owner : String) (rows : List LeaseRow)
    → IsTable rows
    → (acquire_entity_leases now ttl (key ∷ []) owner rows ≡ failed entity_busy)
      ⊎ ((rows' : List LeaseRow) × (acquire_entity_leases now ttl (key ∷ []) owner rows
            ≡ committed rows')
          × Wrote rows key owner (now + bounded_ttl ttl) rows')
unfolding acquire_entity_leases canonical_entity_lease_keys
acquire_one now ttl key owner rows h =
    elim (acquire_canonical_cases now (now + bounded_ttl ttl) owner (key ∷ []) rows h) [
      | inl (e, held) ↦ inl e
      | inr (rows', e, a) ↦
          inr (rows', e, single_Wrote rows rows' key owner (now + bounded_ttl ttl) a)
    ]

-- In a table with one row for an entity, a successful `acquireEntityLeases` gives the owner every
-- entity of the list, in whatever order the caller names them, to the end of the term, and
-- changes no other row.
pub acquire_entity_leases_all :
    (now : ℕ) (ttl : Option ℕ) (keys : List EntityLeaseKey) (owner : String)
    (rows rows' : List LeaseRow)
    → IsTable rows
    → acquire_entity_leases now ttl keys owner rows ≡ committed rows'
    → Acquired rows keys owner (now + bounded_ttl ttl) rows'
unfolding acquire_entity_leases
acquire_entity_leases_all now ttl keys owner rows rows' h e =
    elim (Option-cases (canonical_entity_lease_keys keys)) [
      | inl refusal ↦ absurd (ground arith)
      | inr (canonical, c) ↦
          elim (acquire_canonical_cases now (now + bounded_ttl ttl) owner canonical rows h) [
            | inl (refusal, held) ↦ absurd (ground arith)
            | inr (rows₁, done, a) ↦
                let same : rows₁ ≡ rows' = ground arith in
                rw (← same) (a.0, λ j. ground (arith, a.1 j, in_keys-canonical j keys canonical c))
          ]
    ]

released-not_Holds :
    (rows : List LeaseRow) (key : EntityLeaseKey) (owner : String) (now : ℕ)
    → IsTable rows
    → ¬ Holds (release_entity_lease key owner rows) key owner now
released-not_Holds rows key owner now h m = elim (Option-cases (find_row key rows)) [
  | inl absent ↦ ground (arith, m.1, find_row-release key key owner rows h)
  | inr (r, found) ↦ ground (
    arith,
    m.1,
    m.2,
    find_row-release key key owner rows h,
    key-find_row key rows r found,
    same_key_iff r.key key,
    str_eq_iff r.owner owner,
  )
]

module _ {ℓ} {A : Type ℓ} where
  unfoldable pub run_nested :
      LeaseResult → List ActiveLease → List LeaseRow → Callback A → List LeaseRow × Outcome A
  run_nested (failed e) inherited rows callback = (rows, lease_error e)
  run_nested (committed rows') inherited rows callback = callback inherited rows'

  unfoldable pub run_outer :
      LeaseResult
      → Bool
      → EntityLeaseKey
      → String
      → List ActiveLease
      → List LeaseRow
      → Callback A
      → List LeaseRow × Outcome A
  run_outer (failed e) works key owner inherited rows callback = (rows, lease_error e)
  run_outer (committed rows') works key owner inherited rows callback =
      let (after, outcome) =
        callback (inherited ++ record { key = key; owner = owner } ∷ []) rows' in
      (cleanup works key owner after, outcome)

  -- `withEntityLease`.
  unfoldable pub with_entity_lease :
      ℕ
      → Option ℕ
      → Bool
      → List ActiveLease
      → EntityLeaseKey
      → String
      → Callback A
      → List LeaseRow
      → List LeaseRow × Outcome A
  unfolding run_nested run_outer
  with_entity_lease now ttl works inherited key owner callback rows =
      if is_reentrant inherited key owner
      then run_nested (renew_entity_lease now ttl key owner rows) inherited rows callback
      else run_outer (acquire_entity_leases now ttl (key ∷ []) owner rows) works key owner inherited
          rows callback

  -- In a table with one row for an entity, the outcome is the callback's, or the callback never
  -- ran, nothing changed and the entity is reported busy: no failure of the release replaces
  -- what the callback returned or threw. The callback ran on a table in which the owner holds
  -- the entity to the end of a fresh term.
  pub with_entity_lease_outcome :
      (now : ℕ) (ttl : Option ℕ) (works : Bool) (inherited : List ActiveLease)
      (key : EntityLeaseKey) (owner : String) (callback : Callback A) (rows : List LeaseRow)
      → IsTable rows
      → let (after, outcome) = with_entity_lease now ttl works inherited key owner callback rows in
        ((after ≡ rows) × (outcome ≡ lease_error entity_busy))
        ⊎ ((scopes : List ActiveLease) × (held : List LeaseRow) × Wrote rows key owner
              (now + bounded_ttl ttl)
              held
            × (outcome ≡ (callback scopes held).1)
            × ((after ≡ (callback scopes held).0)
                ⊎ (after ≡ release_entity_lease key owner (callback scopes held).0)))
  unfolding with_entity_lease
  with_entity_lease_outcome now ttl works inherited key owner callback rows h =
      elim (Bool-cases (is_reentrant inherited key owner)) [
        | inl nested ↦ rw nested (elim (renew_entity_lease_cases now ttl owner key rows h) [
          | inl (mine, e) ↦ rw e (inl (refl, refl))
          | inr (mine, (rows', e, w)) ↦ rw e (inr (inherited, rows', w, refl, inl refl))
        ])
        | inr outer ↦ rw outer (elim (acquire_one now ttl key owner rows h) [
          | inl e ↦ rw e (inl (refl, refl))
          | inr (rows', e, w) ↦ rw e (
              inr (
                inherited ++ record { key = key; owner = owner } ∷ [],
                rows',
                w,
                refl,
                elim (Bool-cases works) [ inl t ↦ rw t (inr refl) | inr t ↦ rw t (inl refl) ],
              ))
        ])
      ]

  -- In a table with one row for an entity, and around a callback that keeps it so, a scope that
  -- is not nested in one of the same owner and entity, was not refused, and whose release works
  -- leaves the owner without a lease on the entity, whether the callback returned or threw.
  pub with_entity_lease_released :
      (now later : ℕ) (ttl : Option ℕ) (inherited : List ActiveLease) (key : EntityLeaseKey)
      (owner : String) (callback : Callback A) (rows : List LeaseRow)
      → IsTable rows
      → is_reentrant inherited key owner ≡ false
      → ((scopes : List ActiveLease) (held : List LeaseRow)
          → IsTable held
          → IsTable (callback scopes held).0)
      → (with_entity_lease now ttl true inherited key owner callback rows).1
        ≢ lease_error entity_busy
      → ¬ Holds (with_entity_lease now ttl true inherited key owner callback rows).0 key owner later
  unfolding with_entity_lease
  with_entity_lease_released now later ttl inherited key owner callback rows h outer keeps ran m =
      elim (acquire_one now ttl key owner rows h) [
        | inl e ↦ ran (rw (outer, e))
        | inr (rows', e, w) ↦
            released-not_Holds
              (callback (inherited ++ record { key = key; owner = owner } ∷ []) rows').0 key owner
              later (keeps (inherited ++ record { key = key; owner = owner } ∷ []) rows' w.0)
              (rw (outer, e) at m)
      ]
