-- ===== src/Lease/Holding.antt =====
-- services/entityLease.ts: who holds an entity, and what each operation needs and leaves.
use recat_qbo.Prelude.Shared.{
  ℕ, ◌+◌, ◌<◌, ◌≡◌, refl, ◌≢◌, ◌⊎◌, ◌↔◌, inl, inr, List, [], ◌∷◌, ◌++◌, Option, some, String, Bool,
  true, ◌&&◌, ◌||◌, arith, str_eq, str_eq_iff, leb, ltb, if◌then◌else◌, Bool-cases, Option-cases,
}
use recat_qbo.Lease.{
  EntityLeaseKey, same_key, LeaseRow, entity_busy, committed, failed, bounded_ttl, update_many,
  find_row, is_takeable, is_live_of, acquire_key, acquire_canonical, renew_entity_lease,
  fence_entity_lease_ownership,
}
use recat_qbo.Lease.Keys.{in_keys}
use recat_qbo.Lease.Table.{
  same_key_iff, IsTable, update-IsTable, FreshKey-of_find_row, key-find_row, on_key, keep-on_key,
  find_row-append, append-IsTable, find_row-update_key,
}

-- The owner has a lease on the entity that has not run out at `now`.
abbrev pub Holds : List LeaseRow → EntityLeaseKey → String → ℕ → Type 0
Holds rows key owner now =
    (r : LeaseRow) × (find_row key rows ≡ some r) × (r.owner ≡ owner) × (now < r.lease_expires_at)

-- Another owner has one.
abbrev pub HeldByOther : List LeaseRow → EntityLeaseKey → String → ℕ → Type 0
HeldByOther rows key owner now =
    (r : LeaseRow) × (find_row key rows ≡ some r) × (r.owner ≢ owner) × (now < r.lease_expires_at)

abbrev pub lease_of : EntityLeaseKey → String → ℕ → LeaseRow
lease_of key owner expires = record { key = key; owner = owner; lease_expires_at = expires }

abbrev pub is_free : String → ℕ → LeaseRow → Bool
is_free owner now r = leb r.lease_expires_at now || str_eq r.owner owner

-- After a write of a lease: the entity's row is the lease, and every other row is as it was.
abbrev pub Wrote : List LeaseRow → EntityLeaseKey → String → ℕ → List LeaseRow → Type 0
Wrote rows key owner expires rows' =
    IsTable rows'
    × ((j : EntityLeaseKey)
        → find_row j rows'
          ≡ (if same_key key j then some (lease_of key owner expires) else find_row j rows))

pub update-Wrote :
    (q : LeaseRow → Bool) (expires : ℕ) (owner : String) (key : EntityLeaseKey)
    (rows : List LeaseRow) (r : LeaseRow)
    → IsTable rows
    → find_row key rows ≡ some r
    → q r ≡ true
    → Wrote rows key owner expires (update_many (on_key key q) owner expires rows)
update-Wrote q expires owner key rows r h found free = (
  update-IsTable (on_key key q) owner expires rows h,
  λ j. elim (Bool-cases (same_key key j)) [
    | inl e ↦
        let same = (same_key_iff key j).0 e in
        ground
          (arith, find_row-update_key j key q owner expires rows, key-find_row key rows r found)
    | inr e ↦ ground (arith, find_row-update_key j key q owner expires rows)
  ],
)

-- The row that `acquire_key` finds, and what it does: the whole of one round.
pub acquire_key_cases :
    (now expires : ℕ) (owner : String) (key : EntityLeaseKey) (rows : List LeaseRow)
    → IsTable rows
    → (HeldByOther rows key owner now
        × (acquire_key now expires owner key rows ≡ failed entity_busy))
      ⊎ ((rows' : List LeaseRow) × (acquire_key now expires owner key rows ≡ committed rows')
          × Wrote rows key owner expires rows')
unfolding acquire_key
acquire_key_cases now expires owner key rows h =
    let seen = keep-on_key key (is_free owner now) rows h in
    elim (Option-cases (find_row key rows)) [
      | inl absent ↦ inr (
        rows ++ lease_of key owner expires ∷ [],
        ground (arith, seen),
        (
          append-IsTable rows (lease_of key owner expires) h (FreshKey-of_find_row key rows absent),
          λ j. find_row-append j rows (lease_of key owner expires) absent,
        ),
      )
      | inr (r, found) ↦ elim (Bool-cases (is_free owner now r)) [
        | inl free ↦ inr (
          update_many (is_takeable key owner now) owner expires rows,
          ground (arith, seen),
          update-Wrote (is_free owner now) expires owner key rows r h found free,
        )
        | inr busy ↦ inl (
          (r, found, (λ e. ground (arith, str_eq_iff r.owner owner)), ground arith),
          ground (arith, seen),
        )
      ]
    ]

-- A lease that has not run out keeps every other owner from taking the entity, and the table stays
-- as it was.
pub acquire_key_busy :
    (now expires : ℕ) (owner : String) (key : EntityLeaseKey) (rows : List LeaseRow)
    → IsTable rows
    → HeldByOther rows key owner now
    → acquire_key now expires owner key rows ≡ failed entity_busy
unfolding acquire_key
acquire_key_busy now expires owner key rows h (r, found, other, live) =
    ground (arith, keep-on_key key (is_free owner now) rows h, str_eq_iff r.owner owner)

-- What the loop leaves: a table in which the owner has every entity of the list until `expires`, and
-- all other rows are as they were.
abbrev pub Acquired : List LeaseRow → List EntityLeaseKey → String → ℕ → List LeaseRow → Type 0
Acquired rows keys owner expires rows' =
    IsTable rows'
    × ((j : EntityLeaseKey)
        → find_row j rows'
          ≡ (if in_keys j keys then some (lease_of j owner expires) else find_row j rows))

abbrev pub AnyHeldByOther : List LeaseRow → List EntityLeaseKey → String → ℕ → Type 0
AnyHeldByOther rows [] owner now = ⊥
AnyHeldByOther rows (key ∷ keys) owner now =
    HeldByOther rows key owner now ⊎ AnyHeldByOther rows keys owner now

-- What another owner holds after the write, it held before.
held_before :
    (rows rows' : List LeaseRow) (key j : EntityLeaseKey) (owner : String) (expires now : ℕ)
    → Wrote rows key owner expires rows'
    → HeldByOther rows' j owner now
    → HeldByOther rows j owner now
held_before rows rows' key j owner expires now w (r, found, other, live) =
    elim (Bool-cases (same_key key j)) [
      | inl e ↦ absurd (other (ground (arith, w.1 j)))
      | inr e ↦ (r, ground (arith, w.1 j), other, live)
    ]

any_held_before :
    (rows rows' : List LeaseRow) (key : EntityLeaseKey) (keys : List EntityLeaseKey)
    (owner : String) (expires now : ℕ)
    → Wrote rows key owner expires rows'
    → AnyHeldByOther rows' keys owner now
    → AnyHeldByOther rows keys owner now
any_held_before rows rows' key [] owner expires now w a = a
any_held_before rows rows' key (j ∷ keys) owner expires now w (inl a) =
    inl (held_before rows rows' key j owner expires now w a)
any_held_before rows rows' key (j ∷ keys) owner expires now w (inr a) =
    inr (any_held_before rows rows' key keys owner expires now w a)

Acquired-cons :
    (rows rows₁ rows₂ : List LeaseRow) (key : EntityLeaseKey) (keys : List EntityLeaseKey)
    (owner : String) (expires : ℕ)
    → Wrote rows key owner expires rows₁
    → Acquired rows₁ keys owner expires rows₂
    → Acquired rows (key ∷ keys) owner expires rows₂
Acquired-cons rows rows₁ rows₂ key keys owner expires w a =
    (a.0, λ j. ground (arith, a.1 j, w.1 j, same_key_iff key j))

-- In a table with one row for an entity, leases on several entities are taken together: either
-- every one of them is the caller's until `expires`, with all other rows as they were, or another
-- owner has a live lease on one of them and nothing is changed.
pub acquire_canonical_cases :
    (now expires : ℕ) (owner : String) (keys : List EntityLeaseKey) (rows : List LeaseRow)
    → IsTable rows
    → ((acquire_canonical now expires owner keys rows ≡ failed entity_busy)
        × AnyHeldByOther rows keys owner now)
      ⊎ ((rows' : List LeaseRow) × (acquire_canonical now expires owner keys rows ≡ committed rows')
          × Acquired rows keys owner expires rows')
unfolding acquire_canonical
acquire_canonical_cases now expires owner [] rows h = inr (rows, refl, (h, λ j. refl))
acquire_canonical_cases now expires owner (key ∷ keys) rows h =
    elim (acquire_key_cases now expires owner key rows h) [
      | inl (held, e) ↦ inl (rw e, inl held)
      | inr (rows₁, e, w) ↦ rw e (elim (acquire_canonical_cases now expires owner keys rows₁ w.0) [
        | inl (refusal, held) ↦
            inl (refusal, inr (any_held_before rows rows₁ key keys owner expires now w held))
        | inr (rows₂, done, a) ↦
            inr (rows₂, done, Acquired-cons rows rows₁ rows₂ key keys owner expires w a)
      ])
    ]

abbrev pub is_mine : String → ℕ → LeaseRow → Bool
is_mine owner now r = str_eq r.owner owner && ltb now r.lease_expires_at

pub renew_entity_lease_cases :
    (now : ℕ) (ttl : Option ℕ) (owner : String) (key : EntityLeaseKey) (rows : List LeaseRow)
    → IsTable rows
    → ((¬ Holds rows key owner now)
        × (renew_entity_lease now ttl key owner rows ≡ failed entity_busy))
      ⊎ (Holds rows key owner now
          × ((rows' : List LeaseRow) × (renew_entity_lease now ttl key owner rows ≡ committed rows')
              × Wrote rows key owner (now + bounded_ttl ttl) rows'))
unfolding renew_entity_lease
renew_entity_lease_cases now ttl owner key rows h =
    let seen = keep-on_key key (is_mine owner now) rows h in
    elim (Option-cases (find_row key rows)) [
      | inl absent ↦ inl ((λ m. ground (arith, m.1)), ground (arith, seen))
      | inr (r, found) ↦ elim (Bool-cases (is_mine owner now r)) [
        | inl mine ↦ inr (
          (r, found, ground (arith, str_eq_iff r.owner owner), ground arith),
          (
            update_many (is_live_of key owner now) owner (now + bounded_ttl ttl) rows,
            ground (arith, seen),
            update-Wrote (is_mine owner now) (now + bounded_ttl ttl) owner key rows r h found mine,
          ),
        )
        | inr other ↦
            inl
              ((λ m. ground (arith, m.1, m.2, m.3, str_eq_iff r.owner owner)), ground (arith, seen))
      ]
    ]

-- In a table with one row for an entity, the renewal of one lease never takes an entity over and
-- never brings a lease back that has run out: it succeeds exactly when the owner holds the
-- entity, and then moves the end of that lease alone.
pub renew_iff_Holds :
    (now : ℕ) (ttl : Option ℕ) (owner : String) (key : EntityLeaseKey) (rows : List LeaseRow)
    → IsTable rows
    → ((rows' : List LeaseRow) × (renew_entity_lease now ttl key owner rows ≡ committed rows')
        × Wrote rows key owner (now + bounded_ttl ttl) rows')
      ↔ Holds rows key owner now
renew_iff_Holds now ttl owner key rows h =
    elim (renew_entity_lease_cases now ttl owner key rows h) [
      | inl (mine, refusal) ↦ ((λ m. absurd (ground (arith, m.1))), λ m. absurd (mine m))
      | inr (mine, done) ↦ ((λ m. mine), λ m. done)
    ]

-- In a table with one row for an entity, a fence passes exactly for the owner of a live lease,
-- and changes nothing.
pub fence_iff_Holds :
    (now : ℕ) (owner : String) (key : EntityLeaseKey) (rows : List LeaseRow)
    → IsTable rows
    → (fence_entity_lease_ownership now key owner rows ≡ committed rows) ↔ Holds rows key owner now
unfolding fence_entity_lease_ownership
fence_iff_Holds now owner key rows h =
    let seen = keep-on_key key (λ r. ltb now r.lease_expires_at) rows h in
    (
      (λ e. elim (Option-cases (find_row key rows)) [
        | inl absent ↦ absurd (ground (arith, seen))
        | inr (r, found) ↦
            (r, found, ground (arith, seen, str_eq_iff r.owner owner), ground (arith, seen))
      ]),
      λ m. ground (arith, seen, m.1, m.2, m.3, str_eq_iff m.0.owner owner),
    )
