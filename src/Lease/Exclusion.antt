-- ===== src/Lease/Exclusion.antt =====
-- services/entityLease.ts: a live lease keeps every other owner out of it.
use recat_qbo.Prelude.Shared.{
  ℕ, ◌+◌, ◌<◌, ◌≡◌, refl, ◌≢◌, ◌⊎◌, inl, inr, List, [], ◌∷◌, Option, some, String, true, arith,
  str_eq_iff, All, Bool-cases, ◌==◌,
}
use recat_qbo.Lease.{
  EntityLeaseKey, same_key, LeaseRow, entity_busy, committed, failed, rows_after, bounded_ttl,
  update_many, count, find_row, is_takeable, acquire_canonical, renew_canonical, renew_entity_lease,
  release_entity_lease, fence_entity_lease_ownership,
}
use recat_qbo.Lease.Keys.{in_keys}
use recat_qbo.Lease.Table.{
  same_key_iff, IsTable, update-IsTable, keep-on_key, release-IsTable, find_row-release,
  find_row-update_key,
}
use recat_qbo.Lease.Holding.{
  is_free, acquire_key_cases, acquire_key_busy, acquire_canonical_cases, renew_entity_lease_cases,
  fence_iff_Holds,
}

-- The calls that another owner may make, with the time of the database's clock.
pub data Call : Type 0 where
  acquires : ℕ → Option ℕ → List EntityLeaseKey → Call
  renews : ℕ → Option ℕ → EntityLeaseKey → Call
  renews_all : ℕ → Option ℕ → List EntityLeaseKey → Call
  releases : EntityLeaseKey → Call

abbrev pub time_of : Call → ℕ
time_of (acquires now ttl keys) = now
time_of (renews now ttl key) = now
time_of (renews_all now ttl keys) = now
time_of (releases key) = 0

unfoldable pub call : String → Call → List LeaseRow → List LeaseRow
call owner (acquires now ttl keys) rows =
    rows_after rows (acquire_canonical now (now + bounded_ttl ttl) owner keys rows)
call owner (renews now ttl key) rows = rows_after rows (renew_entity_lease now ttl key owner rows)
call owner (renews_all now ttl keys) rows =
    rows_after rows (renew_canonical now (now + bounded_ttl ttl) owner keys rows)
call owner (releases key) rows = release_entity_lease key owner rows

-- The row is in force against the owner at the time.
abbrev pub Against : LeaseRow → String → ℕ → Type 0
Against r owner now = (r.owner ≢ owner) × (now < r.lease_expires_at)

acquire_canonical_busy :
    (now expires : ℕ) (owner : String) (keys : List EntityLeaseKey) (rows : List LeaseRow)
    (key : EntityLeaseKey) (r : LeaseRow)
    → IsTable rows
    → find_row key rows ≡ some r
    → Against r owner now
    → in_keys key keys ≡ true
    → acquire_canonical now expires owner keys rows ≡ failed entity_busy
unfolding acquire_canonical
acquire_canonical_busy now expires owner [] rows key r h f a i = cc
acquire_canonical_busy now expires owner (k ∷ keys) rows key r h f a i =
    elim (acquire_key_cases now expires owner k rows h) [
      | inl (held, e) ↦ rw e
      | inr (rows₁, e, w) ↦ elim (Bool-cases (same_key k key)) [
        | inl s ↦ absurd (
            ground (
              arith,
              acquire_key_busy now expires owner k rows h
                  (r, ground (arith, (same_key_iff k key).0 s), a.0, a.1),
            ))
        | inr s ↦ rw e (
            acquire_canonical_busy now expires owner keys rows₁ key r w.0 (ground (arith, w.1 key))
              a (ground arith))
      ]
    ]

-- What stays of the row of an entity that another owner has a live lease on.
abbrev Kept : EntityLeaseKey → LeaseRow → List LeaseRow → Type 0
Kept key r rows = IsTable rows × (find_row key rows ≡ some r)

acquires_Kept :
    (now expires : ℕ) (owner : String) (keys : List EntityLeaseKey) (rows : List LeaseRow)
    (key : EntityLeaseKey) (r : LeaseRow)
    → Kept key r rows
    → Against r owner now
    → Kept key r (rows_after rows (acquire_canonical now expires owner keys rows))
acquires_Kept now expires owner keys rows key r k a =
    elim (acquire_canonical_cases now expires owner keys rows k.0) [
      | inl (e, held) ↦ rw e k
      | inr (rows', e, acquired) ↦ elim (Bool-cases (in_keys key keys)) [
        | inl i ↦ rw (acquire_canonical_busy now expires owner keys rows key r k.0 k.1 a i) k
        | inr i ↦ rw e (acquired.0, ground (arith, acquired.1 key))
      ]
    ]

renews_Kept :
    (now : ℕ) (ttl : Option ℕ) (owner : String) (k : EntityLeaseKey) (rows : List LeaseRow)
    (key : EntityLeaseKey) (r : LeaseRow)
    → Kept key r rows
    → Against r owner now
    → Kept key r (rows_after rows (renew_entity_lease now ttl k owner rows))
renews_Kept now ttl owner k rows key r kept a =
    elim (renew_entity_lease_cases now ttl owner k rows kept.0) [
      | inl (mine, e) ↦ rw e kept
      | inr (mine, (rows', e, w)) ↦
          rw e (w.0, ground (arith, w.1 key, same_key_iff k key, mine.1, mine.2))
    ]

renew_canonical-Kept :
    (now expires : ℕ) (owner : String) (keys : List EntityLeaseKey) (rows : List LeaseRow)
    (key : EntityLeaseKey) (r : LeaseRow)
    → Kept key r rows
    → Against r owner now
    → (renew_canonical now expires owner keys rows ≡ failed entity_busy)
      ⊎ ((rows' : List LeaseRow) × (renew_canonical now expires owner keys rows ≡ committed rows')
          × Kept key r rows')
unfolding renew_canonical
renew_canonical-Kept now expires owner [] rows key r kept a = inr (rows, refl, kept)
renew_canonical-Kept now expires owner (k ∷ keys) rows key r kept a =
    elim (Bool-cases (count (is_takeable k owner now) rows == 1)) [
      | inr e ↦ inl (rw e)
      | inl e ↦ elim (Bool-cases (same_key k key)) [
        | inl s ↦ absurd (
            ground (
              arith,
              (same_key_iff k key).0 s,
              keep-on_key k (is_free owner now) rows kept.0,
              kept.1,
              a.0,
              str_eq_iff r.owner owner,
            ))
        | inr s ↦ rw e (
            renew_canonical-Kept now expires owner keys
              (update_many (is_takeable k owner now) owner expires rows) key r
              (
                update-IsTable (is_takeable k owner now) owner expires rows kept.0,
                ground (
                  arith,
                  find_row-update_key key k (is_free owner now) owner expires rows,
                  kept.1,
                ),
              )
              a)
      ]
    ]

-- A lease that has not run out is untouched by whatever another owner calls.
call-Kept :
    (owner : String) (c : Call) (rows : List LeaseRow) (key : EntityLeaseKey) (r : LeaseRow)
    → Kept key r rows
    → Against r owner (time_of c)
    → Kept key r (call owner c rows)
unfolding call
call-Kept owner (acquires now ttl keys) rows key r k a =
    acquires_Kept now (now + bounded_ttl ttl) owner keys rows key r k a
call-Kept owner (renews now ttl j) rows key r k a = renews_Kept now ttl owner j rows key r k a
call-Kept owner (renews_all now ttl keys) rows key r k a =
    elim (renew_canonical-Kept now (now + bounded_ttl ttl) owner keys rows key r k a) [
      | inl e ↦ rw e k
      | inr (rows', e, k') ↦ rw e k'
    ]
call-Kept owner (releases j) rows key r k a = (
  release-IsTable j owner rows k.0,
  ground (arith, find_row-release key j owner rows k.0, k.1, str_eq_iff r.owner owner),
)

unfoldable pub run : List (String × Call) → List LeaseRow → List LeaseRow
run [] rows = rows
run ((owner, c) ∷ calls) rows = run calls (call owner c rows)

run-Kept :
    (calls : List (String × Call)) (rows : List LeaseRow) (key : EntityLeaseKey) (r : LeaseRow)
    → Kept key r rows
    → All (λ c. Against r c.0 (time_of c.1)) calls
    → Kept key r (run calls rows)
unfolding run
run-Kept [] rows key r k a = k
run-Kept ((owner, c) ∷ calls) rows key r k a =
    run-Kept calls (call owner c rows) key r (call-Kept owner c rows key r k a.0) a.1

-- In a table with one row for an entity, while a lease has not run out, and whatever other owners
-- call before its end, in any order, the fence on the entity passes for the lease's owner and for
-- nobody else.
pub lease_excludes :
    (calls : List (String × Call)) (rows : List LeaseRow) (key : EntityLeaseKey) (r : LeaseRow)
    (other : String) (now : ℕ)
    → IsTable rows
    → find_row key rows ≡ some r
    → All (λ c. Against r c.0 (time_of c.1)) calls
    → Against r other now
    → (fence_entity_lease_ownership now key r.owner (run calls rows) ≡ committed (run calls rows))
      × (fence_entity_lease_ownership now key other (run calls rows) ≢ committed (run calls rows))
lease_excludes calls rows key r other now h found a o =
    let (h', found') = run-Kept calls rows key r (h, found) a in
    (
      (fence_iff_Holds now r.owner key (run calls rows) h').1 (r, found', refl, o.1),
      λ e.
          let m = (fence_iff_Holds now other key (run calls rows) h').0 e in
          o.0 (ground (arith, m.1, m.2)),
    )
