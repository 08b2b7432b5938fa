-- ===== src/Lease.antt =====
-- services/entityLease.ts: leases on QuickBooks entities. The table "QboEntityLease" is a list of
-- rows, its primary key the three parts of the entity; the database's clock is an argument, and a
-- transaction that fails leaves the table as it was.
pub mod Keys
pub mod Table
pub mod Holding
pub mod Exclusion
pub mod Scope
pub mod Many
mod Tests
use recat_qbo.Prelude.Shared.{
  ℕ, ◌+◌, ◌≡◌, Bool, true, false, ◌&&◌, ◌||◌, List, [], ◌∷◌, ◌++◌, map, Option, none, some, String,
  ltb, leb, ◌==◌, str_eq, if◌then◌else◌, length, keep, find, any, arith,
}
use Prim.Native.Nat.{max, min}

pub record EntityLeaseKey : Type 0 where
  pub company_id : String
  pub qbo_type : String
  pub qbo_id : String

-- `sameKey`, and `compareEntityLeaseKeys(left, right) === 0`.
abbrev pub same_key : EntityLeaseKey → EntityLeaseKey → Bool
same_key a b =
    str_eq a.company_id b.company_id && str_eq a.qbo_type b.qbo_type && str_eq a.qbo_id b.qbo_id

pub record LeaseRow : Type 0 where
  pub key : EntityLeaseKey
  pub owner : String
  pub lease_expires_at : ℕ

pub data EntityLeaseErrorCode : Type 0 where
  entity_busy duplicate_entity : EntityLeaseErrorCode

-- What a database transaction gives: the new rows, or an error and no change.
pub data LeaseResult : Type 0 where
  committed : List LeaseRow → LeaseResult
  failed : EntityLeaseErrorCode → LeaseResult

infixl 5 ◌>>=◌
abbrev pub ◌>>=◌ : LeaseResult → (List LeaseRow → LeaseResult) → LeaseResult
committed rows >>= f = f rows
failed e >>= f = failed e

-- The rows after a call that is a transaction.
abbrev pub rows_after : List LeaseRow → LeaseResult → List LeaseRow
rows_after rows (committed rows') = rows'
rows_after rows (failed e) = rows

abbrev pub default_lease_ttl_ms : ℕ
default_lease_ttl_ms = 30_000

-- `boundedTtl`; `none` is undefined or not finite, and a fraction is cut off before.
unfoldable pub bounded_ttl : Option ℕ → ℕ
bounded_ttl none = default_lease_ttl_ms
bounded_ttl (some ttl) = max 1 (min ttl default_lease_ttl_ms)

-- `updateMany`: the rows, and how many were changed.
unfoldable pub update_many : (LeaseRow → Bool) → String → ℕ → List LeaseRow → List LeaseRow
update_many p owner expires [] = []
update_many p owner expires (r ∷ rows) =
    (if p r then record r { owner = owner; lease_expires_at = expires } else r)
    ∷ update_many p owner expires rows

abbrev pub count : (LeaseRow → Bool) → List LeaseRow → ℕ
count p rows = length (keep p rows)

unfoldable pub find_row : EntityLeaseKey → List LeaseRow → Option LeaseRow
find_row key rows = find (λ r. same_key r.key key) rows

-- `create`: the primary key refuses a second row of the entity, which is `ENTITY_BUSY`.
unfoldable pub create : EntityLeaseKey → String → ℕ → List LeaseRow → LeaseResult
create key owner expires rows = elim (find_row key rows) [
  | none ↦ committed (rows ++ record { key = key; owner = owner; lease_expires_at = expires } ∷ [])
  | some r ↦ failed entity_busy
]

-- The `where` clauses: a row of the entity that has run out or is the owner's, and one that is the
-- owner's and has not run out.
abbrev pub is_takeable : EntityLeaseKey → String → ℕ → LeaseRow → Bool
is_takeable key owner now r =
    same_key r.key key && (leb r.lease_expires_at now || str_eq r.owner owner)

abbrev pub is_live_of : EntityLeaseKey → String → ℕ → LeaseRow → Bool
is_live_of key owner now r =
    same_key r.key key && (str_eq r.owner owner && ltb now r.lease_expires_at)

-- One round of the loop of `acquireCanonicalEntityLeases`.
unfoldable pub acquire_key : ℕ → ℕ → String → EntityLeaseKey → List LeaseRow → LeaseResult
unfolding create
acquire_key now expires owner key rows =
    if count (is_takeable key owner now) rows == 1
    then committed (update_many (is_takeable key owner now) owner expires rows)
    else create key owner expires rows

unfoldable pub acquire_canonical :
    ℕ → ℕ → String → List EntityLeaseKey → List LeaseRow → LeaseResult
acquire_canonical now expires owner [] rows = committed rows
acquire_canonical now expires owner (key ∷ keys) rows =
    acquire_key now expires owner key rows >>= acquire_canonical now expires owner keys

unfoldable pub renew_canonical : ℕ → ℕ → String → List EntityLeaseKey → List LeaseRow → LeaseResult
renew_canonical now expires owner [] rows = committed rows
renew_canonical now expires owner (key ∷ keys) rows =
    let rest =
      renew_canonical now expires owner keys
        (update_many (is_takeable key owner now) owner expires rows) in
    if count (is_takeable key owner now) rows == 1 then rest else failed entity_busy

-- `renewEntityLease`.
unfoldable pub renew_entity_lease :
    ℕ → Option ℕ → EntityLeaseKey → String → List LeaseRow → LeaseResult
renew_entity_lease now ttl key owner rows =
    if count (is_live_of key owner now) rows == 1
    then committed (update_many (is_live_of key owner now) owner (now + bounded_ttl ttl) rows)
    else failed entity_busy

-- `releaseEntityLease`: the rows that stay; the call says whether one row went.
abbrev pub is_not_of : EntityLeaseKey → String → LeaseRow → Bool
is_not_of key owner r = if same_key r.key key && str_eq r.owner owner then false else true

unfoldable pub release_entity_lease : EntityLeaseKey → String → List LeaseRow → List LeaseRow
release_entity_lease key owner rows = keep (is_not_of key owner) rows

unfoldable pub release_entity_leases : List EntityLeaseKey → String → List LeaseRow → List LeaseRow
release_entity_leases [] owner rows = rows
release_entity_leases (key ∷ keys) owner rows =
    release_entity_leases keys owner (release_entity_lease key owner rows)

-- `fenceEntityLeaseOwnership`: the query reads the live rows of the entity.
unfoldable pub fence_entity_lease_ownership :
    ℕ → EntityLeaseKey → String → List LeaseRow → LeaseResult
fence_entity_lease_ownership now key owner rows =
    elim (keep (λ r. same_key r.key key && ltb now r.lease_expires_at) rows) [
      | [] ↦ failed entity_busy
      | r ∷ rest ↦
          if length (r ∷ rest) == 1 && str_eq r.owner owner
          then committed rows
          else failed entity_busy
    ]
