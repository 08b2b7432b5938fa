-- ===== src/Lease/Table.antt =====
-- services/entityLease.ts: the lease table seen as a map from entities to rows, and what `updateMany`,
-- `create`, `deleteMany` and the queries are on that map.
use recat_qbo.Prelude.Shared.{
  ◌∙◌, ℕ, ◌≡◌, refl, sym, ◌≢◌, ◌↔◌, inl, inr, List, [], ◌∷◌, ◌++◌, Option, none, some, String, Bool,
  true, ◌&&◌, arith, keep, str_eq_iff, if◌then◌else◌, Bool-cases,
}
use recat_qbo.Lease.{
  EntityLeaseKey, same_key, LeaseRow, update_many, find_row, is_not_of, release_entity_lease,
}

pub same_key_iff : (a b : EntityLeaseKey) → (same_key a b ≡ true) ↔ (a ≡ b)
same_key_iff a b = ground (
  arith,
  str_eq_iff a.company_id b.company_id,
  str_eq_iff a.qbo_type b.qbo_type,
  str_eq_iff a.qbo_id b.qbo_id,
)

abbrev pub FreshKey : EntityLeaseKey → List LeaseRow → Type 0
FreshKey k [] = Unit
FreshKey k (r ∷ rows) = (r.key ≢ k) × FreshKey k rows

-- The primary key: one row for an entity.
abbrev pub IsTable : List LeaseRow → Type 0
IsTable [] = Unit
IsTable (r ∷ rows) = FreshKey r.key rows × IsTable rows

abbrev pub written : String → ℕ → LeaseRow → LeaseRow
written owner expires r = record r { owner = owner; lease_expires_at = expires }

abbrev pub rewrite_if : (LeaseRow → Bool) → String → ℕ → Option LeaseRow → Option LeaseRow
rewrite_if p owner expires none = none
rewrite_if p owner expires (some r) = some (if p r then written owner expires r else r)

-- The row of an entity that passes a test, as a list.
abbrev pub passing : (LeaseRow → Bool) → Option LeaseRow → List LeaseRow
passing q none = []
passing q (some r) = if q r then r ∷ [] else []

pub FreshKey-update :
    (k : EntityLeaseKey) (p : LeaseRow → Bool) (owner : String) (expires : ℕ) (rows : List LeaseRow)
    → FreshKey k rows
    → FreshKey k (update_many p owner expires rows)
unfolding update_many
FreshKey-update k p owner expires [] f = tt
FreshKey-update k p owner expires (r ∷ rows) f =
    (ground arith, FreshKey-update k p owner expires rows f.1)

pub update-IsTable :
    (p : LeaseRow → Bool) (owner : String) (expires : ℕ) (rows : List LeaseRow)
    → IsTable rows
    → IsTable (update_many p owner expires rows)
unfolding update_many
update-IsTable p owner expires [] h = tt
update-IsTable p owner expires (r ∷ rows) h = elim (Bool-cases (p r)) [
  | inl e ↦
      rw e (FreshKey-update r.key p owner expires rows h.0, update-IsTable p owner expires rows h.1)
  | inr e ↦
      rw e (FreshKey-update r.key p owner expires rows h.0, update-IsTable p owner expires rows h.1)
]

pub find_row-update :
    (j : EntityLeaseKey) (p : LeaseRow → Bool) (owner : String) (expires : ℕ) (rows : List LeaseRow)
    → find_row j (update_many p owner expires rows) ≡ rewrite_if p owner expires (find_row j rows)
unfolding update_many find_row
find_row-update j p owner expires [] = refl
find_row-update j p owner expires (r ∷ rows) =
    ground (arith, find_row-update j p owner expires rows)

pub find_row_of_FreshKey :
    (k : EntityLeaseKey) (rows : List LeaseRow) → FreshKey k rows → find_row k rows ≡ none
unfolding find_row
find_row_of_FreshKey k [] f = refl
find_row_of_FreshKey k (r ∷ rows) f =
    ground (arith, same_key_iff r.key k, find_row_of_FreshKey k rows f.1)

pub FreshKey-of_find_row :
    (k : EntityLeaseKey) (rows : List LeaseRow) → find_row k rows ≡ none → FreshKey k rows
unfolding find_row
FreshKey-of_find_row k [] h = tt
FreshKey-of_find_row k (r ∷ rows) h =
    ground (arith, same_key_iff r.key k, FreshKey-of_find_row k rows)

pub key-find_row :
    (k : EntityLeaseKey) (rows : List LeaseRow) (r : LeaseRow)
    → find_row k rows ≡ some r
    → r.key ≡ k
unfolding find_row
key-find_row k [] r h = cc
key-find_row k (x ∷ rows) r h = ground (arith, same_key_iff x.key k, key-find_row k rows r)

abbrev pub on_key : EntityLeaseKey → (LeaseRow → Bool) → LeaseRow → Bool
on_key k q r = same_key r.key k && q r

keep_of_FreshKey :
    (k : EntityLeaseKey) (q : LeaseRow → Bool) (rows : List LeaseRow)
    → FreshKey k rows
    → keep (on_key k q) rows ≡ []
keep_of_FreshKey k q [] f = refl
keep_of_FreshKey k q (r ∷ rows) f =
    ground (arith, same_key_iff r.key k, keep_of_FreshKey k q rows f.1)

-- A query on one entity reads its row.
pub keep-on_key :
    (k : EntityLeaseKey) (q : LeaseRow → Bool) (rows : List LeaseRow)
    → IsTable rows
    → keep (on_key k q) rows ≡ passing q (find_row k rows)
unfolding find_row
keep-on_key k q [] h = refl
keep-on_key k q (r ∷ rows) h = elim (Bool-cases (same_key r.key k)) [
  | inl e ↦
      let same = (same_key_iff r.key k).0 e in
      ground (arith, keep_of_FreshKey r.key q rows h.0, keep_of_FreshKey k q rows)
  | inr e ↦ ground (arith, keep-on_key k q rows h.1)
]

pub find_row-append :
    (j : EntityLeaseKey) (rows : List LeaseRow) (r : LeaseRow)
    → find_row r.key rows ≡ none
    → find_row j (rows ++ r ∷ []) ≡ (if same_key r.key j then some r else find_row j rows)
unfolding find_row
find_row-append j [] r h = refl
find_row-append j (x ∷ rows) r h = ground (
  arith,
  same_key_iff x.key r.key,
  same_key_iff x.key j,
  same_key_iff r.key j,
  find_row-append j rows r,
)

FreshKey-append :
    (k : EntityLeaseKey) (rows : List LeaseRow) (r : LeaseRow)
    → FreshKey k rows
    → r.key ≢ k
    → FreshKey k (rows ++ r ∷ [])
FreshKey-append k [] r f n = (n, tt)
FreshKey-append k (x ∷ rows) r f n = (f.0, FreshKey-append k rows r f.1 n)

pub append-IsTable :
    (rows : List LeaseRow) (r : LeaseRow)
    → IsTable rows
    → FreshKey r.key rows
    → IsTable (rows ++ r ∷ [])
append-IsTable [] r h f = (tt, tt)
append-IsTable (x ∷ rows) r h f =
    (FreshKey-append x.key rows r h.0 (λ e. f.0 (sym e)), append-IsTable rows r h.1 f.1)

FreshKey-release :
    (j k : EntityLeaseKey) (owner : String) (rows : List LeaseRow)
    → FreshKey j rows
    → FreshKey j (release_entity_lease k owner rows)
unfolding release_entity_lease
FreshKey-release j k owner [] f = tt
FreshKey-release j k owner (r ∷ rows) f = ground (arith, FreshKey-release j k owner rows f.1)

pub release-IsTable :
    (k : EntityLeaseKey) (owner : String) (rows : List LeaseRow)
    → IsTable rows
    → IsTable (release_entity_lease k owner rows)
unfolding release_entity_lease
release-IsTable k owner [] h = tt
release-IsTable k owner (r ∷ rows) h =
    ground (arith, release-IsTable k owner rows h.1, FreshKey-release r.key k owner rows h.0)

abbrev pub only_if : (LeaseRow → Bool) → Option LeaseRow → Option LeaseRow
only_if p none = none
only_if p (some r) = if p r then some r else none

FreshKey-keep :
    (j : EntityLeaseKey) (p : LeaseRow → Bool) (rows : List LeaseRow)
    → FreshKey j rows
    → FreshKey j (keep p rows)
FreshKey-keep j p [] f = tt
FreshKey-keep j p (r ∷ rows) f = ground (arith, FreshKey-keep j p rows f.1)

find_row-keep :
    (j : EntityLeaseKey) (p : LeaseRow → Bool) (rows : List LeaseRow)
    → IsTable rows
    → find_row j (keep p rows) ≡ only_if p (find_row j rows)
unfolding find_row
find_row-keep j p [] h = refl
find_row-keep j p (r ∷ rows) h = elim (Bool-cases (same_key r.key j)) [
  | inl e ↦
      let f = FreshKey-keep r.key p rows h.0 in
      let same = (same_key_iff r.key j).0 e in
      ground (arith, find_row_of_FreshKey r.key (keep p rows) f)
  | inr e ↦ ground (arith, find_row-keep j p rows h.1)
]

-- `deleteMany` takes away the row of the entity if it is the owner's, and no other.
pub find_row-release :
    (j k : EntityLeaseKey) (owner : String) (rows : List LeaseRow)
    → IsTable rows
    → find_row j (release_entity_lease k owner rows) ≡ only_if (is_not_of k owner) (find_row j rows)
unfolding release_entity_lease
find_row-release j k owner rows h = find_row-keep j (is_not_of k owner) rows h

-- `updateMany` on one entity writes its row, and no other.
pub find_row-update_key :
    (j k : EntityLeaseKey) (q : LeaseRow → Bool) (owner : String) (expires : ℕ)
    (rows : List LeaseRow)
    → find_row j (update_many (on_key k q) owner expires rows)
      ≡ (if same_key k j then rewrite_if q owner expires (find_row j rows) else find_row j rows)
find_row-update_key j k q owner expires rows =
    find_row-update j (on_key k q) owner expires rows ∙ at_row (find_row j rows) refl
  where
    at_row :
        (o : Option LeaseRow)
        → find_row j rows ≡ o
        → rewrite_if (on_key k q) owner expires o
          ≡ (if same_key k j then rewrite_if q owner expires o else o)
    at_row none e = ground arith
    at_row (some r) e =
        ground (arith, key-find_row j rows r e, same_key_iff r.key k, same_key_iff k j)
