-- ===== src/Lease/Keys.antt =====
-- services/entityLease.ts: the canonical order in which the entities of one call are locked. Texts
-- are compared as the native `String` does, by code points; the ids are ASCII, where JavaScript's
-- order is the same. The library's stable `sort` is an insertion sort.
use Prim.Native.String.{compare}
use text.Mathlib.Text.{is_lt}
use recat_qbo.Prelude.Shared.{
  ◌≡◌, refl, Bool, true, false, ◌||◌, List, [], ◌∷◌, Option, none, some, String, str_eq,
  if◌then◌else◌, arith, Bool-cases, inl, inr,
}
use recat_qbo.Lease.{EntityLeaseKey, same_key}

abbrev pub in_keys : EntityLeaseKey → List EntityLeaseKey → Bool
in_keys j [] = false
in_keys j (key ∷ keys) = same_key key j || in_keys j keys

abbrev str_lt : String → String → Bool
str_lt a b = is_lt (compare a b)

-- `compareEntityLeaseKeys(left, right) < 0`.
unfoldable pub key_lt : EntityLeaseKey → EntityLeaseKey → Bool
key_lt a b =
    if str_eq a.company_id b.company_id
    then (if str_eq a.qbo_type b.qbo_type
        then str_lt a.qbo_id b.qbo_id
        else str_lt a.qbo_type b.qbo_type)
    else str_lt a.company_id b.company_id

unfoldable pub insert_key : EntityLeaseKey → List EntityLeaseKey → List EntityLeaseKey
insert_key k [] = k ∷ []
insert_key k (j ∷ keys) = if key_lt k j then k ∷ j ∷ keys else j ∷ insert_key k keys

unfoldable pub sort_keys : List EntityLeaseKey → List EntityLeaseKey → List EntityLeaseKey
unfolding insert_key
sort_keys sorted [] = sorted
sort_keys sorted (k ∷ keys) = sort_keys (insert_key k sorted) keys

unfoldable pub has_adjacent : List EntityLeaseKey → Bool
has_adjacent [] = false
has_adjacent (k ∷ []) = false
has_adjacent (k ∷ j ∷ keys) = same_key k j || has_adjacent (j ∷ keys)

-- `canonicalEntityLeaseKeys`; `none` is `DUPLICATE_ENTITY`.
unfoldable pub canonical_entity_lease_keys : List EntityLeaseKey → Option (List EntityLeaseKey)
unfolding sort_keys has_adjacent
canonical_entity_lease_keys keys =
    let canonical = sort_keys [] keys in if has_adjacent canonical then none else some canonical

in_keys-insert_key :
    (j k : EntityLeaseKey) (keys : List EntityLeaseKey)
    → in_keys j (insert_key k keys) ≡ (same_key k j || in_keys j keys)
unfolding insert_key
in_keys-insert_key j k [] = refl
in_keys-insert_key j k (i ∷ keys) = elim (Bool-cases (key_lt k i)) [
  | inl e ↦ rw e
  | inr e ↦
      rw (e, in_keys-insert_key j k keys) (swap (same_key i j) (same_key k j) (in_keys j keys))
]
  where
    swap : (a b c : Bool) → (a || (b || c)) ≡ (b || (a || c))
    swap true true c = refl
    swap true false c = refl
    swap false true c = refl
    swap false false c = refl

in_keys-sort_keys :
    (j : EntityLeaseKey) (sorted keys : List EntityLeaseKey)
    → in_keys j (sort_keys sorted keys) ≡ (in_keys j keys || in_keys j sorted)
unfolding sort_keys
in_keys-sort_keys j sorted [] = refl
in_keys-sort_keys j sorted (k ∷ keys) =
    rw (in_keys-sort_keys j (insert_key k sorted) keys, in_keys-insert_key j k sorted)
      (swap (same_key k j) (in_keys j keys) (in_keys j sorted))
  where
    swap : (a b c : Bool) → (b || (a || c)) ≡ ((a || b) || c)
    swap true true c = refl
    swap true false c = refl
    swap false true c = refl
    swap false false c = refl

-- The canonical list has the entities of the caller's list and no others.
pub in_keys-canonical :
    (j : EntityLeaseKey) (keys canonical : List EntityLeaseKey)
    → canonical_entity_lease_keys keys ≡ some canonical
    → in_keys j canonical ≡ in_keys j keys
unfolding canonical_entity_lease_keys
in_keys-canonical j keys canonical h = ground (arith, in_keys-sort_keys j [] keys)
