-- ===== src/Prelude/Assoc.antt =====
-- A JavaScript `Map` with text keys: an association list in insertion order.
use recat_qbo.Prelude.Shared.{
  suc, ◌≡◌, refl, ◌≢◌, Bool, true, false, List, [], ◌∷◌, Option, none, some, String, arith, str_eq,
  str_eq_iff, if◌then◌else◌, length, is_none, Bool-cases, inl, inr,
}

module _ {ℓ} {V : Type ℓ} where
  -- `map.get(key)`.
  abbrev pub lookup : String → List (String × V) → Option V
  lookup k [] = none
  lookup k ((j, v) ∷ m) = if str_eq j k then some v else lookup k m

  -- `map.set(key, value)`: a key that is there keeps its place, a new one goes to the end.
  abbrev pub insert : String → V → List (String × V) → List (String × V)
  insert k v [] = (k, v) ∷ []
  insert k v ((j, w) ∷ m) = if str_eq j k then (j, v) ∷ m else (j, w) ∷ insert k v m

  -- `map.delete(key)`.
  abbrev pub erase : String → List (String × V) → List (String × V)
  erase k [] = []
  erase k ((j, w) ∷ m) = if str_eq j k then m else (j, w) ∷ erase k m

  abbrev pub Fresh : String → List (String × V) → Type 0
  Fresh k [] = Unit
  Fresh k ((j, w) ∷ m) = (j ≢ k) × Fresh k m

  -- Every key occurs once.
  abbrev pub IsMap : List (String × V) → Type 0
  IsMap [] = Unit
  IsMap ((j, w) ∷ m) = Fresh j m × IsMap m

  pub lookup-insert :
      (k j : String) (v : V) (m : List (String × V))
      → lookup j (insert k v m) ≡ (if str_eq k j then some v else lookup j m)
  lookup-insert k j v [] = refl
  lookup-insert k j v ((i, w) ∷ m) =
      ground (arith, str_eq_iff k j, str_eq_iff i k, str_eq_iff i j, lookup-insert k j v m)

  pub lookup-erase_ne :
      (k j : String) (m : List (String × V)) → k ≢ j → lookup j (erase k m) ≡ lookup j m
  lookup-erase_ne k j [] h = refl
  lookup-erase_ne k j ((i, w) ∷ m) h =
      ground (arith, str_eq_iff i k, str_eq_iff i j, lookup-erase_ne k j m)

  pub lookup_of_Fresh : (k : String) (m : List (String × V)) → Fresh k m → lookup k m ≡ none
  lookup_of_Fresh k [] h = refl
  lookup_of_Fresh k ((j, w) ∷ m) h = ground (arith, str_eq_iff j k, lookup_of_Fresh k m h.1)

  pub lookup-erase_self :
      (k : String) (m : List (String × V)) → IsMap m → lookup k (erase k m) ≡ none
  lookup-erase_self k [] h = refl
  lookup-erase_self k ((j, w) ∷ m) h =
      ground (arith, str_eq_iff j k, lookup-erase_self k m h.1, lookup_of_Fresh j m h.0)

  pub Fresh-of_lookup : (k : String) (m : List (String × V)) → lookup k m ≡ none → Fresh k m
  Fresh-of_lookup k [] h = tt
  Fresh-of_lookup k ((j, w) ∷ m) h = ground (arith, str_eq_iff j k, Fresh-of_lookup k m)

  pub Fresh-insert :
      (k j : String) (v : V) (m : List (String × V)) → k ≢ j → Fresh j m → Fresh j (insert k v m)
  Fresh-insert k j v [] h f = (h, tt)
  Fresh-insert k j v ((i, w) ∷ m) h f = ground (arith, Fresh-insert k j v m h f.1)

  pub insert-IsMap : (k : String) (v : V) (m : List (String × V)) → IsMap m → IsMap (insert k v m)
  insert-IsMap k v [] h = (tt, tt)
  insert-IsMap k v ((i, w) ∷ m) h =
      ground (arith, str_eq_iff i k, insert-IsMap k v m h.1, Fresh-insert k i v m)

  pub Fresh-erase : (k j : String) (m : List (String × V)) → Fresh j m → Fresh j (erase k m)
  Fresh-erase k j [] f = tt
  Fresh-erase k j ((i, w) ∷ m) f = ground (arith, Fresh-erase k j m f.1)

  pub erase-IsMap : (k : String) (m : List (String × V)) → IsMap m → IsMap (erase k m)
  erase-IsMap k [] h = tt
  erase-IsMap k ((i, w) ∷ m) h = ground (arith, erase-IsMap k m h.1, Fresh-erase k i m h.0)

  pub length-insert :
      (k : String) (v : V) (m : List (String × V))
      → length (insert k v m) ≡ (if is_none (lookup k m) then suc (length m) else length m)
  length-insert k v [] = refl
  length-insert k v ((i, w) ∷ m) = ground (arith, length-insert k v m)

  pub length-erase :
      (k : String) (v : V) (m : List (String × V))
      → lookup k m ≡ some v
      → suc (length (erase k m)) ≡ length m
  length-erase k v [] h = absurd (ground arith)
  length-erase k v ((i, w) ∷ m) h = elim (Bool-cases (str_eq i k)) [
    | inl same ↦ rw same
    | inr other ↦ rw other (omega (arith, length-erase k v m (rw other at h)))
  ]

  -- A property of every value survives the two writes, and is read back by `lookup`.
  abbrev pub AllValues {κ} : (V → Type κ) → List (String × V) → Type κ
  AllValues P [] = Unit
  AllValues P ((j, w) ∷ m) = P w × AllValues P m

  pub AllValues-insert {κ} :
      (P : V → Type κ) (k : String) (v : V) (m : List (String × V))
      → P v
      → AllValues P m
      → AllValues P (insert k v m)
  AllValues-insert P k v [] h a = (h, tt)
  AllValues-insert P k v ((i, w) ∷ m) h a = go (str_eq i k) (AllValues-insert P k v m h a.1)
    where
      go :
          (b : Bool)
          → AllValues P (insert k v m)
          → AllValues P (if b then (i, v) ∷ m else (i, w) ∷ insert k v m)
      go true r = (h, a.1)
      go false r = (a.0, r)

  pub AllValues-erase {κ} :
      (P : V → Type κ) (k : String) (m : List (String × V))
      → AllValues P m
      → AllValues P (erase k m)
  AllValues-erase P k [] a = tt
  AllValues-erase P k ((i, w) ∷ m) a = go (str_eq i k) (AllValues-erase P k m a.1)
    where
      go : (b : Bool) → AllValues P (erase k m) → AllValues P (if b then m else (i, w) ∷ erase k m)
      go true r = a.1
      go false r = (a.0, r)

  pub AllValues-lookup {κ} :
      (P : V → Type κ) (k : String) (v : V) (m : List (String × V))
      → AllValues P m
      → lookup k m ≡ some v
      → P v
  AllValues-lookup P k v [] a h = absurd (ground arith)
  AllValues-lookup P k v ((i, w) ∷ m) a h = ground (arith, a.0, AllValues-lookup P k v m a.1)
