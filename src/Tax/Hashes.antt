-- ===== src/Tax/Hashes.antt =====
-- services/tax/verify.ts: the fingerprints of lines, and what a verification gives. The JSON text of an
-- array of texts, numbers and nulls is that array; the order in which JavaScript sorts such texts is
-- an argument, and the theorems hold for every order.
use recat_qbo.Prelude.Shared.{
  ◌≡◌, refl, ◌↔◌, arith, str_eq_iff, Bool-cases, inl, inr, Bool, true, false, ◌&&◌, List, [], ◌∷◌,
  Option, none, some, String, if◌then◌else◌, str_eq, opt_str_eq,
}
use mathlib.Core.List.{Perm}
use mathlib.Core.List.Perm
use recat_qbo.Prelude.Int.{eq_ℤ_iff, ℤ, eq_ℤ}

pub data JsonValue : Type 0 where
  null : JsonValue
  text : String → JsonValue
  number : ℤ → JsonValue

abbrev pub same_value : JsonValue → JsonValue → Bool
same_value null null = true
same_value (text a) (text b) = str_eq a b
same_value (number a) (number b) = eq_ℤ a b
same_value _ _ = false

abbrev pub Hash : Type 0
Hash = List JsonValue

abbrev pub same_hash : Hash → Hash → Bool
same_hash [] [] = true
same_hash (a ∷ as') (b ∷ bs) = same_value a b && same_hash as' bs
same_hash _ _ = false

abbrev pub text_or_null : Option String → JsonValue
text_or_null none = null
text_or_null (some t) = text t

abbrev pub number_or_null : Option ℤ → JsonValue
number_or_null none = null
number_or_null (some n) = number n

abbrev pub opt_eq_ℤ : Option ℤ → Option ℤ → Bool
opt_eq_ℤ none none = true
opt_eq_ℤ (some a) (some b) = eq_ℤ a b
opt_eq_ℤ _ _ = false

pub data VerificationResult : Type 0 where
  verified : VerificationResult
  drift : String → VerificationResult

abbrev pub is_mode : String → Option String → Bool
is_mode name mode = opt_str_eq mode (some name)

-- Both are texts and equal.
abbrev pub same_text : Option String → Option String → Bool
same_text (some a) (some b) = str_eq a b
same_text _ _ = false

-- Tests with the message of the first that fails.
abbrev pub first_drift : List (Bool × String) → Option String
first_drift [] = none
first_drift ((holds, message) ∷ tests) = if holds then first_drift tests else some message

unfoldable pub insert_hash : (Hash → Hash → Bool) → Hash → List Hash → List Hash
insert_hash before h [] = h ∷ []
insert_hash before h (j ∷ hashes) =
    if before h j then h ∷ j ∷ hashes else j ∷ insert_hash before h hashes

unfoldable pub sort_hashes : (Hash → Hash → Bool) → List Hash → List Hash
unfolding insert_hash
sort_hashes before [] = []
sort_hashes before (h ∷ hashes) = insert_hash before h (sort_hashes before hashes)

abbrev pub same_hashes : List Hash → List Hash → Bool
same_hashes [] [] = true
same_hashes (a ∷ as') (b ∷ bs) = same_hash a b && same_hashes as' bs
same_hashes _ _ = false

pub same_value_refl : (a : JsonValue) → same_value a a ≡ true
same_value_refl null = refl
same_value_refl (text t) = (str_eq_iff t t).1 refl
same_value_refl (number n) = (eq_ℤ_iff n n).1 refl

pub same_hash_refl : (h : Hash) → same_hash h h ≡ true
same_hash_refl [] = refl
same_hash_refl (a ∷ h) = ground (arith, same_value_refl a, same_hash_refl h)

pub same_value_iff : (a b : JsonValue) → (same_value a b ≡ true) ↔ (a ≡ b)
same_value_iff null null = ground arith
same_value_iff null (text b) = ground arith
same_value_iff null (number b) = ground arith
same_value_iff (text a) null = ground arith
same_value_iff (text a) (text b) = ground (arith, str_eq_iff a b)
same_value_iff (text a) (number b) = ground arith
same_value_iff (number a) null = ground arith
same_value_iff (number a) (text b) = ground arith
same_value_iff (number a) (number b) = ground (arith, eq_ℤ_iff a b)

pub same_hash_iff : (a b : Hash) → (same_hash a b ≡ true) ↔ (a ≡ b)
same_hash_iff [] [] = ground arith
same_hash_iff [] (b ∷ bs) = ground arith
same_hash_iff (a ∷ as') [] = ground arith
same_hash_iff (a ∷ as') (b ∷ bs) = ground (arith, same_value_iff a b, same_hash_iff as' bs)

pub same_hashes_iff : (a b : List Hash) → (same_hashes a b ≡ true) ↔ (a ≡ b)
same_hashes_iff [] [] = ground arith
same_hashes_iff [] (b ∷ bs) = ground arith
same_hashes_iff (a ∷ as') [] = ground arith
same_hashes_iff (a ∷ as') (b ∷ bs) = ground (arith, same_hash_iff a b, same_hashes_iff as' bs)

pub same_value-text_or_null :
    (a b : Option String) → same_value (text_or_null a) (text_or_null b) ≡ opt_str_eq a b
same_value-text_or_null none none = refl
same_value-text_or_null none (some b) = refl
same_value-text_or_null (some a) none = refl
same_value-text_or_null (some a) (some b) = refl

pub opt_eq_ℤ_iff : (a b : Option ℤ) → (opt_eq_ℤ a b ≡ true) ↔ (a ≡ b)
opt_eq_ℤ_iff none none = ground arith
opt_eq_ℤ_iff none (some b) = ground arith
opt_eq_ℤ_iff (some a) none = ground arith
opt_eq_ℤ_iff (some a) (some b) = ground (arith, eq_ℤ_iff a b)

-- Sorting is a permutation, so that lists that are equal when sorted are permutations of each other.
insert_hash-Perm :
    (before : Hash → Hash → Bool) (h : Hash) (hashes : List Hash)
    → Perm (h ∷ hashes) (insert_hash before h hashes)
unfolding insert_hash
insert_hash-Perm before h [] = Perm.refl (h ∷ [])
insert_hash-Perm before h (j ∷ hashes) = elim (Bool-cases (before h j)) [
  | inl first ↦ rw first (Perm.refl (h ∷ j ∷ hashes))
  | inr later ↦
      rw later (Perm.trans (Perm.swap j h hashes) (Perm.cons j (insert_hash-Perm before h hashes)))
]

sort_hashes-Perm :
    (before : Hash → Hash → Bool) (hashes : List Hash) → Perm hashes (sort_hashes before hashes)
unfolding sort_hashes
sort_hashes-Perm before [] = Perm.refl []
sort_hashes-Perm before (h ∷ hashes) =
    Perm.trans (Perm.cons h (sort_hashes-Perm before hashes))
      (insert_hash-Perm before h (sort_hashes before hashes))

pub sorted_equal-Perm :
    (before : Hash → Hash → Bool) (as' bs : List Hash)
    → sort_hashes before as' ≡ sort_hashes before bs
    → Perm as' bs
sorted_equal-Perm before as' bs h =
    Perm.trans (sort_hashes-Perm before as') (rw h (Perm.symm (sort_hashes-Perm before bs)))
