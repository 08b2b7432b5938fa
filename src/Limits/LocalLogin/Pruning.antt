-- ===== src/Limits/LocalLogin/Pruning.antt =====
-- services/localLoginLimiter.ts: what pruning does to the buckets.
use recat_qbo.Prelude.Shared.{
  ℕ, ◌+◌, ◌≤◌, ◌<◌, ◌≡◌, refl, ◌≢◌, inl, inr, List, [], ◌∷◌, ◌++◌, String, Bool, arith, length,
  length-append, length-keep-le, keep, All, All-append, str_eq, str_eq_iff, if◌then◌else◌,
  Option-cases,
}
use recat_qbo.Prelude.Assoc.{lookup, IsMap, Fresh, lookup_of_Fresh, AllValues, AllValues-lookup}
use recat_qbo.Limits.LocalLogin.{
  LocalLoginAttempt, LocalLoginLimiter, is_active, put_bucket, prune, bucket_of,
}

abbrev pub Buckets : Type 0
Buckets = List (String × List LocalLoginAttempt)

-- A bucket holds at most `most` attempts, all of them made under ids below `next`.
abbrev pub IsBucket : ℕ → ℕ → List LocalLoginAttempt → Type 0
IsBucket most next b = (length b ≤ most) × All (λ a. a.reservation.id < next) b

pub record IsValid (l : LocalLoginLimiter) : Type 0 where
  pub distinct : IsMap l.attempts
  pub buckets : AllValues (IsBucket l.max_failures l.next_reservation_id) l.attempts

All-keep :
    (next : ℕ) (p : LocalLoginAttempt → Bool) (b : List LocalLoginAttempt)
    → All (λ a. a.reservation.id < next) b
    → All (λ a. a.reservation.id < next) (keep p b)
All-keep next p [] h = tt
All-keep next p (a ∷ b) h = ground (arith, All-keep next p b h.1)

pub keep-IsBucket :
    (most next : ℕ) (p : LocalLoginAttempt → Bool) (b : List LocalLoginAttempt)
    → IsBucket most next b
    → IsBucket most next (keep p b)
keep-IsBucket most next p b h = (omega (arith, length-keep-le p b), All-keep next p b h.1)

Fresh-put_bucket :
    (j k : String) (b : List LocalLoginAttempt) (m : Buckets)
    → k ≢ j
    → Fresh j m
    → Fresh j (put_bucket k b m)
Fresh-put_bucket j k [] m h f = f
Fresh-put_bucket j k (a ∷ b) m h f = (h, f)

Fresh-prune : (j : String) (w now : ℕ) (m : Buckets) → Fresh j m → Fresh j (prune w now m)
unfolding prune
Fresh-prune j w now [] f = tt
Fresh-prune j w now ((k, b) ∷ m) f =
    Fresh-put_bucket j k (keep (is_active w now) b) (prune w now m) f.0 (Fresh-prune j w now m f.1)

put_bucket-IsMap :
    (k : String) (b : List LocalLoginAttempt) (m : Buckets)
    → Fresh k m
    → IsMap m
    → IsMap (put_bucket k b m)
put_bucket-IsMap k [] m f h = h
put_bucket-IsMap k (a ∷ b) m f h = (f, h)

pub prune-IsMap : (w now : ℕ) (m : Buckets) → IsMap m → IsMap (prune w now m)
unfolding prune
prune-IsMap w now [] h = tt
prune-IsMap w now ((k, b) ∷ m) h =
    put_bucket-IsMap k (keep (is_active w now) b) (prune w now m) (Fresh-prune k w now m h.0)
      (prune-IsMap w now m h.1)

put_bucket-buckets :
    (most next : ℕ) (k : String) (b : List LocalLoginAttempt) (m : Buckets)
    → IsBucket most next b
    → AllValues (IsBucket most next) m
    → AllValues (IsBucket most next) (put_bucket k b m)
put_bucket-buckets most next k [] m h a = a
put_bucket-buckets most next k (x ∷ b) m h a = (h, a)

pub prune-buckets :
    (most next w now : ℕ) (m : Buckets)
    → AllValues (IsBucket most next) m
    → AllValues (IsBucket most next) (prune w now m)
unfolding prune
prune-buckets most next w now [] a = tt
prune-buckets most next w now ((k, b) ∷ m) a =
    put_bucket-buckets most next k (keep (is_active w now) b) (prune w now m)
      (keep-IsBucket most next (is_active w now) b a.0) (prune-buckets most next w now m a.1)

bucket_of-put_bucket :
    (j k : String) (b : List LocalLoginAttempt) (m : Buckets)
    → Fresh k m
    → bucket_of j (put_bucket k b m) ≡ (if str_eq k j then b else bucket_of j m)
bucket_of-put_bucket j k [] m f = ground (arith, str_eq_iff k j, lookup_of_Fresh k m f)
bucket_of-put_bucket j k (a ∷ b) m f = ground (arith, str_eq_iff k j)

bucket_of-cons :
    (j k : String) (b : List LocalLoginAttempt) (m : Buckets)
    → bucket_of j ((k, b) ∷ m) ≡ (if str_eq k j then b else bucket_of j m)
bucket_of-cons j k b m = ground arith

-- Pruning leaves of every bucket the attempts of the window.
pub bucket_of-prune :
    (j : String) (w now : ℕ) (m : Buckets)
    → IsMap m
    → bucket_of j (prune w now m) ≡ keep (is_active w now) (bucket_of j m)
unfolding prune
bucket_of-prune j w now [] h = refl
bucket_of-prune j w now ((k, b) ∷ m) h = ground (
  arith,
  bucket_of-put_bucket j k (keep (is_active w now) b) (prune w now m) (Fresh-prune k w now m h.0),
  bucket_of-cons j k b m,
  bucket_of-prune j w now m h.1,
)

pub bucket_of-IsBucket :
    (most next : ℕ) (source : String) (m : Buckets)
    → AllValues (IsBucket most next) m
    → IsBucket most next (bucket_of source m)
bucket_of-IsBucket most next source m a = elim (Option-cases (lookup source m)) [
  | inl e ↦ rw (e, bucket_of) (omega arith, tt)
  | inr (b, e) ↦ rw (e, bucket_of) (AllValues-lookup (IsBucket most next) source b m a e)
]

IsBucket-mono :
    (most next : ℕ) (b : List LocalLoginAttempt) → IsBucket most next b → IsBucket most (next + 1) b
IsBucket-mono most next b h = (h.0, later b h.1)
  where
    later :
        (b : List LocalLoginAttempt)
        → All (λ a. a.reservation.id < next) b
        → All (λ a. a.reservation.id < next + 1) b
    later [] k = tt
    later (a ∷ b) k = (omega (arith, k.0), later b k.1)

pub buckets_mono :
    (most next : ℕ) (m : Buckets)
    → AllValues (IsBucket most next) m
    → AllValues (IsBucket most (next + 1)) m
buckets_mono most next [] a = tt
buckets_mono most next ((k, b) ∷ m) a =
    (IsBucket-mono most next b a.0, buckets_mono most next m a.1)

pub IsBucket-add :
    (most next : ℕ) (b : List LocalLoginAttempt) (a : LocalLoginAttempt)
    → IsBucket most next b
    → length b < most
    → a.reservation.id ≡ next
    → IsBucket most (next + 1) (b ++ a ∷ [])
IsBucket-add most next b a h room e = (
  omega (arith, length-append {0} b (a ∷ [])),
  All-append (λ x. x.reservation.id < next + 1) b (a ∷ []) (IsBucket-mono most next b h).1
      (omega arith, tt),
)
