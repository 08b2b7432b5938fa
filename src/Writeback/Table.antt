-- ===== src/Writeback/Table.antt =====
-- services/writeback.ts: what the table of attempts keeps: ids that differ, at most one active row, and
-- rows that were sent at most once, and not at all where they say so.
use recat_qbo.Prelude.Shared.{
  ℕ, ◌≤◌, ◌≡◌, ◌≢◌, refl, sym, ◌∙◌, subst, true, false, List, [], ◌∷◌, ◌++◌, none, some, String,
  arith, str_eq, str_eq_iff, All, All-append, Bool-cases, inl, inr,
}
use recat_qbo.Prelude.Splits.{by_if}
use recat_qbo.Writeback.{
  AttemptStatus, prepared, retryable, failed, dry_run, DurableAttempt, is_active, find_attempt,
  update_attempt, other_active, any_active,
}

abbrev pub SendFacts : AttemptStatus → ℕ → Type 0
SendFacts prepared n = n ≡ 0
SendFacts retryable n = n ≡ 0
SendFacts failed n = n ≡ 0
SendFacts dry_run n = n ≡ 0
SendFacts _ n = n ≤ 1

abbrev pub IsAttempt : DurableAttempt → Type 0
IsAttempt a = SendFacts a.status a.sends

abbrev pub Others : String → List DurableAttempt → Type 0
Others id as₁ = All (λ (a : DurableAttempt). a.request_id ≢ id) as₁

-- The two unique indexes of the schema, and the sends.
abbrev pub IsTable : List DurableAttempt → Type 0
IsTable [] = Unit
IsTable (a ∷ rest) =
    (Others a.request_id rest
      × (IsAttempt a × (is_active a.status ≡ true → any_active rest ≡ false)))
    × IsTable rest

-- A change of one row that the table bears.
pub record RowOk (a b : DurableAttempt) : Type 0 where
  pub row : IsAttempt b
  pub less : is_active b.status ≡ true → is_active a.status ≡ true
  pub same_id : b.request_id ≡ a.request_id

module _ (id : String) (f : DurableAttempt → DurableAttempt) where
  Others-update :
      (k : String) (rest : List DurableAttempt)
      → ((a : DurableAttempt) → find_attempt id rest ≡ some a → RowOk a (f a))
      → Others k rest
      → Others k (update_attempt id f rest)
  Others-update k [] h o = tt
  Others-update k (a ∷ rest) h o = elim (Bool-cases (str_eq a.request_id id)) [
    | inl e ↦ rw e ((λ q. o.0 (sym (h a (rw e refl)).same_id ∙ q)), o.1)
    | inr e ↦ rw e (o.0, Others-update k rest (λ b p. h b (rw e p)) o.1)
  ]

  active-update :
      (rest : List DurableAttempt)
      → ((a : DurableAttempt) → find_attempt id rest ≡ some a → RowOk a (f a))
      → any_active rest ≡ false
      → any_active (update_attempt id f rest) ≡ false
  active-update [] h n = refl
  active-update (a ∷ rest) h n = elim (Bool-cases (str_eq a.request_id id)) [
    | inl e ↦ rw e (
        let less = (h a (rw e refl)).less in
        elim (Bool-cases (is_active (f a).status)) [
          | inl b ↦ absurd (ground (arith, less b, n))
          | inr b ↦ ground (arith, b, n)
        ])
    | inr e ↦ rw e (ground (arith, n, active-update rest (λ b p. h b (rw e p))))
  ]

  pub update-IsTable :
      (rest : List DurableAttempt)
      → ((a : DurableAttempt) → find_attempt id rest ≡ some a → RowOk a (f a))
      → IsTable rest
      → IsTable (update_attempt id f rest)
  update-IsTable [] h t = tt
  update-IsTable (a ∷ rest) h t = elim (Bool-cases (str_eq a.request_id id)) [
    | inl e ↦
        rw e (
          let r = h a (rw e refl) in
          ((rw (r.same_id) t.0.0, (r.row, λ b. t.0.1.1 (r.less b))), t.1))
    | inr e ↦ rw e (
        let g : (b : DurableAttempt) → find_attempt id rest ≡ some b → RowOk b (f b) =
          λ b p. h b (rw e p) in
        (
          (
            Others-update a.request_id rest g t.0.0,
            (t.0.1.0, λ b. active-update rest g (t.0.1.1 b)),
          ),
          update-IsTable rest g t.1,
        ))
  ]

  pub find-update :
      (rest : List DurableAttempt) (a : DurableAttempt)
      → find_attempt id rest ≡ some a
      → (f a).request_id ≡ a.request_id
      → find_attempt id (update_attempt id f rest) ≡ some (f a)
  find-update [] a h s = absurd (ground arith)
  find-update (b ∷ rest) a h s = elim (Bool-cases (str_eq b.request_id id)) [
    | inl e ↦ rw e (
        let same : some b ≡ some a = rw e at h in
        let is : b ≡ a = ground (arith, same) in
        rw is
          (ground (arith, str_eq_iff (f a).request_id id, str_eq_iff b.request_id id, s, is, e)))
    | inr e ↦ rw (e, e) (find-update rest a (rw e at h) s)
  ]

  pub find-update_other :
      (j : String) (rest : List DurableAttempt)
      → ((a : DurableAttempt) → (f a).request_id ≡ a.request_id)
      → j ≢ id
      → find_attempt j (update_attempt id f rest) ≡ find_attempt j rest
  find-update_other j [] s n = refl
  find-update_other j (a ∷ rest) s n = elim (Bool-cases (str_eq a.request_id id)) [
    | inl e ↦ rw e (
        let is : a.request_id ≡ id = ground (arith, str_eq_iff a.request_id id, e) in
        ground (arith, str_eq_iff (f a).request_id j, str_eq_iff a.request_id j, s a, is, n))
    | inr e ↦ rw e (ground (arith, find-update_other j rest s n))
  ]

pub append-IsTable :
    (rest : List DurableAttempt) (a : DurableAttempt)
    → find_attempt a.request_id rest ≡ none
    → (is_active a.status ≡ true → any_active rest ≡ false)
    → IsAttempt a
    → IsTable rest
    → IsTable (rest ++ a ∷ [])
append-IsTable [] a n v i t = ((tt, (i, λ b. refl)), tt)
append-IsTable (b ∷ rest) a n v i t =
    let other : b.request_id ≢ a.request_id =
      λ q. ground (arith, str_eq_iff b.request_id a.request_id, q, n) in
    let none_there : find_attempt a.request_id rest ≡ none =
      ground (arith, str_eq_iff b.request_id a.request_id, n) in
    (
      (
        All-append (λ (c : DurableAttempt). c.request_id ≢ b.request_id) rest (a ∷ []) t.0.0
            ((λ q. other (sym q)), tt),
        (t.0.1.0, λ c. active-append rest a (t.0.1.1 c) (inactive c)),
      ),
      append-IsTable rest a none_there (λ c. ground (arith, v c)) i t.1,
    )
  where
    active-append :
        (xs : List DurableAttempt) (a : DurableAttempt)
        → any_active xs ≡ false
        → is_active a.status ≡ false
        → any_active (xs ++ a ∷ []) ≡ false
    active-append [] a h k = ground (arith, k)
    active-append (x ∷ xs) a h k = ground (arith, h, active-append xs a (ground (arith, h)) k)

    inactive : is_active b.status ≡ true → is_active a.status ≡ false
    inactive c = elim (Bool-cases (is_active a.status)) [
      | inl e ↦ absurd (ground (arith, v e, c))
      | inr e ↦ e
    ]

pub find-append_other :
    (j : String) (rest : List DurableAttempt) (a : DurableAttempt)
    → a.request_id ≢ j
    → find_attempt j (rest ++ a ∷ []) ≡ find_attempt j rest
find-append_other j [] a n = ground (arith, str_eq_iff a.request_id j, n)
find-append_other j (b ∷ rest) a n = ground (arith, find-append_other j rest a n)

pub find-append :
    (id : String) (rest : List DurableAttempt) (a : DurableAttempt)
    → a.request_id ≡ id
    → find_attempt id rest ≡ none
    → find_attempt id (rest ++ a ∷ []) ≡ some a
find-append id [] a n h = ground (arith, str_eq_iff a.request_id id, n)
find-append id (b ∷ rest) a n h = ground (arith, h, find-append id rest a n (ground (arith, h)))

-- A row may become active beside no other active one.
module _ (id : String) (f : DurableAttempt → DurableAttempt) where
  quiet-active :
      (rest : List DurableAttempt)
      → Others id rest
      → other_active id rest ≡ false
      → any_active rest ≡ false
  quiet-active [] o n = refl
  quiet-active (a ∷ rest) o n =
      ground (arith, str_eq_iff a.request_id id, o.0, n, quiet-active rest o.1)

  other-Others :
      (k : String) (rest : List DurableAttempt)
      → ((a : DurableAttempt) → (f a).request_id ≡ a.request_id)
      → Others k rest
      → Others k (update_attempt id f rest)
  other-Others k [] s o = tt
  other-Others k (a ∷ rest) s o =
      by_if (Others k) (str_eq a.request_id id) (λ e. ((λ q. o.0 (sym (s a) ∙ q)), o.1))
        (λ e. (o.0, other-Others k rest s o.1))

  pub rearm-IsTable :
      (rest : List DurableAttempt)
      → ((a : DurableAttempt) → (f a).request_id ≡ a.request_id)
      → ((a : DurableAttempt) → IsAttempt a → IsAttempt (f a))
      → other_active id rest ≡ false
      → IsTable rest
      → IsTable (update_attempt id f rest)
  rearm-IsTable [] s g n t = tt
  rearm-IsTable (a ∷ rest) s g n t = elim (Bool-cases (str_eq a.request_id id)) [
    | inl e ↦ rw e (
        let is : a.request_id ≡ id = ground (arith, str_eq_iff a.request_id id, e) in
        let o : Others id rest = subst (λ k. Others k rest) is t.0.0 in
        ((rw (s a) t.0.0, (g a t.0.1.0, λ b. quiet-active rest o (ground (arith, n)))), t.1))
    | inr e ↦ rw e (
      (other-Others a.request_id rest s t.0.0, (t.0.1.0, λ b. absurd (ground (arith, e, n, b)))),
      rearm-IsTable rest s g (ground (arith, n)) t.1,
    )
  ]
