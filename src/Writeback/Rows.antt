-- ===== src/Writeback/Rows.antt =====
-- services/writeback.ts: what each write to a row keeps of it, and of the table.
use recat_qbo.Prelude.Shared.{
  ℕ, ◌≤◌, ◌≡◌, ◌≢◌, refl, ◌∙◌, Bool, true, false, List, [], ◌∷◌, some, String, arith, str_eq,
  if◌then◌else◌, Bool-cases, inl, inr,
}
use recat_qbo.Prelude.Splits.{by_if}
use recat_qbo.Writeback.{
  AttemptStatus, prepared, committing, verified, uncertain, retryable, failed, unchanged, dry_run,
  DurableAttempt, Entity, is_active, is_prepared, is_retryable, is_committing, is_sending,
  find_attempt, update_attempt, Reply,
}
use recat_qbo.Writeback.Settle.{give_up, verify_attempt, keep_attempt, doubts, doubt_attempt}
use recat_qbo.Writeback.Commit.{commit_attempt, fail_attempt}
use recat_qbo.Writeback.Table.{
  SendFacts, IsAttempt, IsTable, RowOk, update-IsTable, find-update_other,
}

-- The rows after a call for a request.
pub record KeptRows (id : String) (before after : List DurableAttempt) : Type 0 where
  pub table : IsTable after
  pub others : (j : String) → j ≢ id → find_attempt j after ≡ find_attempt j before

pub record Kept (id : String) (e : Entity) (r : Entity × Reply) : Type 0 where
  pub rows : KeptRows id e.attempts r.0.attempts

pub find-IsAttempt :
    (id : String) (rest : List DurableAttempt) (a : DurableAttempt)
    → IsTable rest
    → find_attempt id rest ≡ some a
    → IsAttempt a
find-IsAttempt id [] a t e = absurd (ground arith)
find-IsAttempt id (b ∷ rest) a t e = elim (Bool-cases (str_eq b.request_id id)) [
  | inl h ↦
      let same : some b ≡ some a = rw h at e in
      let is : b ≡ a = ground (arith, same) in rw (← is) t.0.1.0
  | inr h ↦ find-IsAttempt id rest a t.1 (rw h at e)
]

pub same_rows : {id : String} {e : Entity} {r : Reply} → IsTable e.attempts → Kept id e (e, r)
same_rows t = record { rows = record { table = t; others = λ j n. refl } }

pub changed :
    (id : String) (f : DurableAttempt → DurableAttempt) (rest : List DurableAttempt)
    → ((a : DurableAttempt) → (f a).request_id ≡ a.request_id)
    → ((a : DurableAttempt) → find_attempt id rest ≡ some a → RowOk a (f a))
    → IsTable rest
    → KeptRows id rest (update_attempt id f rest)
changed id f rest s g t = record {
  table = update-IsTable id f rest g t;
  others = λ j n. find-update_other id f j rest s n;
}

pub KeptRows-trans :
    {id : String} {xs ys zs : List DurableAttempt}
    → KeptRows id xs ys
    → KeptRows id ys zs
    → KeptRows id xs zs
KeptRows-trans a b = record { table = b.table; others = λ j n. b.others j n ∙ a.others j n }

pub after :
    {id : String} {e p : Entity} {r : Entity × Reply}
    → KeptRows id e.attempts p.attempts
    → Kept id p r
    → Kept id e r
after a k = record { rows = KeptRows-trans a k.rows }

pub sends_le : (s : AttemptStatus) (n : ℕ) → SendFacts s n → n ≤ 1
sends_le prepared n f = omega (arith, f)
sends_le committing n f = f
sends_le verified n f = f
sends_le uncertain n f = f
sends_le retryable n f = omega (arith, f)
sends_le failed n f = omega (arith, f)
sends_le unchanged n f = f
sends_le dry_run n f = omega (arith, f)

pub prepared_unsent : (s : AttemptStatus) (n : ℕ) → is_prepared s ≡ true → SendFacts s n → n ≡ 0
prepared_unsent prepared n e f = f
prepared_unsent _ n e f = absurd (ground arith)

pub retryable_unsent : (s : AttemptStatus) (n : ℕ) → is_retryable s ≡ true → SendFacts s n → n ≡ 0
retryable_unsent retryable n e f = f
retryable_unsent _ n e f = absurd (ground arith)

prepared_active : (s : AttemptStatus) → is_prepared s ≡ true → is_active s ≡ true
prepared_active prepared e = refl
prepared_active _ e = absurd (ground arith)

sending_active : (s : AttemptStatus) → is_sending s ≡ true → is_active s ≡ true
sending_active committing e = refl
sending_active uncertain e = refl
sending_active _ e = absurd (ground arith)

committing_sending : (s : AttemptStatus) → is_committing s ≡ true → is_sending s ≡ true
committing_sending committing e = refl
committing_sending _ e = absurd (ground arith)

pub same_row : (a : DurableAttempt) → IsAttempt a → RowOk a a
same_row a i = record { row = i; less = λ b. b; same_id = refl }

pub give_up-RowOk :
    (x : Bool) (code : String) (a : DurableAttempt) → IsAttempt a → RowOk a (give_up x code a)
give_up-RowOk x code a i =
    by_if (RowOk a) (is_prepared a.status)
      (λ e.
        let z = prepared_unsent a.status a.sends e i in
        record {
          row = by_if (λ s. SendFacts s a.sends) x (λ b. z) (λ b. z);
          less = λ b. prepared_active a.status e;
          same_id = refl;
        })
      (λ e. same_row a i)

pub verify-RowOk : (a : DurableAttempt) → IsAttempt a → RowOk a (verify_attempt a)
verify-RowOk a i =
    by_if (RowOk a) (is_sending a.status)
      (λ e. record {
        row = sends_le a.status a.sends i;
        less = λ b. sending_active a.status e;
        same_id = refl;
      })
      (λ e. same_row a i)

pub keep-RowOk : (a : DurableAttempt) → IsAttempt a → RowOk a (keep_attempt a)
keep-RowOk a i =
    by_if (RowOk a) (is_sending a.status)
      (λ e. record {
        row = sends_le a.status a.sends i;
        less = λ b. sending_active a.status e;
        same_id = refl;
      })
      (λ e. same_row a i)

doubts_sending : (m : Bool) (s : AttemptStatus) → doubts m s ≡ true → is_sending s ≡ true
doubts_sending true s e = e
doubts_sending false s e = committing_sending s e

pub doubt-RowOk : (m : Bool) (a : DurableAttempt) → IsAttempt a → RowOk a (doubt_attempt m a)
doubt-RowOk m a i =
    by_if (RowOk a) (doubts m a.status)
      (λ e. record {
        row = sends_le a.status a.sends i;
        less = λ b. sending_active a.status (doubts_sending m a.status e);
        same_id = refl;
      })
      (λ e. same_row a i)

pub fail-RowOk : (a : DurableAttempt) → IsAttempt a → RowOk a (fail_attempt a)
fail-RowOk a i =
    by_if (RowOk a) (is_prepared a.status)
      (λ e. record {
        row = prepared_unsent a.status a.sends e i;
        less = λ b. prepared_active a.status e;
        same_id = refl;
      })
      (λ e. same_row a i)

pub commit-RowOk : (a : DurableAttempt) → IsAttempt a → RowOk a (commit_attempt a)
commit-RowOk a i =
    by_if (RowOk a) (is_prepared a.status)
      (λ e. record {
        row = sends_le a.status a.sends i;
        less = λ b. prepared_active a.status e;
        same_id = refl;
      })
      (λ e. same_row a i)

pub same_request_id :
    (b : Bool) (x y : DurableAttempt) (k : String)
    → x.request_id ≡ k
    → y.request_id ≡ k
    → (if b then x else y).request_id ≡ k
same_request_id true x y k p q = p
same_request_id false x y k p q = q
