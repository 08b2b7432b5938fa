-- ===== src/Writeback/Finished.antt =====
-- services/writeback.ts: the writes that finish, give up or doubt a row keep the table.
use recat_qbo.Prelude.Shared.{
  ◌≡◌, refl, sym, ◌∙◌, Bool, true, ◌&&◌, List, some, String, arith, Option-cases, inl, inr,
}
use recat_qbo.Prelude.Splits.{by_if}
use recat_qbo.Writeback.{
  committing, DurableAttempt, Entity, TxnStatus, PreparedSnapshot, is_prepared, is_sending,
  find_attempt, update_attempt, change, Reply,
}
use recat_qbo.Writeback.Settle.{
  give_up, after_retryable, verify_attempt, keep_attempt, doubts, doubt_attempt, status_passes,
  finalize_verified, finalize_unchanged, mark_uncertain,
}
use recat_qbo.Writeback.Commit.{
  Transition, went_through, limit_reached, authority_denied, not_stored, commit_attempt,
  send_attempt,
}
use recat_qbo.Writeback.Table.{IsAttempt, IsTable, RowOk, find-update}
use recat_qbo.Writeback.Rows.{
  KeptRows, Kept, find-IsAttempt, same_rows, changed, give_up-RowOk, verify-RowOk, keep-RowOk,
  doubt-RowOk, same_request_id, prepared_unsent,
}

-- A change of every row that may be found.
pub changed_all :
    (id : String) (f : DurableAttempt → DurableAttempt) (rest : List DurableAttempt)
    → ((a : DurableAttempt) → (f a).request_id ≡ a.request_id)
    → ((a : DurableAttempt) → IsAttempt a → RowOk a (f a))
    → IsTable rest
    → KeptRows id rest (update_attempt id f rest)
changed_all id f rest s g t = changed id f rest s (λ a e. g a (find-IsAttempt id rest a t e)) t

unmoved : {id : String} {rest : List DurableAttempt} → IsTable rest → KeptRows id rest rest
unmoved t = record { table = t; others = λ j n. refl }

-- The entity's rows after a write for a request.
abbrev KeptEntity : String → Entity → Entity → Type 0
KeptEntity id e p = KeptRows id e.attempts p.attempts

pub after_retryable-Kept :
    (id : String) (stored exhausted : Bool) (code : String) (e : Entity)
    → IsTable e.attempts
    → Kept id e (after_retryable id stored exhausted code e)
after_retryable-Kept id stored exhausted code e t = record {
  rows =
      by_if (KeptEntity id e) stored
        (λ b.
          changed_all id (give_up exhausted code) e.attempts
            (λ a. same_request_id (is_prepared a.status) _ a a.request_id refl refl)
            (give_up-RowOk exhausted code) t)
        (λ b. unmoved t);
}

pub finalize_verified-Kept :
    (id : String) (s : TxnStatus) (r : PreparedSnapshot) (e : Entity)
    → IsTable e.attempts
    → Kept id e (finalize_verified id s r e)
unfolding finalize_verified
finalize_verified-Kept id s r e t =
    by_if (Kept id e) (status_passes is_sending (find_attempt id e.attempts))
      (λ b. record {
        rows =
            changed_all id verify_attempt e.attempts
              (λ a. same_request_id (is_sending a.status) _ a a.request_id refl refl) verify-RowOk
              t;
      })
      (λ b. same_rows t)

pub finalize_unchanged-Kept :
    (id : String) (s : TxnStatus) (e : Entity)
    → IsTable e.attempts
    → Kept id e (finalize_unchanged id s e)
unfolding finalize_unchanged
finalize_unchanged-Kept id s e t =
    by_if (Kept id e) (status_passes is_sending (find_attempt id e.attempts))
      (λ b. record {
        rows =
            changed_all id keep_attempt e.attempts
              (λ a. same_request_id (is_sending a.status) _ a a.request_id refl refl) keep-RowOk t;
      })
      (λ b. same_rows t)

pub mark_uncertain-Kept :
    (id : String) (m stored : Bool) (e : Entity)
    → IsTable e.attempts
    → Kept id e (mark_uncertain id m stored e)
unfolding mark_uncertain
mark_uncertain-Kept id m stored e t =
    by_if (Kept id e) (stored && status_passes (doubts m) (find_attempt id e.attempts))
      (λ b. record {
        rows =
            changed_all id (doubt_attempt m) e.attempts
              (λ a. same_request_id (doubts m a.status) _ a a.request_id refl refl) (doubt-RowOk m)
              t;
      })
      (λ b. same_rows t)

-- The request's row is claimed, and was not sent.
abbrev pub Claimed : String → Entity → Type 0
Claimed id e =
    (a : DurableAttempt) × ((find_attempt id e.attempts ≡ some a)
      × ((a.status ≡ committing) × (a.sends ≡ 0)))

pub send-KeptRows :
    (id : String) (e : Entity)
    → Claimed id e
    → IsTable e.attempts
    → KeptRows id e.attempts (update_attempt id send_attempt e.attempts)
send-KeptRows id e (a, (f, (c, z))) t =
    changed id send_attempt e.attempts (λ b. refl)
      (λ b g.
        let same : some a ≡ some b = sym f ∙ g in
        let is : a ≡ b = ground (arith, same) in
        rw (← is) (record { row = rw (c, z) (omega arith); less = λ k. k; same_id = refl }))
      t

pub by_transition :
    (P : Entity × Reply → Type 0) {l d n w : Entity × Reply} (t : Transition)
    → P l
    → P d
    → P n
    → P w
    → P (elim t [ limit_reached ↦ l | authority_denied ↦ d | not_stored ↦ n | went_through ↦ w ])
by_transition P limit_reached l d n w = l
by_transition P authority_denied l d n w = d
by_transition P not_stored l d n w = n
by_transition P went_through l d n w = w

pub claim-Claimed :
    (id : String) (e : Entity)
    → IsTable e.attempts
    → status_passes is_prepared (find_attempt id e.attempts) ≡ true
    → Claimed id (change id commit_attempt e)
claim-Claimed id e t h = elim (Option-cases (find_attempt id e.attempts)) [
  | inl f ↦ absurd (ground (arith, f, h))
  | inr (a, f) ↦
      let p : is_prepared a.status ≡ true = ground (arith, f, h) in
      (
        commit_attempt a,
        (
          find-update id commit_attempt e.attempts a f
              (same_request_id (is_prepared a.status) _ a a.request_id refl refl),
          rw p (refl, prepared_unsent a.status a.sends p (find-IsAttempt id e.attempts a t f)),
        ),
      )
]
