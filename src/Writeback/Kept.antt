-- ===== src/Writeback/Kept.antt =====
-- services/writeback.ts: a commit or a reconciliation keeps the table, and every other request's row.
use recat_qbo.Prelude.Shared.{
  ◌≡◌, refl, sym, ◌∙◌, Bool, false, not, ◌&&◌, [], ◌∷◌, ◌++◌, none, String, arith, is_none,
}
use recat_qbo.Prelude.Splits.{by_if, by_option}
use recat_qbo.Writeback.{
  prepared, DurableAttempt, Entity, MutationOperation, recategorize, PreparedSnapshot, is_prepared,
  is_retryable, find_attempt, other_active, any_active, change, RequestIntent, Found, found,
  no_attempt, refused, find_request_or_conflict, same_request, ends_as, throws,
}
use recat_qbo.Writeback.Settle.{status_passes}
use recat_qbo.Writeback.Commit.{
  CommitAnswers, is_exhausted, commit_attempt, send_attempt, fail_attempt, send_and_verify,
  enter_and_send, resume, exhaust_attempt, rearm_attempt, retry, commit_recorded, new_attempt,
  commit_new, commit,
}
use recat_qbo.Writeback.Table.{
  IsAttempt, IsTable, RowOk, find-update_other, append-IsTable, find-append_other, rearm-IsTable,
}
use recat_qbo.Writeback.Rows.{
  KeptRows, Kept, same_rows, after, fail-RowOk, commit-RowOk, same_request_id, retryable_unsent,
  same_row,
}
use recat_qbo.Writeback.Finished.{
  Claimed, after_retryable-Kept, by_transition, changed_all, claim-Claimed, finalize_verified-Kept,
  mark_uncertain-Kept, send-KeptRows,
}

module _ (verify : String → PreparedSnapshot → Bool) where
  send_and_verify-Kept :
      (id body : String) (o : MutationOperation) (a : CommitAnswers) (e : Entity)
      → Claimed id e
      → IsTable e.attempts
      → Kept id e (send_and_verify verify id body o a e)
  send_and_verify-Kept id body o a e c t =
      let k = send-KeptRows id e c t in
      let sent = change id send_attempt e in
      after k (
        by_option (Kept id sent) a.response
          (λ n. mark_uncertain-Kept id false a.doubt_stored sent k.table)
          (λ r n.
            by_if (Kept id sent) (verify body r && a.finalized)
              (λ b. finalize_verified-Kept id (ends_as o) r sent k.table)
              (λ b. mark_uncertain-Kept id false a.doubt_stored sent k.table)))

  enter_and_send-Kept :
      (id body : String) (a : CommitAnswers) (e : Entity)
      → IsTable e.attempts
      → Kept id e (enter_and_send verify id body a e)
  enter_and_send-Kept id body a e t =
      let x = is_exhausted a.live in
      let given_up = λ (code : String). after_retryable-Kept id a.marked x code e t in
      by_option (Kept id e) a.proof_error
        (λ n.
          by_transition (Kept id e) a.transition
            (by_if (Kept id e) (is_none a.live) (λ b. given_up "PREWRITE_PERSISTENCE_FAILED")
              (λ b. record {
                rows =
                    changed_all id fail_attempt e.attempts
                      (λ r. same_request_id (is_prepared r.status) _ r r.request_id refl refl)
                      fail-RowOk t;
              }))
            (by_if (Kept id e) (is_none a.live) (λ b. given_up "PREWRITE_PERSISTENCE_FAILED")
              (λ b. given_up "LIVE_AUTHORITY_DENIED"))
            (given_up "PREWRITE_PERSISTENCE_FAILED")
            (by_if (Kept id e) (status_passes is_prepared (find_attempt id e.attempts))
              (λ b.
                let k =
                  changed_all id commit_attempt e.attempts
                    (λ r. same_request_id (is_prepared r.status) _ r r.request_id refl refl)
                    commit-RowOk t in
                after k (
                  send_and_verify-Kept id body recategorize a (change id commit_attempt e)
                    (claim-Claimed id e t b) k.table))
              (λ b. same_rows t)))
        (λ code n. given_up code)

  resume-Kept :
      (id : String) (r : DurableAttempt) (a : CommitAnswers) (e : Entity)
      → IsTable e.attempts
      → Kept id e (resume verify id r a e)
  resume-Kept id r a e t =
      let given_up =
        λ (code : String). after_retryable-Kept id a.marked (is_exhausted a.live) code e t in
      by_option (Kept id e) a.load_error
        (λ n.
          by_if (Kept id e) a.dry_run_mode
            (λ b.
              by_if (Kept id e) (is_none a.live) (λ c. same_rows t)
                (λ c. given_up "DRY_RUN_PREPARED_WRITE"))
            (λ b.
              by_option (Kept id e) a.client_error (λ c. enter_and_send-Kept id r.body a e t)
                (λ code c. given_up code)))
        (λ code n. given_up code)

  retry-Kept :
      (id : String) (r : DurableAttempt) (a : CommitAnswers) (e : Entity)
      → IsTable e.attempts
      → Kept id e (retry verify id r a e)
  retry-Kept id r a e t =
      by_if (Kept id e) (is_exhausted a.live)
        (λ b. record {
          rows =
              changed_all id exhaust_attempt e.attempts
                (λ x. same_request_id (is_retryable x.status) _ x x.request_id refl refl)
                (λ x i.
                  by_if (RowOk x) (is_retryable x.status)
                    (λ c. record {
                      row = retryable_unsent x.status x.sends c i;
                      less = λ k. absurd (ground (arith, k));
                      same_id = refl;
                    })
                    (λ c. same_row x i))
                t;
        })
        (λ b.
          by_if (Kept id e) (not a.retry_authorized) (λ c. same_rows t)
            (λ c.
              by_if (Kept id e) (other_active id e.attempts) (λ d. same_rows t)
                (λ d.
                  let armed = change id rearm_attempt e in
                  let s = λ (x : DurableAttempt).
                    same_request_id (is_retryable x.status)
                      (record x { status = prepared; error_code = none }) x x.request_id refl
                      refl in
                  let table =
                    rearm-IsTable id rearm_attempt e.attempts s
                      (λ x i.
                        by_if IsAttempt (is_retryable x.status)
                          (λ k. retryable_unsent x.status x.sends k i) (λ k. i))
                      d t in
                  after
                    (record {
                      table = table;
                      others = λ j n. find-update_other id rearm_attempt j e.attempts s n;
                    })
                    (resume-Kept id r a armed table))))

  commit_recorded-Kept :
      (id : String) (r : DurableAttempt) (a : CommitAnswers) (e : Entity)
      → IsTable e.attempts
      → Kept id e (commit_recorded verify id r a e)
  commit_recorded-Kept id r a e t =
      by_if (Kept id e) (is_retryable r.status && not (is_none a.live)) (λ b. retry-Kept id r a e t)
        (λ b.
          by_if (Kept id e) (not (is_prepared r.status))
            (λ c. by_option (Kept id e) a.load_error (λ n. same_rows t) (λ code n. same_rows t))
            (λ c. resume-Kept id r a e t))

  -- A row that is added for a request without one, beside no active row.
  appended :
      (id : String) (e : Entity) (x : DurableAttempt)
      → x.request_id ≡ id
      → find_attempt id e.attempts ≡ none
      → any_active e.attempts ≡ false
      → IsAttempt x
      → IsTable e.attempts
      → KeptRows id e.attempts (e.attempts ++ x ∷ [])
  appended id e x s n v i t = record {
    table = append-IsTable e.attempts x (rw s n) (λ b. v) i t;
    others = λ j k. find-append_other j e.attempts x (λ q. k (sym q ∙ s));
  }

  commit_new-Kept :
      (id : String) (i : RequestIntent) (a : CommitAnswers) (e : Entity)
      → find_attempt id e.attempts ≡ none
      → any_active e.attempts ≡ false
      → IsTable e.attempts
      → Kept id e (commit_new verify id i a e)
  commit_new-Kept id i a e n v t =
      by_option (Kept id e) a.load_error
        (λ l.
          by_if (Kept id e) a.dry_run_mode (λ b. record { rows = appended id e _ refl n v refl t })
            (λ b.
              by_option (Kept id e) a.prepared_write (λ m. same_rows t)
                (λ p m.
                  let k = appended id e (new_attempt id i prepared p) refl n v refl t in
                  after k (
                    enter_and_send-Kept id p.1.0 a
                      (record e { attempts = e.attempts ++ new_attempt id i prepared p ∷ [] })
                      k.table))))
        (λ code l. same_rows t)

  -- What a lookup for a new request tells.
  abbrev FoundFacts : String → Entity → Found → Type 0
  FoundFacts id e (found r) = Unit
  FoundFacts id e (refused code) = Unit
  FoundFacts id e no_attempt = (find_attempt id e.attempts ≡ none) × (any_active e.attempts ≡ false)

  find_facts :
      (id : String) (i : RequestIntent) (e : Entity)
      → FoundFacts id e (find_request_or_conflict id i e)
  unfolding find_request_or_conflict
  find_facts id i e =
      by_option (FoundFacts id e) (find_attempt id e.attempts)
        (λ n. by_if (FoundFacts id e) (any_active e.attempts) (λ b. tt) (λ b. (n, b)))
        (λ r n. by_if (FoundFacts id e) (same_request i r) (λ b. tt) (λ b. tt))

  commit_found-Kept :
      (id : String) (i : RequestIntent) (a : CommitAnswers) (e : Entity) (f : Found)
      → FoundFacts id e f
      → IsTable e.attempts
      → Kept id e (elim f [
        | refused code ↦ (e, throws code)
        | found r ↦ commit_recorded verify id r a e
        | no_attempt ↦ commit_new verify id i a e
      ])
  commit_found-Kept id i a e (refused code) f t = same_rows t
  commit_found-Kept id i a e (found r) f t = commit_recorded-Kept id r a e t
  commit_found-Kept id i a e no_attempt f t = commit_new-Kept id i a e f.0 f.1 t

  pub commit-Kept :
      (id : String) (i : RequestIntent) (a : CommitAnswers) (e : Entity)
      → IsTable e.attempts
      → Kept id e (commit verify id i a e)
  unfolding commit
  commit-Kept id i a e t =
      by_if (Kept id e) (not a.leased) (λ b. same_rows t)
        (λ b. commit_found-Kept id i a e (find_request_or_conflict id i e) (find_facts id i e) t)
