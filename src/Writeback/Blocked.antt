-- ===== src/Writeback/Blocked.antt =====
-- services/writeback.ts: what any calls leave of a transaction's attempts, and when nothing is sent.
use recat_qbo.Prelude.Shared.{
  ℕ, ◌+◌, ◌≤◌, ◌≡◌, ◌≢◌, refl, Bool, true, false, not, ◌&&◌, List, [], ◌∷◌, some, String, arith,
  str_eq, Bool-cases, Option-cases, inl, inr, is_none,
}
use recat_qbo.Prelude.Splits.{by_if, by_option}
use recat_qbo.Writeback.{
  AttemptStatus, prepared, verified, unchanged, dry_run, DurableAttempt, Entity, PreparedSnapshot,
  is_active, is_prepared, is_retryable, find_attempt, update_attempt, other_active, any_active,
  RequestIntent, Reply, find_request_or_conflict, same_request,
}
use recat_qbo.Writeback.Commit.{
  CommitAnswers, is_exhausted, exhaust_attempt, commit_recorded, commit, ReconcileAnswers,
  reconcile,
}
use recat_qbo.Writeback.Table.{IsTable}
use recat_qbo.Writeback.Rows.{find-IsAttempt, sends_le}
use recat_qbo.Writeback.Kept.{commit-Kept}
use recat_qbo.Writeback.Reconciled.{reconcile-Kept}

pub data Call : Type 0 where
  commits : String → RequestIntent → CommitAnswers → Call
  reconciles : String → ReconcileAnswers → Call

abbrev pub request_of : Call → String
request_of (commits id i a) = id
request_of (reconciles id a) = id

abbrev pub total_sends : List DurableAttempt → ℕ
total_sends [] = 0
total_sends (a ∷ rest) = a.sends + total_sends rest

-- A status that no commit changes.
abbrev pub is_final : AttemptStatus → Bool
is_final verified = true
is_final unchanged = true
is_final dry_run = true
is_final _ = false

module _ (verify : String → PreparedSnapshot → Bool) where
  unfoldable pub run : List Call → Entity → Entity
  run [] e = e
  run (commits id i a ∷ calls) e = run calls (commit verify id i a e).0
  run (reconciles id a ∷ calls) e = run calls (reconcile verify id a e).0

  run_table : (calls : List Call) (e : Entity) → IsTable e.attempts → IsTable (run calls e).attempts
  unfolding run
  run_table [] e t = t
  run_table (commits id i a ∷ calls) e t =
      run_table calls _ (commit-Kept verify id i a e t).rows.table
  run_table (reconciles id a ∷ calls) e t =
      run_table calls _ (reconcile-Kept verify id a e t).rows.table

  -- After any commits and reconciliations, whatever is answered to them, the request ids differ, at most
  -- one attempt is active, those that are prepared, retryable, failed or dry were never sent, and no
  -- request was sent more than once.
  pub run-IsTable :
      (calls : List Call) (e : Entity)
      → IsTable e.attempts
      → IsTable (run calls e).attempts
        × ((id : String) (a : DurableAttempt)
            → find_attempt id (run calls e).attempts ≡ some a
            → a.sends ≤ 1)
  run-IsTable calls e t =
      let k = run_table calls e t in
      (k, λ id a f. sends_le a.status a.sends (find-IsAttempt id (run calls e).attempts a k f))

  -- A commit or a reconciliation leaves the attempt of every other request as it was.
  pub others_kept :
      (c : Call) (j : String) (e : Entity)
      → IsTable e.attempts
      → j ≢ request_of c
      → find_attempt j (run (c ∷ []) e).attempts ≡ find_attempt j e.attempts
  unfolding run
  others_kept (commits id i a) j e t n = (commit-Kept verify id i a e t).rows.others j n
  others_kept (reconciles id a) j e t n = (reconcile-Kept verify id a e t).rows.others j n

  total_sends-exhaust_attempt :
      (id : String) (rest : List DurableAttempt)
      → total_sends (update_attempt id exhaust_attempt rest) ≡ total_sends rest
  total_sends-exhaust_attempt id [] = refl
  total_sends-exhaust_attempt id (a ∷ rest) = ground (arith, total_sends-exhaust_attempt id rest)

  other_any :
      (id : String) (rest : List DurableAttempt)
      → other_active id rest ≡ true
      → any_active rest ≡ true
  other_any id [] h = absurd (ground arith)
  other_any id (a ∷ rest) h = ground (arith, h, other_any id rest)

  -- Beside another active row, the row of the request is not active.
  not_active :
      (id : String) (rest : List DurableAttempt) (a : DurableAttempt)
      → IsTable rest
      → find_attempt id rest ≡ some a
      → other_active id rest ≡ true
      → is_active a.status ≡ false
  not_active id [] a t f o = absurd (ground arith)
  not_active id (b ∷ rest) a t f o = elim (Bool-cases (str_eq b.request_id id)) [
    | inl e ↦
        let same : some b ≡ some a = rw e at f in
        let is : b ≡ a = ground (arith, same) in
        let there : any_active rest ≡ true = other_any id rest (ground (arith, o, e)) in
        elim (Bool-cases (is_active b.status)) [
          | inl k ↦ absurd (ground (arith, t.0.1.1 k, there))
          | inr k ↦ rw (← is) k
        ]
    | inr e ↦
        let g : find_attempt id rest ≡ some a = rw e at f in
        elim (Bool-cases (is_active b.status)) [
          | inl k ↦ inactive rest g (t.0.1.1 k)
          | inr k ↦ not_active id rest a t.1 g (ground (arith, o, k))
        ]
  ]
    where
      inactive :
          (xs : List DurableAttempt)
          → find_attempt id xs ≡ some a
          → any_active xs ≡ false
          → is_active a.status ≡ false
      inactive [] g n = absurd (ground arith)
      inactive (x ∷ xs) g n = elim (Bool-cases (str_eq x.request_id id)) [
        | inl e ↦
            let same : some x ≡ some a = rw e at g in
            let is : x ≡ a = ground (arith, same) in rw (← is) (ground (arith, n))
        | inr e ↦ inactive xs (rw e at g) (ground (arith, n))
      ]

  -- What a call has not sent.
  record Quiet (e : Entity) (r : Entity × Reply) : Type 0 where
    quiet : total_sends r.0.attempts ≡ total_sends e.attempts

  silent : {e : Entity} {r : Reply} → Quiet e (e, r)
  silent = record { quiet = refl }

  inactive_prepared : (s : AttemptStatus) → is_active s ≡ false → is_prepared s ≡ false
  inactive_prepared prepared n = absurd (ground arith)
  inactive_prepared _ n = refl

  recorded-Quiet :
      (id : String) (r : DurableAttempt) (a : CommitAnswers) (e : Entity)
      → is_active r.status ≡ false
      → other_active id e.attempts ≡ true
      → Quiet e (commit_recorded verify id r a e)
  recorded-Quiet id r a e n o =
      by_if (Quiet e) (is_retryable r.status && not (is_none a.live))
        (λ b.
          by_if (Quiet e) (is_exhausted a.live)
            (λ c. record { quiet = total_sends-exhaust_attempt id e.attempts })
            (λ c.
              by_if (Quiet e) (not a.retry_authorized) (λ d. silent)
                (λ d.
                  by_if (Quiet e) (other_active id e.attempts) (λ k. silent)
                    (λ k. absurd (ground (arith, k, o))))))
        (λ b.
          by_if (Quiet e) (not (is_prepared r.status))
            (λ c. by_option (Quiet e) a.load_error (λ l. silent) (λ code l. silent))
            (λ c. absurd (ground (arith, inactive_prepared r.status n, c))))

  commit-Quiet :
      (id : String) (i : RequestIntent) (a : CommitAnswers) (e : Entity)
      → IsTable e.attempts
      → other_active id e.attempts ≡ true
      → Quiet e (commit verify id i a e)
  unfolding commit find_request_or_conflict
  commit-Quiet id i a e t o =
      by_if (Quiet e) (not a.leased) (λ b. silent)
        (λ b. elim (Option-cases (find_attempt id e.attempts)) [
          | inl f ↦ rw (f, other_any id e.attempts o) silent
          | inr (r, f) ↦ rw f (elim (Bool-cases (same_request i r)) [
            | inl s ↦ rw s (recorded-Quiet id r a e (not_active id e.attempts r t f o) o)
            | inr s ↦ rw s silent
          ])
        ])

  -- While another request's attempt on the transaction is active, a commit sends nothing, whatever is
  -- answered in its course and whoever asks.
  pub commit_blocked :
      (id : String) (i : RequestIntent) (a : CommitAnswers) (e : Entity)
      → IsTable e.attempts
      → other_active id e.attempts ≡ true
      → total_sends (commit verify id i a e).0.attempts ≡ total_sends e.attempts
  commit_blocked id i a e t o = (commit-Quiet id i a e t o).quiet
