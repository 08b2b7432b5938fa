-- ===== src/RowStage/Budget.antt =====
-- client/src/pages/queue/rowStageCoordinator.ts: the requests that may still follow from answers alone,
-- and what each answer pays of them.
use recat_qbo.Prelude.Shared.{
  ℕ, ◌+◌, ◌≤◌, ◌≡◌, refl, sym, ◌≢◌, ◌⊎◌, inl, inr, Option, none, some, Bool, true, false, arith,
  length, Bool-cases, if◌then◌else◌,
}
use recat_qbo.RowStage.Desired.{DesiredStage, same_desired_iff}
use recat_qbo.RowStage.State.{
  StagedCategorization, Failure, Latest, InFlight, settled, staging, reloading, Coordinator,
  requires_reload,
}
use recat_qbo.RowStage.Machine.{
  start_reload, start, on_staged, on_stage_failed, on_reloaded, Answer, stage_resolved,
  reload_resolved, rejected, answer_in, start_next, recover, next_of, wants, wants_other,
  has_recovered,
}
use recat_qbo.RowStage.Invariant.{IsValid, queue_cases, flying}

-- A bound on the requests that may still follow from the answers alone.
abbrev pub left_in : InFlight → Option DesiredStage → Bool → ℕ
left_in settled desired recovered = 0
left_in reloading desired recovered = 1
left_in (staging d) desired recovered =
    (if wants desired d then 0 else 1) + (if recovered then 0 else 2)

abbrev pub left : Coordinator → ℕ
left s = left_in s.in_flight s.desired (has_recovered s)

-- Either nothing is in flight any more, or one request was made and fewer may follow.
abbrev pub Pays : ℕ → Coordinator → Coordinator → Type 0
Pays budget s t =
    ((t.in_flight ≡ settled) × (t.requests ≡ s.requests))
    ⊎ ((length t.requests ≡ length s.requests + 1) × (left t + 1 ≤ budget))

pub wants_self : (d : DesiredStage) → wants (some d) d ≡ true
wants_self d = (same_desired_iff d d).1 refl

pub next_desired :
    (s : Coordinator) → ((s.queued ≡ none) ⊎ (s.queued ≡ s.desired)) → next_of s ≡ s.desired
next_desired s q = ground arith

start_Pays :
    (budget : ℕ) (next : Option DesiredStage) (s t : Coordinator)
    → s.disposed ≡ false
    → next ≢ none
    → t.desired ≡ next
    → t.disposed ≡ s.disposed
    → t.requests ≡ s.requests
    → (if has_recovered t then 0 else 2) + 1 ≤ budget
    → Pays budget s (start_next next t)
unfolding start
start_Pays budget none s t a n d b r h = absurd (n refl)
start_Pays budget (some x) s t a n d b r h = inr (ground arith, ground (arith, wants_self x))

wants_other-not :
    (o : Option DesiredStage) (d : DesiredStage) → wants_other o d ≡ true → wants o d ≡ false
wants_other-not none d h = cc
wants_other-not (some x) d h = ground arith

on_staged-Pays :
    (d : DesiredStage) (r : StagedCategorization) (s : Coordinator)
    → s.disposed ≡ false
    → s.desired ≢ none
    → ((s.queued ≡ none) ⊎ (s.queued ≡ s.desired))
    → Pays (left_in (staging d) s.desired (has_recovered s)) s (on_staged d r s)
unfolding on_staged answer_in
on_staged-Pays d r s a h q = elim (Bool-cases (wants s.desired d)) [
  | inl e ↦ rw e (ground arith)
  | inr e ↦ rw e (
      start_Pays _ (next_of s) s _ a (rw (next_desired s q) h) (sym (next_desired s q)) refl refl
        (ground arith))
]

on_stage_failed-Pays :
    (d : DesiredStage) (f : Failure) (s : Coordinator)
    → s.disposed ≡ false
    → s.desired ≢ none
    → ((s.queued ≡ none) ⊎ (s.queued ≡ s.desired))
    → Pays (left_in (staging d) s.desired (has_recovered s)) s (on_stage_failed d f s)
unfolding on_stage_failed start_reload
on_stage_failed-Pays d f s a h q = elim (Bool-cases (requires_reload f)) [
  | inl lost ↦ rw lost (ground arith)
  | inr known ↦ elim (Bool-cases (wants_other s.desired d)) [
    | inl e ↦
        rw (known, e)
          (start_Pays _ (next_of s) s _ a (rw (next_desired s q) h) (sym (next_desired s q)) refl
            refl (ground (arith, wants_other-not s.desired d e)))
    | inr e ↦ rw (known, e) (ground arith)
  ]
]

on_reloaded-Pays :
    (l : Option Latest) (s : Coordinator)
    → s.disposed ≡ false
    → s.desired ≢ none
    → ((s.queued ≡ none) ⊎ (s.queued ≡ s.desired))
    → Pays 1 s (on_reloaded l s)
unfolding on_reloaded
on_reloaded-Pays none s a h q = ground arith
on_reloaded-Pays (some l) s a h q = elim (Bool-cases l.is_mutable) [
  | inl e ↦ rw e (recovered (next_of s) (rw (next_desired s q) h) (sym (next_desired s q)))
  | inr e ↦ rw e (ground arith)
]
  where
    recovered :
        (next : Option DesiredStage)
        → next ≢ none
        → s.desired ≡ next
        → Pays 1 s (
            recover next (record s {
              canonical_revision = l.revision;
              reload_required = false;
              queued = none;
              in_flight = settled;
            }))
    recovered none n d = absurd (n refl)
    recovered (some x) n d =
        start_Pays 1 (some x) s
          (record s {
            canonical_revision = l.revision;
            reload_required = false;
            queued = none;
            in_flight = settled;
            recovery_attempted = some s.desired_generation;
          })
          a n d refl refl (ground arith)

-- The answers that a promise in flight can give.
abbrev pub Answers : InFlight → Answer → Type 0
Answers (staging d) (stage_resolved r) = Unit
Answers (staging d) (rejected f) = Unit
Answers reloading (reload_resolved l) = Unit
Answers reloading (rejected f) = Unit
Answers _ _ = ⊥

pub answer_in-Pays :
    (flight : InFlight) (a : Answer) (s : Coordinator)
    → s.disposed ≡ false
    → s.in_flight ≡ flight
    → IsValid s
    → Answers flight a
    → Pays (left_in flight s.desired (has_recovered s)) s (answer_in flight a s)
unfolding answer_in
answer_in-Pays (staging d) (stage_resolved r) s n e v a =
    on_staged-Pays d r s n (flying s (staging d) e (λ x. cc) v)
      (queue_cases s.queued s.desired s.in_flight v.queue)
answer_in-Pays (staging d) (rejected f) s n e v a =
    on_stage_failed-Pays d f s n (flying s (staging d) e (λ x. cc) v)
      (queue_cases s.queued s.desired s.in_flight v.queue)
answer_in-Pays reloading (reload_resolved l) s n e v a =
    on_reloaded-Pays l s n (flying s reloading e (λ x. cc) v)
      (queue_cases s.queued s.desired s.in_flight v.queue)
answer_in-Pays reloading (rejected f) s n e v a = inl (ground arith, ground arith)
answer_in-Pays _ _ s n e v a = absurd a
