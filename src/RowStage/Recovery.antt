-- ===== src/RowStage/Recovery.antt =====
-- client/src/pages/queue/rowStageCoordinator.ts: how many requests the coordinator makes of its own
-- accord, and that the last thing desired is what is staged in the end.
use recat_qbo.Prelude.Shared.{
  ◌∙◌, ◌+◌, ◌≤◌, ◌≡◌, refl, ap, subst, ◌≢◌, ◌⊎◌, inl, inr, List, [], ◌∷◌, Option, none, some, false,
  arith, length,
}
use recat_qbo.RowStage.Desired.{DesiredStage, same_desired_iff}
use recat_qbo.RowStage.State.{
  calculating, ready, StagedCategorization, InFlight, settled, staging, reloading, stage,
  Coordinator,
}
use recat_qbo.RowStage.Machine.{
  start_reload, start, on_staged, on_stage_failed, on_reloaded, Answer, stage_resolved,
  reload_resolved, rejected, answer_in, answer, start_next,
}
use recat_qbo.RowStage.Invariant.{IsValid, queue_cases, answer_in-IsValid}
use recat_qbo.RowStage.Budget.{Answers, Pays, answer_in-Pays, left, next_desired, wants_self}

abbrev pub answer_all : List Answer → Coordinator → Coordinator
answer_all [] s = s
answer_all (a ∷ as') s = answer_all as' (answer a s)

-- Each answer of the list is one to the promise that is in flight then.
abbrev pub Answerable : List Answer → Coordinator → Type 0
Answerable [] s = Unit
Answerable (a ∷ as') s = Answers s.in_flight a × Answerable as' (answer a s)

disposed-start_next :
    (next : Option DesiredStage) (s : Coordinator) → (start_next next s).disposed ≡ s.disposed
unfolding start
disposed-start_next none s = refl
disposed-start_next (some d) s = ground arith

disposed-answer_in :
    (flight : InFlight) (a : Answer) (s : Coordinator)
    → (answer_in flight a s).disposed ≡ s.disposed
unfolding answer_in on_staged on_stage_failed on_reloaded start start_reload
disposed-answer_in (staging d) (stage_resolved r) s = ground arith
disposed-answer_in (staging d) (rejected f) s = ground arith
disposed-answer_in reloading (reload_resolved l) s = ground arith
disposed-answer_in reloading (rejected f) s = ground arith
disposed-answer_in _ _ s = refl

answer_live :
    (a : Answer) (s : Coordinator) → s.disposed ≡ false → answer a s ≡ answer_in s.in_flight a s
unfolding answer
answer_live a s n = ground (arith, n)

no_more :
    (flight : InFlight) (as' : List Answer) (s : Coordinator)
    → s.in_flight ≡ flight
    → flight ≡ settled
    → Answerable as' s
    → as' ≡ []
no_more flight [] s e t a = refl
no_more settled (x ∷ as') s e t (fits, rest) = absurd (subst (λ f. Answers f x) e fits)
no_more (staging d) (x ∷ as') s e t a = cc
no_more reloading (x ∷ as') s e t a = cc

left-le : (s : Coordinator) → left s ≤ 3
left-le s = ground arith

-- A run of answers is as long as the budget allows, and so are the requests made in it.
answer_all_bounded :
    (as' : List Answer) (s : Coordinator)
    → s.disposed ≡ false
    → IsValid s
    → Answerable as' s
    → (length as' ≤ left s + 1) × (length (answer_all as' s).requests ≤ length s.requests + left s)
answer_all_bounded [] s n v a = omega arith
answer_all_bounded (a ∷ as') s n v (fits, rest) =
    let t = answer a s in
    let e = answer_live a s n in
    let n' : t.disposed ≡ false = rw e (disposed-answer_in s.in_flight a s ∙ n) in
    let v' : IsValid t = rw e (answer_in-IsValid s.in_flight a s refl v) in
    let pay : Pays (left s) s t = rw e (answer_in-Pays s.in_flight a s n refl v fits) in
    elim pay [
      | inl (stopped, same) ↦
          rw (no_more t.in_flight as' t refl stopped rest)
            (omega arith, omega (arith, ap length same))
      | inr (made, fewer) ↦
          let ih = answer_all_bounded as' t n' v' rest in (omega (arith, ih.0), omega (arith, ih.1))
    ]

-- Left to itself the coordinator stops: from any valid state that is not disposed, the
-- transport's answers alone, whatever they are, come to an end after at most four, with at most
-- three further requests.
pub recovery_bounded :
    (as' : List Answer) (s : Coordinator)
    → s.disposed ≡ false
    → IsValid s
    → Answerable as' s
    → (length as' ≤ 4) × (length (answer_all as' s).requests ≤ length s.requests + 3)
recovery_bounded as' s n v a =
    let b = answer_all_bounded as' s n v a in
    (omega (arith, b.0, left-le s), omega (arith, b.1, left-le s))

superseded :
    (s : Coordinator) (d w : DesiredStage) (r : StagedCategorization)
    → s.disposed ≡ false
    → ((s.queued ≡ none) ⊎ (s.queued ≡ s.desired))
    → s.in_flight ≡ staging d
    → s.desired ≡ some w
    → d ≢ w
    → let t = answer (stage_resolved r) s in
      (t.requests ≡ stage r.revision w ∷ s.requests)
      × (t.status ≡ calculating)
      × (t.in_flight ≡ staging w)
      × (t.desired ≡ some w)
      × (t.disposed ≡ false)
unfolding on_staged start answer_in
superseded s d w r n q f h ne =
    rw (answer_live (stage_resolved r) s n, f, answer_in)
      (ground (arith, same_desired_iff w d, next_desired s q))

confirmed :
    (s : Coordinator) (w : DesiredStage) (r : StagedCategorization)
    → s.disposed ≡ false
    → s.in_flight ≡ staging w
    → s.desired ≡ some w
    → let t = answer (stage_resolved r) s in
      (t.status ≡ ready) × (t.staged ≡ some w) × (t.result ≡ some r) × (t.requests ≡ s.requests)
unfolding on_staged answer_in
confirmed s w r n f h =
    rw (answer_live (stage_resolved r) s n, f, answer_in) (ground (arith, wants_self w))

-- The last thing desired wins: if the staging in flight is of something else, its success is not
-- shown but followed by a staging of what is desired, at the revision that the server gave, and the
-- success of that is shown.
pub latest_wins :
    (s : Coordinator) (d w : DesiredStage) (r₁ r₂ : StagedCategorization)
    → s.disposed ≡ false
    → IsValid s
    → s.in_flight ≡ staging d
    → s.desired ≡ some w
    → d ≢ w
    → let t = answer (stage_resolved r₁) s in
      let u = answer (stage_resolved r₂) t in
      (t.requests ≡ stage r₁.revision w ∷ s.requests)
      × (t.status ≡ calculating)
      × (u.status ≡ ready)
      × (u.staged ≡ some w)
      × (u.result ≡ some r₂)
      × (u.requests ≡ t.requests)
latest_wins s d w r₁ r₂ n v f h ne =
    let a = superseded s d w r₁ n (queue_cases s.queued s.desired s.in_flight v.queue) f h ne in
    let b = confirmed (answer (stage_resolved r₁) s) w r₂ a.4 a.2 a.3 in
    (a.0, a.1, b.0, b.1, b.2, b.3)
