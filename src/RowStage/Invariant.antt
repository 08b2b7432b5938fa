-- ===== src/RowStage/Invariant.antt =====
-- client/src/pages/queue/rowStageCoordinator.ts: what holds of the coordinator between two events, and
-- of every view that it publishes.
use recat_qbo.Prelude.Shared.{
  ℕ, ◌≡◌, refl, sym, ◌≢◌, ◌⊎◌, inl, inr, List, [], ◌∷◌, Option, none, some, Bool, true, false,
  arith, All, Bool-cases, if◌then◌else◌,
}
use recat_qbo.RowStage.Desired.{DesiredStage, same_desired_iff}
use recat_qbo.RowStage.State.{
  RowStageStatus, idle, calculating, ready, error, conflict, StagedCategorization, RowStageView,
  Failure, Latest, InFlight, settled, staging, reloading, Coordinator, create_row_stage_coordinator,
  requires_reload,
}
use recat_qbo.RowStage.Machine.{
  start_reload, start, on_staged, on_stage_failed, on_reloaded, update, retry, restage, dispose,
  Answer, stage_resolved, reload_resolved, rejected, answer_in, answer, Event, updates, retries,
  restages, disposes, answers, step, run, settle_error, settle_conflict, start_next, recover,
  next_of, wants, wants_other, has_recovered,
}

-- The result is that of a staging, at the revision that the server gave.
abbrev pub IsCurrent : ℕ → Option StagedCategorization → Type 0
IsCurrent revision none = ⊥
IsCurrent revision (some r) = r.revision ≡ revision

-- A view that says `ready` shows the staging of what is desired; any other shows no staging at all.
abbrev pub IsView :
    RowStageStatus
    → Option DesiredStage
    → Option DesiredStage
    → Option StagedCategorization
    → Type 0
IsView ready desired staged result = (desired ≢ none) × (staged ≡ desired) × (result ≢ none)
IsView _ desired staged result = (staged ≡ none) × (result ≡ none)

abbrev pub IsFaithful : RowStageView → Type 0
IsFaithful v = IsView v.status v.desired v.staged v.result

-- How the status goes with the promise in flight and with what is desired.
abbrev pub Fits : RowStageStatus → InFlight → Option DesiredStage → Type 0
Fits idle settled desired = desired ≡ none
Fits conflict settled desired = desired ≡ none
Fits error settled desired = desired ≢ none
Fits ready settled desired = desired ≢ none
Fits calculating (staging _) desired = desired ≢ none
Fits calculating reloading desired = desired ≢ none
Fits _ _ desired = ⊥

-- What is queued is what is desired, and waits for a promise in flight.
abbrev pub IsQueued : Option DesiredStage → Option DesiredStage → InFlight → Type 0
IsQueued none desired flight = Unit {0}
IsQueued (some q) desired flight = (desired ≡ some q) × (flight ≢ settled)

pub record IsValid (s : Coordinator) : Type 0 where
  pub fits : Fits s.status s.in_flight s.desired
  pub queue : IsQueued s.queued s.desired s.in_flight
  pub shown : IsView s.status s.desired s.staged s.result
  pub current : s.status ≡ ready → IsCurrent s.canonical_revision s.result
  pub views : All IsFaithful s.published

created-IsValid : (revision : ℕ) → IsValid (create_row_stage_coordinator revision)
created-IsValid revision = ground arith

start-IsValid :
    (d : DesiredStage) (s : Coordinator)
    → s.desired ≢ none
    → All IsFaithful s.published
    → IsValid (start d s)
unfolding start
start-IsValid d s h v = ground arith

start_reload-IsValid :
    (s : Coordinator)
    → s.desired ≢ none
    → ((s.queued ≡ none) ⊎ (s.queued ≡ s.desired))
    → All IsFaithful s.published
    → IsValid (start_reload s)
unfolding start_reload
start_reload-IsValid s h q v = ground arith

pub wants-eq : (o : Option DesiredStage) (d : DesiredStage) → wants o d ≡ true → o ≡ some d
wants-eq none d h = cc
wants-eq (some x) d h = ground (arith, same_desired_iff x d)

next_of-ne-none : (s : Coordinator) → s.desired ≢ none → next_of s ≢ none
next_of-ne-none s h = ground arith

start_next-IsValid :
    (next : Option DesiredStage) (s : Coordinator)
    → next ≢ none
    → s.desired ≢ none
    → All IsFaithful s.published
    → IsValid (start_next next s)
start_next-IsValid none s n h v = absurd (n refl)
start_next-IsValid (some d) s n h v = start-IsValid d s h v

recover-IsValid :
    (next : Option DesiredStage) (s : Coordinator)
    → next ≢ none
    → s.desired ≢ none
    → All IsFaithful s.published
    → IsValid (recover next s)
recover-IsValid none s n h v = absurd (n refl)
recover-IsValid (some d) s n h v =
    start-IsValid d (record s { recovery_attempted = some s.desired_generation }) h v

settle_error-IsValid :
    (f : Failure) (reload : Bool) (s : Coordinator)
    → s.desired ≢ none
    → All IsFaithful s.published
    → IsValid (settle_error f reload s)
settle_error-IsValid f reload s h v = ground arith

settle_conflict-IsValid :
    (s : Coordinator) → All IsFaithful s.published → IsValid (settle_conflict s)
settle_conflict-IsValid s v = ground arith

on_staged-IsValid :
    (d : DesiredStage) (r : StagedCategorization) (s : Coordinator)
    → s.desired ≢ none
    → All IsFaithful s.published
    → IsValid (on_staged d r s)
unfolding on_staged
on_staged-IsValid d r s h v = elim (Bool-cases (wants s.desired d)) [
  | inl e ↦ rw e (ground (arith, wants-eq s.desired d e))
  | inr e ↦ rw e (start_next-IsValid (next_of s) _ (next_of-ne-none s h) h v)
]

on_stage_failed-IsValid :
    (d : DesiredStage) (f : Failure) (s : Coordinator)
    → s.desired ≢ none
    → ((s.queued ≡ none) ⊎ (s.queued ≡ s.desired))
    → All IsFaithful s.published
    → IsValid (on_stage_failed d f s)
unfolding on_stage_failed
on_stage_failed-IsValid d f s h q v = elim (Bool-cases (requires_reload f)) [
  | inl lost ↦
      let t = record s { reload_required = true } in
      rw lost (elim (Bool-cases (has_recovered t)) [
        | inl again ↦ rw again (settle_error-IsValid f true t h v)
        | inr first ↦ rw first (start_reload-IsValid (record t { in_flight = settled }) h q v)
      ])
  | inr known ↦
      let t = record s { reload_required = false; in_flight = settled } in
      rw known (elim (Bool-cases (wants_other s.desired d)) [
        | inl e ↦ rw e (start_next-IsValid (next_of s) _ (next_of-ne-none s h) h v)
        | inr e ↦ rw e (settle_error-IsValid f false t h v)
      ])
]

on_reloaded-IsValid :
    (l : Option Latest) (s : Coordinator)
    → s.desired ≢ none
    → All IsFaithful s.published
    → IsValid (on_reloaded l s)
unfolding on_reloaded
on_reloaded-IsValid none s h v = settle_conflict-IsValid s v
on_reloaded-IsValid (some l) s h v = elim (Bool-cases l.is_mutable) [
  | inl e ↦ rw e (recover-IsValid (next_of s) _ (next_of-ne-none s h) h v)
  | inr e ↦ rw e (settle_conflict-IsValid s v)
]

pub queue_cases :
    (q desired : Option DesiredStage) (flight : InFlight)
    → IsQueued q desired flight
    → (q ≡ none) ⊎ (q ≡ desired)
queue_cases none desired flight h = inl refl
queue_cases (some d) desired flight h = inr (sym h.0)

pub flying :
    (s : Coordinator) (flight : InFlight)
    → s.in_flight ≡ flight
    → flight ≢ settled
    → IsValid s
    → s.desired ≢ none
flying s flight e n v = ground (arith, v.fits)

pub answer_in-IsValid :
    (flight : InFlight) (a : Answer) (s : Coordinator)
    → s.in_flight ≡ flight
    → IsValid s
    → IsValid (answer_in flight a s)
unfolding answer_in
answer_in-IsValid (staging d) (stage_resolved r) s e v =
    on_staged-IsValid d r s (flying s (staging d) e (λ x. cc) v) v.views
answer_in-IsValid (staging d) (rejected f) s e v =
    on_stage_failed-IsValid d f s (flying s (staging d) e (λ x. cc) v)
      (queue_cases s.queued s.desired s.in_flight v.queue) v.views
answer_in-IsValid reloading (reload_resolved l) s e v =
    on_reloaded-IsValid l s (flying s reloading e (λ x. cc) v) v.views
answer_in-IsValid reloading (rejected f) s e v =
    settle_error-IsValid f true s (flying s reloading e (λ x. cc) v) v.views
answer_in-IsValid _ _ s e v = v

update-IsValid : (d : DesiredStage) (s : Coordinator) → IsValid s → IsValid (update d s)
unfolding update start start_reload
update-IsValid d s v = ground arith

retry-IsValid : (s : Coordinator) → IsValid s → IsValid (retry s)
unfolding retry start start_reload
retry-IsValid s v = ground arith

restage-IsValid : (s : Coordinator) → IsValid s → IsValid (restage s).0
unfolding restage start
restage-IsValid s v = ground arith

pub guarded : (b : Bool) (s t : Coordinator) → IsValid s → IsValid t → IsValid (if b then s else t)
guarded true s t v w = v
guarded false s t v w = w

-- Every call of a method and every answer of the transport, in any order, keeps the coordinator in
-- shape: the status says whether a promise is in flight, only what is desired is queued, a result
-- is shown only while it is the staging of what is desired at the revision in hand, and no view that
-- was published says otherwise.
pub step-IsValid : (e : Event) (s : Coordinator) → IsValid s → IsValid (step e s)
unfolding step dispose answer
step-IsValid (updates d) s v = update-IsValid d s v
step-IsValid retries s v = retry-IsValid s v
step-IsValid restages s v = restage-IsValid s v
step-IsValid disposes s v = ground arith
step-IsValid (answers a) s v = guarded s.disposed s _ v (answer_in-IsValid s.in_flight a s refl v)

run_from-IsValid : (es : List Event) (s : Coordinator) → IsValid s → IsValid (run es s)
unfolding run
run_from-IsValid [] s v = v
run_from-IsValid (e ∷ es) s v = run_from-IsValid es (step e s) (step-IsValid e s v)

-- So after any events of a new coordinator: in particular every view that it published and that says
-- `ready` showed the staging of what was desired then.
pub coordinator-IsValid :
    (revision : ℕ) (es : List Event) → IsValid (run es (create_row_stage_coordinator revision))
coordinator-IsValid revision es = run_from-IsValid es _ (created-IsValid revision)
