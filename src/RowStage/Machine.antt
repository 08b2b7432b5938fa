-- ===== src/RowStage/Machine.antt =====
-- client/src/pages/queue/rowStageCoordinator.ts: the methods of the coordinator, what it does when a
-- promise settles, and runs of both.
use recat_qbo.Prelude.Shared.{
  ◌+◌, Bool, true, false, ◌||◌, not, List, [], ◌∷◌, Option, none, some, ◌==◌, if◌then◌else◌,
}
use recat_qbo.RowStage.Desired.{DesiredStage, same_desired}
use recat_qbo.RowStage.State.{
  Coordinator, Failure, InFlight, Latest, RowStageStatus, StagedCategorization, ask, calculating,
  conflict, emit, error, message_of, ready, reload, reloading, requires_reload, settled, stage,
  staging,
}

abbrev pub settle_error : Failure → Bool → Coordinator → Coordinator
settle_error f still_requires_reload s = emit (record s {
  in_flight = settled;
  queued = none;
  status = error;
  staged = none;
  result = none;
  message = some (message_of f);
  reload_required = still_requires_reload;
})

abbrev pub settle_conflict : Coordinator → Coordinator
settle_conflict s = emit (record s {
  in_flight = settled;
  queued = none;
  status = conflict;
  desired = none;
  staged = none;
  result = none;
  message = some "The transaction is no longer available for categorization.";
  reload_required = false;
})

unfoldable pub start_reload : Coordinator → Coordinator
start_reload s = ask reload (
    emit (record s {
      status = calculating;
      staged = none;
      result = none;
      message = none;
      in_flight = reloading;
    }))

unfoldable pub start : DesiredStage → Coordinator → Coordinator
start requested s = ask (stage s.canonical_revision requested) (
    emit (record s {
      queued = none;
      status = calculating;
      staged = none;
      result = none;
      message = none;
      in_flight = staging requested;
    }))

-- `queued ?? desired`
abbrev pub next_of : Coordinator → Option DesiredStage
next_of s = elim s.queued [ some q ↦ some q | none ↦ s.desired ]

abbrev pub start_next : Option DesiredStage → Coordinator → Coordinator
start_next none s = s
start_next (some next) s = start next s

-- `desired !== null && sameDesired(desired, requested)`, and the same with the test turned round.
abbrev pub wants : Option DesiredStage → DesiredStage → Bool
wants none requested = false
wants (some d) requested = same_desired d requested

abbrev pub wants_other : Option DesiredStage → DesiredStage → Bool
wants_other none requested = false
wants_other (some d) requested = not (same_desired d requested)

-- `recoveryAttemptedGeneration === desiredGeneration`
abbrev pub has_recovered : Coordinator → Bool
has_recovered s = elim s.recovery_attempted [ none ↦ false | some g ↦ g == s.desired_generation ]

unfoldable pub on_staged : DesiredStage → StagedCategorization → Coordinator → Coordinator
on_staged requested r s =
    let t = record s {
      canonical_revision = r.revision;
      reload_required = false;
      in_flight = settled;
    } in
    if wants t.desired requested
    then emit (record t {
      queued = none;
      status = ready;
      staged = some requested;
      result = some r;
      message = none;
    })
    else start_next (next_of t) (record t { queued = none })

unfoldable pub on_stage_failed : DesiredStage → Failure → Coordinator → Coordinator
on_stage_failed requested f s =
    if requires_reload f
    then (let t = record s { reload_required = true } in
        if has_recovered t
        then settle_error f true t
        else start_reload (record t { in_flight = settled }))
    else (let t = record s { reload_required = false; in_flight = settled } in
        if wants_other t.desired requested
        then start_next (next_of t) (record t { queued = none })
        else settle_error f false t)

abbrev pub recover : Option DesiredStage → Coordinator → Coordinator
recover none s = s
recover (some next) s = start next (record s { recovery_attempted = some s.desired_generation })

unfoldable pub on_reloaded : Option Latest → Coordinator → Coordinator
on_reloaded none s = settle_conflict s
on_reloaded (some latest) s =
    if latest.is_mutable
    then recover (next_of s) (record s {
      canonical_revision = latest.revision;
      reload_required = false;
      queued = none;
      in_flight = settled;
    })
    else settle_conflict s

abbrev is_conflict : RowStageStatus → Bool
is_conflict conflict = true
is_conflict _ = false

abbrev pub is_error : RowStageStatus → Bool
is_error error = true
is_error _ = false

abbrev pub is_ready : RowStageStatus → Bool
is_ready ready = true
is_ready _ = false

abbrev pub is_settled : InFlight → Bool
is_settled settled = true
is_settled _ = false

unfoldable pub update : DesiredStage → Coordinator → Coordinator
update next s =
    if s.disposed || (is_conflict s.status || wants s.desired next)
    then s
    else (let t = record s {
      desired = some next;
      desired_generation = s.desired_generation + 1;
      staged = none;
      result = none;
      message = none;
    } in
        if is_settled s.in_flight
        then (if s.reload_required then start_reload t else start next t)
        else emit (record t { queued = some next; status = calculating }))

abbrev retry_desired : Option DesiredStage → Coordinator → Coordinator
retry_desired none s = s
retry_desired (some d) s = if s.reload_required then start_reload s else start d s

unfoldable pub retry : Coordinator → Coordinator
retry s =
    if s.disposed || (not (is_settled s.in_flight) || not (is_error s.status))
    then s
    else retry_desired s.desired s

abbrev restage_desired : Option DesiredStage → Coordinator → Coordinator × Bool
restage_desired none s = (s, false)
restage_desired (some d) s =
    (start d (record s { desired_generation = s.desired_generation + 1 }), true)

unfoldable pub restage : Coordinator → Coordinator × Bool
restage s =
    if s.disposed || (not (is_settled s.in_flight) || not (is_ready s.status))
    then (s, false)
    else restage_desired s.desired s

unfoldable pub dispose : Coordinator → Coordinator
dispose s = record s { disposed = true; queued = none }

-- What the transport answers; an answer that fits no request in flight cannot come.
pub data Answer : Type 0 where
  stage_resolved : StagedCategorization → Answer
  reload_resolved : Option Latest → Answer
  rejected : Failure → Answer

unfoldable pub answer_in : InFlight → Answer → Coordinator → Coordinator
answer_in (staging requested) (stage_resolved r) s = on_staged requested r s
answer_in (staging requested) (rejected f) s = on_stage_failed requested f s
answer_in reloading (reload_resolved l) s = on_reloaded l s
answer_in reloading (rejected f) s = settle_error f true s
answer_in _ _ s = s

unfoldable pub answer : Answer → Coordinator → Coordinator
unfolding answer_in
answer a s = if s.disposed then s else answer_in s.in_flight a s

pub data Event : Type 0 where
  updates : DesiredStage → Event
  retries restages disposes : Event
  answers : Answer → Event

unfoldable pub step : Event → Coordinator → Coordinator
step (updates d) s = update d s
step retries s = retry s
step restages s = (restage s).0
step disposes s = dispose s
step (answers a) s = answer a s

unfoldable pub run : List Event → Coordinator → Coordinator
unfolding step
run [] s = s
run (e ∷ es) s = run es (step e s)
