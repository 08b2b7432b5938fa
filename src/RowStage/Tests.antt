-- ===== src/RowStage/Tests.antt =====
-- client/src/pages/queue/rowStageCoordinator.ts: runs of the coordinator of one row.
use recat_qbo.Prelude.Shared.{
  ◌≡◌, refl, ◌≢◌, List, [], ◌∷◌, none, some, String, arith, ℕ, ◌+◌, ◌≤◌, true, false, length,
}
use recat_qbo.Prelude.Int.{pos}
use recat_qbo.RowStage.Desired.{
  not_applicable, DesiredLine, DesiredStage, same_desired, same_desired_iff,
}
use recat_qbo.RowStage.State.{
  calculating, ready, error, StagedCategorization, Failure, staging, stage, Coordinator,
  create_row_stage_coordinator, requires_reload,
}
use recat_qbo.RowStage.Machine.{
  start, start_reload, update, on_stage_failed, on_reloaded, Answer, stage_resolved,
  reload_resolved, rejected, answer, Event, updates, run,
}
use recat_qbo.RowStage.Invariant.{IsValid, coordinator-IsValid}
use recat_qbo.RowStage.Recovery.{answer_all, Answerable, recovery_bounded, latest_wins}

abbrev line : String → DesiredLine
line category = record {
  gross_cents = pos 1_250;
  category_qbo_id = category;
  tax_code_qbo_id = none;
  memo = none;
  tag_ids = [];
}

abbrev meals : DesiredStage
meals = record { tax_calculation = not_applicable; lines = line "60" ∷ []; tag_ids = [] }

abbrev travel : DesiredStage
travel = record { tax_calculation = not_applicable; lines = line "61" ∷ []; tag_ids = [] }

abbrev at_revision : ℕ → StagedCategorization
at_revision n = record { revision = n; preview = "" }

abbrev stale : Failure
stale = record { is_object = true; code = some "STALE_REVISION"; status = some 409; message = none }

abbrev typed : List Event
typed = updates meals ∷ updates travel ∷ []

abbrev typing : Coordinator
typing = run typed (create_row_stage_coordinator 3)

coordinator-IsValid_example : IsValid typing
coordinator-IsValid_example = coordinator-IsValid 3 typed

-- The second update waits for the first staging.
typing_queues :
    (typing.in_flight ≡ staging meals)
    × (typing.queued ≡ some travel)
    × (typing.desired ≡ some travel)
    × (typing.disposed ≡ false)
unfolding run update start same_desired
typing_queues = (refl, refl, refl, refl)

meals-ne-travel : meals ≢ travel
meals-ne-travel e = ground (arith, same_desired_iff meals travel, differ)
  where
    differ : same_desired meals travel ≡ false
    differ = unfold same_desired in refl

latest_wins_example :
    let t = answer (stage_resolved (at_revision 4)) typing in
    let u = answer (stage_resolved (at_revision 5)) t in
    (t.requests ≡ stage 4 travel ∷ typing.requests)
    × (t.status ≡ calculating)
    × (u.status ≡ ready)
    × (u.staged ≡ some travel)
    × (u.result ≡ some (at_revision 5))
    × (u.requests ≡ t.requests)
latest_wins_example =
    latest_wins typing meals travel (at_revision 4) (at_revision 5) typing_queues.3
      coordinator-IsValid_example typing_queues.0 typing_queues.2 meals-ne-travel

abbrev troubles : List Answer
troubles =
    rejected stale
    ∷ reload_resolved (some (record { revision = 8; is_mutable = true }))
    ∷ rejected stale
    ∷ []

troubles_fit : Answerable troubles typing
unfolding run update start start_reload same_desired answer on_stage_failed on_reloaded
    requires_reload
troubles_fit = (tt, (tt, (tt, tt)))

recovery_bounded_example :
    (length troubles ≤ 4)
    × (length (answer_all troubles typing).requests ≤ length typing.requests + 3)
recovery_bounded_example =
    recovery_bounded troubles typing typing_queues.3 coordinator-IsValid_example troubles_fit

-- A second stale answer in one generation is shown as an error.
troubles_end : (answer_all troubles typing).status ≡ error
unfolding run update start start_reload same_desired answer on_stage_failed on_reloaded
    requires_reload
troubles_end = refl
