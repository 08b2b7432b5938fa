-- ===== src/RowStage/State.antt =====
-- client/src/pages/queue/rowStageCoordinator.ts: the state of a coordinator, what it publishes and asks
-- for, and the failures it tells apart.
use recat_qbo.Prelude.Shared.{
  ℕ, Bool, true, false, ◌&&◌, ◌||◌, not, List, [], ◌∷◌, Option, none, some, String, leb, ◌==◌,
  str_eq, if◌then◌else◌,
}
use recat_qbo.RowStage.Desired.{DesiredStage}

pub data RowStageStatus : Type 0 where
  idle calculating ready error conflict : RowStageStatus

-- `StagedCategorization`: the coordinator reads its revision alone.
pub record StagedCategorization : Type 0 where
  pub revision : ℕ
  pub preview : String

pub record RowStageView : Type 0 where
  pub status : RowStageStatus
  pub desired : Option DesiredStage
  pub staged : Option DesiredStage
  pub result : Option StagedCategorization
  pub message : Option String

-- What a promise was rejected with: its code and its status, if those are a text and an integer, and
-- its message, if it is an `Error`.
pub record Failure : Type 0 where
  pub is_object : Bool
  pub code : Option String
  pub status : Option ℕ
  pub message : Option String

-- `TransactionDto`, as far as it is read, with the transport's verdict on it.
pub record Latest : Type 0 where
  pub revision : ℕ
  pub is_mutable : Bool

pub data InFlight : Type 0 where
  settled : InFlight
  staging : DesiredStage → InFlight
  reloading : InFlight

pub data Request : Type 0 where
  stage : ℕ → DesiredStage → Request
  reload : Request

pub record Coordinator : Type 0 where
  pub canonical_revision : ℕ
  pub status : RowStageStatus
  pub desired : Option DesiredStage
  pub staged : Option DesiredStage
  pub result : Option StagedCategorization
  pub message : Option String
  pub queued : Option DesiredStage
  pub in_flight : InFlight
  pub disposed : Bool
  pub desired_generation : ℕ
  pub recovery_attempted : Option ℕ
  pub reload_required : Bool
  pub published : List RowStageView
  pub requests : List Request

abbrev pub create_row_stage_coordinator : ℕ → Coordinator
create_row_stage_coordinator revision = record {
  canonical_revision = revision;
  status = idle;
  desired = none;
  staged = none;
  result = none;
  message = none;
  queued = none;
  in_flight = settled;
  disposed = false;
  desired_generation = 0;
  recovery_attempted = none;
  reload_required = false;
  published = [];
  requests = [];
}

-- `messageOf`
abbrev pub message_of : Failure → String
message_of f = elim f.message [
  | none ↦ "Could not calculate tax."
  | some m ↦ if str_eq m "" then "Could not calculate tax." else m
]

abbrev pub is_code : String → Option String → Bool
is_code name none = false
is_code name (some c) = str_eq c name

abbrev pub is_retryable_status : Option ℕ → Bool
is_retryable_status none = true
is_retryable_status (some s) = s == 408 || (leb 500 s && leb s 599)

-- `requiresReload`: the server's state may differ from what the client knows.
unfoldable pub requires_reload : Failure → Bool
requires_reload f =
    not f.is_object
    || (is_code "STALE_REVISION" f.code
        || (is_code "MUTATION_BLOCKED" f.code || is_retryable_status f.status))

abbrev pub view_of : Coordinator → RowStageView
view_of s = record {
  status = s.status;
  desired = s.desired;
  staged = s.staged;
  result = s.result;
  message = s.message;
}

abbrev pub emit : Coordinator → Coordinator
emit s = if s.disposed then s else record s { published = view_of s ∷ s.published }

abbrev pub ask : Request → Coordinator → Coordinator
ask r s = if s.disposed then s else record s { requests = r ∷ s.requests }
