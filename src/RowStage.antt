-- ===== src/RowStage.antt =====
-- client/src/pages/queue/rowStageCoordinator.ts: the coordinator of one row of the queue, as a state
-- machine. An event is a call of one of its methods, or the settling of the promise in flight. The
-- views that it publishes and the requests that it makes of its transport are two lists, newest
-- first. `publish` is taken not to call back into the coordinator, and `snapshot`, which copies, is
-- the identity on values.
pub mod State
pub mod Machine
pub mod Desired
pub mod Invariant
pub mod Budget
pub mod Recovery
mod Tests
