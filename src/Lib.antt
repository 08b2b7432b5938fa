-- ===== src/Lib.antt =====
-- Recat QBO: a server and a web client that recategorise the transactions of QuickBooks Online.
--
-- The program. The server (server/src) keeps staged categorizations in a database, writes them to
-- QuickBooks, verifies what it reads back, and serves a web client (client/src) and agents that
-- speak MCP. Every write is an attempt: a row that is prepared, claimed, sent once, and settled by what
-- is read back; a transfer between two banks is an operation of two such legs. Before the server writes
-- an entity it takes a lease on it, so that no other process writes the same entity; the callers of MCP
-- and the local login are limited in rate; a write over MCP needs a permit; an autopilot may apply
-- decisions by itself and is paused when its evidence turns bad. The client keeps, for each row of
-- its queue, a coordinator that stages the user's choice and recovers from stale revisions.
--
-- The files.
-- - Prelude: the names all files share. Prelude/Tests has Boolean tests on native numbers and texts,
--   Prelude/Lists has lists, Prelude/Int has integers over the native numbers, and Prelude/Assoc a
--   map in insertion order, as JavaScript's `Map` is. Prelude/Texts has what is asked of a text, and
--   Prelude/Splits the case splits on a test or an option that the proofs share.
-- - Lease: server/src/services/entityLease.ts. The table of leases is a list of rows, a transaction
--   gives new rows or an error (`committed`, `failed`). `acquire_canonical`, `renew_canonical`,
--   `renew_entity_lease`, `release_entity_lease` and `fence_entity_lease_ownership` are the functions
--   of these names; Lease/Keys has `canonicalEntityLeaseKeys`, Lease/Table the lemmas on rows,
--   Lease/Holding each operation in terms of who holds an entity, Lease/Exclusion a run of operations
--   of many owners, Lease/Scope `acquireEntityLeases` and `withEntityLease`, Lease/Many what takes
--   several entities, `withEntityLeases` among it.
-- - RowStage: client/src/pages/queue/rowStageCoordinator.ts. The closure's variables are the record
--   `Coordinator` (RowStage/State), its methods and the settling of its promises are functions
--   (RowStage/Machine), and `step` runs one `Event`. RowStage/Desired has `sameDesired`,
--   RowStage/Invariant the well-formed states, RowStage/Budget the requests that answers alone can
--   lead to, and RowStage/Recovery the runs of such answers.
-- - Limits: server/src/mcp/rateLimit.ts (Limits/RateLimiter), server/src/services/localLoginLimiter.ts
--   (Limits/LocalLogin), and server/src/services/agent/liveWriteLimit.ts (Limits/WritePermit), each with
--   its invariant (Bounds, Buckets, Budget) and what its callers see (Window, Lockout).
-- - Autopilot: server/src/services/agent. Autopilot/LivePause is livePause.ts: the pause codes with their
--   order, `persistStrongestLivePause` and `safeLivePauseState` on the settings of a company;
--   Autopilot/Breaker is circuitBreaker.ts: `validEvidence`, `selectBreaker`, `evaluateCircuitBreakers`
--   and `pauseLiveModeManually`, the evidence being an argument.
-- - Verifier: server/src/services/agent/core/verifier.ts. `verifyAgentDecision` is `verify_agent_decision`,
--   a chain of checks in Verifier/Verify, on the data of Verifier/Decision, each of which gives its
--   first refusal; what they ask is in Verifier/Checks, Verifier/Citations and Verifier/Sound.
--   Verifier/Review has `parseAgentLiveReview`.
-- - Tax: server/src/services/tax/verify.ts with the line tests of server/src/lib/qbo/purchaseTax.ts.
--   Tax/Purchase and Tax/Deposit verify what is read back after a write, Tax/Prepared chooses between
--   them, Tax/Matching has their search for expected lines, Tax/Hashes their fingerprints.
--   Of purchaseTax.ts, Tax/Allocation has `allocateExcludedTax`, the cents of a group's tax on its lines
--   (Magnitudes and Exact prove its sum), and Tax/Inverse `exactMonotoneInverse`, the search for a net
--   amount (Found), with the totals that it inverts (Nets).
-- - Gate: server/src/lib/qbo/getGate.ts. `Step` is what can happen at a gate: a turn of `withQboGetGate`
--   starts, ends or gives up, and `noteQboRateLimit` is called; Gate/Delay is about its runs.
-- - Writeback: server/src/services/writeback.ts. `Entity` is a transaction with the rows of its attempts,
--   Writeback/Settle has the transactions that settle an attempt,
--   Writeback/Commit `commitStagedCategorization`, its guarded live form and
--   `reconcileMutationAttempt`; Writeback/Table has the invariant of the table, which the two unique
--   indexes of server/prisma/schema.prisma give, Writeback/Rows what each write to a row keeps,
--   Writeback/Finished, Kept and Reconciled what the calls keep, and Writeback/Blocked the runs of calls.
-- - Transfer/Execution: server/src/services/transferExecution.ts. `Operation` is an operation with its two
--   legs; Transitions has its transactions on the database, Reconcile `reconcileLeg`, Legs
--   `executePreparedLeg`, and Commit `commitTransfer`. Steps is the life of a leg as a state machine, which
--   Refines, Guards, Sends, Unsent and Stopped show the code to follow; Invariant, Committed and Calls are
--   about what any number of calls leaves, Healthy about a reconciliation that can read, and Projected about
--   `projectTransferOperation`.
-- - Transfer/Candidates: server/src/services/transferCandidates.ts. Its heap of banks and its queues are in
--   the file of this name, Pairing has `pairTransfers`; Heap, Queues and Taken are about `takeFuture`, and
--   Sorted, Sound, Symmetric, Opposite and Matched about the pairs.
-- The parts meet where a part takes what another gives: the breaker's pause is `pause_config` of
-- Autopilot/LivePause; the lease table is what `withEntityLease` hands to a callback; the write-back and
-- the transfers run under leases, so that one call after another is a run of them; and each of the two
-- takes the verification of a result, which Tax is about, as a parameter.
--
-- Conventions. A clock is an argument of each call, a random token or an id too, and so is what the
-- database, a client, a guard or a fence answers. Numbers are native naturals where the code keeps them
-- non-negative, and `Prelude.Int.ℤ` where it does not. Code that throws returns an `Option` or a result
-- type with the code's error. Loops are recursions over the list they visit, so that they are total, but
-- for four on fuel. The two loops of the heap of Transfer/Candidates run on the index or the length, which
-- bound their turns; the loop of `takeFuture` runs on the entries of the heap and the rows of its banks
-- together, of which each turn uses up one; and `exactMonotoneInverse` on two turns more than its target,
-- each of which takes a number out of its range.
--
-- Not modelled. HTTP routes, the database's own engine, the QuickBooks client's network code, the
-- web client's views, and the receipt extractor: they are input and output around the parts above. Of the
-- write-back, the checks of the evidence that an attempt stores, the audit rows, the guarded
-- reconciliation and the older direct posting are left out, and with them the undo; of the transfers,
-- the evidence checks, the audit rows, the retry of an operation and its preparation. In the pairing the
-- collation of `localeCompare` is a parameter, and amounts are whole cents. Of the
-- tax calculation, the reading of the reference data and the choice of an inverse allocation are left
-- out. Attachments, receipts, suggestions and tax plans are left out: they rest on many tables at once.
pub mod Prelude
pub mod Limits
pub mod Lease
pub mod RowStage
pub mod Autopilot
pub mod Verifier
pub mod Tax
pub mod Transfer
pub mod Writeback
pub mod Gate
