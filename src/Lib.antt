-- ===== src/Lib.antt =====
-- Situation Studio: editors check out situations, save revisions, have them reviewed by agents and
-- publish them. One PostgreSQL database is shared by the web application (apps/web), which runs the
-- editors' commands, the review worker (apps/review-worker), which claims queued reviews one at a time
-- and reports on their stages, and the publisher (apps/publisher), which claims publication jobs,
-- promotes their release in the database of Leadership, verifies it and restores the previous release
-- where that fails. A transaction is modelled as a function on the tables, and a run as a sequence of
-- transactions. That is what the isolation level Serializable gives: the editors' commands, the worker's
-- claim and the publisher's longer transactions have it. The publisher's other transactions begin with
-- an update of its job under its claim, which keeps the row locked. The worker's reports
-- (review.ts:1305, 1385, 1539, 1627, 1870 and 2148) have neither: they run at the default level and read
-- the job before they write it by its id. Each is modelled twice: alone, as its check and its writes
-- (`commit_success`, `record_failure`, `record_application_failure`, `schedule_candidate_repair`,
-- `start_stage`, `complete_review`), and as its writes without the check (`write_success`,
-- `settle_failure`, `settle_application_failure`, `write_repair`, `write_start`, `write_completion`),
-- which is what System's steps are made of, for a check may be out of date when its writes come.
--
-- Files, and the code that they model:
--   Store           packages/db/prisma/schema.prisma: the rows, with the columns that the modelled
--                   code reads or writes; Store/Keys: the partial unique indexes of the migrations.
--   Worker          apps/review-worker/src/review.ts. Worker/Lane: `claimNextReview` (the focused job,
--                   the next queued one, the lease); Worker/Steps: `readyDependents` and what a worker
--                   holds; Worker/Success: `renewReviewLease`, `recordSuccess`; Worker/Failing:
--                   `recordFailure`; Worker/Application: `recordApplicationFailure`; Worker/Repair:
--                   `scheduleCandidateRepair`; Worker/Running: the transactions that start a stage
--                   (`processClaimedReview`) and complete a review (`materializeProposal`);
--                   Worker/Failure: `failureClass`, `failureReasonCode`, `retryDelayMs`,
--                   `leaseDurationMs`. The other modules below Worker prove.
--   Workflow        apps/web/src/server/workflows/situations.ts. Workflow/Guards: the `assert…` checks
--                   and lookups; Workflow/Review: `queueReview`, `cancelReview`; Workflow/Retry:
--                   `retryReview`; Workflow/Checkin: `checkInSituation`, `forceCheckInSituation`;
--                   Workflow/Checkout: `checkoutSituation`, `startOverFromProduction` and
--                   `createDraftFromProduction`; Workflow/Revision: `createRevision`.
--                   Workflow/Keeping, Releasing, Opening, Queueing, Revoking and
--                   Resuming prove.
--   System          the worker's and the editors' writes as a step relation, and its runs;
--                   `readyDependents`, which asks for no claim and runs outside a transaction, is a
--                   step for each of its writes. `createSituation` and the decisions on proposals are
--                   no steps of it.
--   Auth            apps/web/src/server/auth: Auth/Throttle: throttle.ts; Auth/Sessions: sessions.ts.
--   Health          apps/web/src/server/health: Health/Backup: publication-backup-policy.ts and
--                   `backupReadiness` of process-status.ts.
--   Publisher       apps/publisher/src/index.ts. Publisher/Claim: `claimPublicationJob`;
--                   Publisher/Lease: the writes under a claim; Publisher/Events, Attempts:
--                   `appendPublicationEvent`, `startPublicationAttempt`; Publisher/Outcome:
--                   `terminalizePublicationOutcome`, `beginAutomaticRestoration`;
--                   Publisher/Identity, Promotion: Leadership's pointer, `reconcileAmbiguousPromotion`
--                   and `insertAndPromote`; Publisher/Probing: the `converged…` probes;
--                   Publisher/Finalize: `finalizeSuccess`; Publisher/Steps, Course and Process:
--                   `processPublicationJob`, up to the promotion, inside its `try`, and with its
--                   `catch`; Publisher/Recovery: `reconcilePublicationRecovery`. Publisher/Action:
--                   what a run acts on and what the outside answers to each of its steps;
--                   Publisher/Lifecycle: the abstract life of a publication; Publisher/Hoare: what an
--                   action guarantees. Publisher/Writing and the modules below Publisher/Run prove.
--   Adapters        packages/ai-adapters/src/index.ts: `runWithFallback` and `appendBounded`.
--   Domain          packages/domain/src/index.ts: Domain/Sections: `resolveSituationSectionTarget`, on the
--                   lines of a section.
--   Web             apps/web/src/review-status-client.ts: the reducer of a review's live status.
--   Prelude         Boolean tests on the native numbers, tables as lists with `findFirst`, `count` and
--                   `updateMany`, and results of code that throws.
--   Samples, Tests  small databases, and the theorems at them.
--
-- Ids, digests and times in milliseconds are natural numbers; a difference of times is written with
-- both terms on their own sides, so that nothing is cut off at zero. A table is a list; a write of one
-- row names it by its key. New ids and claim tokens are arguments. A transaction that throws leaves the
-- database as it was and gives an error; `P2002` is the error of a unique index, which is tested for
-- the row that is written. All definitions are structurally recursive: there is no fuel; a probe is made
-- as often as the source's own bound on its attempts says.
--
-- A publisher's run is a function of its tables, of the variables that its `catch` clause reads, and of
-- a World: for the n-th step, the time, what other processes did to Studio's tables before it, whether a
-- statement failed, whether a commit landed although its answer was lost, and what the probes answered.
-- The theorems about runs hold for every World whose other processes keep the tables in order: they may
-- move publications on in their lives and add new ones behind those that are there.
--
-- Parameters: the engine of regular expressions (`Matcher`, `Patterns`), digests (`Crypto`,
-- `context_hash`), the content checks of a situation's body (`Outside`, `Save`), the production tables
-- (`Production`), JavaScript's `trim` (`TextOperations`), the patterns of headings and labels (`Markdown`), the check of a password, Leadership's stored
-- procedures, and the assembly of a candidate from the persisted rows (`World`).
--
-- Not modelled: the agents' calls and prompts, the content of candidates, the loop over a review's stages
-- and the findings and changes of a proposal; the publisher's assembly
-- of candidates, its artifact rows and the parsing of what the running application serves, the timer of
-- its lease's heartbeat, and the fault hooks of its tests; `saveDraft` and `createSituation` around
-- `createRevision`, publication requests and proposals; of packages/domain all but the stages, the failure
-- codes and the regions of a suggestion's targets; the processes of the provider adapters and the deterministic provider; the
-- bridge to Leadership; and the pages but for the live status of a review.
pub mod Prelude
pub mod Store
pub mod Worker
pub mod Workflow
pub mod System
pub mod Auth
pub mod Health
pub mod Publisher
pub mod Domain
pub mod Adapters
pub mod Web
pub mod Samples
mod Tests
