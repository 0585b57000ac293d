-- ===== src/Lib.antt =====
-- The worker of the simulated law practice: what its spending, its throttles, its editor store and its
-- assessments promise, as theorems about functions that follow the JavaScript method by method.
--
-- Parts. The worker answers chat turns and one-shot assessments with paid model calls; a Durable
-- Object keeps their budget. A second Durable Object keeps the suggestions that editors make to the
-- site, an admin decides on them, a daemon applies accepted ones in leased batches, and a worker takes
-- authorized releases to production under a fencing token. A memo is graded by one model or by a panel
-- of three on the caller's own keys; every scorecard is checked against the memo before the panel
-- aggregates them, and a debrief is redacted before it is sent. The hours log is a page of its own.
--
-- Budget/Cost is app/worker/src/cost.js. Token counts to cents.
-- Budget/Store, Turns, OneShot and Mints are app/worker/src/budget-core.js. `Store` is its SQL tables; each
--   method is a function from the day, its arguments and the store to its answer and the store. The
--   day of `_today()` is a number, so that days are ordered. The two SQL triggers are
--   `insert_reservation` and `insert_settlement`. Budget/Turns/* prove the laws of chat turns,
--   Budget/OneShot/Laws those of one-shot calls, Budget/Mints/Limits the throttles, and Budget/Cover and
--   Budget/Trace follow the money through any sequence of calls.
-- Editor/Status is app/worker/src/editor-status.js. The status machine of a suggestion.
-- Editor/Rows, Suggest, Decide and Batches are app/worker/src/editor-store-core.js. The tables `suggestions`,
--   `suggest_counts` and `apply_batches` and the methods `suggest`, `decide`, `markDrift`, `reanchor`,
--   `claimBatch`, `finalize`, `reconcile` and `purge`. Editor/Rows/Evolution is what the status writer keeps,
--   Editor/Decide/Groups and Editor/Batches/Whole treat groups, Editor/Batches/Finalize is what a batch
--   reports, and Editor/Trace runs any sequence of these methods. Editor/Requests is the tables
--   `revert_requests` and `scoped_requests` of the same file, and Editor/Heartbeat its beacon row.
-- Release is the production releases of app/worker/src/editor-store-core.js: Release/Claim and
--   Release/Lease the methods that hand out and renew leases, Release/Transition the steps that a worker
--   reports; Release/Sound is the history that a release has behind it, Release/Trace runs any sequence of
--   these methods, and Release/Fence is the fencing token.
-- Panel/Median and Panel/Aggregate are app/worker/src/panel.js: the lower median and the aggregation of
--   several graders' scorecards.
-- Assessment/Config is app/worker/src/assessment-config.js, the thresholds of a memo assessment.
--   Assessment/Memo is `validateMemoScorecard` of app/worker/src/validate.js, and Assessment/Graded
--   follows the scorecards that it accepts into the panel. Assessment/Debrief is `redactDebriefOracle`
--   of the same file.
-- Upstream and Upstream/Panel are app/worker/src/byok.js: whose key answers a request, and the graders of
--   a memo panel.
-- Hours is app/hours/hours-core.js, the learner's log: Hours/Csv its export and parser, Hours/Merge the
--   merge of an import.
--
-- SQL tables are lists of keyed rows (Prelude/Table). A method runs to its end before the next one
-- starts, as a Durable Object's does. Loops are structural, so no fuel is used anywhere. Numbers are
-- exact natural numbers, where the source has doubles below 2^53; a JavaScript value of unknown type
-- is a `Value` (Prelude/Value), and one whose properties are read is a `Json` (Prelude/Json), where
-- JavaScript's `String` of a value that is no text is an argument.
--
-- Outside the model: the payload fingerprint, the fencing digests, the verdicts of the review ledger,
-- `JSON.stringify` and SQLite's choice among rows of equal times, which are arguments; the production
-- frontier that `claimBatch` also returns; the read lists, the canonical mutations of a batch, production
-- reviews with what `finalize` records in them, the preparation of a release and the ledger backfill; the
-- validation of an hours log, which reads dates and doubles; HTTP, streaming, the model providers and the browser pages.
pub mod Prelude
pub mod Assessment
pub mod Budget
pub mod Editor
pub mod Hours
pub mod Panel
pub mod Release
pub mod Upstream
