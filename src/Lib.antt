-- ===== src/Lib.antt =====
-- Verification of the DOLPHIN backend: venture screening with accounts, opportunities, jobs and
-- automated recommendations (backend/app).
--
-- A request comes in through the middleware (rate limits), gets a principal from its token, and its
-- handler works on one database session. Handlers of opportunities create, update and decide rows
-- and start jobs; a worker takes a job, scores the company and writes a recommendation.
--
-- Base: shared names. Base/Rows has the queries and updates on a table, a list of rows:
--   `find_where` for the first row of a `select`, `update_where` for an `update` and for assignments
--   to a loaded row, `count_where` for a count, with its laws in Base/Counts. Base/Text has the
--   texts' functions.
-- Types, Errors: backend/app/types.py, backend/app/errors.py.
-- Session: backend/app/db/session.py. `Tx S A` is code that works on a session over the database
--   `S`; `request` runs it on a fresh session and gives the result and what was committed. So a
--   handler that raises behind a write and before its commit leaves the database as it was. `Keeps`
--   says that code keeps a property of the session, on a return and on a raise.
-- Auth: backend/app/services/auth.py, backend/app/deps.py, backend/app/routers/auth.py and
--   backend/app/routers/orgs.py. Model has the rows and the libraries; Tokens, Accounts, Mail, Slugs,
--   Signup and Orgs have the operations, and Access the principals; Rotation, Csrf, Lockout, Resets,
--   Permissions, Membership, Invitations, Termination and Uniqueness prove.
-- Scoring: backend/app/services/score/recommendation.py and backend/app/services/score/thesis.py.
-- Records: the rows of backend/app/db/models.py, with a child each for screening, for documents and
--   for people.
-- Extraction: the deck of an application. Deck is backend/app/services/parse/deck.py, Claims is
--   backend/app/services/extraction.py, and Ingest is `_parse_and_extract` of
--   backend/app/services/pipeline.py; Provenance and Reparse prove.
-- Pipeline: `process_job` of backend/app/services/pipeline.py. Axes has `_score_axes` and
--   `_thesis_fit`, Screen what the job reads and writes, and Process its stages in order; Bounds,
--   Verdict, Kept, Stages, Invariant, Versions, Ending, Finish and Rerun
--   prove.
-- Opportunities: backend/app/services/opportunities.py and the handlers of
--   backend/app/routers/opportunities.py, under their names, Cards with what is read; Deciding,
--   Versions, Liveness, Paging, Complete, Ranking and Current prove.
-- Jobs: backend/app/services/jobs.py, `_start_job`, backend/app/routers/jobs.py and the frame of
--   `process_job` in backend/app/services/pipeline.py; Idempotency, Lifecycle, Cancellation and
--   Reaper prove.
-- Sourcing: backend/app/services/ingestion.py, backend/app/services/founders.py and
--   `_process_harvest` of backend/app/services/pipeline.py. Names, People, Companies, Events and
--   Signals resolve a signal, Applicants has the founder of an application, Items and Harvest the
--   harvest, and Erasure is `gdpr_erase` of backend/app/routers/operations.py; Frame, Kept, Sources,
--   Invariants, Known and Unknown prove.
-- Applications: backend/app/services/applications.py, backend/app/routers/applications.py and the
--   documents of backend/app/services/object_store.py. Upload, Submit and Handlers have the
--   operations; Kept, Arrival, Limits, Trace, Replay and Answers prove.
-- RateLimit: `RateLimitMiddleware` of backend/app/middleware.py; Window and Admission prove.
-- Theses: backend/app/routers/theses.py and `validate_ranges` of backend/app/schemas/thesis.py;
--   Ordered, Default and Ranges prove.
-- Outreach: the outreach handlers of backend/app/routers/operations.py; Sending proves.
-- Memo: backend/app/services/memo.py and backend/app/routers/memos.py; Compose has the composition,
--   Handlers the handlers; Sections, Gaps, Editing and Reading prove.
-- Llm: `LLMGateway.complete` of backend/app/services/llm/gateway.py; Fallback proves.
-- Tests: concrete data, and each theorem at work on it.
--
-- Ids are numbers; instants are whole seconds; scores, confidences and progress are whole hundredths
-- or thousandths, as the database columns hold them. The clock and the ids that a request draws are
-- its arguments. The loops recurse on a list, or on the number of attempts that are left, but for the
-- loop over slugs in `signup`: it runs on fuel, two more than there are organisations, which is enough
-- since no organisation has two slugs. A query for one row takes the first in the table's order.
--
-- Parameters stand for what is not in the repository: SHA-256, Argon2, PyJWT, the case folding,
-- Unicode normalisation and title case of texts, the texts of numbers, the rounding of a quotient to
-- two decimals (it moves the quotient by less than one hundredth), the providers of language models,
-- the name and text of an exception, what pypdf and python-pptx make of a file, the object store, the
-- search of a pattern, the reading of a decimal number, the host of a URL, the last part of a path,
-- the check of a URL (it asks the DNS, which is taken to answer two requests alike), the order of the
-- axes in the database and what a connector finds; and the tests of `recommend` on the mean of the
-- confidences and on the spread of the scores, which the source computes in floating point. The trust in a claim and the score of a founder (floating-point exponentials), `slugify` and
-- the coding of cursors are parameters too; `process_job` takes its harvest as an argument, which
-- `_process_harvest` fills.
--
-- Of the constraints of the database those are modelled that an operation of this development can
-- meet by itself: the unique numbers of a job's steps (`commit_step`) and the unique versions of an
-- opportunity's memos (`patch_memo`). A refused flush leaves a session that takes no commit.
--
-- Not modelled: other errors of the database (a lost connection, a constraint that only two sessions
-- at once can meet), a URL of a harvested item that `urlsplit` refuses (a harvest would break off in
-- that item), the text "None" that an edit of a memo by a principal without a user leaves, two
-- sessions that interleave within a request, responses, cookies, logs and metrics, since they belong
-- to SQLAlchemy and FastAPI; founder.py and trust.py of backend/app/services/score, which compute
-- with floating point; the full-text search and most lists of entities, which only read and rank by
-- such numbers; and the start-up of the application.
pub mod Base
pub mod Types
pub mod Errors
pub mod Session
pub mod Auth
pub mod Scoring
pub mod Records
pub mod Opportunities
pub mod Jobs
pub mod RateLimit
pub mod Theses
pub mod Outreach
pub mod Memo
pub mod Llm
pub mod Extraction
pub mod Sourcing
pub mod Applications
pub mod Pipeline
pub mod Tests
