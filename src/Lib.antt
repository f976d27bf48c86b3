-- ===== src/Lib.antt =====
-- The deal screening agent: uploads of deal documents are stored, a background worker extracts
-- fields from them, a scoring engine weighs the fields against a tenant's criteria, and an analyst
-- decides. Paths below are from the repository's root.
--
-- Parts and files.
-- - Prelude: lists as tables (`select` and `first` are queries, `update` is UPDATE … WHERE), values
--   of dynamic type (Json), dicts (Dict), results with do blocks (Results), and `Exec`, code that
--   changes a state and may raise, with `transaction` for `session.begin()` and for get_db of
--   src/app/database.py.
-- - Float: the floating-point numbers as an interface with the laws of IEEE 754 that are used;
--   Float/Fixed is a concrete value of it, in which the examples run.
-- - Models: src/app/models/*.py, and models.py and types.py of src/app/background_jobs.
-- - Scoring: src/app/services/criteria_evaluator.py (Evaluator) and the engine of
--   scoring_service.py (Compute, Rationale): _compute_score is `compute_score`, and so on.
-- - Jobs: src/app/background_jobs. Registry, Backoff, Queue, Worker and Admin have the functions of
--   the files of these names; Jobs/System is the table of jobs as a transition system, and
--   Jobs/System/Phases the queue that it refines.
-- - Deals: the tables (Db) and the services on them: Ingestion, Extraction, Scores (the service in
--   scoring_service.py), Upload, Listing and Decisions (src/app/api/deals.py), Configs
--   (src/app/api/criteria.py), and Handlers, the job of src/app/background_jobs/handlers.py that
--   calls them.
--   Ingestion enqueues in the table of Jobs; Configs re-scores through Scores. Deals/Audit follows
--   the audit trail through any sequence of the services' calls.
-- - Auth: src/app/auth. Tables, Tokens, Service, and Routes (routes.py and middleware.py) are the
--   code; Login and Access are about sessions and their tokens, and Sessions, Keeping and History
--   follow the code through any sequence of requests.
-- - Pipeline: from a stored file to its fields. Pdf is src/app/services/pdf_parser.py,
--   and beside it Pii is pii_scrubber.py, Llm is llm_client.py with extraction_prompt.py; Document
--   composes them as the `try` block of extract_deal does (`read_document`).
-- - Validation: src/app/input_validation. Files, Pdfs and Requests are file_validator.py,
--   pdf_validator.py and middleware.py; Deals/Upload is the route that calls them.
-- - Secrets: src/app/secrets_config. Redaction, Providers, Client and Bootstrap have the functions
--   of the files of these names; a round of `_refresh_loop` is `refresh_round`.
-- - Observability: src/app/observability. Scrubber, Logger and Context are scrubber.py, logger.py
--   and middleware.py.
-- - RateLimiter: src/app/rate_limiter. Bucket is bucket.py, Store is InMemoryStore of store.py,
--   Middleware has the groups of config.py and the checks of `dispatch` in middleware.py, Defaults
--   the limits of config.py, and Clients is ip_parser.py.
-- - Examples: concrete values for the parameters, and the theorems applied to them.
--
-- How the code is read. Ids, tenants, hashes and addresses of workers are only compared and are
-- natural numbers; so are times (microseconds in the queue, seconds in Auth). A query by a unique
-- key or with a limit of one reads the first row that fits. An ORM object is a snapshot, and what
-- the code assigns is written to the rows with its id. The texts of f-strings are data. Log lines
-- are left out. Random draws, new ids and the time are arguments. A request is one step: two requests
-- that run at once (two refreshes with one token, no row of which is locked) are not represented.
--
-- Parameters. `Text` (Python's text and JSON functions), `Files` (paths and the content hash),
-- `Crypto` and `Jwt` (argon2, hashlib, PyJWT), `PdfLibrary` and `Reader` (pypdf), `Addresses`
-- (ipaddress), and records of the operations on texts stand for libraries; for
-- the texts sent to the language model, `Regex` is Python's `re` on the patterns of pii_scrubber.py,
-- and the patterns of the log scrubber are functions on texts. What the language model, a provider of secrets or a
-- handler that the worker calls does is a function of what the code gives it.
--
-- A value of the model's answer that is no text is stored as the text that `column_text` gives; that
-- a driver may refuse it is not modelled.
--
-- Bounds. All loops of the code run over lists and are structural recursion, or over a range, with
-- the rounds left as the argument: the model is asked in three rounds. The endless loops of the
-- worker and of the refresher are lists of rounds of any length. The laws of Float on
-- integers and their quotients are those of numbers below 2 ^ 50, which a double holds exactly; NaN,
-- infinities and overflows are left out. A delay of the backoff is computed exactly and rounded down
-- to microseconds.
--
-- Not modelled: sleeps and tasks, the write of uploads to disk, the configuration records, key
-- management (kms.py has no implemented operation), failing stores of the rate limiter, and
-- the frontend.
mod Prelude
pub mod Float
pub mod Models
pub mod Scoring
pub mod Jobs
pub mod Deals
pub mod Pipeline
pub mod Validation
pub mod Secrets
pub mod Observability
pub mod Auth
pub mod RateLimiter
pub mod Examples
