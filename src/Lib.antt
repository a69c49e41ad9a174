-- ===== src/Lib.antt =====
-- BurnLens is a local proxy that meters the cost of requests to language models, holds them to
-- budgets, and decides what autonomous agents may do. This library models its decision logic and
-- proves what makes it correct. Paths are from the repository's root.
--
-- Parts, and the files that model them:
--
--   Prelude   Boolean tests, lists, dictionaries, and the loop that keeps the best element.
--   Float     Python's float as a parameter: a type with the operations that the program calls.
--             Float/Micro has fixed-point numbers on which witnesses and tests run.
--   Json      a parsed JSON value.
--   Cost      burnlens/cost. Cost/Pricing: the pricing entries, `_apply_scheduled`, `apply_tiered` and
--             `get_model_pricing`. Cost/Calculator: `resolve_pricing`, `pricing_class_for` and
--             `calculate_cost` with the set of unpriced models as its state. Cost/Usage: the three
--             `extract_usage_*` functions.
--   Budget    burnlens/budget_engine.py. Budget/Estimate: `estimate_request_tokens`. Budget/Policy:
--             `_get_period_start`, `_matches_policy` and `_calculate_initial_spend`. Budget/Engine:
--             `check_and_reserve` and `reconcile` over the table of counters, which is a function
--             from the policy's name and the period's start; their runs are a step relation
--             (Budget/Engine/Runs). It asks Cost for prices.
--   Governance  burnlens/governance. Governance/Models: the records. Governance/Storage: the rules,
--             their upsert and their visibility. Governance/Engine: `evaluate_action`, split into the
--             candidates of the rules, their sort, and the effect of the enforcement mode.
--   Trust     burnlens/trust. Trust/Calculator: `calculate_score`. Trust/Engine: the profiles and
--             `check_autonomy_eligibility`.
--   Savings   burnlens/verification: baselines, `record_baseline` and `verify_savings`.
--   Autonomy  burnlens/autonomy: the tables, and `execute_optimization_cycle`, which calls Trust for
--             the policy check and the trust update, and Savings for the verdict.
--   Execution  burnlens/execution: tokens, requests and their checks (Execution/Models), the tables
--             (Execution/Storage), the texts for the git provider (Execution/Messages), and
--             `AssistedExecutionService` with the adapter's guards (Execution/Service).
--   Guardrails  burnlens/guardrails: `GuardrailDetector.evaluate` (Guardrails/Detector), the tables
--             (Guardrails/Storage), and `evaluate_runtime_event` and `resume_task`
--             (Guardrails/Engine), with what can happen to the tables as a step relation
--             (Guardrails/Engine/History).
--   Wal       burnlens/storage/wal.py: the file and `read_events` (Wal/File), `recover_wal`,
--             `repair_wal` and `replay_dlq`, the persistence worker (Wal/Worker), the dictionary and
--             the line of a request (Wal/Record), and the start and the end of a process in
--             burnlens/proxy/server.py (Wal/Process), with its life as a step relation (Wal/Steps).
--   Proxy     burnlens/virtual_keys.py (Proxy/Keys), burnlens/key_budget.py and the customer budgets
--             (Proxy/Budgets), the auth headers (Proxy/Headers), and `handle_request` of
--             burnlens/proxy/interceptor.py up to the headers that it forwards: the virtual key
--             (Proxy/KeyGate) and the rest (Proxy/Gate); and burnlens/proxy/router.py, which may replace
--             the model (Proxy/Router). It asks Cost whether a model is priced.
--   RateLimit  burnlens_cloud/rate_limit.py: `SlidingWindowLimiter.check` and the middleware.
--
-- State is passed explicitly: a handler takes the tables and returns its result with the tables after
-- it. A handler that raises an exception returns it as a value, with the tables as they stand then. A
-- Budget handler that leaves its connection without a commit returns the counters unchanged.
--
-- Every loop of the modelled code runs over a finite list, so all recursion is structural and no fuel
-- is needed. Token counts are natural numbers; `max(0, a - b)` is subtraction on them.
--
-- Parameters stand for what is not in the repository: float arithmetic, `fnmatch`, the case functions
-- of texts, `str` of a list element, SHA-256 and HMAC with the texts that they are taken of, the
-- client of the git provider, SQLite's `SUM`, its order of rows with one version and its exceptions,
-- the monotonic clock, `json` and `uuid7`. Hypotheses on them are named records of laws
-- (Budget/Engine/Runs, Trust/Calculator/Levels, Wal/Record/Line). The steps of the log and its worker
-- are modelled for any conversion of a record to a line; Wal/Record models the one that the code has.
--
-- Budgets: a reservation and a reconciliation are each one step. The lock of `BudgetEngine`, which is
-- made for every request, is not modelled, nor are two requests that interleave within a step.
--
-- A shutdown is one step, so a request that is logged while the worker stops is not modelled.
--
-- Not modelled: the reading of files, HTTP, the SQL text itself, instants that are only stored, the
-- ids of audit rows, messages for display, which are constructors with the values they quote,
-- the cache and the streams of the proxy, detection, analysis, and the cloud service but its
-- rate limiter.
pub mod Prelude
pub mod Float
pub mod Json
pub mod Cost
pub mod Budget
pub mod Governance
pub mod Trust
pub mod Savings
pub mod Autonomy
pub mod Execution
pub mod Guardrails
pub mod Wal
pub mod Proxy
pub mod RateLimit
