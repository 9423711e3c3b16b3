-- ===== src/Lib.antt =====
-- A model of ModelHub, a platform that trains, serves, evaluates, gates and releases models that
-- write SQL, with theorems on its gateway, its comparator of query results, its SQL sandbox and
-- evaluation, its training data and guards, its night queue, its admission gates and its releases.
--
-- How the parts interact. The gateway authenticates a request, counts it against its tenant's rate,
-- routes it to a model by the length of its schema, asks the model's circuit breaker, calls the
-- model, charges the tenant's daily quota and bills. The comparator judges the result of a model's
-- SQL against the gold result, and the evaluation's records, which keep its verdicts, become
-- metrics. The admission gates judge manifest, metrics, records and adversarial samples of a
-- candidate; the registry keeps the verdict and the status that follows from it. A canary rollout
-- sends a share of traffic to a deployed version, and a cycle samples that traffic, judges its
-- health, and advances the rollout or rolls it back. The evaluation executes a model's SQL and the
-- gold SQL in a sandbox, the gold through a cache, compares the two, and keeps its records in a file
-- from which a later run goes on. The records of sampled predictions become preference pairs and
-- rewards for training, whose runs are guarded by preflights, budgets and checkpoints; the night
-- queue runs such tasks under watchdogs. Files are written by the common atomic operations.
--
-- Which file models which part:
--   Prelude          lists, counts, dictionaries, fractions, outcomes of code that may raise
--   Common           src/modelhub/common: errors.py in Errors, run_manifest.py in Manifest,
--                    capability.py in Capability; atomic_io.py in AtomicIo, over a store of files
--                    and directories with the trace of its states
--   Gateway/Breaker  src/modelhub/gateway/circuit_breaker.py: a method is the function of its name
--                    from the object's fields to its result and the fields after
--   Gateway/Redis    what rate_limit.py and quota.py ask of a Redis server
--   Gateway/RateLimit, Quota, Auth, Routing, Billing   the files of src/modelhub/gateway so named
--   Gateway/App      src/modelhub/gateway/app.py: Types has its records, Handler the function
--                    `completions` with its helpers, the other children what is proved of them
--   Compare          src/modelhub/compare: result_types.py in Types, config.py and the comparison
--                    of single values in Values, the rest of comparator.py in Comparator
--   Eval             src/modelhub/eval: records.py in Records, metrics.py in Metrics, runner.py in
--                    Runner and its predictions file in RecordFile, gold_cache.py in GoldCache, the guard of report.py in Readiness
--   Data             src/modelhub/data: schema.py in Schema, hashing.py in Hashing, dedup.py in
--                    Dedup, splits.py and quick_eval.py in Splits, gold_validation.py,
--                    safety_adversarial.py and pipeline.py in Pipeline
--   SqlExec          src/modelhub/sqlexec: outcomes.py in Outcomes, the classification of
--                    exceptions of backends.py in Backends, sandbox.py and pool.py in Sandbox
--   Train            src/modelhub/train: dpo.py in Dpo; grpo in Grpo, where Steps has
--                    step_diagnostics.py and Guards the other guards; checkpoint_state.py in
--                    Checkpoints; time_budget.py, loss_guard.py, smoke_test.py and callbacks.py
--                    in TimeBudget; dry_run.py, gdn_lora_coverage.py, sft_config.py and runner.py
--                    in Preflight
--   Scripts          scripts/night_queue.py in NightQueue: tasks, queue and watchdog in the file
--                    itself, the run of the queue in Run
--   Gate             src/modelhub/gate: types.py in Types, the gates that judge one run in Checks,
--                    regression_gate.py in Regression, admission.py in Admission
--   Release          src/modelhub/release: registry.py, canary.py, rollback.py with its records in
--                    Health, online_sampling.py in Sampling, orchestrator.py
--   Tests            inputs on which the theorems with hypotheses apply
--
-- State is passed explicitly: an operation takes the state and returns its result with the state
-- after. An exception is a value of `Result`; an operation that raises before it writes has no
-- state in its error. Texts of messages are left out, and what they report is kept as data.
--
-- Numbers. Times and latencies are whole clock ticks, and `now - t >= d` is `t + d <= now`. Rates,
-- thresholds and prices are exact fractions; a quotient of counts and a decimal threshold compare
-- in double precision as the fractions do while the product of the denominators is below 2 ^ 52.
-- Limits of rate and quota and sizes of a configuration are naturals; the limits of the regression
-- and safety gates, token counts and the wanted sample size are integers.
--
-- There is no fuel: every loop of the modelled code runs over a list, and is recursion on it.
--
-- Parameters: the Redis server, with the documented behaviour of its commands as a hypothesis where
-- it is used; hash functions; the clocks, as the stream of their readings, and the date; the random
-- generator; the model clients; the arithmetic of doubles in the comparator; which calls of the
-- operating system fail; what becomes of a worker process and what the database does in it; how the
-- code and the smoke test of a task in the night queue end, if they do; the JSON of the gold cache,
-- with the law that a payload whose cells it keeps is written and read back, and that of a record,
-- with the same as a hypothesis; the product of a size and a double in the memory estimate; the
-- functions on texts of the Python library.
--
-- What is not modelled: failures of the Redis connection and counters past 2 ^ 63 - 1; a breaker
-- object that two model ids share; the latencies in the metrics; the registry's directory beyond
-- the entries it holds; two writers of one file at a time; failures of a write of the night queue
-- and of the predictions file; capacity planning, whose doubles decide its results; and the parts
-- that are I/O, or call a library throughout: HTTP serving, the database drivers, the trainers, load
-- tests, downloads, normalisation of data sets, probes of the hardware.
pub mod Prelude
pub mod Common
pub mod Gateway
pub mod Compare
pub mod Eval
pub mod Data
pub mod Gate
pub mod Release
pub mod Train
pub mod SqlExec
pub mod Scripts
pub mod Tests
