-- ===== src/Lib.antt =====
-- A verification library for the Python services of OpenOntology: the command worker
-- (services/command-worker/command_worker.py), which closes the loop from an ontology mutation to
-- issued commands; the GraphRAG interceptor (services/graphrag-interceptor/graphrag_interceptor.py),
-- which attributes a fault and plans a command for it; and the licence middleware, the quota and
-- the plan cache of the AI interceptor (services/ai-interceptor/app).
--
-- The GraphRAG interceptor checks a payload, lets a deterministic kernel attribute the fault and
-- decide what it would do, asks one agent for a verdict and one for a plan, corrects the plan, and
-- caches the command by tenant and event. An agent is either a set of rules or a language model.
--
-- The worker reads records of `ontology.mutations`. It authorises each against the subscription
-- of a licence key, validates it, asks the AI interceptor for a plan, translates the plan into
-- commands and publishes them to `ontology.commands`. A record that can never succeed goes to the
-- dead-letter topic; a failure that the record did not cause rewinds the consumer to it.
--
-- Prelude          Python's lists, texts, results and logs over the native numbers
-- Clock            durations in microseconds and random draws
-- OrderedDict      `collections.OrderedDict`
-- Json             JSON values; a Python dict is `Fields`
-- Settings         `Settings`: the fields that the modelled code reads, and its derived lists
-- License          plan names, `Subscription`, `SubscriptionRegistry`, `LicenseCache` (`resolve`,
--                  `invalidate`) and `LicenseGatekeeper` (`extract_key`, `authorize`)
-- Retry            `retry_async`
-- RateGate         `RateGate`: `retune`, `apply_cooldown`, `_pace`
-- Mutation         the fields of `MutationEnvelope` that the worker and the stub read
-- Command          the vocabulary, the plan, `CommandPayload` and `translate_plan`
-- Metrics          the counters of `Metrics`
-- Interceptor      `parse_retry_after`, `_failure`, and the client with `ActionRouter.route`
-- World            what one consumer can change, and the answers of what it calls
-- Publisher        `CommandPublisher.publish` and `dead_letter`
-- Pipeline         `ClosurePipeline.close_loop`
-- Worker           `CommandWorker._handle`, `_rewind` and the loop of `run`, for one partition
-- Stub             `StubInterceptor`, the offline planner
-- Preflight        `InterceptorPreflight` and `run_preflight_until_ready`
-- Quota            `SlidingWindowLimiter` of app/security.py
-- Middleware       `LicenseKeyMiddleware` of app/security.py with its licences and their registry
-- PlanCache        `PlanCache` of app/idempotency.py
-- Prescription     `StrategicActionPlan` and `IsolationStep` of graphrag_interceptor.py
-- Safety           `_enforce_safety_invariants` of graphrag_interceptor.py, one stage for each of
--                  its seven corrections
-- Topology         channel bands and `resolve_crdt_presence` of graphrag_interceptor.py
-- Graph            the inbound contract of graphrag_interceptor.py: node identifiers, telemetry,
--                  `_cross_check_topology`; the table of limits and `evaluate_channels`
-- Analysis         `_node_is_faulted` and `analyse_topology`
-- Manual           the manual, `search` and `_retrieve`
-- Engine           the contracts of the agents' answers, `_invoke`, `run` of
--                  `MultiAgentGraphEngine`, and `DeterministicReasoningClient`
-- Service          `verify_enterprise_subscription`, `build_command_response`, `CommandCache` and
--                  `intercept`
-- Tests            concrete runs
--
-- State is a record that each operation takes and gives back; an exception is a `raise`. What the
-- code calls in other packages is a field of `World.Environment`: the n-th call of the
-- interceptor, the n-th send and the n-th draw have the n-th answer of a function that is
-- arbitrary, so a theorem holds for every behaviour of the network, of the broker and of
-- `random`. A send without an acknowledgement may have reached the log.
--
-- Numbers are natural numbers. A duration is a number of microseconds, rounded down where the
-- source has a float; an instant is counted on one clock from an epoch. Texts are lists of code
-- points; upper and lower case, blanks and `isalnum` are those of ASCII. Readings,
-- trusts and scores are in millionths, and not negative. `retry_async` and `_invoke` count their
-- remaining attempts down, so the recursion is the loop of the source and needs no other fuel. The
-- other loops are recursions on their lists.
--
-- What is not modelled: logging, the Prometheus collectors but for the middleware's, and the
-- FastAPI surface; reading a registry from a file; the start and the stop of the producer and of the consumer, and cancellation; the
-- locks, since each operation under a lock is one step; several partitions of one consumer. The
-- contract of `MutationEnvelope` is that of pydantic, given as `validate_mutation`. Of the
-- ai-interceptor, the Redis stores, the planners and the calls of language models are left out.
-- Of the graphrag-interceptor, the texts of verdicts and plans (rationales, evidence, filled
-- templates), the hashed embedding, the corpus, the cloud agents and the other routes; two requests
-- at one moment are not modelled, a request is one step. The answers of an agent are a function of
-- the attempt that is arbitrary.
-- The operator console and the resolution engine (in Go) are not modelled.
pub mod Prelude
pub mod OrderedDict
pub mod Json
pub mod License
pub mod Settings
pub mod Clock
pub mod Retry
pub mod RateGate
pub mod Mutation
pub mod Command
pub mod Metrics
pub mod Interceptor
pub mod World
pub mod Publisher
pub mod Pipeline
pub mod Worker
pub mod Quota
pub mod Stub
pub mod Topology
pub mod Graph
pub mod Analysis
pub mod Engine
pub mod Service
pub mod Manual
pub mod Middleware
pub mod Safety
pub mod Preflight
pub mod Prescription
pub mod PlanCache
mod Tests
