-- ===== src/Lib.antt =====
-- simple-up-manage: a gateway that sends each request of a client to one of several upstream
-- keys. This library models how it decides which key a request may use, in the Go code under
-- backend/internal, and proves what the decision relies on.
--
-- The parts, with the files that model them:
--   * domain/scheduler.go, domain/routing.go, domain/models.go (Domain, Domain/Settings,
--     Domain/Routing, Domain/Provider): the scheduler's settings with their defaults and Normalize,
--     the rows that routing health keeps, and providers and keys with the protocols and the models
--     they support. Domain/Settings/Normal has the ranges that Normalize establishes.
--   * routinghealth/store.go (Circuit/Row, Circuit/Store, Circuit/Admission, Circuit/Observe): a
--     circuit for each key and for each request dimension. AdmitRequest is `admit_request`,
--     ReleaseOnOutput is `release_on_output`, Observe is `observe`; one round of their loops over
--     the two gates is `admit_gate`, `release_gate` and `observe_row`; open, closeCircuit,
--     trackTimestamp, circuitThreshold and sustainedFailure are functions on one row.
--   * Slot of routinghealth/store.go and routinghealth/recovery.go (Circuit/Budget, Circuit/Check):
--     the shared allowances `slot` and `recovery_slot`, and the synthetic checks ClaimCheck and
--     FinishCheck as `claim_check` and `finish_check`.
--   * metrics/window.go (Metrics/Window): the observations in memory and their summaries.
--   * picker/band.go, picker.go, score.go, stable.go and routing_health.go (Picker/Runtime,
--     Picker/Candidates, Picker/Selection): the counters of running attempts with tryAcquire as
--     `acquire`, the inspection of a key as `inspect`, and the choices among the candidates. The
--     state of bound sessions is in Picker/State with CommitSuccess as `commit_success`, and
--     Picker/Stable has the decision of stableDecision as `stable_decide`.
--   * ops/routegroup.go with MatchModel of ops/ops.go (Routes/Groups, Routes/Models): the keys that a
--     client's route groups allow, resolveGroupAllowKeys as `resolve_group_allow_keys`, and the models
--     that it sees, ListVisibleModels as `list_visible_models`.
--   * handler/gateway.go, the failover of Gateway.proxy (Gateway/Rounds, Gateway/Failover,
--     Gateway/Setup): `open_request` and `begin_proxy` are what stands before the loop, `pass` the
--     loop's body, `forward_tries` the retries on one key, and `proxy_loop` the loop. A pass gives
--     the calls it makes, as a list of events, and either the loop's next variables or the end of the
--     request. An event `forwarded` is a call of forwardOnce, which may return before it sends.
--   * the same file's classes of failures (Gateway/Outcome, with upstream/errors.go in
--     Gateway/Errors): classifyHTTPFailure is `classify_http_failure`, and what finishRouting tells
--     the circuit breaker is `routing_outcome`, an Outcome of Circuit/Observe.
--   * the same file's hold of a stream's first bytes (Gateway/Hold): holdBuffer, releaseHeld and the
--     steps of copySSE around them; Gateway/Hold/Interleaved has the runs with the timer in between.
--   * handler/recovery_wait.go (Gateway/Wait): recoveryWaitScopes as `recovery_wait_scopes`, and
--     waitRecoveryChange as `wait_recovery_change`, over what its polls read.
--   * authConsumer, rpmLimiter and concLimiter of handler/gateway.go (Gateway/Limits).
--   * dashboard/billing_rules.go and catalog.go (Dashboard/Rules, Dashboard/Cost): what a request
--     costs, ComputeCost as `compute_cost`, TimeMultiplier as `time_multiplier`.
--   * dashboard/settle.go with models.go and money.go (Dashboard/Money, Facts, Aggregate, Settle,
--     Queue): the events of requests and attempts, process as `process`, which writes facts and the
--     sums of minutes and days, applyRequestAgg as `apply_request_agg`, and the queue in front of it
--     with drainFinal as `drain_final`. `process_all` of Dashboard/Ledger is a run of events.
--   * ops/intel_quarantine.go (Ops/Quarantine): the keys that are taken out of a group when their
--     intelligence tests fail, applyIntelOutcome as `apply_intel_outcome`.
--   * upstream/sse_reader.go (Upstream/Sse): the reader of event streams, Read as `read`.
-- The proofs on the circuits are in Circuit/Invariant, Transitions, Failures, Tables, Exclusion,
-- Leases, Claims, Sound, Reach, Replay, Allowance and Release; those on the metrics in Metrics/Bounds; those
-- on the picker in Picker/Capacity, Recount, Eligible, Choices and Sessions; those on route groups in
-- Routes/Allowed, Patterns and Models/Visible; those on the gateway in Gateway/Returns, Sends,
-- Admissions, Excluded, Answers, Confined, Request, Rates, Slots, Auth, Classes, Hold/Interleaved and
-- Wait/Polls; those on the dashboard in Dashboard/Sums, Balance, Reasons, Ledger, Counted, Attested,
-- Drained and Cost/Writes; those on the quarantine in Ops/Cases, Sentence, Backoffs and Returns; those
-- on the reader in Upstream/Sse/Lines, Errors and Chunks. Tests applies the theorems to concrete data.
--
-- The parts interact through values: the picker asks routing health for admissions and budgets and
-- the metrics for windows; the route groups give the gateway the keys it may hand to the picker; the
-- gateway asks routing health to admit each chosen key and reports how it went to Observe. At the end
-- of a request the dashboard gets events; the quarantine changes the groups that are resolved.
--
-- How the state is modelled: a table of the database is the list of its rows, and an operation that
-- runs in a transaction is a function from the tables to the new tables or an error, which keeps
-- nothing. The database serializes the transactions, and a mutex the calls on the counters, so an
-- interleaving is a sequence of operations: Circuit/Reach and Picker/Capacity have the step
-- relations. A time is a number of nanoseconds and 0 is the zero time; every clock reading is an
-- argument, and no order among them is assumed. A uint64 generation wraps at 2 ^ 64. An `int` that
-- is never negative is a natural number, and where the source subtracts, the result is not negative
-- or is written out. The failover loop
-- is a recursion over the answers of the outside, one for each pass; Gateway/Returns bounds the
-- passes by the attempts, the allowed keys, the last resort and the pauses that fit into 300 seconds,
-- so that many answers are enough. drainFinal is a recursion over the clocks of its passes, and
-- Dashboard/Drained shows that as many passes as queued events are enough. All other loops are structural recursions over finite lists.
--
-- What is an argument: float64 with its operations (`Float64` of Prelude/Float), the digest of a
-- dimension, random tokens, the JSON reader and Unicode lower case (`TextLib`), the affinity hash, the
-- rounding and conversion of floats (`Rounding`), time zones (`Zone`), bytes.TrimSpace and json.Valid
-- (`ByteLib`), the slices of the buffered reader,
-- what redis answers, and for the failover loop the picker's choice and the outcome of forwarding, of
-- which Gateway/Returns names what is relied on: a choice is allowed and not excluded.
--
-- Not modelled: failures of the database, the redis copies, evaluate with the sticky sessions and the
-- recovery of candidates, forwardOnce with the events of streams, the shared poller of gates, the
-- publishing of catalogs and the parsing of billing rules, the reports of the dashboard, and the rest
-- of the server (administration, probes and recovery workers, upstream clients, self update, catalog,
-- jobs, archive, configuration), which read and write through HTTP and files.
pub mod Prelude
pub mod Domain
pub mod Circuit
pub mod Metrics
pub mod Picker
pub mod Routes
pub mod Gateway
pub mod Dashboard
pub mod Ops
pub mod Upstream
pub mod Tests
