-- ===== src/Lib.antt =====
-- A verification library for Excubitor, which watches, starts and repairs the services of a machine
-- (src/index.ts and below; the tests, the frontend and the scripts are not modelled).
--
-- The parts of the program and their files:
--
-- * Launch/Order, with src/launch/order.ts: `startTier`, `expandWithDependencies`, `orderForStart` and
--   `orderForStop` (start_tier, expand_with_dependencies, order_for_start, order_for_stop). The
--   orchestrator expands a selection of services and starts tier after tier in this order. `visit` takes
--   a bound on its depth, one more than the number of catalog entries: the codes on the stack are distinct
--   catalog codes, the innermost excepted.
-- * Launch/Orchestrator, with src/launch/orchestrator.ts and src/launch/corpus-prefs.ts: `startSelection`
--   (start_selection) and `stopSelection`, which go through that order and control one service after the
--   other. The answers of the shutdown gate and of the control are arguments, by the number of the call.
-- * Log, with src/log/bus.ts and src/log/ring-buffer.ts: Circular is `CircularBuffer`, RingBuffer is
--   `LogRingBuffer` (`append`, `recent`, `recentForService`, `configure`, `clear`), Level is `inferLevel`.
--   Every line that a service writes goes through `append`.
-- * Scanner/HealthState, with src/scanner/health-state.ts: a scan probes all services, and
--   `syncHealthyServiceStates` (sync_healthy_service_states) writes their states and the history of
--   liveness. The database is a record of lists; `markServiceHealth` is mark_service_health, and
--   `shouldRecordLiveness` decides which probes leave a row.
-- * Scanner/Downtime, with src/scanner/downtime.ts: `computeDowntimeSummary` (compute_downtime_summary)
--   reads that history. One round of the loop is before_window or in_window.
-- * Scanner/DowntimeAlert, with src/scanner/downtime-alert.ts: `processDowntimeAlerts`
--   (process_downtime_alerts) gets the observations of the scan and calls a webhook. Its table, with one
--   row for each service, is an association list, and the calls of the webhook are kept beside it.
-- * LocalControl/LineFramer, with src/local-control/line-framer.ts: `NewlineJsonFramer.push` (push), by which
--   the supervisor's server and client cut the text of a pipe into lines. The loop takes the
--   length of the text as fuel; each round takes one newline out of the text.
-- * LocalControl/AdoptedProcessReaper, with src/local-control/adopted-process-reaper.ts: `runOnce`
--   (run_once), with which the supervisor restarts the services whose process has gone.
-- * LocalControl/BackendReadiness, with src/local-control/backend-readiness-decision.ts and
--   `waitForHealth` of src/local-control/excubitor-backend.ts: `readinessDecision` (readiness_decision) and
--   the loop that asks it (wait_for_health), on a list of polls.
-- * Netwatch/BlockRegistry and Netwatch/BlockService, with src/netwatch/block-registry.ts and
--   src/netwatch/block-service.ts: the list of blocked addresses and programs, and the requests that
--   change it and write it to a file (add, remove and expire, with commit).
-- * Netwatch/DnsAnswerCache, with src/netwatch/dns-answer-cache.ts: `DnsAnswerCache`, the names under which
--   an address was looked up (record_answer, names_for).
-- * Dnsfilter, with src/dnsfilter: Name, Message and Upstream are dns-message.ts, `readName` (read_name),
--   `parseQuery`, `buildResponse` and `parseUpstreamResponse`, on lists of bytes. The loop of `readName` takes
--   fuel; each round raises the bytes of the name or the hops, which are bounded. DomainRules is
--   domain-rules.ts: `DomainSet.match` and `decide`. QueryLog is query-log.ts. Resolver is resolver.ts: `handle` is
--   arrive up to its await and settle from there on, and Resolver/InFlight has the packets that arrive
--   and settle in any order. RuleRegistry and RuleService are rule-registry.ts and rule-service.ts, and
--   CurrentBook is `currentBook` of runtime.ts, which keeps the sets of domains until the revision of the
--   registry or the settings change; its clock may step back. A read of bytes outside of the buffer is an
--   outcome of its own (misread), and so is one of a number (none).
-- * Federation/NonceCache, with src/federation/nonce-cache.ts: `createNonceCache`, which refuses a request
--   of another node that comes again (remember).
-- * Shared/MapLimit, with src/shared/map-limit.ts: `mapWithLimit`, by which the scans call a function for
--   many services with a bound on the calls at one time. A run of a worker between two awaits is work,
--   and the calls settle in any order (settle).
-- * Prelude has what these share: tests, lists, maps, sets and sorting on the native numbers.
--
-- Numbers are natural numbers. Times are whole milliseconds since the epoch; where the source compares a
-- difference of times, the smaller side is moved over, so that no difference is cut at 0. A `Map` is an
-- association list in the order of insertion, and `sort` a stable insertion sort. An `await` on something
-- outside is an argument that gives the answer. A `throw` is a value.
--
-- Arguments of the model: the probes, the webhook, the random identifiers, the process manager's answers,
-- the success of a write to disk, the results of the DNS server, `toLowerCase` in src/netwatch and on a
-- domain, the check of a client's address, the report of the preflight, and the outcome of
-- `validateBlockTarget`. No hypothesis is made about any of them but where a theorem names one.
--
-- Not modelled: HTTP routers and servers, the database schema and its queries elsewhere, processes, Docker,
-- the sockets of the DNS filter, Cloudflare, secrets and vaults, updates and releases, the other checks of federation, the
-- frontend and the scripts. They call outside services for the most part, or are parts of their own.
pub mod Dnsfilter
pub mod Federation
pub mod Launch
pub mod LocalControl
pub mod Log
pub mod Netwatch
pub mod Prelude
pub mod Scanner
pub mod Shared
