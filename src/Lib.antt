-- ===== src/Lib.antt =====
-- NexusInfra: a panel that runs game servers on nodes, with a billing service beside it. The
-- services talk over RabbitMQ; each keeps its own store.
--
-- Prelude: what the other files share: tests on numbers, lists, maps, JavaScript strings.
--
-- Shared (shared/src). Shared/Outbox is the publish outbox of outbox.ts: its queue, its counters
-- and what the broker accepted; `publish`, `flush` and `enqueue` are the methods, `drain` the loop
-- of `flush`. The broker is a function of the number of calls made before. Order is about uses
-- that run one after another, Queue its lemmas on the queue, Delivery about one flush and about a
-- publish that overlaps it. Shared/Edition is edition.ts. Shared/AgentLink is agentLink.ts: the
-- frames, a session with its table of streams and the streams themselves, by handles, so that a
-- stream that the session forgot keeps its state; what a session hands to the socket waits in
-- `sent` until it is delivered. Codec is about the frames, Ids about the ids of streams, Answers
-- about what two ends answer each other, Effects, Demux, Ended, Others and Reading about one
-- received frame, Delivery about what a stream reads.
--
-- Billing (services/billing-bridge/src). Types, Pricing, Wallet, Tracking, Cost, Standing and
-- Calendar are the pure files: types.ts, pricing.ts with quotas.ts, wallet.ts, tracking.ts, the
-- pure part of cycle.ts, standing.ts. Repository is `InMemoryRepository` of repository.ts, a
-- record of its maps and arrays; an object that a method mutates in an array is replaced at its
-- place. Service is service.ts, with plans.ts in Service/PlanInput and `runBillingCycle` in
-- Service/Cycle: an operation is an action on a world of the store, the ids drawn and the events
-- handed to the broker, and returns or throws. Service/Along says once how each operation is built
-- from the store's methods; the modules called Steps apply it to every operation. Operation puts
-- the operations together: histories of bus messages, routes and timers, one operation after
-- another.
--
-- Orchestrator (services/orchestrator/src). Access is access.ts, Transfer transfer.ts, Memory
-- memory.ts, LoginLimiter loginLimiter.ts, Reconcile reconcile.ts, Retention retention.ts, Ports
-- portPool.ts, DeploymentQuery deploymentQuery.ts, Capacity capacity.ts, Entitlements the rules of
-- entitlements.ts. Transfer asks Access which roles can be granted, Entitlements asks Capacity
-- what a server was promised. Store is `InMemoryRepository` of repository.ts, one record of its
-- maps (Store/Rows, with the rows of types.ts) and a module for each group of its methods; what
-- the store only passes on is JSON text there. Lifecycle is lifecycle.ts with suspend.ts,
-- NodeRegistry nodeRegistry.ts, TransferRoute the transfer route of api.ts: they read and write
-- the Store, and the route plans by Transfer. AccessGuard is accessGuard.ts and TeamRoutes
-- teams.ts, the guards and the routes behind them over the Store. Cron is cron.ts, and Scheduler
-- scheduler.ts over the Store, with the actions that it has begun. LinkHost and LinkRegistry are
-- agentLink.ts, the registry over the sessions of Shared/AgentLink.
--
-- ControlRoom (services/control-room/src). Monitor is monitor.ts.
--
-- Numbers. Fractions, in Billing, Capacity and Entitlements, are floating point: the type
-- `Numbers` and its operations are a parameter, and no law of arithmetic is assumed. Times are
-- epoch milliseconds, natural numbers; an ISO string is its instant. A difference that the source
-- cuts at 0 stops at 0 here; any other is compared without being formed. Megabytes are whole. In
-- Cron whole numbers are doubles, rounded when they do not fit into 53 bits. Of a stream of an
-- agent link, `pushed` holds what was handed to `push`; Node's buffer leaves an empty chunk out.
--
-- Fuel. `month_from` walks the calendar from 1970 with a round for each day up to the instant; a
-- month is longer than a day, so the walk ends at the instant's month. `number_text` writes 21
-- digits, as many as JavaScript writes without an exponent. `values_from` of Cron has a round for
-- each number of the range, enough with a step of 1 or more where no number is rounded; where
-- rounding stops the count, the loop of the source does not end; `unit_of` doubles a unit 971
-- times, up to that of the largest doubles; `date_from` of Scheduler walks as `month_from`. The
-- search for a stream id has a round for each open stream and one more. Everything else recurses
-- on its data.
--
-- Parameters: random ids, the broker's answers, how `Date` prints, `toLowerCase` and
-- `localeCompare`, and Node's conversion of texts to UTF-8 and back, and what the injected actions
-- of a schedule do to the store and whether they throw.
--
-- Not modelled: the Prisma stores, the HTTP routes but those of teams and the transfer of a
-- server, the bus, the node agent, the gateway, the dashboard, log lines, two operations of
-- billing that interleave at an await, and the parsing of memory sizes, port ranges, retention
-- policies and query strings.
mod Prelude
pub mod Shared
pub mod Billing
pub mod Orchestrator
pub mod ControlRoom
