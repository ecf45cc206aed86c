-- ===== src/Lib.antt =====
-- Verification of CasperVPN's core: the money path of the billing service, the control plane's services
-- on their stores, the orchestrator's policy and its reconcile loop, the subscription service's cache
-- and personalisation, and telemetry's recommendations, store and deduplication of field signals.
--
-- The program's parts. Billing (services/billing) takes crypto payments: gateways report events by
-- webhook or poll, the payment processor applies each event to an invoice, the activator credits the
-- invoice to a subscription through a durable outbox of absolute states, which it sends to the control
-- plane, a recovery pass finishes what a crash left behind, a poller drives all of this and expires
-- unpaid invoices, and a sweeper moves subscriptions whose time has run out. All of them share one
-- store. The orchestrator (services/orchestrator) plans what to do to the fleet's nodes from
-- telemetry's recommendations, the registry and its own probes, and carries the plan out. The control
-- plane (services/control-plane) keeps the registry of nodes, the users with their secrets and
-- subscriptions, and each user's set of nodes; it applies billing's states, resolves tokens, lets
-- nodes serve only by a guarded activation, lowers nodes on field signals, and rebuilds the sets of a
-- changed node's users by a queue of jobs. The subscription service keeps rendered configurations in a
-- cache that a blocked node invalidates, and narrows each bundle to the nodes and the personal
-- credentials that one client may see. Telemetry drops repeated signals, stores the rest, and
-- recommends to the orchestrator which nodes to block.
--
-- The files.
--   Base, Map: shared helpers; Go's maps as association lists behind their laws.
--   Billing/Model: services/billing/internal/model/model.go.
--   Billing/Store: services/billing/internal/store/memory.go, a method per function: State (the
--     fields), Invoices, Settlements (claims, recovery leases, poll leases, expiry), Intents, Credits
--     (credits, the outbox, schedules). Calls has the methods that change the store as data, and `run`
--     of a list of them; Reach, Keyed, Claims, Leases and Sweep have what calls keep.
--   Billing/Ledger: the abstract credit ledger and its moves; Refinement (each call is a move), Keys,
--     Safety, Runs and Final (what holds after any calls).
--   Billing/Environment: what is outside, the control plane, the gateways, the clock, the context and
--     the source of ids, as one state and functions on it.
--   Billing/Money: services/billing/internal/money/money.go.
--   Billing/Activator: services/billing/internal/subscription/activator.go, `CreditInvoice` and
--     `Deliver`, with plan/catalog.go's `Get`.
--   Billing/Payment: services/billing/internal/payment: Processor (processor.go), Recovery (recovery.go
--     and `Reconcile`), Poller (poller.go).
--   Billing/Expiry: services/billing/internal/expiry/sweeper.go.
--   ControlPlane/Contracts: packages/contracts, the types and their validation.
--   ControlPlane/Action: the monad of handlers on a state that may fail, and what such handlers keep.
--   ControlPlane/Store: services/control-plane/internal/adapters/memory, a method per function: State
--     (the fields of all stores as one record, and domain/), Nodes, Users (with sets), Subscriptions,
--     AllowList (and the activator), Operator. Children hold what they promise.
--   ControlPlane/Service: services/control-plane/internal/usecase: Environment (what is outside),
--     Nodes, Signals, Users, Subscriptions (with launch.go), Bundles (with allowlist.go and
--     adapters/rebuild/queue.go's worker). Moves and the children hold the proofs.
--   Orchestrator/Policy: services/orchestrator/internal/policy/policy.go; Safety, Budget.
--   Orchestrator/Ports, Orchestrator/Reconcile: services/orchestrator/internal/ports/ports.go and
--     internal/reconcile/reconcile.go, one cycle; Silence, Drain, Requests and Budget.
--   Subscription/Cache: services/subscription/internal/cache/cache.go; Lookup, Freshness.
--   Subscription/Personalize: services/subscription/internal/personalize, `Filter` and `PublicBundle`;
--     Diverse, Families, Public.
--   Telemetry/Dedup: services/telemetry/internal/ingest/dedup.go.
--   Telemetry/Series: services/telemetry/internal/store/memory.go; Ordered.
--   Telemetry/Recommend: services/telemetry/internal/aggregate/recommend.go; Probed, and Fleet (with
--     the orchestrator's policy as its reader).
--   Billing/Tests, ControlPlane/Tests, Orchestrator/Tests and CycleTests, Subscription/Tests,
--     Telemetry/Tests: concrete data, and each theorem applied to it.
--
-- How the code is modelled. A method that holds a mutex is a function on the state, so a list of calls
-- is any interleaving of any number of goroutines, each of which may stop after any call. A handler
-- runs its calls and the environment's in the order of the code; between two of them the environment
-- may change its state in any way, but no other handler runs, and the theorems about `Store/Calls` are
-- those that cover interleavings. The clock is part of the environment's state, so it may move in each
-- call of the outside. A time is a number of nanoseconds since Go's zero time and a duration is not
-- negative; a difference of times is compared as a sum. A revision is a number without its bound of
-- 2^63; the cache's version counter has its 64 bits. Loops are structural recursion on the lists that
-- they range over, so none needs fuel. The order in which Go ranges over a map, and the order that
-- sort.Slice gives to equal elements, are not specified; here each is that of a list.
--
-- Parameters. `set_string` is big.Rat.SetString, `parse` of the policy is time.Parse with RFC 3339, and
-- the environment is arbitrary. The control plane's environment holds the digests of allow lists, of
-- tokens and of billing states, the token cipher, the random draws and the revoker of the subscription
-- service; the loop's ports hold telemetry, the registry, provisioning and the probe. The theorems ask
-- nothing of them but what they state. The loop's log of requests is a ghost: nothing reads it. The
-- shares of signals that a verdict compares are floats in the code; here they are compared as
-- fractions, which is the same below 2^50 signals.
--
-- Not modelled: the SQL stores and the errors that only they return; HTTP handlers and clients;
-- `WithUserLock`; `Activate`, which no code of the service calls; the texts of errors, reasons and logs;
-- the channel of the rebuild queue and the goroutines that wait for its room; delivery, rendering, the
-- scripts that provision and the dialling of probes; telemetry's aggregation and rate limit.
pub mod Base
pub mod Map
pub mod Billing
pub mod Orchestrator
pub mod Subscription
pub mod Telemetry
pub mod ControlPlane
