-- ===== src/Lib.antt =====
-- The core logic of the runtime of orbital applications: a page of traits, each a state machine,
-- exchange events over a bus, ticks run on a clock, effects go to the client or to the server, and
-- behaviours are composed into the schema that all of these read.
--
-- The parts, each with the files that model it. Paths are those of the repository's root.
--
-- Events (src/events). `Events.Bus` is EventBus.ts: the map of listener sets, `on`, `onAny`,
-- `emit`, `clear` and the unsubscribe functions that `on` returns. The Set objects are references
-- into a store, since an unsubscribe function keeps the set that it was made with. A listener is a
-- number; what it does when it hears an event is a list of actions (emit, subscribe, unsubscribe,
-- clear), so that emits nest and the loops run over sets that change under them. `Events.Routing`
-- is identity/routing.ts (route keys, matchers, the legacy spelling of a listen), `Events.Stamp`
-- is emit-stamp.ts. The stamp writes the source that a matcher reads.
--
-- Time (src/time). `Time.Duration` is duration.ts, `Time.Cron` cron.ts and `Time.Scheduler`
-- TickScheduler.ts: interval and cron ticks, the frame loop, pause and resume. Its own passes are for
-- callbacks that leave the scheduler alone; `Time.Scheduler.Reentrant` has the pass and the frame for
-- callbacks that call it, over the map of ticks as it is at each step. The scheduler's cron ticks use
-- the fields that the cron parser returns.
--
-- Effects (src/effects). `Effects.InFlight` is in-flight-calls.ts, with Set and AbortController as
-- references and `run` as two steps, before and after its work settles. `Effects.ServerLeg` is
-- server-leg.ts.
--
-- Traits (src/traits). `Traits.StateBook` is state-book.ts: the states of the traits on a page,
-- seeded and rolled back. `Traits.Payload` is the check of one payload in PayloadValidator.ts,
-- `Traits.Shapes` its check of the fields that listeners refer to, `Traits.Config` the binding of
-- a trait's configuration in config-defaults.ts.
--
-- Evaluation (src/evaluation). `Evaluation.Circuit` is circuit-store.ts: the store of a client,
-- which holds a book of states and the frames of the entities, with its snapshots and restores. A
-- frame's row is an object in a store of rows, by reference, so that the copies that a snapshot and a
-- restore make are told from the rows that others write to.
--
-- Composition (src/effects/composition). `Composition.Wiring` is event-wiring.ts,
-- `Composition.Layout` layout-strategy.ts, and `Composition.Compose` with `Composition.Names`
-- compose-behaviors.ts, which calls the other two.
--
-- Loader (src/entities/loader). `Loader` and its children are external-loader.ts: `Loader.Chain`
-- the chain of imports, `Loader.Browse` the specifiers of a browser, `Loader.Search` the
-- registries, `Loader.Resolve` `resolvePath`, whose tests of a path are of its text's beginning and
-- not of directories, and `Loader.Load` the loads and their cache.
--
-- Host (src/host/credentials, src/kernel/http-exchange.ts). `Host.Credentials` is store.ts: what a
-- row holds, `warm` and the lookups; its children hold the writes (`set`, `remove`, `rotate`), what
-- a rotation leaves in the database and what a restart reads from it, and the one-use values that
-- instances share. An adapter's laws are stated where they are used: an update replaces the fields
-- that are given in the row with the id. `Host.Scope` is scope.ts, the resolver of a credential
-- reference, which asks a store. `Host.Secrets` is `createHttpSecrets` of the exchange: values in
-- memory with an expiry, and the store's one-use values where the host shares them.
--
-- Server (src/server). `Server.Push` is the shared push channels of EventTransport.ts: channels as
-- references, their subscribers, the connections that are lost and opened again, and the numbered
-- frames that a tab resumes after.
--
-- Ui (src/ui). `Ui.Perf` is the ring of perf.ts with its snapshots and subscribers.
--
-- Base holds what the parts share: tests, lists, dictionaries and sets in insertion order, texts,
-- integers and options. Functions keep the source's names in snake case; a helper that stands for
-- a loop or a closure of a function is mapped to its lines.
--
-- Bounds and fuel. `emit` runs on fuel for the nesting of emits; the depth of the bus grows with
-- each emit, and no emit delivers at the maximum, so fuel above the depth that is left is enough.
-- The loop of a cron step runs on fuel above the length of the field's range; a step of 0 never
-- ends in the source, and never has fuel enough. The walk along a wiring runs on fuel above the
-- number of its entries, since each step visits a new target. A pass over the live map of
-- ticks runs on fuel above their number, which is enough where no callback adds one. Everything
-- else is structural.
-- Numbers are natural numbers without bound: sums and products that leave the exact range of a
-- double are not followed.
--
-- A listener that throws is one whose actions end there, as the bus catches what it throws. Not
-- modelled: log lines and timestamps; clocks that run backwards further than what has accumulated;
-- texts of a cron range that `Number` reads and a decimal parse does not. Texts in paths are
-- lowered and split by their ASCII letters and spaces. Dictionaries keep insertion order, also for
-- keys that look like array indices.
-- `untilAborted`, the emits that are guessed from effects, the binding of an entity, the other
-- loaders, the server runtime, the requests of the transports, the rest of the kernel and its
-- ports, the listing of credentials and the renderers' other helpers are not modelled: they are
-- input and output, or left for an extension of this library. The loader reads a file system whose
-- listings are finite trees; its search for installed packages' behaviours is not modelled. A call
-- of the persistence adapter does not throw. The cipher, the digest, the storage key of a
-- credential, the adapter, the file system and the parsers that these parts call are arguments.
-- What @almadar/core answers (`isInlineTrait`, `payloadTypeContainer`, `getNestedValue`, the
-- lifecycle events) is an argument.
pub mod Base
pub mod Time
pub mod Events
pub mod Effects
pub mod Evaluation
pub mod Traits
pub mod Composition
pub mod Ui
pub mod Host
pub mod Loader
pub mod Server
