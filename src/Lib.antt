-- ===== src/Lib.antt =====
-- A model of the core of veracity, an engine that runs Dogma applications, with its correctness.
--
-- The engine keeps the work of an application in journals. An integration supervisor accepts
-- commands, has the application handle them, and appends the events to an event stream; a worker
-- owns each stream, which a supervisor starts when the stream is used, and all run on a small state
-- machine. Requests reach them over channels. The nodes of a cluster register in a key-value store,
-- which each observes, and share the streams by rendezvous hashing over a lock-free set of nodes.
--
-- Base has the helpers: tests on numbers, lists, the errors and the outcome of a Go call. `Outcome`
-- is a result, an error or a panic; a `uint64` is a number with its wrap-around, `u64`.
--
-- * internal/fsm is Fsm: `Fsm`, `Action` and the loop of `Start` (`loop`, `round`). A state is a
--   name with its arguments, and `states` gives its code. Fsm/Invariant has the induction on rounds.
-- * persistencekit's journals are not part of the repository. Journal has the interface `Journal`
--   with the documented behaviour that the sources rely on, where an append may fail after its
--   record was written; Journal/Memory is an instance that fails on a schedule.
-- * internal/eventstream is EventStream: append.go and the records of eventstreamjournal are in
--   EventStream itself, EventStream/RecordBuilder has the generated builder, EventStream/Worker is
--   worker.go (`append_events` is appendEvents, `handle_append` handleAppendState, `idle` idleState,
--   `run` Run). EventStream/Stream says what a stream is and EventStream/Prior what a prior attempt
--   is; the modules below the worker have the proofs. EventStream/Supervisor is supervisor.go: a
--   worker is a number there, `sent` has what was handed to the workers and to the clients, and
--   the workers' ends come in an order that `stops` and the inputs give.
-- * internal/integration is Integration: the records in Integration itself, the builder in
--   Integration/RecordBuilder, what the supervisor calls in Integration/Services, the replay of the
--   journal in Integration/Pending, supervisor.go and scope.go in Integration/Supervisor
--   (`handle_command`, `append_events`), Integration/Supervisor/Requests (`accept_command`) and
--   Integration/Supervisor/Machine (`recover`, `idle`, `run`). Integration/Supervisor/Outstanding
--   says what is pending by a journal, and Integration/Supervisor/Acting which calls of the handler
--   and of the recorder of events stand behind its records. `record_events` packs the recorded
--   events when the handler has returned, and not in each call of RecordEvent.
-- * internal/optimistic is Optimistic: value.go is Optimistic/Value, where the values that other
--   goroutines publish in a round of `Apply` are given as a list; orderedset.go is
--   Optimistic/OrderedSet, with the arrays that slices share.
-- * internal/cluster/partition.go is Cluster/Partition; xxhash is a parameter.
-- * internal/cluster/registry.go, node.go and engineevents.go are Cluster/Registry (what both sides
--   share), Cluster/Registrar (`register`, `renew`, `deregister`, `run`) and Cluster/Observer
--   (`load_nodes` is loadNodes, `poll` pollState, `select_publish` publishState). Times are
--   nanoseconds, and a clock tells how much time passes before each reading.
-- * internal/signaling is Signaling: latch.go with the swap and the close as steps of their own
--   (`latch_step`), event.go as a channel of one place.
-- * internal/messaging/exchange.go and internal/messaging/ackqueue/queue.go are Messaging:
--   `call_step` has the steps of Do and Push and of the side that answers; topic.go's
--   subscriptions are Messaging/Topic. The requests and replies themselves are with the components
--   that use them.
-- * enginekit's maps and persistencekit's key-value stores are not part of the repository. Maps and
--   Keyspace have the interfaces; Maps/Assoc and Keyspace/Memory are instances.
--
-- Channels, timers and contexts are lists of the inputs that a `select` receives, in the order in
-- which they become ready; a machine that waits when the list is empty is blocked, and its state is
-- that before the call that waits. A context has an error only after its cancellation was received,
-- so a final state that ends for another reason returns none. The loop of
-- `Start` runs on fuel: for the worker, twice the number of inputs and one round more are enough,
-- since an input takes two rounds at most; for the supervisor of the event streams, the number of
-- its inputs and one more; for the observer, twice the number of inputs and two more. The loop of
-- a binary search has the length of the list as fuel. The rounds of `Apply` are given by what
-- others do in each; a round without a publication is the last.
--
-- Theorems on appends assume that the journal has room below the greatest `uint64`.
--
-- Not modelled: telemetry and logging, which have no effect on the state; marshaling by protobuf;
-- the opening and closing of storage; the delivery of a topic's messages and the engine's
-- configuration.
pub mod Base
pub mod Cluster
pub mod EventStream
pub mod Fsm
pub mod Integration
pub mod Journal
pub mod Keyspace
pub mod Maps
pub mod Messaging
pub mod Optimistic
pub mod Signaling
