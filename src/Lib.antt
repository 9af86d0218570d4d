-- ===== src/Lib.antt =====
-- Falak is a mesh of nodes that place and run container workloads, "capsules". This library models
-- the deterministic core of the repository in Go and proves what makes it correct.
--
-- The parts and how they interact. A capsule's specification (capsule/spec.go) is completed with
-- defaults and validated before the capsule manager (capsule/manager.go) stores it
-- (capsule/store.go) and gives it a lifecycle (capsule/lifecycle.go). Placement
-- (capsule/placement) decides by rules over labels (capsule/labels.go) which nodes may run it. An
-- election (election/manager.go) per replica picks the node: claims go over the cluster's topic
-- (election/topic.go), signed over a canonical layout, and the election drives the capsule's
-- lifecycle. A node's part in an election is a delay (election/delay) from the score that gravity
-- (election/gravity) gives it; the winner's runtime handler (runtime/handler.go) starts and watches
-- the container. Between them stands the node's capsule handler (node/capsule_handler.go): it shares
-- capsules over the orbits (capsule/orbit) and requests the elections. The peers of a node stand in its phonebook (node/phonebook), whose statuses the
-- failure detector (node/health) moves. Incoming traffic passes a rate limiter and deduplicators. Snapshots of a capsule are
-- kept in a table with evictions (snapshot/store.go). Scaling rules (capsule/scaling) fire on
-- metrics, and a momentum (capsule/momentum) moves with traffic, idleness and failures.
--
-- Which file models what, the functions named as in the source but in snake case:
--   Prelude.antt      maps, lists, integers, strings and tests that the parts share
--   Signing.antt      node/internal/signing/buffer.go, and canonicalContent of election/topic.go
--   Shared.antt       Shared/Retry.antt: shared/retry.go; Shared/Paths.antt: shared/paths.go
--   Guard.antt        Guard/Limiter.antt: node/internal/ratelimit/limiter.go; Guard/Dedup.antt:
--                     node/auth/dedup.go and capsule/orbit/subscription.go
--   Capsule.antt      Capsule/Types.antt, Labels.antt, Lifecycle.antt, Store.antt, Manager.antt:
--                     the files of those names in capsule/ (the enums from capsule/capsule.go);
--                     Capsule/Manager/Firing.antt: the manager's transitions and Create
--   Spec.antt         capsule/spec.go and the records of capsule/capsule.go
--   Placement.antt    capsule/placement/rule.go, selector.go, evaluator.go
--   Election.antt     Election/Types.antt: election/elector.go and isBetter; Election/Topic.antt:
--                     election/topic.go; Election/Round.antt: runElection, waitForRemoteVerdict,
--                     report and the claim slots; Election/Manager.antt: the rest of
--                     election/manager.go
--   Snapshot.antt     snapshot/store.go
--   Scaling.antt      capsule/scaling/evaluator.go and the conditions of capsule/scaling/rule.go;
--                     Scaling/Monitor.antt: registry.go and monitor.go there
--   Momentum.antt     capsule/momentum/momentum.go and adjuster.go
--   Phonebook.antt    node/phonebook/phonebook.go and sqlite.go; Phonebook/Subscriber.antt:
--                     node/phonebook/subscriber.go
--   Health.antt       Health/Score.antt: node/health/score.go; Health/Monitor.antt:
--                     node/health/monitor.go
--   Gravity.antt      Gravity/Eligibility.antt: election/gravity/state.go, eligibility.go and
--                     NodesRunningCapsule of node/election_handler.go; Weights, Factors and
--                     Calculator: weights.go, factors.go and gravity.go there; Gravity/Floats.antt:
--                     the interface of floats; Gravity/Delay.antt: election/delay/strategy.go
--   Runtime.antt      Runtime/Handler.antt: runtime/handler.go, its RollingUpdate and StopContainer in
--                     Runtime/Handler/Rolling.antt
--   Orbit.antt        HandleMessage of capsule/orbit/announcement.go, and capsule/orbit/signing.go
--   Node.antt         Node/Capsules.antt and Node/Capsules/Handling.antt: node/capsule_handler.go and
--                     the membership of capsule/orbit/orbit.go; Node/Slots.antt: its replica slots;
--                     Node/Wire/: the conversions of capsule/orbit/announcement.go and of
--                     node/capsule_handler.go
-- The other modules below a part hold its proofs, named for what they prove, and its tests.
--
-- State is explicit: a struct is a record, a method a function to the new record with its result,
-- an error a value. Each operation takes the time and, for a database, whether a statement
-- succeeds. Goroutines are interleavings of steps: a round of an election is cut at its waits, and
-- what the select of a wait picks is an argument. The loops are structural recursions over the
-- data or, for a retry, over the retries left; only the digits of a replica slot are printed on
-- fuel, a number above the slot, which Node/Slots/Fresh.antt shows to be enough.
--
-- Bounds. Lengths and times are unbounded numbers except where bytes are written, where the low 32
-- or 64 bits are kept and the theorems ask for lengths in range. Scores are non-negative floats
-- given by their bit patterns, which have the order of the numbers. Momenta wrap at 32 bits.
-- Clocks do not overflow.
--
-- In Gravity the floats are an interface with the laws of IEEE 754 that the bounds need; in Health
-- and Phonebook their operations are arguments.
--
-- Parameters. The state machine library is a record of its documented laws (Engine); the hash, the
-- verifier, unmarshalling, the strategy, the provider of mesh entities and the parsing of scaling
-- rules are arguments.
--
-- Not modelled: network, disk, container backends, cryptography and configuration loading, logs and
-- metrics, and the parts event bus, authentication, synchronisation and the wiring of the node.
pub mod Prelude
pub mod Signing
pub mod Shared
pub mod Guard
pub mod Capsule
pub mod Spec
pub mod Placement
pub mod Election
pub mod Snapshot
pub mod Scaling
pub mod Momentum
pub mod Phonebook
pub mod Health
pub mod Gravity
pub mod Runtime
pub mod Node
pub mod Orbit
