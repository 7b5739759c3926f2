-- ===== src/Lib.antt =====
-- a4s: the control plane of a small container orchestrator.
--
-- Agents propose plans; a kernel authorizes a plan only if every action is valid on a simulated
-- copy of the world; nodes execute it and report evidence; a projection of the evidence is the
-- only thing that changes the observed world, and the log of evidence rebuilds it.
--
--   Types         control/types.go and the types of other files that it uses: the goal, the world,
--                 actions, evidence, budgets and resources, with the predicates on them
--   Disruption    control/disruption.go: the ledger of disruptions and the failure backoff
--   Projection    control/projection.go: `Project`, with one function for each case of
--                 `projectInto`. Projection/Effect.antt is the specification of what evidence may do
--                 to allocations and volumes, and Projection/Refines.antt holds every case to it;
--                 Fencing, Replay, Guarantees and Moves are about logs; Retention is about
--                 `prunableSnapshots`
--   Kernel        control/policy.go: `Kernel.Authorize` (Authorize), the validators (Storage,
--                 Workload, Fabric) with their shared tests (Rules), the policy (Policy),
--                 `simulateAction` of control/executor.go (Simulate), the bounds of
--                 control/disruption.go and control/clusterbudget.go (Governor), the image check of
--                 control/provenance.go (Provenance). Kernel/Refines.antt holds the simulation to the
--                 specification of Projection/Effect.antt; Plans, Bounds, Safety, Placement and
--                 Separation are about authorized proposals
--   Lease         control/lease.go: the leases that keep two proposals off one target
--   Eventlog      eventlog/chain.go and eventlog/store.go: `Append` and `verifyChain`, with the hash
--                 of an event as a parameter; Ingest is how a follower takes records
--   Node          node/queue.go: the work queue (Queue) and the broker that joins it to the agents'
--                 gates (Broker); node/agent.go: the gates (Agents), with the meters of what an
--                 instance spends and calls (Agents/Meters) and its tokens (Agents/Tokens).
--                 Queue/Steps has the operations as steps, Queue/Consistent the invariant, and
--                 Broker/Works the broker's steps
--   Schedule      control/schedule.go: when a cron schedule is due, over the calendar of Go's package time
--   Canary        control/canary.go: the share of traffic of a new version, and its weights
--   Engine        control/engine.go: the state of the engine and `record`; Execute has `executeProposal`,
--                 `observe` and `verifyChecks`, over the executor, the sink and the probers of a
--                 `Wiring`; Rebuild compares the world with the recorded events
--   Placement     control/agents.go: `selectNode`, the node on which a replica is placed; Demand
--                 has how many replicas are wanted and where their volumes are
--   Remediation   control/remediation.go: the agent that repairs what has failed
--   Examples      a small cluster, on which the theorems are applied
--   Prelude       the names that the modules share: numbers, integers, maps and results
--
-- An `int` is an integer whose sums and differences wrap at 64 bits, a `uint64` counter wraps at
-- 2^64, a time is the number of nanoseconds since Go's zero time, and a duration in the policy is
-- an integer of nanoseconds. Pointers into the world do not alias, since `cloneWorld` copies what
-- they point to, so a world is a value, and a change is a new value. A nil map is an empty map.
-- An error is its format string, and where the source words one error in two ways after a test
-- that the model makes once, one of the two stands for both. A map is an association list,
-- whose order stands for the order in which the source ranges over it. `time.Now` is the parameter
-- `clock`, which only a world that was never observed is read by. The cryptographic, base64, JSON
-- and regular-expression libraries are the fields of the record `Signing`.
--
-- An operation of the queue takes the answer of the clock and of `persist`, and its state changes
-- before the answer is read, as in the source. Random bytes, the rendering of an integer
-- and the reachability of a provider are arguments. `json.Marshal` and `json.Unmarshal` are the
-- arguments `marshal` and `unmarshal` of the queue's file and of the event log.
--
-- The loop of `Next` runs for a number of rounds, the minutes up to its limit and one more, and says
-- `unfinished` when they are used up; a round moves on by a minute or more. Every other loop runs
-- through a list, and the doubling of a delay runs through the number of failures.
--
-- Not modelled: the rounds of the reconciliation engine (`Run` of control/engine.go), the actions of
-- the other agents that propose (the rest of control/agents.go, control/rollout.go), the parsing of
-- cron expressions and of goals, which are the next parts, and the code that talks to containers,
-- networks, disks, operators and language models (node, server, cmd, reason, source, obs).
pub mod Prelude
pub mod Types
pub mod Disruption
pub mod Projection
pub mod Kernel
pub mod Lease
pub mod Eventlog
pub mod Node
pub mod Schedule
pub mod Canary
pub mod Engine
pub mod Placement
pub mod Remediation
pub mod Examples
