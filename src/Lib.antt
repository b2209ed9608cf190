-- ===== src/Lib.antt =====
-- The distributed counter: nodes that each hold the same named PN counters and exchange them by gossip,
-- watch each other with SWIM probes, elect a leader with the Bully algorithm, and survive crashes with a
-- store and a write-ahead log.
--
-- Which file models which part:
--   Base           shared names: Boolean tests, Go strings as byte lists, int64, maps as association lists
--   Crdt           internal/crdt: PNCounter (PnCounter), VectorClock, ClockNewerThan, DeltaFrom, MergeClock
--                  and MaxClock (Delta), the loops that they share (Counts) and the keys that say which
--                  counter an entry belongs to (Keys)
--   Cluster        internal/cluster: the member and its status (Member), the member table (Membership), a
--                  round of the failure detector (Swim) and the announced nodes (Discovery)
--   Gossip         internal/gossip: the circuit breaker (Circuit) and the engine's rounds (Engine)
--   Election       internal/election/bully.go (Bully)
--   Persistence    internal/persistence/wal.go, the saved state of store.go (Wal),
--                  and internal/persistence/redis.go (Redis) on an abstract client
--   Service        internal/service/counter_service.go: the state, the log, the store and the restart of
--                  cmd/server/main.go (State), the handlers (Handlers, Members, Listing), the sync
--                  stream (Sync)
--   Startup        cmd/server/main.go: the order of the seeds (Seeds), joinCluster (Join),
--                  recoverStateFromSeedNodes (Recover) and the ticks of the loops (Pings)
--   Server         internal/server: the key check (Auth), the token bucket (RateLimit) on abstract floats
--                  (Floats), and the chain of both (Chain)
--   System         several nodes: a round of gossip at both ends (System), what it carries (Exchange, Pair),
--                  the steps of a cluster (Steps) and what every run keeps (Invariant, Agreement)
--   Admin          internal/admin/admin.go
--   Dashboard      internal/dashboard/dashboard.go: the view of the cluster, and GetNodeInfo
--   Config         internal/config/config.go: the defaults
--   Tests          runs of the definitions, and the theorems at concrete inputs
-- Below each part stand the modules with its proofs, named for what they prove.
--
-- How the parts interact: a handler of the service changes its PN counter and its clock, appends the
-- operation to the log and answers; a sync update is merged into both, its membership is applied to the
-- member table, and the answer carries a delta or the full state. The gossip engine sends such updates to
-- peers that it takes from the member table, retries, and merges the answers into the same counter and
-- clock. The failure detector and the election read and change the member table through its methods. A
-- restarted process restores the saved state by a merge and replays the log over it, learns the members from
-- a seed, and merges the state that the first seed gives. Calls come through the key check and the token
-- bucket; an operator's calls change the same member table.
--
-- How the code is modelled:
--   - A method that holds its mutex throughout is one function on the state. A method that takes the mutex
--     several times is cut there, or is run as one event, which leaves out what comes between.
--   - int64 is its bit pattern, a number below 2 ^ 64, with the wrap-around of addition and subtraction and
--     the signed order. An instant is a number of nanoseconds. Counts of suspicions, failures and log
--     entries that grow by one with each event are numbers without a bound, but the log's sequence number
--     wraps at 2 ^ 64.
--   - A map is an association list, and `range` visits it in list order. `Distinct` says that no key stands
--     twice, which Go guarantees.
--   - time.Now(), random shuffles, the answers of peers, of the disk and of the store, and the length
--     of a log entry in JSON are arguments. A save that fails may have been applied, and a load may fail.
--   - A cluster is a family of nodes. A step of it is a call of a client, a round that reaches its peer and
--     whose answer arrives, or a round that does not reach its peer; a reset, a restart and a round whose
--     answer is lost are not among its steps.
--   - The loops of the code run over lists, or a number of times that is fixed at their start (the retries of
--     the gossip engine and of the election's probes): no fuel is needed.
--
-- Not modelled: the wiring of the server's start, the connection to Redis, HTTP, metrics, tracing,
-- generated code, and JSON: a log line is the entry that it decodes to, with its length,
-- or a line that does not decode.
pub mod Admin
pub mod Base
pub mod Cluster
pub mod Config
pub mod Crdt
pub mod Dashboard
pub mod Election
pub mod Gossip
pub mod Persistence
pub mod Server
pub mod Service
pub mod Startup
pub mod System
pub mod Tests
