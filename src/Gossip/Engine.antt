-- ===== src/Gossip/Engine.antt =====
-- internal/gossip/engine.go. The engine shares the counter, the clock, the member table and the log with
-- the service, so its methods act on the service's state too. A round with a peer is run as one event.
pub mod Rounds
pub mod Unreachable
use distributed_counter.Base.{
  Text, ℕ, zero, suc, ◌+◌, ◌*◌, ◌%◌, ◌^◌, Bool, true, false, ◌||◌, not, Option, none, some, List,
  [], ◌∷◌, if◌then◌else◌, ltb, ◌==◌, GoMap, lookup, set, delete, Int64, lt64,
}
use distributed_counter.Crdt.Counts.{Counts}
use distributed_counter.Crdt.PnCounter.{positive_copy, negative_copy}
use distributed_counter.Crdt.VectorClock
use distributed_counter.Crdt.Delta.{clock_newer_than, delta_from, merge_clock, max_clock}
use distributed_counter.Cluster.Member.{Member}
use distributed_counter.Cluster.Membership.{Membership, get_random_peers, get_alive_peers}
use distributed_counter.Gossip.Circuit.{
  CircuitBreaker, new_circuit_breaker, allow, success, failure,
}
use distributed_counter.Service.State.{Service, Io, op_merge, wal_append}
use distributed_counter.Service.Sync.{
  StateUpdate, full_state, delta_update, baseline, membership_gossip, merge_update,
  build_full_reply,
}

-- `connections` and `syncing` are maps to what only their presence matters of.
pub record GossipEngine : Type 0 where
  pub interval : Int64
  pub connections : GoMap Bool
  pub syncing : GoMap Bool
  pub last_sync : GoMap Counts
  pub breakers : GoMap CircuitBreaker
  pub round : ℕ
  pub full_sync_interval : ℕ
  pub max_retries : ℕ
  pub backoff_base : ℕ
  pub backoff_max : ℕ
  pub circuit_failures : Int64
  pub circuit_cooldown : Int64

-- NewGossipEngine: five seconds, where the interval is not positive
unfoldable pub new_gossip_engine : Int64 → GossipEngine
new_gossip_engine interval = record {
  interval = if lt64 0 interval then interval else 5_000_000_000;
  connections = [];
  syncing = [];
  last_sync = [];
  breakers = [];
  round = 0;
  full_sync_interval = 10;
  max_retries = 3;
  backoff_base = 250_000_000;
  backoff_max = 2_000_000_000;
  circuit_failures = 3;
  circuit_cooldown = 30_000_000_000;
}

-- breaker: the peer's circuit breaker, made on first use
unfoldable pub breaker_of : Text → GossipEngine → CircuitBreaker
breaker_of address g = elim (lookup g.breakers address) [
  | some b ↦ b
  | none ↦ new_circuit_breaker g.circuit_failures g.circuit_cooldown
]

abbrev pub set_breaker : Text → CircuitBreaker → GossipEngine → GossipEngine
set_breaker address b g = record g { breakers = set g.breakers address b }

unfoldable pub set_circuit_breaker_config : Int64 → Int64 → GossipEngine → GossipEngine
set_circuit_breaker_config failures cooldown g = record g {
  circuit_failures = if lt64 0 failures then failures else g.circuit_failures;
  circuit_cooldown = cooldown;
}

unfoldable pub set_full_sync_interval : ℕ → GossipEngine → GossipEngine
set_full_sync_interval rounds g =
    if ltb 0 rounds then record g { full_sync_interval = rounds } else g

-- InvalidateBaselines
unfoldable pub invalidate_baselines : GossipEngine → GossipEngine
invalidate_baselines g = record g { last_sync = [] }

-- backoff, for the attempts that the engine makes
unfoldable pub backoff : ℕ → GossipEngine → ℕ
backoff attempt g =
    let d = g.backoff_base * 2 ^ attempt in if ltb g.backoff_max d then g.backoff_max else d

-- `fullSync`: every fullSyncInterval rounds, and when the baseline is ahead of the clock
unfoldable pub is_full_sync : ℕ → Counts → Counts → GossipEngine → Bool
is_full_sync round base my_clock g =
    (round % g.full_sync_interval == 0) || clock_newer_than base my_clock

-- The update that gossipToPeer sends, `none` where nothing changed since the baseline.
unfoldable pub build_update : ℕ → Bool → Counts → Service → Option StateUpdate
build_update now full base s =
    if full
    then some (build_full_reply now s)
    else (let my_clock = VectorClock.state s.clock in
        let delta = delta_from (positive_copy s.counter) (negative_copy s.counter) my_clock base in
        elim delta.clock [
          | [] ↦ none
          | entry ∷ rest ↦ some (record {
            from_node_id = s.node_id;
            positive_state = delta.positive;
            negative_state = delta.negative;
            vector_clock = my_clock;
            timestamp = now;
            type = delta_update;
            last_sync_version = max_clock base;
            membership = membership_gossip s;
          })
        ])

-- What one attempt meets: getOrCreateStream fails before or after the dial, Send fails, Recv fails, or
-- the peer answers.
pub data Attempt : Type 0 where
  dial_failed : Attempt
  stream_failed : Attempt
  send_failed : Attempt
  recv_failed : Attempt
  answered : StateUpdate → Attempt

-- The attempts that are left, on the connections, and with whether a stream is open. An attempt that has
-- one does not make another.
unfoldable pub attempt_loop :
    (ℕ → Attempt) → Text → ℕ → ℕ → Bool → GoMap Bool → GoMap Bool × Option StateUpdate
attempt_loop outcome address zero attempt open_stream conns = (conns, none)
attempt_loop outcome address (suc left) attempt open_stream conns =
    let dialled = if open_stream then conns else set conns address true in
    let again = attempt_loop outcome address left (attempt + 1) false in
    elim (outcome attempt) [
      | dial_failed ↦ again conns
      | stream_failed ↦ again dialled
      | send_failed ↦ again (delete dialled address)
      | recv_failed ↦ again (delete dialled address)
      | answered response ↦ (dialled, some response)
    ]

-- mergeRemoteState
unfoldable pub merge_remote_state : Io → StateUpdate → Service → Service
merge_remote_state io update s =
    wal_append io op_merge [] 0 update.positive_state update.negative_state update.vector_clock
      (merge_update update s)

-- The end of gossipToPeer after a response.
unfoldable pub synchronized :
    Io → Text → Counts → StateUpdate → Service × GossipEngine → Service × GossipEngine
synchronized io address my_clock response (s, g) = (
  merge_remote_state io response s,
  record (set_breaker address (success (breaker_of address g)) g) {
    last_sync = set g.last_sync address (merge_clock my_clock response.vector_clock);
  },
)

-- What the environment of a round decides: its instants at the breaker, the first stream, the attempts.
pub record Net : Type 0 where
  pub first_dial : Bool
  pub first_stream : Bool
  pub outcome : ℕ → Attempt
  pub started : ℕ
  pub failed : ℕ

-- gossipToPeer from the first stream on. A stream that is not there at once ends the round, without a
-- failure for the breaker.
unfoldable pub deliver : Io → Net → Text → Counts → Service × GossipEngine → Service × GossipEngine
unfolding attempt_loop synchronized
deliver io net address my_clock (s, g) =
    if not net.first_dial
    then (s, g)
    else (let conns = set g.connections address true in
        if not net.first_stream
        then (s, record g { connections = conns })
        else (let (conns', response) =
              attempt_loop net.outcome address g.max_retries 0 true conns in
            let g' = record g { connections = conns' } in
            elim response [
              | none ↦ (s, set_breaker address (failure net.failed (breaker_of address g')) g')
              | some r ↦ synchronized io address my_clock r (s, g')
            ]))

-- Nothing is sent where nothing changed.
unfoldable pub send_update :
    Io → Net → Text → Counts → Option StateUpdate → Service × GossipEngine → Service × GossipEngine
unfolding deliver
send_update io net address my_clock none (s, g) = (s, g)
send_update io net address my_clock (some update) (s, g) = deliver io net address my_clock (s, g)

-- gossipToPeer
unfoldable pub gossip_to_peer : Io → Net → Member → Service × GossipEngine → Service × GossipEngine
unfolding send_update build_update is_full_sync
gossip_to_peer io net peer (s, g) =
    let g1 = set_breaker peer.address (breaker_of peer.address g) g in
    if not (allow net.started (breaker_of peer.address g1))
    then (s, g1)
    else (let my_clock = VectorClock.state s.clock in
        let base = baseline (lookup g1.last_sync peer.address) in
        let g2 = record g1 { round = g1.round + 1 } in
        let update = build_update io.now (is_full_sync g2.round base my_clock g2) base s in
        send_update io net peer.address my_clock update (s, g2))

-- g.syncing[address]
abbrev in_flight : Option Bool → Bool
in_flight none = false
in_flight (some b) = b

-- The peers of one tick of the loop, or of ForceSync, that get a round: those without one in flight,
-- which are marked.
unfoldable pub launch : List Member → GossipEngine → List Member × GossipEngine
launch [] g = ([], g)
launch (peer ∷ peers) g =
    let busy = in_flight (lookup g.syncing peer.address) in
    let g1 = if busy then g else record g { syncing = set g.syncing peer.address true } in
    let (started, g2) = launch peers g1 in (if busy then started else peer ∷ started, g2)

-- The deferred end of a round.
unfoldable pub finished : Text → GossipEngine → GossipEngine
finished address g = record g { syncing = delete g.syncing address }

-- gossip
unfoldable pub gossip :
    (List Member → List Member) → Membership → GossipEngine → List Member × GossipEngine
gossip shuffle cluster g = launch (get_random_peers shuffle 3 cluster) g

-- ForceSync
unfoldable pub force_sync : Membership → GossipEngine → List Member × GossipEngine
force_sync cluster g = launch (get_alive_peers cluster) g
