-- ===== src/Service/Sync.antt =====
-- internal/service/counter_service.go: the sync stream. `sync_update` is one round of the loop of
-- SyncState after Recv: what it does to the state and what it sends back.
pub mod Replies
use distributed_counter.Base.{Text, ℕ, Option, none, some, [], GoMap, lookup, set, Int64}
use distributed_counter.Crdt.Counts.{Counts}
use distributed_counter.Crdt.PnCounter
use distributed_counter.Crdt.PnCounter.{remote_counter, positive_copy, negative_copy}
use distributed_counter.Crdt.VectorClock
use distributed_counter.Crdt.Delta.{delta_from, merge_clock, max_clock}
use distributed_counter.Cluster.Member.{ProtoStatus}
use distributed_counter.Cluster.Membership.{gossip_membership, apply_membership}
use distributed_counter.Service.State.{Service, Io, op_merge, wal_append, persist}

pub data UpdateType : Type 0 where
  full_state delta_update heartbeat : UpdateType

-- pb.StateUpdate
pub record StateUpdate : Type 0 where
  pub from_node_id : Text
  pub positive_state : Counts
  pub negative_state : Counts
  pub vector_clock : Counts
  pub timestamp : ℕ
  pub type : UpdateType
  pub last_sync_version : Int64
  pub membership : GoMap ProtoStatus

-- membershipGossip
unfoldable pub membership_gossip : Service → GoMap ProtoStatus
membership_gossip s = elim s.cluster [ none ↦ [] | some cluster ↦ gossip_membership cluster ]

-- A missing baseline is a nil map.
abbrev pub baseline : Option Counts → Counts
baseline none = []
baseline (some c) = c

unfoldable pub build_delta_reply : ℕ → StateUpdate → Service → Service × StateUpdate
build_delta_reply now update s =
    let my_clock = VectorClock.state s.clock in
    let base =
      merge_clock update.vector_clock (baseline (lookup s.last_sync_clock update.from_node_id)) in
    let delta = delta_from (positive_copy s.counter) (negative_copy s.counter) my_clock base in
    (
      record s {
        last_sync_clock =
            set s.last_sync_clock update.from_node_id (merge_clock my_clock update.vector_clock);
      },
      record {
        from_node_id = s.node_id;
        positive_state = delta.positive;
        negative_state = delta.negative;
        vector_clock = my_clock;
        timestamp = now;
        type = delta_update;
        last_sync_version = max_clock base;
        membership = membership_gossip s;
      },
    )

unfoldable pub build_full_reply : ℕ → Service → StateUpdate
build_full_reply now s = record {
  from_node_id = s.node_id;
  positive_state = positive_copy s.counter;
  negative_state = negative_copy s.counter;
  vector_clock = VectorClock.state s.clock;
  timestamp = now;
  type = full_state;
  last_sync_version = max_clock (VectorClock.state s.clock);
  membership = membership_gossip s;
}

-- The merge of the update's counters and clock, and then of its membership.
unfoldable pub merge_update : StateUpdate → Service → Service
merge_update update s = record s {
  counter = PnCounter.merge (remote_counter update.positive_state update.negative_state) s.counter;
  clock = VectorClock.merge_map update.vector_clock s.clock;
  cluster = elim s.cluster [
    | none ↦ none
    | some cluster ↦ some (apply_membership update.membership cluster)
  ];
}

-- The state once the update is merged and logged.
unfoldable pub take_update : Io → StateUpdate → Service → Service
take_update io update s = persist io (
    wal_append io op_merge [] 0 update.positive_state update.negative_state update.vector_clock
      (merge_update update s))

-- A heartbeat is passed over, without an answer.
unfoldable pub sync_update : Io → StateUpdate → Service → Service × Option StateUpdate
unfolding take_update
sync_update io update s = elim update.type [
  | heartbeat ↦ (s, none)
  | full_state ↦ let s' = take_update io update s in (s', some (build_full_reply io.now s'))
  | delta_update ↦
      let (s', ack) = build_delta_reply io.now update (take_update io update s) in (s', some ack)
]
