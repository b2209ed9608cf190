-- ===== src/Tests/Gossip.antt =====
-- The theorems on internal/gossip/engine.go at concrete inputs.
use distributed_counter.Base.{
  Text, ◌≡◌, refl, true, false, some, [], ◌∷◌, arith, codes, text_eq, lookup, set,
}
use distributed_counter.Crdt.PnCounter
use distributed_counter.Crdt.PnCounter.{PnCounter}
use distributed_counter.Crdt.PnCounter.Convergence.{SameCounter}
use distributed_counter.Crdt.Extensional.{SameCounts}
use distributed_counter.Crdt.VectorClock
use distributed_counter.Crdt.VectorClock.{VectorClock, state}
use distributed_counter.Cluster.Member.{alive, Member}
use distributed_counter.Gossip.Engine.{
  GossipEngine, new_gossip_engine, Net, send_failed, breaker_of, synchronized,
}
use distributed_counter.Gossip.Engine.Rounds.{full_sync_agrees}
use distributed_counter.Gossip.Engine.Unreachable.{rounds, refused_rounds_never_trip}
use distributed_counter.Persistence.Wal.{wrote}
use distributed_counter.Service.State.{Service, Io, new}
use distributed_counter.Service.Sync.{
  StateUpdate, delta_update, build_full_reply, build_delta_reply, sync_update,
}
use distributed_counter.Service.Sync.Replies.{repeated_reply_is_empty}
use distributed_counter.Crdt.Counts.{copy_into}

abbrev node_a : Text
node_a = codes "node-a"

abbrev node_b : Text
node_b = codes "node-b"

abbrev io : Io
io = record {
  disk = record {
    opens = true;
    write = wrote;
    syncs = true;
    removes = true;
    encoded_length = λ e. 200;
  };
  saves = true;
  applies = false;
  loads = true;
  now = 7;
}

-- Two nodes with one counter each.
abbrev first : Service
first = record (new node_a) {
  counter = record { positive = (node_a, 5) ∷ []; negative = (node_a, 2) ∷ []; node_id = node_a };
  clock = record { clock = (node_a, 7) ∷ []; node_id = node_a };
}

abbrev second : Service
second = record (new node_b) {
  counter = record { positive = (node_b, 4) ∷ (node_a, 3) ∷ []; negative = []; node_id = node_b };
  clock = record { clock = (node_b, 1) ∷ (node_a, 3) ∷ []; node_id = node_b };
}

first_counter : PnCounter.IsValid first.counter
unfolding lookup
first_counter = record {
  positive_distinct = (refl, tt);
  negative_distinct = (refl, tt);
  positive_nonneg = (omega arith, tt);
  negative_nonneg = (omega arith, tt);
}

first_clock : VectorClock.IsValid first.clock
unfolding lookup
first_clock = record { distinct = (refl, tt); nonneg = (omega arith, tt) }

second_counter : PnCounter.IsValid second.counter
unfolding lookup text_eq
second_counter = record {
  positive_distinct = (refl, (refl, tt));
  negative_distinct = tt;
  positive_nonneg = (omega arith, (omega arith, tt));
  negative_nonneg = tt;
}

second_clock : VectorClock.IsValid second.clock
unfolding lookup text_eq
second_clock = record { distinct = (refl, (refl, tt)); nonneg = (omega arith, (omega arith, tt)) }

abbrev engine : GossipEngine
engine = new_gossip_engine 0

full_sync_agrees_example :
    let (b', ack) = sync_update io (build_full_reply 7 first) second in
    let r = build_full_reply 7 b' in
    let a' = (synchronized io (codes "b:1") (state first.clock) r (first, engine)).0 in
    (ack ≡ some r) × SameCounter a'.counter b'.counter × SameCounts a'.clock.clock b'.clock.clock
full_sync_agrees_example =
    full_sync_agrees io io (codes "b:1") first second engine first_counter first_clock
      second_counter second_clock

abbrev peer : Member
peer = record {
  id = node_b;
  address = codes "b:1";
  status = alive;
  is_active = true;
  counter_value = 0;
  last_heartbeat = 100;
  suspect_count = 0;
  priority = 5;
}

abbrev down : Net
down = record {
  first_dial = true;
  first_stream = false;
  outcome = λ attempt. send_failed;
  started = 10;
  failed = 20;
}

refused_rounds_never_trip_example :
    breaker_of
      (codes "b:1")
      (rounds ((io, down) ∷ (io, down) ∷ (io, down) ∷ []) peer (first, engine)).1
    ≡ breaker_of (codes "b:1") engine
refused_rounds_never_trip_example =
    refused_rounds_never_trip ((io, down) ∷ (io, down) ∷ (io, down) ∷ []) peer first engine
      (refl, (refl, (refl, tt)))

abbrev request : StateUpdate
request = record (build_full_reply 7 second) { type = delta_update }

request_clock : VectorClock.IsValid (record { clock = request.vector_clock; node_id = node_b })
unfolding build_full_reply state copy_into set text_eq lookup
request_clock = record { distinct = (refl, (refl, tt)); nonneg = (omega arith, (omega arith, tt)) }

repeated_reply_is_empty_example :
    let (s', reply) = build_delta_reply 7 request first in
    let (s'', again) = build_delta_reply 8 request s' in
    (again.positive_state ≡ []) × (again.negative_state ≡ [])
repeated_reply_is_empty_example =
    repeated_reply_is_empty 7 8 request first first_clock request_clock.distinct
      request_clock.nonneg
