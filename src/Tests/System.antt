-- ===== src/Tests/System.antt =====
-- The theorems on several nodes at concrete inputs.
use distributed_counter.Base.{
  Text, ℕ, zero, suc, ◌≡◌, ◌⊎◌, refl, ap, true, false, Option, some, none, [], ◌∷◌, arith, codes,
  text_eq, lookup, set, drop, add64, contains_byte, lt64, subst,
}
use distributed_counter.Crdt.Keys.Ownership.{NoColon}
use distributed_counter.Crdt.Counts.{count_at, merge_max, merge_step, copy_into}
use distributed_counter.Crdt.Keys.{counter_key, is_default}
use distributed_counter.Crdt.VectorClock.{merge_map}
use distributed_counter.Crdt.Extensional.{SameCounts}
use distributed_counter.Crdt.PnCounter
use distributed_counter.Crdt.VectorClock
use distributed_counter.Crdt.PnCounter.Convergence.{SameCounter}
use distributed_counter.Crdt.Delta.{delta_from, delta_loop, delta_step, clock_newer_than}
use distributed_counter.Persistence.Wal.{Disk, wrote}
use distributed_counter.Cluster.Member.{Member, alive}
use distributed_counter.Gossip.Engine.{
  Net, new_gossip_engine, gossip_to_peer, build_update, is_full_sync, synchronized,
  merge_remote_state, answered, breaker_of,
}
use distributed_counter.Gossip.Circuit.{allow, new_circuit_breaker}
use distributed_counter.Service.State.{Service, Io, wal_append, persist}
use distributed_counter.Service.State
use distributed_counter.Service.Handlers.{increment, apply_increment, normalize_name, delta_of}
use distributed_counter.Service.Sync.{
  StateUpdate, sync_update, take_update, merge_update, build_full_reply, build_delta_reply,
}
use distributed_counter.System.{Cluster, put, exchange, deliver_update, acknowledged}
use distributed_counter.System.Steps.{
  Names, Reach, started, stepped, incremented, gossiped, with_service, after_gossip,
}
use distributed_counter.System.Writes.{HasRoom, written_key}
use distributed_counter.System.Pair.Round.{IsAgreed}
use distributed_counter.System.Agreement.{
  IsFresh, IsBehind, gossip_misses_nothing, same_clocks-SameCounter,
}
use distributed_counter.System.Wire.{
  Delivers, SameNode, update_for, is_full, gossip_to_peer-exchange,
}

-- "n", "an", "aan", …
abbrev node_name : ℕ → Text
node_name zero = codes "n"
node_name (suc i) = b'a' ∷ node_name i

abbrev first : Text → ℕ
first [] = 0
first (c ∷ s) = c

node_name-NoColon : (i : ℕ) → NoColon (node_name i)
unfolding contains_byte
node_name-NoColon zero = refl
node_name-NoColon (suc i) = node_name-NoColon i

node_name_inj : (i j : ℕ) → node_name i ≡ node_name j → i ≡ j
node_name_inj zero zero e = refl
node_name_inj zero (suc j) e = absurd (ground (arith, ap first e))
node_name_inj (suc i) zero e = absurd (ground (arith, ap first e))
node_name_inj (suc i) (suc j) e = ap suc (node_name_inj i j (ap (drop 1) e))

abbrev names : Names
names = record {
  id = node_name;
  address = node_name;
  no_colon = node_name-NoColon;
  id_inj = node_name_inj;
  address_inj = node_name_inj;
}

abbrev start : Cluster
start i = record { service = State.new (node_name i); engine = new_gossip_engine 0 }

start-IsFresh : IsFresh names start
unfolding State.new new_gossip_engine
start-IsFresh = record {
  node_id = λ i. refl;
  counter = λ i. refl;
  clock = λ i. refl;
  replies = λ i. refl;
  bases = λ i. refl;
}

abbrev disk : Disk
disk = record {
  opens = true;
  write = wrote;
  syncs = true;
  removes = true;
  encoded_length = λ e. 200;
}

abbrev io : Io
io = record { disk = disk; saves = true; applies = false; loads = true; now = 7 }

abbrev voted : Cluster
voted = put start 0 (with_service (start 0) (increment io (codes "votes") 3 (start 0).service).0)

room : HasRoom (written_key (codes "votes") (node_name 0)) (delta_of 3) (start 0).service
unfolding delta_of State.new count_at lookup PnCounter.new VectorClock.new
room = record { positive = omega arith; negative = omega arith; clock = omega arith }

voted-Reach : Reach names start voted
voted-Reach = stepped started (incremented 0 io (codes "votes") 3 room)

gossip_misses_nothing_example :
    let (a, b) = exchange io io false (node_name 1) (voted 0) (voted 1) in
    IsAgreed a.service b.service ⊎ IsBehind (voted 0).service (voted 1).service
gossip_misses_nothing_example =
    gossip_misses_nothing names start voted 0 1 io io false start-IsFresh voted-Reach

abbrev told : Cluster
told = after_gossip names voted 0 1 io io true

told-Reach : Reach names start told
told-Reach = stepped voted-Reach (gossiped 0 1 io io true (λ e. absurd (omega (arith, e))))

told_clocks : SameCounts (told 0).service.clock.clock (told 1).service.clock.clock
unfolding exchange deliver_update acknowledged synchronized sync_update take_update merge_update
    build_update build_full_reply wal_append persist increment apply_increment merge_map merge_max
    merge_step copy_into set lookup count_at State.new VectorClock.new VectorClock.increment_name
    counter_key normalize_name is_default text_eq merge_remote_state VectorClock.state lt64 add64
    new_gossip_engine
told_clocks k = refl

same_clocks-SameCounter_example : SameCounter (told 0).service.counter (told 1).service.counter
same_clocks-SameCounter_example =
    same_clocks-SameCounter names start told 0 1 start-IsFresh told-Reach told_clocks

abbrev peer : Member
peer = record {
  id = node_name 1;
  address = node_name 1;
  status = alive;
  is_active = true;
  counter_value = 0;
  last_heartbeat = 1;
  suspect_count = 0;
  priority = 2;
}

abbrev or_blank : StateUpdate → Option StateUpdate → StateUpdate
or_blank blank none = blank
or_blank blank (some u) = u

-- What node 0 sends to node 1, and the answer.
abbrev sent : Option StateUpdate
sent = update_for io (node_name 1) (voted 0).service (voted 0).engine

abbrev reply_to : StateUpdate → Option StateUpdate
reply_to u = (sync_update io u (voted 1).service).1

abbrev blank : StateUpdate
blank = build_full_reply 0 (start 0).service

abbrev first_update : StateUpdate
first_update = or_blank blank sent

abbrev first_reply : StateUpdate
first_reply = or_blank blank (reply_to first_update)

abbrev net : Net
net = record {
  first_dial = true;
  first_stream = true;
  outcome = λ attempt. answered first_reply;
  started = 10;
  failed = 20;
}

first_reply-eq : reply_to first_update ≡ some first_reply
unfolding sync_update build_update is_full_sync delta_from delta_loop delta_step build_delta_reply
    increment apply_increment State.new VectorClock.new VectorClock.increment_name VectorClock.state
    copy_into set lookup count_at counter_key normalize_name is_default text_eq lt64 wal_append
    persist add64 clock_newer_than new_gossip_engine
first_reply-eq = refl

sent-some : sent ≡ some first_update
unfolding build_update is_full_sync delta_from delta_loop delta_step increment apply_increment
    State.new VectorClock.new VectorClock.increment_name VectorClock.state copy_into set lookup
    count_at counter_key normalize_name is_default text_eq lt64 wal_append persist add64
    clock_newer_than new_gossip_engine
sent-some = refl

delivers : Delivers net io (voted 1).service sent
delivers = record {
  dials = refl;
  streams = refl;
  answers = λ u e. (
    first_reply,
    subst (λ x. reply_to x ≡ some first_reply) (ap (or_blank blank) e) first_reply-eq,
    refl,
  );
}

gossip_to_peer-exchange_example :
    SameNode
      (gossip_to_peer io net peer ((voted 0).service, (voted 0).engine))
      (exchange io io
        (is_full (node_name 1) (voted 0).service (voted 0).engine)
        (node_name 1)
        (voted 0)
        (voted 1)).0
unfolding allow breaker_of new_gossip_engine lookup set new_circuit_breaker text_eq
gossip_to_peer-exchange_example =
    gossip_to_peer-exchange io io net peer 2 (voted 0).service (voted 0).engine (voted 1) refl refl
      delivers
