-- ===== src/Service/Handlers.antt =====
-- internal/service/counter_service.go: the handlers that clients call. The address lists and times of a
-- response are left out.
use distributed_counter.Base.{
  Text, ℕ, ◌+◌, ◌-◌, ◌^◌, List, [], ◌∷◌, if◌then◌else◌, ltb, ◌==◌, codes, text_eq, Int64, set,
}
use distributed_counter.Crdt.PnCounter
use distributed_counter.Crdt.PnCounter.{value_name}
use distributed_counter.Crdt.VectorClock
use distributed_counter.Service.State.{
  Service, Io, op_increment, op_decrement, op_reset, wal_append, persist,
}

abbrev pub default_counter : Text
default_counter = codes "default"

-- normalizeName
unfoldable pub normalize_name : Text → Text
normalize_name name = if text_eq name [] then default_counter else name

-- int64(req.Delta), of the bit pattern of an int32, and one where the request has none
unfoldable pub delta_of : ℕ → Int64
delta_of d =
    let wide = if ltb d (2 ^ 31) then d else d + (2 ^ 64 - 2 ^ 32) in if wide == 0 then 1 else wide

pub record CounterResponse : Type 0 where
  pub node_id : Text
  pub counter_name : Text
  pub current_value : Int64

-- buildResponse
unfoldable pub build_response : Text → Service → CounterResponse
build_response name s = record {
  node_id = s.node_id;
  counter_name = name;
  current_value = value_name name s.counter;
}

-- What Increment, Decrement and Reset do to the counter and the clock, under a normalized name.
unfoldable pub apply_increment : Text → Int64 → Service → Service
apply_increment name delta s = record s {
  counter = PnCounter.increment_name name delta s.counter;
  clock = VectorClock.increment_name name s.clock;
}

unfoldable pub apply_decrement : Text → Int64 → Service → Service
apply_decrement name delta s = record s {
  counter = PnCounter.decrement_name name delta s.counter;
  clock = VectorClock.increment_name name s.clock;
}

unfoldable pub apply_reset : Text → Service → Service
apply_reset name s = record s {
  counter = PnCounter.reset_name name s.counter;
  clock = VectorClock.reset_name name s.clock;
  last_sync_clock = [];
}

unfoldable pub increment : Io → Text → ℕ → Service → Service × CounterResponse
unfolding apply_increment
increment io counter_name d s =
    let name = normalize_name counter_name in
    let delta = delta_of d in
    let s' =
      persist io (wal_append io op_increment name delta [] [] [] (apply_increment name delta s)) in
    (s', build_response name s')

unfoldable pub decrement : Io → Text → ℕ → Service → Service × CounterResponse
unfolding apply_decrement
decrement io counter_name d s =
    let name = normalize_name counter_name in
    let delta = delta_of d in
    let s' =
      persist io (wal_append io op_decrement name delta [] [] [] (apply_decrement name delta s)) in
    (s', build_response name s')

-- Reset; `on_reset` is the callback, on the state that it changes.
unfoldable pub reset {ℓ} :
    {E : Type ℓ} → (E → E) → Io → Text → Service × E → (Service × E) × CounterResponse
unfolding apply_reset
reset on_reset io counter_name (s, engine) =
    let name = normalize_name counter_name in
    let s' = persist io (wal_append io op_reset name 0 [] [] [] (apply_reset name s)) in
    ((s', on_reset engine), build_response name s')

-- GetValue
unfoldable pub get_value : Text → Service → CounterResponse
unfolding build_response
get_value counter_name s = build_response (normalize_name counter_name) s

-- SetShardCount
unfoldable pub set_shard_count : ℕ → Service → Service
set_shard_count n s = record s { counter_shards = if ltb n 1 then 1 else n }

-- CreateCounter, up to its response
unfoldable pub create_counter : Text → List Text → Service → Service
create_counter counter_name tags s = elim tags [
  | [] ↦ s
  | t ∷ ts ↦ record s { tags = set s.tags (normalize_name counter_name) (t ∷ ts) }
]
