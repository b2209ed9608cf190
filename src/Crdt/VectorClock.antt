-- ===== src/Crdt/VectorClock.antt =====
-- internal/crdt/vector_clock.go: the struct and its methods, each under its mutex. `String`, the JSON
-- text of the map, is left out.
use distributed_counter.Base.{
  Text, ◌||◌, not, [], ◌∷◌, ◌++◌, if◌then◌else◌, has_prefix, contains_byte, set, delete_if,
  Distinct, add64,
}
use distributed_counter.Crdt.Counts.{Counts, count_at, merge_max, copy_into, IsNonneg}
use distributed_counter.Crdt.Keys.{colon, default_name, is_default, counter_key}

pub record VectorClock : Type 0 where
  pub clock : Counts
  pub node_id : Text

-- NewVectorClock
unfoldable pub new : Text → VectorClock
new node_id = record { clock = []; node_id = node_id }

-- The loop tests `v.clock[node] < version`, which is the test of the counters' merge.
unfoldable pub merge_map : Counts → VectorClock → VectorClock
merge_map state v = record v { clock = merge_max v.clock state }

-- v.clock[key]++
abbrev tick : Counts → Text → Counts
tick m key = set m key (add64 (count_at m key) 1)

unfoldable pub increment : VectorClock → VectorClock
increment v = record v { clock = tick v.clock v.node_id }

unfoldable pub increment_name : Text → VectorClock → VectorClock
increment_name name v = record v { clock = tick v.clock (counter_key name v.node_id) }

unfoldable pub reset_name : Text → VectorClock → VectorClock
reset_name name v =
    if is_default name
    then (let owned = λ (k : Text).
          not (contains_byte k colon) || has_prefix k (default_name ++ (colon ∷ [])) in
        record v { clock = delete_if owned v.clock })
    else (let owned = λ (k : Text). has_prefix k (name ++ (colon ∷ [])) in
        record v { clock = delete_if owned v.clock })

unfoldable pub reset : VectorClock → VectorClock
reset v = record v { clock = [] }

unfoldable pub merge : VectorClock → VectorClock → VectorClock
merge other v = record v { clock = merge_max v.clock other.clock }

-- State(): a copy for the caller
unfoldable pub state : VectorClock → Counts
state v = copy_into [] v.clock

pub record IsValid (v : VectorClock) : Type 0 where
  pub distinct : Distinct v.clock
  pub nonneg : IsNonneg v.clock
