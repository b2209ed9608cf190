-- ===== src/Crdt/Delta.antt =====
-- internal/crdt/delta.go.
pub mod Lookup
pub mod Sound
pub mod Clocks
pub mod Empty
use distributed_counter.Base.{
  Text, Bool, true, false, Option, none, some, [], ◌∷◌, if◌then◌else◌, lookup, set, Int64, lt64,
}
use distributed_counter.Crdt.Counts.{Counts, count_at, merge_max, copy_into}

-- ClockNewerThan
unfoldable pub clock_newer_than : Counts → Counts → Bool
clock_newer_than [] base = false
clock_newer_than ((node, v) ∷ clock) base =
    let rest = clock_newer_than clock base in if lt64 (count_at base node) v then true else rest

-- The three results of DeltaFrom.
pub record Delta : Type 0 where
  pub positive : Counts
  pub negative : Counts
  pub clock : Counts

-- if val, ok := m[node]; ok { out[node] = val }
unfoldable pub copy_entry : Option Int64 → Text → Counts → Counts
copy_entry none node out = out
copy_entry (some val) node out = set out node val

-- One round of the loop of DeltaFrom.
unfoldable pub delta_step : Counts → Counts → Counts → Text → Int64 → Delta → Delta
unfolding copy_entry
delta_step positive negative base node v d =
    if lt64 (count_at base node) v
    then record {
      positive = copy_entry (lookup positive node) node d.positive;
      negative = copy_entry (lookup negative node) node d.negative;
      clock = set d.clock node v;
    }
    else d

unfoldable pub delta_loop : Counts → Counts → Counts → Counts → Delta → Delta
delta_loop positive negative [] base d = d
delta_loop positive negative ((node, v) ∷ clock) base d =
    delta_loop positive negative clock base (delta_step positive negative base node v d)

-- DeltaFrom
unfoldable pub delta_from : Counts → Counts → Counts → Counts → Delta
delta_from positive negative clock base =
    delta_loop positive negative clock base (record { positive = []; negative = []; clock = [] })

-- MergeClock
unfoldable pub merge_clock : Counts → Counts → Counts
merge_clock a b = merge_max (copy_into [] a) b

unfoldable pub max_from : Int64 → Counts → Int64
max_from most [] = most
max_from most ((node, v) ∷ clock) = max_from (if lt64 most v then v else most) clock

-- MaxClock
unfoldable pub max_clock : Counts → Int64
max_clock clock = max_from 0 clock
