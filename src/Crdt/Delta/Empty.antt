-- ===== src/Crdt/Delta/Empty.antt =====
-- Which deltas of internal/crdt/delta.go are empty.
use distributed_counter.Base.{
  Text, ◌≡◌, refl, Bool, true, false, ◌&&◌, not, [], ◌∷◌, arith, inl, inr, if◌then◌else◌,
  Bool-cases, Int64, lt64, set,
}
use distributed_counter.Crdt.Counts.{Counts, count_at}
use distributed_counter.Crdt.Delta.{Delta, delta_step, delta_loop, delta_from, clock_newer_than}

abbrev pub is_empty : Counts → Bool
is_empty [] = true
is_empty (entry ∷ m) = false

set-is_full : (m : Counts) (k : Text) (v : Int64) → is_empty (set m k v) ≡ false
unfolding set
set-is_full [] k v = refl
set-is_full ((j, w) ∷ m) k v = ground arith

is_empty-delta_step :
    (pos neg base : Counts) (node : Text) (v : Int64) (d : Delta)
    → is_empty (delta_step pos neg base node v d).clock
      ≡ (if lt64 (count_at base node) v then false else is_empty d.clock)
unfolding delta_step
is_empty-delta_step pos neg base node v d = elim (Bool-cases (lt64 (count_at base node) v)) [
  | inl e ↦ rw e (set-is_full d.clock node v)
  | inr e ↦ rw e refl
]

is_empty-delta_loop :
    (pos neg clock base : Counts) (d : Delta)
    → is_empty (delta_loop pos neg clock base d).clock
      ≡ (is_empty d.clock && not (clock_newer_than clock base))
unfolding delta_loop clock_newer_than
is_empty-delta_loop pos neg [] base d = ground arith
is_empty-delta_loop pos neg ((node, v) ∷ clock) base d = ground (
  arith,
  is_empty-delta_loop pos neg clock base (delta_step pos neg base node v d),
  is_empty-delta_step pos neg base node v d,
)

-- A delta is empty exactly where the clock is not newer than the base.
pub is_empty-delta_from :
    (pos neg clock base : Counts)
    → is_empty (delta_from pos neg clock base).clock ≡ not (clock_newer_than clock base)
unfolding delta_from
is_empty-delta_from pos neg clock base =
    is_empty-delta_loop pos neg clock base (record { positive = []; negative = []; clock = [] })
