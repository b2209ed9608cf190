-- ===== src/Crdt/Delta/Clocks.antt =====
-- The functions of delta.go on clocks against their meaning at each key.
use distributed_counter.Base.{
  Text, ℕ, ◌≤◌, ◌<◌, ◌≡◌, ◌↔◌, refl, true, false, none, lookup, [], ◌∷◌, arith, inl, inr, max,
  if◌then◌else◌, Bool-cases, Distinct, Int64, lt64_nonneg, i64_half, text_eq, text_eq_iff,
  text_eq_refl, ltb,
}
use distributed_counter.Crdt.Counts.{
  Counts, count_at, count_at-lt, count_at-nil, count_at-cons, count_at_absent, IsNonneg,
  count_at-merge_max,
}
use distributed_counter.Crdt.Copies.{copy_into-nil}
use distributed_counter.Crdt.Delta.{clock_newer_than, merge_clock, max_from, max_clock}

newer_head :
    (node : Text) (v : Int64) (clock base : Counts)
    → IsNonneg ((node, v) ∷ clock)
    → IsNonneg base
    → clock_newer_than ((node, v) ∷ clock) base
      ≡ (if ltb (count_at base node) v then true else clock_newer_than clock base)
unfolding clock_newer_than
newer_head node v clock base hc hb =
    rw (lt64_nonneg (count_at base node) v (count_at-lt base node hb) hc.0)

tail_le :
    (node k : Text) (v : Int64) (clock base : Counts)
    → lookup clock node ≡ none
    → count_at ((node, v) ∷ clock) k ≤ count_at base k
    → count_at clock k ≤ count_at base k
tail_le node k v clock base a h =
    ground (arith, count_at-cons node k v clock, count_at_absent clock node a, text_eq_iff node k)

-- ClockNewerThan answers false exactly when the base covers the clock at every key.
pub clock_newer_than_iff :
    (clock base : Counts)
    → Distinct clock
    → IsNonneg clock
    → IsNonneg base
    → (clock_newer_than clock base ≡ false) ↔ ((k : Text) → count_at clock k ≤ count_at base k)
clock_newer_than_iff [] base d hc hb =
    (λ _ k. omega (arith, count_at-nil k), λ _. unfold clock_newer_than in refl)
clock_newer_than_iff ((node, v) ∷ clock) base d hc hb =
    let (into, back) = clock_newer_than_iff clock base d.1 hc.1 hb in
    let head = newer_head node v clock base hc hb in
    (
      λ h k. elim (Bool-cases (text_eq node k)) [
        | inl e ↦ rw count_at-cons (rw e (rw (← ((text_eq_iff node k).0 e)) (ground arith)))
        | inr e ↦ rw count_at-cons (rw e (into (ground arith) k))
      ],
      λ all. ground (
        arith,
        all node,
        count_at-cons node node v clock,
        text_eq_refl node,
        back (λ k. tail_le node k v clock base d.0 (all k)),
      ),
    )

-- MergeClock is the maximum at every key.
pub merge_clock_pointwise :
    (a b : Counts) (k : Text)
    → Distinct a
    → IsNonneg a
    → Distinct b
    → IsNonneg b
    → count_at (merge_clock a b) k ≡ max (count_at a k) (count_at b k)
unfolding merge_clock
merge_clock_pointwise a b k da ha db hb =
    rw (copy_into-nil a da) (count_at-merge_max a b k ha hb db)

max_from_bounds :
    (most : Int64) (clock : Counts) (k : Text)
    → most < i64_half
    → IsNonneg clock
    → (most ≤ max_from most clock) × (count_at clock k ≤ max_from most clock)
unfolding max_from
max_from_bounds most [] k hm hc = (omega arith, omega (arith, count_at-nil k))
max_from_bounds most ((node, v) ∷ clock) k hm hc = ground (
  arith,
  lt64_nonneg most v,
  count_at-cons node k v clock,
  max_from_bounds most clock k hm hc.1,
  max_from_bounds v clock k hc.0 hc.1,
)

max_from-le :
    (most bound : Int64) (clock : Counts)
    → most ≤ bound
    → most < i64_half
    → Distinct clock
    → IsNonneg clock
    → ((k : Text) → count_at clock k ≤ bound)
    → max_from most clock ≤ bound
unfolding max_from
max_from-le most bound [] h hm d hc all = h
max_from-le most bound ((node, v) ∷ clock) h hm d hc all =
    let this = all node in
    let rest = λ (k : Text). tail_bound node k v clock bound d.0 (all k) in
    ground (
      arith,
      lt64_nonneg most v,
      count_at-cons node node v clock,
      text_eq_refl node,
      this,
      max_from-le most bound clock h hm d.1 hc.1 rest,
      λ (g : v ≤ bound). max_from-le v bound clock g hc.0 d.1 hc.1 rest,
    )
  where
    tail_bound :
        (node k : Text) (v : Int64) (clock : Counts) (bound : ℕ)
        → lookup clock node ≡ none
        → count_at ((node, v) ∷ clock) k ≤ bound
        → count_at clock k ≤ bound
    tail_bound node k v clock bound a h =
        ground
          (arith, count_at-cons node k v clock, count_at_absent clock node a, text_eq_iff node k)

-- MaxClock is the least upper bound of what a clock without negative entries reads at any key.
pub max_clock_lub :
    (clock : Counts) (bound : ℕ)
    → Distinct clock
    → IsNonneg clock
    → ((k : Text) → count_at clock k ≤ max_clock clock)
      × (((k : Text) → count_at clock k ≤ bound) → max_clock clock ≤ bound)
unfolding max_clock
max_clock_lub clock bound d hc = (
  λ k. (max_from_bounds 0 clock k (omega arith) hc).1,
  λ all. max_from-le 0 bound clock (omega arith) (omega arith) d hc all,
)
