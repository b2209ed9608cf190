-- ===== src/Crdt/PnCounter/Convergence.antt =====
-- Merges of PNCounter, key by key and in sequences.
use mathlib.Core.List.{Mem, mem-cons_self, mem-cons_of_mem, not-mem-nil, mem-cons}
use mathlib.Core.Logic.Or
use native.Mathlib.Bridge.{le_prop}
use native.Mathlib.Nat.{le_antisymm}
use distributed_counter.Base.{Text, ◌≤◌, ◌≡◌, ℕ, [], ◌∷◌, List, arith, max}
use distributed_counter.Crdt.Counts.{
  count_at, count_at-merge_max, merge_max-IsNonneg, merge_max-Distinct,
}
use distributed_counter.Crdt.Keys.{key_belongs_to}
use distributed_counter.Crdt.Extensional.{SameCounts, sum_if-SameCounts}
use distributed_counter.Crdt.PnCounter.{PnCounter, merge, value_name, IsValid}

-- Two counters that read alike in both maps.
pub record SameCounter (p q : PnCounter) : Type 0 where
  pub positive : SameCounts p.positive q.positive
  pub negative : SameCounts p.negative q.negative

pub merge-IsValid : (other p : PnCounter) → IsValid other → IsValid p → IsValid (merge other p)
unfolding merge
merge-IsValid other p ho hp = record {
  positive_distinct = merge_max-Distinct p.positive other.positive hp.positive_distinct;
  negative_distinct = merge_max-Distinct p.negative other.negative hp.negative_distinct;
  positive_nonneg =
      merge_max-IsNonneg p.positive other.positive hp.positive_nonneg ho.positive_nonneg;
  negative_nonneg =
      merge_max-IsNonneg p.negative other.negative hp.negative_nonneg ho.negative_nonneg;
}

-- Merge is the maximum of the two counters at every key of either map.
pub merge_pointwise :
    (other p : PnCounter) (k : Text)
    → IsValid other
    → IsValid p
    → (count_at (merge other p).positive k
        ≡ max (count_at p.positive k) (count_at other.positive k))
      × (count_at (merge other p).negative k
          ≡ max (count_at p.negative k) (count_at other.negative k))
unfolding merge
merge_pointwise other p k ho hp = (
  count_at-merge_max p.positive other.positive k hp.positive_nonneg ho.positive_nonneg
      ho.positive_distinct,
  count_at-merge_max p.negative other.negative k hp.negative_nonneg ho.negative_nonneg
      ho.negative_distinct,
)

-- Counters that read alike have the same value for every name.
pub value_name-SameCounter :
    (name : Text) (p q : PnCounter)
    → IsValid p
    → IsValid q
    → SameCounter p q
    → value_name name p ≡ value_name name q
unfolding value_name
value_name-SameCounter name p q hp hq s =
    rw
      (sum_if-SameCounts (key_belongs_to name) p.positive q.positive hp.positive_distinct
        hq.positive_distinct s.positive)
      (rw (
        sum_if-SameCounts (key_belongs_to name) p.negative q.negative hp.negative_distinct
          hq.negative_distinct s.negative))

-- The merges of a replica, in the order in which the states arrive.
pub merge_all : List PnCounter → PnCounter → PnCounter
merge_all [] p = p
merge_all (u ∷ us) p = merge_all us (merge u p)

abbrev pub AllValid : List PnCounter → Type 0
AllValid [] = Unit
AllValid (u ∷ us) = IsValid u × AllValid us

pub merge_all-IsValid :
    (us : List PnCounter) (p : PnCounter) → AllValid us → IsValid p → IsValid (merge_all us p)
unfolding merge_all
merge_all-IsValid [] p hu hp = hp
merge_all-IsValid (u ∷ us) p hu hp =
    merge_all-IsValid us (merge u p) hu.1 (merge-IsValid u p hu.0 hp)

-- A reading of counters that every merge turns into a maximum.
module _ (read : PnCounter → ℕ)
    (reads_max : (o p : PnCounter)
      → IsValid o
      → IsValid p
      → read (merge o p) ≡ max (read p) (read o)) where
  le-merge_all :
      (us : List PnCounter) (p : PnCounter)
      → AllValid us
      → IsValid p
      → read p ≤ read (merge_all us p)
  unfolding merge_all
  le-merge_all [] p hu hp = omega arith
  le-merge_all (u ∷ us) p hu hp =
      omega
        (arith, le-merge_all us (merge u p) hu.1 (merge-IsValid u p hu.0 hp), reads_max u p hu.0 hp)

  mem-le-merge_all :
      (us : List PnCounter) (p u : PnCounter)
      → AllValid us
      → IsValid p
      → Mem u us
      → read u ≤ read (merge_all us p)
  unfolding merge_all
  mem-le-merge_all [] p u hu hp m = absurd (not-mem-nil m)
  mem-le-merge_all (w ∷ us) p u hu hp m =
      let next = merge-IsValid w p hu.0 hp in
      Or.elim le_prop (mem-cons.0 m)
        (λ e. rw e (omega (arith, le-merge_all us (merge w p) hu.1 next, reads_max w p hu.0 hp)))
        (λ later. mem-le-merge_all us (merge w p) u hu.1 next later)

  merge_all-le :
      (us : List PnCounter) (p : PnCounter) (bound : ℕ)
      → AllValid us
      → IsValid p
      → read p ≤ bound
      → ((u : PnCounter) → Mem u us → read u ≤ bound)
      → read (merge_all us p) ≤ bound
  unfolding merge_all
  merge_all-le [] p bound hu hp h all = h
  merge_all-le (u ∷ us) p bound hu hp h all =
      merge_all-le us (merge u p) bound hu.1 (merge-IsValid u p hu.0 hp)
        (omega (arith, reads_max u p hu.0 hp, all u mem-cons_self))
        (λ w m. all w (mem-cons_of_mem u m))

  reads_converge :
      (us vs : List PnCounter) (p : PnCounter)
      → AllValid us
      → AllValid vs
      → IsValid p
      → ((u : PnCounter) → Mem u us → Mem u vs)
      → ((u : PnCounter) → Mem u vs → Mem u us)
      → read (merge_all us p) ≡ read (merge_all vs p)
  reads_converge us vs p hu hv hp into back =
      le_antisymm
        (merge_all-le us p (read (merge_all vs p)) hu hp (le-merge_all vs p hv hp)
          (λ u m. mem-le-merge_all vs p u hv hp (into u m)))
        (merge_all-le vs p (read (merge_all us p)) hv hp (le-merge_all us p hu hp)
          (λ u m. mem-le-merge_all us p u hu hp (back u m)))

-- Strong eventual consistency: two replicas that start alike and merge the same set of valid states,
-- in any order and with any repetitions, read alike in both maps and report the same value for every
-- counter name.
pub replicas_converge :
    (us vs : List PnCounter) (p : PnCounter)
    → AllValid us
    → AllValid vs
    → IsValid p
    → ((u : PnCounter) → Mem u us → Mem u vs)
    → ((u : PnCounter) → Mem u vs → Mem u us)
    → SameCounter (merge_all us p) (merge_all vs p)
      × ((name : Text) → value_name name (merge_all us p) ≡ value_name name (merge_all vs p))
replicas_converge us vs p hu hv hp into back = (
  same,
  λ name.
      value_name-SameCounter name (merge_all us p) (merge_all vs p) (merge_all-IsValid us p hu hp)
        (merge_all-IsValid vs p hv hp) same,
)
  where
    same : SameCounter (merge_all us p) (merge_all vs p)
    same = record {
      positive = λ k.
          reads_converge (λ c. count_at c.positive k) (λ o c ho hc. (merge_pointwise o c k ho hc).0)
            us vs p hu hv hp into back;
      negative = λ k.
          reads_converge (λ c. count_at c.negative k) (λ o c ho hc. (merge_pointwise o c k ho hc).1)
            us vs p hu hv hp into back;
    }
