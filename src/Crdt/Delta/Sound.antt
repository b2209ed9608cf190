-- ===== src/Crdt/Delta/Sound.antt =====
-- internal/crdt/delta.go: the merge of a delta beside the merge of the full state.
use distributed_counter.Base.{
  Text, ◌≤◌, ◌<◌, ◌≡◌, ◌∙◌, sym, none, [], ◌∷◌, arith, inl, inr, max, if◌then◌else◌, Bool-cases,
  Option-cases, lookup, Distinct, set-Distinct, AllValues-set, AllValues-lookup, Int64, lt64,
  i64_half,
}
use distributed_counter.Crdt.Counts.{Counts, count_at, count_at_absent, count_at-lookup, IsNonneg}
use distributed_counter.Crdt.Copies.{copy_into-nil}
use distributed_counter.Crdt.PnCounter.{PnCounter, merge, remote_counter, IsValid}
use distributed_counter.Crdt.PnCounter.Convergence.{SameCounter, merge_pointwise}
use distributed_counter.Crdt.Delta.{Delta, copy_entry, delta_step, delta_loop, delta_from}
use distributed_counter.Crdt.Delta.Lookup.{is_newer, is_newer_iff, lookup-delta_from}

-- What a delta's maps need of Go maps and of counts.
record IsProper (m : Counts) : Type 0 where
  distinct : Distinct m
  nonneg : IsNonneg m

copy_entry-IsProper :
    (source out : Counts) (node : Text)
    → IsNonneg source
    → IsProper out
    → IsProper (copy_entry (lookup source node) node out)
unfolding copy_entry
copy_entry-IsProper source out node h p = elim (Option-cases (lookup source node)) [
  | inl e ↦ rw e p
  | inr (v, e) ↦ rw e (record {
    distinct = set-Distinct out node v p.distinct;
    nonneg =
        AllValues-set (λ w. w < i64_half) out node v p.nonneg
          (AllValues-lookup (λ w. w < i64_half) source node h e);
  })
]

delta_step-IsProper :
    (pos neg base : Counts) (node : Text) (v : Int64) (d : Delta)
    → IsNonneg pos
    → IsNonneg neg
    → IsProper d.positive
    → IsProper d.negative
    → IsProper (delta_step pos neg base node v d).positive
      × IsProper (delta_step pos neg base node v d).negative
unfolding delta_step
delta_step-IsProper pos neg base node v d hp hn dp dn =
    elim (Bool-cases (lt64 (count_at base node) v)) [
      | inl e ↦ rw e (
        copy_entry-IsProper pos d.positive node hp dp,
        copy_entry-IsProper neg d.negative node hn dn,
      )
      | inr e ↦ rw e (dp, dn)
    ]

delta_loop-IsProper :
    (pos neg clock base : Counts) (d : Delta)
    → IsNonneg pos
    → IsNonneg neg
    → IsProper d.positive
    → IsProper d.negative
    → IsProper (delta_loop pos neg clock base d).positive
      × IsProper (delta_loop pos neg clock base d).negative
unfolding delta_loop
delta_loop-IsProper pos neg [] base d hp hn dp dn = (dp, dn)
delta_loop-IsProper pos neg ((node, v) ∷ clock) base d hp hn dp dn =
    let next = delta_step-IsProper pos neg base node v d hp hn dp dn in
    delta_loop-IsProper pos neg clock base (delta_step pos neg base node v d) hp hn next.0 next.1

delta_from-IsProper :
    (s : PnCounter) (clock base : Counts)
    → IsValid s
    → let d = delta_from s.positive s.negative clock base in
      IsProper d.positive × IsProper d.negative
unfolding delta_from
delta_from-IsProper s clock base h =
    delta_loop-IsProper s.positive s.negative clock base
      (record { positive = []; negative = []; clock = [] }) h.positive_nonneg h.negative_nonneg
      (record { distinct = tt; nonneg = tt }) (record { distinct = tt; nonneg = tt })

-- The maps of the delta, as a receiver rebuilds them.
delta-maps :
    (s : PnCounter) (clock base : Counts)
    → IsValid s
    → let d = delta_from s.positive s.negative clock base in
      ((remote_counter d.positive d.negative).positive ≡ d.positive)
      × ((remote_counter d.positive d.negative).negative ≡ d.negative)
unfolding remote_counter
delta-maps s clock base h =
    let (p, n) = delta_from-IsProper s clock base h in
    (copy_into-nil _ p.distinct, copy_into-nil _ n.distinct)

pub delta-IsValid :
    (s : PnCounter) (clock base : Counts)
    → IsValid s
    → let d = delta_from s.positive s.negative clock base in
      IsValid (remote_counter d.positive d.negative)
delta-IsValid s clock base h =
    let (p, n) = delta_from-IsProper s clock base h in
    let (ep, en) = delta-maps s clock base h in
    record {
      positive_distinct = rw ep p.distinct;
      negative_distinct = rw en n.distinct;
      positive_nonneg = rw ep p.nonneg;
      negative_nonneg = rw en n.nonneg;
    }

-- At one key: the delta carries the entry, or the receiver's is as large.
max_of_delta :
    (m d r clock base : Counts) (k : Text)
    → IsNonneg clock
    → IsNonneg base
    → lookup d k ≡ (if is_newer (lookup clock k) (count_at base k) then lookup m k else none)
    → (count_at clock k ≤ count_at base k → count_at m k ≤ count_at r k)
    → max (count_at r k) (count_at d k) ≡ max (count_at r k) (count_at m k)
max_of_delta m d r clock base k hc hb e knows =
    elim (Bool-cases (is_newer (lookup clock k) (count_at base k))) [
      | inl t ↦ rw (count_at-lookup d m k (rw t at e))
      | inr t ↦
          let covered = knows (ground (arith, is_newer_iff clock base k hc hb, t)) in
          omega (arith, count_at_absent d k (rw t at e), covered)
    ]

-- Delta gossip loses nothing. Let the receiver hold every entry of the sender at which the sender's
-- clock does not exceed the base. Then the delta against that base, rebuilt as the receiver rebuilds
-- it, merges to what the sender's full state would merge to, at every key of both maps.
pub delta_merges_like_full :
    (s r : PnCounter) (clock base : Counts)
    → IsValid s
    → IsValid r
    → Distinct clock
    → IsNonneg clock
    → IsNonneg base
    → ((k : Text)
        → count_at clock k ≤ count_at base k
        → (count_at s.positive k ≤ count_at r.positive k)
          × (count_at s.negative k ≤ count_at r.negative k))
    → let d = delta_from s.positive s.negative clock base in
      SameCounter (merge (remote_counter d.positive d.negative) r) (merge s r)
delta_merges_like_full s r clock base hs hr dc hc hb knows = record {
  positive = λ k. half_pos k;
  negative = λ k. half_neg k;
}
  where
    d : Delta
    d = delta_from s.positive s.negative clock base

    hd : IsValid (remote_counter d.positive d.negative)
    hd = delta-IsValid s clock base hs

    half_pos :
        (k : Text)
        → count_at (merge (remote_counter d.positive d.negative) r).positive k
          ≡ count_at (merge s r).positive k
    half_pos k =
        (merge_pointwise (remote_counter d.positive d.negative) r k hd hr).0
        ∙ rw (delta-maps s clock base hs).0 (
            max_of_delta s.positive d.positive r.positive clock base k hc hb
              (lookup-delta_from s.positive s.negative clock base k dc).0 (λ c. (knows k c).0))
        ∙ sym (merge_pointwise s r k hs hr).0

    half_neg :
        (k : Text)
        → count_at (merge (remote_counter d.positive d.negative) r).negative k
          ≡ count_at (merge s r).negative k
    half_neg k =
        (merge_pointwise (remote_counter d.positive d.negative) r k hd hr).1
        ∙ rw (delta-maps s clock base hs).1 (
            max_of_delta s.negative d.negative r.negative clock base k hc hb
              (lookup-delta_from s.positive s.negative clock base k dc).1 (λ c. (knows k c).1))
        ∙ sym (merge_pointwise s r k hs hr).1
