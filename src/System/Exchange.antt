-- ===== src/System/Exchange.antt =====
-- What an update carries from one node to another.
use distributed_counter.Base.{Text, ℕ, ◌≤◌, ◌≡◌, refl, sym, ◌∙◌, ap, arith, max, [], subst}
use distributed_counter.Crdt.Counts.{Counts, count_at, IsNonneg, count_at-merge_max}
use distributed_counter.Crdt.Copies.{copy_into-nil}
use distributed_counter.Crdt.PnCounter
use distributed_counter.Crdt.PnCounter.{
  PnCounter, merge, remote_counter, positive_copy, negative_copy,
}
use distributed_counter.Crdt.PnCounter.Convergence.{SameCounter, merge_pointwise, merge-IsValid}
use distributed_counter.Crdt.VectorClock
use distributed_counter.Crdt.VectorClock.{VectorClock, merge_map, state}
use distributed_counter.Crdt.Delta.{Delta, delta_from}
use distributed_counter.Crdt.Delta.Sound.{delta_merges_like_full, delta-IsValid}
use distributed_counter.Gossip.Engine.{merge_remote_state}
use distributed_counter.Gossip.Engine.Rounds.{
  wal_append-SameData, persist-SameData, merge-copies, merge_map-copy, merge_map-IsValid,
}
use distributed_counter.Service.State.{Service, Io, op_merge}
use distributed_counter.Service.Sync.{StateUpdate, build_full_reply, merge_update, take_update}
use distributed_counter.System.History.{History, version, IsVersioned, HasReceived, knows}

-- The update gives the receiver what a merge with the sender would.
pub record Carries (a b : Service) (u : StateUpdate) : Type 0 where
  pub merged :
      SameCounter
        (merge (remote_counter u.positive_state u.negative_state) b.counter)
        (merge a.counter b.counter)
  pub valid : PnCounter.IsValid (merge (remote_counter u.positive_state u.negative_state) b.counter)
  pub clock : u.vector_clock ≡ state a.clock

merge_map_pointwise :
    (v w : VectorClock) (k : Text)
    → VectorClock.IsValid v
    → VectorClock.IsValid w
    → count_at (merge_map v.clock w).clock k ≡ max (count_at v.clock k) (count_at w.clock k)
unfolding merge_map
merge_map_pointwise v w k hv hw =
    omega (arith, count_at-merge_max w.clock v.clock k hw.nonneg hv.nonneg hv.distinct)

received :
    (h : History) (a b : Service) (u : StateUpdate) (counter : PnCounter) (clock : VectorClock)
    → IsVersioned h a
    → IsVersioned h b
    → Carries a b u
    → (b' : Service)
    → b'.counter ≡ merge (remote_counter u.positive_state u.negative_state) b.counter
    → b'.clock ≡ merge_map u.vector_clock b.clock
    → HasReceived a b b'
received h a b u counter clock ha hb c b' ec ek =
    let clocks =
      ek ∙ ap (λ m. merge_map m b.clock) c.clock ∙ merge_map-copy a.clock b.clock ha.clock_valid in
    record {
      counter_valid = subst PnCounter.IsValid (sym ec) c.valid;
      clock_valid =
          subst VectorClock.IsValid (sym clocks)
            (merge_map-IsValid a.clock b.clock ha.clock_valid hb.clock_valid);
      clock = λ k.
          ap (λ (v : VectorClock). count_at v.clock k) clocks
          ∙ merge_map_pointwise a.clock b.clock k ha.clock_valid hb.clock_valid;
      positive = λ k.
          ap (λ (p : PnCounter). count_at p.positive k) ec
          ∙ c.merged.positive k
          ∙ omega
              (arith, (merge_pointwise a.counter b.counter k ha.counter_valid hb.counter_valid).0);
      negative = λ k.
          ap (λ (p : PnCounter). count_at p.negative k) ec
          ∙ c.merged.negative k
          ∙ omega
              (arith, (merge_pointwise a.counter b.counter k ha.counter_valid hb.counter_valid).1);
    }

pub take_update-HasReceived :
    (h : History) (io : Io) (a b : Service) (u : StateUpdate)
    → IsVersioned h a
    → IsVersioned h b
    → Carries a b u
    → HasReceived a b (take_update io u b)
unfolding take_update merge_update
take_update-HasReceived h io a b u ha hb c =
    received h a b u a.counter a.clock ha hb c (take_update io u b)
      ((persist-SameData io _).counter ∙ (wal_append-SameData io op_merge [] 0 _ _ _ _).counter)
      ((persist-SameData io _).clock ∙ (wal_append-SameData io op_merge [] 0 _ _ _ _).clock)

pub merge_remote_state-HasReceived :
    (h : History) (io : Io) (a b : Service) (u : StateUpdate)
    → IsVersioned h a
    → IsVersioned h b
    → Carries a b u
    → HasReceived a b (merge_remote_state io u b)
unfolding merge_remote_state merge_update
merge_remote_state-HasReceived h io a b u ha hb c =
    received h a b u a.counter a.clock ha hb c (merge_remote_state io u b)
      (wal_append-SameData io op_merge [] 0 _ _ _ _).counter
      (wal_append-SameData io op_merge [] 0 _ _ _ _).clock

pub full-Carries :
    (h : History) (now : ℕ) (a b : Service)
    → IsVersioned h a
    → IsVersioned h b
    → Carries a b (build_full_reply now a)
unfolding build_full_reply
full-Carries h now a b ha hb =
    let same = merge-copies a.counter b.counter ha.counter_valid in
    record {
      merged =
          subst (λ x. SameCounter x (merge a.counter b.counter)) (sym same)
            (record { positive = λ k. refl; negative = λ k. refl });
      valid =
          subst PnCounter.IsValid (sym same)
            (merge-IsValid a.counter b.counter ha.counter_valid hb.counter_valid);
      clock = refl;
    }

-- The copies that a valid node takes of its maps are the maps.
same_delta :
    (a : Service) (base : Counts)
    → PnCounter.IsValid a.counter
    → VectorClock.IsValid a.clock
    → delta_from (positive_copy a.counter) (negative_copy a.counter) (state a.clock) base
      ≡ delta_from a.counter.positive a.counter.negative a.clock.clock base
unfolding positive_copy negative_copy state
same_delta a base v w =
    rw
      (
        copy_into-nil a.counter.positive v.positive_distinct,
        copy_into-nil a.counter.negative v.negative_distinct,
        copy_into-nil a.clock.clock w.distinct,
      )
      refl

-- A delta against a base that the receiver's clock covers.
pub delta-Carries :
    (h : History) (a b : Service) (base : Counts) (u : StateUpdate)
    → IsVersioned h a
    → IsVersioned h b
    → IsNonneg base
    → ((k : Text) → count_at base k ≤ version b k)
    → let d = delta_from (positive_copy a.counter) (negative_copy a.counter) (state a.clock) base in
      u.positive_state ≡ d.positive
      → u.negative_state ≡ d.negative
      → u.vector_clock ≡ state a.clock
      → Carries a b u
delta-Carries h a b base u ha hb nb covered ep en ek =
    let p = a.counter.positive in
    let n = a.counter.negative in
    let c = a.clock.clock in
    let d = delta_from p n c base in
    let same = same_delta a base ha.counter_valid ha.clock_valid in
    let rebuilt : remote_counter u.positive_state u.negative_state
        ≡ remote_counter d.positive d.negative =
      ap (λ m. remote_counter m u.negative_state) (ep ∙ ap (λ (e : Delta). e.positive) same)
      ∙ ap (λ m. remote_counter d.positive m) (en ∙ ap (λ (e : Delta). e.negative) same) in
    record {
      merged =
          subst (λ r. SameCounter (merge r b.counter) (merge a.counter b.counter)) (sym rebuilt)
            (delta_merges_like_full a.counter b.counter c base ha.counter_valid hb.counter_valid
              ha.clock_valid.distinct ha.clock_valid.nonneg nb (knows h a b base ha hb covered));
      valid =
          subst (λ r. PnCounter.IsValid (merge r b.counter)) (sym rebuilt)
            (merge-IsValid (remote_counter d.positive d.negative) b.counter
              (delta-IsValid a.counter c base ha.counter_valid) hb.counter_valid);
      clock = ek;
    }
