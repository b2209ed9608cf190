-- ===== src/Gossip/Engine/Rounds.antt =====
-- What a round of internal/gossip/engine.go leaves at its two ends.
use distributed_counter.Base.{
  Text, ℕ, ◌≡◌, refl, sym, ◌∙◌, arith, some, [], Option-cases, inl, inr, Int64, subst,
}
use distributed_counter.Crdt.Counts.{
  Counts, merge_max, count_at-merge_max, merge_max-Distinct, merge_max-IsNonneg,
}
use distributed_counter.Crdt.Copies.{copy_into-nil}
use distributed_counter.Crdt.Extensional.{SameCounts}
use distributed_counter.Crdt.PnCounter
use distributed_counter.Crdt.PnCounter.{
  PnCounter, merge, remote_counter, positive_copy, negative_copy, set_positive, set_negative,
}
use distributed_counter.Crdt.PnCounter.Convergence.{SameCounter, merge-IsValid, merge_pointwise}
use distributed_counter.Crdt.VectorClock
use distributed_counter.Crdt.VectorClock.{VectorClock, merge_map, state}
use distributed_counter.Gossip.Engine.{GossipEngine, merge_remote_state, synchronized}
use distributed_counter.Service.State.{Service, Io, op_merge, wal_append, persist}
use distributed_counter.Service.Sync.{build_full_reply, merge_update, take_update, sync_update}

-- Two states whose counters and clocks are the same.
pub record SameData (s t : Service) : Type 0 where
  pub counter : s.counter ≡ t.counter
  pub clock : s.clock ≡ t.clock

pub wal_append-SameData :
    (io : Io) (op counter : Text) (delta : Int64) (positive negative clock : Counts) (s : Service)
    → SameData (wal_append io op counter delta positive negative clock s) s
unfolding wal_append
wal_append-SameData io op counter delta positive negative clock s = elim (Option-cases s.wal) [
  | inl e ↦ rw e (record { counter = refl; clock = refl })
  | inr (w, e) ↦ rw e (record { counter = refl; clock = refl })
]

pub persist-SameData : (io : Io) (s : Service) → SameData (persist io s) s
unfolding persist
persist-SameData io s = record { counter = ground arith; clock = ground arith }

-- Merging the copies that a valid node sends is merging its counter and its clock.
pub merge-copies :
    (p q : PnCounter)
    → PnCounter.IsValid p
    → merge (remote_counter (positive_copy p) (negative_copy p)) q ≡ merge p q
unfolding merge remote_counter positive_copy negative_copy set_positive set_negative PnCounter.new
merge-copies p q v =
    rw
      (
        copy_into-nil p.positive v.positive_distinct,
        copy_into-nil p.positive v.positive_distinct,
        copy_into-nil p.negative v.negative_distinct,
        copy_into-nil p.negative v.negative_distinct,
      )
      refl

pub merge_map-copy :
    (v w : VectorClock) → VectorClock.IsValid v → merge_map (state v) w ≡ merge_map v.clock w
unfolding merge_map state
merge_map-copy v w h = rw (copy_into-nil v.clock h.distinct) refl

pub merge_map-IsValid :
    (v w : VectorClock)
    → VectorClock.IsValid v
    → VectorClock.IsValid w
    → VectorClock.IsValid (merge_map v.clock w)
unfolding merge_map
merge_map-IsValid v w hv hw = record {
  distinct = merge_max-Distinct w.clock v.clock hw.distinct;
  nonneg = merge_max-IsNonneg w.clock v.clock hw.nonneg hv.nonneg;
}

-- Merging b's merge back into a gives what b has.
pub merge_back :
    (a b : PnCounter)
    → PnCounter.IsValid a
    → PnCounter.IsValid b
    → SameCounter (merge (merge a b) a) (merge a b)
merge_back a b va vb =
    let vm = merge-IsValid a b va vb in
    record {
      positive = λ k.
          omega (arith, (merge_pointwise (merge a b) a k vm va).0, (merge_pointwise a b k va vb).0);
      negative = λ k.
          omega (arith, (merge_pointwise (merge a b) a k vm va).1, (merge_pointwise a b k va vb).1);
    }

pub merge_map_back :
    (v w : VectorClock)
    → VectorClock.IsValid v
    → VectorClock.IsValid w
    → SameCounts (merge_map (merge_map v.clock w).clock v).clock (merge_map v.clock w).clock
unfolding merge_map
merge_map_back v w hv hw k =
    let d = merge_max-Distinct w.clock v.clock hw.distinct in
    let n = merge_max-IsNonneg w.clock v.clock hw.nonneg hv.nonneg in
    omega (
      arith,
      count_at-merge_max v.clock (merge_max w.clock v.clock) k hv.nonneg n d,
      count_at-merge_max w.clock v.clock k hw.nonneg hv.nonneg hv.distinct,
    )

-- What a node holds after it took a full update.
taken :
    (io : Io) (now : ℕ) (a b : Service)
    → PnCounter.IsValid a.counter
    → VectorClock.IsValid a.clock
    → ((take_update io (build_full_reply now a) b).counter ≡ merge a.counter b.counter)
      × ((take_update io (build_full_reply now a) b).clock ≡ merge_map a.clock.clock b.clock)
unfolding take_update build_full_reply merge_update
taken io now a b va ha = (
  (persist-SameData io _).counter
      ∙ (wal_append-SameData io op_merge [] 0 _ _ _ _).counter
      ∙ merge-copies a.counter b.counter va,
  (persist-SameData io _).clock
      ∙ (wal_append-SameData io op_merge [] 0 _ _ _ _).clock
      ∙ merge_map-copy a.clock b.clock ha,
)

merged_back :
    (io : Io) (now : ℕ) (address : Text) (clock : Counts) (a b : Service) (g : GossipEngine)
    → PnCounter.IsValid b.counter
    → VectorClock.IsValid b.clock
    → let a' = (synchronized io address clock (build_full_reply now b) (a, g)).0 in
      (a'.counter ≡ merge b.counter a.counter) × (a'.clock ≡ merge_map b.clock.clock a.clock)
unfolding synchronized merge_remote_state build_full_reply merge_update
merged_back io now address clock a b g vb hb = (
  (wal_append-SameData io op_merge [] 0 _ _ _ _).counter ∙ merge-copies b.counter a.counter vb,
  (wal_append-SameData io op_merge [] 0 _ _ _ _).clock ∙ merge_map-copy b.clock a.clock hb,
)

-- One end takes what the other has, and the other takes what that end has then.
pub exchange-agrees :
    (a b : Service)
    → PnCounter.IsValid a.counter
    → VectorClock.IsValid a.clock
    → PnCounter.IsValid b.counter
    → VectorClock.IsValid b.clock
    → (b' : Service)
    → (b'.counter ≡ merge a.counter b.counter) × (b'.clock ≡ merge_map a.clock.clock b.clock)
    → (a' : Service)
    → (PnCounter.IsValid b'.counter
        → VectorClock.IsValid b'.clock
        → (a'.counter ≡ merge b'.counter a.counter) × (a'.clock ≡ merge_map b'.clock.clock a.clock))
    → SameCounter a'.counter b'.counter × SameCounts a'.clock.clock b'.clock.clock
exchange-agrees a b va ha vb hb b' there a' takes =
    let back =
      takes (subst PnCounter.IsValid (sym there.0) (merge-IsValid a.counter b.counter va vb))
        (subst VectorClock.IsValid (sym there.1) (merge_map-IsValid a.clock b.clock ha hb)) in
    (
      subst (λ x. SameCounter x b'.counter) (sym back.0)
          (subst (λ x. SameCounter (merge x a.counter) x) (sym there.0)
            (merge_back a.counter b.counter va vb)),
      subst (λ x. SameCounts x.clock b'.clock.clock) (sym back.1)
          (subst (λ x. SameCounts (merge_map x.clock a.clock).clock x.clock) (sym there.1)
            (merge_map_back a.clock b.clock ha hb)),
    )

-- A full synchronisation makes the ends agree: the peer answers with its full state, and when the sender
-- has merged it, both counters read alike in both maps and both clocks read alike.
pub full_sync_agrees :
    (io_a io_b : Io) (address : Text) (a b : Service) (g : GossipEngine)
    → PnCounter.IsValid a.counter
    → VectorClock.IsValid a.clock
    → PnCounter.IsValid b.counter
    → VectorClock.IsValid b.clock
    → let (b', ack) = sync_update io_b (build_full_reply io_a.now a) b in
      let r = build_full_reply io_b.now b' in
      let a' = (synchronized io_a address (state a.clock) r (a, g)).0 in
      (ack ≡ some r) × SameCounter a'.counter b'.counter × SameCounts a'.clock.clock b'.clock.clock
unfolding sync_update build_full_reply
full_sync_agrees io_a io_b address a b g va ha vb hb =
    let b' = take_update io_b (build_full_reply io_a.now a) b in
    let there = taken io_b io_a.now a b va ha in
    let a' = (synchronized io_a address (state a.clock) (build_full_reply io_b.now b') (a, g)).0 in
    let same =
      exchange-agrees a b va ha vb hb b' there a'
        (λ v h. merged_back io_a io_b.now address (state a.clock) a b' g v h) in
    (refl, same.0, same.1)
