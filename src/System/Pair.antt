-- ===== src/System/Pair.antt =====
-- What a round of gossip does to its two ends.
pub mod Answer
pub mod Round
use distributed_counter.Base.{
  Text, ℕ, ◌≤◌, ◌<◌, ◌≡◌, ◌⊎◌, refl, sym, ◌∙◌, ap, arith, max, Bool, true, false, Option, none,
  some, [], ◌∷◌, inl, inr, subst, lookup, set, lookup-set, Distinct, text_eq, text_eq_iff,
  Bool-cases, if◌then◌else◌, Option-cases, Int64, GoMap,
}
use distributed_counter.Crdt.Counts.{
  Counts, count_at, count_at-nil, IsNonneg, merge_max, merge_max-Distinct, merge_max-IsNonneg,
}
use distributed_counter.Crdt.Copies.{copy_into-nil}
use distributed_counter.Crdt.PnCounter
use distributed_counter.Crdt.VectorClock
use distributed_counter.Crdt.VectorClock.{VectorClock, state}
use distributed_counter.Crdt.Delta.{merge_clock}
use distributed_counter.Crdt.Delta.Clocks.{merge_clock_pointwise}
use distributed_counter.Gossip.Engine.{GossipEngine, build_update, synchronized, merge_remote_state}
use distributed_counter.Service.State.{Service, Io, op_merge, wal_append, persist}
use distributed_counter.Service.Sync.{
  StateUpdate, full_state, delta_update, heartbeat, baseline, sync_update, take_update,
  merge_update, build_full_reply, build_delta_reply,
}
use distributed_counter.System.{Node, exchange, deliver_update, acknowledged}
use distributed_counter.System.History.{
  History, version, IsVersioned, HasReceived, HasReceived-IsVersioned,
}
use distributed_counter.System.Exchange.{
  Carries, take_update-HasReceived, merge_remote_state-HasReceived, full-Carries, delta-Carries,
}

-- A baseline that says of a node no more than the node has.
pub record IsCovered (m : Counts) (s : Service) : Type 0 where
  pub distinct : Distinct m
  pub nonneg : IsNonneg m
  pub covered : (k : Text) → count_at m k ≤ version s k

-- The names of a node, and its baselines for its peers, are those of another state.
pub record SameSelf (s t : Service) : Type 0 where
  pub node_id : s.node_id ≡ t.node_id
  pub counter_id : s.counter.node_id ≡ t.counter.node_id
  pub clock_id : s.clock.node_id ≡ t.clock.node_id

pub wal_append-keeps :
    (io : Io) (op counter : Text) (delta : Int64) (positive negative clock : Counts) (s : Service)
    → SameSelf (wal_append io op counter delta positive negative clock s) s
      × ((wal_append io op counter delta positive negative clock s).last_sync_clock
          ≡ s.last_sync_clock)
unfolding wal_append
wal_append-keeps io op counter delta positive negative clock s = elim (Option-cases s.wal) [
  | inl e ↦ rw e ((record { node_id = refl; counter_id = refl; clock_id = refl }, refl))
  | inr (w, e) ↦ rw e ((record { node_id = refl; counter_id = refl; clock_id = refl }, refl))
]

pub persist-keeps :
    (io : Io) (s : Service)
    → SameSelf (persist io s) s × ((persist io s).last_sync_clock ≡ s.last_sync_clock)
unfolding persist
persist-keeps io s = (
  record { node_id = ground arith; counter_id = ground arith; clock_id = ground arith },
  ground arith,
)

pub SameSelf-trans : (s t u : Service) → SameSelf s t → SameSelf t u → SameSelf s u
SameSelf-trans s t u h k = record {
  node_id = h.node_id ∙ k.node_id;
  counter_id = h.counter_id ∙ k.counter_id;
  clock_id = h.clock_id ∙ k.clock_id;
}

merge_update-keeps :
    (u : StateUpdate) (s : Service)
    → SameSelf (merge_update u s) s × ((merge_update u s).last_sync_clock ≡ s.last_sync_clock)
unfolding merge_update PnCounter.merge VectorClock.merge_map
merge_update-keeps u s = (record { node_id = refl; counter_id = refl; clock_id = refl }, refl)

pub merge_remote_state-keeps :
    (io : Io) (u : StateUpdate) (s : Service)
    → SameSelf (merge_remote_state io u s) s
      × ((merge_remote_state io u s).last_sync_clock ≡ s.last_sync_clock)
unfolding merge_remote_state
merge_remote_state-keeps io u s =
    let m = merge_update-keeps u s in
    let w =
      wal_append-keeps io op_merge [] 0 u.positive_state u.negative_state u.vector_clock
        (merge_update u s) in
    (SameSelf-trans _ (merge_update u s) s w.0 m.0, w.1 ∙ m.1)

pub take_update-keeps :
    (io : Io) (u : StateUpdate) (s : Service)
    → SameSelf (take_update io u s) s × ((take_update io u s).last_sync_clock ≡ s.last_sync_clock)
unfolding take_update merge_remote_state
take_update-keeps io u s =
    let m = merge_remote_state-keeps io u s in
    let p = persist-keeps io (merge_remote_state io u s) in
    (SameSelf-trans (take_update io u s) (merge_remote_state io u s) s p.0 m.0, p.1 ∙ m.1)

-- MergeClock of what two nodes have is covered by a node that has both.
pub merge_clock-IsCovered :
    (m n : Counts) (s : Service) → IsCovered m s → IsCovered n s → IsCovered (merge_clock m n) s
unfolding merge_clock
merge_clock-IsCovered m n s hm hn = record {
  distinct = rw (copy_into-nil m hm.distinct) (merge_max-Distinct m n hm.distinct);
  nonneg = rw (copy_into-nil m hm.distinct) (merge_max-IsNonneg m n hm.nonneg hn.nonneg);
  covered = λ k. omega (
    arith,
    merge_clock_pointwise m n k hm.distinct hm.nonneg hn.distinct hn.nonneg,
    hm.covered k,
    hn.covered k,
  );
}

-- A node's clock, as it is sent, is covered by a node that has no older version.
pub state-IsCovered :
    (s t : Service)
    → VectorClock.IsValid s.clock
    → ((k : Text) → version s k ≤ version t k)
    → IsCovered (state s.clock) t
unfolding state
state-IsCovered s t v h =
    rw (copy_into-nil s.clock.clock v.distinct)
      (record { distinct = v.distinct; nonneg = v.nonneg; covered = h })

pub count_at-state :
    (s : Service)
    → VectorClock.IsValid s.clock
    → (k : Text) → count_at (state s.clock) k ≡ version s k
unfolding state
count_at-state s v k = rw (copy_into-nil s.clock.clock v.distinct) refl

pub IsCovered-mono :
    (m : Counts) (s t : Service)
    → IsCovered m s
    → ((k : Text) → version s k ≤ version t k)
    → IsCovered m t
IsCovered-mono m s t c h = record {
  distinct = c.distinct;
  nonneg = c.nonneg;
  covered = λ k. omega (arith, c.covered k, h k);
}
