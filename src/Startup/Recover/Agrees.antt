-- ===== src/Startup/Recover/Agrees.antt =====
-- A recovery from a seed that runs internal/service/counter_service.go.
use distributed_counter.Base.{Text, ℕ, ◌≡◌, refl, sym, ◌∙◌, true, some, List, [], ◌∷◌, subst}
use distributed_counter.Crdt.Extensional.{SameCounts}
use distributed_counter.Crdt.PnCounter
use distributed_counter.Crdt.PnCounter.{
  merge, remote_counter, positive_copy, negative_copy, set_positive, set_negative,
}
use distributed_counter.Crdt.PnCounter.Convergence.{SameCounter}
use distributed_counter.Crdt.VectorClock
use distributed_counter.Crdt.VectorClock.{merge_map, state}
use distributed_counter.Gossip.Engine.{answered}
use distributed_counter.Gossip.Engine.Rounds.{
  wal_append-SameData, persist-SameData, merge-copies, merge_map-copy, exchange-agrees,
}
use distributed_counter.Service.State.{Service, Io, op_merge}
use distributed_counter.Service.Sync.{build_full_reply, merge_update, take_update, sync_update}
use distributed_counter.Startup.Recover.{
  Seeds, recovery_request, has_state, pb_to_pn_counter, take_state, recover_state,
}
use distributed_counter.Startup.Recover.Answers.{recover_state-front}

-- What the seed holds after the request.
asked :
    (io : Io) (now : ℕ) (a b : Service)
    → PnCounter.IsValid a.counter
    → VectorClock.IsValid a.clock
    → ((take_update io (recovery_request now a) b).counter ≡ merge a.counter b.counter)
      × ((take_update io (recovery_request now a) b).clock ≡ merge_map a.clock.clock b.clock)
unfolding take_update recovery_request merge_update
asked io now a b va ha = (
  (persist-SameData io _).counter
      ∙ (wal_append-SameData io op_merge [] 0 _ _ _ _).counter
      ∙ merge-copies a.counter b.counter va,
  (persist-SameData io _).clock
      ∙ (wal_append-SameData io op_merge [] 0 _ _ _ _).clock
      ∙ merge_map-copy a.clock b.clock ha,
)

-- What the node holds after the full state of the seed.
took :
    (address : Text) (now then : ℕ) (a b : Service)
    → PnCounter.IsValid b.counter
    → VectorClock.IsValid b.clock
    → let a' = take_state address now (build_full_reply then b) a in
      (a'.counter ≡ merge b.counter a.counter) × (a'.clock ≡ merge_map b.clock.clock a.clock)
unfolding take_state build_full_reply pb_to_pn_counter remote_counter merge
took address now then a b vb hb =
    (merge-copies b.counter a.counter vb, merge_map-copy b.clock a.clock hb)

-- A node recovers from a seed of its own kind: when the first seed in the list has handled the request,
-- and its answer, its full state, carries state, the node and the seed read alike in both maps of the
-- counter and in the clock.
pub recovery_agrees :
    (io : Io) (local_address : Text) (seeds : Seeds) (seed : Text) (rest : List Text) (now : ℕ)
    (a b : Service)
    → PnCounter.IsValid a.counter
    → VectorClock.IsValid a.clock
    → PnCounter.IsValid b.counter
    → VectorClock.IsValid b.clock
    → let (b', ack) = sync_update io (recovery_request now a) b in
      let r = build_full_reply io.now b' in
      seeds.contact 0 seed ≡ answered r
      → has_state r ≡ true
      → let a' = (recover_state local_address seeds (seed ∷ rest) a).0.service in
        (ack ≡ some r)
        × SameCounter a'.counter b'.counter
        × SameCounts a'.clock.clock b'.clock.clock
unfolding sync_update recovery_request
recovery_agrees io local_address seeds seed rest now a b va ha vb hb e h =
    let b' = take_update io (recovery_request now a) b in
    let first = recover_state-front local_address seeds seed rest a _ e h in
    let a' = (recover_state local_address seeds (seed ∷ rest) a).0.service in
    let same = exchange-agrees a b va ha vb hb b' (asked io now a b va ha) a' (λ v k.
      subst
        (λ (x : Service).
          (x.counter ≡ merge b'.counter a.counter) × (x.clock ≡ merge_map b'.clock.clock a.clock))
        (sym first) (took local_address (seeds.now 0 seed) io.now a b' v k)) in
    (refl, same.0, same.1)
