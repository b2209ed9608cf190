-- ===== src/System/Wire.antt =====
-- gossipToPeer of internal/gossip/engine.go over a network that delivers, beside a round of the cluster.
use distributed_counter.Base.{
  Text, ℕ, suc, ◌+◌, ◌≡◌, refl, sym, ◌∙◌, ap, Bool, true, Option, none, some, subst, lookup, set,
  GoMap,
}
use distributed_counter.Crdt.Counts.{Counts}
use distributed_counter.Crdt.VectorClock.{state}
use distributed_counter.Crdt.Delta.{merge_clock}
use distributed_counter.Cluster.Member.{Member}
use distributed_counter.Gossip.Circuit.{allow, failure}
use distributed_counter.Gossip.Engine.{
  GossipEngine, Net, Attempt, answered, attempt_loop, build_update, is_full_sync, breaker_of,
  set_breaker, send_update, deliver, gossip_to_peer, synchronized,
}
use distributed_counter.Service.State.{Service, Io}
use distributed_counter.Service.Sync.{StateUpdate, baseline, sync_update}
use distributed_counter.System.{Node, exchange, deliver_update, acknowledged}

-- The engine when gossipToPeer decides what to send: the breaker is there and the round is counted.
abbrev pub counted : Text → GossipEngine → GossipEngine
counted address g =
    let g1 = set_breaker address (breaker_of address g) g in record g1 { round = g1.round + 1 }

abbrev pub is_full : Text → Service → GossipEngine → Bool
is_full address s g =
    let g2 = counted address g in
    is_full_sync g2.round (baseline (lookup g2.last_sync address)) (state s.clock) g2

abbrev pub update_for : Io → Text → Service → GossipEngine → Option StateUpdate
update_for io address s g =
    build_update io.now (is_full address s g) (baseline (lookup g.last_sync address)) s

-- The peer answers the update, if there is one, and the first attempt brings the answer back.
pub record Delivers (net : Net) (io_b : Io) (b : Service) (update : Option StateUpdate)
    : Type 0 where
  pub dials : net.first_dial ≡ true
  pub streams : net.first_stream ≡ true
  pub answers :
      (u : StateUpdate)
      → update ≡ some u
      → (r : StateUpdate) × ((sync_update io_b u b).1 ≡ some r) × (net.outcome 0 ≡ answered r)

-- What counts of a node: its service, and its baselines.
pub record SameNode (r : Service × GossipEngine) (a : Node) : Type 0 where
  pub service : r.0 ≡ a.service
  pub bases : r.1.last_sync ≡ a.engine.last_sync

attempt_loop-first :
    (outcome : ℕ → Attempt) (address : Text) (n : ℕ) (conns : GoMap Bool) (r : StateUpdate)
    → outcome 0 ≡ answered r
    → attempt_loop outcome address (suc n) 0 true conns ≡ (conns, some r)
unfolding attempt_loop
attempt_loop-first outcome address n conns r e = rw (attempt_loop, e) refl

-- The end of the round, for what the attempts come to.
abbrev ending :
    Io
    → Net
    → Text
    → Counts
    → Service
    → GossipEngine
    → GoMap Bool × Option StateUpdate
    → Service × GossipEngine
ending io net address clock s g (conns, response) =
    let g' = record g { connections = conns } in
    elim response [
      | none ↦ (s, set_breaker address (failure net.failed (breaker_of address g')) g')
      | some r ↦ synchronized io address clock r (s, g')
    ]

deliver-answered :
    (io : Io) (net : Net) (address : Text) (clock : Counts) (n : ℕ) (r : StateUpdate) (s : Service)
    (g : GossipEngine)
    → net.first_dial ≡ true
    → net.first_stream ≡ true
    → g.max_retries ≡ suc n
    → net.outcome 0 ≡ answered r
    → deliver io net address clock (s, g)
      ≡ synchronized io address clock r
          (s, record g { connections = set g.connections address true })
unfolding deliver
deliver-answered io net address clock n r s g dials streams retries e =
    let conns = set g.connections address true in
    let loop =
      ap (λ m. attempt_loop net.outcome address m 0 true conns) retries
      ∙ attempt_loop-first net.outcome address n conns r e in
    let opened : deliver io net address clock (s, g)
        ≡ ending io net address clock s g
            (attempt_loop net.outcome address g.max_retries 0 true conns) =
      rw (deliver, dials, streams) refl in
    opened ∙ ap (ending io net address clock s g) loop

-- An update that is sent, and one that there is no need for.
sent :
    (io_a io_b : Io) (net : Net) (address : Text) (n : ℕ) (s : Service) (g g0 : GossipEngine)
    (b : Node) (update : Option StateUpdate)
    → g.last_sync ≡ g0.last_sync
    → g.max_retries ≡ suc n
    → Delivers net io_b b.service update
    → SameNode
        (send_update io_a net address (state s.clock) update (s, g))
        (deliver_update io_a io_b address update (record { service = s; engine = g0 }) b).0
unfolding send_update deliver_update
sent io_a io_b net address n s g g0 b none same m d = record { service = refl; bases = same }
sent io_a io_b net address n s g g0 b (some u) same m d =
    let (r, replied, arrived) = d.answers u refl in
    let a : Node = record { service = s; engine = g0 } in
    let delivered =
      deliver-answered io_a net address (state s.clock) n r s g d.dials d.streams m arrived in
    subst
      (λ o.
        SameNode (deliver io_a net address (state s.clock) (s, g)) (acknowledged io_a address a o))
      (sym replied)
      (subst (λ x. SameNode x (acknowledged io_a address a (some r))) (sym delivered)
        (unfold synchronized acknowledged in
          record {
            service = refl;
            bases = ap (λ l. set l address (merge_clock (state s.clock) r.vector_clock)) same;
          }))

-- A call of gossipToPeer whose breaker lets it through, over a network that connects at once and brings the
-- peer's answer back at the first attempt, leaves of the sender what a round of the cluster leaves, full
-- or delta as the engine decides: its service and its baselines. The engine makes at least one attempt.
pub gossip_to_peer-exchange :
    (io_a io_b : Io) (net : Net) (peer : Member) (n : ℕ) (s : Service) (g : GossipEngine) (b : Node)
    → allow net.started
        (breaker_of peer.address (set_breaker peer.address (breaker_of peer.address g) g))
      ≡ true
    → g.max_retries ≡ suc n
    → Delivers net io_b b.service (update_for io_a peer.address s g)
    → SameNode
        (gossip_to_peer io_a net peer (s, g))
        (exchange io_a io_b
          (is_full peer.address s g)
          peer.address
          (record { service = s; engine = g })
          b).0
unfolding gossip_to_peer exchange
gossip_to_peer-exchange io_a io_b net peer n s g b allowed m d =
    let g2 = counted peer.address g in
    let update = update_for io_a peer.address s g in
    rw (gossip_to_peer, allowed) (sent io_a io_b net peer.address n s g2 g b update refl m d)
