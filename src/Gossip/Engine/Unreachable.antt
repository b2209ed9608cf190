-- ===== src/Gossip/Engine/Unreachable.antt =====
-- Rounds of internal/gossip/engine.go with peers to which no stream can be opened.
use distributed_counter.Base.{
  Text, ◌+◌, ◌≡◌, refl, ◌∙◌, Bool, true, false, ◌&&◌, not, Option, none, some, List, [], ◌∷◌, arith,
  Bool-cases, inl, inr, lookup, set, lookup-set, text_eq_refl,
}
use distributed_counter.Crdt.Counts.{Counts}
use distributed_counter.Cluster.Member.{Member}
use distributed_counter.Gossip.Circuit.{CircuitBreaker, allow}
use distributed_counter.Gossip.Engine.{
  GossipEngine, Net, breaker_of, set_breaker, deliver, send_update, gossip_to_peer,
}
use distributed_counter.Service.State.{Service, Io}
use distributed_counter.Service.Sync.{StateUpdate}

-- The stream of a round is not there at once.
abbrev pub is_refused : Net → Bool
is_refused net = not (net.first_dial && net.first_stream)

breaker_of-set :
    (address : Text) (b : CircuitBreaker) (g : GossipEngine)
    → breaker_of address (set_breaker address b g) ≡ b
unfolding breaker_of
breaker_of-set address b g =
    let found : lookup (set g.breakers address b) address ≡ some b =
      lookup-set g.breakers address address b ∙ rw (text_eq_refl address) refl in
    rw (breaker_of, found) refl

deliver_refused :
    (io : Io) (net : Net) (address : Text) (clock : Counts) (s : Service) (g : GossipEngine)
    → is_refused net ≡ true
    → breaker_of address (deliver io net address clock (s, g)).1 ≡ breaker_of address g
unfolding deliver breaker_of
deliver_refused io net address clock s g r = elim (Bool-cases net.first_dial) [
  | inl d ↦
      let no_stream : net.first_stream ≡ false = ground arith in rw (deliver, d, no_stream) refl
  | inr d ↦ rw (deliver, d) refl
]

send_refused :
    (io : Io) (net : Net) (address : Text) (clock : Counts) (u : Option StateUpdate) (s : Service)
    (g : GossipEngine)
    → is_refused net ≡ true
    → breaker_of address (send_update io net address clock u (s, g)).1 ≡ breaker_of address g
unfolding send_update
send_refused io net address clock none s g r = refl
send_refused io net address clock (some u) s g r = deliver_refused io net address clock s g r

round_refused :
    (io : Io) (net : Net) (peer : Member) (s : Service) (g : GossipEngine)
    → is_refused net ≡ true
    → breaker_of peer.address (gossip_to_peer io net peer (s, g)).1 ≡ breaker_of peer.address g
unfolding gossip_to_peer breaker_of
round_refused io net peer s g r =
    let b = breaker_of peer.address g in
    let g1 = set_breaker peer.address b g in
    elim (Bool-cases (allow net.started (breaker_of peer.address g1))) [
      | inl open_breaker ↦
          rw (gossip_to_peer, open_breaker)
            (send_refused io net peer.address _ _ s (record g1 { round = g1.round + 1 }) r
              ∙ breaker_of-set peer.address b g)
      | inr closed ↦ rw (gossip_to_peer, closed) (breaker_of-set peer.address b g)
    ]

unfoldable pub rounds : List (Io × Net) → Member → Service × GossipEngine → Service × GossipEngine
rounds [] peer sg = sg
rounds ((io, net) ∷ nets) peer sg = rounds nets peer (gossip_to_peer io net peer sg)

abbrev pub AllRefused : List (Io × Net) → Type 0
AllRefused [] = Unit
AllRefused ((io, net) ∷ nets) = (is_refused net ≡ true) × AllRefused nets

-- The breaker of a peer does not change, and so never opens, however many rounds fail because no stream
-- to the peer can be opened.
pub refused_rounds_never_trip :
    (nets : List (Io × Net)) (peer : Member) (s : Service) (g : GossipEngine)
    → AllRefused nets
    → breaker_of peer.address (rounds nets peer (s, g)).1 ≡ breaker_of peer.address g
unfolding rounds
refused_rounds_never_trip [] peer s g r = refl
refused_rounds_never_trip ((io, net) ∷ nets) peer s g r =
    let (s', g') = gossip_to_peer io net peer (s, g) in
    refused_rounds_never_trip nets peer s' g' r.1 ∙ round_refused io net peer s g r.0
