-- ===== src/System.antt =====
-- Several nodes together: internal/service/counter_service.go and internal/gossip/engine.go on every node, and
-- a round of gossip between two of them that reaches its peer and whose answer arrives.
pub mod History
pub mod Exchange
pub mod Pair
pub mod Writes
pub mod Owners
pub mod Steps
pub mod Invariant
pub mod Agreement
pub mod Wire
use distributed_counter.Base.{Text, ℕ, ◌==◌, Bool, Option, none, some, if◌then◌else◌, lookup}
use distributed_counter.Crdt.VectorClock
use distributed_counter.Gossip.Engine.{GossipEngine, build_update, synchronized}
use distributed_counter.Service.State.{Service, Io}
use distributed_counter.Service.Sync.{StateUpdate, baseline, sync_update}

pub record Node : Type 0 where
  pub service : Service
  pub engine : GossipEngine

-- The sender, once the answer is there.
unfoldable pub acknowledged : Io → Text → Node → Option StateUpdate → Node
acknowledged io address a none = a
acknowledged io address a (some response) =
    let (s, g) =
      synchronized io address (VectorClock.state a.service.clock) response (a.service, a.engine) in
    record { service = s; engine = g }

-- An update from a to b, and the answer.
unfoldable pub deliver_update : Io → Io → Text → Option StateUpdate → Node → Node → Node × Node
unfolding acknowledged
deliver_update io_a io_b address none a b = (a, b)
deliver_update io_a io_b address (some update) a b =
    let (s, answer) = sync_update io_b update b.service in
    (acknowledged io_a address a answer, record b { service = s })

-- What gossipToPeer sends to the address, and what comes of it at both ends.
unfoldable pub exchange : Io → Io → Bool → Text → Node → Node → Node × Node
unfolding deliver_update
exchange io_a io_b full address a b =
    let base = baseline (lookup a.engine.last_sync address) in
    deliver_update io_a io_b address (build_update io_a.now full base a.service) a b

-- The nodes by their number.
abbrev pub Cluster : Type 0
Cluster = ℕ → Node

-- The cluster after one node has changed.
abbrev pub put : Cluster → ℕ → Node → Cluster
put c i a j = if i == j then a else c j
