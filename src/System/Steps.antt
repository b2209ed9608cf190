-- ===== src/System/Steps.antt =====
-- Runs of a cluster: the calls of clients at any node, and the rounds of gossip between any two, in any order.
use distributed_counter.Base.{Text, ℕ, ◌≡◌, ◌≢◌, Bool}
use distributed_counter.Crdt.Keys.Ownership.{NoColon}
use distributed_counter.Gossip.Engine.{GossipEngine}
use distributed_counter.Service.State.{Service, Io}
use distributed_counter.Service.Handlers.{increment, decrement, delta_of}
use distributed_counter.System.{Node, Cluster, put, exchange}
use distributed_counter.System.Writes.{HasRoom, written_key}

-- The ids and the addresses of the nodes. A colon in an id would let two nodes write one key.
pub record Names : Type 0 where
  pub id : ℕ → Text
  pub address : ℕ → Text
  pub no_colon : (i : ℕ) → NoColon (id i)
  pub id_inj : (i j : ℕ) → id i ≡ id j → i ≡ j
  pub address_inj : (i j : ℕ) → address i ≡ address j → i ≡ j

abbrev pub with_service : Node → Service → Node
with_service a s = record a { service = s }

-- The cluster after a round from i to j.
abbrev pub after_gossip : Names → Cluster → ℕ → ℕ → Io → Io → Bool → Cluster
after_gossip names c i j io_i io_j full =
    let (a, b) = exchange io_i io_j full (names.address j) (c i) (c j) in put (put c i a) j b

-- One step. A write needs room: no count and no version comes to 2 ^ 63, which a negative amount would.
pub data Step (names : Names) (c : Cluster) : Cluster → Type 0 where
  incremented :
      (i : ℕ) (io : Io) (name : Text) (d : ℕ)
      → HasRoom (written_key name (names.id i)) (delta_of d) (c i).service
      → Step names c (put c i (with_service (c i) (increment io name d (c i).service).0))
  decremented :
      (i : ℕ) (io : Io) (name : Text) (d : ℕ)
      → HasRoom (written_key name (names.id i)) (delta_of d) (c i).service
      → Step names c (put c i (with_service (c i) (decrement io name d (c i).service).0))
  gossiped :
      (i j : ℕ) (io_i io_j : Io) (full : Bool)
      → i ≢ j
      → Step names c (after_gossip names c i j io_i io_j full)
  -- A round that does not reach its peer changes the engine, but none of its baselines.
  unreached :
      (i : ℕ) (g : GossipEngine)
      → g.last_sync ≡ (c i).engine.last_sync
      → Step names c (put c i (record (c i) { engine = g }))

pub data Reach (names : Names) (start : Cluster) : Cluster → Type 0 where
  started : Reach names start start
  stepped : {c d : Cluster} → Reach names start c → Step names c d → Reach names start d
