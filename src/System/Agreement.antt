-- ===== src/System/Agreement.antt =====
-- What a cluster that started empty comes to, whatever its nodes have been called for and in whatever order
-- they have gossiped.
use distributed_counter.Base.{
  Text, ℕ, ◌≤◌, ◌≡◌, ◌⊎◌, refl, sym, ◌∙◌, ap, arith, Bool, inl, inr, subst, List, [], lookup,
}
use distributed_counter.Crdt.Counts.{Counts, count_at}
use distributed_counter.Crdt.Extensional.{SameCounts}
use distributed_counter.Crdt.PnCounter
use distributed_counter.Crdt.PnCounter.{PnCounter}
use distributed_counter.Crdt.PnCounter.Convergence.{SameCounter}
use distributed_counter.Crdt.VectorClock
use distributed_counter.Crdt.VectorClock.{VectorClock}
use distributed_counter.Gossip.Engine.{GossipEngine}
use distributed_counter.Service.State.{Service, Io}
use distributed_counter.Service.Sync.{baseline}
use distributed_counter.System.{Cluster, put, exchange}
use distributed_counter.System.History.{History, version, IsVersioned}
use distributed_counter.System.Owners.{last_part-counter_key}
use distributed_counter.System.Pair.{IsCovered}
use distributed_counter.System.Pair.Round.{Exchanged, IsAgreed, exchange-Exchanged}
use distributed_counter.System.Writes.{increment-HasWritten, decrement-HasWritten, written_key}
use distributed_counter.System.Steps.{
  Names, Step, incremented, decremented, gossiped, unreached, Reach, started, stepped,
}
use distributed_counter.System.Invariant.{IsSound, put-all}
use distributed_counter.System.Invariant.Write.{write-IsSound}
use distributed_counter.System.Invariant.Gossip.{gossip-IsSound}

-- The nodes are new.
pub record IsFresh (names : Names) (c : Cluster) : Type 0 where
  pub node_id : (i : ℕ) → (c i).service.node_id ≡ names.id i
  pub counter : (i : ℕ) → (c i).service.counter ≡ PnCounter.new (names.id i)
  pub clock : (i : ℕ) → (c i).service.clock ≡ VectorClock.new (names.id i)
  pub replies : (i : ℕ) → (c i).service.last_sync_clock ≡ []
  pub bases : (i : ℕ) → (c i).engine.last_sync ≡ []

empty_history : History
empty_history = record {
  positive = λ k v. 0;
  negative = λ k v. 0;
  positive_mono = λ k v w le. omega arith;
  negative_mono = λ k v w le. omega arith;
}

no_baseline :
    (x : Text) (m : List (Text × Counts)) (s : Service)
    → m ≡ []
    → IsCovered (baseline (lookup m x)) s
unfolding lookup count_at
no_baseline x m s e =
    subst (λ n. IsCovered (baseline (lookup n x)) s) (sym e)
      (record { distinct = tt; nonneg = tt; covered = λ k. omega arith })

fresh-IsSound : (names : Names) (c : Cluster) → IsFresh names c → IsSound names empty_history c
unfolding empty_history PnCounter.new VectorClock.new count_at lookup
fresh-IsSound names c f = record {
  versioned = λ i. record {
    counter_valid = subst PnCounter.IsValid (sym (f.counter i)) (record {
      positive_distinct = tt;
      negative_distinct = tt;
      positive_nonneg = tt;
      negative_nonneg = tt;
    });
    clock_valid =
        subst VectorClock.IsValid (sym (f.clock i)) (record { distinct = tt; nonneg = tt });
    positive = λ k. ap (λ (p : PnCounter). count_at p.positive k) (f.counter i);
    negative = λ k. ap (λ (p : PnCounter). count_at p.negative k) (f.counter i);
  };
  node_id = f.node_id;
  counter_id = λ i. ap (λ (p : PnCounter). p.node_id) (f.counter i);
  clock_id = λ i. ap (λ (v : VectorClock). v.node_id) (f.clock i);
  owned = λ i j k o. omega (arith, ap (λ (v : VectorClock). count_at v.clock k) (f.clock j));
  bases = λ i j. no_baseline (names.address j) _ (c j).service (f.bases i);
  replies = λ i j. no_baseline (names.id j) _ (c j).service (f.replies i);
}

unreached-IsSound :
    (names : Names) (h : History) (c : Cluster) (i : ℕ) (g : GossipEngine)
    → IsSound names h c
    → g.last_sync ≡ (c i).engine.last_sync
    → IsSound names h (put c i (record (c i) { engine = g }))
unreached-IsSound names h c i g s e = record {
  versioned = λ m. subst (IsVersioned h) (sym (same m)) (s.versioned m);
  node_id = λ m. ap (λ (x : Service). x.node_id) (same m) ∙ s.node_id m;
  counter_id = λ m. ap (λ (x : Service). x.counter.node_id) (same m) ∙ s.counter_id m;
  clock_id = λ m. ap (λ (x : Service). x.clock.node_id) (same m) ∙ s.clock_id m;
  owned = λ m n k o. omega (arith, s.owned m n k o, at m k, at n k);
  bases = λ m n. subst (IsCovered _) (sym (same n)) (
      subst (λ l. IsCovered (baseline (lookup l (names.address n))) (c n).service)
        (sym (bases_kept m)) (s.bases m n));
  replies = λ m n. subst (IsCovered _) (sym (same n)) (
      subst
        (λ (x : Service).
          IsCovered (baseline (lookup x.last_sync_clock (names.id n))) (c n).service)
        (sym (same m)) (s.replies m n));
}
  where
    changed : Cluster
    changed = put c i (record (c i) { engine = g })

    same : (m : ℕ) → (changed m).service ≡ (c m).service
    same = put-all (λ m y. y.service ≡ (c m).service) c i _ refl (λ m ne. refl)

    bases_kept : (m : ℕ) → (changed m).engine.last_sync ≡ (c m).engine.last_sync
    bases_kept = put-all (λ m y. y.engine.last_sync ≡ (c m).engine.last_sync) c i _ e (λ m ne. refl)

    at : (m : ℕ) (k : Text) → version (changed m).service k ≡ version (c m).service k
    at m k = ap (λ (x : Service). version x k) (same m)

round :
    (h : History) (names : Names) (c : Cluster) (i j : ℕ) (io_i io_j : Io) (full : Bool)
    → IsSound names h c
    → let (a, b) = exchange io_i io_j full (names.address j) (c i) (c j) in
      Exchanged h (names.address j) (c i) (c j) a b
      × (IsAgreed a.service b.service
          ⊎ ((k : Text) → version (c i).service k ≤ version (c j).service k))
round h names c i j io_i io_j full s =
    exchange-Exchanged h io_i io_j full (names.address j) (c i) (c j) (s.versioned i)
      (s.versioned j) (s.bases i j)
      (subst (λ x. IsCovered (baseline (lookup (c j).service.last_sync_clock x)) (c i).service)
        (sym (s.node_id i)) (s.replies j i))

Step-IsSound :
    (names : Names) (h : History) (c d : Cluster)
    → IsSound names h c
    → Step names c d
    → (h' : History) × IsSound names h' d
Step-IsSound names h c _ s (incremented i io name d room) =
    write-IsSound names h c i (written_key name (names.id i)) _ s
      (increment-HasWritten io (names.id i) name d (c i).service (s.versioned i).counter_valid
        (s.versioned i).clock_valid (s.counter_id i) (s.clock_id i) room)
      (last_part-counter_key _ (names.id i) (names.no_colon i))
Step-IsSound names h c _ s (decremented i io name d room) =
    write-IsSound names h c i (written_key name (names.id i)) _ s
      (decrement-HasWritten io (names.id i) name d (c i).service (s.versioned i).counter_valid
        (s.versioned i).clock_valid (s.counter_id i) (s.clock_id i) room)
      (last_part-counter_key _ (names.id i) (names.no_colon i))
Step-IsSound names h c _ s (gossiped i j io_i io_j full apart) =
    (h, gossip-IsSound names h c i j _ _ s apart (round h names c i j io_i io_j full s).0)
Step-IsSound names h c _ s (unreached i g e) = (h, unreached-IsSound names h c i g s e)

Reach-IsSound :
    (names : Names) (start c : Cluster)
    → IsFresh names start
    → Reach names start c
    → (h : History) × IsSound names h c
Reach-IsSound names start _ f started = (empty_history, fresh-IsSound names start f)
Reach-IsSound names start _ f (stepped {c} {d} r s) =
    let (h, sound) = Reach-IsSound names start c f r in Step-IsSound names h c d sound s

-- a has nothing that b has not.
pub record IsBehind (a b : Service) : Type 0 where
  pub clock : (k : Text) → version a k ≤ version b k
  pub positive : (k : Text) → count_at a.counter.positive k ≤ count_at b.counter.positive k
  pub negative : (k : Text) → count_at a.counter.negative k ≤ count_at b.counter.negative k

versions-IsBehind :
    (h : History) (a b : Service)
    → IsVersioned h a
    → IsVersioned h b
    → ((k : Text) → version a k ≤ version b k)
    → IsBehind a b
versions-IsBehind h a b ha hb le = record {
  clock = le;
  positive = λ k.
      omega
        (arith, ha.positive k, hb.positive k, h.positive_mono k (version a k) (version b k) (le k));
  negative = λ k.
      omega
        (arith, ha.negative k, hb.negative k, h.negative_mono k (version a k) (version b k) (le k));
}

-- No round of gossip misses anything. Nodes with ids without a colon, no two ids or addresses alike, start
-- new. After any sequence of increments and decrements of amounts that are not negative and for which there
-- is room, of rounds, full or delta, that reach their peer and are answered, and of rounds that do not reach
-- it, the next round between any two nodes, full or delta, makes both ends read alike in both maps of the
-- counter and in the clock, or the sender had nothing that its peer had not.
pub gossip_misses_nothing :
    (names : Names) (start c : Cluster) (i j : ℕ) (io_i io_j : Io) (full : Bool)
    → IsFresh names start
    → Reach names start c
    → let (a, b) = exchange io_i io_j full (names.address j) (c i) (c j) in
      IsAgreed a.service b.service ⊎ IsBehind (c i).service (c j).service
gossip_misses_nothing names start c i j io_i io_j full f r =
    let (h, s) = Reach-IsSound names start c f r in
    elim (round h names c i j io_i io_j full s).1 [
      | inl agreed ↦ inl agreed
      | inr le ↦
          inr (versions-IsBehind h (c i).service (c j).service (s.versioned i) (s.versioned j) le)
    ]

-- In such a cluster the clock says what a node has: nodes whose clocks read alike have counters that read
-- alike.
pub same_clocks-SameCounter :
    (names : Names) (start c : Cluster) (i j : ℕ)
    → IsFresh names start
    → Reach names start c
    → SameCounts (c i).service.clock.clock (c j).service.clock.clock
    → SameCounter (c i).service.counter (c j).service.counter
same_clocks-SameCounter names start c i j f r e =
    let (h, s) = Reach-IsSound names start c f r in
    record {
      positive = λ k.
          (s.versioned i).positive k ∙ ap (h.positive k) (e k) ∙ sym ((s.versioned j).positive k);
      negative = λ k.
          (s.versioned i).negative k ∙ ap (h.negative k) (e k) ∙ sym ((s.versioned j).negative k);
    }
