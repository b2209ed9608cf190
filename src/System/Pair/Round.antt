-- ===== src/System/Pair/Round.antt =====
-- A whole round between two nodes.
use distributed_counter.Base.{
  Text, ℕ, ◌≤◌, ◌≡◌, ◌≢◌, ◌⊎◌, refl, sym, ap, arith, max, Bool, true, false, Option, none, some, [],
  ◌∷◌, inl, inr, subst, lookup,
}
use distributed_counter.Crdt.Counts.{Counts}
use distributed_counter.Crdt.Extensional.{SameCounts}
use distributed_counter.Crdt.PnCounter.{positive_copy, negative_copy}
use distributed_counter.Crdt.PnCounter.Convergence.{SameCounter}
use distributed_counter.Crdt.VectorClock.{state}
use distributed_counter.Crdt.Delta.{Delta, merge_clock, delta_from, max_clock}
use distributed_counter.Crdt.Delta.Empty.{is_empty, is_empty-delta_from}
use distributed_counter.Crdt.Delta.Clocks.{clock_newer_than_iff}
use distributed_counter.Gossip.Engine.{build_update, synchronized}
use distributed_counter.Service.State.{Service, Io}
use distributed_counter.Service.Sync.{
  StateUpdate, delta_update, heartbeat, baseline, build_full_reply, membership_gossip,
}
use distributed_counter.System.{Node, exchange, deliver_update, acknowledged}
use distributed_counter.System.History.{History, version, IsVersioned, HasReceived-IsVersioned}
use distributed_counter.System.Exchange.{
  Carries, merge_remote_state-HasReceived, full-Carries, delta-Carries,
}
use distributed_counter.System.Pair.{
  IsCovered, SameSelf, merge_remote_state-keeps, merge_clock-IsCovered, state-IsCovered,
  count_at-state,
}
use distributed_counter.System.Pair.Answer.{Replied, new_baseline, sync_update-Replied}

-- An update that a node gossips to b.
record IsSent (a b : Service) (u : StateUpdate) : Type 0 where
  carries : Carries a b u
  from : u.from_node_id ≡ a.node_id
  kind : u.type ≢ heartbeat

-- A node whose clock is not newer than a baseline that b covers has nothing for b.
nothing_new :
    (h : History) (base : Counts) (a b : Service)
    → IsVersioned h a
    → IsCovered base b
    → is_empty
        (delta_from (positive_copy a.counter) (negative_copy a.counter) (state a.clock) base).clock
      ≡ true
    → (k : Text) → version a k ≤ version b k
nothing_new h base a b ha c e k =
    let sent = state-IsCovered a a ha.clock_valid (λ j. omega arith) in
    let older =
      is_empty-delta_from (positive_copy a.counter) (negative_copy a.counter) (state a.clock)
        base in
    let below =
      (clock_newer_than_iff (state a.clock) base sent.distinct sent.nonneg c.nonneg).0
        (ground (arith, older, e)) in
    omega (arith, below k, c.covered k, count_at-state a ha.clock_valid k)

-- The update of a delta round.
abbrev delta_of_clock : ℕ → Counts → Service → Delta → Counts → Option StateUpdate
delta_of_clock now base s delta [] = none
delta_of_clock now base s delta (entry ∷ rest) = some (record {
  from_node_id = s.node_id;
  positive_state = delta.positive;
  negative_state = delta.negative;
  vector_clock = state s.clock;
  timestamp = now;
  type = delta_update;
  last_sync_version = max_clock base;
  membership = membership_gossip s;
})

abbrev IsSentIfAny : Service → Service → Option StateUpdate → Type 0
IsSentIfAny a b none = (k : Text) → version a k ≤ version b k
IsSentIfAny a b (some u) = IsSent a b u

build_update-IsSentIfAny :
    (h : History) (now : ℕ) (full : Bool) (base : Counts) (a b : Service)
    → IsVersioned h a
    → IsVersioned h b
    → IsCovered base b
    → IsSentIfAny a b (build_update now full base a)
unfolding build_update build_full_reply
build_update-IsSentIfAny h now true base a b ha hb c = record {
  carries = full-Carries h now a b ha hb;
  from = refl;
  kind = λ e. cc;
}
build_update-IsSentIfAny h now false base a b ha hb c =
    by_clock
      (delta_from (positive_copy a.counter) (negative_copy a.counter) (state a.clock) base).clock
      refl
  where
    by_clock :
        (clock : Counts)
        → (delta_from
            (positive_copy a.counter)
            (negative_copy a.counter)
            (state a.clock)
            base).clock
          ≡ clock
        → IsSentIfAny a b (
            delta_of_clock now base a
              (delta_from (positive_copy a.counter) (negative_copy a.counter) (state a.clock) base)
              clock)
    by_clock [] e = nothing_new h base a b ha c (ap is_empty e)
    by_clock (entry ∷ rest) e = record {
      carries = delta-Carries h a b base _ ha hb c.nonneg c.covered refl refl refl;
      from = refl;
      kind = λ e. cc;
    }

-- Two nodes that read alike.
pub record IsAgreed (s t : Service) : Type 0 where
  pub counter : SameCounter s.counter t.counter
  pub clock : SameCounts s.clock.clock t.clock.clock

-- What a round between a and b keeps and changes; `address` is b's.
pub record Exchanged (h : History) (address : Text) (a b a' b' : Node) : Type 0 where
  pub a_versioned : IsVersioned h a'.service
  pub b_versioned : IsVersioned h b'.service
  pub a_self : SameSelf a'.service a.service
  pub b_self : SameSelf b'.service b.service
  pub a_grows : (k : Text) → version a.service k ≤ version a'.service k
  pub b_grows : (k : Text) → version b.service k ≤ version b'.service k
  pub a_bound : (k : Text) → version a'.service k ≤ max (version a.service k) (version b.service k)
  pub b_bound : (k : Text) → version b'.service k ≤ max (version a.service k) (version b.service k)
  pub a_bases :
      (x : Text)
      → (lookup a'.engine.last_sync x ≡ lookup a.engine.last_sync x)
        ⊎ ((address ≡ x) × IsCovered (baseline (lookup a'.engine.last_sync x)) b'.service)
  pub a_replies : a'.service.last_sync_clock ≡ a.service.last_sync_clock
  pub b_bases : b'.engine.last_sync ≡ b.engine.last_sync
  pub b_replies :
      (x : Text)
      → (lookup b'.service.last_sync_clock x ≡ lookup b.service.last_sync_clock x)
        ⊎ ((a.service.node_id ≡ x)
            × IsCovered (baseline (lookup b'.service.last_sync_clock x)) a'.service)

unchanged :
    (h : History) (address : Text) (a b : Node)
    → IsVersioned h a.service
    → IsVersioned h b.service
    → Exchanged h address a b a b
unchanged h address a b ha hb = record {
  a_versioned = ha;
  b_versioned = hb;
  a_self = record { node_id = refl; counter_id = refl; clock_id = refl };
  b_self = record { node_id = refl; counter_id = refl; clock_id = refl };
  a_grows = λ k. omega arith;
  b_grows = λ k. omega arith;
  a_bound = λ k. omega arith;
  b_bound = λ k. omega arith;
  a_bases = λ x. inl refl;
  a_replies = refl;
  b_bases = refl;
  b_replies = λ x. inl refl;
}

IsCovered-or {ℓ κ} :
    {P : Type ℓ} {Q : Type κ} {m known : Counts} (s : Service)
    → P ⊎ (Q × (m ≡ known))
    → IsCovered known s
    → P ⊎ (Q × IsCovered m s)
IsCovered-or s (inl p) c = inl p
IsCovered-or s (inr (q, e)) c = inr ((q, subst (λ n. IsCovered n s) (sym e) c))

-- The sender once it has merged the answer r of s.
abbrev merged_answer : Io → Text → Node → StateUpdate → Node
merged_answer io address a r = acknowledged io address a (some r)

answer_merged :
    (h : History) (io : Io) (address : Text) (a b : Node) (s : Service) (r : StateUpdate)
    → IsVersioned h a.service
    → IsVersioned h b.service
    → Replied a.service b.service a.service.node_id s r
    → let a' = merged_answer io address a r in
      let b' = record b { service = s } in Exchanged h address a b a' b' × IsAgreed a'.service s
unfolding acknowledged synchronized
answer_merged h io address a b s r ha hb reply =
    let hs = HasReceived-IsVersioned h a.service b.service s ha hb reply.taken in
    let back = merge_remote_state-HasReceived h io s a.service r hs ha reply.carries in
    let keeps = merge_remote_state-keeps io r a.service in
    let a' = merged_answer io address a r in
    let b' : Node = record b { service = s } in
    (
      record {
        a_versioned = HasReceived-IsVersioned h s a.service a'.service hs ha back;
        b_versioned = hs;
        a_self = keeps.0;
        b_self = reply.self;
        a_grows = λ k. omega (arith, back.clock k);
        b_grows = λ k. omega (arith, reply.taken.clock k);
        a_bound = λ k. omega (arith, back.clock k, reply.taken.clock k);
        b_bound = λ k. omega (arith, reply.taken.clock k);
        a_bases = λ x.
            IsCovered-or s
              (new_baseline x address a.engine.last_sync a.engine.last_sync
                (merge_clock (state a.service.clock) r.vector_clock)
                (merge_clock (state a.service.clock) (state s.clock)) refl
                (ap (merge_clock (state a.service.clock)) reply.carries.clock))
              (merge_clock-IsCovered _ _ s
                (state-IsCovered a.service s ha.clock_valid
                  (λ k. omega (arith, reply.taken.clock k)))
                (state-IsCovered s s hs.clock_valid (λ k. omega arith)));
        a_replies = keeps.1;
        b_bases = refl;
        b_replies = λ x. IsCovered-or a'.service (reply.replies x) (
            merge_clock-IsCovered _ _ a'.service
              (state-IsCovered s a'.service hs.clock_valid (λ k. omega (arith, back.clock k)))
              (state-IsCovered a.service a'.service ha.clock_valid
                (λ k. omega (arith, back.clock k))));
      },
      record {
        counter = record {
          positive = λ k. omega (arith, back.positive k, reply.taken.positive k);
          negative = λ k. omega (arith, back.negative k, reply.taken.negative k);
        };
        clock = λ k. omega (arith, back.clock k, reply.taken.clock k);
      },
    )

-- What becomes of both ends, for what the peer's handler returns.
abbrev Outcome : History → Io → Text → Node → Node → Service × Option StateUpdate → Type 0
Outcome h io address a b (s, answer) =
    let a' = acknowledged io address a answer in
    let b' = record b { service = s } in
    Exchanged h address a b a' b'
    × (IsAgreed a'.service b'.service ⊎ ((k : Text) → version a.service k ≤ version b.service k))

-- A round that reaches its peer and whose answer arrives: both ends agree, or the sender had nothing that
-- the peer had not.
pub exchange-Exchanged :
    (h : History) (io_a io_b : Io) (full : Bool) (address : Text) (a b : Node)
    → IsVersioned h a.service
    → IsVersioned h b.service
    → IsCovered (baseline (lookup a.engine.last_sync address)) b.service
    → IsCovered (baseline (lookup b.service.last_sync_clock a.service.node_id)) a.service
    → let (a', b') = exchange io_a io_b full address a b in
      Exchanged h address a b a' b'
      × (IsAgreed a'.service b'.service ⊎ ((k : Text) → version a.service k ≤ version b.service k))
unfolding exchange deliver_update
exchange-Exchanged h io_a io_b full address a b ha hb base reply_base =
    let first = baseline (lookup a.engine.last_sync address) in
    sent (build_update io_a.now full first a.service)
      (build_update-IsSentIfAny h io_a.now full first a.service b.service ha hb base)
  where
    sent :
        (u : Option StateUpdate)
        → IsSentIfAny a.service b.service u
        → let (a', b') = deliver_update io_a io_b address u a b in
          Exchanged h address a b a' b'
          × (IsAgreed a'.service b'.service
              ⊎ ((k : Text) → version a.service k ≤ version b.service k))
    sent none has = (unchanged h address a b ha hb, inr has)
    sent (some u) is_sent =
        let (s, r, e, reply) =
          sync_update-Replied h io_b a.service b.service u ha hb is_sent.carries
            (subst (λ i. IsCovered (baseline (lookup b.service.last_sync_clock i)) a.service)
              (sym is_sent.from) reply_base)
            is_sent.kind in
        let done =
          answer_merged h io_a address a b s r ha hb
            (subst (λ i. Replied a.service b.service i s r) is_sent.from reply) in
        subst (Outcome h io_a address a b) (sym e) (done.0, inl done.1)
