-- ===== src/System/Invariant/Gossip.antt =====
-- A round of gossip keeps what every run keeps.
use distributed_counter.Base.{Text, ℕ, ◌≤◌, ◌≡◌, ◌≢◌, sym, ◌∙◌, ap, arith, inl, inr, subst, lookup}
use distributed_counter.Service.Sync.{baseline}
use distributed_counter.System.{Node, Cluster, put}
use distributed_counter.System.History.{History, version, IsVersioned}
use distributed_counter.System.Pair.{IsCovered, IsCovered-mono}
use distributed_counter.System.Pair.Round.{Exchanged}
use distributed_counter.System.Steps.{Names}
use distributed_counter.System.Invariant.{IsSound, put-all, put-here, put-other}

module _ (names : Names) (h : History) (c : Cluster) (i j : ℕ) (a b : Node)
    (sound : IsSound names h c) (apart : i ≢ j)
    (x : Exchanged h (names.address j) (c i) (c j) a b) where
  abbrev c' : Cluster
  c' = put (put c i a) j b

  -- What holds of both ends and of the others holds of all.
  all_nodes {ℓ} :
      (P : ℕ → Node → Type ℓ) → P i a → P j b → ((m : ℕ) → P m (c m)) → (m : ℕ) → P m (c' m)
  all_nodes P at_i at_j others =
      put-all P (put c i a) j b at_j (λ m ne. put-all P c i a at_i (λ n e. others n) m)

  all_grow : (m : ℕ) (k : Text) → version (c m).service k ≤ version (c' m).service k
  all_grow =
      all_nodes (λ m y. (k : Text) → version (c m).service k ≤ version y.service k) x.a_grows
        x.b_grows (λ m k. omega arith)

  at_j : c' j ≡ b
  at_j = put-here (put c i a) j b

  at_i : c' i ≡ a
  at_i = put-other (put c i a) j i b (λ e. apart (sym e)) ∙ put-here c i a

  kept_base :
      (m n : ℕ)
      → IsCovered (baseline (lookup (c m).engine.last_sync (names.address n))) (c' n).service
  kept_base m n = IsCovered-mono _ (c n).service (c' n).service (sound.bases m n) (all_grow n)

  kept_reply :
      (m n : ℕ)
      → IsCovered (baseline (lookup (c m).service.last_sync_clock (names.id n))) (c' n).service
  kept_reply m n = IsCovered-mono _ (c n).service (c' n).service (sound.replies m n) (all_grow n)

  base_of_a :
      (n : ℕ) → IsCovered (baseline (lookup a.engine.last_sync (names.address n))) (c' n).service
  base_of_a n = elim (x.a_bases (names.address n)) [
    | inl same ↦ subst (λ o. IsCovered (baseline o) (c' n).service) (sym same) (kept_base i n)
    | inr (address, new) ↦
        let peer : c' n ≡ b = ap c' (sym (names.address_inj j n address)) ∙ at_j in
        subst
          (λ (y : Node).
            IsCovered (baseline (lookup a.engine.last_sync (names.address n))) y.service)
          (sym peer) new
  ]

  reply_of_b :
      (n : ℕ) → IsCovered (baseline (lookup b.service.last_sync_clock (names.id n))) (c' n).service
  reply_of_b n = elim (x.b_replies (names.id n)) [
    | inl same ↦ subst (λ o. IsCovered (baseline o) (c' n).service) (sym same) (kept_reply j n)
    | inr (id, new) ↦
        let peer : c' n ≡ a = ap c' (sym (names.id_inj i n (sym (sound.node_id i) ∙ id))) ∙ at_i in
        subst
          (λ (y : Node).
            IsCovered (baseline (lookup b.service.last_sync_clock (names.id n))) y.service)
          (sym peer) new
  ]

  pub gossip-IsSound : IsSound names h c'
  gossip-IsSound = record {
    versioned =
        all_nodes (λ m y. IsVersioned h y.service) x.a_versioned x.b_versioned sound.versioned;
    node_id =
        all_nodes (λ m y. y.service.node_id ≡ names.id m) (x.a_self.node_id ∙ sound.node_id i)
          (x.b_self.node_id ∙ sound.node_id j) sound.node_id;
    counter_id =
        all_nodes (λ m y. y.service.counter.node_id ≡ names.id m)
          (x.a_self.counter_id ∙ sound.counter_id i) (x.b_self.counter_id ∙ sound.counter_id j)
          sound.counter_id;
    clock_id =
        all_nodes (λ m y. y.service.clock.node_id ≡ names.id m)
          (x.a_self.clock_id ∙ sound.clock_id i) (x.b_self.clock_id ∙ sound.clock_id j)
          sound.clock_id;
    owned = λ m n k o.
        let top = all_grow m k in
        all_nodes (λ l y. version y.service k ≤ version (c' m).service k)
          (omega (arith, x.a_bound k, sound.owned m i k o, sound.owned m j k o, top))
          (omega (arith, x.b_bound k, sound.owned m i k o, sound.owned m j k o, top))
          (λ l. omega (arith, sound.owned m l k o, top)) n;
    bases = λ m n.
        all_nodes
          (λ l y. IsCovered (baseline (lookup y.engine.last_sync (names.address n))) (c' n).service)
          (base_of_a n)
          (subst (λ l. IsCovered (baseline (lookup l (names.address n))) (c' n).service)
            (sym x.b_bases) (kept_base j n))
          (λ l. kept_base l n) m;
    replies = λ m n.
        all_nodes
          (λ l y.
            IsCovered (baseline (lookup y.service.last_sync_clock (names.id n))) (c' n).service)
          (subst (λ l. IsCovered (baseline (lookup l (names.id n))) (c' n).service)
            (sym x.a_replies) (kept_reply i n))
          (reply_of_b n) (λ l. kept_reply l n) m;
  }
