-- ===== src/System/Invariant/Write.antt =====
-- A write of a client keeps what every run keeps.
use distributed_counter.Base.{
  Text, ℕ, ◌+◌, ◌≤◌, ◌≡◌, refl, sym, ◌∙◌, ap, arith, true, false, inl, inr, subst, lookup,
  Bool-cases, text_eq, text_eq_iff, ltb,
}
use distributed_counter.Crdt.Counts.{Counts, count_at}
use distributed_counter.Service.State.{Service}
use distributed_counter.Service.Sync.{baseline}
use distributed_counter.System.{Node, Cluster, put}
use distributed_counter.System.History.{History, version, IsVersioned}
use distributed_counter.System.Owners.{last_part}
use distributed_counter.System.Pair.{IsCovered, IsCovered-mono}
use distributed_counter.System.Writes.{HasWritten}
use distributed_counter.System.Steps.{Names, with_service}
use distributed_counter.System.Invariant.{IsSound, put-all, put-here, after_version, extended}

after_version-now :
    (f : Text → ℕ → ℕ) (key k : Text) (v n w : ℕ)
    → text_eq key k ≡ true
    → w ≡ v + 1
    → n ≡ after_version f key v n k w
after_version-now f key k v n w e next =
    let later : ltb v w ≡ true = ground arith in sym (rw (e, later) refl)

after_version-before :
    (f : Text → ℕ → ℕ) (key k : Text) (v n w : ℕ)
    → (text_eq key k ≡ true → w ≤ v)
    → f k w ≡ after_version f key v n k w
after_version-before f key k v n w h = elim (Bool-cases (text_eq key k)) [
  | inl e ↦
      let early = h e in let earlier : ltb v w ≡ false = ground arith in sym (rw (e, earlier) refl)
  | inr e ↦ sym (rw e refl)
]

-- The counts of one map at the node that wrote.
here :
    (f : Text → ℕ → ℕ) (key k : Text) (v : ℕ) (m m' : Counts) (w w' : ℕ)
    → count_at m k ≡ f k w
    → (text_eq key k ≡ true → w' ≡ v + 1)
    → (text_eq key k ≡ false → (count_at m' k ≡ count_at m k) × (w' ≡ w))
    → count_at m' k ≡ after_version f key v (count_at m' key) k w'
here f key k v m m' w w' old now before = elim (Bool-cases (text_eq key k)) [
  | inl e ↦
      ap (count_at m') (sym ((text_eq_iff key k).0 e))
      ∙ after_version-now f key k v (count_at m' key) w' e (now e)
  | inr e ↦
      let (same, at) = before e in
      same
      ∙ old
      ∙ ap (f k) (sym at)
      ∙ after_version-before f key k v (count_at m' key) w' (λ t. absurd (ground (arith, t, e)))
]

module _ (names : Names) (h : History) (c : Cluster) (i : ℕ) (key : Text) (s' : Service)
    (sound : IsSound names h c) (w : HasWritten key (c i).service s')
    (own : last_part key ≡ names.id i) where
  abbrev a' : Node
  a' = with_service (c i) s'

  abbrev c' : Cluster
  c' = put c i a'

  version_grows : (k : Text) → version (c i).service k ≤ version s' k
  version_grows k = elim (Bool-cases (text_eq key k)) [
    | inl e ↦
        subst (λ j. version (c i).service j ≤ version s' j) ((text_eq_iff key k).0 e)
          (omega (arith, w.next))
    | inr e ↦ omega (arith, w.clock_others k e)
  ]

  all_grow : (j : ℕ) (k : Text) → version (c j).service k ≤ version (c' j).service k
  all_grow =
      put-all (λ j x. (k : Text) → version (c j).service k ≤ version x.service k) c i a'
        version_grows (λ j ne k. omega arith)

  new_history : History
  new_history =
      extended h key (version (c i).service key) (count_at s'.counter.positive key)
        (count_at s'.counter.negative key)
        (omega (arith, (sound.versioned i).positive key, w.positive_grows))
        (omega (arith, (sound.versioned i).negative key, w.negative_grows))

  next_version : (k : Text) → text_eq key k ≡ true → version s' k ≡ version (c i).service key + 1
  next_version k e = ap (version s') (sym ((text_eq_iff key k).0 e)) ∙ w.next

  not_later :
      (j : ℕ) (k : Text)
      → text_eq key k ≡ true
      → version (c j).service k ≤ version (c i).service key
  not_later j k e =
      subst (λ t. version (c j).service t ≤ version (c i).service key) ((text_eq_iff key k).0 e)
        (sound.owned i j key own)

  all-IsVersioned : (j : ℕ) → IsVersioned new_history (c' j).service
  unfolding new_history extended
  all-IsVersioned =
      put-all (λ j x. IsVersioned new_history x.service) c i a'
        (record {
          counter_valid = w.counter_valid;
          clock_valid = w.clock_valid;
          positive = λ k.
              here h.positive key k (version (c i).service key) (c i).service.counter.positive
                s'.counter.positive _ (version s' k) ((sound.versioned i).positive k)
                (next_version k) (λ e. (w.positive_others k e, w.clock_others k e));
          negative = λ k.
              here h.negative key k (version (c i).service key) (c i).service.counter.negative
                s'.counter.negative _ (version s' k) ((sound.versioned i).negative k)
                (next_version k) (λ e. (w.negative_others k e, w.clock_others k e));
        })
        (λ j ne. record {
          counter_valid = (sound.versioned j).counter_valid;
          clock_valid = (sound.versioned j).clock_valid;
          positive = λ k.
              (sound.versioned j).positive k
              ∙ after_version-before h.positive key k _ _ _ (not_later j k);
          negative = λ k.
              (sound.versioned j).negative k
              ∙ after_version-before h.negative key k _ _ _ (not_later j k);
        })

  owner_leads :
      (m : ℕ) (k : Text) → last_part k ≡ names.id m → version s' k ≤ version (c' m).service k
  owner_leads m k o = elim (Bool-cases (text_eq key k)) [
    | inl e ↦
        let mine : m ≡ i =
          names.id_inj m i (sym o ∙ ap last_part (sym ((text_eq_iff key k).0 e)) ∙ own) in
        subst (λ j. version s' k ≤ version (c' j).service k) (sym mine)
          (subst (λ (x : Node). version s' k ≤ version x.service k) (sym (put-here c i a'))
            (omega arith))
    | inr e ↦ omega (arith, w.clock_others k e, sound.owned m i k o, all_grow m k)
  ]

  pub write-IsSound : (h' : History) × IsSound names h' c'
  write-IsSound = (
    new_history,
    record {
      versioned = all-IsVersioned;
      node_id =
          put-all (λ j x. x.service.node_id ≡ names.id j) c i a' (w.self.node_id ∙ sound.node_id i)
            (λ j ne. sound.node_id j);
      counter_id =
          put-all (λ j x. x.service.counter.node_id ≡ names.id j) c i a'
            (w.self.counter_id ∙ sound.counter_id i) (λ j ne. sound.counter_id j);
      clock_id =
          put-all (λ j x. x.service.clock.node_id ≡ names.id j) c i a'
            (w.self.clock_id ∙ sound.clock_id i) (λ j ne. sound.clock_id j);
      owned = λ m j k o.
          put-all (λ n x. version x.service k ≤ version (c' m).service k) c i a' (owner_leads m k o)
            (λ n ne. omega (arith, sound.owned m n k o, all_grow m k)) j;
      bases = λ m j.
          put-all
            (λ n x.
              IsCovered (baseline (lookup x.engine.last_sync (names.address j))) (c' j).service)
            c i a' (IsCovered-mono _ (c j).service (c' j).service (sound.bases i j) (all_grow j))
            (λ n ne. IsCovered-mono _ (c j).service (c' j).service (sound.bases n j) (all_grow j))
            m;
      replies = λ m j.
          put-all
            (λ n x.
              IsCovered (baseline (lookup x.service.last_sync_clock (names.id j))) (c' j).service)
            c i a'
            (subst (λ l. IsCovered (baseline (lookup l (names.id j))) (c' j).service)
              (sym w.replies)
              (IsCovered-mono _ (c j).service (c' j).service (sound.replies i j) (all_grow j)))
            (λ n ne. IsCovered-mono _ (c j).service (c' j).service (sound.replies n j) (all_grow j))
            m;
    },
  )
