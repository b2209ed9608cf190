-- ===== src/System/Pair/Answer.antt =====
-- What the receiver of an update does, and what its answer carries.
use distributed_counter.Base.{
  Text, ◌≤◌, ◌≡◌, ◌≢◌, ◌⊎◌, refl, sym, ◌∙◌, ap, arith, some, inl, inr, subst, lookup, set,
  lookup-set, text_eq, text_eq_iff, Bool-cases, GoMap,
}
use distributed_counter.Crdt.Counts.{Counts}
use distributed_counter.Crdt.VectorClock.{state}
use distributed_counter.Crdt.Delta.{merge_clock}
use distributed_counter.Service.State.{Service, Io}
use distributed_counter.Service.Sync.{
  StateUpdate, UpdateType, full_state, delta_update, heartbeat, baseline, sync_update, take_update,
  merge_update, build_full_reply, build_delta_reply,
}
use distributed_counter.System.History.{
  History, version, IsVersioned, HasReceived, HasReceived-IsVersioned,
}
use distributed_counter.System.Exchange.{
  Carries, take_update-HasReceived, full-Carries, delta-Carries,
}
use distributed_counter.System.Pair.{
  IsCovered, SameSelf, take_update-keeps, merge_clock-IsCovered, state-IsCovered,
}

-- b has become s, which has what a has, and r answers a with what s has. s keeps b's baselines but that
-- for a, which is the merge of both clocks.
pub record Replied (a b : Service) (from : Text) (s : Service) (r : StateUpdate) : Type 0 where
  pub taken : HasReceived a b s
  pub carries : Carries s a r
  pub self : SameSelf s b
  pub replies :
      (x : Text)
      → (lookup s.last_sync_clock x ≡ lookup b.last_sync_clock x)
        ⊎ ((from ≡ x)
            × (baseline (lookup s.last_sync_clock x) ≡ merge_clock (state s.clock) (state a.clock)))

full_reply :
    (h : History) (io : Io) (a b : Service) (u : StateUpdate)
    → IsVersioned h a
    → IsVersioned h b
    → Carries a b u
    → Replied a b u.from_node_id (take_update io u b) (build_full_reply io.now (take_update io u b))
full_reply h io a b u ha hb c =
    let s = take_update io u b in
    let keeps = take_update-keeps io u b in
    let t = take_update-HasReceived h io a b u ha hb c in
    record {
      taken = t;
      carries = full-Carries h io.now s a (HasReceived-IsVersioned h a b s ha hb t) ha;
      self = keeps.0;
      replies = λ x. inl (ap (λ m. lookup m x) keeps.1);
    }

-- The clocks of s and a, after s took all from a.
clock_after : (a b s : Service) → HasReceived a b s → (k : Text) → version a k ≤ version s k
clock_after a b s t k = omega (arith, t.clock k)

-- A baseline that is set, and the others.
pub new_baseline :
    (x from : Text) (m n : GoMap Counts) (set_to known : Counts)
    → m ≡ n
    → set_to ≡ known
    → (lookup (set m from set_to) x ≡ lookup n x)
      ⊎ ((from ≡ x) × (baseline (lookup (set m from set_to) x) ≡ known))
new_baseline x from m n set_to known e f = elim (Bool-cases (text_eq from x)) [
  | inl t ↦
      let here : lookup (set m from set_to) x ≡ some set_to =
        lookup-set m from x set_to ∙ rw t refl in
      inr (((text_eq_iff from x).0 t, ap baseline here ∙ f))
  | inr t ↦ inl (lookup-set m from x set_to ∙ rw t (ap (λ o. lookup o x) e))
]

delta_reply :
    (h : History) (io : Io) (a b : Service) (u : StateUpdate)
    → IsVersioned h a
    → IsVersioned h b
    → Carries a b u
    → IsCovered (baseline (lookup b.last_sync_clock u.from_node_id)) a
    → let (s, r) = build_delta_reply io.now u (take_update io u b) in Replied a b u.from_node_id s r
unfolding build_delta_reply
delta_reply h io a b u ha hb c base =
    let t = take_update io u b in
    let (s, r) = build_delta_reply io.now u t in
    let keeps = take_update-keeps io u b in
    let got = take_update-HasReceived h io a b u ha hb c in
    let ht = HasReceived-IsVersioned h a b t ha hb got in
    let sent =
      delta-Carries h t a
        (merge_clock u.vector_clock (baseline (lookup t.last_sync_clock u.from_node_id))) r ht ha
        (base_for_a.nonneg) (base_for_a.covered) refl refl refl in
    record {
      taken = record {
        counter_valid = got.counter_valid;
        clock_valid = got.clock_valid;
        clock = got.clock;
        positive = got.positive;
        negative = got.negative;
      };
      carries = record { merged = sent.merged; valid = sent.valid; clock = sent.clock };
      self = record {
        node_id = keeps.0.node_id;
        counter_id = keeps.0.counter_id;
        clock_id = keeps.0.clock_id;
      };
      replies = λ x.
          new_baseline x u.from_node_id t.last_sync_clock b.last_sync_clock
            (merge_clock (state t.clock) u.vector_clock)
            (merge_clock (state t.clock) (state a.clock)) keeps.1
            (ap (merge_clock (state t.clock)) c.clock);
    }
  where
    base_for_a :
        IsCovered
          (merge_clock u.vector_clock
            (baseline (lookup (take_update io u b).last_sync_clock u.from_node_id)))
          a
    base_for_a =
        merge_clock-IsCovered _ _ a
          (subst (λ m. IsCovered m a) (sym c.clock)
            (state-IsCovered a a ha.clock_valid (λ k. omega arith)))
          (subst (λ m. IsCovered (baseline (lookup m u.from_node_id)) a)
            (sym (take_update-keeps io u b).1) base)

-- The update of a node that gossips, answered.
pub sync_update-Replied :
    (h : History) (io : Io) (a b : Service) (u : StateUpdate)
    → IsVersioned h a
    → IsVersioned h b
    → Carries a b u
    → IsCovered (baseline (lookup b.last_sync_clock u.from_node_id)) a
    → u.type ≢ heartbeat
    → (s : Service) × (r : StateUpdate) × (sync_update io u b ≡ (s, some r))
      × Replied a b u.from_node_id s r
unfolding sync_update merge_update build_delta_reply
sync_update-Replied h io a b u ha hb c base = by_type u.type refl
  where
    by_type :
        (type : UpdateType)
        → u.type ≡ type
        → u.type ≢ heartbeat
        → (s : Service) × (r : StateUpdate) × (sync_update io u b ≡ (s, some r))
          × Replied a b u.from_node_id s r
    by_type full_state e ne = (_, _, rw (sync_update, e) refl, full_reply h io a b u ha hb c)
    by_type delta_update e ne =
        (_, _, rw (sync_update, e) refl, delta_reply h io a b u ha hb c base)
    by_type heartbeat e ne = absurd (ne e)
