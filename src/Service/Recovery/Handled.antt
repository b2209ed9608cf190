-- ===== src/Service/Recovery/Handled.antt =====
-- The handlers and the events of a node, and the invariant of its store and its log.
use distributed_counter.Base.{Text, ℕ, ◌≡◌, refl, sym, ◌⊎◌, arith, [], inl, inr, subst, text_eq}
use distributed_counter.Crdt.PnCounter
use distributed_counter.Crdt.VectorClock
use distributed_counter.Service.State.{
  Service, Io, op_increment, op_decrement, op_reset, op_merge, apply_entry,
}
use distributed_counter.Service.Handlers.{
  normalize_name, delta_of, increment, decrement, reset, apply_increment, apply_decrement,
  apply_reset,
}
use distributed_counter.Service.Sync.{
  UpdateType, StateUpdate, full_state, delta_update, heartbeat, sync_update, take_update,
  build_delta_reply, merge_update,
}
use distributed_counter.Service.Recovery.Same.{SameState-refl}
use distributed_counter.Service.Recovery.Calls.{
  Call, increments, decrements, resets, receives, snapshots, crashes, run_call, IsReliable, IsReady,
}
use distributed_counter.Service.Recovery.Durable.{
  IsDurable, wal_append-IsDurable, snapshot-IsDurable,
}
use distributed_counter.Service.Recovery.Restart.{restart-IsDurable}

increment-IsDurable :
    (io : Io) (name : Text) (d : ℕ) (s : Service)
    → IsReliable io
    → IsReady io (increments name d) s
    → IsDurable s
    → IsDurable (increment io name d s).0
unfolding increment PnCounter.increment_name VectorClock.increment_name apply_entry text_eq
increment-IsDurable io name d s g r h =
    wal_append-IsDurable io op_increment (normalize_name name) (delta_of d) [] [] [] s
      (apply_increment (normalize_name name) (delta_of d) s) g r h refl refl refl refl refl
      (λ seq. SameState-refl _)

decrement-IsDurable :
    (io : Io) (name : Text) (d : ℕ) (s : Service)
    → IsReliable io
    → IsReady io (decrements name d) s
    → IsDurable s
    → IsDurable (decrement io name d s).0
unfolding decrement PnCounter.decrement_name VectorClock.increment_name apply_entry text_eq
decrement-IsDurable io name d s g r h =
    wal_append-IsDurable io op_decrement (normalize_name name) (delta_of d) [] [] [] s
      (apply_decrement (normalize_name name) (delta_of d) s) g r h refl refl refl refl refl
      (λ seq. SameState-refl _)

reset_name_owner :
    (name : Text) (p : PnCounter.PnCounter) → (PnCounter.reset_name name p).node_id ≡ p.node_id
unfolding PnCounter.reset_name
reset_name_owner name p = ground arith

reset_name_clock_owner :
    (name : Text) (v : VectorClock.VectorClock)
    → (VectorClock.reset_name name v).node_id ≡ v.node_id
unfolding VectorClock.reset_name
reset_name_clock_owner name v = ground arith

reset-IsDurable :
    (io : Io) (name : Text) (s : Service)
    → IsReliable io
    → IsReady io (resets name) s
    → IsDurable s
    → IsDurable (run_call io (resets name) s)
unfolding reset apply_entry text_eq
reset-IsDurable io name s g r h =
    let n = normalize_name name in
    wal_append-IsDurable io op_reset n 0 [] [] [] s (apply_reset n s) g r h refl refl refl
      (reset_name_owner n s.counter) (reset_name_clock_owner n s.clock)
      (λ seq. record {
        counter = (SameState-refl (apply_reset n s)).counter;
        clock = (SameState-refl (apply_reset n s)).clock;
      })

take_update-IsDurable :
    (io : Io) (update : StateUpdate) (s : Service)
    → IsReliable io
    → IsReady io (receives update) s
    → IsDurable s
    → IsDurable (take_update io update s)
unfolding take_update merge_update apply_entry text_eq PnCounter.merge VectorClock.merge_map
take_update-IsDurable io update s g r h =
    wal_append-IsDurable io op_merge [] 0 update.positive_state update.negative_state
      update.vector_clock s (merge_update update s) g r h refl refl refl refl refl
      (λ seq. record {
        counter = (SameState-refl (merge_update update s)).counter;
        clock = (SameState-refl (merge_update update s)).clock;
      })

-- The reply changes the baselines only.
delta_reply-IsDurable :
    (now : ℕ) (update : StateUpdate) (s : Service)
    → IsDurable s
    → IsDurable (build_delta_reply now update s).0
unfolding build_delta_reply
delta_reply-IsDurable now update s h = record {
  log = h.log;
  has_log = h.has_log;
  entries = h.entries;
  reads = h.reads;
  rebuilt = record { counter = h.rebuilt.counter; clock = h.rebuilt.clock };
  counter_owned = h.counter_owned;
  clock_owned = h.clock_owned;
}

pub UpdateType-cases : (u : UpdateType) → (u ≡ heartbeat) ⊎ ((u ≡ full_state) ⊎ (u ≡ delta_update))
UpdateType-cases heartbeat = inl refl
UpdateType-cases full_state = inr (inl refl)
UpdateType-cases delta_update = inr (inr refl)

pub sync_update-heartbeat :
    (io : Io) (update : StateUpdate) (s : Service)
    → update.type ≡ heartbeat
    → (sync_update io update s).0 ≡ s
unfolding sync_update
sync_update-heartbeat io update s e = rw e refl

pub sync_update-full_state :
    (io : Io) (update : StateUpdate) (s : Service)
    → update.type ≡ full_state
    → (sync_update io update s).0 ≡ take_update io update s
unfolding sync_update
sync_update-full_state io update s e = rw e refl

pub sync_update-delta_update :
    (io : Io) (update : StateUpdate) (s : Service)
    → update.type ≡ delta_update
    → (sync_update io update s).0 ≡ (build_delta_reply io.now update (take_update io update s)).0
unfolding sync_update
sync_update-delta_update io update s e = rw e refl

sync_update-IsDurable :
    (io : Io) (update : StateUpdate) (s : Service)
    → IsReliable io
    → IsReady io (receives update) s
    → IsDurable s
    → IsDurable (sync_update io update s).0
sync_update-IsDurable io update s g r h = elim (UpdateType-cases update.type) [
  | inl e ↦ subst IsDurable (sym (sync_update-heartbeat io update s e)) h
  | inr (inl e) ↦
      subst IsDurable (sym (sync_update-full_state io update s e))
        (take_update-IsDurable io update s g r h)
  | inr (inr e) ↦ subst IsDurable (sym (sync_update-delta_update io update s e)) (
      delta_reply-IsDurable io.now update (take_update io update s)
        (take_update-IsDurable io update s g r h))
]

pub run_call-IsDurable :
    (io : Io) (c : Call) (s : Service)
    → IsReliable io
    → IsReady io c s
    → IsDurable s
    → IsDurable (run_call io c s)
run_call-IsDurable io (increments name d) s g r h = increment-IsDurable io name d s g r h
run_call-IsDurable io (decrements name d) s g r h = decrement-IsDurable io name d s g r h
run_call-IsDurable io (resets name) s g r h = reset-IsDurable io name s g r h
run_call-IsDurable io (receives update) s g r h = sync_update-IsDurable io update s g r h
run_call-IsDurable io snapshots s g r h = snapshot-IsDurable io s g r.0 r.1 h
run_call-IsDurable io crashes s g r h = (restart-IsDurable io s g.opens g.loads h).1
