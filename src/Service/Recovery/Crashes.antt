-- ===== src/Service/Recovery/Crashes.antt =====
-- Whole lives of a node with a log: calls, snapshots and crashes.
use distributed_counter.Base.{
  Text, ◌≡◌, refl, sym, ap, true, none, some, List, [], ◌∷◌, Bool-cases, Option-cases, Int64, inl,
  inr, subst,
}
use mathlib.Core.Path.{subst₂}
use distributed_counter.Crdt.Counts.{Counts}
use distributed_counter.Crdt.PnCounter
use distributed_counter.Crdt.VectorClock
use distributed_counter.Persistence.Wal.{WalStore, reopened, replay}
use distributed_counter.Persistence.Wal.Reading.{nil-IsLog}
use distributed_counter.Service.State.{
  Service, Io, new, wal_append, persist, apply_entries, restart, snapshot, replay_wal,
}
use distributed_counter.Service.Handlers.{
  increment, decrement, reset, apply_increment, apply_decrement, apply_reset,
}
use distributed_counter.Service.Sync.{
  UpdateType, StateUpdate, full_state, delta_update, heartbeat, sync_update, take_update,
  build_delta_reply, merge_update,
}
use distributed_counter.Service.Recovery.Same.{
  SameState, SameState-refl, SameState-trans, increment_name-SamePn, decrement_name-SamePn,
  reset_name-SamePn, merge-SamePn, increment_name-SameClock, reset_name-SameClock,
  merge_map-SameClock,
}
use distributed_counter.Service.Recovery.Calls.{
  Call, increments, decrements, resets, receives, snapshots, crashes, run_call, run, intended_call,
  intended, received, IsReliable, AllReady,
}
use distributed_counter.Service.Recovery.Durable.{
  IsDurable, snapshot-none, snapshot_saved, snapshot_failed,
}
use distributed_counter.Service.Recovery.Restart.{restart-IsDurable}
use distributed_counter.Service.Recovery.Handled.{
  UpdateType-cases, sync_update-heartbeat, sync_update-full_state, sync_update-delta_update,
  run_call-IsDurable,
}

-- Writing to the log leaves the counter and the clock.
logged-SameState :
    (io : Io) (op counter : Text) (delta : Int64) (positive negative clock : Counts) (t : Service)
    {w : WalStore}
    → t.wal ≡ some w
    → SameState (persist io (wal_append io op counter delta positive negative clock t)) t
unfolding persist wal_append
logged-SameState io op counter delta positive negative clock t e =
    rw e (record { counter = (SameState-refl t).counter; clock = (SameState-refl t).clock })

take_update-SameState :
    (io : Io) (update : StateUpdate) (s : Service)
    → IsDurable s
    → SameState (take_update io update s) (merge_update update s)
unfolding take_update merge_update
take_update-SameState io update s h = logged-SameState io _ _ _ _ _ _ _ h.has_log

delta_reply-SameState :
    (io : Io) (update : StateUpdate) (s : Service)
    → IsDurable s
    → SameState
        (build_delta_reply io.now update (take_update io update s)).0
        (merge_update update s)
unfolding build_delta_reply
delta_reply-SameState io update s h =
    let same = take_update-SameState io update s h in
    record { counter = same.counter; clock = same.clock }

sync_update-SameState :
    (io : Io) (update : StateUpdate) (s : Service)
    → IsDurable s
    → SameState (sync_update io update s).0 (received update.type update s)
sync_update-SameState io update s h = elim (UpdateType-cases update.type) [
  | inl e ↦
      subst₂ SameState (sym (sync_update-heartbeat io update s e))
        (sym (ap (λ k. received k update s) e)) (SameState-refl s)
  | inr (inl e) ↦
      subst₂ SameState (sym (sync_update-full_state io update s e))
        (sym (ap (λ k. received k update s) e)) (take_update-SameState io update s h)
  | inr (inr e) ↦
      subst₂ SameState (sym (sync_update-delta_update io update s e))
        (sym (ap (λ k. received k update s) e)) (delta_reply-SameState io update s h)
]

merge_update-SameState :
    (update : StateUpdate) (s t : Service)
    → SameState s t
    → SameState (merge_update update s) (merge_update update t)
unfolding merge_update
merge_update-SameState update s t h = record {
  counter = merge-SamePn _ _ _ h.counter;
  clock = merge_map-SameClock _ _ _ h.clock;
}

received-SameState :
    (k : UpdateType) (update : StateUpdate) (s t : Service)
    → SameState s t
    → SameState (received k update s) (received k update t)
received-SameState heartbeat update s t h = h
received-SameState full_state update s t h = merge_update-SameState update s t h
received-SameState delta_update update s t h = merge_update-SameState update s t h

snapshot-SameState :
    (io : Io) (s : Service) → IsReliable io → IsDurable s → SameState (snapshot io s) s
snapshot-SameState io s g h = elim (Option-cases s.store) [
  | inl e ↦ subst (λ t. SameState t s) (sym (snapshot-none io s e)) (SameState-refl s)
  | inr (store, e) ↦ elim (Bool-cases io.saves) [
    | inl saved ↦
        subst (λ t. SameState t s) (sym (snapshot_saved io s e saved h.has_log))
          (record { counter = (SameState-refl s).counter; clock = (SameState-refl s).clock })
    | inr failed ↦
        subst (λ t. SameState t s) (sym (snapshot_failed io s failed g.clean)) (SameState-refl s)
  ]
]

run_call-SameState :
    (io : Io) (c : Call) (s : Service)
    → IsReliable io
    → IsDurable s
    → SameState (run_call io c s) (intended_call c s)
unfolding increment decrement reset
run_call-SameState io (increments name d) s g h = logged-SameState io _ _ _ _ _ _ _ h.has_log
run_call-SameState io (decrements name d) s g h = logged-SameState io _ _ _ _ _ _ _ h.has_log
run_call-SameState io (resets name) s g h = logged-SameState io _ _ _ _ _ _ _ h.has_log
run_call-SameState io (receives update) s g h = sync_update-SameState io update s h
run_call-SameState io snapshots s g h = snapshot-SameState io s g h
run_call-SameState io crashes s g h = (restart-IsDurable io s g.opens g.loads h).0

intended_call-SameState :
    (c : Call) (s t : Service) → SameState s t → SameState (intended_call c s) (intended_call c t)
unfolding apply_increment apply_decrement apply_reset
intended_call-SameState (increments name d) s t h = record {
  counter = increment_name-SamePn _ _ _ _ h.counter;
  clock = increment_name-SameClock _ _ _ h.clock;
}
intended_call-SameState (decrements name d) s t h = record {
  counter = decrement_name-SamePn _ _ _ _ h.counter;
  clock = increment_name-SameClock _ _ _ h.clock;
}
intended_call-SameState (resets name) s t h = record {
  counter = reset_name-SamePn _ _ _ h.counter;
  clock = reset_name-SameClock _ _ _ h.clock;
}
intended_call-SameState (receives update) s t h = received-SameState update.type update s t h
intended_call-SameState snapshots s t h = h
intended_call-SameState crashes s t h = h

pub intended-SameState :
    (calls : List (Io × Call)) (s t : Service)
    → SameState s t
    → SameState (intended calls s) (intended calls t)
unfolding intended
intended-SameState [] s t h = h
intended-SameState ((io, c) ∷ calls) s t h =
    intended-SameState calls (intended_call c s) (intended_call c t)
      (intended_call-SameState c s t h)

-- Crashes and snapshots do not show: on a disk that opens, writes whole lines and removes, with a store
-- that loads at every restart and of which a save that fails is not applied, a node that its store and its
-- log determine, after any sequence, one after another, of increments, decrements, resets, sync updates,
-- each with a log entry of less than 4 MiB, snapshots of valid maps (whether or not their save succeeds)
-- and crashes between these with a restart, reads in both maps of its counter and in its clock as if the
-- sequence had been applied in memory with no snapshot and no crash.
pub crashes_do_not_show :
    (calls : List (Io × Call)) (s : Service)
    → IsDurable s
    → AllReady calls s
    → SameState (run calls s) (intended calls s)
unfolding run intended
crashes_do_not_show [] s h r = SameState-refl s
crashes_do_not_show ((io, c) ∷ calls) s h r =
    SameState-trans _ (intended calls (run_call io c s)) _
      (crashes_do_not_show calls (run_call io c s) (run_call-IsDurable io c s r.0 r.1 h) r.2)
      (intended-SameState calls _ _ (run_call-SameState io c s r.0 h))

-- The first start of a node, with a store that has nothing saved and no log file.
pub restart-first :
    (io : Io) (node_id : Text)
    → io.loads ≡ true
    → IsDurable (restart io node_id (some (record { saved = none })) none)
unfolding restart replay_wal replay reopened apply_entries new PnCounter.new VectorClock.new
restart-first io node_id loads = rw (loads) (record {
  log = reopened none;
  has_log = refl;
  entries = [];
  reads = nil-IsLog;
  rebuilt = record {
    counter = (SameState-refl (new node_id)).counter;
    clock = (SameState-refl (new node_id)).clock;
  };
  counter_owned = refl;
  clock_owned = refl;
})
