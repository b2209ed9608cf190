-- ===== src/Service/Recovery/Restart.antt =====
-- The restart of a node, and the invariant of its store and its log.
use distributed_counter.Base.{
  Text, ◌≡◌, refl, sym, ap, ◌∙◌, arith, true, Option, none, some, List, [], ◌∷◌, Option-cases, inl,
  inr,
}
use mathlib.Core.Path.{subst₂}
use distributed_counter.Crdt.PnCounter
use distributed_counter.Crdt.VectorClock
use distributed_counter.Persistence.Wal.{WalEntry, WalStore, LogFile, Disk, replay, reopened}
use distributed_counter.Persistence.Wal.Reading.{replay-IsLog}
use distributed_counter.Service.State.{
  Service, Store, Io, new, restore, restored, apply_entry, apply_entries, replay_wal, restart,
}
use distributed_counter.Service.Recovery.Same.{
  SameState, SameState-refl, SameState-trans, apply_entry-SameState,
}
use distributed_counter.Service.Recovery.Calls.{log_file}
use distributed_counter.Service.Recovery.Durable.{IsDurable}

-- Everything but the counts of the counter and the clock is as it was.
record SameFrame (s t : Service) : Type 0 where
  node_id : s.node_id ≡ t.node_id
  store : s.store ≡ t.store
  wal : s.wal ≡ t.wal
  counter_owner : s.counter.node_id ≡ t.counter.node_id
  clock_owner : s.clock.node_id ≡ t.clock.node_id

apply_entry-SameFrame : (e : WalEntry) (s : Service) → SameFrame (apply_entry e s) s
unfolding apply_entry PnCounter.increment_name PnCounter.decrement_name PnCounter.reset_name
    PnCounter.merge VectorClock.increment_name VectorClock.reset_name VectorClock.merge_map
apply_entry-SameFrame e s = record {
  node_id = ground arith;
  store = ground arith;
  wal = ground arith;
  counter_owner = ground arith;
  clock_owner = ground arith;
}

apply_entries-SameFrame : (es : List WalEntry) (s : Service) → SameFrame (apply_entries es s) s
unfolding apply_entries
apply_entries-SameFrame [] s = record {
  node_id = refl;
  store = refl;
  wal = refl;
  counter_owner = refl;
  clock_owner = refl;
}
apply_entries-SameFrame (e ∷ es) s =
    let rest = apply_entries-SameFrame es (apply_entry e s) in
    let first = apply_entry-SameFrame e s in
    record {
      node_id = rest.node_id ∙ first.node_id;
      store = rest.store ∙ first.store;
      wal = rest.wal ∙ first.wal;
      counter_owner = rest.counter_owner ∙ first.counter_owner;
      clock_owner = rest.clock_owner ∙ first.clock_owner;
    }

apply_entries-SameState :
    (es : List WalEntry) (s t : Service)
    → SameState s t
    → SameState (apply_entries es s) (apply_entries es t)
unfolding apply_entries
apply_entries-SameState [] s t h = h
apply_entries-SameState (e ∷ es) s t h =
    apply_entries-SameState es (apply_entry e s) (apply_entry e t) (apply_entry-SameState e s t h)

replay_reads :
    (disk : Disk) (file : Option LogFile) (r : Service) {es : List WalEntry}
    → (replay disk (reopened file)).1 ≡ some es
    → (replay_wal disk (record r { wal = some (reopened file) })).0
      ≡ apply_entries es (record r { wal = some (replay disk (reopened file)).0 })
unfolding replay_wal replay apply_entries reopened
replay_reads disk file r e = rw e refl

restart_reads :
    (io : Io) (node_id : Text) (store : Option Store) (file : Option LogFile) {es : List WalEntry}
    → (replay io.disk (reopened file)).1 ≡ some es
    → io.loads ≡ true
    → restart io node_id store file
      ≡ apply_entries es
          (record (restored true node_id store) { wal = some (replay io.disk (reopened file)).0 })
unfolding restart
restart_reads io node_id store file {es} e l =
    replay_reads io.disk file (restored io.loads node_id store) e
    ∙ ap
        (λ b.
          apply_entries es
            (record (restored b node_id store) { wal = some (replay io.disk (reopened file)).0 }))
        l

restored-frame :
    (node_id : Text) (store : Option Store)
    → ((restored true node_id store).node_id ≡ node_id)
      × ((restored true node_id store).store ≡ store)
      × ((restored true node_id store).counter.node_id ≡ node_id)
      × ((restored true node_id store).clock.node_id ≡ node_id)
unfolding new restore PnCounter.new PnCounter.merge VectorClock.new VectorClock.merge_map
restored-frame node_id none = (refl, refl, refl, refl)
restored-frame node_id (some found) = elim (Option-cases found.saved) [
  | inl e ↦ rw e (refl, refl, refl, refl)
  | inr (state, e) ↦ rw e (refl, refl, refl, refl)
]

log_file-eq : (s : Service) {w : WalStore} → s.wal ≡ some w → log_file s ≡ w.file
log_file-eq s e = rw e refl

-- With a disk that opens, a restarted node holds what the stopped one held, and is durable again.
pub restart-IsDurable :
    (io : Io) (s : Service)
    → io.disk.opens ≡ true
    → io.loads ≡ true
    → IsDurable s
    → SameState (restart io s.node_id s.store (log_file s)) s
      × IsDurable (restart io s.node_id s.store (log_file s))
restart-IsDurable io s o l h =
    let w = (replay io.disk (reopened h.log.file)).0 in
    let read = replay-IsLog io.disk h.log.file h.entries o h.reads in
    let start = restored true s.node_id s.store in
    let opened = record start { wal = some w } in
    let result = apply_entries h.entries opened in
    let same =
      apply_entries-SameState h.entries opened start (record {
        counter = (SameState-refl start).counter;
        clock = (SameState-refl start).clock;
      }) in
    let back =
      apply_entries-SameState h.entries start opened (record {
        counter = (SameState-refl start).counter;
        clock = (SameState-refl start).clock;
      }) in
    let frame = apply_entries-SameFrame h.entries opened in
    let (f_node, f_store, f_counter, f_clock) = restored-frame s.node_id s.store in
    rw (log_file-eq s h.has_log) (
      rw (restart_reads io s.node_id s.store h.log.file read.0 l) (
        SameState-trans result _ s same h.rebuilt,
        record {
          log = w;
          has_log = frame.wal;
          entries = h.entries;
          reads = rw read.1 h.reads;
          rebuilt =
              subst₂ (λ n st. SameState (apply_entries h.entries (restored true n st)) result)
                (sym (frame.node_id ∙ f_node)) (sym (frame.store ∙ f_store)) back;
          counter_owned = frame.counter_owner ∙ f_counter ∙ sym (frame.node_id ∙ f_node);
          clock_owned = frame.clock_owner ∙ f_clock ∙ sym (frame.node_id ∙ f_node);
        },
      ))
