-- ===== src/Service/Recovery/Durable.antt =====
-- The invariant of a node with a log: what its store and its log say it holds.
use distributed_counter.Base.{
  Text, ℕ, ◌+◌, ◌%◌, ◌^◌, ◌≡◌, refl, sym, ◌∙◌, true, false, none, some, List, [], ◌∷◌, ◌++◌, arith,
  Bool-cases, Option-cases, inl, inr, Int64, subst,
}
use distributed_counter.Crdt.Counts.{Counts}
use distributed_counter.Crdt.Copies.{copy_into-nil}
use distributed_counter.Crdt.Respect.{merge_max-nil}
use distributed_counter.Crdt.PnCounter
use distributed_counter.Crdt.VectorClock
use distributed_counter.Persistence.Wal.{
  WalEntry, WalStore, content, new_entry, append_counter, truncate,
}
use distributed_counter.Persistence.Wal.Reading.{IsLog, append_counter-IsLog, truncate-IsLog}
use distributed_counter.Service.State.{
  Service, Store, Io, new, wal_append, persist, restore, restored, apply_entry, apply_entries,
  snapshot, counter_state,
}
use distributed_counter.Service.Recovery.Same.{SameState, SameState-trans, apply_entry-SameState}
use distributed_counter.Service.Recovery.Calls.{IsReliable, LineFits}

pub record IsDurable (s : Service) : Type 0 where
  pub log : WalStore
  pub has_log : s.wal ≡ some log
  pub entries : List WalEntry
  pub reads : IsLog (content log.file) entries
  pub rebuilt : SameState (apply_entries entries (restored true s.node_id s.store)) s
  pub counter_owned : s.counter.node_id ≡ s.node_id
  pub clock_owned : s.clock.node_id ≡ s.node_id

apply_entries-append :
    (es : List WalEntry) (e : WalEntry) (s : Service)
    → apply_entries (es ++ e ∷ []) s ≡ apply_entry e (apply_entries es s)
unfolding apply_entries
apply_entries-append [] e s = refl
apply_entries-append (x ∷ es) e s = apply_entries-append es e (apply_entry x s)

pub snapshot-none : (io : Io) (s : Service) → s.store ≡ none → snapshot io s ≡ s
unfolding snapshot
snapshot-none io s e = rw e refl

pub snapshot_failed :
    (io : Io) (s : Service) → io.saves ≡ false → io.applies ≡ false → snapshot io s ≡ s
unfolding snapshot
snapshot_failed io s e a =
    rw (e, a) (elim (Option-cases s.store) [ inl n ↦ rw n refl | inr (store, n) ↦ rw n refl ])

pub snapshot_saved :
    (io : Io) (s : Service) {store : Store} {w : WalStore}
    → s.store ≡ some store
    → io.saves ≡ true
    → s.wal ≡ some w
    → snapshot io s ≡ record s {
      store = some (record { saved = some (counter_state s) });
      wal = some (truncate io.disk w).0;
    }
unfolding snapshot counter_state
snapshot_saved io s e saved w = rw (e, saved, w) refl

-- `t` is `s` after an operation that left the log and the store alone, and `op` and its operands, read
-- back from the log, do the same to `s`: once the operation is logged, `t` is durable.
pub wal_append-IsDurable :
    (io : Io) (op counter : Text) (delta : Int64) (positive negative clock : Counts) (s t : Service)
    → IsReliable io
    → LineFits io op counter delta positive negative clock
    → IsDurable s
    → t.wal ≡ s.wal
    → t.store ≡ s.store
    → t.node_id ≡ s.node_id
    → t.counter.node_id ≡ s.counter.node_id
    → t.clock.node_id ≡ s.clock.node_id
    → ((seq : ℕ)
        → SameState
            (apply_entry (new_entry seq io.now counter op delta positive negative clock) s)
            t)
    → IsDurable (persist io (wal_append io op counter delta positive negative clock t))
unfolding persist wal_append
wal_append-IsDurable io op counter delta positive negative clock s t good fits h w st n cn vn same =
    let e = new_entry ((h.log.seq + 1) % 2 ^ 64) io.now counter op delta positive negative clock in
    let after =
      SameState-trans _ (apply_entry e s) t (apply_entry-SameState e _ s h.rebuilt)
        (same ((h.log.seq + 1) % 2 ^ 64)) in
    rw (w ∙ h.has_log) (record {
      log = (append_counter io.disk io.now counter op delta positive negative clock h.log).0;
      has_log = refl;
      entries = h.entries ++ e ∷ [];
      reads =
          append_counter-IsLog io.disk io.now counter op delta positive negative clock h.log
            h.entries good.opens good.writes (fits _ (omega arith)) h.reads;
      rebuilt =
          rw (st, n, apply_entries-append)
            (record { counter = after.counter; clock = after.clock });
      counter_owned = cn ∙ h.counter_owned ∙ sym n;
      clock_owned = vn ∙ h.clock_owned ∙ sym n;
    })

-- What a snapshot of valid maps stores is what a restart restores.
restored_state :
    (s : Service)
    → s.counter.node_id ≡ s.node_id
    → s.clock.node_id ≡ s.node_id
    → PnCounter.IsValid s.counter
    → VectorClock.IsValid s.clock
    → SameState (restored true s.node_id (some (record { saved = some (counter_state s) }))) s
unfolding restore counter_state new PnCounter.merge PnCounter.remote_counter PnCounter.set_positive
    PnCounter.set_negative PnCounter.positive_copy PnCounter.negative_copy PnCounter.new
    VectorClock.merge_map VectorClock.state VectorClock.new
restored_state s cn vn p v = record {
  counter = record {
    owner = sym cn;
    positive =
        rw
          (
            copy_into-nil s.counter.positive p.positive_distinct,
            copy_into-nil s.counter.positive p.positive_distinct,
          )
          (merge_max-nil s.counter.positive p.positive_distinct p.positive_nonneg);
    negative =
        rw
          (
            copy_into-nil s.counter.negative p.negative_distinct,
            copy_into-nil s.counter.negative p.negative_distinct,
          )
          (merge_max-nil s.counter.negative p.negative_distinct p.negative_nonneg);
  };
  clock = record {
    owner = sym vn;
    clock =
        rw (copy_into-nil s.clock.clock v.distinct)
          (merge_max-nil s.clock.clock v.distinct v.nonneg);
  };
}

pub snapshot-IsDurable :
    (io : Io) (s : Service)
    → IsReliable io
    → PnCounter.IsValid s.counter
    → VectorClock.IsValid s.clock
    → IsDurable s
    → IsDurable (snapshot io s)
unfolding snapshot apply_entries
snapshot-IsDurable io s good p v h = elim (Option-cases s.store) [
  | inl e ↦ subst IsDurable (sym (snapshot-none io s e)) h
  | inr (store, e) ↦ elim (Bool-cases io.saves) [
    | inl saved ↦ subst IsDurable (sym (snapshot_saved io s e saved h.has_log)) (
        let back = restored_state s h.counter_owned h.clock_owned p v in
        record {
          log = (truncate io.disk h.log).0;
          has_log = refl;
          entries = [];
          reads = truncate-IsLog io.disk h.log good.removes;
          rebuilt = record { counter = back.counter; clock = back.clock };
          counter_owned = h.counter_owned;
          clock_owned = h.clock_owned;
        })
    | inr failed ↦ subst IsDurable (sym (snapshot_failed io s failed good.clean)) h
  ]
]
