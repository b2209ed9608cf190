-- ===== src/Tests/Service.antt =====
-- The theorems on internal/service and internal/persistence at concrete inputs.
use distributed_counter.Base.{
  Text, ◌≡◌, refl, true, none, some, List, [], ◌∷◌, ◌++◌, arith, codes, text_eq, lookup, length,
  ◌+◌, set, add64, lt64, false,
}
use distributed_counter.Crdt.Counts.{count_at}
use distributed_counter.Crdt.Keys.{counter_key, is_default}
use distributed_counter.Crdt.PnCounter
use distributed_counter.Crdt.PnCounter.{PnCounter, increment_name, reset_name, merge}
use distributed_counter.Crdt.PnCounter.Convergence.{SameCounter}
use distributed_counter.Crdt.PnCounter.Resets.{reset_is_undone_by_peers}
use distributed_counter.Crdt.PnCounter.Negative.{negative_amount_is_undone}
use distributed_counter.Persistence.Wal.{
  Disk, wrote, Line, entry, garbled, new_entry, replay, reopened,
}
use distributed_counter.Crdt.VectorClock
use distributed_counter.Persistence.Wal.RoundTrip.{
  Operation, append_all, numbered, appended_operations_read_back,
}
use distributed_counter.Service.State.{
  Service, Io, new, restart, restored, persist, wal_append, replay_wal, apply_entries,
}
use distributed_counter.Service.Handlers.{increment, normalize_name, delta_of}
use distributed_counter.Service.Sync.{StateUpdate, full_state}
use distributed_counter.Service.Recovery.Same.{SameState}
use distributed_counter.Service.Recovery.Calls.{
  Call, increments, decrements, receives, snapshots, crashes, run, intended, AllReady, IsReliable,
}
use distributed_counter.Service.Recovery.Crashes.{crashes_do_not_show, restart-first}
use distributed_counter.Service.Recovery.Twice.{keeping, kept_log_counts_twice}
use distributed_counter.Service.Recovery.Damage.{garbled_line_discards_the_log}

abbrev here : Text
here = codes "node-a"

abbrev votes : Text
votes = codes "votes"

abbrev good_disk : Disk
good_disk = record {
  opens = true;
  write = wrote;
  syncs = true;
  removes = true;
  encoded_length = λ e. 200 + length e.counter;
}

abbrev good_io : Io
good_io = record { disk = good_disk; saves = true; applies = false; loads = true; now = 7 }

abbrev first_start : Service
first_start = restart good_io here (some (record { saved = none })) none

abbrev peer_update : StateUpdate
peer_update = record {
  from_node_id = codes "node-b";
  positive_state = (codes "votes:node-b", 4) ∷ [];
  negative_state = [];
  vector_clock = (codes "votes:node-b", 1) ∷ [];
  timestamp = 6;
  type = full_state;
  last_sync_version = 1;
  membership = [];
}

abbrev life : List (Io × Call)
life =
    (good_io, increments votes 3)
    ∷ (good_io, snapshots)
    ∷ (good_io, receives peer_update)
    ∷ (good_io, crashes)
    ∷ (good_io, decrements [] 1)
    ∷ (good_io, crashes)
    ∷ []

reliable : IsReliable good_io
reliable = record { opens = refl; writes = refl; removes = refl; loads = refl; clean = refl }

abbrev voted : Service
voted = run ((good_io, increments votes 3) ∷ []) first_start

voted_counter : PnCounter.IsValid voted.counter
unfolding run increment persist wal_append restart replay_wal replay apply_entries new PnCounter.new
    PnCounter.increment_name reopened normalize_name delta_of counter_key is_default text_eq
    count_at lookup set add64
voted_counter = record {
  positive_distinct = (refl, tt);
  negative_distinct = tt;
  positive_nonneg = (omega arith, tt);
  negative_nonneg = tt;
}

voted_clock : VectorClock.IsValid voted.clock
unfolding run increment persist wal_append restart replay_wal replay apply_entries new
    VectorClock.new VectorClock.increment_name reopened normalize_name delta_of counter_key
    is_default text_eq count_at lookup set add64
voted_clock = record { distinct = (refl, tt); nonneg = (omega arith, tt) }

life_ready : AllReady life first_start
unfolding run normalize_name text_eq
life_ready = (
  reliable,
  λ seq h. refl,
  (
    reliable,
    (voted_counter, voted_clock),
    (reliable, λ seq h. refl, (reliable, tt, (reliable, λ seq h. refl, (reliable, tt, tt)))),
  ),
)

crashes_do_not_show_example : SameState (run life first_start) (intended life first_start)
crashes_do_not_show_example =
    crashes_do_not_show life first_start (restart-first good_io here refl) life_ready

abbrev logged : Line
logged = entry 205 (new_entry 1 7 votes (codes "increment") 3 [] [] [])

garbled_line_discards_the_log_example :
    let s =
      restart good_io here none
        (some (record { lines = (logged ∷ []) ++ garbled ∷ []; torn = true })) in
    (s.counter ≡ (restored true here none).counter) × (s.clock ≡ (restored true here none).clock)
garbled_line_discards_the_log_example =
    garbled_line_discards_the_log good_io here none (logged ∷ []) [] true

abbrev five : PnCounter
five = record { positive = (here, 5) ∷ []; negative = []; node_id = here }

five-IsValid : PnCounter.IsValid five
unfolding lookup
five-IsValid = record {
  positive_distinct = (refl, tt);
  negative_distinct = tt;
  positive_nonneg = omega arith;
  negative_nonneg = tt;
}

-- The amount -2.
negative_amount_is_undone_example :
    count_at
      (merge five (increment_name (codes "default") 18_446_744_073_709_551_614 five)).positive
      (counter_key (codes "default") here)
    ≡ count_at five.positive (counter_key (codes "default") here)
unfolding count_at lookup counter_key text_eq is_default
negative_amount_is_undone_example =
    negative_amount_is_undone five (codes "default") 18_446_744_073_709_551_614 five-IsValid
      (omega arith) (omega arith)

reset_is_undone_by_peers_example : SameCounter (merge five (reset_name (codes "default") five)) five
reset_is_undone_by_peers_example = reset_is_undone_by_peers (codes "default") five five-IsValid

kept_log_counts_twice_example :
    let io = keeping 7 in
    let start = restart io here (some (record { saved = none })) none in
    let s = run ((io, increments votes 3) ∷ (io, snapshots) ∷ (io, crashes) ∷ []) start in
    count_at s.counter.positive (counter_key (normalize_name votes) here)
    ≡ add64 (add64 0 (delta_of 3)) (delta_of 3)
unfolding delta_of lt64
kept_log_counts_twice_example = kept_log_counts_twice 7 here votes 3 refl

abbrev operations : List Operation
operations =
    record {
      now = 7;
      counter = votes;
      op = codes "increment";
      delta = 3;
      positive = [];
      negative = [];
      clock = [];
    }
    ∷ record {
      now = 8;
      counter = votes;
      op = codes "reset";
      delta = 0;
      positive = [];
      negative = [];
      clock = [];
    }
    ∷ []

appended_operations_read_back_example :
    (replay good_disk (reopened (append_all good_disk operations (reopened none)).file)).1
    ≡ some (numbered 1 operations)
appended_operations_read_back_example =
    appended_operations_read_back good_disk operations refl refl (omega arith) (refl, (refl, tt))
