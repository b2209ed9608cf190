-- ===== src/Service/Recovery/Twice.antt =====
-- A snapshot that is saved while the log stays.
use distributed_counter.Base.{
  Text, ℕ, ◌≡◌, refl, ◌∙◌, ap, true, false, none, some, [], ◌∷◌, arith, text_eq, text_eq_refl,
  lookup, set, lt64, add64,
}
use distributed_counter.Crdt.Counts.{
  count_at, merge_step, merge_max, copy_into, count_at-set, count_at-nil,
}
use distributed_counter.Crdt.Keys.{counter_key}
use distributed_counter.Crdt.PnCounter
use distributed_counter.Persistence.Wal.{
  wrote, append_counter, open_locked, replay, replay_loop, reopened, truncate,
}
use distributed_counter.Service.State.{
  Io, new, restart, restore, replay_wal, apply_entry, apply_entries, snapshot, counter_state,
  persist, wal_append,
}
use distributed_counter.Service.Handlers.{normalize_name, delta_of, increment}
use distributed_counter.Service.Recovery.Calls.{increments, snapshots, crashes, run}

-- A disk on which the log cannot be removed, or a process that stops between Save and Truncate.
abbrev pub keeping : ℕ → Io
keeping now = record {
  disk = record {
    opens = true;
    write = wrote;
    syncs = true;
    removes = false;
    encoded_length = λ e. 100;
  };
  saves = true;
  applies = false;
  loads = true;
  now = now;
}

positive_sum : (v : ℕ) → lt64 0 v ≡ true → lt64 0 (add64 0 v) ≡ true
unfolding lt64 add64
positive_sum v h = ground arith

restored_count : (k : Text) (v : ℕ) → lt64 0 v ≡ true → count_at (merge_step [] k v) k ≡ v
unfolding merge_step
restored_count k v h =
    let bigger : lt64 (count_at [] k) v ≡ true = rw (count_at-nil k) h in
    rw bigger (count_at-set [] k k v ∙ rw (text_eq_refl k) refl)

-- An amount that is added to a restored count.
add_again :
    (k : Text) (v amount : ℕ)
    → lt64 0 v ≡ true
    → count_at (PnCounter.add_at (merge_step [] k v) k amount) k ≡ add64 v amount
add_again k v amount h =
    count_at-set (merge_step [] k v) k k (add64 (count_at (merge_step [] k v) k) amount)
    ∙ rw (text_eq_refl k) (ap (λ c. add64 c amount) (restored_count k v h))

-- The amount of a first increment is counted twice after a restart, when the snapshot was saved and the
-- log was not removed: the entry is replayed over a state that has it already.
pub kept_log_counts_twice :
    (now : ℕ) (node_id name : Text) (d : ℕ)
    → lt64 0 (delta_of d) ≡ true
    → let io = keeping now in
      let start = restart io node_id (some (record { saved = none })) none in
      let s = run ((io, increments name d) ∷ (io, snapshots) ∷ (io, crashes) ∷ []) start in
      count_at s.counter.positive (counter_key (normalize_name name) node_id)
      ≡ add64 (add64 0 (delta_of d)) (delta_of d)
unfolding run restart restore replay_wal replay replay_loop reopened append_counter open_locked
    truncate apply_entry apply_entries snapshot counter_state persist wal_append increment new
    PnCounter.new PnCounter.increment_name PnCounter.merge PnCounter.remote_counter
    PnCounter.set_positive PnCounter.set_negative PnCounter.positive_copy PnCounter.negative_copy
    count_at merge_max merge_step copy_into lookup set text_eq
kept_log_counts_twice now node_id name d h =
    add_again (counter_key (normalize_name name) node_id) (add64 0 (delta_of d)) (delta_of d)
      (positive_sum (delta_of d) h)
