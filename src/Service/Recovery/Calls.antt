-- ===== src/Service/Recovery/Calls.antt =====
-- Sequences of handler calls, snapshots and crashes, and what they are meant to do to the counter.
use distributed_counter.Base.{
  Text, ℕ, ◌^◌, ◌<◌, ◌≡◌, true, false, Option, Int64, none, some, List, [], ◌∷◌,
}
use distributed_counter.Crdt.PnCounter
use distributed_counter.Crdt.VectorClock
use distributed_counter.Persistence.Wal.{LogFile, wrote, new_entry}
use distributed_counter.Persistence.Wal.Reading.{Fits}
use distributed_counter.Crdt.Counts.{Counts}
use distributed_counter.Service.State.{
  Service, Io, op_increment, op_decrement, op_reset, op_merge, snapshot, restart,
}
use distributed_counter.Service.Handlers.{
  normalize_name, delta_of, increment, decrement, reset, apply_increment, apply_decrement,
  apply_reset,
}
use distributed_counter.Service.Sync.{
  UpdateType, StateUpdate, full_state, delta_update, heartbeat, sync_update, merge_update,
}

-- One event of the life of a node: a call with the texts and numbers of its request, the snapshot loop's
-- tick, or a crash with the restart after it.
pub data Call : Type 0 where
  increments : Text → ℕ → Call
  decrements : Text → ℕ → Call
  resets : Text → Call
  receives : StateUpdate → Call
  snapshots : Call
  crashes : Call

-- The file that a stopped process leaves.
abbrev pub log_file : Service → Option LogFile
log_file s = elim s.wal [ none ↦ none | some w ↦ w.file ]

abbrev pub run_call : Io → Call → Service → Service
run_call io (increments name d) s = (increment io name d s).0
run_call io (decrements name d) s = (decrement io name d s).0
run_call io (resets name) s = (reset {0} (λ (u : Unit). u) io name (s, tt)).0.0
run_call io (receives update) s = (sync_update io update s).0
run_call io snapshots s = snapshot io s
run_call io crashes s = restart io s.node_id s.store (log_file s)

unfoldable pub run : List (Io × Call) → Service → Service
run [] s = s
run ((io, c) ∷ calls) s = run calls (run_call io c s)

-- A heartbeat changes nothing; any other update is merged.
abbrev pub received : UpdateType → StateUpdate → Service → Service
received heartbeat update s = s
received full_state update s = merge_update update s
received delta_update update s = merge_update update s

-- The calls without a disk: snapshots and crashes do nothing.
abbrev pub intended_call : Call → Service → Service
intended_call (increments name d) s = apply_increment (normalize_name name) (delta_of d) s
intended_call (decrements name d) s = apply_decrement (normalize_name name) (delta_of d) s
intended_call (resets name) s = apply_reset (normalize_name name) s
intended_call (receives update) s = received update.type update s
intended_call snapshots s = s
intended_call crashes s = s

unfoldable pub intended : List (Io × Call) → Service → Service
intended [] s = s
intended ((io, c) ∷ calls) s = intended calls (intended_call c s)

-- A disk that opens, writes whole lines and removes, a store that loads, and of which a save that fails is
-- not applied.
pub record IsReliable (io : Io) : Type 0 where
  pub opens : io.disk.opens ≡ true
  pub writes : io.disk.write ≡ wrote
  pub removes : io.disk.removes ≡ true
  pub loads : io.loads ≡ true
  pub clean : io.applies ≡ false

-- An entry of these operands, whatever its number, fits in the buffer of the scanner.
abbrev pub LineFits : Io → Text → Text → Int64 → Counts → Counts → Counts → Type 0
LineFits io op counter delta positive negative clock =
    (seq : ℕ)
    → seq < 2 ^ 64
    → Fits io.disk (new_entry seq io.now counter op delta positive negative clock)

-- A snapshot is taken of maps without negative counts, and what is logged fits.
abbrev pub IsReady : Io → Call → Service → Type 0
IsReady io (increments name d) s =
    LineFits io op_increment (normalize_name name) (delta_of d) [] [] []
IsReady io (decrements name d) s =
    LineFits io op_decrement (normalize_name name) (delta_of d) [] [] []
IsReady io (resets name) s = LineFits io op_reset (normalize_name name) 0 [] [] []
IsReady io (receives update) s =
    LineFits io op_merge [] 0 update.positive_state update.negative_state update.vector_clock
IsReady io snapshots s = PnCounter.IsValid s.counter × VectorClock.IsValid s.clock
IsReady io crashes s = Unit

abbrev pub AllReady : List (Io × Call) → Service → Type 0
AllReady [] s = Unit
AllReady ((io, c) ∷ calls) s = IsReliable io × IsReady io c s × AllReady calls (run_call io c s)
