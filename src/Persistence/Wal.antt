-- ===== src/Persistence/Wal.antt =====
-- internal/persistence/wal.go and the CounterState of store.go. A log file is the list of its lines,
-- each with its length and the entry that encoding/json reads back; what the disk answers, and how long
-- the text of an entry is, are arguments.
pub mod Reading
pub mod RoundTrip
use distributed_counter.Base.{
  Text, ℕ, ◌+◌, ◌%◌, ◌^◌, Bool, true, false, ◌&&◌, not, Option, none, some, List, [], ◌∷◌, ◌++◌,
  if◌then◌else◌, ltb, Int64, GoMap,
}
use mathlib.Core.Option.{map as option_map}
use distributed_counter.Crdt.Counts.{Counts}

-- CounterState of store.go
pub record CounterState : Type 0 where
  pub positive : Counts
  pub negative : Counts
  pub clock : Counts
  pub tags : GoMap (List Text)

pub record WalEntry : Type 0 where
  pub seq : ℕ
  pub op : Text
  pub node : Text
  pub counter : Text
  pub delta : Int64
  pub positive : Counts
  pub negative : Counts
  pub clock : Counts
  pub ts : ℕ

-- An empty line, a line that decodes, with its length, and a line that does not.
pub data Line : Type 0 where
  blank : Line
  entry : ℕ → WalEntry → Line
  garbled : Line

-- `torn`: the last line has no line break yet, and the next write continues it.
pub record LogFile : Type 0 where
  pub lines : List Line
  pub torn : Bool

pub record WalStore : Type 0 where
  pub file : Option LogFile
  pub is_open : Bool
  pub seq : ℕ

-- NewWALStore on the directory of a process that has stopped
unfoldable pub reopened : Option LogFile → WalStore
reopened file = record { file = file; is_open = false; seq = 0 }

-- file.Write: the whole line, a part of it (short of its closing brace) with an error, or nothing with
-- an error.
pub data Write : Type 0 where
  wrote : Write
  wrote_part : Write
  wrote_nothing : Write

-- `encoded_length`: how many bytes json.Marshal makes of an entry.
pub record Disk : Type 0 where
  pub opens : Bool
  pub write : Write
  pub syncs : Bool
  pub removes : Bool
  pub encoded_length : WalEntry → ℕ

abbrev pub content : Option LogFile → LogFile
content none = record { lines = []; torn = false }
content (some f) = f

-- openLocked: O_CREATE makes the file
unfoldable pub open_locked : Disk → WalStore → Option WalStore
open_locked disk w =
    if w.is_open
    then some w
    else if disk.opens
    then some (record w { file = some (content w.file); is_open = true })
    else none

-- A whole line that follows a torn one is lost in it.
abbrev pub write_line : Line → Write → LogFile → LogFile
write_line l wrote f =
    if f.torn
    then record { lines = f.lines; torn = false }
    else record { lines = f.lines ++ l ∷ []; torn = false }
write_line l wrote_part f =
    if f.torn then f else record { lines = f.lines ++ garbled ∷ []; torn = true }
write_line l wrote_nothing f = f

abbrev pub write_ok : Write → Bool
write_ok wrote = true
write_ok wrote_part = false
write_ok wrote_nothing = false

-- The entry that AppendCounter writes; its field `node` stays empty.
abbrev pub new_entry : ℕ → ℕ → Text → Text → Int64 → Counts → Counts → Counts → WalEntry
new_entry seq now counter op delta positive negative clock = record {
  seq = seq;
  op = op;
  node = [];
  counter = counter;
  delta = delta;
  positive = positive;
  negative = negative;
  clock = clock;
  ts = now;
}

-- AppendCounter, with whether it returns nil. The entry's maps and texts always marshal.
unfoldable pub append_counter :
    Disk → ℕ → Text → Text → Int64 → Counts → Counts → Counts → WalStore → WalStore × Bool
unfolding open_locked
append_counter disk now counter op delta positive negative clock w = elim (open_locked disk w) [
  | none ↦ (w, false)
  | some w1 ↦
      let seq = (w1.seq + 1) % 2 ^ 64 in
      let e = new_entry seq now counter op delta positive negative clock in
      (
        record w1 {
          file = some (write_line (entry (disk.encoded_length e) e) disk.write (content w1.file));
          seq = seq;
        },
        write_ok disk.write && disk.syncs,
      )
]

-- The greatest size of the scanner's buffer: a line must be shorter.
abbrev pub max_line : ℕ
max_line = 4_194_304

-- The loop of Replay: the highest number seen, and the entries or `none` for an error.
unfoldable pub replay_loop : List Line → ℕ → ℕ × Option (List WalEntry)
replay_loop [] seq = (seq, some [])
replay_loop (blank ∷ lines) seq = replay_loop lines seq
replay_loop (garbled ∷ lines) seq = (seq, none)
replay_loop (entry n e ∷ lines) seq =
    let (seq', rest) = replay_loop lines (if ltb seq e.seq then e.seq else seq) in
    if ltb n max_line then (seq', option_map (λ es. e ∷ es) rest) else (seq, none)

-- Replay
unfoldable pub replay : Disk → WalStore → WalStore × Option (List WalEntry)
unfolding replay_loop
replay disk w = elim w.file [
  | none ↦ (w, some [])
  | some f ↦
      if disk.opens
      then (let (seq, entries) = replay_loop f.lines w.seq in (record w { seq = seq }, entries))
      else (w, none)
]

-- Truncate, with whether it returns nil: an error leaves the file and the number.
unfoldable pub truncate : Disk → WalStore → WalStore × Bool
truncate disk w = elim w.file [
  | none ↦ (record { file = none; is_open = false; seq = 0 }, true)
  | some f ↦
      if disk.removes
      then (record { file = none; is_open = false; seq = 0 }, true)
      else (record w { is_open = false }, false)
]

-- Close
unfoldable pub close : WalStore → WalStore
close w = record w { is_open = false }
