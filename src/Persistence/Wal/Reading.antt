-- ===== src/Persistence/Wal/Reading.antt =====
-- What Replay reads from the log after AppendCounter and Truncate.
use distributed_counter.Base.{
  Text, ℕ, ◌+◌, ◌%◌, ◌^◌, ◌≡◌, refl, true, false, Option, none, some, List, [], ◌∷◌, ◌++◌, ltb,
  if◌then◌else◌, inl, inr, Bool-cases, Option-cases, Int64, ap, ◌∙◌,
}
use mathlib.Core.Option.{map as option_map}
use distributed_counter.Crdt.Counts.{Counts}
use distributed_counter.Persistence.Wal.{
  WalEntry, Line, blank, entry, garbled, LogFile, WalStore, Disk, wrote, content, new_entry,
  write_line, append_counter, open_locked, max_line, replay_loop, truncate, replay, reopened,
}

-- A file that ends with a line break and that Replay reads as these entries.
pub record IsLog (f : LogFile) (entries : List WalEntry) : Type 0 where
  pub intact : f.torn ≡ false
  pub reads : (seq : ℕ) → (replay_loop f.lines seq).1 ≡ some entries

map_swap :
    (a b : WalEntry) (o : Option (List WalEntry))
    → option_map (λ es. a ∷ es) (option_map (λ es. es ++ b ∷ []) o)
      ≡ option_map (λ es. es ++ b ∷ []) (option_map (λ es. a ∷ es) o)
map_swap a b none = refl
map_swap a b (some es) = refl

replay_loop-append :
    (lines : List Line) (n : ℕ) (e : WalEntry) (seq : ℕ)
    → ltb n max_line ≡ true
    → (replay_loop (lines ++ entry n e ∷ []) seq).1
      ≡ option_map (λ es. es ++ e ∷ []) (replay_loop lines seq).1
unfolding replay_loop
replay_loop-append [] n e seq h = rw h refl
replay_loop-append (blank ∷ lines) n e seq h = replay_loop-append lines n e seq h
replay_loop-append (garbled ∷ lines) n e seq h = refl
replay_loop-append (entry n' e' ∷ lines) n e seq h = elim (Bool-cases (ltb n' max_line)) [
  | inl t ↦
      let seq' = if ltb seq e'.seq then e'.seq else seq in
      rw t (
        ap (option_map (λ es. e' ∷ es)) (replay_loop-append lines n e seq' h)
        ∙ map_swap e' e (replay_loop lines seq').1)
  | inr t ↦ rw t refl
]

pub write_line-IsLog :
    (f : LogFile) (entries : List WalEntry) (n : ℕ) (e : WalEntry)
    → ltb n max_line ≡ true
    → IsLog f entries
    → IsLog (write_line (entry n e) wrote f) (entries ++ e ∷ [])
write_line-IsLog f entries n e fits h = rw (h.intact) (record {
  intact = refl;
  reads = λ seq.
      replay_loop-append f.lines n e seq fits ∙ ap (option_map (λ es. es ++ e ∷ [])) (h.reads seq);
})

pub nil-IsLog : IsLog (content none) []
unfolding replay_loop
nil-IsLog = record { intact = refl; reads = λ seq. refl }

-- The text of an entry fits in the buffer of the scanner.
abbrev pub Fits : Disk → WalEntry → Type 0
Fits disk e = ltb (disk.encoded_length e) max_line ≡ true

-- On a disk that opens and writes, the log gains an entry that fits.
pub append_counter-IsLog :
    (disk : Disk) (now : ℕ) (counter op : Text) (delta : Int64) (positive negative clock : Counts)
    (w : WalStore) (entries : List WalEntry)
    → disk.opens ≡ true
    → disk.write ≡ wrote
    → Fits disk (new_entry ((w.seq + 1) % 2 ^ 64) now counter op delta positive negative clock)
    → IsLog (content w.file) entries
    → IsLog (content (append_counter disk now counter op delta positive negative clock w).0.file) (
        entries
        ++ new_entry ((w.seq + 1) % 2 ^ 64) now counter op delta positive negative clock ∷ [])
unfolding append_counter open_locked
append_counter-IsLog disk now counter op delta positive negative clock w entries o k fits h =
    let e = new_entry ((w.seq + 1) % 2 ^ 64) now counter op delta positive negative clock in
    elim (Bool-cases w.is_open) [
      | inl o1 ↦ rw (o1, k) (write_line-IsLog (content w.file) entries _ e fits h)
      | inr o0 ↦ rw (o0, o, k) (write_line-IsLog (content w.file) entries _ e fits h)
    ]

pub truncate-IsLog :
    (disk : Disk) (w : WalStore) → disk.removes ≡ true → IsLog (content (truncate disk w).0.file) []
unfolding truncate
truncate-IsLog disk w r = elim (Option-cases w.file) [
  | inl e ↦ rw e nil-IsLog
  | inr (f, e) ↦ rw (e, r) nil-IsLog
]

-- A store that is opened on the file reads the entries and leaves the file.
pub replay-IsLog :
    (disk : Disk) (f : Option LogFile) (entries : List WalEntry)
    → disk.opens ≡ true
    → IsLog (content f) entries
    → ((replay disk (reopened f)).1 ≡ some entries) × ((replay disk (reopened f)).0.file ≡ f)
unfolding replay reopened
replay-IsLog disk none entries o h = (unfold replay_loop in h.reads 0, refl)
replay-IsLog disk (some f) entries o h = rw o (h.reads 0, refl)
