-- ===== src/Persistence/Wal/RoundTrip.antt =====
-- What a new process reads of the entries that internal/persistence/wal.go has appended.
use distributed_counter.Base.{
  Text, ℕ, suc, ◌+◌, ◌%◌, ◌^◌, ◌<◌, ◌≡◌, refl, sym, ◌∙◌, ap, true, none, some, List, [], ◌∷◌, ◌++◌,
  arith, Int64, length, inl, inr, Bool-cases, subst,
}
use mathlib.Core.List.{append-nil, append_assoc}
use distributed_counter.Crdt.Counts.{Counts}
use distributed_counter.Persistence.Wal.{
  WalEntry, WalStore, Disk, wrote, content, new_entry, open_locked, append_counter, replay,
  reopened,
}
use distributed_counter.Persistence.Wal.Reading.{
  IsLog, Fits, nil-IsLog, append_counter-IsLog, replay-IsLog,
}

-- What a handler hands to AppendCounter, and when.
pub record Operation : Type 0 where
  pub now : ℕ
  pub counter : Text
  pub op : Text
  pub delta : Int64
  pub positive : Counts
  pub negative : Counts
  pub clock : Counts

abbrev pub append_operation : Disk → Operation → WalStore → WalStore
append_operation disk o w =
    (append_counter disk o.now o.counter o.op o.delta o.positive o.negative o.clock w).0

abbrev pub append_all : Disk → List Operation → WalStore → WalStore
append_all disk [] w = w
append_all disk (o ∷ os) w = append_all disk os (append_operation disk o w)

-- The entries of the operations, numbered from seq on.
abbrev pub numbered : ℕ → List Operation → List WalEntry
numbered seq [] = []
numbered seq (o ∷ os) =
    new_entry seq o.now o.counter o.op o.delta o.positive o.negative o.clock ∷ numbered (suc seq) os

-- Each entry of the list fits in the buffer of the scanner.
abbrev pub AllFit : Disk → List WalEntry → Type 0
AllFit disk [] = Unit
AllFit disk (e ∷ es) = Fits disk e × AllFit disk es

append_operation-seq :
    (disk : Disk) (o : Operation) (w : WalStore)
    → disk.opens ≡ true
    → (append_operation disk o w).seq ≡ (w.seq + 1) % 2 ^ 64
unfolding append_counter open_locked
append_operation-seq disk o w opens = elim (Bool-cases w.is_open) [
  | inl e ↦ rw (append_counter, open_locked, e) refl
  | inr e ↦ rw (append_counter, open_locked, e, opens) refl
]

append_all-IsLog :
    (disk : Disk) (os : List Operation) (w : WalStore) (es : List WalEntry)
    → disk.opens ≡ true
    → disk.write ≡ wrote
    → w.seq + length os < 2 ^ 64
    → AllFit disk (numbered (suc w.seq) os)
    → IsLog (content w.file) es
    → IsLog (content (append_all disk os w).file) (es ++ numbered (suc w.seq) os)
append_all-IsLog disk [] w es opens writes room fits log =
    subst (IsLog (content w.file)) (sym (append-nil es)) log
append_all-IsLog disk (o ∷ os) w es opens writes room fits log =
    let w' = append_operation disk o w in
    let next : w'.seq ≡ suc w.seq = append_operation-seq disk o w opens ∙ omega (arith, room) in
    let e = new_entry (suc w.seq) o.now o.counter o.op o.delta o.positive o.negative o.clock in
    let first : IsLog (content w'.file) (es ++ e ∷ []) =
      subst
        (λ n.
          IsLog (content w'.file)
            (es ++ new_entry n o.now o.counter o.op o.delta o.positive o.negative o.clock ∷ []))
        (sym (append_operation-seq disk o w opens) ∙ next)
        (append_counter-IsLog disk o.now o.counter o.op o.delta o.positive o.negative o.clock w es
          opens writes
          (subst
            (λ n.
              Fits disk (new_entry n o.now o.counter o.op o.delta o.positive o.negative o.clock))
            (sym next ∙ append_operation-seq disk o w opens) fits.0)
          log) in
    let rest =
      append_all-IsLog disk os w' (es ++ e ∷ []) opens writes (omega (arith, next, room))
        (subst (λ n. AllFit disk (numbered (suc n) os)) (sym next) fits.1) first in
    subst (IsLog (content (append_all disk (o ∷ os) w).file))
      (ap (λ n. (es ++ e ∷ []) ++ numbered (suc n) os) next
        ∙ append_assoc es (e ∷ []) (numbered (suc (suc w.seq)) os))
      rest

-- What is appended is read back: on a disk that opens and writes whole lines, fewer than 2 ^ 64 operations
-- that are appended to a new log, each with an entry of less than 4 MiB, are read by the next process, all of them, in their order, and numbered
-- from one on.
pub appended_operations_read_back :
    (disk : Disk) (os : List Operation)
    → disk.opens ≡ true
    → disk.write ≡ wrote
    → length os < 2 ^ 64
    → AllFit disk (numbered 1 os)
    → (replay disk (reopened (append_all disk os (reopened none)).file)).1 ≡ some (numbered 1 os)
unfolding reopened
appended_operations_read_back disk os opens writes room fits =
    (replay-IsLog disk (append_all disk os (reopened none)).file (numbered 1 os) opens (
      append_all-IsLog disk os (reopened none) [] opens writes (omega (arith, room)) fits
        nil-IsLog)).0
