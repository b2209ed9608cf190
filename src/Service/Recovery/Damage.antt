-- ===== src/Service/Recovery/Damage.antt =====
-- What a damaged log does to a restart.
use distributed_counter.Base.{
  Text, ℕ, ◌≡◌, refl, Bool, Option, none, some, List, [], ◌∷◌, ◌++◌, if◌then◌else◌, ltb, ap,
  Bool-cases, inl, inr,
}
use mathlib.Core.Option.{map as option_map}
use distributed_counter.Persistence.Wal.{
  Line, blank, entry, garbled, Disk, max_line, replay, replay_loop, reopened,
}
use distributed_counter.Service.State.{Store, Io, restored, replay_wal, restart}

-- A replay fails on a line that does not decode, wherever it stands.
replay_loop-garbled :
    (before after : List Line) (seq : ℕ) → (replay_loop (before ++ garbled ∷ after) seq).1 ≡ none
unfolding replay_loop
replay_loop-garbled [] after seq = refl
replay_loop-garbled (blank ∷ before) after seq = replay_loop-garbled before after seq
replay_loop-garbled (garbled ∷ before) after seq = refl
replay_loop-garbled (entry n e ∷ before) after seq = elim (Bool-cases (ltb n max_line)) [
  | inl t ↦ rw t (
      ap (option_map (λ es. e ∷ es))
        (replay_loop-garbled before after (if ltb seq e.seq then e.seq else seq)))
  | inr t ↦ rw t refl
]

replay-garbled :
    (disk : Disk) (before after : List Line) (torn : Bool)
    → (replay disk (reopened (some (record { lines = before ++ garbled ∷ after; torn = torn })))).1
      ≡ none
unfolding replay reopened
replay-garbled disk before after torn = elim (Bool-cases disk.opens) [
  | inl o ↦ rw o (replay_loop-garbled before after 0)
  | inr o ↦ rw o refl
]

-- One line that does not decode, such as a torn last line, discards the whole log: the restarted node
-- holds the counter and the clock of the last snapshot, without any of the logged operations, those
-- before the line included.
pub garbled_line_discards_the_log :
    (io : Io) (node_id : Text) (store : Option Store) (before after : List Line) (torn : Bool)
    → let s =
        restart io node_id store
          (some (record { lines = before ++ garbled ∷ after; torn = torn })) in
      (s.counter ≡ (restored io.loads node_id store).counter)
      × (s.clock ≡ (restored io.loads node_id store).clock)
unfolding restart replay_wal replay reopened
garbled_line_discards_the_log io node_id store before after torn =
    rw (restart, replay_wal, replay-garbled io.disk before after torn) (refl, refl)
