-- ===== src/Service/State.antt =====
-- internal/service/counter_service.go: the state of the service, what it writes to the log and the
-- store, and how a restarted process (cmd/server/main.go) gets it back. Metrics, traces and log lines
-- are left out.
use distributed_counter.Base.{
  Text, ℕ, Bool, true, false, ◌||◌, Option, none, some, List, [], ◌∷◌, if◌then◌else◌, codes,
  text_eq, GoMap, set, Int64,
}
use distributed_counter.Crdt.Counts.{Counts}
use distributed_counter.Crdt.PnCounter
use distributed_counter.Crdt.PnCounter.{PnCounter, remote_counter, positive_copy, negative_copy}
use distributed_counter.Crdt.VectorClock
use distributed_counter.Crdt.VectorClock.{VectorClock}
use distributed_counter.Cluster.Membership.{Membership}
use distributed_counter.Persistence.Wal.{
  CounterState, WalEntry, WalStore, LogFile, Disk, append_counter, replay, truncate, reopened,
}

-- The store: `saved` is what Load returns, where it does not fail.
pub record Store : Type 0 where
  pub saved : Option CounterState

pub record Service : Type 0 where
  pub node_id : Text
  pub counter : PnCounter
  pub clock : VectorClock
  pub cluster : Option Membership
  pub store : Option Store
  pub wal : Option WalStore
  pub last_sync_clock : GoMap Counts
  pub tags : GoMap (List Text)
  pub counter_shards : ℕ

-- NewCounterService
unfoldable pub new : Text → Service
new node_id = record {
  node_id = node_id;
  counter = PnCounter.new node_id;
  clock = VectorClock.new node_id;
  cluster = none;
  store = none;
  wal = none;
  last_sync_clock = [];
  tags = [];
  counter_shards = 1;
}

abbrev pub op_increment : Text
op_increment = codes "increment"

abbrev pub op_decrement : Text
op_decrement = codes "decrement"

abbrev pub op_reset : Text
op_reset = codes "reset"

abbrev pub op_merge : Text
op_merge = codes "merge"

-- What the disk, the store and the wall clock answer to one call. `saves` says whether Save returns nil,
-- `applies` whether the store has the state although Save returns an error, such as a timeout, and `loads`
-- whether Load returns no error.
pub record Io : Type 0 where
  pub disk : Disk
  pub saves : Bool
  pub applies : Bool
  pub loads : Bool
  pub now : ℕ

-- walAppend: an error is only logged
unfoldable pub wal_append : Io → Text → Text → Int64 → Counts → Counts → Counts → Service → Service
wal_append io op counter delta positive negative clock s = elim s.wal [
  | none ↦ s
  | some w ↦ record s {
    wal = some (append_counter io.disk io.now counter op delta positive negative clock w).0;
  }
]

-- The copy of the state that persist and Snapshot hand to the store.
unfoldable pub counter_state : Service → CounterState
counter_state s = record {
  positive = positive_copy s.counter;
  negative = negative_copy s.counter;
  clock = VectorClock.state s.clock;
  tags = s.tags;
}

-- store.Save: the store has the state, unless the call fails and is not applied.
abbrev pub save_state : Io → Service → Service
save_state io s =
    if io.saves || io.applies
    then record s { store = some (record { saved = some (counter_state s) }) }
    else s

-- persist; an error of Save is only logged
unfoldable pub persist : Io → Service → Service
persist io s = elim s.wal [
  | some w ↦ s
  | none ↦ elim s.store [ none ↦ s | some store ↦ save_state io s ]
]

-- for k, v := range state.Tags { s.tags[k] = v }
abbrev pub copy_tags : GoMap (List Text) → GoMap (List Text) → GoMap (List Text)
copy_tags out [] = out
copy_tags out ((k, v) ∷ m) = copy_tags (set out k v) m

-- Restore, of a state that is not nil
unfoldable pub restore : CounterState → Service → Service
restore state s = record s {
  counter = PnCounter.merge (remote_counter state.positive state.negative) s.counter;
  clock = VectorClock.merge_map state.clock s.clock;
  tags = copy_tags s.tags state.tags;
}

-- One round of the loop of ReplayWAL. An unknown operation is passed over.
unfoldable pub apply_entry : WalEntry → Service → Service
apply_entry e s =
    if text_eq e.op op_increment
    then record s {
      counter = PnCounter.increment_name e.counter e.delta s.counter;
      clock = VectorClock.increment_name e.counter s.clock;
    }
    else if text_eq e.op op_decrement
    then record s {
      counter = PnCounter.decrement_name e.counter e.delta s.counter;
      clock = VectorClock.increment_name e.counter s.clock;
    }
    else if text_eq e.op op_reset
    then record s {
      counter = PnCounter.reset_name e.counter s.counter;
      clock = VectorClock.reset_name e.counter s.clock;
    }
    else if text_eq e.op op_merge
    then record s {
      counter = PnCounter.merge (remote_counter e.positive e.negative) s.counter;
      clock = VectorClock.merge_map e.clock s.clock;
    }
    else s

unfoldable pub apply_entries : List WalEntry → Service → Service
apply_entries [] s = s
apply_entries (e ∷ es) s = apply_entries es (apply_entry e s)

-- ReplayWAL, with whether it returns nil: on an error of Replay nothing is applied
unfoldable pub replay_wal : Disk → Service → Service × Bool
replay_wal disk s = elim s.wal [
  | none ↦ (s, true)
  | some w ↦
      let (w', entries) = replay disk w in
      let s' = record s { wal = some w' } in
      elim entries [ none ↦ (s', false) | some es ↦ (apply_entries es s', true) ]
]

-- The end of Snapshot, when Save has returned nil.
abbrev truncate_log : Io → Service → Service
truncate_log io s = elim s.wal [
  | none ↦ s
  | some w ↦ record s { wal = some (truncate io.disk w).0 }
]

-- Snapshot: the log is dropped only when Save returns nil
unfoldable pub snapshot : Io → Service → Service
snapshot io s = elim s.store [
  | none ↦ s
  | some store ↦ let s' = save_state io s in if io.saves then truncate_log io s' else s'
]

-- The start of main, on the store and the log of a process of the same node: Load and Restore. An error of
-- Load is only logged.
abbrev pub restored : Bool → Text → Option Store → Service
restored loads node_id store =
    let fresh = record (new node_id) { store = store } in
    elim store [
      | none ↦ fresh
      | some found ↦ elim loads [
        | false ↦ fresh
        | true ↦ elim found.saved [ none ↦ fresh | some state ↦ restore state fresh ]
      ]
    ]

-- Then SetWAL and ReplayWAL. A failed replay is only logged.
unfoldable pub restart : Io → Text → Option Store → Option LogFile → Service
restart io node_id store file =
    (replay_wal io.disk (record (restored io.loads node_id store) { wal = some (reopened file) })).0
