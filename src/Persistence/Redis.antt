-- ===== src/Persistence/Redis.antt =====
-- internal/persistence/redis.go. The client of Redis, whose state is of a type R, and encoding/json on a
-- state are parameters; deadlines are part of what the client answers.
pub mod Loads
use distributed_counter.Base.{Text, Bool, true, false, Option, none, some, ◌++◌, codes}
use distributed_counter.Persistence.Wal.{CounterState}

-- SET without expiry, with whether it was acknowledged, and GET, `none` for redis.Nil.
pub record Client (R : Type 0) : Type 0 where
  pub set_key : Text → Text → R → R × Bool
  pub get_key : Text → R → Option Text

-- json.Marshal and json.Unmarshal, `none` for an error
pub record Codec : Type 0 where
  pub marshal : CounterState → Option Text
  pub unmarshal : Text → Option CounterState

-- stateKey
unfoldable pub state_key : Text → Text
state_key node_id = codes "counter:" ++ node_id ++ codes ":state"

-- Save, with whether it succeeded
unfoldable pub save : {R : Type 0} → Client R → Codec → Text → CounterState → R → R × Bool
save client codec node_id state r = elim (codec.marshal state) [
  | none ↦ (r, false)
  | some bytes ↦ client.set_key (state_key node_id) bytes r
]

-- What Load returns: nil, a state, or an error.
pub data Loaded : Type 0 where
  nothing : Loaded
  loaded : CounterState → Loaded
  failed : Loaded

unfoldable pub decoded : Option CounterState → Loaded
decoded none = failed
decoded (some state) = loaded state

-- Load; the flag says whether the call of Redis succeeds.
unfoldable pub load : {R : Type 0} → Client R → Codec → Bool → Text → R → Loaded
unfolding decoded
load client codec reached node_id r = elim reached [
  | false ↦ failed
  | true ↦ elim (client.get_key (state_key node_id) r) [
    | none ↦ nothing
    | some bytes ↦ decoded (codec.unmarshal bytes)
  ]
]
