-- ===== src/Startup/Recover.antt =====
-- cmd/server/main.go: how a starting node fetches the state from its seeds. What the seeds answer and the
-- instants are arguments; metrics and log lines are left out, and the deadlines are part of the answers.
pub mod Loops
pub mod Answers
pub mod Limits
pub mod Agrees
use distributed_counter.Base.{
  Text, ℕ, zero, suc, ◌+◌, ◌*◌, ◌%◌, ◌^◌, Bool, true, false, ◌||◌, Option, none, some, List, [],
  ◌∷◌, ◌++◌, if◌then◌else◌, ltb, length, GoMap, map,
}
use mathlib.Core.Option
use distributed_counter.Crdt.Counts.{Counts}
use distributed_counter.Crdt.PnCounter
use distributed_counter.Crdt.PnCounter.{
  PnCounter, set_positive, set_negative, positive_copy, negative_copy,
}
use distributed_counter.Crdt.VectorClock
use distributed_counter.Cluster.Membership.{add_or_update_member}
use distributed_counter.Gossip.Engine.{
  Attempt, dial_failed, stream_failed, send_failed, recv_failed, answered,
}
use distributed_counter.Service.State.{Service}
use distributed_counter.Service.Sync.{StateUpdate, full_state}
use distributed_counter.Startup.Seeds.{unique_ordered_seeds, rotate_seeds}

-- pbToPNCounter
unfoldable pub pb_to_pn_counter : Text → Counts → Counts → PnCounter
unfolding PnCounter.new set_positive set_negative
pb_to_pn_counter node_id positive negative =
    set_negative negative (set_positive positive (PnCounter.new node_id))

-- The update that a seed is sent.
unfoldable pub recovery_request : ℕ → Service → StateUpdate
unfolding positive_copy negative_copy
recovery_request now s = record {
  from_node_id = s.node_id;
  positive_state = positive_copy s.counter;
  negative_state = negative_copy s.counter;
  vector_clock = VectorClock.state s.clock;
  timestamp = now;
  type = full_state;
  last_sync_version = 0;
  membership = [];
}

-- len(m) > 0
abbrev has_entry {ℓ} : {V : Type ℓ} → GoMap V → Bool
has_entry [] = false
has_entry (_ ∷ _) = true

-- The test on a seed's response.
unfoldable pub has_state : StateUpdate → Bool
has_state response =
    has_entry response.positive_state
    || has_entry response.negative_state
    || has_entry response.vector_clock

-- What a response with state does to the node, whose member table main has set before.
unfoldable pub take_state : Text → ℕ → StateUpdate → Service → Service
unfolding pb_to_pn_counter
take_state local_address now response s = record s {
  counter =
      PnCounter.merge (pb_to_pn_counter s.node_id response.positive_state response.negative_state)
        s.counter;
  clock = VectorClock.merge_map response.vector_clock s.clock;
  cluster = Option.map (add_or_update_member s.node_id local_address true now) s.cluster;
}

-- What the seeds and the clock decide: the outcome of each contact and the instant at its end, by the
-- attempt and the seed.
pub record Seeds : Type 0 where
  pub contact : ℕ → Text → Attempt
  pub now : ℕ → Text → ℕ

-- The node, the last error, the seeds that were dialled and the time slept, in nanoseconds.
pub record Progress : Type 0 where
  pub service : Service
  pub last_err : Option Attempt
  pub dialled : List Text
  pub slept : ℕ

-- One round of the loop over the seeds, with whether the node has its state.
unfoldable pub contact_seed : Text → ℕ → Text → Attempt → Progress → Progress × Bool
unfolding take_state has_state
contact_seed local_address now seed outcome p =
    let p' = record p { dialled = p.dialled ++ (seed ∷ []) } in
    elim outcome [
      | answered response ↦
          if has_state response
          then (record p' { service = take_state local_address now response p.service }, true)
          else (p', false)
      | dial_failed ↦ (record p' { last_err = some dial_failed }, false)
      | stream_failed ↦ (record p' { last_err = some stream_failed }, false)
      | send_failed ↦ (record p' { last_err = some send_failed }, false)
      | recv_failed ↦ (record p' { last_err = some recv_failed }, false)
    ]

-- The loop over the seeds, with the seed that gave the state.
unfoldable pub seeds_loop : Text → Seeds → ℕ → List Text → Progress → Progress × Option Text
unfolding contact_seed
seeds_loop local_address seeds attempt [] p = (p, none)
seeds_loop local_address seeds attempt (seed ∷ rest) p =
    let (p', found) =
      contact_seed local_address (seeds.now attempt seed) seed (seeds.contact attempt seed) p in
    elim found [ true ↦ (p', some seed) | false ↦ seeds_loop local_address seeds attempt rest p' ]

abbrev pub max_attempts : ℕ
max_attempts = 5

-- The sleep after an attempt: 250 ms, doubled each time, at most 3 s, and none after the last.
unfoldable pub recovery_backoff : ℕ → ℕ
recovery_backoff attempt =
    let d = 250_000_000 * 2 ^ attempt in if ltb 3_000_000_000 d then 3_000_000_000 else d

unfoldable pub sleep_after : ℕ → Progress → Progress
unfolding recovery_backoff
sleep_after attempt p =
    if ltb (attempt + 1) max_attempts
    then record p { slept = p.slept + recovery_backoff attempt }
    else p

-- How the function ends: with the state of a seed, without a seed to ask, with the last error or nil
-- after all attempts, or in a panic.
pub data Outcome : Type 0 where
  recovered : Text → Outcome
  no_seeds : Outcome
  gave_up : Option Attempt → Outcome
  panicked : Outcome

-- The attempts that are left.
unfoldable pub attempts_loop : Text → Seeds → List Text → ℕ → ℕ → Progress → Progress × Outcome
unfolding seeds_loop sleep_after
attempts_loop local_address seeds unique_seeds attempt zero p = (p, gave_up p.last_err)
attempts_loop local_address seeds unique_seeds attempt (suc left) p =
    elim (rotate_seeds unique_seeds (attempt % length unique_seeds)) [
      | none ↦ (p, panicked)
      | some ordered ↦
          let (p', found) = seeds_loop local_address seeds attempt ordered p in
          elim found [
            | some seed ↦ (p', recovered seed)
            | none ↦
                attempts_loop local_address seeds unique_seeds (attempt + 1) left
                  (sleep_after attempt p')
          ]
    ]

abbrev pub at_start : Service → Progress
at_start s = record { service = s; last_err = none; dialled = []; slept = 0 }

-- All attempts on the seeds, where there is one.
unfoldable pub ask_seeds : Text → Seeds → Service → List Text → Progress × Outcome
unfolding attempts_loop
ask_seeds local_address seeds s [] = (at_start s, no_seeds)
ask_seeds local_address seeds s (seed ∷ rest) =
    attempts_loop local_address seeds (seed ∷ rest) 0 max_attempts (at_start s)

-- recoverStateFromSeedNodes
unfoldable pub recover_state : Text → Seeds → List Text → Service → Progress × Outcome
unfolding ask_seeds unique_ordered_seeds
recover_state local_address seeds seed_nodes s =
    ask_seeds local_address seeds s (unique_ordered_seeds seed_nodes)
