-- ===== src/Service/Recovery/Same.antt =====
-- States of the service whose counter and clock read alike.
use distributed_counter.Base.{Text, ◌≡◌, refl, ◌∙◌, Bool-cases, inl, inr, text_eq, Int64}
use distributed_counter.Crdt.Counts.{Counts}
use distributed_counter.Crdt.Keys.{is_default}
use distributed_counter.Crdt.Extensional.{SameCounts}
use distributed_counter.Crdt.Respect.{add_at-SameCounts, delete_if-SameCounts, merge_max-SameCounts}
use distributed_counter.Crdt.PnCounter
use distributed_counter.Crdt.PnCounter.{PnCounter}
use distributed_counter.Crdt.VectorClock
use distributed_counter.Crdt.VectorClock.{VectorClock}
use distributed_counter.Persistence.Wal.{WalEntry}
use distributed_counter.Service.State.{
  Service, apply_entry, op_increment, op_decrement, op_reset, op_merge,
}

-- Counters of one node that read alike, and clocks.
pub record SamePn (p q : PnCounter) : Type 0 where
  pub owner : p.node_id ≡ q.node_id
  pub positive : SameCounts p.positive q.positive
  pub negative : SameCounts p.negative q.negative

pub record SameClock (v w : VectorClock) : Type 0 where
  pub owner : v.node_id ≡ w.node_id
  pub clock : SameCounts v.clock w.clock

pub record SameState (s t : Service) : Type 0 where
  pub counter : SamePn s.counter t.counter
  pub clock : SameClock s.clock t.clock

pub SameState-refl : (s : Service) → SameState s s
SameState-refl s = record {
  counter = record { owner = refl; positive = λ k. refl; negative = λ k. refl };
  clock = record { owner = refl; clock = λ k. refl };
}

pub SameState-trans : (s t u : Service) → SameState s t → SameState t u → SameState s u
SameState-trans s t u h k = record {
  counter = record {
    owner = h.counter.owner ∙ k.counter.owner;
    positive = λ j. h.counter.positive j ∙ k.counter.positive j;
    negative = λ j. h.counter.negative j ∙ k.counter.negative j;
  };
  clock = record {
    owner = h.clock.owner ∙ k.clock.owner;
    clock = λ j. h.clock.clock j ∙ k.clock.clock j;
  };
}

pub increment_name-SamePn :
    (name : Text) (d : Int64) (p q : PnCounter)
    → SamePn p q
    → SamePn (PnCounter.increment_name name d p) (PnCounter.increment_name name d q)
unfolding PnCounter.increment_name
increment_name-SamePn name d p q h = rw (h.owner) (record {
  owner = refl;
  positive = add_at-SameCounts p.positive q.positive _ d h.positive;
  negative = h.negative;
})

pub decrement_name-SamePn :
    (name : Text) (d : Int64) (p q : PnCounter)
    → SamePn p q
    → SamePn (PnCounter.decrement_name name d p) (PnCounter.decrement_name name d q)
unfolding PnCounter.decrement_name
decrement_name-SamePn name d p q h = rw (h.owner) (record {
  owner = refl;
  positive = h.positive;
  negative = add_at-SameCounts p.negative q.negative _ d h.negative;
})

pub reset_name-SamePn :
    (name : Text) (p q : PnCounter)
    → SamePn p q
    → SamePn (PnCounter.reset_name name p) (PnCounter.reset_name name q)
unfolding PnCounter.reset_name
reset_name-SamePn name p q h = elim (Bool-cases (is_default name)) [
  | inl e ↦ rw e (record {
    owner = h.owner;
    positive = delete_if-SameCounts _ p.positive q.positive h.positive;
    negative = delete_if-SameCounts _ p.negative q.negative h.negative;
  })
  | inr e ↦ rw e (record {
    owner = h.owner;
    positive = delete_if-SameCounts _ p.positive q.positive h.positive;
    negative = delete_if-SameCounts _ p.negative q.negative h.negative;
  })
]

pub merge-SamePn :
    (other p q : PnCounter)
    → SamePn p q
    → SamePn (PnCounter.merge other p) (PnCounter.merge other q)
unfolding PnCounter.merge
merge-SamePn other p q h = record {
  owner = h.owner;
  positive = merge_max-SameCounts p.positive q.positive other.positive h.positive;
  negative = merge_max-SameCounts p.negative q.negative other.negative h.negative;
}

pub increment_name-SameClock :
    (name : Text) (v w : VectorClock)
    → SameClock v w
    → SameClock (VectorClock.increment_name name v) (VectorClock.increment_name name w)
unfolding VectorClock.increment_name
increment_name-SameClock name v w h =
    rw (h.owner) (record { owner = refl; clock = add_at-SameCounts v.clock w.clock _ 1 h.clock })

pub reset_name-SameClock :
    (name : Text) (v w : VectorClock)
    → SameClock v w
    → SameClock (VectorClock.reset_name name v) (VectorClock.reset_name name w)
unfolding VectorClock.reset_name
reset_name-SameClock name v w h = elim (Bool-cases (is_default name)) [
  | inl e ↦
      rw e (record { owner = h.owner; clock = delete_if-SameCounts _ v.clock w.clock h.clock })
  | inr e ↦
      rw e (record { owner = h.owner; clock = delete_if-SameCounts _ v.clock w.clock h.clock })
]

pub merge_map-SameClock :
    (state : Counts) (v w : VectorClock)
    → SameClock v w
    → SameClock (VectorClock.merge_map state v) (VectorClock.merge_map state w)
unfolding VectorClock.merge_map
merge_map-SameClock state v w h = record {
  owner = h.owner;
  clock = merge_max-SameCounts v.clock w.clock state h.clock;
}

-- A logged entry does the same to states that read alike.
pub apply_entry-SameState :
    (e : WalEntry) (s t : Service) → SameState s t → SameState (apply_entry e s) (apply_entry e t)
unfolding apply_entry
apply_entry-SameState e s t h = elim (Bool-cases (text_eq e.op op_increment)) [
  | inl i ↦ rw i (record {
    counter = increment_name-SamePn e.counter e.delta s.counter t.counter h.counter;
    clock = increment_name-SameClock e.counter s.clock t.clock h.clock;
  })
  | inr i ↦ elim (Bool-cases (text_eq e.op op_decrement)) [
    | inl d ↦
        rw (i, d)
          (record {
            counter = decrement_name-SamePn e.counter e.delta s.counter t.counter h.counter;
            clock = increment_name-SameClock e.counter s.clock t.clock h.clock;
          })
    | inr d ↦ elim (Bool-cases (text_eq e.op op_reset)) [
      | inl r ↦
          rw (i, d, r)
            (record {
              counter = reset_name-SamePn e.counter s.counter t.counter h.counter;
              clock = reset_name-SameClock e.counter s.clock t.clock h.clock;
            })
      | inr r ↦ elim (Bool-cases (text_eq e.op op_merge)) [
        | inl m ↦
            rw (i, d, r, m)
              (record {
                counter = merge-SamePn _ s.counter t.counter h.counter;
                clock = merge_map-SameClock e.clock s.clock t.clock h.clock;
              })
        | inr m ↦ rw (i, d, r, m) h
      ]
    ]
  ]
]
