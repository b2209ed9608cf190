-- ===== src/Crdt/PnCounter/Values.antt =====
-- What the methods of PNCounter do to the value of each named counter.
use distributed_counter.Base.{
  Text, ◌≡◌, refl, false, inl, inr, if◌then◌else◌, Bool-cases, Int64, add64, sub64,
  sub64-add64_left, sub64-add64_right, ◌∷◌, ◌++◌,
}
use mathlib.Core.Path.{fun_ext}
use distributed_counter.Base.{delete_if, ap, ◌∙◌}
use distributed_counter.Crdt.Sums.{sum_if-set, sum_if-delete_if, sum_if-delete_if_other}
use distributed_counter.Crdt.Keys.{colon, is_default, counter_key, key_belongs_to}
use distributed_counter.Crdt.Keys.Ownership.{
  NoColon, same_counter, same_counter_comm, same_keys, key_belongs_to-counter_key,
  ownership_disjoint, nested_key,
}
use distributed_counter.Crdt.PnCounter.{
  PnCounter, increment_name, decrement_name, value_name, reset_name,
}

value-increment_name :
    (owner name : Text) (delta : Int64) (p : PnCounter)
    → value_name owner (increment_name name delta p) ≡ (
        if key_belongs_to owner (counter_key name p.node_id)
        then add64 (value_name owner p) delta
        else value_name owner p)
unfolding value_name increment_name
value-increment_name owner name delta p =
    rw sum_if-set (elim (Bool-cases (key_belongs_to owner (counter_key name p.node_id))) [
      | inl e ↦ rw e (sub64-add64_left _ _ _)
      | inr e ↦ rw e
    ])

value-decrement_name :
    (owner name : Text) (delta : Int64) (p : PnCounter)
    → value_name owner (decrement_name name delta p) ≡ (
        if key_belongs_to owner (counter_key name p.node_id)
        then sub64 (value_name owner p) delta
        else value_name owner p)
unfolding value_name decrement_name
value-decrement_name owner name delta p =
    rw sum_if-set (elim (Bool-cases (key_belongs_to owner (counter_key name p.node_id))) [
      | inl e ↦ rw e (sub64-add64_right _ _ _)
      | inr e ↦ rw e
    ])

-- Both branches of ResetName delete what keyBelongsTo says.
pub reset_name-maps :
    (name : Text) (p : PnCounter)
    → ((reset_name name p).positive ≡ delete_if (key_belongs_to name) p.positive)
      × ((reset_name name p).negative ≡ delete_if (key_belongs_to name) p.negative)
unfolding reset_name
reset_name-maps name p = elim (Bool-cases (is_default name)) [
  | inl e ↦ rw e (
    ap (λ f. delete_if f p.positive) (fun_ext λ k. unfold key_belongs_to in rw e),
    ap (λ f. delete_if f p.negative) (fun_ext λ k. unfold key_belongs_to in rw e),
  )
  | inr e ↦ rw e (
    ap (λ f. delete_if f p.positive) (fun_ext λ k. unfold key_belongs_to in rw e),
    ap (λ f. delete_if f p.negative) (fun_ext λ k. unfold key_belongs_to in rw e),
  )
]

value-reset_self : (name : Text) (p : PnCounter) → value_name name (reset_name name p) ≡ 0
unfolding value_name
value-reset_self name p = rw (reset_name-maps name p).0 (
    rw (reset_name-maps name p).1
      (rw sum_if-delete_if (rw sum_if-delete_if (unfold sub64 in refl))))

value-reset_other :
    (owner name : Text) (p : PnCounter)
    → NoColon owner
    → NoColon name
    → same_counter name owner ≡ false
    → value_name owner (reset_name name p) ≡ value_name owner p
unfolding value_name
value-reset_other owner name p ho hn ne =
    let apart = λ (k : Text). ownership_disjoint name owner k hn ho ne in
    rw (reset_name-maps name p).0 (
      rw (reset_name-maps name p).1 (
        rw (sum_if-delete_if_other (key_belongs_to owner) (key_belongs_to name) 0 p.positive apart)
          (rw (
            sum_if-delete_if_other (key_belongs_to owner) (key_belongs_to name) 0 p.negative
              apart))))

value-reset_name :
    (owner name : Text) (p : PnCounter)
    → NoColon owner
    → NoColon name
    → value_name owner (reset_name name p)
      ≡ (if same_counter owner name then 0 else value_name owner p)
value-reset_name owner name p ho hn = elim (Bool-cases (same_counter owner name)) [
  | inl e ↦ rw e (
      unfold value_name in
      rw (same_keys owner name e) (unfold value_name in value-reset_self name p))
  | inr e ↦ rw e (value-reset_other owner name p ho hn (same_counter_comm name owner ∙ e))
]

module _ (p : PnCounter) (owner name : Text) (delta : Int64) (ho : NoColon owner)
    (hn : NoColon name) (hd : NoColon p.node_id) where
  -- Where the names and the node id hold no colon, an increment, a decrement and a reset of one
  -- counter have their effect on the value of that counter, by wrapping int64 arithmetic and under
  -- either spelling of the default name, and leave the value of every other counter as it was.
  pub named_counters_isolated :
      (value_name owner (increment_name name delta p) ≡ (
        if same_counter owner name then add64 (value_name owner p) delta else value_name owner p))
      × (value_name owner (decrement_name name delta p) ≡ (
          if same_counter owner name then sub64 (value_name owner p) delta else value_name owner p))
      × (value_name owner (reset_name name p)
          ≡ (if same_counter owner name then 0 else value_name owner p))
  named_counters_isolated = (
    rw (← key_belongs_to-counter_key owner name p.node_id ho hn hd)
        (value-increment_name owner name delta p),
    rw (← key_belongs_to-counter_key owner name p.node_id ho hn hd)
        (value-decrement_name owner name delta p),
    value-reset_name owner name p ho hn,
  )

-- A counter whose name holds a colon is counted twice: an increment of outer:inner also adds to the
-- value of outer, for every outer that is not the default counter.
pub nested_name_counted :
    (p : PnCounter) (outer inner : Text) (delta : Int64)
    → is_default outer ≡ false
    → value_name outer (increment_name (outer ++ (colon ∷ inner)) delta p)
      ≡ add64 (value_name outer p) delta
nested_name_counted p outer inner delta h =
    value-increment_name outer (outer ++ (colon ∷ inner)) delta p
    ∙ (rw (nested_key outer inner p.node_id h))
