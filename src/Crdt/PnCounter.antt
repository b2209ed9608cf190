-- ===== src/Crdt/PnCounter.antt =====
-- internal/crdt/pn_counter.go: the struct and its methods. Each method holds the mutex throughout,
-- so it is one function on the state. `MarshalJSON` is left out, and `range` visits in list order.
pub mod Values
pub mod Convergence
pub mod Negative
pub mod Resets
pub mod Names
use distributed_counter.Base.{
  Text, ◌||◌, not, [], ◌∷◌, ◌++◌, if◌then◌else◌, has_prefix, contains_byte, set, delete_if,
  Distinct, Int64, add64, sub64,
}
use distributed_counter.Crdt.Counts.{
  Counts, count_at, merge_max, copy_into, sum_if, sum_all, IsNonneg,
}
use distributed_counter.Crdt.Keys.{colon, default_name, is_default, counter_key, key_belongs_to}

pub record PnCounter : Type 0 where
  pub positive : Counts
  pub negative : Counts
  pub node_id : Text

-- NewPNCounter
unfoldable pub new : Text → PnCounter
new node_id = record { positive = []; negative = []; node_id = node_id }

-- p.positive[key] += delta
abbrev pub add_at : Counts → Text → Int64 → Counts
add_at m key delta = set m key (add64 (count_at m key) delta)

unfoldable pub increment : Int64 → PnCounter → PnCounter
increment delta p = record p { positive = add_at p.positive p.node_id delta }

unfoldable pub decrement : Int64 → PnCounter → PnCounter
decrement delta p = record p { negative = add_at p.negative p.node_id delta }

unfoldable pub increment_name : Text → Int64 → PnCounter → PnCounter
increment_name name delta p = record p {
  positive = add_at p.positive (counter_key name p.node_id) delta;
}

unfoldable pub decrement_name : Text → Int64 → PnCounter → PnCounter
decrement_name name delta p = record p {
  negative = add_at p.negative (counter_key name p.node_id) delta;
}

unfoldable pub value_name : Text → PnCounter → Int64
value_name name p =
    sub64 (sum_if (key_belongs_to name) 0 p.positive) (sum_if (key_belongs_to name) 0 p.negative)

-- The two branches of ResetName, which repeat the tests of keyBelongsTo.
unfoldable pub reset_name : Text → PnCounter → PnCounter
reset_name name p =
    if is_default name
    then (let owned = λ (k : Text).
          not (contains_byte k colon) || has_prefix k (default_name ++ (colon ∷ [])) in
        record p { positive = delete_if owned p.positive; negative = delete_if owned p.negative })
    else (let owned = λ (k : Text). has_prefix k (name ++ (colon ∷ [])) in
        record p { positive = delete_if owned p.positive; negative = delete_if owned p.negative })

unfoldable pub reset : PnCounter → PnCounter
reset p = record p { positive = []; negative = [] }

unfoldable pub value : PnCounter → Int64
value p = sub64 (sum_all 0 p.positive) (sum_all 0 p.negative)

unfoldable pub merge : PnCounter → PnCounter → PnCounter
merge other p = record p {
  positive = merge_max p.positive other.positive;
  negative = merge_max p.negative other.negative;
}

unfoldable pub set_positive : Counts → PnCounter → PnCounter
set_positive state p = record p { positive = copy_into [] state }

unfoldable pub set_negative : Counts → PnCounter → PnCounter
set_negative state p = record p { negative = copy_into [] state }

-- How every receiver reads a state update: NewPNCounter(""), SetPositive, SetNegative.
unfoldable pub remote_counter : Counts → Counts → PnCounter
unfolding new set_positive set_negative
remote_counter positive negative = set_negative negative (set_positive positive (new []))

-- Positive() and Negative(): copies for the callers
unfoldable pub positive_copy : PnCounter → Counts
positive_copy p = copy_into [] p.positive

unfoldable pub negative_copy : PnCounter → Counts
negative_copy p = copy_into [] p.negative

-- Maps as Go has them, and no count below zero or at 2 ^ 63.
pub record IsValid (p : PnCounter) : Type 0 where
  pub positive_distinct : Distinct p.positive
  pub negative_distinct : Distinct p.negative
  pub positive_nonneg : IsNonneg p.positive
  pub negative_nonneg : IsNonneg p.negative
