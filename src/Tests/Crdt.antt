-- ===== src/Tests/Crdt.antt =====
-- Runs of internal/crdt and the theorems about it at concrete inputs.
use mathlib.Core.List.{Mem, mem-cons_self, mem-cons_of_mem, mem-cons, not-mem-nil, Mem-prop}
use mathlib.Core.Logic.Or
use distributed_counter.Base.{
  Text, ℕ, ◌-◌, ◌≤◌, ◌≡◌, ◌≢◌, none, text_eq_iff, refl, true, false, List, [], ◌∷◌, ◌++◌, arith,
  if◌then◌else◌, codes, text_eq, lookup, set, delete_if, has_prefix, contains_byte, add64, sub64,
  lt64, i64_mod,
}
use distributed_counter.Crdt.Counts.{Counts, count_at, merge_step, merge_max, sum_if}
use distributed_counter.Crdt.Keys.{colon, is_default, counter_key, key_belongs_to}
use distributed_counter.Crdt.Keys.Ownership.{same_counter}
use distributed_counter.Crdt.PnCounter.{
  PnCounter, increment_name, decrement_name, value_name, reset_name, merge, remote_counter, IsValid,
}
use distributed_counter.Crdt.PnCounter.Values.{named_counters_isolated, nested_name_counted}
use distributed_counter.Crdt.PnCounter.Convergence.{SameCounter, merge_all, replicas_converge}
use distributed_counter.Crdt.Delta.{
  clock_newer_than, delta_from, delta_loop, delta_step, max_from, max_clock,
}
use distributed_counter.Crdt.Delta.Sound.{delta_merges_like_full}

abbrev node_a : Text
node_a = codes "node-a"

abbrev node_b : Text
node_b = codes "node-b"

abbrev votes : Text
votes = codes "votes"

abbrev likes : Text
likes = codes "likes"

abbrev counter_a : PnCounter
counter_a = record {
  positive = (node_a, 5) ∷ (codes "votes:node-a", 7) ∷ [];
  negative = (node_a, 2) ∷ [];
  node_id = node_a;
}

abbrev counter_b : PnCounter
counter_b = record {
  positive = (codes "votes:node-b", 4) ∷ (node_a, 3) ∷ [];
  negative = [];
  node_id = node_b;
}

counter_a-IsValid : IsValid counter_a
unfolding lookup text_eq
counter_a-IsValid = record {
  positive_distinct = (refl, (refl, tt));
  negative_distinct = (refl, tt);
  positive_nonneg = omega arith;
  negative_nonneg = omega arith;
}

counter_b-IsValid : IsValid counter_b
unfolding lookup text_eq
counter_b-IsValid = record {
  positive_distinct = (refl, (refl, tt));
  negative_distinct = tt;
  positive_nonneg = omega arith;
  negative_nonneg = omega arith;
}

-- The value of a counter before and after a write, and that of its neighbour.
value_test :
    (value_name (codes "default") counter_a ≡ 3)
    × (value_name votes (increment_name votes 2 counter_a) ≡ 9)
    × (value_name likes (increment_name votes 2 counter_a) ≡ 0)
    × (value_name votes (merge counter_b counter_a) ≡ 11)
    × (value_name votes (reset_name votes counter_a) ≡ 0)
    × (value_name likes (decrement_name likes 1 counter_a) ≡ i64_mod - 1)
unfolding value_name increment_name decrement_name reset_name merge key_belongs_to counter_key
    is_default text_eq has_prefix contains_byte sum_if merge_max merge_step count_at lookup set
    delete_if add64 sub64 lt64
value_test = (refl, refl, refl, refl, refl, refl)

named_counters_isolated_example :
    (value_name likes (increment_name votes 2 counter_a) ≡ (
      if same_counter likes votes
      then add64 (value_name likes counter_a) 2
      else value_name likes counter_a))
    × (value_name likes (decrement_name votes 2 counter_a) ≡ (
        if same_counter likes votes
        then sub64 (value_name likes counter_a) 2
        else value_name likes counter_a))
    × (value_name likes (reset_name votes counter_a)
        ≡ (if same_counter likes votes then 0 else value_name likes counter_a))
unfolding contains_byte
named_counters_isolated_example = named_counters_isolated counter_a likes votes 2 refl refl refl

nested_name_counted_example :
    value_name votes (increment_name (votes ++ (colon ∷ codes "may")) 2 counter_a)
    ≡ add64 (value_name votes counter_a) 2
unfolding is_default text_eq
nested_name_counted_example = nested_name_counted counter_a votes (codes "may") 2 refl

abbrev once : List PnCounter
once = counter_a ∷ counter_b ∷ []

abbrev twice : List PnCounter
twice = counter_b ∷ counter_a ∷ counter_b ∷ []

into_twice : (u : PnCounter) → Mem u once → Mem u twice
into_twice u m =
    Or.elim Mem-prop (mem-cons.0 m) (λ e. rw e (mem-cons_of_mem counter_b mem-cons_self))
      (λ r. Or.elim Mem-prop (mem-cons.0 r) (λ e. rw e mem-cons_self) (λ z. absurd (not-mem-nil z)))

back_to_once : (u : PnCounter) → Mem u twice → Mem u once
back_to_once u m =
    Or.elim Mem-prop (mem-cons.0 m) (λ e. rw e (mem-cons_of_mem counter_a mem-cons_self))
      (λ r.
        Or.elim Mem-prop (mem-cons.0 r) (λ e. rw e mem-cons_self)
          (λ s. mem-cons_of_mem counter_a s))

replicas_converge_example :
    SameCounter (merge_all once counter_a) (merge_all twice counter_a)
    × ((name : Text)
        → value_name name (merge_all once counter_a) ≡ value_name name (merge_all twice counter_a))
replicas_converge_example =
    replicas_converge once twice counter_a (counter_a-IsValid, (counter_b-IsValid, tt))
      (counter_b-IsValid, (counter_a-IsValid, (counter_b-IsValid, tt))) counter_a-IsValid into_twice
      back_to_once

-- What the receiver holds, and the clocks of a delta that carries the votes alone.
abbrev receiver : PnCounter
receiver = record { positive = (node_a, 5) ∷ []; negative = (node_a, 2) ∷ []; node_id = node_b }

receiver-IsValid : IsValid receiver
unfolding lookup
receiver-IsValid = record {
  positive_distinct = (refl, tt);
  negative_distinct = (refl, tt);
  positive_nonneg = omega arith;
  negative_nonneg = omega arith;
}

abbrev votes_a : Text
votes_a = codes "votes:node-a"

abbrev clock_a : Counts
clock_a = (node_a, 4) ∷ (votes_a, 2) ∷ []

abbrev base_a : Counts
base_a = (node_a, 4) ∷ []

delta_test :
    ((delta_from counter_a.positive counter_a.negative clock_a base_a).positive ≡ (votes_a, 7) ∷ [])
    × ((delta_from counter_a.positive counter_a.negative clock_a base_a).negative ≡ [])
    × (clock_newer_than clock_a base_a ≡ true)
    × (clock_newer_than base_a clock_a ≡ false)
    × (max_clock clock_a ≡ 4)
unfolding delta_from delta_loop delta_step clock_newer_than max_clock max_from count_at lookup
    text_eq set lt64
delta_test = (refl, refl, refl, refl, refl)

receiver_knows :
    (k : Text)
    → count_at clock_a k ≤ count_at base_a k
    → (count_at counter_a.positive k ≤ count_at receiver.positive k)
      × (count_at counter_a.negative k ≤ count_at receiver.negative k)
unfolding count_at lookup
receiver_knows k h = (ground arith, ground arith)

clock_a-Distinct : lookup {V = ℕ} ((votes_a, 2) ∷ []) node_a ≡ none
unfolding lookup text_eq
clock_a-Distinct = refl

delta_merges_like_full_example :
    let d = delta_from counter_a.positive counter_a.negative clock_a base_a in
    SameCounter (merge (remote_counter d.positive d.negative) receiver) (merge counter_a receiver)
unfolding lookup
delta_merges_like_full_example =
    delta_merges_like_full counter_a receiver clock_a base_a counter_a-IsValid receiver-IsValid
      (clock_a-Distinct, (refl, tt)) (omega arith) (omega arith) receiver_knows

abbrev counter_a_reordered : PnCounter
counter_a_reordered = record counter_a { positive = (votes_a, 7) ∷ (node_a, 5) ∷ [] }

reordered-IsValid : IsValid counter_a_reordered
unfolding lookup text_eq
reordered-IsValid = record {
  positive_distinct = (refl, (refl, tt));
  negative_distinct = (refl, tt);
  positive_nonneg = omega arith;
  negative_nonneg = omega arith;
}

node_a_ne_votes_a : node_a ≢ votes_a
unfolding text_eq
node_a_ne_votes_a e = cc ((text_eq_iff node_a votes_a).1 e)

reordered_same : SameCounter counter_a counter_a_reordered
unfolding count_at lookup
reordered_same = record {
  positive = λ k. ground (arith, text_eq_iff node_a k, text_eq_iff votes_a k, node_a_ne_votes_a);
  negative = λ k. refl;
}
