-- ===== src/Crdt/PnCounter/Negative.antt =====
-- Amounts below zero in internal/crdt/pn_counter.go: the handlers pass the int32 of a request on.
use distributed_counter.Base.{
  Text, ◌+◌, ◌<◌, ◌≤◌, ◌≡◌, ◌∙◌, arith, text_eq_refl, set, Int64, i64_mod, i64_half, add64,
}
use distributed_counter.Crdt.Counts.{count_at, count_at-set, count_at-lt, count_at-merge_max}
use distributed_counter.Crdt.Keys.{counter_key}
use distributed_counter.Crdt.PnCounter.{PnCounter, increment_name, merge, IsValid}
use distributed_counter.Base.{AllValues-set}

-- A write of a negative amount that leaves the node's count at zero or more is undone by the next merge
-- with a replica that has merged the node's state from before the write: the merge keeps the greater
-- count, which is the one before.
pub negative_amount_is_undone :
    (p : PnCounter) (name : Text) (amount : Int64)
    → IsValid p
    → amount < i64_mod
    → i64_mod ≤ count_at p.positive (counter_key name p.node_id) + amount
    → count_at (merge p (increment_name name amount p)).positive (counter_key name p.node_id)
      ≡ count_at p.positive (counter_key name p.node_id)
unfolding increment_name merge
negative_amount_is_undone p name amount v a h =
    let k = counter_key name p.node_id in
    let c = count_at p.positive k in
    let lower = count_at-lt p.positive k v.positive_nonneg in
    let changed =
      AllValues-set (λ x. x < i64_half) p.positive k (add64 c amount) v.positive_nonneg
        (unfold add64 in omega arith) in
    count_at-merge_max (set p.positive k (add64 c amount)) p.positive k changed v.positive_nonneg
      v.positive_distinct
    ∙ rw (count_at-set, text_eq_refl k) (unfold add64 in omega arith)
