-- ===== src/Crdt/PnCounter/Resets.antt =====
-- ResetName of internal/crdt/pn_counter.go beside the merge with a peer's state.
use distributed_counter.Base.{
  Text, ◌<◌, arith, Bool, Bool-cases, inl, inr, delete_if, Distinct, AllValues-delete_if, i64_half,
}
use distributed_counter.Crdt.Counts.{Counts, merge_max, IsNonneg, count_at-merge_max}
use distributed_counter.Crdt.Keys.{is_default}
use distributed_counter.Crdt.Extensional.{SameCounts}
use distributed_counter.Crdt.Respect.{count_at-delete_if}
use distributed_counter.Crdt.PnCounter.{PnCounter, reset_name, merge, IsValid}
use distributed_counter.Crdt.PnCounter.Convergence.{SameCounter}

-- What a loop deleted, the merge with the map from before brings back.
merge_max-delete_if :
    (owned : Text → Bool) (m : Counts)
    → Distinct m
    → IsNonneg m
    → SameCounts (merge_max (delete_if owned m) m) m
merge_max-delete_if owned m d h k =
    let kept = AllValues-delete_if (λ v. v < i64_half) owned m h in
    ground
      (arith, count_at-merge_max (delete_if owned m) m k kept h d, count_at-delete_if owned m k)

-- A reset of a valid counter is undone, at every key, by the next merge with a replica that holds what
-- the counter held before.
pub reset_is_undone_by_peers :
    (name : Text) (p : PnCounter) → IsValid p → SameCounter (merge p (reset_name name p)) p
unfolding reset_name merge
reset_is_undone_by_peers name p v = elim (Bool-cases (is_default name)) [
  | inl e ↦ rw e (record {
    positive = merge_max-delete_if _ p.positive v.positive_distinct v.positive_nonneg;
    negative = merge_max-delete_if _ p.negative v.negative_distinct v.negative_nonneg;
  })
  | inr e ↦ rw e (record {
    positive = merge_max-delete_if _ p.positive v.positive_distinct v.positive_nonneg;
    negative = merge_max-delete_if _ p.negative v.negative_distinct v.negative_nonneg;
  })
]
