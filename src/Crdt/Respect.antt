-- ===== src/Crdt/Respect.antt =====
-- The operations on counters and clocks, on maps that read alike.
use distributed_counter.Base.{
  Text, ◌≡◌, refl, ap, Bool, [], ◌∷◌, arith, inl, inr, if◌then◌else◌, Bool-cases, set, delete_if,
  Distinct, Int64, add64, lt64, lookup-delete_if,
}
use distributed_counter.Crdt.Counts.{
  Counts, count_at, merge_step, merge_max, IsNonneg, count_at-set, count_at-nil, count_at-merge_max,
}
use distributed_counter.Crdt.Extensional.{SameCounts}

pub set-SameCounts :
    (m n : Counts) (k : Text) (v w : Int64)
    → SameCounts m n
    → v ≡ w
    → SameCounts (set m k v) (set n k w)
set-SameCounts m n k v w s e j = rw (count_at-set, count_at-set, s j, e) refl

pub add_at-SameCounts :
    (m n : Counts) (k : Text) (d : Int64)
    → SameCounts m n
    → SameCounts (set m k (add64 (count_at m k) d)) (set n k (add64 (count_at n k) d))
add_at-SameCounts m n k d s = set-SameCounts m n k _ _ s (ap (λ x. add64 x d) (s k))

pub count_at-delete_if :
    (p : Text → Bool) (m : Counts) (j : Text)
    → count_at (delete_if p m) j ≡ (if p j then 0 else count_at m j)
unfolding count_at
count_at-delete_if p m j = rw lookup-delete_if (ground arith)

pub delete_if-SameCounts :
    (p : Text → Bool) (m n : Counts) → SameCounts m n → SameCounts (delete_if p m) (delete_if p n)
delete_if-SameCounts p m n s j = rw (count_at-delete_if, count_at-delete_if, s j) refl

merge_step-SameCounts :
    (m n : Counts) (k : Text) (v : Int64)
    → SameCounts m n
    → SameCounts (merge_step m k v) (merge_step n k v)
unfolding merge_step
merge_step-SameCounts m n k v s = elim (Bool-cases (lt64 (count_at n k) v)) [
  | inl e ↦ rw (s k, e) (set-SameCounts m n k v v s refl)
  | inr e ↦ rw (s k, e) s
]

pub merge_max-SameCounts :
    (m n q : Counts) → SameCounts m n → SameCounts (merge_max m q) (merge_max n q)
unfolding merge_max
merge_max-SameCounts m n [] s = s
merge_max-SameCounts m n ((k, v) ∷ q) s =
    merge_max-SameCounts (merge_step m k v) (merge_step n k v) q (merge_step-SameCounts m n k v s)

-- A map that is merged into an empty one: entries of zero may be missing.
pub merge_max-nil : (m : Counts) → Distinct m → IsNonneg m → SameCounts (merge_max [] m) m
merge_max-nil m d h j = omega (arith, count_at-merge_max [] m j tt h d, count_at-nil j)
