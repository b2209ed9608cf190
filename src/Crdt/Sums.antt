-- ===== src/Crdt/Sums.antt =====
-- How the loop that adds up the owned entries meets a write and a deletion.
use distributed_counter.Base.{
  Text, ◌≡◌, refl, Bool, true, false, [], ◌∷◌, arith, inl, inr, ap, ◌∙◌, if◌then◌else◌, Bool-cases,
  set, delete_if, Int64, add64, add64_assoc, add64_comm, text_eq, text_eq_iff,
}
use distributed_counter.Crdt.Counts.{Counts, count_at, count_at-nil, count_at-cons, sum_if}

-- What is added first may be added last.
pub sum_if_shift :
    (owns : Text → Bool) (acc d : Int64) (m : Counts)
    → sum_if owns (add64 acc d) m ≡ add64 (sum_if owns acc m) d
unfolding sum_if
sum_if_shift owns acc d [] = refl
sum_if_shift owns acc d ((k, v) ∷ m) = elim (Bool-cases (owns k)) [
  | inl e ↦ rw e (ap (λ x. sum_if owns x m) (swap acc d v) ∙ sum_if_shift owns (add64 acc v) d m)
  | inr e ↦ rw e (sum_if_shift owns acc d m)
]
  where
    swap : (a b c : Int64) → add64 (add64 a b) c ≡ add64 (add64 a c) b
    swap a b c = rw add64_assoc (rw (add64_comm b c) (rw (← add64_assoc a c b) refl))

add_first :
    (owns : Text → Bool) (acc w d : Int64) (m : Counts) (k : Text)
    → sum_if owns (if owns k then add64 acc (add64 w d) else acc) m ≡ (
        if owns k
        then add64 (sum_if owns (if owns k then add64 acc w else acc) m) d
        else sum_if owns (if owns k then add64 acc w else acc) m)
add_first owns acc w d m k = elim (Bool-cases (owns k)) [
  | inl e ↦ rw e (rw (← add64_assoc acc w d) (sum_if_shift owns (add64 acc w) d m))
  | inr e ↦ rw e
]

-- m[k] += d changes the sum of the owned entries by d if k is owned, and not otherwise.
pub sum_if-set :
    (owns : Text → Bool) (acc d : Int64) (m : Counts) (k : Text)
    → sum_if owns acc (set m k (add64 (count_at m k) d))
      ≡ (if owns k then add64 (sum_if owns acc m) d else sum_if owns acc m)
unfolding sum_if set
sum_if-set owns acc d [] k = rw count_at-nil (unfold add64 in ground arith)
sum_if-set owns acc d ((j, w) ∷ m) k = elim (Bool-cases (text_eq j k)) [
  | inl e ↦ rw (e, count_at-cons, e) (rw ((text_eq_iff j k).0 e) (add_first owns acc w d m k))
  | inr e ↦ rw (e, count_at-cons, e) (sum_if-set owns (if owns j then add64 acc w else acc) d m k)
]

-- Deleting what is owned leaves nothing to add.
pub sum_if-delete_if :
    (owns : Text → Bool) (acc : Int64) (m : Counts) → sum_if owns acc (delete_if owns m) ≡ acc
unfolding sum_if delete_if
sum_if-delete_if owns acc [] = refl
sum_if-delete_if owns acc ((k, v) ∷ m) = elim (Bool-cases (owns k)) [
  | inl e ↦ rw e (sum_if-delete_if owns acc m)
  | inr e ↦ rw e (rw (e, sum_if) (sum_if-delete_if owns acc m))
]

-- Deleting what another owner holds changes nothing.
pub sum_if-delete_if_other :
    (owns gone : Text → Bool) (acc : Int64) (m : Counts)
    → ((k : Text) → gone k ≡ true → owns k ≡ false)
    → sum_if owns acc (delete_if gone m) ≡ sum_if owns acc m
unfolding sum_if delete_if
sum_if-delete_if_other owns gone acc [] h = refl
sum_if-delete_if_other owns gone acc ((k, v) ∷ m) h = elim (Bool-cases (gone k)) [
  | inl e ↦ rw (e, h k e) (sum_if-delete_if_other owns gone acc m h)
  | inr e ↦ rw e (sum_if-delete_if_other owns gone (if owns k then add64 acc v else acc) m h)
]
