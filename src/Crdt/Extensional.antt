-- ===== src/Crdt/Extensional.antt =====
-- The sum of the owned entries and what a map holds at each key: Go leaves the order of `range` open.
use distributed_counter.Base.{
  Text, ◌<◌, ◌≡◌, refl, sym, ◌∙◌, ap, Bool, none, [], ◌∷◌, arith, inl, inr, if◌then◌else◌,
  Bool-cases, lookup, delete, delete_if, Distinct, Int64, i64_mod, add64, text_eq, text_eq_iff,
  text_eq_refl, lookup-delete_if, delete_if-Distinct,
}
use mathlib.Core.Path.{ap₂}
use distributed_counter.Crdt.Counts.{
  Counts, count_at, count_at-nil, count_at-cons, count_at_absent, sum_if,
}
use distributed_counter.Crdt.Sums.{sum_if_shift}

-- Two maps that read alike at every key.
abbrev pub SameCounts : Counts → Counts → Type 0
SameCounts m n = (k : Text) → count_at m k ≡ count_at n k

add64-lt : (a b : Int64) → add64 a b < i64_mod
unfolding add64
add64-lt a b = omega arith

add64-zero : (a : Int64) → a < i64_mod → add64 a 0 ≡ a
unfolding add64
add64-zero a h = omega arith

pub sum_if-lt :
    (owns : Text → Bool) (acc : Int64) (m : Counts) → acc < i64_mod → sum_if owns acc m < i64_mod
unfolding sum_if
sum_if-lt owns acc [] h = h
sum_if-lt owns acc ((k, v) ∷ m) h = elim (Bool-cases (owns k)) [
  | inl e ↦ rw e (sum_if-lt owns (add64 acc v) m (add64-lt acc v))
  | inr e ↦ rw e (sum_if-lt owns acc m h)
]

delete_absent : (m : Counts) (k : Text) → lookup m k ≡ none → delete m k ≡ m
unfolding delete delete_if lookup
delete_absent [] k h = refl
delete_absent ((j, w) ∷ m) k h = ground (arith, delete_absent m k)

delete-nil : (k : Text) → delete {V = Int64} [] k ≡ []
unfolding delete delete_if
delete-nil k = refl

delete-cons :
    (j k : Text) (w : Int64) (m : Counts)
    → delete ((j, w) ∷ m) k ≡ (if text_eq j k then delete m k else (j, w) ∷ delete m k)
unfolding delete delete_if
delete-cons j k w m = refl

pub count_at-delete :
    (m : Counts) (k j : Text) → count_at (delete m k) j ≡ (if text_eq k j then 0 else count_at m j)
unfolding delete count_at
count_at-delete m k j = rw lookup-delete_if (ground (arith, text_eq_iff j k, text_eq_iff k j))

sum_if-head :
    (owns : Text → Bool) (acc : Int64) (m : Counts) (k : Text) (w : Int64)
    → acc < i64_mod
    → sum_if owns (if owns k then add64 acc w else acc) m
      ≡ add64 (sum_if owns acc m) (if owns k then w else 0)
sum_if-head owns acc m k w h = elim (Bool-cases (owns k)) [
  | inl e ↦ rw e (sum_if_shift owns acc w m)
  | inr e ↦ rw e (sym (add64-zero _ (sum_if-lt owns acc m h)))
]

delete_head : (m : Counts) (k : Text) (v : Int64) → lookup m k ≡ none → delete ((k, v) ∷ m) k ≡ m
unfolding delete delete_if
delete_head m k v h = rw (text_eq_refl k) (unfold delete in delete_absent m k h)

zero_step : (b : Bool) → (if b then add64 0 0 else 0) ≡ 0
unfolding add64
zero_step b = ground arith

-- A map that reads as zero everywhere adds up to zero.
sum_if_zero :
    (owns : Text → Bool) (m : Counts)
    → Distinct m
    → ((k : Text) → count_at m k ≡ 0)
    → sum_if owns 0 m ≡ 0
unfolding sum_if
sum_if_zero owns [] d z = refl
sum_if_zero owns ((k, v) ∷ m) d z =
    let none_left = sum_if_zero owns m d.1 (λ j. zero_tail j) in
    rw v_zero (ap (λ a. sum_if owns a m) (zero_step (owns k)) ∙ none_left)
  where
    v_zero : v ≡ 0
    v_zero = sym (rw (text_eq_refl k) at (count_at-cons k k v m)) ∙ z k

    zero_tail : (j : Text) → count_at m j ≡ 0
    zero_tail j = elim (Bool-cases (text_eq k j)) [
      | inl e ↦ rw (← ((text_eq_iff k j).0 e)) (count_at_absent m k d.0)
      | inr e ↦ sym (rw e at (count_at-cons k j v m)) ∙ z j
    ]

-- One key's entry can be added last.
sum_if-extract :
    (owns : Text → Bool) (acc : Int64) (m : Counts) (k : Text)
    → acc < i64_mod
    → Distinct m
    → sum_if owns acc m ≡ add64 (sum_if owns acc (delete m k)) (if owns k then count_at m k else 0)
unfolding sum_if
sum_if-extract owns acc [] k h d = rw count_at-nil (rw delete-nil (unfold add64 in ground arith))
sum_if-extract owns acc ((j, w) ∷ m) k h d = elim (Bool-cases (text_eq j k)) [
  | inl e ↦
      rw (delete-cons, e, count_at-cons, e)
        (rw (← ((text_eq_iff j k).0 e)) (rw (delete_absent m j d.0) (sum_if-head owns acc m j w h)))
  | inr e ↦
      rw (delete-cons, e, count_at-cons, e)
        (sum_if-extract owns (if owns j then add64 acc w else acc) m k
          (ground (arith, add64-lt acc w)) d.1)
]

delete-Distinct : (m : Counts) (k : Text) → Distinct m → Distinct (delete m k)
unfolding delete
delete-Distinct m k d = delete_if-Distinct (λ j. text_eq j k) m d

-- Without the key of its first entry a map reads like the rest of that entry's list.
SameCounts-delete :
    (m n : Counts) (k : Text) (v : Int64)
    → lookup m k ≡ none
    → SameCounts ((k, v) ∷ m) n
    → SameCounts m (delete n k)
SameCounts-delete m n k v a s j = ground (
  arith,
  s j,
  count_at-cons k j v m,
  count_at-delete n k j,
  count_at_absent m k a,
  text_eq_iff k j,
)

-- Maps that read alike have the same sums.
pub sum_if-SameCounts :
    (owns : Text → Bool) (m n : Counts)
    → Distinct m
    → Distinct n
    → SameCounts m n
    → sum_if owns 0 m ≡ sum_if owns 0 n
sum_if-SameCounts owns [] n dm dn s =
    unfold sum_if in sym (sum_if_zero owns n dn (λ k. sym (s k) ∙ count_at-nil k))
sum_if-SameCounts owns ((k, v) ∷ m) n dm dn s =
    let rest =
      sum_if-SameCounts owns m (delete n k) dm.1 (delete-Distinct n k dn)
        (SameCounts-delete m n k v dm.0 s) in
    sum_if-extract owns 0 ((k, v) ∷ m) k (omega arith) dm
    ∙ ap₂ (λ x y. add64 x (if owns k then y else 0))
        (ap (sum_if owns 0) (delete_head m k v dm.0) ∙ rest) (s k)
    ∙ sym (sum_if-extract owns 0 n k (omega arith) dn)
