-- ===== src/Crdt/Counts.antt =====
-- map[string]int64, the data of counters and clocks: reads with the zero value, the loop that every
-- merge of the package runs, the loops that copy and add up.
use distributed_counter.Base.{
  Text, ◌<◌, ◌≡◌, refl, Bool, Option, none, some, [], ◌∷◌, arith, max, if◌then◌else◌, Bool-cases,
  GoMap, lookup, set, Distinct, AllValues, Int64, i64_half, add64, lt64, lt64_nonneg, lookup-set,
  set-Distinct, AllValues-set, AllValues-lookup, text_eq, text_eq_iff, Option-cases, inl, inr,
  subst,
}

abbrev pub Counts : Type 0
Counts = GoMap Int64

abbrev pub or_zero : Option Int64 → Int64
or_zero none = 0
or_zero (some v) = v

-- m[k], the zero value on a missing key
unfoldable pub count_at : Counts → Text → Int64
count_at m k = or_zero (lookup m k)

-- if v > p[k] { p[k] = v }
unfoldable pub merge_step : Counts → Text → Int64 → Counts
merge_step p k v = if lt64 (count_at p k) v then set p k v else p

-- for k, v := range q { if v > p[k] { p[k] = v } }
unfoldable pub merge_max : Counts → Counts → Counts
merge_max p [] = p
merge_max p ((k, v) ∷ q) = merge_max (merge_step p k v) q

-- for k, v := range m { out[k] = v }
unfoldable pub copy_into : Counts → Counts → Counts
copy_into out [] = out
copy_into out ((k, v) ∷ m) = copy_into (set out k v) m

-- for k, v := range m { if owns(k) { acc += v } }
unfoldable pub sum_if : (Text → Bool) → Int64 → Counts → Int64
sum_if owns acc [] = acc
sum_if owns acc ((k, v) ∷ m) = sum_if owns (if owns k then add64 acc v else acc) m

-- for _, v := range m { acc += v }
unfoldable pub sum_all : Int64 → Counts → Int64
sum_all acc [] = acc
sum_all acc ((k, v) ∷ m) = sum_all (add64 acc v) m

abbrev pub IsNonneg : Counts → Type 0
IsNonneg m = AllValues (λ v. v < i64_half) m

pub count_at-lt : (m : Counts) (k : Text) → IsNonneg m → count_at m k < i64_half
unfolding count_at
count_at-lt m k h = elim (Option-cases (lookup m k)) [
  | inl e ↦ rw e (omega arith)
  | inr (v, e) ↦ rw e (AllValues-lookup (λ v. v < i64_half) m k h e)
]

pub count_at-set :
    (m : Counts) (k j : Text) (v : Int64)
    → count_at (set m k v) j ≡ (if text_eq k j then v else count_at m j)
unfolding count_at
count_at-set m k j v = rw lookup-set (ground arith)

merge_step-IsNonneg :
    (p : Counts) (k : Text) (v : Int64) → IsNonneg p → v < i64_half → IsNonneg (merge_step p k v)
unfolding merge_step
merge_step-IsNonneg p k v h hv = elim (Bool-cases (lt64 (count_at p k) v)) [
  | inl e ↦ rw e (AllValues-set (λ v. v < i64_half) p k v h hv)
  | inr e ↦ rw e h
]

merge_step-Distinct : (p : Counts) (k : Text) (v : Int64) → Distinct p → Distinct (merge_step p k v)
unfolding merge_step
merge_step-Distinct p k v h = elim (Bool-cases (lt64 (count_at p k) v)) [
  | inl e ↦ rw e (set-Distinct p k v h)
  | inr e ↦ rw e h
]

count_at-merge_step :
    (p : Counts) (k : Text) (v : Int64) (j : Text)
    → IsNonneg p
    → v < i64_half
    → count_at (merge_step p k v) j ≡ (if text_eq k j then max (count_at p j) v else count_at p j)
unfolding merge_step
count_at-merge_step p k v j h hv =
    ground (
      arith,
      count_at-set p k j v,
      lt64_nonneg (count_at p k) v,
      count_at-lt p k h,
      text_eq_iff k j,
    )

pub merge_max-IsNonneg : (p q : Counts) → IsNonneg p → IsNonneg q → IsNonneg (merge_max p q)
unfolding merge_max
merge_max-IsNonneg p [] hp hq = hp
merge_max-IsNonneg p ((k, v) ∷ q) hp hq =
    merge_max-IsNonneg (merge_step p k v) q (merge_step-IsNonneg p k v hp hq.0) hq.1

pub merge_max-Distinct : (p q : Counts) → Distinct p → Distinct (merge_max p q)
unfolding merge_max
merge_max-Distinct p [] d = d
merge_max-Distinct p ((k, v) ∷ q) d =
    merge_max-Distinct (merge_step p k v) q (merge_step-Distinct p k v d)

pub count_at-nil : (j : Text) → count_at [] j ≡ 0
unfolding count_at lookup
count_at-nil j = refl

pub count_at-cons :
    (k j : Text) (v : Int64) (q : Counts)
    → count_at ((k, v) ∷ q) j ≡ (if text_eq k j then v else count_at q j)
unfolding count_at lookup
count_at-cons k j v q = ground arith

pub count_at-lookup :
    (m n : Counts) (k : Text) → lookup m k ≡ lookup n k → count_at m k ≡ count_at n k
unfolding count_at
count_at-lookup m n k e = rw e

pub count_at_absent : (m : Counts) (k : Text) → lookup m k ≡ none → count_at m k ≡ 0
unfolding count_at
count_at_absent m k h = rw h

-- The merge loop is the pointwise maximum.
pub count_at-merge_max :
    (p q : Counts) (j : Text)
    → IsNonneg p
    → IsNonneg q
    → Distinct q
    → count_at (merge_max p q) j ≡ max (count_at p j) (count_at q j)
unfolding merge_max
count_at-merge_max p [] j hp hq d = omega (arith, count_at-nil j)
count_at-merge_max p ((k, v) ∷ q) j hp hq d =
    let ih =
      count_at-merge_max (merge_step p k v) q j (merge_step-IsNonneg p k v hp hq.0) hq.1 d.1 in
    let step = count_at-merge_step p k v j hp hq.0 in
    elim (Bool-cases (text_eq k j)) [
      | inl e ↦
          let gone = subst (λ x. lookup q x ≡ none) ((text_eq_iff k j).0 e) d.0 in
          rw ih (rw (step, count_at-cons, e) (omega (arith, count_at_absent q j gone)))
      | inr e ↦ rw ih (rw (step, count_at-cons, e) (omega arith))
    ]
