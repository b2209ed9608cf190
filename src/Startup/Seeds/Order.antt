-- ===== src/Startup/Seeds/Order.antt =====
-- The order of the seeds: rotation keeps them, and repeated ones are left out.
use distributed_counter.Base.{
  Text, ℕ, zero, suc, ◌+◌, ◌%◌, ◌≤◌, ◌<◌, ◌≡◌, refl, sym, ◌∙◌, ap, Bool, true, false, ◌&&◌, ◌||◌,
  Option, none, some, List, [], ◌∷◌, ◌++◌, arith, GoMap, lookup, set, length, take, drop,
  take-drop-append, length-append, drop_all, Option-cases, Bool-cases, ltb, ltb→lt, inl, inr,
  lookup-set, text_eq, text_eq_iff, text_eq_refl, subst,
}
use native.Mathlib.Nat.{mod-lt, mod-eq_of_lt, mod-eq-sub-mod}
use distributed_counter.Startup.Seeds.{
  unique_loop, unique_ordered_seeds, get_elem?, rotate_loop, rotate_seeds,
}

-- Whether a seed stands in the list.
abbrev pub occurs : Text → List Text → Bool
occurs k [] = false
occurs k (x ∷ xs) = text_eq x k || occurs k xs

-- No seed stands twice.
abbrev pub NoRepeats : List Text → Type 0
NoRepeats [] = Unit
NoRepeats (x ∷ xs) = (occurs x xs ≡ false) × NoRepeats xs

abbrev is_new : Option Bool → Bool
is_new none = true
is_new (some _) = false

unique_loop-new :
    (seen : GoMap Bool) (seed : Text) (seeds : List Text)
    → lookup seen seed ≡ none
    → unique_loop seen (seed ∷ seeds) ≡ seed ∷ unique_loop (set seen seed true) seeds
unfolding unique_loop
unique_loop-new seen seed seeds e = rw (unique_loop, e) refl

unique_loop-seen :
    (seen : GoMap Bool) (seed : Text) (seeds : List Text) {b : Bool}
    → lookup seen seed ≡ some b
    → unique_loop seen (seed ∷ seeds) ≡ unique_loop seen seeds
unfolding unique_loop
unique_loop-seen seen seed seeds e = rw (unique_loop, e) refl

occurs-unique_loop :
    (seen : GoMap Bool) (seeds : List Text) (k : Text)
    → occurs k (unique_loop seen seeds) ≡ (is_new (lookup seen k) && occurs k seeds)
unfolding unique_loop
occurs-unique_loop seen [] k = ground arith
occurs-unique_loop seen (seed ∷ seeds) k = elim (Option-cases (lookup seen seed)) [
  | inl e ↦ rw (unique_loop-new seen seed seeds e) (
      ground (
        arith,
        e,
        occurs-unique_loop (set seen seed true) seeds k,
        lookup-set seen seed k true,
        text_eq_iff seed k,
      ))
  | inr (b, e) ↦
      rw (unique_loop-seen seen seed seeds e)
        (ground (arith, e, occurs-unique_loop seen seeds k, text_eq_iff seed k))
]

unique_loop-NoRepeats : (seen : GoMap Bool) (seeds : List Text) → NoRepeats (unique_loop seen seeds)
unfolding unique_loop
unique_loop-NoRepeats seen [] = tt
unique_loop-NoRepeats seen (seed ∷ seeds) = elim (Option-cases (lookup seen seed)) [
  | inl e ↦ subst NoRepeats (sym (unique_loop-new seen seed seeds e)) (
      (
        ground (
          arith,
          occurs-unique_loop (set seen seed true) seeds seed,
          lookup-set seen seed seed true,
          text_eq_refl seed,
        ),
        unique_loop-NoRepeats (set seen seed true) seeds,
      ))
  | inr (b, e) ↦
      subst NoRepeats (sym (unique_loop-seen seen seed seeds e)) (unique_loop-NoRepeats seen seeds)
]

unique_ordered_seeds-NoRepeats : (seeds : List Text) → NoRepeats (unique_ordered_seeds seeds)
unfolding unique_ordered_seeds
unique_ordered_seeds-NoRepeats seeds = unique_loop-NoRepeats [] seeds

pub occurs-unique_ordered_seeds :
    (seeds : List Text) (k : Text) → occurs k (unique_ordered_seeds seeds) ≡ occurs k seeds
unfolding unique_ordered_seeds lookup
occurs-unique_ordered_seeds seeds k = occurs-unique_loop [] seeds k

-- The first seed stays in front.
pub unique_ordered_seeds-front :
    (seed : Text) (seeds : List Text)
    → unique_ordered_seeds (seed ∷ seeds) ≡ seed ∷ unique_loop ((seed, true) ∷ []) seeds
unfolding unique_ordered_seeds unique_loop lookup set
unique_ordered_seeds-front seed seeds = refl

-- What stands at an index is the head of what is left from there.
get-drop {ℓ} :
    {A : Type ℓ} (xs : List A) (i : ℕ)
    → i < length xs
    → (x : A) × (get_elem? xs i ≡ some x) × (drop i xs ≡ x ∷ drop (suc i) xs)
unfolding get_elem?
get-drop [] i h = absurd (omega arith)
get-drop (x ∷ xs) zero h = (x, refl, refl)
get-drop (x ∷ xs) (suc i) h = get-drop xs i (omega arith)

-- One round of the loop, at the index that the remainder comes to.
rotate_loop-round :
    (xs : List Text) (offset i left at : ℕ) (rest : List Text)
    → (offset + i) % length xs ≡ at
    → at < length xs
    → rotate_loop xs offset (i + 1) left ≡ some rest
    → (x : Text) × (drop at xs ≡ x ∷ drop (suc at) xs)
      × (rotate_loop xs offset i (suc left) ≡ some (x ∷ rest))
unfolding rotate_loop
rotate_loop-round xs offset i left at rest e h r =
    let (x, got, dropped) = get-drop xs at h in (x, dropped, rw (e, got, r) refl)

-- The rounds after the wrap-around.
rotate_loop-wrapped :
    (xs : List Text) (offset i at left : ℕ)
    → i + left ≡ length xs
    → offset < length xs
    → at + length xs ≡ offset + i
    → rotate_loop xs offset i left ≡ some (take left (drop at xs))
unfolding rotate_loop
rotate_loop-wrapped xs offset i at zero e o h = refl
rotate_loop-wrapped xs offset i at (suc left) e o h =
    let index : (offset + i) % length xs ≡ at =
      mod-eq-sub-mod (omega arith)
      ∙ ap (λ j. j % length xs) (omega arith)
      ∙ mod-eq_of_lt (omega arith) in
    let next = rotate_loop-wrapped xs offset (i + 1) (suc at) left (omega arith) o (omega arith) in
    let (x, dropped, round) = rotate_loop-round xs offset i left at _ index (omega arith) next in
    round ∙ sym (rw dropped refl)

-- The rounds before it.
rotate_loop-first :
    (xs : List Text) (offset i at left : ℕ)
    → i + left ≡ length xs
    → offset < length xs
    → at ≤ length xs
    → at ≡ offset + i
    → rotate_loop xs offset i left ≡ some (drop at xs ++ take offset xs)
unfolding rotate_loop
rotate_loop-first xs offset i at zero e o h a =
    let all : at ≡ length xs = omega arith in
    let none_left : offset ≡ 0 = omega arith in sym (rw (all, drop_all xs, none_left) refl)
rotate_loop-first xs offset i at (suc left) e o h a = elim (Bool-cases (ltb at (length xs))) [
  | inl part ↦
      let lt = ltb→lt at (length xs) part in
      let next =
        rotate_loop-first xs offset (i + 1) (suc at) left (omega arith) o (omega arith)
          (omega arith) in
      let (x, dropped, round) =
        rotate_loop-round xs offset i left at _ (mod-eq_of_lt (omega arith) ∙ sym a) lt next in
      round ∙ sym (rw dropped refl)
  | inr end ↦
      let all : at ≡ length xs = ground arith in
      let here : suc left ≡ offset = omega arith in
      rotate_loop-wrapped xs offset i 0 (suc left) e o (omega arith)
      ∙ sym (rw (all, drop_all xs, here) refl)
]

pub occurs-append :
    (xs ys : List Text) (k : Text) → occurs k (xs ++ ys) ≡ (occurs k xs || occurs k ys)
occurs-append [] ys k = refl
occurs-append (x ∷ xs) ys k = ground (arith, occurs-append xs ys k)

occurs-swap : (xs ys : List Text) (k : Text) → occurs k (xs ++ ys) ≡ occurs k (ys ++ xs)
occurs-swap xs ys k = ground (arith, occurs-append xs ys k, occurs-append ys xs k)

length-swap : (xs ys : List Text) → length (xs ++ ys) ≡ length (ys ++ xs)
length-swap xs ys = omega (arith, length-append xs ys, length-append ys xs)

-- What NoRepeats says of a list in two parts.
record Apart (xs ys : List Text) : Type 0 where
  left : NoRepeats xs
  right : NoRepeats ys
  apart : (k : Text) → occurs k xs ≡ true → occurs k ys ≡ false

NoRepeats→Apart : (xs ys : List Text) → NoRepeats (xs ++ ys) → Apart xs ys
NoRepeats→Apart [] ys h = record { left = tt; right = h; apart = λ k e. cc }
NoRepeats→Apart (x ∷ xs) ys h =
    let rest = NoRepeats→Apart xs ys h.1 in
    record {
      left = (ground (arith, occurs-append xs ys x, h.0), rest.left);
      right = rest.right;
      apart = λ k e. ground (arith, occurs-append xs ys x, h.0, text_eq_iff x k, rest.apart k);
    }

Apart→NoRepeats : (xs ys : List Text) → Apart xs ys → NoRepeats (xs ++ ys)
Apart→NoRepeats [] ys h = h.right
Apart→NoRepeats (x ∷ xs) ys h = (
  ground (arith, occurs-append xs ys x, h.left.0, h.apart x, text_eq_refl x),
  Apart→NoRepeats xs ys
      (record { left = h.left.1; right = h.right; apart = λ k e. h.apart k (ground (arith, e)) }),
)

NoRepeats-swap : (xs ys : List Text) → NoRepeats (xs ++ ys) → NoRepeats (ys ++ xs)
NoRepeats-swap xs ys h =
    let a = NoRepeats→Apart xs ys h in
    Apart→NoRepeats ys xs
      (record { left = a.right; right = a.left; apart = λ k e. ground (arith, a.apart k) })

-- rotateSeeds with an offset in range starts there and goes on from the front.
pub rotate_seeds-eq :
    (seeds : List Text) (offset : ℕ)
    → offset < length seeds
    → rotate_seeds seeds offset ≡ some (drop offset seeds ++ take offset seeds)
unfolding rotate_seeds
rotate_seeds-eq [] offset h = absurd (omega arith)
rotate_seeds-eq (x ∷ xs) offset h =
    rotate_loop-first (x ∷ xs) offset 0 offset (length (x ∷ xs)) (omega arith) h (omega arith)
      (omega arith)

-- The seeds in the order of one attempt.
pub record IsOrder (seed_nodes : List Text) (ordered : List Text) : Type 0 where
  pub once : NoRepeats ordered
  pub all : (k : Text) → occurs k ordered ≡ occurs k seed_nodes
  pub as_many : length ordered ≡ length (unique_ordered_seeds seed_nodes)

-- With at least one seed configured no attempt panics, and each asks every configured seed once and no
-- other: it starts at the seed of its number, round and round, and goes on from there.
pub attempt-IsOrder :
    (seed_nodes : List Text) (attempt : ℕ)
    → let unique = unique_ordered_seeds seed_nodes in
      let offset = attempt % length unique in
      0 < length unique
      → let ordered = drop offset unique ++ take offset unique in
        (rotate_seeds unique offset ≡ some ordered) × IsOrder seed_nodes ordered
attempt-IsOrder seed_nodes attempt h =
    let unique = unique_ordered_seeds seed_nodes in
    let offset = attempt % length unique in
    let whole = take-drop-append offset unique in
    (
      rotate_seeds-eq unique offset (mod-lt attempt h),
      record {
        once =
            NoRepeats-swap (take offset unique) (drop offset unique)
              (subst NoRepeats (sym whole) (unique_ordered_seeds-NoRepeats seed_nodes));
        all = λ k.
            occurs-swap (drop offset unique) (take offset unique) k
            ∙ ap (occurs k) whole
            ∙ occurs-unique_ordered_seeds seed_nodes k;
        as_many = length-swap (drop offset unique) (take offset unique) ∙ ap length whole;
      },
    )
