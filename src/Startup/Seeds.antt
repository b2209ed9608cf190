-- ===== src/Startup/Seeds.antt =====
-- cmd/server/main.go: the order in which the seeds are asked.
pub mod Order
use distributed_counter.Base.{
  Text, ℕ, zero, suc, ◌+◌, ◌%◌, Bool, true, Option, none, some, List, [], ◌∷◌, GoMap, lookup, set,
  length,
}

-- The loop of uniqueOrderedSeeds, on the seeds that it has seen.
unfoldable pub unique_loop : GoMap Bool → List Text → List Text
unique_loop seen [] = []
unique_loop seen (seed ∷ seeds) = elim (lookup seen seed) [
  | some _ ↦ unique_loop seen seeds
  | none ↦ seed ∷ unique_loop (set seen seed true) seeds
]

-- uniqueOrderedSeeds
unfoldable pub unique_ordered_seeds : List Text → List Text
unique_ordered_seeds seed_nodes = unique_loop [] seed_nodes

-- xs[i], `none` for the panic of an index out of range
unfoldable pub get_elem? {ℓ} : {A : Type ℓ} → List A → ℕ → Option A
get_elem? [] i = none
get_elem? (x ∷ xs) zero = some x
get_elem? (x ∷ xs) (suc i) = get_elem? xs i

abbrev cons_each {ℓ} : {A : Type ℓ} → Option A → Option (List A) → Option (List A)
cons_each (some x) (some xs) = some (x ∷ xs)
cons_each _ _ = none

-- The rounds that the loop of rotateSeeds has left, from round i on.
unfoldable pub rotate_loop : List Text → ℕ → ℕ → ℕ → Option (List Text)
unfolding get_elem?
rotate_loop seed_nodes offset i zero = some []
rotate_loop seed_nodes offset i (suc left) =
    cons_each (get_elem? seed_nodes ((offset + i) % length seed_nodes))
      (rotate_loop seed_nodes offset (i + 1) left)

-- rotateSeeds, `none` where it panics
unfoldable pub rotate_seeds : List Text → ℕ → Option (List Text)
unfolding rotate_loop
rotate_seeds [] offset = some []
rotate_seeds (seed ∷ seeds) offset = rotate_loop (seed ∷ seeds) offset 0 (length (seed ∷ seeds))
