-- ===== src/Crdt/Copies.antt =====
-- The loop that copies a map, entry by entry.
use distributed_counter.Base.{
  Text, ◌≡◌, refl, false, none, [], ◌∷◌, ◌++◌, arith, inl, inr, ◌∙◌, sym, Bool-cases, lookup, set,
  Distinct, Int64, text_eq, text_eq_iff,
}
use mathlib.Core.List.{append-nil, append_assoc}
use distributed_counter.Crdt.Counts.{Counts, copy_into}

-- No key of `m` stands in `out`.
abbrev Fresh : Counts → Counts → Type 0
Fresh out [] = Unit
Fresh out ((k, v) ∷ m) = (lookup out k ≡ none) × Fresh out m

set_absent : (m : Counts) (k : Text) (v : Int64) → lookup m k ≡ none → set m k v ≡ m ++ (k, v) ∷ []
unfolding set lookup
set_absent [] k v h = refl
set_absent ((j, w) ∷ m) k v h = ground (arith, set_absent m k v)

lookup-append_none :
    (m : Counts) (k j : Text) (v : Int64)
    → lookup m j ≡ none
    → text_eq k j ≡ false
    → lookup (m ++ (k, v) ∷ []) j ≡ none
unfolding lookup
lookup-append_none [] k j v h e = rw e
lookup-append_none ((i, w) ∷ m) k j v h e = ground (arith, lookup-append_none m k j v)

Fresh-append :
    (out m : Counts) (k : Text) (v : Int64)
    → lookup m k ≡ none
    → Fresh out m
    → Fresh (out ++ (k, v) ∷ []) m
unfolding lookup
Fresh-append out [] k v a f = tt
Fresh-append out ((j, w) ∷ m) k v a f = elim (Bool-cases (text_eq j k)) [
  | inl e ↦ absurd (ground arith)
  | inr e ↦ (
    lookup-append_none out k j v f.0 (ground (arith, text_eq_iff j k, text_eq_iff k j)),
    Fresh-append out m k v (rw e at a) f.1,
  )
]

copy_into-eq-append : (out m : Counts) → Fresh out m → Distinct m → copy_into out m ≡ out ++ m
unfolding copy_into
copy_into-eq-append out [] f d = sym (append-nil out)
copy_into-eq-append out ((k, v) ∷ m) f d = rw (set_absent out k v f.0) (
    copy_into-eq-append (out ++ (k, v) ∷ []) m (Fresh-append out m k v d.0 f.1) d.1
    ∙ append_assoc out ((k, v) ∷ []) m)

Fresh-nil : (m : Counts) → Fresh [] m
unfolding lookup
Fresh-nil [] = tt
Fresh-nil ((k, v) ∷ m) = (refl, Fresh-nil m)

pub copy_into-nil : (m : Counts) → Distinct m → copy_into [] m ≡ m
copy_into-nil m d = copy_into-eq-append [] m (Fresh-nil m) d
