-- ===== src/Base/Maps.antt =====
-- Go maps with string keys, as association lists; `range` visits the entries in list order.
use mathlib.Core.Path.{◌≡◌, refl, subst, subst₂}
use mathlib.Core.Logic.{inl, inr}
use mathlib.Core.Bool.{Bool}
use mathlib.Core.Option.{Option, none, some}
use mathlib.Core.List.{List, [], ◌∷◌}
use native.Mathlib.Omega.{arith}
use distributed_counter.Base.Tests.{if◌then◌else◌, Bool-cases}
use distributed_counter.Base.Strings.{Text, text_eq, text_eq_iff}

abbrev pub GoMap {ℓ} : Type ℓ → Type ℓ
GoMap V = List (Text × V)

module _ {ℓ} {V : Type ℓ} where
  -- v, ok := m[k]
  unfoldable pub lookup : GoMap V → Text → Option V
  lookup [] k = none
  lookup ((j, v) ∷ m) k = if text_eq j k then some v else lookup m k

  -- m[k] = v
  unfoldable pub set : GoMap V → Text → V → GoMap V
  set [] k v = (k, v) ∷ []
  set ((j, w) ∷ m) k v = if text_eq j k then (k, v) ∷ m else (j, w) ∷ set m k v

  -- for k := range m { if p(k) { delete(m, k) } }
  unfoldable pub delete_if : (Text → Bool) → GoMap V → GoMap V
  delete_if p [] = []
  delete_if p ((j, v) ∷ m) = let rest = delete_if p m in if p j then rest else (j, v) ∷ rest

  -- delete(m, k)
  unfoldable pub delete : GoMap V → Text → GoMap V
  delete m k = delete_if (λ j. text_eq j k) m

  -- No key stands twice: what Go guarantees of a map.
  abbrev pub Distinct : GoMap V → Type ℓ
  Distinct [] = Unit
  Distinct ((k, v) ∷ m) = (lookup m k ≡ none) × Distinct m

  pub lookup-set :
      (m : GoMap V) (k j : Text) (v : V)
      → lookup (set m k v) j ≡ (if text_eq k j then some v else lookup m j)
  unfolding lookup set
  lookup-set [] k j v = refl
  lookup-set ((i, w) ∷ m) k j v =
      ground (arith, text_eq_iff k j, text_eq_iff i k, text_eq_iff i j, lookup-set m k j v)

  pub lookup-delete_if :
      (p : Text → Bool) (m : GoMap V) (j : Text)
      → lookup (delete_if p m) j ≡ (if p j then none else lookup m j)
  unfolding lookup delete_if
  lookup-delete_if p [] j = ground arith
  lookup-delete_if p ((i, w) ∷ m) j = ground (arith, text_eq_iff i j, lookup-delete_if p m j)

  pub set-Distinct : (m : GoMap V) (k : Text) (v : V) → Distinct m → Distinct (set m k v)
  unfolding set lookup
  set-Distinct [] k v d = (refl, tt)
  set-Distinct ((i, w) ∷ m) k v d = elim (Bool-cases (text_eq i k)) [
    | inl e ↦ rw e ((ground (arith, text_eq_iff i k), d.1))
    | inr e ↦ rw e (
        (
          ground (arith, lookup-set m k i v, text_eq_iff i k, text_eq_iff k i),
          set-Distinct m k v d.1,
        ))
  ]

  pub delete_if-Distinct : (p : Text → Bool) (m : GoMap V) → Distinct m → Distinct (delete_if p m)
  unfolding delete_if
  delete_if-Distinct p [] d = tt
  delete_if-Distinct p ((i, w) ∷ m) d = elim (Bool-cases (p i)) [
    | inl e ↦ rw e (delete_if-Distinct p m d.1)
    | inr e ↦ rw e ((ground (arith, lookup-delete_if p m i), delete_if-Distinct p m d.1))
  ]

  -- What the map holds satisfies `P`.
  abbrev pub AllValues {κ} : (V → Type κ) → GoMap V → Type κ
  AllValues P [] = Unit
  AllValues P ((k, v) ∷ m) = P v × AllValues P m

  pub AllValues-set {κ} :
      (P : V → Type κ) (m : GoMap V) (k : Text) (v : V)
      → AllValues P m
      → P v
      → AllValues P (set m k v)
  unfolding set
  AllValues-set P [] k v h pv = (pv, tt)
  AllValues-set P ((i, w) ∷ m) k v h pv = elim (Bool-cases (text_eq i k)) [
    | inl e ↦ rw e ((pv, h.1))
    | inr e ↦ rw e ((h.0, AllValues-set P m k v h.1 pv))
  ]

  pub AllValues-delete_if {κ} :
      (P : V → Type κ) (p : Text → Bool) (m : GoMap V) → AllValues P m → AllValues P (delete_if p m)
  unfolding delete_if
  AllValues-delete_if P p [] h = tt
  AllValues-delete_if P p ((i, w) ∷ m) h = elim (Bool-cases (p i)) [
    | inl e ↦ rw e (AllValues-delete_if P p m h.1)
    | inr e ↦ rw e ((h.0, AllValues-delete_if P p m h.1))
  ]

  pub AllValues-lookup {κ} :
      (P : V → Type κ) (m : GoMap V) (k : Text) {v : V} → AllValues P m → lookup m k ≡ some v → P v
  unfolding lookup
  AllValues-lookup P [] k h e = absurd (cc)
  AllValues-lookup P ((i, w) ∷ m) k h e = elim (Bool-cases (text_eq i k)) [
    | inl t ↦ subst P (cc) h.0
    | inr t ↦ AllValues-lookup P m k h.1 (rw t at e)
  ]

  -- Each key and its value satisfy `P`.
  abbrev pub AllEntries {κ} : (Text → V → Type κ) → GoMap V → Type κ
  AllEntries P [] = Unit
  AllEntries P ((k, v) ∷ m) = P k v × AllEntries P m

  pub AllEntries-set {κ} :
      (P : Text → V → Type κ) (m : GoMap V) (k : Text) (v : V)
      → AllEntries P m
      → P k v
      → AllEntries P (set m k v)
  unfolding set
  AllEntries-set P [] k v h pv = (pv, tt)
  AllEntries-set P ((i, w) ∷ m) k v h pv = elim (Bool-cases (text_eq i k)) [
    | inl e ↦ rw e ((pv, h.1))
    | inr e ↦ rw e ((h.0, AllEntries-set P m k v h.1 pv))
  ]

  pub AllEntries-lookup {κ} :
      (P : Text → V → Type κ) (m : GoMap V) (k : Text) {v : V}
      → AllEntries P m
      → lookup m k ≡ some v
      → P k v
  unfolding lookup
  AllEntries-lookup P [] k h e = absurd (cc)
  AllEntries-lookup P ((i, w) ∷ m) k h e = elim (Bool-cases (text_eq i k)) [
    | inl t ↦ subst₂ P ((text_eq_iff i k).0 t) (cc) h.0
    | inr t ↦ AllEntries-lookup P m k h.1 (rw t at e)
  ]

  -- The values, in the order of `range`.
  unfoldable pub values : GoMap V → List V
  values [] = []
  values ((k, v) ∷ m) = v ∷ values m
