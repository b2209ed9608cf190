-- ===== src/Crdt/Delta/Lookup.antt =====
-- What the functions of delta.go return, key by key.
use distributed_counter.Base.{
  Text, ◌<◌, ◌≡◌, refl, Bool, true, false, ap, ◌∙◌, Option, none, some, [], ◌∷◌, arith, inl, inr,
  if◌then◌else◌, Bool-cases, Option-cases, lookup, Distinct, Int64, lt64, lt64_nonneg, i64_half,
  text_eq, text_eq_iff, lookup-set, AllValues-lookup, ltb,
}
use distributed_counter.Crdt.Counts.{Counts, count_at, count_at-lt, IsNonneg}
use distributed_counter.Crdt.Delta.{Delta, copy_entry, delta_step, delta_loop, delta_from}

-- The entry at a key is newer than the base's.
abbrev pub is_newer : Option Int64 → Int64 → Bool
is_newer none b = false
is_newer (some v) b = lt64 b v

-- On counts that are not negative the test compares what the maps read at the key.
pub is_newer_iff :
    (clock base : Counts) (k : Text)
    → IsNonneg clock
    → IsNonneg base
    → is_newer (lookup clock k) (count_at base k) ≡ ltb (count_at base k) (count_at clock k)
is_newer_iff clock base k hc hb = elim (Option-cases (lookup clock k)) [
  | inl e ↦ rw e (unfold count_at in rw e (ground arith))
  | inr (v, e) ↦
      let small = AllValues-lookup (λ w. w < i64_half) clock k hc e in
      rw e (
        lt64_nonneg (count_at base k) v (count_at-lt base k hb) small
        ∙ ap (ltb (count_at base k)) (unfold count_at in rw e))
]

abbrev or_else : Option Int64 → Option Int64 → Option Int64
or_else none o = o
or_else (some v) o = some v

-- What the loop of DeltaFrom does to one of its maps.
newer_entries : Counts → Counts → Counts → Counts → Counts
newer_entries source [] base out = out
newer_entries source ((node, v) ∷ clock) base out =
    newer_entries source clock base
      (if lt64 (count_at base node) v then copy_entry (lookup source node) node out else out)

positive-delta_loop :
    (pos neg clock base : Counts) (d : Delta)
    → (delta_loop pos neg clock base d).positive ≡ newer_entries pos clock base d.positive
unfolding delta_loop newer_entries
positive-delta_loop pos neg [] base d = refl
positive-delta_loop pos neg ((node, v) ∷ clock) base d =
    positive-delta_loop pos neg clock base (delta_step pos neg base node v d)
    ∙ ap (newer_entries pos clock base) (unfold delta_step in ground arith)

negative-delta_loop :
    (pos neg clock base : Counts) (d : Delta)
    → (delta_loop pos neg clock base d).negative ≡ newer_entries neg clock base d.negative
unfolding delta_loop newer_entries
negative-delta_loop pos neg [] base d = refl
negative-delta_loop pos neg ((node, v) ∷ clock) base d =
    negative-delta_loop pos neg clock base (delta_step pos neg base node v d)
    ∙ ap (newer_entries neg clock base) (unfold delta_step in ground arith)

lookup-copy_entry :
    (o : Option Int64) (node k : Text) (out : Counts)
    → lookup (copy_entry o node out) k
      ≡ (if text_eq node k then or_else o (lookup out k) else lookup out k)
unfolding copy_entry
lookup-copy_entry none node k out = ground arith
lookup-copy_entry (some v) node k out = rw lookup-set

-- The two outcomes of a round, at a key that is the round's own or another.
hit :
    (source clock base out : Counts) (node k : Text) (v : Int64)
    → lookup clock node ≡ none
    → lt64 (count_at base node) v ≡ true
    → (if is_newer (lookup clock k) (count_at base k)
        then or_else (lookup source k) (lookup (copy_entry (lookup source node) node out) k)
        else lookup (copy_entry (lookup source node) node out) k)
      ≡ (if is_newer (if text_eq node k then some v else lookup clock k) (count_at base k)
          then or_else (lookup source k) (lookup out k)
          else lookup out k)
hit source clock base out node k v a e = elim (Bool-cases (text_eq node k)) [
  | inl t ↦ rw lookup-copy_entry (rw t (rw (← ((text_eq_iff node k).0 t)) (rw (a, e))))
  | inr t ↦ rw lookup-copy_entry (rw t)
]

miss :
    (source clock base out : Counts) (node k : Text) (v : Int64)
    → lookup clock node ≡ none
    → lt64 (count_at base node) v ≡ false
    → (if is_newer (lookup clock k) (count_at base k)
        then or_else (lookup source k) (lookup out k)
        else lookup out k)
      ≡ (if is_newer (if text_eq node k then some v else lookup clock k) (count_at base k)
          then or_else (lookup source k) (lookup out k)
          else lookup out k)
miss source clock base out node k v a e = elim (Bool-cases (text_eq node k)) [
  | inl t ↦ rw t (rw (← ((text_eq_iff node k).0 t)) (rw (a, e)))
  | inr t ↦ rw t
]

lookup-newer_entries :
    (source clock base out : Counts) (k : Text)
    → Distinct clock
    → lookup (newer_entries source clock base out) k ≡ (
        if is_newer (lookup clock k) (count_at base k)
        then or_else (lookup source k) (lookup out k)
        else lookup out k)
unfolding newer_entries lookup
lookup-newer_entries source [] base out k d = refl
lookup-newer_entries source ((node, v) ∷ clock) base out k d =
    elim (Bool-cases (lt64 (count_at base node) v)) [
      | inl e ↦ rw e (
          lookup-newer_entries source clock base (copy_entry (lookup source node) node out) k d.1
          ∙ hit source clock base out node k v d.0 e)
      | inr e ↦ rw e (
          lookup-newer_entries source clock base out k d.1
          ∙ miss source clock base out node k v d.0 e)
    ]

-- The result of DeltaFrom at one key: an entry of the counter is in the delta if the clock's entry at
-- that key is newer than the base's.
pub lookup-delta_from :
    (pos neg clock base : Counts) (k : Text)
    → Distinct clock
    → (lookup (delta_from pos neg clock base).positive k
        ≡ (if is_newer (lookup clock k) (count_at base k) then lookup pos k else none))
      × (lookup (delta_from pos neg clock base).negative k
          ≡ (if is_newer (lookup clock k) (count_at base k) then lookup neg k else none))
unfolding delta_from
lookup-delta_from pos neg clock base k d = (
  rw positive-delta_loop
      (lookup-newer_entries pos clock base [] k d ∙ unfold lookup in ground arith),
  rw negative-delta_loop
      (lookup-newer_entries neg clock base [] k d ∙ unfold lookup in ground arith),
)
