-- ===== src/Dashboard/Values.antt =====
-- The values of the counters that internal/dashboard/dashboard.go shows.
use mathlib.Core.Option
use distributed_counter.Base.{
  Text, ◌≤◌, ◌≡◌, ◌⊎◌, refl, sym, ◌∙◌, ap, Bool, true, false, Option, none, some, List, [], ◌∷◌,
  ◌++◌, arith, inl, inr, if◌then◌else◌, Bool-cases, Option-cases, GoMap, lookup, set, lookup-set,
  text_eq, text_eq_iff, Int64, lt64, key64, ◌==◌, ◌||◌,
}
use distributed_counter.Service.Listing.{CounterInfo}
use distributed_counter.Dashboard.{
  Polls, NodeView, CounterView, contributed, merge_counter, merge_counters, poll_counters,
  merge_nodes,
}

-- What a node reports under a name.
abbrev pub reported : Text → List CounterInfo → List Int64
reported name [] = []
reported name (ci ∷ cis) =
    let rest = reported name cis in if text_eq ci.name name then ci.current_value ∷ rest else rest

-- The answer of a node, which has to have an address.
abbrev pub answer_of : Polls → Text → Option (List CounterInfo)
answer_of polls address = if text_eq address [] then none else polls.counters address

-- What the nodes that answer report under a name.
abbrev pub observed : Polls → Text → List NodeView → List Int64
observed polls name [] = []
observed polls name (nv ∷ nodes) =
    let rest = observed polls name nodes in
    elim (answer_of polls nv.address) [ none ↦ rest | some cis ↦ reported name cis ++ rest ]

abbrev greater : Int64 → Int64 → Int64
greater v w = if lt64 v w then w else v

abbrev pub greatest : Int64 → List Int64 → Int64
greatest v [] = v
greatest v (w ∷ ws) = greatest (greater v w) ws

greatest-append :
    (v : Int64) (us ws : List Int64) → greatest v (us ++ ws) ≡ greatest (greatest v us) ws
greatest-append v [] ws = refl
greatest-append v (u ∷ us) ws = greatest-append (greater v u) us ws

abbrev pub value_at : GoMap CounterView → Text → Option Int64
value_at agg name = Option.map (λ (c : CounterView). c.value) (lookup agg name)

map-map :
    (f g : Int64 → Int64) (o : Option Int64)
    → Option.map g (Option.map f o) ≡ Option.map (λ v. g (f v)) o
map-map f g none = refl
map-map f g (some v) = refl

map-id : (o : Option Int64) → Option.map (λ v. v) o ≡ o
map-id none = refl
map-id (some v) = refl

value_at-merge_counter :
    (node_id name : Text) (ci : CounterInfo) (agg : GoMap CounterView)
    → value_at (merge_counter node_id ci agg) name ≡ (
        if text_eq ci.name name
        then Option.map (λ v. greater v ci.current_value) (value_at agg name)
        else value_at agg name)
unfolding merge_counter contributed
value_at-merge_counter node_id name ci agg = elim (Bool-cases (text_eq ci.name name)) [
  | inl t ↦
      let same : lookup agg name ≡ lookup agg ci.name =
        ap (lookup agg) (sym ((text_eq_iff ci.name name).0 t)) in
      rw t (elim (Option-cases (lookup agg ci.name)) [
        | inl e ↦ rw (merge_counter, e, same ∙ e) refl
        | inr (c, e) ↦
            let there : lookup (set agg ci.name (contributed node_id ci.current_value c)) name
                ≡ some (contributed node_id ci.current_value c) =
              lookup-set agg ci.name name _ ∙ rw t refl in
            rw (merge_counter, e, there, same ∙ e) refl
      ])
  | inr f ↦ rw f (elim (Option-cases (lookup agg ci.name)) [
    | inl e ↦ rw (merge_counter, e) refl
    | inr (c, e) ↦
        let there : lookup (set agg ci.name (contributed node_id ci.current_value c)) name
            ≡ lookup agg name =
          lookup-set agg ci.name name _ ∙ rw f refl in
        rw (merge_counter, e, there) refl
  ])
]

value_at-merge_counters :
    (node_id name : Text) (cis : List CounterInfo) (agg : GoMap CounterView)
    → value_at (merge_counters node_id cis agg) name
      ≡ Option.map (λ v. greatest v (reported name cis)) (value_at agg name)
unfolding merge_counters
value_at-merge_counters node_id name [] agg = sym (map-id (value_at agg name))
value_at-merge_counters node_id name (ci ∷ cis) agg =
    value_at-merge_counters node_id name cis (merge_counter node_id ci agg)
    ∙ elim (Bool-cases (text_eq ci.name name)) [
      | inl t ↦ rw t (
          ap (Option.map (λ v. greatest v (reported name cis)))
            (value_at-merge_counter node_id name ci agg ∙ rw t refl)
          ∙ map-map (λ v. greater v ci.current_value) (λ v. greatest v (reported name cis))
              (value_at agg name))
      | inr f ↦ rw f (
          ap (Option.map (λ v. greatest v (reported name cis)))
            (value_at-merge_counter node_id name ci agg ∙ rw f refl))
    ]

regroup :
    (us ws : List Int64) (o : Option Int64)
    → Option.map (λ v. greatest v ws) (Option.map (λ v. greatest v us) o)
      ≡ Option.map (λ v. greatest v (us ++ ws)) o
regroup us ws none = refl
regroup us ws (some v) = ap some (sym (greatest-append v us ws))

pub value_at-merge_nodes :
    (polls : Polls) (name : Text) (nodes : List NodeView) (agg : GoMap CounterView)
    → value_at (merge_nodes polls nodes agg) name
      ≡ Option.map (λ v. greatest v (observed polls name nodes)) (value_at agg name)
unfolding merge_nodes poll_counters
value_at-merge_nodes polls name [] agg = sym (map-id (value_at agg name))
value_at-merge_nodes polls name (nv ∷ nodes) agg =
    elim (Option-cases (poll_counters polls nv.address)) [
      | inl e ↦ rw (merge_nodes, observed, e) (value_at-merge_nodes polls name nodes agg)
      | inr (cis, e) ↦
          rw (merge_nodes, observed, e)
            (value_at-merge_nodes polls name nodes (merge_counters nv.node_id cis agg)
              ∙ ap (Option.map (λ v. greatest v (observed polls name nodes)))
                  (value_at-merge_counters nv.node_id name cis agg)
              ∙ regroup (reported name cis) (observed polls name nodes) (value_at agg name))
    ]

abbrev pub is_among : Int64 → List Int64 → Bool
is_among v [] = false
is_among v (w ∷ ws) = v == w || is_among v ws

-- No value of the list is above, in the signed order.
abbrev pub AllBelow : Int64 → List Int64 → Type 0
AllBelow v [] = Unit
AllBelow v (w ∷ ws) = (key64 w ≤ key64 v) × AllBelow v ws

pub record IsGreatest (v : Int64) (vs : List Int64) : Type 0 where
  pub among : is_among v vs ≡ true
  pub above : AllBelow v vs

greater_ge : (v w : Int64) → (key64 v ≤ key64 (greater v w)) × (key64 w ≤ key64 (greater v w))
unfolding lt64
greater_ge v w = elim (Bool-cases (lt64 v w)) [
  | inl e ↦ rw e ((ground (arith, e), omega arith))
  | inr e ↦ rw e ((omega arith, ground (arith, e)))
]

greater_among : (v w : Int64) → (greater v w ≡ v) ⊎ (greater v w ≡ w)
greater_among v w = elim (Bool-cases (lt64 v w)) [
  | inl e ↦ rw e (inr refl)
  | inr e ↦ rw e (inl refl)
]

greatest-ge : (v : Int64) (ws : List Int64) → key64 v ≤ key64 (greatest v ws)
greatest-ge v [] = omega arith
greatest-ge v (w ∷ ws) = ground (arith, greatest-ge (greater v w) ws, greater_ge v w)

greatest-above : (v : Int64) (ws : List Int64) → AllBelow (greatest v ws) ws
greatest-above v [] = tt
greatest-above v (w ∷ ws) = (
  omega (arith, greatest-ge (greater v w) ws, (greater_ge v w).1),
  greatest-above (greater v w) ws,
)

greatest-among : (v : Int64) (ws : List Int64) → is_among (greatest v ws) (v ∷ ws) ≡ true
greatest-among v [] = ground arith
greatest-among v (w ∷ ws) = ground (arith, greatest-among (greater v w) ws, greater_among v w)

pub greatest-IsGreatest : (v : Int64) (ws : List Int64) → IsGreatest (greatest v ws) (v ∷ ws)
greatest-IsGreatest v ws = record {
  among = greatest-among v ws;
  above = (greatest-ge v ws, greatest-above v ws);
}
