-- ===== src/Dashboard/Shown.antt =====
-- What BuildClusterView of internal/dashboard/dashboard.go shows under a name.
use mathlib.Core.Option
use distributed_counter.Base.{
  Text, ◌≡◌, ◌⊎◌, refl, sym, ◌∙◌, ap, Bool, true, false, Option, none, some, List, [], ◌∷◌, inl,
  inr, if◌then◌else◌, Bool-cases, Option-cases, GoMap, lookup, set, lookup-set, AllEntries,
  AllEntries-set, AllEntries-lookup, text_eq, text_eq_iff, Int64,
}
use distributed_counter.Crdt.PnCounter.Names.{has, has-sort, sort_strings}
use distributed_counter.Cluster.Membership.{Membership}
use distributed_counter.Service.Listing.{CounterInfo}
use distributed_counter.Dashboard.{
  Polls, NodeView, CounterView, counter_view, local_counters, contributed, merge_counter,
  merge_counters, poll_counters, merge_nodes, names_of, views_of, Local, local_map, node_views,
  self_view, build_cluster_view,
}
use distributed_counter.Dashboard.Asked.{asked, addresses, IsSound, addresses-node_views}
use distributed_counter.Dashboard.Values.{
  observed, greatest, value_at, value_at-merge_nodes, IsGreatest, greatest-IsGreatest,
}

-- The value of the last entry of a name, or else a given one.
abbrev pub last_value : Text → Option Int64 → List CounterInfo → Option Int64
last_value name before [] = before
last_value name before (ci ∷ cis) =
    last_value name (if text_eq ci.name name then some ci.current_value else before) cis

-- What the local service reports under a name.
abbrev pub local_value : Text → Option Local → Option Int64
local_value name none = none
local_value name (some (info, cis)) = last_value name none cis

-- What a list of views shows under a name.
abbrev pub shown_value : Text → List CounterView → Option Int64
shown_value name [] = none
shown_value name (c ∷ cs) = if text_eq c.name name then some c.value else shown_value name cs

map-if :
    (b : Bool) (c : CounterView) (o : Option CounterView)
    → Option.map (λ (x : CounterView). x.value) (if b then some c else o)
      ≡ (if b then some c.value else Option.map (λ (x : CounterView). x.value) o)
map-if true c o = refl
map-if false c o = refl

value_at-set :
    (agg : GoMap CounterView) (k name : Text) (c : CounterView)
    → value_at (set agg k c) name ≡ (if text_eq k name then some c.value else value_at agg name)
value_at-set agg k name c =
    ap (Option.map (λ (x : CounterView). x.value)) (lookup-set agg k name c)
    ∙ map-if (text_eq k name) c (lookup agg name)

value_at-local_counters :
    (name : Text) (cis : List CounterInfo) (agg : GoMap CounterView)
    → value_at (local_counters agg cis) name ≡ last_value name (value_at agg name) cis
unfolding local_counters counter_view
value_at-local_counters name [] agg = refl
value_at-local_counters name (ci ∷ cis) agg =
    value_at-local_counters name cis (set agg ci.name (counter_view ci))
    ∙ ap (λ o. last_value name o cis) (value_at-set agg ci.name name (counter_view ci))

value_at-local_map :
    (name : Text) (service : Option Local)
    → value_at (local_map service) name ≡ local_value name service
unfolding lookup
value_at-local_map name none = refl
value_at-local_map name (some (info, cis)) = value_at-local_counters name cis []

-- Each view is filed under its own name.
abbrev IsNamed : Text → CounterView → Type 0
IsNamed name c = c.name ≡ name

local_counters-IsNamed :
    (cis : List CounterInfo) (agg : GoMap CounterView)
    → AllEntries IsNamed agg
    → AllEntries IsNamed (local_counters agg cis)
unfolding local_counters counter_view
local_counters-IsNamed [] agg h = h
local_counters-IsNamed (ci ∷ cis) agg h =
    local_counters-IsNamed cis _ (AllEntries-set IsNamed agg ci.name (counter_view ci) h refl)

merge_counter-IsNamed :
    (node_id : Text) (ci : CounterInfo) (agg : GoMap CounterView)
    → AllEntries IsNamed agg
    → AllEntries IsNamed (merge_counter node_id ci agg)
unfolding merge_counter contributed
merge_counter-IsNamed node_id ci agg h = elim (Option-cases (lookup agg ci.name)) [
  | inl e ↦ rw (merge_counter, e) h
  | inr (c, e) ↦
      rw (merge_counter, e)
        (AllEntries-set IsNamed agg ci.name (contributed node_id ci.current_value c) h
          (AllEntries-lookup IsNamed agg ci.name h e))
]

merge_counters-IsNamed :
    (node_id : Text) (cis : List CounterInfo) (agg : GoMap CounterView)
    → AllEntries IsNamed agg
    → AllEntries IsNamed (merge_counters node_id cis agg)
unfolding merge_counters
merge_counters-IsNamed node_id [] agg h = h
merge_counters-IsNamed node_id (ci ∷ cis) agg h =
    merge_counters-IsNamed node_id cis _ (merge_counter-IsNamed node_id ci agg h)

merge_nodes-IsNamed :
    (polls : Polls) (nodes : List NodeView) (agg : GoMap CounterView)
    → AllEntries IsNamed agg
    → AllEntries IsNamed (merge_nodes polls nodes agg)
unfolding merge_nodes
merge_nodes-IsNamed polls [] agg h = h
merge_nodes-IsNamed polls (nv ∷ nodes) agg h =
    elim (Option-cases (poll_counters polls nv.address)) [
      | inl e ↦ rw (merge_nodes, e) (merge_nodes-IsNamed polls nodes agg h)
      | inr (cis, e) ↦
          rw (merge_nodes, e)
            (merge_nodes-IsNamed polls nodes _ (merge_counters-IsNamed nv.node_id cis agg h))
    ]

local_map-IsNamed : (service : Option Local) → AllEntries IsNamed (local_map service)
local_map-IsNamed none = tt
local_map-IsNamed (some (info, cis)) = local_counters-IsNamed cis [] tt

-- The names of a map are the keys that it finds.
abbrev is_found {ℓ} : {A : Type ℓ} → Option A → Bool
is_found none = false
is_found (some x) = true

has-names_of :
    (name : Text) (agg : GoMap CounterView) → has name (names_of agg) ≡ is_found (lookup agg name)
unfolding names_of lookup
has-names_of name [] = refl
has-names_of name ((k, c) ∷ agg) = elim (Bool-cases (text_eq k name)) [
  | inl t ↦ rw t refl
  | inr f ↦ rw f (has-names_of name agg)
]

if_none : (b : Bool) (o : Option Int64) → o ≡ none → (if b then o else none) ≡ none
if_none true o e = e
if_none false o e = refl

shown_value-views_of :
    (name : Text) (agg : GoMap CounterView) (ns : List Text)
    → AllEntries IsNamed agg
    → shown_value name (views_of agg ns) ≡ (if has name ns then value_at agg name else none)
unfolding views_of
shown_value-views_of name agg [] h = refl
shown_value-views_of name agg (n ∷ ns) h =
    let rest = shown_value-views_of name agg ns h in
    elim (Option-cases (lookup agg n)) [
      | inl e ↦ elim (Bool-cases (text_eq n name)) [
        | inl t ↦
            let gone : value_at agg name ≡ none =
              ap (Option.map (λ (c : CounterView). c.value))
                (ap (lookup agg) (sym ((text_eq_iff n name).0 t)) ∙ e) in
            rw (views_of, e, t) (rest ∙ if_none (has name ns) (value_at agg name) gone ∙ sym gone)
        | inr f ↦ rw (views_of, e, f) rest
      ]
      | inr (c, e) ↦
          rw (views_of, e, AllEntries-lookup IsNamed agg n h e)
            (elim (Bool-cases (text_eq n name)) [
              | inl t ↦
                  let there : value_at agg name ≡ some c.value =
                    ap (Option.map (λ (x : CounterView). x.value))
                      (ap (lookup agg) (sym ((text_eq_iff n name).0 t)) ∙ e) in
                  rw t (sym there)
              | inr f ↦ rw f rest
            ])
    ]

when_found :
    (o : Option CounterView)
    → (if is_found o then Option.map (λ (c : CounterView). c.value) o else none)
      ≡ Option.map (λ (c : CounterView). c.value) o
when_found none = refl
when_found (some c) = refl

shown_value-all :
    (name : Text) (agg : GoMap CounterView)
    → AllEntries IsNamed agg
    → shown_value name (views_of agg (sort_strings (names_of agg))) ≡ value_at agg name
shown_value-all name agg h =
    shown_value-views_of name agg (sort_strings (names_of agg)) h
    ∙ rw (has-sort name (names_of agg), has-names_of name agg) (when_found (lookup agg name))

-- The cases of a value that is raised to the greatest.
raised :
    (o : Option Int64) (p : Option Int64) (ws : List Int64)
    → p ≡ Option.map (λ v. greatest v ws) o
    → ((o ≡ none) × (p ≡ none))
      ⊎ ((v : Int64) × (v' : Int64) × (o ≡ some v) × (p ≡ some v') × IsGreatest v' (v ∷ ws))
raised none p ws e = inl (refl, e)
raised (some v) p ws e = inr (v, greatest v ws, refl, e, greatest-IsGreatest v ws)

-- In a view of a valid table, or of none, what is shown under a name is nothing, where the local service
-- does not list it, whatever the other nodes report; otherwise it is the greatest, in the signed order, of
-- the local value and of all that the nodes of the view which answer report. The view has a node for each
-- member of the table, in order, and asks it at the address that it answers to GetNodeInfo (the node itself:
-- that its own service says), or else, where this is empty or there is no answer, at that of the table.
pub build_cluster_view-shows_highest :
    (polls : Polls) (own : Text) (membership : Option Membership) (service : Option Local)
    (name : Text)
    → IsSound membership
    → let view = build_cluster_view polls own membership service in
      (addresses view.nodes ≡ asked polls own membership service)
      × (((local_value name service ≡ none) × (shown_value name view.counters ≡ none))
          ⊎ ((v : Int64) × (v' : Int64) × (local_value name service ≡ some v)
              × (shown_value name view.counters ≡ some v')
              × IsGreatest v' (v ∷ observed polls name view.nodes)))
unfolding build_cluster_view
build_cluster_view-shows_highest polls own membership service name sound =
    let nodes = (node_views polls own membership (self_view service)).0 in
    let agg = merge_nodes polls nodes (local_map service) in
    (
      addresses-node_views polls own membership service sound,
      raised (local_value name service) _ (observed polls name nodes) (
          shown_value-all name agg (merge_nodes-IsNamed polls nodes _ (local_map-IsNamed service))
          ∙ value_at-merge_nodes polls name nodes (local_map service)
          ∙ ap (Option.map (λ v. greatest v (observed polls name nodes)))
              (value_at-local_map name service)),
    )
