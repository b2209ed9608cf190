-- ===== src/Dashboard/Asked.antt =====
-- The nodes that BuildClusterView of internal/dashboard/dashboard.go asks for their counters.
use mathlib.Core.Option
use distributed_counter.Base.{
  Text, ◌≡◌, refl, sym, ◌∙◌, ap, Bool, true, false, Option, none, some, List, [], ◌∷◌, inl, inr,
  if◌then◌else◌, Bool-cases, GoMap, lookup, values, Distinct, AllEntries, text_eq, text_eq_iff,
  text_eq_refl,
}
use distributed_counter.Cluster.Member.{Member}
use distributed_counter.Cluster.Membership.{Membership, get_members, get_member}
use distributed_counter.Cluster.Membership.Invariant.{IsValid, IsFiled}
use distributed_counter.Dashboard.{
  NodeInfo, NodeView, Polls, node_view_from_info, unreachable_view, fill_in, poll_node,
  or_unreachable, nodes_loop, Local, self_view, node_views,
}

-- An address that is given and not empty, or else another one.
abbrev pub or_else : Option Text → Text → Text
or_else none address = address
or_else (some given) address = if text_eq given [] then address else given

-- The address that a member is asked at for its counters: what it answers to GetNodeInfo (for the node itself,
-- what its own service says), or else the address of the member table.
abbrev pub asked_address : Polls → Text → Option Text → Member → Text
asked_address polls own self member =
    or_else
      (if text_eq member.id own
        then self
        else Option.map (λ (i : NodeInfo). i.address) (polls.info member.address))
      member.address

-- The addresses of a list of members; the node's own view takes the address that it is given here.
abbrev pub asked_list : Polls → Text → Option Text → List Member → List Text
asked_list polls own self [] = []
asked_list polls own self (member ∷ members) =
    let here = asked_address polls own self member in
    here
    ∷ asked_list polls own (if text_eq member.id own then Option.map (λ a. here) self else self)
        members

abbrev pub asked : Polls → Text → Option Membership → Option Local → List Text
asked polls own none service = []
asked polls own (some m) service =
    asked_list polls own (Option.map (λ (l : Local). l.0.address) service) (get_members m)

abbrev pub addresses : List NodeView → List Text
addresses [] = []
addresses (nv ∷ nodes) = nv.address ∷ addresses nodes

abbrev address_of : Option NodeView → Option Text
address_of none = none
address_of (some nv) = some nv.address

same_branch : (b : Bool) (a : Text) → (if b then a else a) ≡ a
same_branch true a = refl
same_branch false a = refl

or_unreachable-address :
    (member : Member) (nv : Option NodeView)
    → (or_unreachable member nv).address ≡ or_else (address_of nv) member.address
unfolding fill_in unreachable_view
or_unreachable-address member none = same_branch (text_eq member.address []) member.address
or_unreachable-address member (some nv) = refl

view-address :
    (o : Option NodeInfo)
    → address_of (Option.map (node_view_from_info true) o)
      ≡ Option.map (λ (i : NodeInfo). i.address) o
unfolding node_view_from_info
view-address none = refl
view-address (some i) = refl

poll_node-address :
    (polls : Polls) (m : Membership) (x : Member)
    → lookup m.members x.id ≡ some x
    → address_of (poll_node polls x.id m)
      ≡ Option.map (λ (i : NodeInfo). i.address) (polls.info x.address)
unfolding poll_node get_member
poll_node-address polls m x h = rw (poll_node, h) (view-address (polls.info x.address))

fill_in_self :
    (b : Bool) (member : Member) (self : Option NodeView) (here : Text)
    → (b ≡ true → here ≡ or_else (address_of self) member.address)
    → address_of (if b then Option.map (fill_in member) self else self)
      ≡ (if b then Option.map (λ a. here) (address_of self) else address_of self)
unfolding fill_in
fill_in_self true member none here h = refl
fill_in_self true member (some nv) here h = ap some (sym (h refl))
fill_in_self false member self here h = refl

own_or_polled :
    (b : Bool) (self nv : Option NodeView) (o : Option Text)
    → address_of nv ≡ o
    → address_of (if b then self else nv) ≡ (if b then address_of self else o)
own_or_polled true self nv o h = refl
own_or_polled false self nv o h = h

addresses-nodes_loop :
    (polls : Polls) (own : Text) (m : Membership) (es : GoMap Member) (self : Option NodeView)
    → Distinct es
    → AllEntries IsFiled es
    → ((j : Text) (x : Member) → lookup es j ≡ some x → lookup m.members j ≡ some x)
    → addresses (nodes_loop polls own m (values es) self).0
      ≡ asked_list polls own (address_of self) (values es)
unfolding nodes_loop values lookup
addresses-nodes_loop polls own m [] self d f h = refl
addresses-nodes_loop polls own m ((j, x) ∷ es) self d f h =
    let b = text_eq x.id own in
    let at = asked_address polls own (address_of self) x in
    let there : lookup m.members x.id ≡ some x =
      ap (lookup m.members) f.0.key ∙ h j x (rw (text_eq_refl j) refl) in
    let here =
      or_unreachable-address x (if b then self else poll_node polls x.id m)
      ∙ ap (λ o. or_else o x.address)
          (own_or_polled b self (poll_node polls x.id m) _ (poll_node-address polls m x there)) in
    let rest =
      addresses-nodes_loop polls own m es (if b then Option.map (fill_in x) self else self) d.1 f.1
        (λ i y e. elim (Bool-cases (text_eq j i)) [
          | inl t ↦ absurd (cc (d.0, (text_eq_iff j i).0 t, e))
          | inr t ↦ h i y (rw t e)
        ])
      ∙ ap (λ o. asked_list polls own o (values es)) (fill_in_self b x self at (λ e. rw e refl)) in
    ap
      (λ a.
        a
        ∷ addresses
            (nodes_loop polls own m (values es)
              (if b then Option.map (fill_in x) self else self)).0)
      here
    ∙ ap (λ l. at ∷ l) rest

abbrev pub IsSound : Option Membership → Type 0
IsSound none = Unit
IsSound (some m) = IsValid m

self-address :
    (service : Option Local)
    → address_of (self_view service) ≡ Option.map (λ (l : Local). l.0.address) service
unfolding node_view_from_info
self-address none = refl
self-address (some (info, cis)) = refl

pub addresses-node_views :
    (polls : Polls) (own : Text) (membership : Option Membership) (service : Option Local)
    → IsSound membership
    → addresses (node_views polls own membership (self_view service)).0
      ≡ asked polls own membership service
unfolding get_members
addresses-node_views polls own none service v = refl
addresses-node_views polls own (some m) service v =
    addresses-nodes_loop polls own m m.members (self_view service) v.distinct v.filed (λ j x e. e)
    ∙ ap (λ o. asked_list polls own o (values m.members)) (self-address service)
