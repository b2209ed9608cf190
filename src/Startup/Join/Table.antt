-- ===== src/Startup/Join/Table.antt =====
-- What joinCluster of cmd/server/main.go makes of a list of members, such as a seed's table gives.
use mathlib.Core.Option
use distributed_counter.Base.{
  Text, ℕ, ◌*◌, ◌/◌, ◌≡◌, refl, sym, ◌∙◌, ap, Bool, true, false, Option, none, some, [], ◌∷◌, inl,
  inr, if◌then◌else◌, Bool-cases, Option-cases, GoMap, lookup, values, Distinct, AllEntries,
  lookup-set, text_eq, text_eq_iff, lt64, map,
}
use distributed_counter.Cluster.Member.{
  Status, alive, suspect, dead, left, Member, is_alive, set_status, to_proto, status_from_proto,
}
use distributed_counter.Cluster.Membership.{
  Membership, add_or_update_member_status, refresh, fresh_member, set_priority,
}
use distributed_counter.Cluster.Membership.Invariant.{IsFiled, lookup-update}
use distributed_counter.Service.Members.{member_info, second}
use distributed_counter.Startup.Join.{learn_member, learn_members}

-- The member that a report leaves, by what the table had under its id. The instant is cut to seconds.
unfoldable pub learned : Member → Option Member → Member
learned x none = record {
  id = x.id;
  address = x.address;
  status = x.status;
  is_active = is_alive x.status;
  counter_value = 0;
  last_heartbeat = x.last_heartbeat / second * second;
  suspect_count = 0;
  priority = if lt64 0 x.priority then x.priority else 0;
}
learned x (some y) =
    let seen = record y {
      address = x.address;
      last_heartbeat = x.last_heartbeat / second * second;
      priority = if lt64 0 x.priority then x.priority else y.priority;
    } in
    if is_alive x.status
    then record seen { status = alive; is_active = true; suspect_count = 0 }
    else seen

status_round : (s : Status) → status_from_proto (to_proto s) ≡ s
unfolding status_from_proto to_proto
status_round alive = refl
status_round suspect = refl
status_round dead = refl
status_round left = refl

-- The entry after AddOrUpdateMemberStatus.
abbrev pub reported : Text → Text → Status → ℕ → Option Member → Member
reported id address s at none = fresh_member id address s at
reported id address s at (some y) = refresh address s at y

pub lookup-report :
    (id address : Text) (s : Status) (at : ℕ) (m : Membership) (k : Text)
    → lookup (add_or_update_member_status id address s at m).members k ≡ (
        if text_eq id k
        then some (reported id address s at (lookup m.members id))
        else lookup m.members k)
unfolding add_or_update_member_status
lookup-report id address s at m k = elim (Option-cases (lookup m.members id)) [
  | inl e ↦ rw (add_or_update_member_status, e) (lookup-set m.members id k _)
  | inr (y, e) ↦ rw (add_or_update_member_status, e) (lookup-set m.members id k _)
]

-- The entry after SetPriority, where it is called.
abbrev prioritised : Member → Member → Member
prioritised x y = if lt64 0 x.priority then record y { priority = x.priority } else y

prioritised-reported :
    (x : Member) (before : Option Member)
    → prioritised x (reported x.id x.address x.status (x.last_heartbeat / second * second) before)
      ≡ learned x before
unfolding learned fresh_member refresh set_status
prioritised-reported x none = elim (Bool-cases (lt64 0 x.priority)) [
  | inl p ↦ rw p refl
  | inr p ↦ rw p refl
]
prioritised-reported x (some y) = elim (Bool-cases (lt64 0 x.priority)) [
  | inl p ↦ elim (Bool-cases (is_alive x.status)) [
    | inl a ↦ rw (p, a) refl
    | inr a ↦ rw (p, a) refl
  ]
  | inr p ↦ elim (Bool-cases (is_alive x.status)) [
    | inl a ↦ rw (p, a) refl
    | inr a ↦ rw (p, a) refl
  ]
]

map_same : (b : Bool) (o : Option Member) → o ≡ (if b then Option.map (λ y. y) o else o)
map_same true none = refl
map_same true (some y) = refl
map_same false o = refl

lookup-prioritised :
    (x : Member) (m : Membership) (k : Text)
    → lookup (if lt64 0 x.priority then set_priority x.id x.priority m else m).members k ≡ (
        if text_eq x.id k
        then Option.map
            (λ y. if lt64 0 x.priority then record y { priority = x.priority } else y)
            (lookup m.members k)
        else lookup m.members k)
unfolding set_priority
lookup-prioritised x m k = elim (Bool-cases (lt64 0 x.priority)) [
  | inl p ↦ rw p (lookup-update x.id k _ m)
  | inr p ↦ rw p (map_same (text_eq x.id k) (lookup m.members k))
]

lookup-learn_found :
    (x : Member) (s : Status) (at : ℕ) (m : Membership) (k : Text)
    → text_eq x.id k ≡ true
    → lookup (add_or_update_member_status x.id x.address s at m).members k
      ≡ some (reported x.id x.address s at (lookup m.members k))
lookup-learn_found x s at m k e =
    lookup-report x.id x.address s at m k
    ∙ rw e (
        ap (λ i. some (reported x.id x.address s at (lookup m.members i)))
          ((text_eq_iff x.id k).0 e))

-- A member of the list that is learned.
lookup-learn_member :
    (x : Member) (m : Membership) (k : Text)
    → lookup (learn_member (member_info x) m).members k
      ≡ (if text_eq x.id k then some (learned x (lookup m.members k)) else lookup m.members k)
unfolding learn_member member_info
lookup-learn_member x m k =
    let at = x.last_heartbeat / second * second in
    rw (status_round x.status) (
      lookup-prioritised x (add_or_update_member_status x.id x.address x.status at m) k
      ∙ (elim (Bool-cases (text_eq x.id k)) [
        | inl e ↦
            rw (e, lookup-learn_found x x.status at m k e) (ap some (prioritised-reported x _))
        | inr e ↦ rw (e, lookup-report x.id x.address x.status at m k, e) refl
      ]))

-- The entry after a list, by what the list and the table have under the id.
unfoldable pub after_list : Option Member → Option Member → Option Member
after_list none there = there
after_list (some x) there = some (learned x there)

at_key :
    {b c : Bool} (x y : Option Member) {o : Option Member}
    → b ≡ c
    → o ≡ (if b then x else y)
    → o ≡ (if c then x else y)
at_key x y e h = h ∙ ap (λ b. if b then x else y) e

pub lookup-learn_members :
    (k : Text) (es : GoMap Member) (m : Membership)
    → Distinct es
    → AllEntries IsFiled es
    → lookup (learn_members (map member_info (values es)) m).members k
      ≡ after_list (lookup es k) (lookup m.members k)
unfolding learn_members values lookup after_list
lookup-learn_members k [] m d f = refl
lookup-learn_members k ((j, x) ∷ es) m d f =
    let here = at_key _ _ (ap (λ i. text_eq i k) f.0.key) (lookup-learn_member x m k) in
    lookup-learn_members k es (learn_member (member_info x) m) d.1 f.1
    ∙ elim (Bool-cases (text_eq j k)) [
      | inl t ↦ rw t (
          ap (λ o. after_list o (lookup (learn_member (member_info x) m).members k))
            (ap (lookup es) (sym ((text_eq_iff j k).0 t)) ∙ d.0)
          ∙ here
          ∙ rw t refl)
      | inr t ↦ rw t (ap (after_list (lookup es k)) (here ∙ rw t refl))
    ]
