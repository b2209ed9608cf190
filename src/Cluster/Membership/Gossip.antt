-- ===== src/Cluster/Membership/Gossip.antt =====
-- ApplyMembership, the statuses that a peer's gossip carries.
use distributed_counter.Base.{
  Text, ◌<◌, ◌≡◌, ◌≢◌, refl, ◌∙◌, ap, Option, none, some, [], ◌∷◌, arith, inl, inr, if◌then◌else◌,
  Bool-cases, GoMap, lookup, Distinct, text_eq, text_eq_iff, text_eq_refl, text_eq_ne,
}
use distributed_counter.Cluster.Member.{
  alive, suspect, dead, left, ProtoStatus, member_dead, status_from_proto, Member, set_status,
}
use distributed_counter.Cluster.Membership.{
  Membership, update, raise_suspicion, learn, apply_membership,
}
use distributed_counter.Cluster.Membership.Invariant.{lookup-update}

-- What one message does to the member at a key.
abbrev pub hear : Option ProtoStatus → Member → Member
hear none x = x
hear (some s) x = learn (status_from_proto s) x

pub node_id-update :
    (id : Text) (change : Member → Member) (m : Membership)
    → (update id change m).node_id ≡ m.node_id
unfolding update
node_id-update id change m = ground arith

one_report : Text → ProtoStatus → Membership → Membership
one_report id s m = if text_eq id m.node_id then m else update id (learn (status_from_proto s)) m

node_id-one_report :
    (id : Text) (s : ProtoStatus) (m : Membership) → (one_report id s m).node_id ≡ m.node_id
unfolding one_report
node_id-one_report id s m = ground (arith, node_id-update id (learn (status_from_proto s)) m)

lookup-one_report :
    (id j : Text) (s : ProtoStatus) (m : Membership) (x : Member)
    → lookup m.members j ≡ some x
    → lookup (one_report id s m).members j
      ≡ some (
          if text_eq j m.node_id
          then x
          else if text_eq id j
          then learn (status_from_proto s) x
          else x)
unfolding one_report
lookup-one_report id j s m x e = ground (
  arith,
  lookup-update id j (learn (status_from_proto s)) m,
  text_eq_iff id j,
  text_eq_iff id m.node_id,
  text_eq_iff j m.node_id,
)

one_report_absent :
    (id j : Text) (s : ProtoStatus) (m : Membership)
    → lookup m.members j ≡ none
    → lookup (one_report id s m).members j ≡ none
unfolding one_report
one_report_absent id j s m e = ground (arith, lookup-update id j (learn (status_from_proto s)) m)

two_reports :
    (id j : Text) (s : ProtoStatus) (statuses : GoMap ProtoStatus) (node_id : Text) (x : Member)
    → lookup statuses id ≡ none
    → (if text_eq j node_id
        then (if text_eq j node_id
            then x
            else if text_eq id j
            then learn (status_from_proto s) x
            else x)
        else hear (lookup statuses j) (
            if text_eq j node_id
            then x
            else if text_eq id j
            then learn (status_from_proto s) x
            else x))
      ≡ (if text_eq j node_id then x else hear (lookup ((id, s) ∷ statuses) j) x)
unfolding lookup
two_reports id j s statuses node_id x a = elim (Bool-cases (text_eq id j)) [
  | inl e ↦ rw e (rw (← ((text_eq_iff id j).0 e)) (rw a (ground arith)))
  | inr e ↦ rw e (ground arith)
]

-- A message adds no member.
pub apply_membership_absent :
    (statuses : GoMap ProtoStatus) (m : Membership) (j : Text)
    → lookup m.members j ≡ none
    → lookup (apply_membership statuses m).members j ≡ none
unfolding apply_membership one_report
apply_membership_absent [] m j e = e
apply_membership_absent ((id, s) ∷ statuses) m j e =
    apply_membership_absent statuses (one_report id s m) j (one_report_absent id j s m e)

-- A message changes a member as the report on it says, and the receiver's own entry not at all.
pub lookup-apply_membership :
    (statuses : GoMap ProtoStatus) (m : Membership) (j : Text) (x : Member)
    → Distinct statuses
    → lookup m.members j ≡ some x
    → lookup (apply_membership statuses m).members j
      ≡ some (if text_eq j m.node_id then x else hear (lookup statuses j) x)
unfolding apply_membership one_report
lookup-apply_membership [] m j x d e = unfold lookup in ground arith
lookup-apply_membership ((id, s) ∷ statuses) m j x d e =
    let x' =
      if text_eq j m.node_id
      then x
      else if text_eq id j
      then learn (status_from_proto s) x
      else x in
    lookup-apply_membership statuses (one_report id s m) j x' d.1 (lookup-one_report id j s m x e)
    ∙ ap some (rw (node_id-one_report id s m) (two_reports id j s statuses m.node_id x d.0))

-- One message from a peer, whatever it reports: it takes no Alive member straight to Dead, it makes no
-- member Alive that was not, it leaves the receiver's own entry as it was, and it keeps the address,
-- the heartbeat and the priority of every member.
pub gossip_is_cautious :
    (statuses : GoMap ProtoStatus) (m : Membership) (id : Text) (x : Member)
    → Distinct statuses
    → lookup m.members id ≡ some x
    → (y : Member) × (lookup (apply_membership statuses m).members id ≡ some y)
      × (x.status ≡ alive → y.status ≢ dead)
      × (y.status ≡ alive → x.status ≡ alive)
      × (id ≡ m.node_id → y ≡ x)
      × (y.address ≡ x.address)
      × (y.last_heartbeat ≡ x.last_heartbeat)
      × (y.priority ≡ x.priority)
gossip_is_cautious statuses m id x d e = (
  (if text_eq id m.node_id then x else hear (lookup statuses id) x),
  lookup-apply_membership statuses m id x d e,
  λ p q. unfold learn raise_suspicion set_status status_from_proto in ground arith,
  λ p. unfold learn raise_suspicion set_status status_from_proto in ground arith,
  λ p. rw ((text_eq_iff id m.node_id).1 p),
  unfold learn raise_suspicion set_status status_from_proto in ground arith,
  unfold learn raise_suspicion set_status status_from_proto in ground arith,
  unfold learn raise_suspicion set_status status_from_proto in ground arith,
)

abbrev pub death_notice : Text → GoMap ProtoStatus
death_notice id = (id, member_dead) ∷ []

hear_death :
    (m : Membership) (id : Text) (x : Member)
    → lookup m.members id ≡ some x
    → id ≢ m.node_id
    → lookup (apply_membership (death_notice id) m).members id ≡ some (learn dead x)
unfolding lookup
hear_death m id x e ne =
    lookup-apply_membership (death_notice id) m id x (refl, tt) e
    ∙ rw (text_eq_ne id m.node_id ne) (unfold status_from_proto in rw (text_eq_refl id))

node_id-death :
    (m : Membership) (id : Text) → (apply_membership (death_notice id) m).node_id ≡ m.node_id
unfolding apply_membership
node_id-death m id = ground (arith, node_id-update id (learn (status_from_proto member_dead)) m)

-- One source is enough: the same report that a member is Dead, received twice, takes another node's
-- member from Alive through Suspect to Dead.
pub same_report_twice_kills :
    (m : Membership) (id : Text) (x : Member)
    → lookup m.members id ≡ some x
    → id ≢ m.node_id
    → x.status ≡ alive
    → (y z : Member) × (lookup (apply_membership (death_notice id) m).members id ≡ some y)
      × (y.status ≡ suspect)
      × (lookup
            (apply_membership (death_notice id) (apply_membership (death_notice id) m)).members
            id
          ≡ some z)
      × (z.status ≡ dead)
same_report_twice_kills m id x e ne a =
    let e' = hear_death m id x e ne in
    (
      learn dead x,
      learn dead (learn dead x),
      e',
      (unfold learn raise_suspicion set_status in ground arith),
      hear_death (apply_membership (death_notice id) m) id (learn dead x) e'
          (rw (node_id-death m id) ne),
      (unfold learn raise_suspicion set_status in ground arith),
    )

-- Left is not terminal for gossip: a member that has left, and that was suspected before, becomes Dead
-- when a peer reports it Dead.
pub left_becomes_dead :
    (m : Membership) (id : Text) (x : Member)
    → lookup m.members id ≡ some x
    → id ≢ m.node_id
    → x.status ≡ left
    → 0 < x.suspect_count
    → (y : Member) × (lookup (apply_membership (death_notice id) m).members id ≡ some y)
      × (y.status ≡ dead)
left_becomes_dead m id x e ne l c =
    (learn dead x, hear_death m id x e ne, unfold learn set_status in ground arith)
