-- ===== src/Startup/Pings/Pinged.antt =====
-- What a tick of the heartbeat loop of cmd/server/main.go does to each member.
use mathlib.Core.Option
use distributed_counter.Base.{
  Text, ℕ, ◌+◌, ◌≡◌, ◌⊎◌, true, false, refl, sym, ◌∙◌, ap, Bool, Option, none, some, [], ◌∷◌, arith,
  inl, inr, if◌then◌else◌, Bool-cases, GoMap, lookup, values, Distinct, AllEntries, text_eq,
  text_eq_iff, text_eq_refl,
}
use distributed_counter.Cluster.Member.{Status, alive, suspect, dead, left, Member, set_status}
use distributed_counter.Cluster.Membership.{
  Membership, update, update_heartbeat, mark_inactive, mark_suspect, heard_from, raise_suspicion,
  suspect_unless_terminal, get_members,
}
use distributed_counter.Cluster.Membership.Invariant.{IsValid, IsFiled, lookup-update}
use distributed_counter.Startup.Pings.{is_self, ping_member, pings_loop, send_heartbeats}

status_cases : (s : Status) → (s ≡ alive) ⊎ ((s ≡ suspect) ⊎ ((s ≡ dead) ⊎ (s ≡ left)))
status_cases alive = inl refl
status_cases suspect = inr (inl refl)
status_cases dead = inr (inr (inl refl))
status_cases left = inr (inr (inr refl))

unchanged :
    (k j : Text) (x : Member) (m : Membership)
    → lookup m.members j ≡ some x
    → lookup m.members k ≡ (if text_eq j k then some x else lookup m.members k)
unchanged k j x m h = ground (arith, text_eq_iff j k)

changed :
    (k i j : Text) (x : Member) (m : Membership) (change : Member → Member)
    → i ≡ j
    → lookup m.members j ≡ some x
    → lookup (update i change m).members k
      ≡ (if text_eq j k then some (change x) else lookup m.members k)
changed k i j x m change f h =
    lookup-update i k change m
    ∙ rw f (elim (Bool-cases (text_eq j k)) [
      | inl e ↦
          rw e (ap (Option.map change) (ap (lookup m.members) (sym ((text_eq_iff j k).0 e)) ∙ h))
      | inr e ↦ rw e refl
    ])

module _ (acks : Member → Bool) (now : Text → ℕ) (node_id local_address : Text) where
  -- A member after a ping that is answered.
  abbrev pub answered : Member → Member
  answered x = record x {
    status = alive;
    is_active = true;
    last_heartbeat = now x.id;
    suspect_count = 0;
  }

  -- A member, by its status, after a ping that is not answered.
  abbrev pub unanswered : Status → Member → Member
  unanswered alive x = record x {
    status = suspect;
    is_active = false;
    suspect_count = x.suspect_count + 1;
  }
  unanswered suspect x = record x {
    status = suspect;
    is_active = false;
    suspect_count = x.suspect_count + 1;
  }
  unanswered dead x = x
  unanswered left x = x

  -- A member after the tick: as it was, where it has the node's id or address.
  unfoldable pub pinged : Member → Member
  pinged x =
      if text_eq x.id node_id
      then x
      else if text_eq x.address local_address
      then x
      else if acks x
      then answered x
      else unanswered x.status x

  -- The same by the operations of the code.
  abbrev after_ping : Member → Member
  after_ping x =
      if is_self node_id local_address x
      then x
      else if acks x
      then heard_from (now x.id) x
      else suspect_unless_terminal x

  suspect-unanswered : (x : Member) → suspect_unless_terminal x ≡ unanswered x.status x
  unfolding suspect_unless_terminal raise_suspicion set_status
  suspect-unanswered x = elim (status_cases x.status) [
    | inl e ↦ rw e refl
    | inr (inl e) ↦ rw e refl
    | inr (inr (inl e)) ↦ rw e refl
    | inr (inr (inr e)) ↦ rw e refl
  ]

  after_ping-pinged : (x : Member) → after_ping x ≡ pinged x
  unfolding pinged is_self heard_from set_status
  after_ping-pinged x = elim (Bool-cases (text_eq x.id node_id)) [
    | inl i ↦ rw i refl
    | inr i ↦ elim (Bool-cases (text_eq x.address local_address)) [
      | inl a ↦ rw (i, a) refl
      | inr a ↦ elim (Bool-cases (acks x)) [
        | inl h ↦ rw (i, a, h) refl
        | inr h ↦ rw (i, a, h) (suspect-unanswered x)
      ]
    ]
  ]

  abbrev pinged_to : Member → Membership → Membership
  pinged_to x m = if is_self node_id local_address x then m else ping_member acks now x m

  lookup-pinged_to :
      (k j : Text) (x : Member) (m : Membership)
      → x.id ≡ j
      → lookup m.members j ≡ some x
      → lookup (pinged_to x m).members k
        ≡ (if text_eq j k then some (after_ping x) else lookup m.members k)
  unfolding ping_member update_heartbeat mark_inactive mark_suspect
  lookup-pinged_to k j x m f h = elim (Bool-cases (is_self node_id local_address x)) [
    | inl e ↦ rw e (unchanged k j x m h)
    | inr e ↦ elim (Bool-cases (acks x)) [
      | inl a ↦ rw (e, a) (changed k x.id j x m (heard_from (now x.id)) f h)
      | inr a ↦ rw (e, a) (changed k x.id j x m suspect_unless_terminal f h)
    ]
  ]

  -- What the loop leaves of a member: its copy after the ping, where the list has it.
  abbrev after : Option Member → Option Member → Option Member
  after none there = there
  after (some x) there = some (after_ping x)

  lookup-pings_loop :
      (k : Text) (es : GoMap Member) (m : Membership)
      → Distinct es
      → AllEntries IsFiled es
      → ((j : Text) (x : Member) → lookup es j ≡ some x → lookup m.members j ≡ some x)
      → lookup (pings_loop acks now node_id local_address (values es) m).members k
        ≡ after (lookup es k) (lookup m.members k)
  unfolding pings_loop values lookup
  lookup-pings_loop k [] m d f h = refl
  lookup-pings_loop k ((j, x) ∷ es) m d f h =
      let here =
        λ (i : Text). lookup-pinged_to i j x m f.0.key (h j x (rw (text_eq_refl j) refl)) in
      let rest = lookup-pings_loop k es (pinged_to x m) d.1 f.1 (λ i y e.
        elim (Bool-cases (text_eq j i)) [
          | inl t ↦ absurd (cc (d.0, (text_eq_iff j i).0 t, e))
          | inr t ↦ here i ∙ rw t (h i y (rw t e))
        ]) in
      rest ∙ elim (Bool-cases (text_eq j k)) [
        | inl t ↦ rw t (
            ap (λ o. after o (lookup (pinged_to x m).members k))
              (ap (lookup es) (sym ((text_eq_iff j k).0 t)) ∙ d.0)
            ∙ here k
            ∙ rw t refl)
        | inr t ↦ rw t (ap (after (lookup es k)) (here k ∙ rw t refl))
      ]

  after_all : (o : Option Member) → after o o ≡ Option.map pinged o
  after_all none = refl
  after_all (some x) = ap some (after_ping-pinged x)

  -- A tick of the heartbeat loop, on a table in order: every member that has neither the node's id nor its
  -- address, whatever its status, becomes Alive, active and unsuspected, heard from at the answer, where its
  -- ping is answered; otherwise it becomes Suspect and inactive with a further suspicion, or stays as it is,
  -- where it is Dead or has left. All other entries stay, and nothing is added.
  pub send_heartbeats-pings_each :
      (m : Membership) (k : Text)
      → IsValid m
      → lookup (send_heartbeats acks now node_id local_address m).members k
        ≡ Option.map pinged (lookup m.members k)
  unfolding send_heartbeats get_members
  send_heartbeats-pings_each m k v =
      lookup-pings_loop k m.members m v.distinct v.filed (λ j x e. e)
      ∙ after_all (lookup m.members k)
