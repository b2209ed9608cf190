-- ===== src/Cluster/Membership/Recovery.antt =====
-- How a member of the table that is not Alive comes back, in runs of its methods.
use distributed_counter.Base.{
  Text, ℕ, ◌≡◌, refl, sym, subst, ◌∙◌, Bool, true, false, ◌&&◌, Option, none, some, List, [], ◌∷◌,
  arith, inl, inr, Bool-cases, Option-cases, GoMap, lookup, text_eq, text_eq_iff, lookup-set,
}
use distributed_counter.Cluster.Member.{
  Status, alive, dead, left, ProtoStatus, status_from_proto, Member, is_alive, set_status,
}
use distributed_counter.Cluster.Membership.{
  Membership, update, refresh, fresh_member, add_or_update_member_status, add_or_update_member,
  add_member, heard_from, update_heartbeat, set_priority, raise_suspicion, suspect_unless_terminal,
  mark_suspect, mark_dead, mark_left, mark_inactive, escalate, stale_member, mark_stale,
  set_recovering, add_discovered_nodes, learn, apply_membership,
}
use distributed_counter.Cluster.Membership.Invariant.{lookup-update}
use distributed_counter.Cluster.Membership.Stale.{lookup-stale_loop}
use distributed_counter.Cluster.Membership.Runs.{
  Event, add, heartbeat, prioritise, suspicion, death, leave, inactivity, staleness, recovery,
  discovery, gossip, step, run,
}

abbrev is_some {ℓ} : {A : Type ℓ} → Option A → Bool
is_some none = false
is_some (some x) = true

-- The calls that report the member Alive: AddOrUpdateMember with Alive, from whomever it comes (its own
-- join or heartbeat, the list of a seed, AddNode), UpdateHeartbeat, and discovery. Gossip is none of them.
abbrev pub reports_alive : Text → Event → Bool
reports_alive id (add j address s t) = text_eq j id && is_alive s
reports_alive id (heartbeat j now) = text_eq j id
reports_alive id (discovery nodes now) = is_some (lookup nodes id)
reports_alive id _ = false

abbrev pub NoneReports : Text → List Event → Type 0
NoneReports id [] = Unit
NoneReports id (e ∷ es) = (reports_alive id e ≡ false) × NoneReports id es

-- In the table, and not Alive.
pub record IsDown (id : Text) (m : Membership) : Type 0 where
  pub member : Member
  pub present : lookup m.members id ≡ some member
  pub down : is_alive member.status ≡ false

update-IsDown :
    (id j : Text) (change : Member → Member) (m : Membership)
    → ((x : Member) → is_alive x.status ≡ false → is_alive (change x).status ≡ false)
    → IsDown id m
    → IsDown id (update j change m)
update-IsDown id j change m keeps d = elim (Bool-cases (text_eq j id)) [
  | inl e ↦ record {
    member = change d.member;
    present = lookup-update j id change m ∙ rw e (rw d.present);
    down = keeps d.member d.down;
  }
  | inr e ↦ record {
    member = d.member;
    present = lookup-update j id change m ∙ rw e d.present;
    down = d.down;
  }
]

update_other-IsDown :
    (id j : Text) (change : Member → Member) (m : Membership)
    → text_eq j id ≡ false
    → IsDown id m
    → IsDown id (update j change m)
update_other-IsDown id j change m ne d = record {
  member = d.member;
  present = lookup-update j id change m ∙ rw ne d.present;
  down = d.down;
}

add-IsDown :
    (id j address : Text) (s : Status) (t : ℕ) (m : Membership)
    → (text_eq j id && is_alive s) ≡ false
    → IsDown id m
    → IsDown id (add_or_update_member_status j address s t m)
unfolding add_or_update_member_status
add-IsDown id j address s t m quiet d = elim (Bool-cases (text_eq j id)) [
  | inl e ↦ record {
    member = refresh address s t d.member;
    present =
        let there =
          subst (λ k. lookup m.members k ≡ some d.member) (sym ((text_eq_iff j id).0 e))
            d.present in
        rw (there, add_or_update_member_status)
          (lookup-set m.members j id (refresh address s t d.member) ∙ rw e);
    down = unfold refresh in ground arith;
  }
  | inr e ↦ record {
    member = d.member;
    present = elim (Option-cases (lookup m.members j)) [
      | inl a ↦
          rw (a, add_or_update_member_status)
            (lookup-set m.members j id (fresh_member j address s t) ∙ rw e d.present)
      | inr (x, a) ↦
          rw (a, add_or_update_member_status)
            (lookup-set m.members j id (refresh address s t x) ∙ rw e d.present)
    ];
    down = d.down;
  }
]

stale_down :
    (id : Text) (m : Membership) (threshold now : ℕ) (x : Member)
    → is_alive x.status ≡ false
    → is_alive (stale_member m.node_id threshold now id x).0.status ≡ false
unfolding stale_member escalate raise_suspicion set_status
stale_down id m threshold now x q = ground arith

discovery-IsDown :
    (id : Text) (nodes : GoMap Text) (now : ℕ) (m : Membership)
    → is_some (lookup nodes id) ≡ false
    → IsDown id m
    → IsDown id (add_discovered_nodes nodes now m)
unfolding add_discovered_nodes lookup
discovery-IsDown id [] now m quiet d = d
discovery-IsDown id ((j, address) ∷ nodes) now m quiet d =
    discovery-IsDown id nodes now _ (ground arith) (elim (Bool-cases (text_eq j m.node_id)) [
      | inl e ↦ rw e d
      | inr e ↦ rw e (
          unfold add_member add_or_update_member in
          add-IsDown id j address alive now m (ground arith) d)
    ])

gossip-IsDown :
    (id : Text) (statuses : GoMap ProtoStatus) (m : Membership)
    → IsDown id m
    → IsDown id (apply_membership statuses m)
unfolding apply_membership
gossip-IsDown id [] m d = d
gossip-IsDown id ((j, s) ∷ statuses) m d =
    gossip-IsDown id statuses _ (elim (Bool-cases (text_eq j m.node_id)) [
      | inl e ↦ rw e d
      | inr e ↦ rw e (
          update-IsDown id j (learn (status_from_proto s)) m
            (λ x q. unfold learn raise_suspicion set_status in ground arith) d)
    ])

step-IsDown :
    (id : Text) (e : Event) (m : Membership)
    → reports_alive id e ≡ false
    → IsDown id m
    → IsDown id (step e m)
unfolding step
step-IsDown id (add j address s t) m quiet d = add-IsDown id j address s t m quiet d
step-IsDown id (heartbeat j now) m quiet d =
    unfold update_heartbeat in update_other-IsDown id j (heard_from now) m quiet d
step-IsDown id (prioritise j priority) m quiet d =
    unfold set_priority in update-IsDown id j (λ x. record x { priority = priority }) m (λ x q. q) d
step-IsDown id (suspicion j) m quiet d =
    unfold mark_suspect in
    update-IsDown id j suspect_unless_terminal m
      (λ x q. unfold suspect_unless_terminal in ground arith) d
step-IsDown id (death j) m quiet d =
    unfold mark_dead in update-IsDown id j (set_status dead) m (λ x q. unfold set_status in refl) d
step-IsDown id (leave j) m quiet d =
    unfold mark_left in update-IsDown id j (set_status left) m (λ x q. unfold set_status in refl) d
step-IsDown id (inactivity j) m quiet d =
    unfold mark_inactive mark_suspect in
    update-IsDown id j suspect_unless_terminal m
      (λ x q. unfold suspect_unless_terminal in ground arith) d
step-IsDown id (staleness threshold now) m quiet d =
    unfold mark_stale in
    record {
      member = (stale_member m.node_id threshold now id d.member).0;
      present = lookup-stale_loop m.node_id threshold now m.members id ∙ rw d.present;
      down = stale_down id m threshold now d.member d.down;
    }
step-IsDown id (recovery b) m quiet d =
    unfold set_recovering in record { member = d.member; present = d.present; down = d.down }
step-IsDown id (discovery nodes now) m quiet d = discovery-IsDown id nodes now m quiet d
step-IsDown id (gossip statuses) m quiet d = gossip-IsDown id statuses m d

-- A member that is Suspect, Dead or Left is still in the table and still not Alive after any sequence of
-- calls, of which none adds or updates it as Alive (as its own join or heartbeat, a seed's list with it as
-- Alive and AddNode do), none is UpdateHeartbeat of it, and none is discovery that names it. Gossip of its
-- being Alive does not bring it back.
pub run-IsDown :
    (id : Text) (es : List Event) (m : Membership)
    → NoneReports id es
    → IsDown id m
    → IsDown id (run es m)
unfolding run
run-IsDown id [] m quiet d = d
run-IsDown id (e ∷ es) m quiet d =
    run-IsDown id es (step e m) quiet.1 (step-IsDown id e m quiet.0 d)
