-- ===== src/Service/Members/Heartbeats.antt =====
-- What Heartbeat does to the member table.
use distributed_counter.Base.{
  Text, ℕ, ◌*◌, ◌≡◌, refl, ◌∙◌, true, false, Option, some, Bool-cases, Option-cases, inl, inr,
  lookup, set, lookup-set, text_eq, text_eq_refl, lt64, Int64,
}
use distributed_counter.Cluster.Member.{alive, Member, set_status}
use distributed_counter.Cluster.Membership.{
  Membership, add_or_update_member, add_or_update_member_status, refresh, fresh_member,
  set_priority,
}
use distributed_counter.Cluster.Membership.Invariant.{lookup-update}
use distributed_counter.Service.Members.{HeartbeatRequest, remote_address, take_heartbeat, second}

-- The member after an Alive report at an instant.
pub record IsRevived (address : Text) (at : ℕ) (x : Member) : Type 0 where
  pub address_is : x.address ≡ address
  pub at_is : x.last_heartbeat ≡ at
  pub status_is : x.status ≡ alive
  pub active_is : x.is_active ≡ true
  pub unsuspected : x.suspect_count ≡ 0

-- The sender is revived, and every other entry is as it was.
pub record OnlyRevives (id address : Text) (at : ℕ) (m m' : Membership) : Type 0 where
  pub sender : Member
  pub present : lookup m'.members id ≡ some sender
  pub revived : IsRevived address at sender
  pub others : (j : Text) → text_eq id j ≡ false → lookup m'.members j ≡ lookup m.members j

set-lookup_same :
    (m : Membership) (id : Text) (x : Member) → lookup (set m.members id x) id ≡ some x
set-lookup_same m id x = lookup-set m.members id id x ∙ rw (text_eq_refl id) refl

set-lookup_other :
    (m : Membership) (id j : Text) (x : Member)
    → text_eq id j ≡ false
    → lookup (set m.members id x) j ≡ lookup m.members j
set-lookup_other m id j x e = lookup-set m.members id j x ∙ rw e refl

report-OnlyRevives :
    (id address : Text) (at : ℕ) (m : Membership)
    → OnlyRevives id address at m (add_or_update_member id address true at m)
unfolding add_or_update_member add_or_update_member_status refresh fresh_member set_status
report-OnlyRevives id address at m = elim (Option-cases (lookup m.members id)) [
  | inl e ↦
      rw (add_or_update_member, add_or_update_member_status, e)
        (record {
          sender = fresh_member id address alive at;
          present = set-lookup_same m id _;
          revived = record {
            address_is = refl;
            at_is = refl;
            status_is = refl;
            active_is = refl;
            unsuspected = refl;
          };
          others = λ j ne. set-lookup_other m id j _ ne;
        })
  | inr (x, e) ↦
      rw (add_or_update_member, add_or_update_member_status, e)
        (record {
          sender = refresh address alive at x;
          present = set-lookup_same m id _;
          revived = record {
            address_is = refl;
            at_is = refl;
            status_is = refl;
            active_is = refl;
            unsuspected = refl;
          };
          others = λ j ne. set-lookup_other m id j _ ne;
        })
]

priority-OnlyRevives :
    (id address : Text) (at : ℕ) (priority : Int64) (m m' : Membership)
    → OnlyRevives id address at m m'
    → OnlyRevives id address at m (set_priority id priority m')
unfolding set_priority
priority-OnlyRevives id address at priority m m' h =
    let change = λ (x : Member). record x { priority = priority } in
    record {
      sender = record h.sender { priority = priority };
      present = lookup-update id id change m' ∙ rw (text_eq_refl id) (rw h.present refl);
      revived = record {
        address_is = h.revived.address_is;
        at_is = h.revived.at_is;
        status_is = h.revived.status_is;
        active_is = h.revived.active_is;
        unsuspected = h.revived.unsuspected;
      };
      others = λ j ne. lookup-update id j change m' ∙ rw ne (h.others j ne);
    }

-- A heartbeat makes its sender, whatever its status was and whether or not it was known, an active Alive
-- member without a suspicion, at the address of the request or of the connection and with the request's
-- time. It changes no other entry of the table.
pub heartbeat_revives_its_sender :
    (remote_peer : Option Text) (req : HeartbeatRequest) (m : Membership)
    → OnlyRevives req.node_id
        (remote_address req.address remote_peer)
        (req.timestamp * second)
        m
        (take_heartbeat remote_peer req m)
unfolding take_heartbeat
heartbeat_revives_its_sender remote_peer req m =
    let address = remote_address req.address remote_peer in
    let at = req.timestamp * second in
    let seen = report-OnlyRevives req.node_id address at m in
    elim (Bool-cases (lt64 0 req.priority)) [
      | inl e ↦
          rw (take_heartbeat, e) (priority-OnlyRevives req.node_id address at req.priority m _ seen)
      | inr e ↦ rw (take_heartbeat, e) seen
    ]
