-- ===== src/Admin/Removal.antt =====
-- What becomes of a member that an operator removes.
use mathlib.Core.Option
use distributed_counter.Base.{
  Text, ℕ, ◌≡◌, ◌≢◌, refl, ◌∙◌, ap, Bool, true, false, some, [], arith, lookup, text_eq_ne,
  text_eq_refl,
}
use distributed_counter.Cluster.Member.{Member, Status, left, alive, set_status}
use distributed_counter.Cluster.Membership.{Membership, mark_left}
use distributed_counter.Cluster.Membership.Invariant.{
  IsValid, lookup-update, update-IsValid, set_status-IsFiled,
}
use distributed_counter.Startup.Pings.{is_self, send_heartbeats}
use distributed_counter.Startup.Pings.Pinged.{pinged, send_heartbeats-pings_each}
use distributed_counter.Admin.{AdminService, remove_node}

-- A member with a status in a table.
pub record Stands (id : Text) (s : Status) (m : Membership) : Type 0 where
  pub member : Member
  pub present : lookup m.members id ≡ some member
  pub status_is : member.status ≡ s

mark_left-lookup :
    (id : Text) (m : Membership) (x : Member)
    → lookup m.members id ≡ some x
    → lookup (mark_left id m).members id ≡ some (set_status left x)
unfolding mark_left
mark_left-lookup id m x h =
    lookup-update id id (set_status left) m
    ∙ rw (text_eq_refl id) (ap (Option.map (set_status left)) h)

mark_left-IsValid : (id : Text) (m : Membership) → IsValid m → IsValid (mark_left id m)
unfolding mark_left
mark_left-IsValid id m v =
    update-IsValid id (set_status left) m (λ x f. set_status-IsFiled id x f left) v

remove_node-marks :
    (id : Text) (a : AdminService) (m : Membership)
    → a.membership ≡ some m
    → id ≢ []
    → id ≢ a.node_id
    → (remove_node id a).0.membership ≡ some (mark_left id m)
unfolding remove_node
remove_node-marks id a m e named other =
    rw (remove_node, text_eq_ne id [] named, text_eq_ne id a.node_id other)
      (ap (Option.map (mark_left id)) e)

answered-alive :
    (acks : Member → Bool) (now : Text → ℕ) (node_id local_address : Text) (x : Member)
    → is_self node_id local_address x ≡ false
    → acks x ≡ true
    → (pinged acks now node_id local_address x).status ≡ alive
unfolding pinged is_self
answered-alive acks now node_id local_address x s a = ground (arith, s, a)

-- RemoveNode sets a member that is in a valid table, and is not the node itself, to Left. The next tick of
-- the heartbeat loop pings it all the same, and where it answers it is Alive again.
pub removed_node_comes_back :
    (a : AdminService) (id : Text) (m : Membership) (x : Member) (acks : Member → Bool)
    (now : Text → ℕ) (local_address : Text)
    → a.membership ≡ some m
    → IsValid m
    → id ≢ []
    → id ≢ a.node_id
    → lookup m.members id ≡ some x
    → is_self a.node_id local_address (set_status left x) ≡ false
    → acks (set_status left x) ≡ true
    → let m' = mark_left id m in
      ((remove_node id a).0.membership ≡ some m')
      × Stands id left m'
      × Stands id alive (send_heartbeats acks now a.node_id local_address m')
unfolding set_status
removed_node_comes_back a id m x acks now local_address e v named other h s answers =
    let m' = mark_left id m in
    let gone = mark_left-lookup id m x h in
    (
      remove_node-marks id a m e named other,
      record { member = set_status left x; present = gone; status_is = refl },
      record {
        member = pinged acks now a.node_id local_address (set_status left x);
        present =
            send_heartbeats-pings_each acks now a.node_id local_address m' id
              (mark_left-IsValid id m v)
            ∙ ap (Option.map (pinged acks now a.node_id local_address)) gone;
        status_is = answered-alive acks now a.node_id local_address (set_status left x) s answers;
      },
    )
