-- ===== src/Admin.antt =====
-- internal/admin/admin.go: the operator's calls. The messages of the responses are left out.
pub mod Removal
use distributed_counter.Base.{
  Text, ℕ, Bool, true, false, Option, none, some, List, [], ◌∷◌, if◌then◌else◌, text_eq, length,
  map,
}
use mathlib.Core.Option
use distributed_counter.Cluster.Member.{Member}
use distributed_counter.Cluster.Membership.{
  Membership, add_or_update_member, mark_left, get_members,
}
use distributed_counter.Gossip.Engine
use distributed_counter.Gossip.Engine.{GossipEngine}
use distributed_counter.Service.Members.{MemberInfo, member_info}

-- `gossip` is the engine with the member table that it was made with.
pub record AdminService : Type 0 where
  pub node_id : Text
  pub membership : Option Membership
  pub gossip : Option (Membership × GossipEngine)

-- New
unfoldable pub new : Text → AdminService
new node_id = record { node_id = node_id; membership = none; gossip = none }

pub data AdminError : Type 0 where
  node_id_required address_required local_node : AdminError

-- An error, or the members of the response.
pub data AdminReply : Type 0 where
  failed : AdminError → AdminReply
  succeeded : List MemberInfo → AdminReply

-- response
unfoldable pub response : AdminService → AdminReply
response a = elim a.membership [
  | none ↦ succeeded []
  | some m ↦ succeeded (map member_info (get_members m))
]

unfoldable pub add_node : ℕ → Text → Text → AdminService → AdminService × AdminReply
unfolding response
add_node now node_id address a =
    if text_eq node_id []
    then (a, failed node_id_required)
    else if text_eq address []
    then (a, failed address_required)
    else (let a' = record a {
      membership = Option.map (add_or_update_member node_id address true now) a.membership;
    } in
        (a', response a'))

unfoldable pub remove_node : Text → AdminService → AdminService × AdminReply
unfolding response
remove_node node_id a =
    if text_eq node_id []
    then (a, failed node_id_required)
    else if text_eq node_id a.node_id
    then (a, failed local_node)
    else (let a' = record a { membership = Option.map (mark_left node_id) a.membership } in
        (a', response a'))

-- ForceSync, with whether it succeeds and how many peers it contacts
unfoldable pub force_sync : AdminService → AdminService × Bool × ℕ
force_sync a = elim a.gossip [
  | none ↦ (a, false, 0)
  | some (cluster, g) ↦
      let (started, g') = Engine.force_sync cluster g in
      (record a { gossip = some (cluster, g') }, true, length started)
]
