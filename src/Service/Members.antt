-- ===== src/Service/Members.antt =====
-- internal/service/counter_service.go: the handlers that other nodes call, on the member table and the
-- election. Instants are numbers of nanoseconds, and a request's timestamp is a number of seconds.
pub mod Heartbeats
use distributed_counter.Base.{
  Text, ℕ, ◌*◌, ◌/◌, Bool, true, false, ◌&&◌, not, Option, none, some, List, [], ◌∷◌, if◌then◌else◌,
  text_eq, Int64, lt64, length, map,
}
use distributed_counter.Cluster.Member.{ProtoStatus, member_alive, to_proto, Member, is_alive}
use distributed_counter.Cluster.Membership.{
  Membership, add_member, add_or_update_member, set_priority, get_members, get_member,
}
use distributed_counter.Election.Bully.{
  Bully, Announcement, Candidacy, handle_coordinator, handle_election,
}
use distributed_counter.Service.State.{Service}

-- pb.Member
pub record MemberInfo : Type 0 where
  pub node_id : Text
  pub address : Text
  pub is_active : Bool
  pub last_heartbeat : ℕ
  pub counter_value : Int64
  pub status : ProtoStatus
  pub priority : Int64

abbrev pub second : ℕ
second = 1_000_000_000

-- The pb.Member that JoinCluster and Heartbeat make of a member.
unfoldable pub member_info : Member → MemberInfo
member_info m = record {
  node_id = m.id;
  address = m.address;
  is_active = m.is_active;
  last_heartbeat = m.last_heartbeat / second;
  counter_value = m.counter_value;
  status = to_proto m.status;
  priority = m.priority;
}

-- The list of JoinCluster, when it is empty: the caller itself, if it has a name.
unfoldable pub member_list : ℕ → Text → Text → List MemberInfo → List MemberInfo
member_list now node_id address [] =
    if text_eq node_id []
    then []
    else record {
      node_id = node_id;
      address = address;
      is_active = true;
      last_heartbeat = now / second;
      counter_value = 0;
      status = member_alive;
      priority = 0;
    }
      ∷ []
member_list now node_id address (m ∷ ms) = m ∷ ms

unfoldable pub join_cluster : ℕ → Text → Text → Service → Service × List MemberInfo
join_cluster now node_id address s = elim s.cluster [
  | none ↦ (s, member_list now node_id address [])
  | some cluster ↦
      let cluster' = add_member node_id address now cluster in
      (
        record s { cluster = some cluster' },
        member_list now node_id address (map member_info (get_members cluster')),
      )
]

-- pb.HeartbeatRequest
pub record HeartbeatRequest : Type 0 where
  pub node_id : Text
  pub address : Text
  pub timestamp : ℕ
  pub priority : Int64

-- The advertised address, or else that of the connection.
unfoldable pub remote_address : Text → Option Text → Text
remote_address advertised remote_peer =
    if text_eq advertised []
    then elim remote_peer [ none ↦ advertised | some addr ↦ addr ]
    else advertised

-- What Heartbeat does to the member table.
unfoldable pub take_heartbeat : Option Text → HeartbeatRequest → Membership → Membership
take_heartbeat remote_peer req cluster =
    let seen =
      add_or_update_member req.node_id (remote_address req.address remote_peer) true
        (req.timestamp * second) cluster in
    if lt64 0 req.priority then set_priority req.node_id req.priority seen else seen

unfoldable pub active_members : List Member → List MemberInfo
active_members [] = []
active_members (m ∷ ms) =
    let rest = active_members ms in if m.is_active then member_info m ∷ rest else rest

-- Heartbeat, with the cluster size and the active members of its response
unfoldable pub heartbeat : Option Text → HeartbeatRequest → Service → Service × ℕ × List MemberInfo
heartbeat remote_peer req s = elim s.cluster [
  | none ↦ (s, 0, [])
  | some cluster ↦
      let cluster' = take_heartbeat remote_peer req cluster in
      let active = active_members (get_members cluster') in
      (record s { cluster = some cluster' }, length active, active)
]

-- SwimPingReq: only an Alive target is pinged; `ping` is what pingTarget gets from the address
unfoldable pub swim_ping_req : (Text → Bool) → Text → Service → Bool
swim_ping_req ping target_node_id s = elim s.cluster [
  | none ↦ false
  | some cluster ↦ elim (get_member target_node_id cluster) [
    | none ↦ false
    | some target ↦ if is_alive target.status then ping target.address else false
  ]
]

-- Election: with no election wired the node acks; the flag says whether an own election starts.
unfoldable pub election : Candidacy → Option Bully → Bool × Bool
election req none = (true, false)
election req (some b) = handle_election req b

-- Coordinator
unfoldable pub coordinator : ℕ → Announcement → Option Bully → Option Bully
coordinator now req none = none
coordinator now req (some b) = some (handle_coordinator now req b)
