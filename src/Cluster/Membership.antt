-- ===== src/Cluster/Membership.antt =====
-- internal/cluster/membership.go: the member table. Each method holds the mutex throughout, and hands
-- out copies, so it is one function on the table. `now` stands for time.Now(), and a shuffle for
-- rand.Shuffle.
pub mod Invariant
pub mod Gossip
pub mod Stale
pub mod Peers
pub mod Runs
pub mod Recovery
use distributed_counter.Base.{
  Text, ℕ, ◌+◌, ◌-◌, Bool, true, false, ◌&&◌, ◌||◌, not, Option, none, some, List, [], ◌∷◌,
  if◌then◌else◌, ltb, leb, GoMap, lookup, set, values, text_eq, Int64, take,
}
use distributed_counter.Cluster.Member.{
  Status, alive, suspect, dead, left, ProtoStatus, to_proto, status_from_proto, Member, is_alive,
  set_status,
}

pub record Membership : Type 0 where
  pub node_id : Text
  pub members : GoMap Member
  pub recovering : Bool

-- NewMembership
unfoldable pub new : Text → Membership
new node_id = record { node_id = node_id; members = []; recovering = false }

-- if member, exists := m.members[id]; exists { change the member }
unfoldable pub update : Text → (Member → Member) → Membership → Membership
update id change m = elim (lookup m.members id) [
  | none ↦ m
  | some member ↦ record m { members = set m.members id (change member) }
]

-- What AddOrUpdateMemberStatus does to a member that exists, and the member that it makes.
unfoldable pub refresh : Text → Status → ℕ → Member → Member
unfolding set_status
refresh address status last_heartbeat member =
    let seen = record member { address = address; last_heartbeat = last_heartbeat } in
    if is_alive status then record (set_status alive seen) { suspect_count = 0 } else seen

unfoldable pub fresh_member : Text → Text → Status → ℕ → Member
unfolding set_status
fresh_member id address status last_heartbeat =
    let blank : Member = record {
      id = id;
      address = address;
      status = alive;
      is_active = false;
      counter_value = 0;
      last_heartbeat = last_heartbeat;
      suspect_count = 0;
      priority = 0;
    } in
    set_status status blank

unfoldable pub add_or_update_member_status : Text → Text → Status → ℕ → Membership → Membership
add_or_update_member_status id address status last_heartbeat m = elim (lookup m.members id) [
  | none ↦ record m { members = set m.members id (fresh_member id address status last_heartbeat) }
  | some member ↦ record m {
    members = set m.members id (refresh address status last_heartbeat member);
  }
]

unfoldable pub add_or_update_member : Text → Text → Bool → ℕ → Membership → Membership
add_or_update_member id address is_active last_heartbeat m =
    add_or_update_member_status id address (if is_active then alive else dead) last_heartbeat m

unfoldable pub add_member : Text → Text → ℕ → Membership → Membership
add_member id address now m = add_or_update_member id address true now m

unfoldable pub heard_from : ℕ → Member → Member
unfolding set_status
heard_from now member = record (set_status alive (record member { last_heartbeat = now })) {
  suspect_count = 0;
}

unfoldable pub update_heartbeat : Text → ℕ → Membership → Membership
update_heartbeat id now m = update id (heard_from now) m

unfoldable pub set_priority : Text → Int64 → Membership → Membership
set_priority id priority m = update id (λ member. record member { priority = priority }) m

-- setStatus(StatusSuspect) and SuspectCount++
unfoldable pub raise_suspicion : Member → Member
unfolding set_status
raise_suspicion member = record (set_status suspect member) {
  suspect_count = member.suspect_count + 1;
}

-- s == StatusSuspect
abbrev pub is_suspect : Status → Bool
is_suspect suspect = true
is_suspect _ = false

-- Dead and Left are returned from early.
abbrev pub is_terminal : Status → Bool
is_terminal dead = true
is_terminal left = true
is_terminal _ = false

unfoldable pub suspect_unless_terminal : Member → Member
unfolding raise_suspicion
suspect_unless_terminal member =
    if is_terminal member.status then member else raise_suspicion member

unfoldable pub mark_suspect : Text → Membership → Membership
mark_suspect id m = update id suspect_unless_terminal m

unfoldable pub mark_dead : Text → Membership → Membership
mark_dead id m = update id (set_status dead) m

unfoldable pub mark_left : Text → Membership → Membership
mark_left id m = update id (set_status left) m

unfoldable pub mark_inactive : Text → Membership → Membership
mark_inactive id m = mark_suspect id m

-- The `switch` of MarkStale: the member after it, and whether its id is reported as changed.
unfoldable pub escalate : Status → Member → Member × Bool
unfolding raise_suspicion set_status
escalate alive member = (raise_suspicion member, true)
escalate suspect member = (set_status dead member, true)
escalate _ member = (member, false)

unfoldable pub stale_member : Text → ℕ → ℕ → Text → Member → Member × Bool
unfolding escalate
stale_member node_id threshold now id member =
    if text_eq id node_id
    then (member, false)
    else if ltb threshold (now - member.last_heartbeat)
    then escalate member.status member
    else (member, false)

-- The loop of MarkStale: the threshold is not negative, so a heartbeat in the future is not stale.
unfoldable pub stale_loop : Text → ℕ → ℕ → GoMap Member → GoMap Member × List Text
stale_loop node_id threshold now [] = ([], [])
stale_loop node_id threshold now ((id, member) ∷ rest) =
    let (rest', changed) = stale_loop node_id threshold now rest in
    let (member', moved) = stale_member node_id threshold now id member in
    ((id, member') ∷ rest', if moved then id ∷ changed else changed)

unfoldable pub mark_stale : ℕ → ℕ → Membership → Membership × List Text
mark_stale threshold now m =
    let (members, changed) = stale_loop m.node_id threshold now m.members in
    (record m { members = members }, changed)

unfoldable pub set_recovering : Bool → Membership → Membership
set_recovering recovering m = record m { recovering = recovering }

unfoldable pub get_members : Membership → List Member
get_members m = values m.members

unfoldable pub get_member : Text → Membership → Option Member
get_member id m = lookup m.members id

-- The test of GetAlivePeers.
unfoldable pub is_peer : Text → Member → Bool
is_peer node_id member = not (text_eq member.id node_id) && is_alive member.status

-- Members that the failure detector may probe.
unfoldable pub is_candidate : Text → Member → Bool
is_candidate node_id member =
    not (text_eq member.id node_id) && (is_alive member.status || is_suspect member.status)

-- for _, member := range m.members { if keep(member) { peers = append(peers, &copy) } }
unfoldable pub select : (Member → Bool) → GoMap Member → List Member
select keep [] = []
select keep ((id, member) ∷ rest) =
    let others = select keep rest in if keep member then member ∷ others else others

unfoldable pub get_alive_peers : Membership → List Member
get_alive_peers m = select (is_peer m.node_id) m.members

-- The loop of GetRandomPeers.
unfoldable pub random_peers_loop : Text → GoMap Member → List Member
random_peers_loop node_id [] = []
random_peers_loop node_id ((id, member) ∷ rest) =
    let peers = random_peers_loop node_id rest in
    if not (text_eq member.id node_id) && is_alive member.status then member ∷ peers else peers

unfoldable pub get_random_peers : (List Member → List Member) → ℕ → Membership → List Member
unfolding random_peers_loop
get_random_peers shuffle count m = take count (shuffle (random_peers_loop m.node_id m.members))

abbrev pub first : List Member → Option Member
first [] = none
first (member ∷ _) = some member

unfoldable pub get_random_peer : (List Member → List Member) → Membership → Option Member
get_random_peer shuffle m = first (get_random_peers shuffle 1 m)

unfoldable pub get_random_probe_target : (List Member → List Member) → Membership → Option Member
get_random_probe_target shuffle m = first (shuffle (select (is_candidate m.node_id) m.members))

unfoldable pub add_discovered_nodes : GoMap Text → ℕ → Membership → Membership
add_discovered_nodes [] now m = m
add_discovered_nodes ((id, address) ∷ nodes) now m =
    add_discovered_nodes nodes now (if text_eq id m.node_id then m else add_member id address now m)

unfoldable pub gossip_loop : Text → GoMap Member → GoMap ProtoStatus → GoMap ProtoStatus
gossip_loop node_id [] out = out
gossip_loop node_id ((id, member) ∷ rest) out =
    gossip_loop node_id rest
      (if text_eq id node_id then out else set out id (to_proto member.status))

unfoldable pub gossip_membership : Membership → GoMap ProtoStatus
gossip_membership m = gossip_loop m.node_id m.members []

-- The `switch` of ApplyMembership, on the reported status.
unfoldable pub learn : Status → Member → Member
unfolding raise_suspicion set_status
learn dead member =
    if is_alive member.status
    then raise_suspicion member
    else if leb 1 member.suspect_count
    then set_status dead member
    else member
learn suspect member = if is_alive member.status then raise_suspicion member else member
learn left member = set_status left member
learn alive member = member

unfoldable pub apply_membership : GoMap ProtoStatus → Membership → Membership
apply_membership [] m = m
apply_membership ((id, status) ∷ statuses) m =
    apply_membership statuses
      (if text_eq id m.node_id then m else update id (learn (status_from_proto status)) m)
