-- ===== src/Startup/Join.antt =====
-- cmd/server/main.go: how a starting node learns the members from its seeds.
pub mod Table
pub mod Learned
use distributed_counter.Base.{Text, ◌*◌, Bool, true, false, List, [], ◌∷◌, if◌then◌else◌, lt64}
use distributed_counter.Cluster.Member.{status_from_proto}
use distributed_counter.Cluster.Membership.{Membership, add_or_update_member_status, set_priority}
use distributed_counter.Service.Members.{MemberInfo, second}

-- What a seed does: it is not reached, it refuses the call, or it streams lists of members up to the
-- end of the stream or an error.
pub data JoinAnswer : Type 0 where
  unreachable : JoinAnswer
  refused : JoinAnswer
  streamed : List (List MemberInfo) → Bool → JoinAnswer

-- One round of the loop over a list.
unfoldable pub learn_member : MemberInfo → Membership → Membership
learn_member member m =
    let m' =
      add_or_update_member_status member.node_id member.address (status_from_proto member.status)
        (member.last_heartbeat * second) m in
    if lt64 0 member.priority then set_priority member.node_id member.priority m' else m'

unfoldable pub learn_members : List MemberInfo → Membership → Membership
unfolding learn_member
learn_members [] m = m
learn_members (member ∷ members) m = learn_members members (learn_member member m)

-- The loop over the stream.
unfoldable pub receive_lists : List (List MemberInfo) → Membership → Membership
unfolding learn_members
receive_lists [] m = m
receive_lists (members ∷ lists) m = receive_lists lists (learn_members members m)

-- The loop over the seeds, with whether the function returns an error.
unfoldable pub join_loop : (Text → JoinAnswer) → List Text → Bool → Membership → Membership × Bool
unfolding receive_lists
join_loop answer [] last_err m = (m, last_err)
join_loop answer (seed ∷ seeds) last_err m = elim (answer seed) [
  | unreachable ↦ join_loop answer seeds true m
  | refused ↦ join_loop answer seeds true m
  | streamed lists failed ↦
      let m' = receive_lists lists m in
      elim lists [
        | [] ↦ join_loop answer seeds (if failed then true else last_err) m'
        | _ ∷ _ ↦ (m', false)
      ]
]

-- joinCluster
unfoldable pub join_seeds : (Text → JoinAnswer) → List Text → Membership → Membership × Bool
unfolding join_loop
join_seeds answer seed_nodes m = join_loop answer seed_nodes false m
