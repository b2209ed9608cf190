-- ===== src/Startup/Pings.antt =====
-- cmd/server/main.go: the ticks of the heartbeat loop, the failure detection loop and the snapshot loop.
pub mod Pinged
use distributed_counter.Base.{
  Text, ℕ, Bool, true, false, ◌||◌, List, [], ◌∷◌, if◌then◌else◌, text_eq, Int64, lt64,
}
use distributed_counter.Cluster.Member.{Member}
use distributed_counter.Cluster.Membership.{
  Membership, get_members, update_heartbeat, mark_inactive, mark_stale,
}

-- The members that sendHeartbeats passes over.
unfoldable pub is_self : Text → Text → Member → Bool
is_self node_id local_address member =
    text_eq member.id node_id || text_eq member.address local_address

-- One ping: `acks` says whether pingHeartbeat returns nil, `now` is the instant of the answer.
unfoldable pub ping_member : (Member → Bool) → (Text → ℕ) → Member → Membership → Membership
ping_member acks now member m =
    if acks member then update_heartbeat member.id (now member.id) m else mark_inactive member.id m

-- The loop over the copy that GetMembers handed out.
unfoldable pub pings_loop :
    (Member → Bool) → (Text → ℕ) → Text → Text → List Member → Membership → Membership
unfolding is_self ping_member
pings_loop acks now node_id local_address [] m = m
pings_loop acks now node_id local_address (member ∷ members) m =
    pings_loop acks now node_id local_address members
      (if is_self node_id local_address member then m else ping_member acks now member m)

-- sendHeartbeats
unfoldable pub send_heartbeats :
    (Member → Bool) → (Text → ℕ) → Text → Text → Membership → Membership
unfolding pings_loop
send_heartbeats acks now node_id local_address m =
    pings_loop acks now node_id local_address (get_members m) m

-- The ticker of runSnapshotLoop: thirty seconds, where the interval is not positive
unfoldable pub snapshot_interval : Int64 → Int64
snapshot_interval interval = if lt64 0 interval then interval else 30_000_000_000
