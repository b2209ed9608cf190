-- ===== src/Cluster/Swim.antt =====
-- internal/cluster/swim.go: one round of the failure detector. The answers of the probes, which go over
-- the network, the shuffles of rand and time.Now() are the round's environment.
pub mod Escalation
use distributed_counter.Base.{
  Text, ℕ, ◌+◌, Bool, true, false, ◌||◌, Option, none, some, List, if◌then◌else◌, leb, lt64, Int64,
  text_eq,
}
use distributed_counter.Cluster.Member.{Status, alive, suspect, dead, left, Member}
use distributed_counter.Cluster.Membership.{
  Membership, get_member, get_random_peer, get_random_probe_target, update_heartbeat, mark_suspect,
  mark_dead,
}

-- The defaults of NewSWIMDetector for the fields that are not positive.
unfoldable pub default_positive : Int64 → Int64 → Int64
default_positive v otherwise = if lt64 0 v then v else otherwise

pub record Config : Type 0 where
  pub protocol_period : Int64
  pub probe_timeout : Int64
  pub suspect_to_dead_threshold : Int64

-- NewSWIMDetector: a second, two seconds and three failed probes
unfoldable pub new_config : Config → Config
unfolding default_positive
new_config cfg = record {
  protocol_period = default_positive cfg.protocol_period 1_000_000_000;
  probe_timeout = default_positive cfg.probe_timeout 2_000_000_000;
  suspect_to_dead_threshold = default_positive cfg.suspect_to_dead_threshold 3;
}

pub record Env : Type 0 where
  -- whether SwimPing to the member is answered with Alive
  pub answers : Member → Bool
  -- whether the proxy answers SwimPingReq for the target with Alive
  pub vouches : Member → Member → Bool
  pub shuffle_targets : List Member → List Member
  pub shuffle_proxies : List Member → List Member
  pub now : ℕ

-- indirectProbe
unfoldable pub indirect_probe : Env → Member → Membership → Bool
indirect_probe env target m = elim (get_random_peer env.shuffle_proxies m) [
  | none ↦ false
  | some proxy ↦ if text_eq proxy.id target.id then false else env.vouches proxy target
]

-- The `switch` of `round`, after both probes failed.
unfoldable pub on_failure : ℕ → Status → Member → Membership → Membership
on_failure threshold alive member m = mark_suspect member.id m
on_failure threshold suspect member m =
    if leb threshold (member.suspect_count + 1)
    then mark_dead member.id m
    else mark_suspect member.id m
on_failure threshold dead member m = m
on_failure threshold left member m = m

unfoldable pub probe_failed : ℕ → Text → Membership → Membership
unfolding on_failure
probe_failed threshold id m = elim (get_member id m) [
  | none ↦ m
  | some member ↦ on_failure threshold member.status member m
]

unfoldable pub probe_round : Env → ℕ → Member → Membership → Membership
probe_round env threshold target m =
    if env.answers target || indirect_probe env target m
    then update_heartbeat target.id env.now m
    else probe_failed threshold target.id m

-- round
unfoldable pub round : Env → ℕ → Membership → Membership
unfolding probe_round
round env threshold m = elim (get_random_probe_target env.shuffle_targets m) [
  | none ↦ m
  | some target ↦ probe_round env threshold target m
]
