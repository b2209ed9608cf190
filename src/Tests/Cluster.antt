-- ===== src/Tests/Cluster.antt =====
-- The theorems on internal/cluster and internal/gossip/circuit.go at concrete inputs.
use mathlib.Core.List.{Mem, Perm}
use mathlib.Core.List.Perm
use distributed_counter.Base.{
  Text, ℕ, ◌+◌, ◌*◌, ◌-◌, ◌≤◌, ◌≡◌, ◌≢◌, refl, true, false, ◌&&◌, not, some, none, List, [], ◌∷◌,
  arith, if◌then◌else◌, ltb, codes, text_eq, text_eq_iff, lookup, length, max, GoMap,
}
use distributed_counter.Cluster.Member.{
  alive, suspect, dead, left, ProtoStatus, member_alive, member_dead, Member,
}
use distributed_counter.Cluster.Membership.{
  Membership, new, mark_stale, is_terminal, apply_membership, get_random_peers, get_members,
  get_alive_peers,
}
use distributed_counter.Cluster.Membership.Invariant.{IsValid}
use distributed_counter.Cluster.Membership.Stale.{has, next_status, mark_stale_escalates}
use distributed_counter.Cluster.Membership.Gossip.{
  gossip_is_cautious, death_notice, same_report_twice_kills,
}
use distributed_counter.Cluster.Membership.Peers.{
  alive_others, IsAliveOther, random_peers_are_alive,
}
use distributed_counter.Cluster.Membership.Runs.{
  add, heartbeat, suspicion, staleness, gossip, run, table_run-IsValid,
}
use distributed_counter.Cluster.Membership.Recovery.{IsDown, run-IsDown}
use distributed_counter.Cluster.Swim.Escalation.{failures, dead_at_threshold}
use distributed_counter.Service.Members.{HeartbeatRequest, remote_address, take_heartbeat, second}
use distributed_counter.Service.Members.Heartbeats.{OnlyRevives, heartbeat_revives_its_sender}
use distributed_counter.Gossip.Circuit.{CircuitBreaker, allow, success}
use distributed_counter.Gossip.Circuit.Trips.{fail_all, last_or, trips_after_failures}

abbrev here : Text
here = codes "node-a"

abbrev there : Text
there = codes "node-b"

abbrev gone : Text
gone = codes "node-c"

abbrev member_there : Member
member_there = record {
  id = there;
  address = codes "b:1";
  status = alive;
  is_active = true;
  counter_value = 0;
  last_heartbeat = 100;
  suspect_count = 0;
  priority = 2;
}

abbrev member_gone : Member
member_gone = record {
  id = gone;
  address = codes "c:1";
  status = left;
  is_active = false;
  counter_value = 0;
  last_heartbeat = 50;
  suspect_count = 1;
  priority = 1;
}

abbrev table : Membership
table = record {
  node_id = here;
  members = (there, member_there) ∷ (gone, member_gone) ∷ [];
  recovering = false;
}

there_found : lookup table.members there ≡ some member_there
unfolding lookup text_eq
there_found = refl

gone_found : lookup table.members gone ≡ some member_gone
unfolding lookup text_eq
gone_found = refl

there_not_gone : lookup {V = Member} ((gone, member_gone) ∷ []) there ≡ none
unfolding lookup text_eq
there_not_gone = refl

there_ne_here : there ≢ here
unfolding text_eq
there_ne_here e = cc ((text_eq_iff there here).1 e)

gone_ne_here : gone ≢ here
unfolding text_eq
gone_ne_here e = cc ((text_eq_iff gone here).1 e)

mark_stale_escalates_example :
    let due =
      not (text_eq there table.node_id) && (ltb 30 (200 - 100) && not (is_terminal alive)) in
    (y : Member) × (lookup (mark_stale 30 200 table).0.members there ≡ some y)
    × (y.status ≡ (if due then next_status alive else alive))
    × (has there (mark_stale 30 200 table).1 ≡ due)
unfolding lookup
mark_stale_escalates_example =
    mark_stale_escalates 30 200 table there member_there (there_not_gone, (refl, tt)) there_found

abbrev report : GoMap ProtoStatus
report = (there, member_dead) ∷ []

gossip_is_cautious_example :
    (y : Member) × (lookup (apply_membership report table).members there ≡ some y)
    × (member_there.status ≡ alive → y.status ≢ dead)
    × (y.status ≡ alive → member_there.status ≡ alive)
    × (there ≡ table.node_id → y ≡ member_there)
    × (y.address ≡ member_there.address)
    × (y.last_heartbeat ≡ member_there.last_heartbeat)
    × (y.priority ≡ member_there.priority)
unfolding lookup
gossip_is_cautious_example =
    gossip_is_cautious report table there member_there (refl, tt) there_found

same_report_twice_kills_example :
    (y z : Member) × (lookup (apply_membership (death_notice there) table).members there ≡ some y)
    × (y.status ≡ suspect)
    × (lookup
          (apply_membership
            (death_notice there)
            (apply_membership (death_notice there) table)).members
          there
        ≡ some z)
    × (z.status ≡ dead)
same_report_twice_kills_example =
    same_report_twice_kills table there member_there there_found there_ne_here refl

-- A shuffle that leaves the order.
perm_refl : (l : List Member) → Perm l l
perm_refl l = Perm.refl l

random_peers_are_alive_example :
    (length (get_random_peers (λ l. l) 3 table) ≤ 3)
    × ((p : Member)
        → Mem p (get_random_peers (λ l. l) 3 table)
        → IsAliveOther here (get_members table) p)
    × (length (alive_others here (get_members table)) ≤ 3
        → Perm (get_random_peers (λ l. l) 3 table) (alive_others here (get_members table)))
    × (get_alive_peers table ≡ alive_others here (get_members table))
random_peers_are_alive_example = random_peers_are_alive (λ l. l) 3 table perm_refl

table_run-IsValid_example :
    IsValid
      (run (add there (codes "b:1") alive 100 ∷ staleness 30 200 ∷ gossip report ∷ []) (new here))
table_run-IsValid_example =
    table_run-IsValid here
      (add there (codes "b:1") alive 100 ∷ staleness 30 200 ∷ gossip report ∷ [])

run-IsDown_example :
    IsDown gone
      (run (gossip ((gone, member_alive) ∷ []) ∷ suspicion gone ∷ heartbeat there 300 ∷ []) table)
unfolding text_eq
run-IsDown_example =
    run-IsDown gone (gossip ((gone, member_alive) ∷ []) ∷ suspicion gone ∷ heartbeat there 300 ∷ [])
      table (refl, (refl, (refl, tt)))
      (record { member = member_gone; present = gone_found; down = refl })

dead_at_threshold_example :
    (y : Member) × (lookup (failures 3 3 there table).members there ≡ some y)
    × (y.status ≡ (if ltb 3 (max 2 3) then suspect else dead))
dead_at_threshold_example =
    dead_at_threshold 3 3 there table member_there there_found refl refl refl (omega arith)

abbrev breaker : CircuitBreaker
breaker = record { failures = 0; open_until = 0; max_failures = 3; cooldown = 30 }

abbrev later_failures : List ℕ
later_failures = 15 ∷ 20 ∷ []

trips_after_failures_example : allow 25 (fail_all (10 ∷ later_failures) (success breaker)) ≡ (
    if ltb (length (10 ∷ later_failures)) 3
    then true
    else not (ltb 25 (last_or 10 later_failures + 30)))
trips_after_failures_example = trips_after_failures 10 later_failures 25 breaker

abbrev request : HeartbeatRequest
request = record { node_id = gone; address = []; timestamp = 9; priority = 4 }

heartbeat_revives_its_sender_example :
    OnlyRevives gone
      (remote_address [] (some (codes "c:2")))
      (9 * second)
      table
      (take_heartbeat (some (codes "c:2")) request table)
heartbeat_revives_its_sender_example =
    heartbeat_revives_its_sender (some (codes "c:2")) request table
