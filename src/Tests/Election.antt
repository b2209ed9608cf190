-- ===== src/Tests/Election.antt =====
-- The theorems on internal/election/bully.go at concrete inputs.
use mathlib.Core.List.{Mem, mem-cons_self}
use distributed_counter.Base.{
  Text, ℕ, ◌≡◌, ◌↔◌, refl, true, false, List, [], ◌∷◌, arith, codes, text_eq, add64,
}
use distributed_counter.Cluster.Member.{alive, Member}
use distributed_counter.Cluster.Membership.{Membership, get_alive_peers, select, is_peer}
use distributed_counter.Election.Bully.{Bully, Announcement, is_leader, start_election}
use distributed_counter.Election.Bully.Leadership.{deliver, best, leader_rank, follows_the_greatest}
use distributed_counter.Election.Bully.Elections.{
  AllSilent, election_won_iff, winner_tells_everyone,
}

abbrev here : Text
here = codes "node-a"

abbrev there : Text
there = codes "node-b"

-- A node of priority 2 that follows node-b, of priority 5, since the instant 100.
abbrev follower : Bully
follower = record {
  node_id = here;
  priority = 2;
  interval = 10;
  timeout = 50;
  max_probes = 3;
  leader_id = there;
  leader_priority = 5;
  leader_term = 4;
  last_leader_seen = 100;
  election_running = false;
}

abbrev lower_claim : Announcement
lower_claim = record { node_id = codes "node-c"; priority = 3; term = 9 }

abbrev higher_claim : Announcement
higher_claim = record { node_id = codes "node-d"; priority = 7; term = 1 }

abbrev claims : List (ℕ × Announcement)
claims = (110, higher_claim) ∷ (120, lower_claim) ∷ []

follows_the_greatest_example :
    leader_rank (deliver claims follower) ≡ best (leader_rank follower) claims
unfolding text_eq
follows_the_greatest_example =
    follows_the_greatest 100 150 claims follower
      (
        record {
          after = omega arith;
          before = omega arith;
          named = refl;
          priority_range = omega arith;
          term_range = omega arith;
        },
        (
          record {
            after = omega arith;
            before = omega arith;
            named = refl;
            priority_range = omega arith;
            term_range = omega arith;
          },
          tt,
        ),
      )
      (record {
        seen = omega arith;
        window = omega arith;
        named = refl;
        priority_range = omega arith;
        term_range = omega arith;
      })

abbrev peer : Member
peer = record {
  id = there;
  address = codes "b:1";
  status = alive;
  is_active = true;
  counter_value = 0;
  last_heartbeat = 100;
  suspect_count = 0;
  priority = 5;
}

abbrev table : Membership
table = record { node_id = here; members = (there, peer) ∷ []; recovering = false }

-- The peer of the higher priority does not answer.
nobody_answers : AllSilent (λ m. false) follower (get_alive_peers table)
unfolding get_alive_peers select is_peer text_eq
nobody_answers = (λ other higher. refl, tt)

election_won_iff_example :
    (is_leader (start_election 200 (λ m. false) table follower).0 ≡ true)
    ↔ AllSilent (λ m. false) follower (get_alive_peers table)
unfolding is_leader text_eq
election_won_iff_example = election_won_iff 200 (λ m. false) table follower refl refl

peer_alive : Mem peer (get_alive_peers table)
unfolding get_alive_peers select is_peer text_eq
peer_alive = mem-cons_self

winner_tells_everyone_example :
    Mem
      (peer, record { node_id = here; priority = 2; term = add64 4 1 })
      (start_election 200 (λ m. false) table follower).1
unfolding text_eq
winner_tells_everyone_example =
    winner_tells_everyone 200 (λ m. false) table follower peer refl nobody_answers peer_alive refl
