-- ===== src/Tests/Join.antt =====
-- The theorem on joinCluster of cmd/server/main.go at concrete inputs.
use distributed_counter.Base.{
  Text, ◌≡◌, refl, true, false, some, [], ◌∷◌, if◌then◌else◌, codes, text_eq, lookup,
}
use distributed_counter.Cluster.Member.{Member, suspect}
use distributed_counter.Cluster.Membership.{Membership, new, add_member}
use distributed_counter.Cluster.Membership.Invariant.{IsValid}
use distributed_counter.Service.State.{Service}
use distributed_counter.Service.State
use distributed_counter.Service.Members.{join_cluster}
use distributed_counter.Startup.Join.{JoinAnswer, refused, streamed, join_seeds}
use distributed_counter.Startup.Join.Table.{after_list}
use distributed_counter.Startup.Join.Learned.{
  AllSendNothing, SendsNothing, join_seeds-learns_the_table,
}

abbrev own : Text
own = codes "n"

abbrev own_address : Text
own_address = codes "n:1"

abbrev closed : Text
closed = codes "s:1"

abbrev open_seed : Text
open_seed = codes "s:2"

abbrev peer : Member
peer = record {
  id = codes "p";
  address = codes "p:1";
  status = suspect;
  is_active = false;
  counter_value = 0;
  last_heartbeat = 3_500_000_000;
  suspect_count = 1;
  priority = 2;
}

-- The table of the seed, in which the new node does not stand yet.
abbrev table : Membership
table = record { node_id = codes "s"; members = (codes "p", peer) ∷ []; recovering = false }

table-IsValid : IsValid table
unfolding lookup
table-IsValid = record { distinct = (refl, tt); filed = (record { key = refl; active = refl }, tt) }

abbrev seed_service : Service
seed_service = record (State.new (codes "s")) { cluster = some table }

-- The first seed refuses, the second one answers and then fails.
abbrev answer : Text → JoinAnswer
answer seed =
    if text_eq seed closed
    then refused
    else streamed ((join_cluster 9 own own_address seed_service).1 ∷ []) true

join_seeds-learns_the_table_example :
    let joined = join_seeds answer (closed ∷ open_seed ∷ []) (new own) in
    (joined.1 ≡ false)
    × ((k : Text)
        → lookup joined.0.members k
          ≡ after_list
              (lookup (add_member own own_address 9 table).members k)
              (lookup (new own).members k))
unfolding AllSendNothing SendsNothing text_eq
join_seeds-learns_the_table_example =
    join_seeds-learns_the_table answer (closed ∷ []) [] open_seed 9 own own_address seed_service
      table (new own) true (tt, tt) refl table-IsValid refl
