-- ===== src/Tests/Dashboard.antt =====
-- The theorem on internal/dashboard/dashboard.go at a concrete input.
use distributed_counter.Base.{
  Text, ◌≡◌, ◌⊎◌, refl, true, false, none, some, [], ◌∷◌, codes, lookup, text_eq, if◌then◌else◌,
  Int64,
}
use distributed_counter.Cluster.Member.{Member, alive}
use distributed_counter.Cluster.Membership.{Membership}
use distributed_counter.Cluster.Membership.Invariant.{IsValid}
use distributed_counter.Service.Listing.{CounterInfo}
use distributed_counter.Dashboard.{Polls, Local, build_cluster_view}
use distributed_counter.Dashboard.Values.{IsGreatest, observed}
use distributed_counter.Dashboard.Asked.{asked, addresses}
use distributed_counter.Dashboard.Shown.{local_value, shown_value, build_cluster_view-shows_highest}

abbrev own : Text
own = codes "a"

abbrev other : Text
other = codes "b"

abbrev votes : Text
votes = codes "votes"

abbrev votes_of : Int64 → CounterInfo
votes_of value = record { name = votes; current_value = value; shard = 0; tags = [] }

abbrev member_at : Text → Text → Member
member_at id address = record {
  id = id;
  address = address;
  status = alive;
  is_active = true;
  counter_value = 0;
  last_heartbeat = 1;
  suspect_count = 0;
  priority = 1;
}

abbrev table : Membership
table = record {
  node_id = own;
  members = (own, member_at own (codes "a:1")) ∷ (other, member_at other (codes "b:1")) ∷ [];
  recovering = false;
}

table-IsValid : IsValid table
unfolding lookup text_eq
table-IsValid = record {
  distinct = (refl, (refl, tt));
  filed = (record { key = refl; active = refl }, (record { key = refl; active = refl }, tt));
}

-- The other node answers the call for its counters, and not that for its state.
abbrev polls : Polls
polls = record {
  info = λ address. none;
  counters = λ address. if text_eq address (codes "b:1") then some (votes_of 5 ∷ []) else none;
}

abbrev local : Local
local = (
  record {
    node_id = own;
    address = codes "localhost:1";
    counter_value = 0;
    version = [];
    is_leader = false;
    last_seen = 1;
    leader_id = [];
    priority = 1;
  },
  votes_of 3 ∷ [],
)

build_cluster_view-shows_highest_example :
    let view = build_cluster_view polls own (some table) (some local) in
    (addresses view.nodes ≡ asked polls own (some table) (some local))
    × (((local_value votes (some local) ≡ none) × (shown_value votes view.counters ≡ none))
        ⊎ ((v : Int64) × (v' : Int64) × (local_value votes (some local) ≡ some v)
            × (shown_value votes view.counters ≡ some v')
            × IsGreatest v' (v ∷ observed polls votes view.nodes)))
build_cluster_view-shows_highest_example =
    build_cluster_view-shows_highest polls own (some table) (some local) votes table-IsValid
