-- ===== src/Dashboard.antt =====
-- internal/dashboard/dashboard.go: how the view of the cluster is put together from the member table, the
-- local service and what the members answer. HTTP, JSON and the registry of Prometheus are left out.
pub mod Values
pub mod Asked
pub mod Shown
use mathlib.Core.Option
use distributed_counter.Base.{
  Text, ℕ, ◌/◌, ◌==◌, Bool, true, false, Option, none, some, List, [], ◌∷◌, ◌++◌, if◌then◌else◌,
  codes, GoMap, lookup, set, text_eq, Int64, lt64,
}
use distributed_counter.Crdt.Keys.{default_name}
use distributed_counter.Crdt.PnCounter.{value_name}
use distributed_counter.Crdt.PnCounter.Names.{sort_strings}
use distributed_counter.Cluster.Member.{Status, alive, suspect, dead, left, Member}
use distributed_counter.Cluster.Membership.{Membership, get_members, get_member}
use distributed_counter.Election.Bully.{Bully, is_leader}
use distributed_counter.Service.State.{Service}
use distributed_counter.Service.Listing.{CounterInfo}
use distributed_counter.Service.Members.{second}

-- pb.NodeInfo
pub record NodeInfo : Type 0 where
  pub node_id : Text
  pub address : Text
  pub counter_value : Int64
  pub version : Text
  pub is_leader : Bool
  pub last_seen : ℕ
  pub leader_id : Text
  pub priority : Int64

-- GetNodeInfo; the decimal text of the port and the JSON text of the clock are arguments.
unfoldable pub get_node_info : ℕ → Text → Text → Option Bully → Int64 → Service → NodeInfo
get_node_info now port version bully priority s = record {
  node_id = s.node_id;
  address = codes "localhost:" ++ port;
  counter_value = value_name default_name s.counter;
  version = version;
  is_leader = elim bully [ none ↦ false | some b ↦ is_leader b ];
  last_seen = now / second;
  leader_id = elim bully [ none ↦ [] | some b ↦ b.leader_id ];
  priority = priority;
}

-- Status.String
unfoldable pub status_text : Status → Text
status_text alive = codes "Alive"
status_text suspect = codes "Suspect"
status_text dead = codes "Dead"
status_text left = codes "Left"

pub record NodeView : Type 0 where
  pub node_id : Text
  pub address : Text
  pub status : Text
  pub is_active : Bool
  pub is_leader : Bool
  pub leader_id : Text
  pub priority : Int64
  pub counter_value : Int64
  pub version : Text
  pub last_seen : ℕ
  pub reachable : Bool

unfoldable pub node_view_from_info : Bool → NodeInfo → NodeView
node_view_from_info reachable info = record {
  node_id = info.node_id;
  address = info.address;
  status = codes "Alive";
  is_active = true;
  is_leader = info.is_leader;
  leader_id = info.leader_id;
  priority = info.priority;
  counter_value = info.counter_value;
  version = info.version;
  last_seen = info.last_seen;
  reachable = reachable;
}

-- The view of a member that does not answer.
unfoldable pub unreachable_view : Member → NodeView
unfolding status_text
unreachable_view member = record {
  node_id = member.id;
  address = member.address;
  status = status_text member.status;
  is_active = member.is_active;
  is_leader = false;
  leader_id = [];
  priority = member.priority;
  counter_value = 0;
  version = [];
  last_seen = member.last_heartbeat / second;
  reachable = false;
}

-- What an answer leaves empty comes from the member table.
unfoldable pub fill_in : Member → NodeView → NodeView
unfolding status_text
fill_in member nv = record nv {
  address = if text_eq nv.address [] then member.address else nv.address;
  status = if text_eq nv.status [] then status_text member.status else nv.status;
  priority = if nv.priority == 0 then member.priority else nv.priority;
}

-- What the members answer to GetNodeInfo and ListCounters, by the address that is dialled.
pub record Polls : Type 0 where
  pub info : Text → Option NodeInfo
  pub counters : Text → Option (List CounterInfo)

-- pollNode of another node
unfoldable pub poll_node : Polls → Text → Membership → Option NodeView
unfolding node_view_from_info
poll_node polls node_id m = elim (get_member node_id m) [
  | none ↦ none
  | some member ↦ Option.map (node_view_from_info true) (polls.info member.address)
]

-- nv, or the view of a member without one, completed.
abbrev pub or_unreachable : Member → Option NodeView → NodeView
or_unreachable member none = fill_in member (unreachable_view member)
or_unreachable member (some nv) = fill_in member nv

-- The loop over the members. The own entry is the view Self itself, which is completed with it.
unfoldable pub nodes_loop :
    Polls → Text → Membership → List Member → Option NodeView → List NodeView × Option NodeView
unfolding poll_node fill_in unreachable_view
nodes_loop polls own m [] self = ([], self)
nodes_loop polls own m (member ∷ members) self =
    let is_own = text_eq member.id own in
    let nv = if is_own then self else poll_node polls member.id m in
    let self' = if is_own then Option.map (fill_in member) self else self in
    let (nodes, self'') = nodes_loop polls own m members self' in
    (or_unreachable member nv ∷ nodes, self'')

pub record CounterView : Type 0 where
  pub name : Text
  pub value : Int64
  pub shard : ℕ
  pub tags : List Text
  pub contributors : List Text

unfoldable pub counter_view : CounterInfo → CounterView
counter_view ci = record {
  name = ci.name;
  value = ci.current_value;
  shard = ci.shard;
  tags = ci.tags;
  contributors = [];
}

-- The counters of the local service.
unfoldable pub local_counters : GoMap CounterView → List CounterInfo → GoMap CounterView
unfolding counter_view
local_counters agg [] = agg
local_counters agg (ci ∷ cis) = local_counters (set agg ci.name (counter_view ci)) cis

-- The test on one counter of a node's answer.
unfoldable pub contributed : Text → Int64 → CounterView → CounterView
contributed node_id value existing = record existing {
  value = if lt64 existing.value value then value else existing.value;
  contributors = existing.contributors ++ (node_id ∷ []);
}

unfoldable pub merge_counter : Text → CounterInfo → GoMap CounterView → GoMap CounterView
unfolding contributed
merge_counter node_id ci agg = elim (lookup agg ci.name) [
  | none ↦ agg
  | some existing ↦ set agg ci.name (contributed node_id ci.current_value existing)
]

unfoldable pub merge_counters : Text → List CounterInfo → GoMap CounterView → GoMap CounterView
unfolding merge_counter
merge_counters node_id [] agg = agg
merge_counters node_id (ci ∷ cis) agg = merge_counters node_id cis (merge_counter node_id ci agg)

-- pollCounters
unfoldable pub poll_counters : Polls → Text → Option (List CounterInfo)
poll_counters polls address = if text_eq address [] then none else polls.counters address

-- The loop over the views of the nodes.
unfoldable pub merge_nodes : Polls → List NodeView → GoMap CounterView → GoMap CounterView
unfolding poll_counters merge_counters
merge_nodes polls [] agg = agg
merge_nodes polls (nv ∷ nodes) agg = elim (poll_counters polls nv.address) [
  | none ↦ merge_nodes polls nodes agg
  | some cis ↦ merge_nodes polls nodes (merge_counters nv.node_id cis agg)
]

-- for name := range counterAgg { names = append(names, name) }
unfoldable pub names_of : GoMap CounterView → List Text
names_of [] = []
names_of ((name, c) ∷ agg) = name ∷ names_of agg

-- The views of the names that the map has.
unfoldable pub views_of : GoMap CounterView → List Text → List CounterView
views_of agg [] = []
views_of agg (name ∷ names) =
    let rest = views_of agg names in elim (lookup agg name) [ none ↦ rest | some c ↦ c ∷ rest ]

pub record ClusterView : Type 0 where
  pub self : Option NodeView
  pub nodes : List NodeView
  pub counters : List CounterView

-- What the local service reports of itself, and its counters.
abbrev pub Local : Type 0
Local = NodeInfo × List CounterInfo

abbrev pub self_view : Option Local → Option NodeView
self_view none = none
self_view (some (info, cis)) = some (node_view_from_info true info)

abbrev pub local_map : Option Local → GoMap CounterView
local_map none = []
local_map (some (info, cis)) = local_counters [] cis

abbrev pub node_views :
    Polls → Text → Option Membership → Option NodeView → List NodeView × Option NodeView
node_views polls own none self = ([], self)
node_views polls own (some m) self = nodes_loop polls own m (get_members m) self

-- BuildClusterView
unfoldable pub build_cluster_view : Polls → Text → Option Membership → Option Local → ClusterView
unfolding nodes_loop local_counters merge_nodes names_of node_view_from_info
build_cluster_view polls own membership service =
    let (nodes, self) = node_views polls own membership (self_view service) in
    let agg = merge_nodes polls nodes (local_map service) in
    record { self = self; nodes = nodes; counters = views_of agg (sort_strings (names_of agg)) }
