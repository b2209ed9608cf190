-- ===== src/Election/Bully.antt =====
-- internal/election/bully.go. The answers to the RPCs and time.Now() are arguments. The tick of
-- Run, and StartElection up to its wait, are run as one event; what is sent comes back beside the state.
pub mod Leadership
pub mod Elections
use distributed_counter.Base.{
  Text, ℕ, zero, suc, ◌+◌, ◌-◌, Bool, true, false, ◌&&◌, ◌||◌, not, Option, none, some, List, [],
  ◌∷◌, if◌then◌else◌, ltb, leb, ◌==◌, text_eq, Int64, lt64, add64, map,
}
use distributed_counter.Cluster.Member.{Member}
use distributed_counter.Cluster.Membership.{Membership, get_alive_peers}

pub record Bully : Type 0 where
  pub node_id : Text
  pub priority : Int64
  pub interval : Int64
  pub timeout : ℕ
  pub max_probes : ℕ
  pub leader_id : Text
  pub leader_priority : Int64
  pub leader_term : Int64
  pub last_leader_seen : ℕ
  pub election_running : Bool

-- New: two seconds and ten seconds, where the durations are not positive
unfoldable pub new : Text → Int64 → Int64 → Int64 → Bully
new node_id priority interval leader_timeout = record {
  node_id = node_id;
  priority = priority;
  interval = if lt64 0 interval then interval else 2_000_000_000;
  timeout = if lt64 0 leader_timeout then leader_timeout else 10_000_000_000;
  max_probes = 3;
  leader_id = [];
  leader_priority = 0;
  leader_term = 0;
  last_leader_seen = 0;
  election_running = false;
}

unfoldable pub is_leader : Bully → Bool
is_leader b = text_eq b.leader_id b.node_id

-- pb.CoordinatorRequest and pb.ElectionRequest
pub record Announcement : Type 0 where
  pub node_id : Text
  pub priority : Int64
  pub term : Int64

pub record Candidacy : Type 0 where
  pub node_id : Text
  pub priority : Int64

-- `time.Since(b.lastLeaderSeen) > b.timeout`, of a known leader
unfoldable pub is_stale : ℕ → Bully → Bool
is_stale now b = not (text_eq b.leader_id []) && ltb b.timeout (now - b.last_leader_seen)

-- `fresh` of HandleCoordinator
unfoldable pub is_fresh : ℕ → Bully → Bool
is_fresh now b = not (text_eq b.leader_id []) && leb (now - b.last_leader_seen) b.timeout

-- `accept` of HandleCoordinator
unfoldable pub accepts : ℕ → Announcement → Bully → Bool
unfolding is_fresh
accepts now req b =
    lt64 b.leader_priority req.priority
    || ((req.priority == b.leader_priority) && not (lt64 req.term b.leader_term))
    || (not (is_fresh now b) && lt64 b.leader_term req.term)

unfoldable pub handle_coordinator : ℕ → Announcement → Bully → Bully
unfolding accepts
handle_coordinator now req b =
    if accepts now req b
    then record b {
      leader_id = req.node_id;
      leader_priority = req.priority;
      leader_term = req.term;
      last_leader_seen = now;
    }
    else b

-- HandleElection: always OK, and whether an own election is started
unfoldable pub handle_election : Candidacy → Bully → Bool × Bool
handle_election req b = (true, lt64 req.priority b.priority)

-- for _, m := range GetAlivePeers() { if keep(m) … }
unfoldable pub higher_loop : Bully → List Member → List Member
higher_loop b [] = []
higher_loop b (m ∷ ms) =
    let rest = higher_loop b ms in
    if text_eq m.id b.node_id then rest else if lt64 b.priority m.priority then m ∷ rest else rest

unfoldable pub higher_priority_live_peers : Bully → Membership → List Member
higher_priority_live_peers b membership = higher_loop b (get_alive_peers membership)

-- The members that BecomeLeader and announceLeader send a Coordinator message to.
unfoldable pub others_loop : Bully → List Member → List Member
others_loop b [] = []
others_loop b (m ∷ ms) =
    let rest = others_loop b ms in if text_eq m.id b.node_id then rest else m ∷ rest

-- sendCoordinator: the message to each
abbrev pub broadcast : Bully → Int64 → Membership → List (Member × Announcement)
broadcast b term membership =
    map (λ m. (m, record { node_id = b.node_id; priority = b.priority; term = term }))
      (others_loop b (get_alive_peers membership))

-- sendElection: up to `max_probes` attempts, `none` for an error of the call. After a failed attempt a
-- cancelled context ends the loop.
unfoldable pub send_election : ℕ → (ℕ → Option Bool) → (ℕ → Bool) → ℕ → Bool
send_election zero answer cancelled attempt = false
send_election (suc left) answer cancelled attempt =
    let retry = send_election left answer cancelled (attempt + 1) in
    elim (answer attempt) [ some ok ↦ ok | none ↦ if cancelled attempt then false else retry ]

-- The loop over the peers of StartElection: every peer is asked.
unfoldable pub any_ack : (Member → Bool) → Bool → List Member → Bool
any_ack asked ack [] = ack
any_ack asked ack (m ∷ ms) = any_ack asked (if asked m then true else ack) ms

unfoldable pub become_leader : ℕ → Membership → Bully → Bully × List (Member × Announcement)
become_leader now membership b =
    let term = add64 b.leader_term 1 in
    let b' = record b {
      leader_id = b.node_id;
      leader_priority = b.priority;
      leader_term = term;
      last_leader_seen = now;
    } in
    (b', broadcast b' term membership)

-- announceLeader
unfoldable pub announce_leader : Membership → Bully → List (Member × Announcement)
announce_leader membership b = broadcast b b.leader_term membership

-- StartElection up to its wait: the state with the flag cleared again, the messages sent, and whether
-- it goes on to wait for an announcement. A call while another runs returns at once.
unfoldable pub start_election :
    ℕ → (Member → Bool) → Membership → Bully → Bully × List (Member × Announcement) × Bool
unfolding become_leader
start_election now asked membership b =
    if b.election_running
    then (b, [], false)
    else if any_ack asked false (higher_priority_live_peers b membership)
    then (record b { election_running = false }, [], true)
    else (let (b', sent) = become_leader now membership b in
        (record b' { election_running = false }, sent, false))

-- The wait of StartElection: what each poll before the deadline reads of `leaderID`, and whether a poll
-- ended it.
unfoldable pub await_leader : List Text → Bool
await_leader [] = false
await_leader (leader ∷ polls) =
    let rest = await_leader polls in if text_eq leader [] then rest else true

-- One tick of Run.
unfoldable pub tick :
    ℕ → (Member → Bool) → Membership → Bully → Bully × List (Member × Announcement) × Bool
unfolding is_leader is_stale start_election announce_leader
tick now asked membership b =
    if is_leader b
    then (b, announce_leader membership b, false)
    else if text_eq b.leader_id [] || is_stale now b
    then start_election now asked membership b
    else (b, [], false)
