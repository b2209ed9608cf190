-- ===== src/Cluster/Membership/Runs.antt =====
-- Runs of the member table: what holds after any sequence of its mutating methods.
use distributed_counter.Base.{
  Text, ℕ, Bool, List, [], ◌∷◌, inl, inr, Bool-cases, GoMap, text_eq, Int64,
}
use distributed_counter.Cluster.Member.{
  Status, alive, dead, left, ProtoStatus, status_from_proto, set_status,
}
use distributed_counter.Cluster.Membership.{
  Membership, new, add_or_update_member_status, add_or_update_member, add_member, heard_from,
  update_heartbeat, set_priority, suspect_unless_terminal, mark_suspect, mark_dead, mark_left,
  mark_inactive, mark_stale, set_recovering, add_discovered_nodes, learn, apply_membership,
}
use distributed_counter.Cluster.Membership.Invariant.{
  IsValid, update-IsValid, heard_from-IsFiled, suspect-IsFiled, set_status-IsFiled, learn-IsFiled,
  add_or_update_member_status-IsValid, stale_loop-IsFiled,
}
use distributed_counter.Cluster.Membership.Stale.{stale_loop-Distinct}

-- A call of a method that changes the table.
pub data Event : Type 0 where
  add : Text → Text → Status → ℕ → Event
  heartbeat : Text → ℕ → Event
  prioritise : Text → Int64 → Event
  suspicion death leave inactivity : Text → Event
  staleness : ℕ → ℕ → Event
  recovery : Bool → Event
  discovery : GoMap Text → ℕ → Event
  gossip : GoMap ProtoStatus → Event

unfoldable pub step : Event → Membership → Membership
step (add id address s t) m = add_or_update_member_status id address s t m
step (heartbeat id now) m = update_heartbeat id now m
step (prioritise id priority) m = set_priority id priority m
step (suspicion id) m = mark_suspect id m
step (death id) m = mark_dead id m
step (leave id) m = mark_left id m
step (inactivity id) m = mark_inactive id m
step (staleness threshold now) m = (mark_stale threshold now m).0
step (recovery b) m = set_recovering b m
step (discovery nodes now) m = add_discovered_nodes nodes now m
step (gossip statuses) m = apply_membership statuses m

unfoldable pub run : List Event → Membership → Membership
run [] m = m
run (e ∷ es) m = run es (step e m)

discovery-IsValid :
    (nodes : GoMap Text) (now : ℕ) (m : Membership)
    → IsValid m
    → IsValid (add_discovered_nodes nodes now m)
unfolding add_discovered_nodes
discovery-IsValid [] now m h = h
discovery-IsValid ((id, address) ∷ nodes) now m h =
    discovery-IsValid nodes now _ (elim (Bool-cases (text_eq id m.node_id)) [
      | inl e ↦ rw e h
      | inr e ↦ rw e (
          unfold add_member add_or_update_member in
          add_or_update_member_status-IsValid id address alive now m h)
    ])

gossip-IsValid :
    (statuses : GoMap ProtoStatus) (m : Membership)
    → IsValid m
    → IsValid (apply_membership statuses m)
unfolding apply_membership
gossip-IsValid [] m h = h
gossip-IsValid ((id, s) ∷ statuses) m h =
    gossip-IsValid statuses _ (elim (Bool-cases (text_eq id m.node_id)) [
      | inl e ↦ rw e h
      | inr e ↦ rw e (
          update-IsValid id (learn (status_from_proto s)) m
            (λ x f. learn-IsFiled id x f (status_from_proto s)) h)
    ])

step-IsValid : (e : Event) (m : Membership) → IsValid m → IsValid (step e m)
unfolding step
step-IsValid (add id address s t) m h = add_or_update_member_status-IsValid id address s t m h
step-IsValid (heartbeat id now) m h =
    unfold update_heartbeat in
    update-IsValid id (heard_from now) m (λ x f. heard_from-IsFiled id x f now) h
step-IsValid (prioritise id priority) m h =
    unfold set_priority in
    update-IsValid id (λ x. record x { priority = priority }) m
      (λ x f. record { key = f.key; active = f.active }) h
step-IsValid (suspicion id) m h =
    unfold mark_suspect in
    update-IsValid id suspect_unless_terminal m (λ x f. suspect-IsFiled id x f) h
step-IsValid (death id) m h =
    unfold mark_dead in
    update-IsValid id (set_status dead) m (λ x f. set_status-IsFiled id x f dead) h
step-IsValid (leave id) m h =
    unfold mark_left in
    update-IsValid id (set_status left) m (λ x f. set_status-IsFiled id x f left) h
step-IsValid (inactivity id) m h =
    unfold mark_inactive mark_suspect in
    update-IsValid id suspect_unless_terminal m (λ x f. suspect-IsFiled id x f) h
step-IsValid (staleness threshold now) m h =
    unfold mark_stale in
    record {
      distinct = stale_loop-Distinct m.node_id threshold now m.members h.distinct;
      filed = stale_loop-IsFiled m.node_id threshold now m.members h.filed;
    }
step-IsValid (recovery b) m h =
    unfold set_recovering in record { distinct = h.distinct; filed = h.filed }
step-IsValid (discovery nodes now) m h = discovery-IsValid nodes now m h
step-IsValid (gossip statuses) m h = gossip-IsValid statuses m h

run-IsValid : (es : List Event) (m : Membership) → IsValid m → IsValid (run es m)
unfolding run
run-IsValid [] m h = h
run-IsValid (e ∷ es) m h = run-IsValid es (step e m) (step-IsValid e m h)

-- After any sequence of calls on a new table, no member stands twice, each stands under its own id, and
-- its active flag is set exactly if its status is Alive.
pub table_run-IsValid : (node_id : Text) (es : List Event) → IsValid (run es (new node_id))
unfolding new
table_run-IsValid node_id es = run-IsValid es (new node_id) (record { distinct = tt; filed = tt })
