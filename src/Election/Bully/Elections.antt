-- ===== src/Election/Bully/Elections.antt =====
-- Who wins an election that StartElection runs.
use mathlib.Core.List.{
  Mem, mem-cons_self, mem-cons_of_mem, not-mem-nil, mem-cons, Mem-prop, mem-map_of_mem,
}
use mathlib.Core.Logic.Or
use distributed_counter.Base.{
  ℕ, ◌≡◌, refl, sym, subst, ◌↔◌, Bool, true, false, List, [], ◌∷◌, arith, inl, inr, Bool-cases,
  text_eq, text_eq_refl, lt64, add64,
}
use distributed_counter.Cluster.Member.{Member}
use distributed_counter.Cluster.Membership.{Membership, get_alive_peers}
use distributed_counter.Election.Bully.{
  Bully, is_leader, higher_loop, higher_priority_live_peers, others_loop, any_ack, become_leader,
  start_election, broadcast,
}

-- No member of the list that is another node of a higher priority answers the probe.
abbrev pub AllSilent : (Member → Bool) → Bully → List Member → Type 0
AllSilent asked b [] = Unit
AllSilent asked b (m ∷ ms) =
    (text_eq m.id b.node_id ≡ false → lt64 b.priority m.priority ≡ true → asked m ≡ false)
    × AllSilent asked b ms

any_ack-true : (asked : Member → Bool) (ms : List Member) → any_ack asked true ms ≡ true
unfolding any_ack
any_ack-true asked [] = refl
any_ack-true asked (m ∷ ms) = elim (Bool-cases (asked m)) [
  | inl e ↦ rw e (any_ack-true asked ms)
  | inr e ↦ rw e (any_ack-true asked ms)
]

silent_no_ack :
    (asked : Member → Bool) (b : Bully) (ms : List Member)
    → AllSilent asked b ms
    → any_ack asked false (higher_loop b ms) ≡ false
unfolding any_ack higher_loop
silent_no_ack asked b [] h = refl
silent_no_ack asked b (m ∷ ms) h = ground (arith, h.0, silent_no_ack asked b ms h.1)

no_ack_silent :
    (asked : Member → Bool) (b : Bully) (ms : List Member)
    → any_ack asked false (higher_loop b ms) ≡ false
    → AllSilent asked b ms
unfolding any_ack higher_loop
no_ack_silent asked b [] h = tt
no_ack_silent asked b (m ∷ ms) h = (
  λ other higher. ground (arith, any_ack-true asked (higher_loop b ms)),
  no_ack_silent asked b ms (ground (arith, any_ack-true asked (higher_loop b ms))),
)

start_wins :
    (now : ℕ) (asked : Member → Bool) (membership : Membership) (b : Bully)
    → b.election_running ≡ false
    → any_ack asked false (higher_priority_live_peers b membership) ≡ false
    → is_leader (start_election now asked membership b).0 ≡ true
unfolding start_election become_leader is_leader text_eq any_ack higher_priority_live_peers
    higher_loop
start_wins now asked membership b idle e = rw (idle, e) (text_eq_refl b.node_id)

start_waits :
    (now : ℕ) (asked : Member → Bool) (membership : Membership) (b : Bully)
    → b.election_running ≡ false
    → any_ack asked false (higher_priority_live_peers b membership) ≡ true
    → is_leader (start_election now asked membership b).0 ≡ is_leader b
unfolding start_election is_leader text_eq any_ack higher_priority_live_peers higher_loop
start_waits now asked membership b idle e = rw (idle, e) refl

-- A node that does not lead and runs no election yet comes out of StartElection as its own leader
-- exactly when no other live member of a higher priority answers its probe.
pub election_won_iff :
    (now : ℕ) (asked : Member → Bool) (membership : Membership) (b : Bully)
    → b.election_running ≡ false
    → is_leader b ≡ false
    → (is_leader (start_election now asked membership b).0 ≡ true)
      ↔ AllSilent asked b (get_alive_peers membership)
unfolding higher_priority_live_peers
election_won_iff now asked membership b idle other =
    let asked_all = any_ack asked false (higher_priority_live_peers b membership) in
    (
      λ won. elim (Bool-cases asked_all) [
        | inl e ↦ absurd (ground (arith, start_waits now asked membership b idle))
        | inr e ↦ no_ack_silent asked b (get_alive_peers membership) e
      ],
      λ silent.
          start_wins now asked membership b idle
            (silent_no_ack asked b (get_alive_peers membership) silent),
    )

-- What a new leader sends, and to whom: a message to every live member that is not the node itself, with
-- its own priority and the term that follows the one it knew.
others_loop-Mem :
    (b : Bully) (m : Member) (ms : List Member)
    → Mem m ms
    → text_eq m.id b.node_id ≡ false
    → Mem m (others_loop b ms)
unfolding others_loop
others_loop-Mem b m [] h e = absurd (not-mem-nil h)
others_loop-Mem b m (x ∷ xs) h e = elim (Bool-cases (text_eq x.id b.node_id)) [
  | inl own ↦
      rw own
        (Or.elim Mem-prop (mem-cons.0 h) (λ same. absurd (cc)) (λ r. others_loop-Mem b m xs r e))
  | inr other ↦ rw other (
      Or.elim Mem-prop (mem-cons.0 h) (λ same. rw same mem-cons_self)
        (λ r. mem-cons_of_mem x (others_loop-Mem b m xs r e)))
]

start_sends :
    (now : ℕ) (asked : Member → Bool) (membership : Membership) (b : Bully)
    → b.election_running ≡ false
    → any_ack asked false (higher_priority_live_peers b membership) ≡ false
    → (start_election now asked membership b).1
      ≡ broadcast (become_leader now membership b).0 (add64 b.leader_term 1) membership
unfolding start_election become_leader any_ack higher_priority_live_peers higher_loop
start_sends now asked membership b idle e = rw (idle, e) refl

-- The winner of an election tells every other live member: each is sent the winner's id and priority,
-- with the term that follows the one that the winner knew.
pub winner_tells_everyone :
    (now : ℕ) (asked : Member → Bool) (membership : Membership) (b : Bully) (m : Member)
    → b.election_running ≡ false
    → AllSilent asked b (get_alive_peers membership)
    → Mem m (get_alive_peers membership)
    → text_eq m.id b.node_id ≡ false
    → Mem
        (m, record { node_id = b.node_id; priority = b.priority; term = add64 b.leader_term 1 })
        (start_election now asked membership b).1
unfolding higher_priority_live_peers become_leader
winner_tells_everyone now asked membership b m idle silent member other =
    let none_acked = silent_no_ack asked b (get_alive_peers membership) silent in
    let winner = (become_leader now membership b).0 in
    subst (Mem _) (sym (start_sends now asked membership b idle none_acked))
      (mem-map_of_mem _ (others_loop-Mem winner m (get_alive_peers membership) member other))
