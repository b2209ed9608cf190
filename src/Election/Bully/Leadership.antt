-- ===== src/Election/Bully/Leadership.antt =====
-- Whom a node follows: what coordinator announcements do to its leader.
use distributed_counter.Base.{
  ℕ, ◌+◌, ◌<◌, ◌≤◌, ◌≡◌, ◌⊎◌, refl, ◌∙◌, true, false, List, [], ◌∷◌, arith, inl, inr, Bool-cases,
  text_eq, Int64, i64_mod, lt64, lt64_asymm, lt64_irrefl, key64, key64_inj, max, ◌*◌, ap,
}
use distributed_counter.Election.Bully.{Bully, Announcement, is_fresh, accepts, handle_coordinator}

-- A healthy leader is not displaced by an announcement of a lower priority, nor by one of its own
-- priority and an older term: the node's state stays as it is, whoever sends it and whatever the term
-- of the lower priority.
pub healthy_leader_stays :
    (now : ℕ) (req : Announcement) (b : Bully)
    → is_fresh now b ≡ true
    → (lt64 req.priority b.leader_priority ≡ true)
      ⊎ ((req.priority ≡ b.leader_priority) × (lt64 req.term b.leader_term ≡ true))
    → handle_coordinator now req b ≡ b
unfolding handle_coordinator accepts
healthy_leader_stays now req b fresh low = ground (
  arith,
  lt64_asymm req.priority b.leader_priority,
  lt64_irrefl b.leader_priority,
  lt64_irrefl req.priority,
)

-- Priority first, then term, as one number.
abbrev pub rank : Int64 → Int64 → ℕ
rank priority term = key64 priority * i64_mod + key64 term

abbrev pub leader_rank : Bully → ℕ
leader_rank b = rank b.leader_priority b.leader_term

abbrev pub rank_of : Announcement → ℕ
rank_of req = rank req.priority req.term

-- Announcements, each with the instant at which it is handled.
unfoldable pub deliver : List (ℕ × Announcement) → Bully → Bully
deliver [] b = b
deliver ((now, req) ∷ rest) b = deliver rest (handle_coordinator now req b)

abbrev pub best : ℕ → List (ℕ × Announcement) → ℕ
best r [] = r
best r ((now, req) ∷ rest) = best (max r (rank_of req)) rest

-- An announcement with int64 fields and a sender, handled between the two instants.
pub record IsTimely (from until now : ℕ) (req : Announcement) : Type 0 where
  pub after : from ≤ now
  pub before : now ≤ until
  pub named : text_eq req.node_id [] ≡ false
  pub priority_range : req.priority < i64_mod
  pub term_range : req.term < i64_mod

-- A node with a leader last seen between the two instants, which lie no more than its timeout apart.
pub record IsFollowing (from until : ℕ) (b : Bully) : Type 0 where
  pub seen : from ≤ b.last_leader_seen
  pub window : until ≤ from + b.timeout
  pub named : text_eq b.leader_id [] ≡ false
  pub priority_range : b.leader_priority < i64_mod
  pub term_range : b.leader_term < i64_mod

handle-IsFollowing :
    {from until : ℕ} (now : ℕ) (req : Announcement) (b : Bully)
    → IsTimely from until now req
    → IsFollowing from until b
    → IsFollowing from until (handle_coordinator now req b)
unfolding handle_coordinator
handle-IsFollowing now req b t f = elim (Bool-cases (accepts now req b)) [
  | inl e ↦
      rw (e, handle_coordinator)
        (record {
          seen = t.after;
          window = f.window;
          named = t.named;
          priority_range = t.priority_range;
          term_range = t.term_range;
        })
  | inr e ↦ rw (e, handle_coordinator) f
]

leader_rank-handle :
    {from until : ℕ} (now : ℕ) (req : Announcement) (b : Bully)
    → IsTimely from until now req
    → IsFollowing from until b
    → leader_rank (handle_coordinator now req b) ≡ max (leader_rank b) (rank_of req)
unfolding handle_coordinator accepts is_fresh lt64
leader_rank-handle now req b t f =
    ground (arith, key64_inj req.priority b.leader_priority t.priority_range f.priority_range)

abbrev pub AllTimely : ℕ → ℕ → List (ℕ × Announcement) → Type 0
AllTimely from until [] = Unit
AllTimely from until ((now, req) ∷ rest) = IsTimely from until now req × AllTimely from until rest

-- Within one leader timeout, whatever the order in which announcements arrive, a node that has a leader
-- ends with the greatest priority that was announced or that it knew, and with the greatest term that
-- came with that priority.
pub follows_the_greatest :
    (from until : ℕ) (msgs : List (ℕ × Announcement)) (b : Bully)
    → AllTimely from until msgs
    → IsFollowing from until b
    → leader_rank (deliver msgs b) ≡ best (leader_rank b) msgs
unfolding deliver
follows_the_greatest from until [] b t f = refl
follows_the_greatest from until ((now, req) ∷ rest) b t f =
    follows_the_greatest from until rest (handle_coordinator now req b) t.1
      (handle-IsFollowing now req b t.0 f)
    ∙ ap (λ r. best r rest) (leader_rank-handle now req b t.0 f)
