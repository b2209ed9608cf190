-- ===== src/Cluster/Membership/Stale.antt =====
-- MarkStale of internal/cluster/membership.go, member by member.
use mathlib.Core.Option
use distributed_counter.Base.{
  Text, ℕ, ◌-◌, ◌≡◌, refl, ◌∙◌, ap, subst, ◌&&◌, not, Bool, true, false, Option, none, some, List,
  [], ◌∷◌, arith, inl, inr, if◌then◌else◌, Bool-cases, GoMap, lookup, Distinct, text_eq,
  text_eq_iff, ltb,
}
use distributed_counter.Cluster.Member.{Status, alive, suspect, dead, Member, set_status}
use distributed_counter.Cluster.Membership.{
  Membership, is_terminal, raise_suspicion, escalate, stale_member, stale_loop, mark_stale,
}

pub lookup-stale_loop :
    (node_id : Text) (threshold now : ℕ) (ms : GoMap Member) (j : Text)
    → lookup (stale_loop node_id threshold now ms).0 j
      ≡ Option.map (λ x. (stale_member node_id threshold now j x).0) (lookup ms j)
unfolding stale_loop lookup
lookup-stale_loop node_id threshold now [] j = refl
lookup-stale_loop node_id threshold now ((id, x) ∷ ms) j = elim (Bool-cases (text_eq id j)) [
  | inl e ↦ rw e (rw ((text_eq_iff id j).0 e))
  | inr e ↦ rw e (lookup-stale_loop node_id threshold now ms j)
]

pub stale_loop-Distinct :
    (node_id : Text) (threshold now : ℕ) (ms : GoMap Member)
    → Distinct ms
    → Distinct (stale_loop node_id threshold now ms).0
unfolding stale_loop
stale_loop-Distinct node_id threshold now [] d = tt
stale_loop-Distinct node_id threshold now ((id, x) ∷ ms) d = (
  lookup-stale_loop node_id threshold now ms id ∙ rw d.0,
  stale_loop-Distinct node_id threshold now ms d.1,
)

-- The reported ids.
abbrev pub has : Text → List Text → Bool
has k [] = false
has k (j ∷ js) = if text_eq j k then true else has k js

here :
    (j : Text) (moved : Bool) (changed : List Text)
    → has j changed ≡ false
    → has j (if moved then j ∷ changed else changed) ≡ moved
here j moved changed q = ground (arith, text_eq_iff j j)

there :
    (id j : Text) (moved : Bool) (changed : List Text)
    → text_eq id j ≡ false
    → has j (if moved then id ∷ changed else changed) ≡ has j changed
there id j moved changed e = ground arith

reported : Option Member → (Member → Bool) → Bool
reported none moved = false
reported (some x) moved = moved x

has-stale_loop :
    (node_id : Text) (threshold now : ℕ) (ms : GoMap Member) (j : Text)
    → Distinct ms
    → has j (stale_loop node_id threshold now ms).1
      ≡ reported (lookup ms j) (λ x. (stale_member node_id threshold now j x).1)
unfolding stale_loop lookup reported
has-stale_loop node_id threshold now [] j d = refl
has-stale_loop node_id threshold now ((id, x) ∷ ms) j d =
    let ih = has-stale_loop node_id threshold now ms j d.1 in
    elim (Bool-cases (text_eq id j)) [
      | inl e ↦
          let same = (text_eq_iff id j).0 e in
          let gone : lookup ms j ≡ none = subst (λ k. lookup ms k ≡ none) same d.0 in
          let quiet =
            ih ∙ ap (λ o. reported o (λ y. (stale_member node_id threshold now j y).1)) gone in
          rw e (
            rw same (
              here j (stale_member node_id threshold now j x).1
                (stale_loop node_id threshold now ms).1 quiet))
      | inr e ↦ rw e (
          there id j (stale_member node_id threshold now id x).1
            (stale_loop node_id threshold now ms).1 e
          ∙ ih)
    ]

-- One step up.
abbrev pub next_status : Status → Status
next_status alive = suspect
next_status suspect = dead
next_status s = s

-- MarkStale moves a member one step up, Alive to Suspect and Suspect to Dead, exactly if it is another
-- node's, its heartbeat is older than the threshold and it is not Dead or Left. It reports exactly the
-- ids of the members that it moves, and keeps the status of the others.
pub mark_stale_escalates :
    (threshold now : ℕ) (m : Membership) (id : Text) (x : Member)
    → Distinct m.members
    → lookup m.members id ≡ some x
    → let due =
        not (text_eq id m.node_id)
        && (ltb threshold (now - x.last_heartbeat) && not (is_terminal x.status)) in
      (y : Member) × (lookup (mark_stale threshold now m).0.members id ≡ some y)
      × (y.status ≡ (if due then next_status x.status else x.status))
      × (has id (mark_stale threshold now m).1 ≡ due)
unfolding mark_stale
mark_stale_escalates threshold now m id x d e = (
  (stale_member m.node_id threshold now id x).0,
  lookup-stale_loop m.node_id threshold now m.members id ∙ rw e,
  unfold stale_member escalate raise_suspicion set_status in ground arith,
  has-stale_loop m.node_id threshold now m.members id d
      ∙ (rw e (unfold reported stale_member escalate in ground arith)),
)
