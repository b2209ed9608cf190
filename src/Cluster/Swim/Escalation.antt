-- ===== src/Cluster/Swim/Escalation.antt =====
-- How many failed probes make a member Dead.
use distributed_counter.Base.{
  Text, ℕ, zero, suc, ◌+◌, ◌-◌, ◌<◌, ◌≡◌, refl, ◌∙◌, ap, false, some, arith, inl, inr, max,
  if◌then◌else◌, Bool-cases, lookup, text_eq_refl, leb, ltb,
}
use distributed_counter.Cluster.Member.{alive, suspect, dead, Member, set_status}
use distributed_counter.Cluster.Membership.{
  Membership, get_member, mark_suspect, mark_dead, suspect_unless_terminal,
}
use distributed_counter.Cluster.Membership.Invariant.{lookup-update}
use distributed_counter.Cluster.Swim.{probe_failed}

-- A number of rounds in a row in which both probes of the member fail.
unfoldable pub failures : ℕ → ℕ → Text → Membership → Membership
failures threshold zero id m = m
failures threshold (suc n) id m = probe_failed threshold id (failures threshold n id m)

-- The member after its `n`th failed probe, while it is suspected.
suspected : Member → ℕ → Member
suspected x n = record x { status = suspect; is_active = false; suspect_count = n }

module _ (threshold : ℕ) (id : Text) (m : Membership) (x : Member) (key : x.id ≡ id) where
  first_failure :
      lookup m.members id ≡ some x
      → x.status ≡ alive
      → x.suspect_count ≡ 0
      → lookup (probe_failed threshold id m).members id ≡ some (suspected x 1)
  unfolding probe_failed get_member suspected mark_suspect suspect_unless_terminal
  first_failure e a z =
      ground (arith, lookup-update x.id id suspect_unless_terminal m, text_eq_refl id)

  next_failure :
      (n : ℕ)
      → lookup m.members id ≡ some (suspected x n)
      → lookup (probe_failed threshold id m).members id
        ≡ some
            (if leb threshold (n + 1) then set_status dead (suspected x n) else suspected x (n + 1))
  unfolding probe_failed get_member suspected mark_suspect mark_dead suspect_unless_terminal
  next_failure n e = ground (
    arith,
    lookup-update x.id id suspect_unless_terminal m,
    lookup-update x.id id (set_status dead) m,
    text_eq_refl id,
  )

  no_more_failures :
      (y : Member)
      → lookup m.members id ≡ some y
      → y.status ≡ dead
      → lookup (probe_failed threshold id m).members id ≡ some y
  unfolding probe_failed get_member
  no_more_failures y e d = ground arith

-- What the failure detector knows of the member after its `n`th failed probe.
after_failures : ℕ → Member → ℕ → Member
after_failures threshold x n =
    if ltb n (max 2 threshold)
    then suspected x n
    else set_status dead (suspected x (max 2 threshold - 1))

lookup-failures :
    (threshold n : ℕ) (id : Text) (m : Membership) (x : Member)
    → lookup m.members id ≡ some x
    → x.id ≡ id
    → x.status ≡ alive
    → x.suspect_count ≡ 0
    → lookup (failures threshold (suc n) id m).members id
      ≡ some (after_failures threshold x (suc n))
unfolding after_failures failures
lookup-failures threshold zero id m x e key a z =
    first_failure threshold id m x key e a z ∙ ap some (ground arith)
lookup-failures threshold (suc n) id m x e key a z =
    let before = lookup-failures threshold n id m x e key a z in
    elim (Bool-cases (ltb (suc n) (max 2 threshold))) [
      | inl l ↦
          next_failure threshold id (failures threshold (suc n) id m) x key (suc n) (rw l at before)
          ∙ ap some (unfold suspected in ground arith)
      | inr l ↦
          no_more_failures threshold id (failures threshold (suc n) id m) x key
            (set_status dead (suspected x (max 2 threshold - 1))) (rw l at before)
            (unfold set_status in refl)
          ∙ ap some (ground arith)
    ]

-- A member that is Alive with no suspicion is Suspect after its first failed probe, and Dead from the
-- threshold's failed probe in a row on, or from the second where the threshold is below two.
pub dead_at_threshold :
    (threshold n : ℕ) (id : Text) (m : Membership) (x : Member)
    → lookup m.members id ≡ some x
    → x.id ≡ id
    → x.status ≡ alive
    → x.suspect_count ≡ 0
    → 0 < n
    → (y : Member) × (lookup (failures threshold n id m).members id ≡ some y)
      × (y.status ≡ (if ltb n (max 2 threshold) then suspect else dead))
dead_at_threshold threshold zero id m x e key a z h = absurd (omega arith)
dead_at_threshold threshold (suc n) id m x e key a z h = (
  after_failures threshold x (suc n),
  lookup-failures threshold n id m x e key a z,
  unfold after_failures suspected set_status in ground arith,
)
