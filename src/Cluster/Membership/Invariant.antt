-- ===== src/Cluster/Membership/Invariant.antt =====
-- The invariant of the member table: it is filed by member id, and `is_active` says whether the status
-- is Alive.
use mathlib.Core.Option
use distributed_counter.Base.{
  Text, ℕ, ◌≡◌, refl, [], ◌∷◌, arith, inl, inr, if◌then◌else◌, Option-cases, GoMap, lookup,
  Distinct, AllEntries, set-Distinct, AllEntries-set, AllEntries-lookup, lookup-set, text_eq,
  text_eq_iff,
}
use distributed_counter.Cluster.Member.{Status, Member, is_alive, set_status}
use distributed_counter.Cluster.Membership.{
  Membership, update, refresh, fresh_member, add_or_update_member_status, heard_from,
  suspect_unless_terminal, escalate, stale_member, stale_loop, learn,
}

-- A member under its key.
pub record IsFiled (k : Text) (x : Member) : Type 0 where
  pub key : x.id ≡ k
  pub active : x.is_active ≡ is_alive x.status

pub record IsValid (m : Membership) : Type 0 where
  pub distinct : Distinct m.members
  pub filed : AllEntries IsFiled m.members

pub lookup-update :
    (id j : Text) (change : Member → Member) (m : Membership)
    → lookup (update id change m).members j
      ≡ (if text_eq id j then Option.map change (lookup m.members j) else lookup m.members j)
unfolding update
lookup-update id j change m = elim (Option-cases (lookup m.members id)) [
  | inl e ↦ ground (arith, text_eq_iff id j)
  | inr (x, e) ↦ ground (arith, lookup-set m.members id j (change x), text_eq_iff id j)
]

pub update-IsValid :
    (id : Text) (change : Member → Member) (m : Membership)
    → ((x : Member) → IsFiled id x → IsFiled id (change x))
    → IsValid m
    → IsValid (update id change m)
unfolding update
update-IsValid id change m keeps h = elim (Option-cases (lookup m.members id)) [
  | inl e ↦ rw (e, update) h
  | inr (x, e) ↦
      rw (e, update)
        (record {
          distinct = set-Distinct m.members id (change x) h.distinct;
          filed =
              AllEntries-set IsFiled m.members id (change x) h.filed
                (keeps x (AllEntries-lookup IsFiled m.members id h.filed e));
        })
]

-- One lemma for each change that a method makes to one member.
module _ (id : Text) (x : Member) (h : IsFiled id x) where
  pub refresh-IsFiled : (address : Text) (s : Status) (t : ℕ) → IsFiled id (refresh address s t x)
  unfolding refresh
  refresh-IsFiled address s t = ground arith

  pub heard_from-IsFiled : (now : ℕ) → IsFiled id (heard_from now x)
  unfolding heard_from
  heard_from-IsFiled now = ground arith

  pub suspect-IsFiled : IsFiled id (suspect_unless_terminal x)
  unfolding suspect_unless_terminal
  suspect-IsFiled = ground arith

  pub set_status-IsFiled : (s : Status) → IsFiled id (set_status s x)
  unfolding set_status
  set_status-IsFiled s = ground arith

  pub escalate-IsFiled : (s : Status) → IsFiled id (escalate s x).0
  unfolding escalate
  escalate-IsFiled s = ground arith

  pub learn-IsFiled : (s : Status) → IsFiled id (learn s x)
  unfolding learn
  learn-IsFiled s = ground arith

stale_member-IsFiled :
    (node_id : Text) (threshold now : ℕ) (id : Text) (x : Member)
    → IsFiled id x
    → IsFiled id (stale_member node_id threshold now id x).0
unfolding stale_member
stale_member-IsFiled node_id threshold now id x h = ground arith

fresh_member-IsFiled :
    (id address : Text) (s : Status) (t : ℕ) → IsFiled id (fresh_member id address s t)
unfolding fresh_member set_status
fresh_member-IsFiled id address s t = record { key = refl; active = refl }

pub add_or_update_member_status-IsValid :
    (id address : Text) (s : Status) (t : ℕ) (m : Membership)
    → IsValid m
    → IsValid (add_or_update_member_status id address s t m)
unfolding add_or_update_member_status
add_or_update_member_status-IsValid id address s t m h = elim (Option-cases (lookup m.members id)) [
  | inl e ↦
      rw (e, add_or_update_member_status)
        (record {
          distinct = set-Distinct m.members id (fresh_member id address s t) h.distinct;
          filed =
              AllEntries-set IsFiled m.members id (fresh_member id address s t) h.filed
                (fresh_member-IsFiled id address s t);
        })
  | inr (x, e) ↦
      rw (e, add_or_update_member_status)
        (record {
          distinct = set-Distinct m.members id (refresh address s t x) h.distinct;
          filed =
              AllEntries-set IsFiled m.members id (refresh address s t x) h.filed (
                refresh-IsFiled id x (AllEntries-lookup IsFiled m.members id h.filed e) address s
                  t);
        })
]

pub stale_loop-IsFiled :
    (node_id : Text) (threshold now : ℕ) (ms : GoMap Member)
    → AllEntries IsFiled ms
    → AllEntries IsFiled (stale_loop node_id threshold now ms).0
unfolding stale_loop
stale_loop-IsFiled node_id threshold now [] h = tt
stale_loop-IsFiled node_id threshold now ((id, x) ∷ ms) h = (
  stale_member-IsFiled node_id threshold now id x h.0,
  stale_loop-IsFiled node_id threshold now ms h.1,
)
