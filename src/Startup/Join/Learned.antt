-- ===== src/Startup/Join/Learned.antt =====
-- What a node that joins through joinCluster of cmd/server/main.go takes from the list that a seed's
-- JoinCluster sends.
use distributed_counter.Base.{
  Text, ℕ, ◌≡◌, refl, ◌∙◌, ap, Bool, true, false, some, List, [], ◌∷◌, ◌++◌, if◌then◌else◌, GoMap,
  lookup, values, text_eq_refl, map,
}
use distributed_counter.Cluster.Member.{alive, Member}
use distributed_counter.Cluster.Membership.{
  Membership, add_member, add_or_update_member, get_members,
}
use distributed_counter.Cluster.Membership.Invariant.{IsValid, add_or_update_member_status-IsValid}
use distributed_counter.Service.State.{Service}
use distributed_counter.Service.Members.{member_info, member_list, join_cluster}
use distributed_counter.Startup.Join.Table.{
  reported, lookup-report, after_list, lookup-learn_members,
}
use distributed_counter.Startup.Join.{
  JoinAnswer, unreachable, refused, streamed, learn_members, receive_lists, join_loop, join_seeds,
}

-- A seed that sends no list.
unfoldable pub SendsNothing : JoinAnswer → Type 0
SendsNothing unreachable = Unit
SendsNothing refused = Unit
SendsNothing (streamed [] failed) = Unit
SendsNothing (streamed (_ ∷ _) failed) = ⊥

unfoldable pub AllSendNothing : (Text → JoinAnswer) → List Text → Type 0
AllSendNothing answer [] = Unit
AllSendNothing answer (seed ∷ seeds) = SendsNothing (answer seed) × AllSendNothing answer seeds

-- The round of a seed, by its answer.
abbrev try_seed :
    JoinAnswer → (Text → JoinAnswer) → List Text → Bool → Membership → Membership × Bool
try_seed unreachable answer seeds e m = join_loop answer seeds true m
try_seed refused answer seeds e m = join_loop answer seeds true m
try_seed (streamed [] failed) answer seeds e m =
    join_loop answer seeds (if failed then true else e) m
try_seed (streamed (l ∷ ls) failed) answer seeds e m = (receive_lists (l ∷ ls) m, false)

join_loop-try_seed :
    (a : JoinAnswer) (answer : Text → JoinAnswer) (seed : Text) (seeds : List Text) (e : Bool)
    (m : Membership)
    → answer seed ≡ a
    → join_loop answer (seed ∷ seeds) e m ≡ try_seed a answer seeds e m
unfolding join_loop receive_lists
join_loop-try_seed unreachable answer seed seeds e m h = rw (join_loop, h) refl
join_loop-try_seed refused answer seed seeds e m h = rw (join_loop, h) refl
join_loop-try_seed (streamed [] failed) answer seed seeds e m h = rw (join_loop, h) refl
join_loop-try_seed (streamed (l ∷ ls) failed) answer seed seeds e m h = rw (join_loop, h) refl

try_seed-skips :
    (a : JoinAnswer) (answer : Text → JoinAnswer) (seeds : List Text) (e : Bool) (m : Membership)
    → SendsNothing a
    → (e' : Bool) × (try_seed a answer seeds e m ≡ join_loop answer seeds e' m)
unfolding SendsNothing
try_seed-skips unreachable answer seeds e m h = (true, refl)
try_seed-skips refused answer seeds e m h = (true, refl)
try_seed-skips (streamed [] failed) answer seeds e m h = ((if failed then true else e), refl)
try_seed-skips (streamed (l ∷ ls) failed) answer seeds e m h = absurd h

-- Seeds that send nothing are passed over.
join_loop-skips :
    (answer : Text → JoinAnswer) (before seeds : List Text) (e : Bool) (m : Membership)
    → AllSendNothing answer before
    → (e' : Bool) × (join_loop answer (before ++ seeds) e m ≡ join_loop answer seeds e' m)
unfolding AllSendNothing
join_loop-skips answer [] seeds e m h = (e, refl)
join_loop-skips answer (b ∷ before) seeds e m h =
    let here = join_loop-try_seed (answer b) answer b (before ++ seeds) e m refl in
    let (e1, one) = try_seed-skips (answer b) answer (before ++ seeds) e m h.0 in
    let (e2, more) = join_loop-skips answer before seeds e1 m h.1 in (e2, here ∙ one ∙ more)

-- The list of JoinCluster is the seed's table, where that is not empty.
member_list-values :
    (now : ℕ) (id address : Text) (es : GoMap Member) (k : Text) {x : Member}
    → lookup es k ≡ some x
    → member_list now id address (map member_info (values es)) ≡ map member_info (values es)
unfolding member_list values lookup
member_list-values now id address [] k h = absurd (cc h)
member_list-values now id address (e ∷ es) k h = refl

-- The caller stands in the seed's table.
lookup-add_member :
    (id address : Text) (now : ℕ) (m : Membership)
    → lookup (add_member id address now m).members id
      ≡ some (reported id address alive now (lookup m.members id))
unfolding add_member add_or_update_member
lookup-add_member id address now m =
    lookup-report id address alive now m id ∙ rw (text_eq_refl id) refl

add_member-IsValid :
    (id address : Text) (now : ℕ) (m : Membership)
    → IsValid m
    → IsValid (add_member id address now m)
unfolding add_member add_or_update_member
add_member-IsValid id address now m h = add_or_update_member_status-IsValid id address alive now m h

-- What a seed with a member table sends to the caller.
seed_list :
    (now : ℕ) (id address : Text) (s : Service) (cluster : Membership)
    → s.cluster ≡ some cluster
    → (join_cluster now id address s).1
      ≡ map member_info (values (add_member id address now cluster).members)
unfolding join_cluster get_members
seed_list now id address s cluster h =
    rw (join_cluster, h)
      (member_list-values now id address _ id (lookup-add_member id address now cluster))

-- The first seed that sends a list, after seeds that are not reached, refuse or send nothing, and that
-- sends what its JoinCluster made of its valid table, is the last one asked: the node joins without an
-- error, and its table has of every member of the seed's table, the node itself among them, the seed's
-- address and its instant in seconds. A member that the node did not know has the seed's status, and
-- its priority where that is positive; one that it knew becomes Alive where the seed has it Alive, and keeps its status otherwise.
-- All other entries stay.
pub join_seeds-learns_the_table :
    (answer : Text → JoinAnswer) (before rest : List Text) (seed : Text) (now : ℕ)
    (id address : Text) (s : Service) (cluster m : Membership) (failed : Bool)
    → AllSendNothing answer before
    → s.cluster ≡ some cluster
    → IsValid cluster
    → answer seed ≡ streamed ((join_cluster now id address s).1 ∷ []) failed
    → ((join_seeds answer (before ++ seed ∷ rest) m).1 ≡ false)
      × ((k : Text)
          → lookup (join_seeds answer (before ++ seed ∷ rest) m).0.members k
            ≡ after_list
                (lookup (add_member id address now cluster).members k)
                (lookup m.members k))
unfolding join_seeds
join_seeds-learns_the_table answer before rest seed now id address s cluster m failed n h v a =
    let (e, skipped) = join_loop-skips answer before (seed ∷ rest) false m n in
    let ends = skipped ∙ join_loop-try_seed _ answer seed rest e m a in
    let valid = add_member-IsValid id address now cluster v in
    (
      ap (λ r. r.1) ends,
      λ k.
          ap (λ r. lookup r.0.members k) ends
          ∙ ap (λ l. lookup (learn_members l m).members k) (seed_list now id address s cluster h)
          ∙ lookup-learn_members k _ m valid.distinct valid.filed,
    )
