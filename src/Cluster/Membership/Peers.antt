-- ===== src/Cluster/Membership/Peers.antt =====
-- Whom gossip, elections and the failure detector pick.
use mathlib.Core.List.{Mem, Perm, mem-cons, mem-cons_self, mem-cons_of_mem, not-mem-nil, Mem-prop}
use mathlib.Core.List.Perm
use mathlib.Core.Logic.Or
use mathlib.Core.Bool.{Bool-set}
use mathlib.Core.List.{Permᴰ}
use mathlib.Core.Logic.{∥∥₁_elim}
use native.Mathlib.Nat.{ℕ_set}
use distributed_counter.Base.{
  values, Text, ℕ, zero, suc, ◌≤◌, ◌≡◌, ◌≢◌, refl, ◌∙◌, ◌⊎◌, ap, Bool, true, false, not, ◌&&◌,
  if◌then◌else◌, text_eq, text_eq_iff, List, [], ◌∷◌, arith, inl, inr, GoMap, length, take,
  length-take-le, take_all,
}
use distributed_counter.Cluster.Member.{Status, alive, suspect, dead, left, Member, is_alive}
use distributed_counter.Cluster.Membership.{
  Membership, is_peer, select, random_peers_loop, get_alive_peers, get_random_peers, get_members,
}

mem-take {ℓ} : {A : Type ℓ} (n : ℕ) (xs : List A) {a : A} → Mem a (take n xs) → Mem a xs
mem-take zero xs m = absurd (not-mem-nil m)
mem-take (suc n) [] m = m
mem-take (suc n) (x ∷ xs) m =
    Or.elim Mem-prop (mem-cons.0 m) (λ e. rw e mem-cons_self)
      (λ r. mem-cons_of_mem x (mem-take n xs r))

-- The Alive members of other nodes, in the order of the list.
abbrev keep_alive : Status → Bool → Member → List Member → List Member
keep_alive alive false x rest = x ∷ rest
keep_alive _ _ x rest = rest

abbrev pub alive_others : Text → List Member → List Member
alive_others node_id [] = []
alive_others node_id (x ∷ xs) =
    keep_alive x.status (text_eq x.id node_id) x (alive_others node_id xs)

-- A test that adds the Alive members of other nodes.
keep_alive-if :
    (s : Status) (b : Bool) (x : Member) (rest : List Member)
    → (if not b && is_alive s then x ∷ rest else rest) ≡ keep_alive s b x rest
keep_alive-if alive true x rest = refl
keep_alive-if alive false x rest = refl
keep_alive-if suspect b x rest = ground arith
keep_alive-if dead b x rest = ground arith
keep_alive-if left b x rest = ground arith

random_peers_loop-alive_others :
    (node_id : Text) (ms : GoMap Member)
    → random_peers_loop node_id ms ≡ alive_others node_id (values ms)
unfolding random_peers_loop values
random_peers_loop-alive_others node_id [] = refl
random_peers_loop-alive_others node_id ((id, x) ∷ ms) =
    keep_alive-if x.status (text_eq x.id node_id) x (random_peers_loop node_id ms)
    ∙ ap (keep_alive x.status (text_eq x.id node_id) x) (random_peers_loop-alive_others node_id ms)

select-alive_others :
    (node_id : Text) (ms : GoMap Member)
    → select (is_peer node_id) ms ≡ alive_others node_id (values ms)
unfolding select is_peer values
select-alive_others node_id [] = refl
select-alive_others node_id ((id, x) ∷ ms) =
    keep_alive-if x.status (text_eq x.id node_id) x (select (is_peer node_id) ms)
    ∙ ap (keep_alive x.status (text_eq x.id node_id) x) (select-alive_others node_id ms)

-- A member of the table that is Alive and another node's.
abbrev pub IsAliveOther : Text → List Member → Member → Type 0
IsAliveOther node_id xs p = Mem p xs × (p.status ≡ alive) × (p.id ≢ node_id)

keep_alive-cases :
    (s : Status) (b : Bool) (x : Member) (rest : List Member)
    → (((not b && is_alive s) ≡ true) × (keep_alive s b x rest ≡ x ∷ rest))
      ⊎ (keep_alive s b x rest ≡ rest)
keep_alive-cases alive true x rest = inr refl
keep_alive-cases alive false x rest = inl (refl, refl)
keep_alive-cases suspect b x rest = inr refl
keep_alive-cases dead b x rest = inr refl
keep_alive-cases left b x rest = inr refl

alive_others-test :
    (node_id : Text) (xs : List Member) {p : Member}
    → Mem p (alive_others node_id xs)
    → (not (text_eq p.id node_id) && is_alive p.status) ≡ true
alive_others-test node_id [] m = absurd (not-mem-nil m)
alive_others-test node_id (x ∷ xs) m =
    elim (keep_alive-cases x.status (text_eq x.id node_id) x (alive_others node_id xs)) [
      | inl (t, e) ↦
          Or.elim (Bool-set _ _) (mem-cons.0 (rw e at m)) (λ q. rw q t)
            (λ r. alive_others-test node_id xs r)
      | inr e ↦ alive_others-test node_id xs (rw e at m)
    ]

alive_others-Mem :
    (node_id : Text) (xs : List Member) {p : Member} → Mem p (alive_others node_id xs) → Mem p xs
alive_others-Mem node_id [] m = m
alive_others-Mem node_id (x ∷ xs) m =
    elim (keep_alive-cases x.status (text_eq x.id node_id) x (alive_others node_id xs)) [
      | inl (t, e) ↦
          Or.elim Mem-prop (mem-cons.0 (rw e at m)) (λ q. rw q mem-cons_self)
            (λ r. mem-cons_of_mem x (alive_others-Mem node_id xs r))
      | inr e ↦ mem-cons_of_mem x (alive_others-Mem node_id xs (rw e at m))
    ]

IsAliveOther-of_mem :
    (node_id : Text) (xs : List Member) (p : Member)
    → Mem p (alive_others node_id xs)
    → IsAliveOther node_id xs p
IsAliveOther-of_mem node_id xs p m =
    let passes = alive_others-test node_id xs m in
    (
      alive_others-Mem node_id xs m,
      ground (arith, passes),
      λ e. ground (arith, passes, (text_eq_iff p.id node_id).1 e),
    )

length-Permᴰ {ℓ} : {A : Type ℓ} {xs ys : List A} → Permᴰ xs ys → length xs ≡ length ys
length-Permᴰ Permᴰ.nil = refl
length-Permᴰ (Permᴰ.cons e p) = ap suc (length-Permᴰ p)
length-Permᴰ (Permᴰ.swap e f) = refl
length-Permᴰ (Permᴰ.trans p q) = length-Permᴰ p ∙ length-Permᴰ q

length-Perm {ℓ} : {A : Type ℓ} {xs ys : List A} → Perm xs ys → length xs ≡ length ys
length-Perm p = ∥∥₁_elim p (ℕ_set _ _) length-Permᴰ

-- For any shuffle that only reorders: gossip gets no more peers than it asked for, each of them a
-- member of the table, Alive and another node's; and all the Alive members of other nodes, where there are
-- not more. Those, in the order of the table, are what GetAlivePeers returns.
pub random_peers_are_alive :
    (shuffle : List Member → List Member) (count : ℕ) (m : Membership)
    → ((l : List Member) → Perm (shuffle l) l)
    → (length (get_random_peers shuffle count m) ≤ count)
      × ((p : Member)
          → Mem p (get_random_peers shuffle count m)
          → IsAliveOther m.node_id (get_members m) p)
      × (length (alive_others m.node_id (get_members m)) ≤ count
          → Perm (get_random_peers shuffle count m) (alive_others m.node_id (get_members m)))
      × (get_alive_peers m ≡ alive_others m.node_id (get_members m))
unfolding get_random_peers get_alive_peers get_members
random_peers_are_alive shuffle count m reorders =
    let others = alive_others m.node_id (values m.members) in
    rw (random_peers_loop-alive_others m.node_id m.members) (
      length-take-le count _,
      λ p q.
          IsAliveOther-of_mem m.node_id (values m.members) p
            ((Perm.mem_iff (reorders others)).0 (mem-take count _ q)),
      λ few.
          rw (take_all count (shuffle others) (rw (length-Perm (reorders others)) few))
            (reorders others),
      select-alive_others m.node_id m.members,
    )
