-- ===== src/System/Invariant.antt =====
-- What every run of a cluster keeps.
pub mod Write
pub mod Gossip
use distributed_counter.Base.{
  Text, ℕ, ◌+◌, ◌≤◌, ◌≡◌, ◌≢◌, ◌⊎◌, refl, sym, ◌∙◌, ap, arith, max, Bool, true, false, inl, inr,
  subst, lookup, ◌==◌, ==_iff, Bool-cases, text_eq, text_eq_iff, if◌then◌else◌, ltb, ◌&&◌,
}
use distributed_counter.Crdt.Counts.{Counts, count_at}
use distributed_counter.Crdt.Keys.Ownership.{NoColon}
use distributed_counter.Service.State.{Service}
use distributed_counter.Service.Sync.{baseline}
use distributed_counter.System.{Node, Cluster, put}
use distributed_counter.System.History.{History, version, IsVersioned}
use distributed_counter.System.Owners.{last_part, last_part-counter_key}
use distributed_counter.System.Pair.{IsCovered, IsCovered-mono, SameSelf}
use distributed_counter.System.Steps.{Names}

-- Every node's counts are those of its versions, no node has a later version than the owner of the key, and
-- no baseline for a node says more than the node has.
pub record IsSound (names : Names) (h : History) (c : Cluster) : Type 0 where
  pub versioned : (i : ℕ) → IsVersioned h (c i).service
  pub node_id : (i : ℕ) → (c i).service.node_id ≡ names.id i
  pub counter_id : (i : ℕ) → (c i).service.counter.node_id ≡ names.id i
  pub clock_id : (i : ℕ) → (c i).service.clock.node_id ≡ names.id i
  pub owned :
      (i j : ℕ) (k : Text)
      → last_part k ≡ names.id i
      → version (c j).service k ≤ version (c i).service k
  pub bases :
      (i j : ℕ)
      → IsCovered (baseline (lookup (c i).engine.last_sync (names.address j))) (c j).service
  pub replies :
      (i j : ℕ)
      → IsCovered (baseline (lookup (c i).service.last_sync_clock (names.id j))) (c j).service

-- What holds of the node that changed and of the others holds of all.
pub put-all {ℓ} :
    (P : ℕ → Node → Type ℓ) (c : Cluster) (i : ℕ) (a : Node)
    → P i a
    → ((j : ℕ) → i ≢ j → P j (c j))
    → (j : ℕ) → P j (put c i a j)
put-all P c i a here others j = elim (Bool-cases (i == j)) [
  | inl e ↦ rw e (subst (λ m. P m a) ((==_iff i j).0 e) here)
  | inr e ↦ rw e (others j (λ same. absurd (ground (arith, same, e))))
]

pub put-here : (c : Cluster) (i : ℕ) (a : Node) → put c i a i ≡ a
put-here c i a = let same : (i == i) ≡ true = ground arith in rw same refl

pub put-other : (c : Cluster) (i j : ℕ) (a : Node) → i ≢ j → put c i a j ≡ c j
put-other c i j a ne = let other : (i == j) ≡ false = ground arith in rw other refl

-- The history with what a key holds after the versions up to v.
abbrev pub after_version : (Text → ℕ → ℕ) → Text → ℕ → ℕ → Text → ℕ → ℕ
after_version f key v n k w = if text_eq key k && ltb v w then n else f k w

pub after_version_mono :
    (f : Text → ℕ → ℕ) (key : Text) (v n : ℕ)
    → ((k : Text) (x y : ℕ) → x ≤ y → f k x ≤ f k y)
    → f key v ≤ n
    → (k : Text) (x y : ℕ) → x ≤ y
    → after_version f key v n k x ≤ after_version f key v n k y
after_version_mono f key v n mono top k x y le = elim (Bool-cases (text_eq key k)) [
  | inr e ↦ rw e (mono k x y le)
  | inl e ↦ rw e (elim (Bool-cases (ltb v x)) [
    | inl later ↦ let both : ltb v y ≡ true = ground arith in rw (later, both) (omega arith)
    | inr earlier ↦ elim (Bool-cases (ltb v y)) [
      | inl b ↦
          let below : x ≤ v = ground arith in
          rw (earlier, b)
            (subst (λ j. f j x ≤ n) ((text_eq_iff key k).0 e)
              (omega (arith, mono key x v below, top)))
      | inr b ↦ rw (earlier, b) (mono k x y le)
    ]
  ])
]

unfoldable pub extended :
    (h : History) (key : Text) (v p n : ℕ) → h.positive key v ≤ p → h.negative key v ≤ n → History
extended h key v p n hp hn = record {
  positive = after_version h.positive key v p;
  negative = after_version h.negative key v n;
  positive_mono = after_version_mono h.positive key v p h.positive_mono hp;
  negative_mono = after_version_mono h.negative key v n h.negative_mono hn;
}
