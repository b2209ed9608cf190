-- ===== src/System/History.antt =====
-- Counts that are determined by their versions: for one key, every node that has the same version has the
-- same counts, and later versions have no smaller ones.
use distributed_counter.Base.{
  Text, ℕ, ◌≤◌, ◌≡◌, sym, ◌∙◌, ap, arith, max, inl, inr, Bool-cases, leb,
}
use distributed_counter.Crdt.Counts.{Counts, count_at}
use distributed_counter.Crdt.PnCounter
use distributed_counter.Crdt.PnCounter.{merge, remote_counter, positive_copy, negative_copy}
use distributed_counter.Crdt.VectorClock
use distributed_counter.Crdt.VectorClock.{merge_map, state}
use distributed_counter.Service.State.{Service}

-- What both maps hold at a key in each of its versions.
pub record History : Type 0 where
  pub positive : Text → ℕ → ℕ
  pub negative : Text → ℕ → ℕ
  pub positive_mono : (k : Text) (v w : ℕ) → v ≤ w → positive k v ≤ positive k w
  pub negative_mono : (k : Text) (v w : ℕ) → v ≤ w → negative k v ≤ negative k w

abbrev pub version : Service → Text → ℕ
version s k = count_at s.clock.clock k

-- A valid node whose counts are those of the versions in its clock.
pub record IsVersioned (h : History) (s : Service) : Type 0 where
  pub counter_valid : PnCounter.IsValid s.counter
  pub clock_valid : VectorClock.IsValid s.clock
  pub positive : (k : Text) → count_at s.counter.positive k ≡ h.positive k (version s k)
  pub negative : (k : Text) → count_at s.counter.negative k ≡ h.negative k (version s k)

-- b' is b once it has all that a has.
pub record HasReceived (a b b' : Service) : Type 0 where
  pub counter_valid : PnCounter.IsValid b'.counter
  pub clock_valid : VectorClock.IsValid b'.clock
  pub clock : (k : Text) → version b' k ≡ max (version a k) (version b k)
  pub positive :
      (k : Text)
      → count_at b'.counter.positive k
        ≡ max (count_at a.counter.positive k) (count_at b.counter.positive k)
  pub negative :
      (k : Text)
      → count_at b'.counter.negative k
        ≡ max (count_at a.counter.negative k) (count_at b.counter.negative k)

-- The greater of two versions has the greater counts.
max_of_versions :
    (f : ℕ → ℕ) (v w : ℕ) → ((x y : ℕ) → x ≤ y → f x ≤ f y) → max (f v) (f w) ≡ f (max v w)
max_of_versions f v w mono = elim (Bool-cases (leb v w)) [
  | inl e ↦ let top : max v w ≡ w = ground arith in rw top (omega (arith, mono v w (ground arith)))
  | inr e ↦ let top : max v w ≡ v = ground arith in rw top (omega (arith, mono w v (ground arith)))
]

pub HasReceived-IsVersioned :
    (h : History) (a b b' : Service)
    → IsVersioned h a
    → IsVersioned h b
    → HasReceived a b b'
    → IsVersioned h b'
HasReceived-IsVersioned h a b b' ha hb r = record {
  counter_valid = r.counter_valid;
  clock_valid = r.clock_valid;
  positive = λ k.
      r.positive k
      ∙ rw (ha.positive k, hb.positive k) (max_of_versions (h.positive k) _ _ (h.positive_mono k))
      ∙ ap (h.positive k) (sym (r.clock k));
  negative = λ k.
      r.negative k
      ∙ rw (ha.negative k, hb.negative k) (max_of_versions (h.negative k) _ _ (h.negative_mono k))
      ∙ ap (h.negative k) (sym (r.clock k));
}

-- What the receiver of a delta must hold already.
pub knows :
    (h : History) (a b : Service) (base : Counts)
    → IsVersioned h a
    → IsVersioned h b
    → ((k : Text) → count_at base k ≤ version b k)
    → (k : Text) → version a k ≤ count_at base k
    → (count_at a.counter.positive k ≤ count_at b.counter.positive k)
      × (count_at a.counter.negative k ≤ count_at b.counter.negative k)
knows h a b base ha hb covered k old = (
  omega (
    arith,
    ha.positive k,
    hb.positive k,
    h.positive_mono k (version a k) (version b k) (omega (arith, covered k)),
  ),
  omega (
    arith,
    ha.negative k,
    hb.negative k,
    h.negative_mono k (version a k) (version b k) (omega (arith, covered k)),
  ),
)
