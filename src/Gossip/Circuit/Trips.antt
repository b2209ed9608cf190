-- ===== src/Gossip/Circuit/Trips.antt =====
-- When a breaker opens, and for how long.
use distributed_counter.Base.{
  ℕ, ◌+◌, ◌≡◌, ◌∙◌, true, not, List, [], ◌∷◌, arith, if◌then◌else◌, ltb, length,
}
use distributed_counter.Gossip.Circuit.{CircuitBreaker, allow, success, failure}

-- Failures in a row, at the given instants.
unfoldable pub fail_all : List ℕ → CircuitBreaker → CircuitBreaker
fail_all [] c = c
fail_all (t ∷ ts) c = fail_all ts (failure t c)

abbrev pub last_or : ℕ → List ℕ → ℕ
last_or t [] = t
last_or t (u ∷ us) = last_or u us

open_until-fail_all :
    (t : ℕ) (ts : List ℕ) (c : CircuitBreaker)
    → (fail_all (t ∷ ts) c).open_until ≡ (
        if ltb (c.failures + length (t ∷ ts)) c.max_failures
        then c.open_until
        else last_or t ts + c.cooldown)
unfolding fail_all failure
open_until-fail_all t [] c = ground arith
open_until-fail_all t (u ∷ us) c = open_until-fail_all u us (failure t c) ∙ ground (arith)

-- From a success on, the breaker lets every attempt through until its failures in a row reach the
-- maximum. From then on it refuses attempts until the cooldown after the last of them has passed.
pub trips_after_failures :
    (t : ℕ) (ts : List ℕ) (now : ℕ) (c : CircuitBreaker)
    → allow now (fail_all (t ∷ ts) (success c)) ≡ (
        if ltb (length (t ∷ ts)) c.max_failures
        then true
        else not (ltb now (last_or t ts + c.cooldown)))
unfolding allow
trips_after_failures t ts now c =
    rw (open_until-fail_all t ts (success c)) (unfold success in ground arith)
