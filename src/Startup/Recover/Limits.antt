-- ===== src/Startup/Recover/Limits.antt =====
-- How many seeds a recovery dials, and how long it sleeps.
use distributed_counter.Base.{
  Text, ℕ, zero, suc, ◌+◌, ◌*◌, ◌≤◌, ◌<◌, ◌≡◌, sym, ap, inl, inr, List, [], ◌∷◌, arith, length,
  length-append, if◌then◌else◌, ltb, ◌≢◌, subst,
}
use distributed_counter.Service.State.{Service}
use distributed_counter.Startup.Seeds.{unique_ordered_seeds}
use distributed_counter.Startup.Seeds.Order.{attempt-IsOrder}
use distributed_counter.Startup.Recover.{
  Seeds, Progress, Outcome, panicked, recovery_backoff, sleep_after, attempts_loop, ask_seeds,
  recover_state, max_attempts, at_start,
}
use distributed_counter.Startup.Recover.Loops.{seeds_loop-result}
use distributed_counter.Startup.Recover.Answers.{
  order, one_round, all_attempts, attempts_loop-found, attempts_loop-Answer, attempts_loop-again,
}

-- The sleeps that the attempts may add.
abbrev sleeps : ℕ → ℕ → ℕ
sleeps attempt zero = 0
sleeps attempt (suc left) =
    (if ltb (attempt + 1) max_attempts then recovery_backoff attempt else 0)
    + sleeps (attempt + 1) left

-- n dials for each attempt.
abbrev dials : ℕ → ℕ → ℕ
dials n zero = 0
dials n (suc left) = n + dials n left

record Within (n : ℕ) (attempt left : ℕ) (p p' : Progress) : Type 0 where
  dialled : length p'.dialled ≤ length p.dialled + dials n left
  slept : p'.slept ≤ p.slept + sleeps attempt left

sleep_after-slept :
    (attempt : ℕ) (p : Progress)
    → ((sleep_after attempt p).dialled ≡ p.dialled)
      × ((sleep_after attempt p).slept
          ≡ p.slept + (if ltb (attempt + 1) max_attempts then recovery_backoff attempt else 0))
unfolding sleep_after
sleep_after-slept attempt p = (ground arith, ground arith)

-- A recovery that dialled at most so often, slept at most so long, and came to an end of its own.
pub record IsBounded (dials_limit slept_limit : ℕ) (r : Progress × Outcome) : Type 0 where
  pub dialled : length r.0.dialled ≤ dials_limit
  pub slept : r.0.slept ≤ slept_limit
  pub no_panic : r.1 ≢ panicked

module _ (local_address : Text) (seeds : Seeds) (seed_nodes : List Text)
    (h : 0 < length (unique_ordered_seeds seed_nodes)) where
  abbrev n : ℕ
  n = length (unique_ordered_seeds seed_nodes)

  attempts_loop-Within :
      (attempt left : ℕ) (p : Progress)
      → Within n attempt left p (all_attempts local_address seeds seed_nodes attempt left p).0
  unfolding attempts_loop
  attempts_loop-Within attempt zero p = record { dialled = omega arith; slept = omega arith }
  attempts_loop-Within attempt (suc left) p =
      let many = (attempt-IsOrder seed_nodes attempt h).1.as_many in
      let p' = (one_round local_address seeds seed_nodes attempt p).0 in
      elim (seeds_loop-result local_address seeds attempt
        (order local_address seeds seed_nodes attempt) p) [
          | inl (seed, e, found) ↦
              subst (λ r. Within n attempt (suc left) p r.0)
                (sym (attempts_loop-found local_address seeds seed_nodes attempt left p seed h e))
                (record {
                  dialled = omega (arith, found.dialled, many);
                  slept = omega (arith, found.slept);
                })
          | inr (e, asked) ↦
              let rest = attempts_loop-Within (attempt + 1) left (sleep_after attempt p') in
              let after = sleep_after-slept attempt p' in
              subst (λ r. Within n attempt (suc left) p r.0)
                (sym (attempts_loop-again local_address seeds seed_nodes attempt left p h e))
                (record {
                  dialled = omega (
                    arith,
                    rest.dialled,
                    ap length after.0,
                    ap length asked.dialled,
                    length-append p.dialled (order local_address seeds seed_nodes attempt),
                    many,
                  );
                  slept = omega (arith, rest.slept, after.1, asked.slept);
                })
        ]

  attempts-IsBounded :
      (s : Service)
      → IsBounded
          (5 * n)
          3_750_000_000
          (all_attempts local_address seeds seed_nodes 0 max_attempts (at_start s))
  unfolding recovery_backoff
  attempts-IsBounded s =
      let within = attempts_loop-Within 0 max_attempts (at_start s) in
      record {
        dialled = omega (arith, within.dialled);
        slept = omega (arith, within.slept);
        no_panic =
            elim (attempts_loop-Answer local_address seeds seed_nodes 0 max_attempts (at_start s)
              h) [
                | inl found ↦ λ e. absurd (cc (found.outcome, e))
                | inr silent ↦ λ e. absurd (cc (silent.outcome, e))
              ];
      }

ask_seeds-IsBounded :
    (local_address : Text) (seeds : Seeds) (s : Service) (xs : List Text) (limit slept : ℕ)
    → (0 < length xs
        → IsBounded limit slept (attempts_loop local_address seeds xs 0 max_attempts (at_start s)))
    → IsBounded limit slept (ask_seeds local_address seeds s xs)
unfolding ask_seeds
ask_seeds-IsBounded local_address seeds s [] limit slept h = record {
  dialled = omega arith;
  slept = omega arith;
  no_panic = λ e. cc;
}
ask_seeds-IsBounded local_address seeds s (x ∷ xs) limit slept h = h (omega arith)

-- Whatever the seeds answer, a recovery dials at most five times as many seeds as are configured, each
-- counted once, sleeps at most 3.75 seconds, and does not panic.
pub recovery-IsBounded :
    (local_address : Text) (seeds : Seeds) (seed_nodes : List Text) (s : Service)
    → IsBounded
        (5 * length (unique_ordered_seeds seed_nodes))
        3_750_000_000
        (recover_state local_address seeds seed_nodes s)
unfolding recover_state
recovery-IsBounded local_address seeds seed_nodes s =
    ask_seeds-IsBounded local_address seeds s (unique_ordered_seeds seed_nodes) _ _
      (λ h. attempts-IsBounded local_address seeds seed_nodes h s)
