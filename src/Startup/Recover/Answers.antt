-- ===== src/Startup/Recover/Answers.antt =====
-- What the attempts come to, and whether the node gets its state.
use distributed_counter.Base.{
  Text, ℕ, zero, suc, ◌+◌, ◌%◌, ◌≤◌, ◌<◌, ◌≡◌, refl, sym, ◌∙◌, ap, true, false, ◌⊎◌, inl, inr, ◌==◌,
  ==_iff, Option, none, some, List, [], ◌∷◌, ◌++◌, arith, length, take, drop, Bool-cases, subst,
}
use native.Mathlib.Nat.{mod-eq_of_lt}
use mathlib.Core.List.{append-nil}
use distributed_counter.Gossip.Engine.{answered}
use distributed_counter.Service.State.{Service}
use distributed_counter.Service.Sync.{StateUpdate}
use distributed_counter.Startup.Seeds.{unique_ordered_seeds}
use distributed_counter.Startup.Seeds.Order.{
  occurs, attempt-IsOrder, occurs-unique_ordered_seeds, unique_ordered_seeds-front,
}
use distributed_counter.Startup.Recover.{
  Seeds, Progress, Outcome, recovered, gave_up, has_state, take_state, seeds_loop, sleep_after,
  attempts_loop, ask_seeds, recover_state, max_attempts, at_start,
}
use distributed_counter.Startup.Recover.Loops.{gives, AskedAll, seeds_loop-result, seeds_loop-front}

-- The node has merged what a configured seed answered, into the state that it had before.
pub record IsRecovered (local_address : Text) (seeds : Seeds) (seed_nodes : List Text)
    (first last : ℕ) (s : Service) (r : Progress × Outcome) : Type 0 where
  pub attempt : ℕ
  pub not_before : first ≤ attempt
  pub in_time : attempt < last
  pub seed : Text
  pub listed : occurs seed seed_nodes ≡ true
  pub response : StateUpdate
  pub from_seed : seeds.contact attempt seed ≡ answered response
  pub with_state : has_state response ≡ true
  pub taken : r.0.service ≡ take_state local_address (seeds.now attempt seed) response s
  pub outcome : r.1 ≡ recovered seed

-- No configured seed gave any state, and the node is as it was.
pub record IsSilent (seeds : Seeds) (seed_nodes : List Text) (first last : ℕ) (s : Service)
    (r : Progress × Outcome) : Type 0 where
  pub silent :
      (attempt : ℕ)
      → first ≤ attempt
      → attempt < last
      → (k : Text) → occurs k seed_nodes ≡ true
      → gives seeds attempt k ≡ false
  pub kept : r.0.service ≡ s
  pub outcome : r.1 ≡ gave_up r.0.last_err

sleep_after-kept : (attempt : ℕ) (p : Progress) → (sleep_after attempt p).service ≡ p.service
unfolding sleep_after
sleep_after-kept attempt p = ground arith

occurs→nonempty : (k : Text) (xs : List Text) → occurs k xs ≡ true → 0 < length xs
occurs→nonempty k [] e = cc
occurs→nonempty k (x ∷ xs) e = omega arith

ask_seeds-nonempty :
    (local_address : Text) (seeds : Seeds) (s : Service) (xs : List Text)
    → 0 < length xs
    → ask_seeds local_address seeds s xs
      ≡ attempts_loop local_address seeds xs 0 max_attempts (at_start s)
unfolding ask_seeds
ask_seeds-nonempty local_address seeds s [] h = absurd (omega arith)
ask_seeds-nonempty local_address seeds s (x ∷ xs) h = refl

module _ (local_address : Text) (seeds : Seeds) (seed_nodes : List Text) where
  abbrev pub unique : List Text
  unique = unique_ordered_seeds seed_nodes

  abbrev pub order : ℕ → List Text
  order attempt = let i = attempt % length unique in drop i unique ++ take i unique

  abbrev pub one_round : ℕ → Progress → Progress × Option Text
  one_round attempt p = seeds_loop local_address seeds attempt (order attempt) p

  abbrev pub all_attempts : ℕ → ℕ → Progress → Progress × Outcome
  all_attempts attempt left p = attempts_loop local_address seeds unique attempt left p

  pub attempts_loop-found :
      (attempt left : ℕ) (p : Progress) (seed : Text)
      → 0 < length unique
      → (one_round attempt p).1 ≡ some seed
      → all_attempts attempt (suc left) p ≡ ((one_round attempt p).0, recovered seed)
  unfolding attempts_loop
  attempts_loop-found attempt left p seed h e =
      rw (attempts_loop, (attempt-IsOrder seed_nodes attempt h).0, e) refl

  pub attempts_loop-again :
      (attempt left : ℕ) (p : Progress)
      → 0 < length unique
      → (one_round attempt p).1 ≡ none
      → all_attempts attempt (suc left) p
        ≡ all_attempts (attempt + 1) left (sleep_after attempt (one_round attempt p).0)
  unfolding attempts_loop
  attempts_loop-again attempt left p h e =
      rw (attempts_loop, (attempt-IsOrder seed_nodes attempt h).0, e) refl

  abbrev pub Answer : ℕ → ℕ → Service → Progress × Outcome → Type 0
  Answer first last s r =
      IsRecovered local_address seeds seed_nodes first last s r
      ⊎ IsSilent seeds seed_nodes first last s r

  -- What a silent attempt adds to the answer of those after it.
  Answer-later :
      (attempt left : ℕ) (p p' : Progress) (r : Progress × Outcome)
      → 0 < length unique
      → AskedAll seeds attempt (order attempt) p p'
      → Answer (attempt + 1) (attempt + 1 + left) (sleep_after attempt p').service r
      → Answer attempt (attempt + suc left) p.service r
  Answer-later attempt left p p' r h asked (inl found) = inl (record {
    attempt = found.attempt;
    not_before = omega (arith, found.not_before);
    in_time = omega (arith, found.in_time);
    seed = found.seed;
    listed = found.listed;
    response = found.response;
    from_seed = found.from_seed;
    with_state = found.with_state;
    taken =
        found.taken
        ∙ ap (take_state local_address (seeds.now found.attempt found.seed) found.response)
            (sleep_after-kept attempt p' ∙ asked.kept);
    outcome = found.outcome;
  })
  Answer-later attempt left p p' r h asked (inr nothing) = inr (record {
    silent = λ a f l k e. elim (Bool-cases (a == attempt)) [
      | inl same ↦
          subst (λ i. gives seeds i k ≡ false) (sym ((==_iff a attempt).0 same))
            (asked.silent k ((attempt-IsOrder seed_nodes attempt h).1.all k ∙ e))
      | inr other ↦ nothing.silent a (ground arith) (omega arith) k e
    ];
    kept = nothing.kept ∙ sleep_after-kept attempt p' ∙ asked.kept;
    outcome = nothing.outcome;
  })

  pub attempts_loop-Answer :
      (attempt left : ℕ) (p : Progress)
      → 0 < length unique
      → Answer attempt (attempt + left) p.service (all_attempts attempt left p)
  unfolding attempts_loop
  attempts_loop-Answer attempt zero p h =
      inr (record { silent = λ a f l. absurd (omega arith); kept = refl; outcome = refl })
  attempts_loop-Answer attempt (suc left) p h =
      let ordered = attempt-IsOrder seed_nodes attempt h in
      elim (seeds_loop-result local_address seeds attempt (order attempt) p) [
        | inl (seed, e, found) ↦
            subst (Answer attempt (attempt + suc left) p.service)
              (sym (attempts_loop-found attempt left p seed h e))
              (inl (record {
                attempt = attempt;
                not_before = omega arith;
                in_time = omega arith;
                seed = seed;
                listed = sym (ordered.1.all seed) ∙ found.listed;
                response = found.response;
                from_seed = found.from_seed;
                with_state = found.with_state;
                taken = found.taken;
                outcome = refl;
              }))
        | inr (e, asked) ↦
            subst (Answer attempt (attempt + suc left) p.service)
              (sym (attempts_loop-again attempt left p h e))
              (Answer-later attempt left p (one_round attempt p).0 _ h asked (
                attempts_loop-Answer (attempt + 1) left
                  (sleep_after attempt (one_round attempt p).0) h))
      ]

  pub recover_state-opened :
      (s : Service)
      → 0 < length unique
      → recover_state local_address seeds seed_nodes s ≡ all_attempts 0 max_attempts (at_start s)
  unfolding recover_state
  recover_state-opened s h = ask_seeds-nonempty local_address seeds s unique h

order-first :
    (seed_nodes : List Text)
    → 0 < length (unique_ordered_seeds seed_nodes)
    → let u = unique_ordered_seeds seed_nodes in drop (0 % length u) u ++ take (0 % length u) u ≡ u
order-first seed_nodes h =
    let u = unique_ordered_seeds seed_nodes in
    subst (λ i. drop i u ++ take i u ≡ u) (sym (mod-eq_of_lt h)) (append-nil u)

-- A seed that is listed first and gives state is the one that the node recovers from.
pub recover_state-front :
    (local_address : Text) (seeds : Seeds) (seed : Text) (rest : List Text) (s : Service)
    (response : StateUpdate)
    → seeds.contact 0 seed ≡ answered response
    → has_state response ≡ true
    → (recover_state local_address seeds (seed ∷ rest) s).0.service
      ≡ take_state local_address (seeds.now 0 seed) response s
recover_state-front local_address seeds seed rest s response e h =
    let front = unique_ordered_seeds-front seed rest in
    let full : 0 < length (unique_ordered_seeds (seed ∷ rest)) = omega (arith, ap length front) in
    let p = at_start s in
    let first =
      subst
        (λ xs.
          let r = seeds_loop local_address seeds 0 xs p in
          (r.1 ≡ some seed)
          × (r.0.service ≡ take_state local_address (seeds.now 0 seed) response s))
        (sym (order-first (seed ∷ rest) full ∙ front))
        (seeds_loop-front local_address seeds 0 seed _ p response e h) in
    ap (λ (r : Progress × Outcome). r.0.service)
      (recover_state-opened local_address seeds (seed ∷ rest) s full
        ∙ attempts_loop-found local_address seeds (seed ∷ rest) 0 4 p seed full first.0)
    ∙ first.1

-- Where a configured seed answers with state in one of the five attempts the node recovers: it merges,
-- into what it had before, the state that a configured seed answered in one of them, and returns without
-- an error.
pub recovery_succeeds :
    (local_address : Text) (seeds : Seeds) (seed_nodes : List Text) (s : Service) (attempt : ℕ)
    (seed : Text)
    → attempt < max_attempts
    → occurs seed seed_nodes ≡ true
    → gives seeds attempt seed ≡ true
    → IsRecovered local_address seeds seed_nodes 0 max_attempts s
        (recover_state local_address seeds seed_nodes s)
recovery_succeeds local_address seeds seed_nodes s attempt seed in_time listed answers =
    let h =
      occurs→nonempty seed (unique_ordered_seeds seed_nodes)
        (occurs-unique_ordered_seeds seed_nodes seed ∙ listed) in
    subst (IsRecovered local_address seeds seed_nodes 0 max_attempts s)
      (sym (recover_state-opened local_address seeds seed_nodes s h))
      (elim (attempts_loop-Answer local_address seeds seed_nodes 0 max_attempts (at_start s) h) [
        | inl found ↦ found
        | inr nothing ↦
            absurd
              (ground (arith, nothing.silent attempt (omega arith) in_time seed listed, answers))
      ])
