-- ===== src/Startup/Recover/Loops.antt =====
-- What the loop over the seeds comes to in one attempt.
use distributed_counter.Base.{
  Text, ℕ, ◌+◌, ◌≤◌, ◌≡◌, refl, sym, ◌∙◌, ap, Bool, true, false, ◌⊎◌, inl, inr, Option, none, some,
  List, [], ◌∷◌, ◌++◌, arith, length, length-append, Bool-cases, text_eq, text_eq_iff, text_eq_refl,
  subst,
}
use mathlib.Core.List.{append-nil, append_assoc}
use distributed_counter.Gossip.Engine.{
  Attempt, dial_failed, stream_failed, send_failed, recv_failed, answered,
}
use distributed_counter.Service.Sync.{StateUpdate}
use distributed_counter.Startup.Seeds.Order.{occurs}
use distributed_counter.Startup.Recover.{
  Seeds, Progress, has_state, take_state, contact_seed, seeds_loop,
}

-- Whether a contact yields a response that carries state.
abbrev pub carries_state : Attempt → Bool
carries_state (answered response) = has_state response
carries_state _ = false

abbrev pub gives : Seeds → ℕ → Text → Bool
gives seeds attempt seed = carries_state (seeds.contact attempt seed)

-- A contact that gave the state, and one that did not.
record Gave (local_address : Text) (now : ℕ) (seed : Text) (outcome : Attempt) (p p' : Progress)
    : Type 0 where
  response : StateUpdate
  from_seed : outcome ≡ answered response
  with_state : has_state response ≡ true
  taken : p'.service ≡ take_state local_address now response p.service
  slept : p'.slept ≡ p.slept
  dialled : p'.dialled ≡ p.dialled ++ (seed ∷ [])

record Silent (seed : Text) (outcome : Attempt) (p p' : Progress) : Type 0 where
  stateless : carries_state outcome ≡ false
  kept : p'.service ≡ p.service
  slept : p'.slept ≡ p.slept
  dialled : p'.dialled ≡ p.dialled ++ (seed ∷ [])

contact_seed-result :
    (local_address : Text) (now : ℕ) (seed : Text) (outcome : Attempt) (p : Progress)
    → let r = contact_seed local_address now seed outcome p in
      ((r.1 ≡ true) × Gave local_address now seed outcome p r.0)
      ⊎ ((r.1 ≡ false) × Silent seed outcome p r.0)
unfolding contact_seed
contact_seed-result local_address now seed dial_failed p =
    inr ((refl, record { stateless = refl; kept = refl; slept = refl; dialled = refl }))
contact_seed-result local_address now seed stream_failed p =
    inr ((refl, record { stateless = refl; kept = refl; slept = refl; dialled = refl }))
contact_seed-result local_address now seed send_failed p =
    inr ((refl, record { stateless = refl; kept = refl; slept = refl; dialled = refl }))
contact_seed-result local_address now seed recv_failed p =
    inr ((refl, record { stateless = refl; kept = refl; slept = refl; dialled = refl }))
contact_seed-result local_address now seed (answered response) p =
    elim (Bool-cases (has_state response)) [
      | inl e ↦
          rw (contact_seed, e)
            (inl (
              (
                refl,
                record {
                  response = response;
                  from_seed = refl;
                  with_state = e;
                  taken = refl;
                  slept = refl;
                  dialled = refl;
                },
              )))
      | inr e ↦
          rw (contact_seed, e)
            (inr ((refl, record { stateless = e; kept = refl; slept = refl; dialled = refl })))
    ]

-- A round over the seeds that found the state, and one that did not.
pub record Found (local_address : Text) (seeds : Seeds) (attempt : ℕ) (ordered : List Text)
    (p p' : Progress) (seed : Text) : Type 0 where
  pub response : StateUpdate
  pub from_seed : seeds.contact attempt seed ≡ answered response
  pub with_state : has_state response ≡ true
  pub listed : occurs seed ordered ≡ true
  pub taken : p'.service ≡ take_state local_address (seeds.now attempt seed) response p.service
  pub slept : p'.slept ≡ p.slept
  pub dialled : length p'.dialled ≤ length p.dialled + length ordered

pub record AskedAll (seeds : Seeds) (attempt : ℕ) (ordered : List Text) (p p' : Progress)
    : Type 0 where
  pub silent : (k : Text) → occurs k ordered ≡ true → gives seeds attempt k ≡ false
  pub kept : p'.service ≡ p.service
  pub slept : p'.slept ≡ p.slept
  pub dialled : p'.dialled ≡ p.dialled ++ ordered

abbrev pub SeedsResult : Text → Seeds → ℕ → List Text → Progress → Progress × Option Text → Type 0
SeedsResult local_address seeds attempt ordered p r =
    ((seed : Text) × (r.1 ≡ some seed) × Found local_address seeds attempt ordered p r.0 seed)
    ⊎ ((r.1 ≡ none) × AskedAll seeds attempt ordered p r.0)

abbrev first_contact : Text → Seeds → ℕ → Text → Progress → Progress × Bool
first_contact local_address seeds attempt seed p =
    contact_seed local_address (seeds.now attempt seed) seed (seeds.contact attempt seed) p

seeds_loop-stops :
    (local_address : Text) (seeds : Seeds) (attempt : ℕ) (seed : Text) (rest : List Text)
    (p : Progress)
    → (first_contact local_address seeds attempt seed p).1 ≡ true
    → seeds_loop local_address seeds attempt (seed ∷ rest) p
      ≡ ((first_contact local_address seeds attempt seed p).0, some seed)
unfolding seeds_loop
seeds_loop-stops local_address seeds attempt seed rest p e = rw (seeds_loop, e) refl

seeds_loop-goes_on :
    (local_address : Text) (seeds : Seeds) (attempt : ℕ) (seed : Text) (rest : List Text)
    (p : Progress)
    → (first_contact local_address seeds attempt seed p).1 ≡ false
    → seeds_loop local_address seeds attempt (seed ∷ rest) p
      ≡ seeds_loop local_address seeds attempt rest
          (first_contact local_address seeds attempt seed p).0
unfolding seeds_loop
seeds_loop-goes_on local_address seeds attempt seed rest p e = rw (seeds_loop, e) refl

contact_seed-answered :
    (local_address : Text) (now : ℕ) (seed : Text) (response : StateUpdate) (p : Progress)
    → has_state response ≡ true
    → contact_seed local_address now seed (answered response) p ≡ (
      record p {
        dialled = p.dialled ++ (seed ∷ []);
        service = take_state local_address now response p.service;
      },
      true,
    )
unfolding contact_seed
contact_seed-answered local_address now seed response p h = rw (contact_seed, h) refl

-- A seed in front that answers with state.
pub seeds_loop-front :
    (local_address : Text) (seeds : Seeds) (attempt : ℕ) (seed : Text) (rest : List Text)
    (p : Progress) (response : StateUpdate)
    → seeds.contact attempt seed ≡ answered response
    → has_state response ≡ true
    → let r = seeds_loop local_address seeds attempt (seed ∷ rest) p in
      (r.1 ≡ some seed)
      × (r.0.service ≡ take_state local_address (seeds.now attempt seed) response p.service)
seeds_loop-front local_address seeds attempt seed rest p response e h =
    let now = seeds.now attempt seed in
    let one =
      ap (λ outcome. contact_seed local_address now seed outcome p) e
      ∙ contact_seed-answered local_address now seed response p h in
    let stops =
      seeds_loop-stops local_address seeds attempt seed rest p
        (ap (λ (r : Progress × Bool). r.1) one) in
    (
      ap (λ (r : Progress × Option Text). r.1) stops,
      ap (λ (r : Progress × Option Text). r.0.service) stops
          ∙ ap (λ (r : Progress × Bool). r.0.service) one,
    )

stopped :
    (local_address : Text) (seeds : Seeds) (attempt : ℕ) (seed : Text) (rest : List Text)
    (p p' : Progress)
    → Gave local_address (seeds.now attempt seed) seed (seeds.contact attempt seed) p p'
    → SeedsResult local_address seeds attempt (seed ∷ rest) p (p', some seed)
stopped local_address seeds attempt seed rest p p' gave = inl (
    (
      seed,
      refl,
      record {
        response = gave.response;
        from_seed = gave.from_seed;
        with_state = gave.with_state;
        listed = ground (arith, text_eq_refl seed);
        taken = gave.taken;
        slept = gave.slept;
        dialled = omega (arith, ap length gave.dialled, length-append p.dialled (seed ∷ []));
      },
    ))

went_on :
    (local_address : Text) (seeds : Seeds) (attempt : ℕ) (seed : Text) (rest : List Text)
    (p p' : Progress) (r : Progress × Option Text)
    → Silent seed (seeds.contact attempt seed) p p'
    → SeedsResult local_address seeds attempt rest p' r
    → SeedsResult local_address seeds attempt (seed ∷ rest) p r
went_on local_address seeds attempt seed rest p p' r silent (inl (later, found, h)) = inl (
    (
      later,
      found,
      record {
        response = h.response;
        from_seed = h.from_seed;
        with_state = h.with_state;
        listed = ground (arith, h.listed);
        taken =
            h.taken
            ∙ ap (take_state local_address (seeds.now attempt later) h.response) silent.kept;
        slept = h.slept ∙ silent.slept;
        dialled =
            omega (arith, h.dialled, ap length silent.dialled, length-append p.dialled (seed ∷ []));
      },
    ))
went_on local_address seeds attempt seed rest p p' r silent (inr (nothing, h)) = inr (
    (
      nothing,
      record {
        silent = λ k e. elim (Bool-cases (text_eq seed k)) [
          | inl same ↦
              subst (λ j. gives seeds attempt j ≡ false) ((text_eq_iff seed k).0 same)
                silent.stateless
          | inr other ↦ h.silent k (ground (arith, e))
        ];
        kept = h.kept ∙ silent.kept;
        slept = h.slept ∙ silent.slept;
        dialled =
            h.dialled
            ∙ ap (λ d. d ++ rest) silent.dialled
            ∙ append_assoc p.dialled (seed ∷ []) rest;
      },
    ))

pub seeds_loop-result :
    (local_address : Text) (seeds : Seeds) (attempt : ℕ) (ordered : List Text) (p : Progress)
    → SeedsResult local_address seeds attempt ordered p
        (seeds_loop local_address seeds attempt ordered p)
unfolding seeds_loop
seeds_loop-result local_address seeds attempt [] p = inr (
    (
      refl,
      record {
        silent = λ k e. cc;
        kept = refl;
        slept = refl;
        dialled = sym (append-nil p.dialled);
      },
    ))
seeds_loop-result local_address seeds attempt (seed ∷ rest) p =
    let one = first_contact local_address seeds attempt seed p in
    let outcome = seeds.contact attempt seed in
    elim (contact_seed-result local_address (seeds.now attempt seed) seed outcome p) [
      | inl (e, gave) ↦
          subst (SeedsResult local_address seeds attempt (seed ∷ rest) p)
            (sym (seeds_loop-stops local_address seeds attempt seed rest p e))
            (stopped local_address seeds attempt seed rest p one.0 gave)
      | inr (e, silent) ↦
          subst (SeedsResult local_address seeds attempt (seed ∷ rest) p)
            (sym (seeds_loop-goes_on local_address seeds attempt seed rest p e))
            (went_on local_address seeds attempt seed rest p one.0 _ silent
              (seeds_loop-result local_address seeds attempt rest one.0))
    ]
