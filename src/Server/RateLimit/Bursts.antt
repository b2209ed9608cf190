-- ===== src/Server/RateLimit/Bursts.antt =====
-- Requests that come at one instant.
use distributed_counter.Base.{
  ℕ, zero, suc, ◌+◌, ◌≤◌, ◌<◌, ◌≡◌, refl, ◌∙◌, ap, Bool, true, false, arith, if◌then◌else◌, lt64,
  Int64, Bool-cases, inl, inr,
}
use Prim.Native.Nat.{min}
use distributed_counter.Server.Floats.{Float, IsExact, exact_limit}
use distributed_counter.Server.RateLimit.{RateLimiter, new_rate_limiter, refilled, consume, allow}

module _ {ℓ} {W : Type ℓ} ⦃d : Float W⦄ where
  -- How many of the requests at an instant are let through.
  abbrev pub admitted : ℕ → ℕ → RateLimiter W → ℕ
  admitted now zero r = 0
  admitted now (suc requests) r =
      let (r', allowed) = allow now r in (if allowed then 1 else 0) + admitted now requests r'

  abbrev counted : ℕ → ℕ → RateLimiter W × Bool → ℕ
  counted now requests (r, allowed) = (if allowed then 1 else 0) + admitted now requests r

  -- A bucket of a limiter for `per_second` requests with `tokens` left.
  abbrev bucket : ℕ → ℕ → ℕ → RateLimiter W
  bucket per_second now tokens = record {
    tokens = d.of_int tokens;
    capacity = d.of_int per_second;
    refill = d.of_int per_second;
    last = now;
  }

  module _ (exact : IsExact W) where
    refilled_at_once :
        (per_second now tokens : ℕ)
        → tokens ≤ per_second
        → per_second < exact_limit
        → refilled now (bucket per_second now tokens) ≡ bucket per_second now tokens
    unfolding refilled
    refilled_at_once per_second now tokens h l =
        ap (λ (t : W). record (bucket per_second now tokens) { tokens = t })
          (ap (d.min_float (d.of_int per_second))
              (exact.no_time now tokens per_second (omega arith) l)
            ∙ exact.min_int per_second tokens h l)

    consume-some :
        (per_second now tokens : ℕ)
        → suc tokens ≤ per_second
        → per_second < exact_limit
        → consume (bucket per_second now (suc tokens)) ≡ (bucket per_second now tokens, true)
    unfolding consume
    consume-some per_second now tokens h l =
        rw
          (
            consume,
            exact.suc_at_least_one tokens (omega arith),
            exact.minus_one_int tokens (omega arith),
          )
          refl

    consume-none :
        (per_second now : ℕ) → consume (bucket per_second now 0) ≡ (bucket per_second now 0, false)
    unfolding consume
    consume-none per_second now = rw (consume, exact.zero_below_one) refl

    allow-bucket :
        (per_second now tokens : ℕ)
        → tokens ≤ per_second
        → per_second < exact_limit
        → allow now (bucket per_second now tokens) ≡ consume (bucket per_second now tokens)
    unfolding allow
    allow-bucket per_second now tokens h l =
        rw (allow, exact.int_below_max per_second l)
          (ap consume (refilled_at_once per_second now tokens h l))

    admitted-bucket :
        (requests per_second now tokens : ℕ)
        → tokens ≤ per_second
        → per_second < exact_limit
        → admitted now requests (bucket per_second now tokens) ≡ min tokens requests
    admitted-bucket zero per_second now tokens h l = omega arith
    admitted-bucket (suc requests) per_second now zero h l =
        let one = allow-bucket per_second now 0 h l ∙ consume-none per_second now in
        ap (counted now requests) one ∙ omega (arith, admitted-bucket requests per_second now 0 h l)
    admitted-bucket (suc requests) per_second now (suc tokens) h l =
        let one =
          allow-bucket per_second now (suc tokens) h l ∙ consume-some per_second now tokens h l in
        ap (counted now requests) one
        ∙ omega (arith, admitted-bucket requests per_second now tokens (omega arith) l)

    open_limiter-admits :
        (requests now : ℕ) (r : RateLimiter W)
        → r.capacity ≡ d.max_float
        → admitted now requests r ≡ requests
    unfolding allow
    open_limiter-admits zero now r h = refl
    open_limiter-admits (suc requests) now r h =
        let one : allow now r ≡ (r, true) = rw (allow, h, exact.max_equals) refl in
        ap (counted now requests) one ∙ omega (arith, open_limiter-admits requests now r h)

    -- A new limiter, on floats that are exact on small integers: of the requests at the instant of its
    -- making it lets through the first, as many as its limit per second, or all, where the limit is not
    -- positive. The limit is below 2 ^ 53.
    pub burst_is_limited :
        (per_second : Int64) (now requests : ℕ)
        → (lt64 0 per_second ≡ true → per_second < exact_limit)
        → admitted now requests (new_rate_limiter per_second now)
          ≡ (if lt64 0 per_second then min per_second requests else requests)
    unfolding new_rate_limiter
    burst_is_limited per_second now requests h = elim (Bool-cases (lt64 0 per_second)) [
      | inl e ↦
          rw (new_rate_limiter, e)
            (admitted-bucket requests per_second now per_second (omega arith) (h e))
      | inr e ↦ rw (new_rate_limiter, e) (open_limiter-admits requests now _ refl)
    ]
