-- ===== src/Server/RateLimit.antt =====
-- internal/server/middleware.go: the token bucket. Each call holds the mutex throughout.
pub mod Bursts
use distributed_counter.Base.{ℕ, Bool, true, false, not, if◌then◌else◌, Int64, lt64}
use distributed_counter.Server.Floats.{Float}
use distributed_counter.Server.Auth.{Reply, resource_exhausted}

pub record RateLimiter {ℓ} (W : Type ℓ) : Type ℓ where
  pub tokens : W
  pub capacity : W
  pub refill : W
  pub last : ℕ

module _ {ℓ} {W : Type ℓ} ⦃d : Float W⦄ where
  unfoldable pub new_rate_limiter : Int64 → ℕ → RateLimiter W
  new_rate_limiter per_second now =
      if lt64 0 per_second
      then record {
        tokens = d.of_int per_second;
        capacity = d.of_int per_second;
        refill = d.of_int per_second;
        last = now;
      }
      else record { tokens = d.max_float; capacity = d.max_float; refill = d.of_int 0; last = 0 }

  -- The bucket after the time since the last request.
  unfoldable pub refilled : ℕ → RateLimiter W → RateLimiter W
  refilled now r = record r {
    tokens = d.min_float r.capacity (d.add r.tokens (d.mul (d.seconds now r.last) r.refill));
    last = now;
  }

  -- One token, if there is one.
  unfoldable pub consume : RateLimiter W → RateLimiter W × Bool
  consume r =
      if d.at_least_one r.tokens
      then (record r { tokens = d.minus_one r.tokens }, true)
      else (r, false)

  -- Allow
  unfoldable pub allow : ℕ → RateLimiter W → RateLimiter W × Bool
  unfolding refilled consume
  allow now r = if d.equals r.capacity d.max_float then (r, true) else consume (refilled now r)

  -- Unary and Stream of the interceptor, on the limiter and the state that the handler changes.
  unfoldable pub limit_rate {κ μ} :
      {S : Type κ} {R : Type μ}
      → ℕ
      → (S → S × Reply R)
      → RateLimiter W × S
      → (RateLimiter W × S) × Reply R
  unfolding allow
  limit_rate now handler (r, s) =
      let (r', allowed) = allow now r in
      let (s', reply) = handler s in
      if not allowed then ((r', s), resource_exhausted) else ((r', s'), reply)
