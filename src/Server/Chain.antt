-- ===== src/Server/Chain.antt =====
-- internal/server/grpc_server.go: the interceptors in the order of the chain.
pub mod Guarded
use distributed_counter.Base.{Text, ℕ}
use distributed_counter.Server.Floats.{Float}
use distributed_counter.Server.Auth.{Reply, AuthInterceptor, Metadata, check_key}
use distributed_counter.Server.RateLimit.{RateLimiter, limit_rate}

-- A call, on the limiter and the state that the handler changes.
unfoldable pub serve {ℓ κ μ} :
    {W : Type ℓ} ⦃d : Float W⦄ {S : Type κ} {R : Type μ}
    → AuthInterceptor
    → Text
    → Metadata
    → ℕ
    → (S → S × Reply R)
    → RateLimiter W × S
    → (RateLimiter W × S) × Reply R
unfolding check_key limit_rate
serve a method ctx now handler s = check_key a method ctx (limit_rate now handler) s
