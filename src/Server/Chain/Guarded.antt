-- ===== src/Server/Chain/Guarded.antt =====
-- Which calls pass the chain of internal/server/grpc_server.go.
use distributed_counter.Base.{
  Text, ℕ, ◌≡◌, refl, true, false, ◌&&◌, not, ◌⊎◌, Bool-cases, inl, inr, arith,
}
use distributed_counter.Server.Floats.{Float}
use distributed_counter.Server.Auth.{
  Reply, unauthenticated, AuthInterceptor, Metadata, allowlist, authorized, check_key,
}
use distributed_counter.Server.Auth.Keys.{
  PresentsKey, authorized-PresentsKey, PresentsKey-authorized,
}
use distributed_counter.Server.RateLimit.{RateLimiter, limit_rate}
use distributed_counter.Server.Chain.{serve}

serve-refused {ℓ κ μ} :
    {W : Type ℓ} ⦃d : Float W⦄ {S : Type κ} {R : Type μ} (a : AuthInterceptor) (method : Text)
    (ctx : Metadata) (now : ℕ) (handler : S → S × Reply R) (s : RateLimiter W × S)
    → a.enabled ≡ true
    → allowlist method ≡ false
    → authorized a ctx ≡ false
    → serve a method ctx now handler s ≡ (s, unauthenticated)
unfolding serve check_key
serve-refused a method ctx now handler s e m h = rw (serve, check_key, e, m, h) refl

serve-passed {ℓ κ μ} :
    {W : Type ℓ} ⦃d : Float W⦄ {S : Type κ} {R : Type μ} (a : AuthInterceptor) (method : Text)
    (ctx : Metadata) (now : ℕ) (handler : S → S × Reply R) (s : RateLimiter W × S)
    → (a.enabled && (not (allowlist method) && not (authorized a ctx))) ≡ false
    → serve a method ctx now handler s ≡ limit_rate now handler s
unfolding serve check_key
serve-passed a method ctx now handler s h = rw (serve, check_key, h) refl

-- The call is to be refused.
pub record LacksKey (a : AuthInterceptor) (method : Text) (ctx : Metadata) : Type 0 where
  pub enabled : a.enabled ≡ true
  pub listed : allowlist method ≡ false
  pub keyless : ¬ PresentsKey a.api_key ctx

-- A call to a method that is not exempt, which does not present the key while the check is enabled, is
-- refused, and neither its handler runs nor does the limiter change. Every other call comes to the limiter.
pub calls_need_the_key {ℓ κ μ} :
    {W : Type ℓ} ⦃d : Float W⦄ {S : Type κ} {R : Type μ} (a : AuthInterceptor) (method : Text)
    (ctx : Metadata) (now : ℕ) (handler : S → S × Reply R) (s : RateLimiter W × S)
    → (LacksKey a method ctx × (serve a method ctx now handler s ≡ (s, unauthenticated)))
      ⊎ ((¬ LacksKey a method ctx) × (serve a method ctx now handler s ≡ limit_rate now handler s))
calls_need_the_key a method ctx now handler s = elim (Bool-cases a.enabled) [
  | inr off ↦ inr (
      (
        λ l. absurd (ground (arith, l.enabled, off)),
        serve-passed a method ctx now handler s (rw off refl),
      ))
  | inl on ↦ elim (Bool-cases (allowlist method)) [
    | inl exempt ↦ inr (
        (
          λ l. absurd (ground (arith, l.listed, exempt)),
          serve-passed a method ctx now handler s (rw (on, exempt) refl),
        ))
    | inr guarded ↦ elim (Bool-cases (authorized a ctx)) [
      | inl keyed ↦ inr (
          (
            λ l. l.keyless (authorized-PresentsKey a ctx keyed),
            serve-passed a method ctx now handler s (ground (arith, keyed)),
          ))
      | inr keyless ↦ inl (
          (
            record {
              enabled = on;
              listed = guarded;
              keyless = λ k. absurd (ground (arith, PresentsKey-authorized a ctx k, keyless));
            },
            serve-refused a method ctx now handler s on guarded keyless,
          ))
    ]
  ]
]
