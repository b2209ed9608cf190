-- ===== src/Server/Auth.antt =====
-- internal/server/middleware.go: the check of the API key. The context is what metadata.FromIncomingContext
-- and Get make of it.
pub mod Keys
use distributed_counter.Base.{
  Text, Bool, true, false, ◌&&◌, ◌||◌, not, Option, none, some, List, [], ◌∷◌, if◌then◌else◌, codes,
  has_prefix, text_eq, length, drop,
}

-- How a call that does not reach its handler ends, and one that does.
pub data Reply {ℓ} (R : Type ℓ) : Type ℓ where
  unauthenticated : Reply R
  resource_exhausted : Reply R
  handled : R → Reply R

pub record AuthInterceptor : Type 0 where
  pub enabled : Bool
  pub api_key : Text

-- The values of the header "authorization", `none` where the call has no metadata.
abbrev pub Metadata : Type 0
Metadata = Option (List Text)

-- strings.TrimPrefix(s, prefix)
unfoldable pub trim_prefix : Text → Text → Text
trim_prefix s prefix = if has_prefix s prefix then drop (length prefix) s else s

unfoldable pub allowlist : Text → Bool
allowlist method =
    has_prefix method (codes "/grpc.health.v1.Health/")
    || has_prefix method (codes "/grpc.reflection.")

abbrev pub bearer : Text
bearer = codes "Bearer "

-- The end of authorized: a key that is not set admits nobody.
unfoldable pub matches : Text → Text → Bool
unfolding trim_prefix
matches api_key value =
    if text_eq api_key [] then false else text_eq (trim_prefix value bearer) api_key

unfoldable pub authorized : AuthInterceptor → Metadata → Bool
unfolding matches
authorized a none = false
authorized a (some []) = false
authorized a (some (value ∷ values)) = matches a.api_key value

-- Unary and Stream, on the state that the handler changes.
unfoldable pub check_key {ℓ κ} :
    {S : Type ℓ} {R : Type κ}
    → AuthInterceptor
    → Text
    → Metadata
    → (S → S × Reply R)
    → S
    → S × Reply R
unfolding allowlist authorized
check_key a method ctx handler s =
    if a.enabled && (not (allowlist method) && not (authorized a ctx))
    then (s, unauthenticated)
    else handler s
