-- ===== src/Server/Auth/Keys.antt =====
-- Which headers carry the key.
use distributed_counter.Base.{
  Text, ◌≡◌, refl, sym, ◌∙◌, ap, true, false, ◌⊎◌, ◌≢◌, ◌↔◌, inl, inr, none, some, List, [], ◌∷◌,
  ◌++◌, has_prefix, has_prefix-append, text_eq_iff, length, drop, Bool-cases, arith, subst,
}
use distributed_counter.Server.Auth.{
  AuthInterceptor, Metadata, trim_prefix, bearer, matches, authorized,
}

-- The call presents the key that is set: as it is, or after "Bearer ".
abbrev pub PresentsKey : Text → Metadata → Type 0
PresentsKey api_key ctx =
    (value : Text) × (values : List Text) × (ctx ≡ some (value ∷ values))
    × (api_key ≢ [])
    × ((value ≡ bearer ++ api_key) ⊎ ((value ≡ api_key) × (has_prefix api_key bearer ≡ false)))

drop-append : (p s : Text) → drop (length p) (p ++ s) ≡ s
drop-append [] s = refl
drop-append (c ∷ p) s = drop-append p s

has_prefix→append : (s p : Text) → has_prefix s p ≡ true → s ≡ p ++ drop (length p) s
unfolding has_prefix
has_prefix→append s [] h = refl
has_prefix→append [] (p ∷ ps) h = cc
has_prefix→append (c ∷ s) (p ∷ ps) h = ground (arith, has_prefix→append s ps)

trim_prefix-append : (p s : Text) → trim_prefix (p ++ s) p ≡ s
unfolding trim_prefix
trim_prefix-append p s = rw (has_prefix-append p s) (drop-append p s)

trim_prefix-off : (s p : Text) → has_prefix s p ≡ true → trim_prefix s p ≡ drop (length p) s
unfolding trim_prefix
trim_prefix-off s p e = rw e refl

trim_prefix-kept : (s p : Text) → has_prefix s p ≡ false → trim_prefix s p ≡ s
unfolding trim_prefix
trim_prefix-kept s p e = rw e refl

trim_prefix→ :
    (s p t : Text) → trim_prefix s p ≡ t → (s ≡ p ++ t) ⊎ ((s ≡ t) × (has_prefix t p ≡ false))
trim_prefix→ s p t h = elim (Bool-cases (has_prefix s p)) [
  | inl e ↦ inl (has_prefix→append s p e ∙ ap (λ r. p ++ r) (sym (trim_prefix-off s p e) ∙ h))
  | inr e ↦
      let same = sym (trim_prefix-kept s p e) ∙ h in
      inr ((same, subst (λ r. has_prefix r p ≡ false) same e))
]

→trim_prefix :
    (s p t : Text) → (s ≡ p ++ t) ⊎ ((s ≡ t) × (has_prefix t p ≡ false)) → trim_prefix s p ≡ t
→trim_prefix s p t (inl e) = ap (λ r. trim_prefix r p) e ∙ trim_prefix-append p t
→trim_prefix s p t (inr (e, n)) = ap (λ r. trim_prefix r p) e ∙ trim_prefix-kept t p n

matches_iff :
    (api_key value : Text)
    → (matches api_key value ≡ true) ↔ ((api_key ≢ []) × (trim_prefix value bearer ≡ api_key))
unfolding matches
matches_iff api_key value =
    ground (arith, text_eq_iff api_key [], text_eq_iff (trim_prefix value bearer) api_key)

pub authorized-PresentsKey :
    (a : AuthInterceptor) (ctx : Metadata) → authorized a ctx ≡ true → PresentsKey a.api_key ctx
unfolding authorized
authorized-PresentsKey a none h = cc
authorized-PresentsKey a (some []) h = cc
authorized-PresentsKey a (some (value ∷ values)) h =
    let m = (matches_iff a.api_key value).0 h in
    (value, values, refl, m.0, trim_prefix→ value bearer a.api_key m.1)

pub PresentsKey-authorized :
    (a : AuthInterceptor) (ctx : Metadata) → PresentsKey a.api_key ctx → authorized a ctx ≡ true
unfolding authorized
PresentsKey-authorized a ctx (value, values, e, set, h) =
    ap (authorized a) e
    ∙ (matches_iff a.api_key value).1 ((set, →trim_prefix value bearer a.api_key h))
