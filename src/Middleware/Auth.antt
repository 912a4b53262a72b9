-- ===== src/Middleware/Auth.antt =====
-- `JWTAuth` of pkg/middleware/auth.go with its cache of key sets. `KeySet` is a JWKS, `fetch` its
-- download and `verify` jwt.Parse with the key set, the issuer and one audience, all of third parties.
pub mod Conditions
pub mod Laws
pub mod Caching
use lamdis_core.Prelude.{
  ℕ, ◌+◌, Bool, true, false, not, ◌&&◌, ◌||◌, Option, none, some, List, [], ◌∷◌, Result, ok, err,
  if◌then◌else◌, null, ltb, any, all,
}
use lamdis_core.Text.{Text, codes, text_eq, trim_space, trim_right_char, has_prefix, to_lower, drop}
use lamdis_core.Text.Maps.{Assoc, lookup, insert, mem_text}
use lamdis_core.Tenants.{Tenant}
use lamdis_core.Middleware.Scope.{
  Reply, next, deny, panics, Claim, text, other, scopes_of, has_bearer, bearer_token,
}

-- The claims of an accepted token that the services read.
pub record Token : Type 0 where
  pub audience : List Text
  pub tid : Option Claim
  pub scope : Option Claim
  pub gty : Option Claim
  pub acr : Option Claim
  pub sub : Option Claim

-- `Config` of pkg/config/config.go, as far as it is read here
pub record AuthConfig : Type 0 where
  pub env : Text
  pub issuer : Text
  pub audience : Text
  pub jwks_url : Text

-- `cachedJWKS` by URL: the set, and when it expires
abbrev pub KeyCache : Type 0 → Type 0
KeyCache KeySet = Assoc (KeySet × ℕ)

module _ {KeySet : Type 0} where
  fresh_entry : ℕ → Option (KeySet × ℕ) → Option KeySet
  fresh_entry now none = none
  fresh_entry now (some (set, expires)) = if ltb now expires then some set else none

  -- The check that is made under the read lock, and again under the write lock.
  unfoldable pub read_cached : Text → ℕ → KeyCache KeySet → Option KeySet
  unfolding fresh_entry lookup
  read_cached url now cache = fresh_entry now (lookup url cache)

  unfoldable pub store_fetched :
      Text → ℕ → KeyCache KeySet → Result KeySet → Result KeySet × KeyCache KeySet
  store_fetched url expires cache err = (err, cache)
  store_fetched url expires cache (ok set) = (ok set, insert url (set, expires) cache)

  -- The part under the write lock.
  unfoldable pub refresh :
      (Text → Result KeySet) → Text → ℕ → ℕ → KeyCache KeySet → Result KeySet × KeyCache KeySet
  unfolding store_fetched
  refresh fetch url now ttl cache = elim (read_cached url now cache) [
    | some set ↦ (ok set, cache)
    | none ↦ store_fetched url (now + ttl) cache (fetch url)
  ]

  unfoldable pub get_keys :
      (Text → Result KeySet) → Text → ℕ → ℕ → KeyCache KeySet → Result KeySet × KeyCache KeySet
  get_keys fetch url now ttl cache = elim (read_cached url now cache) [
    | some set ↦ (ok set, cache)
    | none ↦ refresh fetch url now ttl cache
  ]

-- c.(string), with "" for anything else
abbrev pub claim_text : Option Claim → Text
claim_text (some (text s)) = s
claim_text _ = []

-- The audiences of the tenant, or the configured one.
unfoldable pub accepted_audiences : AuthConfig → Tenant → List Text
accepted_audiences cfg t =
    if null t.accepted_audiences && not (null cfg.audience)
    then cfg.audience ∷ []
    else t.accepted_audiences

-- One accepted audience is checked by jwt.Parse.
abbrev pub single_audience : List Text → Option Text
single_audience (a ∷ []) = some a
single_audience _ = none

-- Several are checked here.
abbrev pub audience_ok : List Text → List Text → Bool
audience_ok (a ∷ b ∷ accepted) audience = any (λ x. mem_text x (a ∷ b ∷ accepted)) audience
audience_ok _ audience = true

unfoldable pub tenant_ok : Tenant → Option Claim → Bool
tenant_ok t tid = null (claim_text tid) || null t.id || text_eq (claim_text tid) t.id

unfoldable pub machine_ok : Tenant → Option Claim → List Text → Bool
machine_ok t gty scopes =
    not (text_eq (claim_text gty) (codes "client_credentials"))
    || null t.machine_allowed_scopes
    || all (λ s. mem_text s t.machine_allowed_scopes) scopes

-- One entry of RequiredACRByAction: its scope is not asked for, or the token has its value.
abbrev pub acr_entry_ok : Text → List Text → Text × Text → Bool
acr_entry_ok acr scopes (scope, req) = null req || not (mem_text scope scopes) || text_eq acr req

-- The entries are looked at only where the token has the claim.
unfoldable pub acr_ok : Tenant → Option Claim → List Text → Bool
acr_ok t none scopes = true
acr_ok t (some c) scopes = all (acr_entry_ok (claim_text (some c)) scopes) t.required_acr_by_action

unfoldable pub check_scopes :
    Tenant → Token → Reply (List Text) → Reply (Option (List Text × Token))
check_scopes t jt (next scopes) =
    if not (machine_ok t jt.gty scopes)
    then deny 403 (codes "scope_not_allowed_machine")
    else if not (acr_ok t jt.acr scopes)
    then deny 403 (codes "acr_required")
    else next (some (scopes, jt))
check_scopes t jt (deny n m) = deny n m
check_scopes t jt panics = panics

-- The checks of a token that jwt.Parse accepted.
unfoldable pub check_token : Tenant → List Text → Token → Reply (Option (List Text × Token))
check_token t accepted jt =
    if not (audience_ok accepted jt.audience)
    then deny 401 (codes "aud_invalid")
    else if not (tenant_ok t jt.tid)
    then deny 403 (codes "tenant_mismatch")
    else check_scopes t jt (scopes_of jt.scope)

-- Paths that need no token.
unfoldable pub is_open_path : Text → Bool
unfolding has_prefix text_eq
is_open_path path =
    text_eq path (codes "/healthz")
    || text_eq path (codes "/metrics")
    || has_prefix (codes "/.well-known/") path

unfoldable pub is_dev_bypass : AuthConfig → Text → Bool
unfolding trim_space text_eq
is_dev_bypass cfg authz = text_eq cfg.env (codes "dev") && null (trim_space authz)

unfoldable pub issuer_of : AuthConfig → Tenant → Text
unfolding trim_right_char
issuer_of cfg t =
    let own = trim_right_char b'/' t.oauth_issuer in
    if null own then trim_right_char b'/' cfg.issuer else own

unfoldable pub jwks_url_of : AuthConfig → Tenant → Text
jwks_url_of cfg t = if null t.jwks_url then cfg.jwks_url else t.jwks_url

-- 6 * time.Hour, in nanoseconds
abbrev pub jwks_ttl : ℕ
jwks_ttl = 21_600_000_000_000

module _ {KeySet : Type 0} (fetch : Text → Result KeySet)
    (verify : KeySet → Text → Option Text → Text → Option Token) where
  -- The part behind the key set.
  unfoldable pub authenticate :
      AuthConfig → Tenant → Text → Result KeySet → Reply (Option (List Text × Token))
  unfolding check_token tenant_ok check_scopes scopes_of machine_ok acr_ok accepted_audiences
      issuer_of to_lower has_prefix trim_space drop
  authenticate cfg t authz err = deny 500 (codes "jwks fetch failed")
  authenticate cfg t authz (ok set) =
      if not (has_bearer authz)
      then deny 401 (codes "missing bearer")
      else elim (verify set (issuer_of cfg t) (single_audience (accepted_audiences cfg t))
          (bearer_token authz)) [
            | none ↦ deny 401 (codes "invalid token")
            | some jt ↦ check_token t (accepted_audiences cfg t) jt
          ]

  -- The middleware on one request: how it ends, with the scopes and the token that it puts into the
  -- context, and the cache that it leaves.
  unfoldable pub jwt_auth :
      AuthConfig
      → Tenant
      → ℕ
      → Text
      → Text
      → KeyCache KeySet
      → Reply (Option (List Text × Token)) × KeyCache KeySet
  unfolding is_open_path is_dev_bypass authenticate issuer_of jwks_url_of get_keys refresh
      read_cached
  jwt_auth cfg t now path authz cache =
      if is_open_path path
      then (next none, cache)
      else if is_dev_bypass cfg authz
      then (next none, cache)
      else if null (issuer_of cfg t) || null (jwks_url_of cfg t)
      then (deny 500 (codes "auth not configured"), cache)
      else (let (set, cache') = get_keys fetch (jwks_url_of cfg t) now jwks_ttl cache in
          (authenticate cfg t authz set, cache'))

-- `GrantTypeFrom` and `ActorSub`: claims of the token in the context, "" without one
unfoldable pub grant_type_from : Option Token → Text
grant_type_from none = []
grant_type_from (some jt) = claim_text jt.gty

unfoldable pub actor_sub : Option Token → Text
actor_sub none = []
actor_sub (some jt) = claim_text jt.sub
