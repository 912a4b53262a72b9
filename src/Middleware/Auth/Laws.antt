-- ===== src/Middleware/Auth/Laws.antt =====
-- What holds of a request that passes `JWTAuth`.
use lamdis_core.Prelude.{
  ℕ, ◌≡◌, ◌≢◌, refl, ◌⊎◌, inl, inr, true, ◌||◌, Option, none, some, List, Result, ok, err, arith,
  null, Bool-cases, Option-cases,
}
use lamdis_core.Text.{Text}
use lamdis_core.Tenants.{Tenant}
use lamdis_core.Middleware.Scope.{next, has_bearer, bearer_token}
use lamdis_core.Middleware.Auth.{
  Token, AuthConfig, KeyCache, get_keys, accepted_audiences, single_audience, is_open_path,
  is_dev_bypass, issuer_of, jwks_url_of, jwks_ttl, authenticate, jwt_auth,
}
use lamdis_core.Middleware.Auth.Conditions.{Meets, check_token_sound, check_token_some}

module _ {KeySet : Type 0} (fetch : Text → Result KeySet)
    (verify : KeySet → Text → Option Text → Text → Option Token) where
  -- The token that a request brings, as the verified claims of its bearer token.
  abbrev pub Brings : AuthConfig → Tenant → Text → KeySet → Token → Type 0
  Brings cfg t authz set jt =
      (has_bearer authz ≡ true)
      × (verify set (issuer_of cfg t) (single_audience (accepted_audiences cfg t))
            (bearer_token authz)
          ≡ some jt)

  authenticate_sound :
      (cfg : AuthConfig) (t : Tenant) (authz : Text) (keys : Result KeySet) (scopes : List Text)
      (jt : Token)
      → authenticate fetch verify cfg t authz keys ≡ next (some (scopes, jt))
      → (set : KeySet) × (keys ≡ ok set)
        × Brings cfg t authz set jt
        × Meets t (accepted_audiences cfg t) jt scopes
  unfolding authenticate
  authenticate_sound cfg t authz err scopes jt h = cc
  authenticate_sound cfg t authz (ok set) scopes jt h = elim (Bool-cases (has_bearer authz)) [
    | inr e ↦ absurd (ground arith)
    | inl e ↦
        elim (Option-cases (
          verify set (issuer_of cfg t) (single_audience (accepted_audiences cfg t))
            (bearer_token authz))) [
              | inl v ↦ absurd (ground arith)
              | inr (tok, v) ↦
                  let (same, meets) =
                    check_token_sound t (accepted_audiences cfg t) tok jt scopes (ground arith) in
                  (set, refl, (e, ground arith), rw (← same) meets)
            ]
  ]

  with_keys :
      (cfg : AuthConfig) (t : Tenant) (authz : Text) (keys : Result KeySet × KeyCache KeySet)
      (cache' : KeyCache KeySet) (scopes : List Text) (jt : Token)
      → authenticate fetch verify cfg t authz keys.0 ≡ next (some (scopes, jt))
      → keys.1 ≡ cache'
      → (set : KeySet) × (keys ≡ (ok set, cache'))
        × Brings cfg t authz set jt
        × Meets t (accepted_audiences cfg t) jt scopes
  with_keys cfg t authz (keys, cache) cache' scopes jt h k =
      let (set, e, b, m) = authenticate_sound cfg t authz keys scopes jt h in
      (set, rw (e, k) refl, b, m)

  authenticate_some :
      (cfg : AuthConfig) (t : Tenant) (authz : Text) (keys : Result KeySet)
      → authenticate fetch verify cfg t authz keys ≢ next none
  unfolding authenticate
  authenticate_some cfg t authz err h = cc
  authenticate_some cfg t authz (ok set) h = elim (Bool-cases (has_bearer authz)) [
    | inr e ↦ absurd (ground arith)
    | inl e ↦
        elim (Option-cases (
          verify set (issuer_of cfg t) (single_audience (accepted_audiences cfg t))
            (bearer_token authz))) [
              | inl v ↦ absurd (ground arith)
              | inr (tok, v) ↦ check_token_some t (accepted_audiences cfg t) tok (ground arith)
            ]
  ]

  -- Where a request passes with a token: the key set is the one that the cache or the download gave
  -- for the tenant's URL, the token is the verified bearer token of the request, and it meets the
  -- tenant's conditions on audience, tenant and machine scopes, and those on the authentication level where
  -- it has an acr claim; a token without that claim meets them at any level.
  pub jwt_auth_sound :
      (cfg : AuthConfig) (t : Tenant) (now : ℕ) (path authz : Text) (cache cache' : KeyCache KeySet)
      (scopes : List Text) (jt : Token)
      → jwt_auth fetch verify cfg t now path authz cache ≡ (next (some (scopes, jt)), cache')
      → (set : KeySet) × (get_keys fetch (jwks_url_of cfg t) now jwks_ttl cache ≡ (ok set, cache'))
        × Brings cfg t authz set jt
        × Meets t (accepted_audiences cfg t) jt scopes
  unfolding jwt_auth
  jwt_auth_sound cfg t now path authz cache cache' scopes jt h =
      elim (Bool-cases (is_open_path path)) [
        | inl e ↦ absurd (ground arith)
        | inr e ↦ elim (Bool-cases (is_dev_bypass cfg authz)) [
          | inl f ↦ absurd (ground arith)
          | inr f ↦ elim (Bool-cases (null (issuer_of cfg t) || null (jwks_url_of cfg t))) [
            | inl g ↦ absurd (ground arith)
            | inr g ↦
                with_keys cfg t authz (get_keys fetch (jwks_url_of cfg t) now jwks_ttl cache) cache'
                  scopes jt (ground arith) (ground arith)
          ]
        ]
      ]

  -- A request passes without a token only on an open path, or in the development environment with
  -- no Authorization header; the cache is left alone then.
  pub jwt_auth_open :
      (cfg : AuthConfig) (t : Tenant) (now : ℕ) (path authz : Text) (cache cache' : KeyCache KeySet)
      → jwt_auth fetch verify cfg t now path authz cache ≡ (next none, cache')
      → ((is_open_path path ≡ true) ⊎ (is_dev_bypass cfg authz ≡ true)) × (cache' ≡ cache)
  unfolding jwt_auth
  jwt_auth_open cfg t now path authz cache cache' h = elim (Bool-cases (is_open_path path)) [
    | inl e ↦ (inl e, ground arith)
    | inr e ↦ elim (Bool-cases (is_dev_bypass cfg authz)) [
      | inl f ↦ (inr f, ground arith)
      | inr f ↦ elim (Bool-cases (null (issuer_of cfg t) || null (jwks_url_of cfg t))) [
        | inl g ↦ absurd (ground arith)
        | inr g ↦ absurd (
            authenticate_some cfg t authz (get_keys fetch (jwks_url_of cfg t) now jwks_ttl cache).0
              (ground arith))
      ]
    ]
  ]
