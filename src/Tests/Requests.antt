-- ===== src/Tests/Requests.antt =====
-- Runs of the middleware.
use lamdis_core.Prelude.{
  ℕ, ◌+◌, ◌≤◌, ◌<◌, ◌≡◌, ◌≢◌, ◌↔◌, ◌⊎◌, inl, inr, refl, Bool, true, false, ltb, if◌then◌else◌, ◌||◌,
  Bool-cases, sym, ap, ◌∙◌, Option, none, some, List, [], ◌∷◌, ◌++◌, Result, ok, arith,
}
use lamdis_core.Text.{Text, codes, text_eq, trim_space, trim_right_char, to_lower, drop, fields}
use lamdis_core.Text.Laws.{text_eq_refl}
use lamdis_core.Text.Maps.{insert, lookup}
use lamdis_core.Middleware.Scope.{next, text}
use lamdis_core.Middleware.Auth.{
  Token, AuthConfig, KeyCache, get_keys, jwks_url_of, jwks_ttl, accepted_audiences, jwt_auth,
  is_open_path, is_dev_bypass,
}
use lamdis_core.Middleware.Auth.Conditions.{Meets}
use lamdis_core.Middleware.Auth.Laws.{Brings, jwt_auth_sound, jwt_auth_open}
use lamdis_core.Middleware.DebugWrite.{
  header, body, serve, new_wrapper, first_status, bodies, serve_lem,
}
use lamdis_core.Middleware.Tenant.{with_tenant, Knows, is_probe, strip_port, with_tenant_iff}
use lamdis_core.Middleware.Dpop.{redis_key, Proof, Request, Env, accepted, dpop_verify_with_redis}
use lamdis_core.Middleware.Dpop.Replay.{verify_all, accepted_once}
use lamdis_core.Tenants.{Tenant}
use lamdis_core.Tests.Data.{shop, tenant}

abbrev config : AuthConfig
config = record { env = codes "prod"; issuer = []; audience = []; jwks_url = [] }

abbrev token : Token
token = record {
  audience = codes "b" ∷ [];
  tid = some (text shop);
  scope = some (text (codes "read pay"));
  gty = none;
  acr = some (text (codes "high"));
  sub = none;
}

abbrev keys : Text → Result ℕ
keys url = ok 1

abbrev verify : ℕ → Text → Option Text → Text → Option Token
verify set issuer audience raw = some token

abbrev bearer : Text
bearer = codes "Bearer x"

abbrev stored : KeyCache ℕ
stored = insert (codes "https://id/keys") (1, 5 + jwks_ttl) []

jwt_auth_passes :
    jwt_auth keys verify config tenant 5 (codes "/v1/actions") bearer []
    ≡ (next (some (codes "read" ∷ codes "pay" ∷ [], token)), stored)
unfolding jwt_auth text_eq trim_space trim_right_char lookup insert fields drop to_lower
jwt_auth_passes = refl

jwt_auth_sound_example :
    (set : ℕ) × (get_keys keys (jwks_url_of config tenant) 5 jwks_ttl [] ≡ (ok set, stored))
    × Brings keys verify config tenant bearer set token
    × Meets tenant (accepted_audiences config tenant) token (codes "read" ∷ codes "pay" ∷ [])
jwt_auth_sound_example =
    jwt_auth_sound keys verify config tenant 5 (codes "/v1/actions") bearer [] stored
      (codes "read" ∷ codes "pay" ∷ []) token jwt_auth_passes

abbrev empty : KeyCache ℕ
empty = []

jwt_auth_open_example :
    ((is_open_path (codes "/healthz") ≡ true) ⊎ (is_dev_bypass config [] ≡ true)) × (empty ≡ empty)
jwt_auth_open_example =
    jwt_auth_open keys verify config tenant 5 (codes "/healthz") [] empty empty
      (unfold jwt_auth text_eq in refl)

abbrev url : Text
url = codes "https://id/keys"

serve_lem_example :
    (serve (body (codes "x") ∷ header 500 ∷ body (codes "y") ∷ []) new_wrapper).calls
    ≡ first_status (body (codes "x") ∷ header 500 ∷ body (codes "y") ∷ [])
      ++ bodies (body (codes "x") ∷ header 500 ∷ body (codes "y") ∷ [])
serve_lem_example = serve_lem (body (codes "x") ∷ header 500 ∷ body (codes "y") ∷ [])

abbrev hosts : Text → Option Tenant
hosts h = elim (text_eq h (codes "localhost")) [ true ↦ some tenant | false ↦ none ]

with_tenant_iff_example :
    (with_tenant hosts (codes "/v1") (codes "manifest:8081") ≡ next (some tenant))
    ↔ ((is_probe (codes "/v1") ≡ false) × Knows hosts (strip_port (codes "manifest:8081")) tenant)
with_tenant_iff_example = with_tenant_iff hosts (codes "/v1") (codes "manifest:8081") tenant

-- A Redis that keeps each key for ever.
abbrev Memory : Type 0
Memory = List Text

abbrev remembers : Text → Memory → Bool
remembers k [] = false
remembers k (j ∷ db) = text_eq j k || remembers k db

abbrev set_key : Text → ℕ → ℕ → Memory → Bool × Memory
set_key k now ttl db = if remembers k db then (false, db) else (true, k ∷ db)

set_key_sets :
    (k : Text) (n d : ℕ) (db db' : Memory) → set_key k n d db ≡ (true, db') → remembers k db' ≡ true
set_key_sets k n d db db' h = elim (Bool-cases (remembers k db)) [
  | inl e ↦ absurd (ground arith)
  | inr e ↦ let same : (k ∷ db) ≡ db' = ground arith in rw (← same) (ground (arith, text_eq_refl k))
]

set_key_keeps :
    (k j : Text) (e n d : ℕ) (db : Memory)
    → remembers k db ≡ true
    → remembers k (set_key j n d db).1 ≡ true
set_key_keeps k j e n d db h = ground arith

set_key_refuses :
    (k : Text) (e n d : ℕ) (db : Memory)
    → remembers k db ≡ true
    → n < e
    → (set_key k n d db).0 ≡ false
set_key_refuses k e n d db h l = ground arith

abbrev proof : Proof
proof = record {
  htm = some (codes "GET");
  htu = codes "/v1";
  iat = some 10;
  jti = codes "j";
  ath = none;
}

abbrev read_proof : ℕ → Option Proof
read_proof now = if ltb now 10 then none else some proof

read_proof-some : (n : ℕ) (pt : Proof) → read_proof n ≡ some pt → (10 ≤ n) × (proof ≡ pt)
read_proof-some n pt h = (ground arith, ground arith)

read_proof_validated :
    (n : ℕ) (alg : Text) (key : ℕ) (x : Text) (pt : Proof) (i : ℕ)
    → read_proof n ≡ some pt
    → pt.iat ≡ some i
    → i ≤ n
read_proof_validated n alg key x pt i h e =
    let (l, same) = read_proof-some n pt h in
    let issued : some 10 ≡ some i = rw (ap (λ p. p.iat) same) e in
    let value : 10 ≡ i = cc in omega arith

read_proof_constant :
    (n m : ℕ) (alg : Text) (key : ℕ) (x : Text) (p q : Proof)
    → read_proof n ≡ some p
    → read_proof m ≡ some q
    → p ≡ q
read_proof_constant n m alg key x p q h k =
    sym (read_proof-some n p h).1 ∙ (read_proof-some m q k).1

abbrev proofs : Env ℕ Memory
proofs = record {
  parse_jws = λ s. some (record { jwk = some []; alg = some [] });
  parse_key = λ raw. some 1;
  parse_jwt = λ now alg key s. read_proof now;
  parse_path = λ s. some s;
  thumbprint = λ key. [];
  hash = λ s. s;
  set_nx = set_key;
}

abbrev request : Request
request = record {
  dpop = codes "p";
  authorization = [];
  method = codes "GET";
  path = codes "/v1";
  jkt = none;
}

abbrev key_set : Memory
key_set = redis_key (codes "j") ∷ []

first_accepted : dpop_verify_with_redis proofs 20 request (some []) ≡ (accepted, some key_set)
unfolding dpop_verify_with_redis text_eq
first_accepted = refl

accepted_once_example :
    dpop_verify_with_redis proofs 40 request (verify_all proofs ((30, request) ∷ []) (some key_set))
    ≢ (accepted, some [])
accepted_once_example =
    accepted_once proofs (λ k e db. remembers k db ≡ true) set_key_sets set_key_keeps
      set_key_refuses read_proof_validated read_proof_constant 20 40 request request [] key_set
      (some []) ((30, request) ∷ []) refl first_accepted
