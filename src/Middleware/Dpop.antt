-- ===== src/Middleware/Dpop.antt =====
-- `dpopVerifyWithRedis` of pkg/middleware/dpop.go. Outside of the repository are the JWS and JWT
-- library, url.Parse, the hashes with their encoding (`thumbprint`, `hash`) and Redis: SETNX of a key at
-- a time for a time to live, which answers whether it set the key. Times are in nanoseconds.
pub mod Acceptance
pub mod Replay
use lamdis_core.Prelude.{
  ℕ, ◌+◌, ◌-◌, ◌*◌, ◌⊎◌, inl, inr, Bool, true, false, not, Option, none, some, List, [], ◌∷◌, ◌++◌,
  if◌then◌else◌, null, ltb, length,
}
use lamdis_core.Text.{Text, codes, text_eq, drop}

-- The protected header of the first signature, with its fields as texts.
pub record Header : Type 0 where
  pub jwk : Option Text
  pub alg : Option Text

-- The claims of a proof; `jti` is the text that fmt prints for the claim.
pub record Proof : Type 0 where
  pub htm : Option Text
  pub htu : Text
  pub iat : Option ℕ
  pub jti : Text
  pub ath : Option Text

-- A request: its DPoP and Authorization headers, method and path, and the thumbprint that the `cnf`
-- claim of its access token names.
pub record Request : Type 0 where
  pub dpop : Text
  pub authorization : Text
  pub method : Text
  pub path : Text
  pub jkt : Option Text

-- What the code does not define.
pub record Env (Key Redis : Type 0) : Type 0 where
  pub parse_jws : Text → Option Header
  pub parse_key : Text → Option Key
  pub parse_jwt : ℕ → Text → Key → Text → Option Proof
  pub parse_path : Text → Option Text
  pub thumbprint : Key → Text
  pub hash : Text → Text
  pub set_nx : Text → ℕ → ℕ → Redis → Bool × Redis

pub data Outcome : Type 0 where
  accepted : Outcome
  refused : Text → Outcome
  panics : Outcome

abbrev pub fresh_for : ℕ
fresh_for = 120_000_000_000

abbrev pub remembered_for : ℕ
remembered_for = 300_000_000_000

unfoldable pub redis_key : Text → Text
redis_key jti = codes "dpop:" ++ jti

-- `stringsEqual`: a claim that is no text stands for "".
unfoldable pub strings_equal : Option Text → Text → Bool
unfolding text_eq
strings_equal none b = null b
strings_equal (some a) b = text_eq a b

unfoldable pub is_fresh : ℕ → Option ℕ → Bool
is_fresh now none = false
is_fresh now (some iat) = not (ltb fresh_for (now - iat))

-- The freshness check behind matchHTU, whose refusal is returned as it is.
unfoldable pub then_fresh : Outcome → Bool → Outcome
then_fresh accepted fresh = if fresh then accepted else refused (codes "stale DPoP")
then_fresh (refused m) fresh = refused m
then_fresh panics fresh = panics

-- The rest of the checks behind those of the claims.
unfoldable pub then_result :
    {Redis : Type 0} → Outcome → Option Redis → Outcome × Option Redis → Outcome × Option Redis
then_result accepted db rest = rest
then_result (refused m) db rest = (refused m, db)
then_result panics db rest = (panics, db)

module _ {Key Redis : Type 0} (env : Env Key Redis) where
  -- The part up to jwt.Parse: the refusal, or the key and its algorithm.
  unfoldable pub read_key : Option Header → Text ⊎ (Key × Text)
  read_key none = inl (codes "bad DPoP")
  read_key (some h) = elim h.jwk [
    | none ↦ inl (codes "missing jwk header")
    | some raw ↦ elim (env.parse_key raw) [
      | none ↦ inl (codes "bad jwk")
      | some key ↦ elim h.alg [ none ↦ inl (codes "missing alg") | some alg ↦ inr (key, alg) ]
    ]
  ]

  -- `matchHTU`
  unfoldable pub match_htu : Text → Text → Outcome
  unfolding text_eq
  match_htu htu path = elim (env.parse_path htu) [
    | none ↦ refused (codes "bad htu")
    | some p ↦ if text_eq p path then accepted else refused (codes "htu path mismatch")
  ]

  -- The checks between jwt.Parse and the replay check.
  unfoldable pub check_claims : ℕ → Request → Proof → Outcome
  unfolding match_htu strings_equal is_fresh then_fresh
  check_claims now req pt =
      if not (strings_equal pt.htm req.method)
      then refused (codes "htm mismatch")
      else then_fresh (match_htu pt.htu req.path) (is_fresh now pt.iat)

  -- The replay check, made where there is a Redis client. An error of Redis counts as a replay.
  unfoldable pub check_replay : ℕ → Text → Option Redis → Bool × Option Redis
  unfolding redis_key
  check_replay now jti none = (true, none)
  check_replay now jti (some db) =
      let (set, db') = env.set_nx (redis_key jti) now remembered_for db in (set, some db')

  -- The access token's hash; Authorization is cut at 7 without a look at its length.
  unfoldable pub check_ath : Request → Option Text → Outcome
  unfolding text_eq drop
  check_ath req none = accepted
  check_ath req (some ath) =
      if ltb (length req.authorization) 7
      then panics
      else if text_eq (env.hash (drop 7 req.authorization)) ath
      then accepted
      else refused (codes "ath mismatch")

  unfoldable pub check_binding : Request → Key → Proof → Outcome
  unfolding check_ath text_eq
  check_binding req key pt = elim req.jkt [
    | none ↦ check_ath req pt.ath
    | some jkt ↦
        if text_eq (env.thumbprint key) jkt
        then check_ath req pt.ath
        else refused (codes "cnf mismatch")
  ]

  unfoldable pub after_replay : Request → Key → Proof → Bool × Option Redis → Outcome × Option Redis
  unfolding check_binding
  after_replay req key pt (set, db) =
      if set then (check_binding req key pt, db) else (refused (codes "replay"), db)

  unfoldable pub verify_proof : ℕ → Request → Key → Proof → Option Redis → Outcome × Option Redis
  unfolding check_claims after_replay check_replay then_result
  verify_proof now req key pt db =
      then_result (check_claims now req pt) db
        (after_replay req key pt (check_replay now pt.jti db))

  unfoldable pub verify_with_key :
      ℕ → Request → Text ⊎ (Key × Text) → Option Redis → Outcome × Option Redis
  unfolding verify_proof
  verify_with_key now req (inl m) db = (refused m, db)
  verify_with_key now req (inr (key, alg)) db = elim (env.parse_jwt now alg key req.dpop) [
    | none ↦ (refused (codes "bad DPoP"), db)
    | some pt ↦ verify_proof now req key pt db
  ]

  unfoldable pub dpop_verify_with_redis : ℕ → Request → Option Redis → Outcome × Option Redis
  unfolding verify_with_key read_key
  dpop_verify_with_redis now req db =
      if null req.dpop
      then (refused (codes "missing DPoP"), db)
      else verify_with_key now req (read_key (env.parse_jws req.dpop)) db
