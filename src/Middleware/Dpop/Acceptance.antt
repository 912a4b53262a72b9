-- ===== src/Middleware/Dpop/Acceptance.antt =====
-- What an accepted proof has gone through.
use lamdis_core.Prelude.{
  ℕ, ◌-◌, ◌≤◌, ◌≡◌, ◌≢◌, ◌⊎◌, inl, inr, refl, sym, ap, Bool, true, false, Option, some, arith, null,
  Bool-cases, Option-cases,
}
use lamdis_core.Text.{Text}
use lamdis_core.Middleware.Dpop.{
  Proof, Request, Env, Outcome, accepted, refused, panics, fresh_for, remembered_for, redis_key,
  read_key, match_htu, strings_equal, is_fresh, then_fresh, then_result, check_claims, check_replay,
  after_replay, verify_proof, verify_with_key, dpop_verify_with_redis,
}

pub fresh_bound : (now iat : ℕ) → is_fresh now (some iat) ≡ true → now - iat ≤ fresh_for
unfolding is_fresh
fresh_bound now iat h = ground arith

module _ {Key Redis : Type 0} (env : Env Key Redis) where
  -- What an acceptance has gone through.
  abbrev pub Accepts : ℕ → Request → Redis → Option Redis → Key → Text → Proof → Redis → Type 0
  Accepts now req db out key alg pt db' =
      (read_key env (env.parse_jws req.dpop) ≡ inr (key, alg))
      × (env.parse_jwt now alg key req.dpop ≡ some pt)
      × (is_fresh now pt.iat ≡ true)
      × (env.set_nx (redis_key pt.jti) now remembered_for db ≡ (true, db'))
      × (out ≡ some db')

  replay_inv :
      (req : Request) (key : Key) (pt : Proof) (set : Bool × Redis) (out : Option Redis)
      → after_replay env req key pt (set.0, some set.1) ≡ (accepted, out)
      → (set.0 ≡ true) × (out ≡ some set.1)
  unfolding after_replay
  replay_inv req key pt (true, db) out h = (refl, sym (ap (λ p. p.1) h))
  replay_inv req key pt (false, db) out h = absurd (clash (ap (λ p. p.0) h))
    where
      clash : {m : Text} → refused m ≢ accepted
      clash h = cc

  then_fresh_inv : (o : Outcome) (fresh : Bool) → then_fresh o fresh ≡ accepted → fresh ≡ true
  unfolding then_fresh
  then_fresh_inv accepted true h = refl
  then_fresh_inv accepted false h = cc
  then_fresh_inv (refused m) fresh h = cc
  then_fresh_inv panics fresh h = cc

  claims_fresh :
      (now : ℕ) (req : Request) (pt : Proof)
      → check_claims env now req pt ≡ accepted
      → is_fresh now pt.iat ≡ true
  unfolding check_claims
  claims_fresh now req pt h = elim (Bool-cases (strings_equal pt.htm req.method)) [
    | inl e ↦ then_fresh_inv (match_htu env pt.htu req.path) (is_fresh now pt.iat) (ground arith)
    | inr e ↦ absurd (ground arith)
  ]

  then_result_inv :
      (o : Outcome) (db out : Option Redis) (rest : Outcome × Option Redis)
      → then_result o db rest ≡ (accepted, out)
      → (o ≡ accepted) × (rest ≡ (accepted, out))
  unfolding then_result
  then_result_inv accepted db out rest h = (refl, h)
  then_result_inv (refused m) db out rest h = cc
  then_result_inv panics db out rest h = cc

  proof_inv :
      (now : ℕ) (req : Request) (key : Key) (pt : Proof) (db : Redis) (out : Option Redis)
      → verify_proof env now req key pt (some db) ≡ (accepted, out)
      → (db' : Redis) × (is_fresh now pt.iat ≡ true)
        × (env.set_nx (redis_key pt.jti) now remembered_for db ≡ (true, db'))
        × (out ≡ some db')
  unfolding verify_proof check_replay
  proof_inv now req key pt db out h =
      let set : Bool × Redis = env.set_nx (redis_key pt.jti) now remembered_for db in
      let (c, r) =
        then_result_inv (check_claims env now req pt) (some db) out
          (after_replay env req key pt (set.0, some set.1)) h in
      let (done, e) = replay_inv req key pt set out r in
      (set.1, claims_fresh now req pt c, rw done refl, e)

  key_inv :
      (now : ℕ) (req : Request) (keys : Text ⊎ (Key × Text)) (db : Redis) (out : Option Redis)
      → read_key env (env.parse_jws req.dpop) ≡ keys
      → verify_with_key env now req keys (some db) ≡ (accepted, out)
      → (key : Key) × (alg : Text) × (pt : Proof) × (db' : Redis) × Accepts now req db out key alg
          pt db'
  unfolding verify_with_key
  key_inv now req (inl m) db out k h = absurd (clash (ap (λ p. p.0) h))
    where
      clash : refused m ≢ accepted
      clash e = cc
  key_inv now req (inr (key, alg)) db out k h =
      elim (Option-cases (env.parse_jwt now alg key req.dpop)) [
        | inl e ↦ absurd (ground arith)
        | inr (pt, e) ↦
            let (db', f, s, o) = proof_inv now req key pt db out (ground arith) in
            (key, alg, pt, db', (k, e, f, s, o))
      ]

  pub accept_inv :
      (now : ℕ) (req : Request) (db : Redis) (out : Option Redis)
      → dpop_verify_with_redis env now req (some db) ≡ (accepted, out)
      → (key : Key) × (alg : Text) × (pt : Proof) × (db' : Redis) × Accepts now req db out key alg
          pt db'
  unfolding dpop_verify_with_redis
  accept_inv now req db out h = elim (Bool-cases (null req.dpop)) [
    | inl e ↦ absurd (ground arith)
    | inr e ↦ key_inv now req (read_key env (env.parse_jws req.dpop)) db out refl (ground arith)
  ]
