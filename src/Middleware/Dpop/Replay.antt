-- ===== src/Middleware/Dpop/Replay.antt =====
-- Replay protection: what is accepted once.
use lamdis_core.Prelude.{
  ℕ, ◌+◌, ◌-◌, ◌≤◌, ◌<◌, ◌≡◌, ◌≢◌, ◌⊎◌, inl, inr, refl, ap, Bool, true, false, Option, none, some,
  List, [], ◌∷◌, arith, null, Bool-cases, Option-cases,
}
use lamdis_core.Text.{Text}
use lamdis_core.Middleware.Dpop.{
  Proof, Request, Env, Outcome, accepted, refused, panics, fresh_for, remembered_for, redis_key,
  read_key, is_fresh, then_result, check_claims, check_replay, after_replay, verify_proof,
  verify_with_key, dpop_verify_with_redis,
}
use lamdis_core.Middleware.Dpop.Acceptance.{fresh_bound, Accepts, accept_inv}

-- The middleware's store after a sequence of verifications, each with its time.
unfoldable pub verify_all :
    {Key Redis : Type 0} → Env Key Redis → List (ℕ × Request) → Option Redis → Option Redis
unfolding dpop_verify_with_redis
verify_all env [] db = db
verify_all env ((now, req) ∷ rs) db = verify_all env rs (dpop_verify_with_redis env now req db).1

-- `Holds k e db` says that `k` is set until `e` at least. The laws of Redis: a successful SETNX holds its
-- key for the time to live, later ones leave the keys that are held, and one of a key that is held
-- answers false. The laws of jwt.Parse: an accepted proof was not issued in the future, and the claims
-- of a proof are those of its text.
module _ {Key Redis : Type 0} (env : Env Key Redis) (Holds : Text → ℕ → Redis → Type 0)
    (sets : (k : Text) (n d : ℕ) (db db' : Redis)
      → env.set_nx k n d db ≡ (true, db')
      → Holds k (n + d) db')
    (keeps : (k j : Text) (e n d : ℕ) (db : Redis)
      → Holds k e db
      → Holds k e (env.set_nx j n d db).1)
    (refuses : (k : Text) (e n d : ℕ) (db : Redis)
      → Holds k e db
      → n < e
      → (env.set_nx k n d db).0 ≡ false) where
  -- What stays of a key in the store behind a verification.
  abbrev HoldsIn : Text → ℕ → Option Redis → Type 0
  HoldsIn k e none = ⊥
  HoldsIn k e (some db) = Holds k e db

  keeps_rest :
      (k : Text) (e : ℕ) (o : Outcome) (db : Redis) (rest : Outcome × Option Redis)
      → Holds k e db
      → HoldsIn k e rest.1
      → HoldsIn k e (then_result o (some db) rest).1
  unfolding then_result
  keeps_rest k e accepted db rest h r = r
  keeps_rest k e (refused m) db rest h r = h
  keeps_rest k e panics db rest h r = h

  keeps_after :
      (k : Text) (e : ℕ) (req : Request) (key : Key) (pt : Proof) (set : Bool × Redis)
      → Holds k e set.1
      → HoldsIn k e (after_replay env req key pt (set.0, some set.1)).1
  unfolding after_replay
  keeps_after k e req key pt (true, db) h = h
  keeps_after k e req key pt (false, db) h = h

  keeps_key :
      (k : Text) (e now : ℕ) (req : Request) (keys : Text ⊎ (Key × Text)) (db : Redis)
      → Holds k e db
      → HoldsIn k e (verify_with_key env now req keys (some db)).1
  unfolding verify_with_key
  keeps_key k e now req (inl m) db h = h
  keeps_key k e now req (inr (key, alg)) db h =
      elim (Option-cases (env.parse_jwt now alg key req.dpop)) [
        | inl f ↦ rw (f, HoldsIn) h
        | inr (pt, f) ↦
            rw (f, HoldsIn)
              (unfold verify_proof check_replay in
                keeps_rest k e (check_claims env now req pt) db
                  (after_replay env req key pt (
                    (env.set_nx (redis_key pt.jti) now remembered_for db).0,
                    some (env.set_nx (redis_key pt.jti) now remembered_for db).1,
                  ))
                  h
                  (keeps_after k e req key pt (env.set_nx (redis_key pt.jti) now remembered_for db)
                    (keeps k (redis_key pt.jti) e now remembered_for db h)))
      ]

  keeps_step :
      (k : Text) (e now : ℕ) (req : Request) (db : Option Redis)
      → HoldsIn k e db
      → HoldsIn k e (dpop_verify_with_redis env now req db).1
  unfolding dpop_verify_with_redis
  keeps_step k e now req none h = elim h [ ]
  keeps_step k e now req (some db) h = elim (Bool-cases (null req.dpop)) [
    | inl f ↦ rw (f, HoldsIn) h
    | inr f ↦ rw (f, HoldsIn) (keeps_key k e now req (read_key env (env.parse_jws req.dpop)) db h)
  ]

  keeps_all :
      (k : Text) (e : ℕ) (rs : List (ℕ × Request)) (db : Option Redis)
      → HoldsIn k e db
      → HoldsIn k e (verify_all env rs db)
  unfolding verify_all
  keeps_all k e [] db h = h
  keeps_all k e ((now, req) ∷ rs) db h =
      keeps_all k e rs (dpop_verify_with_redis env now req db).1 (keeps_step k e now req db h)

  module _
      (validated : (n : ℕ) (alg : Text) (key : Key) (x : Text) (pt : Proof) (i : ℕ)
        → env.parse_jwt n alg key x ≡ some pt
        → pt.iat ≡ some i
        → i ≤ n)
      (constant : (n m : ℕ) (alg : Text) (key : Key) (x : Text) (p q : Proof)
        → env.parse_jwt n alg key x ≡ some p
        → env.parse_jwt m alg key x ≡ some q
        → p ≡ q) where
    fresh_before :
        (now later : ℕ) (iat : Option ℕ)
        → ((i : ℕ) → iat ≡ some i → i ≤ now)
        → is_fresh later iat ≡ true
        → later < now + remembered_for
    unfolding is_fresh
    fresh_before now later none v f = cc
    fresh_before now later (some i) v f =
        let b : later - i ≤ fresh_for = fresh_bound later i f in
        let c : i ≤ now = v i refl in omega arith

    same_proof :
        (now later : ℕ) (x y : Text) (key key' : Key) (alg alg' : Text) (pt pt' : Proof)
        → y ≡ x
        → read_key env (env.parse_jws x) ≡ inr (key, alg)
        → read_key env (env.parse_jws y) ≡ inr (key', alg')
        → env.parse_jwt now alg key x ≡ some pt
        → env.parse_jwt later alg' key' y ≡ some pt'
        → pt ≡ pt'
    same_proof now later x y key key' alg alg' pt pt' same k k' p p' =
        constant now later alg key x pt pt' p cc

    twice :
        (now later : ℕ) (req again : Request) (db db1 db2 db3 : Redis) (out out' : Option Redis)
        (key key' : Key) (alg alg' : Text) (pt pt' : Proof)
        → again.dpop ≡ req.dpop
        → Accepts env now req db out key alg pt db1
        → Holds (redis_key pt.jti) (now + remembered_for) db2
        → Accepts env later again db2 out' key' alg' pt' db3
        → ⊥
    twice now later req again db db1 db2 db3 out out' key key' alg alg' pt pt' same (k, p, f, s, o)
          kept (k', p', f', s', o') =
        clash (env.set_nx (redis_key pt.jti) later remembered_for db2)
          (refuses (redis_key pt.jti) (now + remembered_for) later remembered_for db2 kept (
            fresh_before now later pt.iat (λ i w. validated now alg key req.dpop pt i p w)
              (rw pt_eq f')))
          (rw pt_eq s')
      where
        pt_eq : pt ≡ pt'
        pt_eq = same_proof now later req.dpop again.dpop key key' alg alg' pt pt' same k k' p p'

        clash : (r : Bool × Redis) → r.0 ≡ false → r ≢ (true, db3)
        clash (true, d) e g = cc
        clash (false, d) e g = absurd (true_ne (ap (λ x. x.0) g))
          where
            true_ne : false ≢ true
            true_ne h = cc

    stored :
        (k : Text) (e : ℕ) (store : Option Redis)
        → HoldsIn k e store
        → (db2 : Redis) × (store ≡ some db2) × Holds k e db2
    stored k e none h = elim h [ ]
    stored k e (some db2) h = (db2, refl, h)

    -- After a proof is accepted, whatever verifications follow, no later request with the same proof is
    -- accepted, under the laws of Redis and of jwt.Parse that the sections name.
    pub accepted_once :
        (now later : ℕ) (req again : Request) (db db' : Redis) (out : Option Redis)
        (between : List (ℕ × Request))
        → again.dpop ≡ req.dpop
        → dpop_verify_with_redis env now req (some db) ≡ (accepted, some db')
        → dpop_verify_with_redis env later again (verify_all env between (some db'))
          ≢ (accepted, out)
    accepted_once now later req again db db' out between same h g =
        let (key, alg, pt, db1, a) = accept_inv env now req db (some db') h in
        let (k, p, f, s, o) = a in
        let (db2, e, kept) =
          stored (redis_key pt.jti) (now + remembered_for) (verify_all env between (some db')) (
            keeps_all (redis_key pt.jti) (now + remembered_for) between (some db')
              (rw (some_eq o) (sets (redis_key pt.jti) now remembered_for db db1 s))) in
        let (key', alg', pt', db3, a') = accept_inv env later again db2 out (rw (← e) g) in
        twice now later req again db db1 db2 db3 (some db') out key key' alg alg' pt pt' same a kept
          a'
      where
        some_eq : {a b : Redis} → some a ≡ some b → a ≡ b
        some_eq e = cc
