-- ===== src/Policy/Lifetime.antt =====
-- How long a decision lives: `ttl_seconds` of internal/policy/service.go. The results of the Open
-- Policy Agent carry their numbers as json.Number, and the code asks for a float64.
use lamdis_core.Prelude.{
  ◌≡◌, refl, ◌⊎◌, inl, inr, Bool, true, false, not, ◌&&◌, Option, none, some, List, Result, null, ℤ,
  pos, ◌+ℤ◌, ◌*◌, arith, Bool-cases, Option-cases,
}
use lamdis_core.Text.{Text, codes, text_eq}
use lamdis_core.Json.{Runtime, Value, nil, float, str, obj, Fields, no_fields, field, get}
use lamdis_core.Store.{VersionRow, blocked}
use lamdis_core.Policy.Evaluate.{
  rego_input, active_policy, minute, lifetime, first_expression, decide, evaluate,
}

abbrev is_float : {F : Type 0} → Value F → Bool
is_float (float x) = true
is_float v = false

abbrev no_float_fields : {F : Type 0} → Fields F → Bool
no_float_fields no_fields = true
no_float_fields (field k v m) = not (is_float v) && no_float_fields m

-- Whether a result holds no float64, at its top and in the entries of its map.
abbrev pub no_float : {F : Type 0} → Value F → Bool
no_float (obj m) = no_float_fields m
no_float v = not (is_float v)

module _ (rt : Runtime) where
  open rt use {Float}

  get-no_float :
      (k : Text) (m : Fields Float)
      → no_float_fields m ≡ true
      → (v : Value Float) → get k m ≡ some v
      → is_float v ≡ false
  unfolding get
  get-no_float k no_fields h v e = cc
  get-no_float k (field j w m) h v e = elim (Bool-cases (text_eq j k)) [
    | inl q ↦ (let same : some w ≡ some v = rw q at e in ground arith)
    | inr q ↦ get-no_float k m (ground arith) v (rw q at e)
  ]

  lifetime_fixed : (v : Value Float) → is_float v ≡ false → lifetime rt (some v) ≡ pos (15 * minute)
  unfolding lifetime
  lifetime_fixed (float x) h = cc
  lifetime_fixed nil h = refl
  lifetime_fixed (Value.bool b) h = refl
  lifetime_fixed (Value.int n) h = refl
  lifetime_fixed (str s) h = refl
  lifetime_fixed (Value.number s) h = refl
  lifetime_fixed (Value.arr l) h = refl
  lifetime_fixed (obj m) h = refl

  ttl_fixed :
      (o : Option (Value Float))
      → ((v : Value Float) → o ≡ some v → is_float v ≡ false)
      → lifetime rt o ≡ pos (15 * minute)
  unfolding lifetime
  ttl_fixed none f = refl
  ttl_fixed (some v) f = lifetime_fixed v (f v refl)

  decide-expires :
      (now : ℤ) (key : Text) (inputs facts : Option (Fields Float)) (version : ℤ) (v : Value Float)
      → no_float v ≡ true
      → (decide rt now key inputs facts version (some v)).expires_at
        ≡ some (now +ℤ pos (15 * minute))
  unfolding decide
  decide-expires now key inputs facts version nil h = refl
  decide-expires now key inputs facts version (Value.bool b) h = refl
  decide-expires now key inputs facts version (Value.int n) h = refl
  decide-expires now key inputs facts version (float x) h = refl
  decide-expires now key inputs facts version (str s) h = refl
  decide-expires now key inputs facts version (Value.number s) h = refl
  decide-expires now key inputs facts version (Value.arr l) h = refl
  decide-expires now key inputs facts version (obj m) h =
      rw (ttl_fixed (get (codes "ttl_seconds") m) (get-no_float (codes "ttl_seconds") m h)) refl

  module _ (rego : Text → Value Float → Result (List (List (Value Float))))
      (sees : Text → Text → Bool) where
    -- Where the results of the policy's evaluation hold no float64, a decision expires after 15 minutes
    -- whatever `ttl_seconds` the policy gives, or after 5 minutes, and then it is blocked.
    pub evaluate-expires :
        (now : ℤ) (rows : Option (List VersionRow)) (tenant key : Text)
        (inputs facts : Option (Fields Float))
        → ((code : Text) (document v : Value Float)
            → first_expression rt (rego code document) ≡ some v
            → no_float v ≡ true)
        → ((evaluate rt rego sees now rows tenant key inputs facts).expires_at
            ≡ some (now +ℤ pos (15 * minute)))
          ⊎ (((evaluate rt rego sees now rows tenant key inputs facts).expires_at
                ≡ some (now +ℤ pos (5 * minute)))
              × ((evaluate rt rego sees now rows tenant key inputs facts).status ≡ blocked))
    unfolding evaluate decide
    evaluate-expires now rows tenant key inputs facts numbers =
        let code = (active_policy sees rows tenant key).0 in
        elim (Bool-cases (null code)) [
          | inl e ↦ inl (rw e refl)
          | inr e ↦
              elim (Option-cases
                (first_expression rt (rego code (rego_input rt rego sees inputs facts)))) [
                  | inl f ↦ inr (rw (e, f) (refl, refl))
                  | inr (v, f) ↦ inl (
                      rw (e, f)
                        (decide-expires now key inputs facts (active_policy sees rows tenant key).1
                          v (numbers code _ v f)))
                ]
        ]
