-- ===== src/Admin/Policies/Paths.antt =====
-- The version in a request's path: strconv.Atoi reads what the answer to a creation prints.
use lamdis_core.Prelude.{
  ℕ, zero, suc, ◌+◌, ◌-◌, ◌*◌, ◌/◌, ◌^◌, ◌<◌, ◌≡◌, refl, ◌∙◌, ap, Bool, true, false, Option, none,
  some, List, [], ◌∷◌, null, ltb, arith, ℤ, pos, negsuc, eq_ℤ, Bool-cases, inl, inr, find,
}
use lamdis_core.Text.{Text, codes, text_eq, trim_space, trim_left, trim_right, is_space, is_digit}
use lamdis_core.Text.Laws.{text_eq_refl}
use lamdis_core.Json.{Value, digits, decimal, no_fields, field}
use lamdis_core.Store.{VersionRow, draft}
use lamdis_core.Policy.Evaluate.{active_policy}
use lamdis_core.Admin.Policies.Versions.{IsConsistent, upsert_version-IsConsistent}
use lamdis_core.Admin.Policies.Publishing.{active_policy-publish_rows}
use lamdis_core.Admin.Policies.{
  digits_value, unsigned_value, in_range, atoi, is_version, new_version, upsert_version,
  next_version, VersionBody, put_version, create_policy_version, publish_version, with_version,
  publish_policy_version, ok_answer,
}

last_digit : (n : ℕ) → n - n / 10 * 10 < 10
last_digit n = omega arith

shifted : (n : ℕ) → 10 * (n / 10) + (b'0' + (n - n / 10 * 10) - b'0') ≡ n
shifted n = omega arith

below : (n : ℕ) → n < 10 → 10 * 0 + (b'0' + (n - n / 10 * 10) - b'0') ≡ n
below n h = omega arith

no_longer : (f n : ℕ) → n < suc f → ltb n 10 ≡ false → n / 10 < f
no_longer f n h e = ground arith

digit-is_digit : (d : ℕ) → d < 10 → is_digit (b'0' + d) ≡ true
digit-is_digit d h = ground arith

starts : Text → Bool
starts [] = false
starts (c ∷ s) = is_digit c

-- Fuel above the number is enough for all of its digits.
digits-starts : (f n : ℕ) (acc : Text) → n < f → starts (digits f n acc) ≡ true
unfolding digits starts
digits-starts zero n acc h = absurd (omega arith)
digits-starts (suc f) n acc h = elim (Bool-cases (ltb n 10)) [
  | inl e ↦ rw e (digit-is_digit (n - n / 10 * 10) (last_digit n))
  | inr e ↦ rw e (digits-starts f (n / 10) _ (no_longer f n h e))
]

digits_value-digits :
    (f n : ℕ) (acc : Text) → n < f → digits_value 0 (digits f n acc) ≡ digits_value n acc
unfolding digits digits_value
digits_value-digits zero n acc h = absurd (omega arith)
digits_value-digits (suc f) n acc h = elim (Bool-cases (ltb n 10)) [
  | inl e ↦ rw e (
      rw (digit-is_digit (n - n / 10 * 10) (last_digit n))
        (ap (λ m. digits_value m acc) (below n (ground arith))))
  | inr e ↦ rw e (
      digits_value-digits f (n / 10) _ (no_longer f n h e)
      ∙ rw (digit-is_digit (n - n / 10 * 10) (last_digit n))
          (ap (λ m. digits_value m acc) (shifted n)))
]

unsigned-starts : (s : Text) → starts s ≡ true → atoi s ≡ in_range false (digits_value 0 s)
unfolding atoi unsigned_value starts
unsigned-starts [] h = cc
unsigned-starts (c ∷ s) h = ground arith

trim_space-starts : (s : Text) → starts s ≡ true → null (trim_space s) ≡ false
unfolding trim_space trim_left trim_right is_space starts
trim_space-starts [] h = cc
trim_space-starts (c ∷ s) h = ground arith

-- A version below 2^63 is read back from its decimal digits.
atoi-decimal : (n : ℕ) → n < 2 ^ 63 → atoi (decimal (pos n)) ≡ some (pos n)
unfolding decimal in_range
atoi-decimal n h =
    unsigned-starts (digits (n + 1) n []) (digits-starts (n + 1) n [] (omega arith))
    ∙ rw (digits_value-digits (n + 1) n [] (omega arith)) (unfold digits_value in ground arith)

decimal-filled : (n : ℕ) → null (trim_space (decimal (pos n))) ≡ false
unfolding decimal
decimal-filled n =
    trim_space-starts (digits (n + 1) n []) (digits-starts (n + 1) n [] (omega arith))

eq_ℤ_refl : (v : ℤ) → eq_ℤ v v ≡ true
eq_ℤ_refl (pos n) = ground arith
eq_ℤ_refl (negsuc n) = ground arith

-- The row that is created.
find-upsert_version :
    (tenant action : Text) (v : ℤ) (code : Text) (rows : List VersionRow)
    → (r : VersionRow) × (find
          (is_version tenant action v)
          (upsert_version tenant action v code rows)
        ≡ some r)
      × (r.compiled_rego ≡ some code)
unfolding upsert_version is_version new_version
find-upsert_version tenant action v code [] = (
  new_version tenant action v code,
  rw (text_eq_refl tenant, text_eq_refl action, eq_ℤ_refl v) refl,
  refl,
)
find-upsert_version tenant action v code (r ∷ rows) =
    let (x, e, c) = find-upsert_version tenant action v code rows in
    elim (Bool-cases (is_version tenant action v r)) [
      | inl h ↦ (record r { compiled_rego = some code; status = draft }, ground arith, refl)
      | inr h ↦ (x, ground arith, c)
    ]

module _ {F : Type 0} where
  -- The handler, behind its reading of the path.
  publish-decimal :
      (works : Bool) (tenant query : Text) (n : ℕ) (rows : List VersionRow)
      → null (trim_space query) ≡ false
      → n < 2 ^ 63
      → publish_policy_version {F = F} works tenant query (decimal (pos n)) rows
        ≡ publish_version works tenant (trim_space query) (pos n) rows
  unfolding publish_policy_version with_version
  publish-decimal works tenant query n rows filled bound =
      rw (filled, decimal-filled n, atoi-decimal n bound) refl

  created_lem :
      (sees : Text → Text → Bool) (compiles : Text → Option Text) (tenant : Text) (b : VersionBody)
      (rows : List VersionRow)
      → null (trim_space b.code) ≡ false
      → null (trim_space b.action_key) ≡ false
      → compiles b.code ≡ none
      → create_policy_version {F = F} sees compiles true tenant (some b) rows ≡ (
          let v = next_version sees b.version tenant b.action_key rows in
          (
            ok_answer (field (codes "version") (Value.int v) no_fields),
            upsert_version tenant b.action_key v b.code rows,
          ))
  unfolding create_policy_version put_version
  created_lem sees compiles tenant b rows code filled compiled = rw (code, filled, compiled) refl

module _ {F : Type 0} (sees : Text → Text → Bool) (own : (t u : Text) → sees t u ≡ text_eq u t)
    (compiles : Text → Option Text) where
  -- A version that is created, and is then published under the number that the answer gives, in decimal
  -- digits: evaluations of the tenant use its code, whatever was published before. The code compiles, the
  -- action key has no blanks around it, the number is below 2^63 and not negative, the statements work, and
  -- the table is consistent. A session sees the rows of its own tenant.
  pub publish-create :
      (tenant : Text) (b : VersionBody) (n : ℕ) (rows : List VersionRow)
      → IsConsistent rows
      → null (trim_space b.code) ≡ false
      → compiles b.code ≡ none
      → null b.action_key ≡ false
      → trim_space b.action_key ≡ b.action_key
      → next_version sees b.version tenant b.action_key rows ≡ pos n
      → n < 2 ^ 63
      → let (answer, created) =
          create_policy_version {F = F} sees compiles true tenant (some b) rows in
        (answer ≡ ok_answer (field (codes "version") (Value.int (pos n)) no_fields))
        × (active_policy sees
              (some
                (publish_policy_version {F = F} true tenant b.action_key
                  (decimal (pos n))
                  created).1)
              tenant
              b.action_key
            ≡ (b.code, pos n))
  unfolding publish_version
  publish-create tenant b n rows consistent code compiled filled trimmed next bound =
      let created = upsert_version tenant b.action_key (pos n) b.code rows in
      let (r, e, c) = find-upsert_version tenant b.action_key (pos n) b.code rows in
      let kept = upsert_version-IsConsistent tenant b.action_key (pos n) b.code rows consistent in
      let full : null (trim_space b.action_key) ≡ false = rw trimmed filled in
      rw (created_lem sees compiles tenant b rows code full compiled, next)
        (
          refl,
          rw (publish-decimal true tenant b.action_key n created full bound, trimmed)
              (active_policy-publish_rows sees own tenant b.action_key (pos n) created r kept e
                ∙ rw c refl),
        )
