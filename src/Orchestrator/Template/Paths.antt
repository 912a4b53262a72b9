-- ===== src/Orchestrator/Template/Paths.antt =====
-- The path parameters of a request, and the separators of its URL.
use lamdis_core.Prelude.{
  ℕ, zero, suc, ◌+◌, ◌-◌, ◌≡◌, refl, ◌∙◌, inl, inr, Bool, true, false, not, ◌&&◌, ◌||◌, Option,
  none, some, [], ◌∷◌, ◌++◌, arith, if◌then◌else◌, ◌==◌, all, null, length, Bool-cases,
  Option-cases,
}
use lamdis_core.Text.{Text}
use lamdis_core.Json.{Runtime, Fields, get}
use lamdis_core.Orchestrator.Escape.{path_escape}
use lamdis_core.Orchestrator.Escape.Laws.{is_escaped, path_escape-escaped}
use lamdis_core.Orchestrator.Template.{
  is_name_char, span, closes_one, match_param, replace_all, braces, bind_value, bind_param, resolve,
  bind_path,
}

-- How often a character stands in a text.
abbrev pub count : ℕ → Text → ℕ
count d [] = 0
count d (c ∷ s) = if c == d then suc (count d s) else count d s

abbrev drop : ℕ → Text → Text
drop zero s = s
drop (suc n) [] = []
drop (suc n) (c ∷ s) = drop n s

-- A character that no escaped value and no placeholder holds.
abbrev pub is_separator : ℕ → Bool
is_separator d = not (is_escaped d || d == b'{' || d == b'}')

same_match :
    (s t : Text) (m n : ℕ)
    → ◌≡◌ {A = Option (Text × ℕ)} (some (s, m)) (some (t, n))
    → (s ≡ t) × (m ≡ n)
same_match s t m n h = let a : s ≡ t = cc in let b : m ≡ n = cc in (a, b)

module _ (d : ℕ) where
  count-append : (s t : Text) → count d (s ++ t) ≡ count d s + count d t
  count-append [] t = omega arith
  count-append (c ∷ s) t = ground (arith, count-append s t)

  count_none :
      (p : ℕ → Bool) (s : Text)
      → ((c : ℕ) → p c ≡ true → (c == d) ≡ false)
      → all p s ≡ true
      → count d s ≡ 0
  count_none p [] f h = refl
  count_none p (c ∷ s) f h = ground (arith, f c, count_none p s f)

  -- A replacement keeps the count, where each match and what stands for it hold none.
  replace_all-count :
      (match : Text → Option (Text × ℕ)) (by : Text → Text)
      → ((c : ℕ) (s key : Text) (n : ℕ)
          → match (c ∷ s) ≡ some (key, n)
          → (count d (by key) ≡ 0) × (count d (drop (n - 1) s) ≡ count d (c ∷ s)))
      → (skip : ℕ) (s : Text) → count d (replace_all match by skip s) ≡ count d (drop skip s)
  unfolding replace_all
  replace_all-count match by f zero [] = refl
  replace_all-count match by f (suc skip) [] = refl
  replace_all-count match by f (suc skip) (c ∷ s) = replace_all-count match by f skip s
  replace_all-count match by f zero (c ∷ s) = elim (Option-cases (match (c ∷ s))) [
    | inl e ↦
        (let ih : count d (replace_all match by zero s) ≡ count d s =
            replace_all-count match by f zero s in
          rw (e, replace_all) (ground arith))
    | inr ((key, n), e) ↦
        let (a, b) = f c s key n e in
        rw (e, replace_all)
          (count-append (by key) (replace_all match by (n - 1) s)
            ∙ (rw (a, replace_all-count match by f (n - 1) s, b) (omega arith)))
  ]

  differs : (p : ℕ → Bool) (c : ℕ) → p c ≡ true → p d ≡ false → (c == d) ≡ false
  differs p c h k = elim (Bool-cases (c == d)) [
    | inl e ↦ (let q : c ≡ d = ground arith in cc)
    | inr e ↦ e
  ]

  span-count :
      (p : ℕ → Bool) (s : Text)
      → p d ≡ false
      → (count d (span p s).0 ≡ 0)
        × (count d s ≡ count d (span p s).1)
        × (drop (length (span p s).0) s ≡ (span p s).1)
  unfolding span
  span-count p [] h = (refl, refl, refl)
  span-count p (c ∷ s) h = elim (Bool-cases (p c)) [
    | inr e ↦ rw e (refl, refl, refl)
    | inl e ↦ let (a, b, q) = span-count p s h in rw (e, differs p c e h) (a, b, q)
  ]

  drop-suc : (n : ℕ) (s : Text) → drop (suc n) s ≡ drop 1 (drop n s)
  drop-suc zero s = refl
  drop-suc (suc n) [] = refl
  drop-suc (suc n) (c ∷ s) = drop-suc n s

  module _ (separates : is_separator d ≡ true) where
    closes_count : (r : Text) → closes_one r ≡ true → count d (drop 1 r) ≡ count d r
    unfolding closes_one
    closes_count [] h = refl
    closes_count (c ∷ r) h = ground arith

    escape-count : (s : Text) → count d (path_escape s) ≡ 0
    escape-count s =
        count_none is_escaped (path_escape s) (λ c h. differs is_escaped c h (ground arith))
          (path_escape-escaped s)

    match_param-count :
        (c : ℕ) (s key : Text) (n : ℕ)
        → match_param (c ∷ s) ≡ some (key, n)
        → (count d key ≡ 0) × (count d (drop (n - 1) s) ≡ count d (c ∷ s))
    unfolding match_param
    match_param-count c s key n h =
        let name = (span is_name_char s).0 in
        let rest = (span is_name_char s).1 in
        let (a, b, q) = span-count is_name_char s (ground arith) in
        elim (Bool-cases (c == b'{' && not (null name) && closes_one rest)) [
          | inr e ↦ cc (rw e at h)
          | inl e ↦
              let m : some (name, 2 + length name) ≡ some (key, n) = rw e at h in
              let (named, long) = same_match name key (2 + length name) n m in
              let step : n - 1 ≡ suc (length name) = omega (arith, long) in
              let closed : closes_one rest ≡ true = ground arith in
              (
                rw (← named) a,
                rw (step, drop-suc (length name) s, q)
                    (ground (arith, closes_count rest closed, b)),
              )
        ]

    module _ (rt : Runtime) (input : Option (Fields rt.Float)) where
      braces-count : (name : Text) → count d name ≡ 0 → count d (braces rt input name) ≡ 0
      unfolding braces
      braces-count name h = ground (arith, count-append name (b'}' ∷ []))

      bind_value-count :
          (name s : Text)
          → count d name ≡ 0
          → count d s ≡ 0
          → count d (bind_value rt input name s) ≡ 0
      unfolding bind_value
      bind_value-count name [] h k = braces-count name h
      bind_value-count name (c ∷ s) h k = k

      bind_param-count :
          (params : Fields rt.Float) (name : Text)
          → count d name ≡ 0
          → count d (bind_param rt input params name) ≡ 0
      unfolding bind_param
      bind_param-count params name h = elim (Option-cases (get name params)) [
        | inl e ↦ rw (e, bind_param) (braces-count name h)
        | inr (raw, e) ↦
            rw (e, bind_param) (bind_value-count name _ h (escape-count (resolve rt input raw)))
      ]

-- Whatever the values of the path parameters, the URL that is bound has as many of each separator
-- as the URL of the operation: no value brings in a slash, a question mark, a number sign or a
-- blank. A separator is a character other than those of an escaped path segment, the percent sign
-- and the braces.
pub bind_path-count :
    (rt : Runtime) (input params : Option (Fields rt.Float)) (url : Text) (d : ℕ)
    → is_separator d ≡ true
    → count d (bind_path rt input params url) ≡ count d url
unfolding bind_path
bind_path-count rt input none url d h = refl
bind_path-count rt input (some params) url d h =
    replace_all-count d match_param (bind_param rt input params)
      (λ c s key n e.
        let (a, b) = match_param-count d h c s key n e in
        (bind_param-count d h rt input params key a, b))
      0 url
