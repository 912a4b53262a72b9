-- ===== src/Slug/Shape.antt =====
-- The shape of a slug: words of [a-z0-9] with one dash between two of them.
use lamdis_core.Prelude.{
  ℕ, ◌≡◌, refl, ◌⊎◌, inl, inr, Bool, true, false, not, ◌&&◌, [], ◌∷◌, arith, ◌==◌, if◌then◌else◌,
  null, Bool-cases, map,
}
use lamdis_core.Text.{Text, codes, trim, trim_left, trim_right, trim_space, to_lower, lower_char}
use lamdis_core.Slug.{
  is_alnum, is_slug_char, is_not_dash, split_camel, dash_runs, normalize_kind, slug, slug_segment,
  slugify,
}

-- `open_dash` says that a dash may not come next: at the start, and behind a dash.
module _ (keep : ℕ → Bool) where
  -- Words of kept characters with single dashes between and perhaps one at the end.
  abbrev pub dashed : Bool → Text → Bool
  dashed open_dash [] = true
  dashed open_dash (c ∷ s) =
      if keep c then dashed false s else c == b'-' && not open_dash && dashed true s

  -- The same, with no dash at the end.
  abbrev pub words : Bool → Text → Bool
  words open_dash [] = not open_dash
  words open_dash (c ∷ s) =
      if keep c then words false s else c == b'-' && not open_dash && words true s

-- What a text is to be to serve as a slug: empty, or words joined by dashes.
abbrev pub IsSlug : Text → Type 0
IsSlug s = (s ≡ []) ⊎ (words is_slug_char true s ≡ true)

abbrev is_dash : ℕ → Bool
is_dash c = c == b'-'

module _ (keep : ℕ → Bool) (kept : keep b'-' ≡ false) where
  pub dashed-dash_runs :
      (in_run : Bool) (s : Text) → dashed keep in_run (dash_runs keep in_run s) ≡ true
  unfolding dash_runs
  dashed-dash_runs in_run [] = refl
  dashed-dash_runs in_run (c ∷ s) =
      ground (arith, dashed-dash_runs true s, dashed-dash_runs false s)

  trim_left-dashed : (s : Text) → dashed keep true s ≡ true → trim_left is_dash s ≡ s
  unfolding trim_left
  trim_left-dashed [] h = refl
  trim_left-dashed (c ∷ s) h = ground arith

  dashed-trim_left :
      (s : Text) → dashed keep false s ≡ true → dashed keep true (trim_left is_dash s) ≡ true
  unfolding trim_left
  dashed-trim_left [] h = refl
  dashed-trim_left (c ∷ s) h = ground (arith, trim_left-dashed s)

  pub words-trim_right :
      (b : Bool) (s : Text)
      → dashed keep b s ≡ true
      → (trim_right is_dash s ≡ []) ⊎ (words keep b (trim_right is_dash s) ≡ true)
  unfolding trim_right
  words-trim_right b [] h = inl refl
  words-trim_right b (c ∷ s) h = ground (arith, words-trim_right true s, words-trim_right false s)

  pub words-trim :
      (s : Text)
      → dashed keep false s ≡ true
      → (trim b'-' s ≡ []) ⊎ (words keep true (trim b'-' s) ≡ true)
  unfolding trim
  words-trim s h = words-trim_right true (trim_left is_dash s) (dashed-trim_left s h)

-- Renaming the kept characters to kept characters keeps the shape.
module _ (keep keep' : ℕ → Bool) (kept : keep b'-' ≡ false) (kept' : keep' b'-' ≡ false) (f : ℕ → ℕ)
    (keeps : (c : ℕ) → keep c ≡ true → keep' (f c) ≡ true) (dash : f b'-' ≡ b'-') where
  words-map : (b : Bool) (s : Text) → words keep b s ≡ true → words keep' b (map f s) ≡ true
  words-map b [] h = h
  words-map b (c ∷ s) h = ground (arith, words-map true s, words-map false s, keeps c)

  dashed-map : (b : Bool) (s : Text) → dashed keep b s ≡ true → dashed keep' b (map f s) ≡ true
  dashed-map b [] h = h
  dashed-map b (c ∷ s) h = ground (arith, dashed-map true s, dashed-map false s, keeps c)

is_slug_char-lower_char : (c : ℕ) → is_alnum c ≡ true → is_slug_char (lower_char c) ≡ true
unfolding lower_char
is_slug_char-lower_char c h = ground arith

lower-words :
    (s : Text) → words is_alnum true s ≡ true → words is_slug_char true (to_lower s) ≡ true
unfolding to_lower
lower-words s =
    words-map is_alnum is_slug_char refl refl lower_char is_slug_char-lower_char refl true s

lower-dashed :
    (s : Text) → dashed is_alnum false s ≡ true → dashed is_slug_char false (to_lower s) ≡ true
unfolding to_lower
lower-dashed s =
    dashed-map is_alnum is_slug_char refl refl lower_char is_slug_char-lower_char refl false s

-- A dash may come next where it could not is no harm.
pub words_weaken :
    (keep : ℕ → Bool) (s : Text) → words keep true s ≡ true → words keep false s ≡ true
words_weaken keep [] h = cc
words_weaken keep (c ∷ s) h = ground arith

pub squeeze-words :
    (b : Bool) (s : Text) → words is_slug_char b s ≡ true → dash_runs is_not_dash b s ≡ s
unfolding dash_runs
squeeze-words b [] h = refl
squeeze-words b (c ∷ s) h = ground (arith, squeeze-words true s, squeeze-words false s)

-- The last two steps of `normalize_kind`.
lower-IsSlug :
    (t : Text)
    → (t ≡ []) ⊎ (words is_alnum true t ≡ true)
    → IsSlug (dash_runs is_not_dash false (to_lower t))
lower-IsSlug t (inl e) = inl (rw e (unfold to_lower dash_runs in refl))
lower-IsSlug t (inr w) =
    let low = lower-words t w in
    inr (rw (squeeze-words false (to_lower t) (words_weaken is_slug_char (to_lower t) low)) low)

pub normalize_kind-IsSlug : (s : Text) → IsSlug (normalize_kind s)
unfolding normalize_kind
normalize_kind-IsSlug s =
    lower-IsSlug _
      (words-trim is_alnum refl _ (dashed-dash_runs is_alnum refl false (split_camel s)))

-- Whatever the text, its slug is empty or words of [a-z0-9] with single dashes between them.
pub slug-IsSlug : (s : Text) → IsSlug (slug s)
unfolding slug
slug-IsSlug s = elim (Bool-cases (null (trim_space s))) [
  | inl e ↦ inl (ground arith)
  | inr e ↦ rw e (normalize_kind-IsSlug (trim_space s))
]

null_eq : (s : Text) → null s ≡ true → s ≡ []
null_eq [] h = refl
null_eq (c ∷ s) h = cc

pub slug_segment-IsSlug : (s : Text) → IsSlug (slug_segment s)
unfolding slug_segment
slug_segment-IsSlug s =
    words-trim is_slug_char refl _ (lower-dashed _ (dashed-dash_runs is_alnum refl false s))

slugify_shape :
    (t u : Text)
    → (u ≡ []) ⊎ (words is_slug_char true u ≡ true)
    → (((if null t then t else if null u then codes "action" else u) ≡ []) × (t ≡ []))
      ⊎ (words is_slug_char true (if null t then t else if null u then codes "action" else u)
          ≡ true)
slugify_shape [] u h = inl (refl, refl)
slugify_shape (c ∷ t) [] h = inr refl
slugify_shape (c ∷ t) (d ∷ u) (inr w) = inr w
slugify_shape (c ∷ t) (d ∷ u) (inl e) = cc

-- What `slugify` makes is empty only for a blank text, and else words of [a-z0-9] with single dashes
-- between them.
pub slugify-IsSlug :
    (s : Text)
    → ((slugify s ≡ []) × (to_lower (trim_space s) ≡ []))
      ⊎ (words is_slug_char true (slugify s) ≡ true)
unfolding slugify
slugify-IsSlug s = slugify_shape (to_lower (trim_space s)) _ (
    words-trim is_slug_char refl _
      (dashed-dash_runs is_slug_char refl false (to_lower (trim_space s))))
