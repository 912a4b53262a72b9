-- ===== src/Slug/Laws.antt =====
-- A slug is left alone by the functions that make slugs, and a short name is never empty.
use lamdis_core.Prelude.{
  ℕ, ◌≡◌, refl, ap, inl, inr, Bool, true, false, ◌||◌, List, [], ◌∷◌, arith, ◌==◌, if◌then◌else◌,
  null, Bool-cases, All,
}
use lamdis_core.Text.{
  Text, codes, is_upper, trim, trim_left, trim_right, trim_space, to_lower, lower_char, is_space,
  cut,
}
use lamdis_core.Text.Laws.{trim_space_none}
use lamdis_core.Slug.{
  is_alnum, is_slug_char, is_skipped, split_camel, dash_runs, normalize_kind, slug, slug_segment,
  last_name, derive_with, derive_short, derive_name,
}
use lamdis_core.Slug.Shape.{
  words, words_weaken, squeeze-words, IsSlug, slug-IsSlug, slug_segment-IsSlug,
}

-- The characters of a slug.
abbrev pub is_part : ℕ → Bool
is_part c = is_slug_char c || c == b'-'

words-All : (b : Bool) (s : Text) → words is_slug_char b s ≡ true → All (λ c. is_part c ≡ true) s
words-All b [] h = tt
words-All b (c ∷ s) h = elim (Bool-cases (is_slug_char c)) [
  | inl e ↦ (rw e, words-All false s (rw e at h))
  | inr e ↦ (ground arith, words-All true s (ground arith))
]

All-map {ℓ κ} :
    {A : Type ℓ} (P Q : A → Type κ) (s : List A) → ((a : A) → P a → Q a) → All P s → All Q s
All-map P Q [] f h = tt
All-map P Q (a ∷ s) f (p, h) = (f a p, All-map P Q s f h)

is_space-part : (c : ℕ) → is_part c ≡ true → is_space c ≡ false
unfolding is_space
is_space-part c h = ground arith

is_upper-part : (c : ℕ) → is_part c ≡ true → is_upper c ≡ false
is_upper-part c h = ground arith

lower_char-part : (c : ℕ) → is_part c ≡ true → lower_char c ≡ c
unfolding lower_char
lower_char-part c h = ground arith

split_camel-part : (s : Text) → All (λ c. is_part c ≡ true) s → split_camel s ≡ s
unfolding split_camel
split_camel-part [] h = refl
split_camel-part (c ∷ []) h = ground arith
split_camel-part (c ∷ d ∷ s) (p, (q, h)) =
    rw (is_upper-part d q) (ground (arith, split_camel-part (d ∷ s) (q, h)))

to_lower-part : (s : Text) → All (λ c. is_part c ≡ true) s → to_lower s ≡ s
unfolding to_lower
to_lower-part [] h = refl
to_lower-part (c ∷ s) (p, h) = rw (lower_char-part c p) (ap (λ t. c ∷ t) (to_lower-part s h))

trim_left-words :
    (b : Bool) (s : Text) → words is_slug_char true s ≡ true → trim_left (λ c. c == b'-') s ≡ s
unfolding trim_left
trim_left-words b [] h = refl
trim_left-words b (c ∷ s) h = ground arith

trim_right-words :
    (b : Bool) (s : Text) → words is_slug_char b s ≡ true → trim_right (λ c. c == b'-') s ≡ s
unfolding trim_right
trim_right-words b [] h = refl
trim_right-words b (c ∷ []) h = ground arith
trim_right-words b (c ∷ d ∷ s) h =
    ground (arith, trim_right-words true (d ∷ s), trim_right-words false (d ∷ s))

trim-words : (s : Text) → words is_slug_char true s ≡ true → trim b'-' s ≡ s
unfolding trim
trim-words s h = rw (trim_left-words true s h) (trim_right-words true s h)

dash_runs-words : (b : Bool) (s : Text) → words is_slug_char b s ≡ true → dash_runs is_alnum b s ≡ s
unfolding dash_runs
dash_runs-words b [] h = refl
dash_runs-words b (c ∷ s) h = ground (arith, dash_runs-words true s, dash_runs-words false s)

normalize_kind-words : (s : Text) → words is_slug_char true s ≡ true → normalize_kind s ≡ s
unfolding normalize_kind
normalize_kind-words s h =
    let weak = words_weaken is_slug_char s h in
    let parts = words-All true s h in
    rw
      (
        split_camel-part s parts,
        dash_runs-words false s weak,
        trim-words s h,
        to_lower-part s parts,
      )
      (squeeze-words false s weak)

slug-words : (s : Text) → words is_slug_char true s ≡ true → slug s ≡ s
unfolding slug
slug-words [] h = cc
slug-words (c ∷ s) h =
    rw (trim_space_none (c ∷ s) (All-map _ _ (c ∷ s) is_space-part (words-All true (c ∷ s) h)))
      (normalize_kind-words (c ∷ s) h)

-- A text that is a slug already is its own slug.
pub slug_of_IsSlug : (s : Text) → IsSlug s → slug s ≡ s
slug_of_IsSlug s (inl e) = rw e (unfold slug trim_space in refl)
slug_of_IsSlug s (inr w) = slug-words s w

-- Taking the slug twice is taking it once.
pub slug_idempotent : (s : Text) → slug (slug s) ≡ slug s
slug_idempotent s = slug_of_IsSlug (slug s) (slug-IsSlug s)

-- A slug that is not empty holds no separator of an action key and no brace.
pub cut_free :
    (d : ℕ)
    → (b'-' == d) ≡ false
    → is_slug_char d ≡ false
    → (s : Text) → IsSlug s
    → All (λ c. (c == d) ≡ false) s
cut_free d h k s (inl e) = rw e tt
cut_free d h k s (inr w) = All-map _ _ s (λ c p. ground arith) (words-All true s w)

last_name_step :
    (n rest : Text)
    → words is_slug_char true n ≡ true
    → words is_slug_char true (if null n then rest else n) ≡ true
last_name_step [] rest h = cc
last_name_step (c ∷ n) rest h = h

derive_step :
    (q r : Text)
    → words is_slug_char true r ≡ true
    → words is_slug_char true (if null q then codes "root" else r) ≡ true
derive_step [] r h = refl
derive_step (c ∷ q) r h = h

module _ (norm : Text → Text) (good : (s : Text) → IsSlug (norm s)) where
  last_name-words : (segs : List Text) → words is_slug_char true (last_name norm segs) ≡ true
  unfolding last_name
  last_name-words [] = refl
  last_name-words (s ∷ segs) = elim (Bool-cases (is_skipped s)) [
    | inl e ↦ rw e (last_name-words segs)
    | inr e ↦ rw e (elim (good s) [
      | inl n ↦ rw n (last_name-words segs)
      | inr w ↦ last_name_step (norm s) (last_name norm segs) w
    ])
  ]

  derive_with-words : (p : Text) → words is_slug_char true (derive_with norm p) ≡ true
  unfolding derive_with
  derive_with-words p = derive_step (trim b'/' (cut b'?' p).0) _ (last_name-words _)

-- A path's short name is never empty: it is words of [a-z0-9] joined by dashes.
pub derive_short-words : (p : Text) → words is_slug_char true (derive_short p) ≡ true
unfolding derive_short
derive_short-words = derive_with-words slug slug-IsSlug

pub derive_name-words : (p : Text) → words is_slug_char true (derive_name p) ≡ true
unfolding derive_name
derive_name-words = derive_with-words slug_segment slug_segment-IsSlug
