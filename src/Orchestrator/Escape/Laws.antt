-- ===== src/Orchestrator/Escape/Laws.antt =====
-- What escaping keeps out of a URL.
use lamdis_core.Prelude.{
  ℕ, ◌<◌, ◌≡◌, refl, Bool, true, ◌||◌, List, [], ◌∷◌, ◌++◌, arith, ltb, ◌==◌, ◌/◌, ◌%◌, all,
  Bool-cases, inl, inr,
}
use lamdis_core.Text.{Text}
use lamdis_core.Orchestrator.Escape.{
  utf8, percent, path_escape, query_escape, is_segment_char, is_unreserved, hex_upper,
}

-- The characters of an escaped segment: those that a segment may hold, and %XX.
abbrev pub is_escaped : ℕ → Bool
is_escaped c = is_segment_char c || c == b'%'

pub all-append {ℓ} :
    {A : Type ℓ} (p : A → Bool) (s t : List A)
    → all p s ≡ true
    → all p t ≡ true
    → all p (s ++ t) ≡ true
all-append p [] t h k = k
all-append p (c ∷ s) t h k = ground (arith, all-append p s t)

hex_upper-digit : (d : ℕ) → d < 16 → is_escaped (hex_upper d) ≡ true
hex_upper-digit d h = ground arith

mod_lt : (b : ℕ) → b % 16 < 16
mod_lt b = omega arith

module _ (good : ℕ → Bool) (digits : (d : ℕ) → d < 16 → good (hex_upper d) ≡ true)
    (sign : good b'%' ≡ true) where
  percent_byte :
      (b : ℕ) (s : Text) → b < 256 → all good (percent s) ≡ true → all good (percent (b ∷ s)) ≡ true
  unfolding percent
  percent_byte b s h k = rw (sign, digits (b / 16) (omega arith), digits (b % 16) (mod_lt b)) k

  percent-utf8 : (c : ℕ) → all good (percent (utf8 c)) ≡ true
  unfolding utf8
  percent-utf8 c = elim (Bool-cases (ltb c 0x80)) [
    | inl e ↦ rw e (one c (ground arith))
    | inr e ↦ rw e (elim (Bool-cases (ltb c 0x800)) [
      | inl f ↦ rw f (two _ _ (ground arith) (omega arith))
      | inr f ↦ rw f (elim (Bool-cases (ltb c 0x10000)) [
        | inl g ↦ rw g (three _ _ _ (ground arith) (omega arith) (omega arith))
        | inr g ↦ rw g (elim (Bool-cases (ltb c 0x110000)) [
          | inl k ↦ rw k (four _ _ _ _ (ground arith) (omega arith) (omega arith) (omega arith))
          | inr k ↦ rw k (three _ _ _ (omega arith) (omega arith) (omega arith))
        ])
      ])
    ])
  ]
    where
      one : (a : ℕ) → a < 256 → all good (percent (a ∷ [])) ≡ true
      one a h = percent_byte a [] h (unfold percent in refl)

      two : (a b : ℕ) → a < 256 → b < 256 → all good (percent (a ∷ b ∷ [])) ≡ true
      two a b h k = percent_byte a (b ∷ []) h (one b k)

      three : (a b c : ℕ) → a < 256 → b < 256 → c < 256 → all good (percent (a ∷ b ∷ c ∷ [])) ≡ true
      three a b c h k l = percent_byte a (b ∷ c ∷ []) h (two b c k l)

      four :
          (a b c d : ℕ)
          → a < 256
          → b < 256
          → c < 256
          → d < 256
          → all good (percent (a ∷ b ∷ c ∷ d ∷ [])) ≡ true
      four a b c d h k l m = percent_byte a (b ∷ c ∷ d ∷ []) h (three b c d k l m)

-- An escaped value holds only characters of a path segment and percent signs.
pub path_escape-escaped : (s : Text) → all is_escaped (path_escape s) ≡ true
unfolding path_escape
path_escape-escaped [] = refl
path_escape-escaped (c ∷ s) = elim (Bool-cases (is_segment_char c)) [
  | inl e ↦ rw e (rw e (path_escape-escaped s))
  | inr e ↦ rw e (
      all-append is_escaped (percent (utf8 c)) (path_escape s)
        (percent-utf8 is_escaped hex_upper-digit refl c) (path_escape-escaped s))
]

abbrev pub is_query_char : ℕ → Bool
is_query_char c = is_unreserved c || c == b'+' || c == b'%'

hex_upper-query : (d : ℕ) → d < 16 → is_query_char (hex_upper d) ≡ true
hex_upper-query d h = ground arith

-- An escaped query value holds neither & nor =, and no brace.
pub query_escape-escaped : (s : Text) → all is_query_char (query_escape s) ≡ true
unfolding query_escape
query_escape-escaped [] = refl
query_escape-escaped (c ∷ s) = elim (Bool-cases (is_unreserved c)) [
  | inl e ↦ rw e (rw e (query_escape-escaped s))
  | inr e ↦ rw e (elim (Bool-cases (c == 32)) [
    | inl f ↦ rw f (query_escape-escaped s)
    | inr f ↦ rw f (
        all-append is_query_char (percent (utf8 c)) (query_escape s)
          (percent-utf8 is_query_char hex_upper-query refl c) (query_escape-escaped s))
  ])
]
