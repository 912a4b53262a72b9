-- ===== src/Text.antt =====
-- What the program uses of Go's `strings` package, over the code points of a text.
pub mod Laws
pub mod Maps
use Prim.Native.Char.{code}
use Prim.Native.String
use lamdis_core.Prelude.{
  ℕ, zero, suc, ◌+◌, ◌-◌, String, Bool, true, false, not, ◌&&◌, ◌||◌, Option, none, some, List, [],
  ◌∷◌, ◌++◌, map, leb, ◌==◌, if◌then◌else◌, any, null,
}

abbrev pub Text : Type 0
Text = List ℕ

abbrev pub codes : String → Text
codes String.[] = []
codes (String.◌∷◌ c s) = code c ∷ codes s

unfoldable pub text_eq : Text → Text → Bool
text_eq [] [] = true
text_eq (a ∷ s) (b ∷ t) = a == b && text_eq s t
text_eq _ _ = false

abbrev pub is_lower : ℕ → Bool
is_lower c = leb b'a' c && leb c b'z'

abbrev pub is_upper : ℕ → Bool
is_upper c = leb b'A' c && leb c b'Z'

abbrev pub is_digit : ℕ → Bool
is_digit c = leb b'0' c && leb c b'9'

-- unicode.IsSpace
unfoldable pub is_space : ℕ → Bool
is_space c =
    (leb 9 c && leb c 13)
    || c == 32
    || c == 0x85
    || c == 0xa0
    || c == 0x1680
    || (leb 0x2000 c && leb c 0x200a)
    || c == 0x2028
    || c == 0x2029
    || c == 0x202f
    || c == 0x205f
    || c == 0x3000

module _ (p : ℕ → Bool) where
  unfoldable pub trim_left : Text → Text
  trim_left [] = []
  trim_left (c ∷ s) = let rest = trim_left s in if p c then rest else c ∷ s

  unfoldable pub trim_right : Text → Text
  trim_right [] = []
  trim_right (c ∷ s) = let rest = trim_right s in if p c && null rest then [] else c ∷ rest

-- strings.Trim and strings.TrimSpace
unfoldable pub trim : ℕ → Text → Text
unfolding trim_left trim_right
trim d s = trim_right (λ c. c == d) (trim_left (λ c. c == d) s)

unfoldable pub trim_space : Text → Text
unfolding trim_left trim_right is_space
trim_space s = trim_right is_space (trim_left is_space s)

-- strings.TrimRight
unfoldable pub trim_right_char : ℕ → Text → Text
unfolding trim_right
trim_right_char d s = trim_right (λ c. c == d) s

-- strings.ToLower, as far as its results are ASCII: besides A to Z these are the letters that
-- U+0130 and U+212A become. Every other code point is left as it is.
unfoldable pub lower_char : ℕ → ℕ
lower_char c =
    if is_upper c then c + 32 else if c == 0x130 then b'i' else if c == 0x212a then b'k' else c

unfoldable pub to_lower : Text → Text
unfolding lower_char
to_lower s = map lower_char s

unfoldable pub upper_char : ℕ → ℕ
upper_char c =
    if is_lower c then c - 32 else if c == 0x131 then b'I' else if c == 0x17f then b'S' else c

-- strings.ToUpper, as far as its results are ASCII
unfoldable pub to_upper : Text → Text
unfolding upper_char
to_upper s = map upper_char s

unfoldable pub contains : ℕ → Text → Bool
contains d s = any (λ c. c == d) s

-- strings.Contains for a separator of two characters
unfoldable pub contains_pair : ℕ → ℕ → Text → Bool
contains_pair a b [] = false
contains_pair a b (c ∷ []) = false
contains_pair a b (c ∷ d ∷ s) = (c == a && d == b) || contains_pair a b (d ∷ s)

unfoldable pub has_prefix : Text → Text → Bool
has_prefix [] s = true
has_prefix (c ∷ p) [] = false
has_prefix (c ∷ p) (d ∷ s) = c == d && has_prefix p s

-- The text before and after the first `d`, as strings.Index with its two slices gives them.
unfoldable pub cut : ℕ → Text → Text × Option Text
cut d [] = ([], none)
cut d (c ∷ s) = let rest = cut d s in if c == d then ([], some s) else (c ∷ rest.0, rest.1)

-- strings.Split by a single character
cons_head : ℕ → List Text → List Text
cons_head c [] = (c ∷ []) ∷ []
cons_head c (w ∷ ws) = (c ∷ w) ∷ ws

unfoldable pub split : ℕ → Text → List Text
unfolding cons_head
split d [] = [] ∷ []
split d (c ∷ s) = let rest = split d s in if c == d then [] ∷ rest else cons_head c rest

-- strings.Fields
add_word : Text → List Text → List Text
add_word [] ws = ws
add_word (c ∷ w) ws = (c ∷ w) ∷ ws

fields_from : Text → Text → List Text
unfolding add_word is_space
fields_from word [] = add_word word []
fields_from word (c ∷ s) =
    let next = fields_from [] s in
    let longer = fields_from (word ++ c ∷ []) s in if is_space c then add_word word next else longer

unfoldable pub fields : Text → List Text
unfolding fields_from
fields s = fields_from [] s

unfoldable pub drop : ℕ → Text → Text
drop zero s = s
drop (suc n) [] = []
drop (suc n) (c ∷ s) = drop n s
