-- ===== src/Orchestrator/Escape.antt =====
-- url.PathEscape and url.QueryEscape, over the code points of a text.
pub mod Laws
use lamdis_core.Prelude.{
  ℕ, ◌+◌, ◌/◌, ◌%◌, Bool, true, false, ◌||◌, List, [], ◌∷◌, ◌++◌, if◌then◌else◌, ltb, ◌==◌,
}
use lamdis_core.Text.{Text, is_lower, is_upper, is_digit}

-- The bytes of a code point in UTF-8; what is no code point is written as U+FFFD.
unfoldable pub utf8 : ℕ → Text
utf8 c =
    if ltb c 0x80
    then c ∷ []
    else if ltb c 0x800
    then (0xc0 + c / 64) ∷ (0x80 + c % 64) ∷ []
    else if ltb c 0x10000
    then (0xe0 + c / 4096) ∷ (0x80 + c / 64 % 64) ∷ (0x80 + c % 64) ∷ []
    else if ltb c 0x110000
    then (0xf0 + c / 262144) ∷ (0x80 + c / 4096 % 64) ∷ (0x80 + c / 64 % 64) ∷ (0x80 + c % 64) ∷ []
    else 0xef ∷ 0xbf ∷ 0xbd ∷ []

abbrev pub hex_upper : ℕ → ℕ
hex_upper d = if ltb d 10 then b'0' + d else 55 + d

abbrev pub is_unreserved : ℕ → Bool
is_unreserved c =
    is_lower c || is_upper c || is_digit c || c == b'-' || c == b'_' || c == b'.' || c == b'~'

-- The reserved characters that a path segment may hold.
abbrev pub is_segment_char : ℕ → Bool
is_segment_char c =
    is_unreserved c || c == b'$' || c == b'&' || c == b'+' || c == b':' || c == b'=' || c == b'@'

-- %XX for each byte
unfoldable pub percent : Text → Text
percent [] = []
percent (b ∷ s) = b'%' ∷ hex_upper (b / 16) ∷ hex_upper (b % 16) ∷ percent s

unfoldable pub path_escape : Text → Text
unfolding utf8 percent
path_escape [] = []
path_escape (c ∷ s) =
    let rest = path_escape s in if is_segment_char c then c ∷ rest else percent (utf8 c) ++ rest

unfoldable pub query_escape : Text → Text
unfolding utf8 percent
query_escape [] = []
query_escape (c ∷ s) =
    let rest = query_escape s in
    if is_unreserved c then c ∷ rest else if c == 32 then b'+' ∷ rest else percent (utf8 c) ++ rest
