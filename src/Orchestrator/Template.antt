-- ===== src/Orchestrator/Template.antt =====
-- The request template of an operation: `resolve`, the path parameters, headers, query and body.
pub mod Query
pub mod Paths
use lamdis_core.Prelude.{
  ℕ, zero, suc, ◌+◌, ◌-◌, Bool, true, false, not, ◌&&◌, ◌||◌, Option, none, some, List, [], ◌∷◌,
  ◌++◌, if◌then◌else◌, ltb, ◌==◌, null, length,
}
use lamdis_core.Text.{Text, codes, text_eq, is_lower, is_upper, is_digit, contains_pair, split}
use lamdis_core.Text.Maps.{Assoc, insert}
use lamdis_core.Json.{
  Runtime, Value, nil, str, obj, Fields, no_fields, field, get, get_or_nil, put, sprint, of_map,
}
use lamdis_core.Orchestrator.Escape.{path_escape, query_escape}

-- [a-zA-Z0-9_] and [a-zA-Z0-9_\.]
abbrev pub is_name_char : ℕ → Bool
is_name_char c = is_lower c || is_upper c || is_digit c || c == b'_'

abbrev pub is_key_char : ℕ → Bool
is_key_char c = is_name_char c || c == b'.'

-- \s
abbrev is_blank : ℕ → Bool
is_blank c = c == 9 || c == 10 || c == 12 || c == 13 || c == 32

module _ (p : ℕ → Bool) where
  -- The longest first part whose characters pass, and what follows.
  unfoldable pub span : Text → Text × Text
  span [] = ([], [])
  span (c ∷ s) = let (w, rest) = span s in if p c then (c ∷ w, rest) else ([], c ∷ s)

closes_two : Text → Bool
closes_two (c ∷ d ∷ s) = c == b'}' && d == b'}'
closes_two _ = false

opens_two : Text → Option Text
opens_two (c ∷ d ∷ s) = if c == b'{' && d == b'{' then some s else none
opens_two _ = none

-- {{ key }} at the start of the text: the key, and how many characters the match has.
match_placeholder : Text → Option (Text × ℕ)
unfolding span closes_two opens_two
match_placeholder t = elim (opens_two t) [
  | none ↦ none
  | some s ↦
      let (b1, s1) = span is_blank s in
      let (key, s2) = span is_key_char s1 in
      let (b2, s3) = span is_blank s2 in
      if not (null key) && closes_two s3
      then some (key, 4 + length b1 + length key + length b2)
      else none
]

pub closes_one : Text → Bool
closes_one (c ∷ s) = c == b'}'
closes_one [] = false

-- {name} at the start of the text.
pub match_param : Text → Option (Text × ℕ)
unfolding span closes_one
match_param [] = none
match_param (c ∷ s) =
    let (name, rest) = span is_name_char s in
    if c == b'{' && not (null name) && closes_one rest then some (name, 2 + length name) else none

-- regexp's ReplaceAllStringFunc: `skip` characters belong to the last match. A match has a
-- character at least.
unfoldable pub replace_all : (Text → Option (Text × ℕ)) → (Text → Text) → ℕ → Text → Text
replace_all match by skip [] = []
replace_all match by (suc skip) (c ∷ s) = replace_all match by skip s
replace_all match by zero (c ∷ s) = elim (match (c ∷ s)) [
  | none ↦ c ∷ replace_all match by zero s
  | some (key, n) ↦ by key ++ replace_all match by (n - 1) s
]

module _ (rt : Runtime) (input : Option (Fields rt.Float)) where
  open rt use {Float, format}

  -- The walk along a.b.c.
  walk : Value Float → List Text → Value Float
  unfolding get_or_nil
  walk cur [] = cur
  walk (obj m) (seg ∷ segs) = walk (get_or_nil seg m) segs
  walk _ (seg ∷ segs) = nil

  show : Value Float → Text
  unfolding sprint
  show nil = []
  show v = sprint format v

  lookup_key : Text → Text
  unfolding walk show split
  lookup_key key = show (walk (of_map input) (split b'.' key))

  unfoldable pub resolve : Value Float → Text
  unfolding match_placeholder lookup_key replace_all contains_pair sprint
  resolve v =
      let s = sprint format v in
      if not (contains_pair b'{' b'{' s) then s else replace_all match_placeholder lookup_key 0 s

  -- Headers and the query: every entry resolved.
  unfoldable pub resolve_all : Fields Float → Assoc Text
  unfolding resolve
  resolve_all no_fields = []
  resolve_all (field k v m) = insert k (resolve v) (resolve_all m)

  resolve_value : Value Float → Value Float
  unfolding resolve
  resolve_value (str s) = str (resolve (str s))
  resolve_value v = v

  -- The body: texts resolved, other values kept.
  unfoldable pub resolve_body : Fields Float → Fields Float
  unfolding resolve_value
  resolve_body no_fields = no_fields
  resolve_body (field k v m) = field k (resolve_value v) (resolve_body m)

  -- What stands for a path parameter: the escaped value, and the placeholder itself where there is
  -- no value for it.
  pub braces : Text → Text
  braces name = b'{' ∷ (name ++ b'}' ∷ [])

  pub bind_value : Text → Text → Text
  unfolding braces
  bind_value name [] = braces name
  bind_value name (c ∷ s) = c ∷ s

  pub bind_param : Fields Float → Text → Text
  unfolding bind_value resolve path_escape get
  bind_param params name = elim (get name params) [
    | none ↦ braces name
    | some raw ↦ bind_value name (path_escape (resolve raw))
  ]

  unfoldable pub bind_path : Option (Fields Float) → Text → Text
  unfolding bind_param match_param replace_all
  bind_path none url = url
  bind_path (some params) url = replace_all match_param (bind_param params) 0 url

-- url.Values.Encode: entries in the order of their keys
text_le : Text → Text → Bool
text_le [] t = true
text_le (a ∷ s) [] = false
text_le (a ∷ s) (b ∷ t) = if ltb a b then true else if a == b then text_le s t else false

insert_sorted : Text × Text → Assoc Text → Assoc Text
unfolding text_le
insert_sorted (k, v) [] = (k, v) ∷ []
insert_sorted (k, v) ((j, w) ∷ m) =
    if text_le k j then (k, v) ∷ (j, w) ∷ m else (j, w) ∷ insert_sorted (k, v) m

sort_keys : Assoc Text → Assoc Text
unfolding insert_sorted
sort_keys [] = []
sort_keys (e ∷ m) = insert_sorted e (sort_keys m)

encode_entries : Assoc Text → Text
unfolding query_escape
encode_entries [] = []
encode_entries ((k, v) ∷ []) = query_escape k ++ b'=' ∷ query_escape v
encode_entries ((k, v) ∷ e ∷ m) =
    query_escape k ++ b'=' ∷ (query_escape v ++ b'&' ∷ encode_entries (e ∷ m))

unfoldable pub encode_query : Assoc Text → Text
unfolding sort_keys encode_entries
encode_query q = encode_entries (sort_keys q)
