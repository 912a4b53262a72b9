-- ===== src/Facts/Transforms.antt =====
-- `applyTransform` of internal/facts/engine.go and its helpers.
use lamdis_core.Prelude.{
  ℕ, Bool, true, false, not, ◌&&◌, Option, none, some, [], ◌∷◌, Result, ok, err, ◌==◌,
  if◌then◌else◌, null, pos, negsuc,
}
use lamdis_core.Text.{Text, codes, text_eq, trim_space, trim_left, trim_right, contains_pair}
use lamdis_core.Json.{
  Runtime, Clock, Value, nil, bool, int, float, str, number, arr, obj, Items, no_items, item,
  no_fields, field, get, count_items, is_nil, sprint,
}

-- The labels of the `switch`; `other` is its default.
pub data Transform : Type 0 where
  count sum days_between now any_of all_of exists first to_number to_string coalesce other :
      Transform

unfoldable pub transform_of : Text → Transform
transform_of s =
    if text_eq s (codes "count")
    then count
    else if text_eq s (codes "sum")
    then sum
    else if text_eq s (codes "days_between")
    then days_between
    else if text_eq s (codes "now")
    then now
    else if text_eq s (codes "any")
    then any_of
    else if text_eq s (codes "all")
    then all_of
    else if text_eq s (codes "exists")
    then exists
    else if text_eq s (codes "first")
    then first
    else if text_eq s (codes "to_number")
    then to_number
    else if text_eq s (codes "to_string")
    then to_string
    else if text_eq s (codes "coalesce")
    then coalesce
    else other

is_quote : ℕ → Bool
is_quote c = if c == b'\'' then true else c == 34

has_pair : Text → Bool
unfolding contains_pair
has_pair s = contains_pair b'=' b'=' s

-- strings.Split(pred, "=="): the parts, where they are exactly two
split_pair : Text → Option (Text × Text)
unfolding has_pair
split_pair [] = none
split_pair (c ∷ []) = none
split_pair (c ∷ d ∷ s) =
    let rest = split_pair (d ∷ s) in
    if c == b'=' && d == b'='
    then (if has_pair s then none else some ([], s))
    else elim rest [ none ↦ none | some (l, r) ↦ some (c ∷ l, r) ]

module _ (rt : Runtime) where
  open rt use {
    Float, zero_float, add, sub, div, of_int, trunc, is_zero_float, parse_float, Time,
    parse_rfc3339, parse_date, hours_since, now_text, format,
  }

  abbrev Any : Type 0
  Any = Value Float

  unfoldable pub to_float : Any → Float
  to_float (float x) = x
  to_float (int n) = of_int n
  to_float _ = zero_float

  unfoldable pub sum_items : Float → Items Float → Float
  unfolding to_float
  sum_items s no_items = s
  sum_items s (item v l) = sum_items (add s (to_float v)) l

  unfoldable pub to_time : Any → Option Time
  to_time (str t) = elim (parse_rfc3339 t) [ some ts ↦ some ts | none ↦ parse_date t ]
  to_time _ = none

  unfoldable pub is_zero : Any → Bool
  unfolding trim_space
  is_zero nil = true
  is_zero (str t) = null (trim_space t)
  is_zero (float x) = is_zero_float x
  is_zero (int (pos n)) = n == 0
  is_zero (int (negsuc n)) = false
  is_zero (arr no_items) = true
  is_zero (arr (item v l)) = false
  is_zero (obj no_fields) = true
  is_zero (obj (field k v m)) = false
  is_zero (bool b) = false
  is_zero (number s) = false

  unfoldable pub to_array : Any → Items Float
  to_array (arr l) = l
  to_array nil = no_items
  to_array v = item v no_items

  match_field : Option Any → Text → Bool
  unfolding sprint
  match_field none right = false
  match_field (some v) right = text_eq (sprint format v) right

  match_parts : Any → Option (Text × Text) → Bool
  unfolding match_field trim_space trim_left trim_right is_quote
  match_parts (obj m) (some (l, r)) =
      match_field (get (trim_space l) m) (trim_right is_quote (trim_left is_quote (trim_space r)))
  match_parts _ _ = false

  -- `matchPredicate`: a text of the form field=='value'; its error is never set
  unfoldable pub match_predicate : Any → Text → Bool
  unfolding match_parts split_pair
  match_predicate v pred = match_parts v (split_pair pred)

  -- The loops of "any" and "all".
  unfoldable pub any_match : Text → Items Float → Bool
  any_match pred no_items = false
  any_match pred (item v l) =
      let rest = any_match pred l in if match_predicate v pred then true else rest

  unfoldable pub all_match : Text → Items Float → Bool
  all_match pred no_items = true
  all_match pred (item v l) =
      let rest = all_match pred l in if not (match_predicate v pred) then false else rest

  -- "all" of no items is false.
  unfoldable pub all_of_some : Text → Items Float → Bool
  unfolding all_match
  all_of_some pred no_items = false
  all_of_some pred (item v l) = all_match pred (item v l)

  -- `pred, _ := args[1].(string)`
  abbrev as_text : Any → Text
  as_text (str t) = t
  as_text _ = []

  -- Without two arguments "any" and "all" test the value.
  abbrev is_present : Any → Bool
  is_present (arr no_items) = false
  is_present (arr (item v l)) = true
  is_present nil = false
  is_present v = true

  -- The days between two times, as the difference of their ages. Each age is taken at a reading of
  -- the clock of its own.
  unfoldable pub days : Clock → Any → Any → Result Any
  unfolding to_time
  days clock a b = elim (to_time a) [
    | none ↦ err
    | some t1 ↦ elim (to_time b) [
      | none ↦ err
      | some t2 ↦ ok (
          int (
            trunc (
              sub (div (hours_since (clock 0) t1) (of_int (pos 24)))
                (div (hours_since (clock 1) t2) (of_int (pos 24))))))
    ]
  ]

  -- The first argument that is not zero, and else the value.
  unfoldable pub first_nonzero : Any → Items Float → Any
  unfolding is_zero
  first_nonzero v no_items = v
  first_nonzero v (item a l) = let rest = first_nonzero v l in if not (is_zero a) then a else rest

  parse_number : Option Float → Any
  parse_number none = int (pos 0)
  parse_number (some x) = float x

  -- The cases that do not read the clock: all but "days_between" and "now".
  unfoldable pub plain_transform : Transform → Any → Items Float → Result Any
  unfolding sum_items any_match all_of_some first_nonzero to_array to_float parse_number trim_space
  plain_transform count (arr l) args = ok (int (pos (count_items l)))
  plain_transform count v args = ok (int (pos 0))
  plain_transform sum (arr l) args = ok (float (sum_items zero_float l))
  plain_transform sum v args = ok (float (to_float v))
  plain_transform any_of v (item src (item p no_items)) =
      ok (bool (any_match (as_text p) (to_array src)))
  plain_transform any_of v args = ok (bool (is_present v))
  plain_transform all_of v (item src (item p no_items)) =
      ok (bool (all_of_some (as_text p) (to_array src)))
  plain_transform all_of v args = ok (bool (is_present v))
  plain_transform exists v args = ok (bool (not (is_nil v)))
  plain_transform first (arr (item a l)) args = ok a
  plain_transform first (arr no_items) args = ok nil
  plain_transform first v args = ok v
  plain_transform to_number (str t) args = ok (parse_number (parse_float (trim_space t)))
  plain_transform to_number v args = ok (float (to_float v))
  plain_transform to_string v args = ok (str (sprint format v))
  plain_transform coalesce v args = ok (first_nonzero v args)
  plain_transform t v args = ok v

  unfoldable pub run_transform : Clock → Transform → Any → Items Float → Result Any
  unfolding days plain_transform
  run_transform clock days_between v (item a (item b no_items)) = days clock a b
  run_transform clock days_between (arr (item a (item b no_items))) args = days clock a b
  run_transform clock days_between v args = err
  run_transform clock now v args = ok (str (now_text (clock 0)))
  run_transform clock t v args = plain_transform t v args

  unfoldable pub apply_transform : Clock → Text → Any → Items Float → Result Any
  unfolding transform_of run_transform
  apply_transform clock name v args = run_transform clock (transform_of name) v args
