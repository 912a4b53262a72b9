-- ===== src/Json.antt =====
-- The dynamic values (`any`) that the services pass around: decoded JSON, and the numbers that the
-- fact transforms make. Floats and clocks are parts of the machine, so their types and operations
-- are the fields of `Runtime`.
pub mod Laws
use lamdis_core.Prelude.{
  ℕ, zero, suc, ◌+◌, ◌-◌, ◌*◌, ◌/◌, Bool, true, false, Option, none, some, List, [], ◌∷◌, ◌++◌, map,
  leb, ltb, ◌==◌, if◌then◌else◌, ℤ, pos, negsuc,
}
use lamdis_core.Text.{Text, codes, text_eq}

-- float64 and time.Time, with the operations that the program uses of them.
pub record Runtime : Type 1 where
  pub Float : Type 0
  pub zero_float : Float
  pub add : Float → Float → Float
  pub sub : Float → Float → Float
  pub div : Float → Float → Float
  pub of_int : ℤ → Float
  -- int(f), toward zero
  pub trunc : Float → ℤ
  -- f == 0
  pub is_zero_float : Float → Bool
  -- f > 0
  pub is_positive : Float → Bool
  -- fmt's %v
  pub format : Float → Text
  pub parse_float : Text → Option Float
  pub Time : Type 0
  pub parse_rfc3339 : Text → Option Time
  pub parse_date : Text → Option Time
  -- time.Since(t).Hours(), at a reading of the clock in nanoseconds
  pub hours_since : ℤ → Time → Float
  -- time.Now().UTC().Format(time.RFC3339), at a reading of the clock
  pub now_text : ℤ → Text

-- The readings of the clock that a computation takes, in their order: time.Now gives another one at
-- each call.
abbrev pub Clock : Type 0
Clock = ℕ → ℤ

-- The readings after the first two.
abbrev pub later : Clock → Clock
later clock n = clock (n + 2)

mutual
  -- `number` is a json.Number, the text of a number, which is no float64.
  pub data Value (F : Type 0) : Type 0 where
    nil : Value F
    bool : Bool → Value F
    int : ℤ → Value F
    float : F → Value F
    str : Text → Value F
    number : Text → Value F
    arr : Items F → Value F
    obj : Fields F → Value F

  -- []any
  pub data Items (F : Type 0) : Type 0 where
    no_items : Items F
    item : Value F → Items F → Items F

  -- map[string]any
  pub data Fields (F : Type 0) : Type 0 where
    no_fields : Fields F
    field : Text → Value F → Fields F → Fields F

module _ {F : Type 0} where
  -- m[k], with its second result
  unfoldable pub get : Text → Fields F → Option (Value F)
  get k no_fields = none
  get k (field j v m) = if text_eq j k then some v else get k m

  -- m[k], with nil for a missing key
  unfoldable pub get_or_nil : Text → Fields F → Value F
  get_or_nil k no_fields = nil
  get_or_nil k (field j v m) = if text_eq j k then v else get_or_nil k m

  -- m[k] = v
  unfoldable pub put : Text → Value F → Fields F → Fields F
  put k v no_fields = field k v no_fields
  put k v (field j w m) = if text_eq j k then field k v m else field j w (put k v m)

  -- A Go map may be nil, which prints as null. Reading a nil map finds nothing.
  abbrev pub get_in : Text → Option (Fields F) → Option (Value F)
  get_in k none = none
  get_in k (some m) = get k m

  abbrev pub of_map : Option (Fields F) → Value F
  of_map none = nil
  of_map (some m) = obj m

  -- v.(map[string]any), and json.Unmarshal of a column into a map
  abbrev pub as_map : Value F → Option (Fields F)
  as_map (obj m) = some m
  as_map _ = none

  -- json.Unmarshal of a column into []map[string]any: an element that is no object is left nil
  unfoldable pub as_maps_items : Items F → List (Option (Fields F))
  as_maps_items no_items = []
  as_maps_items (item v l) = as_map v ∷ as_maps_items l

  abbrev pub as_maps : Value F → List (Option (Fields F))
  as_maps (arr l) = as_maps_items l
  as_maps _ = []

  abbrev pub as_items : Value F → Items F
  as_items (arr l) = l
  as_items _ = no_items

  abbrev pub is_nil : Value F → Bool
  is_nil nil = true
  is_nil _ = false

  unfoldable pub count_items : Items F → ℕ
  count_items no_items = 0
  count_items (item v l) = suc (count_items l)

  unfoldable pub to_list : Items F → List (Value F)
  to_list no_items = []
  to_list (item v l) = v ∷ to_list l

-- Decimal digits, by repeated division: a number has no more digits than itself plus one.
unfoldable pub digits : ℕ → ℕ → Text → Text
digits zero n acc = acc
digits (suc f) n acc =
    let d = b'0' + (n - n / 10 * 10) in
    let rest = digits f (n / 10) (d ∷ acc) in if ltb n 10 then d ∷ acc else rest

unfoldable pub decimal : ℤ → Text
unfolding digits
decimal (pos n) = digits (n + 1) n []
decimal (negsuc n) = b'-' ∷ digits (n + 2) (n + 1) []

text_le : Text → Text → Bool
text_le [] t = true
text_le (a ∷ s) [] = false
text_le (a ∷ s) (b ∷ t) = if ltb a b then true else if a == b then text_le s t else false

-- The printed entries of a map, sorted by their keys.
insert_entry : Text × Text → List (Text × Text) → List (Text × Text)
unfolding text_le
insert_entry (k, s) [] = (k, s) ∷ []
insert_entry (k, s) ((j, t) ∷ l) =
    if text_le k j then (k, s) ∷ (j, t) ∷ l else (j, t) ∷ insert_entry (k, s) l

join_entries : List (Text × Text) → Text
join_entries [] = []
join_entries ((k, s) ∷ []) = k ++ b':' ∷ s
join_entries ((k, s) ∷ l) = k ++ b':' ∷ (s ++ b' ' ∷ join_entries l)

-- fmt.Sprint and fmt.Sprintf("%v", v)
module _ {F : Type 0} (format : F → Text) where
  unfoldable mutual
    unfolding insert_entry join_entries decimal

    pub sprint : Value F → Text
    sprint nil = codes "<nil>"
    sprint (bool true) = codes "true"
    sprint (bool false) = codes "false"
    sprint (int n) = decimal n
    sprint (float x) = format x
    sprint (str s) = s
    sprint (number s) = s
    sprint (arr l) = b'[' ∷ (sprint_items l ++ b']' ∷ [])
    sprint (obj m) = codes "map[" ++ (join_entries (sprint_fields m) ++ b']' ∷ [])

    pub sprint_items : Items F → Text
    sprint_items no_items = []
    sprint_items (item v no_items) = sprint v
    sprint_items (item v (item w l)) = sprint v ++ b' ' ∷ sprint_items (item w l)

    pub sprint_fields : Fields F → List (Text × Text)
    sprint_fields no_fields = []
    sprint_fields (field k v m) = insert_entry (k, sprint v) (sprint_fields m)
