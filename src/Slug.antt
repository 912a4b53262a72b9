-- ===== src/Slug.antt =====
-- The slugs and short names that stand for connectors and paths: `slug` and `deriveShort` of
-- internal/orchestrator/service.go, `deriveName` and the namespace of internal/manifest/service.go,
-- `slugify` of internal/adminapi/handlers_connectors.go.
pub mod Shape
pub mod Laws
mod Tests
use lamdis_core.Prelude.{
  ℕ, Bool, true, false, not, ◌&&◌, ◌||◌, Option, none, some, List, [], ◌∷◌, reverse, ◌==◌,
  if◌then◌else◌, null,
}
use lamdis_core.Text.{
  Text, codes, text_eq, is_lower, is_upper, is_digit, trim, trim_space, to_lower, contains, cut,
  split,
}

-- [a-zA-Z0-9]
abbrev pub is_alnum : ℕ → Bool
is_alnum c = is_lower c || is_upper c || is_digit c

-- [a-z0-9]
abbrev pub is_slug_char : ℕ → Bool
is_slug_char c = is_lower c || is_digit c

-- The regular expression ([a-z0-9])([A-Z]), replaced by $1-$2.
starts_upper : Text → Bool
starts_upper [] = false
starts_upper (c ∷ s) = is_upper c

unfoldable pub split_camel : Text → Text
unfolding starts_upper
split_camel [] = []
split_camel (c ∷ s) =
    let rest = split_camel s in
    if is_slug_char c && starts_upper s then c ∷ b'-' ∷ rest else c ∷ rest

-- [^…]+ replaced by "-", where `keep` tells the characters of the class: `in_run` says that the
-- run has its dash.
unfoldable pub dash_runs : (ℕ → Bool) → Bool → Text → Text
dash_runs keep in_run [] = []
dash_runs keep in_run (c ∷ s) =
    let rest = dash_runs keep (not (keep c)) s in
    if keep c then c ∷ rest else if in_run then rest else b'-' ∷ rest

-- -+ replaced by "-".
abbrev pub is_not_dash : ℕ → Bool
is_not_dash c = not (c == b'-')

-- The part of `slug` behind its trimmed argument; `BuildManifest` applies it to the kind.
unfoldable pub normalize_kind : Text → Text
unfolding split_camel dash_runs
normalize_kind s =
    dash_runs is_not_dash false (to_lower (trim b'-' (dash_runs is_alnum false (split_camel s))))

unfoldable pub slug : Text → Text
unfolding normalize_kind
slug s = let t = trim_space s in if null t then t else normalize_kind t

-- The normalisation of a path's segment in `deriveName`: without the split at capitals.
unfoldable pub slug_segment : Text → Text
unfolding dash_runs
slug_segment s = trim b'-' (to_lower (dash_runs is_alnum false s))

unfoldable pub slugify : Text → Text
unfolding dash_runs
slugify s =
    let t = to_lower (trim_space s) in
    let u = trim b'-' (dash_runs is_slug_char false t) in
    if null t then t else if null u then codes "action" else u

-- A path parameter or the version, which names nothing.
abbrev pub is_skipped : Text → Bool
is_skipped s = contains b'{' s || contains b'}' s || text_eq s (codes "v1")

-- The loop over the segments, from the last one on.
unfoldable pub last_name : (Text → Text) → List Text → Text
last_name norm [] = codes "action"
last_name norm (s ∷ segs) =
    let rest = last_name norm segs in
    let n = norm s in if is_skipped s then rest else if null n then rest else n

unfoldable pub derive_with : (Text → Text) → Text → Text
unfolding last_name
derive_with norm p =
    let q = trim b'/' (cut b'?' p).0 in
    if null q then codes "root" else last_name norm (reverse (split b'/' q))

-- `deriveShort` of the orchestrator.
unfoldable pub derive_short : Text → Text
unfolding derive_with
derive_short p = derive_with slug p

-- `deriveName` of the manifest.
unfoldable pub derive_name : Text → Text
unfolding derive_with
derive_name p = derive_with slug_segment p
