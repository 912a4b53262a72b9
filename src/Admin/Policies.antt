-- ===== src/Admin/Policies.antt =====
-- The policy versions of internal/adminapi/handlers_policies.go. `compiles` is the Open Policy Agent's
-- check of a module, with the text of its error; `works` tells whether a statement meets no database error.
pub mod Versions
pub mod Reads
pub mod Trials
pub mod Publishing
pub mod Paths
use lamdis_core.Prelude.{
  ℕ, zero, suc, ◌+◌, ◌-◌, ◌*◌, ◌^◌, Bool, true, false, not, ◌&&◌, ◌||◌, Option, none, some, List,
  [], ◌∷◌, map, if◌then◌else◌, null, ltb, leb, ◌==◌, any, ℤ, pos, negsuc, ◌+ℤ◌, eq_ℤ, leb_ℤ,
  filter_by, all,
}
use lamdis_core.Text.{Text, codes, text_eq, trim_space, is_digit}
use lamdis_core.Text.Maps.{Assoc, insert}
use lamdis_core.Json.{Value, bool, int, str, arr, no_items, item, Items, Fields, no_fields, field}
use lamdis_core.Facts.Resolve.{or_empty}
use lamdis_core.Store.{VersionStatus, draft, published, archived, VersionRow}
use lamdis_core.Policy.Evaluate.{is_published, latest, published_rows}

-- How a handler answers: http.Error with its text, or writeJSON.
pub data Answer (F : Type 0) : Type 0 where
  error : ℕ → Text → Answer F
  json : ℕ → Fields F → Answer F

-- strconv.Atoi
unfoldable pub digits_value : ℕ → Text → Option ℕ
digits_value acc [] = some acc
digits_value acc (c ∷ s) =
    let rest = digits_value (10 * acc + (c - b'0')) s in if is_digit c then rest else none

unfoldable pub unsigned_value : Text → Option ℕ
unsigned_value [] = none
unsigned_value (c ∷ s) = digits_value 0 (c ∷ s)

unfoldable pub in_range : Bool → Option ℕ → Option ℤ
in_range minus none = none
in_range false (some n) = if ltb n (2 ^ 63) then some (pos n) else none
in_range true (some zero) = some (pos 0)
in_range true (some (suc n)) = if ltb n (2 ^ 63) then some (negsuc n) else none

unfoldable pub atoi : Text → Option ℤ
unfolding in_range unsigned_value digits_value
atoi [] = none
atoi (c ∷ s) =
    if c == b'-'
    then in_range true (unsigned_value s)
    else if c == b'+'
    then in_range false (unsigned_value s)
    else in_range false (unsigned_value (c ∷ s))

-- The row is that of this tenant, action and version: the unique key of the table.
unfoldable pub is_version : Text → Text → ℤ → VersionRow → Bool
is_version tenant action v r =
    text_eq r.tenant_id tenant && text_eq r.action_key action && eq_ℤ r.version v

-- The row is one of this tenant and action.
unfoldable pub is_for : Text → Text → VersionRow → Bool
is_for tenant action r = text_eq r.tenant_id tenant && text_eq r.action_key action

unfoldable pub new_version : Text → Text → ℤ → Text → VersionRow
new_version tenant action v code = record {
  tenant_id = tenant;
  action_key = action;
  version = v;
  compiled_rego = some code;
  status = draft;
}

-- INSERT … ON CONFLICT (tenant_id,action_key,version) DO UPDATE: a draft in any case
unfoldable pub upsert_version : Text → Text → ℤ → Text → List VersionRow → List VersionRow
unfolding is_version new_version
upsert_version tenant action v code [] = new_version tenant action v code ∷ []
upsert_version tenant action v code (r ∷ rows) =
    if is_version tenant action v r
    then record r { compiled_rego = some code; status = draft } ∷ rows
    else r ∷ upsert_version tenant action v code rows

unfoldable pub set_status : Text → Text → ℤ → VersionRow → VersionRow
unfolding is_for
set_status tenant action v r =
    if is_for tenant action r
    then record r { status = if eq_ℤ r.version v then published else archived }
    else r

-- UPDATE policy_versions SET status = CASE WHEN version = $3 THEN 'published' ELSE 'archived' END
unfoldable pub publish_rows : Text → Text → ℤ → List VersionRow → List VersionRow
unfolding set_status
publish_rows tenant action v rows = map (set_status tenant action v) rows

-- COALESCE(MAX(version)+1,1)
max_version : ℤ → List VersionRow → ℤ
max_version best [] = best
max_version best (r ∷ rows) = max_version (if leb_ℤ r.version best then best else r.version) rows

after_max : List VersionRow → ℤ
after_max [] = pos 1
after_max (r ∷ rows) = max_version r.version rows +ℤ pos 1

-- The version of a new row: the one that is asked for, or one above the greatest that the session sees.
unfoldable pub next_version : (Text → Text → Bool) → Option ℤ → Text → Text → List VersionRow → ℤ
unfolding after_max max_version
next_version sees (some v) tenant action rows = v
next_version sees none tenant action rows =
    let v =
      after_max (filter_by (λ r. sees tenant r.tenant_id && text_eq r.action_key action) rows) in
    if eq_ℤ v (pos 0) then pos 1 else v

-- The body of the request to create a version.
pub record VersionBody : Type 0 where
  pub action_key : Text
  pub version : Option ℤ
  pub code : Text

-- A row of the table policies
pub record PolicyRow (F : Type 0) : Type 0 where
  pub machine_allowed_scopes : List Text
  pub step_up : Option (Fields F)

module _ {F : Type 0} where
  unfoldable pub ok_answer : Fields F → Answer F
  ok_answer more = json 200 (field (codes "ok") (bool true) more)

  unfoldable pub failed_answer : Text → Answer F
  failed_answer message =
      json 400 (field (codes "ok") (bool false) (field (codes "errors") (str message) no_fields))

  -- `putPolicies`; a body of none does not decode.
  unfoldable pub put_policies :
      Bool → Text → Option (PolicyRow F) → Assoc (PolicyRow F) → Answer F × Assoc (PolicyRow F)
  unfolding insert ok_answer
  put_policies works tenant none rows = (error 400 (codes "bad json"), rows)
  put_policies works tenant (some b) rows =
      if works
      then (ok_answer no_fields, insert tenant b rows)
      else (error 500 (codes "db error"), rows)

  unfoldable pub put_version :
      Bool → Text → Text → ℤ → Text → List VersionRow → Answer F × List VersionRow
  unfolding upsert_version ok_answer
  put_version works tenant action v code rows =
      if works
      then (
        ok_answer (field (codes "version") (int v) no_fields),
        upsert_version tenant action v code rows,
      )
      else (error 500 (codes "db error"), rows)

  -- `createPolicyVersion`
  unfoldable pub create_policy_version :
      (Text → Text → Bool)
      → (Text → Option Text)
      → Bool
      → Text
      → Option VersionBody
      → List VersionRow
      → Answer F × List VersionRow
  unfolding put_version failed_answer next_version trim_space
  create_policy_version sees compiles works tenant none rows = (error 400 (codes "bad json"), rows)
  create_policy_version sees compiles works tenant (some b) rows =
      if null (trim_space b.code) || null (trim_space b.action_key)
      then (error 400 (codes "bad json"), rows)
      else elim (compiles b.code) [
        | some message ↦ (failed_answer message, rows)
        | none ↦
            put_version works tenant b.action_key
              (next_version sees b.version tenant b.action_key rows) b.code rows
      ]

  unfoldable pub publish_version :
      Bool → Text → Text → ℤ → List VersionRow → Answer F × List VersionRow
  unfolding publish_rows is_for ok_answer
  publish_version works tenant action v rows =
      if not works then (error 500 (codes "db error"), rows) else (
        if any (is_for tenant action) rows
            then ok_answer (field (codes "version") (int v) no_fields)
            else error 404 (codes "not found"),
        publish_rows tenant action v rows,
      )

  -- The handlers' reading of the query's action key and the path's version, ahead of `use`.
  unfoldable pub with_version : {A : Type 0} → (Answer F → A) → (Text → ℤ → A) → Text → Text → A
  unfolding trim_space atoi
  with_version refuse use_version query version_text =
      if null (trim_space query)
      then refuse (error 400 (codes "missing action_key"))
      else if null (trim_space version_text)
      then refuse (error 400 (codes "missing version"))
      else elim (atoi version_text) [
        | none ↦ refuse (error 400 (codes "bad version"))
        | some v ↦ use_version (trim_space query) v
      ]

  -- `publishPolicyVersion`
  unfoldable pub publish_policy_version :
      Bool → Text → Text → Text → List VersionRow → Answer F × List VersionRow
  unfolding with_version publish_version
  publish_policy_version works tenant query version_text rows =
      with_version (λ a. (a, rows)) (λ action v. publish_version works tenant action v rows) query
        version_text
