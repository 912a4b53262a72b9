-- ===== src/Admin/Policies/Reads.antt =====
-- The handlers of internal/adminapi/handlers_policies.go that only read. The time of the last change of a
-- version is left out of the rows.
use lamdis_core.Prelude.{
  Bool, ◌&&◌, Option, none, some, List, [], ◌∷◌, if◌then◌else◌, null, ℤ, pos, eq_ℤ, leb_ℤ,
  filter_by, find,
}
use lamdis_core.Text.{Text, codes, text_eq, trim_space}
use lamdis_core.Json.{int, str, arr, obj, no_items, item, Items, no_fields, field}
use lamdis_core.Facts.Resolve.{or_empty}
use lamdis_core.Store.{VersionStatus, draft, published, archived, VersionRow}
use lamdis_core.Policy.Evaluate.{latest, published_rows}
use lamdis_core.Admin.Policies.{Answer, error, json, ok_answer, failed_answer, with_version}

status_text : VersionStatus → Text
status_text draft = codes "draft"
status_text published = codes "published"
status_text archived = codes "archived"

-- ORDER BY version DESC
place : VersionRow → List VersionRow → List VersionRow
place r [] = r ∷ []
place r (x ∷ rows) =
    let rest = place r rows in if leb_ℤ x.version r.version then r ∷ x ∷ rows else x ∷ rest

unfoldable pub newest_first : List VersionRow → List VersionRow
unfolding place
newest_first [] = []
newest_first (r ∷ rows) = place r (newest_first rows)

module _ {F : Type 0} where
  version_answer : ℤ → Text → Text → Answer F
  version_answer v status code = json 200 (
      field (codes "version") (int v)
        (field (codes "status") (str status) (field (codes "code") (str code) no_fields)))

  found_version : ℤ → Option VersionRow → Answer F
  unfolding version_answer status_text
  found_version v none = error 404 (codes "not found")
  found_version v (some r) = version_answer v (status_text r.status) (or_empty [] r.compiled_rego)

  -- `getPolicyVersion`; a query that fails counts as one with no row.
  unfoldable pub get_policy_version :
      (Text → Text → Bool) → Bool → Text → Text → Text → List VersionRow → Answer F
  unfolding with_version found_version
  get_policy_version sees works tenant query version_text rows =
      with_version (λ a. a)
        (λ action v. found_version v (
          if works
          then find
              (λ r. sees tenant r.tenant_id && text_eq r.action_key action && eq_ℤ r.version v) rows
          else none))
        query version_text

  found_active : Option VersionRow → Answer F
  unfolding version_answer
  found_active none = version_answer (pos 0) (codes "none") []
  found_active (some r) =
      if eq_ℤ r.version (pos 0)
      then version_answer (pos 0) (codes "none") []
      else version_answer r.version (codes "published") (or_empty [] r.compiled_rego)

  -- `getActivePolicy`
  unfoldable pub get_active_policy :
      (Text → Text → Bool) → Bool → Text → Text → List VersionRow → Answer F
  unfolding found_active latest published_rows trim_space
  get_active_policy sees works tenant query rows =
      if null (trim_space query)
      then error 400 (codes "missing action_key")
      else found_active
          (if works then latest (published_rows sees tenant (trim_space query) rows) else none)

  row_items : List VersionRow → Items F
  unfolding status_text
  row_items [] = no_items
  row_items (r ∷ rows) =
      item
        (obj (
          field (codes "version") (int r.version)
            (field (codes "status") (str (status_text r.status)) no_fields)))
        (row_items rows)

  -- `listPolicyVersions`
  unfoldable pub list_policy_versions :
      (Text → Text → Bool) → Bool → Text → Text → List VersionRow → Answer F
  unfolding row_items newest_first trim_space
  list_policy_versions sees works tenant query rows =
      if null (trim_space query)
      then error 400 (codes "missing action_key")
      else if works
      then json 200 (
          field (codes "items")
            (arr (
              row_items (
                newest_first (
                  filter_by
                    (λ r. sees tenant r.tenant_id && text_eq r.action_key (trim_space query))
                    rows))))
            no_fields)
      else error 500 (codes "db error")

  -- `compilePolicy`
  unfoldable pub compile_policy : (Text → Option Text) → Option Text → Answer F
  unfolding ok_answer failed_answer
  compile_policy compiles none = error 400 (codes "bad json")
  compile_policy compiles (some code) = elim (compiles code) [
    | some message ↦ failed_answer message
    | none ↦ ok_answer no_fields
  ]
