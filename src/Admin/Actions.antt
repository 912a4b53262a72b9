-- ===== src/Admin/Actions.antt =====
-- The actions of a tenant, internal/adminapi/handlers_actions.go: `listActions` and `upsertAction`. The
-- children have the fact resolvers and mappings. `works` tells whether the statement meets no database
-- error, `sees` which tenants' rows a session shows, and `le` is the collation. A nil map or slice that
-- is passed to a statement is NULL. The times of the last change are left out.
pub mod Resolvers
pub mod Mappings
pub mod Refinement
pub mod Failures
use lamdis_core.Prelude.{
  Bool, ◌&&◌, Option, none, some, List, [], ◌∷◌, Result, ok, err, ◌>>=◌, if◌then◌else◌, filter_by,
}
use lamdis_core.Text.{Text, codes, text_eq}
use lamdis_core.Json.{
  Value, str, arr, obj, Items, no_items, item, Fields, no_fields, field, as_map, of_map,
}
use lamdis_core.Facts.Resolve.{or_empty}
use lamdis_core.Store.{ActionRow}
use lamdis_core.Store.Table.{keys_eq, upsert, order_by}
use lamdis_core.Admin.Policies.{Answer, error, json, ok_answer}

-- `UpsertActionBody`
pub record ActionBody (F : Type 0) : Type 0 where
  pub display_name : Option Text
  pub inputs_schema : Option (Fields F)

-- COALESCE($n, column)
abbrev pub coalesce {ℓ} : {A : Type ℓ} → Option A → Option A → Option A
coalesce none old = old
coalesce (some a) old = some a

module _ {F : Type 0} where
  -- A map of the request body as a parameter of a statement.
  abbrev pub map_param : Option (Fields F) → Option (Value F)
  map_param none = none
  map_param (some m) = some (obj m)

  -- What a handler answers after its only statement, or where a row does not scan.
  unfoldable pub answer_items : Result (Items F) → Answer F
  answer_items err = error 500 (codes "db error")
  answer_items (ok l) = json 200 (field (codes "items") (arr l) no_fields)

  abbrev pub action_row_key : ActionRow F → List Text
  action_row_key r = r.tenant_id ∷ r.key ∷ []

  abbrev pub change_action : ActionBody F → ActionRow F → ActionRow F
  change_action b r = record r {
    display_name = coalesce b.display_name r.display_name;
    inputs_schema = coalesce (map_param b.inputs_schema) r.inputs_schema;
  }

  abbrev pub new_action : Text → Text → ActionBody F → ActionRow F
  new_action tenant key b = record {
    tenant_id = tenant;
    key = key;
    display_name = some (or_empty [] b.display_name);
    inputs_schema = some (or_empty (obj no_fields) (map_param b.inputs_schema));
  }

  -- `upsertAction`; a body of none does not decode.
  unfoldable pub upsert_action :
      Bool
      → Text
      → Text
      → Option (ActionBody F)
      → List (ActionRow F)
      → Answer F × List (ActionRow F)
  unfolding upsert ok_answer
  upsert_action works tenant key none rows = (error 400 (codes "bad json"), rows)
  upsert_action works tenant key (some b) rows =
      if works
      then (
        ok_answer no_fields,
        upsert (λ r. keys_eq (action_row_key r) (tenant ∷ key ∷ [])) (new_action tenant key b)
            (change_action b) rows,
      )
      else (error 500 (codes "db error"), rows)

  -- rows.Scan into a string fails at a NULL; a schema that is no object is left nil.
  scan_actions : List (ActionRow F) → Result (Items F)
  scan_actions [] = ok no_items
  scan_actions (r ∷ rows) = elim r.display_name [
    | none ↦ err
    | some name ↦ scan_actions rows >>= λ l. ok (
        item
          (obj (
            field (codes "Key") (str r.key) (
              field (codes "DisplayName") (str name) (
                field (codes "InputsSchema")
                  (of_map (as_map (or_empty (obj no_fields) r.inputs_schema))) no_fields))))
          l)
  ]

  -- `listActions`
  unfoldable pub list_actions :
      (Text → Text → Bool) → (Text → Text → Bool) → Bool → Text → List (ActionRow F) → Answer F
  unfolding scan_actions order_by answer_items
  list_actions sees le works tenant rows =
      if works
      then answer_items
          (scan_actions (order_by le (λ r. r.key) (filter_by (λ r. sees tenant r.tenant_id) rows)))
      else error 500 (codes "db error")
