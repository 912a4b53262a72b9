-- ===== src/Admin/Actions/Mappings.antt =====
-- The fact mappings of an action: `listMappings`, `upsertMapping` and `deleteMapping` of
-- internal/adminapi/handlers_actions.go.
use lamdis_core.Prelude.{
  Bool, false, ◌&&◌, Option, none, some, List, [], ◌∷◌, if◌then◌else◌, filter_by, ok,
}
use lamdis_core.Text.{Text, codes, text_eq}
use lamdis_core.Json.{bool, str, arr, obj, Items, no_items, item, no_fields, field}
use lamdis_core.Facts.Resolve.{or_empty, MappingRow}
use lamdis_core.Store.Table.{keys_eq, upsert, delete_where, order_by}
use lamdis_core.Admin.Policies.{Answer, error, ok_answer}
use lamdis_core.Admin.Actions.{coalesce, answer_items}
use lamdis_core.Admin.Actions.Resolvers.{slice_param}

-- `UpsertMappingBody`: a key that the body leaves out is an empty text in the first two.
pub record MappingBody (F : Type 0) : Type 0 where
  pub jmespath : Text
  pub fact_key : Text
  pub transform : Option Text
  pub transform_args : Option (Items F)
  pub required : Option Bool

module _ {F : Type 0} where
  -- UNIQUE (tenant_id, action_key, name)
  abbrev pub mapping_row_key : MappingRow F → List Text
  mapping_row_key r = r.tenant_id ∷ r.action_key ∷ r.name ∷ []

  abbrev pub new_mapping : Text → Text → Text → Text → MappingBody F → MappingRow F
  new_mapping id tenant key name b = record {
    tenant_id = tenant;
    id = id;
    action_key = key;
    name = name;
    jmespath = b.jmespath;
    fact_key = b.fact_key;
    transform = b.transform;
    transform_args = slice_param b.transform_args;
    required = or_empty false b.required;
  }

  -- A text is never NULL, so that the COALESCE of the first two columns always takes the body's.
  unfoldable pub change_mapping : MappingBody F → MappingRow F → MappingRow F
  change_mapping b r = record r {
    jmespath = b.jmespath;
    fact_key = b.fact_key;
    transform = coalesce b.transform r.transform;
    transform_args = coalesce (slice_param b.transform_args) r.transform_args;
    required = or_empty r.required b.required;
  }

  -- `upsertMapping`
  unfoldable pub upsert_mapping :
      Bool
      → Text
      → Text
      → Text
      → Text
      → Option (MappingBody F)
      → List (MappingRow F)
      → Answer F × List (MappingRow F)
  unfolding upsert ok_answer change_mapping
  upsert_mapping works id tenant key name none rows = (error 400 (codes "bad json"), rows)
  upsert_mapping works id tenant key name (some b) rows =
      if works
      then (
        ok_answer no_fields,
        upsert (λ r. keys_eq (mapping_row_key r) (tenant ∷ key ∷ name ∷ []))
            (new_mapping id tenant key name b) (change_mapping b) rows,
      )
      else (error 500 (codes "db error"), rows)

  -- `deleteMapping`: the statement names no tenant, the rows are those that the session sees.
  unfoldable pub delete_mapping :
      (Text → Text → Bool)
      → Bool
      → Text
      → Text
      → Text
      → List (MappingRow F)
      → Answer F × List (MappingRow F)
  unfolding delete_where ok_answer
  delete_mapping sees works tenant key name rows =
      if works
      then (
        ok_answer no_fields,
        delete_where
            (λ r. sees tenant r.tenant_id && text_eq r.action_key key && text_eq r.name name) rows,
      )
      else (error 500 (codes "db error"), rows)

  mapping_items : List (MappingRow F) → Items F
  mapping_items [] = no_items
  mapping_items (r ∷ rows) =
      item
        (obj (
          field (codes "Name") (str r.name) (
            field (codes "JMESPath") (str r.jmespath) (
              field (codes "FactKey") (str r.fact_key) (
                field (codes "Transform") (str (or_empty [] r.transform)) (
                  field (codes "TransformArgs") (or_empty (arr no_items) r.transform_args)
                    (field (codes "Required") (bool r.required) no_fields)))))))
        (mapping_items rows)

  -- `listMappings`
  unfoldable pub list_mappings :
      (Text → Text → Bool)
      → (Text → Text → Bool)
      → Bool
      → Text
      → Text
      → List (MappingRow F)
      → Answer F
  unfolding mapping_items order_by answer_items
  list_mappings sees le works tenant key rows =
      if works
      then answer_items (
          ok (
            mapping_items (
              order_by le (λ r. r.name)
                (filter_by (λ r. sees tenant r.tenant_id && text_eq r.action_key key) rows))))
      else error 500 (codes "db error")
