-- ===== src/Admin/Actions/Resolvers.antt =====
-- The fact resolvers of an action: `listResolvers`, `upsertResolver` and `deleteResolver` of
-- internal/adminapi/handlers_actions.go.
use lamdis_core.Prelude.{
  Bool, ◌&&◌, Option, none, some, List, [], ◌∷◌, Result, ok, err, ◌>>=◌, if◌then◌else◌, filter_by,
  true,
}
use lamdis_core.Text.{Text, codes, text_eq}
use lamdis_core.Json.{Value, bool, str, arr, obj, Items, no_items, item, Fields, no_fields, field}
use lamdis_core.Facts.Resolve.{or_empty, ResolverRow}
use lamdis_core.Store.Table.{keys_eq, upsert, delete_where, order_by}
use lamdis_core.Admin.Policies.{Answer, error, ok_answer}
use lamdis_core.Admin.Actions.{coalesce, map_param, answer_items}

-- `UpsertResolverBody`
pub record ResolverBody (F : Type 0) : Type 0 where
  pub connector_key : Option Text
  pub request_tmpl : Option (Fields F)
  pub response_sample : Option (Fields F)
  pub needs : Option (Items F)
  pub enabled : Option Bool

-- A slice of the request body as a parameter of a statement.
abbrev pub slice_param : {F : Type 0} → Option (Items F) → Option (Value F)
slice_param none = none
slice_param (some l) = some (arr l)

module _ {F : Type 0} where
  -- UNIQUE (tenant_id, action_key, name)
  abbrev pub resolver_row_key : ResolverRow F → List Text
  resolver_row_key r = r.tenant_id ∷ r.action_key ∷ r.name ∷ []

  -- The INSERT names its columns, so that a parameter that is NULL beats the column's default.
  abbrev pub new_resolver : Text → Text → Text → Text → ResolverBody F → ResolverRow F
  new_resolver id tenant key name b = record {
    tenant_id = tenant;
    id = id;
    action_key = key;
    name = name;
    connector_key = b.connector_key;
    request_template = map_param b.request_tmpl;
    response_sample = map_param b.response_sample;
    needs = slice_param b.needs;
    enabled = or_empty true b.enabled;
  }

  abbrev pub change_resolver : ResolverBody F → ResolverRow F → ResolverRow F
  change_resolver b r = record r {
    connector_key = coalesce b.connector_key r.connector_key;
    request_template = coalesce (map_param b.request_tmpl) r.request_template;
    response_sample = coalesce (map_param b.response_sample) r.response_sample;
    needs = coalesce (slice_param b.needs) r.needs;
    enabled = or_empty r.enabled b.enabled;
  }

  -- `upsertResolver`; `id` is the identifier that the database would give a new row.
  unfoldable pub upsert_resolver :
      Bool
      → Text
      → Text
      → Text
      → Text
      → Option (ResolverBody F)
      → List (ResolverRow F)
      → Answer F × List (ResolverRow F)
  unfolding upsert ok_answer
  upsert_resolver works id tenant key name none rows = (error 400 (codes "bad json"), rows)
  upsert_resolver works id tenant key name (some b) rows =
      if works
      then (
        ok_answer no_fields,
        upsert (λ r. keys_eq (resolver_row_key r) (tenant ∷ key ∷ name ∷ []))
            (new_resolver id tenant key name b) (change_resolver b) rows,
      )
      else (error 500 (codes "db error"), rows)

  -- `deleteResolver`: the statement names no tenant, the rows are those that the session sees.
  unfoldable pub delete_resolver :
      (Text → Text → Bool)
      → Bool
      → Text
      → Text
      → Text
      → List (ResolverRow F)
      → Answer F × List (ResolverRow F)
  unfolding delete_where ok_answer
  delete_resolver sees works tenant key name rows =
      if works
      then (
        ok_answer no_fields,
        delete_where
            (λ r. sees tenant r.tenant_id && text_eq r.action_key key && text_eq r.name name) rows,
      )
      else (error 500 (codes "db error"), rows)

  -- rows.Scan into a string fails at a connector_key that is NULL.
  unfoldable pub resolver_items : List (ResolverRow F) → Result (Items F)
  resolver_items [] = ok no_items
  resolver_items (r ∷ rows) = elim r.connector_key [
    | none ↦ err
    | some ck ↦ resolver_items rows >>= λ l. ok (
        item
          (obj (
            field (codes "Name") (str r.name) (
              field (codes "ConnectorKey") (str ck) (
                field (codes "RequestTemplate") (or_empty (obj no_fields) r.request_template) (
                  field (codes "ResponseSample") (or_empty (obj no_fields) r.response_sample) (
                    field (codes "Needs") (or_empty (arr no_items) r.needs)
                      (field (codes "Enabled") (bool r.enabled) no_fields)))))))
          l)
  ]

  -- `listResolvers`
  unfoldable pub list_resolvers :
      (Text → Text → Bool)
      → (Text → Text → Bool)
      → Bool
      → Text
      → Text
      → List (ResolverRow F)
      → Answer F
  unfolding resolver_items order_by answer_items
  list_resolvers sees le works tenant key rows =
      if works
      then answer_items (
          resolver_items (
            order_by le (λ r. r.name)
              (filter_by (λ r. sees tenant r.tenant_id && text_eq r.action_key key) rows)))
      else error 500 (codes "db error")
