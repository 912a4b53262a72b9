-- ===== src/Admin/Connectors/Switch.antt =====
-- The single operations of a connector, internal/adminapi/handlers_connectors.go: `putConnectorAction`, which
-- switches one on or off, `listConnectorActions` and `getCustomConnector`.
use lamdis_core.Prelude.{
  Bool, true, not, ◌&&◌, ◌||◌, Option, none, some, List, [], ◌∷◌, if◌then◌else◌, null, any,
  filter_by, map,
}
use lamdis_core.Text.{Text, codes, text_eq, trim_space}
use lamdis_core.Json.{
  bool, str, arr, obj, Items, no_items, item, Fields, no_fields, field, as_map, of_map,
}
use lamdis_core.Facts.Resolve.{or_empty}
use lamdis_core.Store.{DefinitionRow, OperationRow, JoinedRow, join}
use lamdis_core.Store.Table.{update_where, order_by}
use lamdis_core.Admin.Policies.{Answer, error, json, ok_answer}
use lamdis_core.Admin.AuthConfigs.{items_or_nil}
use lamdis_core.Admin.Connectors.{ConnectorTables, find_definition, title_of}
use lamdis_core.Admin.Connectors.Reads.{text_or_nil, texts_value, maps_value, maps_or_nil}

module _ {F : Type 0} where
  -- The operation belongs to the tenant's connector.
  abbrev pub is_owned : Text → Text → Text → JoinedRow F → Bool
  is_owned tenant cid opid r =
      text_eq r.0.id opid && text_eq r.1.id cid && text_eq r.1.tenant_id tenant

  abbrev pub switch_operation : Bool → OperationRow F → OperationRow F
  switch_operation enabled o = record o { enabled = some enabled }

  -- `putConnectorAction`: `reads` and `works` tell whether the query and the UPDATE meet no error.
  unfoldable pub put_connector_action :
      Bool
      → Bool
      → Text
      → Text
      → Text
      → Option Bool
      → ConnectorTables F
      → Answer F × ConnectorTables F
  unfolding update_where join ok_answer
  put_connector_action reads works tenant cid opid body t =
      if null cid || null opid
      then (error 400 (codes "missing ids"), t)
      else if not (reads && any (is_owned tenant cid opid) (join t.operations t.definitions))
      then (error 404 (codes "not found"), t)
      else elim body [
        | none ↦ (error 400 (codes "bad json"), t)
        | some enabled ↦
            if works
            then (
              ok_answer no_fields,
              record t {
                operations =
                    update_where (λ o. text_eq o.id opid) (switch_operation enabled) t.operations;
              },
            )
            else (error 500 (codes "db error"), t)
      ]

  -- The fields of an operation that both lists print, ahead of the rest.
  unfoldable pub operation_fields : OperationRow F → Fields F → Fields F
  unfolding texts_value maps_value
  operation_fields o rest = field (codes "id") (str o.id) (
      field (codes "method") (str o.method) (
        field (codes "path") (str o.path) (
          field (codes "summary") (str o.summary) (
            field (codes "scopes") (arr (texts_value (or_empty [] o.scopes))) (
              field (codes "params") (maps_or_nil (or_empty (arr no_items) o.params)) (
                field (codes "request_tmpl")
                  (of_map (as_map (or_empty (obj no_fields) o.request_tmpl))) rest))))))

  unfoldable pub operation_items : (OperationRow F → Fields F) → List (OperationRow F) → Items F
  unfolding operation_fields
  operation_items rest [] = no_items
  operation_items rest (o ∷ ops) =
      item (obj (operation_fields o (rest o))) (operation_items rest ops)

  -- The rows that `listConnectorActions` shows.
  unfoldable pub enabled_operations : Text → Text → List (JoinedRow F) → List (OperationRow F)
  enabled_operations tenant cid rows =
      map (λ r. r.0)
        (filter_by
          (λ r. text_eq r.1.id cid && text_eq r.1.tenant_id tenant && or_empty true r.0.enabled)
          rows)

  -- `listConnectorActions`: `reads` and `works` tell whether its two queries meet no error.
  unfoldable pub list_connector_actions :
      (Text → Text → Bool) → Bool → Bool → Text → Text → ConnectorTables F → Answer F
  unfolding operation_items enabled_operations order_by join trim_space
  list_connector_actions le reads works tenant cid t =
      if null (trim_space cid)
      then error 400 (codes "missing id")
      else elim (if reads then title_of (find_definition tenant cid t) else none) [
        | none ↦ error 404 (codes "not found")
        | some display ↦
            if works
            then json 200 (
                field (codes "connector")
                  (obj (
                    field (codes "id") (str cid) (field (codes "display") (str display) no_fields)))
                  (field (codes "items")
                    (items_or_nil (
                      operation_items (λ o. no_fields)
                        (order_by le (λ o. o.id)
                          (enabled_operations tenant cid (join t.operations t.definitions)))))
                    no_fields))
            else error 500 (codes "db error")
      ]

  connector_answer : DefinitionRow F → Items F → Answer F
  connector_answer d ops = json 200 (
      field (codes "id") (str d.id) (
        field (codes "display_name") (str d.kind) (
          field (codes "title") (text_or_nil d.title) (
            field (codes "summary") (text_or_nil d.summary) (
              field (codes "base_url") (text_or_nil d.base_url) (
                field (codes "auth_ref") (text_or_nil d.auth_ref) (
                  field (codes "actions") (arr ops)
                    (field (codes "operations") (arr ops) no_fields))))))))

  -- `getCustomConnector`
  unfoldable pub get_custom_connector :
      (Text → Text → Bool) → Bool → Bool → Text → Text → ConnectorTables F → Answer F
  unfolding connector_answer operation_items order_by
  get_custom_connector le reads works tenant cid t =
      elim (if reads then find_definition tenant cid t else none) [
        | none ↦ error 404 (codes "custom connector not found for tenant")
        | some d ↦
            if works
            then connector_answer d (
                operation_items
                  (λ o. field (codes "enabled") (bool (or_empty true o.enabled)) no_fields)
                  (order_by le (λ o. o.id)
                    (filter_by (λ o. text_eq o.connector_id cid) t.operations)))
            else error 500 (codes "db error")
      ]
