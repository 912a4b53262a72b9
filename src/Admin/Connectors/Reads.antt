-- ===== src/Admin/Connectors/Reads.antt =====
-- The handlers of internal/adminapi/handlers_connectors.go that only read: `listTenantConnectors`,
-- `listConfiguredConnectors`, `getCustomConnector` and `listConnectorActions`. `le` is the collation.
use lamdis_core.Prelude.{
  Bool, false, ◌&&◌, Option, none, some, List, [], ◌∷◌, ◌++◌, Result, ok, err, ◌>>=◌, if◌then◌else◌,
  filter_by, map,
}
use lamdis_core.Text.{Text, codes, text_eq}
use lamdis_core.Json.{
  Value, nil, bool, str, arr, obj, Items, no_items, item, Fields, no_fields, field, as_map,
  as_maps_items, of_map,
}
use lamdis_core.Facts.Resolve.{or_empty}
use lamdis_core.Store.{DefinitionRow, TenantConnectorRow, RegistryRow}
use lamdis_core.Store.Table.{order_by}
use lamdis_core.Admin.Policies.{Answer, error, json}
use lamdis_core.Admin.AuthConfigs.{items_or_nil}
use lamdis_core.Admin.Connectors.{ConnectorTables}

-- The rows of tenant_connectors that a LEFT JOIN meets, or one that is NULL.
abbrev joined : List TenantConnectorRow → List (Option TenantConnectorRow)
joined [] = none ∷ []
joined (r ∷ rows) = some r ∷ map some rows

abbrev for_connector : Text → Text → List TenantConnectorRow → List TenantConnectorRow
for_connector tenant id rows =
    filter_by (λ r. text_eq r.tenant_id tenant && text_eq r.connector_id id) rows

-- COALESCE(tc.enabled,false)
abbrev enabled_of : Option TenantConnectorRow → Bool
enabled_of none = false
enabled_of (some r) = or_empty false r.enabled

-- A row of the union of `listConfiguredConnectors`.
record Configured (F : Type 0) : Type 0 where
  src : Text
  id : Text
  kind : Text
  display_name : Text
  requirements : Value F
  enabled : Option Bool

module _ {F : Type 0} where
  abbrev pub text_or_nil : Option Text → Value F
  text_or_nil none = nil
  text_or_nil (some s) = str s

  unfoldable pub texts_value : List Text → Items F
  texts_value [] = no_items
  texts_value (s ∷ l) = item (str s) (texts_value l)

  unfoldable pub maps_value : List (Option (Fields F)) → Items F
  maps_value [] = no_items
  maps_value (m ∷ l) = item (of_map m) (maps_value l)

  -- A column that should hold an array of maps: any other leaves the variable nil.
  abbrev pub maps_or_nil : Value F → Value F
  maps_or_nil (arr l) = arr (maps_value (as_maps_items l))
  maps_or_nil _ = nil

  -- connector_definitions d LEFT JOIN tenant_connectors tc
  unfoldable pub with_switch :
      Text → List TenantConnectorRow → List (DefinitionRow F) → List (DefinitionRow F × Bool)
  with_switch tenant tcs [] = []
  with_switch tenant tcs (d ∷ defs) =
      let rest = with_switch tenant tcs defs in
      if text_eq d.tenant_id tenant
      then map (λ tc. (d, enabled_of tc)) (joined (for_connector tenant d.id tcs)) ++ rest
      else rest

  -- rows.Scan into a string fails at a builtin_kind that is NULL.
  definition_items : List (DefinitionRow F × Bool) → Result (Items F)
  definition_items [] = ok no_items
  definition_items ((d, enabled) ∷ rows) = elim d.builtin_kind [
    | none ↦ err
    | some builtin ↦ definition_items rows >>= λ l. ok (
        item
          (obj (
            field (codes "id") (str d.id) (
              field (codes "kind") (str d.kind) (
                field (codes "builtin_kind") (str builtin) (
                  field (codes "config") (of_map (as_map (or_empty nil d.config))) (
                    field (codes "base_url") (text_or_nil d.base_url) (
                      field (codes "auth_ref") (text_or_nil d.auth_ref) (
                        field (codes "title") (text_or_nil d.title) (
                          field (codes "summary") (text_or_nil d.summary)
                            (field (codes "enabled") (bool enabled) no_fields))))))))))
          l)
  ]

  answer_list : Result (Items F) → Answer F
  answer_list err = error 500 (codes "db error")
  answer_list (ok l) = json 200 (field (codes "items") (items_or_nil l) no_fields)

  -- `listTenantConnectors`
  unfoldable pub list_tenant_connectors :
      (Text → Text → Bool) → Bool → Text → ConnectorTables F → Answer F
  unfolding with_switch definition_items answer_list order_by
  list_tenant_connectors le works tenant t =
      if works
      then answer_list (
          definition_items
            (order_by le (λ r. r.0.kind) (with_switch tenant t.tenant_connectors t.definitions)))
      else error 500 (codes "db error")

  -- connectors c JOIN tenant_connectors tc
  configured_builtin : Text → List TenantConnectorRow → List (RegistryRow F) → List (Configured F)
  configured_builtin tenant tcs [] = []
  configured_builtin tenant tcs (c ∷ cs) =
      map
        (λ tc. record {
          src = codes "builtin";
          id = c.id;
          kind = c.kind;
          display_name = c.display_name;
          requirements = c.requirements;
          enabled = tc.enabled;
        })
        (for_connector tenant c.id tcs)
      ++ configured_builtin tenant tcs cs

  abbrev configured_custom : DefinitionRow F × Bool → Configured F
  configured_custom (d, enabled) = record {
    src = codes "custom";
    id = d.id;
    kind = d.kind;
    display_name = or_empty d.kind d.title;
    requirements = obj no_fields;
    enabled = some enabled;
  }

  -- rows.Scan into a bool fails at NULL.
  configured_items : List (Configured F) → Result (Items F)
  configured_items [] = ok no_items
  configured_items (r ∷ rows) = elim r.enabled [
    | none ↦ err
    | some enabled ↦ configured_items rows >>= λ l. ok (
        item
          (obj (
            field (codes "id") (str r.id) (
              field (codes "type") (str r.src) (
                field (codes "kind") (str r.kind) (
                  field (codes "display_name") (str r.display_name) (
                    field (codes "requirements") (of_map (as_map r.requirements))
                      (field (codes "enabled") (bool enabled) no_fields)))))))
          l)
  ]

  -- `listConfiguredConnectors`
  unfoldable pub list_configured_connectors :
      (Text → Text → Bool) → Bool → Text → ConnectorTables F → Answer F
  unfolding configured_builtin with_switch configured_items answer_list order_by
  list_configured_connectors le works tenant t =
      if works
      then answer_list (
          configured_items (
            order_by le (λ r. r.kind)
              (configured_builtin tenant t.tenant_connectors t.connectors
                ++ map configured_custom (with_switch tenant t.tenant_connectors t.definitions))))
      else error 500 (codes "db error")
