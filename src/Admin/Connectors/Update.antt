-- ===== src/Admin/Connectors/Update.antt =====
-- The changes of a tenant's own connector: `updateCustomConnector` of
-- internal/adminapi/handlers_connectors.go. `ids` are the identifiers that uuidNew gives for operations.
use lamdis_core.Prelude.{
  ℕ, Bool, false, not, ◌&&◌, ◌||◌, Option, none, some, [], if◌then◌else◌, null, any,
}
use lamdis_core.Text.{Text, codes, text_eq, trim_space}
use lamdis_core.Json.{no_fields}
use lamdis_core.Facts.Resolve.{or_empty}
use lamdis_core.Store.{DefinitionRow}
use lamdis_core.Store.Table.{update_where, delete_where}
use lamdis_core.Admin.Policies.{Answer, error, ok_answer}
use lamdis_core.Admin.AuthConfigs.{null_if_empty}
use lamdis_core.Admin.Actions.{coalesce}
use lamdis_core.Admin.Connectors.{
  ConnectorTables, Statement, read_display, read_builtin, update_definition, delete_operations,
  is_definition, scan_into, title_of, find_definition, seed,
}
use lamdis_core.Admin.Connectors.Custom.{
  CustomConnectorBody, listed, insert_operations, is_known, switch_connector, body_display,
}

module _ {F : Type 0} where
  abbrev builtin_of : Option (DefinitionRow F) → Option Text
  builtin_of none = none
  builtin_of (some d) = some (or_empty [] d.builtin_kind)

  abbrev pub change_definition : CustomConnectorBody F → DefinitionRow F → DefinitionRow F
  change_definition b d = record d {
    kind = or_empty d.kind (null_if_empty b.display);
    base_url = coalesce (null_if_empty b.base_url) d.base_url;
    auth_ref = coalesce b.auth_ref d.auth_ref;
    title = coalesce (null_if_empty b.title) d.title;
    summary = coalesce (null_if_empty b.summary) d.summary;
  }

  -- UNIQUE (tenant_id, kind), at the row that the UPDATE changes
  abbrev pub kind_taken : Text → Text → CustomConnectorBody F → ConnectorTables F → Bool
  kind_taken tenant id b t = elim (find_definition tenant id t) [
    | none ↦ false
    | some d ↦
        any
          (λ x.
            not (text_eq x.id id)
            && text_eq x.tenant_id tenant
            && text_eq x.kind (or_empty d.kind (null_if_empty b.display)))
          t.definitions
  ]

  abbrev updated_display :
      (Statement → Bool) → Text → Text → CustomConnectorBody F → ConnectorTables F → Text
  updated_display works tenant id b t =
      let own = body_display b in
      if null own
      then scan_into own (works read_display) (title_of (find_definition tenant id t))
      else own

  -- What the field `enabled` of the body asks for.
  unfoldable pub apply_enabled :
      (Statement → Bool)
      → Text
      → Text
      → CustomConnectorBody F
      → ConnectorTables F
      → ConnectorTables F
  unfolding switch_connector seed
  apply_enabled works tenant id b t = elim b.enabled [
    | none ↦ t
    | some enabled ↦
        let t' = switch_connector works tenant id enabled t in
        if enabled then seed works tenant (updated_display works tenant id b t') t' else t'
  ]

  -- The operations of the body replace all of the connector: neither statement names the tenant.
  unfoldable pub replace_operations :
      (Statement → Bool)
      → (ℕ → Text)
      → Text
      → CustomConnectorBody F
      → ConnectorTables F
      → ConnectorTables F
  unfolding insert_operations delete_where
  replace_operations works ids id b t = if null (listed b) then t else record t {
    operations = insert_operations works ids id (is_known id t) 0 (listed b) (
        if works delete_operations
        then delete_where (λ o. text_eq o.connector_id id) t.operations
        else t.operations);
  }

  -- `updateCustomConnector`
  unfoldable pub update_custom_connector :
      (Statement → Bool)
      → (ℕ → Text)
      → Text
      → Text
      → Option (CustomConnectorBody F)
      → ConnectorTables F
      → Answer F × ConnectorTables F
  unfolding replace_operations apply_enabled update_where ok_answer null_if_empty
  update_custom_connector works ids tenant id none t = (error 400 (codes "bad json"), t)
  update_custom_connector works ids tenant id (some b) t =
      if not (
        null (
          trim_space
            (scan_into [] (works read_builtin) (builtin_of (find_definition tenant id t)))))
      then (error 403 (codes "builtin_connectors_are_readonly"), t)
      else if not (works update_definition) || kind_taken tenant id b t
      then (error 500 (codes "db error"), t)
      else (
        ok_answer no_fields,
        replace_operations works ids id b (
            apply_enabled works tenant id b (record t {
              definitions =
                  update_where (is_definition tenant id) (change_definition b) t.definitions;
            })),
      )
