-- ===== src/Admin/Connectors.antt =====
-- The connectors of a tenant, internal/adminapi/handlers_connectors.go: the tables, and
-- `putTenantConnector`. `works` tells which statements meet no database error; UNIQUE constraints are
-- written out. A query that fails and one with no row leave the variable as it was.
pub mod Custom
pub mod Update
pub mod Reads
pub mod Switch
pub mod Enabled
pub mod Ownership
pub mod Service
use lamdis_core.Prelude.{
  ℕ, Bool, true, false, not, ◌&&◌, Option, none, some, List, [], ◌∷◌, ◌++◌, Result, ok, err,
  if◌then◌else◌, null, find,
}
use lamdis_core.Text.{Text, codes, text_eq, trim_space}
use lamdis_core.Text.Maps.{Assoc}
use lamdis_core.Json.{Value, obj, Fields, no_fields}
use lamdis_core.Facts.Resolve.{or_empty}
use lamdis_core.Secrets.{Cipher, encrypt_json}
use lamdis_core.Slug.{slugify}
use lamdis_core.Store.{ActionRow, DefinitionRow, OperationRow, TenantConnectorRow, RegistryRow}
use lamdis_core.Store.Table.{keys_eq, upsert}
use lamdis_core.Admin.Policies.{Answer, error, ok_answer}
use lamdis_core.Admin.AuthConfigs.{secrets_value}
use lamdis_core.Admin.Actions.{coalesce, action_row_key}

-- `has_kind`: tenant_connectors still has its old column kind.
pub record ConnectorTables (F : Type 0) : Type 0 where
  pub definitions : List (DefinitionRow F)
  pub operations : List (OperationRow F)
  pub tenant_connectors : List TenantConnectorRow
  pub connectors : List (RegistryRow F)
  pub actions : List (ActionRow F)
  pub has_kind : Bool

-- The statements of the handlers.
pub data Statement : Type 0 where
  check_kind read_kind read_registry_kind connect read_display read_registry_display seed_action
        insert_definition read_builtin update_definition delete_operations :
      Statement
  insert_operation : ℕ → Statement

-- `ConnectorBody`
pub record ConnectorBody : Type 0 where
  pub enabled : Bool
  pub secrets : Option (Assoc Text)

abbrev pub connect_key : TenantConnectorRow → List Text
connect_key r = r.tenant_id ∷ r.connector_id ∷ []

abbrev pub new_connect : Text → Text → Option Text → Bool → Option Text → TenantConnectorRow
new_connect tenant id kind enabled enc = record {
  tenant_id = tenant;
  connector_id = id;
  kind = kind;
  enabled = some enabled;
  secrets_encrypted = enc;
}

abbrev pub change_connect : Bool → Option Text → TenantConnectorRow → TenantConnectorRow
change_connect enabled enc r = record r {
  enabled = some enabled;
  secrets_encrypted = coalesce enc r.secrets_encrypted;
}

-- INSERT INTO tenant_connectors … ON CONFLICT (tenant_id, connector_id) DO UPDATE
unfoldable pub upsert_connect :
    Text
    → Text
    → Option Text
    → Bool
    → Option Text
    → List TenantConnectorRow
    → List TenantConnectorRow
unfolding upsert
upsert_connect tenant id kind enabled enc rows =
    upsert (λ r. keys_eq (connect_key r) (tenant ∷ id ∷ []))
      (new_connect tenant id kind enabled enc) (change_connect enabled enc) rows

-- A query for one text, scanned into a variable.
abbrev pub scan_into : Text → Bool → Option Text → Text
scan_into old works found = if works then or_empty old found else old

module _ {F : Type 0} where
  abbrev pub is_definition : Text → Text → DefinitionRow F → Bool
  is_definition tenant id d = text_eq d.id id && text_eq d.tenant_id tenant

  abbrev pub kind_of : Option (DefinitionRow F) → Option Text
  kind_of none = none
  kind_of (some d) = some d.kind

  -- COALESCE(title, kind)
  abbrev pub title_of : Option (DefinitionRow F) → Option Text
  title_of none = none
  title_of (some d) = some (or_empty d.kind d.title)

  abbrev pub registry_kind : Option (RegistryRow F) → Option Text
  registry_kind none = none
  registry_kind (some c) = some c.kind

  abbrev pub registry_display : Option (RegistryRow F) → Option Text
  registry_display none = none
  registry_display (some c) = some c.display_name

  abbrev pub find_definition : Text → Text → ConnectorTables F → Option (DefinitionRow F)
  find_definition tenant id t = find (is_definition tenant id) t.definitions

  abbrev pub find_connector : Text → ConnectorTables F → Option (RegistryRow F)
  find_connector id t = find (λ c. text_eq c.id id) t.connectors

  abbrev new_action : Text → Text → ActionRow F
  new_action tenant display = record {
    tenant_id = tenant;
    key = slugify display;
    display_name = some display;
    inputs_schema = some (obj no_fields);
  }

  -- INSERT INTO actions … ON CONFLICT (tenant_id, key) DO NOTHING, its error dropped
  unfoldable pub seed : (Statement → Bool) → Text → Text → ConnectorTables F → ConnectorTables F
  unfolding upsert slugify trim_space
  seed works tenant display t =
      if not (null (trim_space display)) && works seed_action
      then record t {
        actions =
            upsert (λ r. keys_eq (action_row_key r) (tenant ∷ slugify display ∷ []))
              (new_action tenant display) (λ r. r) t.actions;
      }
      else t

  abbrev pub kind_for : (Statement → Bool) → Text → Text → ConnectorTables F → Text
  kind_for works tenant id t =
      let own = scan_into [] (works read_kind) (kind_of (find_definition tenant id t)) in
      if null (trim_space own)
      then scan_into own (works read_registry_kind) (registry_kind (find_connector id t))
      else own

  abbrev pub display_for : (Statement → Bool) → Text → Text → ConnectorTables F → Text
  display_for works tenant id t =
      let own = scan_into [] (works read_display) (title_of (find_definition tenant id t)) in
      if null (trim_space own)
      then scan_into own (works read_registry_display) (registry_display (find_connector id t))
      else own

  -- The column is written only where it is there.
  abbrev pub kind_column : (Statement → Bool) → Text → ConnectorTables F → Option Text
  kind_column works kind t = if works check_kind && t.has_kind then some kind else none

  -- The part behind the encryption of the secrets.
  unfoldable pub store_connector :
      (Statement → Bool)
      → Text
      → Text
      → Bool
      → Option Text
      → ConnectorTables F
      → Answer F × ConnectorTables F
  unfolding upsert_connect seed ok_answer
  store_connector works tenant id enabled enc t =
      if works connect
      then (let t' : ConnectorTables F = record t {
        tenant_connectors =
            upsert_connect tenant id (kind_column works (kind_for works tenant id t) t) enabled enc
              t.tenant_connectors;
      } in
          (
            ok_answer no_fields,
            if enabled then seed works tenant (display_for works tenant id t') t' else t',
          ))
      else (error 500 (codes "db error"), t)

  -- The blob for the column, or none where the body has no secrets.
  unfoldable pub encrypted :
      Cipher F → Text → Result Text → Option (Assoc Text) → Result (Option Text)
  encrypted c key nonce none = ok none
  encrypted c key nonce (some m) = elim (encrypt_json c key nonce (secrets_value (some m))) [
    | err ↦ err
    | ok enc ↦ ok (some enc)
  ]

  -- `putTenantConnector`
  unfoldable pub put_tenant_connector :
      Cipher F
      → Text
      → Result Text
      → (Statement → Bool)
      → Text
      → Text
      → Option ConnectorBody
      → ConnectorTables F
      → Answer F × ConnectorTables F
  unfolding store_connector encrypted
  put_tenant_connector c key nonce works tenant id none t =
      if null id
      then (error 400 (codes "missing connectorId"), t)
      else (error 400 (codes "bad json"), t)
  put_tenant_connector c key nonce works tenant id (some b) t =
      if null id
      then (error 400 (codes "missing connectorId"), t)
      else elim (encrypted c key nonce b.secrets) [
        | err ↦ (error 500 (codes "encrypt"), t)
        | ok enc ↦ store_connector works tenant id b.enabled enc t
      ]
