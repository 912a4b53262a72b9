-- ===== src/Admin/Connectors/Custom.antt =====
-- The tenant's own connectors: `createCustomConnector` of internal/adminapi/handlers_connectors.go, and what
-- it shares with `updateCustomConnector`. `ids` are the identifiers that uuidNew gives for operations.
use lamdis_core.Prelude.{
  ℕ, suc, Bool, true, false, not, ◌&&◌, ◌||◌, Option, none, some, List, [], ◌∷◌, ◌++◌,
  if◌then◌else◌, null, any,
}
use lamdis_core.Text.{Text, codes, text_eq, trim_space, to_upper}
use lamdis_core.Json.{bool, str, obj, Items, Fields, no_fields, field}
use lamdis_core.Facts.Resolve.{or_empty}
use lamdis_core.Store.{DefinitionRow, OperationRow}
use lamdis_core.Admin.Policies.{Answer, error, json}
use lamdis_core.Admin.AuthConfigs.{null_if_empty}
use lamdis_core.Admin.Actions.{map_param}
use lamdis_core.Admin.Actions.Resolvers.{slice_param}
use lamdis_core.Admin.Connectors.{
  ConnectorTables, Statement, read_kind, connect, insert_definition, insert_operation, scan_into,
  kind_of, find_definition, seed, kind_column, upsert_connect,
}

-- An element of `operations` or `actions`; its title is not stored.
pub record OperationBody (F : Type 0) : Type 0 where
  pub method : Text
  pub path : Text
  pub summary : Text
  pub scopes : Option (List Text)
  pub params : Option (Items F)
  pub request_tmpl : Option (Fields F)
  pub enabled : Option Bool

-- `CustomConnectorBody`; its `id` is not read
pub record CustomConnectorBody (F : Type 0) : Type 0 where
  pub display : Text
  pub title : Text
  pub summary : Text
  pub base_url : Text
  pub auth_ref : Option Text
  pub enabled : Option Bool
  pub operations : List (OperationBody F)
  pub actions : List (OperationBody F)

module _ {F : Type 0} where
  -- Actions are preferred to operations.
  abbrev pub listed : CustomConnectorBody F → List (OperationBody F)
  listed b = if null b.actions then b.operations else b.actions

  abbrev pub operation_row : Text → Text → OperationBody F → OperationRow F
  operation_row id connector op = record {
    id = id;
    connector_id = connector;
    method = to_upper op.method;
    path = op.path;
    summary = op.summary;
    scopes = op.scopes;
    request_tmpl = map_param op.request_tmpl;
    params = slice_param op.params;
    enabled = some (or_empty true op.enabled);
  }

  -- The loop over the list: an INSERT that fails is passed over. A connector that is not there fails the
  -- foreign key of each.
  unfoldable pub insert_operations :
      (Statement → Bool)
      → (ℕ → Text)
      → Text
      → Bool
      → ℕ
      → List (OperationBody F)
      → List (OperationRow F)
      → List (OperationRow F)
  unfolding to_upper
  insert_operations works ids connector known i [] rows = rows
  insert_operations works ids connector known i (op ∷ ops) rows =
      insert_operations works ids connector known (suc i) ops (
        if known && works (insert_operation i)
        then rows ++ operation_row (ids i) connector op ∷ []
        else rows)

  abbrev pub is_known : Text → ConnectorTables F → Bool
  is_known id t = any (λ d. text_eq d.id id) t.definitions

  abbrev pub new_definition : Text → Text → CustomConnectorBody F → DefinitionRow F
  new_definition id tenant b = record {
    id = id;
    tenant_id = tenant;
    kind = b.display;
    builtin_kind = some [];
    auth = some (obj no_fields);
    config = some (obj no_fields);
    secret = some (obj no_fields);
    base_url = some b.base_url;
    auth_ref = b.auth_ref;
    title = null_if_empty b.title;
    summary = null_if_empty b.summary;
  }

  -- The primary key, and UNIQUE (tenant_id, kind)
  abbrev pub definition_taken : Text → Text → Text → ConnectorTables F → Bool
  definition_taken id tenant kind t =
      any (λ d. text_eq d.id id || (text_eq d.tenant_id tenant && text_eq d.kind kind))
        t.definitions

  -- The connector's row in tenant_connectors, its error dropped.
  unfoldable pub switch_connector :
      (Statement → Bool) → Text → Text → Bool → ConnectorTables F → ConnectorTables F
  unfolding upsert_connect
  switch_connector works tenant id enabled t =
      let kind = scan_into [] (works read_kind) (kind_of (find_definition tenant id t)) in
      if works connect
      then record t {
        tenant_connectors =
            upsert_connect tenant id (kind_column works kind t) enabled none t.tenant_connectors;
      }
      else t

  -- The title, or else the display name of the body.
  abbrev pub body_display : CustomConnectorBody F → Text
  body_display b =
      let title = trim_space b.title in if null title then trim_space b.display else title

  -- The part of the creation behind the definition.
  unfoldable pub create_rest :
      (Statement → Bool)
      → (ℕ → Text)
      → Text
      → Text
      → CustomConnectorBody F
      → ConnectorTables F
      → ConnectorTables F
  unfolding insert_operations switch_connector seed
  create_rest works ids id tenant b t =
      let t' : ConnectorTables F = record t {
        operations = insert_operations works ids id (is_known id t) 0 (listed b) t.operations;
      } in
      if or_empty false b.enabled
      then seed works tenant (body_display b) (switch_connector works tenant id true t')
      else t'

  -- `createCustomConnector`
  unfoldable pub create_custom_connector :
      (Statement → Bool)
      → (ℕ → Text)
      → Text
      → Text
      → Option (CustomConnectorBody F)
      → ConnectorTables F
      → Answer F × ConnectorTables F
  unfolding create_rest null_if_empty
  create_custom_connector works ids id tenant none t = (error 400 (codes "bad json"), t)
  create_custom_connector works ids id tenant (some b) t =
      if null b.display || null b.base_url
      then (error 400 (codes "missing fields"), t)
      else if not (works insert_definition) || definition_taken id tenant b.display t
      then (error 500 (codes "db error"), t)
      else (
        json 201 (field (codes "ok") (bool true) (field (codes "id") (str id) no_fields)),
        create_rest works ids id tenant b
            (record t { definitions = t.definitions ++ new_definition id tenant b ∷ [] }),
      )
