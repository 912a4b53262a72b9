-- ===== src/Connectors/Registry.antt =====
-- `Registry` of pkg/connectors/registry.go. With no database pool there are sample operations.
pub mod Loading
pub mod Settling
use lamdis_core.Prelude.{
  ℕ, ◌+◌, ◌-◌, Bool, true, false, not, ◌&&◌, Option, none, some, List, [], ◌∷◌, ◌++◌, map, Result,
  ok, err, if◌then◌else◌, null, ltb, filter_by,
}
use lamdis_core.Text.{Text, codes, text_eq}
use lamdis_core.Text.Maps.{Assoc, lookup, insert}
use lamdis_core.Json.{Value, arr, no_items, Fields, as_maps, as_map}
use lamdis_core.Facts.Resolve.{or_empty}
use lamdis_core.Store.{OperationRow, DefinitionRow, TenantConnectorRow, JoinedRow, join}

-- `operationRow`
pub record Operation (F : Type 0) : Type 0 where
  pub method : Text
  pub path : Text
  pub summary : Text
  pub scopes : List Text
  pub params : List (Option (Fields F))
  pub base_url : Option Text
  pub auth_ref : Option Text
  pub kind : Option Text

-- The tables that the query reads.
pub record Tables (F : Type 0) : Type 0 where
  pub operations : List (OperationRow F)
  pub definitions : List (DefinitionRow F)
  pub tenant_connectors : List TenantConnectorRow

-- `byTenant`: when the operations of a tenant were loaded, and the operations
abbrev pub Cache : Type 0 → Type 0
Cache F = Assoc (ℕ × List (Operation F))

-- 30 * time.Second, in nanoseconds
abbrev pub cache_ttl : ℕ
cache_ttl = 30_000_000_000

-- The join with tenant_connectors: a row of the tenant that enables the connector.
unfoldable pub is_enabled_for : {F : Type 0} → Text → DefinitionRow F → TenantConnectorRow → Bool
is_enabled_for tenant d tc =
    text_eq tc.connector_id d.id && text_eq tc.tenant_id tenant && or_empty false tc.enabled

module _ {F : Type 0} where
  abbrev sample : Text → Text → Text → Text → Operation F
  sample method path summary scope = record {
    method = method;
    path = path;
    summary = summary;
    scopes = scope ∷ [];
    params = [];
    base_url = none;
    auth_ref = none;
    kind = some (codes "sample");
  }

  abbrev pub sample_operations : List (Operation F)
  sample_operations =
      sample (codes "GET") (codes "/v1/dev/ping") (codes "Ping test endpoint") (codes "dev:read")
      ∷ sample (codes "POST") (codes "/v1/dev/echo") (codes "Echo posted payload")
          (codes "dev:write")
      ∷ sample (codes "GET") (codes "/v1/dev/orders/{id}") (codes "Fetch mock order by id")
          (codes "order:read")
      ∷ []

  -- One row of the query, as it is scanned.
  unfoldable pub scan_operation : JoinedRow F → Operation F
  scan_operation (o, d) = record {
    method = o.method;
    path = o.path;
    summary = o.summary;
    scopes = or_empty [] o.scopes;
    params = as_maps (or_empty (arr no_items) o.params);
    base_url = d.base_url;
    auth_ref = d.auth_ref;
    kind = some d.kind;
  }

  unfoldable pub enabled_rows :
      Text → List TenantConnectorRow → List (JoinedRow F) → List (JoinedRow F)
  unfolding is_enabled_for
  enabled_rows tenant tcs [] = []
  enabled_rows tenant tcs ((o, d) ∷ rows) =
      let rest = enabled_rows tenant tcs rows in
      if text_eq d.tenant_id tenant
      then map (λ tc. (o, d)) (filter_by (is_enabled_for tenant d) tcs) ++ rest
      else rest

  unfoldable pub query_operations : Text → Tables F → List (Operation F)
  unfolding enabled_rows scan_operation join
  query_operations tenant db =
      map scan_operation
        (enabled_rows tenant db.tenant_connectors (join db.operations db.definitions))

  unfoldable pub fresh_entry : ℕ → Option (ℕ × List (Operation F)) → Option (List (Operation F))
  fresh_entry now none = none
  fresh_entry now (some (loaded, ops)) = if ltb (now - loaded) cache_ttl then some ops else none

  -- The check under the read lock, which both paths make.
  unfoldable pub read_cached : Text → ℕ → Cache F → Option (List (Operation F))
  unfolding fresh_entry lookup
  read_cached tenant now cache = fresh_entry now (lookup tenant cache)

  -- The way past the cache: the sample operations with no pool, else the query.
  unfoldable pub fetch_operations : Option (Result (Tables F)) → Text → Result (List (Operation F))
  unfolding query_operations
  fetch_operations none tenant = ok sample_operations
  fetch_operations (some err) tenant = err
  fetch_operations (some (ok db)) tenant = ok (query_operations tenant db)

  unfoldable pub store_fetched :
      Text → ℕ → Cache F → Result (List (Operation F)) → Result (List (Operation F)) × Cache F
  store_fetched tenant now cache err = (err, cache)
  store_fetched tenant now cache (ok ops) = (ok ops, insert tenant (now, ops) cache)

  -- `LoadOperations`: with no pool, with one whose query fails, or with the tables.
  unfoldable pub load_operations :
      Option (Result (Tables F)) → Text → ℕ → Cache F → Result (List (Operation F)) × Cache F
  load_operations db tenant now cache = elim (read_cached tenant now cache) [
    | some ops ↦ (ok ops, cache)
    | none ↦ store_fetched tenant now cache (fetch_operations db tenant)
  ]

-- A row of tenant_connectors for `ListTenantConnectors`: kind, config and secret.
pub record ConnectorRecord (F : Type 0) : Type 0 where
  pub tenant_id : Text
  pub kind : Text
  pub builtin_kind : Text
  pub config_json : Option (Fields F)
  pub secret_json : Option (Fields F)

unfoldable pub list_tenant_connectors :
    {F : Type 0}
    → Text
    → Result (List (Text × Text × Value F × Value F))
    → Result (List (ConnectorRecord F))
list_tenant_connectors tenant err = err
list_tenant_connectors tenant (ok rows) = ok (
    map
      (λ (t, kind, config, secret). record {
        tenant_id = tenant;
        kind = kind;
        builtin_kind = kind;
        config_json = as_map config;
        secret_json = as_map secret;
      })
      (filter_by (λ r. text_eq r.0 tenant) rows))

-- `InstantiateBuiltin` over the registered factories.
unfoldable pub instantiate_builtin :
    {F B : Type 0}
    → Assoc (Option (Fields F) → Option (Fields F) → Result B)
    → ConnectorRecord F
    → Result B
unfolding lookup
instantiate_builtin factories rec =
    if null rec.builtin_kind then err else elim (lookup rec.builtin_kind factories) [
      | none ↦ err
      | some f ↦ f rec.config_json rec.secret_json
    ]
