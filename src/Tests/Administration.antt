-- ===== src/Tests/Administration.antt =====
-- Runs of the administration of connectors and tenants, and of its middleware.
use lamdis_core.Prelude.{
  ℕ, ◌≡◌, ◌⊎◌, ◌↔◌, refl, Bool, true, false, Option, none, some, [], ◌∷◌, ok, err, Memᴰ, null, any,
  if◌then◌else◌, map,
}
use lamdis_core.Text.{
  Text, codes, text_eq, trim_space, to_upper, to_lower, has_prefix, drop, cut, trim, contains,
  split,
}
use lamdis_core.Slug.{slug, derive_short}
use lamdis_core.Json.{no_fields}
use lamdis_core.Store.{TenantRow, join, OperationRow}
use lamdis_core.Store.Table.{keys_eq}
use lamdis_core.Orchestrator.Select.{select_operation, tenant_rows}
use lamdis_core.Connectors.Registry.{query_operations, is_enabled_for}
use lamdis_core.Tenants.{Tenant}
use lamdis_core.Tenants.Postgres.{resolve_tenant_by_host, resolve_tenant_by_id, scan_tenant}
use lamdis_core.Tenants.Postgres.Laws.{resolve_tenant_by_host-by_id}
use lamdis_core.Middleware.Scope.{next, text}
use lamdis_core.Admin.Policies.{ok_answer}
use lamdis_core.Admin.Access.{
  AdminToken, AdminRequest, admin_auth, cors, cors_headers, check_role, token_tenant, tenant_id_for,
  resolve_tenant,
}
use lamdis_core.Admin.Access.Guards.{Entitled, admin_auth_sound, cors_iff}
use lamdis_core.Admin.Connectors.{
  ConnectorTables, Statement, ConnectorBody, put_tenant_connector, encrypted,
}
use lamdis_core.Admin.Connectors.Custom.{
  OperationBody, CustomConnectorBody, operation_row, insert_operations,
}
use lamdis_core.Admin.Connectors.Update.{update_custom_connector, replace_operations}
use lamdis_core.Admin.Connectors.Switch.{put_connector_action}
use lamdis_core.Admin.Connectors.Enabled.{
  switched, registry_tables, put_connector_action-chosen, query_operations-put_connector_action,
}
use lamdis_core.Admin.Connectors.Ownership.{
  FromBody, put_connector_action_isolated, update_custom_connector_foreign,
}
use lamdis_core.Admin.Connectors.Service.{put_tenant_connector-enabled}
use lamdis_core.Tests.Data.{shop, orders_operation, store_definition}
use lamdis_core.Tests.Secrets.{cipher}

abbrev cancel_operation : OperationRow ℕ
cancel_operation = record orders_operation { id = codes "o2"; path = codes "/cancel" }

abbrev tables : ConnectorTables ℕ
tables = record {
  definitions = store_definition ∷ [];
  operations = orders_operation ∷ cancel_operation ∷ [];
  tenant_connectors = [];
  connectors = [];
  actions = [];
  has_kind = false;
}

abbrev works : Statement → Bool
works s = true

abbrev ids : ℕ → Text
ids n = n ∷ []

still_chosen :
    select_operation (codes "store.cancel") (
      tenant_rows shop
        (switched shop (codes "c1") (codes "o1") false tables).operations
        (switched shop (codes "c1") (codes "o1") false tables).definitions)
    ≡ some (record cancel_operation { enabled = some true }, store_definition)
unfolding select_operation tenant_rows join put_connector_action text_eq cut slug derive_short trim
    trim_space to_lower contains split
still_chosen = refl

put_connector_action-chosen_example : text_eq cancel_operation.id (codes "o1") ≡ false
put_connector_action-chosen_example =
    put_connector_action-chosen shop (codes "c1") (codes "o1") tables shop (codes "store.cancel")
      (cancel_operation, store_definition) refl refl (unfold join text_eq in refl) still_chosen

query_operations-put_connector_action_example :
    query_operations shop (
      registry_tables
        (put_connector_action true true shop (codes "c1") (codes "o1") (some false) tables).1)
    ≡ query_operations shop (registry_tables tables)
query_operations-put_connector_action_example =
    query_operations-put_connector_action true true shop (codes "c1") (codes "o1") (some false)
      tables shop

put_connector_action_isolated_example :
    Memᴰ orders_operation
      (put_connector_action true true
        (codes "other")
        (codes "c1")
        (codes "o1")
        (some false)
        tables).1.operations
put_connector_action_isolated_example =
    put_connector_action_isolated true true (codes "other") (codes "c1") (codes "o1") (some false)
      tables (orders_operation, store_definition) (unfold keys_eq text_eq in (refl, (refl, tt)))
      (refl, tt) (unfold join text_eq in Memᴰ.head refl) (λ h. cc)

abbrev ping : OperationBody ℕ
ping = record {
  method = codes "get";
  path = codes "/ping";
  summary = [];
  scopes = none;
  params = none;
  request_tmpl = none;
  enabled = none;
}

abbrev overwrite : CustomConnectorBody ℕ
overwrite = record {
  display = codes "Mine";
  title = [];
  summary = [];
  base_url = [];
  auth_ref = none;
  enabled = none;
  operations = ping ∷ [];
  actions = [];
}

update_custom_connector_foreign_example :
    ((update_custom_connector works ids (codes "other") (codes "c1") (some overwrite) tables).0
      ≡ ok_answer no_fields)
    × FromBody ids (codes "c1") overwrite (operation_row (ids 0) (codes "c1") ping)
update_custom_connector_foreign_example =
    update_custom_connector_foreign works ids (codes "other") (codes "c1") overwrite tables
      (operation_row (ids 0) (codes "c1") ping) (unfold text_eq in refl) refl refl refl
      (unfold update_custom_connector replace_operations insert_operations text_eq trim_space
          to_upper in
        Memᴰ.head refl)
      (unfold text_eq in refl)

abbrev switch_on : ConnectorBody
switch_on = record { enabled = true; secrets = none }

put_tenant_connector-enabled_example :
    ((put_tenant_connector cipher
        (codes "key")
        err
        works
        shop
        (codes "c1")
        (some switch_on)
        tables).0
      ≡ ok_answer no_fields)
    × (any
          (is_enabled_for shop store_definition)
          (put_tenant_connector cipher
            (codes "key")
            err
            works
            shop
            (codes "c1")
            (some switch_on)
            tables).1.tenant_connectors
        ≡ (if keys_eq (shop ∷ codes "c1" ∷ []) (shop ∷ codes "c1" ∷ [])
            then true
            else any (is_enabled_for shop store_definition) []))
put_tenant_connector-enabled_example =
    put_tenant_connector-enabled cipher (codes "key") err works shop (codes "c1") shop switch_on
      none store_definition tables refl (unfold encrypted in refl) refl tt

abbrev shop_row : TenantRow ℕ
shop_row = record {
  id = shop;
  slug = some (codes "shop");
  host = some (codes "shop.test");
  oauth_issuer = some [];
  jwks_url = none;
  base_public_url = none;
  auth_mode = some (codes "byoidc");
  discovery_url = none;
  accepted_audiences = none;
  account_claim = some (codes "sub");
  machine_allowed_scopes = none;
  required_acr_by_action = none;
  dpop_required = some false;
  client_id_user = none;
  client_id_machine = none;
}

abbrev shop_tenant : Tenant
shop_tenant = record {
  id = shop;
  slug = codes "shop";
  host = codes "shop.test";
  oauth_issuer = [];
  jwks_url = [];
  base_public_url = [];
  auth_mode = codes "byoidc";
  discovery_url = [];
  accepted_audiences = [];
  account_claim = codes "sub";
  machine_allowed_scopes = [];
  required_acr_by_action = [];
  dpop_required = false;
}

resolve_tenant_by_host-by_id_example :
    (shop_tenant.host ≡ codes "shop.test")
    × (resolve_tenant_by_id true (shop_row ∷ []) shop ≡ ok shop_tenant)
resolve_tenant_by_host-by_id_example =
    resolve_tenant_by_host-by_id (shop_row ∷ []) (codes "shop.test") shop_tenant (refl, tt)
      (unfold resolve_tenant_by_host scan_tenant text_eq in refl)

abbrev admin_token : AdminToken ℕ
admin_token = record { role = some (text (codes "tenant_admin")); tid = none }

abbrev verify : ℕ → Text → Option (AdminToken ℕ)
verify keys raw = some admin_token

abbrev print : ℕ → Text
print n = n ∷ []

abbrev is_uuid : Text → Bool
is_uuid s = false

abbrev request : AdminRequest
request = record {
  method = codes "GET";
  authorization = codes "Bearer x";
  tenant_header = codes "shop.test";
}

admin_passes : admin_auth is_uuid true (shop_row ∷ []) print verify (some 1) request ≡ next shop
unfolding admin_auth check_role token_tenant tenant_id_for resolve_tenant text_eq trim_space
    to_lower has_prefix drop
admin_passes = refl

admin_auth_sound_example : Entitled is_uuid true (shop_row ∷ []) print verify 1 request shop
admin_auth_sound_example =
    admin_auth_sound is_uuid true (shop_row ∷ []) print verify 1 request shop admin_passes

cors_iff_example :
    (((a : Text) × ((cors (codes " * " ∷ []) (codes "https://ui") (codes "GET")).headers
          ≡ cors_headers a))
      ↔ ((null (codes "https://ui") ≡ false)
          × ((e : Text) × Memᴰ e (map trim_space (codes " * " ∷ []))
              × ((e ≡ codes "*") ⊎ (e ≡ codes "https://ui")))))
    × (((cors (codes " * " ∷ []) (codes "https://ui") (codes "GET")).headers ≡ [])
        ⊎ ((a : Text) × ((cors (codes " * " ∷ []) (codes "https://ui") (codes "GET")).headers
              ≡ cors_headers a)
            × ((a ≡ codes "*") ⊎ (a ≡ codes "https://ui"))))
cors_iff_example = cors_iff (codes " * " ∷ []) (codes "https://ui") (codes "GET")
