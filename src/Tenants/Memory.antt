-- ===== src/Tenants/Memory.antt =====
-- The in-memory provider of pkg/tenants/memory.go. `unmarshal` is json.Unmarshal of the seed, whose
-- error is dropped; `env` reads an environment variable. Texts stand for their bytes here.
pub mod Lookup
use lamdis_core.Prelude.{
  ℕ, ◌+◌, Bool, true, false, not, ◌&&◌, Option, none, some, List, [], ◌∷◌, ◌++◌, map, if◌then◌else◌,
  null, length, ltb,
}
use lamdis_core.Text.{Text, codes, text_eq, has_prefix, drop}
use lamdis_core.Text.Maps.{Assoc, lookup, insert}
use lamdis_core.Tenants.{Tenant, ConnectorCreds}

-- An entry of TENANT_SEED_JSON.
pub record SeedEntry : Type 0 where
  pub id : Text
  pub slug : Text
  pub host : Text
  pub oauth_issuer : Text
  pub jwks_url : Text
  pub base_public_url : Text
  pub shopify_domain : Text
  pub shopify_token : Text

-- `memProvider`
pub record Provider : Type 0 where
  pub by_host : Assoc Tenant
  pub creds : Assoc ConnectorCreds

abbrev pub empty_provider : Provider
empty_provider = record { by_host = []; creds = [] }

unfoldable pub creds_key : Text → Text → Text
creds_key tenant_id kind = tenant_id ++ b':' ∷ kind

unfoldable pub tenant_of : SeedEntry → Tenant
tenant_of e = record {
  id = e.id;
  slug = e.slug;
  host = e.host;
  oauth_issuer = e.oauth_issuer;
  jwks_url = e.jwks_url;
  base_public_url = e.base_public_url;
  auth_mode = codes "byoidc";
  discovery_url = [];
  accepted_audiences = [];
  account_claim = codes "sub";
  machine_allowed_scopes = [];
  required_acr_by_action = [];
  dpop_required = false;
}

abbrev pub creds_of : SeedEntry → ConnectorCreds
creds_of e = record { shopify_domain = e.shopify_domain; shopify_token = e.shopify_token }

unfoldable pub add_entry : SeedEntry → Provider → Provider
unfolding insert creds_key tenant_of
add_entry e p = record {
  by_host = insert e.host (tenant_of e) p.by_host;
  creds = insert (creds_key e.id (codes "shopify")) (creds_of e) p.creds;
}

unfoldable pub add_entries : List SeedEntry → Provider → Provider
unfolding add_entry
add_entries [] p = p
add_entries (e ∷ es) p = add_entries es (add_entry e p)

unfoldable pub dev_tenant : (Text → Text) → Text → Tenant
dev_tenant env host = record {
  id = codes "00000000-0000-0000-0000-000000000001";
  slug = codes "dev";
  host = host;
  oauth_issuer = env (codes "OIDC_ISSUER");
  jwks_url = env (codes "JWKS_URL");
  base_public_url = env (codes "BASE_PUBLIC_URL");
  auth_mode = codes "byoidc";
  discovery_url = [];
  accepted_audiences = [];
  account_claim = codes "sub";
  machine_allowed_scopes = [];
  required_acr_by_action = [];
  dpop_required = false;
}

abbrev pub dev_hosts : List Text
dev_hosts =
    codes "localhost:8081"
    ∷ codes "127.0.0.1:8081"
    ∷ codes "host.docker.internal:8081"
    ∷ codes "manifest:8081"
    ∷ codes "localhost:8080"
    ∷ codes "127.0.0.1:8080"
    ∷ codes "host.docker.internal:8080"
    ∷ codes "connector:8080"
    ∷ []

unfoldable pub add_dev_hosts : (Text → Text) → List Text → Assoc Tenant → Assoc Tenant
unfolding insert dev_tenant
add_dev_hosts env [] m = m
add_dev_hosts env (h ∷ hs) m = add_dev_hosts env hs (insert h (dev_tenant env h) m)

-- `NewMemoryProviderFromEnv`
unfoldable pub new_memory_provider : (Text → List SeedEntry) → (Text → Text) → Provider
unfolding add_entries add_dev_hosts
new_memory_provider unmarshal env =
    let seed = env (codes "TENANT_SEED_JSON") in
    if null seed
    then record { by_host = add_dev_hosts env dev_hosts []; creds = [] }
    else add_entries (unmarshal seed) empty_provider

unfoldable pub resolve_tenant_by_host : Provider → Text → Option Tenant
unfolding lookup
resolve_tenant_by_host p host = lookup host p.by_host

-- The order of the list stands for the order in which Go walks the map.
find_id : Text → Assoc Tenant → Option Tenant
find_id id [] = none
find_id id ((h, t) ∷ m) = let rest = find_id id m in if text_eq t.id id then some t else rest

unfoldable pub resolve_tenant_by_id : Provider → Text → Option Tenant
unfolding find_id
resolve_tenant_by_id p id = find_id id p.by_host

unfoldable pub get_connector_creds : Provider → Text → Text → Option ConnectorCreds
unfolding creds_key lookup
get_connector_creds p tenant_id kind = lookup (creds_key tenant_id kind) p.creds

-- The test of one key. The byte behind the tenant is not compared with ':'.
unfoldable pub is_kind_key : Text → Text → Bool
unfolding has_prefix
is_kind_key tenant_id k = ltb (length tenant_id + 1) (length k) && has_prefix tenant_id k

unfoldable pub kinds_of : Text → Assoc ConnectorCreds → List Text
unfolding is_kind_key drop
kinds_of tenant_id [] = []
kinds_of tenant_id ((k, c) ∷ m) =
    let rest = kinds_of tenant_id m in
    if is_kind_key tenant_id k then drop (length tenant_id + 1) k ∷ rest else rest

unfoldable pub list_tenant_connector_kinds : Provider → Text → List Text
unfolding kinds_of
list_tenant_connector_kinds p tenant_id = kinds_of tenant_id p.creds
