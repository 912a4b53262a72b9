-- ===== src/Tenants/Postgres/Seeding.antt =====
-- `SeedFromEnv` of pkg/tenants/postgres.go. `works` tells which statements meet no error but those of the
-- constraints, which are written out; the errors are dropped. `ids` are the identifiers that uuid.New gives.
use lamdis_core.Prelude.{
  ℕ, ◌+◌, Bool, true, false, not, ◌&&◌, ◌||◌, Option, none, some, List, [], ◌∷◌, ◌++◌, Result, ok,
  err, if◌then◌else◌, null, find, any,
}
use lamdis_core.Text.{Text, codes, text_eq}
use lamdis_core.Json.{Value, str, obj, no_fields, field}
use lamdis_core.Store.{TenantRow, DefinitionRow, OperationRow}
use lamdis_core.Store.Table.{keys_eq, upsert}
use lamdis_core.Tenants.Memory.{SeedEntry}
use lamdis_core.Tenants.Postgres.{is_kind, is_text}

pub record SeedTables (F : Type 0) : Type 0 where
  pub tenants : List (TenantRow F)
  pub definitions : List (DefinitionRow F)
  pub operations : List (OperationRow F)

-- The statements for an entry.
pub data SeedStatement : Type 0 where
  seed_tenant find_shopify seed_definition seed_checkout seed_refund : SeedStatement

abbrev pub shopify : Text
shopify = codes "shopify"

module _ {F : Type 0} where
  abbrev pub tenant_key : TenantRow F → List Text
  tenant_key r = r.id ∷ []

  -- A new row has the defaults of its columns.
  abbrev pub new_tenant : SeedEntry → TenantRow F
  new_tenant e = record {
    id = e.id;
    slug = some e.slug;
    host = some e.host;
    oauth_issuer = some e.oauth_issuer;
    jwks_url = some e.jwks_url;
    base_public_url = some e.base_public_url;
    auth_mode = some (codes "byoidc");
    discovery_url = none;
    accepted_audiences = some [];
    account_claim = some (codes "sub");
    machine_allowed_scopes = some [];
    required_acr_by_action = some (obj no_fields);
    dpop_required = some false;
    client_id_user = none;
    client_id_machine = none;
  }

  abbrev pub change_tenant : SeedEntry → TenantRow F → TenantRow F
  change_tenant e r = record r {
    slug = some e.slug;
    host = some e.host;
    oauth_issuer = some e.oauth_issuer;
    jwks_url = some e.jwks_url;
    base_public_url = some e.base_public_url;
  }

  abbrev text_object : Text → Text → Value F
  text_object k s = obj (field k (str s) no_fields)

  abbrev pub shopify_definition : Text → SeedEntry → DefinitionRow F
  shopify_definition id e = record {
    id = id;
    tenant_id = e.id;
    kind = shopify;
    builtin_kind = some shopify;
    auth = some (text_object (codes "type") (codes "none"));
    config = some (text_object (codes "domain") e.shopify_domain);
    secret = some (text_object (codes "token") e.shopify_token);
    base_url = none;
    auth_ref = none;
    title = none;
    summary = none;
  }

  -- Its `enabled` has the column's default.
  abbrev shopify_operation : Text → Text → Text → Text → Text → OperationRow F
  shopify_operation id connector path summary scope = record {
    id = id;
    connector_id = connector;
    method = codes "POST";
    path = path;
    summary = summary;
    scopes = some (scope ∷ []);
    request_tmpl = none;
    params = none;
    enabled = some true;
  }

  abbrev pub checkout : Text → Text → OperationRow F
  checkout id connector =
      shopify_operation id connector (codes "/v1/checkout-link") (codes "Create checkout link")
        (codes "order:write")

  abbrev pub refund : Text → Text → OperationRow F
  refund id connector =
      shopify_operation id connector (codes "/v1/orders/{id}/refund") (codes "Refund order")
        (codes "refund:write")

  -- INSERT … ON CONFLICT DO NOTHING: a row of a new id, whose connector must be there
  abbrev pub add_operation :
      Bool → List (DefinitionRow F) → OperationRow F → List (OperationRow F) → List (OperationRow F)
  add_operation works defs o rows =
      if works
        && any (λ d. text_eq d.id o.connector_id) defs
        && not (any (λ x. text_eq x.id o.id) rows)
      then rows ++ o ∷ []
      else rows

  -- UNIQUE (slug) and UNIQUE (host), against the tenants of other identifiers
  abbrev pub is_rival : SeedEntry → TenantRow F → Bool
  is_rival e r = not (text_eq r.id e.id) && (is_text r.slug e.slug || is_text r.host e.host)

  abbrev with_tenant : Bool → SeedEntry → SeedTables F → SeedTables F
  with_tenant works e t =
      if works && not (any (is_rival e) t.tenants)
      then record t {
        tenants =
            upsert (λ r. keys_eq (tenant_key r) (e.id ∷ [])) (new_tenant e) (change_tenant e)
              t.tenants;
      }
      else t

  with_operations : (SeedStatement → Bool) → (ℕ → Text) → ℕ → Text → SeedTables F → SeedTables F
  with_operations works ids i connector t = record t {
    operations = add_operation (works seed_refund) t.definitions (refund (ids (i + 2)) connector) (
        add_operation (works seed_checkout) t.definitions (checkout (ids (i + 1)) connector)
          t.operations);
  }

  -- The definition that is there is kept as it is. A new one needs its tenant, and a kind that the tenant
  -- has not.
  with_definition :
      (SeedStatement → Bool)
      → (ℕ → Text)
      → ℕ
      → SeedEntry
      → SeedTables F
      → Option (DefinitionRow F)
      → SeedTables F
  unfolding with_operations
  with_definition works ids i e t (some d) = with_operations works ids i d.id t
  with_definition works ids i e t none = with_operations works ids i (ids i) (
      if works seed_definition
        && any (λ r. text_eq r.id e.id) t.tenants
        && not (any (λ d. text_eq d.id (ids i) || is_kind e.id shopify d) t.definitions)
      then record t { definitions = t.definitions ++ shopify_definition (ids i) e ∷ [] }
      else t)

  unfoldable pub seed_entry :
      (SeedStatement → Bool) → (ℕ → Text) → ℕ → SeedEntry → SeedTables F → SeedTables F
  unfolding with_definition upsert
  seed_entry works ids i e t =
      let t' = with_tenant (works seed_tenant) e t in
      with_definition works ids i e t'
        (if works find_shopify then find (is_kind e.id shopify) t'.definitions else none)

  -- Each entry uses up to three new identifiers.
  unfoldable pub seed_entries :
      (SeedStatement → Bool) → (ℕ → Text) → ℕ → List SeedEntry → SeedTables F → SeedTables F
  unfolding seed_entry
  seed_entries works ids i [] t = t
  seed_entries works ids i (e ∷ es) t =
      seed_entries works ids (i + 3) es (seed_entry works ids i e t)

  -- `SeedFromEnv`, over what json.Unmarshal makes of the text
  unfoldable pub seed_from_env :
      (Text → Result (List SeedEntry))
      → (SeedStatement → Bool)
      → (ℕ → Text)
      → Text
      → SeedTables F
      → Result (SeedTables F)
  unfolding seed_entries
  seed_from_env unmarshal works ids json t = if null json then ok t else elim (unmarshal json) [
    | err ↦ err
    | ok entries ↦ ok (seed_entries works ids 0 entries t)
  ]
