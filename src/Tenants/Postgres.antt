-- ===== src/Tenants/Postgres.antt =====
-- The Postgres provider of pkg/tenants/postgres.go. A query that fails and one with no row are answered
-- alike; `works` tells whether it works. `write` prints a JSON value that is no text, for ->>.
pub mod Seeding
pub mod Laws
use lamdis_core.Prelude.{
  Bool, true, false, not, ◌&&◌, ◌||◌, Option, none, some, List, [], ◌∷◌, ◌++◌, Result, ok, err,
  ◌>>=◌, if◌then◌else◌, null, find, map, filter_by,
}
use lamdis_core.Text.{Text, codes, text_eq}
use lamdis_core.Text.Maps.{Assoc}
use lamdis_core.Json.{Value, nil, str, obj, Fields, no_fields, field, get_in, as_map}
use lamdis_core.Facts.Resolve.{or_empty}
use lamdis_core.Store.{TenantRow, DefinitionRow}
use lamdis_core.Tenants.{Tenant, ConnectorCreds}

-- column = $n, which a NULL is not
abbrev pub is_text : Option Text → Text → Bool
is_text none s = false
is_text (some t) s = text_eq t s

-- rows.Scan into a value that cannot be NULL
abbrev pub present {ℓ} : {A : Type ℓ} → Option A → Result A
present none = err
present (some a) = ok a

module _ {F : Type 0} where
  -- json.Unmarshal into map[string]string: a value that is no text is left empty
  unfoldable pub text_entries : Fields F → Assoc Text
  text_entries no_fields = []
  text_entries (field k (str s) m) = (k, s) ∷ text_entries m
  text_entries (field k v m) = (k, []) ∷ text_entries m

  abbrev pub acr_of : Option (Value F) → Assoc Text
  acr_of (some (obj m)) = text_entries m
  acr_of _ = []

  unfoldable pub scan_tenant : TenantRow F → Result Tenant
  unfolding text_entries
  scan_tenant r = present r.slug >>= λ slug. present r.host >>= λ host.
      present r.oauth_issuer >>= λ oauth_issuer. present r.auth_mode >>= λ auth_mode.
      present r.dpop_required >>= λ dpop_required. ok (record {
        id = r.id;
        slug = slug;
        host = host;
        oauth_issuer = oauth_issuer;
        jwks_url = or_empty [] r.jwks_url;
        base_public_url = or_empty [] r.base_public_url;
        auth_mode = auth_mode;
        discovery_url = or_empty [] r.discovery_url;
        accepted_audiences = or_empty [] r.accepted_audiences;
        account_claim = or_empty (codes "sub") r.account_claim;
        machine_allowed_scopes = or_empty [] r.machine_allowed_scopes;
        required_acr_by_action = acr_of r.required_acr_by_action;
        dpop_required = dpop_required;
      })

  scan_found : Option (TenantRow F) → Result Tenant
  unfolding scan_tenant
  scan_found none = err
  scan_found (some r) = scan_tenant r

  -- `ResolveTenantByHost`
  unfoldable pub resolve_tenant_by_host : Bool → List (TenantRow F) → Text → Result Tenant
  unfolding scan_found
  resolve_tenant_by_host works rows host =
      if works then scan_found (find (λ r. is_text r.host host) rows) else err

  -- `ResolveTenantByID`
  unfoldable pub resolve_tenant_by_id : Bool → List (TenantRow F) → Text → Result Tenant
  unfolding scan_found
  resolve_tenant_by_id works rows id =
      if works then scan_found (find (λ r. text_eq r.id id) rows) else err

  -- A value as ->> gives it, with '' for null.
  unfoldable pub shown : (Value F → Text) → Value F → Text
  shown write nil = []
  shown write (str s) = s
  shown write v = write v

  -- COALESCE(column->>'key','')
  unfoldable pub text_at : (Value F → Text) → Text → Option (Value F) → Text
  unfolding shown
  text_at write key column = elim (get_in key (as_map (or_empty nil column))) [
    | none ↦ []
    | some v ↦ shown write v
  ]

  creds_found : (Value F → Text) → Option (DefinitionRow F) → Result ConnectorCreds
  unfolding text_at
  creds_found write none = err
  creds_found write (some d) = ok (record {
    shopify_domain = text_at write (codes "domain") d.config;
    shopify_token = text_at write (codes "token") d.secret;
  })

  abbrev pub is_kind : Text → Text → DefinitionRow F → Bool
  is_kind tenant kind d = text_eq d.tenant_id tenant && text_eq d.kind kind

  -- `GetConnectorCreds`
  unfoldable pub get_connector_creds :
      (Value F → Text) → Bool → List (DefinitionRow F) → Text → Text → Result ConnectorCreds
  unfolding creds_found
  get_connector_creds write works defs tenant kind =
      if works then creds_found write (find (is_kind tenant kind) defs) else err

  -- `ListTenantConnectorKinds`
  unfoldable pub list_tenant_connector_kinds :
      Bool → List (DefinitionRow F) → Text → Result (List Text)
  list_tenant_connector_kinds works defs tenant =
      if works
      then ok (map (λ d. d.kind) (filter_by (λ d. text_eq d.tenant_id tenant) defs))
      else err
