-- ===== src/Manifest.antt =====
-- `BuildManifest` of internal/manifest/service.go: the actions that a tenant offers to agents.
pub mod Keys
use lamdis_core.Prelude.{
  ℕ, Bool, true, false, not, Option, none, some, List, [], ◌∷◌, ◌++◌, map, Result, ok, err,
  if◌then◌else◌, null,
}
use lamdis_core.Text.{Text, codes}
use lamdis_core.Text.Maps.{Assoc}
use lamdis_core.Json.{Value, bool, str, arr, obj, no_items, item, Fields, no_fields, field}
use lamdis_core.Slug.{normalize_kind, derive_name, split_camel, dash_runs}
use lamdis_core.Problems.{problem_type}
use lamdis_core.Tenants.{Tenant}
use lamdis_core.Connectors.Registry.{
  Operation, Tables, Cache, load_operations, read_cached, fetch_operations, store_fetched,
}

pub record Oauth : Type 0 where
  pub authorization_url : Text
  pub token_url : Text
  pub scopes : List Text

pub record Action (F : Type 0) : Type 0 where
  pub path : Text
  pub method : Text
  pub scope : Text
  pub summary : Text
  pub title : Text
  pub params : List (Option (Fields F))
  pub requires_preflight : Bool
  pub flow : Fields F
  pub key : Text
  pub display_name : Text
  pub preflight_endpoint : Text
  pub execute_endpoint : Text
  pub execution_requires_decision : Bool
  pub inputs_schema : Fields F
  pub needs_contract : Bool
  pub alternatives_supported : List Text
  pub problem_types : Assoc Text

pub record Manifest (F : Type 0) : Type 0 where
  pub version : Text
  pub base_url : Text
  pub oauth : Oauth
  pub actions : List (Action F)
  pub namespace : Text

-- The tenant's slug, or its id.
unfoldable pub tenant_namespace : Tenant → Text
tenant_namespace t = if null t.slug then t.id else t.slug

-- The connector's kind as a slug, where that is not empty, before the tenant's namespace.
unfoldable pub namespace_of : Text → Option Text → Text
namespace_of ns none = ns
namespace_of ns (some kind) =
    let k = normalize_kind kind in if null kind then ns else if null k then ns else k

unfoldable pub action_key : Text → Option Text → Text → Text
action_key ns kind path = namespace_of ns kind ++ b'.' ∷ derive_name path

unfoldable pub first_scope : List Text → Text
first_scope [] = []
first_scope (s ∷ scopes) = s

module _ {F : Type 0} where
  phase : Text → Fields F → Value F
  phase path more =
      obj (field (codes "method") (str (codes "POST")) (field (codes "path") (str path) more))

  abbrev flow_of : Fields F
  flow_of = field (codes "preflight") (phase (codes "/v1/actions/{key}/preflight") no_fields) (
      field (codes "execute")
        (phase (codes "/v1/actions/{key}/execute")
          (field (codes "binds") (arr (item (str (codes "decision_id")) no_items)) no_fields))
        (field (codes "needs_input") (bool true) (
          field (codes "alternatives") (bool true)
            (field (codes "consent") (bool true) no_fields))))

  unfoldable pub action_of : (Text → Text) → Text → Operation F → Action F
  unfolding action_key first_scope phase
  action_of type_url ns o = record {
    path = o.path;
    method = o.method;
    scope = first_scope o.scopes;
    summary = o.summary;
    title = o.summary;
    params = o.params;
    requires_preflight = true;
    flow = flow_of;
    key = action_key ns o.kind o.path;
    display_name = o.summary;
    preflight_endpoint = codes "/v1/actions/{key}/eligibility";
    execute_endpoint = codes "/v1/actions/{key}/execute";
    execution_requires_decision = true;
    inputs_schema = no_fields;
    needs_contract = true;
    alternatives_supported = codes "create_checkout_link" ∷ codes "open_support_case" ∷ [];
    problem_types =
        (codes "preflight_required", type_url (codes "preflight-required"))
        ∷ (codes "policy_violation", type_url (codes "policy-violation"))
        ∷ [];
  }

  -- An error of LoadOperations leaves the actions empty.
  unfoldable pub actions_of : (Text → Text) → Text → Result (List (Operation F)) → List (Action F)
  actions_of type_url ns err = []
  actions_of type_url ns (ok ops) = map (action_of type_url ns) ops

  unfoldable pub manifest_with : Text → Tenant → List (Action F) → Manifest F
  manifest_with default_base_url t actions = record {
    version = codes "1";
    base_url = if null t.base_public_url then default_base_url else t.base_public_url;
    oauth = record {
      authorization_url = t.oauth_issuer ++ codes "/authorize";
      token_url = t.oauth_issuer ++ codes "/token";
      scopes = codes "catalog:read" ∷ codes "order:write" ∷ codes "refund:write" ∷ [];
    };
    actions = actions;
    namespace = tenant_namespace t;
  }

  -- `type_url` is problems.Type. The cache is the one that the registry keeps.
  unfoldable pub build_manifest :
      (Text → Text)
      → Text
      → Tenant
      → Option (Result (Tables F))
      → ℕ
      → Cache F
      → Manifest F × Cache F
  unfolding actions_of action_of manifest_with load_operations read_cached fetch_operations
      store_fetched tenant_namespace action_key namespace_of normalize_kind derive_name first_scope
  build_manifest type_url default_base_url t db now cache =
      let (ops, cache') = load_operations db t.id now cache in
      (manifest_with default_base_url t (actions_of type_url (tenant_namespace t) ops), cache')
