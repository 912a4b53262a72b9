-- ===== src/Store.antt =====
-- The database as the services use it: each table is the list of its rows, in the order in which
-- the database shows them. A column that may be NULL is an `Option`.
pub mod Table
use lamdis_core.Prelude.{Bool, Option, List, [], ◌∷◌, ◌++◌, ℤ, map, filter_by}
use lamdis_core.Text.{Text, text_eq}
use lamdis_core.Json.{Value}

pub data VersionStatus : Type 0 where
  draft published archived : VersionStatus

-- policy_versions
pub record VersionRow : Type 0 where
  pub tenant_id : Text
  pub action_key : Text
  pub version : ℤ
  pub compiled_rego : Option Text
  pub status : VersionStatus

-- `DecisionStatus` of internal/policy/service.go
pub data DecisionStatus : Type 0 where
  allow allow_with_conditions blocked needs_input : DecisionStatus

-- decisions; `expires_at` counts nanoseconds
pub record DecisionRow (F : Type 0) : Type 0 where
  pub id : Text
  pub tenant_id : Text
  pub action_key : Text
  pub inputs : Value F
  pub facts : Value F
  pub policy_version : ℤ
  pub status : DecisionStatus
  pub reasons : Value F
  pub needs : Value F
  pub alternatives : Value F
  pub hash : Option Text
  pub expires_at : Option ℤ

-- actions
pub record ActionRow (F : Type 0) : Type 0 where
  pub tenant_id : Text
  pub key : Text
  pub display_name : Option Text
  pub inputs_schema : Option (Value F)

-- connector_definitions
pub record DefinitionRow (F : Type 0) : Type 0 where
  pub id : Text
  pub tenant_id : Text
  pub kind : Text
  pub builtin_kind : Option Text
  pub auth : Option (Value F)
  pub config : Option (Value F)
  pub secret : Option (Value F)
  pub base_url : Option Text
  pub auth_ref : Option Text
  pub title : Option Text
  pub summary : Option Text

-- connector_operations
pub record OperationRow (F : Type 0) : Type 0 where
  pub id : Text
  pub connector_id : Text
  pub method : Text
  pub path : Text
  pub summary : Text
  pub scopes : Option (List Text)
  pub request_tmpl : Option (Value F)
  pub params : Option (Value F)
  pub enabled : Option Bool

-- tenant_connectors
pub record TenantConnectorRow : Type 0 where
  pub tenant_id : Text
  pub connector_id : Text
  pub kind : Option Text
  pub enabled : Option Bool
  pub secrets_encrypted : Option Text

-- connector_operations o JOIN connector_definitions d ON o.connector_id=d.id
abbrev pub JoinedRow : Type 0 → Type 0
JoinedRow F = OperationRow F × DefinitionRow F

unfoldable pub join :
    {F : Type 0} → List (OperationRow F) → List (DefinitionRow F) → List (JoinedRow F)
join [] defs = []
join (o ∷ ops) defs =
    map (λ d. (o, d)) (filter_by (λ d. text_eq o.connector_id d.id) defs) ++ join ops defs

-- tenant_auth_configs; its type is `kind`
pub record AuthConfigRow (F : Type 0) : Type 0 where
  pub id : Text
  pub tenant_id : Text
  pub name : Text
  pub kind : Text
  pub config : Value F
  pub secrets_encrypted : Option Text

-- usage_events, without the two times
pub record UsageRow : Type 0 where
  pub tenant_id : Text
  pub action_id : Text
  pub method : Text
  pub path : Text
  pub mode : Text
  pub rail : Text
  pub actor_sub : Text
  pub request_id : Text
  pub status_code : ℤ
  pub duration_ms : ℤ

-- connectors, the registry that all tenants share
pub record RegistryRow (F : Type 0) : Type 0 where
  pub id : Text
  pub kind : Text
  pub display_name : Text
  pub category : Option Text
  pub tags : Option (List Text)
  pub capabilities : Value F
  pub requirements : Value F
  pub audit_mode : Text

-- tenants, with the columns that later statements add
pub record TenantRow (F : Type 0) : Type 0 where
  pub id : Text
  pub slug : Option Text
  pub host : Option Text
  pub oauth_issuer : Option Text
  pub jwks_url : Option Text
  pub base_public_url : Option Text
  pub auth_mode : Option Text
  pub discovery_url : Option Text
  pub accepted_audiences : Option (List Text)
  pub account_claim : Option Text
  pub machine_allowed_scopes : Option (List Text)
  pub required_acr_by_action : Option (Value F)
  pub dpop_required : Option Bool
  pub client_id_user : Option Text
  pub client_id_machine : Option Text
