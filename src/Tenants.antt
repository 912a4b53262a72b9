-- ===== src/Tenants.antt =====
-- Tenants and the in-memory provider, pkg/tenants/model.go and pkg/tenants/memory.go.
pub mod Memory
pub mod Postgres
use lamdis_core.Prelude.{Bool, List}
use lamdis_core.Text.{Text}
use lamdis_core.Text.Maps.{Assoc}

pub record Tenant : Type 0 where
  pub id : Text
  pub slug : Text
  pub host : Text
  pub oauth_issuer : Text
  pub jwks_url : Text
  pub base_public_url : Text
  pub auth_mode : Text
  pub discovery_url : Text
  pub accepted_audiences : List Text
  pub account_claim : Text
  pub machine_allowed_scopes : List Text
  pub required_acr_by_action : Assoc Text
  pub dpop_required : Bool

pub record ConnectorCreds : Type 0 where
  pub shopify_domain : Text
  pub shopify_token : Text
