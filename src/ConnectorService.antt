-- ===== src/ConnectorService.antt =====
-- The platform's own operations, internal/connector/handler.go: `canonicalOps` and `canonicalHandler`.
-- `elapsed` is the duration in milliseconds, `timestamp` the formatted time.
pub mod Platform
pub mod Proxy
pub mod Router
pub mod Guards
pub mod Usage
pub mod Credentials
pub mod Document
use lamdis_core.Prelude.{
  Bool, true, false, not, ◌&&◌, Option, none, some, List, [], ◌∷◌, ◌++◌, if◌then◌else◌, null, ℤ,
  pos,
}
use lamdis_core.Text.{Text, codes, text_eq}
use lamdis_core.Json.{Value, nil, bool, int, str, arr, obj, no_items, Fields, no_fields, field}
use lamdis_core.Store.{UsageRow}
use lamdis_core.Tenants.{Tenant}
use lamdis_core.Middleware.Scope.{has_any_scope}
use lamdis_core.Middleware.Auth.{Token, grant_type_from, actor_sub}
use lamdis_core.Admin.Policies.{Answer, error, json}

-- `CanonicalOperation`
pub record CanonicalOperation : Type 0 where
  pub method : Text
  pub path : Text
  pub summary : Text
  pub scopes : List Text
  pub id : Text
  pub mode : Text
  pub user_only : Bool

abbrev pub canonical_ops : List CanonicalOperation
canonical_ops =
    record {
      id = codes "orders.locate";
      method = codes "GET";
      path = codes "/v1/orders/locate";
      summary = codes "Find order across rails";
      scopes = codes "orders:read" ∷ [];
      mode = codes "execute";
      user_only = false;
    }
    ∷ record {
      id = codes "orders.status";
      method = codes "GET";
      path = codes "/v1/orders/{rail}/{id}/status";
      summary = codes "Get order status";
      scopes = codes "orders:read" ∷ [];
      mode = codes "execute";
      user_only = false;
    }
    ∷ record {
      id = codes "orders.cancel";
      method = codes "POST";
      path = codes "/v1/orders/{rail}/{id}/cancel";
      summary = codes "Attempt cancel";
      scopes = codes "orders:cancel" ∷ [];
      mode = codes "execute";
      user_only = true;
    }
    ∷ record {
      id = codes "refunds.request";
      method = codes "POST";
      path = codes "/v1/orders/{rail}/{id}/refund";
      summary = codes "Request refund";
      scopes = codes "refunds:request" ∷ [];
      mode = codes "request";
      user_only = true;
    }
    ∷ record {
      id = codes "reorder.link";
      method = codes "POST";
      path = codes "/v1/reorder";
      summary = codes "Reorder (deep link or first-party)";
      scopes = codes "reorder:create" ∷ [];
      mode = codes "execute";
      user_only = false;
    }
    ∷ []

-- What the middleware put into the context of a request.
pub record Context : Type 0 where
  pub tenant : Tenant
  pub scopes : List Text
  pub token : Option Token
  pub request_id : Text

-- The INSERT of the usage, where there is a pool and a tenant. `pool` is none without a pool, and else
-- tells whether the INSERT works; its error is dropped.
unfoldable pub log_usage : Option Bool → Context → UsageRow → List UsageRow → List UsageRow
log_usage none ctx row rows = rows
log_usage (some works) ctx row rows =
    if not (null ctx.tenant.id) && works then rows ++ row ∷ [] else rows

module _ {F : Type 0} where
  unfoldable pub canonical_result : Text → Fields F
  canonical_result id =
      if text_eq id (codes "orders.locate")
      then field (codes "matches") (arr no_items) no_fields
      else if text_eq id (codes "orders.status")
      then field (codes "status") (str (codes "UNKNOWN")) no_fields
      else if text_eq id (codes "orders.cancel")
      then field (codes "accepted") (bool true) no_fields
      else if text_eq id (codes "refunds.request")
      then field (codes "case_id") (str (codes "CASE-PLACEHOLDER")) no_fields
      else if text_eq id (codes "reorder.link")
      then field (codes "link") (str (codes "https://example.com/reorder/demo")) no_fields
      else no_fields

  abbrev canonical_answer : CanonicalOperation → Text → Text → ℤ → Answer F
  canonical_answer co sub timestamp elapsed = json 200 (
      field (codes "mode") (str co.mode) (
        field (codes "result") (obj (canonical_result co.id)) (
          field (codes "audit")
            (obj (
              field (codes "action") (str co.id) (
                field (codes "actor_sub") (str sub)
                  (field (codes "timestamp") (str timestamp) no_fields))))
            (field (codes "duration_ms") (int elapsed) no_fields))))

  -- `canonicalHandler`: the body is read and not used.
  unfoldable pub canonical_handler :
      CanonicalOperation
      → Option Bool
      → Context
      → Text
      → ℤ
      → List UsageRow
      → Answer F × List UsageRow
  unfolding log_usage canonical_result has_any_scope grant_type_from actor_sub text_eq
  canonical_handler co pool ctx timestamp elapsed rows =
      if not (has_any_scope co.scopes ctx.scopes)
      then (error 403 (codes "insufficient_scope"), rows)
      else if co.user_only && text_eq (grant_type_from ctx.token) (codes "client_credentials")
      then (error 403 (codes "grant_not_allowed"), rows)
      else (
        canonical_answer co (actor_sub ctx.token) timestamp elapsed,
        log_usage pool ctx
            (record {
              tenant_id = ctx.tenant.id;
              action_id = co.id;
              method = co.method;
              path = co.path;
              mode = co.mode;
              rail = [];
              actor_sub = actor_sub ctx.token;
              request_id = ctx.request_id;
              status_code = pos 200;
              duration_ms = elapsed;
            })
            rows,
      )
