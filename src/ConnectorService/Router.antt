-- ===== src/ConnectorService/Router.antt =====
-- `dynamicOperationsRouter` of internal/connector/handler.go: the operations of the tenant, as the registry
-- loads them, behind the check of their scopes. The choice of a route is chi's.
use lamdis_core.Prelude.{
  ℕ, zero, suc, Bool, not, Option, none, some, List, [], ◌∷◌, Result, ok, err, if◌then◌else◌, map,
  ℤ,
}
use lamdis_core.Text.{Text, codes, to_upper}
use lamdis_core.Store.{UsageRow, AuthConfigRow}
use lamdis_core.Middleware.Scope.{has_any_scope}
use lamdis_core.Connectors.Registry.{Tables, Cache, Operation, load_operations}
use lamdis_core.Admin.Policies.{error}
use lamdis_core.ConnectorService.{Context}
use lamdis_core.ConnectorService.Platform.{Platform, Incoming}
use lamdis_core.ConnectorService.Proxy.{Outcome, dynamic_handler}

-- What chi makes of a request, over the methods and paths in the order of their registration: it calls
-- the handler of one of them, or it answers by itself (no route, another method, a panic).
pub data Routed : Type 0 where
  to : ℕ → Routed
  answered : ℕ → Text → Routed

abbrev pub get_elem? {ℓ} : {A : Type ℓ} → List A → ℕ → Option A
get_elem? [] i = none
get_elem? (x ∷ xs) zero = some x
get_elem? (x ∷ xs) (suc i) = get_elem? xs i

module _ {F : Type 0} where
  unfoldable pub routes : List (Operation F) → List (Text × Text)
  unfolding to_upper
  routes ops = map (λ o. (to_upper o.method, o.path)) ops

  abbrev pub refused : ℕ → Text → List UsageRow → Outcome F
  refused status message usage = record {
    answer = error status message;
    upstream = none;
    sent = [];
    usage = usage;
  }

  module _ (p : Platform F) (route : List (Text × Text) → Routed)
      (configs : Option (List (AuthConfigRow F))) (pool : Option Bool) (ctx : Context)
      (r : Incoming) (elapsed : ℤ) (usage : List UsageRow) where
    -- The handler of one operation.
    unfoldable pub serve_operation : Option (Operation F) → Outcome F
    unfolding dynamic_handler has_any_scope to_upper
    serve_operation none = refused 404 (codes "404 page not found") usage
    serve_operation (some o) =
        if not (has_any_scope o.scopes ctx.scopes)
        then refused 403 (codes "insufficient_scope") usage
        else dynamic_handler p configs pool (to_upper o.method) o.path o.base_url o.auth_ref ctx r
            elapsed usage

    unfoldable pub serve_routed : List (Operation F) → Routed → Outcome F
    unfolding serve_operation
    serve_routed ops (answered status message) = refused status message usage
    serve_routed ops (to i) = serve_operation (get_elem? ops i)

    -- What is done with the operations, or with the text of the registry's error.
    unfoldable pub serve_loaded : Text → Result (List (Operation F)) → Outcome F
    unfolding serve_routed routes
    serve_loaded message err = refused 500 message usage
    serve_loaded message (ok ops) = serve_routed ops (route (routes ops))

    -- `dynamicOperationsRouter`, with the registry's cache
    unfoldable pub dynamic_router :
        Option (Result (Tables F)) → Text → ℕ → Cache F → Outcome F × Cache F
    unfolding serve_loaded load_operations
    dynamic_router db message now cache =
        let (ops, cache') = load_operations db ctx.tenant.id now cache in
        (serve_loaded message ops, cache')
