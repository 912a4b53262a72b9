-- ===== src/ConnectorService/Guards.antt =====
-- What the proxied operations of connectors send, and when.
use lamdis_core.Prelude.{
  ℕ, zero, suc, ◌≡◌, refl, ◌⊎◌, inl, inr, Bool, true, false, Option, some, List, [], ◌∷◌, ◌++◌,
  Result, ok, err, arith, null, ℤ, Memᴰ, Bool-cases, Option-cases,
}
use lamdis_core.Text.{Text, to_upper, trim_right_char, contains}
use lamdis_core.Facts.Resolve.{or_empty}
use lamdis_core.Store.{UsageRow, AuthConfigRow}
use lamdis_core.Middleware.Scope.{has_any_scope}
use lamdis_core.Connectors.Registry.{Tables, Cache, Operation, load_operations}
use lamdis_core.ConnectorService.{Context}
use lamdis_core.ConnectorService.Platform.{Platform, Incoming, UpstreamRequest}
use lamdis_core.ConnectorService.Proxy.{
  Outcome, upstream_request, pass_back, pass_through, echo, dynamic_handler,
}
use lamdis_core.ConnectorService.Router.{
  Routed, to, answered, get_elem?, routes, serve_operation, serve_routed, serve_loaded,
  dynamic_router,
}

-- The URL to which an operation is passed on.
abbrev pub target : Option Text → Text → Text
target base path = trim_right_char b'/' (or_empty [] base) ++ path

module _ {F : Type 0} (p : Platform F) (configs : Option (List (AuthConfigRow F)))
    (pool : Option Bool) where
  pub pass_back_sent :
      (ctx : Context) (method path : Text) (req : UpstreamRequest) (elapsed : ℤ)
      (usage : List UsageRow) (resp : _)
      → (pass_back p pool ctx method path req elapsed usage resp).sent ≡ req ∷ []
  unfolding pass_back
  pass_back_sent ctx method path req elapsed usage err = refl
  pass_back_sent ctx method path req elapsed usage (ok resp) = refl

  pass_through_sent :
      (ctx : Context) (method path base : Text) (ref : Option Text) (r : Incoming) (elapsed : ℤ)
      (usage : List UsageRow)
      → ((pass_through p configs pool ctx method path base ref r elapsed usage).sent ≡ [])
        ⊎ ((pass_through p configs pool ctx method path base ref r elapsed usage).sent
            ≡ upstream_request p configs ref method (trim_right_char b'/' base ++ path) r ∷ [])
  unfolding pass_through
  pass_through_sent ctx method path base ref r elapsed usage =
      let full = trim_right_char b'/' base ++ path in
      elim (Bool-cases (p.url_parses full)) [
        | inr e ↦ inl (rw e refl)
        | inl e ↦ elim (Bool-cases (p.builds method full)) [
          | inr f ↦ inl (rw (e, f) refl)
          | inl f ↦ inr (
              rw (e, f)
                (pass_back_sent ctx method path (upstream_request p configs ref method full r)
                  elapsed usage _))
        ]
      ]

  dynamic_handler_sent :
      (method path : Text) (base ref : Option Text) (ctx : Context) (r : Incoming) (elapsed : ℤ)
      (usage : List UsageRow)
      → ((dynamic_handler p configs pool method path base ref ctx r elapsed usage).sent ≡ [])
        ⊎ ((dynamic_handler p configs pool method path base ref ctx r elapsed usage).sent
            ≡ upstream_request p configs ref method (target base path) r ∷ [])
  unfolding dynamic_handler echo
  dynamic_handler_sent method path base ref ctx r elapsed usage =
      elim (Bool-cases (null (or_empty [] base))) [
        | inl e ↦ inl (rw e refl)
        | inr e ↦ rw e (pass_through_sent ctx method path (or_empty [] base) ref r elapsed usage)
      ]

module _ {F : Type 0} (p : Platform F) (configs : Option (List (AuthConfigRow F))) where
  contains-append : (c : ℕ) (s t : Text) → contains c t ≡ true → contains c (s ++ t) ≡ true
  unfolding contains
  contains-append c [] t h = h
  contains-append c (x ∷ s) t h = ground (arith, contains-append c s t h)

  -- A path with a placeholder is sent to the connector as it stands, whatever the request's path: where the
  -- base URL is set and the URL parses and builds a request, there is one request and its URL has the
  -- brace.
  pub dynamic_handler_unbound :
      (pool : Option Bool) (method path base : Text) (ref : Option Text) (ctx : Context)
      (r : Incoming) (elapsed : ℤ) (usage : List UsageRow)
      → contains b'{' path ≡ true
      → null base ≡ false
      → p.url_parses (target (some base) path) ≡ true
      → p.builds method (target (some base) path) ≡ true
      → (req : UpstreamRequest) × ((dynamic_handler p configs pool method path
            (some base)
            ref
            ctx
            r
            elapsed
            usage).sent
          ≡ req ∷ [])
        × (contains b'{' req.url ≡ true)
  unfolding dynamic_handler pass_through upstream_request
  dynamic_handler_unbound pool method path base ref ctx r elapsed usage brace set parses builds =
      let full = target (some base) path in
      (
        upstream_request p configs ref method full r,
        rw (set, parses, builds)
            (pass_back_sent p configs pool ctx method path
              (upstream_request p configs ref method full r) elapsed usage _),
        contains-append b'{' (trim_right_char b'/' base) path brace,
      )

module _ {F : Type 0} (p : Platform F) (route : List (Text × Text) → Routed)
    (configs : Option (List (AuthConfigRow F))) (pool : Option Bool) (ctx : Context) (r : Incoming)
    (elapsed : ℤ) (usage : List UsageRow) where
  -- The one request that is sent for an operation, with its scopes checked.
  abbrev pub SentFor : Operation F → Outcome F → Type 0
  SentFor o out =
      (has_any_scope o.scopes ctx.scopes ≡ true)
      × (out.sent
          ≡ upstream_request p configs o.auth_ref (to_upper o.method) (target o.base_url o.path) r
            ∷ [])

  serve_operation_sent :
      (o : Operation F)
      → ((serve_operation p route configs pool ctx r elapsed usage (some o)).sent ≡ [])
        ⊎ SentFor o (serve_operation p route configs pool ctx r elapsed usage (some o))
  unfolding serve_operation
  serve_operation_sent o = elim (Bool-cases (has_any_scope o.scopes ctx.scopes)) [
    | inr e ↦ inl (rw e refl)
    | inl e ↦
        elim (dynamic_handler_sent p configs pool (to_upper o.method) o.path o.base_url o.auth_ref
          ctx r elapsed usage) [ inl f ↦ inl (rw e f) | inr f ↦ inr (e, rw e f) ]
  ]

  get_elem-mem :
      (ops : List (Operation F)) (i : ℕ) (o : Operation F) → get_elem? ops i ≡ some o → Memᴰ o ops
  get_elem-mem [] i o h = cc
  get_elem-mem (x ∷ ops) zero o h = Memᴰ.head (cc)
  get_elem-mem (x ∷ ops) (suc i) o h = Memᴰ.tail (get_elem-mem ops i o h)

  serve_routed_sent :
      (ops : List (Operation F)) (to_route : Routed)
      → ((serve_routed p route configs pool ctx r elapsed usage ops to_route).sent ≡ [])
        ⊎ ((o : Operation F) × Memᴰ o ops
            × SentFor o (serve_routed p route configs pool ctx r elapsed usage ops to_route))
  unfolding serve_routed
  serve_routed_sent ops (answered status message) = inl refl
  serve_routed_sent ops (to i) = elim (Option-cases (get_elem? ops i)) [
    | inl e ↦ inl (rw e (unfold serve_operation in refl))
    | inr (o, e) ↦ elim (serve_operation_sent o) [
      | inl f ↦ inl (rw e f)
      | inr (g, f) ↦ inr (o, get_elem-mem ops i o e, (g, rw e f))
    ]
  ]

  serve_loaded_sent :
      (message : Text) (ops : Result (List (Operation F)))
      → ((serve_loaded p route configs pool ctx r elapsed usage message ops).sent ≡ [])
        ⊎ ((l : List (Operation F)) × (o : Operation F) × (ops ≡ ok l)
            × Memᴰ o l
            × SentFor o (serve_loaded p route configs pool ctx r elapsed usage message ops))
  unfolding serve_loaded
  serve_loaded_sent message err = inl refl
  serve_loaded_sent message (ok l) = elim (serve_routed_sent l (route (routes l))) [
    | inl e ↦ inl e
    | inr (o, m, s) ↦ inr (l, o, refl, m, s)
  ]

  -- Whatever chi's choice of a route: nothing is sent, or one request, which is that of an operation that
  -- the registry gave for the tenant and one of whose scopes the caller has (or that asks for none), with the
  -- operation's method, and to its base URL and path.
  pub dynamic_router_guarded :
      (db : Option (Result (Tables F))) (message : Text) (now : ℕ) (cache : Cache F)
      → let out =
          (dynamic_router p route configs pool ctx r elapsed usage db message now cache).0 in
        (out.sent ≡ [])
        ⊎ ((ops : List (Operation F)) × (o : Operation F) × ((load_operations db ctx.tenant.id now
                cache).0
              ≡ ok ops)
            × Memᴰ o ops
            × SentFor o out)
  unfolding dynamic_router
  dynamic_router_guarded db message now cache =
      serve_loaded_sent message (load_operations db ctx.tenant.id now cache).0
