-- ===== src/Admin/Access.antt =====
-- Who may use the administration: `cors` and `adminAuth` of internal/adminapi/auth.go, and the origins that
-- `Handler` of internal/adminapi/server.go allows. The JWT library and uuid.Parse are parameters.
pub mod Guards
use lamdis_core.Prelude.{
  Bool, true, false, not, ◌&&◌, ◌||◌, Option, none, some, List, [], ◌∷◌, if◌then◌else◌, null, find,
  map, filter_by,
}
use lamdis_core.Text.{Text, codes, text_eq, trim_space, split, to_lower, has_prefix, drop}
use lamdis_core.Text.Maps.{Assoc}
use lamdis_core.Json.{Value, sprint}
use lamdis_core.Facts.Resolve.{or_empty}
use lamdis_core.Store.{TenantRow}
use lamdis_core.Middleware.Scope.{
  Reply, next, deny, panics, Claim, text, other, has_bearer, bearer_token,
}

-- `match`: the entry of the list, less its blanks, that is * or the origin
unfoldable pub match_origin : List Text → Text → Option Text
unfolding trim_space text_eq
match_origin allowed origin =
    if null origin
    then none
    else find (λ a. text_eq a (codes "*") || text_eq a origin) (map trim_space allowed)

-- What the middleware does: the headers that it sets, and whether it answers by itself, with 204.
pub record CorsReply : Type 0 where
  pub headers : Assoc Text
  pub answered : Bool

abbrev pub cors_headers : Text → Assoc Text
cors_headers allow_origin =
    (codes "Access-Control-Allow-Origin", allow_origin)
    ∷ (codes "Vary", codes "Origin")
    ∷ (codes "Access-Control-Allow-Methods", codes "GET,POST,PUT,PATCH,DELETE,OPTIONS")
    ∷ (codes "Access-Control-Allow-Headers", codes "Authorization, Content-Type, X-Tenant-ID")
    ∷ (codes "Access-Control-Allow-Credentials", codes "true")
    ∷ (codes "Access-Control-Max-Age", codes "86400")
    ∷ []

unfoldable pub cors : List Text → Text → Text → CorsReply
unfolding match_origin text_eq
cors allowed origin method = elim (match_origin allowed origin) [
  | none ↦ record { headers = []; answered = false }
  | some a ↦ record { headers = cors_headers a; answered = text_eq method (codes "OPTIONS") }
]

-- The origins of ADMIN_CORS_ORIGINS, or the one of the development server.
unfoldable pub allowed_origins : Text → List Text
unfolding split trim_space
allowed_origins env =
    let origins = filter_by (λ s. not (null s)) (map trim_space (split b',' (trim_space env))) in
    if null (trim_space env) || null origins then codes "http://localhost:3001" ∷ [] else origins

-- The claims of an accepted token that are read here; one of null is none.
pub record AdminToken (F : Type 0) : Type 0 where
  pub role : Option Claim
  pub tid : Option (Value F)

-- A request, with its header X-Tenant-ID.
pub record AdminRequest : Type 0 where
  pub method : Text
  pub authorization : Text
  pub tenant_header : Text

-- column = $n, which a NULL is not
abbrev pub is_text : Option Text → Text → Bool
is_text none s = false
is_text (some t) s = text_eq t s

module _ {F : Type 0} where
  abbrev pub has_slug_or_host : Text → TenantRow F → Bool
  has_slug_or_host s r = is_text r.slug s || is_text r.host s

  abbrev id_of : Option (TenantRow F) → Text
  id_of none = []
  id_of (some r) = r.id

  -- SELECT id FROM tenants WHERE slug=$1 OR host=$1 LIMIT 1, scanned into an empty text
  unfoldable pub resolve_tenant : Bool → List (TenantRow F) → Text → Text
  unfolding text_eq
  resolve_tenant works rows s = if works then id_of (find (has_slug_or_host s) rows) else []

  module _ (is_uuid : Text → Bool) (works : Bool) (tenants : List (TenantRow F)) where
    -- The tenant of the context: an identifier as it is, a slug or host by the table.
    unfoldable pub tenant_id_for : Text → Reply Text
    unfolding resolve_tenant trim_space
    tenant_id_for s =
        if is_uuid s
        then next s
        else (let resolved = resolve_tenant works tenants s in
            if null (trim_space resolved)
            then deny 400 (codes "invalid tenant id")
            else next resolved)

    -- Without a key set the header alone names the tenant.
    unfoldable pub dev_auth : AdminRequest → Reply Text
    unfolding tenant_id_for trim_space text_eq
    dev_auth r =
        if text_eq r.method (codes "OPTIONS")
        then deny 204 []
        else if null (trim_space r.tenant_header)
        then deny 400 (codes "missing tenant id")
        else tenant_id_for (trim_space r.tenant_header)

    -- role.(string) panics on another type.
    unfoldable pub check_role : Option Claim → Reply Text → Reply Text
    unfolding text_eq
    check_role none rest = deny 403 (codes "forbidden")
    check_role (some other) rest = panics
    check_role (some (text s)) rest =
        if text_eq s (codes "tenant_admin") || text_eq s (codes "lamdis_admin")
        then rest
        else deny 403 (codes "forbidden")

    -- The tenant of the token, or else that of the header.
    unfoldable pub token_tenant : (F → Text) → Option (Value F) → Text → Reply Text
    unfolding tenant_id_for
    token_tenant format (some v) header = tenant_id_for (sprint format v)
    token_tenant format none header =
        if null header then deny 400 (codes "missing tenant id") else tenant_id_for header

    -- `adminAuth`: how a request ends, with the tenant that its handler finds in the context.
    unfoldable pub admin_auth :
        {KeySet : Type 0}
        → (F → Text)
        → (KeySet → Text → Option (AdminToken F))
        → Option KeySet
        → AdminRequest
        → Reply Text
    unfolding dev_auth check_role token_tenant to_lower has_prefix trim_space drop
    admin_auth format verify none r = dev_auth r
    admin_auth format verify (some keys) r =
        if not (has_bearer r.authorization)
        then deny 401 (codes "missing bearer")
        else elim (verify keys (bearer_token r.authorization)) [
          | none ↦ deny 401 (codes "invalid token")
          | some jt ↦ check_role jt.role (token_tenant format jt.tid r.tenant_header)
        ]
