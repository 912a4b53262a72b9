-- ===== src/Admin/Access/Guards.antt =====
-- What a request needs to reach a handler of the administration, and which origins a browser is told of.
use lamdis_core.Prelude.{
  ◌≡◌, refl, ◌↔◌, ◌⊎◌, inl, inr, Bool, true, false, ◌||◌, Option, none, some, List, [], arith, null,
  find, find_sound, find_complete, map, Memᴰ, Bool-cases, Option-cases,
}
use lamdis_core.Text.{Text, codes, text_eq, trim_space}
use lamdis_core.Text.Laws.{text_eq_iff}
use lamdis_core.Json.{Value, sprint}
use lamdis_core.Store.{TenantRow}
use lamdis_core.Middleware.Scope.{Reply, next, Claim, text, other, has_bearer, bearer_token}
use lamdis_core.Admin.Access.{
  match_origin, cors_headers, cors, AdminToken, AdminRequest, resolve_tenant, tenant_id_for,
  check_role, token_tenant, admin_auth, has_slug_or_host,
}

blank_absurd : null (trim_space []) ≡ false → ⊥
unfolding trim_space
blank_absurd h = cc

module _ {F : Type 0} (is_uuid : Text → Bool) (works : Bool) (tenants : List (TenantRow F)) where
  -- The text stands for the tenant: it is an identifier, or the slug or host of a row with it.
  abbrev pub StandsFor : Text → Text → Type 0
  StandsFor s tid =
      ((is_uuid s ≡ true) × (tid ≡ s))
      ⊎ ((r : TenantRow F) × Memᴰ r tenants × (has_slug_or_host s r ≡ true) × (tid ≡ r.id))

  -- What a request with a token brings.
  pub record Entitled {KeySet : Type 0} (format : F → Text)
      (verify : KeySet → Text → Option (AdminToken F)) (keys : KeySet) (r : AdminRequest)
      (tid : Text) : Type 0 where
    pub jt : AdminToken F
    pub role : Text
    pub bearer : has_bearer r.authorization ≡ true
    pub verified : verify keys (bearer_token r.authorization) ≡ some jt
    pub has_role : jt.role ≡ some (text role)
    pub admin : (role ≡ codes "tenant_admin") ⊎ (role ≡ codes "lamdis_admin")
    pub names :
        ((v : Value F) × (jt.tid ≡ some v) × StandsFor (sprint format v) tid)
        ⊎ ((jt.tid ≡ none) × StandsFor r.tenant_header tid)

  resolved_sound :
      (s tid : Text)
      → null (trim_space (resolve_tenant works tenants s)) ≡ false
      → tid ≡ resolve_tenant works tenants s
      → StandsFor s tid
  unfolding resolve_tenant
  resolved_sound s tid filled e = elim (Bool-cases works) [
    | inr h ↦ absurd (blank_absurd (rw h at filled))
    | inl h ↦ elim (Option-cases (find (has_slug_or_host s) tenants)) [
      | inl n ↦ absurd (blank_absurd (rw (h, n) at filled))
      | inr (r, f) ↦
          let (q, m) = find_sound (has_slug_or_host s) tenants r f in inr (r, m, q, rw (h, f) at e)
    ]
  ]

  tenant_id_for_sound :
      (s tid : Text) → tenant_id_for is_uuid works tenants s ≡ next tid → StandsFor s tid
  unfolding tenant_id_for
  tenant_id_for_sound s tid h = elim (Bool-cases (is_uuid s)) [
    | inl e ↦ inl (e, ground arith)
    | inr e ↦ elim (Bool-cases (null (trim_space (resolve_tenant works tenants s)))) [
      | inl f ↦ absurd (ground arith)
      | inr f ↦ resolved_sound s tid f (ground arith)
    ]
  ]

  token_tenant_sound :
      (format : F → Text) (claim : Option (Value F)) (header tid : Text)
      → token_tenant is_uuid works tenants format claim header ≡ next tid
      → ((v : Value F) × (claim ≡ some v) × StandsFor (sprint format v) tid)
        ⊎ ((claim ≡ none) × StandsFor header tid)
  unfolding token_tenant
  token_tenant_sound format (some v) header tid h =
      inl (v, refl, tenant_id_for_sound (sprint format v) tid h)
  token_tenant_sound format none header tid h = elim (Bool-cases (null header)) [
    | inl e ↦ absurd (ground arith)
    | inr e ↦ inr (refl, tenant_id_for_sound header tid (ground arith))
  ]

  check_role_sound :
      (role : Option Claim) (rest : Reply Text) (tid : Text)
      → check_role is_uuid works tenants role rest ≡ next tid
      → (s : Text) × (role ≡ some (text s))
        × ((s ≡ codes "tenant_admin") ⊎ (s ≡ codes "lamdis_admin"))
        × (rest ≡ next tid)
  unfolding check_role
  check_role_sound none rest tid h = cc
  check_role_sound (some other) rest tid h = cc
  check_role_sound (some (text s)) rest tid h =
      elim (Bool-cases (text_eq s (codes "tenant_admin"))) [
        | inl e ↦ (s, refl, inl ((text_eq_iff s (codes "tenant_admin")).0 e), ground arith)
        | inr e ↦ elim (Bool-cases (text_eq s (codes "lamdis_admin"))) [
          | inl f ↦ (s, refl, inr ((text_eq_iff s (codes "lamdis_admin")).0 f), ground arith)
          | inr f ↦ absurd (ground arith)
        ]
      ]

  -- Where keys are configured, a request reaches a handler only with a bearer token that they verify, whose
  -- role is tenant_admin or lamdis_admin; the tenant of the context is the one that the token's tid stands
  -- for, and where the token has none, the one that the header X-Tenant-ID stands for.
  pub admin_auth_sound :
      {KeySet : Type 0}
      → (format : F → Text) (verify : KeySet → Text → Option (AdminToken F)) (keys : KeySet)
        (r : AdminRequest) (tid : Text)
      → admin_auth is_uuid works tenants format verify (some keys) r ≡ next tid
      → Entitled format verify keys r tid
  unfolding admin_auth
  admin_auth_sound format verify keys r tid h = elim (Bool-cases (has_bearer r.authorization)) [
    | inr e ↦ absurd (ground arith)
    | inl e ↦ elim (Option-cases (verify keys (bearer_token r.authorization))) [
      | inl n ↦ absurd (ground arith)
      | inr (jt, v) ↦
          let (role, has, admin, rest) =
            check_role_sound jt.role
              (token_tenant is_uuid works tenants format jt.tid r.tenant_header) tid
              (rw (e, v) at h) in
          record {
            jt = jt;
            role = role;
            bearer = e;
            verified = v;
            has_role = has;
            admin = admin;
            names = token_tenant_sound format jt.tid r.tenant_header tid rest;
          }
    ]
  ]

abbrev is_allowed : Text → Text → Bool
is_allowed origin a = text_eq a (codes "*") || text_eq a origin

allowed_sound : (origin a : Text) → is_allowed origin a ≡ true → (a ≡ codes "*") ⊎ (a ≡ origin)
allowed_sound origin a h = elim (Bool-cases (text_eq a (codes "*"))) [
  | inl e ↦ inl ((text_eq_iff a (codes "*")).0 e)
  | inr e ↦ inr ((text_eq_iff a origin).0 (ground arith))
]

match_sound :
    (allowed : List Text) (origin a : Text)
    → match_origin allowed origin ≡ some a
    → (null origin ≡ false) × Memᴰ a (map trim_space allowed) × ((a ≡ codes "*") ⊎ (a ≡ origin))
unfolding match_origin
match_sound allowed origin a h = elim (Bool-cases (null origin)) [
  | inl e ↦ absurd (ground arith)
  | inr e ↦
      let (q, m) = find_sound (is_allowed origin) (map trim_space allowed) a (rw e at h) in
      (e, m, allowed_sound origin a q)
]

match_complete :
    (allowed : List Text) (origin a : Text)
    → null origin ≡ false
    → Memᴰ a (map trim_space allowed)
    → (a ≡ codes "*") ⊎ (a ≡ origin)
    → (b : Text) × (match_origin allowed origin ≡ some b)
unfolding match_origin
match_complete allowed origin a e m h =
    let q : is_allowed origin a ≡ true = elim h [
      | inl f ↦ ground (arith, (text_eq_iff a (codes "*")).1 f)
      | inr f ↦ ground (arith, (text_eq_iff a origin).1 f)
    ] in
    let (b, f, _) = find_complete (is_allowed origin) (map trim_space allowed) a m q in (b, rw e f)

headers_of :
    (allowed : List Text) (origin method : Text) (o : Option Text)
    → match_origin allowed origin ≡ o
    → (cors allowed origin method).headers ≡ elim o [ none ↦ [] | some a ↦ cors_headers a ]
unfolding cors
headers_of allowed origin method none e = ground arith
headers_of allowed origin method (some a) e = ground arith

-- A browser is told of an origin exactly where the request has one and the list holds, less the blanks
-- around its entries, * or this origin; and what it is told of is nothing, or * or this origin.
pub cors_iff :
    (allowed : List Text) (origin method : Text)
    → (((a : Text) × ((cors allowed origin method).headers ≡ cors_headers a)) ↔ (
        (null origin ≡ false)
        × ((e : Text) × Memᴰ e (map trim_space allowed) × ((e ≡ codes "*") ⊎ (e ≡ origin)))))
      × (((cors allowed origin method).headers ≡ [])
          ⊎ ((a : Text) × ((cors allowed origin method).headers ≡ cors_headers a)
              × ((a ≡ codes "*") ⊎ (a ≡ origin))))
cors_iff allowed origin method = elim (Option-cases (match_origin allowed origin)) [
  | inl n ↦ rw (headers_of allowed origin method none n) (
    (
      λ (a, h). absurd (cc h),
      λ (e, (a, m, h)). let (b, f) = match_complete allowed origin a e m h in absurd (cc (n, f)),
    ),
    inl refl,
  )
  | inr (b, f) ↦
      let (e, m, h) = match_sound allowed origin b f in
      rw (headers_of allowed origin method (some b) f)
        ((λ _. (e, (b, m, h)), λ _. (b, refl)), inr (b, refl, h))
]
