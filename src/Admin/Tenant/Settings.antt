-- ===== src/Admin/Tenant/Settings.antt =====
-- What the provider gives for a tenant after `putTenantOIDC`.
use lamdis_core.Prelude.{
  ◌≡◌, refl, true, false, ◌||◌, none, some, List, [], ◌∷◌, ok, arith, if◌then◌else◌, null, find,
  find_sound, Bool-cases, Option-cases, inl, inr,
}
use lamdis_core.Text.{Text, text_eq}
use lamdis_core.Text.Laws.{text_eq_iff}
use lamdis_core.Json.{no_fields}
use lamdis_core.Facts.Resolve.{or_empty}
use lamdis_core.Store.{TenantRow}
use lamdis_core.Store.Table.{update_where}
use lamdis_core.Tenants.{Tenant}
use lamdis_core.Tenants.Postgres.{scan_tenant, resolve_tenant_by_id}
use lamdis_core.Admin.Policies.{ok_answer}
use lamdis_core.Admin.Tenant.{OidcBody, change_oidc, put_tenant_oidc}

-- The tenant with the settings of the body.
abbrev pub with_settings : OidcBody → Tenant → Tenant
with_settings b t = record t {
  oauth_issuer = b.oauth_issuer;
  accepted_audiences = b.accepted_audiences;
  account_claim = b.account_claim;
  dpop_required = or_empty false b.dpop_required;
}

module _ {F : Type 0} where
  find-update :
      (tenant id : Text) (b : OidcBody) (rows : List (TenantRow F))
      → find (λ r. text_eq r.id id) (update_where (λ r. text_eq r.id tenant) (change_oidc b) rows)
        ≡ elim (find (λ (r : TenantRow F). text_eq r.id id) rows) [
          | none ↦ none
          | some r ↦ some (if text_eq r.id tenant then change_oidc b r else r)
        ]
  unfolding update_where change_oidc
  find-update tenant id b [] = refl
  find-update tenant id b (r ∷ rows) = ground (arith, find-update tenant id b rows)

  scan-change :
      (b : OidcBody) (r : TenantRow F) (t : Tenant)
      → scan_tenant r ≡ ok t
      → scan_tenant (change_oidc b r) ≡ ok (with_settings b t)
  unfolding scan_tenant change_oidc
  scan-change b r t h = elim (Option-cases r.slug) [
    | inl e ↦ absurd (ground arith)
    | inr (slug, e1) ↦ elim (Option-cases r.host) [
      | inl e ↦ absurd (ground arith)
      | inr (host, e2) ↦ elim (Option-cases r.oauth_issuer) [
        | inl e ↦ absurd (ground arith)
        | inr (issuer, e3) ↦ elim (Option-cases r.auth_mode) [
          | inl e ↦ absurd (ground arith)
          | inr (mode, e4) ↦ elim (Option-cases r.dpop_required) [
            | inl e ↦ absurd (ground arith)
            | inr (dpop, e5) ↦ ground arith
          ]
        ]
      ]
    ]
  ]

  scan_either :
      (tenant id : Text) (b : OidcBody) (r : TenantRow F) (t : Tenant)
      → r.id ≡ id
      → scan_tenant r ≡ ok t
      → scan_tenant (if text_eq r.id tenant then change_oidc b r else r)
        ≡ ok (if text_eq id tenant then with_settings b t else t)
  scan_either tenant id b r t q s = elim (Bool-cases (text_eq r.id tenant)) [
    | inl e ↦ let f : text_eq id tenant ≡ true = cc (e, q) in rw (e, f) (scan-change b r t s)
    | inr e ↦ let f : text_eq id tenant ≡ false = cc (e, q) in rw (e, f) s
  ]

  -- After `putTenantOIDC` the provider gives the tenant with the settings of the body, those that it leaves
  -- out included (an account claim that is left out is then empty), its other fields as they were, and
  -- every other tenant as it was; the body has an issuer, an audience and a client, and the tenant that is
  -- looked up could be read before.
  pub put_tenant_oidc-resolve :
      (tenant id : Text) (b : OidcBody) (rows : List (TenantRow F)) (t : Tenant)
      → (null b.oauth_issuer || null b.accepted_audiences || null b.client_id_user) ≡ false
      → resolve_tenant_by_id true rows id ≡ ok t
      → let (answer, rows') = put_tenant_oidc true tenant (some b) rows in
        (answer ≡ ok_answer no_fields)
        × (resolve_tenant_by_id true rows' id
            ≡ ok (if text_eq id tenant then with_settings b t else t))
  unfolding put_tenant_oidc resolve_tenant_by_id
  put_tenant_oidc-resolve tenant id b rows t filled before =
      elim (Option-cases (find (λ (r : TenantRow F). text_eq r.id id) rows)) [
        | inl e ↦ absurd (cc (rw e at before))
        | inr (r, e) ↦
            let (q, _) = find_sound (λ (x : TenantRow F). text_eq x.id id) rows r e in
            let s : scan_tenant r ≡ ok t = rw e at before in
            rw filled (
              refl,
              rw (find-update tenant id b rows, e)
                  (scan_either tenant id b r t ((text_eq_iff r.id id).0 q) s),
            )
      ]
