-- ===== src/Tenants/Postgres/Laws.antt =====
-- The provider's two ways to a tenant, and what seeding an entry again does.
use lamdis_core.Prelude.{
  not, ◌&&◌, ℕ, ◌+◌, ◌≡◌, refl, ◌∙◌, ap, Bool, true, false, some, List, [], ◌∷◌, ◌++◌, ok, arith,
  find, find_sound, any, any_complete, Memᴰ, Bool-cases, Option-cases, inl, inr,
}
use lamdis_core.Text.{Text, text_eq}
use lamdis_core.Text.Laws.{text_eq_iff, text_eq_refl}
use lamdis_core.Json.{Value}
use lamdis_core.Store.{TenantRow, DefinitionRow, OperationRow}
use lamdis_core.Store.Table.{keys_eq, at, at-mem, Distinct}
use lamdis_core.Tenants.{Tenant}
use lamdis_core.Tenants.Memory.{SeedEntry}
use lamdis_core.Tenants.Postgres.{
  is_text, scan_tenant, resolve_tenant_by_host, resolve_tenant_by_id, is_kind, get_connector_creds,
}
use lamdis_core.Tenants.Postgres.Seeding.{
  is_rival, SeedTables, SeedStatement, seed_tenant, find_shopify, seed_checkout, seed_refund,
  shopify, tenant_key, checkout, add_operation, refund, seed_entry,
}

module _ {F : Type 0} where
  find-at :
      (id : Text) (rows : List (TenantRow F))
      → find (λ r. text_eq r.id id) rows ≡ at tenant_key (id ∷ []) rows
  unfolding keys_eq
  find-at id [] = refl
  find-at id (r ∷ rows) = ground (arith, find-at id rows)

  -- What a row must be to scan.
  scan_fields :
      (r : TenantRow F) (t : Tenant) → scan_tenant r ≡ ok t → (t.id ≡ r.id) × (r.host ≡ some t.host)
  unfolding scan_tenant
  scan_fields r t h = elim (Option-cases r.slug) [
    | inl e ↦ absurd (ground arith)
    | inr (a, ea) ↦ elim (Option-cases r.host) [
      | inl e ↦ absurd (ground arith)
      | inr (b, eb) ↦ elim (Option-cases r.oauth_issuer) [
        | inl e ↦ absurd (ground arith)
        | inr (c, ec) ↦ elim (Option-cases r.auth_mode) [
          | inl e ↦ absurd (ground arith)
          | inr (d, ed) ↦ elim (Option-cases r.dpop_required) [
            | inl e ↦ absurd (ground arith)
            | inr (f, ef) ↦ (ground arith, ground arith)
          ]
        ]
      ]
    ]
  ]

  by_id :
      (rows : List (TenantRow F)) (r : TenantRow F)
      → Distinct tenant_key rows
      → Memᴰ r rows
      → resolve_tenant_by_id true rows r.id ≡ scan_tenant r
  unfolding resolve_tenant_by_id
  by_id rows r distinct m = rw (find-at r.id rows, at-mem tenant_key rows r distinct m) refl

  -- A tenant that is found by its host has this host, and is found by its identifier as the same tenant;
  -- identifiers are unique.
  pub resolve_tenant_by_host-by_id :
      (rows : List (TenantRow F)) (host : Text) (t : Tenant)
      → Distinct tenant_key rows
      → resolve_tenant_by_host true rows host ≡ ok t
      → (t.host ≡ host) × (resolve_tenant_by_id true rows t.id ≡ ok t)
  unfolding resolve_tenant_by_host
  resolve_tenant_by_host-by_id rows host t distinct h =
      elim (Option-cases (find (λ (r : TenantRow F). is_text r.host host) rows)) [
        | inl e ↦ absurd (cc (rw e at h))
        | inr (r, e) ↦
            let (q, m) = find_sound (λ (x : TenantRow F). is_text x.host host) rows r e in
            let s : scan_tenant r ≡ ok t = rw e at h in
            let (i, f) = scan_fields r t s in
            let g : text_eq t.host host ≡ true = rw f at q in
            (
              (text_eq_iff t.host host).0 g,
              ap (resolve_tenant_by_id true rows) i ∙ by_id rows r distinct m ∙ s,
            )
      ]

  seed_entry-found :
      (works : SeedStatement → Bool) (ids : ℕ → Text) (i : ℕ) (e : SeedEntry) (t : SeedTables F)
      (d : DefinitionRow F)
      → works find_shopify ≡ true
      → works seed_checkout ≡ true
      → works seed_refund ≡ true
      → find (is_kind e.id shopify) t.definitions ≡ some d
      → ((seed_entry works ids i e t).definitions ≡ t.definitions)
        × ((seed_entry works ids i e t).operations
            ≡ add_operation true t.definitions
                (refund (ids (i + 2)) d.id)
                (add_operation true t.definitions (checkout (ids (i + 1)) d.id) t.operations))
  unfolding seed_entry
  seed_entry-found works ids i e t d finds checks refunds found =
      elim (Bool-cases (works seed_tenant && not (any (is_rival e) t.tenants))) [
        | inl h ↦ (rw (h, finds, found) refl, rw (h, finds, found, checks, refunds) refl)
        | inr h ↦ (rw (h, finds, found) refl, rw (h, finds, found, checks, refunds) refl)
      ]

  any-append_last :
      (test : OperationRow F → Bool) (rows : List (OperationRow F)) (o : OperationRow F)
      → any test rows ≡ false
      → test o ≡ false
      → any test (rows ++ o ∷ []) ≡ false
  any-append_last test [] o h e = ground arith
  any-append_last test (x ∷ rows) o h e = ground (arith, any-append_last test rows o)

  -- Seeding an entry again, where its tenant has a definition of shopify: the stored credentials stay as they
  -- were, whatever the entry now says, and the connector's two operations are added once more. The
  -- statements work and the new identifiers are not used.
  pub seed_entry_again :
      (works : SeedStatement → Bool) (ids : ℕ → Text) (i : ℕ) (e : SeedEntry) (t : SeedTables F)
      (d : DefinitionRow F) (write : Value F → Text) (tenant kind : Text)
      → works find_shopify ≡ true
      → works seed_checkout ≡ true
      → works seed_refund ≡ true
      → find (is_kind e.id shopify) t.definitions ≡ some d
      → any (λ o. text_eq o.id (ids (i + 1))) t.operations ≡ false
      → any (λ o. text_eq o.id (ids (i + 2))) t.operations ≡ false
      → text_eq (ids (i + 1)) (ids (i + 2)) ≡ false
      → let t' = seed_entry works ids i e t in
        (get_connector_creds write true t'.definitions tenant kind
          ≡ get_connector_creds write true t.definitions tenant kind)
        × (t'.operations
            ≡ (t.operations ++ checkout (ids (i + 1)) d.id ∷ []) ++ refund (ids (i + 2)) d.id ∷ [])
  seed_entry_again works ids i e t d write tenant kind finds checks refunds found first second
        apart =
      let (defs, ops) = seed_entry-found works ids i e t d finds checks refunds found in
      let (_, m) = find_sound (is_kind e.id shopify) t.definitions d found in
      let known : any (λ x. text_eq x.id d.id) t.definitions ≡ true =
        any_complete (λ x. text_eq x.id d.id) t.definitions d m (text_eq_refl d.id) in
      let free : any (λ o. text_eq o.id (ids (i + 2)))
            (t.operations ++ checkout (ids (i + 1)) d.id ∷ [])
          ≡ false =
        any-append_last (λ o. text_eq o.id (ids (i + 2))) t.operations (checkout (ids (i + 1)) d.id)
          second apart in
      (
        ap (λ l. get_connector_creds write true l tenant kind) defs,
        ops ∙ rw (known, first, free) refl,
      )
