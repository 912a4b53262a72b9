-- ===== src/Admin/Connectors/Service.antt =====
-- A connector that the administration switches on or off, as the registry's query sees it.
use lamdis_core.Prelude.{
  ◌≡◌, refl, ◌∙◌, ap, Bool, true, false, ◌&&◌, Option, none, some, List, [], ◌∷◌, arith, Result, ok,
  if◌then◌else◌, null, any, Bool-cases, Option-cases, inl, inr,
}
use lamdis_core.Text.{Text}
use lamdis_core.Json.{no_fields}
use lamdis_core.Facts.Resolve.{or_empty}
use lamdis_core.Secrets.{Cipher}
use lamdis_core.Store.{DefinitionRow, TenantConnectorRow}
use lamdis_core.Store.Table.{
  keys_eq, upsert, merge, at, Distinct, at-upsert, any-at, any-none, Distinct-upsert,
}
use lamdis_core.Connectors.Registry.{is_enabled_for}
use lamdis_core.Admin.Policies.{ok_answer}
use lamdis_core.Admin.Connectors.{
  ConnectorTables, Statement, connect, ConnectorBody, connect_key, upsert_connect, change_connect,
  new_connect, store_connector, seed, kind_column, kind_for, display_for, put_tenant_connector,
  encrypted,
}

enabled_by : Option TenantConnectorRow → Bool
enabled_by none = false
enabled_by (some r) = or_empty false r.enabled

enabled-merge :
    (new : TenantConnectorRow) (enabled : Bool) (enc : Option Text) (o : Option TenantConnectorRow)
    → new.enabled ≡ some enabled
    → enabled_by (some (merge new (change_connect enabled enc) o)) ≡ enabled
unfolding enabled_by
enabled-merge new enabled enc none e = rw e refl
enabled-merge new enabled enc (some r) e = refl

module _ {F : Type 0} where
  -- The join of the registry's query, as a test of the rows of one key.
  is_enabled_row :
      (tenant : Text) (d : DefinitionRow F) (rows : List TenantConnectorRow)
      → any (is_enabled_for tenant d) rows
        ≡ any (λ r. keys_eq (connect_key r) (tenant ∷ d.id ∷ []) && or_empty false r.enabled) rows
  unfolding is_enabled_for keys_eq
  is_enabled_row tenant d [] = refl
  is_enabled_row tenant d (r ∷ rows) = ground (arith, is_enabled_row tenant d rows)

  is_enabled_at :
      (tenant : Text) (d : DefinitionRow F) (rows : List TenantConnectorRow)
      → Distinct connect_key rows
      → any (is_enabled_for tenant d) rows ≡ enabled_by (at connect_key (tenant ∷ d.id ∷ []) rows)
  unfolding enabled_by
  is_enabled_at tenant d rows distinct =
      is_enabled_row tenant d rows
      ∙ elim (Option-cases (at connect_key (tenant ∷ d.id ∷ []) rows)) [
        | inl e ↦
            rw e (any-none connect_key (tenant ∷ d.id ∷ []) (λ r. or_empty false r.enabled) rows e)
        | inr (r, e) ↦ rw e (
            any-at connect_key (tenant ∷ d.id ∷ []) (λ x. or_empty false x.enabled) rows r distinct
              e)
      ]

  upsert_connect-enabled :
      (tenant id asking : Text) (kind : Option Text) (enabled : Bool) (enc : Option Text)
      (d : DefinitionRow F) (rows : List TenantConnectorRow)
      → Distinct connect_key rows
      → any (is_enabled_for asking d) (upsert_connect tenant id kind enabled enc rows) ≡ (
          if keys_eq (tenant ∷ id ∷ []) (asking ∷ d.id ∷ [])
          then enabled
          else any (is_enabled_for asking d) rows)
  unfolding upsert_connect
  upsert_connect-enabled tenant id asking kind enabled enc d rows distinct =
      let k : List Text = tenant ∷ id ∷ [] in
      let j : List Text = asking ∷ d.id ∷ [] in
      let new = new_connect tenant id kind enabled enc in
      let change = change_connect enabled enc in
      is_enabled_at asking d (upsert (λ r. keys_eq (connect_key r) k) new change rows)
        (Distinct-upsert connect_key k new change rows refl (λ r. refl) distinct)
      ∙ ap enabled_by (at-upsert connect_key k j new change rows refl (λ r. refl))
      ∙ elim (Bool-cases (keys_eq k j)) [
        | inl e ↦ rw e (enabled-merge new enabled enc (at connect_key k rows) refl)
        | inr e ↦ rw (e, is_enabled_at asking d rows distinct) refl
      ]

  seed_connects :
      (works : Statement → Bool) (tenant display : Text) (t : ConnectorTables F)
      → (seed works tenant display t).tenant_connectors ≡ t.tenant_connectors
  unfolding seed
  seed_connects works tenant display t = ground arith

  store_connects :
      (works : Statement → Bool) (tenant id : Text) (enabled : Bool) (enc : Option Text)
      (t : ConnectorTables F)
      → works connect ≡ true
      → ((store_connector works tenant id enabled enc t).0 ≡ ok_answer no_fields)
        × ((store_connector works tenant id enabled enc t).1.tenant_connectors
            ≡ upsert_connect tenant id
                (kind_column works (kind_for works tenant id t) t)
                enabled
                enc
                t.tenant_connectors)
  unfolding store_connector
  store_connects works tenant id true enc t h =
      let t' : ConnectorTables F = record t {
        tenant_connectors =
            upsert_connect tenant id (kind_column works (kind_for works tenant id t) t) true enc
              t.tenant_connectors;
      } in
      (rw h refl, rw h (seed_connects works tenant (display_for works tenant id t') t'))
  store_connects works tenant id false enc t h = (rw h refl, rw h refl)

  -- Whoever asks: after `putTenantConnector` a connector is enabled for the registry's query exactly as the
  -- body says, for the tenant and the connector of the request, and as it was for all others; where the
  -- secrets are encrypted and the statement works, and a tenant and a connector have one row.
  pub put_tenant_connector-enabled :
      (c : Cipher F) (key : Text) (nonce : Result Text) (works : Statement → Bool)
      (tenant id asking : Text) (b : ConnectorBody) (enc : Option Text) (d : DefinitionRow F)
      (t : ConnectorTables F)
      → null id ≡ false
      → encrypted c key nonce b.secrets ≡ ok enc
      → works connect ≡ true
      → Distinct connect_key t.tenant_connectors
      → let (answer, t') = put_tenant_connector c key nonce works tenant id (some b) t in
        (answer ≡ ok_answer no_fields)
        × (any (is_enabled_for asking d) t'.tenant_connectors ≡ (
            if keys_eq (tenant ∷ id ∷ []) (asking ∷ d.id ∷ [])
            then b.enabled
            else any (is_enabled_for asking d) t.tenant_connectors))
  unfolding put_tenant_connector
  put_tenant_connector-enabled c key nonce works tenant id asking b enc d t named sealed
        works_connect distinct =
      let (e, f) = store_connects works tenant id b.enabled enc t works_connect in
      rw (named, sealed)
        (
          e,
          ap (any (is_enabled_for asking d)) f
              ∙ upsert_connect-enabled tenant id asking
                  (kind_column works (kind_for works tenant id t) t) b.enabled enc d
                  t.tenant_connectors distinct,
        )
