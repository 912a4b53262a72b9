-- ===== src/Admin/Connectors/Enabled.antt =====
-- What switching a connector or one of its operations on and off does to the services that execute them.
use mathlib.Core.List.{map-append}
use lamdis_core.Prelude.{
  ◌≡◌, refl, ◌∙◌, ap, ◌⊎◌, inl, inr, Bool, true, false, ◌||◌, Option, none, some, List, [], ◌∷◌,
  ◌++◌, map, arith, if◌then◌else◌, null, any, filter_by, Bool-cases, Memᴰ, mem-filter_by,
}
use lamdis_core.Text.{Text, text_eq}
use lamdis_core.Facts.Resolve.{or_empty}
use lamdis_core.Store.{DefinitionRow, OperationRow, TenantConnectorRow, JoinedRow, join}
use lamdis_core.Store.Table.{update_where, mem-update_where_inv}
use lamdis_core.Orchestrator.Select.{select_operation, tenant_rows}
use lamdis_core.Orchestrator.Select.Choice.{chosen_sound}
use lamdis_core.Connectors.Registry.{
  Tables, query_operations, enabled_rows, scan_operation, is_enabled_for,
}
use lamdis_core.Admin.Connectors.{ConnectorTables}
use lamdis_core.Admin.Connectors.Switch.{is_owned, switch_operation, put_connector_action}

module _ {F : Type 0} where
  -- A joined row consists of an operation and a definition of the tables.
  mem-pairs :
      (o : OperationRow F) (defs : List (DefinitionRow F)) (r : JoinedRow F)
      (rest : List (JoinedRow F))
      → Memᴰ r (map (λ d. (o, d)) defs ++ rest)
      → ((r.0 ≡ o) × Memᴰ r.1 defs) ⊎ Memᴰ r rest
  mem-pairs o [] r rest m = inr m
  mem-pairs o (d ∷ defs) r rest (Memᴰ.head e) = inl (ap (λ x. x.0) e, Memᴰ.head (ap (λ x. x.1) e))
  mem-pairs o (d ∷ defs) r rest (Memᴰ.tail m) = elim (mem-pairs o defs r rest m) [
    | inl (e, n) ↦ inl (e, Memᴰ.tail n)
    | inr n ↦ inr n
  ]

  pub mem-join :
      (ops : List (OperationRow F)) (defs : List (DefinitionRow F)) (r : JoinedRow F)
      → Memᴰ r (join ops defs)
      → Memᴰ r.0 ops × Memᴰ r.1 defs × (text_eq r.0.connector_id r.1.id ≡ true)
  unfolding join
  mem-join [] defs r m = elim m [ ]
  mem-join (o ∷ ops) defs r m =
      elim (mem-pairs o (filter_by (λ d. text_eq o.connector_id d.id) defs) r (join ops defs) m) [
        | inl (e, n) ↦
            let (q, k) = mem-filter_by (λ d. text_eq o.connector_id d.id) defs r.1 n in
            (Memᴰ.head e, k, rw e q)
        | inr n ↦ let (a, b, c) = mem-join ops defs r n in (Memᴰ.tail a, b, c)
      ]

  -- The tables behind a request that switches an operation.
  abbrev pub switched : Text → Text → Text → Bool → ConnectorTables F → ConnectorTables F
  switched tenant cid opid enabled t =
      (put_connector_action true true tenant cid opid (some enabled) t).1

  switched_lem :
      (tenant cid opid : Text) (enabled : Bool) (t : ConnectorTables F)
      → null cid ≡ false
      → null opid ≡ false
      → any (is_owned tenant cid opid) (join t.operations t.definitions) ≡ true
      → switched tenant cid opid enabled t ≡ record t {
        operations = update_where (λ o. text_eq o.id opid) (switch_operation enabled) t.operations;
      }
  unfolding put_connector_action
  switched_lem tenant cid opid enabled t c o owned = ground (arith, c, o, owned)

  switched_off :
      (opid : Text) (o x : OperationRow F)
      → o ≡ (if text_eq x.id opid then switch_operation false x else x)
      → or_empty true o.enabled ≡ true
      → text_eq o.id opid ≡ false
  switched_off opid o x e on = elim (Bool-cases (text_eq x.id opid)) [
    | inl h ↦
        let f : o ≡ switch_operation false x = rw h at e in
        absurd (cc (on, ap (λ y. or_empty true y.enabled) f))
    | inr h ↦ let f : o ≡ x = rw h at e in rw f h
  ]

  -- An operation that a tenant has switched off is not chosen by the orchestrator, whatever the key and
  -- whichever tenant asks; the tenant's connector has the operation.
  pub put_connector_action-chosen :
      (tenant cid opid : Text) (t : ConnectorTables F) (asking key : Text) (r : JoinedRow F)
      → null cid ≡ false
      → null opid ≡ false
      → any (is_owned tenant cid opid) (join t.operations t.definitions) ≡ true
      → let t' = switched tenant cid opid false t in
        select_operation key (tenant_rows asking t'.operations t'.definitions) ≡ some r
        → text_eq r.0.id opid ≡ false
  put_connector_action-chosen tenant cid opid t asking key r c o owned h =
      let ops = update_where (λ x. text_eq x.id opid) (switch_operation false) t.operations in
      let h' : select_operation key (tenant_rows asking ops t.definitions) ≡ some r =
        rw (switched_lem tenant cid opid false t c o owned) at h in
      let (own, on, ns, m) = chosen_sound asking key ops t.definitions r h' in
      let (n, _, _) = mem-join ops t.definitions r m in
      let (x, _, e) =
        mem-update_where_inv (λ y. text_eq y.id opid) (switch_operation false) t.operations r.0 n in
      switched_off opid r.0 x e on

  -- The registry's view
  abbrev pub registry_tables : ConnectorTables F → Tables F
  registry_tables t = record {
    operations = t.operations;
    definitions = t.definitions;
    tenant_connectors = t.tenant_connectors;
  }

  scan_rows-switch :
      (tenant opid : Text) (enabled : Bool) (tcs : List TenantConnectorRow) (o : OperationRow F)
      (defs : List (DefinitionRow F)) (rest rest' : List (JoinedRow F))
      → map scan_operation (enabled_rows tenant tcs rest)
        ≡ map scan_operation (enabled_rows tenant tcs rest')
      → map scan_operation
          (enabled_rows tenant tcs (map (λ d. (switch_operation enabled o, d)) defs ++ rest))
        ≡ map scan_operation (enabled_rows tenant tcs (map (λ d. (o, d)) defs ++ rest'))
  unfolding enabled_rows scan_operation
  scan_rows-switch tenant opid enabled tcs o [] rest rest' e = e
  scan_rows-switch tenant opid enabled tcs o (d ∷ defs) rest rest' e =
      let ih = scan_rows-switch tenant opid enabled tcs o defs rest rest' e in
      elim (Bool-cases (text_eq d.tenant_id tenant)) [
        | inr h ↦ rw h ih
        | inl h ↦ rw h (scan-append (filter_by (is_enabled_for tenant d) tcs) _ _ o d enabled ih)
      ]
    where
      scan-append :
          (tcs : List TenantConnectorRow) (xs ys : List (JoinedRow F)) (o : OperationRow F)
          (d : DefinitionRow F) (enabled : Bool)
          → map scan_operation xs ≡ map scan_operation ys
          → map scan_operation (map (λ tc. (switch_operation enabled o, d)) tcs ++ xs)
            ≡ map scan_operation (map (λ tc. (o, d)) tcs ++ ys)
      scan-append [] xs ys o d enabled e = e
      scan-append (tc ∷ tcs) xs ys o d enabled e =
          ap (λ l. scan_operation (o, d) ∷ l) (scan-append tcs xs ys o d enabled e)

  same_rows :
      (tenant : Text) (tcs : List TenantConnectorRow) (o : OperationRow F)
      (defs : List (DefinitionRow F)) (rest rest' : List (JoinedRow F))
      → map scan_operation (enabled_rows tenant tcs rest)
        ≡ map scan_operation (enabled_rows tenant tcs rest')
      → map scan_operation (enabled_rows tenant tcs (map (λ d. (o, d)) defs ++ rest))
        ≡ map scan_operation (enabled_rows tenant tcs (map (λ d. (o, d)) defs ++ rest'))
  unfolding enabled_rows
  same_rows tenant tcs o [] rest rest' e = e
  same_rows tenant tcs o (d ∷ defs) rest rest' e =
      let ih = same_rows tenant tcs o defs rest rest' e in
      elim (Bool-cases (text_eq d.tenant_id tenant)) [
        | inr h ↦ rw h ih
        | inl h ↦ rw (h, map-append, map-append) (rw ih refl)
      ]

  scan-switch :
      (tenant opid : Text) (enabled : Bool) (tcs : List TenantConnectorRow)
      (ops : List (OperationRow F)) (defs : List (DefinitionRow F))
      → map scan_operation (
          enabled_rows tenant tcs
            (join (update_where (λ o. text_eq o.id opid) (switch_operation enabled) ops) defs))
        ≡ map scan_operation (enabled_rows tenant tcs (join ops defs))
  unfolding update_where join
  scan-switch tenant opid enabled tcs [] defs = refl
  scan-switch tenant opid enabled tcs (o ∷ ops) defs =
      let ih = scan-switch tenant opid enabled tcs ops defs in
      elim (Bool-cases (text_eq o.id opid)) [
        | inl e ↦ rw e (
            scan_rows-switch tenant opid enabled tcs o
              (filter_by (λ d. text_eq o.connector_id d.id) defs) _ _ ih)
        | inr e ↦
            rw e (same_rows tenant tcs o (filter_by (λ d. text_eq o.connector_id d.id) defs) _ _ ih)
      ]

  pub put_connector_action_operations :
      (reads works : Bool) (tenant cid opid : Text) (body : Option Bool) (t : ConnectorTables F)
      → ((put_connector_action reads works tenant cid opid body t).1 ≡ t)
        ⊎ ((enabled : Bool) × ((put_connector_action reads works tenant cid opid body t).1
              ≡ record t {
                operations =
                    update_where (λ o. text_eq o.id opid) (switch_operation enabled) t.operations;
              })
            × (any (is_owned tenant cid opid) (join t.operations t.definitions) ≡ true))
  unfolding put_connector_action
  put_connector_action_operations reads works tenant cid opid none t = inl (ground arith)
  put_connector_action_operations reads false tenant cid opid (some enabled) t = inl (ground arith)
  put_connector_action_operations false true tenant cid opid (some enabled) t = inl (ground arith)
  put_connector_action_operations true true tenant cid opid (some enabled) t =
      elim (Bool-cases (null cid || null opid)) [
        | inl e ↦ inl (ground arith)
        | inr e ↦
            elim (Bool-cases (any (is_owned tenant cid opid) (join t.operations t.definitions))) [
              | inl f ↦ inr (enabled, ground arith, f)
              | inr f ↦ inl (ground arith)
            ]
      ]

  -- Switching an operation on or off changes nothing in what the registry's query gives, to the connector
  -- service and to the manifest, for any tenant: there the operation stays as it was.
  pub query_operations-put_connector_action :
      (reads works : Bool) (tenant cid opid : Text) (body : Option Bool) (t : ConnectorTables F)
      (asking : Text)
      → query_operations asking
          (registry_tables (put_connector_action reads works tenant cid opid body t).1)
        ≡ query_operations asking (registry_tables t)
  unfolding query_operations
  query_operations-put_connector_action reads works tenant cid opid body t asking =
      elim (put_connector_action_operations reads works tenant cid opid body t) [
        | inl e ↦ ap (λ x. query_operations asking (registry_tables x)) e
        | inr (enabled, e, _) ↦
            ap (λ x. query_operations asking (registry_tables x)) e
            ∙ scan-switch asking opid enabled t.tenant_connectors t.operations t.definitions
      ]
