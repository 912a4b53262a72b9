-- ===== src/Admin/Connectors/Ownership.antt =====
-- Whose rows the requests of a tenant on its connectors change.
use lamdis_core.Prelude.{
  ℕ, suc, ◌≡◌, ◌≢◌, refl, sym, ◌∙◌, ap, ◌⊎◌, inl, inr, Bool, true, false, not, ◌&&◌, Option, none,
  some, List, [], ◌∷◌, ◌++◌, arith, null, any, any_sound, Bool-cases, Option-cases, Memᴰ,
  mem-filter_by,
}
use lamdis_core.Text.{Text, text_eq, trim_space}
use lamdis_core.Text.Laws.{text_eq_iff}
use lamdis_core.Json.{no_fields}
use lamdis_core.Store.{DefinitionRow, OperationRow, JoinedRow, join}
use lamdis_core.Store.Table.{mem-update_where, delete_where, Distinct, mem_unique}
use lamdis_core.Admin.Policies.{ok_answer}
use lamdis_core.Admin.Connectors.{
  ConnectorTables, Statement, read_builtin, update_definition, delete_operations, insert_operation,
  find_definition, scan_into, seed,
}
use lamdis_core.Admin.Connectors.Switch.{is_owned, switch_operation, put_connector_action}
use lamdis_core.Admin.Connectors.Custom.{
  OperationBody, CustomConnectorBody, listed, operation_row, insert_operations, is_known,
  switch_connector,
}
use lamdis_core.Admin.Connectors.Update.{
  apply_enabled, replace_operations, update_custom_connector, kind_taken,
}
use lamdis_core.Admin.Connectors.Enabled.{mem-join, put_connector_action_operations}

blank_builtin : (works : Bool) → null (trim_space (scan_into [] works none)) ≡ true
unfolding trim_space
blank_builtin true = refl
blank_builtin false = refl

module _ {F : Type 0} where
  abbrev pub operation_key : OperationRow F → List Text
  operation_key o = o.id ∷ []

  abbrev pub definition_key : DefinitionRow F → List Text
  definition_key d = d.id ∷ []

  -- An operation of the id that is asked for is one of the tenant's connector, where identifiers are
  -- unique.
  owner_of :
      (tenant cid opid : Text) (t : ConnectorTables F) (r : JoinedRow F)
      → Distinct operation_key t.operations
      → Distinct definition_key t.definitions
      → any (is_owned tenant cid opid) (join t.operations t.definitions) ≡ true
      → Memᴰ r (join t.operations t.definitions)
      → text_eq r.0.id opid ≡ true
      → r.1.tenant_id ≡ tenant
  owner_of tenant cid opid t r ops_distinct defs_distinct owned m h =
      let (x, n, e) =
        any_sound (is_owned tenant cid opid) (join t.operations t.definitions) owned in
      let (xo, xd, xe) = mem-join t.operations t.definitions x n in
      let (ro, rd, re) = mem-join t.operations t.definitions r m in
      let x_id : x.0.id ≡ opid = (text_eq_iff x.0.id opid).0 (ground arith) in
      let r_id : r.0.id ≡ opid = (text_eq_iff r.0.id opid).0 h in
      let same : x.0 ≡ r.0 =
        mem_unique operation_key t.operations x.0 r.0 ops_distinct xo ro (cc (x_id, r_id)) in
      let x_of : x.0.connector_id ≡ x.1.id = (text_eq_iff x.0.connector_id x.1.id).0 xe in
      let r_of : r.0.connector_id ≡ r.1.id = (text_eq_iff r.0.connector_id r.1.id).0 re in
      let keys : x.1.id ≡ r.1.id = sym x_of ∙ ap (λ o. o.connector_id) same ∙ r_of in
      let defs : x.1 ≡ r.1 =
        mem_unique definition_key t.definitions x.1 r.1 defs_distinct xd rd
          (ap (λ i. i ∷ []) keys) in
      sym (ap (λ d. d.tenant_id) defs) ∙ (text_eq_iff x.1.tenant_id tenant).0 (ground arith)

  -- Whatever a tenant asks `putConnectorAction`, the operations of other tenants' connectors stay as they
  -- are; the identifiers of operations and of connectors are unique.
  pub put_connector_action_isolated :
      (reads works : Bool) (tenant cid opid : Text) (body : Option Bool) (t : ConnectorTables F)
      (r : JoinedRow F)
      → Distinct operation_key t.operations
      → Distinct definition_key t.definitions
      → Memᴰ r (join t.operations t.definitions)
      → r.1.tenant_id ≢ tenant
      → Memᴰ r.0 (put_connector_action reads works tenant cid opid body t).1.operations
  put_connector_action_isolated reads works tenant cid opid body t r ops_distinct defs_distinct m
        foreign =
      let (n, _, _) = mem-join t.operations t.definitions r m in
      elim (put_connector_action_operations reads works tenant cid opid body t) [
        | inl e ↦ rw e n
        | inr (enabled, e, owned) ↦ elim (Bool-cases (text_eq r.0.id opid)) [
          | inl h ↦
              absurd (foreign (owner_of tenant cid opid t r ops_distinct defs_distinct owned m h))
          | inr h ↦ rw e (
              mem-update_where (λ o. text_eq o.id opid) (switch_operation enabled) t.operations r.0
                h n)
        ]
      ]

  -- What the loop of inserts adds.
  insert_operations_inv :
      (works : Statement → Bool) (ids : ℕ → Text) (connector : Text) (known : Bool) (i : ℕ)
      (ops : List (OperationBody F)) (rows : List (OperationRow F)) (o : OperationRow F)
      → Memᴰ o (insert_operations works ids connector known i ops rows)
      → Memᴰ o rows
        ⊎ ((j : ℕ) × (op : OperationBody F) × Memᴰ op ops
            × (o ≡ operation_row (ids j) connector op))
  unfolding insert_operations
  insert_operations_inv works ids connector known i [] rows o m = inl m
  insert_operations_inv works ids connector known i (op ∷ ops) rows o m =
      elim (insert_operations_inv works ids connector known (suc i) ops _ o m) [
        | inr (j, x, n, e) ↦ inr (j, x, Memᴰ.tail n, e)
        | inl n ↦ elim (Bool-cases (known && works (insert_operation i))) [
          | inr h ↦ inl (rw h at n)
          | inl h ↦ elim (mem-snoc rows (operation_row (ids i) connector op) o (rw h at n)) [
            | inl k ↦ inl k
            | inr e ↦ inr (i, op, Memᴰ.head refl, e)
          ]
        ]
      ]
    where
      mem-snoc :
          (rows : List (OperationRow F)) (x o : OperationRow F)
          → Memᴰ o (rows ++ x ∷ [])
          → Memᴰ o rows ⊎ (o ≡ x)
      mem-snoc [] x o (Memᴰ.head e) = inr e
      mem-snoc [] x o (Memᴰ.tail m) = elim m [ ]
      mem-snoc (y ∷ rows) x o (Memᴰ.head e) = inl (Memᴰ.head e)
      mem-snoc (y ∷ rows) x o (Memᴰ.tail m) = elim (mem-snoc rows x o m) [
        | inl n ↦ inl (Memᴰ.tail n)
        | inr e ↦ inr e
      ]

  apply_enabled_operations :
      (works : Statement → Bool) (tenant id : Text) (b : CustomConnectorBody F)
      (t : ConnectorTables F)
      → (apply_enabled works tenant id b t).operations ≡ t.operations
  unfolding apply_enabled switch_connector seed
  apply_enabled_operations works tenant id b t = elim (Option-cases b.enabled) [
    | inl e ↦ ground arith
    | inr (enabled, e) ↦ ground arith
  ]

  -- An operation of the body, stored for the connector.
  abbrev pub FromBody : (ℕ → Text) → Text → CustomConnectorBody F → OperationRow F → Type 0
  FromBody ids id b o =
      (j : ℕ) × (op : OperationBody F) × Memᴰ op (listed b) × (o ≡ operation_row (ids j) id op)

  replaced_from :
      (works : Statement → Bool) (ids : ℕ → Text) (id : Text) (b : CustomConnectorBody F)
      (t : ConnectorTables F) (o : OperationRow F)
      → works delete_operations ≡ true
      → null (listed b) ≡ false
      → Memᴰ o (replace_operations works ids id b t).operations
      → text_eq o.connector_id id ≡ true
      → FromBody ids id b o
  unfolding replace_operations delete_where
  replaced_from works ids id b t o deletes filled m h =
      let n : Memᴰ o (
          insert_operations works ids id (is_known id t) 0 (listed b)
            (delete_where (λ x. text_eq x.connector_id id) t.operations)) =
        rw (filled, deletes) at m in
      elim (insert_operations_inv works ids id (is_known id t) 0 (listed b) _ o n) [
        | inr k ↦ k
        | inl k ↦
            let (q, _) = mem-filter_by (λ x. not (text_eq x.connector_id id)) t.operations o k in
            absurd (cc (rw h at q))
      ]

  untaken :
      (tenant id : Text) (b : CustomConnectorBody F) (t : ConnectorTables F)
      → find_definition tenant id t ≡ none
      → kind_taken tenant id b t ≡ false
  untaken tenant id b t e = rw (e, kind_taken) refl

  -- A tenant that does not define a connector is answered with success where its body has operations, and
  -- every operation that the connector then has is one of the body: whoever owns it, all that it had is
  -- gone. The UPDATE and the DELETE work.
  pub update_custom_connector_foreign :
      (works : Statement → Bool) (ids : ℕ → Text) (tenant id : Text) (b : CustomConnectorBody F)
      (t : ConnectorTables F) (o : OperationRow F)
      → find_definition tenant id t ≡ none
      → works update_definition ≡ true
      → works delete_operations ≡ true
      → null (listed b) ≡ false
      → Memᴰ o (update_custom_connector works ids tenant id (some b) t).1.operations
      → text_eq o.connector_id id ≡ true
      → ((update_custom_connector works ids tenant id (some b) t).0 ≡ ok_answer no_fields)
        × FromBody ids id b o
  unfolding update_custom_connector
  update_custom_connector_foreign works ids tenant id b t o foreign updates deletes filled m h =
      let free = untaken tenant id b t foreign in
      (
        rw (free, foreign, blank_builtin (works read_builtin), updates) refl,
        replaced_from works ids id b _ o deletes filled
            (rw (free, foreign, blank_builtin (works read_builtin), updates) at m) h,
      )
