-- ===== src/Connectors/Registry/Loading.antt =====
-- What `LoadOperations` gives.
use lamdis_core.Prelude.{
  ℕ, ◌+◌, ◌<◌, ◌≡◌, refl, sym, true, Option, none, some, List, [], ◌∷◌, ◌++◌, map, Result, ok,
  arith, filter_by, mem-filter_by, Memᴰ, ◌⊎◌, inl, inr, Bool-cases,
}
use lamdis_core.Text.{Text, text_eq}
use lamdis_core.Text.Maps.{insert, lookup-insert_self}
use lamdis_core.Store.{DefinitionRow, TenantConnectorRow, JoinedRow, join}
use lamdis_core.Connectors.Registry.{
  Operation, Tables, Cache, cache_ttl, scan_operation, is_enabled_for, enabled_rows,
  query_operations, fresh_entry, read_cached, fetch_operations, store_fetched, load_operations,
}

mem-append : {A : Type 0} (xs ys : List A) (a : A) → Memᴰ a (xs ++ ys) → Memᴰ a xs ⊎ Memᴰ a ys
mem-append [] ys a m = inr m
mem-append (x ∷ xs) ys a (Memᴰ.head e) = inl (Memᴰ.head e)
mem-append (x ∷ xs) ys a (Memᴰ.tail m) = elim (mem-append xs ys a m) [
  | inl n ↦ inl (Memᴰ.tail n)
  | inr n ↦ inr n
]

mem-map :
    {A B : Type 0} (f : A → B) (xs : List A) (b : B)
    → Memᴰ b (map f xs)
    → (a : A) × Memᴰ a xs × (f a ≡ b)
mem-map f [] b m = elim m [ ]
mem-map f (x ∷ xs) b (Memᴰ.head e) = (x, Memᴰ.head refl, sym e)
mem-map f (x ∷ xs) b (Memᴰ.tail m) = let (a, n, e) = mem-map f xs b m in (a, Memᴰ.tail n, e)

-- A row of the query stands for an operation of a connector of the tenant that it has enabled.
abbrev pub Enables : {F : Type 0} → Text → List TenantConnectorRow → DefinitionRow F → Type 0
Enables tenant tcs d =
    (text_eq d.tenant_id tenant ≡ true)
    × ((tc : TenantConnectorRow) × Memᴰ tc tcs × (is_enabled_for tenant d tc ≡ true))

module _ {F : Type 0} where
  read-store :
      (tenant : Text) (now later : ℕ) (ops : List (Operation F)) (cache : Cache F)
      → later < now + cache_ttl
      → read_cached tenant later (insert tenant (now, ops) cache) ≡ some ops
  unfolding read_cached fresh_entry
  read-store tenant now later ops cache h =
      rw (lookup-insert_self tenant (now, ops) cache) (ground arith)

  pub load_operations-hit :
      (db : Option (Result (Tables F))) (tenant : Text) (now : ℕ) (cache : Cache F)
      (ops : List (Operation F))
      → read_cached tenant now cache ≡ some ops
      → load_operations db tenant now cache ≡ (ok ops, cache)
  unfolding load_operations
  load_operations-hit db tenant now cache ops h = ground arith

  pub load_operations-miss :
      (db : Option (Result (Tables F))) (tenant : Text) (now : ℕ) (cache : Cache F)
      → read_cached tenant now cache ≡ none
      → load_operations db tenant now cache
        ≡ store_fetched tenant now cache (fetch_operations db tenant)
  unfolding load_operations
  load_operations-miss db tenant now cache h = ground arith

  -- Operations that were loaded, from the database or the samples, are those of every call for the tenant in
  -- the next 30 seconds, whatever has become of the database, and the cache stays as it is.
  pub load_operations_cached :
      (db db' : Option (Result (Tables F))) (tenant : Text) (now later : ℕ) (cache : Cache F)
      (ops : List (Operation F))
      → read_cached tenant now cache ≡ none
      → fetch_operations db tenant ≡ ok ops
      → later < now + cache_ttl
      → (load_operations db tenant now cache ≡ (ok ops, insert tenant (now, ops) cache))
        × (load_operations db' tenant later (insert tenant (now, ops) cache)
            ≡ (ok ops, insert tenant (now, ops) cache))
  load_operations_cached db db' tenant now later cache ops miss fetched h = (
    rw (load_operations-miss db tenant now cache miss, fetched) (unfold store_fetched in refl),
    load_operations-hit db' tenant later _ ops (read-store tenant now later ops cache h),
  )

  enabled_rows_sound :
      (tenant : Text) (tcs : List TenantConnectorRow) (rows : List (JoinedRow F)) (r : JoinedRow F)
      → Memᴰ r (enabled_rows tenant tcs rows)
      → Memᴰ r rows × Enables tenant tcs r.1
  unfolding enabled_rows
  enabled_rows_sound tenant tcs [] r m = elim m [ ]
  enabled_rows_sound tenant tcs ((o, d) ∷ rows) r m =
      elim (Bool-cases (text_eq d.tenant_id tenant)) [
        | inr e ↦ later (enabled_rows_sound tenant tcs rows r (rw e at m))
        | inl e ↦
            elim (mem-append (map (λ tc. (o, d)) (filter_by (is_enabled_for tenant d) tcs))
              (enabled_rows tenant tcs rows) r (rw e at m)) [
                | inr n ↦ later (enabled_rows_sound tenant tcs rows r n)
                | inl n ↦
                    let (tc, k, same) =
                      mem-map (λ tc. (o, d)) (filter_by (is_enabled_for tenant d) tcs) r n in
                    let (yes_enabled, q) = mem-filter_by (is_enabled_for tenant d) tcs tc k in
                    (Memᴰ.head (sym same), rw (← same) (e, (tc, q, yes_enabled)))
              ]
      ]
    where
      later : Memᴰ r rows × Enables tenant tcs r.1 → Memᴰ r ((o, d) ∷ rows) × Enables tenant tcs r.1
      later (k, en) = (Memᴰ.tail k, en)

  -- Every operation that the database gives for a tenant is that of a connector which the tenant
  -- defines and has enabled.
  pub query_operations_sound :
      (tenant : Text) (db : Tables F) (op : Operation F)
      → Memᴰ op (query_operations tenant db)
      → (r : JoinedRow F) × (scan_operation r ≡ op)
        × Memᴰ r (join db.operations db.definitions)
        × Enables tenant db.tenant_connectors r.1
  unfolding query_operations
  query_operations_sound tenant db op m =
      let (r, n, e) =
        mem-map scan_operation
          (enabled_rows tenant db.tenant_connectors (join db.operations db.definitions)) op m in
      let (k, en) =
        enabled_rows_sound tenant db.tenant_connectors (join db.operations db.definitions) r n in
      (r, e, k, en)
