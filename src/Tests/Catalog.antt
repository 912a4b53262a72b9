-- ===== src/Tests/Catalog.antt =====
-- Runs of the registry, the manifest and the tenants.
use lamdis_core.Prelude.{
  Bool-cases, inl, inr, false, none, ℕ, ◌≡◌, ◌≢◌, refl, true, some, [], ◌∷◌, ok, Memᴰ, arith,
}
use lamdis_core.Text.{codes, text_eq, trim, trim_space, to_lower, contains, cut, split}
use lamdis_core.Text.Maps.{lookup, insert}
use lamdis_core.Slug.{slug, slug_segment, normalize_kind, derive_name, derive_short}
use lamdis_core.Store.{JoinedRow, join}
use lamdis_core.Connectors.Registry.{
  Operation, Tables, Cache, query_operations, load_operations, scan_operation,
}
use lamdis_core.Connectors.Registry.Loading.{Enables, query_operations_sound}
use lamdis_core.Connectors.Registry.Settling.{run_calls, IsSettling, load_operations_settles}
use lamdis_core.Orchestrator.Select.{split_key, in_namespace, has_short, select_operation}
use lamdis_core.Manifest.{action_key}
use lamdis_core.Manifest.Keys.{split_key-action_key, select_operation-action_key}
use lamdis_core.Tenants.Memory.{SeedEntry}
use lamdis_core.Tests.Data.{shop, orders_operation, store_definition}

abbrev pub tables : Tables ℕ
tables = record {
  operations = orders_operation ∷ [];
  definitions = store_definition ∷ [];
  tenant_connectors =
      record {
        tenant_id = shop;
        connector_id = codes "c1";
        kind = none;
        enabled = some true;
        secrets_encrypted = none;
      }
      ∷ [];
}

abbrev pub loaded : Operation ℕ
loaded = scan_operation (orders_operation, store_definition)

orders_loaded : query_operations shop tables ≡ loaded ∷ []
unfolding query_operations join text_eq
orders_loaded = refl

abbrev empty : Cache ℕ
empty = []

old-IsSettling : IsSettling tables 4 (insert shop (3, []) empty)
unfolding lookup insert text_eq
old-IsSettling t entry h =
    inl (elim (Bool-cases (text_eq shop t)) [ inl e ↦ ground arith | inr e ↦ ground arith ])

load_operations_settles_example :
    (load_operations (some (ok tables)) shop 30_000_000_004 (
      run_calls tables
        ((true, shop, 5) ∷ (false, codes "other", 6) ∷ [])
        (insert shop (3, []) empty))).0
    ≡ ok (query_operations shop tables)
load_operations_settles_example =
    load_operations_settles tables 4 30_000_000_004 shop
      ((true, shop, 5) ∷ (false, codes "other", 6) ∷ []) (insert shop (3, []) empty) old-IsSettling
      (omega arith)

loaded_there : Memᴰ loaded (query_operations shop tables)
loaded_there = rw orders_loaded (Memᴰ.head refl)

query_operations_sound_example :
    (r : JoinedRow ℕ) × (scan_operation r ≡ loaded)
    × Memᴰ r (join tables.operations tables.definitions)
    × Enables shop tables.tenant_connectors r.1
query_operations_sound_example = query_operations_sound shop tables loaded loaded_there

store_kind : normalize_kind (codes "Store") ≢ []
unfolding normalize_kind trim to_lower
store_kind h = cc

split_key-action_key_example :
    split_key (action_key shop (some (codes "Store")) (codes "/orders/{id}"))
    ≡ (normalize_kind (codes "Store"), derive_name (codes "/orders/{id}"))
split_key-action_key_example =
    split_key-action_key shop (codes "Store") (codes "/orders/{id}") store_kind

same_name : derive_short (codes "/orders/{id}") ≡ derive_name (codes "/orders/{id}")
unfolding derive_short derive_name slug slug_segment trim trim_space to_lower contains cut split
    text_eq
same_name = refl

select_operation-action_key_example :
    (s : JoinedRow ℕ) × (select_operation
        (action_key shop (some (codes "Store")) (codes "/orders/{id}"))
        ((orders_operation, store_definition) ∷ [])
      ≡ some s)
    × (in_namespace (normalize_kind (codes "Store")) s ≡ true)
    × (has_short (derive_name (codes "/orders/{id}")) s ≡ true)
select_operation-action_key_example =
    select_operation-action_key shop (orders_operation, store_definition)
      ((orders_operation, store_definition) ∷ []) (Memᴰ.head refl) (unfold trim_space in refl)
      store_kind same_name

abbrev pub entry : SeedEntry
entry = record {
  id = codes "t1";
  slug = codes "one";
  host = codes "one.test";
  oauth_issuer = [];
  jwks_url = [];
  base_public_url = [];
  shopify_domain = codes "one.shop";
  shopify_token = codes "token";
}
