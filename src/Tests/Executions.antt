-- ===== src/Tests/Executions.antt =====
-- Runs of the orchestrator and of the fact engine.
use lamdis_core.Prelude.{
  Option, ℕ, ◌≡◌, refl, Bool, true, false, ◌&&◌, some, List, [], ◌∷◌, Result, ok, err, Memᴰ, find,
}
use lamdis_core.Text.{Text, codes, text_eq, cut, trim, trim_space, to_lower, contains, split}
use lamdis_core.Json.{Fields, Value, str, no_items, no_fields, field, get, put}
use lamdis_core.Facts.Resolve.{or_empty, Mapping, map_value, apply_mappings}
use lamdis_core.Facts.Laws.{last_value, apply_mappings-get}
use lamdis_core.Store.{JoinedRow, join}
use lamdis_core.Slug.{slug, derive_short}
use lamdis_core.Orchestrator.Select.{
  split_key, tenant_rows, in_namespace, has_short, select_operation,
}
use lamdis_core.Orchestrator.Select.Choice.{prefer, select_operation_lem, chosen_sound}
use lamdis_core.Orchestrator.Execute.{find_operation, execute}
use lamdis_core.Orchestrator.Execute.Laws.{Ran, execute_sends}
use lamdis_core.Orchestrator.Template.{bind_path}
use lamdis_core.Orchestrator.Template.Paths.{count, bind_path-count}
use lamdis_core.Tests.Data.{
  clock, machine, world, executions, inputs, shop, action, orders_operation, store_definition,
}

abbrev rows : List (JoinedRow ℕ)
rows = tenant_rows shop (orders_operation ∷ []) (store_definition ∷ [])

select_operation_lem_example :
    select_operation action rows
    ≡ prefer
        (find (λ r. in_namespace (split_key action).0 r && has_short (split_key action).1 r) rows)
        (find (λ r. in_namespace (split_key action).0 r) rows)
select_operation_lem_example = select_operation_lem action rows

abbrev orders_row : JoinedRow ℕ
orders_row = (orders_operation, store_definition)

orders_chosen : select_operation action rows ≡ some orders_row
unfolding select_operation tenant_rows join text_eq cut slug derive_short trim trim_space to_lower
    contains split
orders_chosen = refl

chosen_sound_example :
    (text_eq store_definition.tenant_id shop ≡ true)
    × (or_empty true orders_operation.enabled ≡ true)
    × (in_namespace (split_key action).0 orders_row ≡ true)
    × Memᴰ orders_row (join (orders_operation ∷ []) (store_definition ∷ []))
chosen_sound_example =
    chosen_sound shop action (orders_operation ∷ []) (store_definition ∷ []) orders_row
      orders_chosen

execute_sends_example :
    Ran machine world.valid world.http inputs
      (find_operation (some executions) shop action)
      (execute machine world.valid world.http
        (some executions)
        shop
        action
        (codes "d1")
        inputs).outcome
      (execute machine world.valid world.http
        (some executions)
        shop
        action
        (codes "d1")
        inputs).requests
execute_sends_example =
    execute_sends machine world.valid world.http (some executions) shop action (codes "d1") inputs

-- The search of the tests gives the document for the path "ok", and fails for others.
abbrev search : Text → Value ℕ → Result (Value ℕ)
search path v = elim (text_eq path (codes "ok")) [ true ↦ ok v | false ↦ err ]

abbrev mapping : Text → Text → Bool → Mapping ℕ
mapping path key required = record {
  id = [];
  action_key = action;
  name = [];
  path = path;
  fact_key = key;
  transform = [];
  transform_args = no_items;
  required = required;
}

abbrev mappings : List (Mapping ℕ)
mappings = mapping (codes "ok") (codes "k") true ∷ mapping (codes "no") (codes "k") false ∷ []

abbrev doc : Value ℕ
doc = str (codes "v")

mappings_end :
    apply_mappings machine search doc clock no_fields mappings
    ≡ ok (field (codes "k") doc no_fields)
unfolding apply_mappings map_value text_eq put
mappings_end = refl

apply_mappings-get_example :
    get (codes "k") (field (codes "k") doc no_fields)
    ≡ last_value machine search doc (codes "k") clock (get (codes "k") no_fields) mappings
apply_mappings-get_example =
    apply_mappings-get machine search doc (codes "k") mappings clock no_fields
      (field (codes "k") doc no_fields) mappings_end

-- An id that tries to leave its path segment.
abbrev climbing : Option (Fields ℕ)
climbing = some (field (codes "id") (str (codes "../7?x")) no_fields)

abbrev path_params : Option (Fields ℕ)
path_params = some (field (codes "id") (str (codes "{{id}}")) no_fields)

bind_path-count_example :
    count b'/' (bind_path machine climbing path_params (codes "/orders/{id}"))
    ≡ count b'/' (codes "/orders/{id}")
bind_path-count_example =
    bind_path-count machine climbing path_params (codes "/orders/{id}") b'/' refl
