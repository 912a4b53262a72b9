-- ===== src/Facts/Resolve.antt =====
-- `ResolveFacts`, `ResolverNeeds` and their loaders, internal/facts/engine.go. A table is the list
-- of its rows; `sees` is the database's row security, which tells whether a session of one tenant
-- sees a row of another.
use lamdis_core.Prelude.{
  Bool, true, false, not, ◌&&◌, Option, none, some, List, [], ◌∷◌, ◌++◌, Result, ok, err, ◌>>=◌,
  if◌then◌else◌, filter_by, null,
}
use lamdis_core.Text.{Text, codes, text_eq}
use lamdis_core.Json.{
  Runtime, Clock, later, Value, obj, arr, Items, no_items, Fields, no_fields, put, of_map, as_map,
  as_maps, as_items,
}
use lamdis_core.Facts.Transforms.{apply_transform}

-- A row of fact_resolvers. A column that may be NULL is an `Option`.
pub record ResolverRow (F : Type 0) : Type 0 where
  pub tenant_id : Text
  pub id : Text
  pub action_key : Text
  pub name : Text
  pub connector_key : Option Text
  pub request_template : Option (Value F)
  pub response_sample : Option (Value F)
  pub needs : Option (Value F)
  pub enabled : Bool

-- A row of fact_mappings.
pub record MappingRow (F : Type 0) : Type 0 where
  pub tenant_id : Text
  pub id : Text
  pub action_key : Text
  pub name : Text
  pub jmespath : Text
  pub fact_key : Text
  pub transform : Option Text
  pub transform_args : Option (Value F)
  pub required : Bool

pub record Resolver (F : Type 0) : Type 0 where
  pub id : Text
  pub action_key : Text
  pub name : Text
  pub connector_key : Text
  pub request_tmpl : Option (Fields F)
  pub response_sample : Option (Fields F)
  pub needs : List (Option (Fields F))

pub record Mapping (F : Type 0) : Type 0 where
  pub id : Text
  pub action_key : Text
  pub name : Text
  pub path : Text
  pub fact_key : Text
  pub transform : Text
  pub transform_args : Items F
  pub required : Bool

-- What `ResolveFacts` meets of the database: its tables, and whether each of its statements works.
pub record FactStore (F : Type 0) : Type 0 where
  pub resolvers : List (ResolverRow F)
  pub mappings : List (MappingRow F)
  pub begins : Bool
  pub sets_tenant : Bool
  pub commits : Bool

-- The two results of `ResolveFacts`. A commit that fails leaves the facts beside the error.
pub record Resolved (F : Type 0) : Type 0 where
  pub facts : Option (Fields F)
  pub failed : Bool

abbrev pub or_empty {ℓ} : {A : Type ℓ} → A → Option A → A
or_empty d none = d
or_empty d (some a) = a

module _ {F : Type 0} where
  abbrev empty_obj : Value F
  empty_obj = obj no_fields

  abbrev empty_arr : Value F
  empty_arr = arr no_items

  -- rows.Scan into strings fails at a NULL; the other columns have a COALESCE.
  unfoldable pub scan_resolver : ResolverRow F → Result (Resolver F)
  scan_resolver r = elim r.connector_key [
    | none ↦ err
    | some ck ↦ ok (record {
      id = r.id;
      action_key = r.action_key;
      name = r.name;
      connector_key = ck;
      request_tmpl = as_map (or_empty empty_obj r.request_template);
      response_sample = as_map (or_empty empty_obj r.response_sample);
      needs = as_maps (or_empty empty_arr r.needs);
    })
  ]

  unfoldable pub scan_resolvers : List (ResolverRow F) → Result (List (Resolver F))
  unfolding scan_resolver
  scan_resolvers [] = ok []
  scan_resolvers (r ∷ rows) = do x ← scan_resolver r; xs ← scan_resolvers rows; ok (x ∷ xs)

  scan_mapping : MappingRow F → Mapping F
  scan_mapping m = record {
    id = m.id;
    action_key = m.action_key;
    name = m.name;
    path = m.jmespath;
    fact_key = m.fact_key;
    transform = or_empty [] m.transform;
    transform_args = as_items (or_empty empty_arr m.transform_args);
    required = m.required;
  }

  scan_mappings : List (MappingRow F) → List (Mapping F)
  unfolding scan_mapping
  scan_mappings [] = []
  scan_mappings (m ∷ rows) = scan_mapping m ∷ scan_mappings rows

  -- resMap[r.Name] = r.ResponseSample
  unfoldable pub resolver_map : Fields F → List (Resolver F) → Fields F
  resolver_map m [] = m
  resolver_map m (r ∷ rs) = resolver_map (put r.name (of_map r.response_sample) m) rs

  unfoldable pub fact_doc : Option (Fields F) → List (Resolver F) → Value F
  unfolding resolver_map
  fact_doc inputs rs = obj (
      put (codes "resolvers") (obj (resolver_map no_fields rs))
        (put (codes "inputs") (of_map inputs) no_fields))

module _ (sees : Text → Text → Bool) {F : Type 0} where
  unfoldable pub load_resolvers : Text → Text → List (ResolverRow F) → Result (List (Resolver F))
  unfolding scan_resolvers
  load_resolvers tenant action rows =
      scan_resolvers
        (filter_by (λ r. sees tenant r.tenant_id && text_eq r.action_key action && r.enabled) rows)

  unfoldable pub load_mappings : Text → Text → List (MappingRow F) → List (Mapping F)
  unfolding scan_mappings
  load_mappings tenant action rows =
      scan_mappings (filter_by (λ r. sees tenant r.tenant_id && text_eq r.action_key action) rows)

  append_needs : List (ResolverRow F) → List (Option (Fields F))
  append_needs [] = []
  append_needs (r ∷ rows) = as_maps (or_empty empty_arr r.needs) ++ append_needs rows

  -- `ResolverNeeds` over the rows that its query shows; `queries` tells whether the query works.
  unfoldable pub resolver_needs :
      Bool → Text → Text → Option (FactStore F) → Result (List (Option (Fields F)))
  unfolding append_needs
  resolver_needs queries tenant action none = ok []
  resolver_needs queries tenant action (some s) =
      if queries
      then ok (
          append_needs (
            filter_by (λ r. sees tenant r.tenant_id && text_eq r.action_key action && r.enabled)
              s.resolvers))
      else err

-- `search` is JMESPath's `Search`.
module _ (rt : Runtime) (search : Text → Value rt.Float → Result (Value rt.Float)) where
  -- The value of one mapping, its transform applied.
  unfoldable pub map_value : Clock → Value rt.Float → Mapping rt.Float → Result (Value rt.Float)
  map_value clock doc m = do
    val ← search m.path doc
    if null m.transform then ok val else apply_transform rt clock m.transform val m.transform_args

  -- The loop over the mappings: an error of a required one ends it, any other is passed over. A
  -- mapping reads the clock at most twice, so the first two readings are its own.
  unfoldable pub apply_mappings :
      Value rt.Float → Clock → Fields rt.Float → List (Mapping rt.Float) → Result (Fields rt.Float)
  apply_mappings doc clock facts [] = ok facts
  apply_mappings doc clock facts (m ∷ ms) = elim (map_value clock doc m) [
    | err ↦ if m.required then err else apply_mappings doc (later clock) facts ms
    | ok v ↦ apply_mappings doc (later clock) (put m.fact_key v facts) ms
  ]

  module _ (sees : Text → Text → Bool) where
    abbrev failed : Resolved rt.Float
    failed = record { facts = none; failed = true }

    finish : Bool → Result (Fields rt.Float) → Resolved rt.Float
    finish commits err = failed
    finish commits (ok facts) = record { facts = some facts; failed = not commits }

    -- The body of the transaction.
    unfoldable pub compute_facts :
        Clock
        → Text
        → Text
        → Option (Fields rt.Float)
        → FactStore rt.Float
        → Result (Fields rt.Float)
    unfolding fact_doc apply_mappings map_value load_resolvers load_mappings
    compute_facts clock tenant action inputs s = do
      resolvers ← load_resolvers sees tenant action s.resolvers
      apply_mappings (fact_doc inputs resolvers) clock no_fields
          (load_mappings sees tenant action s.mappings)

    unfoldable pub resolve_facts :
        Clock
        → Option (FactStore rt.Float)
        → Text
        → Text
        → Option (Fields rt.Float)
        → Resolved rt.Float
    unfolding finish compute_facts
    resolve_facts clock none tenant action inputs = record {
      facts = some (or_empty no_fields inputs);
      failed = false;
    }
    resolve_facts clock (some s) tenant action inputs =
        if s.begins && s.sets_tenant
        then finish s.commits (compute_facts clock tenant action inputs s)
        else failed
