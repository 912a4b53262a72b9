-- ===== src/Admin/Actions/Refinement.antt =====
-- The tables of fact resolvers and mappings under the administration's requests, against finite maps from
-- keys to rows.
use lamdis_core.Prelude.{
  ◌≡◌, refl, ◌∙◌, ap, Bool, true, false, ◌&&◌, Option, none, some, List, [], ◌∷◌, if◌then◌else◌,
}
use mathlib.Core.Path.{fun_ext}
use lamdis_core.Text.{Text, text_eq}
use lamdis_core.Facts.Resolve.{ResolverRow, MappingRow}
use lamdis_core.Store.Table.{
  keys_eq, merge, at, Distinct, at-upsert, at-delete_where, Distinct-upsert, Distinct-delete_where,
}
use lamdis_core.Admin.Actions.Resolvers.{
  ResolverBody, resolver_row_key, new_resolver, change_resolver, upsert_resolver, delete_resolver,
}
use lamdis_core.Admin.Actions.Mappings.{
  MappingBody, mapping_row_key, new_mapping, change_mapping, upsert_mapping, delete_mapping,
}

-- The two tables.
pub record FactTables (F : Type 0) : Type 0 where
  pub resolvers : List (ResolverRow F)
  pub mappings : List (MappingRow F)

-- A request of a tenant that changes a table: whether its statement works, and its path and body.
pub data Change (F : Type 0) : Type 0 where
  put_resolver : Bool → Text → Text → Text → Text → Option (ResolverBody F) → Change F
  drop_resolver : Bool → Text → Text → Text → Change F
  put_mapping : Bool → Text → Text → Text → Text → Option (MappingBody F) → Change F
  drop_mapping : Bool → Text → Text → Text → Change F

abbrev pub Entries : Type 0 → Type 0
Entries R = List Text → Option R

-- The finite maps that the tables stand for.
pub record FactMaps (F : Type 0) : Type 0 where
  pub resolver_of : Entries (ResolverRow F)
  pub mapping_of : Entries (MappingRow F)

abbrev pub set_entry {ℓ} :
    {R : Type ℓ} → List Text → R → (List Text → Option R) → List Text → Option R
set_entry k r m j = if keys_eq k j then some r else m j

abbrev pub drop_entries {ℓ} :
    {R : Type ℓ} → (List Text → Bool) → (List Text → Option R) → List Text → Option R
drop_entries named m j = if named j then none else m j

-- The keys of an action and a name, of the tenants that a session of this one sees.
abbrev pub is_seen_key : (Text → Text → Bool) → Text → Text → Text → List Text → Bool
is_seen_key sees tenant key name (t ∷ a ∷ n ∷ []) = sees tenant t && text_eq a key && text_eq n name
is_seen_key sees tenant key name _ = false

module _ {F : Type 0} (sees : Text → Text → Bool) where
  -- The handlers
  abbrev pub run : Change F → FactTables F → FactTables F
  run (put_resolver works id tenant key name body) s = record s {
    resolvers = (upsert_resolver works id tenant key name body s.resolvers).1;
  }
  run (drop_resolver works tenant key name) s = record s {
    resolvers = (delete_resolver sees works tenant key name s.resolvers).1;
  }
  run (put_mapping works id tenant key name body) s = record s {
    mappings = (upsert_mapping works id tenant key name body s.mappings).1;
  }
  run (drop_mapping works tenant key name) s = record s {
    mappings = (delete_mapping sees works tenant key name s.mappings).1;
  }

  -- What they promise
  abbrev pub specified : Change F → FactMaps F → FactMaps F
  specified (put_resolver true id tenant key name (some b)) m =
      let k = tenant ∷ key ∷ name ∷ [] in
      record m {
        resolver_of =
            set_entry k
              (merge (new_resolver id tenant key name b) (change_resolver b) (m.resolver_of k))
              m.resolver_of;
      }
  specified (drop_resolver true tenant key name) m = record m {
    resolver_of = drop_entries (is_seen_key sees tenant key name) m.resolver_of;
  }
  specified (put_mapping true id tenant key name (some b)) m =
      let k = tenant ∷ key ∷ name ∷ [] in
      record m {
        mapping_of =
            set_entry k
              (merge (new_mapping id tenant key name b) (change_mapping b) (m.mapping_of k))
              m.mapping_of;
      }
  specified (drop_mapping true tenant key name) m = record m {
    mapping_of = drop_entries (is_seen_key sees tenant key name) m.mapping_of;
  }
  specified (put_resolver true id tenant key name none) m = m
  specified (put_resolver false id tenant key name body) m = m
  specified (drop_resolver false tenant key name) m = m
  specified (put_mapping true id tenant key name none) m = m
  specified (put_mapping false id tenant key name body) m = m
  specified (drop_mapping false tenant key name) m = m

  abbrev pub run_all : List (Change F) → FactTables F → FactTables F
  run_all [] s = s
  run_all (c ∷ cs) s = run_all cs (run c s)

  abbrev pub specified_all : List (Change F) → FactMaps F → FactMaps F
  specified_all [] m = m
  specified_all (c ∷ cs) m = specified_all cs (specified c m)

module _ {F : Type 0} where
  abbrev pub maps_of : FactTables F → FactMaps F
  maps_of s = record {
    resolver_of = λ k. at resolver_row_key k s.resolvers;
    mapping_of = λ k. at mapping_row_key k s.mappings;
  }

  -- Each table has a key once.
  pub record IsKeyed (s : FactTables F) : Type 0 where
    pub resolvers_keyed : Distinct resolver_row_key s.resolvers
    pub mappings_keyed : Distinct mapping_row_key s.mappings

module _ {F : Type 0} (sees : Text → Text → Bool) where
  run-specified :
      (c : Change F) (s : FactTables F) → maps_of (run sees c s) ≡ specified sees c (maps_of s)
  unfolding upsert_resolver delete_resolver upsert_mapping delete_mapping change_mapping
  run-specified (put_resolver true id tenant key name (some b)) s =
      ap (λ f. record (maps_of s) { resolver_of = f })
        (fun_ext (λ j.
          at-upsert resolver_row_key (tenant ∷ key ∷ name ∷ []) j
            (new_resolver id tenant key name b) (change_resolver b) s.resolvers refl (λ r. refl)))
  run-specified (drop_resolver true tenant key name) s =
      ap (λ f. record (maps_of s) { resolver_of = f })
        (fun_ext (λ j.
          at-delete_where resolver_row_key j _ (is_seen_key sees tenant key name) s.resolvers
            (λ r. refl)))
  run-specified (put_mapping true id tenant key name (some b)) s =
      ap (λ f. record (maps_of s) { mapping_of = f })
        (fun_ext (λ j.
          at-upsert mapping_row_key (tenant ∷ key ∷ name ∷ []) j (new_mapping id tenant key name b)
            (change_mapping b) s.mappings refl (λ r. refl)))
  run-specified (drop_mapping true tenant key name) s =
      ap (λ f. record (maps_of s) { mapping_of = f })
        (fun_ext (λ j.
          at-delete_where mapping_row_key j _ (is_seen_key sees tenant key name) s.mappings
            (λ r. refl)))
  run-specified (put_resolver true id tenant key name none) s = refl
  run-specified (put_resolver false id tenant key name none) s = refl
  run-specified (put_resolver false id tenant key name (some b)) s = refl
  run-specified (drop_resolver false tenant key name) s = refl
  run-specified (put_mapping true id tenant key name none) s = refl
  run-specified (put_mapping false id tenant key name none) s = refl
  run-specified (put_mapping false id tenant key name (some b)) s = refl
  run-specified (drop_mapping false tenant key name) s = refl

  run-IsKeyed : (c : Change F) (s : FactTables F) → IsKeyed s → IsKeyed (run sees c s)
  unfolding upsert_resolver delete_resolver upsert_mapping delete_mapping change_mapping
  run-IsKeyed (put_resolver true id tenant key name (some b)) s h = record {
    resolvers_keyed =
        Distinct-upsert resolver_row_key (tenant ∷ key ∷ name ∷ [])
          (new_resolver id tenant key name b) (change_resolver b) s.resolvers refl (λ r. refl)
          h.resolvers_keyed;
    mappings_keyed = h.mappings_keyed;
  }
  run-IsKeyed (drop_resolver true tenant key name) s h = record {
    resolvers_keyed = Distinct-delete_where resolver_row_key _ s.resolvers h.resolvers_keyed;
    mappings_keyed = h.mappings_keyed;
  }
  run-IsKeyed (put_mapping true id tenant key name (some b)) s h = record {
    mappings_keyed =
        Distinct-upsert mapping_row_key (tenant ∷ key ∷ name ∷ [])
          (new_mapping id tenant key name b) (change_mapping b) s.mappings refl (λ r. refl)
          h.mappings_keyed;
    resolvers_keyed = h.resolvers_keyed;
  }
  run-IsKeyed (drop_mapping true tenant key name) s h = record {
    mappings_keyed = Distinct-delete_where mapping_row_key _ s.mappings h.mappings_keyed;
    resolvers_keyed = h.resolvers_keyed;
  }
  run-IsKeyed (put_resolver true id tenant key name none) s h = h
  run-IsKeyed (put_resolver false id tenant key name none) s h = h
  run-IsKeyed (put_resolver false id tenant key name (some b)) s h = h
  run-IsKeyed (drop_resolver false tenant key name) s h = h
  run-IsKeyed (put_mapping true id tenant key name none) s h = h
  run-IsKeyed (put_mapping false id tenant key name none) s h = h
  run-IsKeyed (put_mapping false id tenant key name (some b)) s h = h
  run-IsKeyed (drop_mapping false tenant key name) s h = h

  -- Whatever upserts and deletions of resolvers and mappings follow one another, of whatever tenants, and
  -- whichever of their statements fail: the tables stand for the finite maps that the same requests make of
  -- those at the start, and each key still stands once.
  pub run_all-specified_all :
      (cs : List (Change F)) (s : FactTables F)
      → IsKeyed s
      → (maps_of (run_all sees cs s) ≡ specified_all sees cs (maps_of s))
        × IsKeyed (run_all sees cs s)
  run_all-specified_all [] s h = (refl, h)
  run_all-specified_all (c ∷ cs) s h =
      let (e, k) = run_all-specified_all cs (run sees c s) (run-IsKeyed c s h) in
      (e ∙ ap (specified_all sees cs) (run-specified c s), k)
