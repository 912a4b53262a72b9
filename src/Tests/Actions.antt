-- ===== src/Tests/Actions.antt =====
-- Runs of the administration of resolvers and mappings.
use lamdis_core.Prelude.{ℕ, ◌≡◌, Bool, true, none, some, List, [], ◌∷◌}
use lamdis_core.Text.{Text, codes, text_eq}
use lamdis_core.Json.{str, item, no_items}
use lamdis_core.Admin.Actions.Resolvers.{ResolverBody}
use lamdis_core.Admin.Actions.Refinement.{
  FactTables, Change, put_resolver, drop_resolver, run_all, specified_all, maps_of, IsKeyed,
  run_all-specified_all,
}
use lamdis_core.Tests.Data.{shop, action}

abbrev own : Text → Text → Bool
own t u = text_eq u t

-- A resolver without a connector key.
abbrev unnamed : ResolverBody ℕ
unnamed = record {
  connector_key = none;
  request_tmpl = none;
  response_sample = none;
  needs = some (item (str (codes "id")) no_items);
  enabled = none;
}

abbrev named : ResolverBody ℕ
named = record unnamed { connector_key = some (codes "store"); needs = none }

abbrev requests : List (Change ℕ)
requests =
    put_resolver true (codes "r1") shop action (codes "order") (some named)
    ∷ put_resolver true (codes "r2") shop action (codes "order") (some unnamed)
    ∷ put_resolver true (codes "r3") shop action (codes "payment") (some named)
    ∷ drop_resolver true shop action (codes "order")
    ∷ []

abbrev empty : FactTables ℕ
empty = record { resolvers = []; mappings = [] }

empty-IsKeyed : IsKeyed empty
empty-IsKeyed = record { resolvers_keyed = tt; mappings_keyed = tt }

run_all-specified_all_example :
    (maps_of (run_all own requests empty) ≡ specified_all own requests (maps_of empty))
    × IsKeyed (run_all own requests empty)
run_all-specified_all_example = run_all-specified_all own requests empty empty-IsKeyed
