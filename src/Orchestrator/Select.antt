-- ===== src/Orchestrator/Select.antt =====
-- The choice of an operation for an action key: the first part of `Execute`.
pub mod Choice
use lamdis_core.Prelude.{
  Bool, true, false, not, ◌&&◌, ◌||◌, Option, none, some, List, [], ◌∷◌, if◌then◌else◌, filter_by,
}
use lamdis_core.Text.{Text, text_eq, cut}
use lamdis_core.Facts.Resolve.{or_empty}
use lamdis_core.Json.{Value}
use lamdis_core.Slug.{slug, derive_short}
use lamdis_core.Store.{OperationRow, DefinitionRow, JoinedRow, join}

-- The two parts of an action key; with no dot all of it is the namespace.
unfoldable pub split_key : Text → Text × Text
unfolding cut
split_key key = let (ns, rest) = cut b'.' key in (ns, or_empty [] rest)

module _ {F : Type 0} where
  -- The rows of the query: enabled operations of the tenant's connectors.
  unfoldable pub tenant_rows :
      Text → List (OperationRow F) → List (DefinitionRow F) → List (JoinedRow F)
  unfolding join
  tenant_rows tenant ops defs =
      filter_by (λ r. text_eq r.1.tenant_id tenant && or_empty true r.0.enabled) (join ops defs)

  -- The connector's kind or title stands for the namespace.
  unfoldable pub in_namespace : Text → JoinedRow F → Bool
  in_namespace ns r = text_eq (slug r.1.kind) ns || text_eq (slug (or_empty [] r.1.title)) ns

  unfoldable pub has_short : Text → JoinedRow F → Bool
  has_short short r = text_eq (derive_short r.0.path) short

  abbrev keep_first : Option (JoinedRow F) → JoinedRow F → Option (JoinedRow F)
  keep_first none r = some r
  keep_first (some c) r = some c

  -- The loop over the rows: `chosen` is set where a fallback is.
  unfoldable pub select_from :
      Text → Text → Option (JoinedRow F) → List (JoinedRow F) → Option (JoinedRow F)
  select_from ns short chosen [] = chosen
  select_from ns short chosen (r ∷ rows) = elim (in_namespace ns r) [
    | false ↦ select_from ns short chosen rows
    | true ↦ elim (has_short short r) [
      | true ↦ some r
      | false ↦ select_from ns short (keep_first chosen r) rows
    ]
  ]

  unfoldable pub select_operation : Text → List (JoinedRow F) → Option (JoinedRow F)
  unfolding split_key select_from in_namespace has_short
  select_operation key rows = let (ns, short) = split_key key in select_from ns short none rows
