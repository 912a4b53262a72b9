-- ===== src/OpenApi.antt =====
-- The registry of operations and the document that it builds, pkg/openapi/builder.go.
pub mod Paths
use lamdis_core.Prelude.{
  ◌∷◌, ◌++◌, Bool, true, false, not, Option, none, some, List, [], if◌then◌else◌, null,
}
use lamdis_core.Text.{Text, codes, to_lower}
use lamdis_core.Text.Maps.{Assoc, lookup, insert}
use lamdis_core.Json.{
  Value, nil, str, arr, obj, Items, no_items, item, Fields, no_fields, field, put, is_nil, of_map,
}
use lamdis_core.Facts.Resolve.{or_empty}

pub record Operation (F : Type 0) : Type 0 where
  pub method : Text
  pub path : Text
  pub summary : Text
  pub description : Text
  pub tags : List Text
  pub scopes : List Text
  pub request_body : Value F
  pub responses : Option (Fields F)

pub record Document (F : Type 0) : Type 0 where
  pub openapi : Text
  pub title : Text
  pub version : Text
  pub paths : Assoc (Assoc (Fields F))
  pub components : Fields F
  pub security : Items F

module _ {F : Type 0} where
  -- `Register`
  unfoldable pub register : Operation F → List (Operation F) → List (Operation F)
  unfolding to_lower
  register op ops = ops ++ record op { method = to_lower op.method } ∷ []

  texts : List Text → Items F
  texts [] = no_items
  texts (t ∷ ts) = item (str t) (texts ts)

  with_scopes : List Text → Fields F → Fields F
  unfolding texts put
  with_scopes scopes m =
      if null scopes then m else put (codes "x-required-scopes") (arr (texts scopes)) m

  with_body : Value F → Fields F → Fields F
  unfolding put
  with_body body m = if is_nil body then m else put (codes "requestBody") body m

  -- The entry of an operation under its path and method.
  unfoldable pub entry : Operation F → Fields F
  unfolding with_scopes with_body texts
  entry op = with_body op.request_body (
      with_scopes op.scopes (
        field (codes "summary") (str op.summary) (
          field (codes "description") (str op.description) (
            field (codes "tags") (arr (texts op.tags))
              (field (codes "responses") (of_map op.responses) no_fields)))))

  unfoldable pub add_operation : Operation F → Assoc (Assoc (Fields F)) → Assoc (Assoc (Fields F))
  add_operation op paths =
      insert op.path (insert op.method (entry op) (or_empty [] (lookup op.path paths))) paths

  unfoldable pub add_operations :
      List (Operation F) → Assoc (Assoc (Fields F)) → Assoc (Assoc (Fields F))
  add_operations [] paths = paths
  add_operations (op ∷ ops) paths = add_operations ops (add_operation op paths)

  abbrev object : Text → Value F → Fields F
  object k v = field k v no_fields

  abbrev security_schemes : Fields F
  security_schemes = object (codes "securitySchemes") (
      obj (
        object (codes "oauth") (
          obj (
            field (codes "type") (str (codes "oauth2")) (
              object (codes "flows") (
                obj (
                  object (codes "clientCredentials") (
                    obj (
                      field (codes "tokenUrl") (str (codes "/oauth/token")) (
                        object (codes "scopes") (
                          obj (
                            field (codes "order:write") (str (codes "Create orders / checkouts")) (
                              object (codes "refund:write")
                                (str (codes "Issue refunds")))))))))))))))

  -- `Build`
  unfoldable pub build : Text → Text → List (Operation F) → Document F
  unfolding add_operations add_operation insert lookup entry
  build service_name version ops = record {
    openapi = codes "3.1.0";
    title = service_name;
    version = version;
    paths = add_operations ops [];
    components = security_schemes;
    security = item (obj (object (codes "oauth") (arr no_items))) no_items;
  }
