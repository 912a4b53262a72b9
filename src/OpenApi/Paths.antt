-- ===== src/OpenApi/Paths.antt =====
-- What the document holds under a path and a method.
use lamdis_core.Prelude.{
  ◌≡◌, refl, Bool, ◌&&◌, Option, none, some, List, [], ◌∷◌, if◌then◌else◌, Bool-cases, inl, inr,
}
use lamdis_core.Text.{Text, text_eq}
use lamdis_core.Text.Laws.{eq_of_text_eq}
use lamdis_core.Text.Maps.{Assoc, lookup, lookup-insert}
use lamdis_core.Json.{Fields}
use lamdis_core.Facts.Resolve.{or_empty}
use lamdis_core.OpenApi.{Operation, entry, add_operation, add_operations, build}

module _ {F : Type 0} where
  abbrev pub inner : Text → Option (Assoc (Fields F)) → Option (Fields F)
  inner method none = none
  inner method (some m) = lookup method m

  -- paths[path][method]
  abbrev pub entry_at : Text → Text → Assoc (Assoc (Fields F)) → Option (Fields F)
  entry_at path method paths = inner method (lookup path paths)

  abbrev pub is_at : Text → Text → Operation F → Bool
  is_at path method op = text_eq op.path path && text_eq op.method method

  -- The last of the operations at the path and the method, or what was there before.
  abbrev pub last_entry : Text → Text → Option (Fields F) → List (Operation F) → Option (Fields F)
  last_entry path method before [] = before
  last_entry path method before (op ∷ ops) =
      last_entry path method (if is_at path method op then some (entry op) else before) ops

  inner-or_empty :
      (method : Text) (o : Option (Assoc (Fields F)))
      → lookup method (or_empty [] o) ≡ inner method o
  unfolding lookup
  inner-or_empty method none = refl
  inner-or_empty method (some m) = refl

  add_operation-entry_at :
      (path method : Text) (op : Operation F) (paths : Assoc (Assoc (Fields F)))
      → entry_at path method (add_operation op paths)
        ≡ (if is_at path method op then some (entry op) else entry_at path method paths)
  unfolding add_operation
  add_operation-entry_at path method op paths = elim (Bool-cases (text_eq op.path path)) [
    | inr e ↦ rw (lookup-insert op.path path _ paths, e) refl
    | inl e ↦
        let same : op.path ≡ path = eq_of_text_eq op.path path e in
        rw
          (
            lookup-insert op.path path _ paths,
            e,
            lookup-insert op.method method (entry op) (or_empty [] (lookup op.path paths)),
            inner-or_empty method (lookup op.path paths),
            same,
          )
          refl
  ]

  add_operations-entry_at :
      (path method : Text) (ops : List (Operation F)) (paths : Assoc (Assoc (Fields F)))
      → entry_at path method (add_operations ops paths)
        ≡ last_entry path method (entry_at path method paths) ops
  unfolding add_operations
  add_operations-entry_at path method [] paths = refl
  add_operations-entry_at path method (op ∷ ops) paths =
      rw
        (
          add_operations-entry_at path method ops (add_operation op paths),
          add_operation-entry_at path method op paths,
        )
        refl

  -- Under a path and a method the document holds the entry of the last operation that was registered
  -- for both, and nothing where there is none.
  pub build-entry_at :
      (service_name version path method : Text) (ops : List (Operation F))
      → entry_at path method (build service_name version ops).paths
        ≡ last_entry path method none ops
  unfolding build
  build-entry_at service_name version path method ops =
      rw (add_operations-entry_at path method ops []) (unfold lookup in refl)
