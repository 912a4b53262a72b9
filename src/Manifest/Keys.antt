-- ===== src/Manifest/Keys.antt =====
-- The keys of the manifest are the ones that `Execute` understands.
use lamdis_core.Prelude.{
  ◌≡◌, ◌≢◌, refl, true, ◌&&◌, Option, some, List, [], ◌∷◌, null, find_complete, Memᴰ, Bool-cases,
  inl, inr, and_true,
}
use lamdis_core.Text.{Text, trim, to_lower, trim_space}
use lamdis_core.Text.Laws.{text_eq_refl, cut-append}
use lamdis_core.Slug.{normalize_kind, slug, derive_name, derive_short}
use lamdis_core.Slug.Shape.{normalize_kind-IsSlug}
use lamdis_core.Slug.Laws.{cut_free}
use lamdis_core.Store.{JoinedRow}
use lamdis_core.Orchestrator.Select.{split_key, in_namespace, has_short, select_operation}
use lamdis_core.Orchestrator.Select.Choice.{prefer, select_operation_lem}
use lamdis_core.Manifest.{namespace_of, action_key}

normalize_kind_nil : normalize_kind [] ≡ []
unfolding normalize_kind to_lower trim
normalize_kind_nil = refl

namespace_of_kind :
    (ns kind : Text) → normalize_kind kind ≢ [] → namespace_of ns (some kind) ≡ normalize_kind kind
unfolding namespace_of
namespace_of_kind ns [] ne = absurd (ne normalize_kind_nil)
namespace_of_kind ns (c ∷ kind) ne = elim (Bool-cases (null (normalize_kind (c ∷ kind)))) [
  | inl e ↦ absurd (ne (null_eq (normalize_kind (c ∷ kind)) e))
  | inr e ↦ rw e refl
]
  where
    null_eq : (s : Text) → null s ≡ true → s ≡ []
    null_eq [] e = refl
    null_eq (d ∷ s) e = cc

-- The key that the manifest gives for an operation of a connector is read back by the orchestrator
-- as the connector's slug and the operation's short name, where the kind has a slug.
pub split_key-action_key :
    (ns kind path : Text)
    → normalize_kind kind ≢ []
    → split_key (action_key ns (some kind) path) ≡ (normalize_kind kind, derive_name path)
unfolding split_key action_key
split_key-action_key ns kind path ne =
    rw
      (
        namespace_of_kind ns kind ne,
        cut-append b'.' (normalize_kind kind) (derive_name path)
            (cut_free b'.' refl refl (normalize_kind kind) (normalize_kind-IsSlug kind)),
      )
      refl

slug_trimmed :
    (kind : Text)
    → trim_space kind ≡ kind
    → normalize_kind kind ≢ []
    → slug kind ≡ normalize_kind kind
unfolding slug
slug_trimmed [] e ne = absurd (ne normalize_kind_nil)
slug_trimmed (c ∷ kind) e ne = rw e refl

module _ {F : Type 0} where
  prefer_left : (a b : Option (JoinedRow F)) (s : JoinedRow F) → a ≡ some s → prefer a b ≡ some s
  prefer_left a b s e = rw e refl

  -- Executing a manifest key finds, among rows that hold the operation, one of the same connector slug and short name:
  -- where the kind has a slug and no space around it, and the path's short name is the
  -- same for the manifest and for the orchestrator.
  pub select_operation-action_key :
      (ns : Text) (r : JoinedRow F) (rows : List (JoinedRow F))
      → Memᴰ r rows
      → trim_space r.1.kind ≡ r.1.kind
      → normalize_kind r.1.kind ≢ []
      → derive_short r.0.path ≡ derive_name r.0.path
      → (s : JoinedRow F) × (select_operation (action_key ns (some r.1.kind) r.0.path) rows
          ≡ some s)
        × (in_namespace (normalize_kind r.1.kind) s ≡ true)
        × (has_short (derive_name r.0.path) s ≡ true)
  select_operation-action_key ns r rows m trimmed ne same =
      let key_eq = split_key-action_key ns r.1.kind r.0.path ne in
      let (s, e, p) =
        find_complete
          (λ x. in_namespace (normalize_kind r.1.kind) x && has_short (derive_name r.0.path) x) rows
          r m
          (unfold in_namespace has_short in
            rw (slug_trimmed r.1.kind trimmed ne, text_eq_refl (normalize_kind r.1.kind), same)
              (text_eq_refl (derive_name r.0.path))) in
      (
        s,
        rw (select_operation_lem (action_key ns (some r.1.kind) r.0.path) rows, key_eq)
            (prefer_left _ _ s e),
        (and_true _ (has_short (derive_name r.0.path) s) p).0,
        (and_true (in_namespace (normalize_kind r.1.kind) s) _ p).1,
      )
