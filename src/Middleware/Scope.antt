-- ===== src/Middleware/Scope.antt =====
-- `HasAnyScope` and `RequireScope` of pkg/middleware/scope.go.
use lamdis_core.Prelude.{
  ℕ, ◌≡◌, refl, sym, ◌↔◌, ◌⊎◌, inl, inr, Bool, true, false, not, Option, none, some, List, [], ◌∷◌,
  if◌then◌else◌, null, any, any_sound, any_complete, Memᴰ,
}
use lamdis_core.Text.{Text, codes, text_eq, to_lower, has_prefix, trim_space, fields, drop}
use lamdis_core.Text.Laws.{text_eq_iff}
use lamdis_core.Text.Maps.{mem_text}

-- How a middleware ends: it calls the next handler, it answers itself, or it panics.
pub data Reply {ℓ} (A : Type ℓ) : Type ℓ where
  next : A → Reply A
  deny : ℕ → Text → Reply A
  panics : Reply A

-- A claim of a token: its text, or a value that is no text.
pub data Claim : Type 0 where
  text : Text → Claim
  other : Claim

-- The scopes of the context are a set to which each required scope is compared.
unfoldable pub has_any_scope : List Text → List Text → Bool
has_any_scope required curr =
    if null required then true else if null curr then false else any (λ r. mem_text r curr) required

-- sc.(string) panics on another type.
unfoldable pub scopes_of : Option Claim → Reply (List Text)
unfolding fields
scopes_of none = next []
scopes_of (some (text s)) = next (fields s)
scopes_of (some other) = panics

abbrev pub has_bearer : Text → Bool
has_bearer authz = has_prefix (codes "bearer ") (to_lower authz)

-- The token behind "Bearer ".
abbrev pub bearer_token : Text → Text
bearer_token authz = trim_space (drop 7 authz)

check_scope : Text → Reply (List Text) → Reply (List Text)
check_scope scope (next scopes) =
    if null scope
    then next scopes
    else if mem_text scope scopes
    then next scopes
    else deny 403 (codes "insufficient_scope")
check_scope scope r = r

-- `parse` is jwt.Parse with no key: the `scope` claim of a token that it accepts.
unfoldable pub require_scope : (Text → Option (Option Claim)) → Text → Text → Reply (List Text)
unfolding check_scope scopes_of to_lower has_prefix trim_space drop
require_scope parse scope authz =
    if not (has_bearer authz)
    then deny 401 (codes "missing bearer")
    else elim (parse (bearer_token authz)) [
      | none ↦ deny 401 (codes "invalid token")
      | some sc ↦ check_scope scope (scopes_of sc)
    ]

pub mem_text-mem : (a : Text) (xs : List Text) → mem_text a xs ≡ true → Memᴰ a xs
mem_text-mem a xs h =
    let (x, m, e) = any_sound (λ x. text_eq x a) xs h in rw (sym ((text_eq_iff x a).0 e)) m

-- Access is given exactly where no scope is required or one of the required scopes is held.
pub has_any_scope_iff :
    (required curr : List Text)
    → (has_any_scope required curr ≡ true)
      ↔ ((required ≡ []) ⊎ ((s : Text) × Memᴰ s required × Memᴰ s curr))
unfolding has_any_scope
has_any_scope_iff [] curr = (λ h. inl refl, λ h. refl)
has_any_scope_iff (r ∷ rs) [] = (λ h. cc, λ h. elim h [ inl e ↦ cc | inr (s, m, n) ↦ elim n [ ] ])
has_any_scope_iff (r ∷ rs) (c ∷ cs) = (
  λ h.
      let (s, m, e) = any_sound (λ x. mem_text x (c ∷ cs)) (r ∷ rs) h in
      inr (s, m, mem_text-mem s (c ∷ cs) e),
  λ h. elim h [
    | inl e ↦ cc
    | inr (s, m, n) ↦
        any_complete (λ x. mem_text x (c ∷ cs)) (r ∷ rs) s m
          (any_complete (λ x. text_eq x s) (c ∷ cs) s n ((text_eq_iff s s).1 refl))
  ],
)
