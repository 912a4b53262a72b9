-- ===== src/Orchestrator/Select/Choice.antt =====
-- Which operation an action key stands for.
use lamdis_core.Prelude.{
  ◌≡◌, refl, ◌⊎◌, inl, inr, true, ◌&&◌, Option, none, some, List, [], ◌∷◌, arith, find, find_sound,
  Memᴰ, mem-filter_by,
}
use lamdis_core.Text.{Text, text_eq}
use lamdis_core.Facts.Resolve.{or_empty}
use lamdis_core.Store.{OperationRow, DefinitionRow, JoinedRow, join}
use lamdis_core.Orchestrator.Select.{
  split_key, tenant_rows, in_namespace, has_short, select_from, select_operation,
}

-- The first option that is there.
abbrev pub prefer {ℓ} : {A : Type ℓ} → Option A → Option A → Option A
prefer (some a) o = some a
prefer none o = o

module _ {F : Type 0} where
  select_chosen :
      (ns short : Text) (c : JoinedRow F) (rows : List (JoinedRow F))
      → select_from ns short (some c) rows
        ≡ prefer (find (λ r. in_namespace ns r && has_short short r) rows) (some c)
  unfolding select_from
  select_chosen ns short c [] = refl
  select_chosen ns short c (r ∷ rows) = ground (arith, select_chosen ns short c rows)

  select_none :
      (ns short : Text) (rows : List (JoinedRow F))
      → select_from ns short none rows
        ≡ prefer
            (find (λ r. in_namespace ns r && has_short short r) rows)
            (find (λ r. in_namespace ns r) rows)
  unfolding select_from
  select_none ns short [] = refl
  select_none ns short (r ∷ rows) =
      ground (arith, select_none ns short rows, select_chosen ns short r rows)

  -- The loop with its flag finds the first row of the namespace with the short name of the key, and
  -- where there is none the first row of the namespace.
  pub select_operation_lem :
      (key : Text) (rows : List (JoinedRow F))
      → select_operation key rows
        ≡ prefer
            (find (λ r. in_namespace (split_key key).0 r && has_short (split_key key).1 r) rows)
            (find (λ r. in_namespace (split_key key).0 r) rows)
  unfolding select_operation
  select_operation_lem key rows = select_none (split_key key).0 (split_key key).1 rows

  prefer_cases :
      (a b : Option (JoinedRow F)) (r : JoinedRow F)
      → prefer a b ≡ some r
      → (a ≡ some r) ⊎ (b ≡ some r)
  prefer_cases none b r h = inr h
  prefer_cases (some c) b r h = inl h

  exact_sound :
      (ns short : Text) (rows : List (JoinedRow F)) (r : JoinedRow F)
      → find (λ x. in_namespace ns x && has_short short x) rows ≡ some r
      → (in_namespace ns r ≡ true) × Memᴰ r rows
  exact_sound ns short rows r e =
      let (p, m) = find_sound (λ x. in_namespace ns x && has_short short x) rows r e in
      (ground arith, m)

  select_sound :
      (key : Text) (rows : List (JoinedRow F)) (r : JoinedRow F)
      → select_operation key rows ≡ some r
      → (in_namespace (split_key key).0 r ≡ true) × Memᴰ r rows
  select_sound key rows r h =
      elim (prefer_cases
        (find (λ x. in_namespace (split_key key).0 x && has_short (split_key key).1 x) rows)
        (find (λ x. in_namespace (split_key key).0 x) rows) r (rw select_operation_lem at h)) [
          | inl e ↦ exact_sound (split_key key).0 (split_key key).1 rows r e
          | inr e ↦ find_sound (λ x. in_namespace (split_key key).0 x) rows r e
        ]

  -- The operation that is chosen is an enabled one of a connector of the tenant, whose kind or title
  -- has the key's namespace for its slug.
  pub chosen_sound :
      (tenant key : Text) (ops : List (OperationRow F)) (defs : List (DefinitionRow F))
      (r : JoinedRow F)
      → select_operation key (tenant_rows tenant ops defs) ≡ some r
      → (text_eq r.1.tenant_id tenant ≡ true)
        × (or_empty true r.0.enabled ≡ true)
        × (in_namespace (split_key key).0 r ≡ true)
        × Memᴰ r (join ops defs)
  unfolding tenant_rows
  chosen_sound tenant key ops defs r h =
      let (ns, m) = select_sound key (tenant_rows tenant ops defs) r h in
      let (q, n) =
        mem-filter_by (λ x. text_eq x.1.tenant_id tenant && or_empty true x.0.enabled)
          (join ops defs) r m in
      (ground arith, ground arith, ns, n)
