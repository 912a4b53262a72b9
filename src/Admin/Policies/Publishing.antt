-- ===== src/Admin/Policies/Publishing.antt =====
-- What publishing makes of the policy that is evaluated.
use lamdis_core.Prelude.{
  ◌≤◌, ◌≡◌, refl, Bool, true, ◌&&◌, Option, none, some, List, [], ◌∷◌, map, Result, arith, ℤ,
  Bool-cases, inl, inr, filter_by, find, find_sound, any,
}
use lamdis_core.Text.{Text, codes, text_eq}
use lamdis_core.Json.{Runtime, Value, Fields, field, no_fields}
use lamdis_core.Facts.Resolve.{or_empty}
use lamdis_core.Store.{VersionRow, allow}
use lamdis_core.Policy.Evaluate.{is_published, latest, published_rows, active_policy, evaluate}
use lamdis_core.Admin.Policies.{
  is_version, is_for, set_status, publish_rows, publish_version, ok_answer,
}
use lamdis_core.Admin.Policies.Versions.{count, IsConsistent, eq_ℤ_sound}

-- `own` says that row-level security shows a session the rows of its own tenant.
module _ (sees : Text → Text → Bool) (own : (t u : Text) → sees t u ≡ text_eq u t) where
  row-publish :
      (tenant action : Text) (v : ℤ) (r : VersionRow)
      → (sees tenant (set_status tenant action v r).tenant_id
          && text_eq (set_status tenant action v r).action_key action
          && is_published (set_status tenant action v r).status)
        ≡ is_version tenant action v r
  row-publish tenant action v r =
      rw (own tenant (set_status tenant action v r).tenant_id)
        (unfold set_status is_version is_for in ground arith)

  published-publish :
      (tenant action : Text) (v : ℤ) (rows : List VersionRow)
      → published_rows sees tenant action (publish_rows tenant action v rows)
        ≡ map (set_status tenant action v) (filter_by (is_version tenant action v) rows)
  unfolding published_rows publish_rows
  published-publish tenant action v [] = refl
  published-publish tenant action v (r ∷ rows) = elim (Bool-cases (is_version tenant action v r)) [
    | inl e ↦ rw (row-publish tenant action v r, e, published-publish tenant action v rows) refl
    | inr e ↦ rw (row-publish tenant action v r, e, published-publish tenant action v rows) refl
  ]

filter_none :
    (p : VersionRow → Bool) (rows : List VersionRow) → count p rows ≡ 0 → filter_by p rows ≡ []
filter_none p [] h = refl
filter_none p (r ∷ rows) h = ground (arith, filter_none p rows)

filter_one :
    (p : VersionRow → Bool) (rows : List VersionRow) (r : VersionRow)
    → count p rows ≤ 1
    → find p rows ≡ some r
    → filter_by p rows ≡ r ∷ []
filter_one p [] r h e = cc
filter_one p (x ∷ rows) r h e = ground (arith, filter_none p rows, filter_one p rows r)

filter_missing :
    (p : VersionRow → Bool) (rows : List VersionRow) → find p rows ≡ none → filter_by p rows ≡ []
filter_missing p [] h = refl
filter_missing p (r ∷ rows) h = ground (arith, filter_missing p rows)

found_version :
    (tenant action : Text) (v : ℤ) (rows : List VersionRow) (r : VersionRow)
    → find (is_version tenant action v) rows ≡ some r
    → (is_for tenant action r ≡ true) × (r.version ≡ v)
unfolding is_version is_for
found_version tenant action v rows r e =
    let (p, m) = find_sound (is_version tenant action v) rows r e in (for_tenant p, version_eq p)
  where
    for_tenant : is_version tenant action v r ≡ true → is_for tenant action r ≡ true
    for_tenant p = ground arith

    version_eq : is_version tenant action v r ≡ true → r.version ≡ v
    version_eq p = eq_ℤ_sound r.version v (ground arith)

module _ (sees : Text → Text → Bool) (own : (t u : Text) → sees t u ≡ text_eq u t) where
  active_single :
      (tenant action : Text) (v : ℤ) (rows : List VersionRow) (r : VersionRow)
      → is_for tenant action r ≡ true
      → r.version ≡ v
      → published_rows sees tenant action rows ≡ set_status tenant action v r ∷ []
      → active_policy sees (some rows) tenant action ≡ (or_empty [] r.compiled_rego, v)
  unfolding active_policy latest set_status
  active_single tenant action v rows r f e h = rw (h, f, e) refl

  -- After a version is published, the policy that evaluations of the tenant use is that version, with
  -- the code that the table has for it, whatever was published before. The table is consistent,
  -- and a session sees the rows of its own tenant.
  pub active_policy-publish_rows :
      (tenant action : Text) (v : ℤ) (rows : List VersionRow) (r : VersionRow)
      → IsConsistent rows
      → find (is_version tenant action v) rows ≡ some r
      → active_policy sees (some (publish_rows tenant action v rows)) tenant action
        ≡ (or_empty [] r.compiled_rego, v)
  active_policy-publish_rows tenant action v rows r c e =
      let (f, same) = found_version tenant action v rows r e in
      active_single tenant action v (publish_rows tenant action v rows) r f same (
        rw
          (
            published-publish sees own tenant action v rows,
            filter_one (is_version tenant action v) rows r (c.unique tenant action v) e,
          )
          refl)

  -- Publishing a version that does not exist is answered with success where the action has other
  -- versions, and archives them all: every evaluation of the action then allows it, whatever the policies say.
  -- A session sees the rows of its own tenant.
  pub publish_missing :
      (rt : Runtime) (rego : Text → Value rt.Float → Result (List (List (Value rt.Float))))
      (tenant action : Text) (v now : ℤ) (rows : List VersionRow)
      (inputs facts : Option (Fields rt.Float))
      → any (is_for tenant action) rows ≡ true
      → find (is_version tenant action v) rows ≡ none
      → ((publish_version {F = rt.Float} true tenant action v rows).0
          ≡ ok_answer (field (codes "version") (Value.int v) no_fields))
        × ((evaluate rt rego sees now
              (some (publish_version {F = rt.Float} true tenant action v rows).1)
              tenant
              action
              inputs
              facts).status
            ≡ allow)
  unfolding publish_version evaluate active_policy
  publish_missing rt rego tenant action v now rows inputs facts h e =
      let archived_all : published_rows sees tenant action (publish_rows tenant action v rows)
          ≡ [] =
        rw
          (
            published-publish sees own tenant action v rows,
            filter_missing (is_version tenant action v) rows e,
          )
          refl in
      (rw h refl, rw archived_all (unfold latest in refl))
