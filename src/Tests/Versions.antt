-- ===== src/Tests/Versions.antt =====
-- Runs of the administration of policy versions.
use lamdis_core.Prelude.{
  ◌+ℤ◌, ℕ, ◌≤◌, arith, ◌≡◌, refl, Bool, true, Option, none, some, List, [], ◌∷◌, err, pos,
}
use lamdis_core.Text.{Text, codes, text_eq, trim_space}
use lamdis_core.Json.{Value, field, no_fields, decimal}
use lamdis_core.Facts.Resolve.{or_empty}
use lamdis_core.Store.{published, VersionRow, allow}
use lamdis_core.Policy.Evaluate.{active_policy, evaluate}
use lamdis_core.Admin.Policies.{
  VersionBody, is_version, is_for, publish_rows, publish_version, ok_answer, create_policy_version,
  next_version, publish_policy_version,
}
use lamdis_core.Admin.Policies.Versions.{
  count, is_published_for, IsConsistent, Reachable, start, created, Reachable-IsConsistent,
}
use lamdis_core.Admin.Policies.Publishing.{active_policy-publish_rows, publish_missing}
use lamdis_core.Admin.Policies.Paths.{publish-create}
use lamdis_core.Tests.Data.{machine, inputs, shop, action}

abbrev own : Text → Text → Bool
own t u = text_eq u t

abbrev compiles : Text → Option Text
compiles code = none

abbrev body : Option VersionBody
body = some (record { action_key = action; version = none; code = codes "package policy" })

abbrev two : List VersionRow
two =
    (create_policy_version {F = Unit} own compiles true shop body
      (create_policy_version {F = Unit} own compiles true shop body []).1).1

two-Reachable : Reachable Unit own compiles two
two-Reachable = created _ true shop body (created [] true shop body start)

Reachable-IsConsistent_example : IsConsistent two
Reachable-IsConsistent_example = Reachable-IsConsistent Unit own compiles two two-Reachable

abbrev first : VersionRow
first = record {
  tenant_id = shop;
  action_key = action;
  version = pos 1;
  compiled_rego = some (codes "package policy");
  status = published;
}

one_row : (p : VersionRow → Bool) → count p (first ∷ []) ≤ 1
one_row p = ground arith

one-IsConsistent : IsConsistent (first ∷ [])
one-IsConsistent = record {
  unique = λ t a v. one_row (is_version t a v);
  single = λ t a. one_row (is_published_for t a);
}

active_policy-publish_rows_example :
    active_policy own (some (publish_rows shop action (pos 1) (first ∷ []))) shop action
    ≡ (or_empty [] first.compiled_rego, pos 1)
active_policy-publish_rows_example =
    active_policy-publish_rows own (λ t u. refl) shop action (pos 1) (first ∷ []) first
      one-IsConsistent (unfold is_version text_eq in refl)

publish_missing_example :
    ((publish_version {F = ℕ} true shop action (pos 2) (first ∷ [])).0
      ≡ ok_answer (field (codes "version") (Value.int (pos 2)) no_fields))
    × ((evaluate machine
          (λ code v. err)
          own
          (pos 0)
          (some (publish_version {F = ℕ} true shop action (pos 2) (first ∷ [])).1)
          shop
          action
          inputs
          none).status
        ≡ allow)
publish_missing_example =
    publish_missing own (λ t u. refl) machine (λ code v. err) shop action (pos 2) (pos 0)
      (first ∷ []) inputs none (unfold is_for text_eq in refl) (unfold is_version text_eq in refl)

abbrev draft_body : VersionBody
draft_body = record { action_key = action; version = none; code = codes "package new" }

second_next : next_version own none shop action (first ∷ []) ≡ pos 2
unfolding next_version text_eq ◌+ℤ◌
second_next = refl

publish-create_example :
    ((create_policy_version {F = ℕ} own compiles true shop (some draft_body) (first ∷ [])).0
      ≡ ok_answer (field (codes "version") (Value.int (pos 2)) no_fields))
    × (active_policy own
          (some
            (publish_policy_version {F = ℕ} true shop action
              (decimal (pos 2))
              (create_policy_version {F = ℕ} own compiles true shop
                (some draft_body)
                (first ∷ [])).1).1)
          shop
          action
        ≡ (codes "package new", pos 2))
publish-create_example =
    publish-create own (λ t u. refl) compiles shop draft_body 2 (first ∷ []) one-IsConsistent
      (unfold trim_space in refl) refl refl (unfold trim_space in refl) second_next (omega arith)
