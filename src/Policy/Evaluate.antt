-- ===== src/Policy/Evaluate.antt =====
-- `Evaluate` of internal/policy/service.go. `rego` is the Open Policy Agent's evaluation of
-- data.policy.decide: for a module and an input its result set, each result with its expressions.
use lamdis_core.Prelude.{
  ℕ, ◌*◌, Bool, true, false, ◌&&◌, Option, none, some, List, [], ◌∷◌, Result, ok, err,
  if◌then◌else◌, null, ℤ, pos, pos_part, ◌+ℤ◌, int64, leb_ℤ, filter_by,
}
use lamdis_core.Text.{Text, codes, text_eq}
use lamdis_core.Json.{
  Runtime, Value, nil, float, str, arr, obj, no_items, item, Fields, no_fields, field, get,
  get_or_nil, of_map,
}
use lamdis_core.Facts.Resolve.{or_empty}
use lamdis_core.Store.{
  VersionStatus, published, VersionRow, DecisionStatus, allow, allow_with_conditions, blocked,
  needs_input,
}

-- `Decision` of internal/policy/service.go, without the id that `PersistDecision` returns.
pub record Decision (F : Type 0) : Type 0 where
  pub action_key : Text
  pub inputs : Option (Fields F)
  pub facts : Option (Fields F)
  pub policy_version : ℤ
  pub status : DecisionStatus
  pub reasons : Value F
  pub needs : Value F
  pub alternatives : Value F
  pub expires_at : Option ℤ

abbrev pub is_published : VersionStatus → Bool
is_published published = true
is_published _ = false

-- ORDER BY version DESC LIMIT 1: the first of the rows with the greatest version
pick_latest : VersionRow → List VersionRow → VersionRow
pick_latest best [] = best
pick_latest best (r ∷ rows) = pick_latest (if leb_ℤ r.version best.version then best else r) rows

unfoldable pub latest : List VersionRow → Option VersionRow
unfolding pick_latest
latest [] = none
latest (r ∷ rows) = some (pick_latest r rows)

module _ (sees : Text → Text → Bool) where
  -- The published versions of an action that a session of the tenant sees.
  unfoldable pub published_rows : Text → Text → List VersionRow → List VersionRow
  published_rows tenant action rows =
      filter_by
        (λ r. sees tenant r.tenant_id && text_eq r.action_key action && is_published r.status) rows

  active_of : Option VersionRow → Text × ℤ
  active_of none = ([], pos 0)
  active_of (some r) = (or_empty [] r.compiled_rego, r.version)

  -- The module and the version of the latest published policy; empty and 0 where there is none.
  unfoldable pub active_policy : Option (List VersionRow) → Text → Text → Text × ℤ
  unfolding latest published_rows active_of
  active_policy none tenant action = ([], pos 0)
  active_policy (some rows) tenant action = active_of (latest (published_rows tenant action rows))

-- time.Duration(ttl) * time.Second, and minutes, in nanoseconds.
abbrev pub second : ℕ
second = 1_000_000_000

abbrev pub minute : ℕ
minute = 60 * second

unfoldable pub status_of : Text → DecisionStatus
status_of s =
    if text_eq s (codes "ALLOW")
    then allow
    else if text_eq s (codes "ALLOW_WITH_CONDITIONS")
    then allow_with_conditions
    else if text_eq s (codes "NEEDS_INPUT")
    then needs_input
    else blocked

module _ (rt : Runtime) where
  open rt use {Float, is_positive, trunc}

  -- The first expression of the first result.
  unfoldable pub first_expression : Result (List (List (Value Float))) → Option (Value Float)
  first_expression err = none
  first_expression (ok []) = none
  first_expression (ok ([] ∷ rs)) = none
  first_expression (ok ((v ∷ vs) ∷ rs)) = some v

  -- `m["status"].(string)`
  unfoldable pub decided_status : Option (Value Float) → DecisionStatus
  unfolding status_of
  decided_status (some (str s)) = status_of s
  decided_status _ = blocked

  -- The lifetime of a decision by its `ttl_seconds`, as an int64 of nanoseconds.
  unfoldable pub lifetime : Option (Value Float) → ℤ
  unfolding int64
  lifetime (some (float ttl)) =
      if is_positive ttl then int64 (pos_part (trunc ttl) * second) else pos (15 * minute)
  lifetime _ = pos (15 * minute)

  module _ (now : ℤ) (action : Text) (inputs facts : Option (Fields Float)) (version : ℤ) where
    -- A decision with no needs and no alternatives.
    plain : DecisionStatus → Value Float → ℕ → Decision Float
    plain status reasons ttl = record {
      action_key = action;
      inputs = inputs;
      facts = facts;
      policy_version = version;
      status = status;
      reasons = reasons;
      needs = nil;
      alternatives = nil;
      expires_at = some (now +ℤ pos ttl);
    }

    unfoldable pub decide : Option (Value Float) → Decision Float
    unfolding plain decided_status lifetime get_or_nil
    decide none = plain blocked (arr (item (str (codes "policy_error")) no_items)) (5 * minute)
    decide (some (obj m)) = record {
      action_key = action;
      inputs = inputs;
      facts = facts;
      policy_version = version;
      status = decided_status (get (codes "status") m);
      reasons = get_or_nil (codes "reasons") m;
      needs = get_or_nil (codes "needs") m;
      alternatives = get_or_nil (codes "alternatives") m;
      expires_at = some (now +ℤ lifetime (get (codes "ttl_seconds") m));
    }
    decide (some v) = plain allow nil (15 * minute)

  module _ (rego : Text → Value Float → Result (List (List (Value Float))))
      (sees : Text → Text → Bool) where
    pub rego_input : Option (Fields Float) → Option (Fields Float) → Value Float
    rego_input inputs facts =
        obj
          (field (codes "inputs") (of_map inputs) (field (codes "facts") (of_map facts) no_fields))

    unfoldable pub evaluate :
        ℤ
        → Option (List VersionRow)
        → Text
        → Text
        → Option (Fields Float)
        → Option (Fields Float)
        → Decision Float
    unfolding active_policy decide plain rego_input first_expression
    evaluate now rows tenant action inputs facts =
        let (code, version) = active_policy sees rows tenant action in
        if null code
        then plain now action inputs facts version allow nil (15 * minute)
        else decide now action inputs facts version
            (first_expression (rego code (rego_input inputs facts)))
