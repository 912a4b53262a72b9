-- ===== src/Policy/Decisions.antt =====
-- `PersistDecision`, `ValidateDecision` and `ValidateAndBindDecision` of internal/policy/service.go.
use lamdis_core.Prelude.{
  ℕ, ◌+◌, ◌/◌, ◌%◌, Bool, true, false, not, ◌&&◌, Option, none, some, List, [], ◌∷◌, ◌++◌,
  if◌then◌else◌, null, ltb, ℤ, ltb_ℤ, find,
}
use lamdis_core.Text.{Text, codes, text_eq}
use lamdis_core.Json.{Runtime, Value, str, Fields, no_fields, field, of_map, decimal}
use lamdis_core.Store.{DecisionStatus, allow, allow_with_conditions, DecisionRow}
use lamdis_core.Policy.Evaluate.{Decision}

abbrev pub is_allowed : DecisionStatus → Bool
is_allowed allow = true
is_allowed allow_with_conditions = true
is_allowed _ = false

-- Why a decision is not executable; `changed` and `other_action` share their problem's type.
pub data Refusal : Type 0 where
  unknown other_action not_allowed expired changed : Refusal

pub data Verdict : Type 0 where
  accepted : Verdict
  refused : Refusal → Verdict

refusal_slug : Refusal → Text
refusal_slug unknown = codes "invalid-decision"
refusal_slug other_action = codes "decision-mismatch"
refusal_slug not_allowed = codes "decision-blocked"
refusal_slug expired = codes "decision-expired"
refusal_slug changed = codes "decision-mismatch"

refusal_title : Refusal → Text
refusal_title unknown = codes "Invalid decision id"
refusal_title other_action = codes "Decision mismatch"
refusal_title not_allowed = codes "Decision is blocked"
refusal_title expired = codes "Decision expired"
refusal_title changed = codes "Decision mismatch"

refusal_detail : Refusal → Text
refusal_detail unknown = codes "The provided decision_id is unknown or not accessible"
refusal_detail other_action = codes "The decision_id does not match this action"
refusal_detail not_allowed = codes "The decision is not allowed for execution"
refusal_detail expired = codes "The decision has expired; call eligibility again"
refusal_detail changed = codes "Inputs or facts changed; please re-run eligibility"

-- `problem`: the body that tells a refusal.
unfoldable pub problem : {F : Type 0} → (Text → Text) → Refusal → Fields F
unfolding refusal_slug refusal_title refusal_detail
problem type_url r = field (codes "type") (str (type_url (refusal_slug r))) (
    field (codes "title") (str (refusal_title r))
      (field (codes "detail") (str (refusal_detail r)) no_fields))

-- fmt's %x of bytes
abbrev pub hex_digit : ℕ → ℕ
hex_digit d = if ltb d 10 then b'0' + d else 87 + d

unfoldable pub hex : Text → Text
hex [] = []
hex (c ∷ s) = hex_digit (c / 16) ∷ hex_digit (c % 16) ∷ hex s

-- `marshal` gives the bytes of json.Marshal, and `sha256` the digest in hexadecimal.
module _ (rt : Runtime) (marshal : Value rt.Float → Text) (sha256 : Text → Text) where
  -- What is hashed: "%x|%x|%d" of the inputs, the facts and the policy's version.
  unfoldable pub binding_text : Option (Fields rt.Float) → Option (Fields rt.Float) → ℤ → Text
  unfolding hex decimal
  binding_text inputs facts version =
      hex (marshal (of_map inputs))
      ++ b'|' ∷ (hex (marshal (of_map facts)) ++ b'|' ∷ decimal version)

  unfoldable pub binding_hash : Option (Fields rt.Float) → Option (Fields rt.Float) → ℤ → Text
  unfolding binding_text
  binding_hash inputs facts version = sha256 (binding_text inputs facts version)

  -- The row that the INSERT makes; `id` is the one that the database gives it.
  unfoldable pub decision_row : Text → Text → Decision rt.Float → DecisionRow rt.Float
  unfolding binding_hash
  decision_row tenant id d = record {
    id = id;
    tenant_id = tenant;
    action_key = d.action_key;
    inputs = of_map d.inputs;
    facts = of_map d.facts;
    policy_version = d.policy_version;
    status = d.status;
    reasons = d.reasons;
    needs = d.needs;
    alternatives = d.alternatives;
    hash = some (binding_hash d.inputs d.facts d.policy_version);
    expires_at = d.expires_at;
  }

  -- The new table with the id, which is empty beside an error. `inserted` is the id of the row
  -- that the INSERT returns, if it succeeds; with no pool there is a fixed id.
  unfoldable pub persist_decision :
      Option Text
      → Text
      → Decision rt.Float
      → Option (List (DecisionRow rt.Float))
      → Option (List (DecisionRow rt.Float)) × Text
  unfolding decision_row
  persist_decision inserted tenant d none = (none, codes "dev-decision")
  persist_decision none tenant d (some rows) = (some rows, [])
  persist_decision (some id) tenant d (some rows) =
      (some (rows ++ decision_row tenant id d ∷ []), id)

module _ (sees : Text → Text → Bool) {F : Type 0} where
  -- SELECT … FROM decisions WHERE id=$2
  unfoldable pub find_decision : Text → Text → List (DecisionRow F) → Option (DecisionRow F)
  find_decision tenant id rows = find (λ r. sees tenant r.tenant_id && text_eq r.id id) rows

-- `expiresAt != nil && expiresAt.Before(time.Now())`
abbrev pub is_expired : Option ℤ → ℤ → Bool
is_expired none now = false
is_expired (some t) now = ltb_ℤ t now

module _ {F : Type 0} where
  unfoldable pub check_decision : ℤ → Option (DecisionRow F) → Verdict
  check_decision now none = refused unknown
  check_decision now (some r) =
      if not (is_allowed r.status)
      then refused not_allowed
      else if is_expired r.expires_at now
      then refused expired
      else accepted

  unfoldable pub validate_decision :
      (Text → Text → Bool) → ℤ → Option (List (DecisionRow F)) → Text → Text → Verdict
  unfolding check_decision find_decision
  validate_decision sees now none tenant id = accepted
  validate_decision sees now (some rows) tenant id =
      check_decision now (find_decision sees tenant id rows)

  -- A NULL hash does not scan into a string.
  unfoldable pub bind_row : ℤ → Text → (ℤ → Text) → Option (DecisionRow F) → Verdict
  bind_row now action calc none = refused unknown
  bind_row now action calc (some r) = elim r.hash [
    | none ↦ refused unknown
    | some stored ↦
        if not (text_eq r.action_key action)
        then refused other_action
        else if not (is_allowed r.status)
        then refused not_allowed
        else if is_expired r.expires_at now
        then refused expired
        else if not (null stored) && not (text_eq stored (calc r.policy_version))
        then refused changed
        else accepted
  ]

-- `facts` are those that `ResolveFacts` gives anew for the inputs of the call.
module _ (rt : Runtime) (marshal : Value rt.Float → Text) (sha256 : Text → Text)
    (sees : Text → Text → Bool) where
  unfoldable pub validate_and_bind_decision :
      ℤ
      → Option (List (DecisionRow rt.Float))
      → Text
      → Text
      → Text
      → Option (Fields rt.Float)
      → Option (Fields rt.Float)
      → Verdict
  unfolding bind_row find_decision binding_hash
  validate_and_bind_decision now none tenant id action inputs facts = accepted
  validate_and_bind_decision now (some rows) tenant id action inputs facts =
      bind_row now action (binding_hash rt marshal sha256 inputs facts)
        (find_decision sees tenant id rows)
