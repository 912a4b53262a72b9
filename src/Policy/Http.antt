-- ===== src/Policy/Http.antt =====
-- The two endpoints of internal/policy/http.go, over the evaluation, the decisions and the execution.
pub mod Flow
pub mod Replay
use lamdis_core.Prelude.{
  ℕ, Bool, true, false, not, Option, none, some, List, [], ◌∷◌, Result, ok, err, value_or,
  if◌then◌else◌, null, ℤ,
}
use lamdis_core.Text.{Text, codes, trim_space}
use lamdis_core.Json.{Runtime, Clock, Value, nil, str, Fields, no_fields, field}
use lamdis_core.Facts.Resolve.{FactStore, resolve_facts, resolver_needs}
use lamdis_core.Store.{
  DecisionStatus, allow, allow_with_conditions, blocked, needs_input, VersionRow, DecisionRow,
}
use lamdis_core.Policy.Evaluate.{Decision, evaluate}
use lamdis_core.Policy.Decisions.{
  Verdict, accepted, refused, problem, persist_decision, validate_and_bind_decision,
}
use lamdis_core.Orchestrator.Execute.{
  Request, Response, ExecuteResult, ExecutionRow, Execution, ExecutionStore, execute,
}

-- The database behind the endpoints.
pub record Database (F : Type 0) : Type 0 where
  pub versions : List VersionRow
  pub decisions : List (DecisionRow F)
  pub facts : FactStore F
  pub execution : ExecutionStore F

-- What the code calls outside of the repository: the Open Policy Agent, JMESPath, json.Marshal,
-- SHA-256, the rows that the database shows to a session, http.NewRequest's check and the network;
-- with problems.Type.
pub record World (rt : Runtime) : Type 0 where
  pub rego : Text → Value rt.Float → Result (List (List (Value rt.Float)))
  pub search : Text → Value rt.Float → Result (Value rt.Float)
  pub marshal : Value rt.Float → Text
  pub sha256 : Text → Text
  pub sees : Text → Text → Bool
  pub valid : Request rt.Float → Bool
  pub http : Request rt.Float → Result (Response rt.Float)
  pub type_url : Text → Text

-- The answer to a preflight: what is asked for, or the status with what it carries.
pub data Preflight (F : Type 0) : Type 0 where
  asks : List (Option (Fields F)) → Preflight F
  allows : DecisionStatus → Text → Option ℤ → Value F → Value F → Preflight F
  blocks : Value F → Value F → Preflight F

-- The answer to an execute: 409 with a problem, or the result.
pub data Reply (F : Type 0) : Type 0 where
  conflict : Fields F → Reply F
  executed : ExecuteResult F → Reply F

abbrev pub on : {A B : Type 0} → (A → B) → Option A → Option B
on f none = none
on f (some a) = some (f a)

abbrev pub is_asking : DecisionStatus → Bool
is_asking needs_input = true
is_asking _ = false

module _ {F : Type 0} where
  unfoldable pub with_decisions :
      Option (Database F) → Option (List (DecisionRow F)) → Option (Database F)
  with_decisions (some db) (some rows) = some (record db { decisions = rows })
  with_decisions db rows = db

  unfoldable pub with_executions :
      Option (Database F) → Option (List (ExecutionRow F)) → Option (Database F)
  with_executions (some db) (some rows) =
      some (record db { execution = record db.execution { executions = rows } })
  with_executions db rows = db

  reply_for : DecisionStatus → Text → List (Option (Fields F)) → Decision F → Preflight F
  reply_for needs_input id needs d = asks needs
  reply_for allow id needs d = allows allow id d.expires_at d.reasons d.needs
  reply_for allow_with_conditions id needs d =
      allows allow_with_conditions id d.expires_at d.reasons d.needs
  reply_for blocked id needs d = blocks d.reasons d.alternatives

  unfoldable pub preflight_reply : Text → List (Option (Fields F)) → Decision F → Preflight F
  unfolding reply_for
  preflight_reply id needs d = reply_for d.status id needs d

  unfoldable pub preflight_required : (Text → Text) → Fields F
  preflight_required type_url = field (codes "type") (str (type_url (codes "preflight-required"))) (
      field (codes "title") (str (codes "Preflight required")) (
        field (codes "detail")
          (str (codes "Call eligibility first and pass decision_id to execute")) no_fields))

module _ (rt : Runtime) (w : World rt) where
  open rt use {Float}

  -- `ResolveFacts` with its error dropped, by the clock of the call.
  unfoldable pub facts_of :
      Clock → Option (Database Float) → Text → Text → Option (Fields Float) → Option (Fields Float)
  facts_of clock db tenant key inputs =
      (resolve_facts rt w.search w.sees clock (on (λ d. d.facts) db) tenant key inputs).facts

  unfoldable pub decision_of :
      Clock → ℤ → Option (Database Float) → Text → Text → Option (Fields Float) → Decision Float
  decision_of clock now db tenant key inputs =
      evaluate rt w.rego w.sees now (on (λ d. d.versions) db) tenant key inputs
        (facts_of clock db tenant key inputs)

  -- POST /v1/actions/{key}/preflight. `queries` tells whether the query for the needs works, and
  -- `inserted` the id of the new decision, if its INSERT succeeds.
  unfoldable pub preflight :
      Clock
      → ℤ
      → Bool
      → Option Text
      → Option (Database Float)
      → Text
      → Text
      → Option (Fields Float)
      → Preflight Float × Option (Database Float)
  unfolding decision_of facts_of preflight_reply with_decisions
  preflight clock now queries inserted db tenant key inputs =
      let d = decision_of clock now db tenant key inputs in
      let needs = value_or [] (resolver_needs w.sees queries tenant key (on (λ d. d.facts) db)) in
      let (rows, id) =
        persist_decision rt w.marshal w.sha256 inserted tenant d (on (λ d. d.decisions) db) in
      (preflight_reply id needs d, if is_asking d.status then db else with_decisions db rows)

  unfoldable pub bound_execute :
      Verdict
      → Option (Database Float)
      → Text
      → Text
      → Text
      → Option (Fields Float)
      → Reply Float × List (Request Float) × Option (Database Float)
  unfolding with_executions
  bound_execute (refused r) db tenant key id inputs = (conflict (problem w.type_url r), [], db)
  bound_execute accepted db tenant key id inputs =
      let e = execute rt w.valid w.http (on (λ d. d.execution) db) tenant key id inputs in
      (executed e.outcome, e.requests, with_executions db e.rows)

  -- POST /v1/actions/{key}/execute: its answer, the requests that are sent, and the database.
  unfoldable pub execute_action :
      Clock
      → ℤ
      → Option (Database Float)
      → Text
      → Text
      → Text
      → Option (Fields Float)
      → Reply Float × List (Request Float) × Option (Database Float)
  unfolding bound_execute facts_of trim_space
  execute_action clock now db tenant key id inputs =
      if null (trim_space id)
      then (conflict (preflight_required w.type_url), [], db)
      else bound_execute
          (validate_and_bind_decision rt w.marshal w.sha256 w.sees now (on (λ d. d.decisions) db)
            tenant id key inputs (facts_of clock db tenant key inputs))
          db tenant key id inputs
