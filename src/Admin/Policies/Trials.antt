-- ===== src/Admin/Policies/Trials.antt =====
-- `dryRunPolicy` and `testExecutePolicy` of internal/adminapi/handlers_policies.go. A trace of a dry run
-- puts the answer into itself, which encoding/json refuses to encode: `cyclic` is an answer with no body.
use lamdis_core.Prelude.{
  ℕ, ◌≡◌, refl, Bool, true, false, Option, none, some, List, [], ◌∷◌, if◌then◌else◌, null, ℤ,
}
use lamdis_core.Text.{Text, codes, trim_space, to_upper, contains}
use lamdis_core.Json.{
  Runtime, Clock, Value, str, arr, obj, no_items, item, Fields, no_fields, field, get, put, of_map,
}
use lamdis_core.Facts.Resolve.{Resolved, resolve_facts}
use lamdis_core.Policy.Evaluate.{Decision, first_expression, evaluate}
use lamdis_core.Policy.Decisions.{persist_decision}
use lamdis_core.Policy.Http.{Database, World, on, with_decisions, with_executions}
use lamdis_core.Orchestrator.Execute.{
  Request, ExecuteResult, Operation, find_operation, full_url, build_request, run_operation, send,
  execute,
}
use lamdis_core.Admin.Policies.{Answer, error, json}

pub record DryRunBody (F : Type 0) : Type 0 where
  pub code : Text
  pub action_key : Text
  pub inputs : Option (Fields F)
  pub trace : Bool

pub record TestExecuteBody (F : Type 0) : Type 0 where
  pub action_key : Text
  pub inputs : Option (Fields F)
  pub trace : Bool

pub data DryRun (F : Type 0) : Type 0 where
  answer : Answer F → DryRun F
  cyclic : ℕ → DryRun F

-- The answer to a test execution: the decision with its id, and the result.
pub data Trial (F : Type 0) : Type 0 where
  refused : Answer F → Trial F
  tried : Text → Decision F → ExecuteResult F → Trial F

module _ {F : Type 0} where
  upper_text : Option (Value F) → Fields F → Fields F
  upper_text (some (str s)) m = put (codes "status") (str (to_upper s)) m
  upper_text _ m = m

  -- The status of the policy's answer in capitals.
  unfoldable pub upper_status : Fields F → Fields F
  unfolding upper_text get put to_upper
  upper_status m = upper_text (get (codes "status") m) m

  unfoldable pub settled : Resolved F → Option (Fields F)
  settled r = if r.failed then some no_fields else r.facts

  stage : Text → Text → Value F → Value F
  stage name key v = obj (field (codes "stage") (str name) (field key v no_fields))

  failed_fields : Option (Fields F) → Fields F
  failed_fields facts = field (codes "status") (str (codes "BLOCKED")) (
      field (codes "reasons") (arr (item (str (codes "policy_error")) no_items))
        (field (codes "facts_preview") (of_map facts) no_fields))

  -- The answer to a policy that gives no value; `message` is the error's text, or "".
  unfoldable pub failed_run : Text → DryRunBody F → Option (Fields F) → Fields F
  unfolding failed_fields stage put
  failed_run message b facts =
      if b.trace
      then put (codes "trace")
          (arr (
            item (stage (codes "inputs") (codes "data") (of_map b.inputs)) (
              item (stage (codes "facts") (codes "data") (of_map facts))
                (item (stage (codes "policy") (codes "error") (str message)) no_items))))
          (failed_fields facts)
      else failed_fields facts

  unfoldable pub shown : Text → DryRunBody F → Option (Fields F) → Option (Value F) → DryRun F
  unfolding failed_run upper_status put
  shown message b facts none = answer (json 200 (failed_run message b facts))
  shown message b facts (some (obj m)) =
      if b.trace
      then cyclic 200
      else answer (json 200 (put (codes "facts_preview") (of_map facts) (upper_status m)))
  shown message b facts (some v) =
      if b.trace
      then cyclic 200
      else answer (
          json 200 (
            field (codes "status") (str (codes "ALLOW"))
              (field (codes "facts_preview") (of_map facts) no_fields)))

module _ (rt : Runtime) (w : World rt) where
  open rt use {Float}

  -- The facts of a trial: none for a blank action or where they do not resolve.
  unfoldable pub trial_facts :
      Clock → Option (Database Float) → Text → Text → Option (Fields Float) → Option (Fields Float)
  unfolding settled resolve_facts trim_space
  trial_facts clock db tenant action inputs =
      if null (trim_space action)
      then some no_fields
      else settled
          (resolve_facts rt w.search w.sees clock (on (λ d. d.facts) db) tenant action inputs)

  -- `dryRunPolicy`; `message` gives the text of an evaluation's error.
  unfoldable pub dry_run_policy :
      Clock
      → (Text → Value Float → Text)
      → Option (Database Float)
      → Text
      → Option (DryRunBody Float)
      → DryRun Float
  unfolding shown trial_facts first_expression
  dry_run_policy clock message db tenant none = answer (error 400 (codes "bad json"))
  dry_run_policy clock message db tenant (some b) =
      let facts = trial_facts clock db tenant b.action_key b.inputs in
      let document = obj (
        field (codes "inputs") (of_map b.inputs)
          (field (codes "facts") (of_map facts) no_fields)) in
      shown (message b.code document) b facts (first_expression rt (w.rego b.code document))

  -- `testExecutePolicy`: the answer, the requests that are sent, and the database.
  unfoldable pub test_execute_policy :
      Clock
      → ℤ
      → Option Text
      → Option (Database Float)
      → Text
      → Option (TestExecuteBody Float)
      → Trial Float × List (Request Float) × Option (Database Float)
  unfolding with_decisions with_executions
  test_execute_policy clock now inserted db tenant none =
      (refused (error 400 (codes "bad json")), [], db)
  test_execute_policy clock now inserted db tenant (some b) =
      let d =
        evaluate rt w.rego w.sees now (on (λ x. x.versions) db) tenant b.action_key b.inputs
          (trial_facts clock db tenant b.action_key b.inputs) in
      let (rows, id) =
        persist_decision rt w.marshal w.sha256 inserted tenant d (on (λ x. x.decisions) db) in
      let e =
        execute rt w.valid w.http (on (λ x. x.execution) db) tenant b.action_key id b.inputs in
      (tried id d e.outcome, e.requests, with_executions (with_decisions db rows) e.rows)

  run_sends :
      (input : Option (Fields Float)) (op : Operation Float)
      → contains b'{' (full_url rt input op) ≡ false
      → w.valid (build_request rt input op) ≡ true
      → (run_operation rt w.valid w.http input (some op)).1 ≡ build_request rt input op ∷ []
  unfolding run_operation send
  run_sends input op e v = rw (e, v) refl

  -- A test execution sends the request of its action whatever the policy decides, a blocking decision
  -- included: where the action has an operation whose URL is bound and whose request is valid.
  pub test_execute_policy_sends :
      (clock : Clock) (now : ℤ) (inserted : Option Text) (db : Database Float) (tenant : Text)
      (b : TestExecuteBody Float) (op : Operation Float)
      → find_operation (some db.execution) tenant b.action_key ≡ some op
      → contains b'{' (full_url rt b.inputs op) ≡ false
      → w.valid (build_request rt b.inputs op) ≡ true
      → (test_execute_policy clock now inserted (some db) tenant (some b)).1
        ≡ build_request rt b.inputs op ∷ []
  unfolding test_execute_policy execute
  test_execute_policy_sends clock now inserted db tenant b op found e v =
      rw found (run_sends b.inputs op e v)
