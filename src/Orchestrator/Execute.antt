-- ===== src/Orchestrator/Execute.antt =====
-- `Execute` of internal/orchestrator/service.go: the request that it sends, its result and the row
-- that it stores. The network and the database's answer to the INSERT are arguments.
pub mod Laws
use lamdis_core.Prelude.{
  any, ℕ, Bool, true, false, not, ◌&&◌, ◌||◌, Option, none, some, List, [], ◌∷◌, ◌++◌, Result, ok,
  err, if◌then◌else◌, null,
}
use lamdis_core.Text.{Text, codes, text_eq, to_lower, contains, trim_right_char}
use lamdis_core.Text.Maps.{Assoc, lookup, insert}
use lamdis_core.Facts.Resolve.{or_empty}
use lamdis_core.Json.{Runtime, Value, str, obj, Fields, no_fields, field, get, get_in, as_map}
use lamdis_core.Store.{OperationRow, DefinitionRow, JoinedRow}
use lamdis_core.Orchestrator.Select.{tenant_rows, select_operation}
use lamdis_core.Orchestrator.Template.{resolve_all, resolve_body, bind_path, encode_query}

-- A request that is handed to the HTTP client.
pub record Request (F : Type 0) : Type 0 where
  pub method : Text
  pub url : Text
  pub headers : Assoc Text
  pub body : Option (Fields F)

-- What comes back: the status, and the body if it decodes to an object.
pub record Response (F : Type 0) : Type 0 where
  pub status : ℕ
  pub body : Option (Fields F)

-- A step of the result: `no_mapping` and `unresolved` tell the early returns, `sent` the request
-- with the status or the error that it met.
pub data Step : Type 0 where
  no_mapping : Step
  unresolved : Text → Step
  sent : Text → Text → Option ℕ → Step

pub data Problem : Type 0 where
  no_operation unresolved_path_params : Problem

pub data Status : Type 0 where
  succeeded failed : Status

-- `ExecuteResult`; a `result` of none is a nil map
pub record ExecuteResult (F : Type 0) : Type 0 where
  pub steps : List Step
  pub result : Option (Fields F)
  pub status : Status
  pub problems : List Problem

-- A row of executions
pub record ExecutionRow (F : Type 0) : Type 0 where
  pub id : Text
  pub tenant_id : Text
  pub action_key : Text
  pub decision_id : Text
  pub idempotency_key : Text
  pub steps : List Step
  pub result : Option (Fields F)
  pub status : Status

-- All that a call leaves: its result, the requests that it sent, and the table.
pub record Execution (F : Type 0) : Type 0 where
  pub outcome : ExecuteResult F
  pub requests : List (Request F)
  pub rows : Option (List (ExecutionRow F))

-- The tables of the call, where there is a pool, whether its query works, and the id that the database
-- generates for the row of its INSERT, none where the statement meets an error.
pub record ExecutionStore (F : Type 0) : Type 0 where
  pub operations : List (OperationRow F)
  pub definitions : List (DefinitionRow F)
  pub executions : List (ExecutionRow F)
  pub queries : Bool
  pub inserted : Option Text

abbrev as_string : {F : Type 0} → Option (Value F) → Text
as_string (some (str s)) = s
as_string _ = []

unfoldable pub idempotency_key : {F : Type 0} → Option (Fields F) → Text → Text
unfolding get
idempotency_key input decision_id =
    let key = as_string (get_in (codes "idempotency_key") input) in
    if null key then decision_id else key

-- The operation that is found: base URL, method, path and template.
pub record Operation (F : Type 0) : Type 0 where
  pub base_url : Text
  pub method : Text
  pub path : Text
  pub tmpl : Fields F

has_content_type : Assoc Text → Bool
has_content_type [] = false
has_content_type ((k, v) ∷ m) =
    (text_eq (to_lower k) (codes "content-type") && not (null v)) || has_content_type m

unfoldable pub attach_query : Text → Text → Text
attach_query url [] = url
attach_query url (c ∷ enc) =
    if contains b'?' url then url ++ b'&' ∷ c ∷ enc else url ++ b'?' ∷ c ∷ enc

module _ {F : Type 0} where
  unfoldable pub operation_of : JoinedRow F → Operation F
  operation_of r = record {
    base_url = or_empty [] r.1.base_url;
    method = r.0.method;
    path = r.0.path;
    tmpl = or_empty no_fields (as_map (or_empty (obj no_fields) r.0.request_tmpl));
  }

  unfoldable pub has_target : Option (JoinedRow F) → Option (Operation F)
  unfolding operation_of
  has_target none = none
  has_target (some r) = if null r.0.method || null r.0.path then none else some (operation_of r)

  -- The operation of an action key, if its method and path are set.
  unfoldable pub find_operation : Option (ExecutionStore F) → Text → Text → Option (Operation F)
  unfolding has_target select_operation tenant_rows
  find_operation none tenant key = none
  find_operation (some s) tenant key =
      if s.queries
      then has_target (select_operation key (tenant_rows tenant s.operations s.definitions))
      else none

  -- tmpl[k].(map[string]any)
  unfoldable pub section : Text → Fields F → Option (Fields F)
  unfolding get
  section k tmpl = elim (get k tmpl) [ none ↦ none | some v ↦ as_map v ]

  -- The headers with the content type that a body gets by default.
  default_type : Option (Fields F) → Assoc Text → Assoc Text
  unfolding has_content_type insert
  default_type none headers = headers
  default_type (some body) headers =
      if has_content_type headers
      then headers
      else insert (codes "Content-Type") (codes "application/json") headers

module _ (rt : Runtime) where
  open rt use {Float}

  module _ (input : Option (Fields Float)) (op : Operation Float) where
    -- The URL with its path parameters bound, before the query.
    unfoldable pub full_url : Text
    unfolding bind_path section trim_right_char
    full_url =
        bind_path rt input (section (codes "path_params") op.tmpl)
          (trim_right_char b'/' op.base_url ++ op.path)

    unfoldable pub resolved_section : Text → Assoc Text
    unfolding section resolve_all
    resolved_section k = elim (section k op.tmpl) [ none ↦ [] | some m ↦ resolve_all rt input m ]

    unfoldable pub request_body : Option (Fields Float)
    unfolding section resolve_body
    request_body = elim (section (codes "body") op.tmpl) [
      | none ↦ none
      | some m ↦ some (resolve_body rt input m)
    ]

    unfoldable pub build_request : Request Float
    unfolding full_url resolved_section request_body default_type attach_query encode_query contains
    build_request = record {
      method = op.method;
      url = attach_query full_url (encode_query (resolved_section (codes "query")));
      headers = default_type request_body (resolved_section (codes "headers"));
      body = request_body;
    }

  unfoldable pub not_ok : Option (Fields Float)
  not_ok = some (field (codes "ok") (Value.bool false) no_fields)

  unfoldable pub no_operation_result : ExecuteResult Float
  unfolding not_ok
  no_operation_result = record {
    steps = no_mapping ∷ [];
    result = not_ok;
    status = failed;
    problems = no_operation ∷ [];
  }

  unfoldable pub unresolved_result : Text → ExecuteResult Float
  unfolding not_ok
  unresolved_result url = record {
    steps = unresolved url ∷ [];
    result = not_ok;
    status = failed;
    problems = unresolved_path_params ∷ [];
  }

  -- The result of a call whose request could be built; an error of the network is only noted.
  unfoldable pub sent_result : Request Float → Result (Response Float) → ExecuteResult Float
  sent_result req err = record {
    steps = sent req.method req.url none ∷ [];
    result = none;
    status = succeeded;
    problems = [];
  }
  sent_result req (ok resp) = record {
    steps = sent req.method req.url (some resp.status) ∷ [];
    result = resp.body;
    status = succeeded;
    problems = [];
  }

  -- `valid` is http.NewRequest's check of the request, `http` the network.
  module _ (valid : Request Float → Bool) (http : Request Float → Result (Response Float)) where
    unfoldable pub send : Request Float → ExecuteResult Float × List (Request Float)
    unfolding sent_result
    send req =
        if valid req then (sent_result req (http req), req ∷ []) else (sent_result req err, [])

    unfoldable pub run_operation :
        Option (Fields Float)
        → Option (Operation Float)
        → ExecuteResult Float × List (Request Float)
    unfolding send build_request full_url contains no_operation_result unresolved_result
    run_operation input none = (no_operation_result, [])
    run_operation input (some op) =
        if contains b'{' (full_url input op)
        then (unresolved_result (full_url input op), [])
        else send (build_request input op)

    -- The row of the INSERT that ends each branch, with the id that the database generates.
    unfoldable pub execution_row :
        Text → Text → Text → Text → ExecuteResult Float → Text → ExecutionRow Float
    execution_row tenant action decision_id key r id = record {
      id = id;
      tenant_id = tenant;
      action_key = action;
      decision_id = decision_id;
      idempotency_key = key;
      steps = r.steps;
      result = r.result;
      status = r.status;
    }

    -- ON CONFLICT DO NOTHING: the id is the only unique key of the table, so a row that has it already
    -- is the only conflict.
    insert_row : ExecutionRow Float → List (ExecutionRow Float) → List (ExecutionRow Float)
    insert_row row rows = if any (λ r. text_eq r.id row.id) rows then rows else rows ++ row ∷ []

    -- The INSERT, its error dropped.
    unfoldable pub store_row :
        Option (ExecutionStore Float)
        → (Text → ExecutionRow Float)
        → Option (List (ExecutionRow Float))
    unfolding insert_row
    store_row none row = none
    store_row (some s) row =
        some (elim s.inserted [ none ↦ s.executions | some id ↦ insert_row (row id) s.executions ])

    unfoldable pub execute :
        Option (ExecutionStore Float) → Text → Text → Text → Option (Fields Float) → Execution Float
    unfolding run_operation find_operation execution_row store_row idempotency_key
    execute store tenant action decision_id input =
        let (outcome, requests) = run_operation input (find_operation store tenant action) in
        record {
          outcome = outcome;
          requests = requests;
          rows =
              store_row store (
                execution_row tenant action decision_id (idempotency_key input decision_id)
                  outcome);
        }
