-- ===== src/ConnectorService/Proxy.antt =====
-- `makeDynamicOperationHandler` of internal/connector/handler.go: a request of a connector's operation is
-- passed on to the connector, or echoed where it has no base URL. Bodies are bytes.
use lamdis_core.Prelude.{
  ◌*◌, Bool, true, not, Option, none, some, List, [], ◌∷◌, ◌++◌, Result, ok, err, if◌then◌else◌,
  null, ℤ, pos,
}
use lamdis_core.Text.{Text, codes, trim_right_char}
use lamdis_core.Json.{Value, nil, bool, int, str, obj, no_fields, field}
use lamdis_core.Facts.Resolve.{or_empty}
use lamdis_core.Secrets.{take}
use lamdis_core.Store.{UsageRow, AuthConfigRow}
use lamdis_core.Middleware.Auth.{actor_sub}
use lamdis_core.Admin.Policies.{Answer, error, json}
use lamdis_core.ConnectorService.{Context, log_usage}
use lamdis_core.ConnectorService.Platform.{
  Incoming, UpstreamRequest, UpstreamResponse, Platform, contains_text, read_limited, non_empty,
  api_key_for,
}

-- What the handler does: its answer with the header X-Connector-Upstream, the requests that it sent and
-- the usage that is then recorded.
pub record Outcome (F : Type 0) : Type 0 where
  pub answer : Answer F
  pub upstream : Option Text
  pub sent : List UpstreamRequest
  pub usage : List UsageRow

abbrev pub usage_row : Context → Text → Text → ℤ → ℤ → UsageRow
usage_row ctx method path status elapsed = record {
  tenant_id = ctx.tenant.id;
  action_id = [];
  method = method;
  path = path;
  mode = [];
  rail = [];
  actor_sub = actor_sub ctx.token;
  request_id = ctx.request_id;
  status_code = status;
  duration_ms = elapsed;
}

module _ {F : Type 0} (p : Platform F) where
  unfoldable pub upstream_request :
      Option (List (AuthConfigRow F)) → Option Text → Text → Text → Incoming → UpstreamRequest
  unfolding api_key_for read_limited
  upstream_request configs ref method full r = record {
    method = method;
    url = full;
    body = read_limited (2 * 1048576) method r.body;
    api_key = api_key_for p configs ref;
    content_type = non_empty r.content_type;
    accept = non_empty r.accept;
  }

  -- A JSON answer is decoded, if it can be; any other is a text.
  unfoldable pub upstream_value : UpstreamResponse → Value F
  unfolding contains_text take
  upstream_value resp =
      let bytes = take (4 * 1048576) resp.body in
      if contains_text (codes "application/json") resp.content_type
      then elim (p.unmarshal bytes) [ err ↦ str bytes | ok v ↦ v ]
      else str bytes

  abbrev operation_value : Text → Text → Value F
  operation_value method path =
      obj (field (codes "method") (str method) (field (codes "path") (str path) no_fields))

  abbrev bad_gateway : Text → List UpstreamRequest → List UsageRow → Outcome F
  bad_gateway message sent usage = record {
    answer = error 502 message;
    upstream = none;
    sent = sent;
    usage = usage;
  }

  -- What becomes of the connector's response.
  unfoldable pub pass_back :
      Option Bool
      → Context
      → Text
      → Text
      → UpstreamRequest
      → ℤ
      → List UsageRow
      → Result UpstreamResponse
      → Outcome F
  unfolding upstream_value log_usage
  pass_back pool ctx method path req elapsed usage err =
      bad_gateway (codes "upstream_unreachable") (req ∷ []) usage
  pass_back pool ctx method path req elapsed usage (ok resp) = record {
    answer = json 200 (
        field (codes "passthrough") (bool true) (
          field (codes "upstream_status") (int resp.status) (
            field (codes "operation") (operation_value method path) (
              field (codes "upstream") (upstream_value resp)
                (field (codes "duration_ms") (int elapsed) no_fields)))));
    upstream = some req.url;
    sent = req ∷ [];
    usage = log_usage pool ctx (usage_row ctx method path resp.status elapsed) usage;
  }

  unfoldable pub pass_through :
      Option (List (AuthConfigRow F))
      → Option Bool
      → Context
      → Text
      → Text
      → Text
      → Option Text
      → Incoming
      → ℤ
      → List UsageRow
      → Outcome F
  unfolding pass_back upstream_request trim_right_char
  pass_through configs pool ctx method path base ref r elapsed usage =
      let full = trim_right_char b'/' base ++ path in
      let req = upstream_request configs ref method full r in
      if not (p.url_parses full)
      then bad_gateway (codes "invalid_upstream_url") [] usage
      else if not (p.builds method full)
      then bad_gateway (codes "upstream_request_build_failed") [] usage
      else pass_back pool ctx method path req elapsed usage (p.send req)

  -- A body that is not JSON is left nil.
  received : Text → Value F
  received b = if null b then nil else elim (p.unmarshal b) [ err ↦ nil | ok v ↦ v ]

  unfoldable pub echo :
      Option Bool → Context → Text → Text → Incoming → ℤ → List UsageRow → Outcome F
  unfolding received read_limited log_usage
  echo pool ctx method path r elapsed usage = record {
    answer = json 200 (
        field (codes "ok") (bool true) (
          field (codes "operation") (operation_value method path) (
            field (codes "received") (received (read_limited 1048576 method r.body))
              (field (codes "duration_ms") (int elapsed) no_fields))));
    upstream = none;
    sent = [];
    usage = log_usage pool ctx (usage_row ctx method path (pos 200) elapsed) usage;
  }

  -- `makeDynamicOperationHandler`
  unfoldable pub dynamic_handler :
      Option (List (AuthConfigRow F))
      → Option Bool
      → Text
      → Text
      → Option Text
      → Option Text
      → Context
      → Incoming
      → ℤ
      → List UsageRow
      → Outcome F
  unfolding pass_through echo
  dynamic_handler configs pool method path base ref ctx r elapsed usage =
      if null (or_empty [] base)
      then echo pool ctx method path r elapsed usage
      else pass_through configs pool ctx method path (or_empty [] base) ref r elapsed usage
