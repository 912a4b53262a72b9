-- ===== src/Tests/Data.antt =====
-- A machine whose floats and times are numbers, and a database with one tenant.
use lamdis_core.Prelude.{
  ℕ, ◌+◌, ◌-◌, ◌/◌, true, false, Option, none, some, [], ◌∷◌, ok, err, pos, negsuc, pos_part, ltb,
  ◌==◌,
}
use lamdis_core.Text.{Text, codes, text_eq}
use lamdis_core.Json.{
  Runtime, Clock, Value, nil, bool, int, float, str, number, arr, obj, Fields, no_fields, field,
}
use lamdis_core.Facts.Resolve.{FactStore}
use lamdis_core.Store.{DefinitionRow, OperationRow}
use lamdis_core.Orchestrator.Execute.{ExecutionStore}
use lamdis_core.Policy.Http.{Database, World}
use lamdis_core.Tenants.{Tenant}

abbrev pub machine : Runtime
machine = record {
  Float = ℕ;
  zero_float = 0;
  add = λ a b. a + b;
  sub = λ a b. a - b;
  div = λ a b. a / b;
  of_int = λ n. pos_part n;
  trunc = λ n. pos n;
  is_zero_float = λ n. n == 0;
  is_positive = λ n. ltb 0 n;
  format = λ n. n ∷ [];
  parse_float = λ s. none;
  Time = ℕ;
  parse_rfc3339 = λ s. none;
  parse_date = λ s. none;
  hours_since = λ now t. 0;
  now_text = λ now. elim now [ pos n ↦ n ∷ [] | negsuc n ↦ [] ];
}

-- A clock that moves by one nanosecond at each reading.
abbrev pub clock : Clock
clock n = pos n

-- A writer of values that tells their kinds.
abbrev pub write_value : Value ℕ → Text
write_value nil = b'n' ∷ []
write_value (bool b) = b'b' ∷ []
write_value (int n) = b'i' ∷ []
write_value (float x) = b'f' ∷ []
write_value (str s) = b's' ∷ []
write_value (number s) = b'm' ∷ []
write_value (arr l) = b'a' ∷ []
write_value (obj no_fields) = b'e' ∷ []
write_value (obj (field k v m)) = b'o' ∷ []

abbrev pub shop : Text
shop = codes "shop"

abbrev pub action : Text
action = codes "store.orders"

abbrev pub store_definition : DefinitionRow ℕ
store_definition = record {
  id = codes "c1";
  tenant_id = shop;
  kind = codes "Store";
  base_url = some (codes "https://api/");
  auth_ref = none;
  title = none;
  summary = none;
  builtin_kind = none;
  auth = none;
  config = none;
  secret = none;
}

abbrev pub orders_operation : OperationRow ℕ
orders_operation = record {
  id = codes "o1";
  connector_id = codes "c1";
  method = codes "GET";
  path = codes "/orders/{id}";
  summary = codes "Orders";
  scopes = some (codes "order:read" ∷ []);
  request_tmpl = none;
  params = none;
  enabled = some true;
}

abbrev pub executions : ExecutionStore ℕ
executions = record {
  operations = orders_operation ∷ [];
  definitions = store_definition ∷ [];
  executions = [];
  queries = true;
  inserted = some (codes "e1");
}

abbrev pub no_facts : FactStore ℕ
no_facts = record {
  resolvers = [];
  mappings = [];
  begins = true;
  sets_tenant = true;
  commits = true;
}

abbrev pub database : Database ℕ
database = record { versions = []; decisions = []; facts = no_facts; execution = executions }

abbrev pub inputs : Option (Fields ℕ)
inputs = some (field (codes "id") (str (codes "7")) no_fields)

abbrev pub world : World machine
world = record {
  rego = λ code v. err;
  search = λ path v. err;
  marshal = write_value;
  sha256 = λ t. b'#' ∷ t;
  sees = λ t u. text_eq u t;
  valid = λ r. true;
  http = λ r. ok (record { status = 200; body = none });
  type_url = λ t. t;
}

abbrev pub tenant : Tenant
tenant = record {
  id = shop;
  slug = codes "shop";
  host = codes "localhost";
  oauth_issuer = codes "https://id/";
  jwks_url = codes "https://id/keys";
  base_public_url = [];
  auth_mode = codes "byoidc";
  discovery_url = [];
  accepted_audiences = codes "a" ∷ codes "b" ∷ [];
  account_claim = codes "sub";
  machine_allowed_scopes = codes "read" ∷ [];
  required_acr_by_action = (codes "pay", codes "high") ∷ [];
  dpop_required = false;
}
