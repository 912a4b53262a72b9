-- ===== src/Tests/Service.antt =====
-- Runs of the connector service.
use lamdis_core.Prelude.{
  ℕ, ◌≡◌, ◌⊎◌, refl, true, none, some, List, [], ◌∷◌, Result, ok, err, pos, Memᴰ,
}
use lamdis_core.Text.{Text, to_lower, codes, text_eq}
use lamdis_core.Text.Maps.{Assoc, lookup}
use lamdis_core.Json.{str, obj, field, no_fields, get}
use lamdis_core.Store.{AuthConfigRow, UsageRow}
use lamdis_core.Secrets.{Cipher}
use lamdis_core.Connectors.Registry.{Operation, load_operations}
use lamdis_core.Admin.AuthConfigs.{AuthBody, text_fields, create_auth}
use lamdis_core.ConnectorService.{Context}
use lamdis_core.ConnectorService.Platform.{Platform, Incoming, UpstreamRequest, equal_fold, row_key}
use lamdis_core.ConnectorService.Proxy.{upstream_request, dynamic_handler}
use lamdis_core.ConnectorService.Router.{Routed, to, dynamic_router}
use lamdis_core.ConnectorService.Guards.{target, SentFor, dynamic_router_guarded}
use lamdis_core.ConnectorService.Usage.{IsRecorded, dynamic_handler-IsRecorded}
use lamdis_core.ConnectorService.Credentials.{create_auth-api_key, foreign_api_key}
use lamdis_core.Tests.Data.{shop, tenant}
use lamdis_core.Tests.Catalog.{tables, loaded}
use lamdis_core.Store.{join}
use lamdis_core.Connectors.Registry.{read_cached, store_fetched, fetch_operations, query_operations}
use lamdis_core.OpenApi.Paths.{entry_at}
use lamdis_core.ConnectorService.Document.{serve_open_api, shown_entry, serve_open_api_complete}

abbrev secret_fields : Assoc Text
secret_fields = (codes "api_key", codes "s3cret") ∷ []

abbrev key_cipher : Cipher ℕ
key_cipher = record {
  nonce_size = 2;
  seal = λ key nonce plain. 0 ∷ plain;
  unseal = λ key nonce sealed. tail sealed;
  sha256 = λ s. s;
  marshal = λ v. ok (codes "{}");
  unmarshal = λ s. ok (some (text_fields secret_fields));
}
  where
    tail : Text → Result Text
    tail [] = err
    tail (c ∷ s) = ok s

abbrev platform : Platform ℕ
platform = record {
  url_parses = λ u. true;
  builds = λ m u. true;
  send = λ r. ok (record { status = pos 200; content_type = []; body = codes "hello" });
  unmarshal = λ s. err;
  cipher = key_cipher;
  encryption_key = codes "key";
}

abbrev caller : Context
caller = record {
  tenant = tenant;
  scopes = codes "order:read" ∷ [];
  token = none;
  request_id = codes "q1";
}

abbrev incoming : Incoming
incoming = record { body = none; content_type = []; accept = codes "*/*" }

abbrev base : Text
base = codes "https://api/"

abbrev orders_path : Text
orders_path = codes "/orders/{id}"

abbrev no_usage : List UsageRow
no_usage = []

abbrev first_route : List (Text × Text) → Routed
first_route ps = to 0

dynamic_router_guarded_example :
    ((dynamic_router platform first_route none
        (some true)
        caller
        incoming
        (pos 3)
        no_usage
        (some (ok tables))
        []
        5
        []).0.sent
      ≡ [])
    ⊎ ((ops : List (Operation ℕ)) × (o : Operation ℕ) × ((load_operations
            (some (ok tables))
            caller.tenant.id
            5
            []).0
          ≡ ok ops)
        × Memᴰ o ops
        × SentFor platform first_route none
            (some true)
            caller
            incoming
            (pos 3)
            no_usage
            o
            (dynamic_router platform first_route none
              (some true)
              caller
              incoming
              (pos 3)
              no_usage
              (some (ok tables))
              []
              5
              []).0)
dynamic_router_guarded_example =
    dynamic_router_guarded platform first_route none (some true) caller incoming (pos 3) no_usage
      (some (ok tables)) [] 5 []

dynamic_handler-IsRecorded_example :
    IsRecorded {F = ℕ} true caller (codes "GET") orders_path (pos 3) no_usage (
      dynamic_handler platform none
        (some true)
        (codes "GET")
        orders_path
        (some base)
        none
        caller
        incoming
        (pos 3)
        no_usage)
dynamic_handler-IsRecorded_example =
    dynamic_handler-IsRecorded platform none true (codes "GET") orders_path (some base) none caller
      incoming (pos 3) no_usage refl

abbrev credentials : AuthBody ℕ
credentials = record {
  name = codes "main";
  kind = codes "API_Key";
  config = some no_fields;
  secrets = some secret_fields;
}

create_auth-api_key_example :
    (upstream_request platform
      (some
        (create_auth key_cipher
          (codes "key")
          (ok (codes "no"))
          true
          (codes "a1")
          shop
          (some credentials)
          []).1)
      (some (codes "a1"))
      (codes "GET")
      (codes "https://api/orders")
      incoming).api_key
    ≡ some (codes "s3cret")
create_auth-api_key_example =
    create_auth-api_key platform (codes "a1") shop credentials [] no_fields secret_fields
      (codes "s3cret") (codes "no") (codes "{}") (codes "GET") (codes "https://api/orders") incoming
      refl (unfold equal_fold in refl) refl refl refl refl (unfold get text_eq in refl)
      (unfold lookup text_eq in refl) refl refl (λ h. cc) refl (λ k n s. refl) refl refl

-- Credentials of another tenant.
abbrev theirs : AuthConfigRow ℕ
theirs = record {
  id = codes "a9";
  tenant_id = codes "other";
  name = codes "main";
  kind = codes "api_key";
  config = obj (field (codes "api_key") (str (codes "theirs")) no_fields);
  secrets_encrypted = none;
}

foreign_api_key_example :
    (req : UpstreamRequest) × ((dynamic_handler platform
        (some (theirs ∷ []))
        (some true)
        (codes "GET")
        orders_path
        (some base)
        (some (codes "a9"))
        caller
        incoming
        (pos 3)
        no_usage).sent
      ≡ req ∷ [])
    × (req.url ≡ target (some base) orders_path)
    × (req.api_key ≡ some (codes "theirs"))
foreign_api_key_example =
    foreign_api_key platform (theirs ∷ []) theirs (some true) (codes "GET") orders_path base
      (codes "a9") (codes "theirs") caller incoming (pos 3) no_usage (unfold text_eq in refl)
      (λ h. cc) (unfold row_key equal_fold get in refl) refl refl refl refl

catalog_loaded : (load_operations (some (ok tables)) shop 5 []).0 ≡ ok (loaded ∷ [])
unfolding load_operations read_cached store_fetched fetch_operations query_operations lookup join
    text_eq
catalog_loaded = refl

serve_open_api_complete_example :
    (x : Operation ℕ) × Memᴰ x (loaded ∷ [])
    × (text_eq x.path loaded.path ≡ true)
    × (text_eq (to_lower x.method) (to_lower loaded.method) ≡ true)
    × (entry_at loaded.path
          (to_lower loaded.method)
          (serve_open_api (some (ok tables)) shop 5 []).0.paths
        ≡ some (shown_entry x))
serve_open_api_complete_example =
    serve_open_api_complete (some (ok tables)) shop 5 [] (loaded ∷ []) loaded catalog_loaded
      (Memᴰ.head refl)
