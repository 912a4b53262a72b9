-- ===== src/ConnectorService/Platform.antt =====
-- What `makeDynamicOperationHandler` of internal/connector/handler.go meets: the requests, the platform and
-- the stored credentials. Bodies are bytes.
use lamdis_core.Prelude.{
  ℕ, ◌+◌, Bool, ◌||◌, Option, none, some, List, [], ◌∷◌, Result, ok, err, if◌then◌else◌, null, ℤ,
  map, find, ◌==◌,
}
use lamdis_core.Text.{Text, codes, text_eq, is_upper, has_prefix}
use lamdis_core.Json.{Value, str, get_in, as_map}
use lamdis_core.Secrets.{Cipher, decrypt_secrets, take}
use lamdis_core.Store.{AuthConfigRow}

-- The request as it came in.
pub record Incoming : Type 0 where
  pub body : Option Text
  pub content_type : Text
  pub accept : Text

-- The request that is sent to the connector.
pub record UpstreamRequest : Type 0 where
  pub method : Text
  pub url : Text
  pub body : Text
  pub api_key : Option Text
  pub content_type : Option Text
  pub accept : Option Text

pub record UpstreamResponse : Type 0 where
  pub status : ℤ
  pub content_type : Text
  pub body : Text

-- The parts of the platform: url.Parse, http.NewRequestWithContext, the client, json.Unmarshal and the
-- key of the environment.
pub record Platform (F : Type 0) : Type 0 where
  pub url_parses : Text → Bool
  pub builds : Text → Text → Bool
  pub send : UpstreamRequest → Result UpstreamResponse
  pub unmarshal : Text → Result (Value F)
  pub cipher : Cipher F
  pub encryption_key : Text

-- strings.Contains
unfoldable pub contains_text : Text → Text → Bool
contains_text p [] = has_prefix p []
contains_text p (c ∷ s) = has_prefix p (c ∷ s) || contains_text p s

-- strings.EqualFold with an ASCII text
unfoldable pub fold_char : ℕ → ℕ
fold_char c = if is_upper c then c + 32 else if c == 0x212a then b'k' else c

unfoldable pub equal_fold : Text → Text → Bool
unfolding fold_char text_eq
equal_fold s t = text_eq (map fold_char s) (map fold_char t)

unfoldable pub has_body : Text → Bool
unfolding text_eq
has_body method =
    text_eq method (codes "POST") || text_eq method (codes "PUT") || text_eq method (codes "PATCH")

-- What io.ReadAll gives of a body that http.MaxBytesReader limits: its error is dropped.
unfoldable pub read_limited : ℕ → Text → Option Text → Text
unfolding take has_body
read_limited limit method none = []
read_limited limit method (some b) = if has_body method then take limit b else []

abbrev pub non_empty : Text → Option Text
non_empty s = if null s then none else some s

module _ {F : Type 0} (p : Platform F) where
  -- v.(string), where it is not empty
  abbrev pub text_value : Option (Value F) → Option Text
  text_value (some (str s)) = non_empty s
  text_value _ = none

  -- The key in the encrypted secrets, where there is a key to open them.
  unfoldable pub secret_key : Option Text → Option Text
  secret_key none = none
  secret_key (some enc) =
      if null enc || null p.encryption_key
      then none
      else elim (decrypt_secrets p.cipher enc p.encryption_key) [
        | err ↦ none
        | ok secrets ↦ text_value (get_in (codes "api_key") secrets)
      ]

  abbrev pub first_of : Option Text → Option Text → Option Text
  first_of (some s) other = some s
  first_of none other = other

  -- The key of a row: of its plain config first.
  unfoldable pub row_key : AuthConfigRow F → Option Text
  unfolding equal_fold secret_key
  row_key r =
      if equal_fold r.kind (codes "api_key")
      then first_of (text_value (get_in (codes "api_key") (as_map r.config)))
          (secret_key r.secrets_encrypted)
      else none

  row_key_of : Option (AuthConfigRow F) → Option Text
  unfolding row_key
  row_key_of none = none
  row_key_of (some r) = row_key r

  -- The key for an auth_ref: the row is looked up by its id alone. `configs` is none without a pool, or
  -- where the query fails.
  unfoldable pub api_key_for : Option (List (AuthConfigRow F)) → Option Text → Option Text
  unfolding row_key_of text_eq
  api_key_for none ref = none
  api_key_for (some rows) none = none
  api_key_for (some rows) (some ref) =
      if null ref then none else row_key_of (find (λ r. text_eq r.id ref) rows)
