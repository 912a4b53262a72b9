-- ===== src/ConnectorService/Credentials.antt =====
-- From the stored credentials of a tenant, Admin.AuthConfigs, to the header x-api-key of a proxied request.
use lamdis_core.Prelude.{
  ℕ, ℤ, ◌≡◌, ◌≢◌, refl, ◌∙◌, inl, inr, Bool, true, false, Option, none, some, List, [], ◌∷◌, ◌++◌,
  ok, arith, null, length, find, find-append_last, Result-cases,
}
use lamdis_core.Text.{Text, codes, text_eq}
use lamdis_core.Text.Laws.{text_eq_refl}
use lamdis_core.Text.Maps.{Assoc, lookup}
use lamdis_core.Json.{str, obj, Fields, get, of_map, get_in, as_map}
use lamdis_core.Secrets.{encrypt_json, decrypt_secrets, encrypt_json-decrypt_secrets}
use lamdis_core.Store.{AuthConfigRow, UsageRow}
use lamdis_core.Admin.AuthConfigs.{AuthBody, text_fields, is_taken, insert_auth, create_auth}
use lamdis_core.ConnectorService.{Context}
use lamdis_core.ConnectorService.Guards.{target, pass_back_sent}
use lamdis_core.ConnectorService.Proxy.{upstream_request, dynamic_handler, pass_through}
use lamdis_core.ConnectorService.Platform.{
  Incoming, Platform, UpstreamRequest, equal_fold, text_value, secret_key, row_key, api_key_for,
}

module _ {F : Type 0} where
  get-text_fields :
      (k : Text) (m : Assoc Text) (v : Text)
      → lookup k m ≡ some v
      → get k (text_fields {F = F} m) ≡ some (str v)
  unfolding get text_fields lookup
  get-text_fields k [] v h = cc
  get-text_fields k ((j, w) ∷ m) v h = ground (arith, get-text_fields k m v)

  not_taken :
      (id tenant name : Text) (rows : List (AuthConfigRow F))
      → is_taken id tenant name rows ≡ false
      → find (λ r. text_eq r.id id) rows ≡ none
  not_taken id tenant name [] h = refl
  not_taken id tenant name (r ∷ rows) h = ground (arith, not_taken id tenant name rows)

equal_fold_nil : equal_fold [] (codes "api_key") ≡ true → null {A = ℕ} [] ≡ false
unfolding equal_fold
equal_fold_nil h = cc

module _ {F : Type 0} (p : Platform F) where
  -- What the header holds where the row is the last of the table and its id is new.
  api_key_for-last :
      (rows : List (AuthConfigRow F)) (r : AuthConfigRow F) (tenant name : Text)
      → null r.id ≡ false
      → is_taken r.id tenant name rows ≡ false
      → api_key_for p (some (rows ++ r ∷ [])) (some r.id) ≡ row_key p r
  unfolding api_key_for
  api_key_for-last rows r tenant name named free =
      rw
        (
          named,
          find-append_last (λ x. text_eq x.id r.id) rows r (not_taken r.id tenant name rows free)
              (text_eq_refl r.id),
        )
        refl

  row_key-sealed :
      (r : AuthConfigRow F) (enc secret : Text) (secrets : Assoc Text)
      → equal_fold r.kind (codes "api_key") ≡ true
      → text_value p (get_in (codes "api_key") (as_map r.config)) ≡ none
      → r.secrets_encrypted ≡ some enc
      → null enc ≡ false
      → null p.encryption_key ≡ false
      → decrypt_secrets p.cipher enc p.encryption_key ≡ ok (some (text_fields secrets))
      → lookup (codes "api_key") secrets ≡ some secret
      → null secret ≡ false
      → row_key p r ≡ some secret
  unfolding row_key secret_key
  row_key-sealed r enc secret secrets kind plain stored filled keyed opened known present =
      rw
        (
          kind,
          plain,
          stored,
          filled,
          keyed,
          opened,
          get-text_fields {F = F} (codes "api_key") secrets secret known,
          present,
        )
        refl

  -- A blob that opens is not empty.
  opened-filled :
      (enc key : Text) (m : Option (Fields F))
      → decrypt_secrets p.cipher enc key ≡ ok m
      → null enc ≡ false
  unfolding decrypt_secrets
  opened-filled [] key m h = cc
  opened-filled (x ∷ enc) key m h = refl

  sealed_of :
      (key nonce plain : Text) (m : Option (Fields F))
      → null key ≡ false
      → nonce ≢ []
      → length nonce ≡ p.cipher.nonce_size
      → ((k n s : Text) → p.cipher.unseal k n (p.cipher.seal k n s) ≡ ok s)
      → p.cipher.marshal (of_map m) ≡ ok plain
      → p.cipher.unmarshal plain ≡ ok m
      → (enc : Text) × (encrypt_json p.cipher key (ok nonce) (of_map m) ≡ ok enc)
        × (decrypt_secrets p.cipher enc key ≡ ok m)
  sealed_of key nonce plain m keyed present size law written read =
      let e =
        encrypt_json-decrypt_secrets p.cipher key nonce plain m (not_null key keyed) present size
          law written read in
      elim (Result-cases (encrypt_json p.cipher key (ok nonce) (of_map m))) [
        | inl f ↦ absurd (cc (rw f at e))
        | inr (enc, f) ↦ (enc, f, rw f at e)
      ]
    where
      not_null : (s : Text) → null s ≡ false → s ≢ []
      not_null [] h q = cc
      not_null (x ∷ s) h q = cc

  module _ (id tenant : Text) (b : AuthBody F) (rows : List (AuthConfigRow F)) (config : Fields F)
      (secrets : Assoc Text) (named : null b.name ≡ false) (kinded : null b.kind ≡ false)
      (configured : b.config ≡ some config) (given : b.secrets ≡ some secrets)
      (free : is_taken id tenant b.name rows ≡ false) where
    -- The row that the handler adds.
    abbrev created : Text → AuthConfigRow F
    created enc = record {
      id = id;
      tenant_id = tenant;
      name = b.name;
      kind = b.kind;
      config = obj config;
      secrets_encrypted = some enc;
    }

    create_auth-rows :
        (key nonce enc : Text)
        → encrypt_json p.cipher key (ok nonce) (obj (text_fields secrets)) ≡ ok enc
        → (create_auth p.cipher key (ok nonce) true id tenant (some b) rows).1
          ≡ rows ++ created enc ∷ []
    unfolding create_auth insert_auth
    create_auth-rows key nonce enc e = rw (named, kinded, given, e, configured, free) refl

  -- A secret that is stored for a connector is the key that a proxied request carries: credentials of type
  -- api_key that were just created with an `api_key` among their secrets, and none in their plain config,
  -- give every request of an operation that refers to them this key. Both services have the same key,
  -- the id is new, the tenant has no credentials of the name, the cipher opens what it seals, and the JSON of
  -- the secrets is read back as it.
  pub create_auth-api_key :
      (id tenant : Text) (b : AuthBody F) (rows : List (AuthConfigRow F)) (config : Fields F)
      (secrets : Assoc Text) (secret nonce plain : Text) (method full : Text) (r : Incoming)
      → null b.name ≡ false
      → equal_fold b.kind (codes "api_key") ≡ true
      → b.config ≡ some config
      → b.secrets ≡ some secrets
      → is_taken id tenant b.name rows ≡ false
      → null id ≡ false
      → text_value p (get (codes "api_key") config) ≡ none
      → lookup (codes "api_key") secrets ≡ some secret
      → null secret ≡ false
      → null p.encryption_key ≡ false
      → nonce ≢ []
      → length nonce ≡ p.cipher.nonce_size
      → ((k n s : Text) → p.cipher.unseal k n (p.cipher.seal k n s) ≡ ok s)
      → p.cipher.marshal (obj (text_fields secrets)) ≡ ok plain
      → p.cipher.unmarshal plain ≡ ok (some (text_fields secrets))
      → let created_rows =
          (create_auth p.cipher p.encryption_key (ok nonce) true id tenant (some b) rows).1 in
        (upstream_request p (some created_rows) (some id) method full r).api_key ≡ some secret
  unfolding upstream_request
  create_auth-api_key id tenant b rows config secrets secret nonce plain method full r named kind
        configured given free new bare known present keyed fresh size law written read =
      let (enc, e, d) =
        sealed_of p.encryption_key nonce plain (some (text_fields secrets)) keyed fresh size law
          written read in
      let row =
        created id tenant b rows config secrets named (kind_filled b.kind kind) configured given
          free enc in
      rw
        (create_auth-rows id tenant b rows config secrets named (kind_filled b.kind kind) configured
          given free p.encryption_key nonce enc e)
        (api_key_for-last rows row tenant b.name new free
          ∙ row_key-sealed row enc secret secrets kind bare refl
              (opened-filled enc p.encryption_key (some (text_fields secrets)) d) keyed d known
              present)
    where
      kind_filled : (s : Text) → equal_fold s (codes "api_key") ≡ true → null s ≡ false
      kind_filled [] h = equal_fold_nil h
      kind_filled (x ∷ s) h = refl

  -- The credentials are looked up by their id alone: an operation whose auth_ref names credentials of another
  -- tenant is sent to its own base URL with the other tenant's key, where the URL parses and builds a
  -- request.
  pub foreign_api_key :
      (rows : List (AuthConfigRow F)) (row : AuthConfigRow F) (pool : Option Bool)
      (method path base ref key : Text) (ctx : Context) (r : Incoming) (elapsed : ℤ)
      (usage : List UsageRow)
      → find (λ x. text_eq x.id ref) rows ≡ some row
      → row.tenant_id ≢ ctx.tenant.id
      → row_key p row ≡ some key
      → null ref ≡ false
      → null base ≡ false
      → p.url_parses (target (some base) path) ≡ true
      → p.builds method (target (some base) path) ≡ true
      → (req : UpstreamRequest) × ((dynamic_handler p
            (some rows)
            pool
            method
            path
            (some base)
            (some ref)
            ctx
            r
            elapsed
            usage).sent
          ≡ req ∷ [])
        × (req.url ≡ target (some base) path)
        × (req.api_key ≡ some key)
  unfolding dynamic_handler pass_through upstream_request api_key_for
  foreign_api_key rows row pool method path base ref key ctx r elapsed usage found foreign keyed
        named set parses builds =
      let full = target (some base) path in
      (
        upstream_request p (some rows) (some ref) method full r,
        rw (set, parses, builds)
            (pass_back_sent p (some rows) pool ctx method path
              (upstream_request p (some rows) (some ref) method full r) elapsed usage _),
        refl,
        rw (named, found) keyed,
      )
