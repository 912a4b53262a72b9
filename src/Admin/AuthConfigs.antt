-- ===== src/Admin/AuthConfigs.antt =====
-- The upstream credentials of a tenant, internal/adminapi/handlers_marketplace_auth.go. `works` tells
-- whether the statement meets no database error; the UNIQUE and NOT NULL constraints are written out.
use lamdis_core.Prelude.{
  Bool, true, false, not, ◌&&◌, ◌||◌, Option, none, some, List, [], ◌∷◌, ◌++◌, Result, ok, err,
  if◌then◌else◌, null, any, find, filter_by,
}
use lamdis_core.Text.{Text, codes, text_eq, trim_space}
use lamdis_core.Text.Maps.{Assoc}
use lamdis_core.Json.{
  Value, nil, bool, str, arr, obj, Items, no_items, item, Fields, no_fields, field, as_map, of_map,
}
use lamdis_core.Facts.Resolve.{or_empty}
use lamdis_core.Secrets.{Cipher, encrypt_json}
use lamdis_core.Store.{AuthConfigRow}
use lamdis_core.Store.Table.{update_where, delete_where, order_by}
use lamdis_core.Admin.Policies.{Answer, error, json, ok_answer}
use lamdis_core.Admin.Actions.{map_param, coalesce}

-- `AuthBody`
pub record AuthBody (F : Type 0) : Type 0 where
  pub name : Text
  pub kind : Text
  pub config : Option (Fields F)
  pub secrets : Option (Assoc Text)

-- nullIfEmpty: a blank text is NULL, any other is passed as it is
unfoldable pub null_if_empty : Text → Option Text
unfolding trim_space
null_if_empty s = if null (trim_space s) then none else some s

module _ {F : Type 0} where
  -- A map[string]string as a value.
  unfoldable pub text_fields : Assoc Text → Fields F
  text_fields [] = no_fields
  text_fields ((k, v) ∷ m) = field k (str v) (text_fields m)

  abbrev pub secrets_value : Option (Assoc Text) → Value F
  secrets_value none = nil
  secrets_value (some m) = obj (text_fields m)

  -- The primary key, and UNIQUE (tenant_id, name)
  abbrev pub is_taken : Text → Text → Text → List (AuthConfigRow F) → Bool
  is_taken id tenant name rows =
      any (λ r. text_eq r.id id || (text_eq r.tenant_id tenant && text_eq r.name name)) rows

  -- The INSERT: a config of NULL violates the column's NOT NULL.
  unfoldable pub insert_auth :
      Bool
      → Text
      → Text
      → AuthBody F
      → Text
      → List (AuthConfigRow F)
      → Result (List (AuthConfigRow F))
  insert_auth works id tenant b enc rows = elim b.config [
    | none ↦ err
    | some config ↦
        if works && not (is_taken id tenant b.name rows)
        then ok (
            rows
            ++ record {
              id = id;
              tenant_id = tenant;
              name = b.name;
              kind = b.kind;
              config = obj config;
              secrets_encrypted = some enc;
            }
              ∷ [])
        else err
  ]

  answer_insert :
      Text
      → List (AuthConfigRow F)
      → Result (List (AuthConfigRow F))
      → Answer F × List (AuthConfigRow F)
  answer_insert id rows err = (error 500 (codes "db error"), rows)
  answer_insert id rows (ok rows') =
      (json 201 (field (codes "ok") (bool true) (field (codes "id") (str id) no_fields)), rows')

  -- `createAuth`: `id` is uuidNew's, `nonce` what rand.Read gives.
  unfoldable pub create_auth :
      Cipher F
      → Text
      → Result Text
      → Bool
      → Text
      → Text
      → Option (AuthBody F)
      → List (AuthConfigRow F)
      → Answer F × List (AuthConfigRow F)
  unfolding insert_auth answer_insert
  create_auth c key nonce works id tenant none rows = (error 400 (codes "bad json"), rows)
  create_auth c key nonce works id tenant (some b) rows =
      if null b.name || null b.kind
      then (error 400 (codes "missing fields"), rows)
      else elim (encrypt_json c key nonce (secrets_value b.secrets)) [
        | err ↦ (error 500 (codes "encrypt"), rows)
        | ok enc ↦ answer_insert id rows (insert_auth works id tenant b enc rows)
      ]

  abbrev is_own : Text → Text → AuthConfigRow F → Bool
  is_own tenant id r = text_eq r.id id && text_eq r.tenant_id tenant

  abbrev change_auth : AuthBody F → Option Text → AuthConfigRow F → AuthConfigRow F
  change_auth b enc r = record r {
    name = or_empty r.name (null_if_empty b.name);
    kind = or_empty r.kind (null_if_empty b.kind);
    config = or_empty r.config (map_param b.config);
    secrets_encrypted = coalesce enc r.secrets_encrypted;
  }

  -- The new secrets, where the body has some.
  new_secrets : Cipher F → Text → Result Text → Option (Assoc Text) → Result (Option Text)
  new_secrets c key nonce none = ok none
  new_secrets c key nonce (some m) = elim (encrypt_json c key nonce (secrets_value (some m))) [
    | err ↦ err
    | ok enc ↦ ok (some enc)
  ]

  -- UNIQUE (tenant_id, name), at the row that the UPDATE changes
  abbrev pub name_taken : Text → Text → AuthBody F → List (AuthConfigRow F) → Bool
  name_taken tenant id b rows = elim (find (is_own tenant id) rows) [
    | none ↦ false
    | some r ↦
        any
          (λ x.
            not (text_eq x.id id)
            && text_eq x.tenant_id tenant
            && text_eq x.name (or_empty r.name (null_if_empty b.name)))
          rows
  ]

  -- `updateAuth`
  unfoldable pub update_auth :
      Cipher F
      → Text
      → Result Text
      → Bool
      → Text
      → Text
      → Option (AuthBody F)
      → List (AuthConfigRow F)
      → Answer F × List (AuthConfigRow F)
  unfolding new_secrets update_where ok_answer null_if_empty
  update_auth c key nonce works id tenant none rows = (error 400 (codes "bad json"), rows)
  update_auth c key nonce works id tenant (some b) rows = elim (new_secrets c key nonce b.secrets) [
    | err ↦ (error 500 (codes "encrypt"), rows)
    | ok enc ↦
        if works && not (name_taken tenant id b rows)
        then (ok_answer no_fields, update_where (is_own tenant id) (change_auth b enc) rows)
        else (error 500 (codes "db error"), rows)
  ]

  -- `deleteAuth`
  unfoldable pub delete_auth :
      Bool → Text → Text → List (AuthConfigRow F) → Answer F × List (AuthConfigRow F)
  unfolding delete_where ok_answer
  delete_auth works id tenant rows =
      if works
      then (ok_answer no_fields, delete_where (is_own tenant id) rows)
      else (error 500 (codes "db error"), rows)

  auth_items : List (AuthConfigRow F) → Items F
  auth_items [] = no_items
  auth_items (r ∷ rows) =
      item
        (obj (
          field (codes "ID") (str r.id) (
            field (codes "Name") (str r.name) (
              field (codes "Type") (str r.kind)
                (field (codes "Config") (of_map (as_map r.config)) no_fields)))))
        (auth_items rows)

  -- A nil slice of rows prints as null.
  abbrev pub items_or_nil : Items F → Value F
  items_or_nil no_items = nil
  items_or_nil (item v l) = arr (item v l)

  -- `listAuth`
  unfoldable pub list_auth : (Text → Text → Bool) → Bool → Text → List (AuthConfigRow F) → Answer F
  unfolding auth_items order_by
  list_auth le works tenant rows =
      if works
      then json 200 (
          field (codes "items")
            (items_or_nil (
              auth_items
                (order_by le (λ r. r.name) (filter_by (λ r. text_eq r.tenant_id tenant) rows))))
            no_fields)
      else error 500 (codes "db error")
