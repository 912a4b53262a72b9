-- ===== src/Admin/Tenant.antt =====
-- The tenant's own settings, internal/adminapi/handlers_tenant.go: `getTenantSelf` and `putTenantOIDC`.
pub mod Settings
use lamdis_core.Prelude.{
  Bool, true, false, not, ◌&&◌, ◌||◌, Option, none, some, List, [], ◌∷◌, Result, ok, err, ◌>>=◌,
  if◌then◌else◌, null, find,
}
use lamdis_core.Text.{Text, codes, text_eq}
use lamdis_core.Json.{Value, nil, bool, str, arr, Fields, no_fields, field}
use lamdis_core.Facts.Resolve.{or_empty}
use lamdis_core.Store.{TenantRow}
use lamdis_core.Store.Table.{update_where}
use lamdis_core.Tenants.Postgres.{present}
use lamdis_core.Admin.Policies.{Answer, error, json, ok_answer}
use lamdis_core.Admin.Connectors.Reads.{text_or_nil, texts_value}

-- `OIDCBody`: a key that is left out is an empty text or list
pub record OidcBody : Type 0 where
  pub oauth_issuer : Text
  pub accepted_audiences : List Text
  pub client_id_user : Text
  pub client_id_machine : Option Text
  pub account_claim : Text
  pub dpop_required : Option Bool

module _ {F : Type 0} where
  -- A nil slice, of a column that is NULL, prints as null.
  abbrev texts_or_nil : Option (List Text) → Value F
  texts_or_nil none = nil
  texts_or_nil (some l) = arr (texts_value l)

  -- The scan fails at a NULL in a text or a truth value; the client identifiers may be NULL.
  self_fields : TenantRow F → Result (Fields F)
  self_fields r = present r.slug >>= λ slug. present r.host >>= λ host.
      present r.oauth_issuer >>= λ issuer. present r.account_claim >>= λ account_claim.
      present r.dpop_required >>= λ dpop_required. ok (
        field (codes "id") (str r.id) (
          field (codes "slug") (str slug) (
            field (codes "host") (str host) (
              field (codes "oauth_issuer") (str issuer) (
                field (codes "accepted_audiences") (texts_or_nil r.accepted_audiences) (
                  field (codes "account_claim") (str account_claim) (
                    field (codes "client_id_user") (text_or_nil r.client_id_user) (
                      field (codes "client_id_machine") (text_or_nil r.client_id_machine)
                        (field (codes "dpop_required") (bool dpop_required) no_fields)))))))))

  self_answer : Result (Fields F) → Answer F
  self_answer err = error 500 (codes "db error")
  self_answer (ok fields) = json 200 fields

  -- `getTenantSelf`
  unfoldable pub get_tenant_self : Bool → Text → List (TenantRow F) → Answer F
  unfolding self_answer self_fields
  get_tenant_self works tenant rows =
      if not works
      then error 500 (codes "db error")
      else elim (find (λ r. text_eq r.id tenant) rows) [
        | none ↦ error 404 (codes "tenant not found")
        | some r ↦ self_answer (self_fields r)
      ]

  -- COALESCE($5,'sub') over a text, which is never NULL
  unfoldable pub change_oidc : OidcBody → TenantRow F → TenantRow F
  change_oidc b r = record r {
    oauth_issuer = some b.oauth_issuer;
    accepted_audiences = some b.accepted_audiences;
    client_id_user = some b.client_id_user;
    client_id_machine = b.client_id_machine;
    account_claim = some b.account_claim;
    dpop_required = some (or_empty false b.dpop_required);
  }

  -- `putTenantOIDC`
  unfoldable pub put_tenant_oidc :
      Bool → Text → Option OidcBody → List (TenantRow F) → Answer F × List (TenantRow F)
  unfolding update_where change_oidc ok_answer
  put_tenant_oidc works tenant none rows = (error 400 (codes "bad json"), rows)
  put_tenant_oidc works tenant (some b) rows =
      if null b.oauth_issuer || null b.accepted_audiences || null b.client_id_user
      then (error 400 (codes "missing required fields"), rows)
      else if works
      then (ok_answer no_fields, update_where (λ r. text_eq r.id tenant) (change_oidc b) rows)
      else (error 500 (codes "db error"), rows)
