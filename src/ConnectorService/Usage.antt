-- ===== src/ConnectorService/Usage.antt =====
-- When the use of a connector's operation is recorded.
use lamdis_core.Prelude.{
  ◌≡◌, refl, inl, inr, Bool, false, some, if◌then◌else◌, Option, List, [], ◌∷◌, ◌++◌, ok, err, null,
  ℤ, pos, Bool-cases,
}
use lamdis_core.Text.{Text, trim_right_char}
use lamdis_core.Facts.Resolve.{or_empty}
use lamdis_core.Store.{UsageRow, AuthConfigRow}
use lamdis_core.Admin.Policies.{error, json}
use lamdis_core.ConnectorService.{Context, log_usage}
use lamdis_core.ConnectorService.Platform.{Platform, Incoming, UpstreamRequest}
use lamdis_core.ConnectorService.Proxy.{
  Outcome, upstream_request, pass_back, pass_through, echo, dynamic_handler, usage_row,
}

module _ {F : Type 0} where
  -- An answer with a body is recorded where the INSERT works, and one of an error is not.
  abbrev pub IsRecorded : Bool → Context → Text → Text → ℤ → List UsageRow → Outcome F → Type 0
  IsRecorded works ctx method path elapsed usage out = elim out.answer [
    | error status message ↦ out.usage ≡ usage
    | json status body ↦
        (n : ℤ) × (out.usage
          ≡ (if works then usage ++ usage_row ctx method path n elapsed ∷ [] else usage))
  ]

module _ {F : Type 0} (p : Platform F) (configs : Option (List (AuthConfigRow F)))
    (works : Bool) where
  pass_back-IsRecorded :
      (ctx : Context) (method path : Text) (req : UpstreamRequest) (elapsed : ℤ)
      (usage : List UsageRow) (resp : _)
      → null ctx.tenant.id ≡ false
      → IsRecorded {F = F} works ctx method path elapsed usage
          (pass_back p (some works) ctx method path req elapsed usage resp)
  unfolding pass_back log_usage
  pass_back-IsRecorded ctx method path req elapsed usage err known = refl
  pass_back-IsRecorded ctx method path req elapsed usage (ok resp) known =
      (resp.status, rw known refl)

  pass_through-IsRecorded :
      (ctx : Context) (method path base : Text) (ref : Option Text) (r : Incoming) (elapsed : ℤ)
      (usage : List UsageRow)
      → null ctx.tenant.id ≡ false
      → IsRecorded {F = F} works ctx method path elapsed usage
          (pass_through p configs (some works) ctx method path base ref r elapsed usage)
  unfolding pass_through
  pass_through-IsRecorded ctx method path base ref r elapsed usage known =
      let full = trim_right_char b'/' base ++ path in
      elim (Bool-cases (p.url_parses full)) [
        | inr e ↦ rw e refl
        | inl e ↦ elim (Bool-cases (p.builds method full)) [
          | inr f ↦ rw (e, f) refl
          | inl f ↦
              rw (e, f)
                (pass_back-IsRecorded ctx method path (upstream_request p configs ref method full r)
                  elapsed usage _ known)
        ]
      ]

  -- With a pool and a tenant, an operation of a connector whose answer is no error is recorded
  -- once, for that tenant and caller, where the INSERT works, and not at all where it fails. An
  -- answer that is an error, as of a connector that cannot be reached, leaves the usage as it is.
  pub dynamic_handler-IsRecorded :
      (method path : Text) (base ref : Option Text) (ctx : Context) (r : Incoming) (elapsed : ℤ)
      (usage : List UsageRow)
      → null ctx.tenant.id ≡ false
      → IsRecorded {F = F} works ctx method path elapsed usage
          (dynamic_handler p configs (some works) method path base ref ctx r elapsed usage)
  unfolding dynamic_handler echo log_usage
  dynamic_handler-IsRecorded method path base ref ctx r elapsed usage known =
      elim (Bool-cases (null (or_empty [] base))) [
        | inl e ↦ rw e (pos 200, rw known refl)
        | inr e ↦
            rw e
              (pass_through-IsRecorded ctx method path (or_empty [] base) ref r elapsed usage known)
      ]
