-- ===== src/Middleware/Auth/Conditions.antt =====
-- What a token must meet, and that `check_token` asks for it.
use lamdis_core.Prelude.{
  ◌≤◌, ◌≡◌, ◌≢◌, refl, ◌⊎◌, inl, inr, Bool, true, false, not, ◌||◌, Option, none, some, List, [],
  ◌∷◌, arith, null, length, all, any_sound, any_complete, all_sound, Memᴰ, Bool-cases,
}
use lamdis_core.Text.{Text, codes, text_eq}
use lamdis_core.Text.Laws.{text_eq_iff, text_eq_refl}
use lamdis_core.Text.Maps.{mem_text}
use lamdis_core.Tenants.{Tenant}
use lamdis_core.Middleware.Scope.{Reply, next, deny, panics, Claim, scopes_of, mem_text-mem}
use lamdis_core.Middleware.Auth.{
  Token, claim_text, audience_ok, tenant_ok, machine_ok, acr_entry_ok, acr_ok, check_scopes,
  check_token,
}

-- What a token must meet for a tenant, stated without the code's tests.
pub record Meets (t : Tenant) (accepted : List Text) (jt : Token) (scopes : List Text)
    : Type 0 where
  pub scoped : scopes_of jt.scope ≡ next scopes
  pub audience : (length accepted ≤ 1) ⊎ ((a : Text) × Memᴰ a jt.audience × Memᴰ a accepted)
  pub tenant : (claim_text jt.tid ≡ []) ⊎ ((t.id ≡ []) ⊎ (claim_text jt.tid ≡ t.id))
  pub machine :
      claim_text jt.gty ≡ codes "client_credentials"
      → t.machine_allowed_scopes ≢ []
      → (s : Text) → Memᴰ s scopes
      → Memᴰ s t.machine_allowed_scopes
  pub acr :
      (s req : Text)
      → Memᴰ (s, req) t.required_acr_by_action
      → req ≢ []
      → Memᴰ s scopes
      → (jt.acr ≡ none) ⊎ (claim_text jt.acr ≡ req)

null_eq_list : (l : List Text) → null l ≡ true → l ≡ []
null_eq_list [] h = refl
null_eq_list (c ∷ s) h = cc

entry_eq : (a b c : Bool) → (a || not b || c) ≡ true → a ≡ false → b ≡ true → c ≡ true
entry_eq a b c h k l = ground arith

null_eq : (s : Text) → null s ≡ true → s ≡ []
null_eq [] h = refl
null_eq (c ∷ s) h = cc

audience_sound :
    (accepted audience : List Text)
    → audience_ok accepted audience ≡ true
    → (length accepted ≤ 1) ⊎ ((a : Text) × Memᴰ a audience × Memᴰ a accepted)
audience_sound [] audience h = inl (omega arith)
audience_sound (a ∷ []) audience h = inl (omega arith)
audience_sound (a ∷ b ∷ accepted) audience h =
    let (x, m, e) = any_sound (λ x. mem_text x (a ∷ b ∷ accepted)) audience h in
    inr (x, m, mem_text-mem x (a ∷ b ∷ accepted) e)

tenant_sound :
    (t : Tenant) (tid : Option Claim)
    → tenant_ok t tid ≡ true
    → (claim_text tid ≡ []) ⊎ ((t.id ≡ []) ⊎ (claim_text tid ≡ t.id))
unfolding tenant_ok
tenant_sound t tid h =
    ground (arith, null_eq (claim_text tid), null_eq t.id, text_eq_iff (claim_text tid) t.id)

machine_all :
    (t : Tenant) (gty : Option Claim) (scopes : List Text)
    → machine_ok t gty scopes ≡ true
    → claim_text gty ≡ codes "client_credentials"
    → t.machine_allowed_scopes ≢ []
    → all (λ x. mem_text x t.machine_allowed_scopes) scopes ≡ true
unfolding machine_ok
machine_all t gty scopes h e ne = ground (
  arith,
  null_eq_list t.machine_allowed_scopes,
  text_eq_iff (claim_text gty) (codes "client_credentials"),
)

machine_sound :
    (t : Tenant) (gty : Option Claim) (scopes : List Text)
    → machine_ok t gty scopes ≡ true
    → claim_text gty ≡ codes "client_credentials"
    → t.machine_allowed_scopes ≢ []
    → (s : Text) → Memᴰ s scopes
    → Memᴰ s t.machine_allowed_scopes
unfolding machine_ok
machine_sound t gty scopes h e ne s m = mem_text-mem s t.machine_allowed_scopes (
    all_sound (λ x. mem_text x t.machine_allowed_scopes) scopes s (machine_all t gty scopes h e ne)
      m)

null_ne : {A : Type 0} (l : List A) → l ≢ [] → null l ≡ false
null_ne [] ne = absurd (ne refl)
null_ne (x ∷ l) ne = refl

acr_sound :
    (t : Tenant) (acr : Option Claim) (scopes : List Text)
    → acr_ok t acr scopes ≡ true
    → (s req : Text) → Memᴰ (s, req) t.required_acr_by_action
    → req ≢ []
    → Memᴰ s scopes
    → (acr ≡ none) ⊎ (claim_text acr ≡ req)
unfolding acr_ok
acr_sound t none scopes h s req m ne k = inl refl
acr_sound t (some c) scopes h s req m ne k =
    let entry =
      all_sound (acr_entry_ok (claim_text (some c)) scopes) t.required_acr_by_action (s, req) h m in
    inr (
      (text_eq_iff (claim_text (some c)) req).0 (
        entry_eq (null req) (mem_text s scopes) (text_eq (claim_text (some c)) req) entry
          (null_ne req ne) (any_complete (λ x. text_eq x s) scopes s k (text_eq_refl s))))

check_scopes_sound :
    (t : Tenant) (accepted : List Text) (jt tok : Token) (scopes : List Text)
    (r : Reply (List Text))
    → audience_ok accepted jt.audience ≡ true
    → tenant_ok t jt.tid ≡ true
    → scopes_of jt.scope ≡ r
    → check_scopes t jt r ≡ next (some (scopes, tok))
    → (jt ≡ tok) × Meets t accepted jt scopes
unfolding check_scopes
check_scopes_sound t accepted jt tok scopes (deny n m) a b e h = cc
check_scopes_sound t accepted jt tok scopes panics a b e h = cc
check_scopes_sound t accepted jt tok scopes (next found) a b e h =
    let same : found ≡ scopes = ground arith in
    let machine : machine_ok t jt.gty scopes ≡ true = ground arith in
    let acr : acr_ok t jt.acr scopes ≡ true = ground arith in
    (
      ground arith,
      record {
        scoped = rw (← same) e;
        audience = audience_sound accepted jt.audience a;
        tenant = tenant_sound t jt.tid b;
        machine = machine_sound t jt.gty scopes machine;
        acr = acr_sound t jt.acr scopes acr;
      },
    )

pub check_token_sound :
    (t : Tenant) (accepted : List Text) (jt tok : Token) (scopes : List Text)
    → check_token t accepted jt ≡ next (some (scopes, tok))
    → (jt ≡ tok) × Meets t accepted jt scopes
unfolding check_token
check_token_sound t accepted jt tok scopes h =
    elim (Bool-cases (audience_ok accepted jt.audience)) [
      | inr e ↦ absurd (ground arith)
      | inl e ↦ elim (Bool-cases (tenant_ok t jt.tid)) [
        | inr f ↦ absurd (ground arith)
        | inl f ↦
            check_scopes_sound t accepted jt tok scopes (scopes_of jt.scope) e f refl (ground arith)
      ]
    ]

check_scopes_some :
    (t : Tenant) (jt : Token) (r : Reply (List Text)) → check_scopes t jt r ≢ next none
unfolding check_scopes
check_scopes_some t jt (next scopes) h = ground arith
check_scopes_some t jt (deny n m) h = cc
check_scopes_some t jt panics h = cc

pub check_token_some :
    (t : Tenant) (accepted : List Text) (jt : Token) → check_token t accepted jt ≢ next none
unfolding check_token
check_token_some t accepted jt h = elim (Bool-cases (audience_ok accepted jt.audience)) [
  | inr e ↦ absurd (ground arith)
  | inl e ↦ elim (Bool-cases (tenant_ok t jt.tid)) [
    | inr f ↦ absurd (ground arith)
    | inl f ↦ check_scopes_some t jt (scopes_of jt.scope) (ground arith)
  ]
]
