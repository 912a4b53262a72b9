-- ===== src/Tenants/Memory/Lookup.antt =====
-- What the in-memory provider finds.
use lamdis_core.Prelude.{
  ℕ, suc, ◌+◌, ◌≡◌, ◌≢◌, refl, sym, Bool, true, false, some, List, [], ◌∷◌, ◌++◌, Memᴰ, arith,
  if◌then◌else◌, null, length, Bool-cases, inl, inr,
}
use lamdis_core.Text.{Text, codes, text_eq, has_prefix, drop}
use lamdis_core.Text.Laws.{text_eq_iff}
use lamdis_core.Text.Maps.{Assoc, lookup, lookup-insert_self}
use lamdis_core.Tenants.{ConnectorCreds}
use lamdis_core.Tenants.Memory.{
  SeedEntry, Provider, empty_provider, creds_key, tenant_of, creds_of, add_entry, add_entries,
  new_memory_provider, resolve_tenant_by_host, get_connector_creds, is_kind_key, kinds_of,
  list_tenant_connector_kinds,
}

add_entries-append :
    (es : List SeedEntry) (e : SeedEntry) (p : Provider)
    → add_entries (es ++ e ∷ []) p ≡ add_entry e (add_entries es p)
unfolding add_entries
add_entries-append [] e p = refl
add_entries-append (x ∷ es) e p = add_entries-append es e (add_entry x p)

-- Where a seed is set: whatever entries stand before it, the last entry of the seed is the one that its host resolves to,
-- and its credentials are found under its tenant and the kind shopify.
pub seed_last :
    (unmarshal : Text → List SeedEntry) (env : Text → Text) (es : List SeedEntry) (e : SeedEntry)
    → env (codes "TENANT_SEED_JSON") ≢ []
    → unmarshal (env (codes "TENANT_SEED_JSON")) ≡ es ++ e ∷ []
    → (resolve_tenant_by_host (new_memory_provider unmarshal env) e.host ≡ some (tenant_of e))
      × (get_connector_creds (new_memory_provider unmarshal env) e.id (codes "shopify")
          ≡ some (creds_of e))
unfolding new_memory_provider resolve_tenant_by_host get_connector_creds
seed_last unmarshal env es e ne h =
    let made : new_memory_provider unmarshal env ≡ add_entry e (add_entries es empty_provider) =
      rw (seeded (env (codes "TENANT_SEED_JSON")) ne, h) (add_entries-append es e empty_provider) in
    rw made (
      unfold add_entry in
      (
        lookup-insert_self e.host (tenant_of e) _,
        lookup-insert_self (creds_key e.id (codes "shopify")) (creds_of e) _,
      ))
  where
    seeded : (s : Text) → s ≢ [] → null s ≡ false
    seeded [] n = absurd (n refl)
    seeded (c ∷ s) n = refl

has_prefix-append : (s t : Text) → has_prefix s (s ++ t) ≡ true
unfolding has_prefix
has_prefix-append [] t = refl
has_prefix-append (c ∷ s) t = ground (arith, has_prefix-append s t)

length-append_kind : (s t : Text) (c : ℕ) → length (s ++ c ∷ t) ≡ length s + 1 + length t
length-append_kind [] t c = omega arith
length-append_kind (d ∷ s) t c = ground (arith, length-append_kind s t c)

drop-append : (s t : Text) (c : ℕ) → drop (length s + 1) (s ++ c ∷ t) ≡ t
unfolding drop
drop-append s t c = rw (plus_one (length s)) (drop_suc s)
  where
    plus_one : (n : ℕ) → n + 1 ≡ suc n
    plus_one n = omega arith

    drop_suc : (s : Text) → drop (suc (length s)) (s ++ c ∷ t) ≡ t
    drop_suc [] = refl
    drop_suc (d ∷ s) = drop_suc s

is_kind_key-creds_key :
    (tenant_id kind : Text) → kind ≢ [] → is_kind_key tenant_id (creds_key tenant_id kind) ≡ true
unfolding is_kind_key creds_key
is_kind_key-creds_key tenant_id [] ne = absurd (ne refl)
is_kind_key-creds_key tenant_id (k ∷ kind) ne = ground (
  arith,
  has_prefix-append tenant_id (b':' ∷ k ∷ kind),
  length-append_kind tenant_id (k ∷ kind) b':',
)

drop-creds_key :
    (tenant_id kind : Text) → drop (length tenant_id + 1) (creds_key tenant_id kind) ≡ kind
unfolding creds_key
drop-creds_key tenant_id kind = drop-append tenant_id kind b':'

kinds_of_complete :
    (tenant_id kind : Text) (m : Assoc ConnectorCreds) (c : ConnectorCreds)
    → kind ≢ []
    → lookup (creds_key tenant_id kind) m ≡ some c
    → Memᴰ kind (kinds_of tenant_id m)
unfolding kinds_of lookup
kinds_of_complete tenant_id kind [] c ne h = cc
kinds_of_complete tenant_id kind ((k, d) ∷ m) c ne h =
    elim (Bool-cases (text_eq k (creds_key tenant_id kind))) [
      | inl e ↦
          rw
            (
              (text_eq_iff k (creds_key tenant_id kind)).0 e,
              is_kind_key-creds_key tenant_id kind ne,
            )
            (Memᴰ.head (sym (drop-creds_key tenant_id kind)))
      | inr e ↦
          keep (is_kind_key tenant_id k) _ _
            (kinds_of_complete tenant_id kind m c ne (ground arith))
    ]
  where
    keep :
        (b : Bool) (x : Text) (rest : List Text)
        → Memᴰ kind rest
        → Memᴰ kind (if b then x ∷ rest else rest)
    keep true x rest n = Memᴰ.tail n
    keep false x rest n = n

-- Every kind whose credentials the provider gives for a tenant is among the kinds it lists for it,
-- where the kind is not empty.
pub list_tenant_connector_kinds_complete :
    (p : Provider) (tenant_id kind : Text) (c : ConnectorCreds)
    → kind ≢ []
    → get_connector_creds p tenant_id kind ≡ some c
    → Memᴰ kind (list_tenant_connector_kinds p tenant_id)
unfolding list_tenant_connector_kinds get_connector_creds
list_tenant_connector_kinds_complete p tenant_id kind c ne h =
    kinds_of_complete tenant_id kind p.creds c ne h
