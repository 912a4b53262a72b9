-- ===== src/Middleware/Tenant.antt =====
-- `WithTenant` of pkg/middleware/tenant.go over any provider.
pub mod DevHosts
use lamdis_core.Prelude.{
  ◌≡◌, ◌≢◌, ◌↔◌, ◌⊎◌, inl, inr, refl, Bool, true, false, not, ◌&&◌, ◌||◌, Option, none, some, List,
  [], ◌∷◌, arith, if◌then◌else◌, null, All, ◌==◌, Bool-cases, Option-cases,
}
use lamdis_core.Text.{Text, codes, text_eq, cut}
use lamdis_core.Text.Laws.{text_eq_iff}
use lamdis_core.Text.Maps.{Assoc, mem_text, lookup, insert, lookup-insert}
use lamdis_core.Tenants.{Tenant}
use lamdis_core.Tenants.Memory.{
  SeedEntry, resolve_tenant_by_host, new_memory_provider, add_dev_hosts, dev_tenant, dev_hosts,
}
use lamdis_core.Middleware.Scope.{Reply, next, deny}

-- The host without its port, where a ':' stands behind the first character.
unfoldable pub strip_port : Text → Text
unfolding cut
strip_port host = let parts = cut b':' host in if null parts.0 then host else parts.0

abbrev pub local_hosts : List Text
local_hosts =
    codes "127.0.0.1"
    ∷ codes "host.docker.internal"
    ∷ codes "manifest"
    ∷ codes "connector"
    ∷ codes "policy"
    ∷ codes "admin-api"
    ∷ []

unfoldable pub is_local : Text → Bool
is_local host = mem_text host local_hosts

unfoldable pub try_hosts : Text → List Text
unfolding is_local
try_hosts host = if is_local host then host ∷ codes "localhost" ∷ [] else host ∷ []

unfoldable pub is_probe : Text → Bool
unfolding text_eq
is_probe path = text_eq path (codes "/healthz") || text_eq path (codes "/metrics")

module _ (resolve : Text → Option Tenant) where
  -- The loop over the hosts, with its break at the first one that is known.
  unfoldable pub first_known : List Text → Option Tenant
  first_known [] = none
  first_known (h ∷ hs) =
      let rest = first_known hs in elim (resolve h) [ none ↦ rest | some t ↦ some t ]

  unfoldable pub reply_of : Option Tenant → Reply (Option Tenant)
  reply_of none = deny 404 (codes "unknown tenant")
  reply_of (some t) = next (some t)

  -- How the request goes on, with the tenant that is put into the context.
  unfoldable pub with_tenant : Text → Text → Reply (Option Tenant)
  unfolding is_probe strip_port try_hosts first_known reply_of
  with_tenant path host =
      if is_probe path then next none else reply_of (first_known (try_hosts (strip_port host)))

  -- The two ways in which a host is known.
  abbrev pub Knows : Text → Tenant → Type 0
  Knows host t =
      (resolve host ≡ some t)
      ⊎ ((resolve host ≡ none) × (is_local host ≡ true) × (resolve (codes "localhost") ≡ some t))

  first_known_iff :
      (host : Text) (t : Tenant) → (first_known (try_hosts host) ≡ some t) ↔ Knows host t
  unfolding first_known try_hosts
  first_known_iff host t = elim (Option-cases (resolve host)) [
    | inr (u, e) ↦ elim (Bool-cases (is_local host)) [
      | inl f ↦ (
        λ h. inl (ground arith),
        λ k. elim k [ inl g ↦ ground arith | inr (g, _, _) ↦ absurd (ground arith) ],
      )
      | inr f ↦ (
        λ h. inl (ground arith),
        λ k. elim k [ inl g ↦ ground arith | inr (g, _, _) ↦ absurd (ground arith) ],
      )
    ]
    | inl e ↦ elim (Bool-cases (is_local host)) [
      | inl f ↦ (
        λ h. inr (e, f, loc h f e),
        λ k. elim k [ inl g ↦ absurd (ground arith) | inr (g, _, l) ↦ rw (f, e, l) refl ],
      )
      | inr f ↦ (
        λ h. absurd (ground arith),
        λ k. elim k [ inl g ↦ absurd (ground arith) | inr (_, g, l) ↦ absurd (ground arith) ],
      )
    ]
  ]
    where
      loc :
          first_known (try_hosts host) ≡ some t
          → is_local host ≡ true
          → resolve host ≡ none
          → resolve (codes "localhost") ≡ some t
      loc h f e = elim (Option-cases (resolve (codes "localhost"))) [
        | inl n ↦ absurd (ground arith)
        | inr (v, s) ↦ ground arith
      ]

  -- A request that is no probe goes on with a tenant exactly where its host, less the port, is known
  -- as that tenant's, or is unknown and one of the local names while localhost is that tenant's.
  pub with_tenant_iff :
      (path host : Text) (t : Tenant)
      → (with_tenant path host ≡ next (some t))
        ↔ ((is_probe path ≡ false) × Knows (strip_port host) t)
  unfolding with_tenant reply_of
  with_tenant_iff path host t = elim (Bool-cases (is_probe path)) [
    | inl e ↦ (λ h. absurd (ground arith), λ k. absurd (ground arith))
    | inr e ↦ elim (Option-cases (first_known (try_hosts (strip_port host)))) [
      | inl f ↦ (
        λ h. absurd (ground arith),
        λ (_, k). absurd (clash f ((first_known_iff (strip_port host) t).1 k)),
      )
      | inr (u, f) ↦ (
        λ h. (e, (first_known_iff (strip_port host) t).0 (ground arith)),
        λ (_, k). same u f ((first_known_iff (strip_port host) t).1 k) e,
      )
    ]
  ]
    where
      clash : {o : Option Tenant} → o ≡ none → o ≢ some t
      clash f g = cc

      same :
          (u : Tenant)
          → first_known (try_hosts (strip_port host)) ≡ some u
          → first_known (try_hosts (strip_port host)) ≡ some t
          → is_probe path ≡ false
          → with_tenant path host ≡ next (some t)
      same u f g e = rw (e, g) refl
