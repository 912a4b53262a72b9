-- ===== src/Middleware/Tenant/DevHosts.antt =====
-- The hosts of the in-memory provider without a seed.
use lamdis_core.Prelude.{
  ◌≡◌, ◌≢◌, inl, inr, refl, Bool, true, false, not, ◌&&◌, Option, none, some, List, [], ◌∷◌, arith,
  null, All, ◌==◌, Bool-cases,
}
use lamdis_core.Text.{Text, codes, text_eq, cut}
use lamdis_core.Text.Laws.{text_eq_iff}
use lamdis_core.Text.Maps.{Assoc, lookup, insert, lookup-insert}
use lamdis_core.Tenants.{Tenant}
use lamdis_core.Tenants.Memory.{
  SeedEntry, resolve_tenant_by_host, new_memory_provider, add_dev_hosts, dev_tenant, dev_hosts,
}
use lamdis_core.Middleware.Scope.{deny}
use lamdis_core.Middleware.Tenant.{
  strip_port, is_local, try_hosts, is_probe, first_known, reply_of, with_tenant,
}

-- Whether a ':' stands behind the first character.
has_port : Text → Bool
unfolding cut
has_port host =
    let parts = cut b':' host in not (null parts.0) && elim parts.1 [ none ↦ false | some p ↦ true ]

cut_first : (s : Text) → (cut b':' (cut b':' s).0).1 ≡ none
unfolding cut
cut_first [] = refl
cut_first (c ∷ s) = elim (Bool-cases (c == b':')) [
  | inl e ↦ rw e refl
  | inr e ↦ ground (arith, cut_first s)
]

strip_port-no_port : (host : Text) → has_port (strip_port host) ≡ false
unfolding has_port strip_port
strip_port-no_port host = elim (Bool-cases (null (cut b':' host).0)) [
  | inl e ↦ rw (e, e) refl
  | inr e ↦ rw (e, cut_first host) (ground arith)
]

lookup-dev :
    (env : Text → Text) (host : Text) (hs : List Text) (m : Assoc Tenant)
    → All (λ h. text_eq h host ≡ false) hs
    → lookup host m ≡ none
    → lookup host (add_dev_hosts env hs m) ≡ none
unfolding add_dev_hosts
lookup-dev env host [] m a n = n
lookup-dev env host (h ∷ hs) m (e, a) n =
    lookup-dev env host hs (insert h (dev_tenant env h) m) a (unknown m h (dev_tenant env h) e n)
  where
    unknown :
        (m : Assoc Tenant) (h : Text) (t : Tenant)
        → text_eq h host ≡ false
        → lookup host m ≡ none
        → lookup host (insert h t m) ≡ none
    unknown m h t e n = rw (lookup-insert h host t m, e) n

portless : (k host : Text) → has_port k ≡ true → has_port host ≡ false → text_eq k host ≡ false
portless k host a b = elim (Bool-cases (text_eq k host)) [
  | inr e ↦ e
  | inl e ↦ absurd (clash ((text_eq_iff k host).0 e))
]
  where
    clash : k ≢ host
    clash e = cc

dev_none :
    (unmarshal : Text → List SeedEntry) (env : Text → Text) (host : Text)
    → env (codes "TENANT_SEED_JSON") ≡ []
    → has_port host ≡ false
    → resolve_tenant_by_host (new_memory_provider unmarshal env) host ≡ none
unfolding new_memory_provider resolve_tenant_by_host
dev_none unmarshal env host e n =
    let other : (k : Text) → has_port k ≡ true → text_eq k host ≡ false =
      λ k p. portless k host p n in
    rw e (
      lookup-dev env host dev_hosts []
        (unfold has_port cut in
          (
            other _ refl,
            (
              other _ refl,
              (
                other _ refl,
                (other _ refl, (other _ refl, (other _ refl, (other _ refl, (other _ refl, tt))))),
              ),
            ),
          ))
        (unfold lookup in refl))

first_known-none :
    (resolve : Text → Option Tenant) (host : Text)
    → resolve host ≡ none
    → resolve (codes "localhost") ≡ none
    → first_known resolve (try_hosts host) ≡ none
unfolding first_known try_hosts
first_known-none resolve host e l = elim (Bool-cases (is_local host)) [
  | inl f ↦ rw (f, e, l) refl
  | inr f ↦ rw (f, e) refl
]

-- Without a seed the provider knows only hosts that have a port, and the middleware asks for none of
-- them: every request that is no probe is answered with 404, whatever its host.
pub dev_hosts_unknown :
    (unmarshal : Text → List SeedEntry) (env : Text → Text) (path host : Text)
    → env (codes "TENANT_SEED_JSON") ≡ []
    → is_probe path ≡ false
    → with_tenant (resolve_tenant_by_host (new_memory_provider unmarshal env)) path host
      ≡ deny 404 (codes "unknown tenant")
unfolding with_tenant new_memory_provider resolve_tenant_by_host
dev_hosts_unknown unmarshal env path host e p =
    rw
      (
        p,
        first_known-none (resolve_tenant_by_host (new_memory_provider unmarshal env))
            (strip_port host) (dev_none unmarshal env (strip_port host) e (strip_port-no_port host))
            (dev_none unmarshal env (codes "localhost") e (unfold has_port cut in refl)),
      )
      (unfold reply_of in refl)
