-- ===== src/Connectors/Registry/Settling.antt =====
-- How long the cache of `LoadOperations` may hide a change of the database.
use lamdis_core.Prelude.{
  ℕ, ◌+◌, ◌≤◌, ◌≡◌, refl, sym, ◌∙◌, ap, Bool, true, false, Option, none, some, List, [], ◌∷◌,
  Result, ok, err, arith, if◌then◌else◌, ◌⊎◌, inl, inr, Bool-cases, Option-cases,
}
use lamdis_core.Text.{Text, text_eq}
use lamdis_core.Text.Laws.{text_eq_iff}
use lamdis_core.Text.Maps.{lookup, insert, lookup-insert}
use lamdis_core.Facts.Resolve.{or_empty}
use lamdis_core.Connectors.Registry.{
  Operation, Tables, Cache, cache_ttl, query_operations, fresh_entry, read_cached, fetch_operations,
  store_fetched, load_operations,
}
use lamdis_core.Connectors.Registry.Loading.{load_operations-hit, load_operations-miss}

module _ {F : Type 0} (db : Tables F) where
  -- A request for a tenant's operations at a time, and whether its query works.
  abbrev pub answer_of : Bool → Result (Tables F)
  answer_of works = if works then ok db else err

  abbrev pub run_calls : List (Bool × Text × ℕ) → Cache F → Cache F
  run_calls [] cache = cache
  run_calls ((works, tenant, now) ∷ calls) cache =
      run_calls calls (load_operations (some (answer_of works)) tenant now cache).1

  -- Every entry was stored up to the time, or is what the database now has.
  abbrev pub IsSettling : ℕ → Cache F → Type 0
  IsSettling changed cache =
      (tenant : Text) (entry : ℕ × List (Operation F))
      → lookup tenant cache ≡ some entry
      → (entry.0 ≤ changed) ⊎ (entry.1 ≡ query_operations tenant db)

  insert-IsSettling :
      (changed now : ℕ) (tenant : Text) (cache : Cache F)
      → IsSettling changed cache
      → IsSettling changed (insert tenant (now, query_operations tenant db) cache)
  insert-IsSettling changed now tenant cache h t entry m =
      let m' = lookup-insert tenant t (now, query_operations tenant db) cache in
      elim (Bool-cases (text_eq tenant t)) [
        | inl e ↦
            let q : some (now, query_operations tenant db) ≡ some entry = rw (m', e) at m in
            let s : tenant ≡ t = (text_eq_iff tenant t).0 e in
            inr (
              sym (
                ap
                  (λ (o : Option (ℕ × List (Operation F))).
                    (or_empty {A = ℕ × List (Operation F)} (now, []) o).1)
                  q)
              ∙ ap (λ x. query_operations x db) s)
        | inr e ↦ h t entry (rw (m', e) at m)
      ]

  call-IsSettling :
      (changed : ℕ) (works : Bool) (tenant : Text) (now : ℕ) (cache : Cache F)
      → IsSettling changed cache
      → IsSettling changed (load_operations (some (answer_of works)) tenant now cache).1
  unfolding store_fetched fetch_operations
  call-IsSettling changed works tenant now cache h =
      elim (Option-cases (read_cached tenant now cache)) [
        | inr (ops, e) ↦ rw (load_operations-hit (some (answer_of works)) tenant now cache ops e) h
        | inl e ↦
            rw (load_operations-miss (some (answer_of works)) tenant now cache e) (stored works)
      ]
    where
      stored :
          (works : Bool)
          → IsSettling changed
              (store_fetched tenant now cache (fetch_operations (some (answer_of works)) tenant)).1
      stored true = insert-IsSettling changed now tenant cache h
      stored false = h

  run_calls-IsSettling :
      (changed : ℕ) (calls : List (Bool × Text × ℕ)) (cache : Cache F)
      → IsSettling changed cache
      → IsSettling changed (run_calls calls cache)
  run_calls-IsSettling changed [] cache h = h
  run_calls-IsSettling changed ((works, tenant, now) ∷ calls) cache h =
      run_calls-IsSettling changed calls _ (call-IsSettling changed works tenant now cache h)

  -- A fresh entry was stored after the change.
  fresh_settled :
      (changed now : ℕ) (tenant : Text) (o : Option (ℕ × List (Operation F)))
      (ops : List (Operation F))
      → changed + cache_ttl ≤ now
      → ((entry : ℕ × List (Operation F))
          → o ≡ some entry
          → (entry.0 ≤ changed) ⊎ (entry.1 ≡ query_operations tenant db))
      → fresh_entry now o ≡ some ops
      → ops ≡ query_operations tenant db
  unfolding fresh_entry
  fresh_settled changed now tenant none ops late h e = cc
  fresh_settled changed now tenant (some (loaded, stored)) ops late h e =
      elim (h (loaded, stored) refl) [ inl old ↦ absurd (ground arith) | inr q ↦ ground (arith, q) ]

  -- The database changes, to these tables, and the entries of the cache were stored up to then. Whatever calls
  -- follow, for whatever tenants, their queries failing or not: from 30 seconds after the change on, a call
  -- whose query works gives what the database has for its tenant.
  pub load_operations_settles :
      (changed now : ℕ) (tenant : Text) (calls : List (Bool × Text × ℕ)) (cache : Cache F)
      → IsSettling changed cache
      → changed + cache_ttl ≤ now
      → (load_operations (some (ok db)) tenant now (run_calls calls cache)).0
        ≡ ok (query_operations tenant db)
  unfolding read_cached store_fetched fetch_operations
  load_operations_settles changed now tenant calls cache h late =
      let c = run_calls calls cache in
      elim (Option-cases (read_cached tenant now c)) [
        | inl e ↦ rw (load_operations-miss (some (ok db)) tenant now c e) (refl)
        | inr (ops, e) ↦ rw (load_operations-hit (some (ok db)) tenant now c ops e) (
            ap ok (
              fresh_settled changed now tenant (lookup tenant c) ops late
                (run_calls-IsSettling changed calls cache h tenant) e))
      ]
