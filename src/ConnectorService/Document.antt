-- ===== src/ConnectorService/Document.antt =====
-- `serveOpenAPI` of internal/connector/handler.go: the document of the platform's own operations and of
-- those that the registry has for the tenant.
use lamdis_core.Prelude.{
  ℕ, ◌≡◌, refl, ◌∙◌, ◌⊎◌, inl, inr, Bool, true, ◌&&◌, Option, none, some, List, [], ◌∷◌, ◌++◌,
  Result, ok, err, if◌then◌else◌, map, Memᴰ, Bool-cases, arith,
}
use lamdis_core.Text.{Text, codes, text_eq, to_lower}
use lamdis_core.Text.Laws.{text_eq_refl}
use lamdis_core.Json.{Fields, nil, str, obj, field, no_fields}
use lamdis_core.OpenApi
use lamdis_core.OpenApi.{Document, register, build}
use lamdis_core.OpenApi.Paths.{entry_at, last_entry, build-entry_at}
use lamdis_core.Connectors.Registry.{Operation, Tables, Cache, load_operations}
use lamdis_core.ConnectorService.{CanonicalOperation, canonical_ops}

module _ {F : Type 0} where
  -- What is registered for an operation: its method, path, summary and scopes.
  abbrev documented : Text → Text → Text → List Text → OpenApi.Operation F
  documented method path summary scopes = record {
    method = method;
    path = path;
    summary = summary;
    description = [];
    tags = [];
    scopes = scopes;
    request_body = nil;
    responses = some (
        field (codes "200") (obj (field (codes "description") (str (codes "OK")) no_fields))
          no_fields);
  }

  abbrev pub documented_canonical : CanonicalOperation → OpenApi.Operation F
  documented_canonical c = documented c.method c.path c.summary c.scopes

  abbrev pub documented_dynamic : Operation F → OpenApi.Operation F
  documented_dynamic o = documented o.method o.path o.summary o.scopes

  unfoldable pub register_all :
      List (OpenApi.Operation F) → List (OpenApi.Operation F) → List (OpenApi.Operation F)
  unfolding register to_lower
  register_all [] registered = registered
  register_all (o ∷ os) registered = register_all os (register o registered)

  -- An error of the registry leaves no operations.
  abbrev pub known_operations : Result (List (Operation F)) → List (Operation F)
  known_operations err = []
  known_operations (ok ops) = ops

  unfoldable pub serve_open_api :
      Option (Result (Tables F)) → Text → ℕ → Cache F → Document F × Cache F
  unfolding register_all build load_operations
  serve_open_api db tenant now cache =
      let (ops, cache') = load_operations db tenant now cache in
      (
        build (codes "connector-service") (codes "v1") (
            register_all (map documented_dynamic (known_operations ops))
              (register_all (map documented_canonical canonical_ops) [])),
        cache',
      )

module _ {F : Type 0} where
  -- As it is registered, with its method in small letters.
  abbrev pub lowered : OpenApi.Operation F → OpenApi.Operation F
  lowered o = record o { method = to_lower o.method }

  -- What the document shows for an operation of a connector.
  abbrev pub shown_entry : Operation F → Fields F
  shown_entry o = OpenApi.entry (lowered (documented_dynamic o))

module _ {F : Type 0} (path method : Text) where
  last_entry-snoc :
      (os : List (OpenApi.Operation F)) (o : OpenApi.Operation F) (before : Option (Fields F))
      → last_entry path method before (os ++ o ∷ [])
        ≡ last_entry path method (last_entry path method before os) (o ∷ [])
  last_entry-snoc [] o before = refl
  last_entry-snoc (x ∷ os) o before = last_entry-snoc os o _

  last_entry-register_all :
      (os registered : List (OpenApi.Operation F))
      → last_entry path method none (register_all os registered)
        ≡ last_entry path method (last_entry path method none registered) (map lowered os)
  unfolding register_all register
  last_entry-register_all [] registered = refl
  last_entry-register_all (o ∷ os) registered =
      last_entry-register_all os (register o registered)
      ∙ rw (last_entry-snoc registered (lowered o) none) refl

  abbrev dynamic_entry : Option (Fields F) → List (Operation F) → Option (Fields F)
  dynamic_entry before ops =
      last_entry path method before (map lowered (map documented_dynamic ops))

  -- One of the operations is shown, under the path and the method.
  abbrev Shows : List (Operation F) → Option (Fields F) → Type 0
  Shows ops entry =
      (x : Operation F) × Memᴰ x ops
      × (text_eq x.path path ≡ true)
      × (text_eq (to_lower x.method) method ≡ true)
      × (entry ≡ some (shown_entry x))

  shown_later :
      (o : Operation F) (ops : List (Operation F)) (entry : Option (Fields F))
      → Shows ops entry
      → Shows (o ∷ ops) entry
  shown_later o ops entry (x, m, p, q, e) = (x, Memᴰ.tail m, p, q, e)

  shown_first :
      (o : Operation F) (ops : List (Operation F)) (entry : Option (Fields F))
      → (text_eq o.path path && text_eq (to_lower o.method) method) ≡ true
      → (entry ≡ some (shown_entry o)) ⊎ Shows ops entry
      → Shows (o ∷ ops) entry
  shown_first o ops entry e (inl q) = (o, Memᴰ.head refl, ground arith, ground arith, q)
  shown_first o ops entry e (inr h) = shown_later o ops entry h

  -- One operation more
  entry_from : Operation F → List (Operation F) → Option (Fields F) → Bool → Option (Fields F)
  entry_from o ops before here = dynamic_entry (if here then some (shown_entry o) else before) ops

  dynamic_entry-step :
      (o : Operation F) (ops : List (Operation F)) (before : Option (Fields F))
      → dynamic_entry before (o ∷ ops)
        ≡ entry_from o ops before (text_eq o.path path && text_eq (to_lower o.method) method)
  unfolding entry_from
  dynamic_entry-step o ops before = refl

  dynamic_entry-cases :
      (ops : List (Operation F)) (before : Option (Fields F))
      → (dynamic_entry before ops ≡ before) ⊎ Shows ops (dynamic_entry before ops)
  unfolding entry_from
  dynamic_entry-cases [] before = inl refl
  dynamic_entry-cases (o ∷ ops) before =
      elim (Bool-cases (text_eq o.path path && text_eq (to_lower o.method) method)) [
        | inl e ↦
            rw (dynamic_entry-step o ops before, e)
              (inr (shown_first o ops _ e (dynamic_entry-cases ops (some (shown_entry o)))))
        | inr e ↦
            rw (dynamic_entry-step o ops before, e)
              (elim (dynamic_entry-cases ops before) [
                | inl q ↦ inl q
                | inr h ↦ inr (shown_later o ops _ h)
              ])
      ]

  dynamic_entry-mem :
      (ops : List (Operation F)) (o : Operation F) (before : Option (Fields F))
      → Memᴰ o ops
      → (text_eq o.path path && text_eq (to_lower o.method) method) ≡ true
      → Shows ops (dynamic_entry before ops)
  unfolding entry_from
  dynamic_entry-mem [] o before m h = elim m [ ]
  dynamic_entry-mem (x ∷ ops) o before (Memᴰ.head q) h =
      let e : (text_eq x.path path && text_eq (to_lower x.method) method) ≡ true = rw (← q) h in
      rw (dynamic_entry-step x ops before, e)
        (shown_first x ops _ e (dynamic_entry-cases ops (some (shown_entry x))))
  dynamic_entry-mem (x ∷ ops) o before (Memᴰ.tail m) h = shown_later x ops _ (
      dynamic_entry-mem ops o
        (if text_eq x.path path && text_eq (to_lower x.method) method
          then some (shown_entry x)
          else before)
        m h)

module _ {F : Type 0} where
  -- Every operation that the registry gives for the tenant is in the document: under its path and its
  -- method, in small letters, stands the entry of an operation of the tenant with the same path and method,
  -- not of one of the platform.
  pub serve_open_api_complete :
      (db : Option (Result (Tables F))) (tenant : Text) (now : ℕ) (cache : Cache F)
      (ops : List (Operation F)) (o : Operation F)
      → (load_operations db tenant now cache).0 ≡ ok ops
      → Memᴰ o ops
      → (x : Operation F) × Memᴰ x ops
        × (text_eq x.path o.path ≡ true)
        × (text_eq (to_lower x.method) (to_lower o.method) ≡ true)
        × (entry_at o.path (to_lower o.method) (serve_open_api db tenant now cache).0.paths
            ≡ some (shown_entry x))
  unfolding serve_open_api
  serve_open_api_complete db tenant now cache ops o e m =
      let (x, n, p, q, s) =
        dynamic_entry-mem o.path (to_lower o.method) ops o
          (last_entry o.path (to_lower o.method) none
            (register_all (map documented_canonical canonical_ops) []))
          m (rw (text_eq_refl o.path, text_eq_refl (to_lower o.method)) refl) in
      (
        x,
        n,
        p,
        q,
        rw e (
            build-entry_at (codes "connector-service") (codes "v1") o.path (to_lower o.method) (
              register_all (map documented_dynamic ops)
                (register_all (map documented_canonical canonical_ops) []))
            ∙ last_entry-register_all o.path (to_lower o.method) (map documented_dynamic ops)
                (register_all (map documented_canonical canonical_ops) [])
            ∙ s),
      )
