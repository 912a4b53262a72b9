-- ===== src/Orchestrator/Execute/Laws.antt =====
-- What an execution may send.
use lamdis_core.Prelude.{
  ℕ, ◌≡◌, refl, ◌⊎◌, inl, inr, Bool, false, Option, none, some, List, [], ◌∷◌, ◌++◌, Result, arith,
  if◌then◌else◌, Bool-cases,
}
use lamdis_core.Text.{codes, Text, contains}
use lamdis_core.Orchestrator.Template.Query.{contains-encode_query}
use lamdis_core.Json.{Runtime, Fields}
use lamdis_core.Orchestrator.Execute.{
  attach_query, resolved_section, Request, Response, succeeded, failed, ExecuteResult,
  ExecutionStore, Operation, find_operation, full_url, build_request, run_operation, execute, send,
}

contains-append :
    (d : ℕ) (s t : Text) → contains d s ≡ false → contains d t ≡ false → contains d (s ++ t) ≡ false
unfolding contains
contains-append d [] t h k = k
contains-append d (c ∷ s) t h k = ground (arith, contains-append d s t)

contains-attach_query :
    (url enc : Text)
    → contains b'{' url ≡ false
    → contains b'{' enc ≡ false
    → contains b'{' (attach_query url enc) ≡ false
unfolding attach_query
contains-attach_query url [] h k = h
contains-attach_query url (c ∷ enc) h k = elim (Bool-cases (contains b'?' url)) [
  | inl e ↦ rw e (contains-append b'{' url (b'&' ∷ c ∷ enc) h (unfold contains in ground arith))
  | inr e ↦ rw e (contains-append b'{' url (b'?' ∷ c ∷ enc) h (unfold contains in ground arith))
]

module _ (rt : Runtime) (valid : Request rt.Float → Bool)
    (http : Request rt.Float → Result (Response rt.Float)) where
  -- What a run leaves: it fails with nothing sent, or it succeeds and has sent at most the request
  -- that is built for its operation, in a URL with every path parameter bound.
  abbrev pub Ran :
      Option (Fields rt.Float)
      → Option (Operation rt.Float)
      → ExecuteResult rt.Float
      → List (Request rt.Float)
      → Type 0
  Ran input found r requests =
      ((r.status ≡ failed) × (requests ≡ []))
      ⊎ ((r.status ≡ succeeded)
          × ((op : Operation rt.Float) × (found ≡ some op)
              × (contains b'{' (full_url rt input op) ≡ false)
              × (contains b'{' (build_request rt input op).url ≡ false)
              × (requests ≡ (
                  if valid (build_request rt input op)
                  then build_request rt input op ∷ []
                  else []))))

  send_status : (req : Request rt.Float) → (send rt valid http req).0.status ≡ succeeded
  unfolding send
  send_status req = elim (Bool-cases (valid req)) [ inl e ↦ rw e (ground arith) | inr e ↦ rw e ]

  send_requests :
      (req : Request rt.Float) → (send rt valid http req).1 ≡ (if valid req then req ∷ [] else [])
  unfolding send
  send_requests req = ground arith

  build_request-bound :
      (input : Option (Fields rt.Float)) (op : Operation rt.Float)
      → contains b'{' (full_url rt input op) ≡ false
      → contains b'{' (build_request rt input op).url ≡ false
  unfolding build_request
  build_request-bound input op h =
      contains-attach_query (full_url rt input op) _ h
        (contains-encode_query (resolved_section rt input op (codes "query")))

  run_operation_lem :
      (input : Option (Fields rt.Float)) (found : Option (Operation rt.Float))
      → Ran input found
          (run_operation rt valid http input found).0
          (run_operation rt valid http input found).1
  unfolding run_operation
  run_operation_lem input none = inl (refl, refl)
  run_operation_lem input (some op) = elim (Bool-cases (contains b'{' (full_url rt input op))) [
    | inl e ↦ rw e (inl (refl, refl))
    | inr e ↦ rw e (
        inr (
          send_status (build_request rt input op),
          (op, refl, e, build_request-bound input op e, send_requests _),
        ))
  ]

  -- Whatever the action and the tables, an execution fails with nothing sent, or it succeeds and has
  -- sent at most one request: the one that is built for the operation found, and its whole URL, the
  -- query included, holds no open brace.
  pub execute_sends :
      (store : Option (ExecutionStore rt.Float)) (tenant action decision_id : Text)
      (input : Option (Fields rt.Float))
      → Ran input
          (find_operation store tenant action)
          (execute rt valid http store tenant action decision_id input).outcome
          (execute rt valid http store tenant action decision_id input).requests
  unfolding execute
  execute_sends store tenant action decision_id input =
      run_operation_lem input (find_operation store tenant action)
