-- ===== src/Policy/Http/Flow.antt =====
-- The two-phase flow: what a preflight allows and what an execute needs.
use lamdis_core.Prelude.{
  ◌≡◌, ◌≢◌, refl, ◌∙◌, ap, ◌⊎◌, inl, inr, Bool, true, false, Option, none, some, List, [], ◌∷◌,
  null, ℤ, Bool-cases,
}
use lamdis_core.Text.{Text, trim_space}
use lamdis_core.Json.{Runtime, Clock, Value, nil, str, Fields}
use lamdis_core.Facts.Timeless.{all_timeless, resolve_facts_timeless}
use lamdis_core.Store.{
  DecisionStatus, allow, allow_with_conditions, blocked, needs_input, VersionRow, DecisionRow,
}
use lamdis_core.Policy.Evaluate.{Decision, evaluate, decide, active_policy}
use lamdis_core.Policy.Decisions.{
  is_allowed, is_expired, Verdict, accepted, refused, persist_decision, find_decision,
  validate_and_bind_decision,
}
use lamdis_core.Policy.Binding.{accept-persist}
use lamdis_core.Orchestrator.Execute.{Request, execute}
use lamdis_core.Policy.Http.{
  Database, World, allows, Reply, conflict, executed, on, with_decisions, reply_for,
  preflight_reply, is_asking, facts_of, decision_of, preflight, bound_execute, execute_action,
}

module _ (rt : Runtime) (w : World rt) where
  open rt use {Float}

  -- `ValidateAndBindDecision` as the endpoint calls it, with the facts of the call.
  abbrev pub verdict :
      Clock → ℤ → Option (Database Float) → Text → Text → Text → Option (Fields Float) → Verdict
  verdict clock now db tenant key id inputs =
      validate_and_bind_decision rt w.marshal w.sha256 w.sees now (on (λ d. d.decisions) db) tenant
        id key inputs (facts_of rt w clock db tenant key inputs)

  -- The two ways in which the endpoint ends.
  abbrev pub Ends :
      Clock
      → ℤ
      → Option (Database Float)
      → Text
      → Text
      → Text
      → Option (Fields Float)
      → Reply Float × List (Request Float) × Option (Database Float)
      → Type 0
  Ends clock now db tenant key id inputs r =
      ((p : Fields Float) × (r ≡ (conflict p, [], db)))
      ⊎ ((trim_space id ≢ [])
          × (verdict clock now db tenant key id inputs ≡ accepted)
          × (r.0
              ≡ executed
                  (execute rt w.valid w.http (on (λ d. d.execution) db) tenant key id
                    inputs).outcome)
          × (r.1
              ≡ (execute rt w.valid w.http (on (λ d. d.execution) db) tenant key id
                  inputs).requests))

  bound-Ends :
      (v : Verdict) (clock : Clock) (now : ℤ) (db : Option (Database Float)) (tenant key id : Text)
      (inputs : Option (Fields Float))
      → verdict clock now db tenant key id inputs ≡ v
      → trim_space id ≢ []
      → Ends clock now db tenant key id inputs (bound_execute rt w v db tenant key id inputs)
  unfolding bound_execute
  bound-Ends (refused r) clock now db tenant key id inputs e ne = inl (_, refl)
  bound-Ends accepted clock now db tenant key id inputs e ne = inr (ne, e, refl, refl)

  -- An execute either answers with a conflict, sends nothing and changes nothing, or its decision is
  -- given and accepted for this action, these inputs and their facts, and the answer and the requests
  -- are those of the execution.
  pub execute_action_guarded :
      (clock : Clock) (now : ℤ) (db : Option (Database Float)) (tenant key id : Text)
      (inputs : Option (Fields Float))
      → Ends clock now db tenant key id inputs
          (execute_action rt w clock now db tenant key id inputs)
  unfolding execute_action
  execute_action_guarded clock now db tenant key id inputs =
      elim (Bool-cases (null (trim_space id))) [
        | inl e ↦ rw e (inl (_, refl))
        | inr e ↦ rw e (
            bound-Ends (verdict clock now db tenant key id inputs) clock now db tenant key id inputs
              refl (not_nil (trim_space id) e))
      ]
    where
      not_nil : (s : Text) → null s ≡ false → s ≢ []
      not_nil [] h k = cc
      not_nil (c ∷ s) h k = cc

  reply_allowed :
      (st : DecisionStatus) (id id' : Text) (needs : List (Option (Fields Float)))
      (d : Decision Float) (s : DecisionStatus) (t : Option ℤ) (reasons conditions : Value Float)
      → reply_for st id needs d ≡ allows s id' t reasons conditions
      → (is_allowed st ≡ true) × (is_asking st ≡ false) × (t ≡ d.expires_at)
  unfolding reply_for
  reply_allowed needs_input id id' needs d s t reasons conditions h = cc
  reply_allowed allow id id' needs d s t reasons conditions h = (refl, refl, cc)
  reply_allowed allow_with_conditions id id' needs d s t reasons conditions h = (refl, refl, cc)
  reply_allowed blocked id id' needs d s t reasons conditions h = cc

  -- A decision is about the action, the inputs and the facts that it was asked for.
  abbrev About : Text → Option (Fields Float) → Option (Fields Float) → Decision Float → Type 0
  About key inputs facts d = (d.action_key ≡ key) × (d.inputs ≡ inputs) × (d.facts ≡ facts)

  decide-About :
      (now : ℤ) (key : Text) (inputs facts : Option (Fields Float)) (version : ℤ)
      (v : Option (Value Float))
      → About key inputs facts (decide rt now key inputs facts version v)
  unfolding decide
  decide-About now key inputs facts version none = (refl, refl, refl)
  decide-About now key inputs facts version (some nil) = (refl, refl, refl)
  decide-About now key inputs facts version (some (Value.bool b)) = (refl, refl, refl)
  decide-About now key inputs facts version (some (Value.int n)) = (refl, refl, refl)
  decide-About now key inputs facts version (some (Value.float x)) = (refl, refl, refl)
  decide-About now key inputs facts version (some (str s)) = (refl, refl, refl)
  decide-About now key inputs facts version (some (Value.number s)) = (refl, refl, refl)
  decide-About now key inputs facts version (some (Value.arr l)) = (refl, refl, refl)
  decide-About now key inputs facts version (some (Value.obj m)) = (refl, refl, refl)

  evaluate-About :
      (now : ℤ) (rows : Option (List VersionRow)) (tenant key : Text)
      (inputs facts : Option (Fields Float))
      → About key inputs facts (evaluate rt w.rego w.sees now rows tenant key inputs facts)
  unfolding evaluate
  evaluate-About now rows tenant key inputs facts =
      elim (Bool-cases (null (active_policy w.sees rows tenant key).0)) [
        | inl e ↦ rw e (refl, refl, refl)
        | inr e ↦
            rw e (decide-About now key inputs facts (active_policy w.sees rows tenant key).1 _)
      ]

  same_call :
      (rows : List (DecisionRow Float)) (action key : Text) (i j f g : Option (Fields Float))
      (later : ℤ) (tenant id : Text)
      → action ≡ key
      → i ≡ j
      → f ≡ g
      → validate_and_bind_decision rt w.marshal w.sha256 w.sees later
          (some rows)
          tenant
          id
          action
          i
          f
        ≡ accepted
      → validate_and_bind_decision rt w.marshal w.sha256 w.sees later (some rows) tenant id key j g
        ≡ accepted
  same_call rows action key i j f g later tenant id a b c h = rw (← a, ← b, ← c) h

  accept_after :
      (clock : Clock) (later : ℤ) (db : Database Float) (tenant key id : Text)
      (inputs : Option (Fields Float)) (d : Decision Float)
      → About key inputs (facts_of rt w clock (some db) tenant key inputs) d
      → w.sees tenant tenant ≡ true
      → find_decision w.sees tenant id db.decisions ≡ none
      → is_allowed d.status ≡ true
      → is_expired d.expires_at later ≡ false
      → verdict clock later
          (with_decisions
            (some db)
            (persist_decision rt w.marshal w.sha256 (some id) tenant d (some db.decisions)).0)
          tenant
          key
          id
          inputs
        ≡ accepted
  unfolding with_decisions persist_decision facts_of
  accept_after clock later db tenant key id inputs d (a, i, f) own fresh allowed live =
      same_call _ (d.action_key) key d.inputs inputs d.facts _ later tenant id a i f (
        accept-persist rt w.marshal w.sha256 w.sees later tenant id d db.decisions own fresh allowed
          live)

  execution_after :
      (db : Database Float) (tenant id : Text) (d : Decision Float)
      → on
          (λ x. x.execution)
          (with_decisions
            (some db)
            (persist_decision rt w.marshal w.sha256 (some id) tenant d (some db.decisions)).0)
        ≡ some db.execution
  unfolding with_decisions persist_decision
  execution_after db tenant id d = refl

  executed_of :
      (clock : Clock) (later : ℤ) (db : Option (Database Float)) (tenant key id : Text)
      (inputs : Option (Fields Float))
      → trim_space id ≢ []
      → verdict clock later db tenant key id inputs ≡ accepted
      → (execute_action rt w clock later db tenant key id inputs).0
        ≡ executed
            (execute rt w.valid w.http (on (λ d. d.execution) db) tenant key id inputs).outcome
  unfolding execute_action bound_execute
  executed_of clock later db tenant key id inputs ne e = rw (null_of (trim_space id) ne, e) refl
    where
      null_of : (s : Text) → s ≢ [] → null s ≡ false
      null_of [] n = absurd (n refl)
      null_of (c ∷ s) n = refl

  pub facts_timeless :
      (c d : Clock) (db : Database Float) (tenant key : Text) (inputs : Option (Fields Float))
      → all_timeless w.sees tenant key db.facts ≡ true
      → facts_of rt w c (some db) tenant key inputs ≡ facts_of rt w d (some db) tenant key inputs
  unfolding facts_of
  facts_timeless c d db tenant key inputs h =
      ap (λ r. r.facts) (resolve_facts_timeless rt w.search w.sees c d db.facts tenant key inputs h)

  -- What a preflight allows can be executed: with the id that the preflight gives, for the same
  -- action and inputs, the execute that follows is no conflict but runs the operation, while the
  -- decision is not expired. Each of the two calls has its own readings of the clock, and no
  -- mapping of the action that the tenant sees reads it. The tenant sees its own rows, and the id
  -- is new and not blank.
  pub preflight-execute_action :
      (clock clock_later : Clock) (now later : ℤ) (queries : Bool) (db : Database Float)
      (tenant key id : Text) (inputs : Option (Fields Float)) (s : DecisionStatus) (id' : Text)
      (t : Option ℤ) (reasons conditions : Value Float)
      → w.sees tenant tenant ≡ true
      → find_decision w.sees tenant id db.decisions ≡ none
      → trim_space id ≢ []
      → all_timeless w.sees tenant key db.facts ≡ true
      → (preflight rt w clock now queries (some id) (some db) tenant key inputs).0
        ≡ allows s id' t reasons conditions
      → is_expired t later ≡ false
      → (execute_action rt w clock_later later
          (preflight rt w clock now queries (some id) (some db) tenant key inputs).1
          tenant
          key
          id
          inputs).0
        ≡ executed (execute rt w.valid w.http (some db.execution) tenant key id inputs).outcome
  unfolding preflight preflight_reply
  preflight-execute_action clock clock_later now later queries db tenant key id inputs s id' t
        reasons conditions own fresh ne timeless h live =
      let d : Decision Float = decision_of rt w clock now (some db) tenant key inputs in
      let (allowed, answered, same) = reply_allowed d.status _ id' _ d s t reasons conditions h in
      let (a, i, f) =
        evaluate-About now (some db.versions) tenant key inputs
          (facts_of rt w clock (some db) tenant key inputs) in
      rw (answered, ← execution_after db tenant id d)
        (executed_of clock_later later
          (with_decisions (some db)
            (persist_decision rt w.marshal w.sha256 (some id) tenant d (some db.decisions)).0)
          tenant key id inputs ne
          (accept_after clock_later later db tenant key id inputs d
            (a, i, f ∙ facts_timeless clock clock_later db tenant key inputs timeless) own fresh
            allowed (rw (← same) live)))
