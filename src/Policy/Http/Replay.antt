-- ===== src/Policy/Http/Replay.antt =====
-- An execute that is sent again: the decision is not used up, and the idempotency key is not looked up.
use lamdis_core.Prelude.{
  ◌≡◌, ◌≢◌, refl, inl, inr, true, false, Option, none, some, null, ℤ, Bool-cases,
}
use lamdis_core.Text.{Text, trim_space}
use lamdis_core.Json.{Runtime, Clock, Fields}
use lamdis_core.Facts.Timeless.{all_timeless}
use lamdis_core.Store.{DecisionRow}
use lamdis_core.Policy.Decisions.{is_expired, Verdict, accepted, refused, find_decision}
use lamdis_core.Policy.Binding.{accepted_iff}
use lamdis_core.Policy.Http.Flow.{verdict, facts_timeless}
use lamdis_core.Orchestrator.Execute.{
  ExecuteResult, ExecutionStore, find_operation, store_row, execute,
}
use lamdis_core.Policy.Http.{
  Database, World, executed, with_executions, facts_of, bound_execute, execute_action,
}

-- The database of the next call, whose INSERT generates the given id or fails.
abbrev pub with_insert : {F : Type 0} → Option Text → Option (Database F) → Option (Database F)
with_insert inserted none = none
with_insert inserted (some db) =
    some (record db { execution = record db.execution { inserted = inserted } })

module _ (rt : Runtime) (w : World rt) where
  open rt use {Float}

  accepted_again :
      (c d : Clock) (now later : ℤ) (db : Database Float) (e : ExecutionStore Float)
      (tenant key id : Text) (inputs : Option (Fields Float)) (row : DecisionRow Float)
      → all_timeless w.sees tenant key db.facts ≡ true
      → find_decision w.sees tenant id db.decisions ≡ some row
      → is_expired row.expires_at later ≡ false
      → verdict rt w c now (some db) tenant key id inputs ≡ accepted
      → verdict rt w d later (some (record db { execution = e })) tenant key id inputs ≡ accepted
  unfolding facts_of
  accepted_again c d now later db e tenant key id inputs row timeless found live h =
      let (r, q, (a, b, l, m)) =
        (accepted_iff rt w.marshal w.sha256 w.sees now db.decisions tenant id key inputs
            (facts_of rt w c (some db) tenant key inputs)).0
          h in
      (accepted_iff rt w.marshal w.sha256 w.sees later db.decisions tenant id key inputs
          (facts_of rt w d (some db) tenant key inputs)).1
        (
          r,
          q,
          (
            a,
            b,
            (let same : row ≡ r = cc in rw (← same) live),
            (rw (← facts_timeless rt w c d db tenant key inputs timeless) m),
          ),
        )

  blank_conflicts :
      (c : Clock) (now : ℤ) (db : Option (Database Float)) (tenant key id : Text)
      (inputs : Option (Fields Float)) (result : ExecuteResult Float)
      → null (trim_space id) ≡ true
      → (execute_action rt w c now db tenant key id inputs).0 ≢ executed result
  unfolding execute_action
  blank_conflicts c now db tenant key id inputs result e h = cc (rw e at h)

  given_executes :
      (c : Clock) (now : ℤ) (db : Option (Database Float)) (tenant key id : Text)
      (inputs : Option (Fields Float))
      → null (trim_space id) ≡ false
      → execute_action rt w c now db tenant key id inputs
        ≡ bound_execute rt w (verdict rt w c now db tenant key id inputs) db tenant key id inputs
  unfolding execute_action
  given_executes c now db tenant key id inputs e = rw e refl

  ran_accepted :
      (v : Verdict) (db : Database Float) (tenant key id : Text) (inputs : Option (Fields Float))
      (result : ExecuteResult Float)
      → (bound_execute rt w v (some db) tenant key id inputs).0 ≡ executed result
      → v ≡ accepted
  unfolding bound_execute
  ran_accepted (refused r) db tenant key id inputs result h = cc
  ran_accepted accepted db tenant key id inputs result h = refl

  sends_again :
      (db : Database Float) (tenant key id : Text) (inputs : Option (Fields Float)) (v : Verdict)
      (result : ExecuteResult Float) (again : Option Text) (d : Clock) (later : ℤ)
      → (bound_execute rt w v (some db) tenant key id inputs).0 ≡ executed result
      → null (trim_space id) ≡ false
      → ((e : ExecutionStore Float)
          → verdict rt w d later (some (record db { execution = e })) tenant key id inputs
            ≡ accepted)
      → ((execute_action rt w d later
            (with_insert again (bound_execute rt w v (some db) tenant key id inputs).2)
            tenant
            key
            id
            inputs).0
          ≡ executed result)
        × ((execute_action rt w d later
              (with_insert again (bound_execute rt w v (some db) tenant key id inputs).2)
              tenant
              key
              id
              inputs).1
            ≡ (bound_execute rt w v (some db) tenant key id inputs).1)
  unfolding execute_action bound_execute with_executions execute store_row find_operation
  sends_again db tenant key id inputs (refused r) result again d later h given valid = cc
  sends_again db tenant key id inputs accepted result again d later h given valid =
      rw (given, valid _) (h, refl)

  -- An execute that was no conflict, sent again with the same decision, action and inputs on the
  -- database that the first one leaves: it is no conflict either, its answer is the same and it
  -- sends the same requests, whatever idempotency keys the stored executions hold. The decision is
  -- not expired at the second call, no mapping of the action that the tenant sees reads the clock,
  -- and the network answers both alike.
  pub execute_action_again :
      (c d : Clock) (now later : ℤ) (db : Database Float) (tenant key id : Text)
      (inputs : Option (Fields Float)) (row : DecisionRow Float) (result : ExecuteResult Float)
      (again : Option Text)
      → all_timeless w.sees tenant key db.facts ≡ true
      → find_decision w.sees tenant id db.decisions ≡ some row
      → is_expired row.expires_at later ≡ false
      → (execute_action rt w c now (some db) tenant key id inputs).0 ≡ executed result
      → let first = execute_action rt w c now (some db) tenant key id inputs in
        let second = execute_action rt w d later (with_insert again first.2) tenant key id inputs in
        (second.0 ≡ executed result) × (second.1 ≡ first.1)
  execute_action_again c d now later db tenant key id inputs row result again timeless found live
        h =
      elim (Bool-cases (null (trim_space id))) [
        | inl e ↦ absurd (blank_conflicts c now (some db) tenant key id inputs result e h)
        | inr e ↦
            let v = verdict rt w c now (some db) tenant key id inputs in
            let first = given_executes c now (some db) tenant key id inputs e in
            let ran = rw first at h in
            rw first (
              sends_again db tenant key id inputs v result again d later ran e (λ x.
                accepted_again c d now later db x tenant key id inputs row timeless found live
                  (ran_accepted v db tenant key id inputs result ran)))
      ]
