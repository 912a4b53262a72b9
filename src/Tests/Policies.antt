-- ===== src/Tests/Policies.antt =====
-- Runs of the evaluation, the decisions and the two endpoints.
use lamdis_core.Prelude.{
  ℕ, ◌+◌, ◌*◌, ◌⊎◌, List, Result, ok, Option, none, ◌≡◌, ◌≢◌, ◌↔◌, refl, Bool, true, some, [], ◌∷◌,
  pos, ◌+ℤ◌, arith,
}
use lamdis_core.Text.{Text, codes, text_eq, trim_space}
use lamdis_core.Json.{Value, nil, str, obj, no_fields, field, of_map}
use lamdis_core.Store.{allow, blocked, published, VersionRow, DecisionRow}
use lamdis_core.Facts.Resolve.{load_mappings, resolve_facts}
use lamdis_core.Policy.Evaluate.{Decision, first_expression, minute, evaluate}
use lamdis_core.Policy.Decisions.{
  accepted, decision_row, persist_decision, find_decision, validate_and_bind_decision, binding_hash,
  is_allowed,
}
use lamdis_core.Policy.Binding.{Binds, IsBytes, accepted_iff, accept_sound}
use lamdis_core.Policy.Lifetime.{no_float, evaluate-expires}
use lamdis_core.Policy.Http.Replay.{with_insert, execute_action_again}
use lamdis_core.Policy.Http.{
  Database, Reply, facts_of, preflight, bound_execute, execute_action, executed,
}
use lamdis_core.Policy.Http.Flow.{Ends, preflight-execute_action, execute_action_guarded}
use lamdis_core.Orchestrator.Execute.{ExecutionStore, Request, execute}
use lamdis_core.Tests.Data.{
  clock, machine, orders_operation, world, database, inputs, shop, action, executions, write_value,
}

abbrev decision : Decision ℕ
decision = record {
  action_key = action;
  inputs = inputs;
  facts = some no_fields;
  policy_version = pos 0;
  status = allow;
  reasons = nil;
  needs = nil;
  alternatives = nil;
  expires_at = some (pos 900);
}

abbrev row : DecisionRow ℕ
row = decision_row machine write_value (λ t. b'#' ∷ t) shop (codes "d1") decision

abbrev own : Text → Text → Bool
own t u = text_eq u t

abbrev digest : Text → Text
digest t = b'#' ∷ t

digest_nonempty : (t : Text) → digest t ≢ []
digest_nonempty t h = cc

digest_injective : (s t : Text) → digest s ≡ digest t → s ≡ t
digest_injective s t h = cc

-- An operation without path parameters, and a database that holds the decision.
abbrev sending : ExecutionStore ℕ
sending = record executions { operations = record orders_operation { path = codes "/orders" } ∷ [] }

abbrev decided : Database ℕ
decided = record database { decisions = row ∷ []; execution = sending }

found_row : find_decision own shop (codes "d1") (row ∷ []) ≡ some row
unfolding find_decision text_eq decision_row
found_row = refl

row_accepted :
    validate_and_bind_decision machine write_value digest own
      (pos 100)
      (some (row ∷ []))
      shop
      (codes "d1")
      action
      inputs
      (some no_fields)
    ≡ accepted
unfolding validate_and_bind_decision decision_row text_eq
row_accepted = refl

write-IsBytes : (v : Value ℕ) → IsBytes (write_value v)
write-IsBytes nil = (omega arith, tt)
write-IsBytes (Value.bool b) = (omega arith, tt)
write-IsBytes (Value.int n) = (omega arith, tt)
write-IsBytes (Value.float x) = (omega arith, tt)
write-IsBytes (str s) = (omega arith, tt)
write-IsBytes (Value.number s) = (omega arith, tt)
write-IsBytes (Value.arr l) = (omega arith, tt)
write-IsBytes (obj no_fields) = (omega arith, tt)
write-IsBytes (obj (field k v m)) = (omega arith, tt)

id_present : trim_space (codes "d1") ≢ []
unfolding trim_space
id_present h = cc

preflight-execute_action_example :
    (execute_action machine world
      (λ n. clock (n + 100))
      (pos 100)
      (preflight machine world clock
        (pos 0)
        true
        (some (codes "d1"))
        (some database)
        shop
        action
        inputs).1
      shop
      action
      (codes "d1")
      inputs).0
    ≡ executed
        (execute machine world.valid world.http
          (some executions)
          shop
          action
          (codes "d1")
          inputs).outcome
preflight-execute_action_example =
    preflight-execute_action machine world clock (λ n. clock (n + 100)) (pos 0) (pos 100) true
      database shop action (codes "d1") inputs allow (codes "d1") (some (pos 900_000_000_000)) nil
      nil (unfold text_eq in refl) (unfold find_decision in refl) id_present
      (unfold load_mappings in refl)
      (unfold preflight evaluate resolve_facts persist_decision text_eq ◌+ℤ◌ in refl) refl

execute_action_guarded_example :
    Ends machine world clock
      (pos 100)
      (some decided)
      shop
      action
      (codes "d1")
      inputs
      (execute_action machine world clock (pos 100) (some decided) shop action (codes "d1") inputs)
execute_action_guarded_example =
    execute_action_guarded machine world clock (pos 100) (some decided) shop action (codes "d1")
      inputs

accept_sound_example :
    (decision.action_key ≡ action)
    × (is_allowed decision.status ≡ true)
    × (write_value (of_map decision.inputs) ≡ write_value (of_map inputs))
    × (write_value (of_map decision.facts) ≡ write_value (of_map (some no_fields)))
accept_sound_example =
    accept_sound machine write_value digest own digest_nonempty digest_injective write-IsBytes
      (pos 100) shop (codes "d1") action decision (row ∷ []) inputs (some no_fields) found_row
      row_accepted

accepted_iff_example :
    (validate_and_bind_decision machine write_value digest own
        (pos 100)
        (some (row ∷ []))
        shop
        (codes "d1")
        action
        inputs
        (some no_fields)
      ≡ accepted)
    ↔ ((r : DecisionRow ℕ) × (find_decision own shop (codes "d1") (row ∷ []) ≡ some r)
        × Binds machine write_value digest own
            (pos 100)
            action
            (binding_hash machine write_value digest inputs (some no_fields))
            r)
accepted_iff_example =
    accepted_iff machine write_value digest own (pos 100) (row ∷ []) shop (codes "d1") action inputs
      (some no_fields)

-- A policy that allows for one minute: its number is a json.Number.
abbrev one_minute : Value ℕ
one_minute = obj (
    field (codes "status") (str (codes "ALLOW"))
      (field (codes "ttl_seconds") (Value.number (codes "60")) no_fields))

abbrev minute_rego : Text → Value ℕ → Result (List (List (Value ℕ)))
minute_rego code document = ok ((one_minute ∷ []) ∷ [])

minute_numbers :
    (code : Text) (document v : Value ℕ)
    → first_expression machine (minute_rego code document) ≡ some v
    → no_float v ≡ true
unfolding first_expression
minute_numbers code document v h = let same : one_minute ≡ v = cc in rw (← same) refl

abbrev minute_version : VersionRow
minute_version = record {
  tenant_id = shop;
  action_key = action;
  version = pos 1;
  compiled_rego = some (codes "package policy");
  status = published;
}

evaluate-expires_example :
    ((evaluate machine minute_rego own
        (pos 0)
        (some (minute_version ∷ []))
        shop
        action
        inputs
        none).expires_at
      ≡ some (pos 0 +ℤ pos (15 * minute)))
    ⊎ (((evaluate machine minute_rego own
            (pos 0)
            (some (minute_version ∷ []))
            shop
            action
            inputs
            none).expires_at
          ≡ some (pos 0 +ℤ pos (5 * minute)))
        × ((evaluate machine minute_rego own
              (pos 0)
              (some (minute_version ∷ []))
              shop
              action
              inputs
              none).status
            ≡ blocked))
evaluate-expires_example =
    evaluate-expires machine minute_rego own (pos 0) (some (minute_version ∷ [])) shop action inputs
      none minute_numbers

abbrev sent_again : Reply ℕ × List (Request ℕ) × Option (Database ℕ)
sent_again =
    execute_action machine world (λ n. clock (n + 200)) (pos 200)
      (with_insert (some (codes "e2"))
        (execute_action machine world clock (pos 100) (some decided) shop action (codes "d1")
          inputs).2)
      shop action (codes "d1") inputs

first_runs :
    (execute_action machine world clock (pos 100) (some decided) shop action (codes "d1") inputs).0
    ≡ executed
        (execute machine world.valid world.http
          (some sending)
          shop
          action
          (codes "d1")
          inputs).outcome
first_runs =
    unfold execute_action bound_execute validate_and_bind_decision decision_row facts_of
      resolve_facts trim_space text_eq in
    refl

execute_action_again_example :
    (sent_again.0
      ≡ executed
          (execute machine world.valid world.http
            (some sending)
            shop
            action
            (codes "d1")
            inputs).outcome)
    × (sent_again.1
        ≡ (execute_action machine world clock
            (pos 100)
            (some decided)
            shop
            action
            (codes "d1")
            inputs).1)
execute_action_again_example =
    execute_action_again machine world clock (λ n. clock (n + 200)) (pos 100) (pos 200) decided shop
      action (codes "d1") inputs row
      (execute machine world.valid world.http (some sending) shop action (codes "d1")
        inputs).outcome
      (some (codes "e2")) (unfold load_mappings in refl) found_row (unfold decision_row in refl)
      first_runs
