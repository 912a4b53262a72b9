-- ===== src/Policy/Binding.antt =====
-- What an accepted decision binds: its action, its inputs and its facts.
use lamdis_core.Prelude.{
  ℕ, ◌/◌, ◌%◌, ◌<◌, ◌≡◌, ◌≢◌, ◌↔◌, refl, sym, ◌⊎◌, inl, inr, Bool, true, false, Option, none, some,
  List, [], ◌∷◌, ◌++◌, arith, ℤ, All, find-append_last,
}
use lamdis_core.Text.{Text}
use lamdis_core.Text.Laws.{text_eq_iff, text_eq_refl}
use lamdis_core.Json.{Runtime, Value, Fields, of_map, decimal}
use lamdis_core.Store.{DecisionRow}
use lamdis_core.Policy.Evaluate.{Decision}
use lamdis_core.Policy.Decisions.{
  is_allowed, is_expired, accepted, hex, hex_digit, binding_text, binding_hash, decision_row,
  persist_decision, find_decision, bind_row, validate_and_bind_decision,
}

-- A digit pair tells its byte, and no digit is the separator.
hex_pair :
    (c d : ℕ)
    → c < 256
    → d < 256
    → hex_digit (c / 16) ≡ hex_digit (d / 16)
    → hex_digit (c % 16) ≡ hex_digit (d % 16)
    → c ≡ d
hex_pair c d h k p q = ground arith

hex_digit-ne : (d : ℕ) → d < 16 → hex_digit d ≢ b'|'
hex_digit-ne d h = ground arith

abbrev pub IsBytes : Text → Type 0
IsBytes s = All (λ c. c < 256) s

cons_eq {ℓ} : {A : Type ℓ} {a b : A} {s t : List A} → (a ∷ s) ≡ (b ∷ t) → (a ≡ b) × (s ≡ t)
cons_eq h = (cc, cc)

-- The hexadecimal parts can be read back off the text.
hex-append :
    (s t u v : Text)
    → IsBytes s
    → IsBytes t
    → hex s ++ b'|' ∷ u ≡ hex t ++ b'|' ∷ v
    → (s ≡ t) × (u ≡ v)
unfolding hex
hex-append [] [] u v h k e = (refl, cc)
hex-append [] (d ∷ t) u v h (k, ks) e =
    absurd (hex_digit-ne (d / 16) (omega arith) (sym (cons_eq e).0))
hex-append (c ∷ s) [] u v (h, hs) k e = absurd (hex_digit-ne (c / 16) (omega arith) (cons_eq e).0)
hex-append (c ∷ s) (d ∷ t) u v (h, hs) (k, ks) e =
    let (first, more) = cons_eq e in
    let (second, rest) = cons_eq more in
    let (same, tail) = hex-append s t u v hs ks rest in
    let head = hex_pair c d h k first second in (cc, tail)

module _ (rt : Runtime) (marshal : Value rt.Float → Text) (sha256 : Text → Text)
    (sees : Text → Text → Bool) where
  -- Different inputs, facts or versions are hashed as different texts.
  pub binding_text-injective :
      (bytes : (v : Value rt.Float) → IsBytes (marshal v))
      (inputs facts inputs' facts' : Option (Fields rt.Float)) (version version' : ℤ)
      → binding_text rt marshal sha256 inputs facts version
        ≡ binding_text rt marshal sha256 inputs' facts' version'
      → (marshal (of_map inputs) ≡ marshal (of_map inputs'))
        × (marshal (of_map facts) ≡ marshal (of_map facts'))
        × (decimal version ≡ decimal version')
  unfolding binding_text
  binding_text-injective bytes inputs facts inputs' facts' version version' e =
      let (i, rest) =
        hex-append (marshal (of_map inputs)) (marshal (of_map inputs')) _ _ (bytes (of_map inputs))
          (bytes (of_map inputs')) e in
      let (f, v) =
        hex-append (marshal (of_map facts)) (marshal (of_map facts')) _ _ (bytes (of_map facts))
          (bytes (of_map facts')) rest in
      (i, f, v)

  abbrev pub Binds : ℤ → Text → (ℤ → Text) → DecisionRow rt.Float → Type 0
  Binds now action calc r =
      (r.action_key ≡ action)
      × (is_allowed r.status ≡ true)
      × (is_expired r.expires_at now ≡ false)
      × ((r.hash ≡ some []) ⊎ (r.hash ≡ some (calc r.policy_version)))

  bind_row-accepted :
      (now : ℤ) (action : Text) (calc : ℤ → Text) (r : DecisionRow rt.Float)
      → (bind_row now action calc (some r) ≡ accepted) ↔ Binds now action calc r
  unfolding bind_row
  bind_row-accepted now action calc r = go r.hash refl
    where
      go :
          (stored : Option Text)
          → r.hash ≡ stored
          → (bind_row now action calc (some r) ≡ accepted) ↔ Binds now action calc r
      go none e = ground (arith)
      go (some []) e = ground (arith, text_eq_iff r.action_key action)
      go (some (c ∷ s)) e =
          ground
            (arith, text_eq_iff r.action_key action, text_eq_iff (c ∷ s) (calc r.policy_version))

  -- A decision is accepted for execution exactly where its row is found for the tenant, and it is
  -- for this action, allowed, not expired, and stored with no hash or with the hash of the inputs
  -- and facts of the call.
  pub accepted_iff :
      (now : ℤ) (rows : List (DecisionRow rt.Float)) (tenant id action : Text)
      (inputs facts : Option (Fields rt.Float))
      → (validate_and_bind_decision rt marshal sha256 sees now
            (some rows)
            tenant
            id
            action
            inputs
            facts
          ≡ accepted)
        ↔ ((r : DecisionRow rt.Float) × (find_decision sees tenant id rows ≡ some r)
            × Binds now action (binding_hash rt marshal sha256 inputs facts) r)
  unfolding validate_and_bind_decision
  accepted_iff now rows tenant id action inputs facts =
      found (find_decision sees tenant id rows) refl
    where
      found :
          (o : Option (DecisionRow rt.Float))
          → find_decision sees tenant id rows ≡ o
          → (bind_row now action
                (binding_hash rt marshal sha256 inputs facts)
                (find_decision sees tenant id rows)
              ≡ accepted)
            ↔ ((r : DecisionRow rt.Float) × (find_decision sees tenant id rows ≡ some r)
                × Binds now action (binding_hash rt marshal sha256 inputs facts) r)
      found none e = (λ h. cc (rw e at h), λ h. cc (h.1))
      found (some r) e = (
        λ h. (
          r,
          e,
          (bind_row-accepted now action (binding_hash rt marshal sha256 inputs facts) r).0
              (rw e at h),
        ),
        λ (s, q, b).
            rw q
              ((bind_row-accepted now action (binding_hash rt marshal sha256 inputs facts) s).1 b),
      )

  -- The same, for a row that is known.
  accepted-Binds :
      (now : ℤ) (rows : List (DecisionRow rt.Float)) (tenant id action : Text)
      (inputs facts : Option (Fields rt.Float)) (r : DecisionRow rt.Float)
      → find_decision sees tenant id rows ≡ some r
      → validate_and_bind_decision rt marshal sha256 sees now
          (some rows)
          tenant
          id
          action
          inputs
          facts
        ≡ accepted
      → Binds now action (binding_hash rt marshal sha256 inputs facts) r
  unfolding validate_and_bind_decision
  accepted-Binds now rows tenant id action inputs facts r found ok =
      (bind_row-accepted now action (binding_hash rt marshal sha256 inputs facts) r).0
        (rw found at ok)

  -- A decision that was just persisted is accepted with the same action, inputs and facts, while it
  -- is allowed and not expired. The new id must not be one that the tenant sees already.
  pub accept-persist :
      (now : ℤ) (tenant id : Text) (d : Decision rt.Float) (rows : List (DecisionRow rt.Float))
      → sees tenant tenant ≡ true
      → find_decision sees tenant id rows ≡ none
      → is_allowed d.status ≡ true
      → is_expired d.expires_at now ≡ false
      → validate_and_bind_decision rt marshal sha256 sees now
          (persist_decision rt marshal sha256 (some id) tenant d (some rows)).0
          tenant
          (persist_decision rt marshal sha256 (some id) tenant d (some rows)).1
          d.action_key
          d.inputs
          d.facts
        ≡ accepted
  unfolding persist_decision find_decision
  accept-persist now tenant id d rows own fresh allowed live =
      (accepted_iff now (rows ++ decision_row rt marshal sha256 tenant id d ∷ []) tenant id
          d.action_key d.inputs d.facts).1
        (
          decision_row rt marshal sha256 tenant id d,
          find-append_last _ rows _ fresh (ground (arith, text_eq_refl id)),
          (refl, allowed, live, inr refl),
        )

  same_text :
      ((t : Text) → sha256 t ≢ [])
      → ((s t : Text) → sha256 s ≡ sha256 t → s ≡ t)
      → (d : Decision rt.Float) (inputs facts : Option (Fields rt.Float))
      → (some (binding_hash rt marshal sha256 d.inputs d.facts d.policy_version) ≡ some [])
        ⊎ (some (binding_hash rt marshal sha256 d.inputs d.facts d.policy_version)
            ≡ some (binding_hash rt marshal sha256 inputs facts d.policy_version))
      → binding_text rt marshal sha256 d.inputs d.facts d.policy_version
        ≡ binding_text rt marshal sha256 inputs facts d.policy_version
  unfolding binding_hash
  same_text nonempty injective d inputs facts (inl e) =
      absurd (nonempty (binding_text rt marshal sha256 d.inputs d.facts d.policy_version) (cc))
  same_text nonempty injective d inputs facts (inr e) =
      injective (binding_text rt marshal sha256 d.inputs d.facts d.policy_version)
        (binding_text rt marshal sha256 inputs facts d.policy_version) (cc)

  -- The other way round: what is accepted under the id of a persisted decision is its action, its
  -- inputs and its facts, as JSON writes them. The digest is never empty and has no collisions,
  -- and JSON is bytes.
  pub accept_sound :
      (nonempty : (t : Text) → sha256 t ≢ [])
      (injective : (s t : Text) → sha256 s ≡ sha256 t → s ≡ t)
      (bytes : (v : Value rt.Float) → IsBytes (marshal v)) (now : ℤ) (tenant id action : Text)
      (d : Decision rt.Float) (rows : List (DecisionRow rt.Float))
      (inputs facts : Option (Fields rt.Float))
      → find_decision sees tenant id rows ≡ some (decision_row rt marshal sha256 tenant id d)
      → validate_and_bind_decision rt marshal sha256 sees now
          (some rows)
          tenant
          id
          action
          inputs
          facts
        ≡ accepted
      → (d.action_key ≡ action)
        × (is_allowed d.status ≡ true)
        × (marshal (of_map d.inputs) ≡ marshal (of_map inputs))
        × (marshal (of_map d.facts) ≡ marshal (of_map facts))
  unfolding decision_row
  accept_sound nonempty injective bytes now tenant id action d rows inputs facts row ok =
      let (same, allowed, live, hashed) =
        accepted-Binds now rows tenant id action inputs facts
          (decision_row rt marshal sha256 tenant id d) row ok in
      let text = same_text nonempty injective d inputs facts hashed in
      let (i, f, v) =
        binding_text-injective bytes d.inputs d.facts inputs facts d.policy_version d.policy_version
          text in
      (same, allowed, i, f)
