-- ===== src/Facts/Timeless.antt =====
-- Mappings that read no clock: the facts are then the same at any two times.
use lamdis_core.Prelude.{
  ◌≡◌, refl, ◌∙◌, inl, inr, Bool, true, false, not, Option, some, List, [], ◌∷◌, Result, ok, err,
  all, arith, Result-cases,
}
use lamdis_core.Text.{Text}
use lamdis_core.Json.{Runtime, Clock, later, Value, Items, Fields, put}
use lamdis_core.Facts.Transforms.{
  Transform, count, sum, days_between, now, any_of, all_of, exists, first, to_number, to_string,
  coalesce, other, transform_of, run_transform, apply_transform,
}
use lamdis_core.Facts.Resolve.{
  Mapping, FactStore, load_mappings, load_resolvers, fact_doc, map_value, apply_mappings,
  compute_facts, resolve_facts,
}

-- The transforms that call time.Now or time.Since.
abbrev pub is_timed : Transform → Bool
is_timed days_between = true
is_timed now = true
is_timed t = false

abbrev pub is_timeless : {F : Type 0} → Mapping F → Bool
is_timeless m = not (is_timed (transform_of m.transform))

-- Whether no mapping of the action that the tenant's session sees reads the clock.
abbrev pub all_timeless : {F : Type 0} → (Text → Text → Bool) → Text → Text → FactStore F → Bool
all_timeless sees tenant action s = all is_timeless (load_mappings sees tenant action s.mappings)

module _ (rt : Runtime) where
  run_transform_timeless :
      (c d : Clock) (t : Transform) (v : Value rt.Float) (args : Items rt.Float)
      → not (is_timed t) ≡ true
      → run_transform rt c t v args ≡ run_transform rt d t v args
  unfolding run_transform
  run_transform_timeless c d count v args h = refl
  run_transform_timeless c d sum v args h = refl
  run_transform_timeless c d days_between v args h = cc
  run_transform_timeless c d now v args h = cc
  run_transform_timeless c d any_of v args h = refl
  run_transform_timeless c d all_of v args h = refl
  run_transform_timeless c d exists v args h = refl
  run_transform_timeless c d first v args h = refl
  run_transform_timeless c d to_number v args h = refl
  run_transform_timeless c d to_string v args h = refl
  run_transform_timeless c d coalesce v args h = refl
  run_transform_timeless c d other v args h = refl

  module _ (search : Text → Value rt.Float → Result (Value rt.Float)) where
    map_value_timeless :
        (c d : Clock) (doc : Value rt.Float) (m : Mapping rt.Float)
        → is_timeless m ≡ true
        → map_value rt search c doc m ≡ map_value rt search d doc m
    unfolding map_value apply_transform
    map_value_timeless c d doc m h = elim (Result-cases (search m.path doc)) [
      | inl e ↦ rw e refl
      | inr (v, e) ↦
          rw (e, run_transform_timeless c d (transform_of m.transform) v m.transform_args h) refl
    ]

    apply_mappings_timeless :
        (doc : Value rt.Float) (ms : List (Mapping rt.Float)) (c d : Clock)
        (facts : Fields rt.Float)
        → all is_timeless ms ≡ true
        → apply_mappings rt search doc c facts ms ≡ apply_mappings rt search doc d facts ms
    unfolding apply_mappings
    apply_mappings_timeless doc [] c d facts h = refl
    apply_mappings_timeless doc (m ∷ ms) c d facts h =
        let alike = map_value_timeless c d doc m (ground arith) in
        let rest : (fs : Fields rt.Float)
            → apply_mappings rt search doc (later c) fs ms
              ≡ apply_mappings rt search doc (later d) fs ms =
          λ fs. apply_mappings_timeless doc ms (later c) (later d) fs (ground arith) in
        elim (Result-cases (map_value rt search d doc m)) [
          | inl e ↦
              (let f : map_value rt search c doc m ≡ err = alike ∙ e in
                rw (e, f, rest facts, apply_mappings) refl)
          | inr (v, e) ↦
              (let f : map_value rt search c doc m ≡ ok v = alike ∙ e in
                rw (e, f, rest (put m.fact_key v facts), apply_mappings) refl)
        ]

    -- Without a mapping that reads the clock, the facts do not depend on its readings.
    pub resolve_facts_timeless :
        (sees : Text → Text → Bool) (c d : Clock) (s : FactStore rt.Float) (tenant action : Text)
        (inputs : Option (Fields rt.Float))
        → all_timeless sees tenant action s ≡ true
        → resolve_facts rt search sees c (some s) tenant action inputs
          ≡ resolve_facts rt search sees d (some s) tenant action inputs
    unfolding resolve_facts compute_facts
    resolve_facts_timeless sees c d s tenant action inputs h =
        elim (Result-cases (load_resolvers sees tenant action s.resolvers)) [
          | inl e ↦ rw e refl
          | inr (rs, e) ↦
              rw
                (
                  e,
                  apply_mappings_timeless (fact_doc inputs rs)
                      (load_mappings sees tenant action s.mappings) c d _ h,
                )
                refl
        ]
