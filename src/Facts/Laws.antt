-- ===== src/Facts/Laws.antt =====
-- What the facts engine computes.
use lamdis_core.Prelude.{
  ◌≡◌, refl, ap, ◌↔◌, inl, inr, Bool, true, false, not, ◌&&◌, ◌||◌, Option, some, List, [], ◌∷◌,
  Result, ok, err, arith, if◌then◌else◌, any, all, null, Result-cases,
}
use lamdis_core.Text.{Text, text_eq}
use lamdis_core.Json.{
  Runtime, Clock, later, Value, bool, str, Items, no_items, item, Fields, get, put, to_list,
}
use lamdis_core.Json.Laws.{get-put}
use lamdis_core.Facts.Transforms.{
  any_match, all_match, all_of_some, match_predicate, plain_transform, run_transform, any_of,
  all_of, to_array,
}
use lamdis_core.Facts.Resolve.{Mapping, map_value, apply_mappings}

-- The fact of key `k` as the last mapping that yields a value for it leaves it.
module _ (rt : Runtime) (search : Text → Value rt.Float → Result (Value rt.Float))
    (doc : Value rt.Float) where
  abbrev pub fails : Clock → Mapping rt.Float → Bool
  fails clock m = elim (map_value rt search clock doc m) [ ok v ↦ false | err ↦ true ]

  -- Whether a required mapping fails, each at its own readings of the clock.
  abbrev pub required_fails : Clock → List (Mapping rt.Float) → Bool
  required_fails clock [] = false
  required_fails clock (m ∷ ms) = (m.required && fails clock m) || required_fails (later clock) ms

  abbrev yield_for :
      Text
      → Mapping rt.Float
      → Result (Value rt.Float)
      → Option (Value rt.Float)
      → Option (Value rt.Float)
  yield_for k m err before = before
  yield_for k m (ok v) before = if text_eq m.fact_key k then some v else before

  abbrev pub last_value :
      Text → Clock → Option (Value rt.Float) → List (Mapping rt.Float) → Option (Value rt.Float)
  last_value k clock before [] = before
  last_value k clock before (m ∷ ms) =
      last_value k (later clock) (yield_for k m (map_value rt search clock doc m) before) ms

  get-put_step :
      (k : Text) (m : Mapping rt.Float) (v : Value rt.Float) (before : Fields rt.Float)
      → get k (put m.fact_key v before) ≡ yield_for k m (ok v) (get k before)
  get-put_step k m v before = get-put m.fact_key k v before

  -- Where the loop over the mappings ends well, each fact is what the last mapping with its key gave that found one.
  pub apply_mappings-get :
      (k : Text) (ms : List (Mapping rt.Float)) (clock : Clock) (before after : Fields rt.Float)
      → apply_mappings rt search doc clock before ms ≡ ok after
      → get k after ≡ last_value k clock (get k before) ms
  unfolding apply_mappings
  apply_mappings-get k [] clock before after h = ground arith
  apply_mappings-get k (m ∷ ms) clock before after h =
      elim (Result-cases (map_value rt search clock doc m)) [
        | inl e ↦ rw e (apply_mappings-get k ms (later clock) before after (ground arith))
        | inr (v, e) ↦
            rw (e, ← get-put_step k m v before)
              (apply_mappings-get k ms (later clock) (put m.fact_key v before) after (ground arith))
      ]

  -- The loop over the mappings ends in an error exactly where a required mapping fails.
  pub apply_mappings-eq-err_iff :
      (ms : List (Mapping rt.Float)) (clock : Clock) (before : Fields rt.Float)
      → (apply_mappings rt search doc clock before ms ≡ err) ↔ (required_fails clock ms ≡ true)
  unfolding apply_mappings
  apply_mappings-eq-err_iff [] clock before = ground arith
  apply_mappings-eq-err_iff (m ∷ ms) clock before =
      elim (Result-cases (map_value rt search clock doc m)) [
        | inl e ↦ ground (arith, apply_mappings-eq-err_iff ms (later clock) before)
        | inr (v, e) ↦
            ground (arith, apply_mappings-eq-err_iff ms (later clock) (put m.fact_key v before))
      ]

-- "any" and "all" over a list of items.
module _ (rt : Runtime) where
  pub any_match_lem :
      (pred : Text) (l : Items rt.Float)
      → any_match rt pred l ≡ any (λ v. match_predicate rt v pred) (to_list l)
  unfolding any_match to_list
  any_match_lem pred no_items = refl
  any_match_lem pred (item v l) = ground (arith, any_match_lem pred l)

  pub all_match_lem :
      (pred : Text) (l : Items rt.Float)
      → all_match rt pred l ≡ all (λ v. match_predicate rt v pred) (to_list l)
  unfolding all_match to_list
  all_match_lem pred no_items = refl
  all_match_lem pred (item v l) = ground (arith, all_match_lem pred l)

  all_of_some_lem :
      (pred : Text) (l : Items rt.Float)
      → all_of_some rt pred l
        ≡ (not (null (to_list l)) && all (λ v. match_predicate rt v pred) (to_list l))
  unfolding all_of_some to_list
  all_of_some_lem pred no_items = refl
  all_of_some_lem pred (item v l) = all_match_lem pred (item v l)

  -- Over the source and the predicate that its two arguments give, "any" tells whether an item
  -- matches, and "all" whether there are items and each of them matches.
  pub any-all_arguments :
      (clock : Clock) (v src : Value rt.Float) (pred : Text)
      → (run_transform rt clock any_of v (item src (item (str pred) no_items))
          ≡ ok (bool (any (λ x. match_predicate rt x pred) (to_list (to_array rt src)))))
        × (run_transform rt clock all_of v (item src (item (str pred) no_items))
            ≡ ok (
                bool (
                  not (null (to_list (to_array rt src)))
                  && all (λ x. match_predicate rt x pred) (to_list (to_array rt src)))))
  unfolding run_transform plain_transform
  any-all_arguments clock v src pred = (
    ap (λ b. ok (bool b)) (any_match_lem pred (to_array rt src)),
    ap (λ b. ok (bool b)) (all_of_some_lem pred (to_array rt src)),
  )
