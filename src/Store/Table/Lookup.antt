-- ===== src/Store/Table/Lookup.antt =====
-- The row of a key after each statement. A key is the list of the texts of its columns.
use mathlib.Core.Option
use lamdis_core.Prelude.{
  ◌≡◌, ◌∙◌, inl, inr, refl, ap, Bool, true, false, Option, none, some, List, [], ◌∷◌, arith,
  if◌then◌else◌, find, Bool-cases,
}
use lamdis_core.Text.{Text}
use lamdis_core.Store.Table.Statements.{
  keys_eq, keys_eq_refl, keys_eq_iff, eq_of_keys_eq, merge, upsert, update_where, delete_where,
}

module _ {R : Type 0} (key : R → List Text) where
  -- The row of a key.
  abbrev pub at : List Text → List R → Option R
  at k rows = find (λ r. keys_eq (key r) k) rows

  -- Each key stands once.
  abbrev pub Distinct : List R → Type 0
  Distinct [] = Unit
  Distinct (r ∷ rows) = (at (key r) rows ≡ none) × Distinct rows

  at_key :
      (k : List Text) (rows : List R) (r : R)
      → keys_eq (key r) k ≡ true
      → at k rows ≡ at (key r) rows
  at_key k rows r h = rw (eq_of_keys_eq (key r) k h) refl

  kept :
      (here : R → Bool) (change : R → R) (r : R)
      → key (change r) ≡ key r
      → key (if here r then change r else r) ≡ key r
  kept here change r e = elim (Bool-cases (here r)) [ inl h ↦ rw h e | inr h ↦ rw h refl ]

  swapped : (r : R) (k : List Text) → keys_eq (key r) k ≡ false → keys_eq k (key r) ≡ false
  swapped r k h = elim (Bool-cases (keys_eq k (key r))) [
    | inr n ↦ n
    | inl n ↦ absurd (cc (h, (keys_eq_iff k (key r)).0 n, keys_eq_refl k))
  ]

  -- After an upsert each key has the row that it had, and the key of the upsert what the conflict makes.
  pub at-upsert :
      (k j : List Text) (new : R) (change : R → R) (rows : List R)
      → key new ≡ k
      → ((r : R) → key (change r) ≡ key r)
      → at j (upsert (λ r. keys_eq (key r) k) new change rows)
        ≡ (if keys_eq k j then some (merge new change (at k rows)) else at j rows)
  unfolding upsert
  at-upsert k j new change [] e keeps = rw e (refl)
  at-upsert k j new change (r ∷ rows) e keeps = elim (Bool-cases (keys_eq (key r) k)) [
    | inl h ↦ rw (h, keeps r, (keys_eq_iff (key r) k).0 h) (ground arith)
    | inr h ↦ elim (Bool-cases (keys_eq (key r) j)) [
      | inl g ↦ let n : keys_eq k j ≡ false = apart (key r) k j h g in rw (h, n, g) refl
      | inr g ↦ rw (h, g) (at-upsert k j new change rows e keeps)
    ]
  ]
    where
      apart : (i k j : List Text) → keys_eq i k ≡ false → keys_eq i j ≡ true → keys_eq k j ≡ false
      apart i k j h g = elim (Bool-cases (keys_eq k j)) [
        | inr n ↦ n
        | inl n ↦ absurd (cc (h, g, (keys_eq_iff k j).0 n))
      ]

  -- An update that keeps the keys changes the row of each key as it says.
  pub at-update_where :
      (k : List Text) (here : R → Bool) (change : R → R) (rows : List R)
      → ((r : R) → key (change r) ≡ key r)
      → at k (update_where here change rows)
        ≡ Option.map (λ r. if here r then change r else r) (at k rows)
  unfolding update_where
  at-update_where k here change [] keeps = refl
  at-update_where k here change (r ∷ rows) keeps =
      rw (kept here change r (keeps r)) (elim (Bool-cases (keys_eq (key r) k)) [
        | inl h ↦ rw h refl
        | inr h ↦ rw h (at-update_where k here change rows keeps)
      ])

  -- A deletion by the key takes the rows of the keys that it names, and no other.
  pub at-delete_where :
      (k : List Text) (here : R → Bool) (named : List Text → Bool) (rows : List R)
      → ((r : R) → here r ≡ named (key r))
      → at k (delete_where here rows) ≡ (if named k then none else at k rows)
  unfolding delete_where
  at-delete_where k here named [] by_key = ground arith
  at-delete_where k here named (r ∷ rows) by_key =
      let ih = at-delete_where k here named rows by_key in
      elim (Bool-cases (keys_eq (key r) k)) [
        | inl h ↦
            let e : here r ≡ named k = by_key r ∙ ap named ((keys_eq_iff (key r) k).0 h) in
            elim (Bool-cases (named k)) [
              | inl n ↦ rw (e, n) (ih ∙ (rw n refl))
              | inr n ↦ rw (e, n, h) refl
            ]
        | inr h ↦ elim (Bool-cases (here r)) [ inl g ↦ rw (g, h) ih | inr g ↦ rw (g, h) ih ]
      ]

  pub Distinct-upsert :
      (k : List Text) (new : R) (change : R → R) (rows : List R)
      → key new ≡ k
      → ((r : R) → key (change r) ≡ key r)
      → Distinct rows
      → Distinct (upsert (λ r. keys_eq (key r) k) new change rows)
  unfolding upsert
  Distinct-upsert k new change [] e keeps d = (refl, tt)
  Distinct-upsert k new change (r ∷ rows) e keeps (f, d) = elim (Bool-cases (keys_eq (key r) k)) [
    | inl h ↦ rw h (rw (keeps r) f, d)
    | inr h ↦ rw h (
      at-upsert k (key r) new change rows e keeps ∙ (rw (swapped r k h) f),
      Distinct-upsert k new change rows e keeps d,
    )
  ]

  at-update_none :
      (here : R → Bool) (change : R → R) (r : R) (rows : List R)
      → ((x : R) → key (change x) ≡ key x)
      → at (key r) rows ≡ none
      → at (key (if here r then change r else r)) (update_where here change rows) ≡ none
  at-update_none here change r rows keeps f =
      rw (kept here change r (keeps r))
        (at-update_where (key r) here change rows keeps ∙ (rw f refl))

  pub Distinct-update_where :
      (here : R → Bool) (change : R → R) (rows : List R)
      → ((r : R) → key (change r) ≡ key r)
      → Distinct rows
      → Distinct (update_where here change rows)
  unfolding update_where
  Distinct-update_where here change [] keeps d = tt
  Distinct-update_where here change (r ∷ rows) keeps (f, d) =
      (at-update_none here change r rows keeps f, Distinct-update_where here change rows keeps d)

  at-delete_none :
      (k : List Text) (here : R → Bool) (rows : List R)
      → at k rows ≡ none
      → at k (delete_where here rows) ≡ none
  unfolding delete_where
  at-delete_none k here [] h = refl
  at-delete_none k here (r ∷ rows) h = elim (Bool-cases (keys_eq (key r) k)) [
    | inl e ↦ cc
    | inr e ↦
        let f : at k rows ≡ none = rw e at h in
        elim (Bool-cases (here r)) [
          | inl g ↦ rw g (at-delete_none k here rows f)
          | inr g ↦ rw (g, e) (at-delete_none k here rows f)
        ]
  ]

  pub Distinct-delete_where :
      (here : R → Bool) (rows : List R) → Distinct rows → Distinct (delete_where here rows)
  unfolding delete_where
  Distinct-delete_where here [] d = tt
  Distinct-delete_where here (r ∷ rows) (f, d) = elim (Bool-cases (here r)) [
    | inl e ↦ rw e (Distinct-delete_where here rows d)
    | inr e ↦ rw e (at-delete_none (key r) here rows f, Distinct-delete_where here rows d)
  ]
