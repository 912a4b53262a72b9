-- ===== src/Store/Table/Statements.antt =====
-- INSERT … ON CONFLICT, UPDATE … WHERE and DELETE … WHERE on a list of rows.
use lamdis_core.Prelude.{
  ◌≡◌, ◌↔◌, inl, inr, refl, Bool, true, false, not, ◌&&◌, Option, none, some, List, [], ◌∷◌, map,
  arith, if◌then◌else◌, filter_by, Bool-cases, Memᴰ,
}
use lamdis_core.Text.{Text, text_eq}
use lamdis_core.Text.Laws.{text_eq_iff, text_eq_refl}

unfoldable pub keys_eq : List Text → List Text → Bool
keys_eq [] [] = true
keys_eq (a ∷ s) (b ∷ t) = text_eq a b && keys_eq s t
keys_eq _ _ = false

pub keys_eq_refl : (s : List Text) → keys_eq s s ≡ true
unfolding keys_eq
keys_eq_refl [] = refl
keys_eq_refl (a ∷ s) = ground (arith, text_eq_refl a, keys_eq_refl s)

pub eq_of_keys_eq : (s t : List Text) → keys_eq s t ≡ true → s ≡ t
unfolding keys_eq
eq_of_keys_eq [] [] h = refl
eq_of_keys_eq [] (b ∷ t) h = cc
eq_of_keys_eq (a ∷ s) [] h = cc
eq_of_keys_eq (a ∷ s) (b ∷ t) h = ground (arith, text_eq_iff a b, eq_of_keys_eq s t)

pub keys_eq_iff : (s t : List Text) → (keys_eq s t ≡ true) ↔ (s ≡ t)
keys_eq_iff s t = (eq_of_keys_eq s t, λ e. rw e (keys_eq_refl t))

-- What a conflict makes of the entry of the key that is there, and otherwise the new one.
abbrev pub merge {ℓ} : {A : Type ℓ} → A → (A → A) → Option A → A
merge new change none = new
merge new change (some a) = change a

module _ {R : Type 0} where
  -- INSERT … ON CONFLICT DO UPDATE, where `here` is the test of the conflict
  unfoldable pub upsert : (R → Bool) → R → (R → R) → List R → List R
  upsert here new change [] = new ∷ []
  upsert here new change (r ∷ rows) =
      if here r then change r ∷ rows else r ∷ upsert here new change rows

  -- UPDATE … WHERE
  unfoldable pub update_where : (R → Bool) → (R → R) → List R → List R
  update_where here change rows = map (λ r. if here r then change r else r) rows

  -- DELETE … WHERE
  unfoldable pub delete_where : (R → Bool) → List R → List R
  delete_where here rows = filter_by (λ r. not (here r)) rows

  -- A row that an update leaves alone stays.
  pub mem-update_where :
      (here : R → Bool) (change : R → R) (rows : List R) (r : R)
      → here r ≡ false
      → Memᴰ r rows
      → Memᴰ r (update_where here change rows)
  unfolding update_where
  mem-update_where here change [] r h m = elim m [ ]
  mem-update_where here change (x ∷ rows) r h (Memᴰ.head e) = Memᴰ.head (ground arith)
  mem-update_where here change (x ∷ rows) r h (Memᴰ.tail m) =
      Memᴰ.tail (mem-update_where here change rows r h m)

  -- A row after an update is one that it left alone, or the change of one.
  pub mem-update_where_inv :
      (here : R → Bool) (change : R → R) (rows : List R) (r : R)
      → Memᴰ r (update_where here change rows)
      → (x : R) × Memᴰ x rows × (r ≡ (if here x then change x else x))
  unfolding update_where
  mem-update_where_inv here change [] r m = elim m [ ]
  mem-update_where_inv here change (x ∷ rows) r (Memᴰ.head e) = (x, Memᴰ.head refl, e)
  mem-update_where_inv here change (x ∷ rows) r (Memᴰ.tail m) =
      let (y, n, e) = mem-update_where_inv here change rows r m in (y, Memᴰ.tail n, e)

  pub mem-delete_where :
      (here : R → Bool) (rows : List R) (r : R)
      → here r ≡ false
      → Memᴰ r rows
      → Memᴰ r (delete_where here rows)
  unfolding delete_where
  mem-delete_where here [] r h m = elim m [ ]
  mem-delete_where here (x ∷ rows) r h (Memᴰ.head e) =
      let q : here x ≡ false = rw (← e) h in rw q (Memᴰ.head e)
  mem-delete_where here (x ∷ rows) r h (Memᴰ.tail m) = elim (Bool-cases (here x)) [
    | inl e ↦ rw e (mem-delete_where here rows r h m)
    | inr e ↦ rw e (Memᴰ.tail (mem-delete_where here rows r h m))
  ]
