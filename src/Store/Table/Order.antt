-- ===== src/Store/Table/Order.antt =====
-- ORDER BY
use lamdis_core.Prelude.{◌≡◌, ◌⊎◌, inl, inr, Bool, List, [], ◌∷◌, if◌then◌else◌, Bool-cases, Memᴰ}
use lamdis_core.Text.{Text}

-- ORDER BY a text, in the collation of the database
module _ {R : Type 0} (le : Text → Text → Bool) (key : R → Text) where
  unfoldable pub place : R → List R → List R
  place r [] = r ∷ []
  place r (x ∷ rows) =
      let rest = place r rows in if le (key r) (key x) then r ∷ x ∷ rows else x ∷ rest

  unfoldable pub order_by : List R → List R
  unfolding place
  order_by [] = []
  order_by (r ∷ rows) = place r (order_by rows)

  mem-place : (a r : R) (rows : List R) → (a ≡ r) ⊎ Memᴰ a rows → Memᴰ a (place r rows)
  unfolding place
  mem-place a r [] (inl e) = Memᴰ.head e
  mem-place a r [] (inr m) = elim m [ ]
  mem-place a r (x ∷ rows) h = elim (Bool-cases (le (key r) (key x))) [
    | inl e ↦ rw e (elim h [ inl q ↦ Memᴰ.head q | inr m ↦ Memᴰ.tail m ])
    | inr e ↦ rw e (mem_behind a r x rows h (λ k. mem-place a r rows k))
  ]
    where
      mem_behind :
          (a r x : R) (rows : List R)
          → (a ≡ r) ⊎ Memᴰ a (x ∷ rows)
          → ((a ≡ r) ⊎ Memᴰ a rows → Memᴰ a (place r rows))
          → Memᴰ a (x ∷ place r rows)
      mem_behind a r x rows (inl q) ih = Memᴰ.tail (ih (inl q))
      mem_behind a r x rows (inr (Memᴰ.head q)) ih = Memᴰ.head q
      mem_behind a r x rows (inr (Memᴰ.tail m)) ih = Memᴰ.tail (ih (inr m))

  -- Sorting loses no row.
  pub mem-order_by : (a : R) (rows : List R) → Memᴰ a rows → Memᴰ a (order_by rows)
  unfolding order_by
  mem-order_by a [] m = elim m [ ]
  mem-order_by a (r ∷ rows) (Memᴰ.head e) = mem-place a r (order_by rows) (inl e)
  mem-order_by a (r ∷ rows) (Memᴰ.tail m) =
      mem-place a r (order_by rows) (inr (mem-order_by a rows m))
