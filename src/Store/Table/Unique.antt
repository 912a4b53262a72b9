-- ===== src/Store/Table/Unique.antt =====
-- Rows of a table in which each key stands once.

use lamdis_core.Prelude.{
  ◌≡◌, inl, inr, refl, Bool, true, false, ◌&&◌, none, some, List, [], ◌∷◌, arith, any, Bool-cases,
  Memᴰ,
}
use lamdis_core.Text.{Text}
use lamdis_core.Store.Table.Statements.{keys_eq, keys_eq_refl, keys_eq_iff}
use lamdis_core.Store.Table.Lookup.{at, Distinct}

module _ {R : Type 0} (key : R → List Text) where
  -- Where a key stands once, its row is any row of it.
  pub at-mem :
      (rows : List R) (r : R) → Distinct key rows → Memᴰ r rows → at key (key r) rows ≡ some r
  at-mem [] r d m = elim m [ ]
  at-mem (x ∷ rows) r (f, d) (Memᴰ.head e) = rw (e, keys_eq_refl (key x)) refl
  at-mem (x ∷ rows) r (f, d) (Memᴰ.tail m) = elim (Bool-cases (keys_eq (key x) (key r))) [
    | inl e ↦
        let g : at key (key r) rows ≡ none = rw (← (keys_eq_iff (key x) (key r)).0 e) f in
        absurd (cc (g, at-mem rows r d m))
    | inr e ↦ rw e (at-mem rows r d m)
  ]

  pub mem_unique :
      (rows : List R) (a b : R)
      → Distinct key rows
      → Memᴰ a rows
      → Memᴰ b rows
      → key a ≡ key b
      → a ≡ b
  mem_unique rows a b d m n e =
      let p : at key (key b) rows ≡ some a = rw (← e) (at-mem rows a d m) in
      cc (p, at-mem rows b d n)

  at_head :
      (k : List Text) (r : R) (rows : List R)
      → keys_eq (key r) k ≡ true
      → at key k (r ∷ rows) ≡ some r
  at_head k r rows e = rw e refl

  pub any-none :
      (k : List Text) (test : R → Bool) (rows : List R)
      → at key k rows ≡ none
      → any (λ r. keys_eq (key r) k && test r) rows ≡ false
  any-none k test [] h = refl
  any-none k test (r ∷ rows) h = elim (Bool-cases (keys_eq (key r) k)) [
    | inl e ↦ absurd (cc (h, at_head k r rows e))
    | inr e ↦ rw e (any-none k test rows (rw e at h))
  ]

  -- A test of the rows of one key is a test of its row.
  pub any-at :
      (k : List Text) (test : R → Bool) (rows : List R) (r : R)
      → Distinct key rows
      → at key k rows ≡ some r
      → any (λ x. keys_eq (key x) k && test x) rows ≡ test r
  any-at k test [] r d h = cc
  any-at k test (x ∷ rows) r (f, d) h = elim (Bool-cases (keys_eq (key x) k)) [
    | inl e ↦
        let g : at key k rows ≡ none = rw (← (keys_eq_iff (key x) k).0 e) f in
        let q : some x ≡ some r = rw e at h in rw (e, any-none k test rows g) (ground arith)
    | inr e ↦ rw e (any-at k test rows r d (rw e at h))
  ]
