-- ===== src/Prelude/Lists.antt =====
-- Lists measured by native numbers, under the library's names, and lists of texts as sets.
use Prim.Native.Nat.{ℕ, suc}
use mathlib.Core.Path.{◌≡◌, refl}
use mathlib.Core.Logic.{◌⊎◌, inl, inr}
use mathlib.Core.Bool.{Bool, true, false, ◌&&◌, ◌||◌}
use mathlib.Core.Option.{Option, none, some}
use mathlib.Core.List.{List, [], ◌∷◌, ◌++◌, Memᴰ}
use native.Mathlib.Omega.{arith}
use lamdis_core.Prelude.Tests.{if◌then◌else◌, Bool-cases}

module _ {ℓ} {A : Type ℓ} where
  abbrev pub length : List A → ℕ
  length [] = 0
  length (x ∷ xs) = suc (length xs)

  abbrev pub null : List A → Bool
  null [] = true
  null (x ∷ xs) = false

  abbrev pub any : (A → Bool) → List A → Bool
  any p [] = false
  any p (x ∷ xs) = p x || any p xs

  abbrev pub all : (A → Bool) → List A → Bool
  all p [] = true
  all p (x ∷ xs) = p x && all p xs

  -- The first entry that passes the test.
  abbrev pub find : (A → Bool) → List A → Option A
  find p [] = none
  find p (x ∷ xs) = if p x then some x else find p xs

  -- The entries that pass the test, in order.
  abbrev pub filter_by : (A → Bool) → List A → List A
  filter_by p [] = []
  filter_by p (x ∷ xs) = let rest = filter_by p xs in if p x then x ∷ rest else rest

  abbrev pub All {κ} : (A → Type κ) → List A → Type κ
  All P [] = Unit
  All P (x ∷ xs) = P x × All P xs

  -- The entry that is found passes the test and stands in the list.
  pub find_sound :
      (p : A → Bool) (xs : List A) (a : A) → find p xs ≡ some a → (p a ≡ true) × Memᴰ a xs
  find_sound p [] a h = cc
  find_sound p (x ∷ xs) a h = elim (Bool-cases (p x)) [
    | inl e ↦ (ground arith, Memᴰ.head (ground arith))
    | inr e ↦ let (q, m) = find_sound p xs a (ground arith) in (q, Memᴰ.tail m)
  ]

module _ {ℓ} {A : Type ℓ} (p : A → Bool) where
  -- Where an entry passes, one is found, and it passes.
  pub find_complete :
      (xs : List A) (a : A) → Memᴰ a xs → p a ≡ true → (b : A) × (find p xs ≡ some b) × (p b ≡ true)
  find_complete [] a m h = elim m [ ]
  find_complete (x ∷ xs) a (Memᴰ.head e) h = let q : p x ≡ true = rw (← e) h in (x, rw q refl, q)
  find_complete (x ∷ xs) a (Memᴰ.tail m) h = elim (Bool-cases (p x)) [
    | inl e ↦ (x, rw e refl, e)
    | inr e ↦ let (b, f, q) = find_complete xs a m h in (b, rw e f, q)
  ]

  -- An entry at the end is found where none before it passes.
  pub find-append_last :
      (xs : List A) (a : A) → find p xs ≡ none → p a ≡ true → find p (xs ++ a ∷ []) ≡ some a
  find-append_last [] a h e = rw e
  find-append_last (x ∷ xs) a h e = elim (Bool-cases (p x)) [
    | inl f ↦ ground arith
    | inr f ↦ rw f (find-append_last xs a (ground arith) e)
  ]

  mem_if :
      (x a : A) (rest : List A) (b : Bool)
      → p x ≡ b
      → Memᴰ a (if b then x ∷ rest else rest)
      → ((a ≡ x) × (p x ≡ true)) ⊎ Memᴰ a rest
  mem_if x a rest true e (Memᴰ.head q) = inl (q, e)
  mem_if x a rest true e (Memᴰ.tail m) = inr m
  mem_if x a rest false e m = inr m

  -- What is kept passed the test and was there.
  pub mem-filter_by : (xs : List A) (a : A) → Memᴰ a (filter_by p xs) → (p a ≡ true) × Memᴰ a xs
  mem-filter_by [] a m = elim m [ ]
  mem-filter_by (x ∷ xs) a m = elim (mem_if x a (filter_by p xs) (p x) refl m) [
    | inl (q, e) ↦ (rw q e, Memᴰ.head q)
    | inr n ↦ let (q, k) = mem-filter_by xs a n in (q, Memᴰ.tail k)
  ]

  -- What was there and passes the test is kept.
  pub filter_by-mem : (xs : List A) (a : A) → Memᴰ a xs → p a ≡ true → Memᴰ a (filter_by p xs)
  filter_by-mem [] a m h = elim m [ ]
  filter_by-mem (x ∷ xs) a (Memᴰ.head e) h = let q : p x ≡ true = rw (← e) h in rw q (Memᴰ.head e)
  filter_by-mem (x ∷ xs) a (Memᴰ.tail m) h = elim (Bool-cases (p x)) [
    | inl e ↦ rw e (Memᴰ.tail (filter_by-mem xs a m h))
    | inr e ↦ rw e (filter_by-mem xs a m h)
  ]

  pub any_sound : (xs : List A) → any p xs ≡ true → (a : A) × Memᴰ a xs × (p a ≡ true)
  any_sound [] h = cc
  any_sound (x ∷ xs) h = elim (Bool-cases (p x)) [
    | inl e ↦ (x, Memᴰ.head refl, e)
    | inr e ↦ let (a, m, q) = any_sound xs (ground arith) in (a, Memᴰ.tail m, q)
  ]

  pub any_complete : (xs : List A) (a : A) → Memᴰ a xs → p a ≡ true → any p xs ≡ true
  any_complete [] a m h = elim m [ ]
  any_complete (x ∷ xs) a (Memᴰ.head e) h = rw (← e) (rw h)
  any_complete (x ∷ xs) a (Memᴰ.tail m) h = ground (arith, any_complete xs a m h)

  pub all_sound : (xs : List A) (a : A) → all p xs ≡ true → Memᴰ a xs → p a ≡ true
  all_sound [] a h m = elim m [ ]
  all_sound (x ∷ xs) a h (Memᴰ.head e) = rw e (ground arith)
  all_sound (x ∷ xs) a h (Memᴰ.tail m) = all_sound xs a (ground arith) m

  pub all_complete : (xs : List A) → ((a : A) → Memᴰ a xs → p a ≡ true) → all p xs ≡ true
  all_complete [] f = refl
  all_complete (x ∷ xs) f = rw (f x (Memᴰ.head refl)) (all_complete xs (λ a m. f a (Memᴰ.tail m)))
