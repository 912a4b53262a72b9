-- ===== src/Text/Laws.antt =====
-- Laws of the text functions.
use lamdis_core.Prelude.{
  ℕ, ◌≡◌, refl, ◌↔◌, Bool, true, false, some, [], ◌∷◌, ◌++◌, arith, ◌==◌, All,
}
use lamdis_core.Text.{Text, text_eq, trim_left, trim_right, trim_space, is_space, cut}

pub text_eq_refl : (s : Text) → text_eq s s ≡ true
unfolding text_eq
text_eq_refl [] = refl
text_eq_refl (a ∷ s) = ground (arith, text_eq_refl s)

pub eq_of_text_eq : (s t : Text) → text_eq s t ≡ true → s ≡ t
unfolding text_eq
eq_of_text_eq [] [] h = refl
eq_of_text_eq [] (b ∷ t) h = cc
eq_of_text_eq (a ∷ s) [] h = cc
eq_of_text_eq (a ∷ s) (b ∷ t) h = ground (arith, eq_of_text_eq s t)

pub text_eq_iff : (s t : Text) → (text_eq s t ≡ true) ↔ (s ≡ t)
text_eq_iff s t = (eq_of_text_eq s t, λ e. rw e (text_eq_refl t))

-- A text none of whose characters passes the test is left alone.
module _ (p : ℕ → Bool) where
  pub trim_left_none : (s : Text) → All (λ c. p c ≡ false) s → trim_left p s ≡ s
  unfolding trim_left
  trim_left_none [] h = refl
  trim_left_none (c ∷ s) (e, h) = rw e

  pub trim_right_none : (s : Text) → All (λ c. p c ≡ false) s → trim_right p s ≡ s
  unfolding trim_right
  trim_right_none [] h = refl
  trim_right_none (c ∷ s) (e, h) = rw (e, trim_right_none s h)

pub trim_space_none : (s : Text) → All (λ c. is_space c ≡ false) s → trim_space s ≡ s
unfolding trim_space
trim_space_none s h = rw (trim_left_none is_space s h) (trim_right_none is_space s h)

-- `cut` at a separator that the first part does not hold.
pub cut-append :
    (d : ℕ) (s t : Text) → All (λ c. (c == d) ≡ false) s → cut d (s ++ d ∷ t) ≡ (s, some t)
unfolding cut
cut-append d [] t h = ground arith
cut-append d (c ∷ s) t (e, h) = ground (arith, cut-append d s t h)
