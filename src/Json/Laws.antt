-- ===== src/Json/Laws.antt =====
-- Laws of Go maps as values.
use lamdis_core.Prelude.{◌≡◌, refl, none, some, arith, if◌then◌else◌}
use lamdis_core.Text.{Text, text_eq}
use lamdis_core.Text.Laws.{text_eq_iff, text_eq_refl}
use lamdis_core.Json.{Value, nil, Fields, no_fields, field, get, get_or_nil, put}

module _ {F : Type 0} where
  pub get-put :
      (k j : Text) (v : Value F) (m : Fields F)
      → get j (put k v m) ≡ (if text_eq k j then some v else get j m)
  unfolding get put
  get-put k j v no_fields = refl
  get-put k j v (field i w m) =
      ground (arith, text_eq_iff k j, text_eq_iff i k, text_eq_iff i j, get-put k j v m)

  pub get-put_self : (k : Text) (v : Value F) (m : Fields F) → get k (put k v m) ≡ some v
  get-put_self k v m = simp (get-put, text_eq_refl)

  -- The two reads of a map agree.
  pub get_or_nil_lem :
      (k : Text) (m : Fields F) → get_or_nil k m ≡ (elim (get k m) [ none ↦ nil | some v ↦ v ])
  unfolding get get_or_nil
  get_or_nil_lem k no_fields = refl
  get_or_nil_lem k (field j w m) = ground (arith, get_or_nil_lem k m)
