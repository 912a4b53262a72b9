-- ===== src/Slug/Tests.antt =====
-- Runs of the slug functions.
use lamdis_core.Prelude.{◌≡◌, refl}
use lamdis_core.Text.{codes, trim, trim_space, to_lower, contains, cut, split, text_eq}
use lamdis_core.Slug.{slug, slug_segment, slugify, derive_short, derive_name}

slug_runs : slug (codes " CatcherTest  Shop! ") ≡ codes "catcher-test-shop"
unfolding slug trim trim_space to_lower
slug_runs = refl

slugify_runs : slugify (codes "--?") ≡ codes "action"
unfolding slugify trim trim_space to_lower
slugify_runs = refl

derive_short_runs : derive_short (codes "/v1/getOrders/{id}?x=1") ≡ codes "get-orders"
unfolding derive_short slug trim trim_space to_lower contains cut split text_eq
derive_short_runs = refl

derive_name_runs : derive_name (codes "/v1/getOrders/{id}?x=1") ≡ codes "getorders"
unfolding derive_name slug_segment trim trim_space to_lower contains cut split text_eq
derive_name_runs = refl
