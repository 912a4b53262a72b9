-- ===== src/Tests/Texts.antt =====
-- Runs of the slugs.
use lamdis_core.Text.{codes}
use lamdis_core.Slug.{slug}
use lamdis_core.Slug.Shape.{IsSlug, slug-IsSlug}

slug-IsSlug_example : IsSlug (slug (codes " CatcherTest  Shop! "))
slug-IsSlug_example = slug-IsSlug (codes " CatcherTest  Shop! ")
