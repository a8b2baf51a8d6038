-- ===== src/Migrations/Tests.antt =====
-- The migrations beside other objects.
use face_recognition.Prelude.{[], ◌∷◌}
use face_recognition.Migrations.{Catalog, extension, table}

abbrev others : Catalog
others = extension "postgis" ∷ table "spatial_ref_sys" ∷ []
