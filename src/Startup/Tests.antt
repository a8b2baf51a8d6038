-- ===== src/Startup/Tests.antt =====
-- A start with a first admin on the sample data.
use face_recognition.Prelude.{ℕ, ◌+◌, ◌*◌, ◌<◌, ◌≡◌, refl, true, false, none, some, Option}
use text.Mathlib.Text.{◌==◌ as str_eq}
use face_recognition.Prelude.Int.{ℤ, pos}
use face_recognition.Prelude.Float.{whole}
use face_recognition.Core.Role.{Role}
use face_recognition.Core.Errors.{Result, ok}
use face_recognition.Store.Rows.{Time, Database}
use face_recognition.Store.Session.{get_db}
use face_recognition.Store.Persons.{any}
use face_recognition.Vision.Types.{Parts}
use face_recognition.Vision.Build.{parts_of, from_settings, onnx_providers_list}
use face_recognition.Vision.Sample.{net, linalg, warp, arcface, runtime, model_settings}
use face_recognition.Access.Security.{Claims}
use face_recognition.Access.Accounts.{Token, authenticate}
use face_recognition.Access.Guards.{get_current_user}
use face_recognition.Startup.Bootstrap.{start, load_pipeline-from_settings, started_admin}
use face_recognition.Samples.{cv, gallery, crypto, crypto-IsSoundCrypto}
use face_recognition.Prelude.{[], ◌∷◌}
use face_recognition.Prelude.Codes.{codes, strip}

-- The providers of a setting with blanks and an empty part.
providers_read : onnx_providers_list (codes "CUDA, CPU ,") ≡ codes "CUDA" ∷ codes "CPU" ∷ []
unfolding onnx_providers_list strip
providers_read = refl

abbrev parts : Parts ℤ ℕ
parts = parts_of whole linalg cv warp net arcface (pos 4)

abbrev started : ℕ → Database ℤ → Result (Option (Parts ℤ ℕ)) × Database ℤ
started = start whole linalg cv warp runtime crypto none "root" "secret" model_settings

started_admin_example :
    ((started 5 gallery).0 ≡ ok (some parts))
    × (any (λ u. str_eq u.username "root") gallery.users ≡ true → (started 5 gallery).1 ≡ gallery)
    × (any (λ u. str_eq u.username "root") gallery.users ≡ false
        → (now later : Time) (expire_minutes : ℕ) → later < now + expire_minutes * 60
        → (token : Token Claims) × ((get_db
              (authenticate crypto now expire_minutes "root" "secret")
              (started 5 gallery).1).0
            ≡ ok token)
          × (get_current_user crypto later token.access_token
              ≡ ok (record { sub = "root"; role = Role.admin })))
    × ((again : ℕ) → started again (started 5 gallery).1 ≡ (ok (some parts), (started 5 gallery).1))
unfolding from_settings
started_admin_example =
    started_admin whole linalg cv warp runtime crypto none "root" "secret" model_settings
      (load_pipeline-from_settings whole linalg cv warp runtime crypto none "root" "secret"
        model_settings refl refl)
      refl refl crypto-IsSoundCrypto 5 gallery
