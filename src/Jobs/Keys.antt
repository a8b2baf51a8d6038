-- ===== src/Jobs/Keys.antt =====
-- The keys of `RedisJobStore`: no two jobs share one, and no hash's key is a list's.
use text.Mathlib.TextLemmas.{append_cancel_left, append_cancel_right}
use face_recognition.Prelude.{ℕ, ◌≡◌, ◌≢◌, refl, List, [], ◌∷◌, ◌++◌, All, some}
use face_recognition.Prelude.Codes.{codes, codes-append}
use face_recognition.Jobs.Defs.{Uuid, Time}
use face_recognition.Jobs.Commands.{Commands}
use face_recognition.Jobs.Redis.{Formats, hash_key, errors_key}

-- What the texts are documented to be: `str` of an id names it and has no colon, `fromisoformat` reads
-- what `isoformat` writes, which is not empty.
pub record IsFormats (formats : Formats) : Type 0 where
  pub uuid_text_inj : (i j : Uuid) → formats.uuid_text i ≡ formats.uuid_text j → i ≡ j
  pub uuid_text_plain : (i : Uuid) → All (λ c. c ≢ b':') (codes (formats.uuid_text i))
  pub iso_reads : (t : Time) → formats.fromisoformat (formats.isoformat t) ≡ some t
  pub iso_ne_empty : (t : Time) → formats.isoformat t ≢ ""

not_plain : (cs ds : List ℕ) → All (λ c. c ≢ b':') (cs ++ b':' ∷ ds) → ⊥
not_plain [] ds h = h.0 refl
not_plain (c ∷ cs) ds h = not_plain cs ds h.1

module _ {R : Type 0} (redis : Commands R) (formats : Formats) (ttl : ℕ)
    (good : IsFormats formats) where
  pub hash_key_inj :
      (i j : Uuid) → hash_key redis formats ttl i ≡ hash_key redis formats ttl j → i ≡ j
  unfolding hash_key
  hash_key_inj i j e = good.uuid_text_inj i j (append_cancel_left "fr:import:job:" _ _ e)

  pub errors_key_inj :
      (i j : Uuid) → errors_key redis formats ttl i ≡ errors_key redis formats ttl j → i ≡ j
  unfolding errors_key
  errors_key_inj i j e =
      good.uuid_text_inj i j
        (append_cancel_right _ _ ":errors" (append_cancel_left "fr:import:job:" _ _ e))

  pub hash_key-ne-errors_key :
      (i j : Uuid) → hash_key redis formats ttl i ≢ errors_key redis formats ttl j
  unfolding hash_key errors_key
  hash_key-ne-errors_key i j e =
      let same = append_cancel_left "fr:import:job:" (formats.uuid_text i) _ e in
      let plain = good.uuid_text_plain i in
      not_plain (codes (formats.uuid_text j)) _
        (rw (same, codes-append (formats.uuid_text j) ":errors") at plain)
