-- ===== src/Access/Keys/Table.antt =====
-- The table of the API keys, as far as one key is concerned.
use face_recognition.Prelude.{
  ◌≡◌, refl, ap, ◌∙◌, All, inl, inr, true, false, not, ◌&&◌, String, none, some, List, [], ◌∷◌,
  ◌++◌, find, select, map, nat_beq, nat_beq_iff, arith, if◌then◌else◌, Bool-cases,
}
use text.Mathlib.Text.{◌==◌ as str_eq}
use mathlib.Core.Option.{some-injective}
use face_recognition.Store.Rows.{Uuid, Time, ApiKey}
use face_recognition.Store.Persons.{any}

module _ (h : String) where
  pub find_fresh :
      (keys : List ApiKey) (k : ApiKey)
      → any (λ l. str_eq l.key_hash h) keys ≡ false
      → find (λ l. str_eq l.key_hash h && l.is_active) (keys ++ k ∷ [])
        ≡ (if str_eq k.key_hash h && k.is_active then some k else none)
  find_fresh [] k fresh = refl
  find_fresh (l ∷ keys) k fresh = ground (arith, find_fresh keys k)

-- The key stands in the table, active, under the hash, and no key of another id has the hash.
pub record Stands (h : String) (id : Uuid) (keys : List ApiKey) : Type 0 where
  pub found :
      (k : ApiKey) × (find (λ l. str_eq l.key_hash h && l.is_active) keys ≡ some k) × (k.id ≡ id)
  pub sole : All (λ l. str_eq l.key_hash h ≡ true → l.id ≡ id) keys

-- `touch`
abbrev pub touched : Uuid → Time → List ApiKey → List ApiKey
touched id now keys =
    map (λ l. if nat_beq l.id id then record l { last_used_at = some now } else l) keys

module _ (h : String) (id : Uuid) where
  pub sole-fresh :
      (keys : List ApiKey) (k : ApiKey)
      → any (λ l. str_eq l.key_hash h) keys ≡ false
      → k.id ≡ id
      → All (λ l. str_eq l.key_hash h ≡ true → l.id ≡ id) (keys ++ k ∷ [])
  sole-fresh [] k fresh own = ((λ e. own), tt)
  sole-fresh (l ∷ keys) k fresh own =
      ((λ same. absurd (ground (arith, same))), sole-fresh keys k (ground arith) own)

  sole-touched :
      (now : Time) (keys : List ApiKey)
      → All (λ l. str_eq l.key_hash h ≡ true → l.id ≡ id) keys
      → All (λ l. str_eq l.key_hash h ≡ true → l.id ≡ id) (touched id now keys)
  sole-touched now [] s = tt
  sole-touched now (l ∷ keys) s = elim (Bool-cases (nat_beq l.id id)) [
    | inl own ↦ rw own (s.0, sole-touched now keys s.1)
    | inr other ↦ rw other (s.0, sole-touched now keys s.1)
  ]

  find-touched :
      (now : Time) (keys : List ApiKey) {k : ApiKey}
      → find (λ l. str_eq l.key_hash h && l.is_active) keys ≡ some k
      → k.id ≡ id
      → (m : ApiKey) × (find (λ l. str_eq l.key_hash h && l.is_active) (touched id now keys)
          ≡ some m)
        × (m.id ≡ id)
  find-touched now [] e own = absurd (cc e)
  find-touched now (l ∷ keys) {k} e own = elim (Bool-cases (str_eq l.key_hash h && l.is_active)) [
    | inl here ↦ elim (Bool-cases (nat_beq l.id id)) [
      | inl same ↦
          (record l { last_used_at = some now }, rw (same, here) refl, (nat_beq_iff l.id id).0 same)
      | inr other ↦
          (l, rw (other, here) refl, ap (λ m. m.id) (some-injective l k (rw here at e)) ∙ own)
    ]
    | inr later ↦
        let (m, there, same) = find-touched now keys {k = k} (rw later at e) own in
        elim (Bool-cases (nat_beq l.id id)) [
          | inl here ↦ (m, rw (here, later) there, same)
          | inr other ↦ (m, rw (other, later) there, same)
        ]
  ]

  pub touched-Stands :
      (now : Time) (keys : List ApiKey) → Stands h id keys → Stands h id (touched id now keys)
  touched-Stands now keys s = record {
    found = find-touched now keys {k = s.found.0} s.found.1 s.found.2;
    sole = sole-touched now keys s.sole;
  }

  -- Without the keys of the id, none has the hash.
  pub find_removed :
      (keys : List ApiKey)
      → All (λ l. str_eq l.key_hash h ≡ true → l.id ≡ id) keys
      → find (λ l. str_eq l.key_hash h && l.is_active) (select (λ l. not (nat_beq l.id id)) keys)
        ≡ none
  find_removed [] s = refl
  find_removed (l ∷ keys) s = elim (Bool-cases (nat_beq l.id id)) [
    | inl own ↦ rw own (find_removed keys s.1)
    | inr other ↦ elim (Bool-cases (str_eq l.key_hash h)) [
      | inl same ↦ absurd (ground (arith, s.0 same, nat_beq_iff l.id id))
      | inr different ↦ rw (other, different) (find_removed keys s.1)
    ]
  ]

  pub find_by_id :
      (keys : List ApiKey) {k : ApiKey}
      → find (λ l. str_eq l.key_hash h && l.is_active) keys ≡ some k
      → k.id ≡ id
      → (l : ApiKey) × (find (λ l. nat_beq l.id id) keys ≡ some l) × (l.id ≡ id)
  find_by_id [] e own = absurd (cc e)
  find_by_id (l ∷ keys) {k} e own = elim (Bool-cases (nat_beq l.id id)) [
    | inl same ↦ (l, rw same refl, (nat_beq_iff l.id id).0 same)
    | inr other ↦ elim (Bool-cases (str_eq l.key_hash h && l.is_active)) [
      | inl here ↦ absurd (
          ground
            (arith, ap (λ m. m.id) (some-injective l k (rw here at e)) ∙ own, nat_beq_iff l.id id))
      | inr later ↦
          let (m, there, same) = find_by_id keys {k = k} (rw later at e) own in
          (m, rw other there, same)
    ]
  ]
