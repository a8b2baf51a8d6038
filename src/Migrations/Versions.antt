-- ===== src/Migrations/Versions.antt =====
-- The four migrations of alembic/versions. `SET maintenance_work_mem` changes no object, and the
-- UPDATE of 0004 is `seed_flags`.
use face_recognition.Prelude.{
  ℕ, Bool, true, false, String, Option, none, some, List, [], ◌∷◌, ◌++◌, map,
}
use face_recognition.Migrations.{
  SqlType, Column, Method, Object, extension, table, function, enum_type, column, index, trigger,
  Statement, create, create_if_absent, drop, drop_if_exists,
}

abbrev pub embedding_dim : ℕ
embedding_dim = 512

-- A column without a default and without a key.
abbrev plain : String → SqlType → Bool → Column
plain name sql_type is_nullable = record {
  name = name;
  sql_type = sql_type;
  is_nullable = is_nullable;
  server_default = none;
  is_primary_key = false;
  references = none;
}

abbrev defaulted : String → SqlType → String → Column
defaulted name sql_type value = record (plain name sql_type false) { server_default = some value }

abbrev id_column : Column
id_column = record (defaulted "id" SqlType.uuid "gen_random_uuid()") { is_primary_key = true }

-- `created_at` and `updated_at`.
abbrev times : List Column
times =
    defaulted "created_at" SqlType.timestamp "now()"
    ∷ defaulted "updated_at" SqlType.timestamp "now()"
    ∷ []

-- `op.create_table`
abbrev pub create_table : String → List Column → List Statement
create_table name columns = create (table name) ∷ map (λ c. create (column name c)) columns

abbrev users_columns : List Column
users_columns =
    id_column
    ∷ plain "username" (SqlType.varchar 128) false
    ∷ plain "hashed_password" (SqlType.varchar 255) false
    ∷ defaulted "role" (SqlType.enum_of "user_role") "viewer"
    ∷ defaulted "is_active" SqlType.boolean "true"
    ∷ times

abbrev persons_columns : List Column
persons_columns =
    id_column
    ∷ plain "external_id" (SqlType.varchar 128) true
    ∷ plain "full_name" (SqlType.varchar 255) false
    ∷ defaulted "metadata" SqlType.jsonb "{}"
    ∷ defaulted "is_active" SqlType.boolean "true"
    ∷ times

abbrev faces_columns : List Column
faces_columns =
    id_column
    ∷ record (plain "person_id" SqlType.uuid false) { references = some "persons" }
    ∷ plain "embedding" (SqlType.vector embedding_dim) false
    ∷ plain "det_score" SqlType.float false
    ∷ plain "quality" SqlType.float true
    ∷ plain "image_path" (SqlType.varchar 1024) true
    ∷ plain "bbox" SqlType.jsonb true
    ∷ times

abbrev logs_columns : List Column
logs_columns =
    id_column
    ∷ plain "action" (SqlType.enum_of "recognition_action") false
    ∷ plain "person_id" SqlType.uuid true
    ∷ plain "matched_face_id" SqlType.uuid true
    ∷ plain "similarity" SqlType.float true
    ∷ defaulted "success" SqlType.boolean "false"
    ∷ plain "user_id" (SqlType.varchar 255) true
    ∷ plain "client_ip" (SqlType.varchar 64) true
    ∷ plain "message" (SqlType.varchar 512) true
    ∷ times

abbrev keys_columns : List Column
keys_columns =
    id_column
    ∷ plain "name" (SqlType.varchar 128) false
    ∷ plain "key_hash" (SqlType.varchar 64) false
    ∷ plain "prefix" (SqlType.varchar 16) false
    ∷ defaulted "is_active" SqlType.boolean "true"
    ∷ plain "created_by" (SqlType.varchar 255) true
    ∷ plain "last_used_at" SqlType.timestamp true
    ∷ times

abbrev user_role : Object
user_role = enum_type "user_role" ("admin" ∷ "operator" ∷ "viewer" ∷ [])

abbrev recognition_action : Object
recognition_action =
    enum_type "recognition_action" ("register" ∷ "verify" ∷ "search" ∷ "import" ∷ [])

abbrev hnsw_index : String → Option String → Object
hnsw_index name condition = index name "faces" "embedding" (Method.hnsw 16 200 condition)

abbrev pub extensions : List Object
extensions = extension "vector" ∷ extension "uuid-ossp" ∷ extension "pgcrypto" ∷ []

abbrev pub upgrade_0001 : List Statement
upgrade_0001 =
    map create_if_absent extensions
    ++ create_if_absent user_role
      ∷ create_if_absent recognition_action
      ∷ create_table "users" users_columns
    ++ create (index "ix_users_username" "users" "username" Method.unique_btree)
      ∷ create_table "persons" persons_columns
    ++ create (index "ix_persons_external_id" "persons" "external_id" Method.unique_btree)
      ∷ create_table "faces" faces_columns
    ++ create (index "ix_faces_person_id" "faces" "person_id" Method.btree)
      ∷ create (hnsw_index "ix_faces_embedding_hnsw" none)
      ∷ create_table "recognition_logs" logs_columns
    ++ create (index "ix_recognition_logs_action" "recognition_logs" "action" Method.btree)
      ∷ create (index "ix_recognition_logs_user_id" "recognition_logs" "user_id" Method.btree)
      ∷ []

abbrev pub downgrade_0001 : List Statement
downgrade_0001 =
    drop (table "recognition_logs")
    ∷ drop_if_exists (hnsw_index "ix_faces_embedding_hnsw" none)
    ∷ drop (table "faces")
    ∷ drop (table "persons")
    ∷ drop (table "users")
    ∷ drop_if_exists recognition_action
    ∷ drop_if_exists user_role
    ∷ []

abbrev thumbnail : Object
thumbnail = column "faces" (plain "thumbnail" SqlType.binary true)

abbrev pub upgrade_0002 : List Statement
upgrade_0002 = create thumbnail ∷ []

abbrev pub downgrade_0002 : List Statement
downgrade_0002 = drop thumbnail ∷ []

abbrev pub upgrade_0003 : List Statement
upgrade_0003 =
    create_table "api_keys" keys_columns
    ++ create (index "ix_api_keys_key_hash" "api_keys" "key_hash" Method.unique_btree) ∷ []

abbrev pub downgrade_0003 : List Statement
downgrade_0003 = drop (table "api_keys") ∷ []

abbrev face_flag : Object
face_flag = column "faces" (defaulted "is_active" SqlType.boolean "true")

abbrev faces_trigger : Object
faces_trigger = trigger "trg_faces_set_is_active" "faces" "faces_set_is_active"

abbrev persons_trigger : Object
persons_trigger = trigger "trg_persons_propagate_is_active" "persons" "persons_propagate_is_active"

abbrev pub upgrade_0004 : List Statement
upgrade_0004 =
    create face_flag
    ∷ create_if_absent (function "faces_set_is_active")
    ∷ create faces_trigger
    ∷ create_if_absent (function "persons_propagate_is_active")
    ∷ create persons_trigger
    ∷ create (hnsw_index "ix_faces_embedding_hnsw_active" (some "is_active"))
    ∷ []

abbrev pub downgrade_0004 : List Statement
downgrade_0004 =
    drop_if_exists (hnsw_index "ix_faces_embedding_hnsw_active" (some "is_active"))
    ∷ drop_if_exists persons_trigger
    ∷ drop_if_exists faces_trigger
    ∷ drop_if_exists (function "persons_propagate_is_active")
    ∷ drop_if_exists (function "faces_set_is_active")
    ∷ drop face_flag
    ∷ []

-- `alembic upgrade head`, of a database without a revision, and `alembic downgrade base`.
abbrev pub upgrade_head : List Statement
upgrade_head = upgrade_0001 ++ upgrade_0002 ++ upgrade_0003 ++ upgrade_0004

abbrev pub downgrade_base : List Statement
downgrade_base = downgrade_0004 ++ downgrade_0003 ++ downgrade_0002 ++ downgrade_0001
