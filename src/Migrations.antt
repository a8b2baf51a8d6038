-- ===== src/Migrations.antt =====
-- The migrations of alembic/versions: the database's catalog, and the statements of alembic's `op`
-- on it. The catalog lists its objects in the order of their creation.
use face_recognition.Prelude.{
  ℕ, Bool, true, false, not, ◌||◌, String, Option, none, some, List, [], ◌∷◌, ◌++◌, select,
  if◌then◌else◌,
}
use text.Mathlib.Text.{◌==◌ as str_eq}
use face_recognition.Core.Errors.{fault, library_error, Result, ok, raise, ◌>>=◌}
use face_recognition.Store.Persons.{any}
pub mod Versions
pub mod Undone
pub mod Flags
mod Tests

pub data SqlType : Type 0 where
  uuid boolean timestamp jsonb float binary : SqlType
  varchar vector : ℕ → SqlType
  -- a type of the catalog, by its name
  enum_of : String → SqlType

-- `sa.Column`; a primary key is not nullable.
pub record Column : Type 0 where
  pub name : String
  pub sql_type : SqlType
  pub is_nullable : Bool
  pub server_default : Option String
  pub is_primary_key : Bool
  -- the table of a foreign key on this column's `id`, which cascades
  pub references : Option String

pub data Method : Type 0 where
  btree unique_btree : Method
  -- hnsw with vector_cosine_ops, and the column of its WHERE
  hnsw : ℕ → ℕ → Option String → Method

pub data Object : Type 0 where
  extension table function : String → Object
  enum_type : String → List String → Object
  -- of a table
  column : String → Column → Object
  -- the name, the table and the column
  index : String → String → String → Method → Object
  -- the name, the table and the function
  trigger : String → String → String → Object

abbrev pub Catalog : Type 0
Catalog = List Object

-- Whether an object has the other's name. Tables and indexes share theirs.
abbrev pub is_same : Object → Object → Bool
is_same (extension a) (extension b) = str_eq a b
is_same (table a) (table b) = str_eq a b
is_same (table a) (index b t c m) = str_eq a b
is_same (index a t c m) (table b) = str_eq a b
is_same (index a t c m) (index b t' c' m') = str_eq a b
is_same (function a) (function b) = str_eq a b
is_same (enum_type a vs) (enum_type b ws) = str_eq a b
is_same (column t c) (column u d) = if str_eq t u then str_eq c.name d.name else false
is_same (trigger a t f) (trigger b u g) = if str_eq t u then str_eq a b else false
is_same _ _ = false

-- A column of a name, to look for.
abbrev called : String → Column
called name = record {
  name = name;
  sql_type = SqlType.uuid;
  is_nullable = false;
  server_default = none;
  is_primary_key = false;
  references = none;
}

abbrev type_needs : SqlType → List Object
type_needs (enum_of name) = enum_type name [] ∷ []
type_needs _ = []

abbrev reference_needs : Option String → List Object
reference_needs none = []
reference_needs (some t) = table t ∷ []

abbrev method_needs : String → Method → List Object
method_needs t (hnsw m ef (some condition)) = column t (called condition) ∷ []
method_needs t _ = []

-- What has to be there for an object to be created: a column's table, its type and the table that it
-- references; an index's table and columns; a trigger's table and function.
abbrev pub requirements : Object → List Object
requirements (column t c) = table t ∷ type_needs c.sql_type ++ reference_needs c.references
requirements (index a t c m) = table t ∷ column t (called c) ∷ method_needs t m
requirements (trigger a t f) = table t ∷ function f ∷ []
requirements _ = []

-- Whether dropping the first object drops the other: a table takes its columns, indexes and
-- triggers along, a column the indexes on it.
abbrev pub falls_with : Object → Object → Bool
falls_with (table t) (column u c) = str_eq t u
falls_with (table t) (index a u c m) = if str_eq t a then true else str_eq t u
falls_with (table t) (trigger a u f) = str_eq t u
falls_with (column t c) (index a u d m) = if str_eq t u then str_eq c.name d else false
falls_with o x = is_same o x

abbrev is_of_type : String → SqlType → Bool
is_of_type name (enum_of other) = str_eq name other
is_of_type name _ = false

abbrev is_reference_to : String → Option String → Bool
is_reference_to name none = false
is_reference_to name (some other) = str_eq name other

-- Whether the other object keeps the first one from being dropped: a column its type, a foreign key
-- of another table the table that it references, a trigger its function.
abbrev pub is_needed_by : Object → Object → Bool
is_needed_by (enum_type a vs) (column t c) = is_of_type a c.sql_type
is_needed_by (table t) (column u c) = if str_eq t u then false else is_reference_to t c.references
is_needed_by (function f) (trigger a t g) = str_eq f g
is_needed_by _ _ = false

-- CREATE OR REPLACE of a function is `create_if_absent`, as the catalog has no bodies.
pub data Statement : Type 0 where
  create create_if_absent drop drop_if_exists : Object → Statement

unfoldable pub remove : Object → Catalog → Result Catalog
remove o cat =
    if any (is_needed_by o) cat
    then raise (fault library_error)
    else ok (select (λ x. not (falls_with o x)) cat)

-- Whether one of the objects is missing.
abbrev pub lacks : List Object → Catalog → Bool
lacks [] cat = false
lacks (r ∷ rs) cat = if any (is_same r) cat then lacks rs cat else true

-- The database's answer to one statement.
unfoldable pub alter : Statement → Catalog → Result Catalog
unfolding remove
alter (create o) cat =
    if any (is_same o) cat
    then raise (fault library_error)
    else if lacks (requirements o) cat
    then raise (fault library_error)
    else ok (cat ++ o ∷ [])
alter (create_if_absent o) cat = if any (is_same o) cat then ok cat else ok (cat ++ o ∷ [])
alter (drop o) cat = if any (is_same o) cat then remove o cat else raise (fault library_error)
alter (drop_if_exists o) cat = remove o cat

-- The statements of a migration, one after the other.
unfoldable pub run_statements : List Statement → Catalog → Result Catalog
unfolding alter
run_statements [] cat = ok cat
run_statements (s ∷ ss) cat = do next ← alter s cat; run_statements ss next
