-- ===== src/Bulk/Discovery.antt =====
-- app/services/bulk_import_service.py, `_discover`: the images of a folder tree, on what the file
-- system lists.
use Prim.Native.Nat.{lt, eq, gt}
use Prim.Native.String.{compare}
use text.Mathlib.Text.{◌==◌ as str_eq}
use face_recognition.Prelude.{Bool, true, false, String, List, [], ◌∷◌, ◌++◌, map, select}
use face_recognition.Prelude.Sort.{sort_by}
use face_recognition.Core.Errors.{Result, ok, ◌>>=◌}
use face_recognition.Store.Persons.{any}

-- An image file: the name of its folder, its path and its name.
pub record ImageFile : Type 0 where
  pub person_name : String
  pub path : String
  pub name : String

-- A file of a folder; `lower_suffix` is `suffix.lower()`.
pub record FileEntry : Type 0 where
  pub file_name : String
  pub file_path : String
  pub lower_suffix : String

-- An entry of the root: a file, or a folder with what listing it gives, in any order.
pub record DirEntry : Type 0 where
  pub dir_name : String
  pub is_dir : Bool
  pub files : Result (List FileEntry)

-- `sorted`, on paths of one folder.
abbrev pub text_le : String → String → Bool
text_le a b = elim (compare a b) [ lt ↦ true | eq ↦ true | gt ↦ false ]

-- `_IMAGE_SUFFIXES`
abbrev pub image_suffixes : List String
image_suffixes = ".jpg" ∷ ".jpeg" ∷ ".png" ∷ ".bmp" ∷ ".webp" ∷ []

abbrev pub is_image : FileEntry → Bool
is_image f = any (str_eq f.lower_suffix) image_suffixes

abbrev pub images_of : String → List FileEntry → List ImageFile
images_of name files =
    map (λ f. record { person_name = name; path = f.file_path; name = f.file_name })
      (select is_image (sort_by (λ f g. text_le f.file_name g.file_name) files))

-- Up to the first folder whose listing raises.
abbrev pub all_images : List DirEntry → Result (List ImageFile)
all_images [] = ok []
all_images (d ∷ ds) = do
  files ← d.files
  rest ← all_images ds
  ok (images_of d.dir_name files ++ rest)

-- `_discover`, on the entries of the root.
unfoldable pub discover : List DirEntry → Result (List ImageFile)
discover entries =
    all_images (sort_by (λ d e. text_le d.dir_name e.dir_name) (select (λ d. d.is_dir) entries))
