-- ===== src/Loader/Browse/Fragments.antt =====
-- An import path and its fragment.
use Prim.Native.String
use almadar_runtime.Base.{
  ◌≡◌, refl, false, inl, inr, Option, none, some, String, has_char, before_first-append-after_first,
  before_first-lacks, Bool-cases,
}
use almadar_runtime.Loader.Browse.{hash, parse_import_path}

-- The text of a path with its fragment.
abbrev pub print_import_path : String × Option String → String
print_import_path (path, none) = path
print_import_path (path, some fragment) = String.◌++◌ path (String.◌∷◌ hash fragment)

-- A parsed import path prints as the text that was parsed, and the path before the fragment has no
-- `#`.
pub print-parse_import_path :
    (p : String)
    → (print_import_path (parse_import_path p) ≡ p)
      × (has_char hash (parse_import_path p).0 ≡ false)
unfolding parse_import_path
print-parse_import_path p = elim (Bool-cases (has_char hash p)) [
  | inl has ↦ rw has (before_first-append-after_first hash p has, before_first-lacks hash p)
  | inr lacks ↦ rw lacks (refl, lacks)
]
