-- ===== src/Loader/Browse.antt =====
-- `mapBrowseSpecifier` and `parseImportPath`.
pub mod Fragments
use Prim.Native.Char.{Char, code}
use Prim.Native.String
use almadar_runtime.Base.{
  ℕ, suc, ◌≡◌, refl, Bool, true, false, ◌&&◌, List, [], ◌∷◌, Option, none, some, String,
  starts_with, slice, strip_suffix, after_last, before_first, after_first, has_char, ◌==◌,
  if◌then◌else◌, nat_eq, string_eq,
}

abbrev pub slash : Char
slash = "/"

abbrev pub hash : Char
hash = "#"

pub data BrowseMapping : Type 0 where
  not_browse_form : BrowseMapping
  mapped : String → BrowseMapping
  malformed : BrowseMapping

abbrev pub length_of : String → ℕ
length_of String.[] = 0
length_of (String.◌∷◌ c s) = suc (length_of s)

-- The prefixes and the registries that own them.
abbrev pub browse_prefixes : List (String × String)
browse_prefixes = ("@std/", "std/behaviors/") ∷ ("@behaviors/", "almadar-behaviors/") ∷ []

-- `${pkg}${name}`.
abbrev pub canonical : String → String → BrowseMapping
canonical pkg name = if name == "" then malformed else mapped (String.◌++◌ pkg name)

abbrev pub map_prefixes : List (String × String) → String → BrowseMapping
map_prefixes [] p = not_browse_form
map_prefixes ((prefix, pkg) ∷ rest) p =
    let others = map_prefixes rest p in
    if starts_with prefix p
    then canonical pkg (strip_suffix ".lolo" (after_last slash (slice (length_of prefix) p)))
    else others

unfoldable pub map_browse_specifier : String → BrowseMapping
map_browse_specifier p = map_prefixes browse_prefixes p

unfoldable pub parse_import_path : String → String × Option String
parse_import_path p =
    if has_char hash p then (before_first hash p, some (after_first hash p)) else (p, none)
