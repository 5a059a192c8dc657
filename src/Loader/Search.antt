-- ===== src/Loader/Search.antt =====
-- The search for a behavior's file in the registries of the configured packages.
pub mod Found
use Prim.Native.String
use almadar_runtime.Base.{
  ◌≡◌, Bool, true, false, ◌&&◌, ◌||◌, List, [], ◌∷◌, ◌++◌, Option, none, some, String, contains,
  get, put, or_else, same?, starts_with, ◌==◌, if◌then◌else◌, string_eq, ◌>>=◌,
}
use almadar_runtime.Loader.Errors.{
  LoaderOptions, behavior_not_found, unreadable_root, LoadResult, success, failure, thrown, Listing,
  done, file, folder, manifest, no_package, unreadable, Host, Roots,
}

module _ (h : Host) where
  -- `findFileRecursive`, with the directory's listing.
  unfoldable pub find_file : String → String → String → Listing → Option String
  find_file dir target root done = none
  find_file dir target root (file name rest) =
      let others = find_file dir target root rest in
      let normalized = h.normalize (h.join dir name) in
      if starts_with root normalized && name == target then some normalized else others
  find_file dir target root (folder name inner rest) =
      let hit = find_file (h.join dir name) target root inner in
      let others = find_file dir target root rest in
      if starts_with root (h.normalize (h.join dir name)) then or_else hit others else others

  -- Adds each of the paths that is not there yet.
  abbrev pub add_roots : List String → List String → List String
  add_roots [] roots = roots
  add_roots (p ∷ ps) roots =
      add_roots ps (if contains (h.normalize p) roots then roots else roots ++ h.normalize p ∷ [])

  unfoldable pub configured_roots : LoaderOptions → List String
  configured_roots o =
      add_roots o.behaviors_lib_paths
        (if o.std_lib_path == "" then [] else h.normalize o.std_lib_path ∷ [])

  -- `none` where it throws; `isBehaviorPackageRoot` is the first two tests.
  unfoldable pub package_prefix : String → Option (Option String)
  package_prefix root =
      if h.exists (h.join root "package.json")
      then (elim (h.read_package root) [
        | manifest prefix ↦ some prefix
        | no_package ↦ some none
        | unreadable ↦ none
      ])
      else some none

  -- The roots whose package has the prefix.
  unfoldable pub roots_with : Option String → List String → Option (List String)
  unfolding package_prefix
  roots_with none roots = some roots
  roots_with (some prefix) [] = some []
  roots_with (some prefix) (root ∷ roots) = do
    p ← package_prefix root
    rest ← roots_with (some prefix) roots
    some (if same? p (some prefix) then root ∷ rest else rest)

  -- `some` over the roots, which stops at the first that has the prefix.
  unfoldable pub any_with : String → List String → Option Bool
  unfolding package_prefix
  any_with prefix [] = some false
  any_with prefix (root ∷ roots) =
      let rest = any_with prefix roots in
      package_prefix root >>= λ p. if same? p (some prefix) then some true else rest

  unfoldable pub is_configured_prefix : LoaderOptions → String → Option Bool
  unfolding any_with configured_roots
  is_configured_prefix o prefix = any_with prefix (configured_roots o)

  -- The registry of a root, from the table or looked up and added to it.
  unfoldable pub registry_root : String → Roots → Option (String × Roots)
  registry_root root table = elim (get root table) [
    | some registry ↦ some (registry, table)
    | none ↦ elim (h.registry_dir root) [
      | none ↦ none
      | some dir ↦ some (h.normalize dir, put root (h.normalize dir) table)
    ]
  ]

  -- The loop over the roots. `all` and `name` are for the message.
  unfoldable pub search_roots :
      String → String → List String → List String → Roots → LoadResult String × Roots
  unfolding registry_root find_file
  search_roots name target all [] table = (failure (behavior_not_found name all), table)
  search_roots name target all (root ∷ roots) table = elim (registry_root root table) [
    | none ↦ (failure (unreadable_root root), table)
    | some (registry, table') ↦ elim (find_file registry target registry (h.tree registry)) [
      | some found ↦ (success found, table')
      | none ↦ search_roots name target all roots table'
    ]
  ]

  unfoldable pub resolve_behavior_in_registries :
      LoaderOptions → String → Option String → Roots → LoadResult String × Roots
  unfolding search_roots configured_roots roots_with
  resolve_behavior_in_registries o name prefix table =
      elim (roots_with prefix (configured_roots o)) [
        | none ↦ (thrown, table)
        | some roots ↦ search_roots name (String.◌++◌ name ".orb") roots roots table
      ]
