-- ===== src/Loader/Errors.antt =====
-- The loader's options and results, and what it asks of Node, of the packages and of the parser.
use almadar_runtime.Base.{Bool, List, Option, String}

pub record LoaderOptions : Type 0 where
  pub base_path : String
  pub std_lib_path : String
  pub behaviors_lib_paths : List String
  pub scoped_paths : List (String × String)
  pub allow_outside_base_path : Bool

-- The messages, by what they name.
pub data LoadError : Type 0 where
  unresolvable_import : String → LoadError
  std_not_configured : String → LoadError
  std_not_found : String → LoadError → LoadError
  invalid_scoped_path : String → LoadError
  scope_not_configured : String → LoadError
  outside_scope : String → LoadError
  outside_base : String → LoadError
  absolute_not_allowed : String → LoadError
  behavior_not_found : String → List String → LoadError
  unreadable_root : String → LoadError
  circular_import : List String → LoadError
  file_not_found : String → LoadError
  invalid_json : String → LoadError
  invalid_schema : String → LoadError
  failed_to_load : String → LoadError
  orbital_not_found : String → String → LoadError
  no_orbitals : String → LoadError

-- `LoadResult`, or an exception that leaves the loader.
pub data LoadResult (A : Type 0) : Type 0 where
  success : A → LoadResult A
  failure : LoadError → LoadResult A
  thrown : LoadResult A

-- What a directory holds, entry by entry: a file, or a directory with what it holds. A directory
-- that cannot be read holds nothing. Directories behind links are not entered, so a tree is finite.
pub data Listing : Type 0 where
  done : Listing
  file : String → Listing → Listing
  folder : String → Listing → Listing → Listing

-- `readBehaviorPackage`: its manifest's prefix, a `BehaviorPackageError`, or another exception.
pub data PackageRead : Type 0 where
  manifest : Option String → PackageRead
  no_package : PackageRead
  unreadable : PackageRead

-- Node's `path` and `fs`, and @almadar/core/behavior-package. `registry_dir` is `none` where it throws.
pub record Host : Type 0 where
  pub normalize : String → String
  pub dirname : String → String
  pub join : String → String → String
  pub resolve_in : String → String → String
  pub is_absolute : String → Bool
  pub exists : String → Bool
  pub tree : String → Listing
  pub read_package : String → PackageRead
  pub registry_dir : String → Option String

-- Package roots and their registries, as far as they were looked up.
abbrev pub Roots : Type 0
Roots = List (String × String)
