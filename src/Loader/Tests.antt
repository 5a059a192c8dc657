-- ===== src/Loader/Tests.antt =====
-- Imports against a small file system.
use Prim.Native.String
use almadar_runtime.Base.{
  ℕ, ◌≡◌, refl, true, false, List, [], ◌∷◌, ◌++◌, none, some, String, get, put, keys, starts_with,
  ◌==◌, string_eq, if◌then◌else◌,
}
use almadar_runtime.Loader.Chain.{push, pop}
use almadar_runtime.Loader.Browse.{map_browse_specifier, parse_import_path}
use almadar_runtime.Loader.Errors.{
  LoaderOptions, success, failure, circular_import, unresolvable_import, LoadResult, done, file,
  folder, manifest, Host, Roots,
}
use almadar_runtime.Loader.Search.{
  find_file, configured_roots, package_prefix, roots_with, any_with, is_configured_prefix,
  registry_root, search_roots, resolve_behavior_in_registries,
}
use almadar_runtime.Loader.Search.Found.{IsTable}
use almadar_runtime.Loader.Resolve.{
  resolve_std_path, in_scope, resolve_scoped_path, resolve_relative_path, after_registries,
  resolve_canonical, resolve_path,
}
use almadar_runtime.Loader.Resolve.Confined.{Resolved, resolve_path-Resolved}
use almadar_runtime.Loader.Load.{
  ExternalOrbital, Disk, ExternalLoader, create_loader, load_file, load_path, load_resolved, load,
  pick_orbital, orbital_of, load_orbital,
}
use almadar_runtime.Loader.Load.Cached.{IsCache, schema_of, load_circular, load-schema}

loader : Unit {0}
unfolding push pop map_browse_specifier parse_import_path find_file configured_roots package_prefix
    roots_with any_with is_configured_prefix registry_root search_roots
    resolve_behavior_in_registries resolve_std_path in_scope resolve_scoped_path
    resolve_relative_path after_registries resolve_canonical resolve_path create_loader load_file
    load_path load_resolved load pick_orbital orbital_of load_orbital get put
loader = tt

abbrev host : Host
host = record {
  normalize = λ p. p;
  dirname = λ p. "/app/schemas";
  join = λ a b. String.◌++◌ a (String.◌++◌ "/" b);
  resolve_in = λ a b.
      if b == "../schemas-old/x" then "/app/schemas-old/x" else String.◌++◌ a (String.◌++◌ "/" b);
  is_absolute = λ p. starts_with "/" p;
  exists = λ p. true;
  tree = λ p. folder "atoms" (file "stats.orb" done) (file "list.orb" done);
  read_package = λ p. manifest (some "kit");
  registry_dir = λ p. some (String.◌++◌ p "/registry");
}

abbrev options : LoaderOptions
options = record {
  base_path = "/app/schemas";
  std_lib_path = "/std";
  behaviors_lib_paths = "/std" ∷ "/kit" ∷ [];
  scoped_paths = ("@game", "/game") ∷ [];
  allow_outside_base_path = false;
}

abbrev found : String → LoadResult String × Roots
found p = (success p, [])

resolve_tests :
    ((resolve_path host options "std/behaviors/stats" none []).0
      ≡ success "/std/registry/atoms/stats.orb")
    × ((resolve_path host options "@std/ui/core/list.lolo" none []).0
        ≡ success "/std/registry/list.orb")
    × (resolve_path host options "@std/ui/" none []
        ≡ (failure (unresolvable_import "@std/ui/"), []))
    × ((resolve_path host options "kit/stats.orb" none []).0
        ≡ success "/std/registry/atoms/stats.orb")
    × (resolve_path host options "@game/enemies" none [] ≡ found "/game/enemies.orb")
    × (resolve_path host options "../schemas-old/x" none [] ≡ found "/app/schemas-old/x.orb")
    × (parse_import_path "./game.orb#Player" ≡ ("./game.orb", some "Player"))
unfolding loader
resolve_tests = (refl, refl, refl, refl, refl, refl, refl)

no_roots-IsTable : IsTable host []
unfolding get
no_roots-IsTable root registry g = cc

resolve_path-Resolved_example :
    Resolved host options (resolve_path host options "std/behaviors/stats" none [])
unfolding loader
resolve_path-Resolved_example =
    resolve_path-Resolved host options "std/behaviors/stats" none [] refl no_roots-IsTable

abbrev disk : Disk ℕ ℕ
disk = record {
  has_file = λ p. true;
  read_file = λ p. some p;
  parse_json = λ content. some 7;
  safe_parse =
      λ j. some (record { orbitals = record { name = "Stats"; rest = j } ∷ []; config = none });
}

abbrev fresh : ExternalLoader ℕ
unfolding create_loader
fresh = create_loader

load_circular_example :
    ((inner : List String) × ((load disk host options "./a" none
          ("/app/schemas/./a.orb" ∷ [])
          fresh).0
        ≡ failure
            (circular_import ("/app/schemas/./a.orb" ∷ inner ++ "/app/schemas/./a.orb" ∷ []))))
    × ((load disk host options "./a" none ("/app/schemas/./a.orb" ∷ []) fresh).2.cache
        ≡ fresh.cache)
    × ((load disk host options "./a" none ("/app/x.orb" ∷ []) fresh).1 ≡ "/app/x.orb" ∷ [])
unfolding loader
load_circular_example =
    load_circular disk host options "./a" "./a" none none ("/app/schemas/./a.orb" ∷ [])
      ("/app/x.orb" ∷ []) fresh fresh "/app/schemas/./a.orb" [] refl refl

fresh-IsCache : IsCache disk fresh.cache
unfolding loader
fresh-IsCache p s g = cc

-- The loader after a first load.
abbrev cached : ExternalLoader ℕ
unfolding loader
cached = (load disk host options "./a" none [] fresh).2

cached_test : keys cached.cache ≡ "/app/schemas/./a.orb" ∷ []
unfolding loader get put
cached_test = refl

load-schema_example :
    (schema_of disk (load disk host options "./a" none [] cached).0
      ≡ schema_of disk (load disk host options "./a" none [] (record cached { cache = [] })).0)
    × IsCache disk (load disk host options "./a" none [] cached).2.cache
unfolding cached load
load-schema_example =
    load-schema disk host options "./a" none [] cached
      (load-schema disk host options "./a" none [] fresh fresh-IsCache).1

abbrev orbitals : List (ExternalOrbital ℕ)
orbitals = record { name = "Stats"; rest = 1 } ∷ record { name = "List"; rest = 2 } ∷ []
