-- ===== src/Loader/Load.antt =====
-- `load`, `loadFile` and `loadOrbital`, with the cache. Reading a file and parsing it are arguments.
pub mod Cached
pub mod Orbitals
use almadar_runtime.Base.{
  ◌≡◌, Bool, true, false, ◌&&◌, not, List, [], ◌∷◌, Option, none, some, String, get, put, length,
  ◌==◌, if◌then◌else◌, string_eq, ℕ,
}
use almadar_runtime.Loader.Chain.{ImportChain, push, pop}
use almadar_runtime.Loader.Errors.{
  LoaderOptions, circular_import, file_not_found, invalid_json, invalid_schema, failed_to_load,
  orbital_not_found, no_orbitals, LoadResult, success, failure, thrown, Host, Roots,
}
use almadar_runtime.Loader.Resolve.{resolve_path}

-- What the loader reads of an orbital and of a schema; `X` is the rest of an orbital.
pub record ExternalOrbital (X : Type 0) : Type 0 where
  pub name : String
  pub rest : X

pub record OrbitalSchema (X : Type 0) : Type 0 where
  pub orbitals : List (ExternalOrbital X)
  pub config : Option X

-- `readFile`, `JSON.parse` and the schema's parser, `none` where they throw or refuse.
pub record Disk (X J : Type 0) : Type 0 where
  pub has_file : String → Bool
  pub read_file : String → Option String
  pub parse_json : String → Option J
  pub safe_parse : J → Option (OrbitalSchema X)

pub record LoadedSchema (X : Type 0) : Type 0 where
  pub schema : OrbitalSchema X
  pub source_path : String
  pub import_path : String

pub record ExternalLoader (X : Type 0) : Type 0 where
  pub registry_roots : Roots
  pub cache : List (String × LoadedSchema X)

unfoldable pub create_loader : {X : Type 0} → ExternalLoader X
create_loader = record { registry_roots = []; cache = [] }

unfoldable pub clear_cache : {X : Type 0} → ExternalLoader X → ExternalLoader X
clear_cache l = record { registry_roots = []; cache = [] }

abbrev pub cache_size : {X : Type 0} → ExternalLoader X → ℕ
cache_size l = length l.cache

module _ {X J : Type 0} (d : Disk X J) where
  abbrev pub parse_content : String → String → LoadResult (OrbitalSchema X)
  parse_content p content = elim (d.parse_json content) [
    | none ↦ failure (invalid_json p)
    | some value ↦ elim (d.safe_parse value) [
      | none ↦ failure (invalid_schema p)
      | some schema ↦ success schema
    ]
  ]

  unfoldable pub load_file : String → LoadResult (OrbitalSchema X)
  load_file p =
      if d.has_file p
      then (elim (d.read_file p) [
        | none ↦ failure (failed_to_load p)
        | some content ↦ parse_content p content
      ])
      else failure (file_not_found p)

  -- The new entry, or the error of the file.
  abbrev pub keep_loaded :
      String
      → String
      → LoadResult (OrbitalSchema X)
      → ExternalLoader X
      → LoadResult (LoadedSchema X) × ExternalLoader X
  keep_loaded p import_path (failure e) l = (failure e, l)
  keep_loaded p import_path thrown l = (thrown, l)
  keep_loaded p import_path (success s) l =
      let loaded : LoadedSchema X = record {
        schema = s;
        source_path = p;
        import_path = import_path;
      } in
      (success loaded, record l { cache = put p loaded l.cache })

  -- The `try` block of `load`.
  unfoldable pub load_path :
      String → String → ExternalLoader X → LoadResult (LoadedSchema X) × ExternalLoader X
  unfolding load_file
  load_path p import_path l = elim (get p l.cache) [
    | some cached ↦ (success cached, l)
    | none ↦ keep_loaded p import_path (load_file p) l
  ]

  -- `load` from where the path is known; the chain is popped whatever the `try` block gives.
  unfoldable pub load_resolved :
      String
      → String
      → ImportChain
      → ExternalLoader X
      → LoadResult (LoadedSchema X) × ImportChain × ExternalLoader X
  unfolding push pop load_path
  load_resolved p import_path chain l = elim ((push p chain).1) [
    | some cycle ↦ (failure (circular_import cycle), (push p chain).0, l)
    | none ↦ (let (r, l') = load_path p import_path l in (r, pop (push p chain).0, l'))
  ]

  abbrev pub load_after :
      String
      → ImportChain
      → ExternalLoader X
      → LoadResult String × Roots
      → LoadResult (LoadedSchema X) × ImportChain × ExternalLoader X
  load_after import_path chain l (failure e, table) =
      (failure e, chain, record l { registry_roots = table })
  load_after import_path chain l (thrown, table) =
      (thrown, chain, record l { registry_roots = table })
  load_after import_path chain l (success p, table) =
      load_resolved p import_path chain (record l { registry_roots = table })

  unfoldable pub load :
      Host
      → LoaderOptions
      → String
      → Option String
      → ImportChain
      → ExternalLoader X
      → LoadResult (LoadedSchema X) × ImportChain × ExternalLoader X
  unfolding load_resolved resolve_path
  load h o import_path from chain l =
      load_after import_path chain l (resolve_path h o import_path from l.registry_roots)

-- The orbital that `loadOrbital` returns.
abbrev pub find_orbital :
    {X : Type 0} → String → List (ExternalOrbital X) → Option (ExternalOrbital X)
find_orbital n [] = none
find_orbital n (o ∷ os) = if o.name == n then some o else find_orbital n os

abbrev pub first_or :
    {X : Type 0} → String → List (ExternalOrbital X) → LoadResult (ExternalOrbital X)
first_or import_path [] = failure (no_orbitals import_path)
first_or import_path (o ∷ os) = success o

abbrev pub found_or :
    {X : Type 0} → String → String → Option (ExternalOrbital X) → LoadResult (ExternalOrbital X)
found_or import_path n none = failure (orbital_not_found n import_path)
found_or import_path n (some o) = success o

-- An empty name counts as none.
unfoldable pub pick_orbital :
    {X : Type 0}
    → String
    → Option String
    → List (ExternalOrbital X)
    → LoadResult (ExternalOrbital X)
pick_orbital import_path none os = first_or import_path os
pick_orbital import_path (some n) os =
    if n == "" then first_or import_path os else found_or import_path n (find_orbital n os)

pub record LoadedOrbital (X : Type 0) : Type 0 where
  pub orbital : ExternalOrbital X
  pub orbitals : List (ExternalOrbital X)
  pub schema_config : Option X
  pub source_path : String
  pub import_path : String

abbrev pub loaded_orbital :
    {X : Type 0}
    → String
    → LoadedSchema X
    → LoadResult (ExternalOrbital X)
    → LoadResult (LoadedOrbital X)
loaded_orbital import_path s (failure e) = failure e
loaded_orbital import_path s thrown = thrown
loaded_orbital import_path s (success o) = success (record {
  orbital = o;
  orbitals = s.schema.orbitals;
  schema_config = s.schema.config;
  source_path = s.source_path;
  import_path = import_path;
})

unfoldable pub orbital_of :
    {X : Type 0}
    → String
    → Option String
    → LoadResult (LoadedSchema X)
    → LoadResult (LoadedOrbital X)
unfolding pick_orbital
orbital_of import_path name (failure e) = failure e
orbital_of import_path name thrown = thrown
orbital_of import_path name (success s) =
    loaded_orbital import_path s (pick_orbital import_path name s.schema.orbitals)

unfoldable pub load_orbital :
    {X J : Type 0}
    → Disk X J
    → Host
    → LoaderOptions
    → String
    → Option String
    → Option String
    → ImportChain
    → ExternalLoader X
    → LoadResult (LoadedOrbital X) × ImportChain × ExternalLoader X
unfolding load orbital_of
load_orbital d h o import_path name from chain l =
    let (r, chain', l') = load d h o import_path from chain l in
    (orbital_of import_path name r, chain', l')
