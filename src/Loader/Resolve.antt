-- ===== src/Loader/Resolve.antt =====
-- `resolvePath` and the resolvers that it chooses from.
pub mod Confined
use Prim.Native.String
use almadar_runtime.Base.{
  ℕ, suc, ◌≡◌, Bool, true, false, ◌&&◌, ◌||◌, not, List, [], ◌∷◌, Option, none, some, String, get,
  is_empty, starts_with, slice, ends_with, strip_suffix, before_first, after_last, has_char, ◌==◌,
  if◌then◌else◌, string_eq,
}
use almadar_runtime.Loader.Errors.{
  LoaderOptions, LoadError, unresolvable_import, std_not_configured, std_not_found,
  invalid_scoped_path, scope_not_configured, outside_scope, outside_base, absolute_not_allowed,
  LoadResult, success, failure, thrown, Host, Roots,
}
use almadar_runtime.Loader.Browse.{
  slash, length_of, not_browse_form, mapped, malformed, map_browse_specifier,
}
use almadar_runtime.Loader.Search.{resolve_behavior_in_registries, is_configured_prefix}

abbrev pub with_orb : String → String
with_orb p = if ends_with ".orb" p then p else String.◌++◌ p ".orb"

-- `replace(/^behaviors\//, "")`.
abbrev pub without_behaviors : String → String
without_behaviors p = if starts_with "behaviors/" p then slice 10 p else p

-- The error of the search, with the import that was asked for.
abbrev pub as_std : String → LoadResult String → LoadResult String
as_std p (failure e) = failure (std_not_found p e)
as_std p r = r

module _ (h : Host) (o : LoaderOptions) where
  unfoldable pub resolve_std_path : String → Roots → LoadResult String × Roots
  unfolding resolve_behavior_in_registries
  resolve_std_path p table =
      if o.std_lib_path == "" && is_empty o.behaviors_lib_paths
      then (failure (std_not_configured p), table)
      else (let (r, table') =
            resolve_behavior_in_registries h o (strip_suffix ".orb" (without_behaviors (slice 4 p)))
              none table in
          (as_std p r, table'))

  -- The path under a scope's root; a root that is empty counts as none.
  unfoldable pub in_scope : String → String → Option String → LoadResult String
  in_scope p scope none = failure (scope_not_configured scope)
  in_scope p scope (some root) =
      let absolute = with_orb (h.join root (slice (suc (length_of scope)) p)) in
      if root == ""
      then failure (scope_not_configured scope)
      else if starts_with (h.normalize root) (h.normalize absolute)
      then success absolute
      else failure (outside_scope p)

  unfoldable pub resolve_scoped_path : String → LoadResult String
  unfolding in_scope
  resolve_scoped_path p =
      let scope = before_first slash p in
      if scope == "@"
      then failure (invalid_scoped_path p)
      else in_scope p scope (get scope o.scoped_paths)

  -- An empty importing path counts as none.
  abbrev pub base_dir : Option String → String
  base_dir none = o.base_path
  base_dir (some from) = if from == "" then o.base_path else h.dirname from

  unfoldable pub resolve_relative_path : String → Option String → LoadResult String
  resolve_relative_path p from =
      let absolute = with_orb (h.resolve_in (base_dir from) p) in
      if o.allow_outside_base_path || starts_with (h.normalize o.base_path) (h.normalize absolute)
      then success absolute
      else failure (outside_base p)

  -- After the registries: their result if it is one or the prefix is configured, else the base path.
  unfoldable pub after_registries :
      String → Option String → LoadResult String × Roots → LoadResult String × Roots
  unfolding resolve_relative_path is_configured_prefix
  after_registries p from (success found, table) = (success found, table)
  after_registries p from (thrown, table) = (thrown, table)
  after_registries p from (failure e, table) =
      elim (is_configured_prefix h o (before_first slash p)) [
        | none ↦ (thrown, table)
        | some true ↦ (failure e, table)
        | some false ↦ (resolve_relative_path (String.◌++◌ "./" p) from, table)
      ]

  unfoldable pub resolve_canonical : String → Option String → Roots → LoadResult String × Roots
  unfolding resolve_std_path resolve_scoped_path resolve_relative_path
      resolve_behavior_in_registries after_registries
  resolve_canonical p from table =
      if starts_with "std/" p
      then resolve_std_path p table
      else if starts_with "@" p
      then (resolve_scoped_path p, table)
      else if starts_with "./" p || starts_with "../" p
      then (resolve_relative_path p from, table)
      else if h.is_absolute p
      then (
        if o.allow_outside_base_path then success p else failure (absolute_not_allowed p),
        table,
      )
      else if has_char slash p
      then after_registries p from (
          resolve_behavior_in_registries h o (strip_suffix ".orb" (after_last slash p))
            (some (before_first slash p)) table)
      else (resolve_relative_path (String.◌++◌ "./" p) from, table)

  unfoldable pub resolve_path : String → Option String → Roots → LoadResult String × Roots
  unfolding resolve_canonical map_browse_specifier
  resolve_path p from table = elim (map_browse_specifier p) [
    | malformed ↦ (failure (unresolvable_import p), table)
    | mapped canonical ↦ resolve_canonical canonical from table
    | not_browse_form ↦ resolve_canonical p from table
  ]
