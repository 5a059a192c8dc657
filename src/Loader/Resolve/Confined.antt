-- ===== src/Loader/Resolve/Confined.antt =====
-- Which path an import may resolve to: what the source's tests of prefixes do promise.
use Prim.Native.String
use almadar_runtime.Base.{
  ◌≡◌, ◌⊎◌, refl, suc, true, false, ◌&&◌, ◌||◌, inl, inr, Option, none, some, String, get, is_empty,
  starts_with, slice, strip_suffix, before_first, after_last, has_char, ◌==◌, string_eq, if_cases,
  Bool-cases, Option-cases,
}
use almadar_runtime.Loader.Errors.{
  LoaderOptions, unresolvable_import, LoadResult, success, failure, thrown, Host, Roots,
}
use almadar_runtime.Loader.Browse.{
  slash, length_of, not_browse_form, mapped, malformed, map_browse_specifier,
}
use almadar_runtime.Loader.Search.{configured_roots, is_configured_prefix}
use almadar_runtime.Loader.Search.Found.{
  IsTable, InRegistry, Searched, resolve_behavior_in_registries-Searched,
}
use almadar_runtime.Loader.Resolve.{
  with_orb, without_behaviors, as_std, resolve_std_path, in_scope, resolve_scoped_path, base_dir,
  resolve_relative_path, after_registries, resolve_canonical, resolve_path,
}

module _ (h : Host) (o : LoaderOptions) where
  -- The normalized path starts, as a text, with the normalized base path. A file in a sibling directory
  -- whose name continues the base's does too.
  abbrev pub InBase : String → Type 0
  InBase p = starts_with (h.normalize o.base_path) (h.normalize p) ≡ true

  -- It starts, as a text, with the normalized root of a scope that is configured.
  abbrev pub InScope : String → Type 0
  InScope p =
      (scope : String) × (root : String) × (get scope o.scoped_paths ≡ some root)
      × (starts_with (h.normalize root) (h.normalize p) ≡ true)

  abbrev pub HasAllowedPrefix : String → Type 0
  HasAllowedPrefix p = InBase p ⊎ InScope p ⊎ InRegistry h (configured_roots h o) p

  -- How a resolution ends: in such a path, and with a table as before.
  abbrev pub Resolved : LoadResult String × Roots → Type 0
  Resolved (success p, table) = HasAllowedPrefix p × IsTable h table
  Resolved (failure e, table) = IsTable h table
  Resolved (thrown, table) = IsTable h table

  Searched-Resolved :
      (r : LoadResult String × Roots) → Searched h (configured_roots h o) r → Resolved r
  Searched-Resolved (success p, table) (i, v) = (inr (inr i), v)
  Searched-Resolved (failure e, table) v = v
  Searched-Resolved (thrown, table) v = v

  as_std-Resolved :
      (p : String) (r : LoadResult String × Roots) → Resolved r → Resolved (as_std p r.0, r.1)
  as_std-Resolved p (success q, table) v = v
  as_std-Resolved p (failure e, table) v = v
  as_std-Resolved p (thrown, table) v = v

  resolve_std_path-Resolved :
      (p : String) (table : Roots) → IsTable h table → Resolved (resolve_std_path h o p table)
  unfolding resolve_std_path
  resolve_std_path-Resolved p table v =
      if_cases Resolved (o.std_lib_path == "" && is_empty o.behaviors_lib_paths) (λ t. v)
        (λ f. as_std-Resolved p _ (
          Searched-Resolved _ (
            resolve_behavior_in_registries-Searched h o
              (strip_suffix ".orb" (without_behaviors (slice 4 p))) none table v)))

  in_scope-Resolved :
      (p scope : String) (root : Option String) (table : Roots)
      → IsTable h table
      → get scope o.scoped_paths ≡ root
      → Resolved (in_scope h o p scope root, table)
  unfolding in_scope
  in_scope-Resolved p scope none table v g = v
  in_scope-Resolved p scope (some root) table v g = elim (Bool-cases (root == "")) [
    | inl empty ↦ rw empty v
    | inr given ↦
        elim (Bool-cases (
          starts_with (h.normalize root)
            (h.normalize (with_orb (h.join root (slice (suc (length_of scope)) p)))))) [
              | inl inside ↦ rw (given, inside) (inr (inl (scope, root, g, inside)), v)
              | inr outside ↦ rw (given, outside) v
            ]
  ]

  resolve_scoped_path-Resolved :
      (p : String) (table : Roots) → IsTable h table → Resolved (resolve_scoped_path h o p, table)
  unfolding resolve_scoped_path
  resolve_scoped_path-Resolved p table v = elim (Bool-cases (before_first slash p == "@")) [
    | inl bare ↦ rw bare v
    | inr scoped ↦ rw scoped (
        in_scope-Resolved p (before_first slash p) (get (before_first slash p) o.scoped_paths) table
          v refl)
  ]

  module _ (closed : o.allow_outside_base_path ≡ false) where
    resolve_relative_path-Resolved :
        (p : String) (from : Option String) (table : Roots)
        → IsTable h table
        → Resolved (resolve_relative_path h o p from, table)
    unfolding resolve_relative_path
    resolve_relative_path-Resolved p from table v =
        elim (Bool-cases (
          starts_with (h.normalize o.base_path)
            (h.normalize (with_orb (h.resolve_in (base_dir h o from) p))))) [
              | inl inside ↦ rw (closed, inside) (inl inside, v)
              | inr outside ↦ rw (closed, outside) v
            ]

    after_registries-Resolved :
        (p : String) (from : Option String) (r : LoadResult String × Roots)
        → Resolved r
        → Resolved (after_registries h o p from r)
    unfolding after_registries
    after_registries-Resolved p from (success q, table) v = v
    after_registries-Resolved p from (thrown, table) v = v
    after_registries-Resolved p from (failure e, table) v =
        elim (Option-cases (is_configured_prefix h o (before_first slash p))) [
          | inl fails ↦ rw (fails, after_registries) v
          | inr (b, known) ↦ elim (Bool-cases b) [
            | inl configured ↦ rw (known, after_registries, configured) v
            | inr foreign ↦
                rw (known, after_registries, foreign)
                  (resolve_relative_path-Resolved (String.◌++◌ "./" p) from table v)
          ]
        ]

    resolve_canonical-Resolved :
        (p : String) (from : Option String) (table : Roots)
        → IsTable h table
        → Resolved (resolve_canonical h o p from table)
    unfolding resolve_canonical
    resolve_canonical-Resolved p from table v =
        if_cases Resolved (starts_with "std/" p) (λ t. resolve_std_path-Resolved p table v)
          (λ f₁.
            if_cases Resolved (starts_with "@" p) (λ t. resolve_scoped_path-Resolved p table v)
              (λ f₂.
                if_cases Resolved (starts_with "./" p || starts_with "../" p)
                  (λ t. resolve_relative_path-Resolved p from table v)
                  (λ f₃.
                    if_cases Resolved (h.is_absolute p) (λ t. rw closed v)
                      (λ f₄.
                        if_cases Resolved (has_char slash p)
                          (λ t. after_registries-Resolved p from _ (
                            Searched-Resolved _ (
                              resolve_behavior_in_registries-Searched h o
                                (strip_suffix ".orb" (after_last slash p))
                                (some (before_first slash p)) table v)))
                          (λ f₅.
                            resolve_relative_path-Resolved (String.◌++◌ "./" p) from table v)))))

-- Unless paths outside the base are allowed: the normal form of a path that an import resolves to
-- starts, as a text, with that of the base path or of a configured scope's root, which also a sibling
-- directory does whose name continues theirs, or the path is a file that the search finds in the
-- registry of a configured package. Whatever the result, the table holds only the registries that the
-- packages give, if it did before.
pub resolve_path-Resolved :
    (h : Host) (o : LoaderOptions) (p : String) (from : Option String) (table : Roots)
    → o.allow_outside_base_path ≡ false
    → IsTable h table
    → Resolved h o (resolve_path h o p from table)
unfolding resolve_path
resolve_path-Resolved h o p from table closed v =
    elim (map_browse_specifier p)
      as (λ m. Resolved h o (elim m [
        | malformed ↦ (failure (unresolvable_import p), table)
        | mapped canonical ↦ resolve_canonical h o canonical from table
        | not_browse_form ↦ resolve_canonical h o p from table
      ])) [
        | malformed ↦ v
        | mapped canonical ↦ resolve_canonical-Resolved h o closed canonical from table v
        | not_browse_form ↦ resolve_canonical-Resolved h o closed p from table v
      ]
