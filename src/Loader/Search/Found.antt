-- ===== src/Loader/Search/Found.antt =====
-- Where a file that the search finds lies, and what the search leaves in the table.
use Prim.Native.String
use almadar_runtime.Base.{
  ◌≡◌, refl, sym, ap, subst, true, inl, inr, List, [], ◌∷◌, Option, none, some, String, contains,
  get, put, same?, starts_with, ◌==◌, if◌then◌else◌, string_eq, arith, Bool-cases, Option-cases,
  get-put, >>=-eq-some,
}
use almadar_runtime.Loader.Errors.{
  LoaderOptions, LoadResult, success, failure, thrown, Listing, done, file, folder, Host, Roots,
}
use almadar_runtime.Loader.Search.{
  find_file, configured_roots, package_prefix, roots_with, registry_root, search_roots,
  resolve_behavior_in_registries,
}
use mathlib.Core.Option.{some-injective}

module _ (h : Host) where
  -- The file is in the registry's directory, as texts.
  pub find_file_within :
      (dir target root : String) (ls : Listing) {p : String}
      → find_file h dir target root ls ≡ some p
      → starts_with root p ≡ true
  unfolding find_file
  find_file_within dir target root done e = cc
  find_file_within dir target root (file name rest) {p} e =
      elim (Bool-cases (starts_with root (h.normalize (h.join dir name)))) [
        | inr outside ↦ find_file_within dir target root rest (rw outside at e)
        | inl inside ↦ elim (Bool-cases (name == target)) [
          | inr other ↦ find_file_within dir target root rest (rw (inside, other) at e)
          | inl same ↦
              subst (λ q. starts_with root q ≡ true)
                (some-injective (h.normalize (h.join dir name)) p (rw (inside, same) at e)) inside
        ]
      ]
  find_file_within dir target root (folder name inner rest) {p} e =
      elim (Bool-cases (starts_with root (h.normalize (h.join dir name)))) [
        | inr outside ↦ find_file_within dir target root rest (rw outside at e)
        | inl inside ↦ elim (Option-cases (find_file h (h.join dir name) target root inner)) [
          | inl missing ↦ find_file_within dir target root rest (rw (inside, missing) at e)
          | inr (q, hit) ↦
              (let same = some-injective q p (rw (inside, hit) at e) in
                subst (λ r. starts_with root r ≡ true) same
                  (find_file_within (h.join dir name) target root inner hit))
        ]
      ]

  -- The registry is the normalized directory that the package of the root gives.
  abbrev pub IsRegistry : String → String → Type 0
  IsRegistry root registry =
      (dir : String) × (h.registry_dir root ≡ some dir) × (registry ≡ h.normalize dir)

  -- Each registry of the table is its root's.
  abbrev pub IsTable : Roots → Type 0
  IsTable table =
      (root registry : String) → get root table ≡ some registry → IsRegistry root registry

  registry_root-IsRegistry :
      (root : String) (table : Roots) {registry : String} {table' : Roots}
      → IsTable table
      → registry_root h root table ≡ some (registry, table')
      → IsRegistry root registry × IsTable table'
  unfolding registry_root
  registry_root-IsRegistry root table {registry} {table'} v e =
      elim (Option-cases (get root table)) [
        | inr (r, known) ↦
            (let same =
                some-injective (r, table) (registry, table') (rw (known, registry_root) at e) in
              (
                subst (IsRegistry root) (ap (λ x. x.0) same) (v root r known),
                subst IsTable (ap (λ x. x.1) same) v,
              ))
        | inl unknown ↦ elim (Option-cases (h.registry_dir root)) [
          | inl fails ↦ cc (rw (unknown, registry_root, fails) at e)
          | inr (dir, found) ↦
              (let same =
                  some-injective (h.normalize dir, put root (h.normalize dir) table)
                    (registry, table') (rw (unknown, registry_root, found) at e) in
                (
                  subst (IsRegistry root) (ap (λ x. x.0) same) (dir, found, refl),
                  subst IsTable (ap (λ x. x.1) same) (added dir found),
                ))
        ]
      ]
    where
      added :
          (dir : String)
          → h.registry_dir root ≡ some dir
          → IsTable (put root (h.normalize dir) table)
      added dir found k reg g = elim (Bool-cases (root == k)) [
        | inl here ↦
            (let p = (string_eq.test_iff root k).0 here in
              let q =
                some-injective (h.normalize dir) reg
                  (rw (get-put root k (h.normalize dir) table, here) at g) in
              (dir, subst (λ r. h.registry_dir r ≡ some dir) p found, sym q))
        | inr there ↦ v k reg (rw (get-put root k (h.normalize dir) table, there) at g)
      ]

  -- The path lies in the registry of one of the roots.
  abbrev pub InRegistry : List String → String → Type 0
  InRegistry roots p =
      (root : String) × (registry : String) × (contains root roots ≡ true)
      × IsRegistry root registry
      × (starts_with registry p ≡ true)

  -- What the search gives: a path in a registry, and a table as before.
  abbrev pub Searched : List String → LoadResult String × Roots → Type 0
  Searched roots (success p, table) = InRegistry roots p × IsTable table
  Searched roots (failure e, table) = IsTable table
  Searched roots (thrown, table) = IsTable table

  -- Every root of the first list is one of the second.
  abbrev pub Among : List String → List String → Type 0
  Among xs ys = (r : String) → contains r xs ≡ true → contains r ys ≡ true

  search_roots-Searched :
      (name target : String) (all roots wide : List String) (table : Roots)
      → Among roots wide
      → IsTable table
      → Searched wide (search_roots h name target all roots table)
  unfolding search_roots
  search_roots-Searched name target all [] wide table among v = v
  search_roots-Searched name target all (root ∷ roots) wide table among v =
      elim (Option-cases (registry_root h root table)) [
        | inl fails ↦ rw (fails, search_roots) v
        | inr ((registry, table'), e) ↦
            (let (is_registry, v') = registry_root-IsRegistry root table v e in
              elim (Option-cases (find_file h registry target registry (h.tree registry))) [
                | inl missing ↦
                    rw (e, search_roots, missing)
                      (search_roots-Searched name target all roots wide table'
                        (λ r c. among r (ground arith)) v')
                | inr (p, hit) ↦
                    rw (e, search_roots, hit)
                      (
                        (
                          root,
                          registry,
                          among root (ground (arith, string_eq.test_iff root root)),
                          is_registry,
                          find_file_within registry target registry (h.tree registry) hit,
                        ),
                        v',
                      )
              ])
      ]

  roots_with-Among :
      (prefix : Option String) (roots : List String) {rs : List String}
      → roots_with h prefix roots ≡ some rs
      → Among rs roots
  unfolding roots_with
  roots_with-Among none roots {rs} e r c =
      subst (λ x. contains r x ≡ true) (sym (some-injective roots rs e)) c
  roots_with-Among (some prefix) [] {rs} e r c =
      subst (λ x. contains r x ≡ true) (sym (some-injective [] rs e)) c
  roots_with-Among (some prefix) (root ∷ roots) {rs} e r c =
      let (q, e₁, f₁) = >>=-eq-some (package_prefix h root) _ e in
      let (rest, e₂, f₂) = >>=-eq-some (roots_with h (some prefix) roots) _ f₁ in
      let ih = roots_with-Among (some prefix) roots e₂ in
      let same = some-injective (if same? q (some prefix) then root ∷ rest else rest) rs f₂ in
      let c' : contains r (if same? q (some prefix) then root ∷ rest else rest) ≡ true =
        subst (λ x. contains r x ≡ true) (sym same) c in
      elim (Bool-cases (same? q (some prefix))) [
        | inl has ↦
            ground
              (arith, subst (λ b. contains r (if b then root ∷ rest else rest) ≡ true) has c', ih r)
        | inr lacks ↦ ground (
          arith,
          ih r (subst (λ b. contains r (if b then root ∷ rest else rest) ≡ true) lacks c'),
        )
      ]

  pub resolve_behavior_in_registries-Searched :
      (o : LoaderOptions) (name : String) (prefix : Option String) (table : Roots)
      → IsTable table
      → Searched (configured_roots h o) (resolve_behavior_in_registries h o name prefix table)
  unfolding resolve_behavior_in_registries
  resolve_behavior_in_registries-Searched o name prefix table v =
      elim (Option-cases (roots_with h prefix (configured_roots h o))) [
        | inl fails ↦ rw (fails, resolve_behavior_in_registries) v
        | inr (roots, e) ↦
            rw (e, resolve_behavior_in_registries)
              (search_roots-Searched name (String.◌++◌ name ".orb") roots roots
                (configured_roots h o) table (roots_with-Among prefix (configured_roots h o) e) v)
      ]
