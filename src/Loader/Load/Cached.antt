-- ===== src/Loader/Load/Cached.antt =====
-- The cache and the chain across loads.
use almadar_runtime.Base.{
  ◌≡◌, refl, sym, ap, subst, ◌∙◌, true, false, inl, inr, List, [], ◌∷◌, ◌++◌, Option, none, some,
  String, contains, get, ◌==◌, string_eq, Bool-cases, Option-cases, get-put,
}
use mathlib.Core.Option.{some-injective}
use almadar_runtime.Loader.Chain.{
  ImportChain, from_index, push, pop, drop_last-append, from_index-head,
}
use almadar_runtime.Loader.Errors.{
  LoaderOptions, circular_import, LoadResult, success, failure, thrown, Host, Roots,
}
use almadar_runtime.Loader.Resolve.{resolve_path}
use almadar_runtime.Loader.Load.{
  OrbitalSchema, Disk, LoadedSchema, ExternalLoader, load_file, keep_loaded, load_path,
  load_resolved, load_after, load,
}

push_seen :
    (p : String) (chain : ImportChain)
    → contains p chain ≡ true
    → push p chain ≡ (chain, some (from_index p chain ++ p ∷ []))
unfolding push
push_seen p chain seen = rw seen refl

push_new :
    (p : String) (chain : ImportChain)
    → contains p chain ≡ false
    → push p chain ≡ (chain ++ p ∷ [], none)
unfolding push
push_new p chain new = rw new refl

module _ {X J : Type 0} (d : Disk X J) where
  load_resolved_seen :
      (p import_path : String) (chain : ImportChain) (l : ExternalLoader X)
      → contains p chain ≡ true
      → load_resolved d p import_path chain l
        ≡ (failure (circular_import (from_index p chain ++ p ∷ [])), chain, l)
  unfolding load_resolved
  load_resolved_seen p import_path chain l seen =
      rw (push_seen p chain seen, load_resolved)
        (ap (λ c. (failure (circular_import (from_index p chain ++ p ∷ [])), c.0, l))
          (push_seen p chain seen))

  load_resolved_new :
      (p import_path : String) (chain : ImportChain) (l : ExternalLoader X)
      → contains p chain ≡ false
      → load_resolved d p import_path chain l
        ≡ ((load_path d p import_path l).0, chain, (load_path d p import_path l).1)
  unfolding load_resolved pop
  load_resolved_new p import_path chain l new =
      rw (push_new p chain new, load_resolved)
        (ap (λ c. ((load_path d p import_path l).0, pop c.0, (load_path d p import_path l).1))
            (push_new p chain new)
          ∙ ap (λ c. ((load_path d p import_path l).0, c, (load_path d p import_path l).1))
              (drop_last-append chain p))

  load_resolved-keeps :
      (p import_path : String) (chain : ImportChain) (l : ExternalLoader X)
      → (load_resolved d p import_path chain l).1 ≡ chain
  load_resolved-keeps p import_path chain l = elim (Bool-cases (contains p chain)) [
    | inl seen ↦ ap (λ r. r.1) (load_resolved_seen p import_path chain l seen)
    | inr new ↦ ap (λ r. r.1) (load_resolved_new p import_path chain l new)
  ]

  load_after-keeps :
      (import_path : String) (chain : ImportChain) (l : ExternalLoader X)
      (r : LoadResult String × Roots)
      → (load_after d import_path chain l r).1 ≡ chain
  load_after-keeps import_path chain l (failure e, table) = refl
  load_after-keeps import_path chain l (thrown, table) = refl
  load_after-keeps import_path chain l (success p, table) =
      load_resolved-keeps p import_path chain (record l { registry_roots = table })

  -- An import of a path that is being loaded fails with a cycle that begins and ends at the path, and
  -- leaves the cache alone; and however a load ends, of whatever import and with whatever cache, the
  -- chain is afterwards what it was.
  pub load_circular :
      (h : Host) (o : LoaderOptions) (import_path other : String) (from other_from : Option String)
      (chain other_chain : ImportChain) (l m : ExternalLoader X) (p : String) (table : Roots)
      → resolve_path h o import_path from l.registry_roots ≡ (success p, table)
      → contains p chain ≡ true
      → ((inner : List String) × ((load d h o import_path from chain l).0
            ≡ failure (circular_import (p ∷ inner ++ p ∷ []))))
        × ((load d h o import_path from chain l).2.cache ≡ l.cache)
        × ((load d h o other other_from other_chain m).1 ≡ other_chain)
  unfolding load
  load_circular h o import_path other from other_from chain other_chain l m p table e seen =
      let (inner, cycle) = from_index-head p chain seen in
      (
        (
          inner,
          rw e (
              ap (λ r. r.0) (load_resolved_seen p import_path chain _ seen)
              ∙ ap (λ c. failure (circular_import (c ++ p ∷ []))) cycle),
        ),
        rw e (ap (λ r. r.2.cache) (load_resolved_seen p import_path chain _ seen)),
        load_after-keeps other other_chain m (resolve_path h o other other_from m.registry_roots),
      )

  -- Each entry of the cache is what its file gives, under the path of the file.
  abbrev pub IsCache : List (String × LoadedSchema X) → Type 0
  IsCache cache =
      (p : String) (s : LoadedSchema X)
      → get p cache ≡ some s
      → (load_file d p ≡ success s.schema) × (s.source_path ≡ p)

  -- The schema of a result and the path of its file, or its error.
  abbrev pub schema_of : LoadResult (LoadedSchema X) → LoadResult (OrbitalSchema X × String)
  schema_of (success s) = success (s.schema, s.source_path)
  schema_of (failure e) = failure e
  schema_of thrown = thrown

  -- What a file gives, with its path.
  abbrev at_path : String → LoadResult (OrbitalSchema X) → LoadResult (OrbitalSchema X × String)
  at_path p (success s) = success (s, p)
  at_path p (failure e) = failure e
  at_path p thrown = thrown

  keep_loaded-IsCache :
      (p import_path : String) (r : LoadResult (OrbitalSchema X)) (l : ExternalLoader X)
      → load_file d p ≡ r
      → IsCache l.cache
      → (schema_of (keep_loaded d p import_path r l).0 ≡ at_path p r)
        × IsCache (keep_loaded d p import_path r l).1.cache
  keep_loaded-IsCache p import_path (failure x) l e v = (refl, v)
  keep_loaded-IsCache p import_path thrown l e v = (refl, v)
  keep_loaded-IsCache p import_path (success s) l e v = (
    refl,
    λ q t g. elim (Bool-cases (p == q)) [
      | inl here ↦
          (let same = some-injective loaded t (rw (get-put p q loaded l.cache, here) at g) in
            let at_p = (string_eq.test_iff p q).0 here in
            (
              subst (λ x. load_file d q ≡ success x.schema) same (ap (load_file d) (sym at_p) ∙ e),
              subst (λ x. x.source_path ≡ q) same at_p,
            ))
      | inr there ↦ v q t (rw (get-put p q loaded l.cache, there) at g)
    ],
  )
    where
      loaded : LoadedSchema X
      loaded = record { schema = s; source_path = p; import_path = import_path }

  load_path-IsCache :
      (p import_path : String) (l : ExternalLoader X)
      → IsCache l.cache
      → (schema_of (load_path d p import_path l).0 ≡ at_path p (load_file d p))
        × IsCache (load_path d p import_path l).1.cache
  unfolding load_path
  load_path-IsCache p import_path l v = elim (Option-cases (get p l.cache)) [
    | inr (s, cached) ↦
        rw (cached, load_path)
          (
            ap (λ q. success (s.schema, q)) (v p s cached).1
                ∙ sym (ap (at_path p) (v p s cached).0),
            v,
          )
    | inl fresh ↦ rw (fresh, load_path) (keep_loaded-IsCache p import_path (load_file d p) l refl v)
  ]

  load_resolved-schema :
      (p import_path : String) (chain : ImportChain) (l m : ExternalLoader X)
      → IsCache l.cache
      → IsCache m.cache
      → (schema_of (load_resolved d p import_path chain l).0
          ≡ schema_of (load_resolved d p import_path chain m).0)
        × IsCache (load_resolved d p import_path chain l).2.cache
  load_resolved-schema p import_path chain l m v w = elim (Bool-cases (contains p chain)) [
    | inl seen ↦
        rw
          (
            load_resolved_seen p import_path chain l seen,
            load_resolved_seen p import_path chain m seen,
          )
          (refl, v)
    | inr new ↦
        rw
          (load_resolved_new p import_path chain l new, load_resolved_new p import_path chain m new)
          (
            (load_path-IsCache p import_path l v).0 ∙ sym (load_path-IsCache p import_path m w).0,
            (load_path-IsCache p import_path l v).1,
          )
  ]

  load_after-schema :
      (import_path : String) (chain : ImportChain) (l m : ExternalLoader X)
      (r : LoadResult String × Roots)
      → IsCache l.cache
      → IsCache m.cache
      → (schema_of (load_after d import_path chain l r).0
          ≡ schema_of (load_after d import_path chain m r).0)
        × IsCache (load_after d import_path chain l r).2.cache
  load_after-schema import_path chain l m (failure e, table) v w = (refl, v)
  load_after-schema import_path chain l m (thrown, table) v w = (refl, v)
  load_after-schema import_path chain l m (success p, table) v w =
      load_resolved-schema p import_path chain (record l { registry_roots = table })
        (record m { registry_roots = table }) v w

  -- As long as the files stay as they are, a load with the cache gives the schema and the path of its
  -- file, or the error, that a load with an empty cache gives, and the cache holds again what the files
  -- give. The import path in the result may be another: a cached result has that of the first import.
  pub load-schema :
      (h : Host) (o : LoaderOptions) (import_path : String) (from : Option String)
      (chain : ImportChain) (l : ExternalLoader X)
      → IsCache l.cache
      → (schema_of (load d h o import_path from chain l).0
          ≡ schema_of (load d h o import_path from chain (record l { cache = [] })).0)
        × IsCache (load d h o import_path from chain l).2.cache
  unfolding load get
  load-schema h o import_path from chain l v =
      load_after-schema import_path chain l (record l { cache = [] })
        (resolve_path h o import_path from l.registry_roots) v (λ p s g. cc)
