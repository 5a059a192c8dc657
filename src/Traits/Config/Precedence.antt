-- ===== src/Traits/Config/Precedence.antt =====
-- Which value a configuration's key is bound to.
use mathlib.Core.Option.{map, some-injective}
use almadar_runtime.Base.{
  ◌≡◌, refl, sym, ap, ◌∙◌, false, ◌&&◌, not, inl, inr, List, [], ◌∷◌, Option, none, some, String,
  get, get_or, or_else, put, keys, contains, is_some, IsUnique, ◌==◌, if◌then◌else◌, string_eq,
  arith, Bool-cases, Option-cases, get-put,
}
use almadar_runtime.Traits.Config.{
  ConfigValue, Config, DeclaredField, default_of, with_default, declared_defaults, if_any,
  collect_declared_config_defaults, put_all, is_config_forward, own_values, own_override, resolve,
  resolve_all, build_config_binding,
}

get-missing {ℓ} :
    {V : Type ℓ} (k : String) (m : List (String × V)) → contains k (keys m) ≡ false → get k m ≡ none
unfolding get
get-missing k [] h = refl
get-missing k ((j, v) ∷ m) h = ground (arith, get-missing k m)

get-put_all {ℓ} :
    {V : Type ℓ} (k : String) (es m : List (String × V))
    → IsUnique (keys es)
    → get k (put_all es m) ≡ or_else (get k es) (get k m)
unfolding get put_all
get-put_all k [] m u = refl
get-put_all k ((j, v) ∷ es) m (n, u) = elim (Bool-cases (j == k)) [
  | inl same ↦
      rw
        (
          get-put_all k es (put j v m) u,
          get-put j k v m,
          same,
          get-missing k es (ground (arith, string_eq.test_iff j k)),
        )
        refl
  | inr other ↦ rw (get-put_all k es (put j v m) u, get-put j k v m, other) refl
]

-- The value under the key, unless it forwards to another configuration.
abbrev pub own : Option ConfigValue → Option ConfigValue
own none = none
own (some v) = if is_config_forward v then none else some v

contains-own_values :
    (k : String) (es : Config)
    → contains k (keys es) ≡ false
    → contains k (keys (own_values es)) ≡ false
unfolding own_values
contains-own_values k [] h = refl
contains-own_values k ((j, v) ∷ es) h = elim (Bool-cases (is_config_forward v)) [
  | inl forward ↦ rw forward (contains-own_values k es (ground arith))
  | inr value ↦ rw value (ground (arith, contains-own_values k es))
]

own_values-IsUnique : (es : Config) → IsUnique (keys es) → IsUnique (keys (own_values es))
unfolding own_values
own_values-IsUnique [] u = tt
own_values-IsUnique ((j, v) ∷ es) (n, u) = elim (Bool-cases (is_config_forward v)) [
  | inl forward ↦ rw forward (own_values-IsUnique es u)
  | inr value ↦ rw value (contains-own_values j es n, own_values-IsUnique es u)
]

get-own_values :
    (k : String) (es : Config) → IsUnique (keys es) → get k (own_values es) ≡ own (get k es)
unfolding get own_values
get-own_values k [] u = refl
get-own_values k ((j, v) ∷ es) (n, u) = elim (Bool-cases (is_config_forward v)) [
  | inl forward ↦ elim (Bool-cases (j == k)) [
    | inl same ↦
        rw
          (
            forward,
            get-own_values k es u,
            get-missing k es (ground (arith, string_eq.test_iff j k)),
            same,
            forward,
          )
          refl
    | inr other ↦ rw (forward, get-own_values k es u, other) refl
  ]
  | inr value ↦ elim (Bool-cases (j == k)) [
    | inl same ↦ rw (value, same, value) refl
    | inr other ↦ rw (value, other, get-own_values k es u) refl
  ]
]

get-resolve_all :
    (nested : String → Option ConfigValue) (k : String) (m : Config)
    → get k (resolve_all nested m) ≡ map (resolve nested) (get k m)
unfolding get resolve_all
get-resolve_all nested k [] = refl
get-resolve_all nested k ((j, v) ∷ m) = elim (Bool-cases (j == k)) [
  | inl same ↦ rw same refl
  | inr other ↦ rw other (get-resolve_all nested k m)
]

-- The default that the key's field declares.
abbrev pub declared : Option DeclaredField → Option ConfigValue
declared none = none
declared (some f) = default_of f

contains-with_default :
    (k key : String) (d : Option ConfigValue) (m : Config)
    → (key == k) ≡ false
    → contains k (keys m) ≡ false
    → contains k (keys (with_default key d m)) ≡ false
contains-with_default k key none m n h = h
contains-with_default k key (some v) m n h = rw (n, h) refl

contains-declared_defaults :
    (k : String) (fs : List (String × DeclaredField))
    → contains k (keys fs) ≡ false
    → contains k (keys (declared_defaults fs)) ≡ false
unfolding declared_defaults
contains-declared_defaults k [] h = refl
contains-declared_defaults k ((key, f) ∷ fs) h =
    contains-with_default k key (default_of f) (declared_defaults fs) (ground arith)
      (contains-declared_defaults k fs (ground arith))

with_default-IsUnique :
    (key : String) (d : Option ConfigValue) (m : Config)
    → contains key (keys m) ≡ false
    → IsUnique (keys m)
    → IsUnique (keys (with_default key d m))
with_default-IsUnique key none m n u = u
with_default-IsUnique key (some v) m n u = (n, u)

declared_defaults-IsUnique :
    (fs : List (String × DeclaredField))
    → IsUnique (keys fs)
    → IsUnique (keys (declared_defaults fs))
unfolding declared_defaults
declared_defaults-IsUnique [] u = tt
declared_defaults-IsUnique ((key, f) ∷ fs) (n, u) =
    with_default-IsUnique key (default_of f) (declared_defaults fs)
      (contains-declared_defaults key fs n) (declared_defaults-IsUnique fs u)

get-declared_defaults :
    (k : String) (fs : List (String × DeclaredField))
    → IsUnique (keys fs)
    → get k (declared_defaults fs) ≡ declared (get k fs)
unfolding get declared_defaults
get-declared_defaults k [] u = refl
get-declared_defaults k ((key, f) ∷ fs) (n, u) = elim (Option-cases (default_of f)) [
  | inl absent ↦ elim (Bool-cases (key == k)) [
    | inl same ↦
        rw
          (
            absent,
            same,
            get-declared_defaults k fs u,
            get-missing k fs (ground (arith, string_eq.test_iff key k)),
          )
          (sym absent)
    | inr other ↦ rw (absent, other) (get-declared_defaults k fs u)
  ]
  | inr (v, given) ↦ elim (Bool-cases (key == k)) [
    | inl same ↦ rw (given, same) (sym given)
    | inr other ↦ rw (given, other) (get-declared_defaults k fs u)
  ]
]

get_or-if_any : (m : Config) → get_or (if_any m) [] ≡ m
get_or-if_any [] = refl
get_or-if_any (e ∷ es) = refl

get_or-collect :
    (schema : Option (List (String × DeclaredField)))
    → get_or (collect_declared_config_defaults schema) [] ≡ declared_defaults (get_or schema [])
unfolding declared_defaults
get_or-collect none = refl
get_or-collect (some fs) = get_or-if_any (declared_defaults fs)

get_or-own_override :
    (override : Option Config) → get_or (own_override override) [] ≡ own_values (get_or override [])
unfolding own_values
get_or-own_override none = refl
get_or-own_override (some es) = refl

merged :
    (schema : List (String × DeclaredField)) (resolved override : Config) (k : String)
    → IsUnique (keys schema)
    → IsUnique (keys resolved)
    → IsUnique (keys override)
    → get k
        (put_all (own_values override) (put_all resolved (put_all (declared_defaults schema) [])))
      ≡ or_else
          (own (get k override))
          (or_else (get k resolved) (or_else (declared (get k schema)) none))
merged schema resolved override k u₁ u₂ u₃ =
    rw
      (
        get-put_all k (own_values override)
            (put_all resolved (put_all (declared_defaults schema) []))
            (own_values-IsUnique override u₃),
        get-put_all k resolved (put_all (declared_defaults schema) []) u₂,
        get-put_all k (declared_defaults schema) [] (declared_defaults-IsUnique schema u₁),
        get-own_values k override u₃,
        get-declared_defaults k schema u₁,
      )
      (unfold get in refl)

-- In a configuration that is bound, a key has the call site's value unless that forwards to another
-- configuration, else the resolved default, else the declared one; a value that forwards to the user
-- is looked up there. Each of the three objects has its keys once.
pub get-build_config_binding :
    (nested : String → Option ConfigValue) (schema : Option (List (String × DeclaredField)))
    (resolved override : Option Config) (k : String) (m : Config)
    → IsUnique (keys (get_or schema []))
    → IsUnique (keys (get_or resolved []))
    → IsUnique (keys (get_or override []))
    → build_config_binding nested schema resolved override ≡ some m
    → get k m
      ≡ map (resolve nested) (
          or_else (own (get k (get_or override []))) (
            or_else
              (get k (get_or resolved []))
              (or_else (declared (get k (get_or schema []))) none)))
unfolding build_config_binding
get-build_config_binding nested schema resolved override k m u₁ u₂ u₃ h =
    elim (Bool-cases (
      not (is_some (collect_declared_config_defaults schema))
      && not (is_some resolved)
      && not (is_some (own_override override)))) [
        | inl nothing ↦ cc (rw nothing at h)
        | inr something ↦
            ap (get k) (sym (some-injective _ m (rw something at h)))
            ∙ get-resolve_all nested k _
            ∙ ap (map (resolve nested)) (
                rw (get_or-collect schema, get_or-own_override override)
                  (merged (get_or schema []) (get_or resolved []) (get_or override []) k u₁ u₂ u₃))
      ]
