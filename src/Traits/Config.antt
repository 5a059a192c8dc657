-- ===== src/Traits/Config.antt =====
-- traits/config-defaults.ts: the binding of a trait's configuration and of its entity. Objects are
-- dictionaries; `nested` is `getNestedValue` of @almadar/core on the user's context.
pub mod Precedence
use Prim.Native.Char.{Char, code}
use Prim.Native.String
use almadar_runtime.Base.{
  ℕ, zero, suc, ◌≡◌, Bool, true, false, ◌&&◌, ◌||◌, not, List, [], ◌∷◌, Option, none, some, String,
  every, get_or, put, is_some, leb, ◌==◌, if◌then◌else◌, nat_eq, string_eq, split, starts_with,
  slice,
}

-- A text, a number or a boolean, or what is neither.
pub data ConfigValue : Type 0 where
  text : String → ConfigValue
  scalar : ℕ → ConfigValue
  structure : ℕ → ConfigValue

abbrev pub Config : Type 0
Config = List (String × ConfigValue)

-- A declared field that is no object has no default, as one whose default is undefined.
pub data DeclaredField : Type 0 where
  no_object : DeclaredField
  field : Option ConfigValue → DeclaredField

abbrev pub default_of : DeclaredField → Option ConfigValue
default_of no_object = none
default_of (field d) = d

abbrev pub with_default : String → Option ConfigValue → Config → Config
with_default key none m = m
with_default key (some v) m = (key, v) ∷ m

unfoldable pub declared_defaults : List (String × DeclaredField) → Config
declared_defaults [] = []
declared_defaults ((key, f) ∷ fs) = with_default key (default_of f) (declared_defaults fs)

abbrev pub if_any : Config → Option Config
if_any [] = none
if_any (e ∷ es) = some (e ∷ es)

abbrev pub collect_declared_config_defaults : Option (List (String × DeclaredField)) → Option Config
collect_declared_config_defaults none = none
collect_declared_config_defaults (some fs) = if_any (declared_defaults fs)

-- `Object.assign`, one entry after another.
unfoldable pub put_all {ℓ} :
    {V : Type ℓ} → List (String × V) → List (String × V) → List (String × V)
put_all [] m = m
put_all ((k, v) ∷ es) m = put_all es (put k v m)

abbrev pub is_config_forward : ConfigValue → Bool
is_config_forward (text s) = starts_with "@config." s
is_config_forward v = false

-- The call-site values that stand for themselves.
unfoldable pub own_values : Config → Config
own_values [] = []
own_values ((k, v) ∷ es) =
    let rest = own_values es in if is_config_forward v then rest else (k, v) ∷ rest

abbrev pub own_override : Option Config → Option Config
own_override none = none
own_override (some es) = some (own_values es)

-- `\w`.
abbrev pub is_word_char : ℕ → Bool
is_word_char c =
    leb b'a' c && leb c b'z' || leb b'A' c && leb c b'Z' || leb b'0' c && leb c b'9' || c == b'_'

abbrev pub all_word : String → Bool
all_word String.[] = true
all_word (String.◌∷◌ c s) = is_word_char (code c) && all_word s

abbrev pub is_word : String → Bool
is_word s = not (s == "") && all_word s

-- `/^@user(?:\.[\w]+)+$/`, by the parts between the dots.
abbrev pub user_parts : List String → Bool
user_parts (p ∷ q ∷ ps) = p == "@user" && every is_word (q ∷ ps)
user_parts ps = false

abbrev pub is_user_forward : String → Bool
is_user_forward s = user_parts (split "." s)

abbrev pub plain : Option ConfigValue → ConfigValue
plain (some (text s)) = text s
plain (some (scalar n)) = scalar n
plain o = text ""

module _ (nested : String → Option ConfigValue) where
  abbrev pub resolve : ConfigValue → ConfigValue
  resolve (text s) = if is_user_forward s then plain (nested (slice 6 s)) else text s
  resolve v = v

  unfoldable pub resolve_all : Config → Config
  resolve_all [] = []
  resolve_all ((k, v) ∷ m) = (k, resolve v) ∷ resolve_all m

  unfoldable pub build_config_binding :
      Option (List (String × DeclaredField)) → Option Config → Option Config → Option Config
  build_config_binding schema resolved override =
      let declared = collect_declared_config_defaults schema in
      let own = own_override override in
      if not (is_some declared) && not (is_some resolved) && not (is_some own)
      then none
      else some (
          resolve_all (
            put_all (get_or own [])
              (put_all (get_or resolved []) (put_all (get_or declared []) []))))
