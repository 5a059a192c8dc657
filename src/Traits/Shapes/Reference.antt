-- ===== src/Traits/Shapes/Reference.antt =====
-- The texts that refer to a field of a payload.
use Prim.Native.Char.{code}
use Prim.Native.String.{String, [], ◌∷◌}
use almadar_runtime.Base.{
  ℕ, Bool, true, false, ◌&&◌, ◌||◌, Option, none, some, leb, ◌==◌, if◌then◌else◌, nat_eq,
  starts_with, slice,
}

-- `\w`.
abbrev pub is_word_char : ℕ → Bool
is_word_char c =
    (leb b'a' c && leb c b'z')
    || (leb b'A' c && leb c b'Z')
    || (leb b'0' c && leb c b'9')
    || c == b'_'

abbrev pub all_word : String → Bool
all_word [] = true
all_word (c ∷ s) = is_word_char (code c) && all_word s

abbrev pub is_word : String → Bool
is_word [] = false
is_word (c ∷ s) = is_word_char (code c) && all_word s

-- The field that `@payload.<field>` names.
abbrev pub payload_reference : String → Option String
payload_reference s =
    if starts_with "@payload." s && is_word (slice 9 s) then some (slice 9 s) else none
