-- ===== src/Base/Affix.antt =====
-- The ends of a text: `startsWith`, `endsWith`, `slice`, and the pieces around a character.
use Prim.Native.Nat.{ℕ, zero, suc}
use Prim.Native.Char.{Char, code}
use Prim.Native.String
use Prim.Native.String.{String, [], ◌∷◌}
use mathlib.Core.Path.{◌≡◌, refl, sym, ap, ◌∙◌}
use mathlib.Core.Logic.{inl, inr}
use mathlib.Core.Bool.{Bool, true, false, ◌&&◌, ◌||◌}
use native.Mathlib.Omega.{arith}
use text.Mathlib.TextEquality.{Char-path}
use text.Mathlib.TextLemmas.{nil-append, cons-append}
use almadar_runtime.Base.Tests.{◌==◌, nat_eq, string_eq, if◌then◌else◌, Bool-cases}

-- `s.startsWith(word)`.
abbrev pub starts_with : String → String → Bool
starts_with [] s = true
starts_with (c ∷ w) [] = false
starts_with (c ∷ w) (d ∷ s) = code c == code d && starts_with w s

-- `s.slice(n)`.
abbrev pub slice : ℕ → String → String
slice zero s = s
slice (suc n) [] = []
slice (suc n) (c ∷ s) = slice n s

-- `s.endsWith(word)`.
abbrev pub ends_with : String → String → Bool
ends_with word [] = word == []
ends_with word (c ∷ s) = word == (c ∷ s) || ends_with word s

-- `s` without the word at its end, if it ends so.
abbrev pub strip_suffix : String → String → String
strip_suffix word [] = []
strip_suffix word (c ∷ s) =
    let rest = strip_suffix word s in if word == (c ∷ s) then [] else c ∷ rest

-- `s.includes(c)`.
abbrev pub has_char : Char → String → Bool
has_char sep [] = false
has_char sep (c ∷ s) = code c == code sep || has_char sep s

-- `s.slice(s.lastIndexOf(c) + 1)`.
abbrev pub after_last : Char → String → String
after_last sep [] = []
after_last sep (c ∷ s) =
    let rest = after_last sep s in
    if has_char sep s then rest else if code c == code sep then s else c ∷ s

-- `s.slice(0, s.indexOf(c))`, and all of `s` where the character does not stand.
abbrev pub before_first : Char → String → String
before_first sep [] = []
before_first sep (c ∷ s) =
    let rest = before_first sep s in if code c == code sep then [] else c ∷ rest

-- `s.slice(s.indexOf(c) + 1)`, and nothing where the character does not stand.
abbrev pub after_first : Char → String → String
after_first sep [] = []
after_first sep (c ∷ s) = let rest = after_first sep s in if code c == code sep then s else rest

pub before_first-append-after_first :
    (sep : Char) (s : String)
    → has_char sep s ≡ true
    → String.◌++◌ (before_first sep s) (sep ∷ after_first sep s) ≡ s
before_first-append-after_first sep [] h = cc
before_first-append-after_first sep (c ∷ s) h = elim (Bool-cases (code c == code sep)) [
  | inl here ↦ rw here (
      nil-append (sep ∷ s)
      ∙ ap (λ d. d ∷ s) (Char-path sep c (sym ((nat_eq.test_iff (code c) (code sep)).0 here))))
  | inr later ↦ rw later (
      cons-append c (before_first sep s) (sep ∷ after_first sep s)
      ∙ ap (λ t. c ∷ t) (before_first-append-after_first sep s (rw later at h)))
]

pub before_first-lacks : (sep : Char) (s : String) → has_char sep (before_first sep s) ≡ false
before_first-lacks sep [] = refl
before_first-lacks sep (c ∷ s) = elim (Bool-cases (code c == code sep)) [
  | inl here ↦ rw here refl
  | inr later ↦ rw (later, later) (before_first-lacks sep s)
]

-- A text starts with a word exactly if it is the word and a rest.
pub starts_with-append : (w s : String) → starts_with w (String.◌++◌ w s) ≡ true
starts_with-append [] s = refl
starts_with-append (c ∷ w) s =
    rw cons-append (ground (arith, starts_with-append w s, nat_eq.test_iff (code c) (code c)))
