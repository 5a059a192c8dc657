-- ===== src/Base/Text.antt =====
-- `split` and `join` on texts.
use Prim.Native.Char.{Char, code}
use Prim.Native.String
use Prim.Native.String.{String, [], ◌∷◌}
use mathlib.Core.Path.{◌≡◌, refl, sym, ap, ap₂, ◌∙◌}
use mathlib.Core.Logic.{◌≢◌, inl, inr}
use mathlib.Core.List.{List, [], ◌∷◌, ◌++◌}
use native.Mathlib.Omega.{arith}
use text.Mathlib.TextLemmas.{nil-append, cons-append}
use text.Mathlib.TextEquality.{Char-path}
use almadar_runtime.Base.Tests.{◌==◌, nat_eq, if◌then◌else◌, Bool-cases}

-- A character in front of the first part.
abbrev push_front : Char → List String → List String
push_front c [] = (c ∷ "") ∷ []
push_front c (p ∷ ps) = (c ∷ p) ∷ ps

-- `s.split(sep)` for a separator of one character.
unfoldable pub split : Char → String → List String
split sep [] = "" ∷ []
split sep (c ∷ s) = if code c == code sep then "" ∷ split sep s else push_front c (split sep s)

-- `parts.join(sep)`.
unfoldable pub join : Char → List String → String
join sep [] = ""
join sep (p ∷ []) = p
join sep (p ∷ q ∷ ps) = String.◌++◌ p (sep ∷ join sep (q ∷ ps))

abbrev pub Free : Char → String → Type 0
Free sep [] = Unit
Free sep (c ∷ s) = (code c ≢ code sep) × Free sep s

pub split-Free : (sep : Char) (s : String) → Free sep s → split sep s ≡ s ∷ []
unfolding split
split-Free sep [] h = refl
split-Free sep (c ∷ s) (n, h) = ground (arith, split-Free sep s h)

push_front-append :
    (c : Char) (xs ys : List String) → xs ≢ [] → push_front c (xs ++ ys) ≡ push_front c xs ++ ys
push_front-append c [] ys h = absurd (h refl)
push_front-append c (x ∷ xs) ys h = refl

push_front-ne-nil : (c : Char) (xs : List String) → push_front c xs ≢ []
push_front-ne-nil c [] = cc
push_front-ne-nil c (x ∷ xs) = cc

pub split-ne-nil : (sep : Char) (s : String) → split sep s ≢ []
unfolding split
split-ne-nil sep [] = cc
split-ne-nil sep (c ∷ s) = ground (arith, push_front-ne-nil c (split sep s))

pub split-append :
    (sep : Char) (s t : String) → split sep (String.◌++◌ s (sep ∷ t)) ≡ split sep s ++ split sep t
unfolding split
split-append sep [] t = rw nil-append (ground (arith, nat_eq.test_iff (code sep) (code sep)))
split-append sep (c ∷ s) t = rw cons-append (
    ground (
      arith,
      split-append sep s t,
      push_front-append c (split sep s) (split sep t) (split-ne-nil sep s),
    ))

join-push_front :
    (sep c : Char) (xs : List String) → xs ≢ [] → join sep (push_front c xs) ≡ c ∷ join sep xs
unfolding join
join-push_front sep c [] h = absurd (h refl)
join-push_front sep c (x ∷ []) h = refl
join-push_front sep c (x ∷ y ∷ xs) h = cons-append c x (sep ∷ join sep (y ∷ xs))

join-nil_cons : (sep : Char) (xs : List String) → xs ≢ [] → join sep ("" ∷ xs) ≡ sep ∷ join sep xs
unfolding join
join-nil_cons sep [] h = absurd (h refl)
join-nil_cons sep (x ∷ xs) h = nil-append (sep ∷ join sep (x ∷ xs))

pub join-split : (sep : Char) (s : String) → join sep (split sep s) ≡ s
unfolding split
join-split sep [] = unfold join in refl
join-split sep (c ∷ s) = elim (Bool-cases (code c == code sep)) [
  | inl same ↦ rw same (
      join-nil_cons sep (split sep s) (split-ne-nil sep s)
      ∙ ap₂ (λ a b. a ∷ b) (sym (Char-path c sep (ground arith))) (join-split sep s))
  | inr other ↦ rw other (
      join-push_front sep c (split sep s) (split-ne-nil sep s) ∙ ap (λ b. c ∷ b) (join-split sep s))
]
