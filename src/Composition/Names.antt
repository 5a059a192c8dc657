-- ===== src/Composition/Names.antt =====
-- Names in effects/composition/compose-behaviors.ts: `toKebabCase` and `replace`. Texts are lists of
-- code units; letters are lowered and spaces joined in ASCII.
use almadar_runtime.Base.{
  ℕ, zero, suc, ◌+◌, Bool, true, false, ◌&&◌, ◌||◌, List, [], ◌∷◌, leb, ◌==◌, if◌then◌else◌, nat_eq,
  length,
}

abbrev pub is_lower : ℕ → Bool
is_lower c = leb b'a' c && leb c b'z'

abbrev pub is_upper : ℕ → Bool
is_upper c = leb b'A' c && leb c b'Z'

-- `\s` in ASCII, and the underscore.
abbrev pub is_gap : ℕ → Bool
is_gap c = c == b' ' || leb 9 c && leb c 13 || c == b'_'

abbrev pub hyphenate : List ℕ → List ℕ
hyphenate [] = []
hyphenate (c ∷ []) = c ∷ []
hyphenate (c ∷ d ∷ s) =
    let rest = hyphenate (d ∷ s) in if is_lower c && is_upper d then c ∷ b'-' ∷ rest else c ∷ rest

abbrev pub join_gaps : Bool → List ℕ → List ℕ
join_gaps inside [] = []
join_gaps inside (c ∷ s) =
    let after = join_gaps true s in
    let outside = join_gaps false s in
    if is_gap c then (if inside then after else b'-' ∷ after) else c ∷ outside

abbrev pub lower : List ℕ → List ℕ
lower [] = []
lower (c ∷ s) = (if is_upper c then c + 32 else c) ∷ lower s

unfoldable pub to_kebab_case : List ℕ → List ℕ
to_kebab_case name = lower (join_gaps false (hyphenate name))

abbrev pub is_prefix : List ℕ → List ℕ → Bool
is_prefix [] s = true
is_prefix (p ∷ ps) [] = false
is_prefix (p ∷ ps) (c ∷ s) = p == c && is_prefix ps s

abbrev pub drop : ℕ → List ℕ → List ℕ
drop zero s = s
drop (suc n) [] = []
drop (suc n) (c ∷ s) = drop n s

-- `s.replace(word, '')`: the first place where the word stands.
abbrev pub without : List ℕ → List ℕ → List ℕ
without word [] = []
without word (c ∷ s) =
    let rest = without word s in
    if is_prefix word (c ∷ s) then drop (length word) (c ∷ s) else c ∷ rest
