-- ===== src/Loader/Chain.antt =====
-- `ImportChain`: the paths that are being loaded, the innermost last.
use almadar_runtime.Base.{
  ◌≡◌, refl, true, inl, inr, List, [], ◌∷◌, ◌++◌, Option, none, some, String, contains, ◌==◌,
  if◌then◌else◌, string_eq, Bool-cases, ap,
}

abbrev pub ImportChain : Type 0
ImportChain = List String

-- `chain.slice(chain.indexOf(path))`.
abbrev pub from_index : String → List String → List String
from_index p [] = []
from_index p (q ∷ qs) = let rest = from_index p qs in if q == p then q ∷ qs else rest

-- Without a last one, nothing.
abbrev pub drop_last : List String → List String
drop_last [] = []
drop_last (p ∷ []) = []
drop_last (p ∷ q ∷ ps) = p ∷ drop_last (q ∷ ps)

-- The chain after the push and, for a circular import, the cycle that the error names.
unfoldable pub push : String → ImportChain → ImportChain × Option (List String)
push p chain =
    if contains p chain
    then (chain, some (from_index p chain ++ p ∷ []))
    else (chain ++ p ∷ [], none)

unfoldable pub pop : ImportChain → ImportChain
pop chain = drop_last chain

pub drop_last-append : (ps : List String) (p : String) → drop_last (ps ++ p ∷ []) ≡ ps
drop_last-append [] p = refl
drop_last-append (q ∷ []) p = refl
drop_last-append (q ∷ r ∷ ps) p = ap (λ qs. q ∷ qs) (drop_last-append (r ∷ ps) p)

-- The cycle begins and ends at the path.
pub from_index-head :
    (p : String) (ps : List String)
    → contains p ps ≡ true
    → (rest : List String) × (from_index p ps ≡ p ∷ rest)
from_index-head p [] h = cc
from_index-head p (q ∷ qs) h = elim (Bool-cases (q == p)) [
  | inl here ↦ (qs, rw here (ap (λ r. r ∷ qs) ((string_eq.test_iff q p).0 here)))
  | inr later ↦ (let (rest, e) = from_index-head p qs (rw later at h) in (rest, rw later e))
]
