-- ===== src/Loader/Load/Orbitals.antt =====
-- Which orbital of a schema `loadOrbital` returns.
use almadar_runtime.Base.{
  ◌≡◌, refl, ap, false, inl, inr, List, [], ◌∷◌, ◌++◌, Option, none, some, String, contains, ◌==◌,
  string_eq, Bool-cases,
}
use almadar_runtime.Loader.Errors.{
  orbital_not_found, no_orbitals, LoadResult, success, failure, thrown,
}
use almadar_runtime.Loader.Load.{ExternalOrbital, find_orbital, first_or, found_or, pick_orbital}

module _ {X : Type 0} where
  abbrev pub names : List (ExternalOrbital X) → List String
  names [] = []
  names (o ∷ os) = o.name ∷ names os

  -- The first of the orbitals with the name.
  abbrev pub FirstNamed : String → List (ExternalOrbital X) → ExternalOrbital X → Type 0
  FirstNamed n os o =
      (before : List (ExternalOrbital X)) × (after : List (ExternalOrbital X)) × (os
        ≡ before ++ o ∷ after)
      × (o.name ≡ n)
      × (contains n (names before) ≡ false)

  -- The first orbital without a name to look for, else the first one of that name; an error says
  -- that there is none, which is so.
  abbrev pub Picked :
      String → Option String → List (ExternalOrbital X) → LoadResult (ExternalOrbital X) → Type 0
  Picked p none os (success o) = (after : List (ExternalOrbital X)) × (os ≡ o ∷ after)
  Picked p none os (failure e) = (e ≡ no_orbitals p) × (os ≡ [])
  Picked p none os thrown = ⊥
  Picked p (some n) os (success o) = FirstNamed n os o
  Picked p (some n) os (failure e) = (e ≡ orbital_not_found n p) × (contains n (names os) ≡ false)
  Picked p (some n) os thrown = ⊥

  found_or-Picked :
      (p n : String) (os : List (ExternalOrbital X))
      → Picked p (some n) os (found_or p n (find_orbital n os))
  found_or-Picked p n [] = (refl, refl)
  found_or-Picked p n (o ∷ os) = elim (Bool-cases (o.name == n)) [
    | inl here ↦ rw here ([], os, refl, (string_eq.test_iff o.name n).0 here, refl)
    | inr there ↦ rw there (later there (find_orbital n os) (found_or-Picked p n os))
  ]
    where
      later :
          (o.name == n) ≡ false
          → (r : Option (ExternalOrbital X)) → Picked p (some n) os (found_or p n r)
          → Picked p (some n) (o ∷ os) (found_or p n r)
      later there none (e, lacks) = (refl, rw there lacks)
      later there (some q) (before, after, e, named, first) =
          (o ∷ before, after, ap (λ xs. o ∷ xs) e, named, rw there first)

  first_or-Picked : (p : String) (os : List (ExternalOrbital X)) → Picked p none os (first_or p os)
  first_or-Picked p [] = (refl, refl)
  first_or-Picked p (o ∷ os) = (os, refl)

  -- Without a name, `loadOrbital` returns the first orbital, and an error exactly if there is none.
  pub pick_orbital_first :
      (p : String) (os : List (ExternalOrbital X)) → Picked p none os (pick_orbital p none os)
  unfolding pick_orbital
  pick_orbital_first p os = first_or-Picked p os

  -- With a name that is not empty, `loadOrbital` picks the first orbital of that name; where none has
  -- it, the result is the error that says so, and no other way does it fail.
  pub pick_orbital_named :
      (p n : String) (os : List (ExternalOrbital X))
      → (n == "") ≡ false
      → Picked p (some n) os (pick_orbital p (some n) os)
  unfolding pick_orbital
  pick_orbital_named p n os given = rw given (found_or-Picked p n os)
