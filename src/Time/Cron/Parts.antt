-- ===== src/Time/Cron/Parts.antt =====
-- The loops over the parts of a cron field and over its steps.
use almadar_runtime.Base.{
  ℕ, zero, suc, ◌+◌, ◌-◌, ◌*◌, ◌≤◌, ◌<◌, ◌≡◌, refl, sym, ap, ◌∙◌, ◌↔◌, inl, inr, true, ◌&&◌, ◌||◌,
  List, [], ◌∷◌, ◌++◌, Option, some, leb, ltb, ◌==◌, nat_eq, ◌>>=◌, insert, contains,
  contains-insert, ℤ, pos, pos_+ℤ_pos, leb_ℤ, ℤ_eq, arith, Bool-cases, Option-cases, ◌⊎◌,
  append_assoc, >>=-eq-some,
}
use almadar_runtime.Time.Digits.{text_eq}
use almadar_runtime.Time.Cron.{walk, run_up, parse_part, add_all, add_parts}

-- The values of all parts, one after the other.
pub gathered : ℕ → List (List ℕ) → ℕ → ℕ → Option (List ℤ)
gathered fuel [] min max = some []
gathered fuel (part ∷ parts) min max = do
  vs ← parse_part fuel part min max
  rest ← gathered fuel parts min max
  some (vs ++ rest)

add_all-append :
    (xs ys values : List ℤ) → add_all (xs ++ ys) values ≡ add_all ys (add_all xs values)
unfolding add_all
add_all-append [] ys values = refl
add_all-append (x ∷ xs) ys values = add_all-append xs ys (insert x values)

pub contains-add_all :
    (v : ℤ) (xs values : List ℤ)
    → contains v (add_all xs values) ≡ (contains v xs || contains v values)
unfolding add_all
contains-add_all v [] values = refl
contains-add_all v (x ∷ xs) values =
    ground (arith, contains-add_all v xs (insert x values), contains-insert x v values)

pub add_parts-gathered :
    (fuel : ℕ) (parts : List (List ℕ)) (min max : ℕ) (values : List ℤ)
    → add_parts fuel parts min max values
      ≡ (gathered fuel parts min max >>= λ vs. some (add_all vs values))
unfolding add_parts gathered add_all
add_parts-gathered fuel [] min max values = refl
add_parts-gathered fuel (part ∷ parts) min max values =
    elim (Option-cases (parse_part fuel part min max)) [
      | inl never ↦ rw never
      | inr (vs, done) ↦
          rw (done, add_parts-gathered fuel parts min max (add_all vs values))
            (elim (Option-cases (gathered fuel parts min max)) [
              | inl never ↦ rw never
              | inr (rest, found) ↦ rw (found, add_all-append vs rest values)
            ])
    ]

pub gathered-append :
    (fuel : ℕ) (ps qs : List (List ℕ)) (min max : ℕ) {xs ys : List ℤ}
    → gathered fuel ps min max ≡ some xs
    → gathered fuel qs min max ≡ some ys
    → gathered fuel (ps ++ qs) min max ≡ some (xs ++ ys)
unfolding gathered
gathered-append fuel [] qs min max h k = ground arith
gathered-append fuel (p ∷ ps) qs min max {xs} {ys} h k =
    let (vs, one, more) = >>=-eq-some (parse_part fuel p min max) _ h in
    let (rest, others, same) = >>=-eq-some (gathered fuel ps min max) _ more in
    let joined : vs ++ rest ≡ xs = ground arith in
    rw (one, gathered-append fuel ps qs min max others k)
      (ap some (sym (append_assoc vs rest ys) ∙ ap (λ z. z ++ ys) joined))

pub contains-run_up :
    (v count from : ℕ) → contains (pos v) (run_up count from) ≡ (leb from v && ltb v (from + count))
unfolding run_up
contains-run_up v zero from = ground arith
contains-run_up v (suc count) from = ground (arith, contains-run_up v count (suc from))

-- Every `step`th value from `i` on, up to `max`.
abbrev pub IsMultiple : ℕ → ℕ → ℕ → ℕ → Type 0
IsMultiple i step max v = (k : ℕ) × (v ≡ i + k * step) × (v ≤ max)

IsMultiple-next :
    (i step max v : ℕ)
    → i ≤ max
    → IsMultiple i step max v ↔ ((i ≡ v) ⊎ IsMultiple (i + step) step max v)
IsMultiple-next i step max v le = (forward, back)
  where
    forward : IsMultiple i step max v → (i ≡ v) ⊎ IsMultiple (i + step) step max v
    forward (zero, e, h) = inl (omega arith)
    forward (suc k, e, h) = inr (k, omega arith, h)

    back : (i ≡ v) ⊎ IsMultiple (i + step) step max v → IsMultiple i step max v
    back (inl e) = (0, omega arith, omega arith)
    back (inr (k, e, h)) = (suc k, omega arith, h)

pub walk_multiples :
    (fuel i step max : ℕ)
    → 0 < step
    → suc max - i < fuel
    → (vs : List ℤ) × (walk fuel (pos i) (pos step) max ≡ some vs)
      × ((v : ℕ) → (contains (pos v) vs ≡ true) ↔ IsMultiple i step max v)
unfolding walk
walk_multiples zero i step max h lt = absurd (omega arith)
walk_multiples (suc fuel) i step max h lt = elim (Bool-cases (leb_ℤ (pos i) (pos max))) [
  | inr over ↦ (
    [],
    rw over,
    λ v. (
      λ e. cc,
      λ m. absurd (let (k, e, le) = m in let big : max < i = ground arith in omega arith),
    ),
  )
  | inl within ↦
      let le : i ≤ max = ground arith in
      let (vs, done, mem) = walk_multiples fuel (i + step) step max h (omega arith) in
      (
        pos i ∷ vs,
        rw (within, pos_+ℤ_pos i step, done),
        λ v. (
          λ e. (IsMultiple-next i step max v le).1 (elim (Bool-cases (i == v)) [
            | inl same ↦ inl (ground arith)
            | inr other ↦ inr ((mem v).0 (ground arith))
          ]),
          λ m. elim ((IsMultiple-next i step max v le).0 m) [
            | inl same ↦ ground arith
            | inr later ↦ let found = (mem v).1 later in ground arith
          ],
        ),
      )
]
