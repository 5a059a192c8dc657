-- ===== src/Time/Duration/Grammar.antt =====
-- The language of duration strings, and what each one is worth.
use almadar_runtime.Base.{
  ℕ, ◌*◌, ◌≡◌, refl, sym, ap, ap₂, ◌∙◌, ◌≢◌, ◌↔◌, false, List, [], ◌∷◌, ◌++◌, some, is_some,
  is_empty, arith, subst, Bool-cases, inl, inr, >>=-eq-some,
}
use almadar_runtime.Time.Digits.{
  codes, text_eq, digits_of, after_digits, value, IsDigits, StartsPlain, digits_of-append,
  digits_of-IsDigits, digits_of_append,
}
use almadar_runtime.Time.Duration.{
  Suffix, absent, millis, seconds, minutes, hours, read_suffix, match_duration, factor,
  parse_duration_string, is_valid_duration_string,
}

abbrev pub spelled : Suffix → List ℕ
spelled absent = []
spelled millis = codes "ms"
spelled seconds = codes "s"
spelled minutes = codes "m"
spelled hours = codes "h"

-- The milliseconds of a unit.
abbrev pub milliseconds_per : Suffix → ℕ
milliseconds_per absent = 1
milliseconds_per millis = 1
milliseconds_per seconds = 1000
milliseconds_per minutes = 60000
milliseconds_per hours = 3600000

factor-eq : (u : Suffix) → factor u ≡ milliseconds_per u
factor-eq absent = refl
factor-eq millis = refl
factor-eq seconds = refl
factor-eq minutes = refl
factor-eq hours = refl

-- A row of digits, at least one, and a unit.
pub record IsDuration (interval : List ℕ) (milliseconds : ℕ) : Type 0 where
  pub digits : List ℕ
  pub unit : Suffix
  pub shape : interval ≡ digits ++ spelled unit
  pub are_digits : IsDigits digits
  pub nonempty : digits ≢ []
  pub worth : milliseconds ≡ value digits * milliseconds_per unit

read_suffix-spelled : (u : Suffix) → read_suffix (spelled u) ≡ some u
unfolding read_suffix
read_suffix-spelled absent = refl
read_suffix-spelled millis = refl
read_suffix-spelled seconds = refl
read_suffix-spelled minutes = refl
read_suffix-spelled hours = refl

spelled_of_read_suffix : (rest : List ℕ) (u : Suffix) → read_suffix rest ≡ some u → rest ≡ spelled u
unfolding read_suffix
spelled_of_read_suffix rest u e = ground (
  arith,
  text_eq.test_iff rest [],
  text_eq.test_iff rest (codes "ms"),
  text_eq.test_iff rest (codes "s"),
  text_eq.test_iff rest (codes "m"),
  text_eq.test_iff rest (codes "h"),
)

spelled-StartsPlain : (u : Suffix) → StartsPlain (spelled u)
spelled-StartsPlain absent = tt
spelled-StartsPlain millis = refl
spelled-StartsPlain seconds = refl
spelled-StartsPlain minutes = refl
spelled-StartsPlain hours = refl

is_empty-eq-false : (xs : List ℕ) → xs ≢ [] → is_empty xs ≡ false
is_empty-eq-false [] h = absurd (h refl)
is_empty-eq-false (x ∷ xs) h = refl

match_duration-append :
    (ds : List ℕ) (u : Suffix)
    → IsDigits ds
    → ds ≢ []
    → match_duration (ds ++ spelled u) ≡ some (ds, u)
unfolding match_duration
match_duration-append ds u h n =
    let (front, back) = digits_of-append ds (spelled u) h (spelled-StartsPlain u) in
    rw (front, back, is_empty-eq-false ds n, read_suffix-spelled u)

match_duration_inv :
    (interval ds : List ℕ) (u : Suffix)
    → match_duration interval ≡ some (ds, u)
    → (interval ≡ ds ++ spelled u) × IsDigits ds × (ds ≢ [])
unfolding match_duration
match_duration_inv interval ds u e = elim (Bool-cases (is_empty (digits_of interval))) [
  | inl empty ↦ absurd (ground arith)
  | inr full ↦
      let (unit, found, same) =
        >>=-eq-some (read_suffix (after_digits interval)) _ (rw (full, match_duration) at e) in
      let digits : digits_of interval ≡ ds = ground arith in
      let suffix : read_suffix (after_digits interval) ≡ some u = ground arith in
      (
        sym (digits_of_append interval)
            ∙ ap₂ (λ a b. a ++ b) digits (spelled_of_read_suffix (after_digits interval) u suffix),
        subst IsDigits digits (digits_of-IsDigits interval),
        λ nil. absurd (ground arith),
      )
]

parse_sound :
    (interval : List ℕ) (milliseconds : ℕ)
    → parse_duration_string interval ≡ some milliseconds
    → IsDuration interval milliseconds
unfolding parse_duration_string
parse_sound interval milliseconds e =
    let ((ds, u), found, same) = >>=-eq-some (match_duration interval) _ e in
    let (shape, are_digits, nonempty) = match_duration_inv interval ds u found in
    record {
      digits = ds;
      unit = u;
      shape = shape;
      are_digits = are_digits;
      nonempty = nonempty;
      worth = sym (ground arith) ∙ ap (λ f. value ds * f) (factor-eq u);
    }

parse_complete :
    (interval : List ℕ) (milliseconds : ℕ)
    → IsDuration interval milliseconds
    → parse_duration_string interval ≡ some milliseconds
unfolding parse_duration_string
parse_complete interval milliseconds d =
    rw (d.shape, match_duration-append d.digits d.unit d.are_digits d.nonempty)
      (ap some (ap (λ f. value d.digits * f) (factor-eq d.unit) ∙ sym d.worth))

-- A string parses to a number of milliseconds exactly when it is a row of digits, at least one,
-- followed by no unit, `ms`, `s`, `m` or `h`, and the number is the digits' value times the unit's
-- milliseconds: 1 where there is none or `ms`, 1000, 60000 or 3600000; and it is valid exactly when it parses.
pub parse_duration_string_iff :
    (interval : List ℕ) (milliseconds : ℕ)
    → ((parse_duration_string interval ≡ some milliseconds) ↔ IsDuration interval milliseconds)
      × (is_valid_duration_string interval ≡ is_some (parse_duration_string interval))
unfolding parse_duration_string is_valid_duration_string
parse_duration_string_iff interval milliseconds =
    ((parse_sound interval milliseconds, parse_complete interval milliseconds), ground arith)
