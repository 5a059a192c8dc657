-- ===== src/Time/Digits.antt =====
-- Texts as lists of code units: decimal digits, equality, the pieces of a split.
use Prim.Native.Char.{code}
use mathlib.Core.Option
use almadar_runtime.Base.{
  ℕ, ◌+◌, ◌-◌, ◌*◌, ◌<◌, ◌≡◌, refl, ◌≢◌, ◌↔◌, Bool, true, false, ◌&&◌, List, [], ◌∷◌, ◌++◌, String,
  leb, ◌==◌, nat_eq, if◌then◌else◌, arith, All, StrictEq, Option, none, some, is_empty, ℤ, pos,
  sub_ℕ,
}

-- The code units of a text.
abbrev pub codes : String → List ℕ
codes String.[] = []
codes (String.◌∷◌ c s) = code c ∷ codes s

abbrev pub text_beq : List ℕ → List ℕ → Bool
text_beq [] [] = true
text_beq [] (y ∷ ys) = false
text_beq (x ∷ xs) [] = false
text_beq (x ∷ xs) (y ∷ ys) = x == y && text_beq xs ys

pub text_beq_iff : (xs ys : List ℕ) → (text_beq xs ys ≡ true) ↔ (xs ≡ ys)
text_beq_iff [] [] = ground arith
text_beq_iff [] (y ∷ ys) = ground arith
text_beq_iff (x ∷ xs) [] = ground arith
text_beq_iff (x ∷ xs) (y ∷ ys) = ground (arith, text_beq_iff xs ys)

instance abbrev pub text_eq : StrictEq (List ℕ)
text_eq = record { test = text_beq; test_iff = text_beq_iff }

-- `\d`
abbrev pub is_digit : ℕ → Bool
is_digit c = leb b'0' c && leb c b'9'

abbrev pub IsDigits : List ℕ → Type 0
IsDigits ds = All (λ c. is_digit c ≡ true) ds

-- The value of a row of digits, after those of value `acc`.
unfoldable pub value_from : ℕ → List ℕ → ℕ
value_from acc [] = acc
value_from acc (d ∷ ds) = value_from (acc * 10 + (d - b'0')) ds

unfoldable pub value : List ℕ → ℕ
unfolding value_from
value ds = value_from 0 ds

-- The longest row of digits in front, and what follows it.
unfoldable pub digits_of : List ℕ → List ℕ
digits_of [] = []
digits_of (c ∷ s) = if is_digit c then c ∷ digits_of s else []

unfoldable pub after_digits : List ℕ → List ℕ
after_digits [] = []
after_digits (c ∷ s) = if is_digit c then after_digits s else c ∷ s

-- No digit stands in front.
abbrev pub StartsPlain : List ℕ → Type 0
StartsPlain [] = Unit
StartsPlain (c ∷ s) = is_digit c ≡ false

pub digits_of-append :
    (ds s : List ℕ)
    → IsDigits ds
    → StartsPlain s
    → (digits_of (ds ++ s) ≡ ds) × (after_digits (ds ++ s) ≡ s)
unfolding digits_of after_digits
digits_of-append [] [] h p = (refl, refl)
digits_of-append [] (c ∷ s) h p = ground arith
digits_of-append (d ∷ ds) s (h, hs) p = ground (arith, digits_of-append ds s hs p)

pub digits_of-IsDigits : (s : List ℕ) → IsDigits (digits_of s)
unfolding digits_of
digits_of-IsDigits [] = tt
digits_of-IsDigits (c ∷ s) = ground (arith, digits_of-IsDigits s)

pub digits_of_append : (s : List ℕ) → digits_of s ++ after_digits s ≡ s
unfolding digits_of after_digits
digits_of_append [] = refl
digits_of_append (c ∷ s) = ground (arith, digits_of_append s)

abbrev cons_front : ℕ → List (List ℕ) → List (List ℕ)
cons_front c [] = (c ∷ []) ∷ []
cons_front c (p ∷ ps) = (c ∷ p) ∷ ps

-- `split` at each code unit `sep`.
unfoldable pub split_on : ℕ → List ℕ → List (List ℕ)
split_on sep [] = [] ∷ []
split_on sep (c ∷ s) = if c == sep then [] ∷ split_on sep s else cons_front c (split_on sep s)

cons_front-append :
    (c : ℕ) (xs ys : List (List ℕ)) → xs ≢ [] → cons_front c (xs ++ ys) ≡ cons_front c xs ++ ys
cons_front-append c [] ys h = absurd (h refl)
cons_front-append c (x ∷ xs) ys h = refl

cons_front-ne-nil : (c : ℕ) (xs : List (List ℕ)) → cons_front c xs ≢ []
cons_front-ne-nil c [] = cc
cons_front-ne-nil c (x ∷ xs) = cc

split_on-ne-nil : (sep : ℕ) (s : List ℕ) → split_on sep s ≢ []
unfolding split_on
split_on-ne-nil sep [] = cc
split_on-ne-nil sep (c ∷ s) = ground (arith, cons_front-ne-nil c (split_on sep s))

pub split_on-append :
    (sep : ℕ) (s t : List ℕ) → split_on sep (s ++ sep ∷ t) ≡ split_on sep s ++ split_on sep t
unfolding split_on
split_on-append sep [] t = ground arith
split_on-append sep (c ∷ s) t = ground (
  arith,
  split_on-append sep s t,
  cons_front-append c (split_on sep s) (split_on sep t) (split_on-ne-nil sep s),
)

-- No unit of the text is `sep`.
abbrev pub FreeOf : ℕ → List ℕ → Type 0
FreeOf sep s = All (λ c. c ≢ sep) s

pub split_on_free : (sep : ℕ) (s : List ℕ) → FreeOf sep s → split_on sep s ≡ s ∷ []
unfolding split_on
split_on_free sep [] h = refl
split_on_free sep (c ∷ s) (n, h) = ground (arith, split_on_free sep s h)

pub digits-FreeOf : (sep : ℕ) (ds : List ℕ) → is_digit sep ≡ false → IsDigits ds → FreeOf sep ds
digits-FreeOf sep [] n h = tt
digits-FreeOf sep (d ∷ ds) n (h, hs) = (λ e. ground arith, digits-FreeOf sep ds n hs)

-- `parseInt(s, 10)` on a text that does not start with a space; `none` is NaN.
abbrev unsigned : List ℕ → Option ℕ
unsigned s = if is_empty (digits_of s) then none else some (value (digits_of s))

abbrev negated : ℕ → ℤ
negated n = sub_ℕ 0 n

unfoldable pub parse_int : List ℕ → Option ℤ
parse_int [] = none
parse_int (c ∷ s) =
    if c == b'-'
    then Option.map negated (unsigned s)
    else if c == b'+'
    then Option.map pos (unsigned s)
    else Option.map pos (unsigned (c ∷ s))

-- `Number(s)` on decimal digits, with a `+` in front or none, or on the empty text, which is 0; any
-- other text is read as NaN.
unfoldable pub to_number : List ℕ → Option ℕ
to_number [] = some 0
to_number (c ∷ s) =
    if c == b'+'
    then (if is_empty (after_digits s) then unsigned s else none)
    else if is_empty (after_digits (c ∷ s))
    then some (value (digits_of (c ∷ s)))
    else none

digits_of_digits : (ds : List ℕ) → IsDigits ds → (digits_of ds ≡ ds) × (after_digits ds ≡ [])
unfolding digits_of after_digits
digits_of_digits [] h = (refl, refl)
digits_of_digits (d ∷ ds) (h, hs) = ground (arith, digits_of_digits ds hs)

pub parse_int_digits : (ds : List ℕ) → IsDigits ds → ds ≢ [] → parse_int ds ≡ some (pos (value ds))
unfolding parse_int
parse_int_digits [] h n = absurd (n refl)
parse_int_digits (d ∷ ds) h n = ground (arith, digits_of_digits (d ∷ ds) h)

pub to_number_digits : (ds : List ℕ) → IsDigits ds → to_number ds ≡ some (value ds)
unfolding to_number value value_from
to_number_digits [] h = refl
to_number_digits (d ∷ ds) h = ground (arith, digits_of_digits (d ∷ ds) h)

pub ne-nil_of_value : (ds : List ℕ) → 0 < value ds → ds ≢ []
unfolding value value_from
ne-nil_of_value [] p = absurd (omega arith)
ne-nil_of_value (d ∷ ds) p = cc
