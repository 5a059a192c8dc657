-- ===== src/Time/Duration.antt =====
-- time/duration.ts. A number is exact; the source's loses digits from 2 ^ 53 on.
pub mod Grammar
mod Tests
use almadar_runtime.Base.{
  ℕ, ◌*◌, ◌≡◌, Bool, List, [], ◌∷◌, Option, none, some, ◌==◌, if◌then◌else◌, is_some, ◌>>=◌,
  is_empty,
}
use almadar_runtime.Time.Digits.{codes, text_eq, digits_of, after_digits, value}

pub data Suffix : Type 0 where
  absent millis seconds minutes hours : Suffix

-- `(ms|s|m|h)?$`
unfoldable pub read_suffix : List ℕ → Option Suffix
read_suffix rest =
    if rest == []
    then some absent
    else if rest == codes "ms"
    then some millis
    else if rest == codes "s"
    then some seconds
    else if rest == codes "m"
    then some minutes
    else if rest == codes "h"
    then some hours
    else none

-- The two groups of `/^(\d+)(ms|s|m|h)?$/`.
unfoldable pub match_duration : List ℕ → Option (List ℕ × Suffix)
unfolding read_suffix
match_duration interval =
    if is_empty (digits_of interval)
    then none
    else (read_suffix (after_digits interval) >>= λ unit. some (digits_of interval, unit))

abbrev pub factor : Suffix → ℕ
factor absent = 1
factor millis = 1
factor seconds = 1000
factor minutes = 60 * 1000
factor hours = 60 * 60 * 1000

-- Milliseconds; `none` where the source throws.
unfoldable pub parse_duration_string : List ℕ → Option ℕ
unfolding match_duration
parse_duration_string interval = do
  (digits, unit) ← match_duration interval
  some (value digits * factor unit)

unfoldable pub is_valid_duration_string : List ℕ → Bool
unfolding match_duration
is_valid_duration_string interval = is_some (match_duration interval)
