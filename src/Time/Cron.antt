-- ===== src/Time/Cron.antt =====
-- time/cron.ts. A field's set is a list of integers, each once; NaN, which the source may add to a
-- set and no date holds, is left out. `none` is a loop that has not ended within the fuel; the `none`
-- inside a result of `parse_cron` is the error for a wrong number of fields.
pub mod Parts
pub mod Fields
pub mod Instants
mod Tests
use mathlib.Core.Option
use almadar_runtime.Base.{
  ℕ, zero, suc, ◌+◌, ◌-◌, ◌*◌, ◌^◌, ◌≡◌, Bool, true, false, ◌&&◌, ◌||◌, List, [], ◌∷◌, ◌++◌, Option,
  none, some, leb, ◌==◌, if◌then◌else◌, nat_eq, ◌>>=◌, insert, contains, is_some, length, ℤ, pos,
  ◌+ℤ◌, leb_ℤ, ℤ_eq, map,
}
use almadar_runtime.Time.Digits.{codes, text_eq, split_on, parse_int, to_number}

-- `for (let i = start; i <= max; i += step)`, the values that it adds.
unfoldable pub walk : ℕ → ℤ → ℤ → ℕ → Option (List ℤ)
walk zero i step max = none
walk (suc fuel) i step max =
    let rest = Option.map (◌∷◌ i) (walk fuel (i +ℤ step) step max) in
    if leb_ℤ i (pos max) then rest else some []

-- `for (let i = from; …; i++)` for `count` rounds.
unfoldable pub run_up : ℕ → ℕ → List ℤ
run_up zero from = []
run_up (suc count) from = pos from ∷ run_up count (suc from)

-- The values of `i` from `lo` up to and with `hi`.
abbrev pub up_to : ℕ → ℕ → List ℤ
up_to lo hi = run_up (suc hi - lo) lo

-- A NaN start runs no round, a NaN step one.
abbrev walk_from : ℕ → Option ℤ → Option ℤ → ℕ → Option (List ℤ)
walk_from fuel none step max = some []
walk_from fuel (some start) none max = some (if leb_ℤ start (pos max) then start ∷ [] else [])
walk_from fuel (some start) (some step) max = walk fuel start step max

abbrev between : Option ℕ → Option ℕ → List ℤ
between (some lo) (some hi) = up_to lo hi
between lo hi = []

abbrev single : Option ℤ → List ℤ
single none = []
single (some n) = n ∷ []

-- The first two pieces of a split that has two at least.
abbrev head_two : List (List ℕ) → List ℕ × List ℕ
head_two [] = ([], [])
head_two (a ∷ []) = (a, [])
head_two (a ∷ b ∷ r) = (a, b)

unfoldable pub stepped : ℕ → List ℕ → List ℕ → ℕ → ℕ → Option (List ℤ)
stepped fuel range step min max =
    walk_from fuel (if range == codes "*" then some (pos min) else parse_int range) (parse_int step)
      max

-- The values that one part of a field adds.
unfoldable pub parse_part : ℕ → List ℕ → ℕ → ℕ → Option (List ℤ)
unfolding stepped
parse_part fuel part min max =
    if part == codes "*"
    then some (up_to min max)
    else if contains b'/' part
    then stepped fuel ((head_two (split_on b'/' part)).0) ((head_two (split_on b'/' part)).1) min
        max
    else if contains b'-' part
    then some (
        between (to_number (head_two (split_on b'-' part)).0)
          (to_number (head_two (split_on b'-' part)).1))
    else some (single (parse_int part))

unfoldable pub add_all : List ℤ → List ℤ → List ℤ
add_all [] values = values
add_all (v ∷ vs) values = add_all vs (insert v values)

-- The loop over the parts.
unfoldable pub add_parts : ℕ → List (List ℕ) → ℕ → ℕ → List ℤ → Option (List ℤ)
unfolding parse_part add_all
add_parts fuel [] min max values = some values
add_parts fuel (part ∷ parts) min max values = do
  vs ← parse_part fuel part min max
  add_parts fuel parts min max (add_all vs values)

unfoldable pub parse_cron_field : ℕ → List ℕ → ℕ → ℕ → Option (List ℤ)
unfolding add_parts
parse_cron_field fuel field min max = add_parts fuel (split_on b',' field) min max []

pub record CronFields : Type 0 where
  pub minute : List ℤ
  pub hour : List ℤ
  pub day : List ℤ
  pub month : List ℤ
  pub weekday : List ℤ

-- `\s`
abbrev is_space : ℕ → Bool
is_space c =
    (leb 9 c && leb c 13)
    || c == 32
    || c == 160
    || c == 0x1680
    || (leb 0x2000 c && leb c 0x200a)
    || c == 0x2028
    || c == 0x2029
    || c == 0x202f
    || c == 0x205f
    || c == 0x3000
    || c == 0xfeff

-- A character in front of the words of a text: it joins the first word unless a space follows.
abbrev start_word : ℕ → List ℕ → List (List ℕ) → List (List ℕ)
start_word c [] ws = (c ∷ []) ∷ ws
start_word c (d ∷ s) [] = (c ∷ []) ∷ []
start_word c (d ∷ s) (w ∷ ws) = if is_space d then (c ∷ []) ∷ w ∷ ws else (c ∷ w) ∷ ws

-- `trim().split(/\s+/)`, but for the one empty piece of a blank text.
unfoldable pub words : List ℕ → List (List ℕ)
words [] = []
words (c ∷ s) = if is_space c then words s else start_word c s (words s)

unfoldable pub parse_fields : ℕ → List (List ℕ) → Option (Option CronFields)
unfolding parse_cron_field
parse_fields fuel (m ∷ h ∷ d ∷ mo ∷ w ∷ []) = do
  minute ← parse_cron_field fuel m 0 59
  hour ← parse_cron_field fuel h 0 23
  day ← parse_cron_field fuel d 1 31
  month ← parse_cron_field fuel mo 1 12
  weekday ← parse_cron_field fuel w 0 6
  some (some (record { minute = minute; hour = hour; day = day; month = month; weekday = weekday }))
parse_fields fuel parts = some none

unfoldable pub parse_cron : ℕ → List ℕ → Option (Option CronFields)
unfolding parse_fields words
parse_cron fuel expression = parse_fields fuel (words expression)

unfoldable pub is_valid_cron_expression : ℕ → List ℕ → Option Bool
unfolding parse_cron
is_valid_cron_expression fuel expression = Option.map is_some (parse_cron fuel expression)

-- What the getters of a `Date` return; months count from 0.
pub record Date : Type 0 where
  pub full_year : ℕ
  pub month : ℕ
  pub date : ℕ
  pub hours : ℕ
  pub minutes : ℕ
  pub day : ℕ

unfoldable pub cron_matches : CronFields → Date → Bool
cron_matches fields d =
    contains (pos d.minutes) fields.minute
    && contains (pos d.hours) fields.hour
    && contains (pos d.date) fields.day
    && contains (pos (d.month + 1)) fields.month
    && contains (pos d.day) fields.weekday

unfoldable pub cron_minute_key : Date → ℕ
cron_minute_key d =
    d.full_year * 10 ^ 8 + d.month * 10 ^ 6 + d.date * 10 ^ 4 + d.hours * 100 + d.minutes
