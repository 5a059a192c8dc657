-- ===== src/Time/Cron/Tests.antt =====
-- Cron fields and dates at concrete texts.
use almadar_runtime.Base.{
  ◌≡◌, refl, some, none, false, [], ◌∷◌, ◌++◌, pos, ℤ_eq, arith, insert, ◌+ℤ◌,
}
use almadar_runtime.Time.Digits.{
  codes, digits_of, after_digits, value, split_on, parse_int, to_number,
}
use almadar_runtime.Time.Cron.{parse_cron_field, is_valid_cron_expression, Date, walk, run_up}
use almadar_runtime.Time.Cron.Fields.{parse_cron_field_zero_step}
use almadar_runtime.Time.Cron.Instants.{IsDate}

fields : Unit {0}
unfolding parse_cron_field walk run_up digits_of after_digits value split_on parse_int to_number
    insert ◌+ℤ◌
fields = tt

field_tests :
    (parse_cron_field 9 (codes "1-3,2,7") 0 59 ≡ some (pos 1 ∷ pos 2 ∷ pos 3 ∷ pos 7 ∷ []))
    × (parse_cron_field 9 (codes "*/20") 0 59 ≡ some (pos 0 ∷ pos 20 ∷ pos 40 ∷ []))
    × (parse_cron_field 9 (codes "10-12/30") 0 59 ≡ some (pos 10 ∷ pos 40 ∷ []))
    × (parse_cron_field 9 (codes "x") 0 59 ≡ some [])
    × (is_valid_cron_expression 9 (codes "0 9 * *") ≡ some false)
unfolding fields is_valid_cron_expression
field_tests = (refl, refl, refl, refl, refl)

parse_cron_field_zero_step_example : parse_cron_field 100 (codes "*/" ++ codes "0") 0 59 ≡ none
unfolding value
parse_cron_field_zero_step_example =
    parse_cron_field_zero_step 100 (codes "0") 0 59 (refl, tt) (λ e. cc) refl (omega arith)

abbrev noon : Date
noon = record { full_year = 2026; month = 1; date = 28; hours = 12; minutes = 0; day = 6 }

abbrev noon-IsDate : IsDate noon
noon-IsDate = record {
  month = omega arith;
  date = (omega arith, omega arith);
  hours = omega arith;
  minutes = omega arith;
  day = omega arith;
}
