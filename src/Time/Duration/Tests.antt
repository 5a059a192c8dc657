-- ===== src/Time/Duration/Tests.antt =====
-- Durations at concrete texts.
use almadar_runtime.Base.{◌≡◌, refl, ◌↔◌, some, none, is_some, true}
use almadar_runtime.Time.Digits.{codes, digits_of, after_digits, value}
use almadar_runtime.Time.Duration.{parse_duration_string, is_valid_duration_string}
use almadar_runtime.Time.Duration.Grammar.{IsDuration, parse_duration_string_iff}

parse_tests :
    (parse_duration_string (codes "5m") ≡ some 300000)
    × (parse_duration_string (codes "250") ≡ some 250)
    × (parse_duration_string (codes "1h2") ≡ none)
    × (parse_duration_string (codes "s") ≡ none)
    × (is_valid_duration_string (codes "16ms") ≡ true)
unfolding parse_duration_string is_valid_duration_string digits_of after_digits value
parse_tests = (refl, refl, refl, refl, refl)

parse_duration_string_iff_example :
    ((parse_duration_string (codes "5s") ≡ some 5000) ↔ IsDuration (codes "5s") 5000)
    × (is_valid_duration_string (codes "5s") ≡ is_some (parse_duration_string (codes "5s")))
parse_duration_string_iff_example = parse_duration_string_iff (codes "5s") 5000
