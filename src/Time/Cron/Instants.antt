-- ===== src/Time/Cron/Instants.antt =====
-- When an expression fires: the calendar minute as a key, and the expression that always matches.
use almadar_runtime.Base.{
  ℕ, suc, ◌+◌, ◌-◌, ◌≤◌, ◌<◌, ◌≡◌, ◌↔◌, true, List, [], some, contains, pos, ℤ_eq, nat_eq, arith,
}
use almadar_runtime.Time.Digits.{codes, text_eq}
use almadar_runtime.Time.Cron.{
  CronFields, Date, parse_cron, parse_cron_field, parse_part, cron_matches, cron_minute_key,
  add_all, up_to,
}
use almadar_runtime.Time.Cron.Fields.{contains_added, parse_cron_field_single}
use almadar_runtime.Time.Cron.Parts.{contains-run_up}

pub record IsDate (d : Date) : Type 0 where
  pub month : d.month < 12
  pub date : (1 ≤ d.date) × (d.date ≤ 31)
  pub hours : d.hours < 24
  pub minutes : d.minutes < 60
  pub day : d.day < 7

-- Two dates have the same key exactly when they lie in the same calendar minute.
pub cron_minute_key_iff :
    (d e : Date)
    → IsDate d
    → IsDate e
    → (cron_minute_key d ≡ cron_minute_key e) ↔ (
        (d.full_year ≡ e.full_year)
        × (d.month ≡ e.month)
        × (d.date ≡ e.date)
        × (d.hours ≡ e.hours)
        × (d.minutes ≡ e.minutes))
unfolding cron_minute_key
cron_minute_key_iff d e v w =
    (λ h. (omega arith, omega arith, omega arith, omega arith, omega arith), λ h. omega arith)

parse_cron_field_star :
    (fuel min max : ℕ)
    → parse_cron_field fuel (codes "*") min max ≡ some (add_all (up_to min max) [])
unfolding parse_part
parse_cron_field_star fuel min max =
    rw (parse_cron_field_single fuel (codes "*") min max (omega arith, tt))

contains_star :
    (v min max : ℕ) → min ≤ v → v ≤ max → contains (pos v) (add_all (up_to min max) []) ≡ true
contains_star v min max h k =
    rw (contains_added (pos v) (up_to min max), contains-run_up v (suc max - min) min)
      (ground arith)

abbrev pub every_minute : List ℕ
every_minute = codes "* * * * *"

-- `* * * * *` is an expression that matches every date.
pub every_minute_matches :
    (fuel : ℕ) (d : Date)
    → IsDate d
    → (fields : CronFields) × (parse_cron fuel every_minute ≡ some (some fields))
      × (cron_matches fields d ≡ true)
unfolding parse_cron cron_matches
every_minute_matches fuel d v = (
  record {
    minute = add_all (up_to 0 59) [];
    hour = add_all (up_to 0 23) [];
    day = add_all (up_to 1 31) [];
    month = add_all (up_to 1 12) [];
    weekday = add_all (up_to 0 6) [];
  },
  rw (
    parse_cron_field_star fuel 0 59,
    parse_cron_field_star fuel 0 23,
    parse_cron_field_star fuel 1 31,
    parse_cron_field_star fuel 1 12,
    parse_cron_field_star fuel 0 6,
  ),
  rw (
    contains_star d.minutes 0 59 (omega arith) (omega arith),
    contains_star d.hours 0 23 (omega arith) (omega arith),
    contains_star d.date 1 31 (omega arith) (omega arith),
    contains_star (d.month + 1) 1 12 (omega arith) (omega arith),
    contains_star d.day 0 6 (omega arith) (omega arith),
  ),
)
