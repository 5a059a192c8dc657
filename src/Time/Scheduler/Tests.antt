-- ===== src/Time/Scheduler/Tests.antt =====
-- The scheduler at concrete histories.
use almadar_runtime.Base.{
  Bool-cases, inl, inr, if◌then◌else◌, ◌+◌, ◌*◌, ◌≤◌, ◌≡◌, refl, true, false, [], ◌∷◌, some, pos,
  arith, put, delete,
}
use almadar_runtime.Time.Cron.{Date, CronFields, cron_minute_key}
use almadar_runtime.Time.Scheduler.{
  Scheduler, IntervalTick, create, add, advance, resume, pause, new_cron, on_frame, stop, stop_loop,
}
use almadar_runtime.Time.Scheduler.Reentrant.{KeepsTicks, reacts, frame_live, frame_live-reacts}
use almadar_runtime.Time.Scheduler.Cadence.{passes, passes_bound, cron_passes, cron_passes_once}
use almadar_runtime.Time.Scheduler.Pausing.{advance-resume-pause, noted_all, frame_callbacks}

abbrev noon : Date
noon = record { full_year = 2026; month = 1; date = 28; hours = 12; minutes = 0; day = 6 }

-- A tick of every pass and one of 100 ms.
two_ticks : Scheduler
unfolding create add put
two_ticks = add 8 (pos 100) 2 (add 7 (pos 0) 1 (create true))

frame_tests :
    ((on_frame noon 1000 9 two_ticks).1 ≡ 1 ∷ [])
    × ((on_frame noon 1350 9 (on_frame noon 1000 9 two_ticks).0).1 ≡ 1 ∷ 2 ∷ [])
    × ((stop 1 (stop 2 two_ticks)).running ≡ false)
    × ((stop 2 two_ticks).running ≡ true)
unfolding two_ticks on_frame stop delete
frame_tests = (refl, refl, refl, refl)

abbrev half_way : IntervalTick
half_way = record { interval_ms = 100; accumulated_ms = 50; last_timestamp = some 0; on_due = 1 }

passes_bound_example :
    (passes half_way (30 ∷ 500 ∷ [])).1 * 100
      + (passes half_way (30 ∷ 500 ∷ [])).0.accumulated_ms
      + 0
    ≤ 50 + 500
passes_bound_example =
    passes_bound half_way 0 (30 ∷ 500 ∷ []) (omega arith, refl, omega arith)
      (omega arith, (omega arith, tt))

abbrev at_noon : CronFields
at_noon = record {
  minute = pos 0 ∷ [];
  hour = pos 12 ∷ [];
  day = pos 28 ∷ [];
  month = pos 2 ∷ [];
  weekday = pos 6 ∷ [];
}

cron_passes_once_example :
    (cron_passes (new_cron at_noon 3) ((0, noon) ∷ (1200, noon) ∷ (2400, noon) ∷ [])).1 ≤ 1
cron_passes_once_example =
    cron_passes_once (new_cron at_noon 3) (cron_minute_key noon)
      ((0, noon) ∷ (1200, noon) ∷ (2400, noon) ∷ []) (refl, (refl, (refl, tt)))

advance-resume-pause_example :
    let (after, fired) = advance noon 90000 (resume 9 (pause two_ticks)) in
    (after.ticks ≡ noted_all 90000 two_ticks.ticks) × (fired ≡ frame_callbacks two_ticks.ticks)
advance-resume-pause_example = advance-resume-pause noon 90000 9 two_ticks

pause-KeepsTicks : KeepsTicks (λ cb s. pause s)
unfolding pause stop_loop
pause-KeepsTicks cb s ts = elim (Bool-cases s.paused) [
  | inl already ↦ simp (already) refl
  | inr not_yet ↦ simp (not_yet) refl
]

frame_live-reacts_example : frame_live (λ cb s. pause s) noon 1000 3 9 two_ticks ≡ (
    let (s', fired) = advance noon 1000 two_ticks in
    let after = reacts (λ cb s. pause s) fired s' in
    some (
      if two_ticks.has_raf
      then (if two_ticks.running
          then (record after { frame_handle = some 9 }, fired)
          else (two_ticks, []))
      else (after, fired)))
unfolding two_ticks
frame_live-reacts_example =
    frame_live-reacts (λ cb s. pause s) 3 noon 1000 9 two_ticks pause-KeepsTicks (omega arith)
      (omega arith, (omega arith, tt))

-- A callback that pauses: its frame is armed again, though the loop is stopped.
paused_frame_test :
    frame_live (λ cb s. pause s) noon 1000 3 9 two_ticks
    ≡ some (record (pause (on_frame noon 1000 9 two_ticks).0) { frame_handle = some 9 }, 1 ∷ [])
unfolding two_ticks on_frame frame_live pause put
paused_frame_test = refl

paused_frame_handle_test : (pause (on_frame noon 1000 9 two_ticks).0).running ≡ false
unfolding pause two_ticks on_frame
paused_frame_handle_test = refl
