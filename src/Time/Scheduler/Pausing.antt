-- ===== src/Time/Scheduler/Pausing.antt =====
-- A pause is no elapsed time, and neither is the time before a tick's first pass.
use almadar_runtime.Base.{
  ℕ, ◌≤◌, ◌≡◌, refl, true, List, [], ◌∷◌, none, some, ◌==◌, if◌then◌else◌, nat_eq, arith,
  Bool-cases, inl, inr,
}
use almadar_runtime.Time.Cron.{Date, CronFields, cron_matches}
use almadar_runtime.Time.Scheduler.{
  Tick, interval, cron, Scheduler, advance_cron, advance_all, advance, reset_all, resume, pause,
  stop_loop, new_cron,
}
use almadar_runtime.Time.Scheduler.Cadence.{cron_passes}

-- The callbacks of the ticks that fire on every pass.
pub frame_callbacks : List (ℕ × Tick) → List ℕ
frame_callbacks [] = []
frame_callbacks ((id, interval t) ∷ ts) =
    if t.interval_ms == 0 then t.on_due ∷ frame_callbacks ts else frame_callbacks ts
frame_callbacks ((id, cron t) ∷ ts) = frame_callbacks ts

-- A tick that has only taken note of a timestamp.
pub noted : ℕ → Tick → Tick
noted timestamp (interval t) = interval (
    if t.interval_ms == 0
    then record t { last_timestamp = none }
    else record t { last_timestamp = some timestamp })
noted timestamp (cron t) = cron (record t { last_timestamp = some timestamp })

pub noted_all : ℕ → List (ℕ × Tick) → List (ℕ × Tick)
noted_all timestamp [] = []
noted_all timestamp ((id, t) ∷ ts) = (id, noted timestamp t) ∷ noted_all timestamp ts

advance_all-reset :
    (now : Date) (timestamp : ℕ) (ticks : List (ℕ × Tick))
    → advance_all now timestamp (reset_all ticks)
      ≡ (noted_all timestamp ticks, frame_callbacks ticks)
unfolding advance_all noted_all noted frame_callbacks
advance_all-reset now timestamp [] = refl
advance_all-reset now timestamp ((id, interval t) ∷ ts) = elim (Bool-cases (t.interval_ms == 0)) [
  | inl frame ↦ rw (frame, advance_all-reset now timestamp ts)
  | inr timed ↦ rw (timed, advance_all-reset now timestamp ts)
]
advance_all-reset now timestamp ((id, cron t) ∷ ts) = rw (advance_all-reset now timestamp ts)

resume-ticks :
    (handle : ℕ) (s : Scheduler) → s.paused ≡ true → (resume handle s).ticks ≡ reset_all s.ticks
unfolding resume
resume-ticks handle s e = ground arith

pause-ticks : (s : Scheduler) → ((pause s).ticks ≡ s.ticks) × ((pause s).paused ≡ true)
unfolding pause stop_loop
pause-ticks s = ground arith

-- However long a pause was, the first pass after it fires the ticks of every pass and no other: each
-- other tick only notes the timestamp, its phase and its last minute as they were at the pause.
pub advance-resume-pause :
    (now : Date) (timestamp handle : ℕ) (s : Scheduler)
    → let (after, fired) = advance now timestamp (resume handle (pause s)) in
      (after.ticks ≡ noted_all timestamp s.ticks) × (fired ≡ frame_callbacks s.ticks)
unfolding advance
advance-resume-pause now timestamp handle s =
    let (kept, halted) = pause-ticks s in
    rw (resume-ticks handle (pause s) halted, kept, advance_all-reset now timestamp s.ticks)
      (refl, refl)

-- A cron tick is not checked on its first pass, also where the date matches; on the second it fires if
-- the date matches, however short the time between the two.
pub cron_first_check :
    (fields : CronFields) (on_due t u : ℕ) (now later : Date)
    → t ≤ u
    → ((cron_passes (new_cron fields on_due) ((t, now) ∷ [])).1 ≡ 0)
      × ((cron_passes (new_cron fields on_due) ((t, now) ∷ (u, later) ∷ [])).1
          ≡ (if cron_matches fields later then 1 else 0))
unfolding cron_passes advance_cron
cron_first_check fields on_due t u now later h = ground arith
