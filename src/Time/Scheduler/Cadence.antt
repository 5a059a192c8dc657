-- ===== src/Time/Scheduler/Cadence.antt =====
-- How often an interval tick fires over many passes, and how often a cron tick does in one minute.
use native.Mathlib.Nat.{mod-lt, mod-eq-sub-mod, mod-eq_of_lt}
use almadar_runtime.Base.{
  ℕ, suc, ◌+◌, ◌-◌, ◌*◌, ◌%◌, ◌≤◌, ◌<◌, ◌≡◌, refl, sym, ap, ◌∙◌, Bool, true, false, List, [], ◌∷◌,
  some, if◌then◌else◌, nat_eq, arith, inl, inr, Bool-cases, All,
}
use almadar_runtime.Time.Cron.{Date, cron_minute_key, cron_matches}
use almadar_runtime.Time.Scheduler.{IntervalTick, CronTick, advance_interval, advance_cron}

-- A tick over the passes at the given timestamps, and how often it fires.
unfoldable pub passes : IntervalTick → List ℕ → IntervalTick × ℕ
passes t [] = (t, 0)
passes t (timestamp ∷ later) =
    let (t', due) = advance_interval timestamp t in
    let (final, fires) = passes t' later in (final, if due then suc fires else fires)

-- Timestamps that do not go back, from one on; each within `interval` of the one before; the last.
abbrev pub Ascending : ℕ → List ℕ → Type 0
Ascending last [] = Unit
Ascending last (t ∷ ts) = (last ≤ t) × Ascending t ts

abbrev pub Paced : ℕ → ℕ → List ℕ → Type 0
Paced interval last [] = Unit
Paced interval last (t ∷ ts) = (t ≤ last + interval) × Paced interval t ts

abbrev pub final_time : ℕ → List ℕ → ℕ
final_time last [] = last
final_time last (t ∷ ts) = final_time t ts

mod_drop : (x i : ℕ) → 0 < i → i ≤ x → (x % i) + i ≤ x
mod_drop x i p h = grind arith

mod_once : (x i : ℕ) → 0 < i → i ≤ x → x < i + i → (x % i) + i ≡ x
mod_once x i p h k = grind (arith, mod-eq-sub-mod, mod-eq_of_lt)

-- A tick that has seen a timestamp.
abbrev pub Started : IntervalTick → ℕ → Type 0
Started t last =
    (0 < t.interval_ms) × (t.last_timestamp ≡ some last) × (t.accumulated_ms < t.interval_ms)

module _ (t : IntervalTick) (last timestamp : ℕ) (started : Started t last)
    (forward : last ≤ timestamp) where
  step_Started :
      Started ((advance_interval timestamp t).0) timestamp
      × ((advance_interval timestamp t).0.interval_ms ≡ t.interval_ms)
  unfolding advance_interval
  step_Started = ground (arith, mod-lt (t.accumulated_ms + timestamp - last) started.0)

  step_bound :
      (if (advance_interval timestamp t).1 then t.interval_ms else 0)
        + (advance_interval timestamp t).0.accumulated_ms
        + last
      ≤ t.accumulated_ms + timestamp
  unfolding advance_interval
  step_bound = ground (arith, mod_drop (t.accumulated_ms + timestamp - last) t.interval_ms)

  step_exact :
      timestamp ≤ last + t.interval_ms
      → (if (advance_interval timestamp t).1 then t.interval_ms else 0)
          + (advance_interval timestamp t).0.accumulated_ms
          + last
        ≡ t.accumulated_ms + timestamp
  unfolding advance_interval
  step_exact h = ground (arith, mod_once (t.accumulated_ms + timestamp - last) t.interval_ms)

count_due :
    (due : Bool) (fires i : ℕ)
    → (if due then suc fires else fires) * i ≡ (if due then i else 0) + fires * i
count_due true fires i = omega arith
count_due false fires i = omega arith

-- An interval tick never fires more often than its interval allows in the time that has passed, its
-- phase counted, whatever the gaps between the passes: beats that were missed are dropped.
pub passes_bound :
    (t : IntervalTick) (last : ℕ) (ts : List ℕ)
    → Started t last
    → Ascending last ts
    → (passes t ts).1 * t.interval_ms + (passes t ts).0.accumulated_ms + last
      ≤ t.accumulated_ms + final_time last ts
unfolding passes
passes_bound t last [] v a = omega arith
passes_bound t last (p ∷ ts) v (h, a) =
    let (v', same) = step_Started t last p v h in
    let ih = rw same at (passes_bound ((advance_interval p t).0) p ts v' a) in
    let now = step_bound t last p v h in
    let fires = (passes ((advance_interval p t).0) ts).1 in
    omega (arith, ih, now, count_due ((advance_interval p t).1) fires t.interval_ms)

-- While no gap between passes is longer than the interval, an interval tick fires exactly as often as
-- its interval asks for in the time that has passed, its phase counted and what is left carried over.
pub passes_exact :
    (t : IntervalTick) (last : ℕ) (ts : List ℕ)
    → Started t last
    → Ascending last ts
    → Paced t.interval_ms last ts
    → (passes t ts).1 * t.interval_ms + (passes t ts).0.accumulated_ms + last
      ≡ t.accumulated_ms + final_time last ts
unfolding passes
passes_exact t last [] v a g = omega arith
passes_exact t last (p ∷ ts) v (h, a) (gap, g) =
    let (v', same) = step_Started t last p v h in
    let paced : Paced ((advance_interval p t).0.interval_ms) p ts = rw same g in
    let ih = rw same at (passes_exact ((advance_interval p t).0) p ts v' a paced) in
    let now = step_exact t last p v h gap in
    let fires = (passes ((advance_interval p t).0) ts).1 in
    omega (arith, ih, now, count_due ((advance_interval p t).1) fires t.interval_ms)

-- A cron tick over passes, each at a timestamp and a date.
unfoldable pub cron_passes : CronTick → List (ℕ × Date) → CronTick × ℕ
cron_passes t [] = (t, 0)
cron_passes t ((timestamp, now) ∷ later) =
    let (t', due) = advance_cron now timestamp t in
    let (final, fires) = cron_passes t' later in (final, if due then suc fires else fires)

-- All dates lie in the minute of the key.
abbrev pub InMinute : ℕ → List (ℕ × Date) → Type 0
InMinute key ps = All (λ (p : ℕ × Date). cron_minute_key p.1 ≡ key) ps

advance_cron_fires :
    (now : Date) (timestamp : ℕ) (t : CronTick)
    → (advance_cron now timestamp t).1 ≡ true
    → (cron_matches t.fields now ≡ true)
      × ((advance_cron now timestamp t).0.last_fired_minute_key ≡ some (cron_minute_key now))
unfolding advance_cron
advance_cron_fires now timestamp t e = ground arith

advance_cron_fired :
    (now : Date) (timestamp : ℕ) (t : CronTick)
    → t.last_fired_minute_key ≡ some (cron_minute_key now)
    → ((advance_cron now timestamp t).1 ≡ false)
      × ((advance_cron now timestamp t).0.last_fired_minute_key ≡ some (cron_minute_key now))
unfolding advance_cron
advance_cron_fired now timestamp t e =
    ground (arith, nat_eq.test_iff (cron_minute_key now) (cron_minute_key now))

cron_passes_fired :
    (t : CronTick) (key : ℕ) (ps : List (ℕ × Date))
    → t.last_fired_minute_key ≡ some key
    → InMinute key ps
    → (cron_passes t ps).1 ≡ 0
unfolding cron_passes
cron_passes_fired t key [] e m = refl
cron_passes_fired t key ((timestamp, now) ∷ ps) e (same, m) =
    let (quiet, kept) = advance_cron_fired now timestamp t (e ∙ ap some (sym same)) in
    rw quiet (cron_passes_fired ((advance_cron now timestamp t).0) key ps (kept ∙ ap some same) m)

-- Whatever its state and however many passes fall into one calendar minute, a cron tick fires at most
-- once in it.
pub cron_passes_once :
    (t : CronTick) (key : ℕ) (ps : List (ℕ × Date)) → InMinute key ps → (cron_passes t ps).1 ≤ 1
unfolding cron_passes
cron_passes_once t key [] m = omega arith
cron_passes_once t key ((timestamp, now) ∷ ps) (same, m) =
    elim (Bool-cases ((advance_cron now timestamp t).1)) [
      | inl due ↦
          let (_, kept) = advance_cron_fires now timestamp t due in
          rw due (
            omega (
              arith,
              cron_passes_fired ((advance_cron now timestamp t).0) key ps (kept ∙ ap some same) m,
            ))
      | inr quiet ↦ rw quiet (cron_passes_once ((advance_cron now timestamp t).0) key ps m)
    ]
