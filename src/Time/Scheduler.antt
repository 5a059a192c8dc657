-- ===== src/Time/Scheduler.antt =====
-- time/TickScheduler.ts. `advance_all`, `advance` and `on_frame` are the pass for callbacks that leave
-- the scheduler alone, where a callback is a label; the pass for callbacks that call the scheduler is in
-- Scheduler/Reentrant. The platform's handles, the timestamps and the dates of `new Date()` are
-- arguments.
-- Timestamps are whole milliseconds; one that lies so far before the last that the sum would be
-- negative counts as no time.
pub mod Invariant
pub mod Cadence
pub mod Pausing
pub mod Reentrant
mod Tests
use almadar_runtime.Base.{
  ℕ, zero, suc, ◌+◌, ◌-◌, ◌%◌, ◌≡◌, Bool, true, false, ◌&&◌, ◌||◌, not, List, [], ◌∷◌, Option, none,
  some, leb, ltb, ◌==◌, if◌then◌else◌, nat_eq, put, delete, is_empty, ℤ, pos_part, same?, map,
  ◌>>=◌,
}
use almadar_runtime.Time.Cron.{CronFields, Date, parse_cron, cron_matches, cron_minute_key}

abbrev pub cron_check_interval_ms : ℕ
cron_check_interval_ms = 1000

pub record IntervalTick : Type 0 where
  pub interval_ms : ℕ
  pub accumulated_ms : ℕ
  pub last_timestamp : Option ℕ
  pub on_due : ℕ

-- `last_fired_minute_key` is `none` for the -1 that no date has.
pub record CronTick : Type 0 where
  pub fields : CronFields
  pub accumulated_ms : ℕ
  pub last_timestamp : Option ℕ
  pub last_fired_minute_key : Option ℕ
  pub on_due : ℕ

pub data Tick : Type 0 where
  interval : IntervalTick → Tick
  cron : CronTick → Tick

pub record Scheduler : Type 0 where
  pub ticks : List (ℕ × Tick)
  pub next_id : ℕ
  pub running : Bool
  pub paused : Bool
  pub frame_handle : Option ℕ
  pub has_raf : Bool

unfoldable pub create : Bool → Scheduler
create has_raf = record {
  ticks = [];
  next_id = 1;
  running = false;
  paused = false;
  frame_handle = none;
  has_raf = has_raf;
}

unfoldable pub ensure_running : ℕ → Scheduler → Scheduler
ensure_running handle s =
    if s.running || s.paused then s else record s { running = true; frame_handle = some handle }

unfoldable pub stop_loop : Scheduler → Scheduler
stop_loop s = record s { running = false; frame_handle = none }

unfoldable pub maybe_stop : Scheduler → Scheduler
unfolding stop_loop
maybe_stop s = if not (is_empty s.ticks) || not s.running then s else stop_loop s

unfoldable pub register : ℕ → Tick → Scheduler → Scheduler
unfolding ensure_running
register handle tick s =
    ensure_running handle (record s { ticks = put s.next_id tick s.ticks; next_id = suc s.next_id })

-- An interval of 0 or less is 0, a tick of every pass. The result's tick has the id `s.next_id`.
unfoldable pub add : ℕ → ℤ → ℕ → Scheduler → Scheduler
unfolding register
add handle interval_ms on_due s =
    register handle
      (interval (record {
        interval_ms = pos_part interval_ms;
        accumulated_ms = 0;
        last_timestamp = none;
        on_due = on_due;
      }))
      s

abbrev pub new_cron : CronFields → ℕ → CronTick
new_cron fields on_due = record {
  fields = fields;
  accumulated_ms = cron_check_interval_ms;
  last_timestamp = none;
  last_fired_minute_key = none;
  on_due = on_due;
}

-- `none` inside: the expression is refused, and the scheduler is as it was.
unfoldable pub add_cron : ℕ → ℕ → List ℕ → ℕ → Scheduler → Option (Option Scheduler)
unfolding register
add_cron fuel handle expression on_due s = do
  parsed ← parse_cron fuel expression
  elim parsed [
    | none ↦ some none
    | some fields ↦ some (some (register handle (cron (new_cron fields on_due)) s))
  ]

-- The `stop` of the handle that `add` returns.
unfoldable pub stop : ℕ → Scheduler → Scheduler
unfolding maybe_stop
stop id s = maybe_stop (record s { ticks = delete id s.ticks })

unfoldable pub stop_all : Scheduler → Scheduler
unfolding maybe_stop
stop_all s = maybe_stop (record s { ticks = [] })

unfoldable pub pause : Scheduler → Scheduler
unfolding stop_loop
pause s = if s.paused then s else stop_loop (record s { paused = true })

abbrev pub reset : Tick → Tick
reset (interval t) = interval (record t { last_timestamp = none })
reset (cron t) = cron (record t { last_timestamp = none })

abbrev pub reset_all : List (ℕ × Tick) → List (ℕ × Tick)
reset_all [] = []
reset_all ((id, t) ∷ ts) = (id, reset t) ∷ reset_all ts

unfoldable pub resume : ℕ → Scheduler → Scheduler
unfolding ensure_running
resume handle s =
    if s.paused
    then (let s' = record s { paused = false; ticks = reset_all s.ticks } in
        if is_empty s'.ticks then s' else ensure_running handle s')
    else s

-- One tick in a pass: the tick after it, and whether it fires.
unfoldable pub advance_interval : ℕ → IntervalTick → IntervalTick × Bool
advance_interval timestamp t = if t.interval_ms == 0 then (t, true) else elim t.last_timestamp [
  | none ↦ (record t { last_timestamp = some timestamp }, false)
  | some last ↦
      let accumulated = t.accumulated_ms + timestamp - last in
      if leb t.interval_ms accumulated
      then (
        record t { accumulated_ms = accumulated % t.interval_ms; last_timestamp = some timestamp },
        true,
      )
      else (record t { accumulated_ms = accumulated; last_timestamp = some timestamp }, false)
]

unfoldable pub advance_cron : Date → ℕ → CronTick → CronTick × Bool
advance_cron now timestamp t = elim t.last_timestamp [
  | none ↦ (record t { last_timestamp = some timestamp }, false)
  | some last ↦
      let accumulated = t.accumulated_ms + timestamp - last in
      if ltb accumulated cron_check_interval_ms
      then (record t { accumulated_ms = accumulated; last_timestamp = some timestamp }, false)
      else if not (same? (some (cron_minute_key now)) t.last_fired_minute_key)
          && cron_matches t.fields now
      then (
        record t {
          accumulated_ms = 0;
          last_timestamp = some timestamp;
          last_fired_minute_key = some (cron_minute_key now);
        },
        true,
      )
      else (record t { accumulated_ms = 0; last_timestamp = some timestamp }, false)
]

abbrev pub callback : Tick → ℕ
callback (interval t) = t.on_due
callback (cron t) = t.on_due

unfoldable pub advance_tick : Date → ℕ → Tick → Tick × Bool
unfolding advance_interval advance_cron
advance_tick now timestamp (interval t) =
    let (t', due) = advance_interval timestamp t in (interval t', due)
advance_tick now timestamp (cron t) = let (t', due) = advance_cron now timestamp t in (cron t', due)

-- The loop of `advance` over callbacks that leave the map of ticks alone, and the callbacks that it
-- makes, in order.
unfoldable pub advance_all : Date → ℕ → List (ℕ × Tick) → List (ℕ × Tick) × List ℕ
unfolding advance_tick
advance_all now timestamp [] = ([], [])
advance_all now timestamp ((id, t) ∷ ts) =
    let (t', due) = advance_tick now timestamp t in
    let (ts', fired) = advance_all now timestamp ts in
    ((id, t') ∷ ts', if due then callback t ∷ fired else fired)

unfoldable pub advance : Date → ℕ → Scheduler → Scheduler × List ℕ
unfolding advance_all
advance now timestamp s =
    let (ts, fired) = advance_all now timestamp s.ticks in (record s { ticks = ts }, fired)

-- The platform's call: of an animation frame, which asks for the next one, or of the interval timer.
-- The next frame is asked for after the callbacks, also in the source when one of them has stopped the
-- loop; callbacks here do not.
unfoldable pub on_frame : Date → ℕ → ℕ → Scheduler → Scheduler × List ℕ
unfolding advance
on_frame now timestamp next_handle s =
    if s.has_raf
    then (if s.running
        then (let (s', fired) = advance now timestamp s in
            (record s' { frame_handle = some next_handle }, fired))
        else (s, []))
    else advance now timestamp s
