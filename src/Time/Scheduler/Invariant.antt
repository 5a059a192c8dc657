-- ===== src/Time/Scheduler/Invariant.antt =====
-- What the scheduler's calls keep, and a frame whose callbacks leave the scheduler alone.
use almadar_runtime.Base.{
  ℕ, suc, ◌<◌, ◌≡◌, refl, sym, ap, Bool, true, false, ◌&&◌, ◌||◌, not, List, [], ◌∷◌, nat_eq, put,
  delete, is_empty, ℤ, pos_part, is_some, arith, All, keys, values, IsUnique, put-IsUnique,
  delete-IsUnique, All-keys-put, All-keys-delete, All-values-put, All-values-delete, is_empty-put,
  if_cases, inl, inr, ◌⊎◌, Bool-cases,
}
use almadar_runtime.Time.Cron.{Date}
use almadar_runtime.Time.Scheduler.{
  Tick, interval, cron, IntervalTick, Scheduler, create, ensure_running, stop_loop, maybe_stop,
  register, add, stop, stop_all, pause, reset, reset_all, resume, advance_interval, advance_tick,
  advance_all, advance, on_frame,
}

-- The phase of an interval tick is shorter than its interval.
abbrev pub InPhase : Tick → Type 0
InPhase (interval t) = (t.interval_ms ≡ 0) ⊎ (t.accumulated_ms < t.interval_ms)
InPhase (cron t) = Unit

-- The registered ticks: each under an id of its own that `add` has given out.
pub record IsTable (ticks : List (ℕ × Tick)) (next_id : ℕ) : Type 0 where
  pub fresh : All (λ id. id < next_id) (keys ticks)
  pub once : IsUnique (keys ticks)
  pub phases : All InPhase (values ticks)

-- The shared clock runs exactly while there are ticks and the scheduler is not paused, and a frame
-- or timer is asked for exactly while it runs.
pub record IsWf (s : Scheduler) : Type 0 where
  pub runs : s.running ≡ (not (is_empty s.ticks) && not s.paused)
  pub armed : is_some s.frame_handle ≡ s.running
  pub table : IsTable s.ticks s.next_id

pub create-IsWf : (has_raf : Bool) → IsWf (create has_raf)
unfolding create
create-IsWf has_raf = record {
  runs = refl;
  armed = refl;
  table = record { fresh = tt; once = tt; phases = tt };
}

fresh_suc : (n : ℕ) (ids : List ℕ) → All (λ id. id < n) ids → All (λ id. id < suc n) ids
fresh_suc n [] h = tt
fresh_suc n (i ∷ ids) (p, h) = (omega arith, fresh_suc n ids h)

put-IsTable :
    (tick : Tick) (ticks : List (ℕ × Tick)) (n : ℕ)
    → InPhase tick
    → IsTable ticks n
    → IsTable (put n tick ticks) (suc n)
put-IsTable tick ticks n p v = record {
  fresh =
      All-keys-put (λ id. id < suc n) n tick ticks (omega arith) (fresh_suc n (keys ticks) v.fresh);
  once = put-IsUnique n tick ticks v.once;
  phases = All-values-put InPhase n tick ticks p v.phases;
}

delete-IsTable :
    (id : ℕ) (ticks : List (ℕ × Tick)) (n : ℕ) → IsTable ticks n → IsTable (delete id ticks) n
delete-IsTable id ticks n v = record {
  fresh = All-keys-delete (λ i. i < n) id ticks v.fresh;
  once = delete-IsUnique id ticks v.once;
  phases = All-values-delete InPhase id ticks v.phases;
}

-- The clock's flags before `ensure_running` and `maybe_stop`: it may run with no ticks left, or not
-- run with the first one there.
ensure_running-IsWf :
    (handle : ℕ) (s : Scheduler)
    → is_empty s.ticks ≡ false
    → (s.running && s.paused) ≡ false
    → is_some s.frame_handle ≡ s.running
    → IsTable s.ticks s.next_id
    → IsWf (ensure_running handle s)
unfolding ensure_running
ensure_running-IsWf handle s full apart armed v = elim (Bool-cases (s.running || s.paused)) [
  | inl busy ↦ rw (busy, ensure_running) (record { runs = ground arith; armed = armed; table = v })
  | inr idle ↦ rw (idle, ensure_running) (record { runs = ground arith; armed = refl; table = v })
]

maybe_stop-IsWf :
    (s : Scheduler)
    → (s.running ≡ (not (is_empty s.ticks) && not s.paused)) ⊎ (is_empty s.ticks ≡ true)
    → is_some s.frame_handle ≡ s.running
    → IsTable s.ticks s.next_id
    → IsWf (maybe_stop s)
unfolding maybe_stop
maybe_stop-IsWf s either armed v = elim (Bool-cases (not (is_empty s.ticks) || not s.running)) [
  | inl stay ↦ rw (stay, maybe_stop) (record { runs = ground arith; armed = armed; table = v })
  | inr halt ↦ rw (halt, maybe_stop) (record { runs = ground arith; armed = refl; table = v })
]

pub register-IsWf :
    (handle : ℕ) (tick : Tick) (s : Scheduler)
    → InPhase tick
    → IsWf s
    → IsWf (register handle tick s)
unfolding register
register-IsWf handle tick s p v =
    ensure_running-IsWf handle _ (is_empty-put s.next_id tick s.ticks) (ground arith) v.armed
      (put-IsTable tick s.ticks s.next_id p v.table)

pos_part_cases : (ms : ℤ) → (pos_part ms ≡ 0) ⊎ (0 < pos_part ms)
pos_part_cases ms = ground arith

pub add-IsWf : (handle : ℕ) (ms : ℤ) (cb : ℕ) (s : Scheduler) → IsWf s → IsWf (add handle ms cb s)
unfolding add
add-IsWf handle ms cb s v = register-IsWf handle _ s (pos_part_cases ms) v

is_empty-delete :
    (id : ℕ) (ticks : List (ℕ × Tick)) → is_empty (delete id ticks) ≡ false → is_empty ticks ≡ false
unfolding delete
is_empty-delete id [] h = h
is_empty-delete id (t ∷ ticks) h = refl

pub stop-IsWf : (id : ℕ) (s : Scheduler) → IsWf s → IsWf (stop id s)
unfolding stop
stop-IsWf id s v =
    maybe_stop-IsWf (record s { ticks = delete id s.ticks })
      (elim (Bool-cases (is_empty (delete id s.ticks))) [
        | inl gone ↦ inr gone
        | inr left ↦ inl (ground (arith, is_empty-delete id s.ticks left))
      ])
      v.armed (delete-IsTable id s.ticks s.next_id v.table)

pub stop_all-IsWf : (s : Scheduler) → IsWf s → IsWf (stop_all s)
unfolding stop_all
stop_all-IsWf s v =
    maybe_stop-IsWf (record s { ticks = [] }) (inr refl) v.armed
      (record { fresh = tt; once = tt; phases = tt })

pub pause-IsWf : (s : Scheduler) → IsWf s → IsWf (pause s)
unfolding pause stop_loop
pause-IsWf s v =
    if_cases IsWf s.paused (λ already. v)
      (λ not_yet. record { runs = ground arith; armed = refl; table = v.table })

keys-reset_all : (ticks : List (ℕ × Tick)) → keys (reset_all ticks) ≡ keys ticks
keys-reset_all [] = refl
keys-reset_all ((id, t) ∷ ticks) = ap (◌∷◌ id) (keys-reset_all ticks)

reset-InPhase : (t : Tick) → InPhase t → InPhase (reset t)
reset-InPhase (interval t) p = p
reset-InPhase (cron t) p = tt

phases-reset_all :
    (ticks : List (ℕ × Tick)) → All InPhase (values ticks) → All InPhase (values (reset_all ticks))
phases-reset_all [] h = tt
phases-reset_all ((id, t) ∷ ticks) (p, h) = (reset-InPhase t p, phases-reset_all ticks h)

-- A table is one of ids and phases alone.
IsTable-of_keys :
    (ticks ticks' : List (ℕ × Tick)) (n : ℕ)
    → keys ticks' ≡ keys ticks
    → All InPhase (values ticks')
    → IsTable ticks n
    → IsTable ticks' n
IsTable-of_keys ticks ticks' n e p v = record {
  fresh = rw e v.fresh;
  once = rw e v.once;
  phases = p;
}

is_empty_of_keys :
    (ticks ticks' : List (ℕ × Tick)) → keys ticks' ≡ keys ticks → is_empty ticks' ≡ is_empty ticks
is_empty_of_keys [] [] e = refl
is_empty_of_keys [] (t ∷ ticks') e = cc
is_empty_of_keys (t ∷ ticks) [] e = cc
is_empty_of_keys (t ∷ ticks) (t' ∷ ticks') e = refl

pub resume-IsWf : (handle : ℕ) (s : Scheduler) → IsWf s → IsWf (resume handle s)
unfolding resume
resume-IsWf handle s v =
    let s' = record s { paused = false; ticks = reset_all s.ticks } in
    let table =
      IsTable-of_keys s.ticks (reset_all s.ticks) s.next_id (keys-reset_all s.ticks)
        (phases-reset_all s.ticks v.table.phases) v.table in
    if_cases IsWf s.paused
      (λ halted.
        if_cases IsWf (is_empty (reset_all s.ticks))
          (λ none_left. record { runs = ground arith; armed = v.armed; table = table })
          (λ some_left. ensure_running-IsWf handle s' some_left (ground arith) v.armed table))
      (λ going. v)

keys-advance_all :
    (now : Date) (timestamp : ℕ) (ticks : List (ℕ × Tick))
    → keys ((advance_all now timestamp ticks).0) ≡ keys ticks
unfolding advance_all
keys-advance_all now timestamp [] = refl
keys-advance_all now timestamp ((id, t) ∷ ticks) =
    ap (◌∷◌ id) (keys-advance_all now timestamp ticks)

advance_interval-InPhase :
    (timestamp : ℕ) (t : IntervalTick)
    → InPhase (interval t)
    → InPhase (interval ((advance_interval timestamp t).0))
unfolding advance_interval
advance_interval-InPhase timestamp t p = ground arith

advance_tick-InPhase :
    (now : Date) (timestamp : ℕ) (t : Tick) → InPhase t → InPhase ((advance_tick now timestamp t).0)
unfolding advance_tick
advance_tick-InPhase now timestamp (interval t) p = advance_interval-InPhase timestamp t p
advance_tick-InPhase now timestamp (cron t) p = tt

phases-advance_all :
    (now : Date) (timestamp : ℕ) (ticks : List (ℕ × Tick))
    → All InPhase (values ticks)
    → All InPhase (values ((advance_all now timestamp ticks).0))
unfolding advance_all
phases-advance_all now timestamp [] h = tt
phases-advance_all now timestamp ((id, t) ∷ ticks) (p, h) =
    (advance_tick-InPhase now timestamp t p, phases-advance_all now timestamp ticks h)

advance-IsWf :
    (now : Date) (timestamp : ℕ) (s : Scheduler) → IsWf s → IsWf ((advance now timestamp s).0)
unfolding advance
advance-IsWf now timestamp s v =
    let ticks' = (advance_all now timestamp s.ticks).0 in
    let same = keys-advance_all now timestamp s.ticks in
    record {
      runs = rw (is_empty_of_keys s.ticks ticks' same) v.runs;
      armed = v.armed;
      table =
          IsTable-of_keys s.ticks ticks' s.next_id same
            (phases-advance_all now timestamp s.ticks v.table.phases) v.table;
    }

pub on_frame-IsWf :
    (now : Date) (timestamp next : ℕ) (s : Scheduler)
    → IsWf s
    → IsWf ((on_frame now timestamp next s).0)
unfolding on_frame
on_frame-IsWf now timestamp next s v =
    let after = advance-IsWf now timestamp s v in
    if_cases (λ (r : Scheduler × List ℕ). IsWf r.0) s.has_raf
      (λ raf.
        if_cases (λ (r : Scheduler × List ℕ). IsWf r.0) s.running
          (λ on. record { runs = after.runs; armed = sym on; table = after.table }) (λ off. v))
      (λ timer. after)
