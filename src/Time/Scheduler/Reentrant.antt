-- ===== src/Time/Scheduler/Reentrant.antt =====
-- TickScheduler.ts, `advance` and the frame loop, for callbacks that do call the scheduler: a pass runs
-- over the map of ticks as it is when the next one is looked for. What a callback does to the scheduler
-- is an argument.
use almadar_runtime.Base.{
  ℕ, zero, suc, ◌<◌, ◌≤◌, ◌≡◌, refl, sym, ap, ◌∙◌, Bool, true, false, List, [], ◌∷◌, ◌++◌,
  append_assoc, Option, none, some, leb, ◌==◌, if◌then◌else◌, nat_eq, put, arith, length,
  Bool-cases, inl, inr,
}
use almadar_runtime.Time.Cron.{Date}
use almadar_runtime.Time.Scheduler.{Tick, Scheduler, advance_tick, callback, advance_all, advance}

-- The next tick of the loop over the map: ids grow in the order in which ticks are added, so it is the
-- first one with an id from `from` on.
abbrev pub next_tick : ℕ → List (ℕ × Tick) → Option (ℕ × Tick)
next_tick from [] = none
next_tick from ((id, t) ∷ ts) = if leb from id then some (id, t) else next_tick from ts

-- The callbacks made before, then those of the rest of the pass.
abbrev pub after_fired : List ℕ → Option (Scheduler × List ℕ) → Option (Scheduler × List ℕ)
after_fired fired none = none
after_fired fired (some (s, later)) = some (s, fired ++ later)

abbrev pub arm_next : ℕ → Option (Scheduler × List ℕ) → Option (Scheduler × List ℕ)
arm_next handle none = none
arm_next handle (some (s, fired)) = some (record s { frame_handle = some handle }, fired)

module _ (react : ℕ → Scheduler → Scheduler) (now : Date) (timestamp : ℕ) where
  -- The tick is written before its callback runs; the callback cannot see the accumulated time, so that
  -- the remainder is taken at once.
  abbrev pub visit : ℕ → Tick → Scheduler → Scheduler × List ℕ
  visit id t s =
      let (t', due) = advance_tick now timestamp t in
      let s' = record s { ticks = put id t' s.ticks } in
      if due then (react (callback t) s', callback t ∷ []) else (s', [])

  -- `none`: out of fuel.
  unfoldable pub advance_live : ℕ → ℕ → Scheduler → Option (Scheduler × List ℕ)
  unfolding advance_tick
  advance_live zero from s = none
  advance_live (suc fuel) from s = elim (next_tick from s.ticks) [
    | none ↦ some (s, [])
    | some (id, t) ↦
        (let (s', fired) = visit id t s in after_fired fired (advance_live fuel (suc id) s'))
  ]

  -- The next frame is asked for whatever the callbacks did.
  unfoldable pub frame_live : ℕ → ℕ → Scheduler → Option (Scheduler × List ℕ)
  unfolding advance_live
  frame_live fuel next_handle s =
      if s.has_raf
      then (if s.running then arm_next next_handle (advance_live fuel 0 s) else some (s, []))
      else advance_live fuel 0 s

-- Ids that grow, from one on.
abbrev pub Ascending : ℕ → List (ℕ × Tick) → Type 0
Ascending from [] = Unit {0}
Ascending from ((id, t) ∷ ts) = (from ≤ id) × Ascending (suc id) ts

abbrev Before : ℕ → List (ℕ × Tick) → Type 0
Before from [] = Unit {0}
Before from ((id, t) ∷ ts) = (id < from) × Before from ts

leb_of_reached : (n m : ℕ) → n ≤ m → leb n m ≡ true
leb_of_reached n m h = ground arith

leb_of_passed : (n m : ℕ) → m < n → leb n m ≡ false
leb_of_passed n m h = ground arith

next_tick-append :
    (from : ℕ) (visited rest : List (ℕ × Tick))
    → Before from visited
    → next_tick from (visited ++ rest) ≡ next_tick from rest
next_tick-append from [] rest h = refl
next_tick-append from ((id, t) ∷ visited) rest (b, h) =
    rw (leb_of_passed from id b) (next_tick-append from visited rest h)

apart : (i j : ℕ) → i < j → (i == j) ≡ false
apart i j h = grind (arith, nat_eq.test_iff i j)

put-append :
    (from id : ℕ) (t t' : Tick) (visited rest : List (ℕ × Tick))
    → Before from visited
    → from ≤ id
    → put id t' (visited ++ (id, t) ∷ rest) ≡ visited ++ (id, t') ∷ rest
unfolding put
put-append from id t t' [] rest h k = rw ((nat_eq.test_iff id id).1 refl) refl
put-append from id t t' ((i, u) ∷ visited) rest (b, h) k =
    rw (apart i id (omega arith))
      (ap (λ ts. (i, u) ∷ ts) (put-append from id t t' visited rest h k))

Before-append :
    (from id : ℕ) (t : Tick) (visited : List (ℕ × Tick))
    → Before from visited
    → from ≤ id
    → Before (suc id) (visited ++ (id, t) ∷ [])
Before-append from id t [] h k = (omega arith, tt)
Before-append from id t ((i, u) ∷ visited) (b, h) k =
    (omega arith, Before-append from id t visited h k)

-- The callbacks leave the ticks alone: what they do to the scheduler's other fields does not depend on
-- the ticks either.
abbrev pub KeepsTicks : (ℕ → Scheduler → Scheduler) → Type 0
KeepsTicks react =
    (cb : ℕ) (s : Scheduler) (ts : List (ℕ × Tick))
    → react cb (record s { ticks = ts }) ≡ record (react cb s) { ticks = ts }

-- What the callbacks do to the scheduler, one after another.
abbrev pub reacts : (ℕ → Scheduler → Scheduler) → List ℕ → Scheduler → Scheduler
reacts react [] s = s
reacts react (cb ∷ cbs) s = reacts react cbs (react cb s)

reacts-due :
    (react : ℕ → Scheduler → Scheduler) (due : Bool) (cb : ℕ) (cbs : List ℕ) (s : Scheduler)
    → reacts react cbs (if due then react cb s else s)
      ≡ reacts react (if due then cb ∷ cbs else cbs) s
reacts-due react true cb cbs s = refl
reacts-due react false cb cbs s = refl

reacts-KeepsTicks :
    (react : ℕ → Scheduler → Scheduler) (cbs : List ℕ) (s : Scheduler) (ts : List (ℕ × Tick))
    → KeepsTicks react
    → reacts react cbs (record s { ticks = ts }) ≡ record (reacts react cbs s) { ticks = ts }
reacts-KeepsTicks react [] s ts keeps = refl
reacts-KeepsTicks react (cb ∷ cbs) s ts keeps =
    ap (reacts react cbs) (keeps cb s ts) ∙ reacts-KeepsTicks react cbs (react cb s) ts keeps

visit-put :
    (react : ℕ → Scheduler → Scheduler) (now : Date) (timestamp id : ℕ) (t : Tick) (s : Scheduler)
    (ts : List (ℕ × Tick))
    → KeepsTicks react
    → visit react now timestamp id t (record s { ticks = ts }) ≡ (
      record (if (advance_tick now timestamp t).1 then react (callback t) s else s) {
        ticks = put id (advance_tick now timestamp t).0 ts;
      },
      if (advance_tick now timestamp t).1 then callback t ∷ [] else [],
    )
visit-put react now timestamp id t s ts keeps =
    elim (Bool-cases ((advance_tick now timestamp t).1)) [
      | inl due ↦ rw due (
          ap (λ s'. (s', callback t ∷ []))
            (keeps (callback t) s (put id (advance_tick now timestamp t).0 ts)))
      | inr idle ↦ rw idle refl
    ]

advance_live_end :
    (react : ℕ → Scheduler → Scheduler) (now : Date) (timestamp fuel from : ℕ) (s : Scheduler)
    → next_tick from s.ticks ≡ none
    → advance_live react now timestamp (suc fuel) from s ≡ some (s, [])
unfolding advance_live
advance_live_end react now timestamp fuel from s e = simp (e, advance_live) refl

advance_live_next :
    (react : ℕ → Scheduler → Scheduler) (now : Date) (timestamp fuel from id : ℕ) (t : Tick)
    (s : Scheduler)
    → next_tick from s.ticks ≡ some (id, t)
    → advance_live react now timestamp (suc fuel) from s
      ≡ after_fired
          (visit react now timestamp id t s).1
          (advance_live react now timestamp fuel (suc id) (visit react now timestamp id t s).0)
unfolding advance_live
advance_live_next react now timestamp fuel from id t s e =
    ap
      (λ (o : Option (ℕ × Tick)). elim o [
        | none ↦ some (s, [])
        | some (i, u) ↦
            (let (s', fired) = visit react now timestamp i u s in
              after_fired fired (advance_live react now timestamp fuel (suc i) s'))
      ])
      e

fired_cons :
    (b : Bool) (cb : ℕ) (fs : List ℕ)
    → (if b then cb ∷ [] else []) ++ fs ≡ (if b then cb ∷ fs else fs)
fired_cons true cb fs = refl
fired_cons false cb fs = refl

module _ (react : ℕ → Scheduler → Scheduler) (now : Date) (timestamp : ℕ)
    (keeps : KeepsTicks react) where
  advance_live-advance_all :
      (fuel from : ℕ) (visited rest : List (ℕ × Tick)) (s : Scheduler)
      → length rest < fuel
      → Before from visited
      → Ascending from rest
      → advance_live react now timestamp fuel from (record s { ticks = visited ++ rest })
        ≡ some (
          record (reacts react (advance_all now timestamp rest).1 s) {
            ticks = visited ++ (advance_all now timestamp rest).0;
          },
          (advance_all now timestamp rest).1,
        )
  unfolding advance_live advance_all
  advance_live-advance_all zero from visited rest s l b h =
      let never : ⊥ = omega (arith, l) in elim never [ ]
  advance_live-advance_all (suc fuel) from visited [] s l b h =
      advance_live_end react now timestamp fuel from (record s { ticks = visited ++ [] })
        (next_tick-append from visited [] b)
  advance_live-advance_all (suc fuel) from visited ((id, t) ∷ rest) s l b (k, h) =
      let t' = (advance_tick now timestamp t).0 in
      let due = (advance_tick now timestamp t).1 in
      let cb = callback t in
      let fired : List ℕ = if due then cb ∷ [] else [] in
      let later = (advance_all now timestamp rest).1 in
      let ts' = (advance_all now timestamp rest).0 in
      let ts = visited ++ (id, t) ∷ rest in
      let s₁ = if due then react cb s else s in
      let moved : put id t' ts ≡ (visited ++ (id, t') ∷ []) ++ rest =
        put-append from id t t' visited rest b k
        ∙ sym (append_assoc visited ((id, t') ∷ []) rest) in
      advance_live_next react now timestamp fuel from id t (record s { ticks = ts })
        (next_tick-append from visited ((id, t) ∷ rest) b ∙ (rw (leb_of_reached from id k) refl))
      ∙ ap (λ v. after_fired v.1 (advance_live react now timestamp fuel (suc id) v.0))
          (visit-put react now timestamp id t s ts keeps)
      ∙ ap
          (λ us.
            after_fired fired
              (advance_live react now timestamp fuel (suc id) (record s₁ { ticks = us })))
          moved
      ∙ ap (after_fired fired) (
          advance_live-advance_all fuel (suc id) (visited ++ (id, t') ∷ []) rest s₁
            (omega (arith, l)) (Before-append from id t' visited b k) h)
      ∙ ap (λ us. some (record (reacts react later s₁) { ticks = us }, fired ++ later))
          (append_assoc visited ((id, t') ∷ []) ts')
      ∙ ap (λ s'. some (record s' { ticks = visited ++ (id, t') ∷ ts' }, fired ++ later))
          (reacts-due react due cb later s)
      ∙ ap
          (λ fs. some (
            record (reacts react (if due then cb ∷ later else later) s) {
              ticks = visited ++ (id, t') ∷ ts';
            },
            fs,
          ))
          (fired_cons due cb later)

frame_cases :
    (has_raf running : Bool) (next_handle : ℕ) (s : Scheduler) (pass : Scheduler × List ℕ)
    → (if has_raf
        then (if running then arm_next next_handle (some pass) else some (s, []))
        else some pass)
      ≡ some (
          if has_raf
          then (if running
              then (record pass.0 { frame_handle = some next_handle }, pass.1)
              else (s, []))
          else pass)
frame_cases true true next_handle s pass = refl
frame_cases true false next_handle s pass = refl
frame_cases false running next_handle s pass = refl

pub frame_live-reacts :
    (react : ℕ → Scheduler → Scheduler) (fuel : ℕ) (now : Date) (timestamp next_handle : ℕ)
    (s : Scheduler)
    → KeepsTicks react
    → length s.ticks < fuel
    → Ascending 0 s.ticks
    → frame_live react now timestamp fuel next_handle s ≡ (
        let (s', fired) = advance now timestamp s in
        let after = reacts react fired s' in
        some (
          if s.has_raf
          then (if s.running
              then (record after { frame_handle = some next_handle }, fired)
              else (s, []))
          else (after, fired)))
unfolding frame_live advance
frame_live-reacts react fuel now timestamp next_handle s keeps l h =
    let ts' = (advance_all now timestamp s.ticks).0 in
    let fired = (advance_all now timestamp s.ticks).1 in
    ap (λ o. if s.has_raf then (if s.running then arm_next next_handle o else some (s, [])) else o)
      (advance_live-advance_all react now timestamp keeps fuel 0 [] s.ticks s l tt h
        ∙ ap (λ s'. some (s', fired)) (sym (reacts-KeepsTicks react fired s ts' keeps)))
    ∙ frame_cases s.has_raf s.running next_handle s
        (reacts react fired (record s { ticks = ts' }), fired)
