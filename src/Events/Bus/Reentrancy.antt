-- ===== src/Events/Bus/Reentrancy.antt =====
-- Emission with listeners that call back into the bus.
use almadar_runtime.Base.{
  ℕ, ◌-◌, ◌<◌, ◌≡◌, refl, sym, ap, ◌∙◌, List, [], ◌∷◌, ◌++◌, Option, some, String, append_assoc,
  append-nil,
}
use almadar_runtime.Events.Bus.{Event, World, Action, emit}
use almadar_runtime.Events.Bus.Emission.{IsKept, emit-Ends}
use almadar_runtime.Events.Bus.Invariant.{IsWf, on-IsWf, unsubscribe-IsWf, clear-IsWf, depth-IsWf}

-- The deliveries of `start` are still there, before the later ones.
abbrev pub Extends : {P : Type 0} → World P → World P → Type 0
Extends {P} start w = (later : List (ℕ × Event P)) × (w.log ≡ start.log ++ later)

abbrev Sound : {P : Type 0} → World P → World P → Type 0
Sound start w = IsWf w.bus × Extends start w

Sound-kept : {P : Type 0} (start : World P) → IsKept (Sound start)
Sound-kept start = record {
  under_on = λ t l w v. (on-IsWf t l w.bus v.0, v.1);
  under_unsubscribe = λ u w v. (unsubscribe-IsWf u w.bus v.0, v.1);
  under_clear = λ w v. (clear-IsWf w.bus v.0, v.1);
  under_depth = λ d w v. (depth-IsWf d w.bus v.0, v.1);
  under_log = λ l event w v. (
    v.0,
    (
      v.1.0 ++ (l, event) ∷ [],
      ap (λ xs. xs ++ (l, event) ∷ []) v.1.1 ∙ append_assoc start.log v.1.0 ((l, event) ∷ []),
    ),
  );
}

-- Whatever the listeners do, emissions of their own included, an emission ends when the fuel is above
-- the levels that the circuit breaker leaves, `max_depth - depth`: it gives a bus at the depth where
-- it began, with the same limit, still well formed, and every earlier delivery stays in the log.
pub emit_total :
    {P : Type 0} (react : ℕ → Event P → List (Action P)) (fuel : ℕ) (w : World P) (t : String)
    (p : P) (key : Option String)
    → w.bus.max_depth - w.bus.depth < fuel
    → IsWf w.bus
    → (w' : World P) × (emit react fuel w t p key ≡ some w')
      × (w'.bus.depth ≡ w.bus.depth)
      × (w'.bus.max_depth ≡ w.bus.max_depth)
      × IsWf w'.bus
      × Extends w w'
emit_total react fuel w t p key enough v =
    let (w', e, (d, m, (v', x))) =
      emit-Ends react (Sound w) (Sound-kept w) fuel w.bus.depth w.bus.max_depth enough w t p key
        (refl, refl, (v, ([], sym (append-nil w.log)))) in
    (w', e, d, m, v', x)
