-- ===== src/Events/Bus/Emission.antt =====
-- Emission: the circuit breaker bounds the nesting, and what every call keeps an emission keeps.
use almadar_runtime.Base.{
  ℕ, zero, suc, ◌+◌, ◌-◌, ◌<◌, ◌≡◌, refl, ap, ◌∙◌, inl, inr, List, [], ◌∷◌, ◌++◌, Option, some,
  String, nat_eq, leb, ◌==◌, insert, contains, arith, Bool-cases, get_or, get, string_eq,
}
use almadar_runtime.Events.Bus.{
  Bus, Subscription, Event, Action, emits, subscribes, unsubscribes, clears, World, Emit, at_depth,
  on, unsubscribe, clear, act, perform, notify, deliver_to, deliver_any, deliver_all, emit,
  snapshot, secondary, listeners_of,
}

on-depth :
    (t : String) (l : ℕ) (b : Bus)
    → ((on t l b).0.depth ≡ b.depth) × ((on t l b).0.max_depth ≡ b.max_depth)
unfolding on
on-depth t l b = ground arith

unsubscribe-depth :
    (u : Subscription) (b : Bus)
    → ((unsubscribe u b).depth ≡ b.depth) × ((unsubscribe u b).max_depth ≡ b.max_depth)
unfolding unsubscribe
unsubscribe-depth u b = ground arith

clear-depth : (b : Bus) {d : ℕ} → b.depth ≡ d → (clear b).depth ≡ d
unfolding clear
clear-depth b e = e

clear-max_depth : (b : Bus) {m : ℕ} → b.max_depth ≡ m → (clear b).max_depth ≡ m
unfolding clear
clear-max_depth b e = e

-- What the bus's own operations and a delivery keep.
pub record IsKept {P : Type 0} (I : World P → Type 0) : Type 0 where
  pub under_on : (t : String) (l : ℕ) (w : World P) → I w → I (record w { bus = (on t l w.bus).0 })
  pub under_unsubscribe :
      (u : Subscription) (w : World P) → I w → I (record w { bus = unsubscribe u w.bus })
  pub under_clear : (w : World P) → I w → I (record w { bus = clear w.bus })
  pub under_depth : (d : ℕ) (w : World P) → I w → I (at_depth d w)
  pub under_log :
      (l : ℕ) (event : Event P) (w : World P)
      → I w
      → I (record w { log = w.log ++ (l, event) ∷ [] })

module _ {P : Type 0} (react : ℕ → Event P → List (Action P)) (I : World P → Type 0)
    (kept : IsKept I) where
  abbrev pub At : ℕ → ℕ → World P → Type 0
  At d m w = (w.bus.depth ≡ d) × (w.bus.max_depth ≡ m) × I w

  abbrev pub Ends : ℕ → ℕ → Option (World P) → Type 0
  Ends d m r = (w : World P) × (r ≡ some w) × At d m w

  abbrev EndsWith : ℕ → ℕ → Option (List ℕ × World P) → Type 0
  EndsWith d m r = (seen : List ℕ) × (w : World P) × (r ≡ some (seen, w)) × At d m w

  module _ (d m : ℕ) (again : Emit P)
      (ih : (w : World P) (t : String) (p : P) (key : Option String)
        → At d m w
        → Ends d m (again w t p key)) where
    act-Ends : (a : Action P) (w : World P) → At d m w → Ends d m (act react again a w)
    unfolding act
    act-Ends (emits t p key) w h = ih w t p key h
    act-Ends (subscribes t l) w (e, f, i) =
        (_, refl, ((on-depth t l w.bus).0 ∙ e, (on-depth t l w.bus).1 ∙ f, kept.under_on t l w i))
    act-Ends (unsubscribes u) w (e, f, i) = (
      _,
      refl,
      (
        (unsubscribe-depth u w.bus).0 ∙ e,
        (unsubscribe-depth u w.bus).1 ∙ f,
        kept.under_unsubscribe u w i,
      ),
    )
    act-Ends clears w (e, f, i) =
        (_, refl, (clear-depth w.bus e, clear-max_depth w.bus f, kept.under_clear w i))

    perform-Ends :
        (acts : List (Action P)) (w : World P) → At d m w → Ends d m (perform react again acts w)
    unfolding perform
    perform-Ends [] w h = (w, refl, h)
    perform-Ends (a ∷ acts) w h = let (w', e, h') = act-Ends a w h in rw e (perform-Ends acts w' h')

    notify-Ends :
        (l : ℕ) (event : Event P) (w : World P) → At d m w → Ends d m (notify react again l event w)
    unfolding notify
    notify-Ends l event w (e, f, i) =
        perform-Ends (react l event) _ (e, f, kept.under_log l event w i)

    deliver_to_ends :
        (ls : List ℕ) (event : Event P) (seen : List ℕ) (w : World P)
        → At d m w
        → EndsWith d m (deliver_to react again ls event seen w)
    unfolding deliver_to
    deliver_to_ends [] event seen w h = (seen, w, refl, h)
    deliver_to_ends (l ∷ ls) event seen w h = elim (Bool-cases (contains l seen)) [
      | inl old ↦ rw old (deliver_to_ends ls event seen w h)
      | inr new ↦
          let (w', e, h') = notify-Ends l event w h in
          rw (new, e) (deliver_to_ends ls event (insert l seen) w' h')
    ]

    deliver_any-Ends :
        (ls : List ℕ) (event : Event P) (w : World P)
        → At d m w
        → Ends d m (deliver_any react again ls event w)
    unfolding deliver_any
    deliver_any-Ends [] event w h = (w, refl, h)
    deliver_any-Ends (l ∷ ls) event w h =
        let (w', e, h') = notify-Ends l event w h in rw e (deliver_any-Ends ls event w' h')

    deliver_all-Ends :
        (event : Event P) (key : Option String) (w : World P)
        → At d m w
        → Ends d m (deliver_all react again event key w)
    unfolding deliver_all
    deliver_all-Ends event key w h =
        let (d₁, w₁, e₁, h₁) =
          deliver_to_ends (snapshot (get (get_or key event.type) w.bus.listeners) w.bus) event [] w
            h in
        let (d₂, w₂, e₂, h₂) =
          deliver_to_ends (snapshot (secondary event.type key w.bus) w₁.bus) event d₁ w₁ h₁ in
        rw (e₁, e₂)
          (elim (Bool-cases (event.type == "*")) [
            | inl star ↦ rw star (w₂, refl, h₂)
            | inr plain ↦ rw plain (deliver_any-Ends (listeners_of "*" w₂.bus) event w₂ h₂)
          ])

  -- With fuel for the levels that are left, an emission ends, at the depth where it began.
  pub emit-Ends :
      (fuel d m : ℕ)
      → m - d < fuel
      → (w : World P) (t : String) (p : P) (key : Option String) → At d m w
      → Ends d m (emit react fuel w t p key)
  unfolding emit
  emit-Ends zero d m lt w t p key h = absurd (omega arith)
  emit-Ends (suc fuel) d m lt w t p key (e, f, i) =
      elim (Bool-cases (leb w.bus.max_depth w.bus.depth)) [
        | inl cut ↦ rw (cut, emit) (w, refl, (e, f, i))
        | inr open_yet ↦
            let (w', eq, (e', f', i')) =
              deliver_all-Ends (d + 1) m (emit react fuel) (emit-Ends fuel (d + 1) m (ground arith))
                (record { type = t; payload = p }) key (at_depth (w.bus.depth + 1) w)
                (ap (λ (n : ℕ). n + 1) e, f, kept.under_depth (w.bus.depth + 1) w i) in
            rw (open_yet, emit, eq)
              (at_depth (w'.bus.depth - 1) w', refl, (omega arith, f', kept.under_depth _ w' i'))
      ]
