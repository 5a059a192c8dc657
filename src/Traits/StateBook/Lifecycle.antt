-- ===== src/Traits/StateBook/Lifecycle.antt =====
-- What the book answers after a rollback, and which events repaint a trait.
use mathlib.Core.Option.{some-injective}
use almadar_runtime.Base.{
  ◌≡◌, ◌≢◌, refl, subst, ap, ◌∙◌, true, false, ◌==◌, All, inl, inr, List, [], ◌∷◌, Option, none,
  some, String, every, contains, get, put, get_or, is_empty, string_eq, arith, Bool-cases,
  Option-cases, get-put, is_empty,
}
use almadar_runtime.Traits.StateBook.{
  Transition, is_render, TraitDefinition, TraitState, create_initial_trait_state,
  find_matching_transitions, state_key, StateBook, get_state, seed_state, seeded, RollbackCause,
  hop, rollback_state, repaints, repaint_from, repaint_lifecycle_event,
}

get_state-eq-some :
    (name : String) (id : Option String) (b : StateBook) (t : TraitDefinition)
    → get name b.traits ≡ some t
    → get_state name id b
      ≡ some (get_or (get (state_key name id) b.states) (create_initial_trait_state t))
unfolding get_state
get_state-eq-some name id b t g = elim (Option-cases (get (state_key name id) b.states)) [
  | inl missing ↦ rw (missing, g) refl
  | inr (s, found) ↦ rw found refl
]

states-seed_state :
    (name to : String) (id : Option String) (b : StateBook) (t : TraitDefinition)
    → get name b.traits ≡ some t
    → (seed_state name to id b).states
      ≡ put
          (state_key name id)
          (seeded to (get_or (get (state_key name id) b.states) (create_initial_trait_state t)))
          b.states
unfolding seed_state
states-seed_state name to id b t g = rw (g, seed_state) refl

get_state-states :
    (name : String) (id : Option String) (b : StateBook) {s : TraitState}
    → get (state_key name id) b.states ≡ some s
    → get_state name id b ≡ some s
unfolding get_state
get_state-states name id b g = rw g refl

told_same :
    (name to : String) (s : TraitState) (cause : RollbackCause)
    → s.current_state ≡ to
    → hop name (some s) to cause ≡ []
told_same name to s cause e = rw ((string_eq.test_iff s.current_state to).1 e) refl

told_apart :
    (name to : String) (s : TraitState) (cause : RollbackCause)
    → (s.current_state == to) ≡ false
    → hop name (some s) to cause
      ≡ record { trait_name = name; source = s.current_state; to = to; cause = cause } ∷ []
told_apart name to s cause e = rw e refl

-- For a trait on the page, a rollback takes the state that the book had to the one that is asked
-- for: that is the current state, the one left is the previous one, and the trait's name and its last
-- event are as they were. The observer is told nothing where the two are one state, and else the trait,
-- the two states and the cause. Under any other key the book holds what it held.
pub get_state-rollback_state :
    (name to : String) (id : Option String) (cause : RollbackCause) (b : StateBook)
    (t : TraitDefinition)
    → get name b.traits ≡ some t
    → let (after, told) = rollback_state name to id cause b in
      (s : TraitState) × (get_state name id b ≡ some s)
      × (get_state name id after
          ≡ some (record {
            trait_name = s.trait_name;
            current_state = to;
            previous_state = some s.current_state;
            last_event = s.last_event;
          }))
      × (s.current_state ≡ to → told ≡ [])
      × ((s.current_state == to) ≡ false
          → told
            ≡ record { trait_name = name; source = s.current_state; to = to; cause = cause } ∷ [])
      × ((key : String)
          → (state_key name id == key) ≡ false
          → get key after.states ≡ get key b.states)
unfolding rollback_state
get_state-rollback_state name to id cause b t g =
    let s = get_or (get (state_key name id) b.states) (create_initial_trait_state t) in
    let before = get_state-eq-some name id b t g in
    let reported = ap (λ o. hop name o to cause) before in
    (
      s,
      before,
      get_state-states name id (seed_state name to id b) (
          ap (get (state_key name id)) (states-seed_state name to id b t g)
          ∙ get-put (state_key name id) (state_key name id) (seeded to s) b.states
          ∙ (rw ((string_eq.test_iff (state_key name id) (state_key name id)).1 refl) refl)),
      λ e. reported ∙ told_same name to s cause e,
      λ n. reported ∙ told_apart name to s cause n,
      λ key n.
          ap (get key) (states-seed_state name to id b t g)
          ∙ get-put (state_key name id) key (seeded to s) b.states
          ∙ (rw n refl),
    )

-- Each arm of a trait on an event, from its state, stays there and has no effect but to render; and
-- there is one.
pub IsRepaint : List String → TraitDefinition → String → String → Type 0
IsRepaint lifecycle t current event =
    (contains event lifecycle ≡ true)
    × (find_matching_transitions t current event none ≢ [])
    × All (λ arm. (arm.to ≡ current) × All (λ op. op ≡ some "render-ui") (get_or arm.effects []))
        (find_matching_transitions t current event none)

is_render_lem :
    (ops : List (Option String))
    → every is_render ops ≡ true
    → All (λ op. op ≡ some "render-ui") ops
is_render_lem [] h = tt
is_render_lem (none ∷ ops) h = cc
is_render_lem (some op ∷ ops) h = (
  ap some ((string_eq.test_iff op "render-ui").0 (ground (arith, h))),
  is_render_lem ops (ground (arith, h)),
)

repaints_lem :
    (current : String) (arms : List Transition)
    → every (repaints current) arms ≡ true
    → All
        (λ arm. (arm.to ≡ current) × All (λ op. op ≡ some "render-ui") (get_or arm.effects []))
        arms
repaints_lem current [] h = tt
repaints_lem current (arm ∷ arms) h = (
  (
    (string_eq.test_iff arm.to current).0 (ground (arith, h)),
    is_render_lem (get_or arm.effects []) (ground (arith, h)),
  ),
  repaints_lem current arms (ground (arith, h)),
)

some_arm : (arms : List Transition) → is_empty arms ≡ false → arms ≢ []
some_arm arms h e = absurd (cc (h, ap (λ l. is_empty l) e))

repaint_from-IsRepaint :
    (lifecycle : List String) (t : TraitDefinition) (current : String) {event : String}
    → repaint_from lifecycle t current ≡ some event
    → IsRepaint lifecycle t current event
unfolding repaint_from IsRepaint
repaint_from-IsRepaint [] t current h = cc
repaint_from-IsRepaint (e ∷ es) t current {event} h =
    elim (Bool-cases (is_empty (find_matching_transitions t current e none))) [
      | inl no_arms ↦
          (let (a, b, c) = repaint_from-IsRepaint es t current (rw no_arms at h) in
            (ground arith, b, c))
      | inr arms ↦
          elim (Bool-cases
            (every (repaints current) (find_matching_transitions t current e none))) [
              | inl safe ↦
                  (let p = some-injective e event (rw (arms, safe) at h) in
                    subst (IsRepaint (e ∷ es) t current) p (
                      (rw ((string_eq.test_iff e e).1 refl) refl),
                      some_arm (find_matching_transitions t current e none) arms,
                      repaints_lem current (find_matching_transitions t current e none) safe,
                    ))
              | inr unsafe ↦ cc (rw (arms, unsafe) at h)
            ]
    ]

-- An event by which the book repaints a trait is one of the lifecycle events, the trait is on the
-- page and handles the event from its state, and every arm that matches stays in that state and has
-- no effect but `render-ui`.
pub repaint_lifecycle_event_sound :
    (lifecycle : List String) (name : String) (id : Option String) (b : StateBook) {event : String}
    → repaint_lifecycle_event lifecycle name id b ≡ some event
    → (t : TraitDefinition) × (s : TraitState) × (get name b.traits ≡ some t)
      × (get_state name id b ≡ some s)
      × IsRepaint lifecycle t s.current_state event
unfolding repaint_lifecycle_event
repaint_lifecycle_event_sound lifecycle name id b h = elim (Option-cases (get name b.traits)) [
  | inl missing ↦ cc (rw (missing, repaint_lifecycle_event) at h)
  | inr (t, found) ↦ elim (Option-cases (get_state name id b)) [
    | inl lost ↦ cc (rw (found, repaint_lifecycle_event, lost) at h)
    | inr (s, held) ↦ (
      t,
      s,
      found,
      held,
      repaint_from-IsRepaint lifecycle t s.current_state
          (rw (found, repaint_lifecycle_event, held) at h),
    )
  ]
]
