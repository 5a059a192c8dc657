-- ===== src/Events/Bus.antt =====
-- events/EventBus.ts. The listener sets are objects on a heap, since an unsubscribe function keeps
-- the set that it was made with. A listener is an identity; what it does when it is called is the
-- parameter `react`, the calls that it makes back into the bus until it returns or throws.
pub mod Invariant
pub mod Delivery
pub mod Reentrancy
pub mod Emission
pub mod Subscriptions
use almadar_runtime.Base.{
  ℕ, zero, suc, ◌+◌, ◌-◌, ◌≡◌, Bool, true, false, not, ◌&&◌, List, [], ◌∷◌, ◌++◌, Option, none,
  some, String, ◌>>=◌, nat_eq, string_eq, leb, ◌==◌, if◌then◌else◌, get, put, delete, insert,
  remove, contains, get_or, keys, length, is_empty, ltb,
}

pub record Bus : Type 0 where
  pub sets : List (ℕ × List ℕ)
  pub listeners : List (String × ℕ)
  pub next_set : ℕ
  pub max_depth : ℕ
  pub depth : ℕ

-- The closure that `on` returns.
pub record Subscription : Type 0 where
  pub type : String
  pub set : ℕ
  pub listener : ℕ

pub record Event (P : Type 0) : Type 0 where
  pub type : String
  pub payload : P

pub data Action (P : Type 0) : Type 0 where
  emits : String → P → Option String → Action P
  subscribes : String → ℕ → Action P
  unsubscribes : Subscription → Action P
  clears : Action P

unfoldable pub create : Option ℕ → Bus
create max = record {
  sets = [];
  listeners = [];
  next_set = 0;
  max_depth = get_or max 10;
  depth = 0;
}

-- The members of a set object.
unfoldable pub members : ℕ → Bus → List ℕ
members s b = get_or (get s b.sets) []

-- The listeners under a key.
unfoldable pub listeners_of : String → Bus → List ℕ
unfolding members
listeners_of t b = elim (get t b.listeners) [ none ↦ [] | some s ↦ members s b ]

add_to : String → ℕ → ℕ → Bus → Bus × Subscription
unfolding members
add_to t s l b = (
  record b { sets = put s (insert l (members s b)) b.sets },
  record { type = t; set = s; listener = l },
)

unfoldable pub on : String → ℕ → Bus → Bus × Subscription
unfolding add_to
on t l b = elim (get t b.listeners) [
  | some s ↦ add_to t s l b
  | none ↦ add_to t b.next_set l (record b {
    sets = put b.next_set [] b.sets;
    listeners = put t b.next_set b.listeners;
    next_set = suc b.next_set;
  })
]

unfoldable pub on_any : ℕ → Bus → Bus × Subscription
unfolding on
on_any l b = on "*" l b

drop_from : Subscription → Bus → Bus
unfolding members
drop_from u b = record b { sets = put u.set (remove u.listener (members u.set b)) b.sets }

unfoldable pub unsubscribe : Subscription → Bus → Bus
unfolding drop_from members
unsubscribe u b =
    let b' = drop_from u b in
    if is_empty (members u.set b') then record b' { listeners = delete u.type b'.listeners } else b'

unfoldable pub has_listeners : String → Bus → Bool
unfolding listeners_of
has_listeners t b = ltb 0 (length (listeners_of t b))

pub get_registered_events : Bus → List String
get_registered_events b = keys b.listeners

unfoldable pub clear : Bus → Bus
clear b = record b { listeners = [] }

unfoldable pub get_listener_count : String → Bus → ℕ
unfolding listeners_of
get_listener_count t b = length (listeners_of t b)

-- The bus and every delivery so far, oldest first.
pub record World (P : Type 0) : Type 0 where
  pub bus : Bus
  pub log : List (ℕ × Event P)

abbrev pub Emit : Type 0 → Type 0
Emit P = World P → String → P → Option String → Option (World P)

abbrev pub at_depth : {P : Type 0} → ℕ → World P → World P
at_depth d w = record w { bus = record (w.bus) { depth = d } }

-- The set that is captured before the first delivery, read when its turn comes.
abbrev pub snapshot : Option ℕ → Bus → List ℕ
snapshot none b = []
snapshot (some s) b = members s b

unfoldable pub secondary : String → Option String → Bus → Option ℕ
secondary t none b = none
secondary t (some key) b = if key == t then none else get t b.listeners

module _ {P : Type 0} (react : ℕ → Event P → List (Action P)) where
  -- One call back into the bus; `again` is `emit` one level deeper.
  unfoldable pub act : Emit P → Action P → World P → Option (World P)
  act again (emits t p key) w = again w t p key
  act again (subscribes t l) w = some (record w { bus = (on t l w.bus).0 })
  act again (unsubscribes u) w = some (record w { bus = unsubscribe u w.bus })
  act again clears w = some (record w { bus = clear w.bus })

  unfoldable pub perform : Emit P → List (Action P) → World P → Option (World P)
  perform again [] w = some w
  perform again (a ∷ acts) w = do w' ← act again a w; perform again acts w'

  unfoldable pub notify : Emit P → ℕ → Event P → World P → Option (World P)
  notify again l event w =
      perform again (react l event) (record w { log = w.log ++ (l, event) ∷ [] })

  -- The loop of `deliverTo` over the copied set, with the set `delivered`.
  unfoldable pub deliver_to :
      Emit P → List ℕ → Event P → List ℕ → World P → Option (List ℕ × World P)
  deliver_to again [] event delivered w = some (delivered, w)
  deliver_to again (l ∷ ls) event delivered w =
      if contains l delivered
      then deliver_to again ls event delivered w
      else (notify again l event w >>= λ w'. deliver_to again ls event (insert l delivered) w')

  -- The loop over the wildcard listeners.
  unfoldable pub deliver_any : Emit P → List ℕ → Event P → World P → Option (World P)
  deliver_any again [] event w = some w
  deliver_any again (l ∷ ls) event w = do w' ← notify again l event w; deliver_any again ls event w'

  unfoldable pub deliver_all : Emit P → Event P → Option String → World P → Option (World P)
  unfolding secondary
  deliver_all again event key w = do
    let first = get (get_or key event.type) w.bus.listeners
    let second = secondary event.type key w.bus
    (d₁, w₁) ← deliver_to again (snapshot first w.bus) event [] w
    (d₂, w₂) ← deliver_to again (snapshot second w₁.bus) event d₁ w₁
    if event.type == "*" then some w₂ else deliver_any again (listeners_of "*" w₂.bus) event w₂

  -- Fuel bounds the nesting of emits; `none` means that it ran out.
  unfoldable pub emit : ℕ → Emit P
  emit zero w t p key = none
  emit (suc fuel) w t p key = elim (leb w.bus.max_depth w.bus.depth) [
    | true ↦ some w
    | false ↦ do
      w' ←
          deliver_all (emit fuel) (record { type = t; payload = p }) key
            (at_depth (w.bus.depth + 1) w)
      some (at_depth (w'.bus.depth - 1) w')
  ]
