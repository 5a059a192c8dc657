-- ===== src/Traits/StateBook.antt =====
-- traits/state-book.ts. A trait's definition has the fields that the book reads; a state's context is
-- left out, which the book never reads. `observer?.onRollback` is a list of the hops reported.
pub mod Lifecycle
use Prim.Native.Char.{Char}
use Prim.Native.String
use almadar_runtime.Base.{
  ℕ, ◌≡◌, Bool, true, false, ◌&&◌, ◌||◌, not, List, [], ◌∷◌, ◌++◌, Option, none, some, String,
  every, keep, contains, get, put, get_or, or_else, is_empty, is_some, keys, ◌==◌, if◌then◌else◌,
  string_eq,
}

pub record State : Type 0 where
  pub name : String
  pub is_initial : Bool

-- `t.from`: a list of states, or one.
pub data From : Type 0 where
  one_of : List String → From
  only : String → From

-- An effect that is an array has its operator, another has none.
pub record Transition : Type 0 where
  pub origin : From
  pub to : String
  pub event : String
  pub event_id : Option String
  pub effects : Option (List (Option String))

pub record TraitDefinition : Type 0 where
  pub name : String
  pub states : Option (List State)
  pub transitions : Option (List Transition)

pub record TraitState : Type 0 where
  pub trait_name : String
  pub current_state : String
  pub previous_state : Option String
  pub last_event : Option String

abbrev pub marked : List State → Option String
marked [] = none
marked (s ∷ ss) = if s.is_initial then some s.name else marked ss

abbrev pub first_name : List State → Option String
first_name [] = none
first_name (s ∷ ss) = some s.name

unfoldable pub find_initial_state : TraitDefinition → String
find_initial_state t =
    let states = get_or t.states [] in
    get_or (or_else (marked states) (first_name states)) "unknown"

unfoldable pub create_initial_trait_state : TraitDefinition → TraitState
unfolding find_initial_state
create_initial_trait_state t = record {
  trait_name = t.name;
  current_state = find_initial_state t;
  previous_state = none;
  last_event = none;
}

abbrev pub from_matches : From → String → Bool
from_matches (one_of states) current = contains current states
from_matches (only state) current = state == current

-- An id is given when it is there and not empty.
abbrev pub given : Option String → Option String
given none = none
given (some id) = if id == "" then none else some id

abbrev pub answers_event : Transition → String → Option String → Bool
answers_event t key id = elim (given id) [
  | none ↦ t.event == key
  | some i ↦ elim (given t.event_id) [ none ↦ t.event == key | some j ↦ j == i ]
]

unfoldable pub find_matching_transitions :
    TraitDefinition → String → String → Option String → List Transition
find_matching_transitions trait current key id =
    keep (λ t. from_matches t.origin current && answers_event t key id)
      (get_or trait.transitions [])

abbrev pub head {ℓ} : {A : Type ℓ} → List A → Option A
head [] = none
head (x ∷ xs) = some x

unfoldable pub find_transition :
    TraitDefinition → String → String → Option String → Option Transition
unfolding find_matching_transitions
find_transition trait current key id = head (find_matching_transitions trait current key id)

unfoldable pub normalize_event_key : String → String
normalize_event_key (String.◌∷◌ 'U' (String.◌∷◌ 'I' (String.◌∷◌ ':' s))) = s
normalize_event_key s = s

abbrev pub state_key : String → Option String → String
state_key trait_name entity_id =
    String.◌++◌ trait_name (String.◌++◌ "::" (get_or entity_id "__singleton__"))

pub record StateBook : Type 0 where
  pub traits : List (String × TraitDefinition)
  pub states : List (String × TraitState)

abbrev pub add_traits :
    List TraitDefinition → List (String × TraitDefinition) → List (String × TraitDefinition)
add_traits [] m = m
add_traits (t ∷ ts) m = add_traits ts (put t.name t m)

unfoldable pub create : List TraitDefinition → StateBook
create ts = record { traits = add_traits ts []; states = [] }

-- `trait === undefined ? undefined : createInitialTraitState(trait)`.
abbrev pub initial_of : Option TraitDefinition → Option TraitState
initial_of none = none
initial_of (some t) = some (create_initial_trait_state t)

unfoldable pub get_state : String → Option String → StateBook → Option TraitState
get_state name id b = or_else (get (state_key name id) b.states) (initial_of (get name b.traits))

abbrev pub add_state :
    String → Option TraitState → List (String × TraitState) → List (String × TraitState)
add_state name none m = m
add_state name (some s) m = put name s m

abbrev pub states_of :
    List String → StateBook → List (String × TraitState) → List (String × TraitState)
states_of [] b m = m
states_of (n ∷ ns) b m = states_of ns b (add_state n (get_state n none b) m)

unfoldable pub get_all_states : StateBook → List (String × TraitState)
unfolding get_state
get_all_states b = states_of (keys b.traits) b []

unfoldable pub can_handle_event : String → String → Option String → Option String → StateBook → Bool
unfolding get_state find_transition normalize_event_key
can_handle_event name event entity_id event_id b = elim (get name b.traits) [
  | none ↦ false
  | some t ↦ elim (get_state name entity_id b) [
    | none ↦ false
    | some s ↦ is_some (find_transition t s.current_state (normalize_event_key event) event_id)
  ]
]

abbrev pub is_render : Option String → Bool
is_render none = false
is_render (some op) = op == "render-ui"

-- The arm stays in the state and only renders.
abbrev pub repaints : String → Transition → Bool
repaints current t = t.to == current && every is_render (get_or t.effects [])

-- The loop over the lifecycle events of @almadar/core.
unfoldable pub repaint_from : List String → TraitDefinition → String → Option String
unfolding find_matching_transitions
repaint_from [] t current = none
repaint_from (event ∷ events) t current =
    let arms = find_matching_transitions t current event none in
    let rest = repaint_from events t current in
    if is_empty arms then rest else if every (repaints current) arms then some event else none

unfoldable pub repaint_lifecycle_event :
    List String → String → Option String → StateBook → Option String
unfolding get_state repaint_from
repaint_lifecycle_event lifecycle name id b = elim (get name b.traits) [
  | none ↦ none
  | some t ↦ elim (get_state name id b) [
    | none ↦ none
    | some s ↦ repaint_from lifecycle t s.current_state
  ]
]

abbrev pub seeded : String → TraitState → TraitState
seeded current s = record s { current_state = current; previous_state = some s.current_state }

unfoldable pub seed_state : String → String → Option String → StateBook → StateBook
unfolding create_initial_trait_state
seed_state name current id b = elim (get name b.traits) [
  | none ↦ b
  | some t ↦ record b {
    states =
        put (state_key name id)
          (seeded current
            (get_or (get (state_key name id) b.states) (create_initial_trait_state t)))
          b.states;
  }
]

pub data RollbackCause : Type 0 where
  transport_error : RollbackCause
  server_rejected : RollbackCause

pub record Rollback : Type 0 where
  pub trait_name : String
  pub source : String
  pub to : String
  pub cause : RollbackCause

abbrev pub hop : String → Option TraitState → String → RollbackCause → List Rollback
hop name none to cause = []
hop name (some s) to cause =
    if s.current_state == to
    then []
    else record { trait_name = name; source = s.current_state; to = to; cause = cause } ∷ []

-- The book after the rollback, and what the observer is told.
unfoldable pub rollback_state :
    String → String → Option String → RollbackCause → StateBook → StateBook × List Rollback
unfolding get_state seed_state
rollback_state name to id cause b =
    (seed_state name to id b, hop name (get_state name id b) to cause)
