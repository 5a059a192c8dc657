-- ===== src/Traits/Tests.antt =====
-- A trait with a repaintable arm, and a payload of two fields.
use almadar_runtime.Base.{
  ◌≡◌, ◌↔◌, refl, true, false, List, [], ◌∷◌, none, some, String, Option, All, get, get_or, put,
  ◌==◌, string_eq, if◌then◌else◌, or_else, split,
}
use almadar_runtime.Traits.StateBook.{
  only, one_of, TraitDefinition, TraitState, find_initial_state, create_initial_trait_state,
  find_matching_transitions, find_transition, normalize_event_key, StateBook, create, get_state,
  get_all_states, can_handle_event, repaint_from, repaint_lifecycle_event, seed_state,
  server_rejected, rollback_state, state_key,
}
use almadar_runtime.Traits.StateBook.Lifecycle.{
  get_state-rollback_state, IsRepaint, repaint_lifecycle_event_sound,
}
use mathlib.Core.Option.{map}
use almadar_runtime.Traits.Config.{
  ConfigValue, text, scalar as number, Config, DeclaredField, field, no_object, declared_defaults,
  put_all, own_values, resolve, resolve_all, build_config_binding,
}
use almadar_runtime.Traits.Config.Precedence.{own, declared, get-build_config_binding}
use almadar_runtime.Traits.Payload.{
  Value, scalar, array, Container, in_array, in_neither, PayloadField, validate_event_payload, Fits,
  validate_event_payload_iff,
}

traits : Unit {0}
unfolding find_initial_state create_initial_trait_state find_matching_transitions find_transition
    normalize_event_key create get_state get_all_states can_handle_event repaint_from
    repaint_lifecycle_event seed_state rollback_state validate_event_payload declared_defaults
    put_all own_values resolve_all build_config_binding get put split
traits = tt

abbrev card : TraitDefinition
card = record {
  name = "Card";
  states = some (
      record { name = "idle"; is_initial = false }
      ∷ record { name = "open"; is_initial = true }
      ∷ []);
  transitions = some (
      record { origin = only "idle"; to = "idle"; event = "INIT"; event_id = none; effects = none }
      ∷ record {
        origin = one_of ("idle" ∷ "open" ∷ []);
        to = "open";
        event = "LOAD";
        event_id = some "e1";
        effects = some (some "render-ui" ∷ []);
      }
      ∷ []);
}

abbrev book : StateBook
unfolding traits
book = create (card ∷ [])

book_tests :
    (find_initial_state card ≡ "open")
    × (can_handle_event "Card" "UI:LOAD" none none book ≡ true)
    × (can_handle_event "Card" "INIT" none none book ≡ false)
    × (can_handle_event "Card" "RENAMED" none (some "e1") book ≡ true)
    × (repaint_lifecycle_event ("INIT" ∷ "LOAD" ∷ []) "Card" none book ≡ some "LOAD")
    × (get_state "Menu" none (seed_state "Menu" "open" none book) ≡ none)
unfolding traits
book_tests = (refl, refl, refl, refl, refl, refl)

get_state-rollback_state_example :
    let (after, told) = rollback_state "Card" "idle" none server_rejected book in
    (s : TraitState) × (get_state "Card" none book ≡ some s)
    × (get_state "Card" none after
        ≡ some (record {
          trait_name = s.trait_name;
          current_state = "idle";
          previous_state = some s.current_state;
          last_event = s.last_event;
        }))
    × (s.current_state ≡ "idle" → told ≡ [])
    × ((s.current_state == "idle") ≡ false
        → told
          ≡ record {
            trait_name = "Card";
            source = s.current_state;
            to = "idle";
            cause = server_rejected;
          }
            ∷ [])
    × ((key : String)
        → (state_key "Card" none == key) ≡ false
        → get key after.states ≡ get key book.states)
unfolding traits
get_state-rollback_state_example =
    get_state-rollback_state "Card" "idle" none server_rejected book card refl

repaint_lifecycle_event_sound_example :
    (t : TraitDefinition) × (s : TraitState) × (get "Card" book.traits ≡ some t)
    × (get_state "Card" none book ≡ some s)
    × IsRepaint ("INIT" ∷ "LOAD" ∷ []) t s.current_state "LOAD"
unfolding traits
repaint_lifecycle_event_sound_example =
    repaint_lifecycle_event_sound ("INIT" ∷ "LOAD" ∷ []) "Card" none book refl

abbrev container : String → Container
container type = if type == "[string]" then in_array else in_neither

abbrev fields : List PayloadField
fields =
    record { name = "id"; type = "string"; required = true }
    ∷ record { name = "tags"; type = "[string]"; required = false }
    ∷ []

abbrev payload : List (String × Value)
payload = ("id", scalar) ∷ ("tags", array) ∷ []

validate_event_payload_iff_example :
    (validate_event_payload container "SAVE" (some payload) (some fields) ≡ [])
    ↔ All (λ f. Fits container f (get f.name (get_or (some payload) []))) fields
validate_event_payload_iff_example =
    validate_event_payload_iff container "SAVE" (some payload) fields

abbrev user : String → Option ConfigValue
user path = if path == "org.name" then some (text "Acme") else none

abbrev schema : List (String × DeclaredField)
schema =
    ("title", field (some (text "Untitled")))
    ∷ ("size", field (some (number 3)))
    ∷ ("odd", no_object)
    ∷ []

abbrev resolved : Config
resolved = ("size", number 5) ∷ []

abbrev override : Config
override = ("title", text "@user.org.name") ∷ ("size", text "@config.width") ∷ []

abbrev bound : Config
bound = ("title", text "Acme") ∷ ("size", number 5) ∷ []

config_tests :
    (build_config_binding user (some schema) (some resolved) (some override)
      ≡ some (("title", text "Acme") ∷ ("size", number 5) ∷ []))
    × (build_config_binding user none none none ≡ none)
    × (build_config_binding user none
          (some (("a", text "@user.x..y") ∷ ("b", text "@user.x") ∷ []))
          none
        ≡ some (("a", text "@user.x..y") ∷ ("b", text "") ∷ []))
unfolding traits
config_tests = (refl, refl, refl)

get-build_config_binding_example :
    get "title" bound
    ≡ map (resolve user) (
        or_else
          (own (get "title" override))
          (or_else (get "title" resolved) (or_else (declared (get "title" schema)) none)))
unfolding traits
get-build_config_binding_example =
    get-build_config_binding user (some schema) (some resolved) (some override) "title" bound
      (refl, (refl, (refl, tt))) (refl, tt) (refl, (refl, tt)) refl
