-- ===== src/Composition/Wiring.antt =====
-- effects/composition/event-wiring.ts. An orbital's `traits` are values without sharing, as after
-- the JSON clone, so a write to the trait that was found is a write to the first one of that name.
pub mod Laws
pub mod Again
pub mod InForce
use almadar_runtime.Base.{
  ℕ, Bool, true, false, ◌&&◌, List, [], ◌∷◌, ◌++◌, Option, none, some, String, any, is_some, get_or,
  or_else, ◌==◌, if◌then◌else◌, string_eq, or_else, is_some,
}

pub record WiringEntry : Type 0 where
  pub source : String
  pub event : String
  pub to : String
  pub triggers : String

pub record EventContract : Type 0 where
  pub event : String
  pub scope : Option String

pub record EventListener : Type 0 where
  pub event : String
  pub triggers : String
  pub scope : Option String

-- An entry of `orbital.traits`; `is_inline` is what `isInlineTrait` of @almadar/core answers of it.
pub record Trait : Type 0 where
  pub name : String
  pub is_inline : Bool
  pub emits : Option (List EventContract)
  pub listens : Option (List EventListener)

pub record Page : Type 0 where
  pub name : String
  pub path : List ℕ
  pub is_initial : Bool
  pub view_type : Option String
  pub primary_entity : Option (List ℕ)

-- `orbital.entity`: a reference, or a definition, of which the name is kept.
pub data EntityRef : Type 0 where
  reference : String → EntityRef
  inline : String → EntityRef

pub record Orbital : Type 0 where
  pub name : String
  pub entity : EntityRef
  pub traits : List Trait
  pub pages : Option (List Page)

abbrev pub is_named : String → Trait → Bool
is_named n t = t.is_inline && t.name == n

unfoldable pub find_in : String → List Trait → Option Trait
find_in n [] = none
find_in n (t ∷ ts) = if is_named n t then some t else find_in n ts

unfoldable pub find_inline_trait : List Orbital → String → Option Trait
unfolding find_in
find_inline_trait [] n = none
find_inline_trait (o ∷ os) n = or_else (find_in n o.traits) (find_inline_trait os n)

-- The write through the reference that `findInlineTrait` returns.
unfoldable pub update_in : String → (Trait → Trait) → List Trait → List Trait
update_in n f [] = []
update_in n f (t ∷ ts) = if is_named n t then f t ∷ ts else t ∷ update_in n f ts

unfoldable pub update_inline_trait : String → (Trait → Trait) → List Orbital → List Orbital
unfolding find_in update_in
update_inline_trait n f [] = []
update_inline_trait n f (o ∷ os) =
    if is_some (find_in n o.traits)
    then record o { traits = update_in n f o.traits } ∷ os
    else o ∷ update_inline_trait n f os

abbrev pub has_emit : List EventContract → String → Bool
has_emit emits event = any (λ e. e.event == event) emits

abbrev pub has_listen : List EventListener → String → String → Bool
has_listen listens event triggers = any (λ l. l.event == event && l.triggers == triggers) listens

unfoldable pub add_emit : WiringEntry → Trait → Trait
add_emit w t =
    let emits = get_or t.emits [] in
    if has_emit emits w.event then record t { emits = some emits } else record t {
      emits = some (emits ++ record { event = w.event; scope = some "external" } ∷ []);
    }

unfoldable pub add_listen : WiringEntry → Trait → Trait
add_listen w t =
    let listens = get_or t.listens [] in
    if has_listen listens w.event w.triggers
    then record t { listens = some listens }
    else record t {
      listens = some (
          listens
          ++ record { event = w.event; triggers = w.triggers; scope = some "external" } ∷ []);
    }

unfoldable pub wire : WiringEntry → List Orbital → List Orbital
unfolding update_inline_trait add_emit add_listen
wire w os = update_inline_trait w.to (add_listen w) (update_inline_trait w.source (add_emit w) os)

unfoldable pub apply_event_wiring : List Orbital → List WiringEntry → List Orbital
unfolding wire
apply_event_wiring os [] = os
apply_event_wiring os (w ∷ ws) = apply_event_wiring (wire w os) ws
