-- ===== src/Events/Stamp.antt =====
-- events/emit-stamp.ts: the source of an emitted event, filled with the emitter's identity.
pub mod Laws
use almadar_runtime.Base.{◌≡◌, Option, none, some, String, or_else}
use almadar_runtime.Events.Routing.{Meta}

-- `BusEventSource`, with the fields that the stamp reads or writes.
pub record Source : Type 0 where
  pub route : Meta
  pub open route use *
  pub event_id : Option String
  pub origin_client_id : Option String

pub record Identity : Type 0 where
  pub orbital_name : String
  pub trait_name : String
  pub orbital_id : Option String
  pub trait_id : Option String
  pub emit_contract_event_id : Option String
  pub origin_client_id : Option String

abbrev pub from_names : Identity → Source
from_names i = record {
  route = record {
    orbital = some i.orbital_name;
    orbital_id = none;
    trait = some i.trait_name;
    trait_id = none;
  };
  event_id = none;
  origin_client_id = none;
}

-- A field that is set stays; one that is not takes the identity's value.
abbrev filled : Source → Identity → Source
filled s i = record {
  route = record {
    orbital = s.orbital;
    orbital_id = or_else s.orbital_id i.orbital_id;
    trait = s.trait;
    trait_id = or_else s.trait_id i.trait_id;
  };
  event_id = or_else s.event_id i.emit_contract_event_id;
  origin_client_id = or_else s.origin_client_id i.origin_client_id;
}

unfoldable pub stamp_emit_source : Option Source → Identity → Source
stamp_emit_source none i = filled (from_names i) i
stamp_emit_source (some s) i = filled s i
