-- ===== src/Events/Routing.antt =====
-- events/identity/routing.ts. Names and ids are texts; a source is `undefined` or its metadata.
pub mod Matching
pub mod Legacy
use Prim.Native.Char.{Char}
use Prim.Native.String
use mathlib.Core.List.{reverse}
use almadar_runtime.Base.{
  ◌≡◌, Bool, true, false, ◌&&◌, List, [], ◌∷◌, Option, none, some, String, ◌==◌, string_eq, same?,
  if◌then◌else◌, split, join,
}

abbrev pub dot : Char
dot = "."

pub data ListenSource : Type 0 where
  any : ListenSource
  trait : (name : String) (id : Option String) → ListenSource
  orbital : (orbital name : String) (orbital_id id : Option String) → ListenSource

-- `RouteSourceMeta`.
pub record Meta : Type 0 where
  pub orbital : Option String
  pub orbital_id : Option String
  pub trait : Option String
  pub trait_id : Option String

pub record Listen : Type 0 where
  pub event : String
  pub source : Option ListenSource

abbrev pub Matcher : Type 0
Matcher = Option Meta → Bool

-- An empty id is falsy, as a missing one.
unfoldable pub event_route_key : String → Option String → String
event_route_key name none = name
event_route_key name (some id) = if id == "" then name else String.◌++◌ "@evt:" id

-- `!!source && …`.
abbrev pub on_source : (Meta → Bool) → Matcher
on_source test none = false
on_source test (some m) = test m

unfoldable pub build_source_matcher : ListenSource → String → Matcher
build_source_matcher any listener_orbital = λ source. true
build_source_matcher (trait name (some id)) listener_orbital =
    on_source (λ m. same? m.trait_id (some id))
build_source_matcher (trait name none) listener_orbital =
    on_source (λ m. same? m.orbital (some listener_orbital) && same? m.trait (some name))
build_source_matcher (orbital o name (some orbital_id) (some id)) listener_orbital =
    on_source (λ m. same? m.orbital_id (some orbital_id) && same? m.trait_id (some id))
build_source_matcher (orbital o name orbital_id id) listener_orbital =
    on_source (λ m. same? m.orbital (some o) && same? m.trait (some name))

-- Three parts or more, last first: the event, the trait, and the parts of the orbital's name.
abbrev from_orbital : List String → String → String × Matcher
from_orbital (event ∷ name ∷ rest) listener_orbital = (
  event,
  build_source_matcher (orbital (join dot (reverse rest)) name none none) listener_orbital,
)
from_orbital parts listener_orbital = ("", λ source. true)

abbrev from_parts : String → List String → String → String × Matcher
from_parts key (star ∷ event ∷ []) listener_orbital =
    if star == "*"
    then (event, λ source. true)
    else (event, build_source_matcher (trait star none) listener_orbital)
from_parts key (p ∷ q ∷ r ∷ parts) listener_orbital =
    from_orbital (reverse (p ∷ q ∷ r ∷ parts)) listener_orbital
from_parts key parts listener_orbital = (key, λ source. true)

-- The bare event name and the matcher of a `listens` entry.
unfoldable pub parse_listen_source : Listen → String → String × Matcher
parse_listen_source l listener_orbital = elim l.source [
  | some explicit ↦ (l.event, build_source_matcher explicit listener_orbital)
  | none ↦ from_parts l.event (split dot l.event) listener_orbital
]
