-- ===== src/Events/Routing/Matching.antt =====
-- Which sources a listen accepts.
use almadar_runtime.Base.{
  ◌≡◌, refl, ◌↔◌, ◌≢◌, true, Option, none, some, String, string_eq, same?, arith, ap,
}
use Prim.Native.String
use text.Mathlib.TextLemmas.{append_cancel_left}
use almadar_runtime.Events.Routing.{
  ListenSource, any, trait, orbital, Meta, event_route_key, build_source_matcher,
}

same?_iff : (a b : Option String) → (same? a b ≡ true) ↔ (a ≡ b)
same?_iff none none = ground arith
same?_iff none (some b) = ground arith
same?_iff (some a) none = ground arith
same?_iff (some a) (some b) = ground (arith, string_eq.test_iff a b)

-- What a source must be for a listen of an orbital: with the ids that its scope needs the ids decide,
-- without them the names.
abbrev pub Accepts : ListenSource → String → Meta → Type 0
Accepts any here m = Unit
Accepts (trait name (some id)) here m = m.trait_id ≡ some id
Accepts (trait name none) here m = (m.orbital ≡ some here) × (m.trait ≡ some name)
Accepts (orbital o name (some o_id) (some id)) here m =
    (m.orbital_id ≡ some o_id) × (m.trait_id ≡ some id)
Accepts (orbital o name o_id id) here m = (m.orbital ≡ some o) × (m.trait ≡ some name)

Accepts-iff :
    (src : ListenSource) (here : String) (m : Meta)
    → (build_source_matcher src here (some m) ≡ true) ↔ Accepts src here m
unfolding build_source_matcher
Accepts-iff any here m = ground arith
Accepts-iff (trait name (some id)) here m = same?_iff m.trait_id (some id)
Accepts-iff (trait name none) here m =
    ground (arith, same?_iff m.orbital (some here), same?_iff m.trait (some name))
Accepts-iff (orbital o name (some o_id) (some id)) here m =
    ground (arith, same?_iff m.orbital_id (some o_id), same?_iff m.trait_id (some id))
Accepts-iff (orbital o name none id) here m =
    ground (arith, same?_iff m.orbital (some o), same?_iff m.trait (some name))
Accepts-iff (orbital o name (some o_id) none) here m =
    ground (arith, same?_iff m.orbital (some o), same?_iff m.trait (some name))

-- A listen's matcher accepts a source exactly when the source is what the listen's scope asks for,
-- and accepts a missing source exactly when the listen is for any source.
pub build_source_matcher_iff :
    (src : ListenSource) (here : String) (m : Meta)
    → ((build_source_matcher src here (some m) ≡ true) ↔ Accepts src here m)
      × ((build_source_matcher src here none ≡ true) ↔ (src ≡ any))
unfolding build_source_matcher
build_source_matcher_iff any here m = (Accepts-iff any here m, ground arith)
build_source_matcher_iff (trait name (some id)) here m =
    (Accepts-iff (trait name (some id)) here m, ground arith)
build_source_matcher_iff (trait name none) here m =
    (Accepts-iff (trait name none) here m, ground arith)
build_source_matcher_iff (orbital o name (some o_id) (some id)) here m =
    (Accepts-iff (orbital o name (some o_id) (some id)) here m, ground arith)
build_source_matcher_iff (orbital o name none id) here m =
    (Accepts-iff (orbital o name none id) here m, ground arith)
build_source_matcher_iff (orbital o name (some o_id) none) here m =
    (Accepts-iff (orbital o name (some o_id) none) here m, ground arith)

-- A listen that carries the ids that its scope needs.
abbrev pub HasIds : ListenSource → Type 0
HasIds any = Unit
HasIds (trait name (some id)) = Unit
HasIds (orbital o name (some o_id) (some id)) = Unit
HasIds src = ⊥

-- Such a listen gives the same answer before and after the emitter, the listening orbital or both are
-- renamed, the ids staying as they are.
pub build_source_matcher_renamed :
    (src : ListenSource) (here here' : String) (m m' : Meta)
    → HasIds src
    → m.orbital_id ≡ m'.orbital_id
    → m.trait_id ≡ m'.trait_id
    → build_source_matcher src here (some m) ≡ build_source_matcher src here' (some m')
unfolding build_source_matcher
build_source_matcher_renamed any here here' m m' h e f = refl
build_source_matcher_renamed (trait name (some id)) here here' m m' h e f = rw f
build_source_matcher_renamed (trait name none) here here' m m' h e f = absurd h
build_source_matcher_renamed (orbital o name (some o_id) (some id)) here here' m m' h e f =
    rw (e, f)
build_source_matcher_renamed (orbital o name none id) here here' m m' h e f = absurd h
build_source_matcher_renamed (orbital o name (some o_id) none) here here' m m' h e f = absurd h

event_route_key_id :
    (n id : String) → id ≢ "" → event_route_key n (some id) ≡ String.◌++◌ "@evt:" id
unfolding event_route_key
event_route_key_id n id h = ground (arith, string_eq.test_iff id "")

-- Two events that carry ids share a route key exactly when the ids are equal, whatever their names;
-- and the key of an event without an id, named so that it does not start with `@evt:`, is no id's key.
pub event_route_key_apart :
    (n m plain id id' : String)
    → id ≢ ""
    → id' ≢ ""
    → ((rest : String) → plain ≢ String.◌++◌ "@evt:" rest)
    → ((event_route_key n (some id) ≡ event_route_key m (some id')) ↔ (id ≡ id'))
      × (event_route_key plain none ≢ event_route_key n (some id))
unfolding event_route_key
event_route_key_apart n m plain id id' h h' k =
    rw (event_route_key_id n id h, event_route_key_id m id' h')
      ((append_cancel_left "@evt:" id id', ap (String.◌++◌ "@evt:")), k id)
