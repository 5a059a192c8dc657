-- ===== src/Events/Stamp/Laws.antt =====
-- What the stamp fills in, and that a listen for the emitter accepts it.
use almadar_runtime.Base.{◌≡◌, refl, true, Option, none, some, String, or_else, arith, string_eq}
use almadar_runtime.Events.Routing.{trait, orbital, build_source_matcher}
use almadar_runtime.Events.Stamp.{Source, Identity, stamp_emit_source}

or_else_twice {ℓ} : {A : Type ℓ} (a b : Option A) → or_else (or_else a b) b ≡ or_else a b
or_else_twice none none = refl
or_else_twice none (some b) = refl
or_else_twice (some a) b = refl

-- A field of the source that is set stays as it is, one that is missing takes the identity's value,
-- the names stay as they are, and a second stamp by the same identity changes nothing.
pub stamp_emit_source_keeps :
    (s : Source) (i : Identity)
    → let r = stamp_emit_source (some s) i in
      (r.orbital ≡ s.orbital)
      × (r.trait ≡ s.trait)
      × (r.orbital_id ≡ or_else s.orbital_id i.orbital_id)
      × (r.trait_id ≡ or_else s.trait_id i.trait_id)
      × (r.event_id ≡ or_else s.event_id i.emit_contract_event_id)
      × (r.origin_client_id ≡ or_else s.origin_client_id i.origin_client_id)
      × (stamp_emit_source (some r) i ≡ r)
unfolding stamp_emit_source
stamp_emit_source_keeps s i = (
  refl,
  refl,
  refl,
  refl,
  refl,
  refl,
  simp (
    or_else_twice s.orbital_id i.orbital_id,
    or_else_twice s.trait_id i.trait_id,
    or_else_twice s.event_id i.emit_contract_event_id,
    or_else_twice s.origin_client_id i.origin_client_id,
  ),
)

-- An event that is stamped from its emitter's identity alone is accepted by every listen for that
-- emitter: by the trait's id, by the orbital's and the trait's ids, by the trait's name in the emitter's
-- own orbital, and by the orbital's and the trait's names.
pub stamp_emit_source-accepted :
    (i : Identity) (o name here o_id id : String)
    → i.orbital_id ≡ some o_id
    → i.trait_id ≡ some id
    → let m = some (stamp_emit_source none i).route in
      (build_source_matcher (trait name (some id)) here m ≡ true)
      × (build_source_matcher (orbital o name (some o_id) (some id)) here m ≡ true)
      × (build_source_matcher (trait i.trait_name none) i.orbital_name m ≡ true)
      × (build_source_matcher (orbital i.orbital_name i.trait_name none none) here m ≡ true)
unfolding stamp_emit_source build_source_matcher
stamp_emit_source-accepted i o name here o_id id e f = (
  rw f (ground (arith, string_eq.test_iff id id)),
  rw (e, f) (ground (arith, string_eq.test_iff o_id o_id, string_eq.test_iff id id)),
  ground (
    arith,
    string_eq.test_iff i.orbital_name i.orbital_name,
    string_eq.test_iff i.trait_name i.trait_name,
  ),
  ground (
    arith,
    string_eq.test_iff i.orbital_name i.orbital_name,
    string_eq.test_iff i.trait_name i.trait_name,
  ),
)
