-- ===== src/Events/Routing/Legacy.antt =====
-- The older way to write a listen's source, in front of the event's name.
use Prim.Native.String
use mathlib.Core.List.{reverse, reverse-append, reverse-reverse}
use almadar_runtime.Base.{
  ◌≡◌, refl, ◌≢◌, List, [], ◌∷◌, ◌++◌, none, some, String, string_eq, arith, split, join, Free,
  split-Free, split-append, join-split, split-ne-nil, ◌∙◌,
}
use almadar_runtime.Events.Routing.{
  dot, any, trait, orbital, from_orbital, from_parts, build_source_matcher, parse_listen_source,
}

-- `a.b`
abbrev pub dotted : String → String → String
dotted a b = String.◌++◌ a (String.◌∷◌ dot b)

from_parts-reverse :
    (key here name event : String) (parts : List String)
    → parts ≢ []
    → from_parts key (parts ++ name ∷ event ∷ []) here
      ≡ from_orbital (reverse (parts ++ name ∷ event ∷ [])) here
from_parts-reverse key here name event [] h = absurd (h refl)
from_parts-reverse key here name event (p ∷ []) h = refl
from_parts-reverse key here name event (p ∷ q ∷ []) h = refl
from_parts-reverse key here name event (p ∷ q ∷ r ∷ ps) h = refl

from_parts-orbital :
    (key here name event : String) (parts : List String)
    → parts ≢ []
    → from_parts key (parts ++ name ∷ event ∷ []) here
      ≡ (event, build_source_matcher (orbital (join dot parts) name none none) here)
from_parts-orbital key here name event parts h =
    from_parts-reverse key here name event parts h
    ∙ rw (reverse-append parts (name ∷ event ∷ []), reverse-reverse parts)

star-Free : Free dot "*"
star-Free = (omega arith, tt)

-- The older form reads as the structured source does: a bare event and `*.EVENT` are for any source,
-- `TRAIT.EVENT` for the trait in the listener's orbital, and `ORBITAL.TRAIT.EVENT` for the trait in the
-- orbital, whose name may hold dots. The trait's name and the event's hold none.
pub parse_listen_source_legacy :
    (o name event here : String)
    → Free dot name
    → Free dot event
    → name ≢ "*"
    → let parse =
        λ (key : String). parse_listen_source (record { event = key; source = none }) here in
      (parse event ≡ parse_listen_source (record { event = event; source = some any }) here)
      × (parse (dotted "*" event) ≡ parse event)
      × (parse (dotted name event)
          ≡ parse_listen_source (record { event = event; source = some (trait name none) }) here)
      × (parse (dotted o (dotted name event))
          ≡ parse_listen_source
              (record { event = event; source = some (orbital o name none none) })
              here)
unfolding parse_listen_source build_source_matcher
parse_listen_source_legacy o name event here n e s = (
  rw (split-Free dot event e),
  rw (split-append dot "*" event, split-Free dot event e, split-Free dot "*" star-Free),
  rw (split-append dot name event, split-Free dot event e, split-Free dot name n)
      (ground (arith, string_eq.test_iff name "*")),
  rw
      (
        split-append dot o (dotted name event),
        split-append dot name event,
        split-Free dot event e,
        split-Free dot name n,
      )
      (rw (
        from_parts-orbital (dotted o (dotted name event)) here name event (split dot o)
            (split-ne-nil dot o),
        join-split dot o,
      )),
)
