-- ===== src/Effects/ServerLeg.antt =====
-- effects/server-leg.ts. `sources` is a Set. What runs inside `attribute` is any function on the
-- collector, and returns or throws: the source is put back on both.
use almadar_runtime.Base.{
  ◌≡◌, refl, ◌∙◌, List, [], ◌∷◌, ◌++◌, Option, none, some, String, insert, string_eq, append_assoc,
  append-nil, sym,
}

pub data Target : Type 0 where
  server : Target
  client : Target

module _ (E : Type 0) where
  pub record Collector : Type 0 where
    pub effects : List E
    pub source : Option String
    pub sources : List String

abbrev add_source : Option String → List String → List String
add_source none set = set
add_source (some t) set = insert t set

unfoldable pub delegate : {E : Type 0} → E → Target → Collector E → Collector E
delegate e client c = c
delegate e server c = record c {
  effects = c.effects ++ e ∷ [];
  sources = add_source c.source c.sources;
}

unfoldable pub drain : {E : Type 0} → Collector E → Collector E × List E
drain c = (record c { effects = [] }, c.effects)

unfoldable pub attribute :
    {E : Type 0} → String → (Collector E → Collector E) → Collector E → Collector E
attribute trait run c = record (run (record c { source = some trait })) { source = c.source }

-- The effects of a dispatch, delegated one after another.
abbrev pub delegate_all : {E : Type 0} → List (E × Target) → Collector E → Collector E
delegate_all [] c = c
delegate_all ((e, t) ∷ es) c = delegate_all es (delegate e t c)

-- Those of them that go to the server.
abbrev pub for_server : {E : Type 0} → List (E × Target) → List E
for_server [] = []
for_server ((e, server) ∷ es) = e ∷ for_server es
for_server ((e, client) ∷ es) = for_server es

delegated :
    {E : Type 0} (es : List (E × Target)) (c : Collector E)
    → ((delegate_all es c).effects ≡ c.effects ++ for_server es)
      × ((delegate_all es c).source ≡ c.source)
unfolding delegate
delegated [] c = (sym (append-nil c.effects), refl)
delegated ((e, client) ∷ es) c = delegated es c
delegated ((e, server) ∷ es) c =
    let (a, b) = delegated es (delegate e server c) in
    (a ∙ append_assoc c.effects (e ∷ []) (for_server es), b)

-- A dispatch attributed to a trait, after a drain, and then drained: what is taken are the effects
-- for the server in their order, and the collector is left without effects and with the source that
-- it had.
pub drain-attribute-drain :
    {E : Type 0} (trait : String) (es : List (E × Target)) (c : Collector E)
    → let d = drain (attribute trait (delegate_all es) (drain c).0) in
      (d.1 ≡ for_server es) × (d.0.effects ≡ []) × (d.0.source ≡ c.source)
unfolding drain attribute
drain-attribute-drain trait es c =
    ((delegated es (record c { effects = []; source = some trait })).0, refl, refl)
