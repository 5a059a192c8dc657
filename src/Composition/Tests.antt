-- ===== src/Composition/Tests.antt =====
-- The composition of small behaviours.
use almadar_runtime.Base.{
  ℕ, ◌≡◌, refl, Bool, true, List, [], ◌∷◌, none, some, String, arith, All, length, get, put, insert,
  nat_eq, string_eq, map,
}
use almadar_runtime.Time.Digits.{codes}
use almadar_runtime.Composition.Wiring.{
  WiringEntry, reference, Orbital, find_in, find_inline_trait, update_in, update_inline_trait,
  add_emit, add_listen, wire, apply_event_wiring,
}
use almadar_runtime.Composition.Wiring.InForce.{InForce, apply_event_wiring-InForce}
use almadar_runtime.Composition.Wiring.Again.{apply_event_wiring_again}
use almadar_runtime.Composition.Layout.{
  tabs, wizard_flow, walk_chain, try_starts, has_sequential_chain, detect_layout_strategy,
}
use almadar_runtime.Composition.Layout.Chains.{has_sequential_chain_total}
use almadar_runtime.Composition.Names.{to_kebab_case}
use almadar_runtime.Composition.Compose.{
  Entries, Source, whole, one, text_ltb, add_new, collect, place, sorted, merge_ledgers,
  merge_schema_versions, generate_pages, get_entity_name, with_page, with_pages, compose_behaviors,
  Composed, as_definitions,
}
use almadar_runtime.Composition.Compose.Pages.{HasPage, compose_behaviors_pages}
use almadar_runtime.Composition.Compose.Identity.{IsAscending, first_entry, merge_ledgers_first}

composition : Unit {0}
unfolding find_in find_inline_trait update_in update_inline_trait add_emit add_listen wire
    apply_event_wiring walk_chain try_starts has_sequential_chain detect_layout_strategy text_ltb
    add_new collect place sorted merge_ledgers merge_schema_versions generate_pages get_entity_name
    with_page with_pages compose_behaviors as_definitions to_kebab_case get put insert
composition = tt

abbrev orbital : String → String → Orbital
orbital n t = record {
  name = n;
  entity = reference "Cart.entity";
  traits = record { name = t; is_inline = true; emits = none; listens = none } ∷ [];
  pages = none;
}

abbrev entry : String → String → WiringEntry
entry a b = record { source = a; event = "DONE"; to = b; triggers = "START" }

abbrev cart : Orbital
cart = orbital "ShopCart" "Cart"

abbrev pay : Orbital
pay = orbital "PayFlow" "Pay"

abbrev flow : List WiringEntry
flow = entry "Cart" "Pay" ∷ entry "Pay" "Ship" ∷ []

abbrev inputs : List (Source ℕ)
inputs =
    whole (record {
      orbitals = cart ∷ [];
      schema_version = some 2;
      ledger = some (("b", 1) ∷ ("a", 2) ∷ []);
    })
    ∷ one pay
    ∷ whole (record {
      orbitals = [];
      schema_version = some 1;
      ledger = some (("b", 9) ∷ ("c", 3) ∷ []);
    })
    ∷ []

composition_tests :
    (map (λ o. o.name) (apply_event_wiring (cart ∷ pay ∷ []) flow) ≡ "ShopCart" ∷ "PayFlow" ∷ [])
    × (detect_layout_strategy 9 (cart ∷ pay ∷ []) (some flow) ≡ some wizard_flow)
    × (detect_layout_strategy 9 (cart ∷ pay ∷ []) none ≡ some tabs)
    × (to_kebab_case (codes "shopCart  two_X") ≡ codes "shop-cart-two-x")
    × (get_entity_name cart ≡ codes "Cart")
    × (merge_ledgers inputs ≡ some (("a", 2) ∷ ("b", 1) ∷ ("c", 3) ∷ []))
    × (map (λ p. p.path) (generate_pages (cart ∷ pay ∷ []) tabs)
        ≡ codes "/" ∷ codes "/pay-flow" ∷ [])
unfolding composition
composition_tests = (refl, refl, refl, refl, refl, refl, refl)

apply_event_wiring-InForce_example :
    All (InForce (cart ∷ pay ∷ []) (apply_event_wiring (cart ∷ pay ∷ []) flow)) flow
apply_event_wiring-InForce_example = apply_event_wiring-InForce (cart ∷ pay ∷ []) flow

apply_event_wiring_again_example :
    apply_event_wiring (apply_event_wiring (cart ∷ pay ∷ []) flow) flow
    ≡ apply_event_wiring (cart ∷ pay ∷ []) flow
apply_event_wiring_again_example = apply_event_wiring_again (cart ∷ pay ∷ []) flow

has_sequential_chain_total_example : (b : Bool) × (has_sequential_chain 3 flow ≡ some b)
has_sequential_chain_total_example = has_sequential_chain_total 3 flow (omega arith)

compose_behaviors_pages_example :
    (c : Composed ℕ) × (compose_behaviors 3 inputs none (some flow) ≡ some c)
    × All HasPage c.schema.orbitals
    × (length c.schema.orbitals ≡ length (as_definitions inputs))
compose_behaviors_pages_example = compose_behaviors_pages 3 inputs none (some flow) (omega arith)

merge_ledgers_first_example :
    (m : Entries ℕ) × (merge_ledgers inputs ≡ some m)
    × IsAscending m
    × ((k : String) → get k m ≡ first_entry k inputs)
merge_ledgers_first_example = merge_ledgers_first inputs refl
