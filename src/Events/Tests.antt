-- ===== src/Events/Tests.antt =====
-- The bus, the routing and the stamp at concrete events.
use Prim.Native.Char.{code}
use Prim.Native.String
use text.Mathlib.TextLemmas.{cons-append, head-eq_of_cons-eq}
use almadar_runtime.Base.{
  ℕ, ◌+◌, ◌≡◌, ◌≢◌, ◌↔◌, refl, ap, ◌∙◌, Bool, true, List, [], ◌∷◌, ◌++◌, Option, some, none, String,
  arith, get, put, delete, insert, remove, IsUnique, nat_eq, string_eq, ◌==◌, if◌then◌else◌,
}
use almadar_runtime.Events.Bus.{
  Event, Action, emits, World, Subscription, create, on, unsubscribe, clear, emit, act, perform,
  notify, deliver_to, deliver_any, deliver_all, members, listeners_of, get_listener_count,
}
use almadar_runtime.Events.Bus.Invariant.{IsWf, create-IsWf, on-IsWf}
use almadar_runtime.Events.Bus.Delivery.{send, recipients, named, emit_delivers}
use almadar_runtime.Events.Bus.Reentrancy.{Extends, emit_total}
use almadar_runtime.Events.Bus.Subscriptions.{unsubscribe_after_clear}
use almadar_runtime.Events.Routing.{
  any, trait, orbital, Meta, build_source_matcher, parse_listen_source,
}
use almadar_runtime.Events.Routing.Matching.{Accepts, build_source_matcher_iff}
use almadar_runtime.Events.Routing.Legacy.{dotted, parse_listen_source_legacy}
use almadar_runtime.Events.Stamp.{Source, Identity, stamp_emit_source}
use almadar_runtime.Events.Stamp.Laws.{stamp_emit_source-accepted}

bus : Unit {0}
unfolding create on unsubscribe clear emit act perform notify deliver_to deliver_any deliver_all
    members listeners_of get put delete insert remove
bus = tt

-- Listener 1 answers PING by PONG, listener 2 hears PONG, listener 9 hears everything.
abbrev answers : ℕ → Event ℕ → List (Action ℕ)
answers l event = if l == 1 then emits "PONG" (event.payload + 1) none ∷ [] else []

abbrev loops : ℕ → Event ℕ → List (Action ℕ)
loops l event = emits event.type event.payload none ∷ []

connected : World ℕ
unfolding bus
connected = record {
  bus = (on "*" 9 (on "PONG" 2 (on "PING" 1 (create (some 3))).0).0).0;
  log = [];
}

connected-IsWf : IsWf connected.bus
unfolding connected
connected-IsWf = on-IsWf "*" 9 _ (on-IsWf "PONG" 2 _ (on-IsWf "PING" 1 _ (create-IsWf (some 3))))

abbrev ping : Event ℕ
ping = record { type = "PING"; payload = 5 }

abbrev pong : Event ℕ
pong = record { type = "PONG"; payload = 6 }

emit_tests :
    (emit answers 9 connected "PING" 5 none
      ≡ some (record connected { log = (1, ping) ∷ (2, pong) ∷ (9, pong) ∷ (9, ping) ∷ [] }))
    × (get_listener_count "PING" connected.bus ≡ 1)
unfolding bus connected get_listener_count
emit_tests = (refl, refl)

emit_total_example :
    (w : World ℕ) × (emit loops 4 connected "PING" 5 none ≡ some w)
    × (w.bus.depth ≡ connected.bus.depth)
    × (w.bus.max_depth ≡ connected.bus.max_depth)
    × IsWf w.bus
    × Extends connected w
unfolding connected
emit_total_example = emit_total loops 4 connected "PING" 5 none (omega arith) connected-IsWf

emit_delivers_example :
    (emit (λ l e. []) 1 connected "PING" 5 (some "@evt:7")
      ≡ some (record connected {
        log =
            connected.log
            ++ send
                (record { type = "PING"; payload = 5 })
                (recipients "PING" (some "@evt:7") connected.bus);
      }))
    × IsUnique (named "PING" (some "@evt:7") connected.bus)
unfolding connected
emit_delivers_example =
    emit_delivers (λ l e. []) 0 connected "PING" 5 (some "@evt:7") (λ l e. refl) (omega arith)
      connected-IsWf

abbrev first_handle : Subscription
first_handle = record { type = "PING"; set = 0; listener = 1 }

unsubscribe_after_clear_example :
    let (b₁, h) = on "SAVE" 1 (create none) in
    let b₂ = (on "SAVE" 2 (clear b₁)).0 in
    (listeners_of "SAVE" b₂ ≡ 2 ∷ []) × (listeners_of "SAVE" (unsubscribe h b₂) ≡ [])
unfolding bus
unsubscribe_after_clear_example =
    unsubscribe_after_clear "SAVE" 1 2 (create none) (create-IsWf none) refl

abbrev cart : Meta
cart = record {
  orbital = some "Shop";
  orbital_id = some "o1";
  trait = some "Cart";
  trait_id = some "t1";
}

abbrev basket : Meta
basket = record {
  orbital = some "Store";
  orbital_id = some "o1";
  trait = some "Basket";
  trait_id = some "t1";
}

build_source_matcher_iff_example :
    ((build_source_matcher (trait "Cart" none) "Shop" (some cart) ≡ true)
      ↔ Accepts (trait "Cart" none) "Shop" cart)
    × ((build_source_matcher (trait "Cart" none) "Shop" none ≡ true) ↔ (trait "Cart" none ≡ any))
build_source_matcher_iff_example = build_source_matcher_iff (trait "Cart" none) "Shop" cart

no_prefix : (rest : String) → ◌≢◌ {A = String} "SAVE" (String.◌++◌ "@evt:" rest)
no_prefix rest e =
    let heads = head-eq_of_cons-eq (e ∙ cons-append "@" "evt:" rest) in
    let same : code "S" ≡ code "@" = ap code heads in absurd (omega arith)

abbrev parse_on_shop : String → String × (Option Meta → Bool)
parse_on_shop key = parse_listen_source (record { event = key; source = none }) "Shop"

parse_listen_source_legacy_example :
    (parse_on_shop "SAVED"
      ≡ parse_listen_source (record { event = "SAVED"; source = some any }) "Shop")
    × (parse_on_shop (dotted "*" "SAVED") ≡ parse_on_shop "SAVED")
    × (parse_on_shop (dotted "Cart" "SAVED")
        ≡ parse_listen_source
            (record { event = "SAVED"; source = some (trait "Cart" none) })
            "Shop")
    × (parse_on_shop (dotted "Std.Shop" (dotted "Cart" "SAVED"))
        ≡ parse_listen_source
            (record { event = "SAVED"; source = some (orbital "Std.Shop" "Cart" none none) })
            "Shop")
parse_listen_source_legacy_example =
    parse_listen_source_legacy "Std.Shop" "Cart" "SAVED" "Shop" (omega arith) (omega arith)
      (ground (arith, string_eq.test_iff "Cart" "*"))

abbrev emitter : Identity
emitter = record {
  orbital_name = "Shop";
  trait_name = "Cart";
  orbital_id = some "o1";
  trait_id = some "t1";
  emit_contract_event_id = some "e1";
  origin_client_id = none;
}

abbrev partial : Source
partial = record {
  route = record {
    orbital = some "Shop";
    orbital_id = some "o9";
    trait = some "Cart";
    trait_id = none;
  };
  event_id = none;
  origin_client_id = none;
}

stamp_emit_source-accepted_example :
    let m = some (stamp_emit_source none emitter).route in
    (build_source_matcher (trait "Old" (some "t1")) "Shop" m ≡ true)
    × (build_source_matcher (orbital "Any" "Old" (some "o1") (some "t1")) "Shop" m ≡ true)
    × (build_source_matcher (trait "Cart" none) "Shop" m ≡ true)
    × (build_source_matcher (orbital "Shop" "Cart" none none) "Shop" m ≡ true)
stamp_emit_source-accepted_example =
    stamp_emit_source-accepted emitter "Any" "Old" "Shop" "o1" "t1" refl refl
