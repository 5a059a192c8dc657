-- ===== src/Composition/Wiring/Again.antt =====
-- A wiring that is applied a second time.
use almadar_runtime.Base.{
  ◌≡◌, refl, ap, true, inl, inr, List, [], ◌∷◌, Option, none, some, String, Option-cases, string_eq,
  All, Bool-cases,
}
use almadar_runtime.Composition.Wiring.{
  WiringEntry, Trait, Orbital, is_named, find_in, find_inline_trait, update_in, update_inline_trait,
  add_emit, add_listen, wire, apply_event_wiring,
}
use almadar_runtime.Composition.Wiring.Laws.{
  emit_declared, listen_declared, IsWired, apply_event_wiring_wires,
}

abbrev Fixed : (Trait → Trait) → Option Trait → Type 0
Fixed f none = Unit
Fixed f (some t) = f t ≡ t

update_in-Fixed :
    (n : String) (f : Trait → Trait) (ts : List Trait)
    → Fixed f (find_in n ts)
    → update_in n f ts ≡ ts
unfolding find_in update_in
update_in-Fixed n f [] h = refl
update_in-Fixed n f (t ∷ ts) h = elim (Bool-cases (is_named n t)) [
  | inl here ↦ rw here (ap (λ u. u ∷ ts) (rw here at h))
  | inr there ↦ rw there (ap (λ us. t ∷ us) (update_in-Fixed n f ts (rw there at h)))
]

update-Fixed :
    (n : String) (f : Trait → Trait) (os : List Orbital)
    → Fixed f (find_inline_trait os n)
    → update_inline_trait n f os ≡ os
unfolding find_inline_trait update_inline_trait
update-Fixed n f [] h = refl
update-Fixed n f (o ∷ os) h = elim (Option-cases (find_in n o.traits)) [
  | inl gone ↦ rw gone (ap (λ us. o ∷ us) (update-Fixed n f os (rw gone at h)))
  | inr (t, found) ↦ rw found (
      ap (λ ts. record o { traits = ts } ∷ os)
        (update_in-Fixed n f o.traits (rw found (rw found at h))))
]

add_emit-Fixed :
    (w : WiringEntry) (o : Option Trait) → emit_declared w o ≡ true → Fixed (add_emit w) o
unfolding add_emit
add_emit-Fixed w none h = tt
add_emit-Fixed w (some t) h = elim (Option-cases t.emits) [
  | inl gone ↦ cc (rw gone at h)
  | inr (es, found) ↦ rw (h) (ap (λ x. record t { emits = x }) (rw found refl))
]

add_listen-Fixed :
    (w : WiringEntry) (o : Option Trait) → listen_declared w o ≡ true → Fixed (add_listen w) o
unfolding add_listen
add_listen-Fixed w none h = tt
add_listen-Fixed w (some t) h = elim (Option-cases t.listens) [
  | inl gone ↦ cc (rw gone at h)
  | inr (ls, found) ↦ rw (h) (ap (λ x. record t { listens = x }) (rw found refl))
]

wire_fixed : (w : WiringEntry) (os : List Orbital) → IsWired os w → wire w os ≡ os
unfolding wire IsWired
wire_fixed w os (e, l) =
    rw (update-Fixed w.source (add_emit w) os (add_emit-Fixed w (find_inline_trait os w.source) e))
      (update-Fixed w.to (add_listen w) os (add_listen-Fixed w (find_inline_trait os w.to) l))

apply_fixed :
    (os : List Orbital) (ws : List WiringEntry)
    → All (IsWired os) ws
    → apply_event_wiring os ws ≡ os
unfolding apply_event_wiring
apply_fixed os [] h = refl
apply_fixed os (w ∷ ws) (h, hs) = rw (wire_fixed w os h) (apply_fixed os ws hs)

-- The same wiring applied a second time adds nothing.
pub apply_event_wiring_again :
    (os : List Orbital) (ws : List WiringEntry)
    → apply_event_wiring (apply_event_wiring os ws) ws ≡ apply_event_wiring os ws
apply_event_wiring_again os ws =
    apply_fixed (apply_event_wiring os ws) ws (apply_event_wiring_wires os ws)
