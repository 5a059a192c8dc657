-- ===== src/Composition/Wiring/Laws.antt =====
-- What a wiring leaves behind: every entry is wired, and a second wiring changes nothing.
use almadar_runtime.Base.{
  ◌≡◌, refl, Bool, true, false, ◌&&◌, ◌||◌, inl, inr, List, [], ◌∷◌, ◌++◌, Option, none, some,
  String, any, get_or, ◌==◌, if◌then◌else◌, string_eq, arith, Bool-cases, All,
}
use almadar_runtime.Composition.Wiring.{
  WiringEntry, Trait, Orbital, find_in, find_inline_trait, update_in, update_inline_trait, has_emit,
  has_listen, add_emit, add_listen, wire, apply_event_wiring,
}

any-append {ℓ} :
    {A : Type ℓ} (p : A → Bool) (xs ys : List A) → any p (xs ++ ys) ≡ (any p xs || any p ys)
any-append p [] ys = refl
any-append p (x ∷ xs) ys = ground (arith, any-append p xs ys)

abbrev pub Keeps : (Trait → Trait) → Type 0
Keeps f = (t : Trait) → ((f t).name ≡ t.name) × ((f t).is_inline ≡ t.is_inline)

abbrev pub after : Bool → (Trait → Trait) → Option Trait → Option Trait
after here f none = none
after here f (some t) = if here then some (f t) else some t

find_in-update_in :
    (n m : String) (f : Trait → Trait) (k : Keeps f) (ts : List Trait)
    → find_in m (update_in n f ts) ≡ after (n == m) f (find_in m ts)
unfolding find_in update_in
find_in-update_in n m f k [] = refl
find_in-update_in n m f k (t ∷ ts) = ground (
  arith,
  string_eq.test_iff n m,
  string_eq.test_iff t.name n,
  string_eq.test_iff t.name m,
  k t,
  find_in-update_in n m f k ts,
)

pub find_inline_trait-update_inline_trait :
    (n m : String) (f : Trait → Trait) (k : Keeps f) (os : List Orbital)
    → find_inline_trait (update_inline_trait n f os) m ≡ after (n == m) f (find_inline_trait os m)
unfolding find_inline_trait update_inline_trait
find_inline_trait-update_inline_trait n m f k [] = refl
find_inline_trait-update_inline_trait n m f k (o ∷ os) = ground (
  arith,
  string_eq.test_iff n m,
  find_in-update_in n m f k o.traits,
  find_inline_trait-update_inline_trait n m f k os,
)

pub add_emit-Keeps : (w : WiringEntry) → Keeps (add_emit w)
unfolding add_emit
add_emit-Keeps w t = ground arith

pub add_listen-Keeps : (w : WiringEntry) → Keeps (add_listen w)
unfolding add_listen
add_listen-Keeps w t = ground arith

-- The trait that sends declares the event, if there is such a trait.
abbrev pub emit_declared : WiringEntry → Option Trait → Bool
emit_declared w none = true
emit_declared w (some t) = has_emit (get_or t.emits []) w.event

abbrev pub listen_declared : WiringEntry → Option Trait → Bool
listen_declared w none = true
listen_declared w (some t) = has_listen (get_or t.listens []) w.event w.triggers

unfoldable pub IsWired : List Orbital → WiringEntry → Type 0
IsWired os w =
    (emit_declared w (find_inline_trait os w.source) ≡ true)
    × (listen_declared w (find_inline_trait os w.to) ≡ true)

-- What a trait declares, it still declares after a write.
abbrev Grows : (Trait → Trait) → Type 0
Grows f =
    (v : WiringEntry) (t : Trait)
    → (emit_declared v (some t) ≡ true → emit_declared v (some (f t)) ≡ true)
      × (listen_declared v (some t) ≡ true → listen_declared v (some (f t)) ≡ true)

add_emit-Grows : (w : WiringEntry) → Grows (add_emit w)
unfolding add_emit
add_emit-Grows w v t = elim (Bool-cases (has_emit (get_or t.emits []) w.event)) [
  | inl old ↦ rw old (λ h. h, λ h. h)
  | inr new ↦
      rw new (λ h. rw (any-append (λ e. e.event == v.event) (get_or t.emits []), h) refl, λ h. h)
]

add_listen-Grows : (w : WiringEntry) → Grows (add_listen w)
unfolding add_listen
add_listen-Grows w v t = elim (Bool-cases (has_listen (get_or t.listens []) w.event w.triggers)) [
  | inl old ↦ rw old (λ h. h, λ h. h)
  | inr new ↦ rw new (
    λ h. h,
    λ h.
        rw
          (
            any-append (λ l. l.event == v.event && l.triggers == v.triggers) (get_or t.listens []),
            h,
          )
          refl,
  )
]

add_emit-declares : (w : WiringEntry) (t : Trait) → emit_declared w (some (add_emit w t)) ≡ true
unfolding add_emit
add_emit-declares w t = elim (Bool-cases (has_emit (get_or t.emits []) w.event)) [
  | inl old ↦ rw old old
  | inr new ↦
      rw (new, any-append (λ e. e.event == w.event) (get_or t.emits []), new)
        (ground (arith, string_eq.test_iff w.event w.event))
]

add_listen-declares :
    (w : WiringEntry) (t : Trait) → listen_declared w (some (add_listen w t)) ≡ true
unfolding add_listen
add_listen-declares w t = elim (Bool-cases (has_listen (get_or t.listens []) w.event w.triggers)) [
  | inl old ↦ rw old old
  | inr new ↦
      rw
        (
          new,
          any-append (λ l. l.event == w.event && l.triggers == w.triggers) (get_or t.listens []),
          new,
        )
        (ground
          (arith, string_eq.test_iff w.event w.event, string_eq.test_iff w.triggers w.triggers))
]

update-IsWired :
    (n : String) (f : Trait → Trait) (k : Keeps f) (g : Grows f) (v : WiringEntry)
    (os : List Orbital)
    → IsWired os v
    → IsWired (update_inline_trait n f os) v
unfolding IsWired
update-IsWired n f k g v os (h, l) =
    rw
      (
        find_inline_trait-update_inline_trait n v.source f k os,
        find_inline_trait-update_inline_trait n v.to f k os,
      )
      (
        grown (n == v.source) (find_inline_trait os v.source) h,
        heard (n == v.to) (find_inline_trait os v.to) l,
      )
  where
    grown :
        (b : Bool) (o : Option Trait)
        → emit_declared v o ≡ true
        → emit_declared v (after b f o) ≡ true
    grown b none h = refl
    grown true (some t) h = (g v t).0 h
    grown false (some t) h = h

    heard :
        (b : Bool) (o : Option Trait)
        → listen_declared v o ≡ true
        → listen_declared v (after b f o) ≡ true
    heard b none h = refl
    heard true (some t) h = (g v t).1 h
    heard false (some t) h = h

wire-declares : (w : WiringEntry) (os : List Orbital) → IsWired (wire w os) w
unfolding IsWired wire
wire-declares w os = (
  rw
      (
        find_inline_trait-update_inline_trait w.to w.source (add_listen w) (add_listen-Keeps w)
            (update_inline_trait w.source (add_emit w) os),
        find_inline_trait-update_inline_trait w.source w.source (add_emit w) (add_emit-Keeps w) os,
        (string_eq.test_iff w.source w.source).1 refl,
      )
      (sent (w.to == w.source) (find_inline_trait os w.source)),
  rw
      (
        find_inline_trait-update_inline_trait w.to w.to (add_listen w) (add_listen-Keeps w)
            (update_inline_trait w.source (add_emit w) os),
        (string_eq.test_iff w.to w.to).1 refl,
      )
      (heard (find_inline_trait (update_inline_trait w.source (add_emit w) os) w.to)),
)
  where
    sent :
        (b : Bool) (o : Option Trait)
        → emit_declared w (after b (add_listen w) (after true (add_emit w) o)) ≡ true
    sent b none = refl
    sent true (some t) = (add_listen-Grows w w (add_emit w t)).0 (add_emit-declares w t)
    sent false (some t) = add_emit-declares w t

    heard : (o : Option Trait) → listen_declared w (after true (add_listen w) o) ≡ true
    heard none = refl
    heard (some t) = add_listen-declares w t

wire-IsWired : (w v : WiringEntry) (os : List Orbital) → IsWired os v → IsWired (wire w os) v
unfolding wire
wire-IsWired w v os h =
    update-IsWired w.to (add_listen w) (add_listen-Keeps w) (add_listen-Grows w) v _
      (update-IsWired w.source (add_emit w) (add_emit-Keeps w) (add_emit-Grows w) v os h)

apply-IsWired :
    (v : WiringEntry) (os : List Orbital) (ws : List WiringEntry)
    → IsWired os v
    → IsWired (apply_event_wiring os ws) v
unfolding apply_event_wiring
apply-IsWired v os [] h = h
apply-IsWired v os (w ∷ ws) h = apply-IsWired v (wire w os) ws (wire-IsWired w v os h)

-- After the wiring, of every entry the first inline trait with the sender's name declares that it
-- emits the event, and the first one with the receiver's name listens for it with the entry's
-- trigger, where the orbitals have inline traits of these names.
pub apply_event_wiring_wires :
    (os : List Orbital) (ws : List WiringEntry) → All (IsWired (apply_event_wiring os ws)) ws
unfolding apply_event_wiring
apply_event_wiring_wires os [] = tt
apply_event_wiring_wires os (w ∷ ws) =
    (apply-IsWired w (wire w os) ws (wire-declares w os), apply_event_wiring_wires (wire w os) ws)
