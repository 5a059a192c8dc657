-- ===== src/Composition/Wiring/InForce.antt =====
-- The traits before and after a wiring: what is added, and with which scope.
use almadar_runtime.Base.{
  ◌≡◌, refl, sym, ap, ◌∙◌, Bool, true, false, ◌&&◌, inl, inr, List, [], ◌∷◌, ◌++◌, append_assoc,
  append-nil, Option, none, some, String, any, get_or, ◌==◌, string_eq, Bool-cases, All, All-append,
}
use almadar_runtime.Composition.Wiring.{
  WiringEntry, EventContract, EventListener, Trait, Orbital, find_inline_trait, update_inline_trait,
  has_emit, has_listen, add_emit, add_listen, wire, apply_event_wiring,
}
use almadar_runtime.Composition.Wiring.Laws.{
  Keeps, after, find_inline_trait-update_inline_trait, add_emit-Keeps, add_listen-Keeps, IsWired,
  emit_declared, listen_declared, apply_event_wiring_wires,
}

-- The second trait is the first with emits and listens of external scope added after its own.
pub record Extends (t₀ t : Trait) : Type 0 where
  pub named : t.name ≡ t₀.name
  pub inline : t.is_inline ≡ t₀.is_inline
  pub emits : List EventContract
  pub listens : List EventListener
  pub emitted : get_or t.emits [] ≡ get_or t₀.emits [] ++ emits
  pub listened : get_or t.listens [] ≡ get_or t₀.listens [] ++ listens
  pub emits_external : All (λ e. e.scope ≡ some "external") emits
  pub listens_external : All (λ l. l.scope ≡ some "external") listens

-- Before and after: there is no such trait, or it is extended.
abbrev pub Extended : Option Trait → Option Trait → Type 0
Extended none o = o ≡ none
Extended (some t₀) none = ⊥
Extended (some t₀) (some t) = Extends t₀ t

Extends-refl : (t : Trait) → Extends t t
Extends-refl t = record {
  named = refl;
  inline = refl;
  emits = [];
  listens = [];
  emitted = sym (append-nil (get_or t.emits []));
  listened = sym (append-nil (get_or t.listens []));
  emits_external = tt;
  listens_external = tt;
}

Extends-trans : (t u v : Trait) → Extends t u → Extends u v → Extends t v
Extends-trans t u v h k = record {
  named = k.named ∙ h.named;
  inline = k.inline ∙ h.inline;
  emits = h.emits ++ k.emits;
  listens = h.listens ++ k.listens;
  emitted =
      k.emitted
      ∙ ap (λ xs. xs ++ k.emits) h.emitted
      ∙ append_assoc (get_or t.emits []) h.emits k.emits;
  listened =
      k.listened
      ∙ ap (λ xs. xs ++ k.listens) h.listened
      ∙ append_assoc (get_or t.listens []) h.listens k.listens;
  emits_external =
      All-append (λ e. e.scope ≡ some "external") h.emits k.emits h.emits_external k.emits_external;
  listens_external =
      All-append (λ l. l.scope ≡ some "external") h.listens k.listens h.listens_external
        k.listens_external;
}

add_emit-Extends : (w : WiringEntry) (t : Trait) → Extends t (add_emit w t)
unfolding add_emit
add_emit-Extends w t = elim (Bool-cases (has_emit (get_or t.emits []) w.event)) [
  | inl old ↦ rw old (record {
    named = refl;
    inline = refl;
    emits = [];
    listens = [];
    emitted = sym (append-nil (get_or t.emits []));
    listened = sym (append-nil (get_or t.listens []));
    emits_external = tt;
    listens_external = tt;
  })
  | inr new ↦ rw new (record {
    named = refl;
    inline = refl;
    emits = record { event = w.event; scope = some "external" } ∷ [];
    listens = [];
    emitted = refl;
    listened = sym (append-nil (get_or t.listens []));
    emits_external = (refl, tt);
    listens_external = tt;
  })
]

add_listen-Extends : (w : WiringEntry) (t : Trait) → Extends t (add_listen w t)
unfolding add_listen
add_listen-Extends w t = elim (Bool-cases (has_listen (get_or t.listens []) w.event w.triggers)) [
  | inl old ↦ rw old (record {
    named = refl;
    inline = refl;
    emits = [];
    listens = [];
    emitted = sym (append-nil (get_or t.emits []));
    listened = sym (append-nil (get_or t.listens []));
    emits_external = tt;
    listens_external = tt;
  })
  | inr new ↦ rw new (record {
    named = refl;
    inline = refl;
    emits = [];
    listens = record { event = w.event; triggers = w.triggers; scope = some "external" } ∷ [];
    emitted = sym (append-nil (get_or t.emits []));
    listened = refl;
    emits_external = tt;
    listens_external = (refl, tt);
  })
]

Extended-after :
    (b : Bool) (f : Trait → Trait) (k : (t : Trait) → Extends t (f t)) (o p : Option Trait)
    → Extended o p
    → Extended o (after b f p)
Extended-after b f k none p e = ap (after b f) e
Extended-after true f k (some t₀) (some t) h = Extends-trans t₀ t (f t) h (k t)
Extended-after false f k (some t₀) (some t) h = h
Extended-after b f k (some t₀) none h = h

Extended-refl : (o : Option Trait) → Extended o o
Extended-refl none = refl
Extended-refl (some t) = Extends-refl t

update-Extended :
    (n m : String) (f : Trait → Trait) (kept : Keeps f) (k : (t : Trait) → Extends t (f t))
    (o : Option Trait) (os : List Orbital)
    → Extended o (find_inline_trait os m)
    → Extended o (find_inline_trait (update_inline_trait n f os) m)
update-Extended n m f kept k o os h =
    rw (find_inline_trait-update_inline_trait n m f kept os)
      (Extended-after (n == m) f k o (find_inline_trait os m) h)

apply-Extended :
    (m : String) (o : Option Trait) (os : List Orbital) (ws : List WiringEntry)
    → Extended o (find_inline_trait os m)
    → Extended o (find_inline_trait (apply_event_wiring os ws) m)
unfolding apply_event_wiring wire
apply-Extended m o os [] h = h
apply-Extended m o os (w ∷ ws) h = apply-Extended m o (wire w os) ws (
    update-Extended w.to m (add_listen w) (add_listen-Keeps w) (add_listen-Extends w) o
      (update_inline_trait w.source (add_emit w) os)
      (update-Extended w.source m (add_emit w) (add_emit-Keeps w) (add_emit-Extends w) o os h))

-- The sender before and after: it has the event among its emits, and only external ones are added.
abbrev pub Sends : WiringEntry → Option Trait → Option Trait → Type 0
Sends w none o = o ≡ none
Sends w (some t₀) none = ⊥
Sends w (some t₀) (some t) =
    Extends t₀ t × (any (λ e. e.event == w.event) (get_or t.emits []) ≡ true)

abbrev pub Hears : WiringEntry → Option Trait → Option Trait → Type 0
Hears w none o = o ≡ none
Hears w (some t₀) none = ⊥
Hears w (some t₀) (some t) =
    Extends t₀ t
    × (any (λ l. l.event == w.event && l.triggers == w.triggers) (get_or t.listens []) ≡ true)

abbrev pub InForce : List Orbital → List Orbital → WiringEntry → Type 0
InForce before os w =
    Sends w (find_inline_trait before w.source) (find_inline_trait os w.source)
    × Hears w (find_inline_trait before w.to) (find_inline_trait os w.to)

wired-InForce :
    (before os : List Orbital) (w : WiringEntry)
    → ((m : String) → Extended (find_inline_trait before m) (find_inline_trait os m))
    → IsWired os w
    → InForce before os w
unfolding IsWired
wired-InForce before os w h (s, l) = (
  sent (find_inline_trait before w.source) (find_inline_trait os w.source) (h w.source) s,
  heard (find_inline_trait before w.to) (find_inline_trait os w.to) (h w.to) l,
)
  where
    sent : (o p : Option Trait) → Extended o p → emit_declared w p ≡ true → Sends w o p
    sent none p e s = e
    sent (some t₀) (some t) e s = (e, s)
    sent (some t₀) none e s = e

    heard : (o p : Option Trait) → Extended o p → listen_declared w p ≡ true → Hears w o p
    heard none p e l = e
    heard (some t₀) (some t) e l = (e, l)
    heard (some t₀) none e l = e

all-InForce :
    (before os : List Orbital) (ws : List WiringEntry)
    → ((m : String) → Extended (find_inline_trait before m) (find_inline_trait os m))
    → All (IsWired os) ws
    → All (InForce before os) ws
all-InForce before os [] h k = tt
all-InForce before os (w ∷ ws) h (x, k) =
    (wired-InForce before os w h x, all-InForce before os ws h k)

pub apply_event_wiring-InForce :
    (os : List Orbital) (ws : List WiringEntry) → All (InForce os (apply_event_wiring os ws)) ws
apply_event_wiring-InForce os ws =
    all-InForce os (apply_event_wiring os ws) ws
      (λ m.
        apply-Extended m (find_inline_trait os m) os ws (Extended-refl (find_inline_trait os m)))
      (apply_event_wiring_wires os ws)
