-- ===== src/Events/Bus/Delivery.antt =====
-- Who receives an event, when the listeners do not call back into the bus.
use almadar_runtime.Base.{
  ℕ, suc, ◌+◌, ◌-◌, ◌<◌, ◌≡◌, refl, sym, ap, subst, ◌∙◌, inl, inr, true, false, not, ◌&&◌, ◌||◌,
  List, [], ◌∷◌, ◌++◌, map, Option, none, some, String, arith, append_assoc, append-nil, map-append,
  contains, insert, contains-insert, contains-append, keep, IsUnique, Bool-cases, ◌==◌,
  if◌then◌else◌, nat_eq, string_eq, get, get_or, leb,
}
use almadar_runtime.Events.Bus.{
  Bus, Event, World, Action, Emit, emit, notify, perform, deliver_to, deliver_any, deliver_all,
  snapshot, secondary, members, listeners_of, at_depth,
}
use almadar_runtime.Events.Bus.Invariant.{IsWf, depth-IsWf}

-- Members of `ys` that `xs` does not hold.
abbrev pub minus : List ℕ → List ℕ → List ℕ
minus ys xs = keep (λ l. not (contains l xs)) ys

minus-nil : (ys : List ℕ) → minus ys [] ≡ ys
minus-nil [] = refl
minus-nil (y ∷ ys) = ap (◌∷◌ y) (minus-nil ys)

minus-insert :
    (l : ℕ) (seen ls : List ℕ) → contains l ls ≡ false → minus ls (insert l seen) ≡ minus ls seen
minus-insert l seen [] h = refl
minus-insert l seen (x ∷ ls) h = ground (
  arith,
  contains-insert l x seen,
  nat_eq.test_iff l x,
  nat_eq.test_iff x l,
  minus-insert l seen ls,
)

contains-minus :
    (x : ℕ) (ys xs : List ℕ) → contains x (minus ys xs) ≡ (contains x ys && not (contains x xs))
contains-minus x [] xs = refl
contains-minus x (y ∷ ys) xs = ground (arith, contains-minus x ys xs, nat_eq.test_iff y x)

gather : List ℕ → List ℕ → List ℕ
gather seen [] = seen
gather seen (l ∷ ls) = gather (if contains l seen then seen else insert l seen) ls

contains-gather :
    (x : ℕ) (seen ls : List ℕ) → contains x (gather seen ls) ≡ (contains x ls || contains x seen)
unfolding gather
contains-gather x seen [] = refl
contains-gather x seen (l ∷ ls) = ground (
  arith,
  contains-gather x (if contains l seen then seen else insert l seen) ls,
  contains-insert l x seen,
  nat_eq.test_iff l x,
)

minus-gather : (ys ls : List ℕ) → minus ys (gather [] ls) ≡ minus ys ls
minus-gather [] ls = refl
minus-gather (y ∷ ys) ls = ground (arith, contains-gather y [] ls, minus-gather ys ls)

abbrev pub send : {P : Type 0} → Event P → List ℕ → List (ℕ × Event P)
send event ls = map (λ l. (l, event)) ls

abbrev logged : {P : Type 0} → World P → Event P → List ℕ → World P
logged w event ls = record w { log = w.log ++ send event ls }

logged_twice :
    {P : Type 0} (w : World P) (event : Event P) (xs ys : List ℕ)
    → logged (logged w event xs) event ys ≡ logged w event (xs ++ ys)
logged_twice w event xs ys = simp (append_assoc, map-append)

module _ {P : Type 0} (react : ℕ → Event P → List (Action P))
    (quiet : (l : ℕ) (event : Event P) → react l event ≡ []) (again : Emit P) where
  notify_quiet :
      (l : ℕ) (event : Event P) (w : World P)
      → notify react again l event w ≡ some (logged w event (l ∷ []))
  unfolding notify perform
  notify_quiet l event w = rw (quiet l event)

  deliver_to_quiet :
      (ls : List ℕ) (event : Event P) (seen : List ℕ) (w : World P)
      → IsUnique ls
      → deliver_to react again ls event seen w
        ≡ some (gather seen ls, logged w event (minus ls seen))
  unfolding deliver_to gather
  deliver_to_quiet [] event seen w u = simp append-nil
  deliver_to_quiet (l ∷ ls) event seen w (h, u) = elim (Bool-cases (contains l seen)) [
    | inl old ↦ rw (old) (deliver_to_quiet ls event seen w u)
    | inr new ↦
        rw
          (
            new,
            notify_quiet l event w,
            deliver_to_quiet ls event (insert l seen) (logged w event (l ∷ [])) u,
            minus-insert l seen ls h,
          )
          (simp append_assoc)
  ]

  deliver_any_quiet :
      (ls : List ℕ) (event : Event P) (w : World P)
      → deliver_any react again ls event w ≡ some (logged w event ls)
  unfolding deliver_any
  deliver_any_quiet [] event w = simp append-nil
  deliver_any_quiet (l ∷ ls) event w =
      rw (notify_quiet l event w, deliver_any_quiet ls event (logged w event (l ∷ [])))
        (simp append_assoc)

-- The listeners under the event's routing key (its name where it has none), then those under its name
-- that are not among them.
pub named : String → Option String → Bus → List ℕ
named t key b = let first = listeners_of (get_or key t) b in first ++ minus (listeners_of t b) first

-- Everyone who hears the event: the named ones, then the wildcard listeners.
pub recipients : String → Option String → Bus → List ℕ
unfolding named
recipients t key b = named t key b ++ (if t == "*" then [] else listeners_of "*" b)

listeners_of-snapshot : (t : String) (b : Bus) → listeners_of t b ≡ snapshot (get t b.listeners) b
unfolding listeners_of
listeners_of-snapshot t b = ground arith

minus_within : (ys zs : List ℕ) → minus ys (zs ++ ys) ≡ []
minus_within [] zs = refl
minus_within (y ∷ ys) zs =
    let held : contains y (zs ++ y ∷ ys) ≡ true =
      ground (arith, contains-append y zs (y ∷ ys), nat_eq.test_iff y y) in
    rw held (ap (minus ys) (sym (append_assoc zs (y ∷ []) ys)) ∙ minus_within ys (zs ++ y ∷ []))

-- The set that the second loop reads has the listeners under the name, where these are others.
minus-secondary :
    (t : String) (key : Option String) (b : Bus)
    → minus (snapshot (secondary t key b) b) (listeners_of (get_or key t) b)
      ≡ minus (listeners_of t b) (listeners_of (get_or key t) b)
unfolding secondary
minus-secondary t none b = sym (minus_within (listeners_of t b) [])
minus-secondary t (some k) b = elim (Bool-cases (k == t)) [
  | inr other ↦ rw other (ap (λ ls. minus ls (listeners_of k b)) (sym (listeners_of-snapshot t b)))
  | inl same ↦ rw same (
      sym (
        ap (λ n. minus (listeners_of t b) (listeners_of n b)) ((string_eq.test_iff k t).0 same)
        ∙ minus_within (listeners_of t b) []))
]

-- The two loops of an emission.
reached-named :
    (t : String) (key : Option String) (b : Bus)
    → let first = snapshot (get (get_or key t) b.listeners) b in
      first ++ minus (snapshot (secondary t key b) b) first ≡ named t key b
unfolding named
reached-named t key b =
    ap (λ ls. ls ++ minus (snapshot (secondary t key b) b) ls)
      (sym (listeners_of-snapshot (get_or key t) b))
    ∙ ap (λ ls. listeners_of (get_or key t) b ++ ls) (minus-secondary t key b)

snapshot-IsUnique : (s : Option ℕ) (b : Bus) → IsWf b → IsUnique (snapshot s b)
snapshot-IsUnique none b v = tt
snapshot-IsUnique (some s) b v = v.once s

minus-IsUnique : (ys xs : List ℕ) → IsUnique ys → IsUnique (minus ys xs)
minus-IsUnique [] xs u = tt
minus-IsUnique (y ∷ ys) xs (h, u) = ground (arith, minus-IsUnique ys xs u, contains-minus y ys xs)

append-IsUnique :
    (xs ys : List ℕ)
    → IsUnique xs
    → IsUnique ys
    → ((x : ℕ) → contains x xs ≡ true → contains x ys ≡ false)
    → IsUnique (xs ++ ys)
append-IsUnique [] ys u v h = v
append-IsUnique (x ∷ xs) ys (n, u) v h = (
  ground (arith, contains-append x xs ys, h x, nat_eq.test_iff x x),
  append-IsUnique xs ys u v (λ z e. ground (arith, h z)),
)

named-IsUnique : (t : String) (key : Option String) (b : Bus) → IsWf b → IsUnique (named t key b)
named-IsUnique t key b v =
    let first = snapshot (get (get_or key t) b.listeners) b in
    let second = snapshot (secondary t key b) b in
    subst IsUnique (reached-named t key b) (
      append-IsUnique first (minus second first)
        (snapshot-IsUnique (get (get_or key t) b.listeners) b v)
        (minus-IsUnique second first (snapshot-IsUnique (secondary t key b) b v))
        (λ x e. ground (arith, contains-minus x second first)))

module _ {P : Type 0} (react : ℕ → Event P → List (Action P))
    (quiet : (l : ℕ) (event : Event P) → react l event ≡ []) (again : Emit P) where
  deliver_all_quiet :
      (event : Event P) (key : Option String) (w : World P)
      → IsWf w.bus
      → deliver_all react again event key w
        ≡ some (logged w event (recipients event.type key w.bus))
  unfolding deliver_all recipients
  deliver_all_quiet event key w v =
      let first = snapshot (get (get_or key event.type) w.bus.listeners) w.bus in
      let second = snapshot (secondary event.type key w.bus) w.bus in
      let w₁ = logged w event first in
      rw
        (
          deliver_to_quiet react quiet again first event [] w
              (snapshot-IsUnique (get (get_or key event.type) w.bus.listeners) w.bus v),
          minus-nil first,
        )
        (rw
          (
            deliver_to_quiet react quiet again second event (gather [] first) w₁
                (snapshot-IsUnique (secondary event.type key w.bus) w.bus v),
            minus-gather second first,
            sym (reached-named event.type key w.bus),
          )
          (elim (Bool-cases (event.type == "*")) [
            | inl star ↦ rw star (simp (append_assoc, map-append, append-nil))
            | inr plain ↦
                rw
                  (
                    plain,
                    deliver_any_quiet react quiet again (listeners_of "*" w.bus) event
                        (logged w₁ event (minus second first)),
                  )
                  (simp (append_assoc, map-append))
          ]))

snapshot_depth :
    (s : Option ℕ) (d : ℕ) (b : Bus) → snapshot s (record b { depth = d }) ≡ snapshot s b
unfolding members
snapshot_depth none d b = refl
snapshot_depth (some s) d b = refl

listeners_of_depth :
    (t : String) (d : ℕ) (b : Bus) → listeners_of t (record b { depth = d }) ≡ listeners_of t b
listeners_of_depth t d b =
    listeners_of-snapshot t (record b { depth = d })
    ∙ snapshot_depth (get t b.listeners) d b
    ∙ sym (listeners_of-snapshot t b)

recipients_depth :
    (t : String) (key : Option String) (d : ℕ) (b : Bus)
    → recipients t key (record b { depth = d }) ≡ recipients t key b
unfolding recipients named
recipients_depth t key d b =
    simp
      (listeners_of_depth t d b, listeners_of_depth (get_or key t) d b, listeners_of_depth "*" d b)
      refl

-- While the circuit breaker is closed and no listener calls back into the bus, an emission delivers
-- the event once to each listener under its routing key, then once to each listener under its name
-- that has not had it, then to each wildcard listener (to none if the event is `*` itself), and
-- changes nothing else; no listener under the two keys hears it twice.
pub emit_delivers :
    {P : Type 0} (react : ℕ → Event P → List (Action P)) (fuel : ℕ) (w : World P) (t : String)
    (p : P) (key : Option String)
    → ((l : ℕ) (event : Event P) → react l event ≡ [])
    → w.bus.depth < w.bus.max_depth
    → IsWf w.bus
    → (emit react (suc fuel) w t p key
        ≡ some (record w {
          log = w.log ++ send (record { type = t; payload = p }) (recipients t key w.bus);
        }))
      × IsUnique (named t key w.bus)
unfolding emit
emit_delivers {P} react fuel w t p key quiet lt v =
    let event : Event P = record { type = t; payload = p } in
    let inner = at_depth (w.bus.depth + 1) w in
    let shut : leb w.bus.max_depth w.bus.depth ≡ false = ground arith in
    let back : w.bus.depth + 1 - 1 ≡ w.bus.depth = omega arith in
    (
      rw
          (
            shut,
            emit,
            deliver_all_quiet react quiet (emit react fuel) event key inner (depth-IsWf _ w.bus v),
          )
          (rw (back, recipients_depth t key (w.bus.depth + 1) w.bus)),
      named-IsUnique t key w.bus v,
    )
