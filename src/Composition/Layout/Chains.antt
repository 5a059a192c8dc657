-- ===== src/Composition/Layout/Chains.antt =====
-- The walk_chain along a wiring's edges: it ends, and a chain that it reports is one.
use almadar_runtime.Base.{
  ℕ, zero, suc, ◌+◌, ◌≤◌, ◌<◌, ◌≡◌, refl, Bool, true, false, ◌&&◌, ◌||◌, not, inl, inr, List, [],
  ◌∷◌, some, String, length, any, keep, contains, insert, get, get_or, leb, ◌==◌, string_eq, arith,
  contains-insert, get-put, Option-cases, Bool-cases, ltb,
}
use almadar_runtime.Composition.Wiring.{WiringEntry}
use almadar_runtime.Composition.Layout.{
  Adjacency, add_edge, add_edges, add_targets, first_new, walk_chain, try_starts, starts_of,
  has_sequential_chain,
}

-- The wiring has an entry from the one to the other.
abbrev pub has_edge : List WiringEntry → String → String → Bool
has_edge ws k n = any (λ w. w.source == k && w.to == n) ws

abbrev pub successors : Adjacency → String → List String
successors m k = get_or (get k m) []

contains-add_edge :
    (w : WiringEntry) (m : Adjacency) (k n : String)
    → contains n (successors (add_edge w m) k)
      ≡ ((w.source == k && w.to == n) || contains n (successors m k))
contains-add_edge w m k n = elim (Bool-cases (w.source == k)) [
  | inl same ↦
      rw
        (
          get-put w.source k (insert w.to (successors m w.source)) m,
          same,
          contains-insert w.to n (successors m w.source),
        )
        (ground (arith, string_eq.test_iff w.source k))
  | inr other ↦ rw (get-put w.source k (insert w.to (successors m w.source)) m, other) refl
]

contains-add_edges :
    (ws : List WiringEntry) (m : Adjacency) (k n : String)
    → contains n (successors (add_edges ws m) k) ≡ (has_edge ws k n || contains n (successors m k))
contains-add_edges [] m k n = refl
contains-add_edges (w ∷ ws) m k n =
    ground (arith, contains-add_edges ws (add_edge w m) k n, contains-add_edge w m k n)

contains-add_targets :
    (ws : List WiringEntry) (set : List String) (k n : String)
    → (has_edge ws k n || contains n set) ≡ true
    → contains n (add_targets ws set) ≡ true
contains-add_targets [] set k n h = h
contains-add_targets (w ∷ ws) set k n h =
    contains-add_targets ws (insert w.to set) k n (ground (arith, contains-insert w.to n set))

length-insert : (a : String) (xs : List String) → length (insert a xs) ≤ length xs + 1
unfolding insert
length-insert a [] = omega arith
length-insert a (x ∷ xs) = ground (arith, length-insert a xs)

length-add_targets :
    (ws : List WiringEntry) (set : List String)
    → length (add_targets ws set) ≤ length ws + length set
length-add_targets [] set = omega arith
length-add_targets (w ∷ ws) set =
    omega (arith, length-add_targets ws (insert w.to set), length-insert w.to set)

abbrev unvisited : List String → List String → ℕ
unvisited visited ts = length (keep (λ n. not (contains n visited)) ts)

unvisited-le : (v ts : List String) → unvisited v ts ≤ length ts
unvisited-le v [] = omega arith
unvisited-le v (t ∷ ts) = ground (arith, unvisited-le v ts)

unvisited-insert-le : (n : String) (v ts : List String) → unvisited (insert n v) ts ≤ unvisited v ts
unvisited-insert-le n v [] = omega arith
unvisited-insert-le n v (t ∷ ts) = ground (arith, unvisited-insert-le n v ts, contains-insert n t v)

unvisited-insert :
    (n : String) (v ts : List String)
    → contains n ts ≡ true
    → contains n v ≡ false
    → unvisited (insert n v) ts + 1 ≤ unvisited v ts
unvisited-insert n v [] h k = cc
unvisited-insert n v (t ∷ ts) h k = elim (Bool-cases (t == n)) [
  | inl same ↦ ground (
    arith,
    unvisited-insert-le n v ts,
    contains-insert n t v,
    string_eq.test_iff t n,
    string_eq.test_iff n t,
  )
  | inr other ↦ ground (
    arith,
    contains-insert n t v,
    string_eq.test_iff t n,
    string_eq.test_iff n t,
    unvisited-insert n v ts (rw other at h) k,
  )
]

first_new-eq-some :
    (v ns : List String) {n : String}
    → first_new v ns ≡ some n
    → (contains n ns ≡ true) × (contains n v ≡ false)
first_new-eq-some v [] h = cc
first_new-eq-some v (x ∷ ns) {n} h = elim (Bool-cases (contains x v)) [
  | inl seen ↦ (let (a, b) = first_new-eq-some v ns (rw seen at h) in (ground arith, b))
  | inr new ↦ ground (arith, string_eq.test_iff x n)
]

-- Every edge of the table is one of the wiring's.
abbrev Covers : Adjacency → List String → Type 0
Covers m ts = (k n : String) → contains n (successors m k) ≡ true → contains n ts ≡ true

walk_chain_total :
    (fuel : ℕ) (m : Adjacency) (ts : List String) (c : Covers m ts) (v : List String)
    (current : String) (len : ℕ)
    → unvisited v ts < fuel
    → (r : ℕ) × (walk_chain fuel m v current len ≡ some r)
unfolding walk_chain
walk_chain_total zero m ts c v current len h = absurd (omega arith)
walk_chain_total (suc fuel) m ts c v current len h =
    elim (Option-cases (first_new v (successors m current))) [
      | inl stuck ↦ (len, rw (stuck, walk_chain) refl)
      | inr (next, found) ↦
          (let (edge, new) = first_new-eq-some v (successors m current) found in
            let (r, e) =
              walk_chain_total fuel m ts c (insert next v) next (len + 1)
                (omega (arith, unvisited-insert next v ts (c current next edge) new)) in
            (r, rw (found, walk_chain) e))
    ]

try_starts_total :
    (fuel : ℕ) (m : Adjacency) (ts : List String) (c : Covers m ts) (starts : List String)
    → length ts < fuel
    → (b : Bool) × (try_starts fuel m starts ≡ some b)
unfolding try_starts
try_starts_total fuel m ts c [] h = (false, refl)
try_starts_total fuel m ts c (start ∷ starts) h =
    let (r, e) =
      walk_chain_total fuel m ts c (start ∷ []) start 1
        (omega (arith, unvisited-le (start ∷ []) ts)) in
    let (b, rest) = try_starts_total fuel m ts c starts h in
    elim (Bool-cases (leb 3 r)) [
      | inl long ↦ (true, rw (e, long) refl)
      | inr short ↦ (b, rw (e, short) rest)
    ]

-- With fuel for more steps than the wiring has entries, the search for a chain ends.
pub has_sequential_chain_total :
    (fuel : ℕ) (ws : List WiringEntry)
    → length ws < fuel
    → (b : Bool) × (has_sequential_chain fuel ws ≡ some b)
unfolding has_sequential_chain get
has_sequential_chain_total fuel ws h = elim (Bool-cases (ltb (length ws) 2)) [
  | inl short ↦ (false, rw short refl)
  | inr long ↦
      (let (b, e) =
          try_starts_total fuel (add_edges ws []) (add_targets ws []) covers (starts_of ws)
            (omega (arith, length-add_targets ws [])) in
        (b, rw long e))
]
  where
    covers : Covers (add_edges ws []) (add_targets ws [])
    covers k n e = contains-add_targets ws [] k n (ground (arith, contains-add_edges ws [] k n))

step_of :
    (fuel : ℕ) (m : Adjacency) (v : List String) (current : String) (len : ℕ) {r : ℕ}
    → walk_chain fuel m v current len ≡ some r
    → len < r
    → (next : String) × (rest : ℕ) × (contains next (successors m current) ≡ true)
      × (contains next v ≡ false)
      × (walk_chain rest m (insert next v) next (len + 1) ≡ some r)
unfolding walk_chain
step_of zero m v current len e h = cc
step_of (suc fuel) m v current len {r} e h =
    elim (Option-cases (first_new v (successors m current))) [
      | inl stuck ↦ absurd (ground (arith, rw (stuck, walk_chain) at e))
      | inr (next, found) ↦
          (let (edge, new) = first_new-eq-some v (successors m current) found in
            (next, fuel, edge, new, rw (found, walk_chain) at e))
    ]

-- Three different nodes, each wired to the next.
pub Chain : List WiringEntry → Type 0
Chain ws =
    (a : String) × (b : String) × (c : String) × (has_edge ws a b ≡ true)
    × (has_edge ws b c ≡ true)
    × ((a == b) ≡ false)
    × ((a == c) ≡ false)
    × ((b == c) ≡ false)

edge_of :
    (ws : List WiringEntry) (k n : String)
    → contains n (successors (add_edges ws []) k) ≡ true
    → has_edge ws k n ≡ true
unfolding get
edge_of ws k n h = ground (arith, contains-add_edges ws [] k n)

walk_chain-Chain :
    (fuel : ℕ) (ws : List WiringEntry) (start : String) {r : ℕ}
    → walk_chain fuel (add_edges ws []) (start ∷ []) start 1 ≡ some r
    → leb 3 r ≡ true
    → Chain ws
unfolding Chain
walk_chain-Chain fuel ws a e h =
    let (b, f, ab, nb, e₁) = step_of fuel (add_edges ws []) (a ∷ []) a 1 e (ground arith) in
    let (c, g, bc, nc, e₂) =
      step_of f (add_edges ws []) (insert b (a ∷ [])) b 2 e₁ (ground arith) in
    (
      a,
      b,
      c,
      edge_of ws a b ab,
      edge_of ws b c bc,
      ground arith,
      ground (arith, contains-insert b c (a ∷ [])),
      ground (arith, contains-insert b c (a ∷ [])),
    )

try_starts-Chain :
    (fuel : ℕ) (ws : List WiringEntry) (starts : List String)
    → try_starts fuel (add_edges ws []) starts ≡ some true
    → Chain ws
unfolding try_starts
try_starts-Chain fuel ws [] h = absurd (ground arith)
try_starts-Chain fuel ws (a ∷ starts) h =
    elim (Option-cases (walk_chain fuel (add_edges ws []) (a ∷ []) a 1)) [
      | inl out ↦ absurd (ground (arith, rw out at h))
      | inr (r, e) ↦ elim (Bool-cases (leb 3 r)) [
        | inl long ↦ walk_chain-Chain fuel ws a e long
        | inr short ↦ try_starts-Chain fuel ws starts (rw (e, short) at h)
      ]
    ]

-- When the search reports a sequential chain, three different nodes are wired each to the next.
pub has_sequential_chain_sound :
    (fuel : ℕ) (ws : List WiringEntry) → has_sequential_chain fuel ws ≡ some true → Chain ws
unfolding has_sequential_chain
has_sequential_chain_sound fuel ws h = elim (Bool-cases (ltb (length ws) 2)) [
  | inl short ↦ absurd (ground (arith, rw short at h))
  | inr long ↦ try_starts-Chain fuel ws (starts_of ws) (rw long at h)
]
