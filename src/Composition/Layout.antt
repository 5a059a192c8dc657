-- ===== src/Composition/Layout.antt =====
-- effects/composition/layout-strategy.ts.
pub mod Chains
use almadar_runtime.Base.{
  ℕ, zero, suc, ◌+◌, Bool, true, false, ◌&&◌, not, List, [], ◌∷◌, Option, none, some, String,
  length, is_empty, keep, contains, insert, get, put, get_or, keys, leb, ltb, ◌==◌, if◌then◌else◌,
  string_eq, ◌>>=◌,
}
use almadar_runtime.Composition.Wiring.{WiringEntry, Orbital}

pub data LayoutStrategy : Type 0 where
  sidebar : LayoutStrategy
  tabs : LayoutStrategy
  dashboard : LayoutStrategy
  wizard_flow : LayoutStrategy
  single : LayoutStrategy

abbrev pub Adjacency : Type 0
Adjacency = List (String × List String)

abbrev pub add_edge : WiringEntry → Adjacency → Adjacency
add_edge w m = put w.source (insert w.to (get_or (get w.source m) [])) m

abbrev pub add_edges : List WiringEntry → Adjacency → Adjacency
add_edges [] m = m
add_edges (w ∷ ws) m = add_edges ws (add_edge w m)

abbrev pub add_targets : List WiringEntry → List String → List String
add_targets [] set = set
add_targets (w ∷ ws) set = add_targets ws (insert w.to set)

-- The first successor that the walk_chain has not visited.
abbrev pub first_new : List String → List String → Option String
first_new visited [] = none
first_new visited (n ∷ ns) = if contains n visited then first_new visited ns else some n

-- The `while (true)` loop: the chain's length from `current` on. `none` when the fuel runs out.
unfoldable pub walk_chain : ℕ → Adjacency → List String → String → ℕ → Option ℕ
walk_chain zero adjacency visited current len = none
walk_chain (suc fuel) adjacency visited current len =
    elim (first_new visited (get_or (get current adjacency) [])) [
      | none ↦ some len
      | some next ↦ walk_chain fuel adjacency (insert next visited) next (len + 1)
    ]

unfoldable pub try_starts : ℕ → Adjacency → List String → Option Bool
unfolding walk_chain
try_starts fuel adjacency [] = some false
try_starts fuel adjacency (start ∷ starts) = do
  len ← walk_chain fuel adjacency (start ∷ []) start 1
  if leb 3 len then some true else try_starts fuel adjacency starts

abbrev pub roots : List WiringEntry → List String
roots ws = keep (λ n. not (contains n (add_targets ws []))) (keys (add_edges ws []))

abbrev pub starts_of : List WiringEntry → List String
starts_of ws = if ltb 0 (length (roots ws)) then roots ws else keys (add_edges ws [])

unfoldable pub has_sequential_chain : ℕ → List WiringEntry → Option Bool
unfolding try_starts
has_sequential_chain fuel ws =
    if ltb (length ws) 2 then some false else try_starts fuel (add_edges ws []) (starts_of ws)

abbrev pub by_count : ℕ → LayoutStrategy
by_count count = if leb count 1 then single else if leb count 4 then tabs else sidebar

unfoldable pub detect_layout_strategy :
    ℕ → List Orbital → Option (List WiringEntry) → Option LayoutStrategy
unfolding has_sequential_chain
detect_layout_strategy fuel os none = some (by_count (length os))
detect_layout_strategy fuel os (some ws) = do
  chain ← has_sequential_chain fuel ws
  some (if ltb 0 (length ws) && chain then wizard_flow else by_count (length os))
