-- ===== src/Composition/Compose/Pages.antt =====
-- The pages of a composed schema.
use almadar_runtime.Base.{
  ℕ, zero, suc, ◌+◌, ◌≤◌, ◌<◌, ◌≡◌, refl, Bool, true, false, ◌&&◌, inl, inr, List, [], ◌∷◌, Option,
  none, some, String, length, keep, is_some, get_or, ltb, if◌then◌else◌, arith, All, Bool-cases,
  ◌∙◌,
}
use almadar_runtime.Composition.Wiring.{
  WiringEntry, Page, Trait, Orbital, update_inline_trait, add_emit, add_listen, wire,
  apply_event_wiring,
}
use almadar_runtime.Composition.Layout.{
  LayoutStrategy, sidebar, tabs, dashboard, wizard_flow, single, detect_layout_strategy, by_count,
}
use almadar_runtime.Composition.Layout.Chains.{has_sequential_chain_total}
use almadar_runtime.Composition.Compose.{
  Source, as_definitions, page_each, generate_pages, nth, page_for, with_page, with_pages, wired,
  choose_strategy, compose_with, compose_behaviors, Composed, dashboard_page, single_page,
}

-- The orbital has a page.
abbrev pub HasPage : Orbital → Type 0
HasPage o = ltb 0 (length (get_or o.pages [])) ≡ true

length-page_each : (b : Bool) (os : List Orbital) → length (page_each b os) ≡ length os
length-page_each b [] = refl
length-page_each b (o ∷ os) = omega (arith, length-page_each false os)

nth-is_some : (ps : List Page) (i : ℕ) → i < length ps → is_some (nth ps i) ≡ true
nth-is_some [] i h = absurd (omega arith)
nth-is_some (p ∷ ps) zero h = refl
nth-is_some (p ∷ ps) (suc i) h = nth-is_some ps i (omega arith)

-- Which pages the orbitals from index `i` on, `n` of them, are given.
abbrev Supplied : LayoutStrategy → List Page → ℕ → ℕ → Type 0
Supplied s ps i zero = Unit
Supplied s ps i (suc n) = (is_some (page_for s ps i) ≡ true) × Supplied s ps (suc i) n

with_page-HasPage :
    (s : LayoutStrategy) (ps : List Page) (i : ℕ) (o : Orbital)
    → is_some (page_for s ps i) ≡ true
    → HasPage (with_page s ps i o)
unfolding with_page
with_page-HasPage s ps i o h = elim (Bool-cases (ltb 0 (length (get_or o.pages [])))) [
  | inl has ↦ rw has has
  | inr lacks ↦ rw lacks (go (page_for s ps i) h)
]
  where
    go :
        (p : Option Page)
        → is_some p ≡ true
        → ltb 0 (length (elim p [ none ↦ [] | some q ↦ q ∷ [] ])) ≡ true
    go none k = cc
    go (some q) k = refl

with_pages-HasPage :
    (s : LayoutStrategy) (ps : List Page) (i : ℕ) (os : List Orbital)
    → Supplied s ps i (length os)
    → All HasPage (with_pages s ps i os)
unfolding with_pages
with_pages-HasPage s ps i [] h = tt
with_pages-HasPage s ps i (o ∷ os) (h, hs) =
    (with_page-HasPage s ps i o h, with_pages-HasPage s ps (suc i) os hs)

length-with_pages :
    (s : LayoutStrategy) (ps : List Page) (i : ℕ) (os : List Orbital)
    → length (with_pages s ps i os) ≡ length os
unfolding with_pages
length-with_pages s ps i [] = refl
length-with_pages s ps i (o ∷ os) = omega (arith, length-with_pages s ps (suc i) os)

each-Supplied : (ps : List Page) (i n : ℕ) → i + n ≤ length ps → Supplied tabs ps i n
each-Supplied ps i zero h = tt
each-Supplied ps i (suc n) h =
    (nth-is_some ps i (omega arith), each-Supplied ps (suc i) n (omega arith))

supplied : (s : LayoutStrategy) (os : List Orbital) → Supplied s (generate_pages os s) 0 (length os)
unfolding generate_pages
supplied s os = go s
  where
    first : (i n : ℕ) (p : Page) → Supplied single (p ∷ []) i n
    first i zero p = tt
    first i (suc n) p = (refl, first (suc i) n p)

    board : (i n : ℕ) (p : Page) → Supplied dashboard (p ∷ []) i n
    board i zero p = tt
    board i (suc n) p = (refl, board (suc i) n p)

    each : Supplied tabs (page_each true os) 0 (length os)
    each = each-Supplied (page_each true os) 0 (length os) (omega (arith, length-page_each true os))

    side : (ps : List Page) (i n : ℕ) → Supplied tabs ps i n → Supplied sidebar ps i n
    side ps i zero h = tt
    side ps i (suc n) (a, h) = (a, side ps (suc i) n h)

    flow : (ps : List Page) (i n : ℕ) → Supplied tabs ps i n → Supplied wizard_flow ps i n
    flow ps i zero h = tt
    flow ps i (suc n) (a, h) = (a, flow ps (suc i) n h)

    go : (s : LayoutStrategy) → Supplied s (generate_pages os s) 0 (length os)
    go sidebar = side (page_each true os) 0 (length os) each
    go tabs = each
    go dashboard = board 0 (length os) dashboard_page
    go wizard_flow = flow (page_each true os) 0 (length os) each
    go single = first 0 (length os) (single_page os)

no_initial : (os : List Orbital) → keep (λ p. p.is_initial) (page_each false os) ≡ []
no_initial [] = refl
no_initial (o ∷ os) = no_initial os

-- Of the pages that are generated for one orbital or more, exactly one is the initial page,
-- whatever the layout strategy.
pub generate_pages_initial :
    (os : List Orbital) (s : LayoutStrategy)
    → 0 < length os
    → length (keep (λ p. p.is_initial) (generate_pages os s)) ≡ 1
unfolding generate_pages
generate_pages_initial [] s h = absurd (omega arith)
generate_pages_initial (o ∷ os) sidebar h = rw (no_initial os) refl
generate_pages_initial (o ∷ os) tabs h = rw (no_initial os) refl
generate_pages_initial (o ∷ os) dashboard h = refl
generate_pages_initial (o ∷ os) wizard_flow h = rw (no_initial os) refl
generate_pages_initial (o ∷ os) single h = refl

choose_total :
    (fuel : ℕ) (layout : Option LayoutStrategy) (os : List Orbital) (ws : Option (List WiringEntry))
    → length (get_or ws []) < fuel
    → (s : LayoutStrategy) × (choose_strategy fuel layout os ws ≡ some s)
unfolding detect_layout_strategy
choose_total fuel (some s) os ws h = (s, refl)
choose_total fuel none os none h = (by_count (length os), refl)
choose_total fuel none os (some ws) h =
    let (b, e) = has_sequential_chain_total fuel ws h in
    (if ltb 0 (length ws) && b then wizard_flow else by_count (length os), rw e refl)

length-update_inline_trait :
    (n : String) (f : Trait → Trait) (os : List Orbital)
    → length (update_inline_trait n f os) ≡ length os
unfolding update_inline_trait
length-update_inline_trait n f [] = refl
length-update_inline_trait n f (o ∷ os) = ground (arith, length-update_inline_trait n f os)

length-apply_event_wiring :
    (os : List Orbital) (ws : List WiringEntry) → length (apply_event_wiring os ws) ≡ length os
unfolding apply_event_wiring wire
length-apply_event_wiring os [] = refl
length-apply_event_wiring os (w ∷ ws) =
    length-apply_event_wiring (wire w os) ws
    ∙ length-update_inline_trait w.to (add_listen w) (update_inline_trait w.source (add_emit w) os)
    ∙ length-update_inline_trait w.source (add_emit w) os

length-wired :
    (os : List Orbital) (ws : Option (List WiringEntry)) → length (wired os ws) ≡ length os
length-wired os none = refl
length-wired os (some ws) = elim (Bool-cases (ltb 0 (length ws))) [
  | inl used ↦ rw used (length-apply_event_wiring os ws)
  | inr unused ↦ rw unused refl
]

-- With fuel for more steps than the wiring has entries, the composition returns a schema, in which
-- there are as many orbitals as in the inputs, and each of them has a page.
pub compose_behaviors_pages :
    {E : Type 0} (fuel : ℕ) (is : List (Source E)) (layout : Option LayoutStrategy)
    (ws : Option (List WiringEntry))
    → length (get_or ws []) < fuel
    → (c : Composed E) × (compose_behaviors fuel is layout ws ≡ some c)
      × All HasPage c.schema.orbitals
      × (length c.schema.orbitals ≡ length (as_definitions is))
unfolding compose_behaviors
compose_behaviors_pages fuel is layout ws h =
    let os = wired (as_definitions is) ws in
    let (s, e) = choose_total fuel layout os ws h in
    (
      compose_with is ws s,
      rw e refl,
      with_pages-HasPage s (generate_pages os s) 0 os (supplied s os),
      length-with_pages s (generate_pages os s) 0 os ∙ length-wired (as_definitions is) ws,
    )
