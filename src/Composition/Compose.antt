-- ===== src/Composition/Compose.antt =====
-- effects/composition/compose-behaviors.ts. A ledger is a dictionary by id, its entries of any type.
pub mod Pages
pub mod Identity
use Prim.Native.Char.{code}
use Prim.Native.String
use almadar_runtime.Base.{
  ℕ, zero, suc, ◌+◌, ◌≡◌, Bool, true, false, ◌&&◌, ◌||◌, not, List, [], ◌∷◌, ◌++◌, Option, none,
  some, String, length, is_empty, keys, contains, get, put, get_or, is_some, leb, ltb, ◌==◌,
  if◌then◌else◌, string_eq, nat_eq, ◌>>=◌, map,
}
use almadar_runtime.Time.Digits.{codes}
use almadar_runtime.Composition.Wiring.{
  WiringEntry, Page, EntityRef, reference, inline, Orbital, apply_event_wiring,
}
use almadar_runtime.Composition.Names.{to_kebab_case, without}
use almadar_runtime.Composition.Layout.{
  LayoutStrategy, sidebar, tabs, dashboard, wizard_flow, single, detect_layout_strategy,
}

abbrev pub Entries : Type 0 → Type 0
Entries E = List (String × E)

-- `OrbitalSchema`; the name and the version are constant.
pub record Schema (E : Type 0) : Type 0 where
  pub orbitals : List Orbital
  pub schema_version : Option ℕ
  pub ledger : Option (Entries E)

pub data Source (E : Type 0) : Type 0 where
  whole : Schema E → Source E
  one : Orbital → Source E

unfoldable pub as_definitions : {E : Type 0} → List (Source E) → List Orbital
as_definitions [] = []
as_definitions (whole s ∷ is) = s.orbitals ++ as_definitions is
as_definitions (one o ∷ is) = o ∷ as_definitions is

-- `a < b` on texts.
unfoldable pub text_ltb : String → String → Bool
text_ltb a String.[] = false
text_ltb String.[] (String.◌∷◌ d t) = true
text_ltb (String.◌∷◌ c s) (String.◌∷◌ d t) =
    let rest = text_ltb s t in
    if ltb (code c) (code d) then true else if code c == code d then rest else false

unfoldable pub add_new : {E : Type 0} → Entries E → Entries E → Entries E
add_new [] merged = merged
add_new ((id, entry) ∷ entries) merged =
    add_new entries (if contains id (keys merged) then merged else put id entry merged)

unfoldable pub collect : {E : Type 0} → List (Source E) → Entries E → Entries E
unfolding add_new
collect [] merged = merged
collect (one o ∷ is) merged = collect is merged
collect (whole s ∷ is) merged = collect is (add_new (get_or s.ledger []) merged)

abbrev pub has_ledger : {E : Type 0} → List (Source E) → Bool
has_ledger [] = false
has_ledger (one o ∷ is) = has_ledger is
has_ledger (whole s ∷ is) = is_some s.ledger || has_ledger is

-- `sort` by id: the sort is stable and the ids of a map differ, so insertion gives the same order.
unfoldable pub place : {E : Type 0} → String × E → Entries E → Entries E
unfolding text_ltb
place e [] = e ∷ []
place e (f ∷ es) = if text_ltb (f.0) (e.0) then f ∷ place e es else e ∷ f ∷ es

unfoldable pub sorted : {E : Type 0} → Entries E → Entries E
unfolding place
sorted [] = []
sorted (e ∷ es) = place e (sorted es)

unfoldable pub merge_ledgers : {E : Type 0} → List (Source E) → Option (Entries E)
unfolding collect sorted
merge_ledgers is = if has_ledger is then some (sorted (collect is [])) else none

abbrev pub larger : Option ℕ → ℕ → ℕ
larger none v = v
larger (some m) v = if ltb m v then v else m

abbrev pub raised : Option ℕ → Option ℕ → Option ℕ
raised m none = m
raised m (some v) = some (larger m v)

abbrev pub max_from : {E : Type 0} → List (Source E) → Option ℕ → Option ℕ
max_from [] m = m
max_from (one o ∷ is) m = max_from is m
max_from (whole s ∷ is) m = max_from is (raised m s.schema_version)

unfoldable pub merge_schema_versions : {E : Type 0} → List (Source E) → Option ℕ
merge_schema_versions is = max_from is none

unfoldable pub get_entity_name : Orbital → List ℕ
get_entity_name o = elim o.entity [
  | reference r ↦ without (codes ".entity") (codes r)
  | inline n ↦ codes n
]

abbrev pub page_name : String → String
page_name name = String.◌++◌ name "Page"

abbrev pub orbital_page : Bool → Orbital → Page
orbital_page first o = record {
  name = page_name o.name;
  path = if first then codes "/" else b'/' ∷ to_kebab_case (codes o.name);
  is_initial = first;
  view_type = none;
  primary_entity = some (get_entity_name o);
}

abbrev pub page_each : Bool → List Orbital → List Page
page_each first [] = []
page_each first (o ∷ os) = orbital_page first o ∷ page_each false os

abbrev pub single_page : List Orbital → Page
single_page [] = record {
  name = "MainPage";
  path = codes "/";
  is_initial = true;
  view_type = none;
  primary_entity = none;
}
single_page (o ∷ os) = orbital_page true o

abbrev pub dashboard_page : Page
dashboard_page = record {
  name = "DashboardPage";
  path = codes "/";
  is_initial = true;
  view_type = some "dashboard";
  primary_entity = none;
}

unfoldable pub generate_pages : List Orbital → LayoutStrategy → List Page
generate_pages os single = single_page os ∷ []
generate_pages os dashboard = dashboard_page ∷ []
generate_pages os sidebar = page_each true os
generate_pages os tabs = page_each true os
generate_pages os wizard_flow = page_each true os

-- `pages[index]`.
abbrev pub nth : List Page → ℕ → Option Page
nth [] i = none
nth (p ∷ ps) zero = some p
nth (p ∷ ps) (suc i) = nth ps i

abbrev pub page_for : LayoutStrategy → List Page → ℕ → Option Page
page_for single pages i = nth pages 0
page_for dashboard pages i = nth pages 0
page_for sidebar pages i = nth pages i
page_for tabs pages i = nth pages i
page_for wizard_flow pages i = nth pages i

abbrev pub as_list : Option Page → List Page
as_list none = []
as_list (some p) = p ∷ []

unfoldable pub with_page : LayoutStrategy → List Page → ℕ → Orbital → Orbital
with_page strategy pages i o =
    if ltb 0 (length (get_or o.pages []))
    then o
    else record o { pages = some (as_list (page_for strategy pages i)) }

unfoldable pub with_pages : LayoutStrategy → List Page → ℕ → List Orbital → List Orbital
unfolding with_page
with_pages strategy pages i [] = []
with_pages strategy pages i (o ∷ os) =
    with_page strategy pages i o ∷ with_pages strategy pages (suc i) os

pub record Composed (E : Type 0) : Type 0 where
  pub schema : Schema E
  pub strategy : LayoutStrategy
  pub page_count : ℕ
  pub connections : ℕ

-- `layoutStrategy`: absent and `auto` are `none`.
abbrev pub wired : List Orbital → Option (List WiringEntry) → List Orbital
wired os none = os
wired os (some ws) = if ltb 0 (length ws) then apply_event_wiring os ws else os

abbrev pub choose_strategy :
    ℕ → Option LayoutStrategy → List Orbital → Option (List WiringEntry) → Option LayoutStrategy
choose_strategy fuel (some s) os ws = some s
choose_strategy fuel none os ws = detect_layout_strategy fuel os ws

abbrev pub compose_with :
    {E : Type 0} → List (Source E) → Option (List WiringEntry) → LayoutStrategy → Composed E
compose_with is ws strategy =
    let os = wired (as_definitions is) ws in
    let pages = generate_pages os strategy in
    record {
      schema = record {
        orbitals = with_pages strategy pages 0 os;
        schema_version = merge_schema_versions is;
        ledger = merge_ledgers is;
      };
      strategy = strategy;
      page_count = length pages;
      connections = length (get_or ws []);
    }

unfoldable pub compose_behaviors :
    {E : Type 0}
    → ℕ
    → List (Source E)
    → Option LayoutStrategy
    → Option (List WiringEntry)
    → Option (Composed E)
compose_behaviors fuel is layout ws = do
  strategy ← choose_strategy fuel layout (wired (as_definitions is) ws) ws
  some (compose_with is ws strategy)
