-- ===== src/Evaluation/Tests.antt =====
-- A card whose optimistic move is taken back.
use almadar_runtime.Base.{
  ◌≡◌, refl, arith, true, false, List, [], ◌∷◌, none, some, String, get, put, ◌==◌, string_eq,
}
use almadar_runtime.Traits.StateBook.{
  TraitDefinition, TraitState, create, get_state, find_initial_state, create_initial_trait_state,
  seed_state, server_rejected, rollback_state,
}
use almadar_runtime.Evaluation.Circuit.{CircuitStore, frame_of, take_snapshot, restore}
use almadar_runtime.Evaluation.Circuit.Restored.{
  Write, writes, moves, write_all, IsWf, restore-take_snapshot,
}

abbrev card : TraitDefinition
card = record {
  name = "Card";
  states = some (
      record { name = "idle"; is_initial = true }
      ∷ record { name = "open"; is_initial = false }
      ∷ []);
  transitions = none;
}

-- The card is idle, and has a frame.
abbrev page : CircuitStore String
page = record {
  states = create (card ∷ []);
  rows = (0, "row") ∷ [];
  next_row = 1;
  frames = ("Card", 0) ∷ [];
  listeners = [];
  version = 0;
}

page-IsWf : IsWf page
unfolding get
page-IsWf = record { bounded = λ key r e. ground (arith, string_eq.test_iff "Card" key, e) }

-- Then its row is written in place, and it opens.
abbrev moves_since : List (Write String)
moves_since =
    writes "Card" "spoilt" ∷ moves (seed_state "Card" "open" none (create (card ∷ []))) ∷ []

restored_test :
    let (snap, s₁) = take_snapshot "Card" none none page in
    let now = write_all moves_since s₁ in
    (frame_of "Card" now ≡ some "spoilt")
    × (frame_of "Card" (restore "Card" none snap none server_rejected now).0 ≡ some "row")
unfolding create seed_state get_state get put take_snapshot restore rollback_state
    find_initial_state create_initial_trait_state
restored_test = (refl, refl)

restore-take_snapshot_example :
    let (snap, s₁) = take_snapshot "Card" none none page in
    let now = write_all moves_since s₁ in
    let after = (restore "Card" none snap none server_rejected now).0 in
    ((reached : TraitState) × (get_state "Card" none after.states ≡ some reached)
      × (reached.current_state ≡ "idle"))
    × (frame_of "Card" after ≡ frame_of "Card" page)
    × ((other : String) → ("Card" == other) ≡ false → frame_of other after ≡ frame_of other now)
unfolding create seed_state get_state get put take_snapshot find_initial_state
    create_initial_trait_state
restore-take_snapshot_example =
    restore-take_snapshot "Card" none none server_rejected page moves_since page-IsWf refl refl refl
