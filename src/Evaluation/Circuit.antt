-- ===== src/Evaluation/Circuit.antt =====
-- evaluation/circuit-store.ts: the states and the entity frames of the traits on a page, and the
-- snapshot that an optimistic dispatch goes back to. A frame row is an object: `rows` are the objects,
-- by reference, and a map of frames or a snapshot holds references, so that a write to an object is seen
-- by all who hold it. What a row contains is of any type. The book of states is that of
-- traits/state-book.ts.
pub mod Restored
use Prim.Native.String
use almadar_runtime.Base.{
  ℕ, suc, ◌≡◌, Bool, true, false, List, [], ◌∷◌, Option, none, some, String, get, put, delete,
  get_or, insert, remove, ◌==◌, if◌then◌else◌, string_eq, nat_eq,
}
use almadar_runtime.Traits.StateBook.{
  TraitDefinition, TraitState, StateBook, create, get_state, RollbackCause, Rollback,
  rollback_state,
}

pub record TraitSnapshot : Type 0 where
  pub state : String
  pub frame : Option ℕ

pub record CircuitStore (F : Type 0) : Type 0 where
  pub states : StateBook
  pub rows : List (ℕ × F)
  pub next_row : ℕ
  pub frames : List (String × ℕ)
  pub listeners : List ℕ
  pub version : ℕ

abbrev pub state_or_empty : Option TraitState → String
state_or_empty none = ""
state_or_empty (some t) = t.current_state

abbrev pub restore_state :
    String → Option String → String → RollbackCause → StateBook → StateBook × List Rollback
restore_state trait entity_id state cause b =
    if state == "" then (b, []) else rollback_state trait state entity_id cause b

abbrev pub set_frame : String → Option ℕ → List (String × ℕ) → List (String × ℕ)
set_frame key none frames = delete key frames
set_frame key (some r) frames = put key r frames

module _ {F : Type 0} where
  unfoldable pub create_memory_circuit_store : List TraitDefinition → CircuitStore F
  unfolding create
  create_memory_circuit_store traits = record {
    states = create traits;
    rows = [];
    next_row = 0;
    frames = [];
    listeners = [];
    version = 0;
  }

  -- The row that a reference stands for, where there is one.
  abbrev pub row_at : Option ℕ → CircuitStore F → Option F
  row_at none s = none
  row_at (some r) s = get r s.rows

  -- `frames.get(key)`.
  abbrev pub frame_of : String → CircuitStore F → Option F
  frame_of key s = row_at (get key s.frames) s

  -- `{ ...row }`: a new object, and the reference to it.
  abbrev pub copy_row : Option F → CircuitStore F → Option ℕ × CircuitStore F
  copy_row none s = (none, s)
  copy_row (some row) s =
      (some s.next_row, record s { rows = put s.next_row row s.rows; next_row = suc s.next_row })

  unfoldable pub take_snapshot :
      String → Option String → Option String → CircuitStore F → TraitSnapshot × CircuitStore F
  unfolding get_state
  take_snapshot trait entity_id frame_key s =
      let (frame, s') = copy_row (frame_of (get_or frame_key trait) s) s in
      (record { state = state_or_empty (get_state trait entity_id s.states); frame = frame }, s')

  -- The store, and what the observer is told.
  unfoldable pub restore :
      String
      → Option String
      → TraitSnapshot
      → Option String
      → RollbackCause
      → CircuitStore F
      → CircuitStore F × List Rollback
  unfolding rollback_state
  restore trait entity_id snap frame_key cause s =
      let (states, told) = restore_state trait entity_id snap.state cause s.states in
      let (frame, s') = copy_row (row_at snap.frame s) s in
      (
        record s' { states = states; frames = set_frame (get_or frame_key trait) frame s.frames },
        told,
      )

  -- The store, and the listeners that are called.
  unfoldable pub notify_circuit : CircuitStore F → CircuitStore F × List ℕ
  notify_circuit s = (record s { version = suc s.version }, s.listeners)

  unfoldable pub subscribe_circuit : ℕ → CircuitStore F → CircuitStore F
  subscribe_circuit listener s = record s { listeners = insert listener s.listeners }

  unfoldable pub unsubscribe_circuit : ℕ → CircuitStore F → CircuitStore F
  unsubscribe_circuit listener s = record s { listeners = remove listener s.listeners }
