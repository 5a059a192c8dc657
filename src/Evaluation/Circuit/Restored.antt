-- ===== src/Evaluation/Circuit/Restored.antt =====
-- A restore undoes what happened since the snapshot.
use almadar_runtime.Base.{
  ℕ, suc, ◌<◌, ◌≡◌, refl, sym, ap, subst, ◌∙◌, false, inl, inr, List, [], ◌∷◌, Option, none, some,
  String, get, put, delete, get_or, ◌==◌, string_eq, nat_eq, get-put, get-delete, arith, Bool-cases,
  Option-cases,
}
use almadar_runtime.Traits.StateBook.{
  TraitDefinition, TraitState, StateBook, get_state, RollbackCause,
}
use almadar_runtime.Traits.StateBook.Lifecycle.{get_state-rollback_state}
use almadar_runtime.Evaluation.Circuit.{
  TraitSnapshot, CircuitStore, state_or_empty, row_at, frame_of, copy_row, take_snapshot, set_frame,
  restore_state, restore,
}

restored_state :
    (trait state : String) (entity_id : Option String) (cause : RollbackCause) (b : StateBook)
    {t : TraitDefinition}
    → get trait b.traits ≡ some t
    → (state == "") ≡ false
    → (reached : TraitState) × (get_state trait entity_id
          (restore_state trait entity_id state cause b).0
        ≡ some reached)
      × (reached.current_state ≡ state)
restored_state trait state entity_id cause b {t} g n =
    let (s, before, after, same, other, rest) =
      get_state-rollback_state trait state entity_id cause b t g in
    (
      record {
        trait_name = s.trait_name;
        current_state = state;
        previous_state = some s.current_state;
        last_event = s.last_event;
      },
      rw n after,
      refl,
    )

-- What happens to a store while a snapshot is kept: the row that a frame refers to is written in place,
-- a frame is set to another row, or deleted, and the book of states is another.
pub data Write (F : Type 0) : Type 0 where
  writes : String → F → Write F
  sets : String → F → Write F
  deletes : String → Write F
  moves : StateBook → Write F

module _ {F : Type 0} where
  abbrev pub write_row : Option ℕ → F → CircuitStore F → CircuitStore F
  write_row none row s = s
  write_row (some r) row s = record s { rows = put r row s.rows }

  abbrev pub write : Write F → CircuitStore F → CircuitStore F
  write (writes key row) s = write_row (get key s.frames) row s
  write (sets key row) s = record s {
    rows = put s.next_row row s.rows;
    next_row = suc s.next_row;
    frames = put key s.next_row s.frames;
  }
  write (deletes key) s = record s { frames = delete key s.frames }
  write (moves states) s = record s { states = states }

  abbrev pub write_all : List (Write F) → CircuitStore F → CircuitStore F
  write_all [] s = s
  write_all (w ∷ ws) s = write_all ws (write w s)

  -- The references in use have been given out.
  pub record IsWf (s : CircuitStore F) : Type 0 where
    pub bounded : (key : String) (r : ℕ) → get key s.frames ≡ some r → r < s.next_row

  -- The object r is there, with this row, and no frame refers to it.
  record IsPrivate (r : ℕ) (row : F) (s : CircuitStore F) : Type 0 where
    held : get r s.rows ≡ some row
    old : r < s.next_row
    apart : (key : String) (q : ℕ) → get key s.frames ≡ some q → (q == r) ≡ false

  write_row-IsPrivate :
      (r : ℕ) (row row' : F) (key : String) (s : CircuitStore F)
      → IsPrivate r row s
      → IsPrivate r row (write_row (get key s.frames) row' s)
  write_row-IsPrivate r row row' key s v = elim (Option-cases (get key s.frames)) [
    | inl e ↦ rw e v
    | inr (q, e) ↦ rw e (record {
      held = rw (get-put q r row' s.rows, v.apart key q e) v.held;
      old = v.old;
      apart = v.apart;
    })
  ]

  write-IsPrivate :
      (r : ℕ) (row : F) (w : Write F) (s : CircuitStore F)
      → IsPrivate r row s
      → IsPrivate r row (write w s)
  write-IsPrivate r row (writes key row') s v = write_row-IsPrivate r row row' key s v
  write-IsPrivate r row (sets key row') s v =
      let other : (s.next_row == r) ≡ false = ground (arith, nat_eq.test_iff s.next_row r, v.old) in
      record {
        held = rw (get-put s.next_row r row' s.rows, other) v.held;
        old = omega (arith, v.old);
        apart = λ k q e. elim (Bool-cases (key == k)) [
          | inl t ↦
              (let new : some s.next_row ≡ some q =
                  sym (rw (get-put key k s.next_row s.frames, t) refl) ∙ e in
                ground (arith, new, other))
          | inr n ↦ v.apart k q (rw (get-put key k s.next_row s.frames, n) at e)
        ];
      }
  write-IsPrivate r row (deletes key) s v = record {
    held = v.held;
    old = v.old;
    apart = λ k q e. elim (Bool-cases (key == k)) [
      | inl t ↦ cc (rw (get-delete key k s.frames, t) at e)
      | inr n ↦ v.apart k q (rw (get-delete key k s.frames, n) at e)
    ];
  }
  write-IsPrivate r row (moves states) s v = record { held = v.held; old = v.old; apart = v.apart }

  write_all-IsPrivate :
      (r : ℕ) (row : F) (ws : List (Write F)) (s : CircuitStore F)
      → IsPrivate r row s
      → IsPrivate r row (write_all ws s)
  write_all-IsPrivate r row [] s v = v
  write_all-IsPrivate r row (w ∷ ws) s v =
      write_all-IsPrivate r row ws (write w s) (write-IsPrivate r row w s v)

  write-IsWf : (w : Write F) (s : CircuitStore F) → IsWf s → IsWf (write w s)
  write-IsWf (writes key row) s v = elim (Option-cases (get key s.frames)) [
    | inl e ↦ rw e v
    | inr (q, e) ↦ rw e (record { bounded = v.bounded })
  ]
  write-IsWf (sets key row) s v = record {
    bounded = λ k q e. elim (Bool-cases (key == k)) [
      | inl t ↦
          (let new : some s.next_row ≡ some q =
              sym (rw (get-put key k s.next_row s.frames, t) refl) ∙ e in
            ground (arith, new))
      | inr n ↦ omega (arith, v.bounded k q (rw (get-put key k s.next_row s.frames, n) at e))
    ];
  }
  write-IsWf (deletes key) s v = record {
    bounded = λ k q e. elim (Bool-cases (key == k)) [
      | inl t ↦ cc (rw (get-delete key k s.frames, t) at e)
      | inr n ↦ v.bounded k q (rw (get-delete key k s.frames, n) at e)
    ];
  }
  write-IsWf (moves states) s v = record { bounded = v.bounded }

  write_all-IsWf : (ws : List (Write F)) (s : CircuitStore F) → IsWf s → IsWf (write_all ws s)
  write_all-IsWf [] s v = v
  write_all-IsWf (w ∷ ws) s v = write_all-IsWf ws (write w s) (write-IsWf w s v)

  copy_row-IsWf : (o : Option F) (s : CircuitStore F) → IsWf s → IsWf (copy_row o s).1
  copy_row-IsWf none s v = v
  copy_row-IsWf (some row) s v = record { bounded = λ key r e. omega (arith, v.bounded key r e) }

  -- After a copy of what was read, and any writes, the copy is what was read.
  row_at-write_all :
      (o : Option F) (ws : List (Write F)) (s : CircuitStore F)
      → IsWf s
      → row_at (copy_row o s).0 (write_all ws (copy_row o s).1) ≡ o
  row_at-write_all none ws s v = refl
  row_at-write_all (some row) ws s v =
      let n = s.next_row in
      let copied : IsPrivate n row (copy_row (some row) s).1 = record {
        held = rw (get-put n n row s.rows, (nat_eq.test_iff n n).1 refl) refl;
        old = omega arith;
        apart = λ key q e. ground (arith, nat_eq.test_iff q n, v.bounded key q e);
      } in
      (write_all-IsPrivate n row ws (copy_row (some row) s).1 copied).held

  -- A store whose frame under the key is a copy of the row.
  abbrev placed : String → Option F → CircuitStore F → CircuitStore F
  placed key o s = record (copy_row o s).1 { frames = set_frame key (copy_row o s).0 s.frames }

  frame_of-placed :
      (key : String) (o : Option F) (s : CircuitStore F) → frame_of key (placed key o s) ≡ o
  frame_of-placed key none s =
      rw (get-delete key key s.frames, (string_eq.test_iff key key).1 refl) refl
  frame_of-placed key (some row) s =
      rw (get-put key key s.next_row s.frames, (string_eq.test_iff key key).1 refl)
        (rw
          (get-put s.next_row s.next_row row s.rows, (nat_eq.test_iff s.next_row s.next_row).1 refl)
          refl)

  unaffected :
      (row : F) (o : Option ℕ) (s : CircuitStore F)
      → ((r : ℕ) → o ≡ some r → r < s.next_row)
      → row_at o (copy_row (some row) s).1 ≡ row_at o s
  unaffected row none s h = refl
  unaffected row (some r) s h =
      let lt = h r refl in
      let other : (s.next_row == r) ≡ false = ground (arith, nat_eq.test_iff s.next_row r, lt) in
      rw (get-put s.next_row r row s.rows, other) refl

  row_at_rows : (o : Option ℕ) (s s' : CircuitStore F) → s.rows ≡ s'.rows → row_at o s ≡ row_at o s'
  row_at_rows none s s' e = refl
  row_at_rows (some r) s s' e = ap (get r) e

  other_frame :
      (key other : String) (o : Option F) (s : CircuitStore F)
      → IsWf s
      → (key == other) ≡ false
      → frame_of other (placed key o s) ≡ frame_of other s
  other_frame key other none s v n =
      rw (get-delete key other s.frames, n) (row_at_rows (get other s.frames) _ _ refl)
  other_frame key other (some row) s v n =
      rw (get-put key other s.next_row s.frames, n)
        (row_at_rows (get other s.frames) _ (copy_row (some row) s).1 refl
          ∙ unaffected row (get other s.frames) s (v.bounded other))

  restore_frames :
      (trait : String) (entity_id frame_key : Option String) (cause : RollbackCause)
      (snap : TraitSnapshot) (s : CircuitStore F) (key : String)
      → frame_of key (restore trait entity_id snap frame_key cause s).0
        ≡ frame_of key (placed (get_or frame_key trait) (row_at snap.frame s) s)
  unfolding restore
  restore_frames trait entity_id frame_key cause snap s key =
      row_at_rows
        (get key (set_frame (get_or frame_key trait) (copy_row (row_at snap.frame s) s).0 s.frames))
        _ _ refl

  pub restore-take_snapshot :
      (trait : String) (entity_id frame_key : Option String) (cause : RollbackCause)
      (s : CircuitStore F) (ws : List (Write F)) {t : TraitDefinition} {before : TraitState}
      → IsWf s
      → get_state trait entity_id s.states ≡ some before
      → (before.current_state == "") ≡ false
      → let (snap, s₁) = take_snapshot trait entity_id frame_key s in
        let now = write_all ws s₁ in
        get trait now.states.traits ≡ some t
        → let after = (restore trait entity_id snap frame_key cause now).0 in
          let key = get_or frame_key trait in
          ((reached : TraitState) × (get_state trait entity_id after.states ≡ some reached)
            × (reached.current_state ≡ before.current_state))
          × (frame_of key after ≡ frame_of key s)
          × ((other : String) → (key == other) ≡ false → frame_of other after ≡ frame_of other now)
  unfolding take_snapshot restore
  restore-take_snapshot trait entity_id frame_key cause s ws {before = before} v b n g =
      let key = get_or frame_key trait in
      let o = frame_of key s in
      let now = write_all ws (copy_row o s).1 in
      let snap : TraitSnapshot = record {
        state = state_or_empty (get_state trait entity_id s.states);
        frame = (copy_row o s).0;
      } in
      let kept = row_at-write_all o ws s v in
      let now_wf = write_all-IsWf ws (copy_row o s).1 (copy_row-IsWf o s v) in
      (
        subst
            (λ state.
              (reached : TraitState) × (get_state trait entity_id
                  (restore_state trait entity_id state cause now.states).0
                ≡ some reached)
              × (reached.current_state ≡ before.current_state))
            (sym (ap state_or_empty b))
            (restored_state trait before.current_state entity_id cause now.states g n),
        restore_frames trait entity_id frame_key cause snap now key
            ∙ ap (λ r. frame_of key (placed key r now)) kept
            ∙ frame_of-placed key o now,
        λ other d.
            restore_frames trait entity_id frame_key cause snap now other
            ∙ other_frame key other (row_at snap.frame now) now now_wf d,
      )
