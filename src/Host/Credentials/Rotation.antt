-- ===== src/Host/Credentials/Rotation.antt =====
-- What a rotation of the master key counts, and what it leaves readable.
use almadar_runtime.Base.{
  ℕ, suc, ◌+◌, ◌≡◌, refl, sym, ap, subst, ◌∙◌, Bool, true, false, ◌&&◌, not, List, [], ◌∷◌, Option,
  none, some, String, length, or_else, or_else-none, same?, is_some, ◌==◌, string_eq, arith,
  if_cases,
}
use almadar_runtime.Host.Credentials.{
  Sealed, Crypto, Row, Adapter, ReadableRow, readable, text, aad, try_key, try_previous,
  decrypt_row, row_of, ok, CredentialStore,
}
use almadar_runtime.Host.Credentials.Writes.{
  Turn, stamped, rewritten, turn_of, turn_row, RotationCounts, count_turn, apply_turn, rotate_rows,
  rotate,
}

abbrev pub total : RotationCounts → ℕ
total n = n.rotated + n.already_current + n.unreadable

total-count_turn : (t : Turn) (n : RotationCounts) → total (count_turn t n) ≡ total n + 1
total-count_turn Turn.unreadable n = omega arith
total-count_turn Turn.already_current n = omega arith
total-count_turn (stamped id row) n = omega arith
total-count_turn (rewritten id row) n = omega arith

module _ (c : Crypto) {D : Type 0} (a : Adapter D) where
  total-rotate_rows :
      (master : String) (previous : Option String) (nonce now : ℕ) (rows : List Row) (db : D)
      (n : RotationCounts)
      → total (rotate_rows c a master previous nonce now rows db n).1 ≡ total n + length rows
  unfolding rotate_rows
  total-rotate_rows master previous nonce now [] db n = omega arith
  total-rotate_rows master previous nonce now (row ∷ rows) db n =
      let turn = turn_row c master previous nonce now row in
      omega (
        arith,
        total-rotate_rows master previous (suc nonce) now rows (apply_turn c a turn db)
            (count_turn turn n),
        total-count_turn turn n,
      )

  -- A rotation with a master key counts each row once: as rotated, as current already, or as
  -- unreadable.
  pub total-rotate :
      (nonce now : ℕ) (db : D) (s : CredentialStore) {master : String}
      → s.master_key ≡ some master
      → (n : RotationCounts) × ((rotate c a nonce now db s).0 ≡ ok n)
        × (total n ≡ length (a.list db))
  unfolding rotate
  total-rotate nonce now db s {master} k = (
    (rotate_rows c a master s.previous_key nonce now (a.list db) db
        (record { rotated = 0; already_current = 0; unreadable = 0 })).1,
    rw (k, rotate) refl,
    omega (
      arith,
      total-rotate_rows master s.previous_key nonce now (a.list db) db
          (record { rotated = 0; already_current = 0; unreadable = 0 }),
    ),
  )

-- What the documentation of AES-GCM and of the key ids promises: a ciphertext opens under its key, and
-- the previous key has another id than the current one.
pub record IsSound (c : Crypto) (master : String) (previous : Option String) : Type 0 where
  pub opens :
      (nonce : ℕ) (bound : Option String) (value : String)
      → c.decrypt master (c.encrypt master nonce bound value) bound ≡ some value
  pub apart : (p : String) → previous ≡ some p → (c.key_id master == c.key_id p) ≡ false

module _ (c : Crypto) (master : String) where
  -- The turn leaves a row that the current key reads alone, with the value.
  abbrev pub Leaves : Row → ReadableRow → String → Turn → Type 0
  Leaves row r value Turn.unreadable = ⊥
  Leaves row r value Turn.already_current =
      decrypt_row c master none r.key_id r.sealed (aad c r.env_var r.principal) ≡ some value
  Leaves row r value (stamped id row') =
      (id ≡ r.id)
      × (row' ≡ record row { key_id = text (c.key_id master) })
      × (decrypt_row c master none (some (c.key_id master)) r.sealed (aad c r.env_var r.principal)
          ≡ some value)
  Leaves row r value (rewritten id row') =
      let bound = aad c r.env_var r.principal in
      (id ≡ r.id)
      × (nonce : ℕ) × (now : ℕ) × (row'
          ≡ row_of r.service r.env_var (c.encrypt master nonce bound value) (c.key_id master) now
              r.principal none)
      × (decrypt_row c master none (some (c.key_id master)) (c.encrypt master nonce bound value)
            bound
          ≡ some value)

  previous_silent :
      (previous : Option String) (id : String) (sealed : Sealed) (bound : Option String)
      → IsSound c master previous
      → id ≡ c.key_id master
      → try_previous c previous (some id) sealed bound ≡ none
  previous_silent none id sealed bound sound e = refl
  previous_silent (some p) id sealed bound sound e = rw (e, sound.apart p refl) refl

  pub current_only :
      (previous : Option String) (id : String) (sealed : Sealed) (bound : Option String)
      → IsSound c master previous
      → id ≡ c.key_id master
      → decrypt_row c master previous (some id) sealed bound ≡ c.decrypt master sealed bound
  unfolding decrypt_row
  current_only previous id sealed bound sound e =
      ap (λ o. or_else (try_key c master (some id) sealed bound) o)
        (previous_silent previous id sealed bound sound e)
      ∙ or_else-none (try_key c master (some id) sealed bound)
      ∙ (rw (e, (string_eq.test_iff (c.key_id master) (c.key_id master)).1 refl) refl)

  alone :
      (id : String) (sealed : Sealed) (bound : Option String)
      → id ≡ c.key_id master
      → decrypt_row c master none (some id) sealed bound ≡ c.decrypt master sealed bound
  unfolding decrypt_row
  alone id sealed bound e =
      or_else-none (try_key c master (some id) sealed bound)
      ∙ (rw (e, (string_eq.test_iff (c.key_id master) (c.key_id master)).1 refl) refl)

  -- A row that says it is under the current key is read by that key alone.
  current_leaves :
      (previous : Option String) (row : Row) (r : ReadableRow) (value : String)
      → IsSound c master previous
      → r.key_id ≡ some (c.key_id master)
      → decrypt_row c master previous r.key_id r.sealed (aad c r.env_var r.principal) ≡ some value
      → decrypt_row c master none r.key_id r.sealed (aad c r.env_var r.principal) ≡ some value
  current_leaves previous row r value sound e d =
      let id = c.key_id master in
      let bound = aad c r.env_var r.principal in
      ap (λ k. decrypt_row c master none k r.sealed bound) e
      ∙ alone id r.sealed bound refl
      ∙ sym (current_only previous id r.sealed bound sound refl)
      ∙ sym (ap (λ k. decrypt_row c master previous k r.sealed bound) e)
      ∙ d

  -- What the current key reads of a row without a key id is the row's value.
  legacy_value :
      (previous : Option String) (sealed : Sealed) (bound : Option String) {value found : String}
      → IsSound c master previous
      → decrypt_row c master previous none sealed bound ≡ some value
      → decrypt_row c master previous (some (c.key_id master)) sealed bound ≡ some found
      → decrypt_row c master none (some (c.key_id master)) sealed bound ≡ some value
  unfolding decrypt_row
  legacy_value previous sealed bound {value} {found} sound d f =
      let id = c.key_id master in
      let opened : c.decrypt master sealed bound ≡ some found =
        sym (current_only previous id sealed bound sound refl) ∙ f in
      alone id sealed bound refl
      ∙ opened
      ∙ sym (ap (λ o. or_else o (try_previous c previous none sealed bound)) opened)
      ∙ d

  is_same : (o : Option String) (s : String) → same? o (some s) ≡ true → o ≡ some s
  is_same none s e = cc
  is_same (some t) s e = ap some ((string_eq.test_iff t s).0 e)

  is_none : (o : Option String) (b : Bool) → (not (is_some o) && b) ≡ true → o ≡ none
  is_none none b e = refl
  is_none (some x) b e = cc

  is_found : (o : Option String) (b : Bool) → (b && is_some o) ≡ true → (x : String) × (o ≡ some x)
  is_found none true e = cc
  is_found none false e = cc
  is_found (some x) b e = (x, refl)

  turn_of-Leaves :
      (previous : Option String) (nonce now : ℕ) (row : Row) (r : ReadableRow) (value : String)
      → IsSound c master previous
      → decrypt_row c master previous r.key_id r.sealed (aad c r.env_var r.principal) ≡ some value
      → Leaves row r value (turn_of c master previous nonce now row r value)
  unfolding turn_of
  turn_of-Leaves previous nonce now row r value sound d =
      let id = c.key_id master in
      let bound = aad c r.env_var r.principal in
      let under_current = decrypt_row c master previous (some id) r.sealed bound in
      let fresh : decrypt_row c master none (some id) (c.encrypt master nonce bound value) bound
          ≡ some value =
        alone id (c.encrypt master nonce bound value) bound refl ∙ sound.opens nonce bound value in
      if_cases (Leaves row r value) (same? r.key_id (some id))
        (λ t. current_leaves previous row r value sound (is_same r.key_id id t) d)
        (λ different.
          if_cases (Leaves row r value) (not (is_some r.key_id) && is_some under_current)
            (λ t.
              let bare : r.key_id ≡ none = is_none r.key_id (is_some under_current) t in
              let (found, f) = is_found under_current (not (is_some r.key_id)) t in
              (
                refl,
                refl,
                legacy_value previous r.sealed bound sound
                    (sym (ap (λ k. decrypt_row c master previous k r.sealed bound) bare) ∙ d) f,
              ))
            (λ f. (refl, nonce, now, refl, fresh)))

  -- Under the cipher and the key ids as documented, `rotate` has a row that it can decrypt read by the
  -- current key alone, with the same value: it leaves the row as it is, stamps it, or encrypts it anew.
  pub turn_row-Leaves :
      (previous : Option String) (nonce now : ℕ) (row : Row) {r : ReadableRow} {value : String}
      → IsSound c master previous
      → readable row ≡ some r
      → decrypt_row c master previous r.key_id r.sealed (aad c r.env_var r.principal) ≡ some value
      → Leaves row r value (turn_row c master previous nonce now row)
  unfolding turn_row
  turn_row-Leaves previous nonce now row {r} {value} sound e d =
      subst (Leaves row r value) (sym (simp (e, d, turn_row) refl))
        (turn_of-Leaves previous nonce now row r value sound d)
