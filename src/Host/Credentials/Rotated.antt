-- ===== src/Host/Credentials/Rotated.antt =====
-- What a rotation leaves in the database.
use almadar_runtime.Base.{
  ℕ, suc, ◌≡◌, refl, sym, ap, subst, ◌∙◌, true, false, inl, inr, List, [], ◌∷◌, Option, none, some,
  String, same?, ◌==◌, if◌then◌else◌, string_eq, ◌>>=◌, Bool-cases, Option-cases, if_cases, not,
  ◌&&◌, is_some,
}
use mathlib.Core.Option.{some-injective}
use almadar_runtime.Host.Credentials.{
  Crypto, text, Row, ReadableRow, readable, non_empty, Adapter, aad, decrypt_row, row_of,
  CredentialStore,
}
use almadar_runtime.Host.Credentials.Writes.{
  Turn, stamped, rewritten, turn_of, turn_row, RotationCounts, count_turn, apply_turn, rotate_rows,
  rotate,
}
use almadar_runtime.Host.Credentials.Rotation.{IsSound, Leaves, turn_row-Leaves}
use almadar_runtime.Host.Credentials.Merged.{
  readable-Reads, Reads-readable, merge, Reads-stamped, Reads-rewritten,
}

-- The first row with the id.
abbrev pub find_row : String → List Row → Option Row
find_row id [] = none
find_row id (row ∷ rows) = if same? (non_empty row.id) (some id) then some row else find_row id rows

abbrev pub IsNew : Option String → List Row → Type 0
IsNew none rows = Unit {0}
IsNew (some id) rows = find_row id rows ≡ none

-- No two rows have one id.
abbrev pub Distinct : List Row → Type 0
Distinct [] = Unit {0}
Distinct (row ∷ rows) = IsNew (non_empty row.id) rows × Distinct rows

-- What the adapter documents: an update replaces, in the row with the id, the other fields that are
-- given, and leaves the other rows.
abbrev pub IsRowStore : {D : Type 0} → Adapter D → Type 0
IsRowStore {D} a =
    (i j : String) (row : Row) (db : D)
    → find_row j (a.list (a.update i row db)) ≡ (
        if i == j
        then (find_row j (a.list db) >>= λ old. some (merge old row))
        else find_row j (a.list db))

-- The id that a turn writes to is the row's.
abbrev TurnAt : Row → Turn → Type 0
TurnAt row Turn.unreadable = Unit {0}
TurnAt row Turn.already_current = Unit {0}
TurnAt row (stamped id row') = non_empty row.id ≡ some id
TurnAt row (rewritten id row') = non_empty row.id ≡ some id

same-eq : (o : Option String) (id : String) → o ≡ some id → same? o (some id) ≡ true
same-eq o id e = ap (λ p. same? p (some id)) e ∙ (string_eq.test_iff id id).1 refl

pub eq_of_same : (o : Option String) (id : String) → same? o (some id) ≡ true → o ≡ some id
eq_of_same none id e = cc
eq_of_same (some x) id e = ap some ((string_eq.test_iff x id).0 e)

module _ (c : Crypto) (master : String) (previous : Option String) where
  turn_of-TurnAt :
      (nonce now : ℕ) (row : Row) (r : ReadableRow) (value : String)
      → non_empty row.id ≡ some r.id
      → TurnAt row (turn_of c master previous nonce now row r value)
  unfolding turn_of
  turn_of-TurnAt nonce now row r value e =
      let bound = aad c r.env_var r.principal in
      if_cases (TurnAt row) (same? r.key_id (some (c.key_id master))) (λ t. tt)
        (λ f.
          if_cases (TurnAt row)
            (not (is_some r.key_id)
              && is_some (decrypt_row c master previous (some (c.key_id master)) r.sealed bound))
            (λ t. e) (λ f. e))

  turn_row-TurnAt :
      (nonce now : ℕ) (row : Row) → TurnAt row (turn_row c master previous nonce now row)
  unfolding turn_row
  turn_row-TurnAt nonce now row = elim (Option-cases (readable row)) [
    | inl e ↦ simp (e, turn_row) tt
    | inr (r, e) ↦
        elim (Option-cases
          (decrypt_row c master previous r.key_id r.sealed (aad c r.env_var r.principal))) [
            | inl d ↦ simp (e, d, turn_row) tt
            | inr (value, d) ↦
                subst (TurnAt row) (sym (simp (e, d, turn_row) refl))
                  (turn_of-TurnAt nonce now row r value (readable-Reads row e).id)
          ]
  ]

  module _ {D : Type 0} (a : Adapter D) (laws : IsRowStore a) where
    -- A turn at another row.
    apply_turn_apart :
        (row : Row) (turn : Turn) (id : String) (db : D)
        → TurnAt row turn
        → same? (non_empty row.id) (some id) ≡ false
        → find_row id (a.list (apply_turn c a turn db)) ≡ find_row id (a.list db)
    apply_turn_apart row Turn.unreadable id db e n = refl
    apply_turn_apart row Turn.already_current id db e n = refl
    apply_turn_apart row (stamped j row') id db e n =
        laws j id row' db ∙ (rw (sym (ap (λ o. same? o (some id)) e) ∙ n) refl)
    apply_turn_apart row (rewritten j row') id db e n =
        laws j id row' db ∙ (rw (sym (ap (λ o. same? o (some id)) e) ∙ n) refl)

    rotate_rows_apart :
        (nonce now : ℕ) (rows : List Row) (id : String) (db : D) (n : RotationCounts)
        → find_row id rows ≡ none
        → find_row id (a.list (rotate_rows c a master previous nonce now rows db n).0)
          ≡ find_row id (a.list db)
    unfolding rotate_rows
    rotate_rows_apart nonce now [] id db n e = refl
    rotate_rows_apart nonce now (row ∷ rows) id db n e =
        let turn = turn_row c master previous nonce now row in
        elim (Bool-cases (same? (non_empty row.id) (some id))) [
          | inl t ↦ cc (rw t at e)
          | inr f ↦
              rotate_rows_apart (suc nonce) now rows id (apply_turn c a turn db) (count_turn turn n)
                (rw f at e)
              ∙ apply_turn_apart row turn id db (turn_row-TurnAt nonce now row) f
        ]

-- A row that the key reads alone, with the value and for the same service, name and principal.
pub record ReadBy (c : Crypto) (master : String) (r : ReadableRow) (value : String) (row : Row)
    : Type 0 where
  pub read : ReadableRow
  pub reads : readable row ≡ some read
  pub same_id : read.id ≡ r.id
  pub same_service : read.service ≡ r.service
  pub same_env_var : read.env_var ≡ r.env_var
  pub same_principal : read.principal ≡ r.principal
  pub opens :
      decrypt_row c master none read.key_id read.sealed (aad c read.env_var read.principal)
      ≡ some value

-- What is documented of the cipher and the key ids, and that no text of an encryption is empty.
pub record IsCipher (c : Crypto) (master : String) (previous : Option String) : Type 0 where
  pub sound : IsSound c master previous
  pub key_id : (c.key_id master == "") ≡ false
  pub sealed :
      (nonce : ℕ) (bound : Option String) (value : String)
      → (((c.encrypt master nonce bound value).iv == "") ≡ false)
        × (((c.encrypt master nonce bound value).auth_tag == "") ≡ false)

module _ (c : Crypto) (master : String) (previous : Option String) {D : Type 0} (a : Adapter D)
    (laws : IsRowStore a) (cipher : IsCipher c master previous) where
  merged :
      (id : String) (row row' : Row) (db : D)
      → find_row id (a.list db) ≡ some row
      → find_row id (a.list (a.update id row' db)) ≡ some (merge row row')
  merged id row row' db e =
      laws id id row' db
      ∙ (rw ((string_eq.test_iff id id).1 refl) (ap (λ o. o >>= λ old. some (merge old row')) e))

  Leaves-ReadBy :
      (id : String) (row : Row) (r : ReadableRow) (value : String) (turn : Turn) (db : D)
      → readable row ≡ some r
      → id ≡ r.id
      → find_row id (a.list db) ≡ some row
      → Leaves c master row r value turn
      → (row' : Row) × (find_row id (a.list (apply_turn c a turn db)) ≡ some row')
        × ReadBy c master r value row'
  Leaves-ReadBy id row r value Turn.unreadable db e i f l = elim l [ ]
  Leaves-ReadBy id row r value Turn.already_current db e i f l = (
    row,
    f,
    record {
      read = r;
      reads = e;
      same_id = refl;
      same_service = refl;
      same_env_var = refl;
      same_principal = refl;
      opens = l;
    },
  )
  Leaves-ReadBy id row r value (stamped j row') db e i f (at, is_row', l) =
      let kid = c.key_id master in
      let new = merge row (record row { key_id = text kid }) in
      (
        new,
        ap (λ k. find_row id (a.list (a.update k row' db))) (at ∙ sym i)
            ∙ merged id row row' db f
            ∙ ap (λ w. some (merge row w)) is_row',
        record {
          read = record r { key_id = some kid };
          reads =
              Reads-readable new (record r { key_id = some kid })
                (Reads-stamped row r kid cipher.key_id (readable-Reads row e));
          same_id = refl;
          same_service = refl;
          same_env_var = refl;
          same_principal = refl;
          opens = l;
        },
      )
  Leaves-ReadBy id row r value (rewritten j row') db e i f (at, nonce, now, is_row', l) =
      let kid = c.key_id master in
      let bound = aad c r.env_var r.principal in
      let sealed = c.encrypt master nonce bound value in
      let fresh = row_of r.service r.env_var sealed kid now r.principal none in
      let texts = cipher.sealed nonce bound value in
      (
        merge row fresh,
        ap (λ k. find_row id (a.list (a.update k row' db))) (at ∙ sym i)
            ∙ merged id row row' db f
            ∙ ap (λ w. some (merge row w)) is_row',
        record {
          read = record r { key_id = some kid; sealed = sealed };
          reads =
              Reads-readable (merge row fresh) (record r { key_id = some kid; sealed = sealed })
                (Reads-rewritten row r kid sealed now cipher.key_id texts.0 texts.1
                  (readable-Reads row e));
          same_id = refl;
          same_service = refl;
          same_env_var = refl;
          same_principal = refl;
          opens = l;
        },
      )

  rotate_rows-ReadBy :
      (nonce now : ℕ) (rows : List Row) (id : String) (row : Row) (r : ReadableRow) (value : String)
      (db : D) (n : RotationCounts)
      → readable row ≡ some r
      → decrypt_row c master previous r.key_id r.sealed (aad c r.env_var r.principal) ≡ some value
      → Distinct rows
      → find_row id rows ≡ some row
      → find_row id (a.list db) ≡ some row
      → (row' : Row) × (find_row id (a.list (rotate_rows c a master previous nonce now rows db n).0)
          ≡ some row')
        × ReadBy c master r value row'
  unfolding rotate_rows
  rotate_rows-ReadBy nonce now [] id row r value db n e d u g f = cc
  rotate_rows-ReadBy nonce now (x ∷ rows) id row r value db n e d (new, u) g f =
      let turn = turn_row c master previous nonce now x in
      elim (Bool-cases (same? (non_empty x.id) (some id))) [
        | inr other ↦
            rotate_rows-ReadBy (suc nonce) now rows id row r value (apply_turn c a turn db)
              (count_turn turn n) e d u (rw other at g)
              (apply_turn_apart c master previous a laws x turn id db
                  (turn_row-TurnAt c master previous nonce now x) other
                ∙ f)
        | inl here ↦
            (let is_row : x ≡ row = some-injective x row (rw here at g) in
              let x_id = eq_of_same (non_empty x.id) id here in
              let x_reads : readable x ≡ some r = ap readable is_row ∙ e in
              let i : id ≡ r.id =
                some-injective id r.id (sym x_id ∙ (readable-Reads x x_reads).id) in
              let (row', f', v) =
                Leaves-ReadBy id x r value turn db x_reads i (f ∙ ap some (sym is_row))
                  (turn_row-Leaves c master previous nonce now x cipher.sound x_reads d) in
              let rest_new : find_row id rows ≡ none = subst (λ o. IsNew o rows) x_id new in
              (
                row',
                rotate_rows_apart c master previous a laws (suc nonce) now rows id
                      (apply_turn c a turn db) (count_turn turn n) rest_new
                    ∙ f',
                v,
              ))
      ]

-- Under the cipher, the key ids and the adapter as documented, where no two listed rows have one id:
-- after `rotate`, under the id of a row that the store could decrypt, there is a row that the current
-- key decrypts alone to the same value, for the same service, name and principal.
pub rotate-ReadBy :
    (c : Crypto) {D : Type 0} (a : Adapter D) (nonce now : ℕ) (db : D) (s : CredentialStore)
    (id value : String) {master : String} {row : Row} {r : ReadableRow}
    → s.master_key ≡ some master
    → IsRowStore a
    → IsCipher c master s.previous_key
    → Distinct (a.list db)
    → find_row id (a.list db) ≡ some row
    → readable row ≡ some r
    → decrypt_row c master s.previous_key r.key_id r.sealed (aad c r.env_var r.principal)
      ≡ some value
    → (row' : Row) × (find_row id (a.list (rotate c a nonce now db s).1) ≡ some row')
      × ReadBy c master r value row'
unfolding rotate
rotate-ReadBy c a nonce now db s id value {master} {row} {r} k laws cipher u f e d =
    let zero_counts : RotationCounts = record {
      rotated = 0;
      already_current = 0;
      unreadable = 0;
    } in
    let loop = (rotate_rows c a master s.previous_key nonce now (a.list db) db zero_counts).0 in
    subst
      (λ db'. (row' : Row) × (find_row id (a.list db') ≡ some row') × ReadBy c master r value row')
      (sym (simp (k, rotate) refl))
      (rotate_rows-ReadBy c master s.previous_key a laws cipher nonce now (a.list db) id row r value
        db zero_counts e d u f f)
