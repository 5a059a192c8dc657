-- ===== src/Host/Credentials/Writes.antt =====
-- The writes of host/credentials/store.ts: `set`, `remove` and `rotate`.
use almadar_runtime.Base.{
  ℕ, suc, ◌+◌, Bool, true, false, ◌&&◌, not, List, [], ◌∷◌, Option, none, some, String, get, put,
  delete, or_else, same?, is_some, if◌then◌else◌, string_eq,
}
use almadar_runtime.Host.Credentials.{
  Crypto, text, Row, Adapter, ReadableRow, readable, StoredCredential, CredentialStore, notify,
  no_master_key, empty_principal, empty_label, Result, ok, err, aad, decrypt_row, warm,
  warmed_store, is_blank, row_of,
}

module _ (c : Crypto) {D : Type 0} (a : Adapter D) where
  -- The row's new id and the database after the write.
  abbrev pub upsert : Option StoredCredential → Row → D → D × String
  upsert none row db = a.create row db
  upsert (some e) row db = (a.update e.id row db, e.id)

  abbrev pub label_kept : Option String → Option StoredCredential → Option String
  label_kept label none = label
  label_kept label (some e) = or_else label e.label

  -- `set` with a master key, on a store that is warm.
  unfoldable pub write_credential :
      String
      → String
      → String
      → String
      → Option String
      → Option String
      → ℕ
      → ℕ
      → D
      → CredentialStore
      → D × CredentialStore
  write_credential master service env_var value principal label nonce now db s =
      let storage_key = c.storage_key env_var principal in
      let sealed = c.encrypt master nonce (aad c env_var principal) value in
      let existing = get storage_key s.by_identity in
      let (db', id) =
        upsert existing (row_of service env_var sealed (c.key_id master) now principal label) db in
      (
        db',
        notify principal (record s {
          by_identity =
              put storage_key
                (record {
                  id = id;
                  service = service;
                  env_var = env_var;
                  value = value;
                  updated_at = now;
                  label = label_kept label existing;
                  principal = principal;
                })
                s.by_identity;
        }),
      )

  unfoldable pub set_credential :
      String
      → String
      → String
      → Option String
      → Option String
      → ℕ
      → ℕ
      → D
      → CredentialStore
      → Result (Unit {0}) × D × CredentialStore
  unfolding warm write_credential
  set_credential service env_var value principal label nonce now db s =
      if is_blank principal
      then (err empty_principal, db, s)
      else if is_blank label
      then (err empty_label, db, s)
      else (elim s.master_key [
        | none ↦ (err no_master_key, db, warmed_store c a db s)
        | some master ↦
            (let (db', s') =
                write_credential master service env_var value principal label nonce now db
                  (warmed_store c a db s) in
              (ok tt, db', s'))
      ])

  unfoldable pub remove_credential :
      String → Option String → D → CredentialStore → Bool × D × CredentialStore
  unfolding warm
  remove_credential env_var principal db s =
      let s₁ = warmed_store c a db s in
      elim (get (c.storage_key env_var principal) s₁.by_identity) [
        | none ↦ (false, db, s₁)
        | some e ↦ (
          true,
          a.delete e.id db,
          notify principal
              (record s₁ { by_identity = delete (c.storage_key env_var principal) s₁.by_identity }),
        )
      ]

-- What `rotate` does with a row: nothing, or the update that it writes.
pub data Turn : Type 0 where
  unreadable : Turn
  already_current : Turn
  stamped : String → Row → Turn
  rewritten : String → Row → Turn

module _ (c : Crypto) where
  -- A readable row that decrypts to the value.
  unfoldable pub turn_of : String → Option String → ℕ → ℕ → Row → ReadableRow → String → Turn
  unfolding decrypt_row
  turn_of master previous nonce now row r value =
      let bound = aad c r.env_var r.principal in
      if same? r.key_id (some (c.key_id master))
      then already_current
      else if not (is_some r.key_id)
          && is_some (decrypt_row c master previous (some (c.key_id master)) r.sealed bound)
      then stamped r.id (record row { key_id = text (c.key_id master) })
      else rewritten r.id (
          row_of r.service r.env_var (c.encrypt master nonce bound value) (c.key_id master) now
            r.principal none)

  unfoldable pub turn_row : String → Option String → ℕ → ℕ → Row → Turn
  unfolding turn_of decrypt_row readable
  turn_row master previous nonce now row = elim (readable row) [
    | none ↦ unreadable
    | some r ↦
        elim (decrypt_row c master previous r.key_id r.sealed (aad c r.env_var r.principal)) [
          | none ↦ unreadable
          | some value ↦ turn_of master previous nonce now row r value
        ]
  ]

pub record RotationCounts : Type 0 where
  pub rotated : ℕ
  pub already_current : ℕ
  pub unreadable : ℕ

abbrev pub count_turn : Turn → RotationCounts → RotationCounts
count_turn Turn.unreadable n = record n { unreadable = n.unreadable + 1 }
count_turn Turn.already_current n = record n { already_current = n.already_current + 1 }
count_turn (stamped id row) n = record n { already_current = n.already_current + 1 }
count_turn (rewritten id row) n = record n { rotated = n.rotated + 1 }

module _ (c : Crypto) {D : Type 0} (a : Adapter D) where
  abbrev pub apply_turn : Turn → D → D
  apply_turn Turn.unreadable db = db
  apply_turn Turn.already_current db = db
  apply_turn (stamped id row) db = a.update id row db
  apply_turn (rewritten id row) db = a.update id row db

  -- The loop over the rows; each row draws its own nonce.
  unfoldable pub rotate_rows :
      String → Option String → ℕ → ℕ → List Row → D → RotationCounts → D × RotationCounts
  unfolding turn_row
  rotate_rows master previous nonce now [] db n = (db, n)
  rotate_rows master previous nonce now (row ∷ rows) db n =
      let turn = turn_row c master previous nonce now row in
      rotate_rows master previous (suc nonce) now rows (apply_turn turn db) (count_turn turn n)

  unfoldable pub rotate : ℕ → ℕ → D → CredentialStore → Result RotationCounts × D × CredentialStore
  unfolding rotate_rows warm
  rotate nonce now db s = elim s.master_key [
    | none ↦ (err no_master_key, db, s)
    | some master ↦
        (let (db', counts) =
            rotate_rows master s.previous_key nonce now (a.list db) db
              (record { rotated = 0; already_current = 0; unreadable = 0 }) in
          (ok counts, db', notify none (warm c a db' s).0))
  ]
