-- ===== src/Host/Credentials/Restart.antt =====
-- The row that `set` writes, as `warm` reads it when the program starts again.
use almadar_runtime.Base.{
  ℕ, ◌≡◌, refl, ap, ◌∙◌, false, List, [], ◌∷◌, ◌++◌, Option, none, some, String, get, put, ◌==◌,
  string_eq, get-put,
}
use almadar_runtime.Host.Credentials.{
  Sealed, Crypto, Row, ReadableRow, readable, text, non_empty, aad, decrypt_row, row_of, warm_row,
  Identities, is_blank, optional, principal_of, number_or_zero, Adapter, CredentialStore, warm,
  warm_rows, warmed_store,
}
use almadar_runtime.Host.Credentials.Writes.{upsert, write_credential, set_credential}
use almadar_runtime.Host.Credentials.Memory.{set_credential_ok}
use almadar_runtime.Host.Credentials.Rotation.{IsSound, current_only}

principal_of-optional :
    (principal : Option String)
    → is_blank principal ≡ false
    → principal_of (optional principal) ≡ some principal
principal_of-optional none e = refl
principal_of-optional (some p) e = rw e refl

non_empty-optional :
    (label : Option String) → is_blank label ≡ false → non_empty (optional label) ≡ label
non_empty-optional none e = refl
non_empty-optional (some l) e = rw e refl

non_empty-text : (s : String) → (s == "") ≡ false → non_empty (text s) ≡ some s
non_empty-text s e = rw e refl

readable_written :
    (id service env_var key_id : String) (sealed : Sealed) (now : ℕ)
    (principal label : Option String)
    → (id == "") ≡ false
    → (service == "") ≡ false
    → (env_var == "") ≡ false
    → is_blank principal ≡ false
    → (key_id == "") ≡ false
    → (sealed.iv == "") ≡ false
    → (sealed.auth_tag == "") ≡ false
    → readable (record (row_of service env_var sealed key_id now principal label) { id = text id })
      ≡ some (record {
        id = id;
        service = service;
        env_var = env_var;
        sealed = sealed;
        key_id = some key_id;
        principal = principal;
      })
unfolding readable
readable_written id service env_var key_id sealed now principal label i s e p k v t =
    simp (i, s, e, k, v, t, principal_of-optional principal p, readable) refl

module _ (c : Crypto) where
  warm_row-put :
      (master : String) (previous : Option String) (row : Row) (m : Identities) {r : ReadableRow}
      {value : String}
      → readable row ≡ some r
      → decrypt_row c master previous r.key_id r.sealed (aad c r.env_var r.principal) ≡ some value
      → warm_row c master previous row m
        ≡ put
            (c.storage_key r.env_var r.principal)
            (record {
              id = r.id;
              service = r.service;
              env_var = r.env_var;
              value = value;
              updated_at = number_or_zero row.updated_at;
              label = non_empty row.label;
              principal = r.principal;
            })
            m
  unfolding warm_row
  warm_row-put master previous row m e d = simp (e, d, warm_row) refl

  -- A row that was written under the current key, with an id, is read as the credential.
  warm_row-row_of :
      (master : String) (previous : Option String) (id service env_var value : String)
      (principal label : Option String) (nonce now : ℕ) (m : Identities)
      → IsSound c master previous
      → (id == "") ≡ false
      → (service == "") ≡ false
      → (env_var == "") ≡ false
      → is_blank principal ≡ false
      → is_blank label ≡ false
      → (c.key_id master == "") ≡ false
      → let sealed = c.encrypt master nonce (aad c env_var principal) value in
        (sealed.iv == "") ≡ false
        → (sealed.auth_tag == "") ≡ false
        → let row = row_of service env_var sealed (c.key_id master) now principal label in
          let key = c.storage_key env_var principal in
          get key (warm_row c master previous (record row { id = text id }) m)
          ≡ some (record {
            id = id;
            service = service;
            env_var = env_var;
            value = value;
            updated_at = now;
            label = label;
            principal = principal;
          })
  warm_row-row_of master previous id service env_var value principal label nonce now m sound i s e p
        l k v t =
      let bound = aad c env_var principal in
      let sealed = c.encrypt master nonce bound value in
      let key = c.storage_key env_var principal in
      let opened : decrypt_row c master previous (some (c.key_id master)) sealed bound
          ≡ some value =
        current_only c master previous (c.key_id master) sealed bound sound refl
        ∙ sound.opens nonce bound value in
      let row = record (row_of service env_var sealed (c.key_id master) now principal label) {
        id = text id;
      } in
      ap (get key) (
        warm_row-put master previous row m
          (readable_written id service env_var (c.key_id master) sealed now principal label i s e p
            k v t)
          opened)
      ∙ (rw (get-put key key, (string_eq.test_iff key key).1 refl, non_empty-optional label l) refl)

  warm_rows-append :
      (master : String) (previous : Option String) (rows : List Row) (row : Row) (m : Identities)
      → warm_rows c master previous (rows ++ row ∷ []) m
        ≡ warm_row c master previous row (warm_rows c master previous rows m)
  unfolding warm_rows
  warm_rows-append master previous [] row m = refl
  warm_rows-append master previous (x ∷ rows) row m =
      warm_rows-append master previous rows row (warm_row c master previous x m)

  warm_with :
      {D : Type 0} (a : Adapter D) (db : D) (s : CredentialStore) {master : String}
      → s.master_key ≡ some master
      → (warm c a db s).0.by_identity ≡ warm_rows c master s.previous_key (a.list db) []
  unfolding warm
  warm_with a db s e = simp (e, warm) refl

  -- A program that starts again: for an adapter whose `create` adds the row, with a new id, after those
  -- that it lists, a credential that `set` stored for an identity without one is what `warm` reads under
  -- the identity in any other store with the same master key, its service, name, value, label and
  -- principal as they were set; under the cipher as documented, where no text that a row must have is
  -- empty.
  pub warm-set_credential :
      {D : Type 0} (a : Adapter D) (master service env_var value : String)
      (principal label : Option String) (nonce now : ℕ) (db : D) (s reopened : CredentialStore)
      → s.master_key ≡ some master
      → reopened.master_key ≡ some master
      → get (c.storage_key env_var principal) (warmed_store c a db s).by_identity ≡ none
      → ((row : Row)
          → a.list (a.create row db).0
            ≡ a.list db ++ (record row { id = text (a.create row db).1 }) ∷ [])
      → ((row : Row) → ((a.create row db).1 == "") ≡ false)
      → IsSound c master reopened.previous_key
      → (service == "") ≡ false
      → (env_var == "") ≡ false
      → is_blank principal ≡ false
      → is_blank label ≡ false
      → (c.key_id master == "") ≡ false
      → let sealed = c.encrypt master nonce (aad c env_var principal) value in
        (sealed.iv == "") ≡ false
        → (sealed.auth_tag == "") ≡ false
        → let db' = (set_credential c a service env_var value principal label nonce now db s).1 in
          (id : String) × (get
              (c.storage_key env_var principal)
              (warm c a db' reopened).0.by_identity
            ≡ some (record {
              id = id;
              service = service;
              env_var = env_var;
              value = value;
              updated_at = now;
              label = label;
              principal = principal;
            }))
  unfolding write_credential
  warm-set_credential a master service env_var value principal label nonce now db s reopened k k'
        fresh added named sound v e p l kid iv tag =
      let sealed = c.encrypt master nonce (aad c env_var principal) value in
      let row = row_of service env_var sealed (c.key_id master) now principal label in
      let key = c.storage_key env_var principal in
      let id = (a.create row db).1 in
      let db' = (set_credential c a service env_var value principal label nonce now db s).1 in
      let written : db' ≡ (a.create row db).0 =
        ap (λ r. r.1)
          (set_credential_ok c a master service env_var value principal label nonce now db s k p l)
        ∙ ap (λ o. (upsert c a o row db).0) fresh in
      (
        id,
        ap (get key) (
              warm_with a db' reopened k'
              ∙ ap (λ d. warm_rows c master reopened.previous_key (a.list d) []) written
              ∙ ap (λ rows. warm_rows c master reopened.previous_key rows []) (added row)
              ∙ warm_rows-append master reopened.previous_key (a.list db)
                  (record row { id = text id }) [])
            ∙ warm_row-row_of master reopened.previous_key id service env_var value principal label
                nonce now (warm_rows c master reopened.previous_key (a.list db) []) sound
                (named row) v e p l kid iv tag,
      )
