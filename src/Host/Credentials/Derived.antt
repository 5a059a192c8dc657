-- ===== src/Host/Credentials/Derived.antt =====
-- The one-use values of host/credentials/store.ts, which all instances of a host share through the
-- adapter. The digest behind a row's id is an argument, and so is the adapter.
pub mod Once
use almadar_runtime.Base.{
  ℕ, ◌≡◌, Bool, true, false, ◌&&◌, List, Option, none, some, String, leb, is_some, ◌==◌,
  if◌then◌else◌, string_eq, ◌>>=◌,
}
use almadar_runtime.Host.Credentials.{
  Sealed, Crypto, Field, absent, text, number, non_empty, string_of, optional, enabled,
  CredentialStore, aad, decrypt_row,
}

pub record DerivedRow : Type 0 where
  pub env_var : Field
  pub ciphertext : Field
  pub iv : Field
  pub auth_tag : Field
  pub key_id : Field
  pub expires_at : Field
  pub principal : Field

-- The adapter over the rows of the derived secrets' entity type. `write_where`, where the adapter has
-- it, is a delete that says whether it deleted the row.
pub record DerivedAdapter (D : Type 0) : Type 0 where
  pub get_by_id : String → D → Option DerivedRow
  pub create : String → DerivedRow → D → D
  pub update : String → DerivedRow → D → D
  pub delete : String → D → D
  pub conditional : Bool
  pub write_where : Option (String → D → D × Bool)

abbrev pub shares_derived : {D : Type 0} → Option (DerivedAdapter D) → CredentialStore → Bool
shares_derived keeps s = enabled s && is_some keeps

-- The row's removal, and whether the instance that asked for it has the value.
unfoldable pub claim : {D : Type 0} → DerivedAdapter D → String → D → D × Bool
claim a id db = elim (if a.conditional then a.write_where else none) [
  | none ↦ (a.delete id db, true)
  | some write_where ↦ write_where id db
]

module _ (c : Crypto) where
  abbrev pub derived_row : String → ℕ → String → String → ℕ → Option String → DerivedRow
  derived_row master nonce name value expires_at principal =
      let sealed = c.encrypt master nonce (aad c name principal) value in
      record {
        env_var = text name;
        ciphertext = text sealed.ciphertext;
        iv = text sealed.iv;
        auth_tag = text sealed.auth_tag;
        key_id = text (c.key_id master);
        expires_at = number expires_at;
        principal = optional principal;
      }

  -- What a row that was taken is worth at a time.
  unfoldable pub open_derived :
      String → Option String → String → Option String → ℕ → DerivedRow → Option String
  unfolding decrypt_row
  open_derived master previous name principal now row = elim row.expires_at [
    | absent ↦ none
    | text s ↦ none
    | number expires_at ↦ if leb expires_at now then none else (do
      ciphertext ← string_of row.ciphertext
      iv ← non_empty row.iv
      auth_tag ← non_empty row.auth_tag
      decrypt_row c master previous (non_empty row.key_id)
          (record { ciphertext = ciphertext; iv = iv; auth_tag = auth_tag }) (aad c name principal))
  ]

module _ (c : Crypto) (digest : String → String) where
  abbrev pub derived_id : String → Option String → String
  derived_id name principal = digest (c.storage_key name principal)

  -- `holdDerived` of a host that shares.
  unfoldable pub hold_derived :
      {D : Type 0} → DerivedAdapter D → String → ℕ → String → String → ℕ → Option String → D → D
  hold_derived a master nonce name value expires_at principal db =
      let id = derived_id name principal in
      let row = derived_row c master nonce name value expires_at principal in
      if is_some (a.get_by_id id db) then a.update id row db else a.create id row db

  -- `takeDerived` once the row has been read; another instance may have acted in between.
  unfoldable pub finish_take :
      {D : Type 0}
      → DerivedAdapter D
      → String
      → Option String
      → String
      → Option String
      → ℕ
      → Option DerivedRow
      → D
      → D × Option String
  unfolding claim open_derived
  finish_take a master previous name principal now read db = elim read [
    | none ↦ (db, none)
    | some row ↦
        (let (db', mine) = claim a (derived_id name principal) db in
          (db', if mine then open_derived c master previous name principal now row else none))
  ]

  -- `takeDerived` of a host that shares, with no other instance at work.
  unfoldable pub take_derived :
      {D : Type 0}
      → DerivedAdapter D
      → String
      → Option String
      → String
      → Option String
      → ℕ
      → D
      → D × Option String
  unfolding finish_take
  take_derived a master previous name principal now db =
      finish_take a master previous name principal now (a.get_by_id (derived_id name principal) db)
        db
