-- ===== src/Host/Credentials/Derived/Once.antt =====
-- A value that is held is taken once.
use almadar_runtime.Base.{
  ℕ, ◌≡◌, refl, ap, ◌∙◌, Bool, true, false, inl, inr, Option, none, some, String, leb, is_some,
  ◌==◌, if◌then◌else◌, string_eq, Option-cases, if_cases,
}
use almadar_runtime.Host.Credentials.{Crypto, aad}
use almadar_runtime.Host.Credentials.Rotation.{IsSound, current_only}
use almadar_runtime.Host.Credentials.Derived.{
  DerivedRow, DerivedAdapter, claim, derived_id, derived_row, hold_derived, open_derived,
  finish_take, take_derived,
}

-- What an adapter documents of its rows: one that is written is read, and one that a delete was asked
-- for is there no more, whoever deleted it.
pub record IsAdapter {D : Type 0} (a : DerivedAdapter D) : Type 0 where
  pub created :
      (id : String) (row : DerivedRow) (db : D) → a.get_by_id id (a.create id row db) ≡ some row
  pub updated :
      (id : String) (row : DerivedRow) (db : D) → a.get_by_id id (a.update id row db) ≡ some row
  pub deleted : (id : String) (db : D) → a.get_by_id id (a.delete id db) ≡ none
  pub deleted_where :
      (w : String → D → D × Bool) (id : String) (db : D)
      → a.write_where ≡ some w
      → (a.get_by_id id (w id db).0 ≡ none) × ((w id db).1 ≡ is_some (a.get_by_id id db))

module _ {D : Type 0} (a : DerivedAdapter D) (laws : IsAdapter a) where
  claim_gone : (id : String) (db : D) → a.get_by_id id (claim a id db).0 ≡ none
  unfolding claim
  claim_gone id db = elim (Option-cases (if a.conditional then a.write_where else none)) [
    | inl plain ↦ simp (plain, claim) (laws.deleted id db)
    | inr (w, e) ↦ simp (e, claim) (laws.deleted_where w id db (chosen a.conditional e)).0
  ]
    where
      chosen :
          (b : Bool) {o : Option (String → D → D × Bool)} {w : String → D → D × Bool}
          → (if b then o else none) ≡ some w
          → o ≡ some w
      chosen true e = e
      chosen false e = cc

  claim_of_conditional :
      (id : String) (db : D) {w : String → D → D × Bool}
      → a.conditional ≡ true
      → a.write_where ≡ some w
      → (claim a id db).1 ≡ is_some (a.get_by_id id db)
  unfolding claim
  claim_of_conditional id db {w} b e = simp (b, e, claim) (laws.deleted_where w id db e).1

  claim_present :
      (id : String) (db : D) → is_some (a.get_by_id id db) ≡ true → (claim a id db).1 ≡ true
  unfolding claim
  claim_present id db there = elim (Option-cases (if a.conditional then a.write_where else none)) [
    | inl plain ↦ simp (plain, claim) refl
    | inr (w, e) ↦ simp (e, claim) ((laws.deleted_where w id db (chosen a.conditional e)).1 ∙ there)
  ]
    where
      chosen :
          (b : Bool) {o : Option (String → D → D × Bool)} {w : String → D → D × Bool}
          → (if b then o else none) ≡ some w
          → o ≡ some w
      chosen true e = e
      chosen false e = cc

module _ (c : Crypto) (digest : String → String) {D : Type 0} (a : DerivedAdapter D) where
  take_missing :
      (master : String) (previous : Option String) (name : String) (principal : Option String)
      (now : ℕ) (db : D)
      → a.get_by_id (derived_id c digest name principal) db ≡ none
      → take_derived c digest a master previous name principal now db ≡ (db, none)
  unfolding take_derived finish_take
  take_missing master previous name principal now db e = simp (e, finish_take) refl

  take_present :
      (master : String) (previous : Option String) (name : String) (principal : Option String)
      (now : ℕ) (db : D) {row : DerivedRow}
      → a.get_by_id (derived_id c digest name principal) db ≡ some row
      → take_derived c digest a master previous name principal now db ≡ (
        (claim a (derived_id c digest name principal) db).0,
        if (claim a (derived_id c digest name principal) db).1
            then open_derived c master previous name principal now row
            else none,
      )
  unfolding take_derived finish_take
  take_present master previous name principal now db e = simp (e, finish_take) refl

  -- Under the adapter as documented, a value that was taken, expired or not, cannot be taken again, at
  -- any time.
  pub take_derived-take_derived :
      (master : String) (previous : Option String) (name : String) (principal : Option String)
      (now later : ℕ) (db : D)
      → IsAdapter a
      → let db' = (take_derived c digest a master previous name principal now db).0 in
        take_derived c digest a master previous name principal later db' ≡ (db', none)
  take_derived-take_derived master previous name principal now later db laws =
      take_missing master previous name principal later
        (take_derived c digest a master previous name principal now db).0
        (elim (Option-cases (a.get_by_id (derived_id c digest name principal) db)) [
          | inl e ↦
              ap (λ p. a.get_by_id (derived_id c digest name principal) p.0)
                (take_missing master previous name principal now db e)
              ∙ e
          | inr (row, e) ↦ taken row e
        ])
    where
      taken :
          (row : DerivedRow)
          → a.get_by_id (derived_id c digest name principal) db ≡ some row
          → a.get_by_id
              (derived_id c digest name principal)
              (take_derived c digest a master previous name principal now db).0
            ≡ none
      taken row e =
          ap (λ p. a.get_by_id (derived_id c digest name principal) p.0)
            (take_present master previous name principal now db e)
          ∙ claim_gone a laws (derived_id c digest name principal) db

  -- Where the adapter has the conditional delete, of two instances that read the row of a held value
  -- before either deletes it, the second to delete has no value.
  pub finish_take-finish_take :
      (master : String) (previous : Option String) (name : String) (principal : Option String)
      (now later : ℕ) (db : D) (read : Option DerivedRow) {w : String → D → D × Bool}
      → IsAdapter a
      → a.conditional ≡ true
      → a.write_where ≡ some w
      → is_some read ≡ true
      → let db' = (finish_take c digest a master previous name principal now read db).0 in
        (finish_take c digest a master previous name principal later read db').1 ≡ none
  unfolding finish_take
  finish_take-finish_take master previous name principal now later db none laws b e there = refl
  finish_take-finish_take master previous name principal now later db (some row) laws b e there =
      let id = derived_id c digest name principal in
      let db' = (claim a id db).0 in
      rw (claim_of_conditional a laws id db' b e, claim_gone a laws id db) refl

  open_fresh :
      (master : String) (previous : Option String) (nonce : ℕ) (name value : String)
      (expires_at now : ℕ) (principal : Option String)
      → IsSound c master previous
      → (c.key_id master == "") ≡ false
      → ((c.encrypt master nonce (aad c name principal) value).iv == "") ≡ false
      → ((c.encrypt master nonce (aad c name principal) value).auth_tag == "") ≡ false
      → open_derived c master previous name principal now
          (derived_row c master nonce name value expires_at principal)
        ≡ (if leb expires_at now then none else some value)
  unfolding open_derived
  open_fresh master previous nonce name value expires_at now principal sound k v t =
      let bound = aad c name principal in
      let opened =
        current_only c master previous (c.key_id master) (c.encrypt master nonce bound value) bound
          sound refl
        ∙ sound.opens nonce bound value in
      simp (k, v, t) (ap (λ (o : Option String). if leb expires_at now then none else o) opened)

  -- Under the cipher and the adapter as documented, a value that is held and then taken is the value
  -- that was held where its time is not over, and nothing where it is, whatever was held under its name
  -- before.
  pub take_derived-hold_derived :
      (master : String) (previous : Option String) (nonce : ℕ) (name value : String)
      (expires_at now : ℕ) (principal : Option String) (db : D)
      → IsSound c master previous
      → IsAdapter a
      → (c.key_id master == "") ≡ false
      → ((c.encrypt master nonce (aad c name principal) value).iv == "") ≡ false
      → ((c.encrypt master nonce (aad c name principal) value).auth_tag == "") ≡ false
      → (take_derived c digest a master previous name principal now
          (hold_derived c digest a master nonce name value expires_at principal db)).1
        ≡ (if leb expires_at now then none else some value)
  unfolding hold_derived
  take_derived-hold_derived master previous nonce name value expires_at now principal db sound laws
        k v t =
      let id = derived_id c digest name principal in
      let row = derived_row c master nonce name value expires_at principal in
      let db' = hold_derived c digest a master nonce name value expires_at principal db in
      let held : a.get_by_id id db' ≡ some row =
        if_cases (λ d. a.get_by_id id d ≡ some row) (is_some (a.get_by_id id db))
          (λ t. laws.updated id row db) (λ f. laws.created id row db) in
      ap (λ p. p.1) (take_present master previous name principal now db' held)
      ∙ (rw (claim_present a laws id db' (ap (λ o. is_some o) held))
          (open_fresh master previous nonce name value expires_at now principal sound k v t))
