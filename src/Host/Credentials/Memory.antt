-- ===== src/Host/Credentials/Memory.antt =====
-- What a store resolves after a write.
use almadar_runtime.Base.{
  ℕ, ◌≡◌, refl, false, inl, inr, Option, none, some, String, get, or_else, is_some, ◌==◌, string_eq,
  ◌>>=◌, Option-cases, get-put, get-delete,
}
use almadar_runtime.Host.Credentials.{
  Crypto, Adapter, StoredCredential, CredentialStore, ok, warmed_store, resolve_stored, label_of,
  is_blank,
}
use almadar_runtime.Host.Credentials.Writes.{
  label_kept, write_credential, set_credential, remove_credential,
}

module _ (c : Crypto) {D : Type 0} (a : Adapter D) where
  pub set_credential_ok :
      (master service env_var value : String) (principal label : Option String) (nonce now : ℕ)
      (db : D) (s : CredentialStore)
      → s.master_key ≡ some master
      → is_blank principal ≡ false
      → is_blank label ≡ false
      → set_credential c a service env_var value principal label nonce now db s ≡ (
        ok tt,
        (write_credential c a master service env_var value principal label nonce now db
            (warmed_store c a db s)).0,
        (write_credential c a master service env_var value principal label nonce now db
            (warmed_store c a db s)).1,
      )
  unfolding set_credential
  set_credential_ok master service env_var value principal label nonce now db s k p l =
      simp (p, l, k, set_credential) refl

  -- Where the call is right and there is a master key, a credential that is set resolves to its value
  -- and has the label that was given, else the one that it had; a credential of another identity
  -- resolves as it did in the warm store.
  pub resolve_stored-set_credential :
      (master service env_var value : String) (principal label : Option String) (nonce now : ℕ)
      (db : D) (s : CredentialStore)
      → s.master_key ≡ some master
      → is_blank principal ≡ false
      → is_blank label ≡ false
      → let s₁ = warmed_store c a db s in
        let (r, db', s') =
          set_credential c a service env_var value principal label nonce now db s in
        (r ≡ ok tt)
        × (resolve_stored c env_var principal s' ≡ some value)
        × (label_of c env_var principal s' ≡ or_else label (label_of c env_var principal s₁))
        × ((name : String) (owner : Option String)
            → (c.storage_key env_var principal == c.storage_key name owner) ≡ false
            → resolve_stored c name owner s' ≡ resolve_stored c name owner s₁)
  unfolding write_credential resolve_stored label_of
  resolve_stored-set_credential master service env_var value principal label nonce now db s k p l =
      let key = c.storage_key env_var principal in
      let same = (string_eq.test_iff key key).1 refl in
      rw (set_credential_ok master service env_var value principal label nonce now db s k p l) (
        refl,
        rw (get-put key key, same) refl,
        rw (get-put key key, same) (kept label (get key (warmed_store c a db s).by_identity)),
        λ name owner n. rw (get-put key (c.storage_key name owner), n) refl,
      )
    where
      kept :
          (label : Option String) (o : Option StoredCredential)
          → label_kept c a label o ≡ or_else label (o >>= λ e. e.label)
      kept none none = refl
      kept (some x) none = refl
      kept label (some e) = refl

  -- A credential that is removed no longer resolves, the result says whether it was there, and a
  -- credential of another identity resolves as before.
  pub resolve_stored-remove_credential :
      (env_var : String) (principal : Option String) (db : D) (s : CredentialStore)
      → let s₁ = warmed_store c a db s in
        let (r, db', s') = remove_credential c a env_var principal db s in
        (r ≡ is_some (resolve_stored c env_var principal s₁))
        × (resolve_stored c env_var principal s' ≡ none)
        × ((name : String) (owner : Option String)
            → (c.storage_key env_var principal == c.storage_key name owner) ≡ false
            → resolve_stored c name owner s' ≡ resolve_stored c name owner s₁)
  unfolding remove_credential resolve_stored
  resolve_stored-remove_credential env_var principal db s =
      let key = c.storage_key env_var principal in
      let s₁ = warmed_store c a db s in
      let same = (string_eq.test_iff key key).1 refl in
      elim (Option-cases (get key s₁.by_identity)) [
        | inl missing ↦
            rw (missing, remove_credential) (refl, rw missing refl, λ name owner n. refl)
        | inr (e, found) ↦
            rw (found, remove_credential)
              (
                refl,
                rw (get-delete key key s₁.by_identity, same) refl,
                λ name owner n.
                    rw (get-delete key (c.storage_key name owner) s₁.by_identity, n) refl,
              )
      ]
