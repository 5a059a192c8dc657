-- ===== src/Host/Secrets/Minted.antt =====
-- Values that live for a time.
use almadar_runtime.Base.{
  ℕ, ◌+◌, ◌≡◌, refl, ap, ◌∙◌, true, false, inl, inr, Option, none, some, String, get, delete, leb,
  ltb, or_else, or_else-none, ◌==◌, if◌then◌else◌, nat_eq, string_eq, Bool-cases, if_cases, get-put,
  get-delete, arith,
}
use almadar_runtime.Host.Credentials.{Crypto, CredentialStore, aad}
use almadar_runtime.Host.Credentials.Rotation.{IsSound}
use almadar_runtime.Host.Credentials.Derived.{DerivedAdapter, hold_derived, take_derived}
use almadar_runtime.Host.Credentials.Derived.Once.{IsAdapter, take_derived-hold_derived}
use almadar_runtime.Host.Secrets.{
  MintedValue, MintedMap, HttpSecrets, cache_for, with_cache, get_held, set_minted, take_held,
  HeldStore, store_id, get_secret, set_secret, Shared, sharing, hold_shared, hold_minted,
  hold_secret, take_shared, take_secret,
}

cache_for-with_cache :
    (store : Option ℕ) (m : MintedMap) (s : HttpSecrets)
    → cache_for store (with_cache store m s) ≡ m
cache_for-with_cache none m s = refl
cache_for-with_cache (some k) m s =
    rw (get-put k k m s.store_minted, (nat_eq.test_iff k k).1 refl) refl

self : (key : String) → (key == key) ≡ true
self key = (string_eq.test_iff key key).1 refl

get-set_minted :
    (key value : String) (ttl now : ℕ) (m : MintedMap)
    → get key (set_minted key value ttl now m)
      ≡ (if ttl == 0 then none else some (record { value = value; expires_at = now + ttl }))
get-set_minted key value ttl now m = elim (Bool-cases (ttl == 0)) [
  | inl t ↦ rw t (rw (get-delete key key m, self key) refl)
  | inr f ↦ rw f (rw (get-put key key, self key) refl)
]

-- The value of an entry at a time.
abbrev good : ℕ → Option MintedValue → Option String
good now none = none
good now (some held) = if ltb now held.expires_at then some held.value else none

get_held-good :
    (key : String) (now : ℕ) (m : MintedMap) (o : Option MintedValue)
    → (get_held key now m o).1 ≡ good now o
get_held-good key now m none = refl
get_held-good key now m (some held) =
    if_cases (λ (p : MintedMap × Option String). p.1 ≡ good now (some held))
      (ltb now held.expires_at) (λ t. rw t refl) (λ f. rw f refl)

take_held-good :
    (key : String) (now : ℕ) (m : MintedMap) (o : Option MintedValue)
    → (take_held key now m o).1 ≡ good now o
take_held-good key now m none = refl
take_held-good key now m (some held) = refl

get-take_held :
    (key : String) (now : ℕ) (m : MintedMap) {o : Option MintedValue}
    → get key m ≡ o
    → get key (take_held key now m o).0 ≡ none
get-take_held key now m {o = none} e = e
get-take_held key now m {o = some held} e = rw (get-delete key key m, self key) refl

-- A value that lives from now on, at a later time.
good_minted :
    (value : String) (ttl now later : ℕ)
    → good later
        (if ttl == 0 then none else some (record { value = value; expires_at = now + ttl }))
      ≡ (if ttl == 0 then none else if ltb later (now + ttl) then some value else none)
good_minted value ttl now later = elim (Bool-cases (ttl == 0)) [
  | inl t ↦ rw t refl
  | inr f ↦ rw f refl
]

module _ (c : Crypto) where
  get_secret-good :
      (name : String) (principal : Option String) (now : ℕ) (store : Option ℕ)
      (resolved : Option String) (s : HttpSecrets)
      → (get_secret c name principal now store resolved s).1
        ≡ or_else (good now (get (c.storage_key name principal) (cache_for store s))) resolved
  unfolding get_secret
  get_secret-good name principal now store resolved s =
      let key = c.storage_key name principal in
      ap (λ o. or_else o resolved)
        (get_held-good key now (cache_for store s) (get key (cache_for store s)))

  held_after_set :
      (name value : String) (ttl : ℕ) (principal : Option String) (now later : ℕ) (store : Option ℕ)
      (s : HttpSecrets)
      → good later (
          get
            (c.storage_key name principal)
            (cache_for store (set_secret c name value ttl principal now store s)))
        ≡ (if ttl == 0 then none else if ltb later (now + ttl) then some value else none)
  unfolding set_secret
  held_after_set name value ttl principal now later store s =
      let key = c.storage_key name principal in
      let m = cache_for store s in
      ap (λ t. good later (get key t))
        (cache_for-with_cache store (set_minted key value ttl now m) s)
      ∙ ap (good later) (get-set_minted key value ttl now m)
      ∙ good_minted value ttl now later

  -- A value that is set is what its name gives as long as its time is not over; from then on, and where
  -- its time is none, the name gives what the host resolves it to.
  pub get_secret-set_secret :
      (name value : String) (ttl : ℕ) (principal : Option String) (now later : ℕ) (store : Option ℕ)
      (resolved : Option String) (s : HttpSecrets)
      → (get_secret c name principal later store resolved
          (set_secret c name value ttl principal now store s)).1
        ≡ or_else
            (if ttl == 0 then none else if ltb later (now + ttl) then some value else none)
            resolved
  get_secret-set_secret name value ttl principal now later store resolved s =
      get_secret-good name principal later store resolved
        (set_secret c name value ttl principal now store s)
      ∙ ap (λ o. or_else o resolved) (held_after_set name value ttl principal now later store s)

-- What a host that shares relies on: the cipher, the adapter, and texts that are not empty.
pub record IsSharing (c : Crypto) {D : Type 0} (st : CredentialStore) (master : String)
    (keeps : DerivedAdapter D) : Type 0 where
  pub sound : IsSound c master st.previous_key
  pub adapter : IsAdapter keeps
  pub key_id : (c.key_id master == "") ≡ false
  pub sealed :
      (nonce : ℕ) (bound : Option String) (value : String)
      → (((c.encrypt master nonce bound value).iv == "") ≡ false)
        × (((c.encrypt master nonce bound value).auth_tag == "") ≡ false)

good_deleted : (key : String) (now : ℕ) (m : MintedMap) → good now (get key (delete key m)) ≡ none
good_deleted key now m = rw (get-delete key key m, self key) refl

alive :
    (value : String) (expires_at now : ℕ)
    → (if ltb now expires_at then some value else none)
      ≡ (if leb expires_at now then none else some value)
alive value expires_at now = ground arith

module _ (c : Crypto) (digest : String → String) {D : Type 0} where
  first_taken :
      (name value : String) (ttl : ℕ) (principal : Option String) (nonce now later : ℕ)
      (o : Option (Shared D)) (db : D) (m : MintedMap)
      → (ttl == 0) ≡ false
      → ((st : CredentialStore) (master : String) (keeps : DerivedAdapter D)
          → o ≡ some (st, master, keeps)
          → IsSharing c st master keeps)
      → or_else
          (take_shared c digest name principal later o
            (hold_shared c digest name value ttl principal nonce now o db)).1
          (good later (
            get
              (c.storage_key name principal)
              (hold_minted (c.storage_key name principal) value ttl now o m)))
        ≡ (if leb (now + ttl) later then none else some value)
  unfolding take_shared hold_shared
  first_taken name value ttl principal nonce now later none db m t h =
      ap (good later) (get-set_minted (c.storage_key name principal) value ttl now m)
      ∙ good_minted value ttl now later
      ∙ (rw t (alive value (now + ttl) later))
  first_taken name value ttl principal nonce now later (some (st, master, keeps)) db m t h =
      let i = h st master keeps refl in
      let sealed = i.sealed nonce (aad c name principal) value in
      let key = c.storage_key name principal in
      let rest = good later (get key (delete key m)) in
      let held : hold_shared c digest name value ttl principal nonce now (some (st, master, keeps))
            db
          ≡ hold_derived c digest keeps master nonce name value (now + ttl) principal db =
        rw t refl in
      let taken =
        take_derived-hold_derived c digest keeps master st.previous_key nonce name value (now + ttl)
          later principal db i.sound i.adapter i.key_id sealed.0 sealed.1 in
      let result : Option String = if leb (now + ttl) later then none else some value in
      ap
        (λ d.
          or_else (take_derived c digest keeps master st.previous_key name principal later d).1
            rest)
        held
      ∙ ap (λ o. or_else o rest) taken
      ∙ ap (or_else result) (good_deleted key later m)
      ∙ or_else-none result

  take_secret-good :
      (name : String) (principal : Option String) (now : ℕ) (held : Option (HeldStore D)) (db : D)
      (s : HttpSecrets)
      → (take_secret c digest name principal now held db s).2
        ≡ or_else
            (take_shared c digest name principal now (sharing held) db).1
            (good now (get (c.storage_key name principal) (cache_for (store_id held) s)))
  unfolding take_secret
  take_secret-good name principal now held db s =
      let key = c.storage_key name principal in
      let m = cache_for (store_id held) s in
      ap (or_else (take_shared c digest name principal now (sharing held) db).1)
        (take_held-good key now m (get key m))

  -- A value that is held for a time is what a take under its name gives as long as the time is not over,
  -- and a take gives nothing from then on. This is so for a host that keeps the value in memory, and for
  -- one that shares it, under the cipher and the adapter as documented.
  pub take_secret-hold_secret :
      (name value : String) (ttl : ℕ) (principal : Option String) (nonce now later : ℕ)
      (held : Option (HeldStore D)) (db : D) (s : HttpSecrets)
      → (ttl == 0) ≡ false
      → ((st : CredentialStore) (master : String) (keeps : DerivedAdapter D)
          → sharing held ≡ some (st, master, keeps)
          → IsSharing c st master keeps)
      → let (db', s') = hold_secret c digest name value ttl principal nonce now held db s in
        (take_secret c digest name principal later held db' s').2
        ≡ (if leb (now + ttl) later then none else some value)
  unfolding hold_secret
  take_secret-hold_secret name value ttl principal nonce now later held db s t h =
      let key = c.storage_key name principal in
      let store = store_id held in
      let m = cache_for store s in
      let m' = hold_minted key value ttl now (sharing held) m in
      let db' = hold_shared c digest name value ttl principal nonce now (sharing held) db in
      take_secret-good name principal later held db' (with_cache store m' s)
      ∙ ap
          (λ c'.
            or_else (take_shared c digest name principal later (sharing held) db').1
              (good later (get key c')))
          (cache_for-with_cache store m' s)
      ∙ first_taken name value ttl principal nonce now later (sharing held) db m t h
