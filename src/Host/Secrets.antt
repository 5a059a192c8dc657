-- ===== src/Host/Secrets.antt =====
-- `createHttpSecrets` of kernel/http-exchange.ts: values minted in memory with an expiry, and the
-- credential store that the host holds at the call. What the host resolves a name to is an argument.
pub mod Minted
use almadar_runtime.Base.{
  ℕ, ◌+◌, ◌≡◌, Bool, true, false, ◌&&◌, List, [], Option, none, some, String, get, put, delete,
  get_or, leb, ltb, is_some, or_else, ◌==◌, if◌then◌else◌, nat_eq, string_eq, ◌>>=◌,
}
use almadar_runtime.Host.Credentials.{
  Crypto, Adapter, CredentialStore, enabled, Result, label_of, ok,
}
use almadar_runtime.Host.Credentials.Writes.{set_credential, remove_credential}
use almadar_runtime.Host.Credentials.Derived.{
  DerivedAdapter, shares_derived, hold_derived, take_derived,
}

pub record MintedValue : Type 0 where
  pub value : String
  pub expires_at : ℕ

abbrev pub MintedMap : Type 0
MintedMap = List (String × MintedValue)

-- The values of the environment and of each store, by the store's identity.
pub record HttpSecrets : Type 0 where
  pub environment_minted : MintedMap
  pub store_minted : List (ℕ × MintedMap)

abbrev pub cache_for : Option ℕ → HttpSecrets → MintedMap
cache_for none s = s.environment_minted
cache_for (some k) s = get_or (get k s.store_minted) []

abbrev pub with_cache : Option ℕ → MintedMap → HttpSecrets → HttpSecrets
with_cache none m s = record s { environment_minted = m }
with_cache (some k) m s = record s { store_minted = put k m s.store_minted }

-- What the map holds after a value is asked for, and the value, where it is still good.
abbrev pub get_held : String → ℕ → MintedMap → Option MintedValue → MintedMap × Option String
get_held key now m none = (m, none)
get_held key now m (some held) =
    if ltb now held.expires_at then (m, some held.value) else (delete key m, none)

abbrev pub take_held : String → ℕ → MintedMap → Option MintedValue → MintedMap × Option String
take_held key now m none = (m, none)
take_held key now m (some held) =
    (delete key m, if ltb now held.expires_at then some held.value else none)

abbrev pub set_minted : String → String → ℕ → ℕ → MintedMap → MintedMap
set_minted key value ttl now m =
    if ttl == 0 then delete key m else put key (record { value = value; expires_at = now + ttl }) m

-- The store that the host holds at a call, and its adapter where the adapter reads a row by id.
pub record HeldStore (D : Type 0) : Type 0 where
  pub id : ℕ
  pub store : CredentialStore
  pub keeps : Option (DerivedAdapter D)

abbrev pub store_id : {D : Type 0} → Option (HeldStore D) → Option ℕ
store_id none = none
store_id (some h) = some h.id

module _ (c : Crypto) where
  -- `get`; `resolved` is what the host resolves the name to.
  unfoldable pub get_secret :
      String
      → Option String
      → ℕ
      → Option ℕ
      → Option String
      → HttpSecrets
      → HttpSecrets × Option String
  get_secret name principal now store resolved s =
      let key = c.storage_key name principal in
      let minted = cache_for store s in
      let (m, found) = get_held key now minted (get key minted) in
      (with_cache store m s, or_else found resolved)

  unfoldable pub set_secret :
      String → String → ℕ → Option String → ℕ → Option ℕ → HttpSecrets → HttpSecrets
  set_secret name value ttl principal now store s =
      with_cache store (set_minted (c.storage_key name principal) value ttl now (cache_for store s))
        s

-- A store that shares one-use values: its master key and its adapter.
abbrev pub Shared : Type 0 → Type 0
Shared D = CredentialStore × String × DerivedAdapter D

abbrev pub sharing : {D : Type 0} → Option (HeldStore D) → Option (Shared D)
sharing held = do
  h ← held
  master ← h.store.master_key
  keeps ← h.keeps
  some (h.store, master, keeps)

abbrev pub hold_minted :
    {D : Type 0} → String → String → ℕ → ℕ → Option (Shared D) → MintedMap → MintedMap
hold_minted key value ttl now none m = set_minted key value ttl now m
hold_minted key value ttl now (some share) m = delete key m

module _ (c : Crypto) (digest : String → String) {D : Type 0} where
  -- The database after a hold.
  unfoldable pub hold_shared :
      String → String → ℕ → Option String → ℕ → ℕ → Option (Shared D) → D → D
  unfolding hold_derived
  hold_shared name value ttl principal nonce now none db = db
  hold_shared name value ttl principal nonce now (some (st, master, keeps)) db =
      if ttl == 0
      then db
      else hold_derived c digest keeps master nonce name value (now + ttl) principal db

  unfoldable pub hold_secret :
      String
      → String
      → ℕ
      → Option String
      → ℕ
      → ℕ
      → Option (HeldStore D)
      → D
      → HttpSecrets
      → D × HttpSecrets
  unfolding hold_shared
  hold_secret name value ttl principal nonce now held db s =
      let store = store_id held in
      let key = c.storage_key name principal in
      (
        hold_shared name value ttl principal nonce now (sharing held) db,
        with_cache store (hold_minted key value ttl now (sharing held) (cache_for store s)) s,
      )

  -- The shared value, where the host shares and there is one.
  unfoldable pub take_shared :
      String → Option String → ℕ → Option (Shared D) → D → D × Option String
  unfolding take_derived
  take_shared name principal now none db = (db, none)
  take_shared name principal now (some (st, master, keeps)) db =
      take_derived c digest keeps master st.previous_key name principal now db

  unfoldable pub take_secret :
      String
      → Option String
      → ℕ
      → Option (HeldStore D)
      → D
      → HttpSecrets
      → D × HttpSecrets × Option String
  unfolding take_shared
  take_secret name principal now held db s =
      let (db', shared) = take_shared name principal now (sharing held) db in
      let store = store_id held in
      let key = c.storage_key name principal in
      let minted = cache_for store s in
      let (m, found) = take_held key now minted (get key minted) in
      (db', (if is_some shared then s else with_cache store m s), or_else shared found)
