-- ===== src/Host/Credentials.antt =====
-- host/credentials/store.ts. The cipher, the hash behind a key's id, `credentialStorageKey` of
-- @almadar/core and the persistence adapter are arguments; a random nonce and the time are arguments
-- of the calls. A call of the adapter that throws is not followed.
pub mod Writes
pub mod Memory
pub mod Restart
pub mod Rotation
pub mod Merged
pub mod Rotated
pub mod Derived
use Prim.Native.String
use almadar_runtime.Base.{
  ℕ, zero, suc, ◌+◌, ◌≡◌, Bool, true, false, ◌&&◌, not, List, [], ◌∷◌, ◌++◌, Option, none, some,
  String, get, put, delete, values, get_or, or_else, same?, is_some, leb, keep, map, length, ◌==◌,
  if◌then◌else◌, nat_eq, string_eq, ◌>>=◌,
}

-- What an encryption gives.
pub record Sealed : Type 0 where
  pub ciphertext : String
  pub iv : String
  pub auth_tag : String

pub record Crypto : Type 0 where
  pub key_id : String → String
  pub encrypt : String → ℕ → Option String → String → Sealed
  pub decrypt : String → Sealed → Option String → Option String
  pub storage_key : String → Option String → String

-- A field of an entity row.
pub data Field : Type 0 where
  absent : Field
  text : String → Field
  number : ℕ → Field

pub record Row : Type 0 where
  pub id : Field
  pub service : Field
  pub env_var : Field
  pub ciphertext : Field
  pub iv : Field
  pub auth_tag : Field
  pub key_id : Field
  pub principal : Field
  pub label : Field
  pub updated_at : Field

-- The adapter, over the state of its database; rows are those of the credentials' entity type.
pub record Adapter (D : Type 0) : Type 0 where
  pub list : D → List Row
  pub create : Row → D → D × String
  pub update : String → Row → D → D
  pub delete : String → D → D

abbrev pub non_empty : Field → Option String
non_empty absent = none
non_empty (number n) = none
non_empty (text s) = if s == "" then none else some s

abbrev pub string_of : Field → Option String
string_of absent = none
string_of (number n) = none
string_of (text s) = some s

-- `none` where the field is there and no nonempty text.
abbrev pub principal_of : Field → Option (Option String)
principal_of absent = some none
principal_of f = non_empty f >>= λ p. some (some p)

-- A row that passes the checks of `warm` and `rotate`.
pub record ReadableRow : Type 0 where
  pub id : String
  pub service : String
  pub env_var : String
  pub sealed : Sealed
  pub key_id : Option String
  pub principal : Option String

unfoldable pub readable : Row → Option ReadableRow
readable row = do
  id ← non_empty row.id
  service ← non_empty row.service
  env_var ← non_empty row.env_var
  ciphertext ← string_of row.ciphertext
  iv ← non_empty row.iv
  auth_tag ← non_empty row.auth_tag
  principal ← principal_of row.principal
  some (record {
    id = id;
    service = service;
    env_var = env_var;
    sealed = record { ciphertext = ciphertext; iv = iv; auth_tag = auth_tag };
    key_id = non_empty row.key_id;
    principal = principal;
  })

pub record StoredCredential : Type 0 where
  pub id : String
  pub service : String
  pub env_var : String
  pub value : String
  pub updated_at : ℕ
  pub label : Option String
  pub principal : Option String

abbrev pub Identities : Type 0
Identities = List (String × StoredCredential)

-- Valid master keys only; `log` is what the listeners were told, by listener.
pub record CredentialStore : Type 0 where
  pub master_key : Option String
  pub previous_key : Option String
  pub by_identity : Identities
  pub listeners : List ℕ
  pub warmed : Bool
  pub log : List (ℕ × Option String)

abbrev pub enabled : CredentialStore → Bool
enabled s = is_some s.master_key

abbrev pub notify : Option String → CredentialStore → CredentialStore
notify principal s = record s { log = s.log ++ map (λ l. (l, principal)) s.listeners }

-- An error that leaves the call.
pub data StoreError : Type 0 where
  no_master_key : StoreError
  empty_principal : StoreError
  empty_label : StoreError

pub data Result (A : Type 0) : Type 0 where
  ok : A → Result A
  err : StoreError → Result A

abbrev pub number_or_zero : Field → ℕ
number_or_zero (number n) = n
number_or_zero f = 0

-- The app-wide values, by name.
abbrev pub add_env : List StoredCredential → List (String × String) → List (String × String)
add_env [] env = env
add_env (e ∷ es) env = add_env es (if is_some e.principal then env else put e.env_var e.value env)

unfoldable pub snapshot_env : CredentialStore → List (String × String)
snapshot_env s = add_env (values s.by_identity) []

abbrev pub optional : Option String → Field
optional none = absent
optional (some s) = text s

-- A principal or label that is given and empty is an error.
abbrev pub is_blank : Option String → Bool
is_blank none = false
is_blank (some s) = s == ""

abbrev pub row_of : String → String → Sealed → String → ℕ → Option String → Option String → Row
row_of service env_var sealed key_id updated_at principal label = record {
  id = absent;
  service = text service;
  env_var = text env_var;
  ciphertext = text sealed.ciphertext;
  iv = text sealed.iv;
  auth_tag = text sealed.auth_tag;
  key_id = text key_id;
  principal = optional principal;
  label = optional label;
  updated_at = number updated_at;
}

module _ (c : Crypto) where
  -- What is bound to a ciphertext: the identity of a principal's credential, nothing for the app's.
  abbrev pub aad : String → Option String → Option String
  aad env_var none = none
  aad env_var (some p) = some (c.storage_key env_var (some p))

  -- A row without a key id, or with this key's, may be read by the key.
  abbrev pub may_read : String → Option String → Bool
  may_read key none = true
  may_read key (some id) = id == c.key_id key

  abbrev pub try_key : String → Option String → Sealed → Option String → Option String
  try_key key row_key_id sealed bound =
      if may_read key row_key_id then c.decrypt key sealed bound else none

  abbrev pub try_previous : Option String → Option String → Sealed → Option String → Option String
  try_previous none row_key_id sealed bound = none
  try_previous (some key) row_key_id sealed bound = try_key key row_key_id sealed bound

  -- With the current key if it may read the row, else with the previous one.
  unfoldable pub decrypt_row :
      String → Option String → Option String → Sealed → Option String → Option String
  decrypt_row master previous row_key_id sealed bound =
      or_else (try_key master row_key_id sealed bound)
        (try_previous previous row_key_id sealed bound)

  -- One row of `warm`.
  unfoldable pub warm_row : String → Option String → Row → Identities → Identities
  unfolding decrypt_row readable
  warm_row master previous row m = elim (readable row) [
    | none ↦ m
    | some r ↦ elim (decrypt_row master previous r.key_id r.sealed (aad r.env_var r.principal)) [
      | none ↦ m
      | some value ↦
          put (c.storage_key r.env_var r.principal)
            (record {
              id = r.id;
              service = r.service;
              env_var = r.env_var;
              value = value;
              updated_at = number_or_zero row.updated_at;
              label = non_empty row.label;
              principal = r.principal;
            })
            m
    ]
  ]

  unfoldable pub warm_rows : String → Option String → List Row → Identities → Identities
  unfolding warm_row
  warm_rows master previous [] m = m
  warm_rows master previous (row ∷ rows) m =
      warm_rows master previous rows (warm_row master previous row m)

  -- The rows decrypted into memory, and how many credentials resolve.
  unfoldable pub warm : {D : Type 0} → Adapter D → D → CredentialStore → CredentialStore × ℕ
  unfolding warm_rows
  warm a db s = elim s.master_key [
    | none ↦ (record s { by_identity = []; warmed = true }, 0)
    | some master ↦
        (let m = warm_rows master s.previous_key (a.list db) [] in
          (record s { by_identity = m; warmed = true }, length m))
  ]

  abbrev pub warmed_store : {D : Type 0} → Adapter D → D → CredentialStore → CredentialStore
  warmed_store a db s = if s.warmed then s else (warm a db s).0

  unfoldable pub resolve_stored : String → Option String → CredentialStore → Option String
  resolve_stored env_var principal s =
      get (c.storage_key env_var principal) s.by_identity >>= λ e. some e.value

  unfoldable pub label_of : String → Option String → CredentialStore → Option String
  label_of env_var principal s =
      get (c.storage_key env_var principal) s.by_identity >>= λ e. e.label
