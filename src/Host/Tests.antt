-- ===== src/Host/Tests.antt =====
-- The credential store, its one-use values and the secrets on small inputs.
use Prim.Native.String
use almadar_runtime.Base.{
  ◌≡◌, refl, sym, ap, subst, ◌∙◌, Bool, true, false, List, [], ◌∷◌, ◌++◌, Option, none, some,
  String, get, put, delete, is_some, ◌==◌, if◌then◌else◌, string_eq, nat_eq, get-put, get-delete,
  or_else, ◌>>=◌, same?, Bool-cases, inl, inr,
}
use almadar_runtime.Host.Credentials.{
  Sealed, Crypto, text, Row, Adapter, readable, CredentialStore, decrypt_row, warm_row, warm_rows,
  warm, warmed_store, non_empty, ReadableRow, resolve_stored, label_of, row_of, ok,
}
use almadar_runtime.Host.Credentials.Writes.{set_credential, rotate, rotate_rows, turn_row, turn_of}
use almadar_runtime.Host.Credentials.Memory.{resolve_stored-set_credential}
use almadar_runtime.Host.Credentials.Rotation.{IsSound}
use almadar_runtime.Host.Credentials.Merged.{merge}
use almadar_runtime.Host.Credentials.Rotated.{find_row, ReadBy, IsCipher, eq_of_same, rotate-ReadBy}
use almadar_runtime.Host.Credentials.Restart.{warm-set_credential}
use almadar_runtime.Host.Credentials.Derived.{
  DerivedRow, DerivedAdapter, hold_derived, take_derived, finish_take, derived_row,
}
use almadar_runtime.Host.Credentials.Derived.Once.{
  IsAdapter, take_derived-take_derived, finish_take-finish_take,
}
use almadar_runtime.Host.Scope.{
  CredentialScope, resolve_credential_ref, resolve_installed, effective_store,
  resolve_credential_ref_sealed,
}
use almadar_runtime.Host.Secrets.{HttpSecrets, HeldStore, Shared, sharing, hold_secret, take_secret}
use almadar_runtime.Host.Secrets.Minted.{take_secret-hold_secret, IsSharing}

abbrev join : String → String → String
join = String.◌++◌

-- A cipher that writes the key into the tag.
abbrev toy : Crypto
toy = record {
  key_id = λ key. join "id:" key;
  encrypt =
      λ key nonce bound value. record { ciphertext = value; iv = "iv"; auth_tag = join "tag:" key };
  decrypt = λ key sealed bound.
      if sealed.auth_tag == join "tag:" key then some sealed.ciphertext else none;
  storage_key = λ name principal. elim principal [ none ↦ name | some p ↦ join p (join "/" name) ];
}

abbrev table : Adapter (List Row)
table = record {
  list = λ db. db;
  create = λ row db. (db ++ ((record row { id = text "r" }) ∷ []), "r");
  update = λ id row db. db;
  delete = λ id db. [];
}

abbrev sealed_old : Sealed
sealed_old = record { ciphertext = "sk"; iv = "iv"; auth_tag = "tag:old" }

abbrev old_row : Row
old_row = record (row_of "mail" "MAIL_KEY" sealed_old "id:old" 5 none none) { id = text "r1" }

abbrev rotating : CredentialStore
rotating = record {
  master_key = some "new";
  previous_key = some "old";
  by_identity = [];
  listeners = 1 ∷ [];
  warmed = false;
  log = [];
}

toy-IsSound : IsSound toy "new" (some "old")
toy-IsSound = record {
  opens = λ nonce bound value. refl;
  apart = λ p e.
      sym
        (ap (λ (o : Option String). elim o [ none ↦ false | some q ↦ "id:new" == join "id:" q ]) e);
}

warm_test :
    resolve_stored toy "MAIL_KEY" none (warm toy table (old_row ∷ []) rotating).0 ≡ some "sk"
unfolding warm warm_rows warm_row readable decrypt_row resolve_stored get put
warm_test = refl

rotate_test :
    (rotate toy table 0 9 (old_row ∷ []) rotating).0
    ≡ ok (record { rotated = 1; already_current = 0; unreadable = 0 })
unfolding rotate rotate_rows turn_row turn_of readable decrypt_row
rotate_test = refl

-- A table that finds a row by its id, as an adapter documents.
abbrev update_rows : String → Row → List Row → List Row
update_rows id row [] = []
update_rows id row (old ∷ rows) =
    if same? (non_empty old.id) (some id)
    then (merge old row ∷ rows)
    else (old ∷ update_rows id row rows)

abbrev rows_table : Adapter (List Row)
rows_table = record table { update = update_rows }

abbrev merge_some : Row → Option Row → Option Row
merge_some row o = o >>= λ old. some (merge old row)

update_rows_lem :
    (i j : String) (row : Row) (db : List Row)
    → find_row j (update_rows i row db)
      ≡ (if i == j then merge_some row (find_row j db) else find_row j db)
update_rows_lem i j row [] = elim (Bool-cases (i == j)) [ inl t ↦ rw t refl | inr f ↦ rw f refl ]
update_rows_lem i j row (old ∷ rows) = elim (Bool-cases (same? (non_empty old.id) (some i))) [
  | inl t ↦
      let is_i = eq_of_same (non_empty old.id) i t in
      elim (Bool-cases (i == j)) [
        | inl e ↦ rw (t, e, is_i, e) refl
        | inr f ↦ rw (t, f, is_i, f) refl
      ]
  | inr f ↦ elim (Bool-cases (same? (non_empty old.id) (some j))) [
    | inl t ↦ elim (Bool-cases (i == j)) [
      | inl e ↦ cc (
        f,
        subst (λ k. same? (non_empty old.id) (some k) ≡ true) (sym ((string_eq.test_iff i j).0 e))
            t,
      )
      | inr n ↦ rw (f, t, n) refl
    ]
    | inr g ↦ rw (f, g) (update_rows_lem i j row rows)
  ]
]

toy-IsCipher : IsCipher toy "new" (some "old")
toy-IsCipher = record {
  sound = toy-IsSound;
  key_id = refl;
  sealed = λ nonce bound value. (refl, refl);
}

abbrev read_old_row : ReadableRow
read_old_row = record {
  id = "r1";
  service = "mail";
  env_var = "MAIL_KEY";
  sealed = sealed_old;
  key_id = some "id:old";
  principal = none;
}

rotate-ReadBy_example :
    let db' = (rotate toy rows_table 0 9 (old_row ∷ []) rotating).1 in
    (row' : Row) × (find_row "r1" db' ≡ some row') × ReadBy toy "new" read_old_row "sk" row'
unfolding readable decrypt_row
rotate-ReadBy_example =
    rotate-ReadBy toy rows_table 0 9 (old_row ∷ []) rotating "r1" "sk" refl update_rows_lem
      toy-IsCipher (refl, tt) refl refl refl

resolve_stored-set_credential_example :
    let s₁ = warmed_store toy table (old_row ∷ []) rotating in
    let (r, db', s') =
      set_credential toy table "mail" "MAIL_KEY" "sk2" none
        (some "acct")
        0
        9
        (old_row ∷ [])
        rotating in
    (r ≡ ok tt)
    × (resolve_stored toy "MAIL_KEY" none s' ≡ some "sk2")
    × (label_of toy "MAIL_KEY" none s' ≡ or_else (some "acct") (label_of toy "MAIL_KEY" none s₁))
    × ((name : String) (owner : Option String)
        → (toy.storage_key "MAIL_KEY" none == toy.storage_key name owner) ≡ false
        → resolve_stored toy name owner s' ≡ resolve_stored toy name owner s₁)
resolve_stored-set_credential_example =
    resolve_stored-set_credential toy table "new" "mail" "MAIL_KEY" "sk2" none (some "acct") 0 9
      (old_row ∷ []) rotating refl refl refl

warm-set_credential_example :
    let db' =
      (set_credential toy table "mail" "MAIL_KEY" "sk"
        (some "ann")
        none
        0
        9
        (old_row ∷ [])
        rotating).1 in
    (id : String) × (get "ann/MAIL_KEY" (warm toy table db' rotating).0.by_identity
      ≡ some (record {
        id = id;
        service = "mail";
        env_var = "MAIL_KEY";
        value = "sk";
        updated_at = 9;
        label = none;
        principal = some "ann";
      }))
unfolding warm warm_rows warm_row readable decrypt_row get put
warm-set_credential_example =
    warm-set_credential toy table "new" "mail" "MAIL_KEY" "sk" (some "ann") none 0 9 (old_row ∷ [])
      rotating rotating refl refl refl (λ row. refl) (λ row. refl) toy-IsSound refl refl refl refl
      refl refl refl

-- One-use values in an association list, with a conditional delete.
abbrev conditional_delete : String → List (String × DerivedRow) → List (String × DerivedRow) × Bool
conditional_delete id db = (delete id db, is_some (get id db))

abbrev derived_table : DerivedAdapter (List (String × DerivedRow))
derived_table = record {
  get_by_id = get;
  create = put;
  update = put;
  delete = delete;
  conditional = true;
  write_where = some conditional_delete;
}

put_law :
    (id : String) (row : DerivedRow) (db : List (String × DerivedRow))
    → get id (put id row db) ≡ some row
put_law id row db = rw (get-put id id row db, (string_eq.test_iff id id).1 refl) refl

delete_law : (id : String) (db : List (String × DerivedRow)) → get id (delete id db) ≡ none
delete_law id db = rw (get-delete id id db, (string_eq.test_iff id id).1 refl) refl

abbrev chosen :
    Option (String → List (String × DerivedRow) → List (String × DerivedRow) × Bool)
    → String
    → List (String × DerivedRow)
    → List (String × DerivedRow) × Bool
chosen none = conditional_delete
chosen (some w) = w

chosen_law :
    (w : String → List (String × DerivedRow) → List (String × DerivedRow) × Bool) (id : String)
    (db : List (String × DerivedRow))
    → ◌≡◌ {A = Option (String → List (String × DerivedRow) → List (String × DerivedRow) × Bool)}
        (some conditional_delete)
        (some w)
    → (get id (w id db).0 ≡ none) × ((w id db).1 ≡ is_some (get id db))
chosen_law w id db e =
    let e' = ap chosen e in
    (sym (ap (λ v. get id (v id db).0) e') ∙ delete_law id db, sym (ap (λ v. (v id db).1) e'))

derived_laws : IsAdapter derived_table
derived_laws = record {
  created = put_law;
  updated = put_law;
  deleted = delete_law;
  deleted_where = chosen_law;
}

abbrev digest : String → String
digest key = join "d:" key

take_derived-take_derived_example :
    let db = hold_derived toy digest derived_table "new" 0 "grant" "v" 100 none [] in
    let db' = (take_derived toy digest derived_table "new" none "grant" none 50 db).0 in
    take_derived toy digest derived_table "new" none "grant" none 60 db' ≡ (db', none)
take_derived-take_derived_example =
    take_derived-take_derived toy digest derived_table "new" none "grant" none 50 60
      (hold_derived toy digest derived_table "new" 0 "grant" "v" 100 none []) derived_laws

finish_take-finish_take_example :
    let row = derived_row toy "new" 0 "grant" "v" 100 none in
    let db = hold_derived toy digest derived_table "new" 0 "grant" "v" 100 none [] in
    let db' = (finish_take toy digest derived_table "new" none "grant" none 50 (some row) db).0 in
    (finish_take toy digest derived_table "new" none "grant" none 60 (some row) db').1 ≡ none
finish_take-finish_take_example =
    finish_take-finish_take toy digest derived_table "new" none "grant" none 50 60
      (hold_derived toy digest derived_table "new" 0 "grant" "v" 100 none [])
      (some (derived_row toy "new" 0 "grant" "v" 100 none)) derived_laws refl refl refl

resolve_credential_ref_sealed_example :
    let scope : CredentialScope = record { installed = some rotating; tenant = none } in
    resolve_credential_ref toy "MAIL_KEY" (("ALMADAR_CREDENTIALS_SOURCE", "store") ∷ []) none scope
    ≡ resolve_installed toy "MAIL_KEY" none (effective_store scope)
unfolding get
resolve_credential_ref_sealed_example =
    resolve_credential_ref_sealed toy "MAIL_KEY" (("ALMADAR_CREDENTIALS_SOURCE", "store") ∷ []) none
      (record { installed = some rotating; tenant = none }) refl

abbrev empty_secrets : HttpSecrets
empty_secrets = record { environment_minted = []; store_minted = [] }

abbrev held_store : Option (HeldStore (List (String × DerivedRow)))
held_store = some (record { id = 1; store = rotating; keeps = some derived_table })

abbrev SharingLaw : Option (Shared (List (String × DerivedRow))) → Type 0
SharingLaw none = Unit {0}
SharingLaw (some (st, master, keeps)) = IsSharing toy st master keeps

toy-IsSharing : IsSharing toy rotating "new" derived_table
toy-IsSharing = record {
  sound = toy-IsSound;
  adapter = derived_laws;
  key_id = refl;
  sealed = λ nonce bound value. (refl, refl);
}

shared_laws :
    (st : CredentialStore) (master : String) (keeps : DerivedAdapter (List (String × DerivedRow)))
    → sharing held_store ≡ some (st, master, keeps)
    → IsSharing toy st master keeps
shared_laws st master keeps e = subst SharingLaw e toy-IsSharing

take_secret-hold_secret_example :
    let (db', s') = hold_secret toy digest "grant" "v" 100 none 0 10 held_store [] empty_secrets in
    (take_secret toy digest "grant" none 50 held_store db' s').2 ≡ some "v"
take_secret-hold_secret_example =
    take_secret-hold_secret toy digest "grant" "v" 100 none 0 10 50 held_store [] empty_secrets refl
      shared_laws
