-- ===== src/Host/Credentials/Merged.antt =====
-- What a row reads as, before and after an update of the adapter.
use almadar_runtime.Base.{
  ℕ, ◌≡◌, refl, ap, subst, ◌∙◌, false, inl, inr, Option, none, some, String, ◌==◌, string_eq, ◌>>=◌,
  >>=-eq-some, Bool-cases,
}
use mathlib.Core.Option.{some-injective}
use almadar_runtime.Host.Credentials.{
  Sealed, Field, absent, text, number, Row, ReadableRow, readable, non_empty, string_of,
  principal_of, optional, row_of,
}

-- A row that reads as the readable row.
pub record Reads (row : Row) (r : ReadableRow) : Type 0 where
  pub id : non_empty row.id ≡ some r.id
  pub service : non_empty row.service ≡ some r.service
  pub env_var : non_empty row.env_var ≡ some r.env_var
  pub ciphertext : string_of row.ciphertext ≡ some r.sealed.ciphertext
  pub iv : non_empty row.iv ≡ some r.sealed.iv
  pub auth_tag : non_empty row.auth_tag ≡ some r.sealed.auth_tag
  pub principal : principal_of row.principal ≡ some r.principal
  pub key_id : non_empty row.key_id ≡ r.key_id

pub readable-Reads : (row : Row) {r : ReadableRow} → readable row ≡ some r → Reads row r
unfolding readable
readable-Reads row {r} h =
    let (id, e₁, h₁) = >>=-eq-some (non_empty row.id) _ h in
    let (service, e₂, h₂) = >>=-eq-some (non_empty row.service) _ h₁ in
    let (env_var, e₃, h₃) = >>=-eq-some (non_empty row.env_var) _ h₂ in
    let (ciphertext, e₄, h₄) = >>=-eq-some (string_of row.ciphertext) _ h₃ in
    let (iv, e₅, h₅) = >>=-eq-some (non_empty row.iv) _ h₄ in
    let (auth_tag, e₆, h₆) = >>=-eq-some (non_empty row.auth_tag) _ h₅ in
    let (principal, e₇, h₇) = >>=-eq-some (principal_of row.principal) _ h₆ in
    subst (Reads row) (some-injective _ r h₇) (record {
      id = e₁;
      service = e₂;
      env_var = e₃;
      ciphertext = e₄;
      iv = e₅;
      auth_tag = e₆;
      principal = e₇;
      key_id = refl;
    })

pub Reads-readable : (row : Row) (r : ReadableRow) → Reads row r → readable row ≡ some r
unfolding readable
Reads-readable row r v =
    simp
      (v.id, v.service, v.env_var, v.ciphertext, v.iv, v.auth_tag, v.principal, v.key_id, readable)
      refl

-- A field that is given replaces the old one, but for the id.
abbrev pub over : Field → Field → Field
over old absent = old
over old (text s) = text s
over old (number n) = number n

abbrev pub merge : Row → Row → Row
merge old row = record {
  id = old.id;
  service = over old.service row.service;
  env_var = over old.env_var row.env_var;
  ciphertext = over old.ciphertext row.ciphertext;
  iv = over old.iv row.iv;
  auth_tag = over old.auth_tag row.auth_tag;
  key_id = over old.key_id row.key_id;
  principal = over old.principal row.principal;
  label = over old.label row.label;
  updated_at = over old.updated_at row.updated_at;
}

over_self : (f : Field) → over f f ≡ f
over_self absent = refl
over_self (text s) = refl
over_self (number n) = refl

non_empty-text_of : (f : Field) {s : String} → non_empty f ≡ some s → non_empty (text s) ≡ some s
non_empty-text_of absent e = cc
non_empty-text_of (number n) e = cc
non_empty-text_of (text t) {s} e = elim (Bool-cases (t == "")) [
  | inl empty ↦ cc (rw empty at e)
  | inr given ↦
      subst (λ u. non_empty (text u) ≡ some u) (some-injective t s (rw given at e)) (rw given refl)
]

principal_of-over :
    (f : Field) (p : Option String)
    → principal_of f ≡ some p
    → principal_of (over f (optional p)) ≡ some p
principal_of-over f none e = e
principal_of-over absent (some q) e = cc (some-injective none (some q) e)
principal_of-over (number n) (some q) e = cc
principal_of-over (text t) (some q) e =
    let (s, given, same) = >>=-eq-some (non_empty (text t)) _ e in
    let is_q : s ≡ q = some-injective s q (some-injective (some s) (some q) same) in
    subst (λ u. principal_of (text u) ≡ some (some u)) is_q
      (ap (λ o. o >>= λ p. some (some p)) (non_empty-text_of (text t) given))

-- A row merged with itself under another key id.
pub Reads-stamped :
    (row : Row) (r : ReadableRow) (kid : String)
    → (kid == "") ≡ false
    → Reads row r
    → Reads (merge row (record row { key_id = text kid })) (record r { key_id = some kid })
Reads-stamped row r kid n v = record {
  id = v.id;
  service = ap non_empty (over_self row.service) ∙ v.service;
  env_var = ap non_empty (over_self row.env_var) ∙ v.env_var;
  ciphertext = ap string_of (over_self row.ciphertext) ∙ v.ciphertext;
  iv = ap non_empty (over_self row.iv) ∙ v.iv;
  auth_tag = ap non_empty (over_self row.auth_tag) ∙ v.auth_tag;
  principal = ap principal_of (over_self row.principal) ∙ v.principal;
  key_id = rw n refl;
}

-- A row merged with the fields of a new encryption.
pub Reads-rewritten :
    (row : Row) (r : ReadableRow) (kid : String) (sealed : Sealed) (now : ℕ)
    → (kid == "") ≡ false
    → (sealed.iv == "") ≡ false
    → (sealed.auth_tag == "") ≡ false
    → Reads row r
    → Reads
        (merge row (row_of r.service r.env_var sealed kid now r.principal none))
        (record r { key_id = some kid; sealed = sealed })
Reads-rewritten row r kid sealed now n i t v = record {
  id = v.id;
  service = non_empty-text_of row.service v.service;
  env_var = non_empty-text_of row.env_var v.env_var;
  ciphertext = refl;
  iv = rw i refl;
  auth_tag = rw t refl;
  principal = principal_of-over row.principal r.principal v.principal;
  key_id = rw n refl;
}
