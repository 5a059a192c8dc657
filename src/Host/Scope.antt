-- ===== src/Host/Scope.antt =====
-- host/credentials/scope.ts: where a credential reference is looked up. The tenant's store is what
-- `tenantScope.getStore()` gives where the call stands.
use almadar_runtime.Base.{
  ◌≡◌, refl, ap, sym, ◌∙◌, Bool, true, ◌&&◌, ◌||◌, not, inl, inr, List, [], ◌∷◌, Option, none, some,
  String, get, contains, same?, is_some, or_else, if◌then◌else◌, string_eq, ◌>>=◌, Option-cases,
}
use almadar_runtime.Host.Credentials.{Crypto, CredentialStore, resolve_stored}

abbrev pub Environment : Type 0
Environment = List (String × String)

pub data CredentialMode : Type 0 where
  mock : CredentialMode
  real : CredentialMode

unfoldable pub credential_mode_from_env : Environment → CredentialMode
credential_mode_from_env env =
    if same? (get "ALMADAR_INTEGRATIONS_MODE" env) (some "mock")
      || same? (get "USE_MOCK_DATA" env) (some "true")
    then mock
    else real

abbrev pub host_setting_vars : List String
host_setting_vars =
    "ALMADAR_CREDENTIAL_ADMIN_ROLES" ∷ "ALMADAR_CREDENTIALS_SOURCE" ∷ "ALMADAR_INTEGRATIONS_MODE"
    ∷ "USE_MOCK_DATA" ∷ []

abbrev pub credentials_from_store_only : Environment → Bool
credentials_from_store_only env = same? (get "ALMADAR_CREDENTIALS_SOURCE" env) (some "store")

-- The store that is installed for the process, and the tenant's.
pub record CredentialScope : Type 0 where
  pub installed : Option CredentialStore
  pub tenant : Option CredentialStore

abbrev pub effective_store : CredentialScope → Option CredentialStore
effective_store s = or_else s.tenant s.installed

abbrev pub from_env : String → Environment → Option String
from_env ref env =
    if credentials_from_store_only env && not (contains ref host_setting_vars)
    then none
    else get ref env

from_env-none :
    (ref : String) (env : Environment)
    → (credentials_from_store_only env && not (contains ref host_setting_vars)) ≡ true
    → from_env ref env ≡ none
from_env-none ref env e = rw e refl

module _ (c : Crypto) where
  abbrev pub resolve_installed : String → Option String → Option CredentialStore → Option String
  resolve_installed ref principal installed =
      installed >>= λ (store : CredentialStore). resolve_stored c ref principal store

  abbrev pub resolve_app : String → Environment → Option CredentialStore → Option String
  resolve_app ref env installed = elim (resolve_installed ref none installed) [
    | some value ↦ some value
    | none ↦ from_env ref env
  ]

  resolve_app_missing :
      (ref : String) (env : Environment) (installed : Option CredentialStore)
      → resolve_installed ref none installed ≡ none
      → from_env ref env ≡ none
      → resolve_app ref env installed ≡ resolve_installed ref none installed
  resolve_app_missing ref env installed e f =
      ap (λ (o : Option String). elim o [ some value ↦ some value | none ↦ from_env ref env ]) e
      ∙ f
      ∙ sym e

  resolve_app_found :
      (ref : String) (env : Environment) (installed : Option CredentialStore) {value : String}
      → resolve_installed ref none installed ≡ some value
      → resolve_app ref env installed ≡ resolve_installed ref none installed
  resolve_app_found ref env installed e =
      ap (λ (o : Option String). elim o [ some value ↦ some value | none ↦ from_env ref env ]) e
      ∙ sym e

  unfoldable pub resolve_credential_ref :
      String → Environment → Option String → CredentialScope → Option String
  unfolding resolve_stored
  resolve_credential_ref ref env principal s = elim s.tenant [
    | some tenant ↦ resolve_stored c ref principal tenant
    | none ↦ elim principal [
      | some p ↦ resolve_installed ref (some p) s.installed
      | none ↦ resolve_app ref env s.installed
    ]
  ]

  -- The process's environment plays no part in a reference inside a tenant's scope.
  abbrev pub is_sealed : String → Environment → Option String → CredentialScope → Bool
  is_sealed ref env principal s =
      is_some s.tenant
      || is_some principal
      || (credentials_from_store_only env && not (contains ref host_setting_vars))

  -- A reference inside a tenant's scope, of a principal, or, under store-only resolution, to a name that
  -- is no host setting, resolves to what the tenant's store holds where there is one, else the installed
  -- one, and to nothing where that store has no such credential.
  pub resolve_credential_ref_sealed :
      (ref : String) (env : Environment) (principal : Option String) (s : CredentialScope)
      → is_sealed ref env principal s ≡ true
      → resolve_credential_ref ref env principal s
        ≡ resolve_installed ref principal (effective_store s)
  unfolding resolve_credential_ref
  resolve_credential_ref_sealed ref env principal s h = elim (Option-cases s.tenant) [
    | inr (tenant, t) ↦ simp (t, resolve_credential_ref) refl
    | inl t ↦ elim (Option-cases principal) [
      | inr (p, e) ↦ rw e (simp (t, resolve_credential_ref) refl)
      | inl e ↦ rw e (simp (t, resolve_credential_ref, effective_store) (app (rw (t, e) at h)))
    ]
  ]
    where
      app :
          (credentials_from_store_only env && not (contains ref host_setting_vars)) ≡ true
          → resolve_app ref env s.installed ≡ resolve_installed ref none s.installed
      app only = elim (Option-cases (resolve_installed ref none s.installed)) [
        | inl missing ↦ resolve_app_missing ref env s.installed missing (from_env-none ref env only)
        | inr (value, found) ↦ resolve_app_found ref env s.installed found
      ]
