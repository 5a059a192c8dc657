-- ===== src/Traits/Payload.antt =====
-- traits/PayloadValidator.ts: the check of one event's payload against the fields that are declared.
-- `container_of` is `payloadTypeContainer` of @almadar/core.
use almadar_runtime.Base.{
  ◌≡◌, ◌≢◌, ◌↔◌, refl, ◌++◌, Bool, true, false, List, [], ◌∷◌, Option, none, some, String, get,
  get_or, if◌then◌else◌, string_eq, arith, All,
}

pub data Value : Type 0 where
  null : Value
  array : Value
  object : Value
  scalar : Value

pub data Container : Type 0 where
  in_array : Container
  in_object : Container
  in_neither : Container

pub record PayloadField : Type 0 where
  pub name : String
  pub type : String
  pub required : Bool

pub data Reason : Type 0 where
  missing : Reason
  is_null : Reason
  wrong_type : Reason

pub record Failure : Type 0 where
  pub event : String
  pub field : String
  pub reason : Reason
  pub expected_type : String

abbrev pub wrong_container : Container → Value → Bool
wrong_container in_neither v = false
wrong_container in_array array = false
wrong_container in_array v = true
wrong_container in_object object = false
wrong_container in_object v = true

pub append-eq-nil {ℓ} : {A : Type ℓ} (xs ys : List A) → (xs ++ ys ≡ []) ↔ ((xs ≡ []) × (ys ≡ []))
append-eq-nil [] ys = (λ h. (refl, h), λ h. h.1)
append-eq-nil (x ∷ xs) ys = (λ h. cc, λ h. cc)

module _ (container_of : String → Container) where
  -- The failure of one field, if it has one.
  abbrev pub check_field : String → PayloadField → Option Value → List Failure
  check_field event f none =
      if f.required
      then record { event = event; field = f.name; reason = missing; expected_type = f.type } ∷ []
      else []
  check_field event f (some null) =
      if f.required
      then record { event = event; field = f.name; reason = is_null; expected_type = f.type } ∷ []
      else []
  check_field event f (some v) =
      if wrong_container (container_of f.type) v
      then record { event = event; field = f.name; reason = wrong_type; expected_type = f.type }
        ∷ []
      else []

  abbrev pub check_fields : String → List (String × Value) → List PayloadField → List Failure
  check_fields event payload [] = []
  check_fields event payload (f ∷ fs) =
      check_field event f (get f.name payload) ++ check_fields event payload fs

  -- A payload that is undefined has no field.
  unfoldable pub validate_event_payload :
      String → Option (List (String × Value)) → Option (List PayloadField) → List Failure
  validate_event_payload event payload none = []
  validate_event_payload event payload (some fs) = check_fields event (get_or payload []) fs

  -- A required field is there and not null, and a value that is there is of the declared container.
  abbrev pub Fits : PayloadField → Option Value → Type 0
  Fits f none = f.required ≡ false
  Fits f (some null) = f.required ≡ false
  Fits f (some array) = container_of f.type ≢ in_object
  Fits f (some object) = container_of f.type ≢ in_array
  Fits f (some scalar) = container_of f.type ≡ in_neither

  check_field_iff :
      (event : String) (f : PayloadField) (v : Option Value)
      → (check_field event f v ≡ []) ↔ Fits f v
  check_field_iff event f none = ground arith
  check_field_iff event f (some null) = ground arith
  check_field_iff event f (some array) = ground arith
  check_field_iff event f (some object) = ground arith
  check_field_iff event f (some scalar) = ground arith

  -- A payload has no failure exactly if each declared field fits: a required field is there and not
  -- null, and a value that is there and not null is an array, or an object, where the type asks.
  pub validate_event_payload_iff :
      (event : String) (payload : Option (List (String × Value))) (fs : List PayloadField)
      → (validate_event_payload event payload (some fs) ≡ [])
        ↔ All (λ f. Fits f (get f.name (get_or payload []))) fs
  unfolding validate_event_payload
  validate_event_payload_iff event payload [] = (λ h. tt, λ h. refl)
  validate_event_payload_iff event payload (f ∷ fs) =
      let v = get f.name (get_or payload []) in
      let here = check_field_iff event f v in
      let there = validate_event_payload_iff event payload fs in
      let both =
        append-eq-nil (check_field event f v) (check_fields event (get_or payload []) fs) in
      (λ h. (here.0 (both.0 h).0, there.0 (both.0 h).1), λ (a, b). both.1 (here.1 a, there.1 b))
