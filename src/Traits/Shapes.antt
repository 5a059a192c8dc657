-- ===== src/Traits/Shapes.antt =====
-- traits/PayloadValidator.ts: the payload fields that listeners refer to, against those that are
-- emitted. The values of an object stand in the order of their keys.
pub mod Reference
pub mod Fit
mod Tests
use almadar_runtime.Base.{
  ◌≡◌, Bool, true, false, ◌&&◌, List, [], ◌∷◌, ◌++◌, Option, none, some, String, get, put, get_or,
  contains, insert, map, ◌==◌, if◌then◌else◌, string_eq,
}
use almadar_runtime.Traits.Shapes.Reference.{payload_reference}

mutual
  pub data SExpr : Type 0 where
    text : String → SExpr
    atom : SExpr
    list : SExprs → SExpr
    object : SEntries → SExpr

  pub data SExprs : Type 0 where
    no_items : SExprs
    item : SExpr → SExprs → SExprs

  pub data SEntries : Type 0 where
    no_entries : SEntries
    entry : String → SExpr → SEntries → SEntries

pub record EmitDeclaration : Type 0 where
  pub event : String
  pub payload_schema : Option (List String)

pub record Emitter : Type 0 where
  pub trait_name : String
  pub fields : List String

pub record Listener : Type 0 where
  pub event : String
  pub payload_mapping : Option SEntries

pub record ListeningTrait : Type 0 where
  pub name : String
  pub listens : Option (List Listener)

pub record PayloadMismatch : Type 0 where
  pub listener_trait : String
  pub emitter_trait : String
  pub event : String
  pub referenced_field : String
  pub available_fields : List String

abbrev pub listed : Option String → List String
listed none = []
listed (some r) = r ∷ []

abbrev mutual
  pub collect_refs : SExpr → List String
  collect_refs (text s) = listed (payload_reference s)
  collect_refs atom = []
  collect_refs (list xs) = collect_items xs
  collect_refs (object es) = collect_entries es

  pub collect_items : SExprs → List String
  collect_items no_items = []
  collect_items (item x xs) = collect_refs x ++ collect_items xs

  pub collect_entries : SEntries → List String
  collect_entries no_entries = []
  collect_entries (entry k x es) = collect_refs x ++ collect_entries es

-- `new Set(refs)`.
abbrev pub as_set : List String → List String → List String
as_set seen [] = seen
as_set seen (r ∷ rs) = as_set (insert r seen) rs

abbrev pub extract_payload_references : SEntries → List String
extract_payload_references mapping = as_set [] (collect_entries mapping)

abbrev pub index_declarations :
    String → List EmitDeclaration → List (String × Emitter) → List (String × Emitter)
index_declarations trait_name [] m = m
index_declarations trait_name (d ∷ ds) m =
    index_declarations trait_name ds
      (put d.event (record { trait_name = trait_name; fields = get_or d.payload_schema [] }) m)

abbrev pub emit_index :
    List (String × List EmitDeclaration) → List (String × Emitter) → List (String × Emitter)
emit_index [] m = m
emit_index ((trait_name, ds) ∷ emits) m = emit_index emits (index_declarations trait_name ds m)

abbrev pub check_refs : String → String → Emitter → List String → List PayloadMismatch
check_refs listener event e [] = []
check_refs listener event e (r ∷ rs) =
    let rest = check_refs listener event e rs in
    if contains r e.fields
    then rest
    else record {
      listener_trait = listener;
      emitter_trait = e.trait_name;
      event = event;
      referenced_field = r;
      available_fields = e.fields;
    }
      ∷ rest

abbrev pub check_mapping : String → String → Option Emitter → Option SEntries → List PayloadMismatch
check_mapping listener event none mapping = []
check_mapping listener event (some e) none = []
check_mapping listener event (some e) (some mapping) =
    check_refs listener event e (extract_payload_references mapping)

abbrev pub check_listeners : String → List (String × Emitter) → List Listener → List PayloadMismatch
check_listeners name index [] = []
check_listeners name index (l ∷ ls) =
    check_mapping name l.event (get l.event index) l.payload_mapping
    ++ check_listeners name index ls

abbrev pub check_traits : List (String × Emitter) → List ListeningTrait → List PayloadMismatch
check_traits index [] = []
check_traits index (t ∷ ts) =
    check_listeners t.name index (get_or t.listens []) ++ check_traits index ts

unfoldable pub validate_payload_shapes :
    List ListeningTrait → List (String × List EmitDeclaration) → List PayloadMismatch
validate_payload_shapes traits emits = check_traits (emit_index emits []) traits
