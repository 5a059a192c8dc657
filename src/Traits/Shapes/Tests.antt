-- ===== src/Traits/Shapes/Tests.antt =====
-- A listener that misspells a field.
use almadar_runtime.Base.{
  ◌≡◌, ◌↔◌, refl, List, [], ◌∷◌, some, String, All, get, put, insert, get_or,
}
use almadar_runtime.Traits.Shapes.{
  text, list, item, no_items, entry, no_entries, EmitDeclaration, ListeningTrait,
  validate_payload_shapes,
}
use almadar_runtime.Traits.Shapes.Fit.{ListenerFits, validate_payload_shapes_iff}

abbrev emits : List (String × List EmitDeclaration)
emits = ("Tasks", record { event = "DONE"; payload_schema = some ("taskId" ∷ "at" ∷ []) } ∷ []) ∷ []

abbrev traits : List ListeningTrait
traits =
    record {
      name = "Board";
      listens = some (
          record {
            event = "DONE";
            payload_mapping = some (
                entry "id" (text "@payload.task_id")
                  (entry "when" (list (item (text "@payload.at") no_items)) no_entries));
          }
          ∷ []);
    }
    ∷ []

mismatch_test :
    validate_payload_shapes traits emits
    ≡ record {
      listener_trait = "Board";
      emitter_trait = "Tasks";
      event = "DONE";
      referenced_field = "task_id";
      available_fields = "taskId" ∷ "at" ∷ [];
    }
      ∷ []
unfolding validate_payload_shapes get put insert
mismatch_test = refl

validate_payload_shapes_iff_example :
    (validate_payload_shapes traits emits ≡ [])
    ↔ All (λ t. All (ListenerFits emits) (get_or t.listens [])) traits
validate_payload_shapes_iff_example = validate_payload_shapes_iff emits traits
