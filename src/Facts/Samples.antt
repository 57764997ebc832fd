-- ===== src/Facts/Samples.antt =====
-- Facts with a driver and a minimum, for normalize_execution_facts of runtime_protocol/store.py.
use banodoco_workspace_runti.Base.{◌≡◌, refl, [], ◌∷◌, ok}
use banodoco_workspace_runti.Facts
use banodoco_workspace_runti.Json
use banodoco_workspace_runti.Facts.Printed.{
  or_empty, exact_fields, minimum_fields, json_of, normalize-json_of,
}

abbrev driver : Json.Json
driver = Json.object (
    Json.field "exact" (Json.object (Json.field "driver" (Json.str "cuda") Json.end)) (
      Json.field "minimum"
        (Json.object (Json.field "vram_bytes" (Json.int (Json.pos 8000)) Json.end)) Json.end))

abbrev driver_facts : Facts.Facts
driver_facts = record {
  exact = ("driver", Facts.named "cuda") ∷ [];
  minimum = ("vram_bytes", 8000) ∷ [];
}

normalizes : Facts.normalize_execution_facts driver ≡ ok driver_facts
unfolding Facts.normalize_execution_facts Facts.sub_object Facts.exact_facts Facts.exact_fact
    Facts.minimum_facts Facts.bounded_int Json.keys_within Json.get
normalizes = refl

normalize-json_of_example :
    (fs : Json.Fields) × (driver ≡ Json.object fs)
    × (or_empty (Json.get "exact" fs) ≡ Json.object (exact_fields driver_facts.exact))
    × (or_empty (Json.get "minimum" fs) ≡ Json.object (minimum_fields driver_facts.minimum))
    × (Facts.normalize_execution_facts (json_of driver_facts) ≡ ok driver_facts)
normalize-json_of_example = normalize-json_of driver driver_facts normalizes
