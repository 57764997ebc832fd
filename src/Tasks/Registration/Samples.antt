-- ===== src/Tasks/Registration/Samples.antt =====
-- The registration of an executor, for upsert_executor of runtime_protocol/store.py.
use banodoco_workspace_runti.Base.{◌≡◌, refl, true, none, some, [], ◌∷◌, ok, All}
use banodoco_workspace_runti.Tasks.Realm.{Realm, current_runtime_epoch}
use banodoco_workspace_runti.Tasks.Executors.{validate_runtime_epoch}
use banodoco_workspace_runti.Tasks.Registration.{
  Advertisement, Registration, normalized_facts, upsert_executor,
}
use banodoco_workspace_runti.Tasks.Registration.Catalog.{Catalogued, upsert_executor-Catalogued}
use banodoco_workspace_runti.Tasks.Samples.{world, realm, realm_or}

-- Executor 4 advertises capability 21, which the catalog lacks.
abbrev registration : Registration
registration = record {
  executor_id = 4;
  capabilities =
      record {
        descriptor = record {
          capability_id = 21;
          definition_digest = none;
          status = none;
          verified_facts = none;
        };
        required_resource_keys = [];
        unavailable_reason = none;
        estimated_scratch_bytes = 0;
        estimated_output_bytes = 0;
      }
      ∷ [];
  max_concurrency = 1;
  resource_keys = [];
  is_ready = true;
  readiness_reason = none;
  runtime_epoch = some 4;
  source_digest = none;
  dependency_digest = none;
  source_epoch = none;
  verified_facts = none;
}

abbrev registered : Realm
registered = realm_or (upsert_executor world 500 1 registration realm)

registers : upsert_executor world 500 1 registration realm ≡ ok registered
unfolding upsert_executor validate_runtime_epoch current_runtime_epoch normalized_facts
registers = refl

upsert_executor-Catalogued_example :
    All
      (λ (x : Advertisement). Catalogued registered x.descriptor.capability_id)
      registration.capabilities
upsert_executor-Catalogued_example =
    upsert_executor-Catalogued world 500 1 registration realm registered registers
