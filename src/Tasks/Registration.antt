-- ===== src/Tasks/Registration.antt =====
-- runtime_protocol/store.py: upsert_executor. The capabilities that an executor advertises come
-- decoded: a bare id is an advertisement with no other field.
pub mod Catalog
mod Samples
use banodoco_workspace_runti.Base.{
  ℕ, Bool, false, Option, none, some, List, [], ◌∷◌, map, ltb, upsert, ◌==◌, Result, ok, validation,
  ◌>>=◌, ◌>>◌, require,
}
use banodoco_workspace_runti.Json.{Json}
use banodoco_workspace_runti.Facts.{normalize_execution_facts}
use banodoco_workspace_runti.Facts.Printed.{json_of}
use banodoco_workspace_runti.Tasks.Rows.{CapabilityStatus, ready, Descriptor, Executor}
use banodoco_workspace_runti.Tasks.Realm.{Realm, World}
use banodoco_workspace_runti.Tasks.Executors.{
  capability_at, validate_runtime_epoch, distinct_keys, register_capability, reason_of,
}

pub record Advertisement : Type 0 where
  pub descriptor : Descriptor
  pub required_resource_keys : List ℕ
  pub unavailable_reason : Option ℕ
  pub estimated_scratch_bytes : ℕ
  pub estimated_output_bytes : ℕ

-- The fields of a registration.
pub record Registration : Type 0 where
  pub executor_id : ℕ
  pub capabilities : List Advertisement
  pub max_concurrency : ℕ
  pub resource_keys : List ℕ
  pub is_ready : Bool
  pub readiness_reason : Option ℕ
  pub runtime_epoch : Option ℕ
  pub source_digest : Option ℕ
  pub dependency_digest : Option ℕ
  pub source_epoch : Option ℕ
  pub verified_facts : Option Json

abbrev or_ready : Option CapabilityStatus → CapabilityStatus
or_ready none = ready
or_ready (some s) = s

-- A described capability supersedes the catalog's entry.
unfoldable pub register_described : List Advertisement → Realm → Realm
register_described [] db = db
register_described (a ∷ rest) db = elim a.descriptor.definition_digest [
  | none ↦ register_described rest db
  | some digest ↦ register_described rest (
      register_capability a.descriptor.capability_id digest a.required_resource_keys
        (or_ready a.descriptor.status) a.unavailable_reason a.estimated_scratch_bytes
        a.estimated_output_bytes db)
]

-- A capability that the catalog lacks is registered under the digest of its id.
unfoldable pub register_named : World → List Advertisement → Realm → Realm
register_named w [] db = db
register_named w (a ∷ rest) db =
    let id = a.descriptor.capability_id in
    elim (capability_at db id) [
      | none ↦
          register_named w rest
            (register_capability id (w.capability_id_digest id) [] ready none 0 0 db)
      | some c ↦ register_named w rest db
    ]

unfoldable pub normalized_facts : Option Json → Result (Option Json)
normalized_facts none = ok none
normalized_facts (some facts) = do
  normalized ← normalize_execution_facts facts
  ok (some (json_of normalized))

abbrev with_facts : Option Json → Descriptor → Descriptor
with_facts none d = d
with_facts (some facts) d = record d { verified_facts = some facts }

module _ (w : World) (now default_reason : ℕ) where
  -- upsert_executor
  unfoldable pub upsert_executor : Registration → Realm → Result Realm
  unfolding register_described register_named normalized_facts
  upsert_executor r db = do
    require (ltb 0 r.max_concurrency) validation
    epoch ← validate_runtime_epoch db r.runtime_epoch (some r.executor_id) false
    facts ← normalized_facts r.verified_facts
    let registered = register_named w r.capabilities (register_described r.capabilities db)
    let row : Executor = record {
      id = r.executor_id;
      max_concurrency = r.max_concurrency;
      resource_keys = distinct_keys [] r.resource_keys;
      capabilities = map (λ a. with_facts facts a.descriptor) r.capabilities;
      is_ready = r.is_ready;
      readiness_reason = reason_of default_reason r.is_ready r.readiness_reason;
      last_seen_at = some now;
      runtime_epoch = epoch;
      source_epoch = r.source_epoch;
      source_digest = r.source_digest;
      dependency_digest = r.dependency_digest;
    }
    ok (record registered {
      executors = upsert (λ e. e.id == r.executor_id) (λ e. row) row registered.executors;
    })
