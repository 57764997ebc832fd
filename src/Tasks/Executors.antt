-- ===== src/Tasks/Executors.antt =====
-- runtime_protocol/store.py: runtime epochs, executors and capabilities, and the storage preflight.
use banodoco_workspace_runti.Base.{
  ℕ, ◌+◌, Bool, true, false, not, ◌&&◌, Option, none, some, List, [], ◌∷◌, first, update, any, all,
  upsert, ltb, leb, ◌==◌, if◌then◌else◌, Result, ok, err, lease, not_found, validation, ◌>>=◌,
  or_raise,
}
use banodoco_workspace_runti.Json.{Json}
use banodoco_workspace_runti.Facts
use banodoco_workspace_runti.Facts.{execution_facts_match, validate_storage_estimate, no_facts}
use banodoco_workspace_runti.Tasks.Rows.{Capability, CapabilityStatus, ready, Descriptor, Executor}
use banodoco_workspace_runti.Tasks.Realm.{Realm, World, current_runtime_epoch}
use banodoco_workspace_runti.Tasks.Continuations.{mem}

unfoldable pub executor_at : Realm → ℕ → Option Executor
executor_at db id = first (λ e. e.id == id) db.executors

unfoldable pub capability_at : Realm → ℕ → Option Capability
capability_at db id = first (λ c. c.id == id) db.capabilities

-- _validate_runtime_epoch
unfoldable pub validate_runtime_epoch : Realm → Option ℕ → Option ℕ → Bool → Result ℕ
validate_runtime_epoch db (some supplied) identity_id required =
    if supplied == current_runtime_epoch db then ok (current_runtime_epoch db) else err lease
validate_runtime_epoch db none identity_id true = err lease
validate_runtime_epoch db none none false = ok (current_runtime_epoch db)
validate_runtime_epoch db none (some id) false = elim (executor_at db id) [
  | none ↦ ok (current_runtime_epoch db)
  | some e ↦
      if e.runtime_epoch == current_runtime_epoch db
      then ok (current_runtime_epoch db)
      else err lease
]

unfoldable pub update_executor : ℕ → (Executor → Executor) → Realm → Realm
update_executor id f db = record db { executors = update (λ e. e.id == id) f db.executors }

-- The reason is kept only with readiness `not_ready`; `default` is "executor_not_ready".
abbrev pub reason_of : ℕ → Bool → Option ℕ → Option ℕ
reason_of default true reason = none
reason_of default false none = some default
reason_of default false (some r) = some r

module _ (now default_reason : ℕ) where
  -- set_executor_readiness
  unfoldable pub set_executor_readiness :
      Option ℕ → Bool → Option ℕ → Option ℕ → Realm → Result Realm
  set_executor_readiness executor_id is_ready reason runtime_epoch db = do
    id ← or_raise executor_id validation
    epoch ← validate_runtime_epoch db runtime_epoch (some id) true
    row ← or_raise (executor_at db id) not_found
    ok (
        update_executor id
          (λ e. record e {
            is_ready = is_ready;
            readiness_reason = reason_of default_reason is_ready reason;
            last_seen_at = some now;
            runtime_epoch = epoch;
          })
          db)

  abbrev with_readiness : Option Bool → Option ℕ → Executor → Executor
  with_readiness none reason e = e
  with_readiness (some is_ready) reason e = record e {
    is_ready = is_ready;
    readiness_reason = reason_of default_reason is_ready reason;
  }

  -- heartbeat_executor
  unfoldable pub heartbeat_executor :
      Option ℕ → Option Bool → Option ℕ → Option ℕ → Realm → Result Realm
  heartbeat_executor executor_id is_ready reason runtime_epoch db = do
    id ← or_raise executor_id validation
    epoch ← validate_runtime_epoch db runtime_epoch (some id) true
    row ← or_raise (executor_at db id) not_found
    ok (
        update_executor id
          (λ e. record (with_readiness is_ready reason e) {
            last_seen_at = some now;
            runtime_epoch = epoch;
          })
          db)

-- _executor_capability_ids contains the id
unfoldable pub advertises : Executor → ℕ → Bool
advertises e capability = any (λ d. d.capability_id == capability) e.capabilities

-- _executor_capability
unfoldable pub executor_capability : Executor → ℕ → Option Descriptor
executor_capability e capability = first (λ d. d.capability_id == capability) e.capabilities

-- EXECUTOR_LIVENESS_SECONDS, in milliseconds
abbrev pub liveness : ℕ
liveness = 90000

-- _executor_live
unfoldable pub executor_live : ℕ → Executor → Bool
executor_live now e = elim e.last_seen_at [ none ↦ false | some seen ↦ ltb now (seen + liveness) ]

abbrev pub is_ready_status : CapabilityStatus → Bool
is_ready_status ready = true
is_ready_status _ = false

-- descriptor.get("status", "ready") == "ready", an absent descriptor counting as {}
abbrev pub descriptor_ready : Option Descriptor → Bool
descriptor_ready none = true
descriptor_ready (some d) = elim d.status [ none ↦ true | some s ↦ is_ready_status s ]

-- descriptor.get("verified_facts", {"exact": {}, "minimum": {}})
abbrev pub facts_of : Option Descriptor → Json
facts_of none = no_facts
facts_of (some d) = elim d.verified_facts [ none ↦ no_facts | some facts ↦ facts ]

abbrev pub or_no_facts : Option Json → Json
or_no_facts none = no_facts
or_no_facts (some facts) = facts

-- _required_resource_keys
unfoldable pub required_resource_keys : Realm → ℕ → List ℕ
required_resource_keys db capability = elim (capability_at db capability) [
  | none ↦ []
  | some c ↦ c.required_resource_keys
]

abbrev estimate_or : Option Facts.Estimate → Option Capability → Facts.Estimate
estimate_or (some e) c = e
estimate_or none none = record { scratch_bytes = 0; output_bytes = 0 }
estimate_or none (some c) = record {
  scratch_bytes = c.estimated_scratch_bytes;
  output_bytes = c.estimated_output_bytes;
}

-- storage_preflight(…)["ok"]; `available - required >= floor`, over the integers
unfoldable pub storage_preflight : World → ℕ → Realm → ℕ → Option Json → Result Bool
storage_preflight w now db capability storage_estimate = do
  given ← validate_storage_estimate storage_estimate
  let e = estimate_or given (capability_at db capability)
  floor ← w.disk_floor
  ok (leb (floor + (e.scratch_bytes + e.output_bytes)) (w.free_disk now))

abbrev digest_fits : Option ℕ → ℕ → Bool
digest_fits none d = true
digest_fits (some e) d = d == e

abbrev facts_checked : Option Json → Descriptor → Result Bool
facts_checked none d = ok true
facts_checked (some required) d = execution_facts_match required (facts_of (some d))

-- _executor_can_run
unfoldable pub executor_can_run :
    World → ℕ → Realm → Executor → ℕ → Option ℕ → Bool → Option Json → Result Bool
unfolding executor_live executor_capability
executor_can_run w now db e capability capability_digest include_storage required_facts =
    if not (e.is_ready && executor_live now e)
    then ok false
    else elim (executor_capability e capability) [
      | none ↦ ok false
      | some d ↦ elim (capability_at db capability) [
        | none ↦ ok false
        | some c ↦
            if not (
              descriptor_ready (some d)
              && (is_ready_status c.status
                  && (digest_fits capability_digest c.definition_digest
                      && digest_fits d.definition_digest c.definition_digest)))
            then ok false
            else (do
              facts ← facts_checked required_facts d
              if not (facts && all (λ k. mem k e.resource_keys) c.required_resource_keys)
                  then ok false
                  else if include_storage
                  then storage_preflight w now db capability none
                  else ok true)
      ]
    ]

-- matching_live_executor, on the rows of the table
unfoldable pub matching_live_executor :
    World → ℕ → Realm → List Executor → ℕ → Option ℕ → Bool → Option Json → Result Bool
unfolding executor_can_run
matching_live_executor w now db [] capability digest include_storage required_facts = ok false
matching_live_executor w now db (e ∷ es) capability digest include_storage required_facts = do
  fits ← executor_can_run w now db e capability digest include_storage required_facts
  let rest = matching_live_executor w now db es capability digest include_storage required_facts
  if fits then ok true else rest

-- list(dict.fromkeys(keys))
unfoldable pub distinct_keys : List ℕ → List ℕ → List ℕ
distinct_keys seen [] = []
distinct_keys seen (k ∷ ks) =
    let skip = distinct_keys seen ks in
    let keep = k ∷ distinct_keys (k ∷ seen) ks in if mem k seen then skip else keep

-- register_capability, after its checks on the shape of its arguments
unfoldable pub register_capability :
    ℕ → ℕ → List ℕ → CapabilityStatus → Option ℕ → ℕ → ℕ → Realm → Realm
unfolding distinct_keys
register_capability id digest keys status reason scratch output db =
    let row : Capability = record {
      id = id;
      definition_digest = digest;
      status = status;
      required_resource_keys = distinct_keys [] keys;
      estimated_scratch_bytes = scratch;
      estimated_output_bytes = output;
      unavailable_reason = reason;
    } in
    record db { capabilities = upsert (λ c. c.id == id) (λ c. row) row db.capabilities }
