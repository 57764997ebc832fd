-- ===== src/Tasks/Rows.antt =====
-- The rows of runtime_protocol/canonical_schema.py that the task lifecycle of store.py reads and
-- writes. Identifiers, lease tokens and digests are opaque texts that the code only compares: they
-- are numbers here. A task's spec is its decoded body, not the digest under which it is stored, and
-- `none` once the retention sweep has released it.
use banodoco_workspace_runti.Base.{ℕ, Bool, true, false, Option, some, List, leb}
use banodoco_workspace_runti.Json.{Json}

pub data Status : Type 0 where
  queued running cancel_requested completed failed cancelled : Status

pub data Waiting : Type 0 where
  waiting_for_worker capability_unavailable insufficient_storage : Waiting
  waiting_for_executor_facts provider_state_unknown runtime_recovery : Waiting
  dependency_cancelled dependency_failed waiting_for_dependencies : Waiting
  waiting_for_resource : ℕ → Waiting

-- A deadline column: an instant, or a text that datetime.fromisoformat refuses.
pub data Deadline : Type 0 where
  at : ℕ → Deadline
  unreadable : Deadline

-- `datetime.fromisoformat(deadline) <= current`, `true` where that raises
abbrev pub overdue : ℕ → Deadline → Bool
overdue now (at t) = leb t now
overdue now unreadable = true

-- The child_delegation policy: its content's identity and limits.max_active_children.
pub record Policy : Type 0 where
  pub content : ℕ
  pub max_active_children : Option ℕ

-- spec["delegated_parent"]
pub record Lineage : Type 0 where
  pub parent_task_id : ℕ
  pub parent_attempt_id : ℕ
  pub parent_lease_id : ℕ
  pub parent_fence : ℕ
  pub runtime_epoch : ℕ
  pub project_id : Option ℕ
  pub executor_id : ℕ
  pub policy_digest : Option ℕ

-- An output of a settled task: its digest if that is a well-formed object id.
pub record Output : Type 0 where
  pub digest : Option ℕ
  pub output_port : ℕ

-- A child of spec["spec"]["runtime_dependencies"]["resolved_children"]
pub record ResolvedChild : Type 0 where
  pub task_id : ℕ
  pub ordinal : ℕ
  pub outputs : List Output

pub record Spec : Type 0 where
  pub input_object_ids : List ℕ
  pub resolved_children : List ResolvedChild
  pub storage_estimate : Option Json
  pub required_facts : Option Json
  pub delegated_parent : Option Lineage
  pub child_delegation : Option Policy
  pub delegation_closed_attempt_id : Option ℕ
  pub runtime_reuse_toolchain : Option ℕ

-- result_json: `outputs` is `none` where it is missing or no list.
pub record TaskResult : Type 0 where
  pub outputs : Option (List Output)

pub record Task : Type 0 where
  pub id : ℕ
  pub run_id : ℕ
  pub capability : ℕ
  pub spec : Option Spec
  pub request_target : Option ℕ
  pub status : Status
  pub lease_token : Option ℕ
  pub executor_id : Option ℕ
  pub attempt : ℕ
  pub expected_effect : Option ℕ
  pub result : Option TaskResult
  pub updated_at : ℕ
  pub capability_digest : Option ℕ
  pub waiting_reason : Option Waiting
  pub lease_expires_at : Option Deadline
  pub lease_fence : ℕ
  pub attempt_id : Option ℕ
  pub runtime_epoch : Option ℕ

pub record Run : Type 0 where
  pub id : ℕ
  pub project_id : Option ℕ
  pub status : Status
  pub updated_at : ℕ

pub record Attempt : Type 0 where
  pub id : ℕ
  pub task_id : ℕ
  pub lease_id : ℕ
  pub fence : ℕ
  pub executor_id : ℕ
  pub lease_expires_at : Deadline
  pub settled : Bool
  pub runtime_epoch : ℕ
  pub recovery_nonce : Option ℕ
  pub recovery_nonce_expires_at : Option ℕ
  pub recovery_nonce_used : Bool

pub record Reservation : Type 0 where
  pub task_id : ℕ
  pub resource_key : ℕ
  pub lease_token : ℕ
  pub created_at : ℕ
  pub released_at : Option ℕ
  pub executor_id : ℕ
  pub fence : ℕ
  pub lease_expires_at : Deadline
  pub runtime_epoch : ℕ

pub data CapabilityStatus : Type 0 where
  ready unavailable unsupported retired : CapabilityStatus

pub record Capability : Type 0 where
  pub id : ℕ
  pub definition_digest : ℕ
  pub status : CapabilityStatus
  pub required_resource_keys : List ℕ
  pub estimated_scratch_bytes : ℕ
  pub estimated_output_bytes : ℕ
  pub unavailable_reason : Option ℕ

-- An element of capabilities_json. A bare id is a descriptor with no other field.
pub record Descriptor : Type 0 where
  pub capability_id : ℕ
  pub definition_digest : Option ℕ
  pub status : Option CapabilityStatus
  pub verified_facts : Option Json

pub record Executor : Type 0 where
  pub id : ℕ
  pub max_concurrency : ℕ
  pub resource_keys : List ℕ
  pub capabilities : List Descriptor
  pub is_ready : Bool
  pub readiness_reason : Option ℕ
  pub last_seen_at : Option ℕ
  pub runtime_epoch : ℕ
  pub source_epoch : Option ℕ
  pub source_digest : Option ℕ
  pub dependency_digest : Option ℕ

pub data BindingStatus : Type 0 where
  prepared claimed released stale : BindingStatus

-- resolved_target_json: the selector, and for a claimed row the placement that was verified.
pub record Placement : Type 0 where
  pub actual : ℕ
  pub is_verified : Bool
  pub executor_incarnation : ℕ

pub record Binding : Type 0 where
  pub task_id : ℕ
  pub attempt_id : Option ℕ
  pub lease_id : Option ℕ
  pub fence : ℕ
  pub executor_id : Option ℕ
  pub runtime_epoch : ℕ
  pub session_id : Option ℕ
  pub selected : ℕ
  pub placement : Option Placement
  pub status : BindingStatus

pub record Dependency : Type 0 where
  pub continuation_task_id : ℕ
  pub predecessor_task_id : ℕ
  pub ordinal : ℕ

pub record Admission : Type 0 where
  pub continuation_task_id : ℕ
  pub children : List ResolvedChild
  pub input_object_ids : List ℕ

pub data CheckpointState : Type 0 where
  durable reboot_requested executed executor_failed recovered resumed : CheckpointState

pub data ReceiptStatus : Type 0 where
  executed failed resumed : ReceiptStatus

-- recovery_receipt_json: what a reboot or a resume left.
pub record Receipt : Type 0 where
  pub checkpoint_id : ℕ
  pub attempt_id : ℕ
  pub task_id : ℕ
  pub runtime_epoch : ℕ
  pub command : ℕ
  pub status : ReceiptStatus
  pub outcome : Option ℕ

-- A row of recovery_checkpoints. Its path is that of its id.
pub record Checkpoint : Type 0 where
  pub id : ℕ
  pub attempt_id : ℕ
  pub task_id : ℕ
  pub executor_id : ℕ
  pub runtime_epoch : ℕ
  pub lease_id : ℕ
  pub fence : ℕ
  pub nonce : ℕ
  pub digest : ℕ
  pub size : ℕ
  pub state : CheckpointState
  pub receipt : Option Receipt
  pub created_at : ℕ

-- The single row of runtime_lifecycle.
pub record Lifecycle : Type 0 where
  pub runtime_epoch : ℕ
  pub boot_id : ℕ
  pub previous_boot_id : Option ℕ
  pub recovered_task_count : ℕ

abbrev pub is_queued : Status → Bool
is_queued queued = true
is_queued _ = false

abbrev pub is_running : Status → Bool
is_running running = true
is_running _ = false

abbrev pub is_cancel_requested : Status → Bool
is_cancel_requested cancel_requested = true
is_cancel_requested _ = false

abbrev pub is_completed : Status → Bool
is_completed completed = true
is_completed _ = false

abbrev pub is_failed : Status → Bool
is_failed failed = true
is_failed _ = false

abbrev pub is_cancelled : Status → Bool
is_cancelled cancelled = true
is_cancelled _ = false

-- status IN ('running', 'cancel_requested')
abbrev pub is_active : Status → Bool
is_active running = true
is_active cancel_requested = true
is_active _ = false

-- status IN ('completed', 'failed', 'cancelled')
abbrev pub is_terminal : Status → Bool
is_terminal completed = true
is_terminal failed = true
is_terminal cancelled = true
is_terminal _ = false

abbrev pub is_provider_unknown : Option Waiting → Bool
is_provider_unknown (some provider_state_unknown) = true
is_provider_unknown _ = false
