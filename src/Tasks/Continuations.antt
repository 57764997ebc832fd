-- ===== src/Tasks/Continuations.antt =====
-- runtime_protocol/store.py: a continuation waits for its ordered predecessors and takes their
-- outputs as its inputs once, when all have completed.
use banodoco_workspace_runti.Base.{
  ℕ, Bool, false, not, ◌&&◌, ◌||◌, Option, none, some, List, [], ◌∷◌, ◌++◌, first, update, any,
  ◌==◌, if◌then◌else◌, Result, ok, err, validation, ◌>>=◌, ◌>>◌,
}
use banodoco_workspace_runti.Tasks.Rows.{
  Task, Dependency, Admission, ResolvedChild, Output, Spec, TaskResult, Waiting,
  dependency_cancelled, dependency_failed, waiting_for_dependencies, is_queued, is_cancelled,
  is_failed, is_completed,
}
use banodoco_workspace_runti.Tasks.Realm.{
  Realm, World, task_continuation_admitted, task_at, run_at, append_event, set_waiting_reason,
}

abbrev pub empty_spec : Spec
empty_spec = record {
  input_object_ids = [];
  resolved_children = [];
  storage_estimate = none;
  required_facts = none;
  delegated_parent = none;
  child_delegation = none;
  delegation_closed_attempt_id = none;
  runtime_reuse_toolchain = none;
}

-- _spec: an absent spec is the empty object
abbrev pub spec_of : Task → Spec
spec_of t = elim t.spec [ none ↦ empty_spec | some s ↦ s ]

-- The join of the task's dependencies with their predecessors, by ordinal.
unfoldable pub dependency_rows : ℕ → List Task → List Dependency → List (ℕ × Task)
dependency_rows id tasks [] = []
dependency_rows id tasks (d ∷ ds) =
    let rest = dependency_rows id tasks ds in
    if d.continuation_task_id == id
    then (elim (first (λ t. t.id == d.predecessor_task_id) tasks) [
      | none ↦ rest
      | some t ↦ (d.ordinal, t) ∷ rest
    ])
    else rest

-- _continuation_rows
unfoldable pub continuation_rows : Realm → ℕ → List (ℕ × Task)
unfolding dependency_rows
continuation_rows db id = dependency_rows id db.tasks db.dependencies

-- _continuation_waiting_reason
unfoldable pub continuation_waiting_reason : List (ℕ × Task) → Option Waiting
continuation_waiting_reason rows =
    if any (λ r. is_cancelled r.1.status) rows
    then some dependency_cancelled
    else if any (λ r. is_failed r.1.status) rows
    then some dependency_failed
    else if any (λ r. not (is_completed r.1.status)) rows
    then some waiting_for_dependencies
    else none

unfoldable pub mem : ℕ → List ℕ → Bool
mem a [] = false
mem a (x ∷ xs) = x == a || mem a xs

-- The inner loop over one predecessor's outputs: every digest well formed, each input once.
unfoldable pub collect_inputs : List Output → List ℕ → Result (List ℕ)
unfolding mem
collect_inputs [] inputs = ok inputs
collect_inputs (o ∷ os) inputs = elim o.digest [
  | none ↦ err validation
  | some d ↦ collect_inputs os (if mem d inputs then inputs else inputs ++ d ∷ [])
]

abbrev pub outputs_of : Option TaskResult → Option (List Output)
outputs_of none = none
outputs_of (some r) = r.outputs

-- The outer loop over the rows: the resolved children and the ordered inputs.
unfoldable pub resolve_children : List (ℕ × Task) → List ℕ → Result (List ResolvedChild × List ℕ)
unfolding collect_inputs
resolve_children [] inputs = ok ([], inputs)
resolve_children ((ordinal, t) ∷ rows) inputs = elim (outputs_of t.result) [
  | none ↦ err validation
  | some outputs ↦ do
    inputs' ← collect_inputs outputs inputs
    rest ← resolve_children rows inputs'
    ok (record { task_id = t.id; ordinal = ordinal; outputs = outputs } ∷ rest.0, rest.1)
]

unfoldable pub is_admitted : Realm → ℕ → Bool
is_admitted db id = any (λ a. a.continuation_task_id == id) db.admissions

abbrev pub project_of : Realm → ℕ → Option ℕ
project_of db run_id = elim (run_at db run_id) [ none ↦ none | some r ↦ r.project_id ]

module _ (w : World) (now : ℕ) where
  -- The writes of _admit_continuation: the admission, and the spec with its inputs filled in.
  unfoldable pub record_admission : Task → List ResolvedChild → List ℕ → Realm → Realm
  record_admission task children inputs db =
      let spec = record (spec_of task) {
        input_object_ids = inputs;
        resolved_children = children;
      } in
      let admission : Admission = record {
        continuation_task_id = task.id;
        children = children;
        input_object_ids = inputs;
      } in
      append_event w now task.run_id (some task.id) (task_continuation_admitted children inputs)
        (record db {
          admissions = admission ∷ db.admissions;
          tasks =
              update (λ t. t.id == task.id && is_queued t.status)
                (λ t. record t { spec = some spec; waiting_reason = none; updated_at = now })
                db.tasks;
        })

  -- The part of _admit_continuation after its guards.
  unfoldable pub materialize : Task → List (ℕ × Task) → Realm → Result Realm
  unfolding resolve_children record_admission
  materialize task rows db = do
    (children, inputs) ← resolve_children rows []
    w.validate_task_inputs now (project_of db task.run_id) inputs
    ok (record_admission task children inputs db)

  unfoldable pub admit_or_wait : Task → List (ℕ × Task) → Realm → Result Realm
  unfolding materialize
  admit_or_wait task rows db = elim (continuation_waiting_reason rows) [
    | some reason ↦ ok (set_waiting_reason now task.id (some reason) db)
    | none ↦ materialize task rows db
  ]

  -- _admit_continuation
  unfoldable pub admit_continuation : ℕ → Realm → Result Realm
  unfolding admit_or_wait
  admit_continuation id db = elim (continuation_rows db id) [
    | [] ↦ ok db
    | r ∷ rs ↦ elim (task_at db id) [
      | none ↦ ok db
      | some task ↦
          if not (is_queued task.status)
          then ok db
          else if is_admitted db id
          then ok db
          else admit_or_wait task (r ∷ rs) db
    ]
  ]

  unfoldable pub note_waiting : ℕ → Realm → Realm
  note_waiting id db =
      if is_admitted db id
      then db
      else set_waiting_reason now id (continuation_waiting_reason (continuation_rows db id)) db

  -- One round of _refresh_continuations_for_predecessor.
  unfoldable pub refresh_continuation : ℕ → Realm → Result Realm
  unfolding note_waiting
  refresh_continuation id db = do db' ← admit_continuation id db; ok (note_waiting id db')

  unfoldable pub refresh_each : ℕ → List Dependency → Realm → Result Realm
  unfolding refresh_continuation
  refresh_each id [] db = ok db
  refresh_each id (d ∷ ds) db =
      let rest = (λ (db' : Realm). refresh_each id ds db') in
      if d.predecessor_task_id == id
      then refresh_continuation d.continuation_task_id db >>= rest
      else rest db

  -- _refresh_continuations_for_predecessor
  unfoldable pub refresh_continuations_for_predecessor : ℕ → Realm → Result Realm
  unfolding refresh_each
  refresh_continuations_for_predecessor id db = refresh_each id db.dependencies db
