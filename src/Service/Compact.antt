-- ===== src/Service/Compact.antt =====
-- runtime_protocol/idempotency.py: the form in which the command ledger keeps a response. A response
-- is decoded as far as the code looks at it; `rest` stands for its other fields.
pub mod Roundtrip
use banodoco_workspace_runti.Base.{
  ℕ, ◌≡◌, refl, sym, Bool, true, false, Option, none, some, List, [], ◌∷◌, ◌++◌, Result, ok, err,
  window_expired, ◌>>=◌, or_raise,
}
use banodoco_workspace_runti.Json.{Json}

-- response["task"]
pub record TaskPart : Type 0 where
  pub task_id : Option ℕ
  pub id : Option ℕ
  pub spec : Option Json
  pub rest : Json

-- response["run"]
pub record RunPart : Type 0 where
  pub id : Option ℕ
  pub spec_json : Option Json
  pub rest : Json

pub record Response : Type 0 where
  pub task_id : Option ℕ
  pub spec : Option Json
  pub task : Option TaskPart
  pub run : Option RunPart
  pub capabilities : Option Json
  pub rest : Json

-- A result that is an object, or any other JSON value.
pub data Value : Type 0 where
  response : Response → Value
  plain : Json → Value

pub data Kind : Type 0 where
  task_claim task_create attempt_settle task_cancel task_retry attempt_fail : Kind
  attempt_heartbeat executor_register object_ingest media_import parent_publish : Kind
  other : ℕ → Kind

-- The kinds whose specs stay in the rows of tasks and runs.
abbrev pub omits_specs : Kind → Bool
omits_specs task_claim = true
omits_specs task_create = true
omits_specs attempt_settle = true
omits_specs task_cancel = true
omits_specs task_retry = true
omits_specs attempt_fail = true
omits_specs attempt_heartbeat = true
omits_specs _ = false

-- An element of `specs`: where the spec was, and the row that has it.
pub data Slot : Type 0 where
  of_response of_task of_run : (identity : ℕ) → Slot

-- result_json
pub data Packed : Type 0 where
  whole : Value → Packed
  task_spec : Response → List Slot → Packed
  registration : Response → (catalog : ℕ) → Packed
  expired : (hash : ℕ) → Packed

abbrev pub or_id : Option ℕ → Option ℕ → Option ℕ
or_id none b = b
or_id (some a) b = some a

-- One of the places that may hold a spec: its identity, its spec if both are there.
abbrev pub slot : (ℕ → Slot) → Option ℕ → Option Json → List Slot
slot make (some id) (some spec) = make id ∷ []
slot make _ _ = []

abbrev pub left_over : Option ℕ → Option Json → Option Json
left_over (some id) (some spec) = none
left_over _ spec = spec

abbrev pub task_slots : Option TaskPart → List Slot
task_slots none = []
task_slots (some t) = slot of_task (or_id t.task_id t.id) t.spec

abbrev pub run_slots : Option RunPart → List Slot
run_slots none = []
run_slots (some r) = slot of_run r.id r.spec_json

abbrev pub short_task : Option TaskPart → Option TaskPart
short_task none = none
short_task (some t) = some (record t { spec = left_over (or_id t.task_id t.id) t.spec })

abbrev pub short_run : Option RunPart → Option RunPart
short_run none = none
short_run (some r) = some (record r { spec_json = left_over r.id r.spec_json })

unfoldable pub slots : Response → List Slot
slots r = slot of_response r.task_id r.spec ++ (task_slots r.task ++ run_slots r.run)

abbrev pub short : Response → Response
short r = record r {
  spec = left_over r.task_id r.spec;
  task = short_task r.task;
  run = short_run r.run;
}

abbrev pub pack_specs : Response → List Slot → Packed
pack_specs r [] = whole (response r)
pack_specs r (s ∷ ss) = task_spec (short r) (s ∷ ss)

abbrev pub is_registration : Kind → Bool
is_registration executor_register = true
is_registration _ = false

-- The base64 text of a compressed catalog; `unzip` is its inverse in zlib and base64.
module _ (zip : Json → ℕ) where
  abbrev pub pack_registration : Response → Packed
  pack_registration r = elim r.capabilities [
    | none ↦ whole (response r)
    | some catalog ↦ registration (record r { capabilities = none }) (zip catalog)
  ]

  -- compact_result
  unfoldable pub compact_result : Kind → Value → Packed
  unfolding slots
  compact_result kind (plain v) = whole (plain v)
  compact_result kind (response r) = elim (omits_specs kind) [
    | true ↦ pack_specs r (slots r)
    | false ↦ elim (is_registration kind) [
      | true ↦ pack_registration r
      | false ↦ whole (response r)
    ]
  ]

module _ (unzip : ℕ → Json) (task_body run_body : ℕ → Option Json) where
  abbrev with_task_spec : Json → Option TaskPart → Option TaskPart
  with_task_spec body none = none
  with_task_spec body (some t) = some (record t { spec = some body })

  abbrev with_run_spec : Json → Option RunPart → Option RunPart
  with_run_spec body none = none
  with_run_spec body (some r) = some (record r { spec_json = some body })

  -- One round of the loop over the specs: the row's spec goes back to its place.
  unfoldable pub refill : Slot → Response → Result Response
  refill (of_response id) r = do
    body ← or_raise (task_body id) window_expired
    ok (record r { spec = some body })
  refill (of_task id) r = do
    body ← or_raise (task_body id) window_expired
    ok (record r { task = with_task_spec body r.task })
  refill (of_run id) r = do
    body ← or_raise (run_body id) window_expired
    ok (record r { run = with_run_spec body r.run })

  unfoldable pub refill_all : List Slot → Response → Result Response
  unfolding refill
  refill_all [] r = ok r
  refill_all (s ∷ ss) r = do r' ← refill s r; refill_all ss r'

  -- command_result, after its test of the replay window
  unfoldable pub unpack : Packed → Result Value
  unfolding refill_all
  unpack (whole v) = ok v
  unpack (task_spec r ss) = do r' ← refill_all ss r; ok (response r')
  unpack (registration r catalog) = ok (response (record r { capabilities = some (unzip catalog) }))
  unpack (expired hash) = err window_expired
