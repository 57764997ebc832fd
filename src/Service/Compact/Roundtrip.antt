-- ===== src/Service/Compact/Roundtrip.antt =====
-- The stored form of a response in runtime_protocol/idempotency.py, unpacked again.
use banodoco_workspace_runti.Base.{
  ℕ, ◌≡◌, refl, ap, ◌∙◌, Option, none, some, List, [], ◌∷◌, ◌++◌, Result, ok, err, ◌>>=◌,
}
use banodoco_workspace_runti.Json.{Json}
use banodoco_workspace_runti.Service.Compact.{
  TaskPart, RunPart, Response, response, Kind, executor_register, object_ingest, media_import,
  parent_publish, other, Slot, of_response, of_task, of_run, or_id, slot, left_over, task_slots,
  run_slots, short_task, short_run, slots, short, pack_specs, pack_registration, compact_result,
  refill, refill_all, unpack,
}

-- The row of a spec that a response leaves out still has it.
abbrev pub Held : (ℕ → Option Json) → Option ℕ → Option Json → Type 0
Held body (some id) (some spec) = body id ≡ some spec
Held body _ _ = Unit

abbrev pub HeldTask : (ℕ → Option Json) → Option TaskPart → Type 0
HeldTask body none = Unit
HeldTask body (some t) = Held body (or_id t.task_id t.id) t.spec

abbrev pub HeldRun : (ℕ → Option Json) → Option RunPart → Type 0
HeldRun body none = Unit
HeldRun body (some r) = Held body r.id r.spec_json

-- Compression loses nothing of the catalog that a response has.
abbrev pub Lossless : (Json → ℕ) → (ℕ → Json) → Option Json → Type 0
Lossless zip unzip none = Unit
Lossless zip unzip (some catalog) = unzip (zip catalog) ≡ catalog

module _ (unzip : ℕ → Json) (task_body run_body : ℕ → Option Json) where
  abbrev again : List Slot → Response → Result Response
  again = refill_all unzip task_body run_body

  bind_after :
      (m : Result Response) (f g : Response → Result Response) (k : Response → Result Response)
      → ((r : Response) → f r ≡ (g r >>= k))
      → (m >>= f) ≡ ((m >>= g) >>= k)
  bind_after (ok r) f g k h = h r
  bind_after (err e) f g k h = refl

  again-append : (xs ys : List Slot) (r : Response) → again (xs ++ ys) r ≡ (again xs r >>= again ys)
  unfolding refill_all
  again-append [] ys r = refl
  again-append (x ∷ xs) ys r =
      bind_after (refill unzip task_body run_body x r) (again (xs ++ ys)) (again xs) (again ys)
        (again-append xs ys)

  again-response :
      (id : Option ℕ) (spec : Option Json) (r : Response)
      → Held task_body id spec
      → again (slot of_response id spec) (record r { spec = left_over id spec })
        ≡ ok (record r { spec = spec })
  unfolding refill_all refill
  again-response none spec r h = refl
  again-response (some id) none r h = refl
  again-response (some id) (some spec) r h = rw h refl

  again-task_part :
      (id : Option ℕ) (spec : Option Json) (t : TaskPart) (r : Response)
      → Held task_body id spec
      → again
          (slot of_task id spec)
          (record r { task = some (record t { spec = left_over id spec }) })
        ≡ ok (record r { task = some (record t { spec = spec }) })
  unfolding refill_all refill
  again-task_part none spec t r h = refl
  again-task_part (some id) none t r h = refl
  again-task_part (some id) (some spec) t r h = rw h refl

  again-run_part :
      (id : Option ℕ) (spec : Option Json) (t : RunPart) (r : Response)
      → Held run_body id spec
      → again
          (slot of_run id spec)
          (record r { run = some (record t { spec_json = left_over id spec }) })
        ≡ ok (record r { run = some (record t { spec_json = spec }) })
  unfolding refill_all refill
  again-run_part none spec t r h = refl
  again-run_part (some id) none t r h = refl
  again-run_part (some id) (some spec) t r h = rw h refl

  again-task :
      (t : Option TaskPart) (r : Response)
      → HeldTask task_body t
      → again (task_slots t) (record r { task = short_task t }) ≡ ok (record r { task = t })
  unfolding refill_all refill
  again-task none r h = refl
  again-task (some t) r h = again-task_part (or_id t.task_id t.id) t.spec t r h

  again-run :
      (t : Option RunPart) (r : Response)
      → HeldRun run_body t
      → again (run_slots t) (record r { run = short_run t }) ≡ ok (record r { run = t })
  unfolding refill_all refill
  again-run none r h = refl
  again-run (some t) r h = again-run_part t.id t.spec_json t r h

  again-slots :
      (r : Response)
      → Held task_body r.task_id r.spec
      → HeldTask task_body r.task
      → HeldRun run_body r.run
      → again (slots r) (short r) ≡ ok r
  unfolding slots
  again-slots r h t u =
      let rest = task_slots r.task ++ run_slots r.run in
      let first = again-response r.task_id r.spec (short r) h in
      let second = again-task r.task (record (short r) { spec = r.spec }) t in
      let third = again-run r.run (record (short r) { spec = r.spec; task = r.task }) u in
      again-append (slot of_response r.task_id r.spec) rest (short r)
      ∙ ap (λ m. m >>= again rest) first
      ∙ again-append (task_slots r.task) (run_slots r.run) (record (short r) { spec = r.spec })
      ∙ ap (λ m. m >>= again (run_slots r.run)) second
      ∙ third

  unpack-specs :
      (r : Response) (ss : List Slot)
      → again ss (short r) ≡ ok r
      → unpack unzip task_body run_body (pack_specs r ss) ≡ ok (response r)
  unfolding unpack
  unpack-specs r [] h = refl
  unpack-specs r (s ∷ ss) h = ap (λ m. m >>= λ r'. ok (response r')) h

  unpack-registration :
      (zip : Json → ℕ)
      → (o : Option Json) (r : Response) → Lossless zip unzip o
      → unpack unzip task_body run_body (pack_registration zip (record r { capabilities = o }))
        ≡ ok (response (record r { capabilities = o }))
  unfolding unpack
  unpack-registration zip none r same = refl
  unpack-registration zip (some catalog) r same =
      ap (λ c. ok (response (record r { capabilities = some c }))) same

  -- A stored response unpacks to itself, if every spec that it leaves out is still in its row and the
  -- compression of its catalog loses nothing.
  pub unpack-compact_result :
      (zip : Json → ℕ)
      → (kind : Kind) (r : Response) → Lossless zip unzip r.capabilities
      → Held task_body r.task_id r.spec
      → HeldTask task_body r.task
      → HeldRun run_body r.run
      → unpack unzip task_body run_body (compact_result zip kind (response r)) ≡ ok (response r)
  unfolding compact_result unpack
  unpack-compact_result zip executor_register r same h t u =
      unpack-registration zip r.capabilities r same
  unpack-compact_result zip object_ingest r same h t u = refl
  unpack-compact_result zip media_import r same h t u = refl
  unpack-compact_result zip parent_publish r same h t u = refl
  unpack-compact_result zip (other n) r same h t u = refl
  unpack-compact_result zip kind r same h t u = unpack-specs r (slots r) (again-slots r h t u)
