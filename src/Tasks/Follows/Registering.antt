-- ===== src/Tasks/Follows/Registering.antt =====
-- The registration of an executor keeps `Follows`.
use banodoco_workspace_runti.Base.{
  ℕ, ltb, false, Option, some, List, [], ◌∷◌, Option-cases, inl, inr, validation, Each, Each-step,
  Each-require,
}
use banodoco_workspace_runti.Tasks.Rows.{CapabilityStatus}
use banodoco_workspace_runti.Tasks.Realm.{Realm, World, task_at}
use banodoco_workspace_runti.Tasks.Executors.{
  capability_at, validate_runtime_epoch, register_capability,
}
use banodoco_workspace_runti.Tasks.Registration.{
  Advertisement, Registration, normalized_facts, register_described, register_named,
  upsert_executor,
}
use banodoco_workspace_runti.Tasks.Follows.{Follows, Follows-refl}

module _ {w : World} {a : Realm} where
  Follows-register_capability :
      (id digest : ℕ) (keys : List ℕ) (status : CapabilityStatus) (reason : Option ℕ)
      (scratch output : ℕ) {b : Realm}
      → Follows w a b
      → Follows w a (register_capability id digest keys status reason scratch output b)
  unfolding register_capability task_at
  Follows-register_capability id digest keys status reason scratch output h = record {
    tasks = h.tasks;
    ids = h.ids;
    events = h.events;
    exclusive = h.exclusive;
    epoch = h.epoch;
    checkpoints = h.checkpoints;
  }

  Follows-register_described :
      (rest : List Advertisement) {b : Realm}
      → Follows w a b
      → Follows w a (register_described rest b)
  unfolding register_described
  Follows-register_described [] h = h
  Follows-register_described (x ∷ rest) h = elim (Option-cases x.descriptor.definition_digest) [
    | inl e ↦ rw e (Follows-register_described rest h)
    | inr (digest, e) ↦
        rw e (Follows-register_described rest (Follows-register_capability _ digest _ _ _ _ _ h))
  ]

  Follows-register_named :
      (rest : List Advertisement) {b : Realm}
      → Follows w a b
      → Follows w a (register_named w rest b)
  unfolding register_named
  Follows-register_named [] h = h
  Follows-register_named (x ∷ rest) {b} h =
      elim (Option-cases (capability_at b x.descriptor.capability_id)) [
        | inl e ↦
            rw (e, register_named)
              (Follows-register_named rest (Follows-register_capability _ _ _ _ _ _ _ h))
        | inr (c, e) ↦ rw (e, register_named) (Follows-register_named rest h)
      ]

pub upsert_executor-Follows :
    (w : World) (now default : ℕ) (r : Registration) (db : Realm)
    → Each (Follows w db) (upsert_executor w now default r db)
unfolding upsert_executor task_at
upsert_executor-Follows w now default r db =
    Each-require (Follows w db) (ltb 0 r.max_concurrency) validation _ λ _.
      Each-step (Follows w db)
        (validate_runtime_epoch db r.runtime_epoch (some r.executor_id) false) _
        λ epoch _. Each-step (Follows w db) (normalized_facts r.verified_facts) _ λ facts _.
          let h =
            Follows-register_named r.capabilities
              (Follows-register_described r.capabilities (Follows-refl {w = w} db)) in
          record {
            tasks = h.tasks;
            ids = h.ids;
            events = h.events;
            exclusive = h.exclusive;
            epoch = h.epoch;
            checkpoints = h.checkpoints;
          }
