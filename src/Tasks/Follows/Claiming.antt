-- ===== src/Tasks/Follows/Claiming.antt =====
-- A claim keeps `Follows`.
use banodoco_workspace_runti.Base.{
  ℕ, ◌+◌, ◌==◌, ◌≡◌, refl, ap, Bool, true, false, not, Option, none, some, List, [], ◌∷◌, count,
  arith, Each, Each-bind, Each-step, Each-if, Each-option, Each-list, Each-require, Each-or_raise,
  Bool-cases, ◌&&◌, conflict, inl, inr,
}
use banodoco_workspace_runti.Tasks.Rows.{
  Task, Executor, Reservation, Status, running, is_provider_unknown,
}
use banodoco_workspace_runti.Tasks.Realm.{Realm, World, task_at, update_task, update_run}
use banodoco_workspace_runti.Tasks.Continuations.{
  spec_of, project_of, continuation_rows, is_admitted, admit_continuation,
}
use banodoco_workspace_runti.Tasks.Reap.{reap_expired_leases}
use banodoco_workspace_runti.Tasks.Executors.{
  executor_at, capability_at, update_executor, validate_runtime_epoch, required_resource_keys,
}
use banodoco_workspace_runti.Tasks.Claim.{
  set_running, reserve, stamp_toolchain, same_status, grant, grant_or_wait, claim_block,
  is_claimable, claim_found, claim_task, blocked_key,
}
use banodoco_workspace_runti.Tasks.Clear.{claim_block-Clear}
use banodoco_workspace_runti.Tasks.Exclusive.{Exclusive, reserved-Exclusive}
use banodoco_workspace_runti.Tasks.Follows.{Follows, Follows-refl, is_final}
use banodoco_workspace_runti.Tasks.Follows.Writes.{
  Follows-update_task, Follows-append_event, Follows-update_run, Follows-set_waiting_reason,
}
use banodoco_workspace_runti.Tasks.Follows.Waiting.{
  self_found, Each-trans, admit_continuation-Follows,
}
use banodoco_workspace_runti.Tasks.Follows.Reaping.{reap_expired_leases-Follows, found_not_final}

module _ {ℓ} {A : Type ℓ} where
  count-none : (p : A → Bool) (xs : List A) → ((a : A) → p a ≡ false) → count p xs ≡ 0
  unfolding count
  count-none p [] h = refl
  count-none p (x ∷ xs) h = ground (arith, h x, count-none p xs h)

final_differs : (s u : Status) → is_final s ≡ true → same_status u s ≡ false
unfolding same_status
final_differs s u e = ground arith

-- The status that a grant finds again is not a final one.
granted_not_final :
    (task : Task) (ts : List Task)
    → (count (λ t. t.id == task.id && same_status t.status task.status) ts == 1) ≡ true
    → is_final task.status ≡ false
granted_not_final task ts e = elim (Bool-cases (is_final task.status)) [
  | inl f ↦ absurd (
      ground (
        arith,
        count-none (λ t. t.id == task.id && same_status t.status task.status) ts
            (λ t. ground (arith, final_differs task.status t.status f)),
      ))
  | inr f ↦ f
]

module _ {w : World} {a b : Realm} (h : Follows w a b) where
  pub Follows-update_executor :
      (id : ℕ) (f : Executor → Executor) → Follows w a (update_executor id f b)
  unfolding update_executor task_at
  Follows-update_executor id f = record {
    tasks = h.tasks;
    ids = h.ids;
    events = h.events;
    exclusive = h.exclusive;
    epoch = h.epoch;
    checkpoints = h.checkpoints;
  }

  Follows-reservations :
      (rs : List Reservation)
      → (Exclusive b.reservations → Exclusive rs)
      → Follows w a (record b { reservations = rs })
  unfolding task_at
  Follows-reservations rs x = record {
    tasks = h.tasks;
    ids = h.ids;
    events = h.events;
    exclusive = λ e. x (h.exclusive e);
    epoch = h.epoch;
    checkpoints = h.checkpoints;
  }

  Follows-stamp_toolchain :
      (task : Task) (e : Executor)
      → task_at a task.id ≡ some task
      → Follows w a (stamp_toolchain w task e b)
  unfolding stamp_toolchain
  Follows-stamp_toolchain task e found =
      elim (Bool-cases (task.capability == w.render_capability)) [
        | inl c ↦ rw c (
            Follows-update_task h task.id _ (λ u. refl)
              λ t u k s. record {
                identity = s.identity;
                lineage =
                    let same : task ≡ t = cc in
                    ap (λ (x : Task). (spec_of x).delegated_parent) same;
                fence = s.fence;
                final = s.final;
              })
        | inr c ↦ rw c h
      ]

module _ (w : World) (now : ℕ) where
  granted_keys :
      (task : Task) (e : Executor) (token epoch : ℕ) (db : Realm) (ks : List ℕ)
      → blocked_key db e ks ≡ none
      → let b =
          update_executor e.id
            (λ x. record x { runtime_epoch = epoch; last_seen_at = some now })
            (update_run task.run_id
              (λ r. record r { status = running; updated_at = now })
              (stamp_toolchain w task e (
                update_task task.id
                  (set_running now epoch e.id token (task.lease_fence + 1))
                  db))) in
        Exclusive b.reservations
        → Exclusive (reserve now epoch task.id e.id token (task.lease_fence + 1) ks b.reservations)
  unfolding update_executor update_run stamp_toolchain update_task
  granted_keys task e token epoch db ks free =
      elim (Bool-cases (task.capability == w.render_capability)) [
        | inl c ↦
            rw c (reserved-Exclusive now epoch task.id token (task.lease_fence + 1) db e ks free)
        | inr c ↦
            rw c (reserved-Exclusive now epoch task.id token (task.lease_fence + 1) db e ks free)
      ]

  grant-Follows :
      (task : Task) (e : Executor) (token epoch : ℕ) (db : Realm)
      → task_at db task.id ≡ some task
      → blocked_key db e (required_resource_keys db task.capability) ≡ none
      → Each (Follows w db) (grant w now task e token epoch db)
  unfolding grant
  grant-Follows task e token epoch db found free =
      Each-require (Follows w db)
        (count (λ t. t.id == task.id && same_status t.status task.status) db.tasks == 1) conflict _
        λ one.
          let unfinished =
            found_not_final db task.id task found (granted_not_final task db.tasks one) in
          Follows-append_event
            (Follows-reservations
              (Follows-update_executor
                (Follows-update_run
                  (Follows-stamp_toolchain
                    (Follows-update_task (Follows-refl {w = w} db) task.id
                      (set_running now epoch e.id token (task.lease_fence + 1)) (λ u. refl)
                      λ t u k s.
                        let same : task ≡ t = cc in
                        record {
                          identity = s.identity;
                          lineage = s.lineage;
                          fence = omega (arith, ap (λ (x : Task). x.lease_fence) same);
                          final = λ f. cc (unfinished t k);
                        })
                    task e found)
                  task.run_id _)
                e.id _)
              _
              (granted_keys task e token epoch db (required_resource_keys db task.capability) free))
            now task.run_id (some task.id) _

  grant_or_wait-Follows :
      (task : Task) (executor token epoch : ℕ) (db : Realm)
      → task_at db task.id ≡ some task
      → Each (Follows w db) (grant_or_wait w now task executor token epoch db)
  unfolding grant_or_wait
  grant_or_wait-Follows task executor token epoch db found =
      Each-step (Follows w db)
        (w.validate_snapshot_refs now (project_of db task.run_id) (spec_of task)) _
        λ _ _.
          Each-step (Follows w db)
            (claim_block w now db task (executor_at db executor) (capability_at db task.capability))
            _
            λ block h.
              Each-option (Follows w db) block _ _
                (λ clear.
                  Each-option (Follows w db) (executor_at db executor) _ _ (λ _. tt)
                    λ e at. grant-Follows task e token epoch db found (
                      let clear =
                        claim_block-Clear w now db task e (capability_at db task.capability) cc in
                      clear.keys))
                (λ r _. Follows-set_waiting_reason (Follows-refl {w = w} db) now task.id (some r))

  claim_found-Follows :
      (task : Task) (executor token epoch : ℕ) (db : Realm)
      → task_at db task.id ≡ some task
      → Each (Follows w db) (claim_found w now task executor token epoch db)
  unfolding claim_found
  claim_found-Follows task executor token epoch db found =
      Each-list (Follows w db) (continuation_rows db task.id) _ _
        (λ _. grant_or_wait-Follows task executor token epoch db found)
        λ r rs _.
          Each-if (Follows w db) (is_admitted db task.id) _ _
            (λ _. grant_or_wait-Follows task executor token epoch db found)
            λ _.
              Each-bind (Follows w db) (Follows w db) (admit_continuation w now task.id db) _
                (admit_continuation-Follows w now task.id db)
                λ b _ f.
                  Each-if (Follows w db) (not (is_admitted b task.id)) _ _ (λ _. f)
                    λ _. Each-or_raise (Follows w db) (task_at b task.id) _ _ λ t e.
                      Each-trans f (grant_or_wait w now t executor token epoch b)
                        (grant_or_wait-Follows t executor token epoch b (self_found b task.id t e))

  -- A claim, granted or not, keeps what is final, the lineages and the fences.
  pub claim_task-Follows :
      (fuel : ℕ) (recovery : Bool) (id : ℕ) (executor_id lease_token runtime_epoch : Option ℕ)
      (db : Realm)
      → Each
          (Follows w db)
          (claim_task w now fuel recovery id executor_id lease_token runtime_epoch db)
  unfolding claim_task
  claim_task-Follows fuel recovery id executor_id lease_token runtime_epoch db =
      Each-or_raise (Follows w db) executor_id _ _ λ executor _.
        Each-or_raise (Follows w db) lease_token _ _ λ token _.
          Each-step (Follows w db) (validate_runtime_epoch db runtime_epoch (some executor) true) _
            λ epoch _.
              Each-bind (Follows w db) (Follows w db) (reap_expired_leases w now fuel db) _
                (reap_expired_leases-Follows w now fuel db)
                λ b _ f. Each-or_raise (Follows w db) (task_at b id) _ _ λ task e.
                  Each-require (Follows w db) (is_claimable recovery task) conflict _ λ _.
                    Each-if (Follows w db) (is_provider_unknown task.waiting_reason && not recovery)
                      _ _ (λ _. f)
                      λ _.
                        Each-trans f (claim_found w now task executor token epoch b)
                          (claim_found-Follows task executor token epoch b (self_found b id task e))
