-- ===== src/Tasks/Grants.antt =====
-- What a claim of runtime_protocol/store.py leaves behind: a task that waits, or a lease.
use banodoco_workspace_runti.Base.{
  ℕ, ◌+◌, ◌==◌, ◌≡◌, refl, sym, subst, Bool, true, false, not, ◌&&◌, none, some, Bool-cases, ◌⊎◌,
  inl, inr, arith, count, ok, conflict, Each, Each-bind, Each-step, Each-if, Each-ok, Each-map,
  Each-option, Each-list, Each-require, Each-or_raise,
}
use banodoco_workspace_runti.Tasks.Rows.{
  Task, Executor, running, at, is_running, is_provider_unknown,
}
use banodoco_workspace_runti.Tasks.Realm.{
  Realm, World, task_at, update_task, update_run, append_event,
}
use banodoco_workspace_runti.Tasks.Continuations.{
  spec_of, project_of, continuation_rows, is_admitted, admit_continuation,
}
use banodoco_workspace_runti.Tasks.Reap.{reap_expired_leases}
use banodoco_workspace_runti.Tasks.Executors.{
  executor_at, capability_at, update_executor, validate_runtime_epoch,
}
use banodoco_workspace_runti.Tasks.Claim.{
  lease_time, set_running, same_status, stamp_toolchain, is_claimable, grant, claim_block,
  grant_or_wait, claim_found, claim_task,
}
use banodoco_workspace_runti.Tasks.Clear.{Clear, claim_block-Clear}
use banodoco_workspace_runti.Tasks.Follows.Waiting.{own_id, self_found}
use banodoco_workspace_runti.Tasks.Follows.Steady.{
  admit_continuation-Holds, Holds-set_waiting_reason,
}
use banodoco_workspace_runti.Tasks.Fencing.Settled.{updated_row}

-- The task is there and does not run.
abbrev pub Idle : ℕ → Realm → Type 0
Idle id db = (t : Task) × (task_at db id ≡ some t) × (is_running t.status ≡ false)

abbrev IdleRow : Task → Type 0
IdleRow t = is_running t.status ≡ false

-- The row holds the lease that a claim of `t` grants.
pub record Leased (now executor token epoch : ℕ) (t u : Task) : Type 0 where
  pub status : u.status ≡ running
  pub executor_id : u.executor_id ≡ some executor
  pub lease_token : u.lease_token ≡ some token
  pub lease_fence : u.lease_fence ≡ t.lease_fence + 1
  pub lease_expires_at : u.lease_expires_at ≡ some (at (now + lease_time))
  pub attempt : u.attempt ≡ t.attempt + 1
  pub runtime_epoch : u.runtime_epoch ≡ some epoch
  pub waiting_reason : u.waiting_reason ≡ none

-- The executor passed every test in `r`, on the row `t` there, and the task is leased in `b`.
pub record Passed (w : World) (now id executor token epoch : ℕ) (r b : Realm) : Type 0 where
  pub t : Task
  pub e : Executor
  pub u : Task
  pub found : task_at r id ≡ some t
  pub fit : executor_at r executor ≡ some e
  pub clear : Clear w now r t e (capability_at r t.capability)
  pub row : task_at b id ≡ some u
  pub leased : Leased now e.id token epoch t u

-- The tests were made in the realm after the sweep of expired leases, or in the one that admitting
-- the task as a continuation made of that.
pub record Granted (w : World) (now fuel id executor token epoch : ℕ) (a b : Realm) : Type 0 where
  pub swept : Realm
  pub r : Realm
  pub sweep : reap_expired_leases w now fuel a ≡ ok swept
  pub admission : (r ≡ swept) ⊎ (admit_continuation w now id swept ≡ ok r)
  pub passed : Passed w now id executor token epoch r b

abbrev pub Outcome : World → ℕ → ℕ → ℕ → ℕ → ℕ → ℕ → Realm → Realm → Type 0
Outcome w now fuel id executor token epoch a b =
    Idle id b ⊎ Granted w now fuel id executor token epoch a b

-- What the claim leaves once its sweep has left `s`.
abbrev Tested : World → ℕ → ℕ → ℕ → ℕ → ℕ → Realm → Realm → Type 0
Tested w now id executor token epoch s b =
    Idle id b
    ⊎ ((r : Realm) × ((r ≡ s) ⊎ (admit_continuation w now id s ≡ ok r))
        × Passed w now id executor token epoch r b)

claimable_idle :
    (recovery : Bool) (t : Task) → is_claimable recovery t ≡ true → is_running t.status ≡ false
unfolding is_claimable
claimable_idle recovery t h = ground arith

same_epoch :
    (db : Realm) (epoch executor n : ℕ)
    → validate_runtime_epoch db (some epoch) (some executor) true ≡ ok n
    → n ≡ epoch
unfolding validate_runtime_epoch
same_epoch db epoch executor n h = ground arith

module _ (w : World) (now : ℕ) where
  stamped_row :
      (task : Task) (e : Executor) (db : Realm) (t : Task) (ex token epoch : ℕ)
      → task_at db task.id ≡ some t
      → t.id ≡ task.id
      → Leased now ex token epoch task t
      → (u : Task) × (task_at (stamp_toolchain w task e db) task.id ≡ some u)
        × Leased now ex token epoch task u
  unfolding stamp_toolchain
  stamped_row task e db t ex token epoch found own l =
      elim (Bool-cases (task.capability == w.render_capability)) [
        | inl c ↦ rw c (
          _,
          updated_row db task.id _ t (λ u. refl) found own,
          record {
            status = l.status;
            executor_id = l.executor_id;
            lease_token = l.lease_token;
            lease_fence = l.lease_fence;
            lease_expires_at = l.lease_expires_at;
            attempt = l.attempt;
            runtime_epoch = l.runtime_epoch;
            waiting_reason = l.waiting_reason;
          },
        )
        | inr c ↦ rw c (t, found, l)
      ]

  granted_row :
      (task : Task) (e : Executor) (token epoch : ℕ) (db : Realm)
      → task_at db task.id ≡ some task
      → Each
          (λ b. (u : Task) × (task_at b task.id ≡ some u) × Leased now e.id token epoch task u)
          (grant w now task e token epoch db)
  unfolding grant append_event update_executor update_run task_at
  granted_row task e token epoch db found =
      Each-require
        (λ b. (u : Task) × (task_at b task.id ≡ some u) × Leased now e.id token epoch task u)
        (count (λ t. t.id == task.id && same_status t.status task.status) db.tasks == 1) conflict _
        λ _.
          stamped_row task e
            (update_task task.id (set_running now epoch e.id token (task.lease_fence + 1)) db)
            (set_running now epoch e.id token (task.lease_fence + 1) task) e.id token epoch
            (updated_row db task.id (set_running now epoch e.id token (task.lease_fence + 1)) task
              (λ u. refl) found refl)
            refl
            (record {
              status = refl;
              executor_id = refl;
              lease_token = refl;
              lease_fence = refl;
              lease_expires_at = refl;
              attempt = refl;
              runtime_epoch = refl;
              waiting_reason = refl;
            })

  grant_or_wait-Outcome :
      (id : ℕ) (task : Task) (executor token epoch : ℕ) (db : Realm)
      → task_at db id ≡ some task
      → is_running task.status ≡ false
      → Each
          (λ b. Idle id b ⊎ Passed w now id executor token epoch db b)
          (grant_or_wait w now task executor token epoch db)
  unfolding grant_or_wait
  grant_or_wait-Outcome id task executor token epoch db found idle =
      let c = capability_at db task.capability in
      let P = λ (b : Realm). Idle id b ⊎ Passed w now id executor token epoch db b in
      Each-step P (w.validate_snapshot_refs now (project_of db task.run_id) (spec_of task)) _ λ _ _.
        Each-step P (claim_block w now db task (executor_at db executor) c) _ λ block h.
          Each-option P block _ _
            (λ clear.
              Each-option P (executor_at db executor) _ _ (λ _. tt)
                λ e fit.
                  Each-map
                    (λ b.
                      (u : Task) × (task_at b task.id ≡ some u)
                      × Leased now e.id token epoch task u)
                    P (grant w now task e token epoch db)
                    (granted_row task e token epoch db (self_found db id task found))
                    λ b g.
                      let (u, row, leased) = g in
                      inr (record {
                        t = task;
                        e = e;
                        u = u;
                        found = found;
                        fit = fit;
                        clear = claim_block-Clear w now db task e c cc;
                        row = subst (λ j. task_at b j ≡ some u) (own_id db id task found) row;
                        leased = leased;
                      }))
            (λ r _. inl (
              Holds-set_waiting_reason id IdleRow (λ u s r n i. i) now task.id (some r) db
                (task, found, idle)))

  tested :
      (id executor token epoch : ℕ) (s r : Realm)
      → (r ≡ s) ⊎ (admit_continuation w now id s ≡ ok r)
      → (b : Realm) → Idle id b ⊎ Passed w now id executor token epoch r b
      → Tested w now id executor token epoch s b
  tested id executor token epoch s r admission b (inl idle) = inl idle
  tested id executor token epoch s r admission b (inr passed) = inr (r, admission, passed)

  claim_found-Outcome :
      (id : ℕ) (task : Task) (executor token epoch : ℕ) (db : Realm)
      → task_at db id ≡ some task
      → is_running task.status ≡ false
      → Each
          (Tested w now id executor token epoch db)
          (claim_found w now task executor token epoch db)
  unfolding claim_found
  claim_found-Outcome id task executor token epoch db found idle =
      let P = Tested w now id executor token epoch db in
      let Q = λ (r b : Realm). Idle id b ⊎ Passed w now id executor token epoch r b in
      let here : Each P (grant_or_wait w now task executor token epoch db) =
        (Each-map (Q db) P (grant_or_wait w now task executor token epoch db)
          (grant_or_wait-Outcome id task executor token epoch db found idle)
          (tested id executor token epoch db db (inl refl))) in
      Each-list P (continuation_rows db task.id) _ _ (λ _. here)
        λ r rs _.
          Each-if P (is_admitted db task.id) _ _ (λ _. here)
            λ _.
              Each-bind (Idle id) P (admit_continuation w now task.id db) _
                (subst (λ j. Each (Idle id) (admit_continuation w now j db))
                  (sym (own_id db id task found))
                  (admit_continuation-Holds id IdleRow (λ u s r n i. i) w now id db
                    (task, found, idle)))
                λ b admitted i.
                  Each-if P (not (is_admitted b task.id)) _ _ (λ _. inl i)
                    λ _. Each-or_raise P (task_at b task.id) _ _ λ t e.
                      let row = subst (λ j. task_at b j ≡ some t) (own_id db id task found) e in
                      let admission =
                        subst (λ j. admit_continuation w now j db ≡ ok b) (own_id db id task found)
                          admitted in
                      let (t', found', idle') = i in
                      let same : t' ≡ t = cc in
                      Each-map (Q b) P (grant_or_wait w now t executor token epoch b)
                        (grant_or_wait-Outcome id t executor token epoch b row
                          (subst (λ (x : Task). is_running x.status ≡ false) same idle'))
                        (tested id executor token epoch db b (inr admission))

  granted :
      (fuel id executor token epoch : ℕ) (a s : Realm)
      → reap_expired_leases w now fuel a ≡ ok s
      → (b : Realm) → Tested w now id executor token epoch s b
      → Outcome w now fuel id executor token epoch a b
  granted fuel id executor token epoch a s sweep b (inl idle) = inl idle
  granted fuel id executor token epoch a s sweep b (inr (r, admission, passed)) =
      inr (record { swept = s; r = r; sweep = sweep; admission = admission; passed = passed })

  -- A claim that is accepted leaves the task not running, or leaves it leased to the executor until
  -- 30 seconds from now, under the claim's token and epoch and the next fence and attempt. In the
  -- second case the executor passed every test in the realm that the sweep of expired leases made of
  -- the given one, or, where the claim first admitted the task as a continuation, in the realm that
  -- the admission made of that: it is ready and live, it offers the capability, its facts and the
  -- storage suffice, it runs fewer tasks than its limit, and the required keys are free.
  pub claim_task-Outcome :
      (fuel : ℕ) (recovery : Bool) (id executor token epoch : ℕ) (a b : Realm)
      → claim_task w now fuel recovery id (some executor) (some token) (some epoch) a ≡ ok b
      → Outcome w now fuel id executor token epoch a b
  unfolding claim_task validate_runtime_epoch is_claimable
  claim_task-Outcome fuel recovery id executor token epoch a b h =
      let P = Outcome w now fuel id executor token epoch a in
      Each-ok P (claim_task w now fuel recovery id (some executor) (some token) (some epoch) a)
        (Each-step P (validate_runtime_epoch a (some epoch) (some executor) true) _ λ now_epoch v.
          Each-step P (reap_expired_leases w now fuel a) _ λ r sweep.
            Each-or_raise P (task_at r id) _ _ λ task e.
              Each-require P (is_claimable recovery task) conflict _ λ c.
                let idle = claimable_idle recovery task c in
                Each-if P (is_provider_unknown task.waiting_reason && not recovery) _ _
                  (λ _. inl (task, e, idle))
                  (λ _.
                    Each-map (Tested w now id executor token epoch r) P
                      (claim_found w now task executor token now_epoch r)
                      (subst
                        (λ n.
                          Each (Tested w now id executor token n r)
                            (claim_found w now task executor token now_epoch r))
                        (same_epoch a epoch executor now_epoch v)
                        (claim_found-Outcome id task executor token now_epoch r e idle))
                      (granted fuel id executor token epoch a r sweep)))
        h
