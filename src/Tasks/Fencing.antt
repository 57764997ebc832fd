-- ===== src/Tasks/Fencing.antt =====
-- Lease fencing of runtime_protocol/store.py: what a worker can still do with a lease that has been
-- superseded, and with a task that is done.
pub mod Settled
pub mod Requeued
use banodoco_workspace_runti.Base.{
  ℕ, eq_self, suc, ◌<◌, ◌+◌, ◌*◌, ◌≡◌, refl, sym, ◌∙◌, ap, subst, Bool, true, false, Option, none,
  some, List, map, first-update, update, ◌==◌, if◌then◌else◌, arith, Result, ok, err, lease, ◌>>=◌,
  Each, Each-ok, or_raise, >>=-eq-ok,
}
use mathlib.Core.Option
use banodoco_workspace_runti.Tasks.Rows.{Task, TaskResult, Status, completed, is_running, released}
use banodoco_workspace_runti.Tasks.Realm.{
  Realm, World, task_completed, task_at, update_task, update_run, append_event,
}
use banodoco_workspace_runti.Tasks.Bindings.{release_reservations, release_execution_attempt}
use banodoco_workspace_runti.Tasks.Continuations.{refresh_continuations_for_predecessor}
use banodoco_workspace_runti.Tasks.Settle.{
  assert_lease, has_lease, has_fence, set_completed, settle_attempt_row, complete, heartbeat_task,
  settle_attempt, fail_task,
}
use banodoco_workspace_runti.Tasks.Commands.{Reaches, Unretried}
use banodoco_workspace_runti.Tasks.Follows.{TaskStep, Step, Follows, is_final}
use banodoco_workspace_runti.Tasks.Follows.Waiting.{own_id, refresh_continuations-Follows}
use banodoco_workspace_runti.Tasks.Follows.Running.{Keyed}
use banodoco_workspace_runti.Tasks.Follows.Settling.{assert_lease-running}
use banodoco_workspace_runti.Tasks.Follows.Reached.{Reaches-Leads, Reaches-all}
use banodoco_workspace_runti.Tasks.Follows.Retrying.{Fenced, Fenced-some}

pub Step-some :
    {t : Task} (o : Option Task) → Step (some t) o → (u : Task) × (o ≡ some u) × TaskStep t u
Step-some none h = absurd h
Step-some (some u) h = (u, refl, h)

-- All three commands of a lease holder are refused with a lease error, a heartbeat for a positive
-- number of seconds.
abbrev pub Refused : World → ℕ → ℕ → ℕ → Option ℕ → Realm → Type 0
Refused w now id token fence db =
    ((attempt : ℕ) (effect : Option ℕ) (result : TaskResult)
      → settle_attempt w now id token fence attempt effect result db ≡ err lease)
    × ((fuel : ℕ) (attempt : Option ℕ) (failure : ℕ)
        → fail_task w now fuel id token fence attempt failure db ≡ err lease)
    × ((seconds : ℕ) → heartbeat_task w now id token fence (suc seconds) db ≡ err lease)

-- The guards decide all three.
guard-Refused :
    (w : World) (now id token : ℕ) (fence : Option ℕ) (db : Realm) (t : Task)
    → task_at db id ≡ some t
    → assert_lease now t token fence ≡ err lease
    → Refused w now id token fence db
unfolding settle_attempt fail_task heartbeat_task
guard-Refused w now id token fence db t e g = (
  λ attempt effect result. rw e (rw g),
  λ fuel attempt failure. rw e (rw g),
  λ seconds. rw e (rw g (ground arith)),
)

assert_lease-stale :
    (now : ℕ) (t : Task) (token fence : ℕ)
    → fence < t.lease_fence
    → assert_lease now t token (some fence) ≡ err lease
unfolding assert_lease
assert_lease-stale now t token fence h = ground arith

assert_lease-idle :
    (now : ℕ) (t : Task) (token : ℕ) (fence : Option ℕ)
    → is_running t.status ≡ false
    → assert_lease now t token fence ≡ err lease
unfolding assert_lease
assert_lease-idle now t token fence h = ground arith

module _ (w : World) {a b : Realm} (key : Keyed a) (reached : Reaches w a b) where
  -- In a realm with distinct task identifiers, once a task has reached a fence, every later realm
  -- refuses a settlement, a failure or a heartbeat of the task under a smaller fence with a lease
  -- error, whatever the commands in between.
  pub stale_fence-Refused :
      (now id token fence : ℕ) (t : Task)
      → task_at a id ≡ some t
      → fence < t.lease_fence
      → Refused w now id token (some fence) b
  stale_fence-Refused now id token fence t e h =
      let f = Reaches-all w key reached in
      let (u, found, risen) =
        Fenced-some t (task_at b id) (subst (λ o. Fenced o (task_at b id)) e (f.fences id)) in
      guard-Refused w now id token (some fence) b u found
        (assert_lease-stale now u token fence (omega (arith, h, risen)))

  -- In a realm with distinct task identifiers, a completed or cancelled task keeps its status and its
  -- result over any sequence of commands in which no retry_task names it, and the realm that is
  -- reached refuses every settlement, failure and heartbeat of the task with a lease error.
  pub final_is_kept :
      (id : ℕ) (t : Task)
      → task_at a id ≡ some t
      → is_final t.status ≡ true
      → Unretried w id reached
      → (u : Task) × (task_at b id ≡ some u)
        × (u.status ≡ t.status)
        × (u.result ≡ t.result)
        × ((now token : ℕ) (fence : Option ℕ) → Refused w now id token fence b)
  final_is_kept id t e final unretried =
      let f = Reaches-Leads w (λ j. j == id) key reached unretried in
      let (u, found, s) =
        Step-some (task_at b id) (subst (λ o. Step o (task_at b id)) e (f.tasks id (eq_self id))) in
      let (same, result) = s.final final in
      (
        u,
        found,
        same,
        result,
        λ now token fence. guard-Refused w now id token fence b u found (
            assert_lease-idle now u token fence
              (idle u.status (subst (λ x. is_final x ≡ true) (sym same) final))),
      )
    where
      idle : (s : Status) → is_final s ≡ true → is_running s ≡ false
      idle s h = ground arith
