-- ===== src/Tasks/Samples/Retry.antt =====
-- A cancelled task that is retried beside a completed one, for retry_task of runtime_protocol/service.py.
use banodoco_workspace_runti.Base.{
  ℕ, ◌+◌, ◌≡◌, refl, true, false, Option, none, some, [], ◌∷◌, first, update, ok,
}
use banodoco_workspace_runti.Tasks.Rows.{
  Task, completed, cancelled, is_terminal, is_provider_unknown,
}
use banodoco_workspace_runti.Tasks.Realm.{Realm, task_at, update_task, update_run, append_event}
use banodoco_workspace_runti.Tasks.Bindings.{release_reservations, reset_execution_attempt}
use banodoco_workspace_runti.Tasks.Continuations
use banodoco_workspace_runti.Tasks.Runs.{assert_delegated_retry_capacity}
use banodoco_workspace_runti.Tasks.Retry
use banodoco_workspace_runti.Tasks.Commands.{run, retry_task, Reaches, here, next, Spared}
use banodoco_workspace_runti.Tasks.Follows.Running.{Keyed}
use banodoco_workspace_runti.Tasks.Fencing.{Refused, final_is_kept}
use banodoco_workspace_runti.Tasks.Fencing.Requeued.{Requeued, retry_task-Requeued}
use banodoco_workspace_runti.Tasks.Samples.{world, realm, realm_or, task_of}

abbrev ended : Realm
ended = record realm { tasks = task_of 11 completed ∷ task_of 13 cancelled ∷ []; reservations = [] }

ended-Keyed : Keyed ended
unfolding Continuations.mem
ended-Keyed = (refl, (refl, tt))

abbrev retried : Realm
retried = realm_or (run world 500 3 (retry_task false 13 (some 3)) ended)

retries : run world 500 3 (retry_task false 13 (some 3)) ended ≡ ok retried
unfolding run Retry.retry_task assert_delegated_retry_capacity task_at first update_task update
    update_run append_event reset_execution_attempt release_reservations
    Continuations.refresh_continuations_for_predecessor
retries = refl

reached : Reaches world ended retried
reached = next 500 3 (retry_task false 13 (some 3)) retries here

final_is_kept_example :
    (u : Task) × (task_at retried 11 ≡ some u)
    × (u.status ≡ completed)
    × (u.result ≡ none)
    × ((now token : ℕ) (fence : Option ℕ) → Refused world now 11 token fence retried)
unfolding task_at first Spared reached
final_is_kept_example =
    final_is_kept world ended-Keyed reached 11 (task_of 11 completed) refl refl (refl, tt)

accepted : Retry.retry_task world 500 false 13 (some 3) ended ≡ ok retried
unfolding run
accepted = retries

retry_task-Requeued_example :
    (t : Task) × (u : Task) × (task_at ended 13 ≡ some t)
    × (is_terminal t.status ≡ true)
    × (is_provider_unknown t.waiting_reason ≡ false)
    × (false ≡ false)
    × ((version : ℕ) → some 3 ≡ some version → version ≡ t.attempt + 1)
    × (task_at retried 13 ≡ some u)
    × Requeued t u
retry_task-Requeued_example = retry_task-Requeued world 500 false 13 (some 3) ended retried accepted
