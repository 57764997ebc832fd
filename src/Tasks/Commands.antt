-- ===== src/Tasks/Commands.antt =====
-- The commands of the task lifecycle, and the realms that any sequence of them reaches. Each command
-- is one transaction, at a time of its own; one that raises leaves the realm as it was.
use banodoco_workspace_runti.Base.{ℕ, Bool, true, not, ◌==◌, Option, List, ◌≡◌, Result, ok}
use banodoco_workspace_runti.Tasks.Rows.{TaskResult}
use banodoco_workspace_runti.Tasks.Realm.{Realm, World}
use banodoco_workspace_runti.Tasks.Cancel.{cancel_task}
use banodoco_workspace_runti.Tasks.Reap.{reap_expired_leases}
use banodoco_workspace_runti.Tasks.Executors.{set_executor_readiness, heartbeat_executor}
use banodoco_workspace_runti.Tasks.Claim.{claim_task}
use banodoco_workspace_runti.Tasks.Settle.{heartbeat_task, settle_attempt, fail_task}
use banodoco_workspace_runti.Tasks.Session.{begin_runtime_session}
use banodoco_workspace_runti.Tasks.Runs
use banodoco_workspace_runti.Tasks.Retry
use banodoco_workspace_runti.Tasks.Registration.{Registration, upsert_executor}

pub data Command : Type 0 where
  claim : (recovery : Bool) → (id : ℕ) → (executor token epoch : Option ℕ) → Command
  heartbeat : (id token : ℕ) → (fence : Option ℕ) → (lease_seconds : ℕ) → Command
  settle :
      (id token : ℕ)
      → (fence : Option ℕ) → (attempt : ℕ) → (effect : Option ℕ) → TaskResult
      → Command
  fail : (id token : ℕ) → (fence attempt : Option ℕ) → (failure : ℕ) → Command
  cancel : (id : ℕ) → Command
  reap : Command
  boot : (boot_id floor : Option ℕ) → Command
  cancel_run : (run_id : ℕ) → Command
  retry_run : (retention run_id : ℕ) → (selected : Option (List ℕ)) → Command
  retry_task : (drained : Bool) → (id : ℕ) → (expected : Option ℕ) → Command
  set_readiness : (default : ℕ) → (id : Option ℕ) → Bool → (reason epoch : Option ℕ) → Command
  register : (default : ℕ) → Registration → Command
  heartbeat_worker :
      (default : ℕ) → (id : Option ℕ) → Option Bool → (reason epoch : Option ℕ) → Command

module _ (w : World) where
  unfoldable pub run : (now fuel : ℕ) → Command → Realm → Result Realm
  run now fuel (claim recovery id executor token epoch) =
      claim_task w now fuel recovery id executor token epoch
  run now fuel (heartbeat id token fence seconds) = heartbeat_task w now id token fence seconds
  run now fuel (settle id token fence attempt effect result) =
      settle_attempt w now id token fence attempt effect result
  run now fuel (fail id token fence attempt failure) =
      fail_task w now fuel id token fence attempt failure
  run now fuel (cancel id) = cancel_task w now fuel id
  run now fuel reap = reap_expired_leases w now fuel
  run now fuel (boot boot_id floor) = begin_runtime_session w now fuel boot_id floor
  run now fuel (cancel_run run_id) = Runs.cancel_run w now fuel run_id
  run now fuel (retry_run retention run_id selected) =
      Runs.retry_run w now fuel retention run_id selected
  run now fuel (retry_task drained id expected) = Retry.retry_task w now drained id expected
  run now fuel (set_readiness default id ready reason epoch) =
      set_executor_readiness now default id ready reason epoch
  run now fuel (register default registration) = upsert_executor w now default registration
  run now fuel (heartbeat_worker default id ready reason epoch) =
      heartbeat_executor now default id ready reason epoch

  pub data Reaches (a : Realm) : Realm → Type 0 where
    here : Reaches a a
    next :
        {b c : Realm} (now fuel : ℕ) (command : Command)
        → run now fuel command b ≡ ok c
        → Reaches a b
        → Reaches a c

  -- The command retries no task of `keep`.
  abbrev pub spares : (ℕ → Bool) → Command → Bool
  spares keep (retry_task drained id expected) = not (keep id)
  spares keep _ = true

  unfoldable pub Spared : (ℕ → Bool) → {a b : Realm} → Reaches a b → Type 0
  Spared keep here = Unit
  Spared keep (next now fuel command e before) = (spares keep command ≡ true) × Spared keep before

  -- No command on the way was a retry_task of this task.
  abbrev pub Unretried : ℕ → {a b : Realm} → Reaches a b → Type 0
  Unretried id reached = Spared (λ j. j == id) reached
