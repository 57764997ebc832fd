-- ===== src/Tasks/Follows/Reached.antt =====
-- What holds of the realm that commands began with and of the one that they reach.
use banodoco_workspace_runti.Base.{
  ℕ, ◌≡◌, sym, subst, true, false, Bool, Option, some, arith, Result, Each, Each-map, Each-step,
  Each-or_raise, Each-ok,
}
use banodoco_workspace_runti.Tasks.Realm.{Realm, World}
use banodoco_workspace_runti.Tasks.Executors.{
  executor_at, validate_runtime_epoch, set_executor_readiness, heartbeat_executor,
}
use banodoco_workspace_runti.Tasks.Commands.{
  Command, claim, heartbeat, settle, fail, cancel, reap, boot, cancel_run, retry_run, set_readiness,
  retry_task, spares, Spared, register, heartbeat_worker, run, Reaches, here, next,
}
use banodoco_workspace_runti.Tasks.Follows.{Follows, Follows-refl}
use banodoco_workspace_runti.Tasks.Follows.Retrying.{
  Leads, Follows-Leads, Leads-trans, retry_task-Leads,
}
use banodoco_workspace_runti.Tasks.Follows.Cancelling.{cancel_task-Follows}
use banodoco_workspace_runti.Tasks.Follows.Reaping.{reap_expired_leases-Follows}
use banodoco_workspace_runti.Tasks.Follows.Claiming.{claim_task-Follows, Follows-update_executor}
use banodoco_workspace_runti.Tasks.Follows.Settling.{
  heartbeat_task-Follows, settle_attempt-Follows, fail_task-Follows,
}
use banodoco_workspace_runti.Tasks.Follows.Booting.{begin_runtime_session-Follows}
use banodoco_workspace_runti.Tasks.Follows.Registering.{upsert_executor-Follows}
use banodoco_workspace_runti.Tasks.Follows.Running.{
  Distinct, Keyed, cancel_run-Follows, retry_run-Follows,
}

module _ (w : World) (now default : ℕ) where
  readiness-Follows :
      (id : Option ℕ) (ready : Bool) (reason epoch : Option ℕ) (db : Realm)
      → Each (Follows w db) (set_executor_readiness now default id ready reason epoch db)
  unfolding set_executor_readiness
  readiness-Follows id ready reason epoch db = Each-or_raise (Follows w db) id _ _ λ i _.
      Each-step (Follows w db) (validate_runtime_epoch db epoch (some i) true) _ λ e _.
        Each-or_raise (Follows w db) (executor_at db i) _ _
          λ row _. Follows-update_executor (Follows-refl db) i _

  worker-Follows :
      (id : Option ℕ) (ready : Option Bool) (reason epoch : Option ℕ) (db : Realm)
      → Each (Follows w db) (heartbeat_executor now default id ready reason epoch db)
  unfolding heartbeat_executor
  worker-Follows id ready reason epoch db = Each-or_raise (Follows w db) id _ _ λ i _.
      Each-step (Follows w db) (validate_runtime_epoch db epoch (some i) true) _ λ e _.
        Each-or_raise (Follows w db) (executor_at db i) _ _
          λ row _. Follows-update_executor (Follows-refl db) i _

module _ (w : World) (keep : ℕ → Bool) where
  leading : (a : Realm) (m : Result Realm) → Each (Follows w a) m → Each (Leads w keep a) m
  leading a m h = Each-map (Follows w a) (Leads w keep a) m h λ b f. Follows-Leads keep f

  pub run-Leads :
      (now fuel : ℕ) (c : Command) (db : Realm)
      → Keyed db
      → spares w keep c ≡ true
      → Each (Leads w keep db) (run w now fuel c db)
  unfolding run
  run-Leads now fuel (claim recovery id executor token epoch) db k s =
      leading db _ (claim_task-Follows w now fuel recovery id executor token epoch db)
  run-Leads now fuel (heartbeat id token fence seconds) db k s =
      leading db _ (heartbeat_task-Follows w now id token fence seconds db)
  run-Leads now fuel (settle id token fence attempt effect result) db k s =
      leading db _ (settle_attempt-Follows w now id token fence attempt effect result db)
  run-Leads now fuel (fail id token fence attempt failure) db k s =
      leading db _ (fail_task-Follows w now fuel id token fence attempt failure db)
  run-Leads now fuel (cancel id) db k s = leading db _ (cancel_task-Follows w now fuel id db)
  run-Leads now fuel reap db k s = leading db _ (reap_expired_leases-Follows w now fuel db)
  run-Leads now fuel (boot boot_id floor) db k s =
      leading db _ (begin_runtime_session-Follows w now fuel boot_id floor db)
  run-Leads now fuel (cancel_run run_id) db k s =
      leading db _ (cancel_run-Follows w now fuel run_id db k)
  run-Leads now fuel (retry_run retention run_id selected) db k s =
      leading db _ (retry_run-Follows w now fuel retention run_id selected db k)
  run-Leads now fuel (set_readiness default id ready reason epoch) db k s =
      leading db _ (readiness-Follows w now default id ready reason epoch db)
  run-Leads now fuel (register default registration) db k s =
      leading db _ (upsert_executor-Follows w now default registration db)
  run-Leads now fuel (heartbeat_worker default id ready reason epoch) db k s =
      leading db _ (worker-Follows w now default id ready reason epoch db)
  run-Leads now fuel (retry_task drained id expected) db k s =
      retry_task-Leads w keep now drained id expected db (ground (arith, s))

pub Follows-Keyed : (w : World) {a b : Realm} → Follows w a b → Keyed a → Keyed b
Follows-Keyed w f k = subst Distinct (sym f.ids) k

module _ (w : World) where
  pub Leads-Keyed : (keep : ℕ → Bool) {a b : Realm} → Leads w keep a b → Keyed a → Keyed b
  Leads-Keyed keep f k = subst Distinct (sym f.ids) k

  pub Reaches-Leads :
      (keep : ℕ → Bool) {a b : Realm}
      → Keyed a
      → (r : Reaches w a b) → Spared w keep r
      → Leads w keep a b
  unfolding Spared
  Reaches-Leads keep {a} k here s = Follows-Leads keep (Follows-refl a)
  Reaches-Leads keep {a} k (next {b} {c} now fuel command e r) (s, before) =
      let f = Reaches-Leads keep k r before in
      Leads-trans keep f (
        Each-ok (Leads w keep b) (run w now fuel command b)
          (run-Leads w keep now fuel command b (Leads-Keyed keep f k) s) e)

  abbrev pub no_task : ℕ → Bool
  no_task id = false

  pub spared_all : (c : Command) → spares w no_task c ≡ true
  spared_all c = ground arith

  spares_all : {a b : Realm} (r : Reaches w a b) → Spared w no_task r
  unfolding Spared
  spares_all here = tt
  spares_all (next now fuel command e r) = (spared_all command, spares_all r)

  -- What holds over any commands, retries among them.
  pub Reaches-all : {a b : Realm} → Keyed a → Reaches w a b → Leads w no_task a b
  Reaches-all k r = Reaches-Leads no_task k r (spares_all r)
