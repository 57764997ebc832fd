-- ===== src/Tasks/Invariants.antt =====
-- Reservations, the event log and the runtime epoch over any sequence of the commands of
-- runtime_protocol/store.py.
use banodoco_workspace_runti.Base.{
  ℕ, ◌≤◌, ◌<◌, ◌≡◌, refl, ap, Bool, true, Option, none, some, List, [], ◌∷◌, ◌++◌, arith, ok, err,
  lease, Each-ok,
}
use banodoco_workspace_runti.Tasks.Rows.{Lifecycle}
use banodoco_workspace_runti.Tasks.Realm.{Realm, World, Event, last_hash, current_runtime_epoch}
use banodoco_workspace_runti.Tasks.Executors.{
  validate_runtime_epoch, set_executor_readiness, heartbeat_executor,
}
use banodoco_workspace_runti.Tasks.Claim.{claim_task}
use banodoco_workspace_runti.Tasks.Session.{epoch_of, begin_runtime_session}
use banodoco_workspace_runti.Tasks.Commands.{Reaches}
use banodoco_workspace_runti.Tasks.Exclusive.{Exclusive}
use banodoco_workspace_runti.Tasks.Follows.{Follows, Grown, unchanged, appended}
use banodoco_workspace_runti.Tasks.Follows.Booting.{boot_raises, begin_runtime_session-Follows}
use banodoco_workspace_runti.Tasks.Follows.Running.{Keyed}
use banodoco_workspace_runti.Tasks.Follows.Reached.{Reaches-all, Follows-Keyed}

-- Each event carries its own hash and the hash of the event before it in its run.
abbrev pub Chained : World → List Event → Type 0
Chained w [] = Unit
Chained w (e ∷ es) =
    (e.previous_hash ≡ last_hash e.run_id es)
    × (e.event_hash ≡ w.event_hash e.run_id e.task_id e.kind e.previous_hash e.created_at)
    × Chained w es

-- `new` is `old` with events in front.
abbrev pub Extends : List Event → List Event → Type 0
Extends old new = (es : List Event) × (new ≡ es ++ old)

Grown-Extends : {w : World} {a b : List Event} → Grown w a b → Extends a b
Grown-Extends unchanged = ([], refl)
Grown-Extends (appended e p q g) =
    let (es, same) = Grown-Extends g in (e ∷ es, ap (λ xs. e ∷ xs) same)

Grown-Chained : {w : World} {a b : List Event} → Grown w a b → Chained w a → Chained w b
Grown-Chained unchanged h = h
Grown-Chained (appended e p q g) h = (p, q, Grown-Chained g h)

known_epoch :
    (n : ℕ) (l : Option Lifecycle)
    → n < epoch_of l
    → epoch_of l ≡ elim l [ none ↦ 1 | some l ↦ l.runtime_epoch ]
known_epoch n none h = absurd (omega (arith, h))
known_epoch n (some l) h = refl

lease_refused :
    (db : Realm) (epoch executor : ℕ)
    → epoch < epoch_of db.lifecycle
    → validate_runtime_epoch db (some epoch) (some executor) true ≡ err lease
unfolding validate_runtime_epoch current_runtime_epoch
lease_refused db epoch executor h = ground (arith, known_epoch epoch db.lifecycle h)

module _ (w : World) {a b : Realm} (key : Keyed a) (reached : Reaches w a b) where
  -- If task identifiers are distinct and no resource key of an executor is held by two tasks, then
  -- no sequence of commands leaves a key held by two tasks.
  pub keys_stay_Exclusive : Exclusive a.reservations → Exclusive b.reservations
  keys_stay_Exclusive = let f = Reaches-all w key reached in f.exclusive

  -- If task identifiers are distinct and the event log is hash-chained run by run, then every
  -- sequence of commands leaves a hash-chained log that extends the one before.
  pub log_stays_Chained : Chained w a.events → Chained w b.events × Extends a.events b.events
  log_stays_Chained h =
      let f = Reaches-all w key reached in (Grown-Chained f.events h, Grown-Extends f.events)

module _ (w : World) (a b c : Realm) (key : Keyed a) where
  -- In a realm with distinct task identifiers, once a boot has followed a session, every later realm
  -- refuses with a lease error each claim, readiness report and executor heartbeat that was made for
  -- that session's epoch or an older one.
  pub old_epoch_refused :
      (now fuel : ℕ) (boot_id floor : Option ℕ) (l : Lifecycle)
      → a.lifecycle ≡ some l
      → begin_runtime_session w now fuel boot_id floor a ≡ ok b
      → Reaches w b c
      → (epoch executor token : ℕ) → epoch ≤ l.runtime_epoch
      → ((now fuel id : ℕ) (recovery : Bool)
          → claim_task w now fuel recovery id (some executor) (some token) (some epoch) c
            ≡ err lease)
        × ((now default : ℕ) (ready : Bool) (reason : Option ℕ)
            → set_executor_readiness now default (some executor) ready reason (some epoch) c
              ≡ err lease)
        × ((now default : ℕ) (ready : Option Bool) (reason : Option ℕ)
            → heartbeat_executor now default (some executor) ready reason (some epoch) c
              ≡ err lease)
  unfolding claim_task set_executor_readiness heartbeat_executor
  old_epoch_refused now fuel boot_id floor l e h reached epoch executor token le =
      let first =
        Each-ok (Follows w a) (begin_runtime_session w now fuel boot_id floor a)
          (begin_runtime_session-Follows w now fuel boot_id floor a) h in
      let f = Reaches-all w (Follows-Keyed w first key) reached in
      let old : epoch_of a.lifecycle ≡ l.runtime_epoch = ap epoch_of e in
      let refused =
        lease_refused c epoch executor
          (omega (arith, boot_raises w now fuel boot_id floor a b h, f.epoch, old, le)) in
      (
        λ now fuel id recovery. rw refused refl,
        λ now default ready reason. rw refused refl,
        λ now default ready reason. rw refused refl,
      )
