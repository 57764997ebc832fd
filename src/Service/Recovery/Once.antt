-- ===== src/Service/Recovery/Once.antt =====
-- The recovery handshake of runtime_protocol/service.py over any sequence of its steps, in which other
-- commands and new boots of the runtime may stand: a reboot and a resume happen once per nonce.
use banodoco_workspace_runti.Base.{
  ℕ, ◌≤◌, ◌==◌, ◌≡◌, ◌≢◌, refl, sym, subst, Bool, true, false, ◌&&◌, Option, any, count, arith,
  eq_self, if◌then◌else◌, ok, Each-ok,
}
use banodoco_workspace_runti.Tasks.Rows.{Checkpoint, CheckpointState}
use banodoco_workspace_runti.Tasks.Realm.{Realm, World}
use banodoco_workspace_runti.Tasks.Commands.{Command, run}
use banodoco_workspace_runti.Tasks.Follows.Running.{Distinct, Keyed}
use banodoco_workspace_runti.Tasks.Follows.Reached.{run-Leads, no_task, spared_all}
use banodoco_workspace_runti.Tasks.Follows.Retrying.{Leads}
use banodoco_workspace_runti.Service.Recovery.{Machine, Host, is_durable}
use banodoco_workspace_runti.Service.Recovery.Handshake.{
  Begun, claimed, prepare_reboot, checkpoint_attempt, begin_reboot, finish_reboot,
}
use banodoco_workspace_runti.Service.Recovery.Resume.{Resumer, resume_attempt}
use banodoco_workspace_runti.Service.Recovery.Checkpoints.{
  stays, stepped, has_nonce, Watched, Known-Change, Watched-Change,
}
use banodoco_workspace_runti.Service.Recovery.Found.{Has-any, sole-any, any-updated}
use banodoco_workspace_runti.Service.Recovery.Claims.{Claims, begin_reboot-Claims}
use banodoco_workspace_runti.Service.Recovery.Steps.{
  Kept, prepare_reboot-Kept, checkpoint_attempt-Kept, begin_reboot-Kept, finish_reboot-Kept,
  resume_attempt-Kept,
}

module _ (host : Host) (w : World) where
  -- One step: a call of the handshake that returned, a resume whatever it answered, or another
  -- command of the runtime, a boot among them.
  pub data Next (m : Machine) : Machine → Type 0 where
    prepared :
        (now new_nonce attempt lease_id fence epoch : ℕ) {n : Machine} (nonce : ℕ)
        → prepare_reboot host now new_nonce attempt lease_id fence epoch m ≡ ok (n, nonce)
        → Next m n
    checkpointed :
        (now id attempt lease_id fence supplied authority epoch payload : ℕ) {n : Machine}
        (c : Checkpoint)
        → checkpoint_attempt host now id attempt lease_id fence supplied authority epoch payload m
          ≡ ok (n, c)
        → Next m n
    begun :
        (now supplied authority epoch : ℕ) (id attempt : Option ℕ) (command : ℕ)
        (has_executor : Bool) {n : Machine} (b : Begun)
        → begin_reboot host now supplied authority epoch id attempt command has_executor m
          ≡ ok (n, b)
        → Next m n
    finished :
        (epoch command : ℕ) (outcome : Option ℕ) (row : Checkpoint)
        → Next m (finish_reboot host epoch command outcome row m)
    resumed :
        (r : Resumer) (now fuel supplied authority epoch : ℕ) (id attempt : Option ℕ)
        (lease_id new_id command : ℕ)
        → Next m
            (resume_attempt host r w now fuel supplied authority epoch id attempt lease_id new_id
              command m).0
    commanded :
        (now fuel : ℕ) (command : Command) {db : Realm}
        → run w now fuel command m.db ≡ ok db
        → Next m (record m { db = db })

  pub data Later (m : Machine) : Machine → Type 0 where
    at_once : Later m m
    then_next : {k n : Machine} → Later m k → Next k n → Later m n

  Next-Kept : (m n : Machine) → Keyed m.db → Next m n → Kept m.db n.db
  Next-Kept m n key (prepared now new_nonce attempt lease_id fence epoch nonce e) =
      Each-ok (λ (s : Machine × ℕ). Kept m.db s.0.db) _
        (prepare_reboot-Kept host now new_nonce attempt lease_id fence epoch m) e
  Next-Kept m n key
        (checkpointed now id attempt lease_id fence supplied authority epoch payload c e) =
      Each-ok (λ (s : Machine × Checkpoint). Kept m.db s.0.db) _
        (checkpoint_attempt-Kept host now id attempt lease_id fence supplied authority epoch payload
          m)
        e
  Next-Kept m n key (begun now supplied authority epoch id attempt command has_executor b e) =
      Each-ok (λ (s : Machine × Begun). Kept m.db s.0.db) _
        (begin_reboot-Kept host now supplied authority epoch id attempt command has_executor m) e
  Next-Kept m n key (finished epoch command outcome row) =
      finish_reboot-Kept host epoch command outcome row m
  Next-Kept m n key
        (resumed r now fuel supplied authority epoch id attempt lease_id new_id command) =
      resume_attempt-Kept host r w now fuel supplied authority epoch id attempt lease_id new_id
        command m
  Next-Kept m n key (commanded now fuel command {db} e) =
      let f =
        Each-ok (Leads w (no_task w) m.db) _
          (run-Leads w (no_task w) now fuel command m.db key (spared_all w command)) e in
      (stepped f.checkpoints stays, f.ids)

  -- What every step keeps: identifiers of tasks are distinct, the nonce is known, and a watched
  -- test is not met.
  abbrev Holding : ℕ → (Checkpoint → Bool) → Machine → Type 0
  Holding n p m =
      Keyed m.db × (any (has_nonce n) m.db.checkpoints ≡ true) × (any p m.db.checkpoints ≡ false)

  Holding-Next :
      (n : ℕ) (p : Checkpoint → Bool) (m k : Machine)
      → Watched n p
      → Next m k
      → Holding n p m
      → Holding n p k
  Holding-Next n p m k watched step (key, known, off) =
      let (change, same) = Next-Kept m k key step in
      (
        subst Distinct (sym same) key,
        Known-Change n m.db.checkpoints k.db.checkpoints change known,
        Watched-Change n p m.db.checkpoints k.db.checkpoints watched change known off,
      )

  pub Holding-Later :
      (n : ℕ) (p : Checkpoint → Bool) (m k : Machine)
      → Watched n p
      → Later m k
      → Holding n p m
      → Holding n p k
  Holding-Later n p m k watched at_once h = h
  Holding-Later n p m k watched (then_next {k = j} before step) h =
      Holding-Next n p j k watched step (Holding-Later n p m j watched before h)

  abbrev still_durable : ℕ → Checkpoint → Bool
  still_durable n c = has_nonce n c && is_durable c.state

  Watched-durable : (n : ℕ) → Watched n (still_durable n)
  Watched-durable n = record {
    off = λ c h. rw h refl;
    keep = λ c s receipt from to h. ground (arith, to);
  }

  claimed_start :
      (supplied : ℕ) (row : Checkpoint) (payload : ℕ) (a b : Realm)
      → count (has_nonce supplied) a.checkpoints ≤ 1
      → Claims supplied a b (claimed row payload)
      → any (still_durable supplied) b.checkpoints ≡ false
  claimed_start supplied row payload a b one (here, shown, durable, after) = rw after (
      any-updated (still_durable supplied)
        (λ (c : Checkpoint). c.id == row.id && is_durable c.state)
        (λ c. record c { state = CheckpointState.reboot_requested }) a.checkpoints
        (sole-any (has_nonce supplied) _ row a.checkpoints
          (λ c off. unmet c off (c.id == row.id && is_durable c.state)) one here shown
          (rw (eq_self row.id, durable, shown) refl)))
    where
      unmet :
          (c : Checkpoint)
          → has_nonce supplied c ≡ false
          → (hit : Bool)
          → still_durable supplied
              (if hit then record c { state = CheckpointState.reboot_requested } else c)
            ≡ false
      unmet c off true = rw off refl
      unmet c off false = rw off refl

  -- Once request_reboot has claimed a checkpoint under a nonce, if identifiers of tasks are distinct
  -- and no other checkpoint has the nonce, no later call with the nonce calls the host again,
  -- whatever steps of the handshake, other commands and new boots stand between the calls.
  pub begin_reboot-once :
      (now supplied authority epoch : ℕ) (id attempt : Option ℕ) (command : ℕ) (has_executor : Bool)
      (row : Checkpoint) (payload : ℕ) (m n k : Machine)
      → Keyed m.db
      → count (has_nonce supplied) m.db.checkpoints ≤ 1
      → begin_reboot host now supplied authority epoch id attempt command has_executor m
        ≡ ok (n, claimed row payload)
      → Later n k
      → (now' authority' epoch' : ℕ) (id' attempt' : Option ℕ) (command' : ℕ) (has_executor' : Bool)
        (row' : Checkpoint) (payload' : ℕ) (o : Machine)
      → begin_reboot host now' supplied authority' epoch' id' attempt' command' has_executor' k
        ≢ ok (o, claimed row' payload')
  begin_reboot-once now supplied authority epoch id attempt command has_executor row payload m n k
        key one h later now' authority' epoch' id' attempt' command' has_executor' row' payload' o
        h' =
      let (change, same) =
        Next-Kept m n key
          (begun now supplied authority epoch id attempt command has_executor _ h) in
      let claims =
        Each-ok (λ (s : Machine × Begun). Claims supplied m.db s.0.db s.1) _
          (begin_reboot-Claims host now supplied authority epoch id attempt command has_executor m)
          h in
      let known =
        Known-Change supplied m.db.checkpoints n.db.checkpoints change
          (Has-any (has_nonce supplied) row m.db.checkpoints claims.0 claims.1) in
      let (_, _, off) =
        Holding-Later supplied (still_durable supplied) n k (Watched-durable supplied) later (
          subst Distinct (sym same) key,
          known,
          claimed_start supplied row payload m.db n.db one claims,
        ) in
      let (here, shown, durable, _) =
        Each-ok (λ (s : Machine × Begun). Claims supplied k.db s.0.db s.1) _
          (begin_reboot-Claims host now' supplied authority' epoch' id' attempt' command'
            has_executor' k)
          h' in
      let met =
        Has-any (still_durable supplied) row' k.db.checkpoints here (rw (shown, durable) refl) in
      ground (arith, off, met)
