-- ===== src/Service/Recovery/Steps.antt =====
-- What each step of the recovery handshake of runtime_protocol/service.py does to the checkpoints and to
-- the identifiers of tasks.
use banodoco_workspace_runti.Base.{
  ℕ, ◌≡◌, refl, sym, ◌∙◌, subst, Bool, true, false, not, ◌&&◌, ◌||◌, Option, none, some, List, any,
  map, ◌==◌, count, inl, inr, Bool-cases, arith, Result, ok, err, ◌>>=◌, Each, Each-bind, Each-step,
  Each-require, Each-option, Each-or_raise, Each-map, Each-if, Option-cases, conflict, integrity,
  validation, lease, leb, authorization,
}
use banodoco_workspace_runti.Tasks.Rows.{
  Task, Attempt, Checkpoint, CheckpointState, Receipt, Placement, is_running,
}
use banodoco_workspace_runti.Tasks.Realm.{
  Realm, World, current_runtime_epoch, append_event, binding_at, task_at,
}
use banodoco_workspace_runti.Tasks.Bindings.{
  is_prepared, bind_execution_attempt, reset_execution_attempt,
}
use banodoco_workspace_runti.Tasks.Claim.{claim_task}
use banodoco_workspace_runti.Tasks.Executors.{validate_runtime_epoch}
use banodoco_workspace_runti.Tasks.Follows.{Follows}
use banodoco_workspace_runti.Tasks.Follows.Writes.{ids-update}
use banodoco_workspace_runti.Tasks.Follows.Claiming.{claim_task-Follows}
use banodoco_workspace_runti.Service.Recovery.{
  Machine, Host, attempt_at, is_durable, is_requested, latest, checkpoint_row, reboot_authorized,
  validate_attempt_lease, update_attempt, update_checkpoint, read_file, identity_checked,
}
use banodoco_workspace_runti.Service.Recovery.Handshake.{
  live_nonce, prepare_reboot, new_checkpoint, store_checkpoint, checkpoint_attempt, consume,
  completed_receipt, Begun, begin_reboot, outcome_state, outcome_receipt, finish_reboot,
}
use banodoco_workspace_runti.Service.Recovery.Resume.{
  Resumer, Admitted, again, admitted, is_ready, is_resumed, new_attempt, admit_resume, bound,
  with_attempt, after_insert, after_task, after_claim, after_admission, insert_attempt,
  settle_resume, resume_receipt, prepared_binding, resume_claimed, resume_attempt,
}
use banodoco_workspace_runti.Service.Recovery.Checkpoints.{Change, stays, inserted, moved, stepped}

abbrev pub ids : Realm → List ℕ
ids db = map (λ (t : Task). t.id) db.tasks

abbrev pub Kept : Realm → Realm → Type 0
Kept a b = Change a.checkpoints b.checkpoints × (ids b ≡ ids a)

module _ (host : Host) where
  pub prepare_reboot-Kept :
      (now new_nonce attempt lease_id fence epoch : ℕ) (m : Machine)
      → Each
          (λ (s : Machine × ℕ). Kept m.db s.0.db)
          (prepare_reboot host now new_nonce attempt lease_id fence epoch m)
  unfolding prepare_reboot update_attempt
  prepare_reboot-Kept now new_nonce attempt lease_id fence epoch m =
      let P = λ (s : Machine × ℕ). Kept m.db s.0.db in
      Each-step P (identity_checked host (attempt_at m.db attempt)) _ λ _ _.
        Each-step P
          (validate_attempt_lease now (attempt_at m.db attempt) lease_id fence epoch
            (current_runtime_epoch m.db) m.db)
          _
          λ a _.
            Each-option P (live_nonce now a) _ _ (λ _. (stays, refl)) (λ nonce _. (stays, refl))

  stored_one :
      (c : Checkpoint) (bytes : ℕ) (m : Machine)
      → Each
          (λ (s : Machine × Checkpoint). Kept m.db s.0.db)
          ((store_checkpoint host c bytes m) >>= λ stored. ok (stored, c))
  unfolding store_checkpoint
  stored_one c bytes m =
      elim (Bool-cases (any (λ d. d.nonce == c.nonce || d.id == c.id) m.db.checkpoints)) [
        | inl e ↦ rw e tt
        | inr e ↦ rw e (inserted c e, refl)
      ]

  pub checkpoint_attempt-Kept :
      (now id attempt lease_id fence supplied authority epoch payload : ℕ) (m : Machine)
      → Each
          (λ (s : Machine × Checkpoint). Kept m.db s.0.db)
          (checkpoint_attempt host now id attempt lease_id fence supplied authority epoch payload m)
  unfolding checkpoint_attempt
  checkpoint_attempt-Kept now id attempt lease_id fence supplied authority epoch payload m =
      let P = λ (s : Machine × Checkpoint). Kept m.db s.0.db in
      let current = current_runtime_epoch m.db in
      let row = attempt_at m.db attempt in
      Each-step P (identity_checked host row) _ λ _ _.
        Each-step P (validate_attempt_lease now row lease_id fence epoch current m.db) _ λ a _.
          Each-step P (reboot_authorized now supplied authority attempt none false m.db) _
            λ nonce _.
              Each-require P (leb (host.length_of (host.bytes_of payload)) 1048576) validation _
                λ _.
                  Each-option P
                    (latest (λ c. c.attempt_id == attempt && c.nonce == nonce) m.db.checkpoints) _ _
                    (λ _.
                      stored_one (new_checkpoint host now id nonce payload current a)
                        (host.bytes_of payload) m)
                    λ existing _. Each-step P (read_file existing.id m) _ λ bytes _.
                      Each-require P
                        (host.sha256 bytes == existing.digest && host.payload_of bytes == payload)
                        conflict _ λ _. (stays, refl)

  durable_unresumed : (t : CheckpointState) → is_durable t ≡ true → is_resumed t ≡ false
  durable_unresumed CheckpointState.durable h = refl
  durable_unresumed CheckpointState.resumed h = absurd (ground (arith, h))
  durable_unresumed CheckpointState.reboot_requested h = refl
  durable_unresumed CheckpointState.executed h = refl
  durable_unresumed CheckpointState.executor_failed h = refl
  durable_unresumed CheckpointState.recovered h = refl

  consume-Kept :
      (row : Checkpoint) (m : Machine) → Each (λ (n : Machine). Kept m.db n.db) (consume host row m)
  unfolding consume update_attempt update_checkpoint
  consume-Kept row m =
      let P = λ (n : Machine). Kept m.db n.db in
      Each-require P
        (count (λ a. a.id == row.attempt_id && not a.recovery_nonce_used) m.db.attempts == 1)
        conflict _
        λ _.
          Each-require P (count (λ c. c.id == row.id && is_durable c.state) m.db.checkpoints == 1)
            conflict _
            λ _. (
              moved row.id is_durable CheckpointState.reboot_requested (λ c. c.receipt)
                  durable_unresumed refl stays,
              refl,
            )

  pub begin_reboot-Kept :
      (now supplied authority epoch : ℕ) (id attempt : Option ℕ) (command : ℕ) (has_executor : Bool)
      (m : Machine)
      → Each
          (λ (s : Machine × Begun). Kept m.db s.0.db)
          (begin_reboot host now supplied authority epoch id attempt command has_executor m)
  unfolding begin_reboot
  begin_reboot-Kept now supplied authority epoch id attempt command has_executor m =
      let P = λ (s : Machine × Begun). Kept m.db s.0.db in
      Each-step P (validate_runtime_epoch m.db (some epoch) none true) _ λ current _.
        Each-step P (checkpoint_row id attempt m.db) _ λ row _.
          Each-step P (host.attempt_identity row.executor_id row.task_id) _ λ _ _.
            Each-option P (completed_receipt row) _ _
              (λ _.
                Each-step P
                  (reboot_authorized now supplied authority row.attempt_id (some row.nonce) false
                    m.db)
                  _
                  λ nonce _. Each-require P (host.is_allowed command) validation _ λ _.
                    Each-require P (row.runtime_epoch == current_runtime_epoch m.db) lease _ λ _.
                      Each-step P
                        (validate_attempt_lease now (attempt_at m.db row.attempt_id) row.lease_id
                          row.fence epoch current m.db)
                        _
                        λ a _. Each-step P (read_file row.id m) _ λ bytes _.
                          Each-require P (host.sha256 bytes == row.digest) conflict _ λ _.
                            Each-require P (is_durable row.state) conflict _ λ _.
                              Each-require P has_executor conflict _ λ _.
                                Each-bind (λ (n : Machine). Kept m.db n.db) P (consume host row m) _
                                  (consume-Kept row m) λ n _ k. k)
              λ receipt _.
                Each-step P
                  (reboot_authorized now supplied authority row.attempt_id (some row.nonce) true
                    m.db)
                  _ λ nonce _. (stays, refl)

  requested_unresumed : (t : CheckpointState) → is_requested t ≡ true → is_resumed t ≡ false
  requested_unresumed CheckpointState.resumed h = absurd (ground (arith, h))
  requested_unresumed CheckpointState.durable h = refl
  requested_unresumed CheckpointState.reboot_requested h = refl
  requested_unresumed CheckpointState.executed h = refl
  requested_unresumed CheckpointState.executor_failed h = refl
  requested_unresumed CheckpointState.recovered h = refl

  outcome_not_durable : (o : Option ℕ) → is_durable (outcome_state host o) ≡ false
  outcome_not_durable none = refl
  outcome_not_durable (some x) = refl

  pub finish_reboot-Kept :
      (epoch command : ℕ) (outcome : Option ℕ) (row : Checkpoint) (m : Machine)
      → Kept m.db (finish_reboot host epoch command outcome row m).db
  unfolding finish_reboot update_checkpoint
  finish_reboot-Kept epoch command outcome row m = (
    moved row.id is_requested (outcome_state host outcome)
        (λ c. some (outcome_receipt host epoch command outcome row)) requested_unresumed
        (outcome_not_durable outcome) stays,
    refl,
  )

ready_unresumed : (t : CheckpointState) → is_ready t ≡ true → is_resumed t ≡ false
ready_unresumed CheckpointState.resumed h = absurd (ground (arith, h))
ready_unresumed CheckpointState.durable h = refl
ready_unresumed CheckpointState.reboot_requested h = refl
ready_unresumed CheckpointState.executed h = refl
ready_unresumed CheckpointState.executor_failed h = refl
ready_unresumed CheckpointState.recovered h = refl

module _ (host : Host) (r : Resumer) (w : World) (now fuel : ℕ) where
  abbrev pub Unmoved : Realm → Realm → Type 0
  Unmoved a b = (b.checkpoints ≡ a.checkpoints) × (ids b ≡ ids a)

  bind-Unmoved :
      (db : Realm) (task attempt lease_id fence executor epoch : ℕ) (p : Placement)
      → Each
          (Unmoved db)
          (bind_execution_attempt r.matches task attempt lease_id fence executor epoch p db)
  unfolding bind_execution_attempt
  bind-Unmoved db task attempt lease_id fence executor epoch p =
      Each-option (Unmoved db) (binding_at db task) _ _ (λ _. (refl, refl))
        λ b _.
          Each-if (Unmoved db) (not (r.matches b.selected p)) _ _ (λ _. tt)
            λ _. Each-if (Unmoved db) (not (is_prepared b.status)) _ _ (λ _. tt) λ _. (refl, refl)

  bound-Unmoved :
      (db : Realm) (c : Checkpoint) (t : Task) (a : Attempt)
      → Each (Unmoved db) (bound host r w now fuel db c t a)
  unfolding append_event
  bound-Unmoved db c t a =
      Each-option (Unmoved db) (binding_at db c.task_id) _ _ (λ _. (refl, refl))
        λ b _. Each-or_raise (Unmoved db) r.placement authorization _ λ p _.
          Each-bind (Unmoved db) (Unmoved db)
            (bind_execution_attempt r.matches c.task_id a.id a.lease_id a.fence c.executor_id
              a.runtime_epoch p db)
            _ (bind-Unmoved db c.task_id a.id a.lease_id a.fence c.executor_id a.runtime_epoch p)
            λ bound _ k. k

  pub insert_attempt-Unmoved :
      (c : Checkpoint) (t : Task) (a : Attempt) (db : Realm)
      → Each (Unmoved db) (insert_attempt host r w now fuel c t a db)
  unfolding insert_attempt
  insert_attempt-Unmoved c t a db =
      Each-require (Unmoved db) (not (any (λ x. x.id == a.id) db.attempts)) integrity _ λ _.
        Each-map (Unmoved (with_attempt host r c a db)) (Unmoved db)
          (bound host r w now fuel (with_attempt host r c a db) c t a)
          (bound-Unmoved (with_attempt host r c a db) c t a)
          λ b k. (
            k.0,
            k.1
                ∙ ids-update (λ x. x.id == c.task_id && is_running x.status)
                    (λ x. record x { attempt_id = some a.id }) (λ u. refl) db.tasks,
          )

  pub prepared_binding-Unmoved :
      (epoch : ℕ) (c : Checkpoint) (db : Realm)
      → Unmoved db (prepared_binding host r w now fuel epoch c db)
  unfolding prepared_binding reset_execution_attempt
  prepared_binding-Unmoved epoch c db = elim (Option-cases (binding_at db c.task_id)) [
    | inl e ↦ (rw (prepared_binding, e) refl, rw (prepared_binding, e) refl)
    | inr (b, e) ↦ (rw (prepared_binding, e) refl, rw (prepared_binding, e) refl)
  ]

  -- The claim of the task with the writes before it.
  pub claimed_before :
      (epoch lease_id : ℕ) (c : Checkpoint) (db : Realm)
      → let before = prepared_binding host r w now fuel epoch c db in
        Each
          (λ (b : Realm). Kept db b)
          (claim_task w now fuel true c.task_id
            (some c.executor_id)
            (some lease_id)
            (some epoch)
            before)
  claimed_before epoch lease_id c db =
      let before = prepared_binding host r w now fuel epoch c db in
      let u = prepared_binding-Unmoved epoch c db in
      Each-map (Follows w before) (λ (b : Realm). Kept db b)
        (claim_task w now fuel true c.task_id (some c.executor_id) (some lease_id) (some epoch)
          before)
        (claim_task-Follows w now fuel true c.task_id (some c.executor_id) (some lease_id)
          (some epoch) before)
        λ b f. (
          stepped f.checkpoints
              (subst (λ (cs : List Checkpoint). Change db.checkpoints cs) (sym u.0) stays),
          f.ids ∙ u.1,
        )

  after_insert-Kept :
      (c : Checkpoint) (receipt : Receipt) (a b : Realm) (m : Result Realm)
      → Kept a b
      → Each (Unmoved b) m
      → Kept a (after_insert host r w now fuel c receipt b m).0
  unfolding settle_resume update_checkpoint
  after_insert-Kept c receipt a b (err e) k h = k
  after_insert-Kept c receipt a b (ok new) k (same, kept) = (
    moved c.id is_ready CheckpointState.resumed (λ x. some receipt) ready_unresumed refl
        (subst (λ (cs : List Checkpoint). Change a.checkpoints cs) (sym same) k.0),
    kept ∙ k.1,
  )

  after_task-Kept :
      (epoch lease_id new_id command : ℕ) (c : Checkpoint) (a b : Realm) (o : Option Task)
      → Kept a b
      → Kept a (after_task host r w now fuel epoch lease_id new_id command c b o).0
  after_task-Kept epoch lease_id new_id command c a b none k = k
  after_task-Kept epoch lease_id new_id command c a b (some t) k =
      elim (Bool-cases (not (is_running t.status))) [
        | inl e ↦ rw e k
        | inr e ↦ rw e (
            after_insert-Kept c (resume_receipt host r w now fuel epoch new_id command c) a b
              (insert_attempt host r w now fuel c t (new_attempt host r new_id lease_id epoch c t)
                b)
              k (insert_attempt-Unmoved c t (new_attempt host r new_id lease_id epoch c t) b))
      ]

  after_claim-Kept :
      (epoch lease_id new_id command : ℕ) (c : Checkpoint) (m : Machine) (db : Realm)
      (claim : Result Realm)
      → Kept m.db db
      → Each (λ (b : Realm). Kept m.db b) claim
      → Kept m.db (after_claim host r w now fuel epoch lease_id new_id command c m db claim).0.db
  unfolding resume_claimed
  after_claim-Kept epoch lease_id new_id command c m db (err e) k h = k
  after_claim-Kept epoch lease_id new_id command c m db (ok b) k h =
      after_task-Kept epoch lease_id new_id command c m.db b (task_at b c.task_id) h

  after_admission-Kept :
      (epoch lease_id new_id command : ℕ) (m : Machine) (admission : Result Admitted)
      → Kept m.db (after_admission host r w now fuel epoch lease_id new_id command m admission).0.db
  after_admission-Kept epoch lease_id new_id command m (err e) = (stays, refl)
  after_admission-Kept epoch lease_id new_id command m (ok (again receipt)) = (stays, refl)
  after_admission-Kept epoch lease_id new_id command m (ok (admitted c)) =
      let u = prepared_binding-Unmoved epoch c m.db in
      after_claim-Kept epoch lease_id new_id command c m
        (prepared_binding host r w now fuel epoch c m.db) _
        (subst (λ (cs : List Checkpoint). Change m.db.checkpoints cs) (sym u.0) stays, u.1)
        (claimed_before epoch lease_id c m.db)

  pub resume_attempt-Kept :
      (supplied authority epoch : ℕ) (id attempt : Option ℕ) (lease_id new_id command : ℕ)
      (m : Machine)
      → Kept m.db
          (resume_attempt host r w now fuel supplied authority epoch id attempt lease_id new_id
            command m).0.db
  unfolding resume_attempt
  resume_attempt-Kept supplied authority epoch id attempt lease_id new_id command m =
      after_admission-Kept epoch lease_id new_id command m
        (admit_resume host r now supplied authority epoch id attempt m)
