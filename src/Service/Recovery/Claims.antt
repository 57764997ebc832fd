-- ===== src/Service/Recovery/Claims.antt =====
-- What an accepted call of request_reboot or resume_attempt of runtime_protocol/service.py tells of its
-- checkpoint.
use banodoco_workspace_runti.Base.{
  ℕ, ◌==◌, ◌≡◌, refl, Bool, true, false, not, ◌&&◌, ◌||◌, Option, none, some, List, update, count,
  arith, Option-cases, Bool-cases, inl, inr, Result, ok, err, require, >>=-eq-ok, Each, Each-bind,
  Each-step, Each-require, Each-option, conflict, validation, lease,
}
use banodoco_workspace_runti.Tasks.Rows.{Attempt, Checkpoint, CheckpointState, Receipt}
use banodoco_workspace_runti.Tasks.Realm.{Realm, current_runtime_epoch}
use banodoco_workspace_runti.Tasks.Executors.{validate_runtime_epoch}
use banodoco_workspace_runti.Service.Recovery.{
  Machine, Host, attempt_at, is_durable, checkpoint_row, reboot_authorized, authorized, not_expired,
  validate_attempt_lease, update_attempt, update_checkpoint, read_file,
}
use banodoco_workspace_runti.Service.Recovery.Handshake.{
  Begun, answered, claimed, completed_receipt, consume, begin_reboot,
}
use banodoco_workspace_runti.Service.Recovery.Resume.{
  Resumer, Admitted, again, admitted, is_ready, is_resumed, resumed_receipt, placed, admit_resume,
}
use banodoco_workspace_runti.Service.Recovery.Found.{Has, checkpoint_row-Has}

-- An authorization for a checkpoint shows the checkpoint's nonce.
pub reboot_authorized-nonce :
    (now supplied authority attempt : ℕ) (expected : ℕ) (allow_consumed : Bool) (db : Realm)
    (nonce : ℕ)
    → reboot_authorized now supplied authority attempt (some expected) allow_consumed db ≡ ok nonce
    → (expected == supplied) ≡ true
unfolding reboot_authorized
reboot_authorized-nonce now supplied authority attempt expected allow_consumed db nonce h =
    by_row (attempt_at db attempt) h
  where
    by_nonce :
        (a : Attempt) (o : Option ℕ)
        → (elim o as (λ _. Result ℕ) [
          | none ↦ err validation
          | some n ↦ authorized now supplied authority (some expected) allow_consumed a n
        ])
          ≡ ok nonce
        → (expected == supplied) ≡ true
    by_nonce a none k = absurd (ground (arith, k))
    by_nonce a (some n) k =
        let (_, _, k) =
          >>=-eq-ok (require (allow_consumed || not a.recovery_nonce_used) conflict) _ k in
        let (_, _, k) =
          >>=-eq-ok (require (not_expired now a.recovery_nonce_expires_at) validation) _ k in
        ground (arith, k)

    by_row :
        (o : Option Attempt)
        → (elim o as (λ _. Result ℕ) [
          | none ↦ err validation
          | some a ↦ elim a.recovery_nonce as (λ _. Result ℕ) [
            | none ↦ err validation
            | some n ↦ authorized now supplied authority (some expected) allow_consumed a n
          ]
        ])
          ≡ ok nonce
        → (expected == supplied) ≡ true
    by_row none k = absurd (ground (arith, k))
    by_row (some a) k = by_nonce a a.recovery_nonce k

abbrev pub requested : Checkpoint → List Checkpoint → List Checkpoint
requested row cs =
    update (λ c. c.id == row.id && is_durable c.state)
      (λ c. record c { state = CheckpointState.reboot_requested }) cs

-- A claimed checkpoint was there and durable under the nonce that was shown, and is requested now.
abbrev pub Claims : ℕ → Realm → Realm → Begun → Type 0
Claims supplied a b (answered receipt) = Unit
Claims supplied a b (claimed row payload) =
    Has row a.checkpoints
    × ((row.nonce == supplied) ≡ true)
    × (is_durable row.state ≡ true)
    × (b.checkpoints ≡ requested row a.checkpoints)

-- An admitted checkpoint was there under the nonce that was shown, and ready or resumed.
abbrev pub Admits : ℕ → Realm → Admitted → Type 0
Admits supplied db (again receipt) =
    (row : Checkpoint) × Has row db.checkpoints
    × ((row.nonce == supplied) ≡ true)
    × (is_resumed row.state ≡ true)
Admits supplied db (admitted row) =
    Has row db.checkpoints × ((row.nonce == supplied) ≡ true) × (is_ready row.state ≡ true)

resumed_receipt-resumed :
    (db : Realm) (row : Checkpoint) (receipt : Receipt)
    → resumed_receipt db row ≡ some receipt
    → is_resumed row.state ≡ true
resumed_receipt-resumed db row receipt h = elim (Bool-cases (is_resumed row.state)) [
  | inl e ↦ e
  | inr e ↦ elim (Option-cases row.receipt) [
    | inl n ↦ absurd (ground (arith, (rw n at h)))
    | inr (x, n) ↦ absurd (ground (arith, (rw (n, e) at h)))
  ]
]

module _ (host : Host) where
  consume-requested :
      (row : Checkpoint) (m : Machine)
      → Each
          (λ (n : Machine). n.db.checkpoints ≡ requested row m.db.checkpoints)
          (consume host row m)
  unfolding consume update_attempt update_checkpoint
  consume-requested row m =
      let P = λ (n : Machine). n.db.checkpoints ≡ requested row m.db.checkpoints in
      Each-require P
        (count (λ a. a.id == row.attempt_id && not a.recovery_nonce_used) m.db.attempts == 1)
        conflict _
        λ _.
          Each-require P (count (λ c. c.id == row.id && is_durable c.state) m.db.checkpoints == 1)
            conflict _ λ _. refl

  pub begin_reboot-Claims :
      (now supplied authority epoch : ℕ) (id attempt : Option ℕ) (command : ℕ) (has_executor : Bool)
      (m : Machine)
      → Each
          (λ (s : Machine × Begun). Claims supplied m.db s.0.db s.1)
          (begin_reboot host now supplied authority epoch id attempt command has_executor m)
  unfolding begin_reboot
  begin_reboot-Claims now supplied authority epoch id attempt command has_executor m =
      let P = λ (s : Machine × Begun). Claims supplied m.db s.0.db s.1 in
      Each-step P (validate_runtime_epoch m.db (some epoch) none true) _ λ current _.
        Each-step P (checkpoint_row id attempt m.db) _ λ row found.
          Each-step P (host.attempt_identity row.executor_id row.task_id) _ λ _ _.
            Each-option P (completed_receipt row) _ _
              (λ _.
                Each-step P
                  (reboot_authorized now supplied authority row.attempt_id (some row.nonce) false
                    m.db)
                  _
                  λ nonce shown. Each-require P (host.is_allowed command) validation _ λ _.
                    Each-require P (row.runtime_epoch == current_runtime_epoch m.db) lease _ λ _.
                      Each-step P
                        (validate_attempt_lease now (attempt_at m.db row.attempt_id) row.lease_id
                          row.fence epoch current m.db)
                        _
                        λ a _. Each-step P (read_file row.id m) _ λ bytes _.
                          Each-require P (host.sha256 bytes == row.digest) conflict _ λ _.
                            Each-require P (is_durable row.state) conflict _ λ durable.
                              Each-require P has_executor conflict _ λ _.
                                Each-bind
                                  (λ (n : Machine).
                                    n.db.checkpoints ≡ requested row m.db.checkpoints)
                                  P (consume host row m) _ (consume-requested row m)
                                  λ n _ k. (
                                    checkpoint_row-Has id attempt m.db row found,
                                    reboot_authorized-nonce now supplied authority row.attempt_id
                                        row.nonce false m.db nonce shown,
                                    durable,
                                    k,
                                  ))
              λ receipt _.
                Each-step P
                  (reboot_authorized now supplied authority row.attempt_id (some row.nonce) true
                    m.db)
                  _ λ nonce _. tt

  pub admit_resume-Admits :
      (r : Resumer) (now supplied authority epoch : ℕ) (id attempt : Option ℕ) (m : Machine)
      → Each (Admits supplied m.db) (admit_resume host r now supplied authority epoch id attempt m)
  unfolding admit_resume
  admit_resume-Admits r now supplied authority epoch id attempt m =
      let P = Admits supplied m.db in
      Each-step P (validate_runtime_epoch m.db (some epoch) none true) _ λ current _.
        Each-step P (checkpoint_row id attempt m.db) _ λ row found.
          Each-step P (host.attempt_identity row.executor_id row.task_id) _ λ _ _.
            Each-step P (r.local_admission row.executor_id) _ λ _ _.
              Each-step P
                (reboot_authorized now supplied authority row.attempt_id (some row.nonce) true m.db)
                _
                λ nonce shown.
                  let here = checkpoint_row-Has id attempt m.db row found in
                  let same =
                    reboot_authorized-nonce now supplied authority row.attempt_id row.nonce true
                      m.db nonce shown in
                  Each-option P (resumed_receipt m.db row) _ _
                    (λ _. Each-require P (not (r.is_drained row)) conflict _ λ _.
                      Each-require P (is_ready row.state) conflict _ λ ready.
                        Each-step P (read_file row.id m) _ λ bytes _.
                          Each-require P (host.sha256 bytes == row.digest) conflict _ λ _.
                            Each-step P (placed host r m.db row.task_id) _
                              λ _ _. (here, same, ready))
                    λ receipt e. (row, here, same, resumed_receipt-resumed m.db row receipt e)
