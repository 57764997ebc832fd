-- ===== src/Service/Recovery/Resumed.antt =====
-- A checkpoint is resumed once: resume_attempt of runtime_protocol/service.py over any sequence of steps
-- of the recovery handshake.
use banodoco_workspace_runti.Base.{
  ℕ, ◌≤◌, ◌==◌, ◌≡◌, refl, sym, subst, Bool, true, false, not, ◌&&◌, Option, none, some, List, any,
  count, update, arith, eq_self, if◌then◌else◌, Bool-cases, inl, inr, Result, ok, err, Each,
}
use banodoco_workspace_runti.Tasks.Rows.{Task, Checkpoint, CheckpointState, Receipt, is_running}
use banodoco_workspace_runti.Tasks.Realm.{Realm, World, task_at}
use banodoco_workspace_runti.Tasks.Follows.{Follows}
use banodoco_workspace_runti.Tasks.Follows.Running.{Distinct, Keyed}
use banodoco_workspace_runti.Tasks.Follows.Claiming.{claim_task-Follows}
use banodoco_workspace_runti.Service.Recovery.{Machine, Host, update_checkpoint}
use banodoco_workspace_runti.Service.Recovery.Resume.{
  Resumer, Admitted, again, admitted, is_ready, is_resumed, new_attempt, insert_attempt,
  settle_resume, resume_receipt, prepared_binding, resume_claimed, after_insert, after_task,
  after_claim, after_admission, admit_resume, resume_attempt,
}
use banodoco_workspace_runti.Service.Recovery.Checkpoints.{has_nonce, Watched, Known-Change}
use banodoco_workspace_runti.Service.Recovery.Found.{
  Has-any, sole-any, any-updated, any_off, count-any,
}
use banodoco_workspace_runti.Service.Recovery.Steps.{
  Unmoved, insert_attempt-Unmoved, prepared_binding-Unmoved, resume_attempt-Kept,
}
use banodoco_workspace_runti.Service.Recovery.Claims.{Admits, admit_resume-Admits}
use banodoco_workspace_runti.Service.Recovery.Once.{Later, Holding-Later}

abbrev unresumed : ℕ → Checkpoint → Bool
unresumed n c = has_nonce n c && not (is_resumed c.state)

Watched-unresumed : (n : ℕ) → Watched n (unresumed n)
Watched-unresumed n = record {
  off = λ c h. rw h refl;
  keep = λ c s receipt from to h. ground (arith, from);
}

-- Not the checkpoint that is about to be resumed.
abbrev unready : ℕ → Checkpoint → Checkpoint → Bool
unready n row c = has_nonce n c && not (c.id == row.id && is_ready c.state)

resumable_ready :
    (n : ℕ) (row c : Checkpoint)
    → unready n row c ≡ false
    → unready n row (record c { state = CheckpointState.recovered }) ≡ false
resumable_ready n row c h = ground (arith, h)

-- After the last write of a resume no checkpoint with the nonce is left to resume.
settled_checkpoints :
    (n : ℕ) (row : Checkpoint) (receipt : Receipt) (cs : List Checkpoint)
    → any (unready n row) cs ≡ false
    → any (unresumed n) (
        update
          (λ c. c.id == row.id && is_ready c.state)
          (λ c. record c { state = CheckpointState.resumed; receipt = some receipt })
          cs)
      ≡ false
settled_checkpoints n row receipt cs h =
    any-updated (unresumed n) (λ (c : Checkpoint). c.id == row.id && is_ready c.state)
      (λ c. record c { state = CheckpointState.resumed; receipt = some receipt }) cs
      (any_off (unready n row) _ cs (λ c. settled c (c.id == row.id && is_ready c.state)) h)
  where
    settled :
        (c : Checkpoint) (hit : Bool)
        → (has_nonce n c && not hit) ≡ false
        → unresumed n (
            if hit then record c { state = CheckpointState.resumed; receipt = some receipt } else c)
          ≡ false
    settled c true e = ground (arith, e)
    settled c false e = ground (arith, e)

-- What an answer without an exception shows.
abbrev Done : ℕ → Realm → Result Receipt → Type 0
Done n db (err e) = Unit
Done n db (ok receipt) = any (unresumed n) db.checkpoints ≡ false

module _ (host : Host) (r : Resumer) (w : World) (now fuel : ℕ) where
  module _ (n : ℕ) (c : Checkpoint) where
    after_insert-Done :
        (receipt : Receipt) (b : Realm) (m : Result Realm)
        → any (unready n c) b.checkpoints ≡ false
        → Each (Unmoved host r w now fuel b) m
        → let s = after_insert host r w now fuel c receipt b m in Done n s.0 s.1
    unfolding settle_resume update_checkpoint
    after_insert-Done receipt b (err e) h k = tt
    after_insert-Done receipt b (ok new) h (same, kept) =
        settled_checkpoints n c receipt new.checkpoints
          (subst (λ (cs : List Checkpoint). any (unready n c) cs ≡ false) (sym same) h)

    after_task-Done :
        (epoch lease_id new_id command : ℕ) (b : Realm) (o : Option Task)
        → any (unready n c) b.checkpoints ≡ false
        → let s = after_task host r w now fuel epoch lease_id new_id command c b o in Done n s.0 s.1
    after_task-Done epoch lease_id new_id command b none h = tt
    after_task-Done epoch lease_id new_id command b (some t) h =
        elim (Bool-cases (not (is_running t.status))) [
          | inl e ↦ rw e tt
          | inr e ↦ rw e (
              after_insert-Done (resume_receipt host r w now fuel epoch new_id command c) b
                (insert_attempt host r w now fuel c t (new_attempt host r new_id lease_id epoch c t)
                  b)
                h
                (insert_attempt-Unmoved host r w now fuel c t
                  (new_attempt host r new_id lease_id epoch c t) b))
        ]

    after_claim-Done :
        (epoch lease_id new_id command : ℕ) (m : Machine) (db : Realm) (claim : Result Realm)
        → any (unready n c) db.checkpoints ≡ false
        → Each (Follows w db) claim
        → let s = after_claim host r w now fuel epoch lease_id new_id command c m db claim in
          Done n s.0.db s.1
    unfolding resume_claimed
    after_claim-Done epoch lease_id new_id command m db (err e) h f = tt
    after_claim-Done epoch lease_id new_id command m db (ok b) h f =
        after_task-Done epoch lease_id new_id command b (task_at b c.task_id)
          (f.checkpoints (unready n c) false (λ x _. resumable_ready n c x) h)

  after_admission-Done :
      (n epoch lease_id new_id command : ℕ) (m : Machine) (admission : Result Admitted)
      → count (has_nonce n) m.db.checkpoints ≤ 1
      → Each (Admits n m.db) admission
      → let s = after_admission host r w now fuel epoch lease_id new_id command m admission in
        Done n s.0.db s.1
  after_admission-Done n epoch lease_id new_id command m (err e) one h = tt
  after_admission-Done n epoch lease_id new_id command m (ok (again receipt)) one h =
      let (row, here, shown, done) = h in
      sole-any (has_nonce n) (unresumed n) row m.db.checkpoints (λ c off. rw off refl) one here
        shown (rw (shown, done) refl)
  after_admission-Done n epoch lease_id new_id command m (ok (admitted c)) one h =
      let (here, shown, ready) = h in
      let before = prepared_binding host r w now fuel epoch c m.db in
      let u = prepared_binding-Unmoved host r w now fuel epoch c m.db in
      after_claim-Done n c epoch lease_id new_id command m before _
        (rw (u.0) (
          sole-any (has_nonce n) (unready n c) c m.db.checkpoints (λ x off. rw off refl) one here
            shown (rw (shown, eq_self c.id, ready) refl)))
        (claim_task-Follows w now fuel true c.task_id (some c.executor_id) (some lease_id)
          (some epoch) before)

  -- A resume that was answered leaves no checkpoint with its nonce to resume.
  resume_attempt-Done :
      (supplied authority epoch : ℕ) (id attempt : Option ℕ) (lease_id new_id command : ℕ)
      (m : Machine)
      → count (has_nonce supplied) m.db.checkpoints ≤ 1
      → let s =
          resume_attempt host r w now fuel supplied authority epoch id attempt lease_id new_id
            command m in
        Done supplied s.0.db s.1
  unfolding resume_attempt
  resume_attempt-Done supplied authority epoch id attempt lease_id new_id command m one =
      after_admission-Done supplied epoch lease_id new_id command m
        (admit_resume host r now supplied authority epoch id attempt m) one
        (admit_resume-Admits host r now supplied authority epoch id attempt m)

  -- Where no checkpoint with the nonce is left to resume, a resume writes nothing.
  resume_attempt_idle :
      (supplied authority epoch : ℕ) (id attempt : Option ℕ) (lease_id new_id command : ℕ)
      (m : Machine)
      → any (unresumed supplied) m.db.checkpoints ≡ false
      → (resume_attempt host r w now fuel supplied authority epoch id attempt lease_id new_id
          command m).0
        ≡ m
  unfolding resume_attempt
  resume_attempt_idle supplied authority epoch id attempt lease_id new_id command m off =
      idle (admit_resume host r now supplied authority epoch id attempt m)
        (admit_resume-Admits host r now supplied authority epoch id attempt m)
    where
      not_both : (s : CheckpointState) → is_ready s ≡ true → is_resumed s ≡ false
      not_both CheckpointState.resumed h = absurd (ground (arith, h))
      not_both CheckpointState.durable h = refl
      not_both CheckpointState.reboot_requested h = refl
      not_both CheckpointState.executed h = refl
      not_both CheckpointState.executor_failed h = refl
      not_both CheckpointState.recovered h = refl

      idle :
          (admission : Result Admitted)
          → Each (Admits supplied m.db) admission
          → (after_admission host r w now fuel epoch lease_id new_id command m admission).0 ≡ m
      idle (err e) h = refl
      idle (ok (again receipt)) h = refl
      idle (ok (admitted c)) (here, shown, ready) =
          let met =
            Has-any (unresumed supplied) c m.db.checkpoints here
              (rw (shown, not_both c.state ready) refl) in
          absurd (ground (arith, off, met))

module _ (host : Host) (w : World) where
  -- Once resume_attempt has answered a nonce with a receipt, if identifiers of tasks are distinct and
  -- exactly one checkpoint has the nonce, no later call with the nonce writes anything, whatever steps
  -- of the handshake, other commands and new boots stand between the calls.
  pub resume_attempt-once :
      (r r' : Resumer) (now fuel supplied authority epoch : ℕ) (id attempt : Option ℕ)
      (lease_id new_id command : ℕ) (receipt : Receipt) (m n k : Machine)
      → Keyed m.db
      → count (has_nonce supplied) m.db.checkpoints ≡ 1
      → resume_attempt host r w now fuel supplied authority epoch id attempt lease_id new_id command
          m
        ≡ (n, ok receipt)
      → Later host w n k
      → (now' fuel' authority' epoch' : ℕ) (id' attempt' : Option ℕ)
        (lease_id' new_id' command' : ℕ)
      → (resume_attempt host r' w now' fuel' supplied authority' epoch' id' attempt' lease_id'
          new_id' command' k).0
        ≡ k
  resume_attempt-once r r' now fuel supplied authority epoch id attempt lease_id new_id command
        receipt m n k key single h later now' fuel' authority' epoch' id' attempt' lease_id' new_id'
        command' =
      let one : count (has_nonce supplied) m.db.checkpoints ≤ 1 = (omega (arith, single)) in
      let known = count-any (has_nonce supplied) m.db.checkpoints (omega (arith, single)) in
      let (change, same) =
        resume_attempt-Kept host r w now fuel supplied authority epoch id attempt lease_id new_id
          command m in
      let done =
        resume_attempt-Done host r w now fuel supplied authority epoch id attempt lease_id new_id
          command m one in
      let held =
        subst
          (λ (s : Machine × Result Receipt).
            Keyed s.0.db
            × (any (has_nonce supplied) s.0.db.checkpoints ≡ true)
            × Done supplied s.0.db s.1)
          h
          (
            subst Distinct (sym same) key,
            Known-Change supplied m.db.checkpoints _ change known,
            done,
          ) in
      let (_, _, off) =
        Holding-Later host w supplied (unresumed supplied) n k (Watched-unresumed supplied) later
          held in
      resume_attempt_idle host r' w now' fuel' supplied authority' epoch' id' attempt' lease_id'
        new_id' command' k off
