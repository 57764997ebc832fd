-- ===== src/Service/Attempts/Retry.antt =====
-- A heartbeat whose answer was lost: heartbeat_attempt of runtime_protocol/service.py, repeated.
use banodoco_workspace_runti.Base.{
  ℕ, ◌+◌, ◌*◌, ◌≤◌, ◌==◌, ◌≡◌, refl, sym, ap, ◌∙◌, subst, true, not, ◌&&◌, Option, none, some, List,
  first, update, first-update, first-holds, arith, ltb, ok, validation, lease, integrity, not_found,
  require, >>=-eq-ok, or_raise-eq-ok,
}
use banodoco_workspace_runti.Tasks.Rows.{Task, Attempt, Deadline, overdue, at}
use banodoco_workspace_runti.Tasks.Realm.{
  Realm, World, task_at, append_event, update_task, current_runtime_epoch,
}
use banodoco_workspace_runti.Tasks.Executors.{validate_runtime_epoch}
use banodoco_workspace_runti.Tasks.Settle.{heartbeat_task, extend_lease, assert_lease}
use banodoco_workspace_runti.Service.Compact.{attempt_heartbeat, Value}
use banodoco_workspace_runti.Service.Ledger.{Outside, command_replay_state, command_record}
use banodoco_workspace_runti.Service.Ledger.Replay.{command_replay_state-command_record}
use banodoco_workspace_runti.Service.Recovery.{
  Host, attempt_at, validate_attempt_lease, update_attempt, identity_checked,
}
use banodoco_workspace_runti.Service.Attempts.{
  Office, Progress, Body, Requests, progress_ok, seconds_of, attempt_project, deadline_of,
  heartbeat_result, with_progress, beat, heartbeat_attempt,
}

heartbeat_task-same :
    (w : World) (now id token : ℕ) (fence : Option ℕ) (seconds : ℕ) (a b : Realm)
    → heartbeat_task w now id token fence seconds a ≡ ok b
    → (b.attempts ≡ a.attempts) × (b.lifecycle ≡ a.lifecycle)
unfolding heartbeat_task extend_lease update_task
heartbeat_task-same w now id token fence seconds a b h =
    let (_, _, h) = >>=-eq-ok (require (ltb 0 seconds) validation) _ h in
    let (task, _, h) = or_raise-eq-ok (task_at a id) not_found _ h in
    let (_, _, h) = >>=-eq-ok (assert_lease now task token fence) _ h in
    let same : extend_lease w now task token (at (now + seconds * 1000)) a ≡ b = cc in
    (
      subst (λ (x : Realm). x.attempts ≡ a.attempts) same refl,
      subst (λ (x : Realm). x.lifecycle ≡ a.lifecycle) same refl,
    )

with_progress-same :
    (w : World) (o : Outside) (host : Host) (q : Requests) (now : ℕ) (t : Option Task)
    (p : Option Progress) (db : Realm)
    → let held = with_progress w o host q now t p db in
      (held.attempts ≡ db.attempts) × (held.lifecycle ≡ db.lifecycle)
unfolding append_event
with_progress-same w o host q now none p db = (refl, refl)
with_progress-same w o host q now (some t) none db = (refl, refl)
with_progress-same w o host q now (some t) (some p) db = (refl, refl)

validate_attempt_lease-row :
    (now : ℕ) (row : Option Attempt) (lease_id fence epoch current : ℕ) (db : Realm) (a : Attempt)
    → validate_attempt_lease now row lease_id fence epoch current db ≡ ok a
    → row ≡ some a
unfolding validate_attempt_lease
validate_attempt_lease-row now row lease_id fence epoch current db a h =
    let (_, _, h) = >>=-eq-ok (validate_runtime_epoch db (some epoch) none true) _ h in
    let (b, e, h) = or_raise-eq-ok row lease _ h in
    let (_, _, h) = >>=-eq-ok (require (not b.settled && b.runtime_epoch == current) lease) _ h in
    let (_, _, h) = >>=-eq-ok (require (b.lease_id == lease_id && b.fence == fence) lease) _ h in
    let (_, _, h) = >>=-eq-ok (require (not (overdue now b.lease_expires_at)) lease) _ h in
    let same : b ≡ a = cc in e ∙ ap some same

module _ (w : World) (o : Outside) (host : Host) (q : Requests) where
  -- What a recorded heartbeat leaves: the attempt with a new deadline, the same epoch, and a ledger
  -- that answers the same request.
  abbrev Left : (now attempt key : ℕ) → Body → Attempt → Office → Office → Value → Type 0
  Left now attempt key body a s s' v =
      ((expires : Deadline) × (attempt_at s'.db attempt
          ≡ some (record a { lease_expires_at = expires })))
      × (s'.db.lifecycle ≡ s.db.lifecycle)
      × ((later : ℕ)
          → later ≤ now + 86400000
          → command_replay_state o later attempt_heartbeat attempt (some key)
              (q.heartbeat_hash attempt body) s'.book
            ≡ ok (some v))

  beat-Left :
      (now attempt key : ℕ) (body : Body) (seconds : ℕ) (a : Attempt) (s s' : Office) (v : Value)
      → attempt_at s.db attempt ≡ some a
      → beat w o host q now attempt key body seconds a s ≡ ok (s', v)
      → Left now attempt key body a s s' v
  unfolding beat update_attempt attempt_at
  beat-Left now attempt key body seconds a s s' v row h =
      let task = task_at s.db a.task_id in
      let (db, beaten, h) =
        >>=-eq-ok (heartbeat_task w now a.task_id a.lease_id (some a.fence) seconds s.db) _ h in
      let (expires, _, h) = or_raise-eq-ok (deadline_of (task_at db a.task_id)) integrity _ h in
      let moved =
        update_attempt attempt (λ x. true) (λ x. record x { lease_expires_at = expires }) db in
      let held = with_progress w o host q now task body.progress moved in
      let result = heartbeat_result a expires (current_runtime_epoch held) in
      let (book, recorded, h) =
        >>=-eq-ok
          (command_record o now attempt_heartbeat attempt (some key) (q.heartbeat_hash attempt body)
            result (some (attempt_project q.unscoped s.db task)) s.book)
          _ h in
      let kept =
        heartbeat_task-same w now a.task_id a.lease_id (some a.fence) seconds s.db db beaten in
      let quiet = with_progress-same w o host q now task body.progress moved in
      let e : (record { db = held; book = book }, result) ≡ (s', v) = cc in
      subst (λ (x : Office × Value). Left now attempt key body a s x.0 x.1) e
        (
          (
            expires,
            ap (first (λ (x : Attempt). x.id == attempt)) quiet.0
                ∙ ap
                    (λ xs.
                      first (λ (x : Attempt). x.id == attempt)
                        (update (λ x. x.id == attempt && true)
                          (λ x. record x { lease_expires_at = expires }) xs))
                    kept.0
                ∙ updated_row expires s.db.attempts row,
          ),
          quiet.1 ∙ kept.1,
          λ later in_time.
              command_replay_state-command_record o now attempt_heartbeat attempt key
                (q.heartbeat_hash attempt body) result (some (attempt_project q.unscoped s.db task))
                s.book book later recorded (ground (arith, in_time)) refl (tt, tt, tt, tt),
        )
    where
      updated_row :
          (expires : Deadline) (xs : List Attempt)
          → first (λ (x : Attempt). x.id == attempt) xs ≡ some a
          → first
              (λ (x : Attempt). x.id == attempt)
              (update
                (λ x. x.id == attempt && true)
                (λ x. record x { lease_expires_at = expires })
                xs)
            ≡ some (record a { lease_expires_at = expires })
      updated_row expires xs e =
          let hit = first-holds (λ (x : Attempt). x.id == attempt) xs a e in
          first-update (λ (x : Attempt). x.id == attempt) (λ x. x.id == attempt && true)
            (λ x. record x { lease_expires_at = expires }) xs (λ x. refl)
          ∙ rw (e, hit) refl

  same_epoch :
      (a b : Realm) (supplied : ℕ)
      → a.lifecycle ≡ b.lifecycle
      → validate_runtime_epoch a (some supplied) none true
        ≡ validate_runtime_epoch b (some supplied) none true
  unfolding validate_runtime_epoch current_runtime_epoch
  same_epoch a b supplied e = rw e refl

  -- A heartbeat that was recorded and is repeated with the same key and body within a day gets the same
  -- answer and changes nothing, whether or not the lease has run out since.
  pub heartbeat_attempt_again :
      (now attempt key : ℕ) (body : Body) (s s' : Office) (v : Value) (later : ℕ)
      → heartbeat_attempt w o host q now attempt key body s ≡ ok (s', v)
      → command_replay_state o now attempt_heartbeat attempt
          (some key)
          (q.heartbeat_hash attempt body)
          s.book
        ≡ ok none
      → later ≤ now + 86400000
      → heartbeat_attempt w o host q later attempt key body s' ≡ ok (s', v)
  unfolding heartbeat_attempt
  heartbeat_attempt_again now attempt key body s s' v later h unknown in_time =
      let (seconds, i, h) = >>=-eq-ok (seconds_of body.lease_seconds) _ h in
      let (_, j, h) = >>=-eq-ok (require (progress_ok body.progress) validation) _ h in
      let row = attempt_at s.db attempt in
      let (_, k, h) = >>=-eq-ok (identity_checked host row) _ h in
      let (current, l, h) =
        >>=-eq-ok (validate_runtime_epoch s.db (some body.runtime_epoch) none true) _ h in
      let h = (rw unknown at h) in
      let (a, leased, h) =
        >>=-eq-ok
          (validate_attempt_lease now row body.lease_id body.fence body.runtime_epoch
            (current_runtime_epoch s.db) s.db)
          _ h in
      let found =
        validate_attempt_lease-row now row body.lease_id body.fence body.runtime_epoch
          (current_runtime_epoch s.db) s.db a leased in
      let left = beat-Left now attempt key body seconds a s s' v found h in
      let identity = ap (identity_checked host) (sym found) ∙ k in
      rw
        (
          heartbeat_attempt,
          i,
          j,
          left.0.1,
          identity,
          same_epoch s'.db s.db body.runtime_epoch left.1 ∙ l,
          left.2 later in_time,
        )
        refl
