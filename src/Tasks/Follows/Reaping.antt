-- ===== src/Tasks/Follows/Reaping.antt =====
-- Reaping expired leases keeps `Follows`.
use banodoco_workspace_runti.Base.{
  ℕ, ◌≡◌, refl, subst, true, false, not, Option, none, some, List, [], ◌∷◌, arith, Result, Each,
  Each-bind, Each-if, Each-option,
}
use banodoco_workspace_runti.Tasks.Rows.{Task, Status, Lineage, is_active}
use banodoco_workspace_runti.Tasks.Realm.{Realm, World, task_at, binding_at}
use banodoco_workspace_runti.Tasks.Bindings.{unresolved_external}
use banodoco_workspace_runti.Tasks.Continuations.{spec_of}
use banodoco_workspace_runti.Tasks.Cancel.{contain_with, reconcile_with, cancel_task}
use banodoco_workspace_runti.Tasks.Reap.{
  has_authority, contain_orphan, contain_orphans, delegated_rows, contain_orphaned_delegations,
  overdue_lease_rows, mark_provider_unknown, requeue_run, requeue, set_requeued, reap_row,
  reap_rows, reap_expired_leases,
}
use banodoco_workspace_runti.Tasks.Follows.{Follows, Follows-refl, is_final}
use banodoco_workspace_runti.Tasks.Follows.Writes.{
  Follows-append_event, Follows-release_reservations, Follows-reset_execution_attempt,
}
use banodoco_workspace_runti.Tasks.Follows.Waiting.{Each-trans}
use banodoco_workspace_runti.Tasks.Follows.Cancelling.{
  Follows-rewrite, contain_with-Follows, reconcile_with-Follows, cancel_task-Follows,
}

pub active_not_final : (s : Status) → is_active s ≡ true → is_final s ≡ false
active_not_final s e = ground arith

-- The row that a command found is the one that its identity finds.
pub found_not_final :
    (db : Realm) (id : ℕ) (latest : Task)
    → task_at db id ≡ some latest
    → is_final latest.status ≡ false
    → (t : Task) → task_at db id ≡ some t
    → is_final t.status ≡ false
found_not_final db id latest e f t k =
    let same : latest ≡ t = cc in subst (λ (x : Task). is_final x.status ≡ false) same f

module _ {w : World} {a b : Realm} (h : Follows w a b) where
  pub Follows-requeue_run : (now run : ℕ) → Follows w a (requeue_run now run b)
  unfolding requeue_run task_at
  Follows-requeue_run now run = record {
    tasks = h.tasks;
    ids = h.ids;
    events = h.events;
    exclusive = h.exclusive;
    epoch = h.epoch;
    checkpoints = h.checkpoints;
  }

module _ (w : World) (now fuel : ℕ) where
  abbrev pub cancel : ℕ → Realm → Result Realm
  cancel = cancel_task w now fuel

  pub contains :
      (parent : ℕ) (attempt : Option ℕ) (db : Realm)
      → Each (Follows w db) (contain_with w now cancel parent attempt db)
  contains = contain_with-Follows w now cancel (cancel_task-Follows w now fuel)

  pub reconciles :
      (id : ℕ) (attempt : Option ℕ) (db : Realm)
      → Each (Follows w db) (reconcile_with w now cancel id attempt db)
  reconciles = reconcile_with-Follows w now cancel (cancel_task-Follows w now fuel)

  contain_orphan-Follows :
      (l : Option Lineage) (db : Realm) → Each (Follows w db) (contain_orphan w now fuel l db)
  unfolding contain_orphan
  contain_orphan-Follows none db = Follows-refl db
  contain_orphan-Follows (some l) db =
      Each-if (Follows w db) (has_authority w now db l) _ _ (λ _. Follows-refl db)
        (λ _. contains l.parent_task_id (some l.parent_attempt_id) db)

  contain_orphans-Follows :
      (cs : List Task) (db : Realm) → Each (Follows w db) (contain_orphans w now fuel cs db)
  unfolding contain_orphans
  contain_orphans-Follows [] db = Follows-refl db
  contain_orphans-Follows (c ∷ cs) db =
      Each-bind (Follows w db) (Follows w db) _ _
        (contain_orphan-Follows (spec_of c).delegated_parent db)
        λ b _ f. Each-trans f (contain_orphans w now fuel cs b) (contain_orphans-Follows cs b)

  mark-Follows :
      {a b : Realm} (row : Task)
      → ((t : Task) → task_at a row.id ≡ some t → is_final t.status ≡ false)
      → Follows w a b
      → Follows w a (mark_provider_unknown w now fuel row (binding_at b row.id) b)
  unfolding mark_provider_unknown
  mark-Follows row unfinished f =
      Follows-append_event
        (Follows-rewrite w f row.id _ (λ u. refl) (λ u. refl) (λ u. refl) unfinished) now row.run_id
        (some row.id) _

  requeue-Follows :
      {a b : Realm} (row : Task)
      → ((t : Task) → task_at a row.id ≡ some t → is_final t.status ≡ false)
      → Follows w a b
      → Each (Follows w a) (requeue w now fuel row b)
  unfolding requeue
  requeue-Follows {a} {b} row unfinished f =
      let queued_again =
        Follows-rewrite w f row.id (set_requeued w now fuel) (λ u. refl) (λ u. refl) (λ u. refl)
          unfinished in
      Each-bind (Follows w a) (Follows w a) _ _
        (Each-trans queued_again (reconcile_with w now cancel row.id row.attempt_id _)
          (reconciles row.id row.attempt_id _))
        λ c _ g.
          Follows-append_event
            (Follows-reset_execution_attempt
              (Follows-release_reservations (Follows-requeue_run g now row.run_id) now row.id
                row.lease_token)
              _ row.id)
            now row.run_id (some row.id) _

  reap_row-Follows : (row : Task) (db : Realm) → Each (Follows w db) (reap_row w now fuel row db)
  unfolding reap_row
  reap_row-Follows row db =
      Each-option (Follows w db) (task_at db row.id) _ _ (λ _. Follows-refl db)
        λ latest e.
          Each-if (Follows w db) (not (is_active latest.status)) _ _ (λ _. Follows-refl db)
            λ q.
              let unfinished =
                found_not_final db row.id latest e
                  (active_not_final latest.status (ground arith)) in
              Each-bind (Follows w db) (Follows w db) _ _ (contains row.id row.attempt_id db)
                λ b _ f.
                  Each-if (Follows w db) (unresolved_external (binding_at b row.id)) _ _
                    (λ _. mark-Follows row unfinished f) (λ _. requeue-Follows row unfinished f)

  reap_rows-Follows :
      (rows : List Task) (db : Realm) → Each (Follows w db) (reap_rows w now fuel rows db)
  unfolding reap_rows
  reap_rows-Follows [] db = Follows-refl db
  reap_rows-Follows (t ∷ ts) db =
      Each-bind (Follows w db) (Follows w db) _ _ (reap_row-Follows t db)
        λ b _ f. Each-trans f (reap_rows w now fuel ts b) (reap_rows-Follows ts b)

  pub reap_expired_leases-Follows :
      (db : Realm) → Each (Follows w db) (reap_expired_leases w now fuel db)
  unfolding reap_expired_leases contain_orphaned_delegations
  reap_expired_leases-Follows db =
      Each-bind (Follows w db) (Follows w db)
        (contain_orphans w now fuel (delegated_rows w now fuel db) db) _
        (contain_orphans-Follows (delegated_rows w now fuel db) db)
        λ b _ f.
          Each-trans f (reap_rows w now fuel (overdue_lease_rows w now fuel b) b)
            (reap_rows-Follows (overdue_lease_rows w now fuel b) b)
