-- ===== src/Tasks/Follows/Cancelling.antt =====
-- Containment of delegated children and cancellation keep `Follows`.
use banodoco_workspace_runti.Base.{
  ℕ, zero, suc, ◌≡◌, refl, ◌∙◌, ap, subst, false, Option, none, some, List, [], ◌∷◌, Bool-cases,
  Option-cases, inl, inr, arith, Result, Each, Each-bind, Each-if, Each-option,
}
use banodoco_workspace_runti.Tasks.Rows.{Task, Binding, Status, released, stale}
use banodoco_workspace_runti.Tasks.Realm.{
  Realm, World, task_at, binding_at, update_task, task_cancelled,
}
use banodoco_workspace_runti.Tasks.Bindings.{unresolved_external}
use banodoco_workspace_runti.Tasks.Continuations.{spec_of, refresh_continuations_for_predecessor}
use banodoco_workspace_runti.Tasks.Cancel.{
  close_delegation, closes, delegated_children, contain_each, contain_with, reconcile_with,
  request_cancel, finish_cancel, cancel_open, cancel_task, is_closed, is_ended, set_cancelled,
  set_cancel_requested,
}
use banodoco_workspace_runti.Tasks.Follows.{Follows, Follows-refl, is_final}
use banodoco_workspace_runti.Tasks.Follows.Writes.{
  Follows-update_task, Follows-append_event, Follows-update_run, Follows-release_reservations,
  Follows-release_execution_attempt, Follows-settle_attempt_of,
}
use banodoco_workspace_runti.Tasks.Follows.Waiting.{
  own_id, Each-trans, refresh_continuations-Follows,
}

lineage_kept :
    (t u : Task) → u.spec ≡ t.spec → (spec_of u).delegated_parent ≡ (spec_of t).delegated_parent
lineage_kept t u e = ground arith

module _ (w : World) where
  -- The spec with its delegation closed is that of the row found, but for the closed attempt.
  close-Follows :
      (parent : ℕ) (p : Task) (closed : Option ℕ) (db : Realm)
      → task_at db parent ≡ some p
      → Follows w db (
          update_task parent
            (λ t. record t {
              spec = some (record (spec_of p) { delegation_closed_attempt_id = closed });
            })
            db)
  close-Follows parent p closed db e =
      Follows-update_task (Follows-refl {w = w} db) parent
        (λ t. record t {
          spec = some (record (spec_of p) { delegation_closed_attempt_id = closed });
        })
        (λ u. refl)
        λ t u k s. record {
          identity = s.identity;
          lineage = let same : p ≡ t = cc in ap (λ (x : Task). (spec_of x).delegated_parent) same;
          fence = s.fence;
          final = s.final;
        }

  pub close_delegation-Follows :
      (parent : ℕ) (attempt : Option ℕ) (db : Realm)
      → Follows w db (close_delegation parent attempt db)
  unfolding close_delegation
  close_delegation-Follows parent attempt db = elim (Option-cases (task_at db parent)) [
    | inl e ↦ rw (e, close_delegation) (Follows-refl db)
    | inr (p, e) ↦ elim (Bool-cases (closes (spec_of p) attempt p.attempt_id)) [
      | inl c ↦ rw (e, close_delegation) (rw c (close-Follows parent p _ db e))
      | inr c ↦ rw (e, close_delegation) (rw c (Follows-refl db))
    ]
  ]

  -- A row that was not final may be rewritten, if its lineage and its fence stay.
  pub Follows-rewrite :
      {a b : Realm}
      → Follows w a b
      → (id : ℕ) (f : Task → Task) → ((u : Task) → (f u).id ≡ u.id)
      → ((u : Task) → (f u).spec ≡ u.spec)
      → ((u : Task) → (f u).lease_fence ≡ u.lease_fence)
      → ((t : Task) → task_at a id ≡ some t → is_final t.status ≡ false)
      → Follows w a (update_task id f b)
  Follows-rewrite h id f keep_id keep_spec keep_fence unfinished =
      Follows-update_task h id f keep_id λ t u e s. record {
        identity = keep_id u ∙ s.identity;
        lineage = lineage_kept u (f u) (keep_spec u) ∙ s.lineage;
        fence = omega (arith, keep_fence u, s.fence);
        final = λ p. cc (unfinished t e);
      }

  -- What is_closed lets through is not final.
  open_not_final : (s : Status) → is_closed s ≡ false → is_final s ≡ false
  open_not_final s e = ground arith

  module _ (now : ℕ) where
    module _ (cancel : ℕ → Realm → Result Realm)
        (keeps : (id : ℕ) (db : Realm) → Each (Follows w db) (cancel id db)) where
      contain_each-Follows :
          (parent : ℕ) (attempt : Option ℕ) (cs : List Task) (db : Realm)
          → Each (Follows w db) (contain_each w now cancel parent attempt cs db)
      unfolding contain_each
      contain_each-Follows parent attempt [] db = Follows-refl db
      contain_each-Follows parent attempt (c ∷ cs) db =
          Each-if (Follows w db) (is_ended c.status) _ _
            (λ _. contain_each-Follows parent attempt cs db)
            (λ _.
              Each-bind (Follows w db) (Follows w db) (cancel c.id db) _ (keeps c.id db) λ b _ f.
                Each-trans (Follows-append_event f now c.run_id (some c.id) _)
                  (contain_each w now cancel parent attempt cs _)
                  (contain_each-Follows parent attempt cs _))

      pub contain_with-Follows :
          (parent : ℕ) (attempt : Option ℕ) (db : Realm)
          → Each (Follows w db) (contain_with w now cancel parent attempt db)
      unfolding contain_with
      contain_with-Follows parent attempt db =
          let closed = close_delegation parent attempt db in
          let cs = delegated_children parent attempt closed in
          Each-trans (close_delegation-Follows parent attempt db)
            (contain_each w now cancel parent attempt cs closed)
            (contain_each-Follows parent attempt cs closed)

      pub reconcile_with-Follows :
          (id : ℕ) (attempt : Option ℕ) (db : Realm)
          → Each (Follows w db) (reconcile_with w now cancel id attempt db)
      unfolding reconcile_with
      reconcile_with-Follows id none db = Follows-refl db
      reconcile_with-Follows id (some attempt) db =
          Each-bind (Follows w db) (Follows w db) (contain_with w now cancel id (some attempt) db) _
            (contain_with-Follows id (some attempt) db)
            λ b _ f. Follows-settle_attempt_of f attempt id

      -- `task` is the row that the command found in `a`, and not final there.
      module _ {a : Realm} (task : Task)
          (unfinished : (t : Task) → task_at a task.id ≡ some t → is_final t.status ≡ false) where
        pub request_cancel-Follows :
            {b : Realm} (binding : Option Binding)
            → Follows w a b
            → Follows w a (request_cancel w now task binding b)
        unfolding request_cancel
        request_cancel-Follows binding f =
            Follows-append_event
              (Follows-release_execution_attempt
                (Follows-rewrite f task.id (set_cancel_requested now) (λ u. refl) (λ u. refl)
                  (λ u. refl) unfinished)
                stale task.id)
              now task.run_id (some task.id) _

        pub finish_cancel-Follows :
            {b : Realm} → Follows w a b → Each (Follows w a) (finish_cancel w now task b)
        unfolding finish_cancel
        finish_cancel-Follows f =
            Each-trans
              (Follows-append_event
                (Follows-release_execution_attempt
                  (Follows-release_reservations
                    (Follows-update_run
                      (Follows-rewrite f task.id (set_cancelled now) (λ u. refl) (λ u. refl)
                        (λ u. refl) unfinished)
                      task.run_id _)
                    now task.id task.lease_token)
                  released task.id)
                now task.run_id (some task.id) task_cancelled)
              (refresh_continuations_for_predecessor w now task.id _)
              (refresh_continuations-Follows w now task.id _)

      cancel_open-Follows :
          (task : Task) (db : Realm)
          → ((t : Task) → task_at db task.id ≡ some t → is_final t.status ≡ false)
          → Each (Follows w db) (cancel_open w now cancel task db)
      unfolding cancel_open
      cancel_open-Follows task db unfinished =
          Each-bind (Follows w db) (Follows w db) (contain_with w now cancel task.id none db) _
            (contain_with-Follows task.id none db)
            λ b _ f.
              Each-if (Follows w db) (unresolved_external (binding_at b task.id)) _ _
                (λ _. request_cancel-Follows task unfinished (binding_at b task.id) f)
                (λ _.
                  Each-bind (Follows w db) (Follows w db)
                    (reconcile_with w now cancel task.id task.attempt_id b) _
                    (Each-trans f (reconcile_with w now cancel task.id task.attempt_id b)
                      (reconcile_with-Follows task.id task.attempt_id b))
                    λ c _ g. finish_cancel-Follows task unfinished g)

    -- Cancelling keeps what is final, the lineages and the fences, and only appends events.
    pub cancel_task-Follows :
        (fuel id : ℕ) (db : Realm) → Each (Follows w db) (cancel_task w now fuel id db)
    unfolding cancel_task
    cancel_task-Follows zero id db = tt
    cancel_task-Follows (suc fuel) id db =
        Each-option (Follows w db) (task_at db id) _ _ (λ _. tt)
          λ task e.
            Each-if (Follows w db) (is_closed task.status) _ _ (λ _. Follows-refl db)
              λ c.
                cancel_open-Follows (cancel_task w now fuel) (cancel_task-Follows fuel) task db
                  λ t k.
                    let self = subst (λ j. task_at db j ≡ some t) (own_id db id task e) k in
                    let same : task ≡ t = cc in
                    subst (λ (x : Task). is_final x.status ≡ false) same
                      (open_not_final task.status c)
