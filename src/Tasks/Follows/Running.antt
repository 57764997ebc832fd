-- ===== src/Tasks/Follows/Running.antt =====
-- Cancelling and retrying a whole run keeps `Follows`. These loops write the rows that they read at
-- their start, so the identities of the tasks have to be distinct, as the primary key makes them.
use banodoco_workspace_runti.Base.{
  ℕ, ◌+◌, ◌==◌, ◌≡◌, refl, Bool, true, false, not, Option, none, some, List, [], ◌∷◌, ◌&&◌, ◌||◌,
  inl, inr, Bool-cases, map, first, select, any, leb, arith, conflict, not_found, invalid_request,
  All, Each, Each-bind, Each-step, Each-if, Each-require, Each-or_raise,
}
use banodoco_workspace_runti.Tasks.Rows.{
  Task, Status, is_terminal, is_failed, is_queued, is_running, released, stale,
}
use banodoco_workspace_runti.Tasks.Realm.{Realm, World, task_at, run_at, binding_at, task_cancelled}
use banodoco_workspace_runti.Tasks.Bindings.{unresolved_external}
use banodoco_workspace_runti.Tasks.Continuations.{mem, refresh_continuations_for_predecessor}
use banodoco_workspace_runti.Tasks.Cancel.{
  contain_with, reconcile_with, set_cancelled, set_cancel_requested,
}
use banodoco_workspace_runti.Tasks.Runs.{
  assert_delegated_retry_capacity, set_retried, request_run_cancel, finish_run_cancel, selects,
  names_distinct, names_known, is_retired, is_empty, cancel_child, cancel_children, cancel_run,
  retry_child, retry_children, retry_run,
}
use banodoco_workspace_runti.Tasks.Follows.{Follows, Follows-refl, is_final}
use banodoco_workspace_runti.Tasks.Follows.Writes.{
  Follows-append_event, Follows-update_run, Follows-release_reservations,
  Follows-release_execution_attempt, Follows-reset_execution_attempt,
}
use banodoco_workspace_runti.Tasks.Follows.Waiting.{Each-trans, refresh_continuations-Follows}
use banodoco_workspace_runti.Tasks.Follows.Cancelling.{Follows-rewrite}
use banodoco_workspace_runti.Tasks.Follows.Reaping.{cancel, contains, reconciles, found_not_final}

abbrev pub Distinct : List ℕ → Type 0
Distinct [] = Unit
Distinct (x ∷ xs) = (mem x xs ≡ false) × Distinct xs

-- The primary key of tasks.
abbrev pub Keyed : Realm → Type 0
Keyed db = Distinct (map (λ (t : Task). t.id) db.tasks)

abbrev Found : List Task → List Task → Type 0
Found all ts = All (λ (t : Task). first (λ (u : Task). u.id == t.id) all ≡ some t) ts

behind-Found :
    (x : Task) (all ts : List Task)
    → mem x.id (map (λ (t : Task). t.id) ts) ≡ false
    → Found all ts
    → Found (x ∷ all) ts
unfolding mem first
behind-Found x all [] e h = tt
behind-Found x all (t ∷ ts) e h = (ground (arith, h.0), behind-Found x all ts (ground arith) h.1)

all-Found : (ts : List Task) → Distinct (map (λ (t : Task). t.id) ts) → Found ts ts
unfolding first
all-Found [] d = tt
all-Found (t ∷ ts) d = (ground arith, behind-Found t ts ts d.0 (all-Found ts d.1))

-- A row of a table with a primary key is the one that its identity finds.
select-Found :
    (p : Task → Bool) (all ts : List Task)
    → Found all ts
    → All
        (λ (t : Task). (first (λ (u : Task). u.id == t.id) all ≡ some t) × (p t ≡ true))
        (select p ts)
unfolding select
select-Found p all [] h = tt
select-Found p all (t ∷ ts) h = elim (Bool-cases (p t)) [
  | inl e ↦ rw e ((h.0, e), select-Found p all ts h.1)
  | inr e ↦ rw e (select-Found p all ts h.1)
]

abbrev pub Rows : Realm → (Task → Bool) → List Task → Type 0
Rows db p ts = All (λ (t : Task). (task_at db t.id ≡ some t) × (p t ≡ true)) ts

pub select-Rows : (db : Realm) (p : Task → Bool) → Keyed db → Rows db p (select p db.tasks)
unfolding task_at
select-Rows db p k = select-Found p db.tasks db.tasks (all-Found db.tasks k)

Found-select : (p : Task → Bool) (all ts : List Task) → Found all ts → Found all (select p ts)
unfolding select
Found-select p all [] h = tt
Found-select p all (t ∷ ts) h = elim (Bool-cases (p t)) [
  | inl e ↦ rw e (h.0, Found-select p all ts h.1)
  | inr e ↦ rw e (Found-select p all ts h.1)
]

select_within-Rows :
    (db : Realm) (p q : Task → Bool) → Keyed db → Rows db q (select q (select p db.tasks))
unfolding task_at
select_within-Rows db p q k =
    select-Found q db.tasks (select p db.tasks)
      (Found-select p db.tasks db.tasks (all-Found db.tasks k))

unterminated_not_final : (s : Status) → is_terminal s ≡ false → is_final s ≡ false
unterminated_not_final s e = ground arith

failed_not_final : (s : Status) → is_failed s ≡ true → is_final s ≡ false
failed_not_final s e = ground arith

module _ (w : World) (now fuel : ℕ) where
  -- `t` is a row of the run as the command `a` began with.
  module _ {a : Realm} (run : ℕ) (t : Task)
      (unfinished : (u : Task) → task_at a t.id ≡ some u → is_final u.status ≡ false) where
    request-Follows :
        {b : Realm} → Follows w a b → Follows w a (request_run_cancel w now fuel run t b)
    unfolding request_run_cancel
    request-Follows f =
        Follows-append_event
          (Follows-release_execution_attempt
            (Follows-rewrite w f t.id (set_cancel_requested now) (λ u. refl) (λ u. refl) (λ u. refl)
              unfinished)
            stale t.id)
          now run (some t.id) _

    finish-Follows :
        {b : Realm} → Follows w a b → Each (Follows w a) (finish_run_cancel w now fuel run t b)
    unfolding finish_run_cancel
    finish-Follows f =
        Each-trans
          (Follows-append_event
            (Follows-release_execution_attempt
              (Follows-release_reservations
                (Follows-rewrite w f t.id (set_cancelled now) (λ u. refl) (λ u. refl) (λ u. refl)
                  unfinished)
                now t.id t.lease_token)
              released t.id)
            now run (some t.id) task_cancelled)
          (refresh_continuations_for_predecessor w now t.id _)
          (refresh_continuations-Follows w now t.id _)

    cancel_child-Follows :
        {b : Realm} → Follows w a b → Each (λ r. Follows w a r.0) (cancel_child w now fuel run t b)
    unfolding cancel_child
    cancel_child-Follows {b} f =
        Each-bind (Follows w a) (λ r. Follows w a r.0)
          (contain_with w now (cancel w now fuel) t.id none b) _
          (Each-trans f (contain_with w now (cancel w now fuel) t.id none b)
            (contains w now fuel t.id none b))
          λ c _ g.
            Each-if (λ r. Follows w a r.0) (unresolved_external (binding_at c t.id)) _ _
              (λ _. request-Follows g)
              (λ _.
                Each-bind (Follows w a) (λ r. Follows w a r.0)
                  (reconcile_with w now (cancel w now fuel) t.id t.attempt_id c) _
                  (Each-trans g (reconcile_with w now (cancel w now fuel) t.id t.attempt_id c)
                    (reconciles w now fuel t.id t.attempt_id c))
                  λ d _ k.
                    Each-bind (Follows w a) (λ r. Follows w a r.0)
                      (finish_run_cancel w now fuel run t d) _ (finish-Follows k) λ e _ l. l)

    retry_child-Follows :
        {b : Realm} → Follows w a b → Each (Follows w a) (retry_child w now fuel run t b)
    unfolding retry_child
    retry_child-Follows {b} f =
        Each-step (Follows w a) (assert_delegated_retry_capacity now b t.id) _ λ _ _.
          Each-trans
            (Follows-append_event
              (Follows-rewrite w
                (Follows-reset_execution_attempt
                  (Follows-release_reservations f now t.id t.lease_token) _ t.id)
                t.id (set_retried now) (λ u. refl) (λ u. refl) (λ u. refl) unfinished)
              now run (some t.id) _)
            (refresh_continuations_for_predecessor w now t.id _)
            (refresh_continuations-Follows w now t.id _)

  module _ (a : Realm) (run : ℕ) where
    cancel_children-Follows :
        (p : Task → Bool) (ts : List Task) (b : Realm)
        → Rows a p ts
        → Follows w a b
        → Each (λ r. Follows w a r.0) (cancel_children w now fuel run ts b)
    unfolding cancel_children
    cancel_children-Follows p [] b rows f = f
    cancel_children-Follows p (t ∷ ts) b rows f =
        Each-if (λ r. Follows w a r.0) (is_terminal t.status) _ _
          (λ _. cancel_children-Follows p ts b rows.1 f)
          λ n.
            Each-bind (λ r. Follows w a r.0) (λ r. Follows w a r.0)
              (cancel_child w now fuel run t b) _
              (cancel_child-Follows run t
                (found_not_final a t.id t rows.0.0 (unterminated_not_final t.status n)) f)
              λ r _ g.
                Each-bind (λ s. Follows w a s.0) (λ s. Follows w a s.0)
                  (cancel_children w now fuel run ts r.0) _
                  (cancel_children-Follows p ts r.0 rows.1 g) λ s _ k. ground (arith, k)

    retry_children-Follows :
        (p : Task → Bool) (ts : List Task) (b : Realm)
        → ((t : Task) → p t ≡ true → is_failed t.status ≡ true)
        → Rows a p ts
        → Follows w a b
        → Each (Follows w a) (retry_children w now fuel run ts b)
    unfolding retry_children
    retry_children-Follows p [] b failing rows f = f
    retry_children-Follows p (t ∷ ts) b failing rows f =
        Each-bind (Follows w a) (Follows w a) (retry_child w now fuel run t b) _
          (retry_child-Follows run t
            (found_not_final a t.id t rows.0.0 (failed_not_final t.status (failing t rows.0.1))) f)
          λ c _ g. retry_children-Follows p ts c failing rows.1 g

  pub cancel_run-Follows :
      (run : ℕ) (db : Realm) → Keyed db → Each (Follows w db) (cancel_run w now fuel run db)
  unfolding cancel_run
  cancel_run-Follows run db key = Each-or_raise (Follows w db) (run_at db run) _ _ λ r _.
      Each-require (Follows w db) (is_queued r.status || is_running r.status) conflict _ λ _.
        Each-bind (λ s. Follows w db s.0) (Follows w db)
          (cancel_children w now fuel run (select (λ (t : Task). t.run_id == run) db.tasks) db) _
          (cancel_children-Follows db run (λ t. t.run_id == run) _ db
            (select-Rows db (λ t. t.run_id == run) key) (Follows-refl db))
          λ s _ f. Follows-append_event (Follows-update_run f run _) now run none _

  pub retry_run-Follows :
      (retention run : ℕ) (selected : Option (List ℕ)) (db : Realm)
      → Keyed db
      → Each (Follows w db) (retry_run w now fuel retention run selected db)
  unfolding retry_run
  retry_run-Follows retention run selected db key =
      let children = select (λ (t : Task). t.run_id == run) db.tasks in
      let q = λ (t : Task). is_failed t.status && selects selected t.id in
      let eligible = select q children in
      Each-or_raise (Follows w db) (run_at db run) _ _ λ r _.
        Each-require (Follows w db) (names_distinct selected) invalid_request _ λ _.
          Each-require (Follows w db) (is_failed r.status) conflict _ λ _.
            Each-require (Follows w db) (leb now (r.updated_at + retention)) conflict _ λ _.
              Each-require (Follows w db) (not (any is_retired eligible)) conflict _ λ _.
                Each-require (Follows w db)
                  (names_known selected (map (λ (t : Task). t.id) children)) not_found _
                  λ _. Each-require (Follows w db) (not (is_empty eligible)) conflict _ λ _.
                    Each-bind (Follows w db) (Follows w db)
                      (retry_children w now fuel run eligible db) _
                      (retry_children-Follows db run q eligible db (λ t e. ground arith)
                        (select_within-Rows db (λ t. t.run_id == run) q key) (Follows-refl db))
                      λ c _ f. Follows-append_event (Follows-update_run f run _) now run none _
