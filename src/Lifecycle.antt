-- ===== src/Lifecycle.antt =====
-- runtime_protocol/lifecycle.py: whether the runtime may be stopped or upgraded now.
pub mod Safety
mod Samples
use banodoco_workspace_runti.Base.{
  ℕ, Bool, true, false, not, ◌&&◌, Option, List, [], ◌∷◌, map, select, if◌then◌else◌, Result, ok,
  err, conflict, ◌>>=◌, ◌>>◌, require,
}
use banodoco_workspace_runti.Tasks.Rows.{Task, Attempt, Binding, Reservation, is_running}
use banodoco_workspace_runti.Tasks.Realm.{Realm}
use banodoco_workspace_runti.Tasks.Bindings.{is_live, is_placed}

-- The rows of each list, of which the code reports some columns; all tables are there.
pub record Report : Type 0 where
  pub active_tasks : List Task
  pub unreconciled_attempts : List Attempt
  pub claimed_bindings : List Binding
  pub unreleased_reservations : List Reservation

abbrev pub is_empty {ℓ} : {A : Type ℓ} → List A → Bool
is_empty [] = true
is_empty (x ∷ xs) = false

-- _interruption_report
unfoldable pub interruption_report : Realm → Report
interruption_report db = record {
  active_tasks = select (λ t. is_running t.status) db.tasks;
  unreconciled_attempts = select (λ a. not a.settled) db.attempts;
  claimed_bindings = select (λ b. is_placed b.status) db.bindings;
  unreleased_reservations = select is_live db.reservations;
}

-- report["safe"]
unfoldable pub is_safe : Report → Bool
is_safe r =
    is_empty r.active_tasks
    && (is_empty r.unreconciled_attempts
        && (is_empty r.claimed_bindings && is_empty r.unreleased_reservations))

-- assert_interruption_safe
unfoldable pub assert_interruption_safe : Realm → Result Report
unfolding is_safe
assert_interruption_safe db = do
  require (is_safe (interruption_report db)) conflict
  ok (interruption_report db)
