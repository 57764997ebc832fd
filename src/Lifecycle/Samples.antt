-- ===== src/Lifecycle/Samples.antt =====
-- A realm that may be interrupted, for runtime_protocol/lifecycle.py.
use banodoco_workspace_runti.Base.{◌≡◌, refl, false, [], ◌∷◌, ok, select, not, All}
use banodoco_workspace_runti.Tasks.Rows.{Task, Reservation, Attempt, Binding, is_running, completed}
use banodoco_workspace_runti.Tasks.Realm.{Realm}
use banodoco_workspace_runti.Tasks.Bindings.{is_live, is_placed}
use banodoco_workspace_runti.Lifecycle.{
  Report, interruption_report, is_safe, assert_interruption_safe,
}
use banodoco_workspace_runti.Lifecycle.Safety.{interruption-idle}
use banodoco_workspace_runti.Tasks.Samples.{realm, task_of}

-- Nothing runs and nothing is held.
abbrev quiet : Realm
quiet = record realm { tasks = task_of 11 completed ∷ []; reservations = [] }

abbrev quiet_report : Report
quiet_report = interruption_report quiet

quiet_is_safe : assert_interruption_safe quiet ≡ ok quiet_report
unfolding assert_interruption_safe is_safe interruption_report select
quiet_is_safe = refl

interruption-idle_example :
    All (λ (t : Task). is_running t.status ≡ false) quiet.tasks
    × All (λ (a : Attempt). not a.settled ≡ false) quiet.attempts
    × All (λ (b : Binding). is_placed b.status ≡ false) quiet.bindings
    × All (λ (x : Reservation). is_live x ≡ false) quiet.reservations
interruption-idle_example = interruption-idle quiet quiet_report quiet_is_safe
