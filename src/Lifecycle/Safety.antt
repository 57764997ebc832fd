-- ===== src/Lifecycle/Safety.antt =====
-- What the interruption report of runtime_protocol/lifecycle.py leaves no room for.
use banodoco_workspace_runti.Base.{
  ◌≡◌, Bool, true, false, not, List, [], ◌∷◌, select, arith, All, ok,
}
use banodoco_workspace_runti.Tasks.Rows.{Task, Attempt, Binding, Reservation, is_running}
use banodoco_workspace_runti.Tasks.Realm.{Realm}
use banodoco_workspace_runti.Tasks.Bindings.{is_live, is_placed}
use banodoco_workspace_runti.Lifecycle.{
  Report, is_empty, interruption_report, is_safe, assert_interruption_safe,
}

module _ {ℓ} {A : Type ℓ} (p : A → Bool) where
  none_left : (xs : List A) → is_empty (select p xs) ≡ true → All (λ x. p x ≡ false) xs
  unfolding select
  none_left [] h = tt
  none_left (x ∷ xs) h = (ground arith, none_left xs (ground arith))

-- An interruption that is allowed finds no running task, no unsettled attempt, no claimed or stale
-- binding and no live reservation.
pub interruption-idle :
    (db : Realm) (r : Report)
    → assert_interruption_safe db ≡ ok r
    → All (λ (t : Task). is_running t.status ≡ false) db.tasks
      × All (λ (a : Attempt). not a.settled ≡ false) db.attempts
      × All (λ (b : Binding). is_placed b.status ≡ false) db.bindings
      × All (λ (x : Reservation). is_live x ≡ false) db.reservations
unfolding assert_interruption_safe is_safe interruption_report
interruption-idle db r h = (
  none_left (λ (t : Task). is_running t.status) db.tasks (ground arith),
  none_left (λ (a : Attempt). not a.settled) db.attempts (ground arith),
  none_left (λ (b : Binding). is_placed b.status) db.bindings (ground arith),
  none_left is_live db.reservations (ground arith),
)
