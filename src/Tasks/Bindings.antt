-- ===== src/Tasks/Bindings.antt =====
-- runtime_protocol/store.py: reservations of resource keys and execution bindings, and the target
-- that a placement recovery puts in place of the requested one.
use banodoco_workspace_runti.Base.{
  ℕ, Bool, true, false, not, ◌&&◌, Option, none, some, first, update, ◌==◌, if◌then◌else◌, Result,
  ok, err, conflict,
}
use banodoco_workspace_runti.Tasks.Rows.{
  Reservation, Binding, BindingStatus, prepared, claimed, stale, Placement, Task,
}
use banodoco_workspace_runti.Tasks.Realm.{
  Realm, EventKind, task_placement_recovered, task_at, binding_at,
}

-- released_at IS NULL
abbrev pub is_live : Reservation → Bool
is_live r = elim r.released_at [ none ↦ true | some _ ↦ false ]

abbrev pub has_token : Option ℕ → Reservation → Bool
has_token none r = true
has_token (some token) r = r.lease_token == token

-- _release_reservations: with no token, every live reservation of the task
unfoldable pub release_reservations : ℕ → ℕ → Option ℕ → Realm → Realm
release_reservations now task_id lease_token db = record db {
  reservations =
      update (λ r. r.task_id == task_id && (has_token lease_token r && is_live r))
        (λ r. record r { released_at = some now }) db.reservations;
}

abbrev pub is_prepared : BindingStatus → Bool
is_prepared prepared = true
is_prepared _ = false

abbrev pub is_claimed : BindingStatus → Bool
is_claimed claimed = true
is_claimed _ = false

-- status IN ('claimed', 'stale')
abbrev pub is_placed : BindingStatus → Bool
is_placed claimed = true
is_placed stale = true
is_placed _ = false

-- `unresolved_external`: a verified placement whose attempt has not been released
unfoldable pub unresolved_external : Option Binding → Bool
unresolved_external none = false
unresolved_external (some b) = elim b.placement [
  | none ↦ false
  | some p ↦ is_placed b.status && p.is_verified
]

abbrev pub recovered_target : EventKind → Option ℕ
recovered_target (task_placement_recovered target) = some target
recovered_target _ = none

abbrev is_recovery : EventKind → Bool
is_recovery (task_placement_recovered target) = true
is_recovery _ = false

abbrev pub is_task : Option ℕ → ℕ → Bool
is_task none id = false
is_task (some t) id = t == id

-- placement_recovery: the newest decision of the task
unfoldable pub placement_recovery : Realm → ℕ → Option ℕ
placement_recovery db task_id =
    elim (first (λ e. is_task e.task_id task_id && is_recovery e.kind) db.events) [
      | none ↦ none
      | some e ↦ recovered_target e.kind
    ]

abbrev requested : Option Task → Option ℕ
requested none = none
requested (some t) = t.request_target

-- effective_execution_target
unfoldable pub effective_execution_target : Realm → ℕ → Option ℕ
unfolding placement_recovery
effective_execution_target db task_id = elim (placement_recovery db task_id) [
  | some target ↦ some target
  | none ↦ requested (task_at db task_id)
]

-- bind_execution_attempt. `matches` is execution_placement_matches of the selector and the placement.
unfoldable pub bind_execution_attempt :
    (matches : ℕ → Placement → Bool) (task_id attempt_id lease_id fence executor_id epoch : ℕ)
    → Placement
    → Realm
    → Result Realm
bind_execution_attempt matches task_id attempt_id lease_id fence executor_id epoch p db =
    elim (binding_at db task_id) [
      | none ↦ ok db
      | some b ↦
          if not (matches b.selected p)
          then err conflict
          else if not (is_prepared b.status)
          then err conflict
          else ok (record db {
            bindings =
                update (λ row. row.task_id == task_id && is_prepared row.status)
                  (λ row. record row {
                    attempt_id = some attempt_id;
                    lease_id = some lease_id;
                    fence = fence;
                    executor_id = some executor_id;
                    runtime_epoch = epoch;
                    placement = some p;
                    status = claimed;
                  })
                  db.bindings;
          })
    ]

abbrev or_keep : Option ℕ → ℕ → ℕ
or_keep none old = old
or_keep (some target) old = target

abbrev cleared : Option ℕ → Option Placement → Option Placement
cleared none old = old
cleared (some target) old = none

-- reset_execution_attempt, with the epoch that its callers pass or the current one
unfoldable pub reset_execution_attempt : ℕ → ℕ → Realm → Realm
reset_execution_attempt epoch task_id db =
    let target = effective_execution_target db task_id in
    record db {
      bindings =
          update (λ b. b.task_id == task_id && not (is_prepared b.status))
            (λ b. record b {
              attempt_id = none;
              lease_id = none;
              fence = 0;
              executor_id = none;
              session_id = elim db.lifecycle [ none ↦ none | some l ↦ some l.boot_id ];
              runtime_epoch = epoch;
              selected = or_keep target b.selected;
              placement = cleared target b.placement;
              status = prepared;
            })
            db.bindings;
    }

-- release_execution_attempt, to `released` or `stale`
unfoldable pub release_execution_attempt : BindingStatus → ℕ → Realm → Realm
release_execution_attempt status task_id db = record db {
  bindings =
      update (λ b. b.task_id == task_id && is_claimed b.status) (λ b. record b { status = status })
        db.bindings;
}
