-- ===== src/Tasks/Answers.antt =====
-- Results that are no fuel exhaustion, through the commands of runtime_protocol/store.py on
-- continuations and the last writes of cancel_task.
use banodoco_workspace_runti.Base.{
  ℕ, ◌≡◌, refl, Bool, true, false, not, Option, none, some, List, [], ◌∷◌, ◌==◌, All, Bool-cases,
  inl, inr, Result, ok, err, ◌>>=◌, validation, conflict, lease, not_found, invalid_request,
  window_expired, authorization, integrity, os_error, out_of_fuel, if◌then◌else◌,
}
use banodoco_workspace_runti.Tasks.Rows.{Task, Output, Dependency, is_queued}
use banodoco_workspace_runti.Tasks.Realm.{Realm, World, task_at}
use banodoco_workspace_runti.Tasks.Continuations.{
  project_of, outputs_of, is_admitted, collect_inputs, resolve_children, continuation_rows,
  continuation_waiting_reason, materialize, admit_or_wait, admit_continuation, refresh_continuation,
  refresh_each, refresh_continuations_for_predecessor,
}
use banodoco_workspace_runti.Tasks.Cancel.{finish_cancel}

-- It returns, or raises an exception of the program.
abbrev pub Answers {ℓ} : {A : Type ℓ} → Result A → Type 0
Answers (ok a) = Unit
Answers (err out_of_fuel) = ⊥
Answers (err validation) = Unit
Answers (err conflict) = Unit
Answers (err lease) = Unit
Answers (err not_found) = Unit
Answers (err invalid_request) = Unit
Answers (err window_expired) = Unit
Answers (err authorization) = Unit
Answers (err integrity) = Unit
Answers (err os_error) = Unit

module _ {ℓ κ} {A : Type ℓ} {B : Type κ} where
  pub Answers-bind :
      (m : Result A) (f : A → Result B)
      → Answers m
      → ((a : A) → m ≡ ok a → Answers (f a))
      → Answers (m >>= f)
  Answers-bind (ok a) f h k = k a refl
  Answers-bind (err out_of_fuel) f h k = absurd h
  Answers-bind (err validation) f h k = tt
  Answers-bind (err conflict) f h k = tt
  Answers-bind (err lease) f h k = tt
  Answers-bind (err not_found) f h k = tt
  Answers-bind (err invalid_request) f h k = tt
  Answers-bind (err window_expired) f h k = tt
  Answers-bind (err authorization) f h k = tt
  Answers-bind (err integrity) f h k = tt
  Answers-bind (err os_error) f h k = tt

module _ {ℓ} {A : Type ℓ} where
  pub Answers-if :
      (b : Bool) (m n : Result A)
      → Answers m
      → (b ≡ false → Answers n)
      → Answers (if b then m else n)
  Answers-if true m n h k = h
  Answers-if false m n h k = k refl

  pub Answers-option {κ} :
      {B : Type κ} (o : Option B) (n : Result A) (k : B → Result A)
      → Answers n
      → ((b : B) → o ≡ some b → Answers (k b))
      → Answers (elim o [ none ↦ n | some b ↦ k b ])
  Answers-option none n k hn hk = hn
  Answers-option (some b) n k hn hk = hk b refl

  Answers-list {κ} :
      {B : Type κ} (l : List B) (n : Result A) (k : B → List B → Result A)
      → Answers n
      → ((b : B) (bs : List B) → Answers (k b bs))
      → Answers (elim l [ [] ↦ n | b ∷ bs ↦ k b bs ])
  Answers-list [] n k hn hk = hn
  Answers-list (b ∷ bs) n k hn hk = hk b bs

  pub All-below : {P Q : A → Type 0} → ((a : A) → P a → Q a) → (xs : List A) → All P xs → All Q xs
  All-below k [] h = tt
  All-below k (x ∷ xs) h = (k x h.0, All-below k xs h.1)

collect_inputs-Answers : (os : List Output) (xs : List ℕ) → Answers (collect_inputs os xs)
unfolding collect_inputs
collect_inputs-Answers [] xs = tt
collect_inputs-Answers (o ∷ os) xs =
    Answers-option o.digest _ _ tt λ d _. collect_inputs-Answers os _

resolve_children-Answers :
    (rows : List (ℕ × Task)) (xs : List ℕ) → Answers (resolve_children rows xs)
unfolding resolve_children
resolve_children-Answers [] xs = tt
resolve_children-Answers ((n, t) ∷ rows) xs = Answers-option (outputs_of t.result) _ _ tt λ os _.
    Answers-bind (collect_inputs os xs) _ (collect_inputs-Answers os xs)
      λ ys _. Answers-bind (resolve_children rows ys) _ (resolve_children-Answers rows ys) λ r _. tt

module _ (w : World) (now : ℕ)
    (checks : (now : ℕ) (project : Option ℕ) (inputs : List ℕ)
      → Answers (w.validate_task_inputs now project inputs)) where
  admit_continuation-Answers : (id : ℕ) (db : Realm) → Answers (admit_continuation w now id db)
  unfolding admit_continuation admit_or_wait materialize
  admit_continuation-Answers id db = Answers-list (continuation_rows db id) _ _ tt λ r rs.
      Answers-option (task_at db id) _ _ tt λ task _.
        Answers-if (not (is_queued task.status)) _ _ tt λ _.
          Answers-if (is_admitted db id) _ _ tt λ _.
            Answers-option (continuation_waiting_reason (r ∷ rs)) _ _
              (Answers-bind (resolve_children (r ∷ rs) []) _ (resolve_children-Answers (r ∷ rs) [])
                λ x _.
                  Answers-bind (w.validate_task_inputs now (project_of db task.run_id) x.1) _
                    (checks now (project_of db task.run_id) x.1) λ _ _. tt)
              (λ _ _. tt)

  refresh_each-Answers :
      (id : ℕ) (ds : List Dependency) (db : Realm) → Answers (refresh_each w now id ds db)
  unfolding refresh_each refresh_continuation
  refresh_each-Answers id [] db = tt
  refresh_each-Answers id (d ∷ ds) db = elim (Bool-cases (d.predecessor_task_id == id)) [
    | inl e ↦ rw e (
        Answers-bind (refresh_continuation w now d.continuation_task_id db) _
          (Answers-bind (admit_continuation w now d.continuation_task_id db) _
            (admit_continuation-Answers d.continuation_task_id db) λ _ _. tt)
          λ b _. refresh_each-Answers id ds b)
    | inr e ↦ rw e (refresh_each-Answers id ds db)
  ]

  pub finish_cancel-Answers : (task : Task) (db : Realm) → Answers (finish_cancel w now task db)
  unfolding finish_cancel refresh_continuations_for_predecessor
  finish_cancel-Answers task db = refresh_each-Answers task.id _ _
