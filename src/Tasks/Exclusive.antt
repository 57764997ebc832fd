-- ===== src/Tasks/Exclusive.antt =====
-- Reservations of resource keys in runtime_protocol/store.py, and when they are exclusive.
use banodoco_workspace_runti.Base.{
  ℕ, ◌+◌, ◌==◌, ◌≡◌, refl, sym, Bool, true, false, ◌&&◌, none, List, [], ◌∷◌, Bool-cases, inl, inr,
  any, update, upsert, All, All-update, arith,
}
use banodoco_workspace_runti.Tasks.Rows.{Reservation, Executor, at}
use banodoco_workspace_runti.Tasks.Realm.{Realm}
use banodoco_workspace_runti.Tasks.Bindings.{is_live}
use banodoco_workspace_runti.Tasks.Claim.{occupied, blocked_key, lease_time, reserve}

-- Two live reservations of one key of one executor belong to one task.
abbrev pub Compatible : Reservation → Reservation → Type 0
Compatible x y =
    is_live x ≡ true
    → is_live y ≡ true
    → x.executor_id ≡ y.executor_id
    → x.resource_key ≡ y.resource_key
    → x.task_id ≡ y.task_id

abbrev pub Exclusive : List Reservation → Type 0
Exclusive [] = Unit
Exclusive (x ∷ xs) = All (Compatible x) xs × Exclusive xs

Compatible-sym : (x y : Reservation) → Compatible x y → Compatible y x
Compatible-sym x y h ly lx e k = sym (h lx ly (sym e) (sym k))

-- A write that revives no reservation and moves none to another key.
pub record Tames (f : Reservation → Reservation) : Type 0 where
  pub live : (x : Reservation) → is_live (f x) ≡ true → is_live x ≡ true
  pub executor : (x : Reservation) → (f x).executor_id ≡ x.executor_id
  pub key : (x : Reservation) → (f x).resource_key ≡ x.resource_key
  pub task : (x : Reservation) → (f x).task_id ≡ x.task_id

module _ (f : Reservation → Reservation) (tames : Tames f) where
  tame_right : (x y : Reservation) → Compatible x y → Compatible x (f y)
  tame_right x y h lx ly e k =
      ground (
        arith,
        tames.live y ly,
        tames.executor y,
        tames.key y,
        tames.task y,
        h lx (tames.live y ly),
      )

  tame_left : (x y : Reservation) → Compatible x y → Compatible (f x) y
  tame_left x y h lx ly e k =
      ground (
        arith,
        tames.live x lx,
        tames.executor x,
        tames.key x,
        tames.task x,
        h (tames.live x lx) ly,
      )

  All-tame_left :
      (x : Reservation) (ys : List Reservation) → All (Compatible x) ys → All (Compatible (f x)) ys
  All-tame_left x [] h = tt
  All-tame_left x (y ∷ ys) h = (tame_left x y h.0, All-tame_left x ys h.1)

  pub Exclusive-update :
      (q : Reservation → Bool) (rs : List Reservation) → Exclusive rs → Exclusive (update q f rs)
  unfolding update
  Exclusive-update q [] h = tt
  Exclusive-update q (x ∷ xs) h =
      let rest = All-update q f xs (λ y _ c. tame_right x y c) h.0 in
      elim (Bool-cases (q x)) [
        | inl e ↦ rw e (All-tame_left x (update q f xs) rest, Exclusive-update q xs h.1)
        | inr e ↦ rw e (rest, Exclusive-update q xs h.1)
      ]

module _ (same : Reservation → Bool) (row : Reservation) where
  All-upsert :
      (x : Reservation) (ys : List Reservation)
      → All (Compatible x) ys
      → Compatible x row
      → All (Compatible x) (upsert same (λ _. row) row ys)
  unfolding upsert
  All-upsert x [] h c = (c, tt)
  All-upsert x (y ∷ ys) h c = elim (Bool-cases (same y)) [
    | inl e ↦ rw e (c, h.1)
    | inr e ↦ rw e (h.0, All-upsert x ys h.1 c)
  ]

  Exclusive-upsert :
      (ys : List Reservation)
      → All (Compatible row) ys
      → Exclusive ys
      → Exclusive (upsert same (λ _. row) row ys)
  unfolding upsert
  Exclusive-upsert [] c h = (tt, tt)
  Exclusive-upsert (y ∷ ys) c h = elim (Bool-cases (same y)) [
    | inl e ↦ rw e (c.1, h.1)
    | inr e ↦ rw e (All-upsert y ys h.0 (Compatible-sym row y c.0), Exclusive-upsert ys c.1 h.1)
  ]

module _ (now epoch task executor token fence : ℕ) where
  abbrev row_of : ℕ → Reservation
  row_of k = record {
    task_id = task;
    resource_key = k;
    lease_token = token;
    created_at = now;
    released_at = none;
    executor_id = executor;
    fence = fence;
    lease_expires_at = at (now + lease_time);
    runtime_epoch = epoch;
  }

  -- No live reservation holds the key, or its task is the one that reserves.
  abbrev Free : List Reservation → ℕ → Type 0
  Free rs k = All (Compatible (row_of k)) rs

  unoccupied-Free : (k : ℕ) (rs : List Reservation) → occupied executor k rs ≡ false → Free rs k
  unfolding occupied any
  unoccupied-Free k [] h = tt
  unoccupied-Free k (r ∷ rs) h = (λ a b c d. ground arith, unoccupied-Free k rs (ground arith))

  Free-upsert :
      (k : ℕ) (rs : List Reservation) (ks : List ℕ)
      → All (Free rs) ks
      → All
          (Free
            (upsert (λ r. r.task_id == task && r.resource_key == k) (λ _. row_of k) (row_of k) rs))
          ks
  Free-upsert k rs [] h = tt
  Free-upsert k rs (j ∷ ks) h =
      (All-upsert _ (row_of k) (row_of j) rs h.0 (λ a b c d. refl), Free-upsert k rs ks h.1)

  reserve-Exclusive :
      (ks : List ℕ) (rs : List Reservation)
      → All (Free rs) ks
      → Exclusive rs
      → Exclusive (reserve now epoch task executor token fence ks rs)
  unfolding reserve
  reserve-Exclusive [] rs h x = x
  reserve-Exclusive (k ∷ ks) rs h x =
      reserve-Exclusive ks _ (Free-upsert k rs ks h.1) (Exclusive-upsert _ (row_of k) rs h.0 x)

  keys-Free :
      (db : Realm) (e : Executor) (ks : List ℕ)
      → e.id ≡ executor
      → blocked_key db e ks ≡ none
      → All (Free db.reservations) ks
  unfolding blocked_key
  keys-Free db e [] s h = tt
  keys-Free db e (k ∷ ks) s h =
      (unoccupied-Free k db.reservations (ground arith), keys-Free db e ks s (ground arith))

-- A claim that its required keys do not block takes them, and no key is then held by two tasks.
pub reserved-Exclusive :
    (now epoch task token fence : ℕ) (db : Realm) (e : Executor) (ks : List ℕ)
    → blocked_key db e ks ≡ none
    → Exclusive db.reservations
    → Exclusive (reserve now epoch task e.id token fence ks db.reservations)
reserved-Exclusive now epoch task token fence db e ks h x =
    reserve-Exclusive now epoch task e.id token fence ks db.reservations
      (keys-Free now epoch task e.id token fence db e ks refl h) x
