-- ===== src/Service/Recovery/Found.antt =====
-- The checkpoint that _checkpoint_row of runtime_protocol/service.py finds, among rows whose nonces
-- differ.
use banodoco_workspace_runti.Base.{
  ℕ, ◌≤◌, ◌==◌, ◌≡◌, refl, ◌∙◌, subst, Bool, true, false, Option, none, some, List, [], ◌∷◌, ◌⊎◌,
  inl, inr, Bool-cases, Option-cases, first, any, count, update, arith, if◌then◌else◌, ltb, ok,
  require, or_raise, >>=-eq-ok, or_raise-eq-ok, not_found, lease, conflict,
}
use banodoco_workspace_runti.Tasks.Rows.{Checkpoint}
use banodoco_workspace_runti.Tasks.Realm.{Realm}
use banodoco_workspace_runti.Service.Recovery.{
  latest, find_checkpoint, checkpoint_row, agrees, bound_to, attempt_at,
}

abbrev pub Has : Checkpoint → List Checkpoint → Type 0
Has a [] = ⊥
Has a (x ∷ xs) = (x ≡ a) ⊎ Has a xs

module _ (p : Checkpoint → Bool) (a : Checkpoint) where
  pub first-Has : (xs : List Checkpoint) → first p xs ≡ some a → Has a xs
  unfolding first
  first-Has [] h = absurd (ground (arith, h))
  first-Has (x ∷ xs) h = elim (Bool-cases (p x)) [
    | inl e ↦ inl (ground (arith, h))
    | inr e ↦ inr (first-Has xs (ground (arith, h)))
  ]

  pub Has-any : (xs : List Checkpoint) → Has a xs → p a ≡ true → any p xs ≡ true
  unfolding any
  Has-any [] h k = absurd h
  Has-any (x ∷ xs) (inl e) k = rw (e, k) refl
  Has-any (x ∷ xs) (inr h) k = ground (arith, Has-any xs h k)

  pub Has-count : (xs : List Checkpoint) → Has a xs → p a ≡ true → 1 ≤ count p xs
  unfolding count
  Has-count [] h k = absurd h
  Has-count (x ∷ xs) (inl e) k = rw (e, k) (omega arith)
  Has-count (x ∷ xs) (inr h) k = ground (arith, Has-count xs h k)

module _ (p : Checkpoint → Bool) where
  pub count-none : (xs : List Checkpoint) → count p xs ≤ 0 → any p xs ≡ false
  unfolding count any
  count-none [] h = refl
  count-none (x ∷ xs) h = ground (arith, count-none xs)

  pub count-any : (xs : List Checkpoint) → 1 ≤ count p xs → any p xs ≡ true
  unfolding count any
  count-any [] h = absurd (omega (arith, h))
  count-any (x ∷ xs) h = ground (arith, count-any xs)

  pub any_off :
      (q : Checkpoint → Bool) (xs : List Checkpoint)
      → ((x : Checkpoint) → p x ≡ false → q x ≡ false)
      → any p xs ≡ false
      → any q xs ≡ false
  unfolding any
  any_off q [] off h = refl
  any_off q (x ∷ xs) off h = ground (arith, off x, any_off q xs off)

  -- Where one row at most meets `p`, a test that implies `p` fails on all rows if it fails on that row.
  pub sole-any :
      (q : Checkpoint → Bool) (a : Checkpoint) (xs : List Checkpoint)
      → ((x : Checkpoint) → p x ≡ false → q x ≡ false)
      → count p xs ≤ 1
      → Has a xs
      → p a ≡ true
      → q a ≡ false
      → any q xs ≡ false
  unfolding count any
  sole-any q a [] off one h k l = absurd h
  sole-any q a (x ∷ xs) off one (inl e) k l =
      let here : p x ≡ true = (rw e k) in
      let others = any_off q xs off (count-none xs (ground (arith, one, here))) in rw (e, l) others
  sole-any q a (x ∷ xs) off one (inr h) k l =
      let more = Has-count p a xs h k in
      let here : p x ≡ false = (ground (arith, one, more)) in
      rw (off x here) (sole-any q a xs off (ground (arith, one, here)) h k l)

-- A test on updated rows, as a test on the rows before.
pub any-updated :
    (p q : Checkpoint → Bool) (f : Checkpoint → Checkpoint) (xs : List Checkpoint)
    → any (λ x. p (if q x then f x else x)) xs ≡ false
    → any p (update q f xs) ≡ false
unfolding any update
any-updated p q f [] h = refl
any-updated p q f (x ∷ xs) h = ground (arith, any-updated p q f xs)

pub latest-Has :
    (p : Checkpoint → Bool) (a : Checkpoint) (cs : List Checkpoint)
    → latest p cs ≡ some a
    → Has a cs
unfolding latest
latest-Has p a [] h = absurd (ground (arith, h))
latest-Has p a (c ∷ cs) h = elim (Bool-cases (p c)) [
  | inr e ↦ inr (latest-Has p a cs (rw e at h))
  | inl e ↦ elim (Option-cases (latest p cs)) [
    | inl n ↦ inl (ground (arith, (rw (e, n) at h)))
    | inr (d, n) ↦ elim (Bool-cases (ltb c.created_at d.created_at)) [
      | inl l ↦ inr (latest-Has p a cs (n ∙ (rw (e, n, l) at h)))
      | inr l ↦ inl (ground (arith, (rw (e, n, l) at h)))
    ]
  ]
]

find_checkpoint-Has :
    (id attempt : Option ℕ) (db : Realm) (row : Checkpoint)
    → find_checkpoint id attempt db ≡ ok row
    → Has row db.checkpoints
unfolding find_checkpoint
find_checkpoint-Has (some i) attempt db row h =
    let q = λ (c : Checkpoint). c.id == i in
    let (c, found, h) = or_raise-eq-ok (first q db.checkpoints) not_found _ h in
    let (_, _, h) = >>=-eq-ok (require (bound_to attempt c.attempt_id) lease) _ h in
    let same : c ≡ row = cc in
    subst (λ x. Has x db.checkpoints) same (first-Has q c db.checkpoints found)
find_checkpoint-Has none none db row h = absurd (ground (arith, h))
find_checkpoint-Has none (some a) db row h =
    let q = λ (c : Checkpoint). c.attempt_id == a in
    latest-Has q row db.checkpoints (or_raise-some (latest q db.checkpoints) h)
  where
    or_raise-some : (o : Option Checkpoint) → or_raise o not_found ≡ ok row → o ≡ some row
    or_raise-some none e = cc
    or_raise-some (some x) e = cc

pub checkpoint_row-Has :
    (id attempt : Option ℕ) (db : Realm) (row : Checkpoint)
    → checkpoint_row id attempt db ≡ ok row
    → Has row db.checkpoints
unfolding checkpoint_row
checkpoint_row-Has id attempt db row h =
    let (c, found, h) = >>=-eq-ok (find_checkpoint id attempt db) _ h in
    let (_, _, h) = >>=-eq-ok (require (agrees c (attempt_at db c.attempt_id)) conflict) _ h in
    let same : c ≡ row = cc in
    subst (λ x. Has x db.checkpoints) same (find_checkpoint-Has id attempt db c found)
