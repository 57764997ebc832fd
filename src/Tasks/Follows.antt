-- ===== src/Tasks/Follows.antt =====
-- The realm before and after a command other than retry_task: every task keeps its identity, its delegating parent and, once
-- it is completed or cancelled, its status and result; fences never fall; the event log only grows,
-- by events that carry the hash of the event before them; no two tasks come to hold one key; the
-- runtime epoch never falls.
pub mod Writes
pub mod Waiting
pub mod Cancelling
pub mod Reaping
pub mod Claiming
pub mod Settling
pub mod Booting
pub mod Registering
pub mod Running
pub mod Retrying
pub mod Steady
pub mod Reached
use banodoco_workspace_runti.Base.{
  ℕ, ◌≤◌, ◌==◌, ◌≡◌, refl, sym, ◌∙◌, ap, subst, Bool, true, false, Option, none, some, List, ◌∷◌,
  map, Option-cases, first, any, update, first-update, first-holds, if◌then◌else◌, ◌⊎◌, inl, inr,
  arith,
}
use mathlib.Core.Option
use banodoco_workspace_runti.Tasks.Rows.{Task, Status, completed, cancelled, Checkpoint, recovered}
use banodoco_workspace_runti.Tasks.Realm.{Realm, World, Event, task_at, last_hash}
use banodoco_workspace_runti.Tasks.Continuations.{spec_of}
use banodoco_workspace_runti.Tasks.Session.{epoch_of, is_resumable}
use banodoco_workspace_runti.Tasks.Exclusive.{Exclusive}

abbrev pub is_final : Status → Bool
is_final completed = true
is_final cancelled = true
is_final _ = false

pub record TaskStep (t u : Task) : Type 0 where
  pub identity : u.id ≡ t.id
  pub lineage : (spec_of u).delegated_parent ≡ (spec_of t).delegated_parent
  pub fence : t.lease_fence ≤ u.lease_fence
  pub final : is_final t.status ≡ true → (u.status ≡ t.status) × (u.result ≡ t.result)

abbrev pub Step : Option Task → Option Task → Type 0
Step none none = Unit
Step (some t) (some u) = TaskStep t u
Step _ _ = ⊥

-- The log `old` with hash-chained events in front.
pub data Grown (w : World) (old : List Event) : List Event → Type 0 where
  unchanged : Grown w old old
  appended :
      {es : List Event} (e : Event)
      → e.previous_hash ≡ last_hash e.run_id es
      → e.event_hash ≡ w.event_hash e.run_id e.task_id e.kind e.previous_hash e.created_at
      → Grown w old es
      → Grown w old (e ∷ es)

-- Checkpoints change only by the recovery of a boot: a test that it leaves alone keeps its answer.
abbrev pub CheckpointsStep : List Checkpoint → List Checkpoint → Type 0
CheckpointsStep cs ds =
    (p : Checkpoint → Bool) (answer : Bool)
    → ((c : Checkpoint)
        → is_resumable c.state ≡ true
        → p c ≡ answer
        → p (record c { state = recovered }) ≡ answer)
    → any p cs ≡ answer
    → any p ds ≡ answer

pub record Follows (w : World) (a b : Realm) : Type 0 where
  pub tasks : (j : ℕ) → Step (task_at a j) (task_at b j)
  pub ids : map (λ (t : Task). t.id) b.tasks ≡ map (λ (t : Task). t.id) a.tasks
  pub events : Grown w a.events b.events
  pub exclusive : Exclusive a.reservations → Exclusive b.reservations
  pub epoch : epoch_of a.lifecycle ≤ epoch_of b.lifecycle
  pub checkpoints : CheckpointsStep a.checkpoints b.checkpoints

TaskStep-refl : (t : Task) → TaskStep t t
TaskStep-refl t = record {
  identity = refl;
  lineage = refl;
  fence = omega arith;
  final = λ h. (refl, refl);
}

TaskStep-trans : {t u v : Task} → TaskStep t u → TaskStep u v → TaskStep t v
TaskStep-trans {t} {u} {v} p q = record {
  identity = q.identity ∙ p.identity;
  lineage = q.lineage ∙ p.lineage;
  fence = omega (arith, p.fence, q.fence);
  final = λ h.
      let (s, r) = p.final h in
      let (s', r') = q.final (subst (λ x. is_final x ≡ true) (sym s) h) in (s' ∙ s, r' ∙ r);
}

pub Step-refl : (o : Option Task) → Step o o
Step-refl none = tt
Step-refl (some t) = TaskStep-refl t

pub Step-trans : (o p q : Option Task) → Step o p → Step p q → Step o q
Step-trans none none none h k = tt
Step-trans (some t) (some u) (some v) h k = TaskStep-trans h k
Step-trans none (some u) q h k = absurd h
Step-trans (some t) none q h k = absurd h
Step-trans none none (some u) h k = absurd k
Step-trans (some t) (some u) none h k = absurd k

pub Grown-trans : {w : World} {a b c : List Event} → Grown w a b → Grown w b c → Grown w a c
Grown-trans g unchanged = g
Grown-trans g (appended e p q h) = appended e p q (Grown-trans g h)

module _ {w : World} where
  pub Follows-refl : (a : Realm) → Follows w a a
  Follows-refl a = record {
    tasks = λ j. Step-refl (task_at a j);
    ids = refl;
    events = unchanged;
    exclusive = λ x. x;
    epoch = omega arith;
    checkpoints = λ p b keep found. found;
  }

  pub Follows-trans : {a b c : Realm} → Follows w a b → Follows w b c → Follows w a c
  Follows-trans {a} {b} {c} f g = record {
    tasks = λ j. Step-trans (task_at a j) (task_at b j) (task_at c j) (f.tasks j) (g.tasks j);
    ids = g.ids ∙ f.ids;
    events = Grown-trans f.events g.events;
    exclusive = λ x. g.exclusive (f.exclusive x);
    epoch = omega (arith, f.epoch, g.epoch);
    checkpoints = λ p b keep found. g.checkpoints p b keep (f.checkpoints p b keep found);
  }
