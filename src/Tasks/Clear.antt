-- ===== src/Tasks/Clear.antt =====
-- What the tests of _claim_task in runtime_protocol/store.py have established when none of them makes
-- the task wait.
use banodoco_workspace_runti.Base.{
  ℕ, ◌<◌, ◌≡◌, refl, Bool, true, false, not, ◌&&◌, Option, none, some, arith, leb, if◌then◌else◌,
  Result, ok, >>=-eq-ok,
}
use banodoco_workspace_runti.Facts.{execution_facts_match}
use banodoco_workspace_runti.Tasks.Rows.{Task, Executor, Capability, Waiting, insufficient_storage}
use banodoco_workspace_runti.Tasks.Realm.{Realm, World}
use banodoco_workspace_runti.Tasks.Continuations.{spec_of}
use banodoco_workspace_runti.Tasks.Executors.{
  advertises, executor_capability, executor_live, descriptor_ready, facts_of, or_no_facts,
  required_resource_keys, storage_preflight,
}
use banodoco_workspace_runti.Tasks.Claim.{
  active_count, blocked_key, unknown_or_unready, digest_differs, block_after_storage, claim_block,
}

-- The executor `e` and the catalog's entry `c` are fit for the task.
pub record Clear (w : World) (now : ℕ) (db : Realm) (task : Task) (e : Executor)
    (c : Option Capability) : Type 0 where
  pub is_ready : e.is_ready ≡ true
  pub known : unknown_or_unready c task.capability_digest ≡ false
  pub room : storage_preflight w now db task.capability (spec_of task).storage_estimate ≡ ok true
  pub offered : advertises e task.capability ≡ true
  pub alive : executor_live now e ≡ true
  pub digest : digest_differs c task.capability_digest ≡ false
  pub descriptor : descriptor_ready (executor_capability e task.capability) ≡ true
  pub facts :
      execution_facts_match
        (or_no_facts (spec_of task).required_facts)
        (facts_of (executor_capability e task.capability))
      ≡ ok true
  pub capacity : active_count e.id db.tasks < e.max_concurrency
  pub keys : blocked_key db e (required_resource_keys db task.capability) ≡ none

-- A test that fails makes the task wait.
passed :
    (test : Bool) (r : Waiting) (m : Result (Option Waiting))
    → (if test then ok (some r) else m) ≡ ok none
    → (test ≡ false) × (m ≡ ok none)
passed true r m h = cc
passed false r m h = (refl, h)

failed :
    (test : Bool) (r : Waiting) (m : Result (Option Waiting))
    → (if test then m else ok (some r)) ≡ ok none
    → (test ≡ true) × (m ≡ ok none)
failed true r m h = (refl, h)
failed false r m h = cc

last_tests :
    (test full : Bool) (r s : Waiting) (m : Option Waiting)
    → ok (if not test then some r else if full then some s else m) ≡ ok none
    → (test ≡ true) × (full ≡ false) × (m ≡ none)
last_tests true true r s m h = cc
last_tests true false r s m h = (refl, refl, cc)
last_tests false full r s m h = cc

both : (a b : Bool) → not (a && b) ≡ false → (a ≡ true) × (b ≡ true)
both a b h = ground arith

-- A task that nothing makes wait is clear.
pub claim_block-Clear :
    (w : World) (now : ℕ) (db : Realm) (task : Task) (e : Executor) (c : Option Capability)
    → claim_block w now db task (some e) c ≡ ok none
    → Clear w now db task e c
unfolding claim_block block_after_storage
claim_block-Clear w now db task e c h =
    let (is_ready, h) = passed (not e.is_ready) _ _ h in
    let (known, h) = passed (unknown_or_unready c task.capability_digest) _ _ h in
    let (fits, room, h) =
      >>=-eq-ok (storage_preflight w now db task.capability (spec_of task).storage_estimate)
        (λ fits.
          if fits then block_after_storage now db task e c else ok (some insufficient_storage))
        h in
    let (fit, h) = failed fits insufficient_storage (block_after_storage now db task e c) h in
    let described = executor_capability e task.capability in
    let (present, h) = passed (not (advertises e task.capability && executor_live now e)) _ _ h in
    let (digest, h) = passed (digest_differs c task.capability_digest) _ _ h in
    let (descriptor, h) = passed (not (descriptor_ready described)) _ _ h in
    let (matching, facts, h) =
      >>=-eq-ok
        (execution_facts_match (or_no_facts (spec_of task).required_facts) (facts_of described)) _
        h in
    let (matched, below, keys) =
      last_tests matching (leb e.max_concurrency (active_count e.id db.tasks)) _ _ _ h in
    let (offered, alive) = both (advertises e task.capability) (executor_live now e) present in
    record {
      is_ready = ground arith;
      known = known;
      room = cc;
      offered = offered;
      alive = alive;
      digest = digest;
      descriptor = ground arith;
      facts = cc;
      capacity = ground (arith, below);
      keys = keys;
    }
