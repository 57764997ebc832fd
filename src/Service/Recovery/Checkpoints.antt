-- ===== src/Service/Recovery/Checkpoints.antt =====
-- How a step of the recovery handshake of runtime_protocol/service.py changes the table of checkpoints,
-- and tests on it that stay answered.
use banodoco_workspace_runti.Base.{
  ℕ, ◌==◌, ◌≡◌, refl, Bool, true, false, ◌&&◌, ◌||◌, Option, List, [], ◌∷◌, ◌++◌, any, update,
  any-update, arith,
}
use banodoco_workspace_runti.Tasks.Rows.{Checkpoint, CheckpointState, Receipt, recovered}
use banodoco_workspace_runti.Tasks.Session.{is_resumable}
use banodoco_workspace_runti.Tasks.Follows.{CheckpointsStep}
use banodoco_workspace_runti.Service.Recovery.{is_durable}
use banodoco_workspace_runti.Service.Recovery.Resume.{is_resumed}

-- The columns that a step writes.
abbrev pub moved_to : CheckpointState → (Checkpoint → Option Receipt) → Checkpoint → Checkpoint
moved_to s receipt c = record c { state = s; receipt = receipt c }

pub data Change (cs : List Checkpoint) : List Checkpoint → Type 0 where
  stays : Change cs cs
  inserted :
      (c : Checkpoint)
      → any (λ d. d.nonce == c.nonce || d.id == c.id) cs ≡ false
      → Change cs (cs ++ c ∷ [])
  moved :
      {ds : List Checkpoint} (id : ℕ) (q : CheckpointState → Bool) (s : CheckpointState)
      (receipt : Checkpoint → Option Receipt)
      → ((t : CheckpointState) → q t ≡ true → is_resumed t ≡ false)
      → is_durable s ≡ false
      → Change cs ds
      → Change cs (update (λ c. c.id == id && q c.state) (moved_to s receipt) ds)
  stepped : {ds es : List Checkpoint} → CheckpointsStep ds es → Change cs ds → Change cs es

abbrev pub has_nonce : ℕ → Checkpoint → Bool
has_nonce n c = c.nonce == n

-- A test that only rows with the nonce can meet, and that no step makes true.
pub record Watched (n : ℕ) (p : Checkpoint → Bool) : Type 0 where
  pub off : (c : Checkpoint) → has_nonce n c ≡ false → p c ≡ false
  pub keep :
      (c : Checkpoint) (s : CheckpointState) (receipt : Option Receipt)
      → is_resumed c.state ≡ false
      → is_durable s ≡ false
      → p c ≡ false
      → p (record c { state = s; receipt = receipt }) ≡ false

resumable_unresumed : (s : CheckpointState) → is_resumable s ≡ true → is_resumed s ≡ false
resumable_unresumed CheckpointState.durable h = refl
resumable_unresumed CheckpointState.reboot_requested h = refl
resumable_unresumed CheckpointState.executed h = refl
resumable_unresumed CheckpointState.executor_failed h = refl
resumable_unresumed CheckpointState.recovered h = refl
resumable_unresumed CheckpointState.resumed h = absurd (ground (arith, h))

module _ {ℓ} {A : Type ℓ} (p : A → Bool) where
  any-append :
      (answer : Bool) (xs : List A) (a : A)
      → any p xs ≡ answer
      → (answer ≡ false → p a ≡ false)
      → any p (xs ++ a ∷ []) ≡ answer
  unfolding any
  any-append true [] a h k = absurd (ground (arith, h))
  any-append false [] a h k = ground (arith, k refl)
  any-append true (x ∷ xs) a h k = ground (arith, any-append true xs a)
  any-append false (x ∷ xs) a h k = ground (arith, k refl, any-append false xs a)

-- A row that is there has a nonce that no new row may have.
fresh_nonce :
    (n m i : ℕ) (cs : List Checkpoint)
    → any (has_nonce n) cs ≡ true
    → any (λ d. d.nonce == m || d.id == i) cs ≡ false
    → (m == n) ≡ false
unfolding any
fresh_nonce n m i [] h k = absurd (ground (arith, h))
fresh_nonce n m i (c ∷ cs) h k = ground (arith, fresh_nonce n m i cs)

pub Known-Change :
    (n : ℕ) (cs ds : List Checkpoint)
    → Change cs ds
    → any (has_nonce n) cs ≡ true
    → any (has_nonce n) ds ≡ true
Known-Change n cs ds stays h = h
Known-Change n cs ds (inserted c new) h =
    any-append (has_nonce n) true cs c h (λ e. absurd (ground (arith, e)))
Known-Change n cs ds (moved {ds = before} id q s receipt from to change) h =
    any-update (has_nonce n) (λ (c : Checkpoint). c.id == id && q c.state) (moved_to s receipt) true
      before (λ c _ k. k) (Known-Change n cs before change h)
Known-Change n cs ds (stepped {ds = before} step change) h =
    step (has_nonce n) true (λ c _ k. k) (Known-Change n cs before change h)

pub Watched-Change :
    (n : ℕ) (p : Checkpoint → Bool) (cs ds : List Checkpoint)
    → Watched n p
    → Change cs ds
    → any (has_nonce n) cs ≡ true
    → any p cs ≡ false
    → any p ds ≡ false
Watched-Change n p cs ds w stays known h = h
Watched-Change n p cs ds w (inserted c new) known h =
    any-append p false cs c h (λ _. w.off c (fresh_nonce n c.nonce c.id cs known new))
Watched-Change n p cs ds w (moved {ds = before} id q s receipt from to change) known h =
    any-update p (λ (c : Checkpoint). c.id == id && q c.state) (moved_to s receipt) false before
      (λ c hit k. w.keep c s (receipt c) (from c.state (ground (arith, hit))) to k)
      (Watched-Change n p cs before w change known h)
Watched-Change n p cs ds w (stepped {ds = before} step change) known h =
    step p false (λ c hit k. w.keep c recovered c.receipt (resumable_unresumed c.state hit) refl k)
      (Watched-Change n p cs before w change known h)
