-- ===== src/Service/Ledger/Progress.antt =====
-- A command that the ledger of runtime_protocol/service.py does not know can be recorded.
use banodoco_workspace_runti.Base.{
  ℕ, ◌==◌, ◌≡◌, refl, Bool, true, false, Option, none, some, List, [], ◌∷◌, ◌++◌, inl, inr,
  Bool-cases, Option-cases, first, any, arith, leb, ◌+◌, ok, require, >>=-eq-ok, conflict, zero,
  suc,
}
use banodoco_workspace_runti.Service.Compact.{Kind, Value, whole, compact_result}
use banodoco_workspace_runti.Service.Ledger.{
  Entry, Book, Outside, expire, is_due, of_session, table, has_key, entry, insert, update_some,
  prune, prune_session, record_command_receipt, allocate_project_seq, next_seq, replayed,
  command_replay_state, command_record,
}

module _ {ℓ} {A : Type ℓ} (p : A → Bool) where
  unseen_rows : (xs : List A) → first p xs ≡ none → any p xs ≡ false
  unfolding first any
  unseen_rows [] h = refl
  unseen_rows (x ∷ xs) h = ground (arith, unseen_rows xs)

  any-update_some :
      (q : A → Bool) (f : A → A)
      → ((x : A) → p (f x) ≡ p x)
      → (n : ℕ) (xs : List A) → any p xs ≡ false
      → any p (update_some n q f xs) ≡ false
  unfolding any update_some
  any-update_some q f keep n [] h = h
  any-update_some q f keep zero (x ∷ xs) h = h
  any-update_some q f keep (suc n) (x ∷ xs) h =
      ground (arith, keep x, any-update_some q f keep n xs, any-update_some q f keep (suc n) xs)

insert-new :
    (e : Entry) (es : List Entry)
    → any (has_key e.kind e.aggregate_id e.key) es ≡ false
    → insert e es ≡ ok (es ++ e ∷ [])
unfolding insert
insert-new e es h = rw h refl

module _ (o : Outside) (kind : Kind) (aggregate key hash : ℕ) where
  -- No row has the key.
  abbrev Unseen : List Entry → Type 0
  Unseen es = any (has_key kind aggregate key) es ≡ false

  command_replay_state-Unseen :
      (now : ℕ) (b : Book)
      → command_replay_state o now kind aggregate (some key) hash b ≡ ok none
      → Unseen (table kind b)
  unfolding command_replay_state
  command_replay_state-Unseen now b h =
      elim (Option-cases (first (has_key kind aggregate key) (table kind b))) [
        | inl e ↦ unseen_rows (has_key kind aggregate key) (table kind b) e
        | inr (e, found) ↦
            let (_, _, k) =
              >>=-eq-ok (require (e.request_hash == hash) conflict) _
                (rw (command_replay_state, found) at h) in
            let (x, _, k) = >>=-eq-ok (replayed o now e) _ k in absurd (ground (arith, k))
      ]

  prune-Unseen : (now : ℕ) (b : Book) → Unseen b.commands → Unseen (prune o now b).commands
  unfolding prune
  prune-Unseen now b h = elim (Bool-cases (leb (b.last_prune + 900000) now)) [
    | inl d ↦ rw d (
        any-update_some (has_key kind aggregate key) (is_due o now) (expire o) (λ x. refl) 100
          b.commands h)
    | inr d ↦ rw d h
  ]

  session_new :
      (later : ℕ) (v : Value) (project : Option ℕ) (b : Book)
      → of_session kind ≡ true
      → Unseen b.session
      → (c : Book) × (command_record o later kind aggregate (some key) hash v project b ≡ ok c)
  unfolding command_record
  session_new later v project b s h =
      let e = entry later kind aggregate key hash (whole v) in
      (
        record b { session = prune_session o later (b.session ++ e ∷ []) },
        rw (s, insert-new e b.session h) refl,
      )

  -- Where a command is told to run, its result can be recorded under the key, for any project or none
  -- and at any time: the primary key of the ledger does not refuse it.
  pub command_record-new :
      (now later : ℕ) (v : Value) (project : Option ℕ) (b : Book)
      → command_replay_state o now kind aggregate (some key) hash b ≡ ok none
      → (c : Book) × (command_record o later kind aggregate (some key) hash v project b ≡ ok c)
  unfolding command_record record_command_receipt
  command_record-new now later v none b h = elim (Bool-cases (of_session kind)) [
    | inl s ↦ session_new later v none b s (rw s at (command_replay_state-Unseen now b h))
    | inr s ↦
        let e = entry later kind aggregate key hash (compact_result o.zip kind v) in
        (
          record b { commands = b.commands ++ e ∷ [] },
          rw (s, insert-new e b.commands (rw s at (command_replay_state-Unseen now b h))) refl,
        )
  ]
  command_record-new now later v (some p) b h = elim (Bool-cases (of_session kind)) [
    | inl s ↦ session_new later v (some p) b s (rw s at (command_replay_state-Unseen now b h))
    | inr s ↦
        let e = record (entry later kind aggregate key hash (compact_result o.zip kind v)) {
          project_seq = some (next_seq p (prune o later b).next_seqs);
        } in
        (
          record (prune o later b) {
            commands = (prune o later b).commands ++ e ∷ [];
            next_seqs = allocate_project_seq p (prune o later b).next_seqs;
          },
          rw
              (
                s,
                insert-new e (prune o later b).commands
                    (prune-Unseen later b (rw s at (command_replay_state-Unseen now b h))),
              )
              refl,
        )
  ]
