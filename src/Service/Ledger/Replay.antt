-- ===== src/Service/Ledger/Replay.antt =====
-- The command ledger of runtime_protocol/service.py over any sequence of recorded commands.
use banodoco_workspace_runti.Base.{
  ℕ, ◌+◌, ◌≡◌, refl, subst, true, false, not, ◌&&◌, ◌||◌, Option, none, some, List, inl, inr,
  Bool-cases, eq_self, first, ltb, leb, arith, if◌then◌else◌, ok, ◌>>=◌, >>=-eq-ok,
}
use banodoco_workspace_runti.Service.Compact.{
  Kind, Value, response, plain, Packed, whole, compact_result, unpack,
}
use banodoco_workspace_runti.Service.Compact.Roundtrip.{
  Held, HeldTask, Lossless, HeldRun, unpack-compact_result,
}
use banodoco_workspace_runti.Service.Ledger.{
  Entry, Book, Outside, is_expired, expire, of_session, is_transfer, is_publish, window, table,
  has_key, entry, insert, prune, prune_session, record_command_receipt, next_seq,
  command_replay_state, command_record,
}
use banodoco_workspace_runti.Service.Ledger.Rows.{mine, insert-row, first-update_some}

-- The spec of every place that a response leaves out is still in its row, and compression loses
-- nothing.
abbrev pub Intact : Outside → Value → Type 0
Intact o (plain v) = Unit
Intact o (response r) =
    Lossless o.zip o.unzip r.capabilities
    × Held o.task_body r.task_id r.spec
    × HeldTask o.task_body r.task
    × HeldRun o.run_body r.run

abbrev pub packed : Outside → Kind → Value → Packed
packed o kind v = if of_session kind then whole v else compact_result o.zip kind v

unpack-packed :
    (o : Outside) (kind : Kind) (v : Value)
    → Intact o v
    → unpack o.unzip o.task_body o.run_body (packed o kind v) ≡ ok v
unfolding unpack compact_result
unpack-packed o kind v h = elim (Bool-cases (of_session kind)) [
  | inl s ↦ rw s refl
  | inr s ↦ rw s (compacted v h)
]
  where
    compacted :
        (v : Value)
        → Intact o v
        → unpack o.unzip o.task_body o.run_body (compact_result o.zip kind v) ≡ ok v
    compacted (plain v) h = refl
    compacted (response r) (same, spec, task, run) =
        unpack-compact_result o.unzip o.task_body o.run_body o.zip kind r same spec task run

module _ (o : Outside) where
  -- The table of the kind has the row that a command recorded.
  abbrev Recorded : ℕ → Kind → ℕ → ℕ → ℕ → Value → Book → Type 0
  Recorded now kind aggregate key hash v c =
      (e : Entry) × (first (mine kind aggregate key hash) (table kind c) ≡ some e)
      × (e.kind ≡ kind)
      × (e.request_hash ≡ hash)
      × (e.created_at ≡ now)
      × (e.stored ≡ packed o kind v)

  module _ (now : ℕ) (kind : Kind) (aggregate key hash : ℕ) (v : Value) where
    session_row-Recorded :
        (b c : Book)
        → of_session kind ≡ true
        → ((insert (entry now kind aggregate key hash (whole v)) b.session) >>= λ session.
            ok (record b { session = prune_session o now session }))
          ≡ ok c
        → Recorded now kind aggregate key hash v c
    unfolding prune_session
    session_row-Recorded b c s h =
        let e = entry now kind aggregate key hash (whole v) in
        let (es, inserted, h) = >>=-eq-ok (insert e b.session) _ h in
        let (_, found) = insert-row e b.session es inserted in
        let same : record b { session = prune_session o now es } ≡ c = cc in
        let fresh : (not (is_expired e.stored) && ltb (e.created_at + 3600000) now) ≡ false =
          (ground arith) in
        (
          e,
          subst (λ (x : Book). first (has_key kind aggregate key) (table kind x) ≡ some e) same
              (rw s (
                first-update_some (has_key kind aggregate key)
                  (λ (x : Entry). not (is_expired x.stored) && ltb (x.created_at + 3600000) now)
                  (expire o) (λ x. refl) 100 es e found fresh)),
          refl,
          refl,
          refl,
          rw s refl,
        )

    commands_row-Recorded :
        (seq : Option ℕ) (es fs : List Entry) (b c : Book)
        → of_session kind ≡ false
        → insert
            (record (entry now kind aggregate key hash (compact_result o.zip kind v)) {
              project_seq = seq;
            })
            es
          ≡ ok fs
        → fs ≡ c.commands
        → Recorded now kind aggregate key hash v c
    commands_row-Recorded seq es fs b c s inserted same =
        let e = record (entry now kind aggregate key hash (compact_result o.zip kind v)) {
          project_seq = seq;
        } in
        let (_, found) = insert-row e es fs inserted in
        (
          e,
          rw s (
              subst (λ (x : List Entry). first (has_key kind aggregate key) x ≡ some e) same found),
          refl,
          refl,
          refl,
          rw s refl,
        )

    receipt_row-Recorded :
        (p : ℕ) (b c : Book)
        → of_session kind ≡ false
        → record_command_receipt o now p
            (entry now kind aggregate key hash (compact_result o.zip kind v))
            b
          ≡ ok c
        → Recorded now kind aggregate key hash v c
    unfolding record_command_receipt
    receipt_row-Recorded p b c s h =
        let e = record (entry now kind aggregate key hash (compact_result o.zip kind v)) {
          project_seq = some (next_seq p (prune o now b).next_seqs);
        } in
        let (es, inserted, h) = >>=-eq-ok (insert e (prune o now b).commands) _ h in
        commands_row-Recorded e.project_seq (prune o now b).commands es b c s inserted (cc)

    global_row-Recorded :
        (b c : Book)
        → of_session kind ≡ false
        → ((insert (entry now kind aggregate key hash (compact_result o.zip kind v)) b.commands)
            >>= λ commands. ok (record b { commands = commands }))
          ≡ ok c
        → Recorded now kind aggregate key hash v c
    global_row-Recorded b c s h =
        let e = entry now kind aggregate key hash (compact_result o.zip kind v) in
        let (es, inserted, h) = >>=-eq-ok (insert e b.commands) _ h in
        commands_row-Recorded none b.commands es b c s inserted (cc)

    -- A command that was recorded has its row.
    pub command_record-Recorded :
        (project : Option ℕ) (b c : Book)
        → command_record o now kind aggregate (some key) hash v project b ≡ ok c
        → Recorded now kind aggregate key hash v c
    unfolding command_record
    command_record-Recorded none b c h = elim (Bool-cases (of_session kind)) [
      | inl s ↦ session_row-Recorded b c s (rw s at h)
      | inr s ↦ global_row-Recorded b c s (rw s at h)
    ]
    command_record-Recorded (some p) b c h = elim (Bool-cases (of_session kind)) [
      | inl s ↦ session_row-Recorded b c s (rw s at h)
      | inr s ↦ receipt_row-Recorded p b c s (rw s at h)
    ]

    -- A command that was recorded, repeated with the same input within the time for which its kind
    -- keeps results, gets the result that was recorded, if the specs that the stored form leaves out
    -- are still in their rows, the compression of its catalog loses nothing, and it is no publication.
    pub command_replay_state-command_record :
        (project : Option ℕ) (b c : Book) (later : ℕ)
        → command_record o now kind aggregate (some key) hash v project b ≡ ok c
        → (is_transfer kind || leb later (now + window kind)) ≡ true
        → is_publish kind ≡ false
        → Intact o v
        → command_replay_state o later kind aggregate (some key) hash c ≡ ok (some v)
    unfolding command_replay_state
    command_replay_state-command_record project b c later h in_time unpublished intact =
        let (e, found, i, j, k, l) = command_record-Recorded project b c h in
        rw (command_replay_state, found)
          (rw (j, eq_self hash, i, unpublished)
            (rw (k, l, in_time, unpack-packed o kind v intact) refl))
