-- ===== src/Service/Ledger/History.antt =====
-- The command ledger of runtime_protocol/service.py over any sequence of commands and restarts. The
-- table of session results is temporary, and the time of the last sweep is the process's: a restart
-- clears both.
use banodoco_workspace_runti.Base.{
  ℕ, ◌==◌, ◌≡◌, ◌≢◌, refl, sym, ◌∙◌, Bool, true, not, select, first-update, first-holds, leb, ◌+◌,
  subst, false, Option, none, some, List, ◌∷◌, [], inl, inr, Bool-cases, first, arith, ok, err,
  ◌>>=◌, ◌>>◌, require, >>=-eq-ok, conflict, integrity,
}
use banodoco_workspace_runti.Service.Compact.{
  Kind, Value, Packed, task_create, whole, compact_result,
}
use banodoco_workspace_runti.Service.Ledger.{
  Entry, Book, Outside, code, has_key, is_creation, refresh_receipt, forget_receipt, is_due,
  of_session, entry, insert, prune, prune_session, record_command_receipt, next_seq, replayed,
  command_replay_state, command_record,
}
use banodoco_workspace_runti.Service.Ledger.Rows.{
  KnownIn, mine, KnownIn-append, KnownIn-sweep, insert-row, any-first,
}
use banodoco_workspace_runti.Service.Ledger.Replay.{command_record-Recorded}

first-select :
    (p q : Entry → Bool) (es : List Entry)
    → ((e : Entry) → p e ≡ true → q e ≡ true)
    → first p (select q es) ≡ first p es
unfolding first select
first-select p q [] keep = refl
first-select p q (e ∷ es) keep = ground (arith, keep e, first-select p q es keep)

-- A row of another kind is no row of task.create.
other_kind :
    (kind : Kind) (aggregate key a i : ℕ) (e : Entry)
    → (code kind == code task_create) ≡ false
    → has_key kind aggregate key e ≡ true
    → is_creation a i e ≡ false
other_kind kind aggregate key a i e other h = ground (arith, other, h)

module _ (o : Outside) where
  pub data Later (b : Book) : Book → Type 0 where
    now_itself : Later b b
    recorded :
        (now : ℕ) (kind : Kind) (aggregate : ℕ) (key : Option ℕ) (hash : ℕ) (v : Value)
        (project : Option ℕ) {c d : Book}
        → Later b c
        → command_record o now kind aggregate key hash v project c ≡ ok d
        → Later b d
    refreshed :
        (aggregate key hash : ℕ) (stored : Packed) {c : Book}
        → Later b c
        → Later b (refresh_receipt aggregate key hash stored c)
    forgotten :
        (aggregate key : ℕ) {c : Book} → Later b c → Later b (forget_receipt aggregate key c)
    restarted : {c : Book} → Later b c → Later b (record c { session = []; last_prune = 0 })

  module _ (kind : Kind) (aggregate key hash : ℕ) where
    KnownIn-prune :
        (now : ℕ) (b : Book)
        → KnownIn kind aggregate key hash b.commands
        → KnownIn kind aggregate key hash (prune o now b).commands
    unfolding prune
    KnownIn-prune now b h = elim (Bool-cases (leb (b.last_prune + 900000) now)) [
      | inl d ↦ rw d (KnownIn-sweep kind aggregate key hash o 100 (is_due o now) b.commands h)
      | inr d ↦ rw d h
    ]

    -- An insert keeps every row that is there.
    KnownIn-insert :
        (e : Entry) (es fs gs : List Entry)
        → insert e es ≡ ok fs
        → fs ≡ gs
        → KnownIn kind aggregate key hash es
        → KnownIn kind aggregate key hash gs
    KnownIn-insert e es fs gs h g k =
        let (f, _) = insert-row e es fs h in
        subst (KnownIn kind aggregate key hash) (sym f ∙ g)
          (KnownIn-append kind aggregate key hash es (e ∷ []) k)

    KnownIn-session :
        (now : ℕ) (k : Kind) (a i g : ℕ) (v : Value) (b c : Book)
        → ((insert (entry now k a i g (whole v)) b.session) >>= λ session.
            ok (record b { session = prune_session o now session }))
          ≡ ok c
        → KnownIn kind aggregate key hash b.commands
        → KnownIn kind aggregate key hash c.commands
    KnownIn-session now k a i g v b c h n =
        let e = entry now k a i g (whole v) in
        let (es, inserted, h) = >>=-eq-ok (insert e b.session) _ h in
        let kept : record b { session = prune_session o now es } ≡ c = cc in
        subst (λ (x : Book). KnownIn kind aggregate key hash x.commands) kept n

    KnownIn-receipt :
        (now p : ℕ) (e : Entry) (b c : Book)
        → record_command_receipt o now p e b ≡ ok c
        → KnownIn kind aggregate key hash b.commands
        → KnownIn kind aggregate key hash c.commands
    unfolding record_command_receipt
    KnownIn-receipt now p e b c h n =
        let f = record e { project_seq = some (next_seq p (prune o now b).next_seqs) } in
        let (es, inserted, h) = >>=-eq-ok (insert f (prune o now b).commands) _ h in
        KnownIn-insert f (prune o now b).commands es c.commands inserted (cc)
          (KnownIn-prune now b n)

    KnownIn-command_record :
        (now : ℕ) (k : Kind) (a : ℕ) (i : Option ℕ) (g : ℕ) (v : Value) (project : Option ℕ)
        (b c : Book)
        → command_record o now k a i g v project b ≡ ok c
        → KnownIn kind aggregate key hash b.commands
        → KnownIn kind aggregate key hash c.commands
    unfolding command_record
    KnownIn-command_record now k a none g v project b c h n =
        let same : b ≡ c = cc in
        subst (λ (x : Book). KnownIn kind aggregate key hash x.commands) same n
    KnownIn-command_record now k a (some i) g v none b c h n = elim (Bool-cases (of_session k)) [
      | inl s ↦ KnownIn-session now k a i g v b c (rw s at h) n
      | inr s ↦
          let e = entry now k a i g (compact_result o.zip k v) in
          let (es, inserted, h) = >>=-eq-ok (insert e b.commands) _ (rw s at h) in
          KnownIn-insert e b.commands es c.commands inserted (cc) n
    ]
    KnownIn-command_record now k a (some i) g v (some p) b c h n =
        elim (Bool-cases (of_session k)) [
          | inl s ↦ KnownIn-session now k a i g v b c (rw s at h) n
          | inr s ↦
              KnownIn-receipt now p (entry now k a i g (compact_result o.zip k v)) b c (rw s at h) n
        ]

    KnownIn-refresh_receipt :
        (a i g : ℕ) (stored : Packed) (b : Book)
        → (code kind == code task_create) ≡ false
        → KnownIn kind aggregate key hash b.commands
        → KnownIn kind aggregate key hash (refresh_receipt a i g stored b).commands
    unfolding refresh_receipt
    KnownIn-refresh_receipt a i g stored b other (e, found, same) =
        let mine_e = first-holds (mine kind aggregate key hash) b.commands e found in
        let kept = other_kind kind aggregate key a i e other mine_e in
        (
          e,
          first-update (mine kind aggregate key hash) (is_creation a i)
                (λ (e : Entry). record e { request_hash = g; stored = stored }) b.commands
                (λ e. refl)
              ∙ rw found (rw kept refl),
          same,
        )

    KnownIn-forget_receipt :
        (a i : ℕ) (b : Book)
        → (code kind == code task_create) ≡ false
        → KnownIn kind aggregate key hash b.commands
        → KnownIn kind aggregate key hash (forget_receipt a i b).commands
    unfolding forget_receipt
    KnownIn-forget_receipt a i b other (e, found, same) = (
      e,
      first-select (mine kind aggregate key hash) (λ e. not (is_creation a i e)) b.commands
            (λ x h. rw (other_kind kind aggregate key a i x other h) refl)
          ∙ found,
      same,
    )

    KnownIn-Later :
        (b c : Book)
        → Later b c
        → (code kind == code task_create) ≡ false
        → KnownIn kind aggregate key hash b.commands
        → KnownIn kind aggregate key hash c.commands
    KnownIn-Later b _ now_itself other n = n
    KnownIn-Later b c (recorded now k a i g v project before h) other n =
        KnownIn-command_record now k a i g v project _ c h (KnownIn-Later b _ before other n)
    KnownIn-Later b _ (refreshed a i g stored {c} before) other n =
        KnownIn-refresh_receipt a i g stored c other (KnownIn-Later b c before other n)
    KnownIn-Later b _ (forgotten a i {c} before) other n =
        KnownIn-forget_receipt a i c other (KnownIn-Later b c before other n)
    KnownIn-Later b _ (restarted before) other n = KnownIn-Later b _ before other n

    insert-Known :
        (e : Entry) (es : List Entry)
        → e.kind ≡ kind
        → e.aggregate_id ≡ aggregate
        → e.key ≡ key
        → KnownIn kind aggregate key hash es
        → insert e es ≡ err integrity
    unfolding insert
    insert-Known e es i j k (f, found, _) =
        rw (i, j, k, any-first (mine kind aggregate key hash) es f found) refl

    -- The row of the key decides what a repeated command gets.
    replay-found :
        (d : Book) (e : Entry)
        → first (mine kind aggregate key hash) d.commands ≡ some e
        → of_session kind ≡ false
        → (at g : ℕ)
        → command_replay_state o at kind aggregate (some key) g d ≡ (
            require (e.request_hash == g) conflict
            >> ((replayed o at e) >>= λ value. ok (some value)))
    unfolding command_replay_state
    replay-found d e found durable at g = rw (command_replay_state, durable, found) refl

    replay-Known :
        (d : Book)
        → KnownIn kind aggregate key hash d.commands
        → of_session kind ≡ false
        → (at : ℕ) → command_replay_state o at kind aggregate (some key) hash d ≢ ok none
    replay-Known d (e, found, i) durable at h =
        let k = sym (replay-found d e found durable at hash) ∙ h in
        let (_, _, k) = >>=-eq-ok (require (e.request_hash == hash) conflict) _ k in
        let (x, _, k) = >>=-eq-ok (replayed o at e) _ k in ground (arith, k)

    other_input :
        (d : Book)
        → KnownIn kind aggregate key hash d.commands
        → of_session kind ≡ false
        → (at hash' : ℕ) → (hash == hash') ≡ false
        → command_replay_state o at kind aggregate (some key) hash' d ≡ err conflict
    other_input d (e, found, i) durable at hash' different =
        replay-found d e found durable at hash' ∙ rw (i, different) refl

    record_again :
        (d : Book)
        → KnownIn kind aggregate key hash d.commands
        → of_session kind ≡ false
        → (at hash' : ℕ) (v : Value) (project : Option ℕ)
        → command_record o at kind aggregate (some key) hash' v project d ≡ err integrity
    unfolding command_record record_command_receipt
    record_again d n durable at hash' v none =
        rw
          (
            durable,
            insert-Known (entry at kind aggregate key hash' (compact_result o.zip kind v))
                d.commands refl refl refl n,
          )
          refl
    record_again d n durable at hash' v (some p) =
        rw
          (
            durable,
            insert-Known
                (record (entry at kind aggregate key hash' (compact_result o.zip kind v)) {
                  project_seq = some (next_seq p (prune o at d).next_seqs);
                })
                (prune o at d).commands refl refl refl (KnownIn-prune at d n),
          )
          refl

    -- A key that a command was recorded under, which is no claim, registration or task.create, stays
    -- used: over any later commands, restarts and rewritings of the receipts of task.create, the same
    -- command under the key is never told to run, a
    -- command with another input is refused with a conflict, and nothing is recorded under the key
    -- again.
    pub command_record-Later :
        (now : ℕ) (v : Value) (project : Option ℕ) (b c d : Book)
        → of_session kind ≡ false
        → (code kind == code task_create) ≡ false
        → command_record o now kind aggregate (some key) hash v project b ≡ ok c
        → Later c d
        → ((at : ℕ) → command_replay_state o at kind aggregate (some key) hash d ≢ ok none)
          × ((at hash' : ℕ)
              → (hash == hash') ≡ false
              → command_replay_state o at kind aggregate (some key) hash' d ≡ err conflict)
          × ((at hash' : ℕ) (v' : Value) (project' : Option ℕ)
              → command_record o at kind aggregate (some key) hash' v' project' d ≡ err integrity)
    command_record-Later now v project b c d durable other h later =
        let (first_row, found, _, same, _, _) =
          command_record-Recorded o now kind aggregate key hash v project b c h in
        let n : KnownIn kind aggregate key hash d.commands =
          KnownIn-Later c d later other (first_row, rw durable at found, same) in
        (
          λ at k. replay-Known d n durable at k,
          λ at hash' different. other_input d n durable at hash' different,
          λ at hash' v' project'. record_again d n durable at hash' v' project',
        )
