-- ===== src/Service/Samples.antt =====
-- A small command ledger, and the theorems of the service's modules applied to it.
use banodoco_workspace_runti.Base.{
  ℕ, length, ◌≤◌, ◌≡◌, ◌≢◌, refl, true, false, Option, none, some, [], ◌∷◌, ◌++◌, Result, ok, err,
  conflict, arith, List, integrity, any, first, upsert, not_found, ◌==◌, if◌then◌else◌,
}
use banodoco_workspace_runti.Json.{Json, null, int, pos, bool_true}
use banodoco_workspace_runti.Service.Compact.{
  Response, Value, response, plain, whole, task_cancel, compact_result, unpack,
}
use banodoco_workspace_runti.Service.Compact.Roundtrip.{unpack-compact_result}
use banodoco_workspace_runti.Service.Pages.{Codec, Page, page_rows, absent, page_cursor, tuple_le}
use banodoco_workspace_runti.Service.Pages.Bounds.{page_rows-bounds}
use banodoco_workspace_runti.Service.Ledger.Progress.{command_record-new}
use banodoco_workspace_runti.Service.Pages.Walk.{follow, follow_complete}
use banodoco_workspace_runti.Service.Ledger.{
  Entry, Book, Outside, command_record, command_replay_state,
}
use banodoco_workspace_runti.Service.Ledger.Replay.{command_replay_state-command_record}
use banodoco_workspace_runti.Service.Ledger.History.{
  Later, recorded, restarted, now_itself, command_record-Later,
}

-- The realm's rows of task 7 and run 9.
abbrev spec_rows : ℕ → Option Json
spec_rows id = if id == 7 then some bool_true else if id == 9 then some null else none

abbrev pub outside : Outside
outside = record {
  zip = λ catalog. 0;
  unzip = λ text. null;
  task_body = spec_rows;
  run_body = spec_rows;
  digest = λ stored. 5;
  publication = λ e. err not_found;
  is_live_admission = λ e. false;
  has_manifest = λ e. true;
}

abbrev task_response : Response
task_response = record {
  task_id = some 7;
  spec = some bool_true;
  task = some (record { task_id = none; id = some 7; spec = some bool_true; rest = null });
  run = some (record { id = some 9; spec_json = some null; rest = null });
  capabilities = none;
  rest = int (pos 3);
}

-- The stored form of a task's response gives the response back.
unpack-compact_result_example :
    unpack outside.unzip outside.task_body outside.run_body
      (compact_result outside.zip task_cancel (response task_response))
    ≡ ok (response task_response)
unpack-compact_result_example =
    unpack-compact_result outside.unzip outside.task_body outside.run_body outside.zip task_cancel
      task_response tt refl refl refl

abbrev pub empty_book : Book
empty_book = record { commands = []; session = []; next_seqs = []; last_prune = 0 }

abbrev cancelled_book : Result Book
cancelled_book =
    command_record outside 1000 task_cancel 7 (some 41) 99 (response task_response) (some 3)
      empty_book

abbrev recorded_book : Book
recorded_book = record {
  commands =
      record {
        kind = task_cancel;
        aggregate_id = 7;
        key = 41;
        request_hash = 99;
        stored = compact_result outside.zip task_cancel (response task_response);
        created_at = 1000;
        project_seq = some 1;
      }
      ∷ [];
  session = [];
  next_seqs = (3, 2) ∷ [];
  last_prune = 0;
}

cancel-recorded : cancelled_book ≡ ok recorded_book
unfolding command_record any first upsert
cancel-recorded = refl

-- The repeated cancellation gets its response.
command_replay_state-command_record_example :
    command_replay_state outside 5000 task_cancel 7 (some 41) 99 recorded_book
    ≡ ok (some (response task_response))
command_replay_state-command_record_example =
    command_replay_state-command_record outside 1000 task_cancel 7 41 99 (response task_response)
      (some 3) empty_book recorded_book 5000 cancel-recorded refl refl (tt, refl, refl, refl)

-- After another cancellation and a restart the first one is still known.
abbrev later_entry : Entry
later_entry = record {
  kind = task_cancel;
  aggregate_id = 8;
  key = 41;
  request_hash = 12;
  stored = whole (plain null);
  created_at = 2000;
  project_seq = some 2;
}

abbrev later_book : Book
later_book = record {
  commands = recorded_book.commands ++ later_entry ∷ [];
  session = [];
  next_seqs = (3, 3) ∷ [];
  last_prune = 0;
}

two_commands :
    command_record outside 2000 task_cancel 8 (some 41) 12 (plain null) (some 3) recorded_book
    ≡ ok later_book
unfolding command_record any compact_result first upsert
two_commands = refl

afterwards : Later outside recorded_book (record later_book { session = []; last_prune = 0 })
afterwards =
    restarted
      (recorded 2000 task_cancel 8 (some 41) 12 (plain null) (some 3) now_itself two_commands)

command_record-Later_example :
    ((at : ℕ)
      → command_replay_state outside at task_cancel 7
          (some 41)
          99
          (record later_book { session = []; last_prune = 0 })
        ≢ ok none)
    × ((at hash' : ℕ)
        → (99 == hash') ≡ false
        → command_replay_state outside at task_cancel 7
            (some 41)
            hash'
            (record later_book { session = []; last_prune = 0 })
          ≡ err conflict)
    × ((at hash' : ℕ) (v' : Value) (project' : Option ℕ)
        → command_record outside at task_cancel 7
            (some 41)
            hash'
            v'
            project'
            (record later_book { session = []; last_prune = 0 })
          ≡ err integrity)
command_record-Later_example =
    command_record-Later outside task_cancel 7 41 99 1000 (response task_response) (some 3)
      empty_book recorded_book (record later_book { session = []; last_prune = 0 }) refl refl
      cancel-recorded afterwards

-- Three rows with keys of two parts, and a codec for the cursors of their collection.
abbrev row_key : ℕ → List ℕ
row_key id = 9 ∷ id ∷ []

abbrev codec : Codec
codec = record {
  write = λ d. elim d.key [ some (x ∷ (y ∷ ys)) ↦ y | _ ↦ 0 ];
  read = λ t.
      some (record { version = some 1; scope = some 5; key = some (row_key t); numeric = false });
}

follow_complete_example :
    follow tuple_le row_key (λ id. id) codec 5 4 (1 ∷ 2 ∷ 4 ∷ []) absent 2 ≡ ok (1 ∷ 2 ∷ 4 ∷ [])
unfolding tuple_le page_cursor
follow_complete_example =
    follow_complete tuple_le row_key (λ id. id) codec 5 (1 ∷ 2 ∷ 4 ∷ []) 2 (omega arith)
      (omega arith)
      (
        refl,
        ((refl, refl, refl), ((refl, refl, refl), tt)),
        (refl, ((refl, refl, refl), tt), (refl, tt, tt)),
      )
      ((refl, refl), ((refl, refl), ((refl, refl), tt)))

abbrev first_page : Page ℕ
first_page = record { items = 1 ∷ 2 ∷ []; next_cursor = some 2 }

first_page-given :
    page_rows tuple_le row_key (λ id. id) codec (1 ∷ 2 ∷ 4 ∷ []) 5 absent (some (pos 2))
    ≡ ok first_page
unfolding page_rows
first_page-given = refl

page_rows-bounds_example :
    (n : ℕ) × (some (pos 2) ≡ some (pos n)) × (1 ≤ n) × (n ≤ 200) × (length first_page.items ≤ n)
page_rows-bounds_example =
    page_rows-bounds tuple_le row_key (λ id. id) codec (1 ∷ 2 ∷ 4 ∷ []) 5 absent (some (pos 2))
      first_page first_page-given

command_record-new_example :
    (c : Book) × (command_record outside 1500 task_cancel 8
        (some 41)
        12
        (plain null)
        (some 3)
        recorded_book
      ≡ ok c)
unfolding command_replay_state first
command_record-new_example =
    command_record-new outside task_cancel 8 41 12 1000 1500 (plain null) (some 3) recorded_book
      refl
