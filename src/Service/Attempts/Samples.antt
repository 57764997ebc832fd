-- ===== src/Service/Attempts/Samples.antt =====
-- A heartbeat of a small machine, repeated after the lease has run out.
use banodoco_workspace_runti.Json.{null}
use banodoco_workspace_runti.Base.{
  ◌+◌, ◌≡◌, refl, false, none, some, Result, ok, err, arith, first, any, update,
}
use banodoco_workspace_runti.Tasks.Realm.{task_at, update_task, current_runtime_epoch}
use banodoco_workspace_runti.Tasks.Executors.{validate_runtime_epoch}
use banodoco_workspace_runti.Service.Compact.{Value, plain}
use banodoco_workspace_runti.Service.Ledger.{command_replay_state, command_record}
use banodoco_workspace_runti.Service.Samples.{outside, empty_book}
use banodoco_workspace_runti.Service.Recovery.Samples.{world, host, machine}
use banodoco_workspace_runti.Service.Attempts.{Office, Body, Requests, heartbeat_attempt}
use banodoco_workspace_runti.Service.Attempts.Retry.{heartbeat_attempt_again}

abbrev requests : Requests
requests = record { heartbeat_hash = λ attempt body. attempt + body.fence; unscoped = 0 }

abbrev body : Body
body = record {
  lease_id = 5;
  fence = 2;
  runtime_epoch = 4;
  lease_seconds = none;
  progress = some (record {
    content = 33;
    has_other_fields = false;
    phase = some (some (record { is_blank = false; length = 6 }));
    percent = none;
    current = none;
    total = none;
  });
}

abbrev office : Office
office = record { db = machine.db; book = empty_book }

abbrev answer_or : Result (Office × Value) → Value → Office × Value
answer_or (ok s) v = s
answer_or (err e) v = (office, v)

abbrev answer : Office × Value
answer = answer_or (heartbeat_attempt world outside host requests 500 50 7 body office) (plain null)

beats : heartbeat_attempt world outside host requests 500 50 7 body office ≡ ok (answer.0, answer.1)
unfolding heartbeat_attempt first validate_runtime_epoch current_runtime_epoch command_replay_state
    task_at update_task update command_record any
beats = refl

heartbeat_attempt_again_example :
    heartbeat_attempt world outside host requests 900000 50 7 body answer.0
    ≡ ok (answer.0, answer.1)
unfolding command_replay_state first
heartbeat_attempt_again_example =
    heartbeat_attempt_again world outside host requests 500 50 7 body office answer.0 answer.1
      900000 beats refl (omega arith)
