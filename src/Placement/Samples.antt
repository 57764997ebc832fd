-- ===== src/Placement/Samples.antt =====
-- A machine as a selector and as a placement, for runtime_protocol/store.py.
use banodoco_workspace_runti.Base.{true, some}
use banodoco_workspace_runti.Placement.{Target, Placed, missing, given, machine, default}

abbrev machine_7 : Target
machine_7 = record {
  kind = machine;
  id = given 7;
  pod_id = missing;
  provider_account_ref = missing;
  profile_revision = missing;
  profile_digest = missing;
  release_digest = given 2;
  storage = missing;
  mounts = missing;
}

abbrev anywhere : Target
anywhere = record machine_7 { kind = default; id = missing }

abbrev placed_7 : Placed
placed_7 = record { is_verified = true; actual = some (record machine_7 { mounts = given 5 }) }
