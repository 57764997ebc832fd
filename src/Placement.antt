-- ===== src/Placement.antt =====
-- runtime_protocol/store.py: execution_placement_matches, on decoded targets. The values of a target's
-- fields are opaque and only compared. A field that is missing and one that is null read alike, but
-- a selector that names a field as null asks for it.
mod Samples
use banodoco_workspace_runti.Base.{
  ℕ, Bool, true, false, not, ◌&&◌, Option, none, some, ◌==◌, if◌then◌else◌,
}

-- `other` is any kind that is none of the four, or none at all.
pub data Kind : Type 0 where
  default profile machine runpod : Kind
  other : Option ℕ → Kind

pub data Field : Type 0 where
  missing null : Field
  given : ℕ → Field

-- target.get(field)
abbrev pub value_at : Field → Option ℕ
value_at (given n) = some n
value_at _ = none

pub record Target : Type 0 where
  pub kind : Kind
  pub id : Field
  pub pod_id : Field
  pub provider_account_ref : Field
  pub profile_revision : Field
  pub profile_digest : Field
  pub release_digest : Field
  pub storage : Field
  pub mounts : Field

-- A placement that is an object; `actual` is `none` where it is no object.
pub record Placed : Type 0 where
  pub is_verified : Bool
  pub actual : Option Target

abbrev pub same_value : Option ℕ → Option ℕ → Bool
same_value none none = true
same_value (some a) (some b) = a == b
same_value _ _ = false

abbrev pub is_default : Kind → Bool
is_default default = true
is_default _ = false

abbrev pub same_kind : Kind → Kind → Bool
same_kind default default = true
same_kind profile profile = true
same_kind machine machine = true
same_kind runpod runpod = true
same_kind (other a) (other b) = same_value a b
same_kind _ _ = false

-- identity_fields
unfoldable pub same_identity : Kind → Target → Target → Bool
same_identity default s a = true
same_identity profile s a = same_value (value_at s.id) (value_at a.id)
same_identity machine s a = same_value (value_at s.id) (value_at a.id)
same_identity runpod s a =
    same_value (value_at s.pod_id) (value_at a.pod_id)
    && same_value (value_at s.provider_account_ref) (value_at a.provider_account_ref)
same_identity (other k) s a = true

-- field not in selected or selected[field] == actual.get(field)
abbrev pub pinned : Field → Field → Bool
pinned missing a = true
pinned s a = same_value (value_at s) (value_at a)

abbrev pub is_null : Field → Bool
is_null null = true
is_null _ = false

-- The selector names none of these fields as null.
abbrev pub no_null_pin : Target → Bool
no_null_pin s =
    not (is_null s.profile_revision)
    && (not (is_null s.profile_digest)
        && (not (is_null s.release_digest) && (not (is_null s.storage) && not (is_null s.mounts))))

unfoldable pub same_pins : Target → Target → Bool
same_pins s a =
    pinned s.profile_revision a.profile_revision
    && (pinned s.profile_digest a.profile_digest
        && (pinned s.release_digest a.release_digest
            && (pinned s.storage a.storage && pinned s.mounts a.mounts)))

unfoldable pub target_matches : Target → Target → Bool
unfolding same_identity same_pins
target_matches s a =
    if not (is_default s.kind) && not (same_kind s.kind a.kind)
    then false
    else if not (same_identity s.kind s a)
    then false
    else same_pins s a

unfoldable pub execution_placement_matches : Option Target → Option Placed → Bool
unfolding target_matches
execution_placement_matches none p = false
execution_placement_matches (some s) none = false
execution_placement_matches (some s) (some p) =
    if not p.is_verified
    then false
    else elim p.actual [ none ↦ false | some a ↦ target_matches s a ]
