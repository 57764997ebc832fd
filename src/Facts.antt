-- ===== src/Facts.antt =====
-- The engine-neutral facts of runtime_protocol/store.py: normalize_execution_facts,
-- execution_facts_match and RealmStore._validate_storage_estimate.
pub mod Printed
mod Samples
use Prim.Native.Nat.{◌^◌}
use Prim.Native.String.{String}
use text.Mathlib.Text.{◌==◌ as str_eq}
use banodoco_workspace_runti.Base.{
  ℕ, ◌+◌, ◌-◌, Bool, true, false, ◌&&◌, ◌||◌, Option, none, some, List, [], ◌∷◌, leb, ◌==◌,
  if◌then◌else◌, Result, ok, err, validation, ◌>>=◌, ◌>>◌, require, or_raise,
}
use banodoco_workspace_runti.Json.{
  Json, int, str, object, Fields, end, field, pos, get, keys_within,
}

-- MAX_STORAGE_ESTIMATE_BYTES
abbrev pub max_bytes : ℕ
max_bytes = 2 ^ 53 - 1

abbrev pub is_exact_key : String → Bool
is_exact_key k =
    str_eq k "interpreter"
    || str_eq k "runtime_lock"
    || str_eq k "engine_lock"
    || str_eq k "model_digest"
    || str_eq k "custom_node_digest"
    || str_eq k "driver"
    || str_eq k "root"
    || str_eq k "port"

abbrev pub is_minimum_key : String → Bool
is_minimum_key k = str_eq k "vram_bytes" || str_eq k "scratch_bytes"

pub data Fact : Type 0 where
  named : String → Fact
  numbered : ℕ → Fact

pub record Facts : Type 0 where
  pub exact : List (String × Fact)
  pub minimum : List (String × ℕ)

-- The fact of one exact key. Only `port` may be an integer, which must not be falsy or out of range.
unfoldable pub exact_fact : Bool → Json → Result Fact
exact_fact is_port (str s) = if str_eq s "" then err validation else ok (named s)
exact_fact true (int (pos n)) =
    if n == 0 then err validation else if leb n 65535 then ok (numbered n) else err validation
exact_fact is_port _ = err validation

unfoldable pub exact_facts : Fields → Result (List (String × Fact))
unfolding exact_fact
exact_facts end = ok []
exact_facts (field k v fs) = do
  fact ← exact_fact (str_eq k "port") v
  rest ← exact_facts fs
  ok ((k, fact) ∷ rest)

unfoldable pub bounded_int : Json → Result ℕ
bounded_int (int (pos n)) = if leb n max_bytes then ok n else err validation
bounded_int _ = err validation

unfoldable pub minimum_facts : Fields → Result (List (String × ℕ))
unfolding bounded_int
minimum_facts end = ok []
minimum_facts (field k v fs) = do
  fact ← bounded_int v
  rest ← minimum_facts fs
  ok ((k, fact) ∷ rest)

-- value.get(key, {}), which must be a dict
unfoldable pub sub_object : Option Json → Result Fields
sub_object none = ok end
sub_object (some (object fs)) = ok fs
sub_object (some _) = err validation

unfoldable pub normalize_execution_facts : Json → Result Facts
unfolding sub_object exact_facts minimum_facts
normalize_execution_facts (object fs) = do
  require (keys_within (λ k. str_eq k "exact" || str_eq k "minimum") fs) validation
  exact ← sub_object (get "exact" fs)
  minimum ← sub_object (get "minimum" fs)
  require (keys_within is_exact_key exact) validation
  require (keys_within is_minimum_key minimum) validation
  normalized_exact ← exact_facts exact
  normalized_minimum ← minimum_facts minimum
  ok (record { exact = normalized_exact; minimum = normalized_minimum })
normalize_execution_facts _ = err validation

-- d.get(key) on a normalized dict
unfoldable pub value_of {ℓ} : {V : Type ℓ} → String → List (String × V) → Option V
value_of k [] = none
value_of k ((j, v) ∷ m) = if str_eq j k then some v else value_of k m

abbrev pub same_fact : Fact → Fact → Bool
same_fact (named s) (named t) = str_eq s t
same_fact (numbered m) (numbered n) = m == n
same_fact _ _ = false

abbrev pub exact_holds : List (String × Fact) → String → Fact → Bool
exact_holds verified k expected = elim (value_of k verified) [
  | none ↦ false
  | some v ↦ same_fact v expected
]

abbrev pub minimum_holds : List (String × ℕ) → String → ℕ → Bool
minimum_holds verified k expected = elim (value_of k verified) [
  | none ↦ false
  | some v ↦ leb expected v
]

unfoldable pub exact_match : List (String × Fact) → List (String × Fact) → Bool
exact_match verified [] = true
exact_match verified ((k, expected) ∷ rest) =
    exact_holds verified k expected && exact_match verified rest

unfoldable pub minimum_match : List (String × ℕ) → List (String × ℕ) → Bool
minimum_match verified [] = true
minimum_match verified ((k, expected) ∷ rest) =
    minimum_holds verified k expected && minimum_match verified rest

unfoldable pub execution_facts_match : Json → Json → Result Bool
unfolding normalize_execution_facts exact_match minimum_match
execution_facts_match required verified = do
  r ← normalize_execution_facts required
  v ← normalize_execution_facts verified
  ok (exact_match v.exact r.exact && minimum_match v.minimum r.minimum)

pub record Estimate : Type 0 where
  pub scratch_bytes : ℕ
  pub output_bytes : ℕ

unfoldable pub validate_storage_estimate : Option Json → Result (Option Estimate)
unfolding bounded_int
validate_storage_estimate none = ok none
validate_storage_estimate (some (object fs)) = do
  require (keys_within (λ k. str_eq k "scratch_bytes" || str_eq k "output_bytes") fs) validation
  scratch_json ← or_raise (get "scratch_bytes" fs) validation
  output_json ← or_raise (get "output_bytes" fs) validation
  scratch ← bounded_int scratch_json
  output ← bounded_int output_json
  require (leb (scratch + output) max_bytes) validation
  ok (some (record { scratch_bytes = scratch; output_bytes = output }))
validate_storage_estimate (some _) = err validation

-- {"exact": {}, "minimum": {}}
abbrev pub no_facts : Json
no_facts = object (field "exact" (object end) (field "minimum" (object end) end))
