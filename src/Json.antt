-- ===== src/Json.antt =====
-- JSON values, as json.loads gives them to the runtime. A floating-point number is opaque.
use Prim.Native.String.{String}
use text.Mathlib.Text.{◌==◌ as str_eq}
use banodoco_workspace_runti.Base.{
  ℕ, Bool, true, false, ◌&&◌, ◌||◌, Option, none, some, if◌then◌else◌,
}

-- `negsuc n` is -(n + 1).
pub data ℤ : Type 0 where
  pos negsuc : ℕ → ℤ

mutual
  pub data Json : Type 0 where
    null : Json
    bool_true bool_false : Json
    int : ℤ → Json
    float : ℕ → Json
    str : String → Json
    list : Items → Json
    object : Fields → Json

  pub data Items : Type 0 where
    nil : Items
    cons : Json → Items → Items

  pub data Fields : Type 0 where
    end : Fields
    field : String → Json → Fields → Fields

-- d.get(key)
unfoldable pub get : String → Fields → Option Json
get k end = none
get k (field j v fs) = if str_eq j k then some v else get k fs

-- key in d
unfoldable pub has : String → Fields → Bool
has k end = false
has k (field j v fs) = str_eq j k || has k fs

-- set(d) - allowed is empty
unfoldable pub keys_within : (String → Bool) → Fields → Bool
keys_within allowed end = true
keys_within allowed (field j v fs) = allowed j && keys_within allowed fs
