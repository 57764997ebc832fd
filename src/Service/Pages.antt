-- ===== src/Service/Pages.antt =====
-- runtime_protocol/service.py: _page_args, _page_cursor and _page_rows, the pages of a collection. A
-- cursor is a text that is opaque to clients. The parts of a key are compared like the code's texts and
-- numbers: they are numbers here, so that the refusal of a cursor whose parts are of another type than
-- the row's is left out.
pub mod Walk
pub mod Bounds
use banodoco_workspace_runti.Base.{
  ℕ, zero, suc, ◌≤◌, Bool, true, false, not, ◌&&◌, ◌||◌, Option, none, some, List, [], ◌∷◌, ◌++◌,
  map, length, take, last, ltb, leb, ◌==◌, if◌then◌else◌, Result, ok, err, invalid_request, ◌>>=◌,
  ◌>>◌, require,
}
use banodoco_workspace_runti.Json.{ℤ, pos, negsuc}

-- The fields of a decoded cursor; `key` is `none` where "k" is no list.
pub record Decoded : Type 0 where
  pub version : Option ℕ
  pub scope : Option ℕ
  pub key : Option (List ℕ)
  pub numeric : Bool

-- base64 and json: `read` is `none` where the decoding of the text raises or gives no object.
pub record Codec : Type 0 where
  pub write : Decoded → ℕ
  pub read : ℕ → Option Decoded

-- A cursor argument: None or "", a text, or anything else.
pub data Cursor : Type 0 where
  absent : Cursor
  text : ℕ → Cursor
  malformed : Cursor

pub record Page {ℓ} (B : Type ℓ) : Type ℓ where
  pub items : List B
  pub next_cursor : Option ℕ

-- key <= after, on tuples
unfoldable pub tuple_le : List ℕ → List ℕ → Bool
tuple_le [] ys = true
tuple_le (x ∷ xs) [] = false
tuple_le (x ∷ xs) (y ∷ ys) = if x == y then tuple_le xs ys else ltb x y

-- `limit` after int(), `none` where it is a Boolean or int() raises
unfoldable pub page_limit : Option ℤ → Result ℕ
page_limit none = err invalid_request
page_limit (some (negsuc n)) = err invalid_request
page_limit (some (pos n)) = do require (leb 1 n && leb n 200) invalid_request; ok n

abbrev pub is_version_one : Option ℕ → Bool
is_version_one none = false
is_version_one (some n) = n == 1

abbrev pub is_key : Option (List ℕ) → Bool
is_key none = false
is_key (some []) = false
is_key (some (x ∷ xs)) = true

abbrev pub checked : Option Decoded → Result (Option Decoded)
checked none = err invalid_request
checked (some d) = do
  require (is_version_one d.version && is_key d.key) invalid_request
  ok (some d)

abbrev pub is_scope : ℕ → Option ℕ → Bool
is_scope scope none = false
is_scope scope (some s) = s == scope

abbrev pub key_of : Option Decoded → Option (List ℕ)
key_of none = none
key_of (some d) = d.key

module _ (codec : Codec) where
  abbrev pub decoded_of : Cursor → Result (Option Decoded)
  decoded_of absent = ok none
  decoded_of malformed = err invalid_request
  decoded_of (text t) = checked (codec.read t)

  unfoldable pub page_args : Cursor → Option ℤ → Result (ℕ × Option Decoded)
  unfolding page_limit
  page_args cursor limit = do n ← page_limit limit; decoded ← decoded_of cursor; ok (n, decoded)

  unfoldable pub page_cursor : (scope : ℕ) → List ℕ → Bool → ℕ
  page_cursor scope key numeric =
      codec.write
        (record { version = some 1; scope = some scope; key = some key; numeric = numeric })

-- The test of the cursor's scope.
abbrev pub in_scope : ℕ → Option Decoded → Result (Unit {0})
in_scope scope none = ok tt
in_scope scope (some d) = require (is_scope scope d.scope) invalid_request

module _ {ℓ κ} {A : Type ℓ} {B : Type κ} (skip_after : List ℕ → List ℕ → Bool) (key_fn : A → List ℕ)
    (resource_fn : A → B) where
  -- Whether a row belongs to a page before the cursor.
  abbrev pub is_before : Option (List ℕ) → List ℕ → Result Bool
  is_before none key = ok false
  is_before (some after) key = do
    require (length key == length after) invalid_request
    ok (skip_after key after)

  -- The loop over the rows, which stops one row after the limit.
  unfoldable pub gather :
      Option (List ℕ) → ℕ → List (List ℕ × B) → List A → Result (List (List ℕ × B))
  gather after limit selected [] = ok selected
  gather after limit selected (row ∷ rows) = do
    before ← is_before after (key_fn row)
    let longer = selected ++ (key_fn row, resource_fn row) ∷ []
    let skip = gather after limit selected rows
    let more = gather after limit longer rows
    if before then skip else if ltb limit (length longer) then ok longer else more

  module _ (codec : Codec) where
    abbrev pub next_page : ℕ → ℕ → List (List ℕ × B) → Option ℕ
    next_page scope limit selected =
        if ltb limit (length selected)
        then elim (last (take limit selected)) [
          | none ↦ none
          | some s ↦ some (page_cursor codec scope s.0 false)
        ]
        else none

    unfoldable pub page_rows : (rows : List A) (scope : ℕ) → Cursor → Option ℤ → Result (Page B)
    unfolding gather page_args page_cursor
    page_rows rows scope cursor limit = do
      args ← page_args codec cursor limit
      in_scope scope args.1
      selected ← gather (key_of args.1) args.0 [] rows
      ok (record {
        items = map (λ s. s.1) (take args.0 selected);
        next_cursor = next_page scope args.0 selected;
      })
