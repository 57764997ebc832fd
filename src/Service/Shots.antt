-- ===== src/Service/Shots.antt =====
-- runtime_protocol/service.py: add_shot_item and reorder_shot_items. The sort keys of a shot's items
-- are unique, so the items get temporary keys first. The shot is one that is there; the replay and
-- the record of the command, the form of its body and the revision are left out.
pub mod Added
pub mod Order
mod Samples
pub mod Writes
use banodoco_workspace_runti.Base.{
  ℕ, zero, suc, ◌+◌, Bool, true, false, not, ◌&&◌, ◌||◌, Option, none, some, List, length,
  not_found, if◌then◌else◌, [], ◌∷◌, any, all, update, leb, ◌==◌, Result, ok, err, validation,
  conflict, integrity, ◌>>=◌, ◌>>◌, require,
}

-- sort_key: f"{index:08d}", f"tmp-{index:08d}-…" or f"~{item_id}"
pub data SortKey : Type 0 where
  numbered temporary fresh : ℕ → SortKey

pub record Item : Type 0 where
  pub id : ℕ
  pub media_id : ℕ
  pub sort_key : SortKey

pub record Shot : Type 0 where
  pub id : ℕ
  pub version : ℕ
  pub updated_at : ℕ
  pub items : List Item

abbrev pub same_key : SortKey → SortKey → Bool
same_key (temporary i) (temporary j) = i == j
same_key (numbered i) (numbered j) = i == j
same_key (fresh i) (fresh j) = i == j
same_key _ _ = false

-- UPDATE shot_items SET sort_key=? WHERE id=?, under UNIQUE(shot_id, sort_key)
unfoldable pub set_sort_key : ℕ → SortKey → List Item → Result (List Item)
set_sort_key id key items = do
  require (not (any (λ i. not (i.id == id) && same_key i.sort_key key) items)) integrity
  ok (update (λ i. i.id == id) (λ i. record i { sort_key = key }) items)

-- for index, item_id in enumerate(item_ids, index)
unfoldable pub assign : (ℕ → SortKey) → ℕ → List ℕ → List Item → Result (List Item)
unfolding set_sort_key
assign make index [] items = ok items
assign make index (id ∷ ids) items = do
  moved ← set_sort_key id (make index) items
  assign make (suc index) ids moved

abbrev pub listed : List ℕ → ℕ → Bool
listed ids id = any (λ j. j == id) ids

-- len(item_ids) == len(set(item_ids))
unfoldable pub are_distinct : List ℕ → Bool
are_distinct [] = true
are_distinct (id ∷ ids) = not (listed ids id) && are_distinct ids

-- set(item_ids) == set(current)
unfoldable pub same_set : List ℕ → List Item → Bool
same_set ids items = all (λ id. any (λ i. i.id == id) items) ids && all (λ i. listed ids i.id) items

-- The two loops of both handlers.
unfoldable pub place : List ℕ → List Item → Result (List Item)
place ids items = do parked ← assign temporary 0 ids items; assign numbered 0 ids parked

-- reorder_shot_items
unfoldable pub reorder_shot_items : (now expected : ℕ) → List ℕ → Shot → Result Shot
reorder_shot_items now expected item_ids shot = do
  require (leb 1 expected) validation
  require (are_distinct item_ids) validation
  require (shot.version == expected) conflict
  require (same_set item_ids shot.items) validation
  placed ← place item_ids shot.items
  ok (record shot { items = placed; version = shot.version + 1; updated_at = now })

-- The order of the keys as text, for indices of eight digits: "0…" < "tmp-…" < "~…".
unfoldable pub key_leb : SortKey → SortKey → Bool
key_leb (numbered i) (numbered j) = leb i j
key_leb (numbered i) _ = true
key_leb (temporary i) (numbered j) = false
key_leb (temporary i) (temporary j) = leb i j
key_leb (temporary i) (fresh j) = true
key_leb (fresh i) (fresh j) = leb i j
key_leb (fresh i) _ = false

unfoldable pub insert_row : Item → List Item → List Item
insert_row i [] = i ∷ []
insert_row i (j ∷ rows) =
    let rest = insert_row i rows in if key_leb i.sort_key j.sort_key then i ∷ j ∷ rows else j ∷ rest

-- SELECT * FROM shot_items … ORDER BY sort_key
unfoldable pub ordered : List Item → List Item
ordered [] = []
ordered (i ∷ items) = insert_row i (ordered items)

abbrev pub ids_of : List Item → List ℕ
ids_of [] = []
ids_of (i ∷ items) = i.id ∷ ids_of items

-- ordered_ids.insert(position, item_id)
unfoldable pub insert_at : ℕ → ℕ → List ℕ → List ℕ
insert_at zero id ids = id ∷ ids
insert_at (suc position) id [] = id ∷ []
insert_at (suc position) id (j ∷ ids) = j ∷ insert_at position id ids

-- if position is None: position = len(rows)
abbrev pub position_or : Option ℕ → List Item → ℕ
position_or none rows = length rows
position_or (some position) rows = position

-- The keys of the new row, under the primary key of shot_items and UNIQUE(shot_id, sort_key).
abbrev pub is_free : (taken : ℕ → Bool) → ℕ → List Item → Bool
is_free taken id items =
    not (taken id)
    && not (any (λ (i : Item). i.id == id) items)
    && not (any (λ (i : Item). same_key i.sort_key (fresh id)) items)

-- add_shot_item, where `owned` tells the media of the project and `taken` the items of other shots.
unfoldable pub add_shot_item :
    (owned taken : ℕ → Bool) (now : ℕ) → Option ℕ → (item_id media_id : ℕ) → Shot → Result Shot
add_shot_item owned taken now position item_id media_id shot = do
  require (owned media_id) not_found
  let rows = ordered shot.items
  let at = position_or position rows
  require (leb at (length rows)) validation
  require (is_free taken item_id shot.items) integrity
  let new : Item = record { id = item_id; media_id = media_id; sort_key = fresh item_id }
  placed ← place (insert_at at item_id (ids_of rows)) (new ∷ shot.items)
  ok (record shot { items = placed; version = shot.version + 1; updated_at = now })
