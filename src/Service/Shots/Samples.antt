-- ===== src/Service/Shots/Samples.antt =====
-- A shot of three items in an order of its own, for reorder_shot_items and add_shot_item.
use banodoco_workspace_runti.Base.{
  ℕ, ◌+◌, ◌≡◌, ◌≤◌, ◌==◌, refl, Bool, true, false, some, length, List, [], ◌∷◌, any, all, ok, arith,
}
use banodoco_workspace_runti.Service.Shots.{
  Item, Shot, numbered, are_distinct, same_set, reorder_shot_items, ids_of, position_or, ordered,
  insert_row, key_leb, insert_at, add_shot_item,
}
use banodoco_workspace_runti.Service.Shots.Added.{add_shot_item-Placed}
use banodoco_workspace_runti.Service.Shots.Order.{Placed, Settled, reorder_shot_items-Placed}

abbrev item : ℕ → ℕ → Item
item id position = record { id = id; media_id = 40 + id; sort_key = numbered position }

abbrev three_items : Shot
three_items = record {
  id = 5;
  version = 1;
  updated_at = 600;
  items = item 11 0 ∷ item 12 1 ∷ item 13 2 ∷ [];
}

abbrev new_order : List ℕ
new_order = 13 ∷ 11 ∷ 12 ∷ []

new_order_distinct : are_distinct new_order ≡ true
unfolding are_distinct any
new_order_distinct = refl

new_order_complete : same_set new_order three_items.items ≡ true
unfolding same_set any all
new_order_complete = refl

three_items-Settled : Settled three_items.items
unfolding any
three_items-Settled = refl

reorder_shot_items-Placed_example :
    (after : Shot) × (reorder_shot_items 700 1 new_order three_items ≡ ok after)
    × Placed 0 new_order after.items
    × Settled after.items
    × (after.version ≡ three_items.version + 1)
reorder_shot_items-Placed_example =
    reorder_shot_items-Placed 700 1 new_order three_items (omega arith) refl new_order_distinct
      new_order_complete three_items-Settled

abbrev owned_media : ℕ → Bool
owned_media media = media == 54

abbrev taken_elsewhere : ℕ → Bool
taken_elsewhere id = id == 30

three_items_distinct : are_distinct (ids_of three_items.items) ≡ true
unfolding are_distinct any
three_items_distinct = refl

fourteen_unknown : any (λ (i : Item). i.id == 14) three_items.items ≡ false
unfolding any
fourteen_unknown = refl

second_fits : position_or (some 1) (ordered three_items.items) ≤ length (ordered three_items.items)
unfolding ordered insert_row key_leb
second_fits = omega arith

add_shot_item-Placed_example :
    (after : Shot) × (add_shot_item owned_media taken_elsewhere 800 (some 1) 14 54 three_items
      ≡ ok after)
    × Placed 0 (insert_at 1 14 (ids_of (ordered three_items.items))) after.items
    × Settled after.items
    × (after.version ≡ three_items.version + 1)
add_shot_item-Placed_example =
    add_shot_item-Placed owned_media taken_elsewhere 800 (some 1) 14 54 three_items refl second_fits
      refl fourteen_unknown three_items_distinct three_items-Settled

second_order : insert_at 1 14 (ids_of (ordered three_items.items)) ≡ 11 ∷ 14 ∷ 12 ∷ 13 ∷ []
unfolding insert_at ordered insert_row key_leb
second_order = refl
