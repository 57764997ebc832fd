-- ===== src/Service/Shots/Added.antt =====
-- An item that add_shot_item of runtime_protocol/service.py adds.
use banodoco_workspace_runti.Base.{
  ℕ, zero, suc, ◌+◌, ◌≤◌, ◌==◌, ◌≡◌, refl, ap, ◌∙◌, Bool, true, false, not, ◌||◌, Option, List, [],
  ◌∷◌, any, all, any-implied, arith, leb, ok, Bool-cases, inl, inr, length, eq_self,
}
use banodoco_workspace_runti.Service.Shots.{
  SortKey, fresh, numbered, temporary, same_key, Item, Shot, listed, are_distinct, same_set,
  key_leb, insert_row, ordered, ids_of, insert_at, position_or, add_shot_item,
}
use banodoco_workspace_runti.Service.Shots.Writes.{is_numbered}
use banodoco_workspace_runti.Service.Shots.Order.{Placed, Settled, Settled-temporary, place-Placed}

listed-insert_row :
    (i : Item) (rows : List Item) (id : ℕ)
    → listed (ids_of (insert_row i rows)) id ≡ listed (i.id ∷ ids_of rows) id
unfolding insert_row any
listed-insert_row i [] id = refl
listed-insert_row i (j ∷ rows) id = elim (Bool-cases (key_leb i.sort_key j.sort_key)) [
  | inl e ↦ rw e refl
  | inr e ↦ rw (e) (ground (arith, listed-insert_row i rows id))
]

are_distinct-insert_row :
    (i : Item) (rows : List Item)
    → are_distinct (ids_of (insert_row i rows)) ≡ are_distinct (i.id ∷ ids_of rows)
unfolding insert_row are_distinct any
are_distinct-insert_row i [] = refl
are_distinct-insert_row i (j ∷ rows) = elim (Bool-cases (key_leb i.sort_key j.sort_key)) [
  | inl e ↦ rw e refl
  | inr e ↦ rw e (ground (arith, listed-insert_row i rows j.id, are_distinct-insert_row i rows))
]

listed-ordered :
    (items : List Item) (id : ℕ)
    → listed (ids_of (ordered items)) id ≡ any (λ (i : Item). i.id == id) items
unfolding ordered any
listed-ordered [] id = refl
listed-ordered (i ∷ items) id =
    listed-insert_row i (ordered items) id ∙ ap (λ b. (i.id == id) || b) (listed-ordered items id)

listed-ids_of :
    (items : List Item) (id : ℕ) → listed (ids_of items) id ≡ any (λ (i : Item). i.id == id) items
unfolding any
listed-ids_of [] id = refl
listed-ids_of (i ∷ items) id = ap (λ b. (i.id == id) || b) (listed-ids_of items id)

are_distinct-ordered :
    (items : List Item) → are_distinct (ids_of (ordered items)) ≡ are_distinct (ids_of items)
unfolding ordered are_distinct
are_distinct-ordered [] = refl
are_distinct-ordered (i ∷ items) =
    are_distinct-insert_row i (ordered items)
    ∙ rw (listed-ordered items i.id, listed-ids_of items i.id, are_distinct-ordered items) refl

listed-insert_at :
    (position id : ℕ) (ids : List ℕ) (j : ℕ)
    → listed (insert_at position id ids) j ≡ listed (id ∷ ids) j
unfolding insert_at any
listed-insert_at zero id ids j = refl
listed-insert_at (suc position) id [] j = refl
listed-insert_at (suc position) id (k ∷ ids) j = ground (arith, listed-insert_at position id ids j)

are_distinct-insert_at :
    (position id : ℕ) (ids : List ℕ)
    → listed ids id ≡ false
    → are_distinct ids ≡ true
    → are_distinct (insert_at position id ids) ≡ true
unfolding insert_at are_distinct any
are_distinct-insert_at zero id ids h d = ground (arith, h, d)
are_distinct-insert_at (suc position) id [] h d = refl
are_distinct-insert_at (suc position) id (k ∷ ids) h d = ground (
  arith,
  listed-insert_at position id ids k,
  are_distinct-insert_at position id ids (ground (arith, h)) (ground (arith, d)),
  h,
  d,
)

all-listed :
    (p : ℕ → Bool) (ids : List ℕ) → ((j : ℕ) → listed ids j ≡ true → p j ≡ true) → all p ids ≡ true
unfolding all any
all-listed p [] k = refl
all-listed p (id ∷ ids) k =
    let here = k id (rw (eq_self id) refl) in
    let rest = all-listed p ids (λ j h. k j (ground (arith, h))) in ground (arith, here, rest)

all-rows :
    (p : ℕ → Bool) (items : List Item)
    → ((j : ℕ) → any (λ (i : Item). i.id == j) items ≡ true → p j ≡ true)
    → all (λ (i : Item). p i.id) items ≡ true
unfolding all any
all-rows p [] k = refl
all-rows p (i ∷ items) k =
    let here = k i.id (rw (eq_self i.id) refl) in
    let rest = all-rows p items (λ j h. k j (ground (arith, h))) in ground (arith, here, rest)

-- A list that has the members of the rows names them all.
same_set-members :
    (ids : List ℕ) (items : List Item)
    → ((j : ℕ) → listed ids j ≡ any (λ (i : Item). i.id == j) items)
    → same_set ids items ≡ true
unfolding same_set
same_set-members ids items k =
    let named =
      all-listed (λ id. any (λ (i : Item). i.id == id) items) ids (λ j h. ground (arith, k j, h)) in
    let covered = all-rows (listed ids) items (λ j h. ground (arith, k j, h)) in
    rw (named, covered) refl

Settled-fresh :
    (id : ℕ) (items : List Item)
    → Settled items
    → any (λ (i : Item). same_key i.sort_key (fresh id)) items ≡ false
Settled-fresh id items h =
    any-implied (λ (i : Item). not (is_numbered i.sort_key)) (λ i. same_key i.sort_key (fresh id))
      items (λ i e. other i.sort_key e) h
  where
    other : (k : SortKey) → not (is_numbered k) ≡ false → same_key k (fresh id) ≡ false
    other (numbered n) e = refl
    other (temporary n) e = refl
    other (fresh n) e = absurd (ground (arith, e))

-- An item that is added to a shot whose items all have numbers, with media of the project, a key that
-- no item has and a position up to the number of items, is accepted: no unique key refuses a write,
-- the items keep their order with the new one at its position, all have numbers, and the version is
-- the next one.
pub add_shot_item-Placed :
    (owned taken : ℕ → Bool) (now : ℕ) (position : Option ℕ) (id media : ℕ) (shot : Shot)
    → owned media ≡ true
    → position_or position (ordered shot.items) ≤ length (ordered shot.items)
    → taken id ≡ false
    → any (λ (i : Item). i.id == id) shot.items ≡ false
    → are_distinct (ids_of shot.items) ≡ true
    → Settled shot.items
    → (after : Shot) × (add_shot_item owned taken now position id media shot ≡ ok after)
      × Placed 0
          (insert_at (position_or position (ordered shot.items)) id (ids_of (ordered shot.items)))
          after.items
      × Settled after.items
      × (after.version ≡ shot.version + 1)
unfolding add_shot_item any
add_shot_item-Placed owned taken now position id media shot own within free unknown distinct
      settled =
    let items = shot.items in
    let rows = ordered items in
    let at = position_or position rows in
    let new : Item = record { id = id; media_id = media; sort_key = fresh id } in
    let ids = insert_at at id (ids_of rows) in
    let fits : leb at (length rows) ≡ true = (ground (arith, within)) in
    let members = λ (j : ℕ).
      listed-insert_at at id (ids_of rows) j ∙ ap (λ b. (id == j) || b) (listed-ordered items j) in
    let order =
      are_distinct-insert_at at id (ids_of rows) (listed-ordered items id ∙ unknown)
        (are_distinct-ordered items ∙ distinct) in
    let (placed, done, positions, numbers) =
      place-Placed ids (new ∷ items) order (same_set-members ids (new ∷ items) members)
        (Settled-temporary items settled) in
    (
      record shot { items = placed; version = shot.version + 1; updated_at = now },
      rw (own, fits, free, unknown, Settled-fresh id items settled, done) refl,
      positions,
      numbers,
      refl,
    )
