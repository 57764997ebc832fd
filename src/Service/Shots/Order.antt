-- ===== src/Service/Shots/Order.antt =====
-- The order that reorder_shot_items of runtime_protocol/service.py leaves.
use mathlib.Core.Option
use banodoco_workspace_runti.Base.{
  ℕ, suc, ◌+◌, ◌≤◌, ◌==◌, ◌≡◌, refl, ap, ◌∙◌, Bool, true, false, not, ◌&&◌, Option, none, some,
  List, [], ◌∷◌, first, any, all, first-update, first-holds, any-update, any-implied, any-all,
  arith, leb, if◌then◌else◌, ok, Bool-cases, inl, inr,
}
use banodoco_workspace_runti.Service.Shots.{
  SortKey, temporary, numbered, fresh, place, Item, Shot, same_key, listed, are_distinct, same_set,
  reorder_shot_items,
}
use banodoco_workspace_runti.Service.Shots.Writes.{
  Open, put, put_all, is_numbered, put_all_covers, assign-put_all,
}

-- The key of an item.
abbrev pub key_at : ℕ → List Item → Option SortKey
key_at id items = Option.map (λ (i : Item). i.sort_key) (first (λ (i : Item). i.id == id) items)

-- The items stand at the positions that the list gives them, from `index` on.
abbrev pub Placed : ℕ → List ℕ → List Item → Type 0
Placed index [] items = Unit
Placed index (id ∷ ids) items =
    (key_at id items ≡ some (numbered index)) × Placed (suc index) ids items

found_first :
    (p : Item → Bool) (xs : List Item) → any p xs ≡ true → (a : Item) × (first p xs ≡ some a)
unfolding any first
found_first p [] h = absurd (ground (arith, h))
found_first p (x ∷ xs) h = elim (Bool-cases (p x)) [
  | inl e ↦ (x, rw e refl)
  | inr e ↦ let (a, found) = found_first p xs (ground (arith, h, e)) in (a, rw e found)
]

all_present :
    (key : SortKey) (id : ℕ) (items : List Item) (ids : List ℕ)
    → all (λ j. any (λ (i : Item). i.id == j) items) ids ≡ true
    → all (λ j. any (λ (i : Item). i.id == j) (put key id items)) ids ≡ true
unfolding all
all_present key id items [] h = refl
all_present key id items (j ∷ ids) h =
    let here : any (λ (i : Item). i.id == j) items ≡ true = (ground (arith, h)) in
    let kept =
      any-update (λ (i : Item). i.id == j) (λ i. i.id == id) (λ i. record i { sort_key = key }) true
        items (λ i _ e. e) here in
    ground (arith, kept, h, all_present key id items ids)

key_at-put_other :
    (key : SortKey) (id j : ℕ) (items : List Item)
    → (id == j) ≡ false
    → key_at j (put key id items) ≡ key_at j items
key_at-put_other key id j items h =
    ap (Option.map (λ (i : Item). i.sort_key)) (
      first-update (λ (i : Item). i.id == j) (λ i. i.id == id) (λ i. record i { sort_key = key })
        items (λ i. refl))
    ∙ by_row (first (λ (i : Item). i.id == j) items) refl
  where
    by_row :
        (o : Option Item)
        → first (λ (i : Item). i.id == j) items ≡ o
        → Option.map
            (λ (i : Item). i.sort_key)
            (Option.map (λ (i : Item). if i.id == id then record i { sort_key = key } else i) o)
          ≡ Option.map (λ (i : Item). i.sort_key) o
    by_row none e = refl
    by_row (some i) e =
        let hit = first-holds (λ (x : Item). x.id == j) items i e in
        let miss : (i.id == id) ≡ false = (ground (arith, hit, h)) in rw miss refl

key_at-put_same :
    (key : SortKey) (id : ℕ) (items : List Item)
    → any (λ (i : Item). i.id == id) items ≡ true
    → key_at id (put key id items) ≡ some key
key_at-put_same key id items h =
    let (i, found) = found_first (λ (i : Item). i.id == id) items h in
    let hit = first-holds (λ (x : Item). x.id == id) items i found in
    ap (Option.map (λ (i : Item). i.sort_key)) (
      first-update (λ (i : Item). i.id == id) (λ i. i.id == id) (λ i. record i { sort_key = key })
        items (λ i. refl))
    ∙ rw (found, hit) refl

key_at-put_all :
    (make : ℕ → SortKey) (index : ℕ) (ids : List ℕ) (j : ℕ) (items : List Item)
    → listed ids j ≡ false
    → key_at j (put_all make index ids items) ≡ key_at j items
unfolding put_all any
key_at-put_all make index [] j items h = refl
key_at-put_all make index (id ∷ ids) j items h =
    key_at-put_all make (suc index) ids j (put (make index) id items) (ground (arith, h))
    ∙ key_at-put_other (make index) id j items (ground (arith, h))

put_all-Placed :
    (index : ℕ) (ids : List ℕ) (items : List Item)
    → are_distinct ids ≡ true
    → all (λ id. any (λ (i : Item). i.id == id) items) ids ≡ true
    → Placed index ids (put_all numbered index ids items)
unfolding put_all are_distinct all
put_all-Placed index [] items d h = tt
put_all-Placed index (id ∷ ids) items d h =
    let here : any (λ (i : Item). i.id == id) items ≡ true = (ground (arith, h)) in
    (
      key_at-put_all numbered (suc index) ids id (put (numbered index) id items) (ground (arith, d))
          ∙ key_at-put_same (numbered index) id items here,
      put_all-Placed (suc index) ids (put (numbered index) id items) (ground (arith, d))
          (all_present (numbered index) id items ids (ground (arith, h))),
    )

put_all_present :
    (make : ℕ → SortKey) (index : ℕ) (ids js : List ℕ) (items : List Item)
    → all (λ j. any (λ (i : Item). i.id == j) items) js ≡ true
    → all (λ j. any (λ (i : Item). i.id == j) (put_all make index ids items)) js ≡ true
unfolding put_all
put_all_present make index [] js items h = h
put_all_present make index (id ∷ ids) js items h =
    put_all_present make (suc index) ids js (put (make index) id items)
      (all_present (make index) id items js h)

put_all-listed :
    (make : ℕ → SortKey) (index : ℕ) (ids js : List ℕ) (items : List Item)
    → any (λ (i : Item). not (listed js i.id)) items ≡ false
    → any (λ (i : Item). not (listed js i.id)) (put_all make index ids items) ≡ false
unfolding put_all
put_all-listed make index [] js items h = h
put_all-listed make index (id ∷ ids) js items h =
    put_all-listed make (suc index) ids js (put (make index) id items) (
      any-update (λ (i : Item). not (listed js i.id)) (λ i. i.id == id)
        (λ i. record i { sort_key = make index }) false items (λ i _ e. e) h)

-- Every item of the shot has a number.
abbrev pub Settled : List Item → Type 0
Settled items = any (λ (i : Item). not (is_numbered i.sort_key)) items ≡ false

abbrev pub is_temporary : SortKey → Bool
is_temporary (temporary n) = true
is_temporary _ = false

Open-temporary :
    (items : List Item)
    → any (λ (i : Item). is_temporary i.sort_key) items ≡ false
    → Open temporary 0 items
Open-temporary items h j le =
    any-implied (λ (i : Item). is_temporary i.sort_key) (λ i. same_key i.sort_key (temporary j))
      items (λ i e. apart i.sort_key e) h
  where
    apart : (k : SortKey) → is_temporary k ≡ false → same_key k (temporary j) ≡ false
    apart (numbered n) e = refl
    apart (fresh n) e = refl
    apart (temporary n) e = absurd (ground (arith, e))

Open-numbered :
    (items : List Item)
    → any (λ (i : Item). is_numbered i.sort_key) items ≡ false
    → Open numbered 0 items
Open-numbered items h j le =
    any-implied (λ (i : Item). is_numbered i.sort_key) (λ i. same_key i.sort_key (numbered j)) items
      (λ i e. apart i.sort_key e) h
  where
    apart : (k : SortKey) → is_numbered k ≡ false → same_key k (numbered j) ≡ false
    apart (temporary n) e = refl
    apart (fresh n) e = refl
    apart (numbered n) e = absurd (ground (arith, e))

pub Settled-temporary :
    (items : List Item) → Settled items → any (λ (i : Item). is_temporary i.sort_key) items ≡ false
Settled-temporary items h =
    any-implied (λ (i : Item). not (is_numbered i.sort_key)) (λ i. is_temporary i.sort_key) items
      (λ i e. other i.sort_key e) h
  where
    other : (k : SortKey) → not (is_numbered k) ≡ false → is_temporary k ≡ false
    other (numbered n) e = refl
    other (temporary n) e = absurd (ground (arith, e))
    other (fresh n) e = refl

-- Both loops run where no key is temporary and the list names each item once.
pub place-Placed :
    (ids : List ℕ) (items : List Item)
    → are_distinct ids ≡ true
    → same_set ids items ≡ true
    → any (λ (i : Item). is_temporary i.sort_key) items ≡ false
    → (after : List Item) × (place ids items ≡ ok after) × Placed 0 ids after × Settled after
unfolding place same_set
place-Placed ids items distinct complete settled =
    let named : all (λ id. any (λ (i : Item). i.id == id) items) ids ≡ true =
      (ground (arith, complete)) in
    let covered : all (λ (i : Item). listed ids i.id) items ≡ true = (ground (arith, complete)) in
    let aside = put_all temporary 0 ids items in
    let numberless =
      put_all_covers temporary is_numbered (λ n. refl) 0 ids items
        (any-all (λ (i : Item). listed ids i.id) (λ i. is_numbered i.sort_key) items covered) in
    let all_listed =
      put_all-listed temporary 0 ids ids items
        (any-all (λ (i : Item). listed ids i.id) (λ i. true) items covered) in
    let here = put_all_present temporary 0 ids ids items named in
    let first_loop =
      assign-put_all temporary (λ i j. refl) 0 ids items (Open-temporary items settled) in
    let second_loop =
      assign-put_all numbered (λ i j. refl) 0 ids aside (Open-numbered aside numberless) in
    (
      put_all numbered 0 ids aside,
      rw (first_loop, second_loop) refl,
      put_all-Placed 0 ids aside distinct here,
      put_all_covers numbered (λ k. not (is_numbered k)) (λ n. refl) 0 ids aside
          (any-implied (λ (i : Item). not (listed ids i.id))
            (λ i. not (is_numbered i.sort_key) && not (listed ids i.id)) aside
            (λ i e. ground (arith, e)) all_listed),
    )

-- A reorder of a shot whose items all have numbers, for its version, which is positive, and a list that
-- names each of its items once, is accepted: no unique key refuses a write, the items stand in the
-- order of the list, all have numbers again, and the version is the next one.
pub reorder_shot_items-Placed :
    (now expected : ℕ) (ids : List ℕ) (shot : Shot)
    → 1 ≤ expected
    → shot.version ≡ expected
    → are_distinct ids ≡ true
    → same_set ids shot.items ≡ true
    → Settled shot.items
    → (after : Shot) × (reorder_shot_items now expected ids shot ≡ ok after)
      × Placed 0 ids after.items
      × Settled after.items
      × (after.version ≡ shot.version + 1)
unfolding reorder_shot_items
reorder_shot_items-Placed now expected ids shot low version distinct complete settled =
    let (placed, done, order, numbers) =
      place-Placed ids shot.items distinct complete (Settled-temporary shot.items settled) in
    let bounded : leb 1 expected ≡ true = (ground (arith, low)) in
    let current : (shot.version == expected) ≡ true = (ground (arith, version)) in
    (
      record shot { items = placed; version = shot.version + 1; updated_at = now },
      rw (bounded, distinct, current, complete, done) refl,
      order,
      numbers,
      refl,
    )
