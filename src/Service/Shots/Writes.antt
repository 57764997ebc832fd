-- ===== src/Service/Shots/Writes.antt =====
-- The two loops of writes in add_shot_item and reorder_shot_items of runtime_protocol/service.py.
use banodoco_workspace_runti.Base.{
  ℕ, suc, ◌≤◌, ◌==◌, ◌≡◌, refl, ◌∙◌, Bool, true, false, not, ◌&&◌, List, [], ◌∷◌, any, update,
  any-update, any-implied, arith, if◌then◌else◌, ok, Bool-cases, inl, inr, ◌⊎◌,
}
use banodoco_workspace_runti.Service.Shots.{
  SortKey, numbered, Item, same_key, set_sort_key, assign, listed,
}

-- Keys that are made are those of their index, and only those.
abbrev pub Apart : (ℕ → SortKey) → Type 0
Apart make = (i j : ℕ) → same_key (make i) (make j) ≡ (i == j)

-- No item has a key that is still to be given out.
abbrev pub Open : (ℕ → SortKey) → ℕ → List Item → Type 0
Open make index items =
    (j : ℕ) → index ≤ j → any (λ (i : Item). same_key i.sort_key (make j)) items ≡ false

abbrev pub put : SortKey → ℕ → List Item → List Item
put key id items = update (λ i. i.id == id) (λ i. record i { sort_key = key }) items

-- The writes of `assign`.
unfoldable pub put_all : (ℕ → SortKey) → ℕ → List ℕ → List Item → List Item
put_all make index [] items = items
put_all make index (id ∷ ids) items = put_all make (suc index) ids (put (make index) id items)

module _ (make : ℕ → SortKey) (apart : Apart make) where
  others-Open :
      (index id : ℕ) (items : List Item)
      → Open make index items
      → any (λ (i : Item). not (i.id == id) && same_key i.sort_key (make index)) items ≡ false
  unfolding any
  others-Open index id items h = implied items (h index (omega arith))
    where
      implied :
          (xs : List Item)
          → any (λ (i : Item). same_key i.sort_key (make index)) xs ≡ false
          → any (λ (i : Item). not (i.id == id) && same_key i.sort_key (make index)) xs ≡ false
      implied [] e = refl
      implied (x ∷ xs) e = ground (arith, implied xs)

  pub set_sort_key_ok :
      (index id : ℕ) (items : List Item)
      → Open make index items
      → set_sort_key id (make index) items
        ≡ ok (update (λ i. i.id == id) (λ i. record i { sort_key = make index }) items)
  unfolding set_sort_key
  set_sort_key_ok index id items h = rw (others-Open index id items h) refl

  pub still-Open :
      (index id : ℕ) (items : List Item)
      → Open make index items
      → Open make
          (suc index)
          (update (λ i. i.id == id) (λ i. record i { sort_key = make index }) items)
  still-Open index id items h j le =
      any-update (λ (i : Item). same_key i.sort_key (make j)) (λ (i : Item). i.id == id)
        (λ i. record i { sort_key = make index }) false items
        (λ x _ _. apart index j ∙ ground (arith, le)) (h j (omega (arith, le)))

  pub assign-put_all :
      (index : ℕ) (ids : List ℕ) (items : List Item)
      → Open make index items
      → assign make index ids items ≡ ok (put_all make index ids items)
  unfolding assign put_all
  assign-put_all index [] items h = refl
  assign-put_all index (id ∷ ids) items h =
      rw (set_sort_key_ok index id items h)
        (assign-put_all (suc index) ids (put (make index) id items) (still-Open index id items h))

-- A test on the rows after an update, from one on the rows before.
pub any-put :
    (p r : Item → Bool) (key : SortKey) (id : ℕ) (items : List Item)
    → ((i : Item) → r i ≡ false → p (if i.id == id then record i { sort_key = key } else i) ≡ false)
    → any r items ≡ false
    → any p (put key id items) ≡ false
unfolding any update
any-put p r key id [] k h = refl
any-put p r key id (i ∷ items) k h = ground (arith, k i, any-put p r key id items k)

abbrev pub is_numbered : SortKey → Bool
is_numbered (numbered n) = true
is_numbered _ = false

module _ (make : ℕ → SortKey) (bad : SortKey → Bool) (good : (n : ℕ) → bad (make n) ≡ false) where
  left_unlisted :
      (index id : ℕ) (ids : List ℕ) (i : Item)
      → ((i.id == id) ≡ true) ⊎ ((i.id == id) ≡ false)
      → (bad i.sort_key && not (listed (id ∷ ids) i.id)) ≡ false
      → let j = if i.id == id then record i { sort_key = make index } else i in
        (bad j.sort_key && not (listed ids j.id)) ≡ false
  unfolding any
  left_unlisted index id ids i (inl u) e = rw (u, good index) refl
  left_unlisted index id ids i (inr u) e = rw u (ground (arith, e, u))

  -- After a loop no listed item is left with a key of the other kind.
  pub put_all_covers :
      (index : ℕ) (ids : List ℕ) (items : List Item)
      → any (λ i. bad i.sort_key && not (listed ids i.id)) items ≡ false
      → any (λ i. bad i.sort_key) (put_all make index ids items) ≡ false
  unfolding put_all any
  put_all_covers index [] items h =
      any-implied (λ (i : Item). bad i.sort_key && true) (λ i. bad i.sort_key) items
        (λ i e. ground (arith, e)) h
  put_all_covers index (id ∷ ids) items h =
      put_all_covers (suc index) ids (put (make index) id items) (
        any-put (λ i. bad i.sort_key && not (listed ids i.id))
          (λ i. bad i.sort_key && not (listed (id ∷ ids) i.id)) (make index) id items
          (λ i e. left_unlisted index id ids i (Bool-cases (i.id == id)) e) h)
