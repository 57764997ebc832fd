-- ===== src/Service/Pages/Bounds.antt =====
-- The size of a page of runtime_protocol/service.py.
use banodoco_workspace_runti.Base.{
  ℕ, zero, suc, ◌≤◌, ◌≡◌, ap, ◌∙◌, subst, Bool, ◌&&◌, Option, none, some, List, [], ◌∷◌, map,
  length, length-map, take, arith, leb, Result, ok, err, invalid_request, require, >>=-eq-ok,
}
use banodoco_workspace_runti.Json.{ℤ, pos, negsuc}
use banodoco_workspace_runti.Service.Pages.{
  Codec, Cursor, Decoded, decoded_of, Page, page_limit, page_args, key_of, in_scope, gather,
  page_rows,
}

page_limit_bounds :
    (limit : Option ℤ) (n : ℕ)
    → page_limit limit ≡ ok n
    → (limit ≡ some (pos n)) × (1 ≤ n) × (n ≤ 200)
unfolding page_limit
page_limit_bounds none n h = absurd (ground (arith, h))
page_limit_bounds (some (negsuc k)) n h = absurd (ground (arith, h))
page_limit_bounds (some (pos k)) n h =
    let (_, e, h) = >>=-eq-ok (require (leb 1 k && leb k 200) invalid_request) _ h in
    let same : k ≡ n = cc in
    (ap (λ x. some (pos x)) same, ground (arith, e, same), ground (arith, e, same))

take_bounds : {A : Type 0} (n : ℕ) (xs : List A) → length (take n xs) ≤ n
take_bounds zero xs = omega arith
take_bounds (suc n) [] = omega arith
take_bounds (suc n) (x ∷ xs) = omega (arith, take_bounds n xs)

page_args_limit :
    (codec : Codec) (cursor : Cursor) (limit : Option ℤ) (args : ℕ × Option Decoded)
    → page_args codec cursor limit ≡ ok args
    → page_limit limit ≡ ok args.0
unfolding page_args
page_args_limit codec cursor limit args h =
    let (n, e, h) = >>=-eq-ok (page_limit limit) _ h in
    let (d, _, h) = >>=-eq-ok (decoded_of codec cursor) _ h in
    let same : n ≡ args.0 = (ap number_or h) in e ∙ ap ok same
  where
    number_or : Result (ℕ × Option Decoded) → ℕ
    number_or (ok s) = s.0
    number_or (err e) = 0

abbrev items_or {ℓ} : {B : Type ℓ} → Result (Page B) → List B
items_or (ok page) = page.items
items_or (err e) = []

module _ {A B : Type 0} (skip_after : List ℕ → List ℕ → Bool) (key_fn : A → List ℕ)
    (resource_fn : A → B) (codec : Codec) where
  -- A page that is given, whatever the rows and the cursor, was asked for with a limit from 1 to 200,
  -- and has no more items than that limit.
  pub page_rows-bounds :
      (rows : List A) (scope : ℕ) (cursor : Cursor) (limit : Option ℤ) (page : Page B)
      → page_rows skip_after key_fn resource_fn codec rows scope cursor limit ≡ ok page
      → (n : ℕ) × (limit ≡ some (pos n)) × (1 ≤ n) × (n ≤ 200) × (length page.items ≤ n)
  unfolding page_rows
  page_rows-bounds rows scope cursor limit page h =
      let (args, e, h) = >>=-eq-ok (page_args codec cursor limit) _ h in
      let (_, _, h) = >>=-eq-ok (in_scope scope args.1) _ h in
      let (selected, _, h) =
        >>=-eq-ok (gather skip_after key_fn resource_fn (key_of args.1) args.0 [] rows) _ h in
      let (same, low, high) =
        page_limit_bounds limit args.0 (page_args_limit codec cursor limit args e) in
      let items : map (λ (s : List ℕ × B). s.1) (take args.0 selected) ≡ page.items =
        (ap items_or h) in
      let size = length-map (λ (s : List ℕ × B). s.1) (take args.0 selected) in
      let few = take_bounds args.0 selected in
      (
        args.0,
        same,
        low,
        high,
        subst (λ (bs : List B). length bs ≤ args.0) items (omega (arith, size, few)),
      )
