-- ===== src/Service/Pages/Walk.antt =====
-- A client that follows the cursors of a collection in runtime_protocol/service.py.
use mathlib.Core.List.{append-nil, append_assoc, map-append}
use banodoco_workspace_runti.Base.{
  ℕ, zero, suc, ◌+◌, ◌≤◌, ◌<◌, ◌≡◌, refl, sym, ap, ◌∙◌, subst, Bool, true, false, ◌&&◌, Option,
  none, some, List, [], ◌∷◌, ◌++◌, map, inl, inr, arith, All, length, take, length-append,
  length-map, length-take, take-take, take-snoc, All-middle, All-mono, take-all, last-snoc,
  split_at, ltb, leb, eq_self, Bool-cases, Result, ok, err, out_of_fuel, ◌>>=◌,
}
use banodoco_workspace_runti.Json.{pos}
use banodoco_workspace_runti.Service.Pages.{
  Decoded, Codec, Cursor, absent, text, Page, page_limit, page_args, page_cursor, is_key, is_before,
  key_of, in_scope, gather, next_page, page_rows,
}

module _ {ℓ κ} {A : Type ℓ} {B : Type κ} (skip_after : List ℕ → List ℕ → Bool) (key_fn : A → List ℕ)
    (resource_fn : A → B) where
  abbrev pair : A → List ℕ × B
  pair row = (key_fn row, resource_fn row)

  -- Of two rows the first one stands on an earlier page.
  abbrev Apart : A → A → Type 0
  Apart x y =
      (skip_after (key_fn x) (key_fn y) ≡ true)
      × (skip_after (key_fn y) (key_fn x) ≡ false)
      × (length (key_fn x) ≡ length (key_fn y))

  -- The rows stand in the order of their keys, which differ.
  abbrev pub Ordered : List A → Type ℓ
  Ordered [] = Unit
  Ordered (x ∷ xs) = (skip_after (key_fn x) (key_fn x) ≡ true) × All (Apart x) xs × Ordered xs

  abbrev Answered : Bool → Option (List ℕ) → A → Type 0
  Answered b after row = is_before skip_after key_fn resource_fn after (key_fn row) ≡ ok b

  answered :
      (x z : A) (b : Bool)
      → skip_after (key_fn x) (key_fn z) ≡ b
      → length (key_fn x) ≡ length (key_fn z)
      → Answered b (some (key_fn z)) x
  answered x z b e l = rw (l, eq_self (length (key_fn z)), e) refl

  Ordered-skipped :
      (xs : List A) (z : A) (ys : List A)
      → Ordered (xs ++ z ∷ ys)
      → All (Answered true (some (key_fn z))) (xs ++ z ∷ [])
  Ordered-skipped [] z ys (same, apart, h) = (answered z z true same refl, tt)
  Ordered-skipped (x ∷ xs) z ys (same, apart, h) =
      let (before, _, l) = All-middle (Apart x) xs z ys apart in
      (answered x z true before l, Ordered-skipped xs z ys h)

  Ordered-shown :
      (xs : List A) (z : A) (ys : List A)
      → Ordered (xs ++ z ∷ ys)
      → All (Answered false (some (key_fn z))) ys
  Ordered-shown [] z ys (same, apart, h) =
      All-mono (Apart z) (Answered false (some (key_fn z))) ys
        (λ y p. answered y z false p.1 (sym p.2)) apart
  Ordered-shown (x ∷ xs) z ys (same, apart, h) = Ordered-shown xs z ys h

  gather-skipped :
      (after : Option (List ℕ)) (limit : ℕ) (xs ys : List A)
      → All (Answered true after) xs
      → gather skip_after key_fn resource_fn after limit [] (xs ++ ys)
        ≡ gather skip_after key_fn resource_fn after limit [] ys
  unfolding gather
  gather-skipped after limit [] ys h = refl
  gather-skipped after limit (x ∷ xs) ys (p, h) = rw p (gather-skipped after limit xs ys h)

  gather-shown :
      (after : Option (List ℕ)) (limit k : ℕ) (sel : List (List ℕ × B)) (ys : List A)
      → length sel + k ≡ limit
      → All (Answered false after) ys
      → gather skip_after key_fn resource_fn after limit sel ys
        ≡ ok (sel ++ take (suc k) (map pair ys))
  unfolding gather
  gather-shown after limit k sel [] e h = rw (append-nil sel) refl
  gather-shown after limit zero sel (y ∷ ys) e (p, h) =
      let longer = sel ++ pair y ∷ [] in
      let full : ltb limit (length longer) ≡ true =
        (ground (arith, length-append sel (pair y ∷ []))) in
      rw (p, full) refl
  gather-shown after limit (suc k) sel (y ∷ ys) e (p, h) =
      let longer = sel ++ pair y ∷ [] in
      let room : ltb limit (length longer) ≡ false =
        (ground (arith, length-append sel (pair y ∷ []))) in
      let sum : length longer + k ≡ limit = (omega (arith, length-append sel (pair y ∷ []))) in
      rw (p, room)
        (gather-shown after limit k longer ys sum h
          ∙ ap ok (append_assoc sel (pair y ∷ []) (take (suc k) (map pair ys))))

  items_taken :
      (n : ℕ) (ys : List A)
      → map (λ (s : List ℕ × B). s.1) (take n (take (suc n) (map pair ys)))
        ≡ map resource_fn (take n ys)
  items_taken zero ys = refl
  items_taken (suc n) [] = refl
  items_taken (suc n) (y ∷ ys) = ap (λ bs. resource_fn y ∷ bs) (items_taken n ys)

  items_split :
      (l : ℕ) (xs : List A) (z : A) (ys : List A)
      → length xs ≡ l
      → map resource_fn (take (suc l) (xs ++ z ∷ ys)) ++ map resource_fn ys
        ≡ map resource_fn (xs ++ z ∷ ys)
  items_split l xs z ys e =
      rw (← e, take-snoc xs z ys)
        (sym (map-append resource_fn (xs ++ z ∷ []) ys)
          ∙ ap (map resource_fn) (append_assoc xs (z ∷ []) ys))

  module _ (codec : Codec) (scope : ℕ) where
    abbrev rows_page : List A → Cursor → ℕ → Result (Page B)
    rows_page rows cursor limit =
        page_rows skip_after key_fn resource_fn codec rows scope cursor (some (pos limit))

    -- A page has the first rows that no earlier page had.
    page_rows-rest :
        (pre ys : List A) (cursor : Cursor) (limit : ℕ) (decoded : Option Decoded)
        → page_args codec cursor (some (pos limit)) ≡ ok (limit, decoded)
        → in_scope scope decoded ≡ ok tt
        → All (Answered true (key_of decoded)) pre
        → All (Answered false (key_of decoded)) ys
        → rows_page (pre ++ ys) cursor limit
          ≡ ok (record {
            items = map resource_fn (take limit ys);
            next_cursor =
                next_page skip_after key_fn resource_fn codec scope limit
                  (take (suc limit) (map pair ys));
          })
    unfolding page_rows
    page_rows-rest pre ys cursor limit decoded args own h k =
        rw
          (
            page_rows,
            args,
            own,
            gather-skipped (key_of decoded) limit pre ys h,
            gather-shown (key_of decoded) limit limit [] ys (omega arith) k,
            items_taken limit ys,
          )
          refl

    taken_map :
        (limit : ℕ) (xs : List A) (z : A) (ys : List A)
        → suc (length xs) ≡ limit
        → take limit (map pair (xs ++ z ∷ ys)) ≡ map pair xs ++ pair z ∷ []
    taken_map limit xs z ys e =
        subst (λ n. take n (map pair (xs ++ z ∷ ys)) ≡ map pair xs ++ pair z ∷ [])
          (ap suc (length-map pair xs) ∙ e)
          (ap (take (suc (length (map pair xs)))) (map-append pair xs (z ∷ ys))
            ∙ take-snoc (map pair xs) (pair z) (map pair ys))

    -- The last page.
    next_page-end :
        (limit : ℕ) (ys : List A)
        → length ys ≤ limit
        → next_page skip_after key_fn resource_fn codec scope limit (take (suc limit) (map pair ys))
          ≡ none
    next_page-end limit ys h =
        let l : length (map pair ys) ≤ suc limit = (omega (arith, length-map pair ys)) in
        let short : ltb limit (length (map pair ys)) ≡ false =
          (ground (arith, length-map pair ys)) in
        rw (take-all (suc limit) (map pair ys) l, short) refl

    -- A page with more to come.
    next_page-more :
        (limit : ℕ) (xs : List A) (z : A) (ys : List A)
        → suc (length xs) ≡ limit
        → 1 ≤ length ys
        → next_page skip_after key_fn resource_fn codec scope limit
            (take (suc limit) (map pair (xs ++ z ∷ ys)))
          ≡ some (page_cursor codec scope (key_fn z) false)
    next_page-more limit xs z ys e h =
        let m = map pair (xs ++ z ∷ ys) in
        let size : length m ≡ length xs + suc (length ys) =
          (length-map pair (xs ++ z ∷ ys) ∙ length-append xs (z ∷ ys)) in
        let l : suc limit ≤ length m = (omega arith) in
        let long : ltb limit (length (take (suc limit) m)) ≡ true =
          (ground (arith, length-take (suc limit) m l)) in
        rw (long, take-take limit m, taken_map limit xs z ys e, last-snoc (map pair xs) (pair z))
          refl

    -- A client that asks for pages until no cursor comes back, `n` times at most.
    unfoldable pub follow : (n : ℕ) → List A → Cursor → ℕ → Result (List B)
    follow zero rows cursor limit = err out_of_fuel
    follow (suc n) rows cursor limit = do
      page ← rows_page rows cursor limit
      elim page.next_cursor [
        | none ↦ ok page.items
        | some t ↦ do rest ← follow n rows (text t) limit; ok (page.items ++ rest)
      ]

    abbrev cursor_of : A → Decoded
    cursor_of row = record {
      version = some 1;
      scope = some scope;
      key = some (key_fn row);
      numeric = false;
    }

    -- The cursor of a row is read as it was written, and its key has a part.
    abbrev pub Readable : A → Type 0
    Readable row =
        (codec.read (page_cursor codec scope (key_fn row) false) ≡ some (cursor_of row))
        × (is_key (some (key_fn row)) ≡ true)

    page_limit-some : (l : ℕ) → suc l ≤ 200 → page_limit (some (pos (suc l))) ≡ ok (suc l)
    unfolding page_limit
    page_limit-some l small =
        let fits : (leb 1 (suc l) && leb (suc l) 200) ≡ true = (ground (arith, small)) in
        rw fits refl

    page_args-absent :
        (l : ℕ) → suc l ≤ 200 → page_args codec absent (some (pos (suc l))) ≡ ok (suc l, none)
    unfolding page_args
    page_args-absent l small = rw (page_limit-some l small) refl

    page_args-text :
        (l : ℕ) (z : A)
        → suc l ≤ 200
        → Readable z
        → page_args codec (text (page_cursor codec scope (key_fn z) false)) (some (pos (suc l)))
          ≡ ok (suc l, some (cursor_of z))
    unfolding page_args
    page_args-text l z small (read, keyed) = rw (page_limit-some l small, read, keyed) refl

    follow-end :
        (n l : ℕ) (pre ys : List A) (cursor : Cursor) (decoded : Option Decoded)
        → length ys ≤ suc l
        → page_args codec cursor (some (pos (suc l))) ≡ ok (suc l, decoded)
        → in_scope scope decoded ≡ ok tt
        → All (Answered true (key_of decoded)) pre
        → All (Answered false (key_of decoded)) ys
        → follow (suc n) (pre ++ ys) cursor (suc l) ≡ ok (map resource_fn ys)
    unfolding follow
    follow-end n l pre ys cursor decoded fits args own h k =
        rw
          (
            page_rows-rest pre ys cursor (suc l) decoded args own h k,
            next_page-end (suc l) ys fits,
            take-all (suc l) ys fits,
          )
          refl

    follow-more :
        (n l : ℕ) (pre xs : List A) (z : A) (ys : List A) (cursor : Cursor)
        (decoded : Option Decoded)
        → length xs ≡ l
        → 1 ≤ length ys
        → page_args codec cursor (some (pos (suc l))) ≡ ok (suc l, decoded)
        → in_scope scope decoded ≡ ok tt
        → All (Answered true (key_of decoded)) pre
        → All (Answered false (key_of decoded)) (xs ++ z ∷ ys)
        → follow n (pre ++ (xs ++ z ∷ ys)) (text (page_cursor codec scope (key_fn z) false)) (suc l)
          ≡ ok (map resource_fn ys)
        → follow (suc n) (pre ++ (xs ++ z ∷ ys)) cursor (suc l)
          ≡ ok (map resource_fn (xs ++ z ∷ ys))
    unfolding follow
    follow-more n l pre xs z ys cursor decoded e many args own h k rest =
        let page = page_rows-rest pre (xs ++ z ∷ ys) cursor (suc l) decoded args own h k in
        rw (page, next_page-more (suc l) xs z ys (ap suc e) many, rest)
          (ap ok (items_split l xs z ys e))

    follow-rest :
        (l : ℕ)
        → suc l ≤ 200
        → (n : ℕ) (pre ys : List A) (cursor : Cursor) (decoded : Option Decoded) → length ys < n
        → Ordered (pre ++ ys)
        → All Readable (pre ++ ys)
        → page_args codec cursor (some (pos (suc l))) ≡ ok (suc l, decoded)
        → in_scope scope decoded ≡ ok tt
        → All (Answered true (key_of decoded)) pre
        → All (Answered false (key_of decoded)) ys
        → follow n (pre ++ ys) cursor (suc l) ≡ ok (map resource_fn ys)
    follow-rest l small zero pre ys cursor decoded enough sorted readable args own h k =
        absurd (omega (arith, enough))
    follow-rest l small (suc n) pre ys cursor decoded enough sorted readable args own h k =
        elim (Bool-cases (leb (length ys) (suc l))) [
          | inl fits ↦ follow-end n l pre ys cursor decoded (ground (arith, fits)) args own h k
          | inr long ↦
              let more : suc l < length ys = (ground (arith, long)) in
              let (xs, z, zs, e, size) = split_at l ys (omega arith) in
              let here = (pre ++ xs) ++ z ∷ [] in
              let parts : pre ++ ys ≡ (pre ++ xs) ++ z ∷ zs =
                (ap (λ ws. pre ++ ws) e ∙ sym (append_assoc pre xs (z ∷ zs))) in
              let joined : (pre ++ xs) ++ z ∷ zs ≡ here ++ zs =
                (sym (append_assoc (pre ++ xs) (z ∷ []) zs)) in
              let back : here ++ zs ≡ pre ++ (xs ++ z ∷ zs) =
                (sym joined ∙ append_assoc pre xs (z ∷ zs)) in
              let sizes : length ys ≡ length xs + suc (length zs) =
                (ap length e ∙ length-append xs (z ∷ zs)) in
              let sorted' = subst Ordered parts sorted in
              let readable' = subst (All Readable) parts readable in
              let rest =
                follow-rest l small n here zs (text (page_cursor codec scope (key_fn z) false))
                  (some (cursor_of z)) (omega arith) (subst Ordered joined sorted')
                  (subst (All Readable) joined readable')
                  (page_args-text l z small (All-middle Readable (pre ++ xs) z zs readable'))
                  (rw (eq_self scope) refl) (Ordered-skipped (pre ++ xs) z zs sorted')
                  (Ordered-shown (pre ++ xs) z zs sorted') in
              subst (λ ws. follow (suc n) (pre ++ ws) cursor (suc l) ≡ ok (map resource_fn ws))
                (sym e)
                (follow-more n l pre xs z zs cursor decoded size (omega arith) args own h
                  (subst (All (Answered false (key_of decoded))) e k)
                  (subst
                    (λ rows.
                      follow n rows (text (page_cursor codec scope (key_fn z) false)) (suc l)
                      ≡ ok (map resource_fn zs))
                    back rest))
        ]

    All-fresh : (rows : List A) → All (Answered false none) rows
    All-fresh [] = tt
    All-fresh (x ∷ xs) = (refl, All-fresh xs)

    -- If the rows stand in the order of their keys and cursors are read as they were written, a
    -- client that follows the cursors from the first page gets every row once and in order, with any
    -- limit from 1 to 200, in at most one page more than there are rows.
    pub follow_complete :
        (rows : List A) (limit : ℕ)
        → 1 ≤ limit
        → limit ≤ 200
        → Ordered rows
        → All Readable rows
        → follow (suc (length rows)) rows absent limit ≡ ok (map resource_fn rows)
    follow_complete rows zero some_rows small sorted readable = absurd (omega (arith, some_rows))
    follow_complete rows (suc l) some_rows small sorted readable =
        follow-rest l small (suc (length rows)) [] rows absent none (omega arith) sorted readable
          (page_args-absent l small) refl tt (All-fresh rows)
