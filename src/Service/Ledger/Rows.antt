-- ===== src/Service/Ledger/Rows.antt =====
-- The row of one key in the command ledger, through inserts and through sweeps of results.
use banodoco_workspace_runti.Base.{
  ℕ, zero, suc, ◌≡◌, refl, ap, ◌∙◌, Bool, true, false, not, some, List, [], ◌∷◌, ◌++◌, ◌⊎◌, inl,
  inr, Bool-cases, first, any, arith, eq_self, ok, ◌>>◌, require, integrity,
}
use banodoco_workspace_runti.Service.Compact.{Kind}
use banodoco_workspace_runti.Service.Ledger.{
  Entry, Outside, has_key, code, update_some, expire, insert,
}

module _ {ℓ} {A : Type ℓ} (p : A → Bool) where
  pub first-append : (xs ys : List A) (a : A) → first p xs ≡ some a → first p (xs ++ ys) ≡ some a
  unfolding first
  first-append [] ys a h = cc
  first-append (x ∷ xs) ys a h = ground (arith, first-append xs ys a)

  pub first-append_new :
      (xs : List A) (a : A) → any p xs ≡ false → p a ≡ true → first p (xs ++ a ∷ []) ≡ some a
  unfolding first any
  first-append_new [] a h k = ground arith
  first-append_new (x ∷ xs) a h k = ground (arith, first-append_new xs a)

  pub any-first : (xs : List A) (a : A) → first p xs ≡ some a → any p xs ≡ true
  unfolding first any
  any-first [] a h = absurd (ground (arith, h))
  any-first (x ∷ xs) a h = ground (arith, any-first xs a)

  module _ (q : A → Bool) (f : A → A) (keep : (x : A) → p (f x) ≡ p x) where
    -- A row that the update does not select stays.
    pub first-update_some :
        (n : ℕ) (xs : List A) (a : A)
        → first p xs ≡ some a
        → q a ≡ false
        → first p (update_some n q f xs) ≡ some a
    unfolding first update_some
    first-update_some n [] a h k = cc
    first-update_some zero (x ∷ xs) a h k = h
    first-update_some (suc n) (x ∷ xs) a h k =
        ground (arith, keep x, first-update_some n xs a, first-update_some (suc n) xs a)

    -- Any row stays or is updated.
    pub first-update_either :
        (n : ℕ) (xs : List A) (a : A)
        → first p xs ≡ some a
        → (b : A) × (first p (update_some n q f xs) ≡ some b) × ((b ≡ a) ⊎ (b ≡ f a))
    unfolding first update_some
    first-update_either n [] a h = absurd (ground (arith, h))
    first-update_either zero (x ∷ xs) a h = (a, h, inl refl)
    first-update_either (suc n) (x ∷ xs) a h = elim (Bool-cases (p x)) [
      | inl e ↦
          let same : x ≡ a = (ground (arith, h)) in
          elim (Bool-cases (q x)) [
            | inl u ↦ (f x, rw u (ground (arith, keep x)), inr (ap f same))
            | inr u ↦ (x, rw u (ground arith), inl same)
          ]
      | inr e ↦
          let rest : first p xs ≡ some a = (ground arith) in
          elim (Bool-cases (q x)) [
            | inl u ↦
                let (b, found, which) = first-update_either n xs a rest in
                (b, rw u (ground (arith, keep x)), which)
            | inr u ↦
                let (b, found, which) = first-update_either (suc n) xs a rest in
                (b, rw u (ground arith), which)
          ]
    ]

module _ (kind : Kind) (aggregate key hash : ℕ) where
  abbrev pub mine : Entry → Bool
  mine = has_key kind aggregate key

  -- The table has the key, under this request hash.
  abbrev pub KnownIn : List Entry → Type 0
  KnownIn es = (e : Entry) × (first mine es ≡ some e) × (e.request_hash ≡ hash)

  pub KnownIn-append : (xs ys : List Entry) → KnownIn xs → KnownIn (xs ++ ys)
  KnownIn-append xs ys h = let (e, found, same) = h in (e, first-append mine xs ys e found, same)

  pub KnownIn-sweep :
      (o : Outside) (n : ℕ) (q : Entry → Bool) (xs : List Entry)
      → KnownIn xs
      → KnownIn (update_some n q (expire o) xs)
  KnownIn-sweep o n q xs h =
      let (e, found, same) = h in
      let (b, there, which) = first-update_either mine q (expire o) (λ x. refl) n xs e found in
      (b, there, kept b e which ∙ same)
    where
      kept : (b e : Entry) → (b ≡ e) ⊎ (b ≡ expire o e) → b.request_hash ≡ e.request_hash
      kept b e (inl s) = ap (λ (x : Entry). x.request_hash) s
      kept b e (inr s) = ap (λ (x : Entry). x.request_hash) s

-- What an insert that the primary key allows leaves.
pub insert-row :
    (e : Entry) (es fs : List Entry)
    → insert e es ≡ ok fs
    → (fs ≡ es ++ e ∷ []) × (first (has_key e.kind e.aggregate_id e.key) fs ≡ some e)
unfolding insert
insert-row e es fs h = elim (Bool-cases (any (has_key e.kind e.aggregate_id e.key) es)) [
  | inl u ↦ absurd (ground (arith, h, u))
  | inr u ↦
      let same : fs ≡ es ++ e ∷ [] = added (any (has_key e.kind e.aggregate_id e.key) es) u h in
      (
        same,
        rw same (
            first-append_new (has_key e.kind e.aggregate_id e.key) es e u
              (rw (eq_self (code e.kind), eq_self e.aggregate_id, eq_self e.key) refl)),
      )
]
  where
    added :
        (b : Bool)
        → b ≡ false
        → (require (not b) integrity >> ok (es ++ e ∷ [])) ≡ ok fs
        → fs ≡ es ++ e ∷ []
    added true u k = cc
    added false u k = cc
