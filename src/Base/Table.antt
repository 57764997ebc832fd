-- ===== src/Base/Table.antt =====
-- A table of the realm database as the list of its rows, with the SQL statements that the store
-- uses on it: a row by condition, rows by condition, UPDATE … WHERE, COUNT and EXISTS.
use Prim.Native.Nat.{ℕ, ◌+◌}
use mathlib.Core.Path.{◌≡◌, refl}
use mathlib.Core.Bool.{Bool, true, false, not, ◌||◌, ◌&&◌}
use mathlib.Core.Option
use mathlib.Core.Option.{Option, none, some}
use mathlib.Core.List.{List, [], ◌∷◌}
use native.Mathlib.Omega.{arith}
use banodoco_workspace_runti.Base.Tests.{if◌then◌else◌}

abbrev pub All {ℓ κ} : {A : Type ℓ} → (A → Type κ) → List A → Type κ
All P [] = Unit
All P (x ∷ xs) = P x × All P xs

module _ {ℓ} {A : Type ℓ} where
  -- SELECT … WHERE p, fetchone()
  unfoldable pub first : (A → Bool) → List A → Option A
  first p [] = none
  first p (x ∷ xs) = if p x then some x else first p xs

  -- SELECT … WHERE p, fetchall()
  unfoldable pub select : (A → Bool) → List A → List A
  select p [] = []
  select p (x ∷ xs) = let rest = select p xs in if p x then x ∷ rest else rest

  -- UPDATE … SET f WHERE p
  unfoldable pub update : (A → Bool) → (A → A) → List A → List A
  update p f [] = []
  update p f (x ∷ xs) = (if p x then f x else x) ∷ update p f xs

  -- SELECT COUNT(*) … WHERE p
  unfoldable pub count : (A → Bool) → List A → ℕ
  count p [] = 0
  count p (x ∷ xs) = (if p x then 1 else 0) + count p xs

  unfoldable pub any : (A → Bool) → List A → Bool
  any p [] = false
  any p (x ∷ xs) = p x || any p xs

  unfoldable pub all : (A → Bool) → List A → Bool
  all p [] = true
  all p (x ∷ xs) = p x && all p xs

  -- INSERT … ON CONFLICT(key) DO UPDATE: `same` tells a row with the key of the new one.
  unfoldable pub upsert : (A → Bool) → (A → A) → A → List A → List A
  upsert same f r [] = r ∷ []
  upsert same f r (x ∷ xs) = if same x then f x ∷ xs else x ∷ upsert same f r xs

module _ {ℓ} {A : Type ℓ} (p q : A → Bool) (f : A → A) where
  -- An update that leaves the key alone, seen through the key.
  pub first-update :
      (xs : List A)
      → ((a : A) → p (f a) ≡ p a)
      → first p (update q f xs) ≡ Option.map (λ a. if q a then f a else a) (first p xs)
  unfolding first update
  first-update [] keep = refl
  first-update (x ∷ xs) keep = ground (arith, keep x, first-update xs keep)

module _ {ℓ κ} {A : Type ℓ} {P : A → Type κ} where
  pub All-update :
      (p : A → Bool) (f : A → A) (xs : List A)
      → ((a : A) → p a ≡ true → P a → P (f a))
      → All P xs
      → All P (update p f xs)
  unfolding update
  All-update p f [] keep h = tt
  All-update p f (x ∷ xs) keep h = ground (arith, keep x, All-update p f xs keep)

module _ {ℓ} {A : Type ℓ} where
  pub first-holds : (p : A → Bool) (xs : List A) (a : A) → first p xs ≡ some a → p a ≡ true
  unfolding first
  first-holds p [] a e = cc
  first-holds p (x ∷ xs) a e = ground (arith, first-holds p xs a)

module _ {ℓ} {A : Type ℓ} (p q : A → Bool) (f : A → A) where
  -- An update that leaves the answer of a test alone, row by row.
  pub any-update :
      (answer : Bool) (xs : List A)
      → ((x : A) → q x ≡ true → p x ≡ answer → p (f x) ≡ answer)
      → any p xs ≡ answer
      → any p (update q f xs) ≡ answer
  unfolding any update
  any-update answer [] keep h = h
  any-update true (x ∷ xs) keep h = ground (arith, keep x, any-update true xs keep)
  any-update false (x ∷ xs) keep h = ground (arith, keep x, any-update false xs keep)

module _ {ℓ} {A : Type ℓ} (p q : A → Bool) where
  pub any-implied :
      (xs : List A) → ((x : A) → p x ≡ false → q x ≡ false) → any p xs ≡ false → any q xs ≡ false
  unfolding any
  any-implied [] k h = refl
  any-implied (x ∷ xs) k h = ground (arith, k x, any-implied xs k)

  pub any-all : (xs : List A) → all p xs ≡ true → any (λ x. q x && not (p x)) xs ≡ false
  unfolding any all
  any-all [] h = refl
  any-all (x ∷ xs) h = ground (arith, any-all xs)
