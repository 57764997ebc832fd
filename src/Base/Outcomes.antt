-- ===== src/Base/Outcomes.antt =====
-- A property of the value of a result that is no exception.
use mathlib.Core.Path.{◌≡◌, refl, subst}
use mathlib.Core.Bool.{Bool, true, false}
use mathlib.Core.Option.{Option, none, some}
use mathlib.Core.List.{List, [], ◌∷◌}
use banodoco_workspace_runti.Base.Tests.{if◌then◌else◌}
use banodoco_workspace_runti.Base.Errors.{Result, ok, err, ◌>>=◌, ◌>>◌, require, or_raise, Error}

abbrev pub Each {ℓ κ} : {A : Type ℓ} → (A → Type κ) → Result A → Type κ
Each P (ok a) = P a
Each P (err e) = Unit

module _ {ℓ κ} {A B : Type ℓ} where
  -- The rest of a block may use what the first step returned.
  pub Each-bind :
      (P : A → Type κ) (Q : B → Type κ) (m : Result A) (f : A → Result B)
      → Each P m
      → ((a : A) → m ≡ ok a → P a → Each Q (f a))
      → Each Q (m >>= f)
  Each-bind P Q (ok a) f h k = k a refl h
  Each-bind P Q (err e) f h k = tt

module _ {ℓ κ μ} {A : Type ℓ} where
  pub Each-map :
      (P : A → Type κ) (Q : A → Type μ) (m : Result A)
      → Each P m
      → ((a : A) → P a → Each Q (ok a))
      → Each Q m
  Each-map P Q (ok a) h k = k a h
  Each-map P Q (err e) h k = tt

module _ {ℓ κ μ} {A : Type ℓ} {B : Type κ} where
  pub Each-step :
      (Q : B → Type μ) (m : Result A) (f : A → Result B)
      → ((a : A) → m ≡ ok a → Each Q (f a))
      → Each Q (m >>= f)
  Each-step Q (ok a) f k = k a refl
  Each-step Q (err e) f k = tt

module _ {ℓ κ} {A : Type ℓ} (P : A → Type κ) where
  pub Each-ok : (m : Result A) {a : A} → Each P m → m ≡ ok a → P a
  Each-ok (ok b) h e = subst (λ r. Each P r) e h
  Each-ok (err x) h e = subst (λ r. Each P r) e h

  pub Each-require :
      (b : Bool) (e : Error) (k : Result A) → (b ≡ true → Each P k) → Each P (require b e >> k)
  Each-require true e k h = h refl
  Each-require false e k h = tt

  pub Each-if :
      (b : Bool) (m n : Result A)
      → (b ≡ true → Each P m)
      → (b ≡ false → Each P n)
      → Each P (if b then m else n)
  Each-if true m n km kn = km refl
  Each-if false m n km kn = kn refl

module _ {ℓ κ μ} {A : Type ℓ} {B : Type κ} (P : B → Type μ) where
  pub Each-or_raise :
      (o : Option A) (e : Error) (k : A → Result B)
      → ((a : A) → o ≡ some a → Each P (k a))
      → Each P (or_raise o e >>= k)
  Each-or_raise none e k h = tt
  Each-or_raise (some a) e k h = h a refl

module _ {ℓ κ μ} {A : Type ℓ} {B : Type κ} (P : A → Type μ) where
  -- The match on an option, as the commands write it.
  pub Each-option :
      (o : Option B) (n : Result A) (s : B → Result A)
      → (o ≡ none → Each P n)
      → ((b : B) → o ≡ some b → Each P (s b))
      → Each P (elim o [ none ↦ n | some b ↦ s b ])
  Each-option none n s hn hs = hn refl
  Each-option (some b) n s hn hs = hs b refl

  pub Each-list :
      (l : List B) (n : Result A) (c : B → List B → Result A)
      → (l ≡ [] → Each P n)
      → ((b : B) (bs : List B) → l ≡ b ∷ bs → Each P (c b bs))
      → Each P (elim l [ [] ↦ n | b ∷ bs ↦ c b bs ])
  Each-list [] n c hn hc = hn refl
  Each-list (b ∷ bs) n c hn hc = hc b bs refl
