-- ===== src/Facts/Printed.antt =====
-- Normalized execution facts as JSON again, as runtime_protocol/store.py stores them with an executor.
use Prim.Native.String.{String}
use text.Mathlib.Text.{◌==◌ as str_eq}
use banodoco_workspace_runti.Base.{
  ℕ, ◌≡◌, refl, subst, Bool-cases, inl, inr, Bool, true, false, ◌||◌, Option, none, some, List, [],
  ◌∷◌, arith, Result, ok, err, validation, ◌>>◌, require, >>=-eq-ok,
}
use banodoco_workspace_runti.Json.{
  Json, Fields, end, field, object, str, int, pos, get, keys_within,
}
use banodoco_workspace_runti.Facts.{
  Fact, named, numbered, Facts, exact_fact, exact_facts, bounded_int, minimum_facts, sub_object,
  normalize_execution_facts, is_exact_key, is_minimum_key,
}

abbrev pub json_of_fact : Fact → Json
json_of_fact (named s) = str s
json_of_fact (numbered n) = int (pos n)

unfoldable pub exact_fields : List (String × Fact) → Fields
exact_fields [] = end
exact_fields ((k, fact) ∷ rest) = field k (json_of_fact fact) (exact_fields rest)

unfoldable pub minimum_fields : List (String × ℕ) → Fields
minimum_fields [] = end
minimum_fields ((k, n) ∷ rest) = field k (int (pos n)) (minimum_fields rest)

-- {"exact": …, "minimum": …}
unfoldable pub json_of : Facts → Json
unfolding exact_fields minimum_fields
json_of f = object (
    field "exact" (object (exact_fields f.exact))
      (field "minimum" (object (minimum_fields f.minimum)) end))

no_fact : (x : Fact) → ¬ (err validation ≡ ok x)
no_fact x h = cc

named_fact :
    (p : Bool) (s : String) (x : Fact)
    → str_eq s "" ≡ false
    → ok (named s) ≡ ok x
    → exact_fact p (json_of_fact x) ≡ ok x
unfolding exact_fact
named_fact p s (named t) e h =
    let same : s ≡ t = cc in rw (subst (λ u. str_eq u "" ≡ false) same e) refl
named_fact p s (numbered n) e h = cc

numbered_fact :
    (n : ℕ) (x : Fact)
    → exact_fact true (int (pos n)) ≡ ok x
    → exact_fact true (json_of_fact x) ≡ ok x
unfolding exact_fact
numbered_fact n (numbered m) h = ground arith
numbered_fact n (named t) h = ground arith

exact_fact-json :
    (p : Bool) (v : Json) (x : Fact) → exact_fact p v ≡ ok x → exact_fact p (json_of_fact x) ≡ ok x
unfolding exact_fact
exact_fact-json p (str s) x h = elim (Bool-cases (str_eq s "")) [
  | inl e ↦ absurd (no_fact x (subst (λ r. r ≡ ok x) (rw e refl) h))
  | inr e ↦ named_fact p s x e (subst (λ r. r ≡ ok x) (rw e refl) h)
]
exact_fact-json true (int (pos n)) x h = numbered_fact n x h
exact_fact-json p v x h = cc

bounded_int-json : (v : Json) (n : ℕ) → bounded_int v ≡ ok n → bounded_int (int (pos n)) ≡ ok n
unfolding bounded_int
bounded_int-json v n h = ground arith

module _ (allowed : String → Bool) where
  -- Printing the facts of a dict gives the dict's keys back, and the same facts.
  exact_facts-json :
      (fs : Fields) (xs : List (String × Fact))
      → keys_within allowed fs ≡ true
      → exact_facts fs ≡ ok xs
      → (keys_within allowed (exact_fields xs) ≡ true) × (exact_facts (exact_fields xs) ≡ ok xs)
  unfolding keys_within exact_facts exact_fields
  exact_facts-json end xs k h = let same : xs ≡ [] = cc in rw same (refl, refl)
  exact_facts-json (field j v fs) xs k h =
      let (x, hx, h) = >>=-eq-ok (exact_fact (str_eq j "port") v) _ h in
      let (rest, hr, h) = >>=-eq-ok (exact_facts fs) _ h in
      let (kr, r) = exact_facts-json fs rest (ground (arith, k)) hr in
      let same : xs ≡ (j, x) ∷ rest = cc in
      let fact = exact_fact-json (str_eq j "port") v x hx in
      let key : allowed j ≡ true = (ground (arith, k)) in
      rw same (rw (key, kr) refl, rw fact (rw r refl))

  minimum_facts-json :
      (fs : Fields) (xs : List (String × ℕ))
      → keys_within allowed fs ≡ true
      → minimum_facts fs ≡ ok xs
      → (keys_within allowed (minimum_fields xs) ≡ true)
        × (minimum_facts (minimum_fields xs) ≡ ok xs)
  unfolding keys_within minimum_facts minimum_fields
  minimum_facts-json end xs k h = let same : xs ≡ [] = cc in rw same (refl, refl)
  minimum_facts-json (field j v fs) xs k h =
      let (x, hx, h) = >>=-eq-ok (bounded_int v) _ h in
      let (rest, hr, h) = >>=-eq-ok (minimum_facts fs) _ h in
      let (kr, r) = minimum_facts-json fs rest (ground (arith, k)) hr in
      let same : xs ≡ (j, x) ∷ rest = cc in
      let fact = bounded_int-json v x hx in
      let key : allowed j ≡ true = (ground (arith, k)) in
      rw same (rw (key, kr) refl, rw fact (rw r refl))

keys-unit :
    (b : Bool)
    → (m : Result Facts) (f : Facts) → (require b validation >> m) ≡ ok f
    → (b ≡ true) × (m ≡ ok f)
keys-unit true m f h = (refl, h)
keys-unit false m f h = cc

-- value.get(key, {})
abbrev pub or_empty : Option Json → Json
or_empty none = object end
or_empty (some v) = v

sub_object-or_empty :
    (o : Option Json) (fs : Fields) → sub_object o ≡ ok fs → or_empty o ≡ object fs
unfolding sub_object
sub_object-or_empty none fs h = cc
sub_object-or_empty (some (object gs)) fs h = cc
sub_object-or_empty (some v) fs h = cc

exact_fact-kept : (p : Bool) (v : Json) (x : Fact) → exact_fact p v ≡ ok x → json_of_fact x ≡ v
unfolding exact_fact
exact_fact-kept p (str s) x h = elim (Bool-cases (str_eq s "")) [
  | inl e ↦ absurd (no_fact x (subst (λ r. r ≡ ok x) (rw e refl) h))
  | inr e ↦
      let k : ok (named s) ≡ ok x = (subst (λ r. r ≡ ok x) (rw e refl) h) in
      let same : x ≡ named s = cc in rw same refl
]
exact_fact-kept true (int (pos n)) x h = let same : x ≡ numbered n = (ground arith) in rw same refl
exact_fact-kept p v x h = cc

bounded_int-kept : (v : Json) (n : ℕ) → bounded_int v ≡ ok n → int (pos n) ≡ v
unfolding bounded_int
bounded_int-kept (int (pos m)) n h = let same : n ≡ m = (ground arith) in rw same refl
bounded_int-kept v n h = cc

-- No fact is left out, changed or moved.
exact_facts-kept :
    (fs : Fields) (xs : List (String × Fact)) → exact_facts fs ≡ ok xs → exact_fields xs ≡ fs
unfolding exact_facts exact_fields
exact_facts-kept end xs h = let same : xs ≡ [] = cc in rw same refl
exact_facts-kept (field j v fs) xs h =
    let (x, hx, h) = >>=-eq-ok (exact_fact (str_eq j "port") v) _ h in
    let (rest, hr, h) = >>=-eq-ok (exact_facts fs) _ h in
    let same : xs ≡ (j, x) ∷ rest = cc in
    rw same (rw (exact_fact-kept (str_eq j "port") v x hx, exact_facts-kept fs rest hr) refl)

minimum_facts-kept :
    (fs : Fields) (xs : List (String × ℕ)) → minimum_facts fs ≡ ok xs → minimum_fields xs ≡ fs
unfolding minimum_facts minimum_fields
minimum_facts-kept end xs h = let same : xs ≡ [] = cc in rw same refl
minimum_facts-kept (field j v fs) xs h =
    let (x, hx, h) = >>=-eq-ok (bounded_int v) _ h in
    let (rest, hr, h) = >>=-eq-ok (minimum_facts fs) _ h in
    let same : xs ≡ (j, x) ∷ rest = cc in
    rw same (rw (bounded_int-kept v x hx, minimum_facts-kept fs rest hr) refl)

-- Facts that were accepted are those that the object named, with every key and value in their order:
-- printed, they are its two dicts, an absent one being empty. As they are stored they are accepted
-- again, and mean the same facts.
pub normalize-json_of :
    (v : Json) (f : Facts)
    → normalize_execution_facts v ≡ ok f
    → (fs : Fields) × (v ≡ object fs)
      × (or_empty (get "exact" fs) ≡ object (exact_fields f.exact))
      × (or_empty (get "minimum" fs) ≡ object (minimum_fields f.minimum))
      × (normalize_execution_facts (json_of f) ≡ ok f)
unfolding normalize_execution_facts json_of sub_object keys_within get
normalize-json_of (object fs) f h =
    let (_, h) = keys-unit (keys_within (λ k. str_eq k "exact" || str_eq k "minimum") fs) _ f h in
    let (exact, he, h) = >>=-eq-ok (sub_object (get "exact" fs)) _ h in
    let (minimum, hm, h) = >>=-eq-ok (sub_object (get "minimum" fs)) _ h in
    let (ke, h) = keys-unit (keys_within is_exact_key exact) _ f h in
    let (km, h) = keys-unit (keys_within is_minimum_key minimum) _ f h in
    let (xs, hx, h) = >>=-eq-ok (exact_facts exact) _ h in
    let (ns, hn, h) = >>=-eq-ok (minimum_facts minimum) _ h in
    let same : f ≡ record { exact = xs; minimum = ns } = cc in
    let (kx, rx) = exact_facts-json is_exact_key exact xs ke hx in
    let (kn, rn) = minimum_facts-json is_minimum_key minimum ns km hn in
    let whole_exact = exact_facts-kept exact xs hx in
    let whole_minimum = minimum_facts-kept minimum ns hn in
    (
      fs,
      refl,
      rw (same, whole_exact) (sub_object-or_empty (get "exact" fs) exact he),
      rw (same, whole_minimum) (sub_object-or_empty (get "minimum" fs) minimum hm),
      rw same (rw (kx, kn, rx, rn) refl),
    )
normalize-json_of v f h = cc
