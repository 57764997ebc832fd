-- ===== src/Base/Errors.antt =====
-- runtime_protocol/errors.py: the exceptions that the modelled commands raise, as values. A command
-- that raises rolls its transaction back, so an error carries no state.
use mathlib.Core.Path.{◌≡◌, refl}
use mathlib.Core.Bool.{Bool, true, false}
use mathlib.Core.Option.{Option, none, some}

-- `integrity` is sqlite3.IntegrityError, `os_error` an OSError; `out_of_fuel` is no exception of the program: it
-- marks a recursion that the model cut short.
pub data Error : Type 0 where
  validation conflict lease not_found invalid_request window_expired authorization : Error
  integrity os_error : Error
  out_of_fuel : Error

-- What a command returns, or the exception that it raises.
pub data Result {κ} (Value : Type κ) : Type κ where
  err : (raised : Error) → Result Value
  ok : (value : Value) → Result Value

infixl 5 ◌>>=◌ ◌>>◌
abbrev pub ◌>>=◌ {κ μ} :
    {Before : Type κ} {After : Type μ} → Result Before → (Before → Result After) → Result After
err raised >>= rest = err raised
ok value >>= rest = rest value

abbrev pub ◌>>◌ {μ} : {After : Type μ} → Result (Unit {0}) → Result After → Result After
step >> rest = step >>= λ done. rest

-- `if not test: raise e`
abbrev pub require : Bool → Error → Result (Unit {0})
require true e = ok tt
require false e = err e

abbrev pub or_raise {ℓ} : {A : Type ℓ} → Option A → Error → Result A
or_raise none e = err e
or_raise (some a) e = ok a

-- A block that returns has a first step that returned.
pub >>=-eq-ok {κ μ} :
    {Before : Type κ} {After : Type μ} (step : Result Before) (rest : Before → Result After)
    {end : After}
    → (step >>= rest) ≡ ok end
    → (value : Before) × (step ≡ ok value) × (rest value ≡ ok end)
>>=-eq-ok (err raised) rest h = cc
>>=-eq-ok (ok value) rest h = (value, refl, h)

pub or_raise-eq-ok {ℓ κ} :
    {A : Type ℓ} {B : Type κ} (o : Option A) (e : Error) (f : A → Result B) {b : B}
    → (or_raise o e >>= f) ≡ ok b
    → (a : A) × (o ≡ some a) × (f a ≡ ok b)
or_raise-eq-ok none e f h = cc
or_raise-eq-ok (some a) e f h = (a, refl, h)
