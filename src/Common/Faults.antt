-- ===== src/Common/Faults.antt =====
-- The result of code that may fail: what C++ leaves undefined, what it throws, and fuel.
use mathlib.Core.Path.{◌≡◌, refl}

pub data Fault : Type 0 where
  -- a read or write outside the storage, a null pointer, a signed overflow
  out_of_bounds null_pointer int_overflow : Fault
  -- std::length_error, std::out_of_range, std::invalid_argument
  length_error out_of_range invalid_argument : Fault
  -- the model ran out of fuel
  no_fuel : Fault
  -- a variable that was never set
  uninitialised : Fault

pub data Result {ℓ} (A : Type ℓ) : Type ℓ where
  err : Fault → Result A
  ok : A → Result A

-- The first fault of a chain is its result.
infixl 5 ◌>>=◌
abbrev pub ◌>>=◌ {ℓ ℓ'} :
    {A : Type ℓ} {B : Type ℓ'} (run : Result A) (next : A → Result B) → Result B
err fault >>= next = err fault
ok value >>= next = next value

-- A chain that succeeds has succeeded in both parts.
pub >>=-eq-ok {ℓ ℓ'} :
    {A : Type ℓ} {B : Type ℓ'} {result : B} (run : Result A) (next : A → Result B)
    → (run >>= next) ≡ ok result
    → (value : A) × (run ≡ ok value) × (next value ≡ ok result)
>>=-eq-ok (err fault) next e = cc
>>=-eq-ok (ok value) next e = (value, refl, e)
