-- ===== src/Prelude/Result.antt =====
-- What a C++ call comes to: its value, or the exception that leaves it. `null_pointer` and
-- `too_deep` are no exceptions: a null pointer that is read, and a recursion that does not end,
-- are undefined behaviour, which no handler catches.
use mathlib.Core.Path.{◌≡◌, refl}
use mathlib.Core.Logic.{◌⊎◌, inl, inr}
use mathlib.Core.Bool.{Bool, true, false}

pub data Error : Type 0 where
  invalid_argument runtime_error range_error out_of_range : Error
  id_mismatch cannot_lock no_tx_available no_rx_available : Error
  no_duty_cycle_budget_left : Error
  null_pointer too_deep : Error

pub data Result {ℓ} (A : Type ℓ) : Type ℓ where
  ok : A → Result A
  err : Error → Result A

-- `catch (const std::exception&)`
abbrev pub is_exception : Error → Bool
is_exception null_pointer = false
is_exception too_deep = false
is_exception _ = true

-- `catch (const std::invalid_argument&)`: `id_mismatch` and `cannot_lock` derive from it.
abbrev pub is_invalid_argument : Error → Bool
is_invalid_argument invalid_argument = true
is_invalid_argument id_mismatch = true
is_invalid_argument cannot_lock = true
is_invalid_argument _ = false

abbrev pub is_id_mismatch : Error → Bool
is_id_mismatch id_mismatch = true
is_id_mismatch _ = false

abbrev pub is_cannot_lock : Error → Bool
is_cannot_lock cannot_lock = true
is_cannot_lock _ = false

-- `catch (const std::runtime_error&)`, and the exceptions that derive from it
abbrev pub is_runtime_error : Error → Bool
is_runtime_error runtime_error = true
is_runtime_error range_error = true
is_runtime_error no_tx_available = true
is_runtime_error no_rx_available = true
is_runtime_error no_duty_cycle_budget_left = true
is_runtime_error _ = false

-- `catch (const std::range_error&)`
abbrev pub is_range_error : Error → Bool
is_range_error range_error = true
is_range_error _ = false

infixl 5 ◌>>=◌
abbrev pub ◌>>=◌ {ℓ κ} : {A : Type ℓ} {B : Type κ} → Result A → (A → Result B) → Result B
ok a >>= f = f a
err e >>= f = err e

abbrev pub guard : Bool → Error → Result (Unit {0})
guard true e = ok tt
guard false e = err e

-- To split on a result and keep the equation.
pub Result-cases {ℓ} :
    {A : Type ℓ} (r : Result A) → ((a : A) × (r ≡ ok a)) ⊎ ((e : Error) × (r ≡ err e))
Result-cases (ok a) = inl (a, refl)
Result-cases (err e) = inr (e, refl)
