-- ===== src/Prelude/Calls.antt =====
-- Calls that change a state of any type: they return the new state with the result, and an
-- exception does not undo what was written before it.
use mathlib.Core.Bool.{Bool}
use ldacs_mcsotdma.Prelude.Tests.{if◌then◌else◌}
use ldacs_mcsotdma.Prelude.Result.{Result, ok, err, Error}

abbrev pub Call : Type 0 → Type 0 → Type 0
Call S A = S → Result A × S

module _ {S : Type 0} where
  abbrev pub returns : {A : Type 0} → A → Call S A
  returns a s = (ok a, s)

  abbrev pub throws : {A : Type 0} → Error → Call S A
  throws e s = (err e, s)

  abbrev pub proceed : {A B : Type 0} → (A → Call S B) → Result A × S → Result B × S
  proceed f (ok a, s) = f a s
  proceed f (err e, s) = (err e, s)

  infixl 5 ◌>>=◌ ◌>>◌
  abbrev pub ◌>>=◌ : {A B : Type 0} → Call S A → (A → Call S B) → Call S B
  ◌>>=◌ m f s = proceed f (m s)

  abbrev pub ◌>>◌ : {A B : Type 0} → Call S A → Call S B → Call S B
  m >> k = m >>= λ _. k

  -- A call of a `const` method.
  abbrev pub asks : {A : Type 0} → (S → Result A) → Call S A
  asks f s = (f s, s)

  abbrev pub changes : (S → S) → Call S (Unit {0})
  changes f s = (ok tt, f s)

  abbrev pub requires : Bool → Error → Call S (Unit {0})
  requires b e = if b then returns tt else throws e

  abbrev pub when : Bool → Call S (Unit {0}) → Call S (Unit {0})
  when b m = if b then m else returns tt

  abbrev pub handled : {A : Type 0} → (Error → Bool) → Call S A → Result A × S → Result A × S
  handled caught handler (ok a, s) = (ok a, s)
  handled caught handler (err e, s) = if caught e then handler s else (err e, s)

  -- `try { m } catch (caught) { handler }`
  abbrev pub try_call : {A : Type 0} → (Error → Bool) → Call S A → Call S A → Call S A
  try_call caught handler m s = handled caught handler (m s)

  abbrev pub put_back : {A T : Type 0} → (S → T) → Result A × S → Result A × T
  put_back put (r, s) = (r, put s)

-- A call on a part of the state.
abbrev pub within : {S T A : Type 0} → (T → S) → (S → T → T) → Call S A → Call T A
within get put m t = put_back (λ s. put s t) (m (get t))
