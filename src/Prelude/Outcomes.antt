-- ===== src/Prelude/Outcomes.antt =====
-- What calls come to of which a part is known to throw.
use mathlib.Core.Path.{◌≡◌, ap}
use ldacs_mcsotdma.Prelude.Result.{Result, ok, err, Error}
use ldacs_mcsotdma.Prelude.Calls.{Call, proceed}

pub proceed_err :
    {S A B : Type 0} (f : A → Call S B) (x : Result A × S) (d : Error)
    → x.0 ≡ err d
    → (proceed f x).0 ≡ err d
proceed_err f (ok b, s) d e = cc e
proceed_err f (err c, s) d e = ap (λ y. (proceed f (y, s)).0) e
