-- ===== src/MovingAverage.antt =====
-- MovingAverage.hpp and MovingAverage.cpp: a window of the values seen last.
pub mod Window
pub mod Resized
use ldacs_mcsotdma.Prelude.{
  ℕ, zero, suc, ◌+◌, ◌-◌, Bool, true, false, leb, ltb, ◌==◌, List, [], ◌∷◌, ◌++◌, length, take, set,
  drop, replicate, if◌then◌else◌, Option, none, some, get_elem?,
}
use ldacs_mcsotdma.Prelude.Result.{Result, ok, err, runtime_error, out_of_range}

pub record MovingAverage : Type 0 where
  pub values : List ℕ
  pub index : ℕ
  pub has_been_updated : Bool

abbrev pub moving_average : ℕ → MovingAverage
moving_average num_values = record {
  values = replicate num_values 0;
  index = 0;
  has_been_updated = false;
}

-- `put`: the flag is set before the test that throws.
unfoldable pub put : ℕ → MovingAverage → Result (Unit {0}) × MovingAverage
put value m =
    if length m.values == 0
    then (err runtime_error, record m { has_been_updated = true })
    else if leb m.index (length m.values - 1)
    then (
      ok tt,
      record { values = set m.values m.index value; index = m.index + 1; has_been_updated = true },
    )
    else (ok tt, record m { values = drop 1 m.values ++ value ∷ []; has_been_updated = true })

unfoldable pub sum : List ℕ → ℕ
sum [] = 0
sum (x ∷ xs) = x + sum xs

-- A quotient that the source computes in `double`.
pub record Quotient : Type 0 where
  pub numerator : ℕ
  pub denominator : ℕ

unfoldable pub get : MovingAverage → Quotient
unfolding sum
get m = if m.index == 0 then record { numerator = 0; denominator = 1 } else record {
  numerator = sum m.values;
  denominator = if ltb m.index (length m.values) then m.index else length m.values;
}

abbrev pub reset : MovingAverage → MovingAverage
reset m = record m { has_been_updated = false }

abbrev pub has_reached_num_values : MovingAverage → Bool
has_reached_num_values m = leb (length m.values) m.index

-- The loop of the constructor that copies another average; its counter is the new index, and
-- `rounds` are left.
unfoldable pub copy_values : List ℕ → ℕ → MovingAverage → Result MovingAverage
copy_values old zero m = ok m
copy_values old (suc rounds) m = elim (get_elem? old m.index) [
  | none ↦ err out_of_range
  | some v ↦
      copy_values old rounds (record m { values = set m.values m.index v; index = m.index + 1 })
]

-- `MovingAverage(const MovingAverage&, unsigned int)`
unfoldable pub resized : MovingAverage → ℕ → Result MovingAverage
unfolding copy_values
resized old num_values =
    copy_values old.values (if ltb old.index num_values then old.index else num_values)
      (moving_average num_values)
